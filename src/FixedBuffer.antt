-- ===== src/FixedBuffer.antt =====
-- telnetServ/telnetServ.h, class template FixedBuffer: a char array with a write cursor.
-- `cur` is `cur_ - data_`. Bytes are only moved, so a byte is any number.
pub mod Contents
mod Tests
use telnet_serv.Prelude.{
  ℕ, ◌+◌, ◌-◌, ◌%◌, ◌^◌, Bool, List, ◌++◌, ltb, if◌then◌else◌, take, drop, replicate,
}

-- memcpy(dst + off, src, len), inside `dst`.
unfoldable pub memcpy : List ℕ → ℕ → List ℕ → ℕ → List ℕ
memcpy dst off src len = take off dst ++ (take len src ++ drop (off + len) dst)

pub record FixedBuffer : Type 0 where
  pub chars : List ℕ
  pub cur : ℕ

-- FixedBuffer(): the array is not initialised, and holds whatever the memory held.
unfoldable pub init : List ℕ → FixedBuffer
init memory = record { chars = memory; cur = 0 }

-- The comparison of two 64-bit patterns as signed integers.
unfoldable pub signed_lt : ℕ → ℕ → Bool
signed_lt a b = ltb ((a + 2 ^ 63) % 2 ^ 64) ((b + 2 ^ 63) % 2 ^ 64)

-- `size` is the template's SIZE.
module _ (size : ℕ) where
  -- int avail(), sign-extended to 64 bits: `end() - cur_`.
  unfoldable pub avail : FixedBuffer → ℕ
  avail b = (2 ^ 64 + size - b.cur) % 2 ^ 64

  -- `implicit_cast<size_t>(avail()) > len`, else nothing is written.
  unfoldable pub append : FixedBuffer → List ℕ → ℕ → FixedBuffer
  unfolding avail memcpy
  append b buf len =
      if ltb len (avail b)
      then record b { chars = memcpy b.chars b.cur buf len; cur = b.cur + len }
      else b

  unfoldable pub bzero : FixedBuffer → FixedBuffer
  bzero b = record b { chars = replicate size 0 }

-- int length()
abbrev pub buf_length : FixedBuffer → ℕ
buf_length b = b.cur

unfoldable pub add : FixedBuffer → ℕ → FixedBuffer
add b len = record b { cur = b.cur + len }

unfoldable pub reset_data : FixedBuffer → FixedBuffer
reset_data b = record b { cur = 0 }

-- std::string(data_, length())
unfoldable pub as_string : FixedBuffer → List ℕ
as_string b = take b.cur b.chars
