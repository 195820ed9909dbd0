-- ===== src/FixedBuffer/Contents.antt =====
-- FixedBuffer: what the buffer holds after each operation, and that no write leaves the array.
use telnet_serv.Prelude.{
  ℕ, ◌+◌, ◌-◌, ◌^◌, ◌≤◌, ◌<◌, ◌≡◌, refl, ◌∙◌, List, [], ◌++◌, append_assoc, arith, ltb, lt→ltb,
  le→ltb, length, take, drop, length-append, length-take, length-drop, take_of_length,
}
use telnet_serv.FixedBuffer.{
  FixedBuffer, memcpy, init, avail, append, reset_data, as_string, signed_lt,
}

-- `memcpy` inside the array keeps its length.
pub length-memcpy :
    (dst : List ℕ) (off : ℕ) (src : List ℕ) (len : ℕ)
    → off + len ≤ length dst
    → len ≤ length src
    → length (memcpy dst off src len) ≡ length dst
unfolding memcpy
length-memcpy dst off src len h k = omega (
  arith,
  length-append (take off dst) (take len src ++ drop (off + len) dst),
  length-append (take len src) (drop (off + len) dst),
  length-take off dst,
  length-take len src,
  length-drop (off + len) dst,
)

-- After `memcpy` at the offset, the bytes up to its end are the old prefix and the source.
pub take-memcpy :
    (dst : List ℕ) (off : ℕ) (src : List ℕ) (len : ℕ)
    → off ≤ length dst
    → len ≤ length src
    → take (off + len) (memcpy dst off src len) ≡ take off dst ++ take len src
unfolding memcpy
take-memcpy dst off src len h k =
    rw (← append_assoc (take off dst) (take len src) (drop (off + len) dst)) (
      take_of_length (off + len) (take off dst ++ take len src) (drop (off + len) dst) (
        omega (
          arith,
          length-append (take off dst) (take len src),
          length-take off dst,
          length-take len src,
        )))

module _ (size : ℕ) where
  -- The array has `size` bytes and the cursor stands in it, or at its end.
  pub record IsValid (b : FixedBuffer) : Type 0 where
    pub whole : length b.chars ≡ size
    pub inside : b.cur ≤ size

  pub init-IsValid : (memory : List ℕ) → length memory ≡ size → IsValid (init memory)
  unfolding init
  init-IsValid memory h = record { whole = h; inside = omega arith }

  pub avail-IsValid : (b : FixedBuffer) → size < 2 ^ 31 → b.cur ≤ size → avail size b ≡ size - b.cur
  unfolding avail
  avail-IsValid b h k = omega arith

  -- Between numbers below 2^63 the signed comparison is that of the numbers.
  pub signed_lt_small : (a b : ℕ) → a < 2 ^ 63 → b < 2 ^ 63 → signed_lt a b ≡ ltb a b
  unfolding signed_lt
  signed_lt_small a b h k = ground arith

  -- Where `len` bytes and one more fit, `append` writes them behind the contents.
  pub append_fits :
      (b : FixedBuffer) (buf : List ℕ) (len : ℕ)
      → size < 2 ^ 31
      → IsValid b
      → len ≤ length buf
      → b.cur + len < size
      → IsValid (append size b buf len)
        × (as_string (append size b buf len) ≡ as_string b ++ take len buf)
        × ((append size b buf len).cur ≡ b.cur + len)
  unfolding append as_string
  append_fits b buf len small v src room =
      rw (lt→ltb len (avail size b) (omega (arith, avail-IsValid b small v.inside))) (
        record {
          whole = length-memcpy b.chars b.cur buf len (omega (arith, v.whole)) src ∙ v.whole;
          inside = omega arith;
        },
        take-memcpy b.chars b.cur buf len (omega (arith, v.whole, v.inside)) src,
        refl,
      )

  -- Otherwise it leaves the buffer as it was.
  pub append_full :
      (b : FixedBuffer) (buf : List ℕ) (len : ℕ)
      → size < 2 ^ 31
      → IsValid b
      → size ≤ b.cur + len
      → append size b buf len ≡ b
  unfolding append
  append_full b buf len small v full =
      rw (le→ltb len (avail size b) (omega (arith, avail-IsValid b small v.inside))) refl

  -- `resetData` empties a buffer, and keeps it valid.
  pub reset_data-IsValid :
      (b : FixedBuffer) → IsValid b → IsValid (reset_data b) × (as_string (reset_data b) ≡ [])
  unfolding reset_data as_string
  reset_data-IsValid b v = (record { whole = v.whole; inside = omega arith }, refl)
