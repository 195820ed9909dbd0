-- ===== src/MsgBuf.antt =====
-- telnetServ/telnetServ.cc, appendToMsgBuf and LogOutPutFun: the message buffers that the threads
-- of the program fill and the log thread empties, by turns of two spare buffers.
pub mod Threads
pub mod Inv
pub mod Append
pub mod Round
pub mod Stream
pub mod Reach
pub mod Flush
pub mod Hands
pub mod Output
pub mod Sends
pub mod Delivery
mod Tests
use telnet_serv.Prelude.{
  ℕ, zero, suc, ◌-◌, Bool, true, false, not, Option, none, some, List, [], ◌∷◌, ◌++◌, ltb, ◌==◌,
  if◌then◌else◌, length, take, drop,
}
use telnet_serv.FixedBuffer.{FixedBuffer, avail, append, signed_lt, reset_data, as_string}
use telnet_serv.FixedBuffer

-- MAX_LOG_MSG_LEN
abbrev pub max_log_msg_len : ℕ
max_log_msg_len = 2000

-- The members that mutex_ guards. A null pointer is `none`; `notified` says that cond_ was notified
-- since the log thread last began to wait.
pub record MsgBuf : Type 0 where
  pub current : Option FixedBuffer
  pub next : Option FixedBuffer
  pub buffers : List FixedBuffer
  pub notified : Bool

-- The local variables of LogOutPutFun.
pub record Writer : Type 0 where
  pub new1 : Option FixedBuffer
  pub new2 : Option FixedBuffer
  pub to_write : List FixedBuffer

-- What an action comes to: `fault` is a failed assert or the use of a null pointer.
pub data Outcome {ℓ} (A : Type ℓ) : Type ℓ where
  moved : A → Outcome A
  blocked : Outcome A
  fault : Outcome A

infixl 5 ◌>>=◌
abbrev pub ◌>>=◌ {ℓ κ} : {A : Type ℓ} {B : Type κ} → Outcome A → (A → Outcome B) → Outcome B
moved a >>= f = f a
blocked >>= f = blocked
fault >>= f = fault

abbrev pub deref {ℓ} : {A : Type ℓ} → Option A → Outcome A
deref none = fault
deref (some a) = moved a

-- ptr_vector::pop_back
unfoldable pub pop_back {ℓ} : {A : Type ℓ} → List A → Option (List A × A)
pop_back [] = none
pop_back (x ∷ xs) = elim (pop_back xs) [ none ↦ some ([], x) | some (r, y) ↦ some (x ∷ r, y) ]

-- `size` is kLargeBuffer, and `memory` what a new Buffer's array holds.
module _ (size : ℕ) (memory : List ℕ) where
  -- nextBuffer_, or a new Buffer
  unfoldable pub spare_or_new : Option FixedBuffer → FixedBuffer
  spare_or_new (some b) = b
  spare_or_new none = FixedBuffer.init memory

  -- The part of appendToMsgBuf under the lock.
  unfoldable pub append_locked : List ℕ → ℕ → MsgBuf → Outcome MsgBuf
  unfolding spare_or_new
  append_locked logline len m = do
    cur ← deref m.current
    if signed_lt len (avail size cur)
        then moved (record m { current = some (append size cur logline len) })
        else moved (record {
          current = some (append size (spare_or_new m.next) logline len);
          next = none;
          buffers = m.buffers ++ cur ∷ [];
          notified = true;
        })

  -- void appendToMsgBuf(const char* logline, int len); `client` is isHaveTelnetClient().
  unfoldable pub append_to_msg_buf : Bool → List ℕ → ℕ → MsgBuf → Outcome MsgBuf
  append_to_msg_buf client logline len m =
      if not client
      then moved m
      else if ltb max_log_msg_len len
      then moved m
      else append_locked logline len m

-- `if (!nextBuffer_) nextBuffer_ = move(newBuffer2)`: what both pointers are then.
unfoldable pub refill_next : Option FixedBuffer → Option FixedBuffer → Option FixedBuffer
refill_next none new2 = new2
refill_next (some b) new2 = some b

unfoldable pub left_over : Option FixedBuffer → Option FixedBuffer → Option FixedBuffer
left_over none new2 = none
left_over (some b) new2 = new2

-- The critical section of LogOutPutFun from `buffers_.push_back` on.
unfoldable pub swap_buffers : MsgBuf → Writer → Outcome (MsgBuf × Writer)
unfolding refill_next left_over
swap_buffers m w = do
  cur ← deref m.current
  moved (
    record {
      current = w.new1;
      next = refill_next m.next w.new2;
      buffers = w.to_write;
      notified = false;
    },
    record { new1 = none; new2 = left_over m.next w.new2; to_write = m.buffers ++ cur ∷ [] },
  )

-- `if (buffersToWrite.size() > 25) erase(begin(), end() - 2)`
unfoldable pub drop_excess : List FixedBuffer → List FixedBuffer
drop_excess bs = if ltb 25 (length bs) then drop (length bs - 2) bs else bs

-- The messages that the loop over buffersToWrite hands to sendMsgToTerminal.
unfoldable pub messages : List FixedBuffer → List (List ℕ)
messages [] = []
messages (b ∷ bs) = if b.cur == 0 then messages bs else as_string b ∷ messages bs

-- `if (buffersToWrite.size() > 2) resize(2)`
unfoldable pub resize_two : List FixedBuffer → List FixedBuffer
resize_two bs = if ltb 2 (length bs) then take 2 bs else bs

-- `if (!newBuffer) { assert(!empty()); newBuffer = pop_back(); newBuffer->resetData(); }`
unfoldable pub recycle :
    Option FixedBuffer → List FixedBuffer → Outcome (FixedBuffer × List FixedBuffer)
unfolding pop_back reset_data
recycle (some b) bs = moved (b, bs)
recycle none bs = do (rest, b) ← deref (pop_back bs); moved (reset_data b, rest)

-- From the drop to `buffersToWrite.clear()`: the messages handed on, and the locals afterwards.
unfoldable pub write_buffers : Writer → Outcome (List (List ℕ) × Writer)
unfolding recycle drop_excess resize_two messages
write_buffers w = do
  let kept = drop_excess w.to_write
  (b1, rest1) ← recycle w.new1 (resize_two kept)
  (b2, rest2) ← recycle w.new2 rest1
  moved (messages kept, record { new1 = some b1; new2 = some b2; to_write = [] })

-- assert(newBuffer && newBuffer->length() == 0)
abbrev pub spare_ok : Option FixedBuffer → Bool
spare_ok none = false
spare_ok (some b) = b.cur == 0
