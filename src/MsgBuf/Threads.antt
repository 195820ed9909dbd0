-- ===== src/MsgBuf/Threads.antt =====
-- The threads that share the message buffers: the log thread of LogOutPutFun, and those that call
-- appendToMsgBuf, in any interleaving of their critical sections.
use telnet_serv.Prelude.{ℕ, Bool, true, false, not, some, List, [], ◌∷◌, ◌++◌, ◌&&◌, if◌then◌else◌}
use telnet_serv.FixedBuffer
use telnet_serv.FixedBuffer.{FixedBuffer, bzero}
use telnet_serv.MsgBuf.{
  MsgBuf, Writer, Outcome, moved, blocked, fault, ◌>>=◌, append_to_msg_buf, swap_buffers,
  write_buffers, spare_ok,
}

-- Where the log thread stands: just started, at the head of its loop, in waitForSeconds, behind the critical
-- section, or past the loop.
pub data Phase : Type 0 where
  starting head waiting writing finished : Phase

-- `handed_on` are the messages that the log thread has passed to sendMsgToTerminal so far, in
-- order; what that does with them is MsgBuf/Output.antt.
pub record System : Type 0 where
  pub msg : MsgBuf
  pub writer : Writer
  pub phase : Phase
  pub running : Bool
  pub handed_on : List (List ℕ)

-- A program thread logs `len` bytes of a line, with or without a client; `destory` stops the loop;
-- the log thread begins, enters its loop, wakes up (notified, by its timeout, or for no reason), or writes.
pub data Action : Type 0 where
  log : (client : Bool) → (logline : List ℕ) → (len : ℕ) → Action
  stop begin enter wake write : Action

abbrev pub is_empty : List FixedBuffer → Bool
is_empty [] = true
is_empty (b ∷ bs) = false

-- The critical section behind the wait, and assert(!buffersToWrite.empty()).
unfoldable pub take_over : System → Outcome System
unfolding swap_buffers
take_over s = do
  (m, w) ← swap_buffers s.msg s.writer
  if is_empty w.to_write then fault else moved (record s { msg = m; writer = w; phase = writing })

-- `if (buffers_.empty()) cond_.waitForSeconds(flushInterval_)`
unfoldable pub wait_if_empty : List FixedBuffer → System → Outcome System
unfolding take_over
wait_if_empty [] s = moved (record s { msg = record s.msg { notified = false }; phase = waiting })
wait_if_empty (b ∷ bs) s = take_over s

-- The three asserts at the head of the loop.
unfoldable pub asserts_hold : Writer → Bool
asserts_hold w = spare_ok w.new1 && (spare_ok w.new2 && is_empty w.to_write)

-- One round of `while (isRunning_)`, up to the wait or past the critical section.
unfoldable pub enter_loop : System → Outcome System
unfolding wait_if_empty asserts_hold
enter_loop s =
    if not s.running
    then moved (record s { phase = finished })
    else if asserts_hold s.writer
    then wait_if_empty s.msg.buffers s
    else fault

-- assert(isRunning_ == true), at the start of the thread.
unfoldable pub begin_loop : System → Outcome System
begin_loop s = if s.running then moved (record s { phase = head }) else fault

unfoldable pub write_out : System → Outcome System
unfolding write_buffers
write_out s = do
  (ms, w) ← write_buffers s.writer
  moved (record s { writer = w; phase = head; handed_on = s.handed_on ++ ms })

module _ (size : ℕ) (memory : List ℕ) where
  -- TelnetServer(), isRunning_ = true, and logThread_.start(), which does not wait for the thread;
  -- two buffers each, those of the members and those of the log thread set to zero.
  unfoldable pub init : System
  unfolding bzero FixedBuffer.init
  init = record {
    msg = record { current = some fresh; next = some fresh; buffers = []; notified = false };
    writer = record { new1 = some fresh; new2 = some fresh; to_write = [] };
    phase = starting;
    running = true;
    handed_on = [];
  }
    where
      fresh : FixedBuffer
      fresh = bzero size (FixedBuffer.init memory)

  unfoldable pub step : System → Action → Outcome System
  unfolding begin_loop enter_loop write_out take_over append_to_msg_buf
  step s (log client logline len) = do
    m ← append_to_msg_buf size memory client logline len s.msg
    moved (record s { msg = m })
  step s stop = moved (record s { running = false; msg = record s.msg { notified = true } })
  step s begin = elim s.phase [ starting ↦ begin_loop s | _ ↦ blocked ]
  step s enter = elim s.phase [ head ↦ enter_loop s | _ ↦ blocked ]
  step s wake = elim s.phase [ waiting ↦ take_over s | _ ↦ blocked ]
  step s write = elim s.phase [ writing ↦ write_out s | _ ↦ blocked ]

  -- A run of the threads: an action that its thread cannot take yet is passed over.
  unfoldable pub run : System → List Action → Outcome System
  unfolding step
  run s [] = moved s
  run s (a ∷ acts) = elim (step s a) [ moved t ↦ run t acts | blocked ↦ run s acts | fault ↦ fault ]
