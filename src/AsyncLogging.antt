-- ===== src/AsyncLogging.antt =====
-- muduo/base/AsyncLogging.cc and AsyncLogging.h: the log's buffers, which the program's threads fill
-- and a thread of its own writes to a log file. The members, the head of the loop and the critical
-- section are those of TelnetServer's message buffers, statement for statement, and are named from
-- there; what is appended, what is dropped and what is written out is not the same.
pub mod Stream
pub mod Reach
pub mod Output
pub mod Hands
pub mod Files
pub mod Round
mod Tests
use telnet_serv.Prelude.{
  ℕ, ◌-◌, Bool, true, false, none, some, Option, List, [], ◌∷◌, ◌++◌, map, ltb, if◌then◌else◌,
  length, take,
}
use telnet_serv.FixedBuffer
use telnet_serv.FixedBuffer.{FixedBuffer, avail, signed_lt, as_string, bzero}
use telnet_serv.Terminal.{codes, decimal}
use telnet_serv.MsgBuf.{
  MsgBuf, Writer, Outcome, moved, blocked, fault, ◌>>=◌, deref, spare_or_new, recycle, resize_two,
}
use telnet_serv.MsgBuf.Threads.{
  System, Phase, starting, head, waiting, writing, begin_loop, enter_loop, take_over,
}

-- buffersToWrite.erase(begin() + 2, end()) above 25 buffers
unfoldable pub drop_excess : List FixedBuffer → List FixedBuffer
drop_excess bs = if ltb 25 (length bs) then take 2 bs else bs

-- snprintf(buf, 256, "Dropped log messages at %s, %zd larger buffers\n", ...)
unfoldable pub dropped_text : List ℕ → ℕ → List ℕ
unfolding decimal
dropped_text when n = take 255 (
    codes "Dropped log messages at "
    ++ (when ++ (codes ", " ++ (decimal 20 n [] ++ codes " larger buffers\n"))))

-- What a round hands to output.append, in order; `when` is the time's text.
unfoldable pub chunks : List ℕ → List FixedBuffer → List (List ℕ)
chunks when bs =
    (if ltb 25 (length bs) then dropped_text when (length bs - 2) ∷ [] else [])
    ++ map as_string (drop_excess bs)

-- threadFunc behind the critical section, up to `output.flush()`.
unfoldable pub write_buffers : List ℕ → Writer → Outcome (List (List ℕ) × Writer)
unfolding recycle drop_excess resize_two chunks
write_buffers when w = do
  (b1, rest1) ← recycle w.new1 (resize_two (drop_excess w.to_write))
  (b2, rest2) ← recycle w.new2 rest1
  moved (chunks when w.to_write, record { new1 = some b1; new2 = some b2; to_write = [] })

unfoldable pub write_out : List ℕ → System → Outcome System
unfolding write_buffers
write_out when s = do
  (ms, w) ← write_buffers when s.writer
  moved (record s { writer = w; phase = head; handed_on = s.handed_on ++ ms })

-- A thread appends `len` bytes of a line; `stop` clears running_ and notifies; the log's thread
-- enters its loop, wakes up, or writes.
pub data Action : Type 0 where
  log : (logline : List ℕ) → (len : ℕ) → Action
  stop begin enter wake : Action
  write : (when : List ℕ) → Action

-- `size` is kLargeBuffer, and `memory` what a new Buffer's array holds.
module _ (size : ℕ) (memory : List ℕ) where
  -- void append(const char* logline, int len)
  unfoldable pub append : List ℕ → ℕ → MsgBuf → Outcome MsgBuf
  unfolding spare_or_new
  append logline len m = do
    cur ← deref m.current
    if signed_lt len (avail size cur)
        then moved (record m { current = some (FixedBuffer.append size cur logline len) })
        else moved (record {
          current = some (FixedBuffer.append size (spare_or_new size memory m.next) logline len);
          next = none;
          buffers = m.buffers ++ cur ∷ [];
          notified = true;
        })

  -- AsyncLogging(...), and start() up to thread_.start(). The wait for latch_ that follows keeps
  -- the caller of start() back until the thread has begun; another thread may call stop() before.
  unfoldable pub init : System
  unfolding bzero FixedBuffer.init
  init = record {
    msg = record { current = some fresh; next = some fresh; buffers = []; notified = false };
    writer = record { new1 = some fresh; new2 = some fresh; to_write = [] };
    phase = starting;
    running = true;
    handed_on = [];
  }
    where
      fresh : FixedBuffer
      fresh = bzero size (FixedBuffer.init memory)

  unfoldable pub step : System → Action → Outcome System
  unfolding append begin_loop enter_loop take_over write_out
  step s (log logline len) = do m ← append logline len s.msg; moved (record s { msg = m })
  step s stop = moved (record s { running = false; msg = record s.msg { notified = true } })
  step s begin = elim s.phase [ starting ↦ begin_loop s | _ ↦ blocked ]
  step s enter = elim s.phase [ head ↦ enter_loop s | _ ↦ blocked ]
  step s wake = elim s.phase [ waiting ↦ take_over s | _ ↦ blocked ]
  step s (write when) = elim s.phase [ writing ↦ write_out when s | _ ↦ blocked ]
