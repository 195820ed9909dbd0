-- ===== src/AsyncLogging/Output.antt =====
-- muduo/base/AsyncLogging.cc, `output` of threadFunc: the log file that the log's thread makes, and
-- what it does with it in each round.
use telnet_serv.Prelude.{ℕ, false, Option, some, List, [], if◌then◌else◌}
use telnet_serv.MsgBuf.Threads.{System}
use telnet_serv.LogFile.{LogFile, ◌>>=◌, new_log_file, flush}
use telnet_serv.LogFile.Dirs.{Host}
use telnet_serv.LogFile.Total.{append_all}
use telnet_serv.AsyncLogging.{Action, enter, write, chunks}

module _ (h : Host) where
  open h use {W}

  -- LogFile output(basename_, rollSize_, logFilePath_, false), with the other arguments' defaults.
  unfoldable pub output : List ℕ → ℕ → List ℕ → W → Option (LogFile h × W)
  output basename roll_size path w = new_log_file h basename roll_size path 3 1024 120 w

  -- Appends of these chunks, and `output.flush()`.
  unfoldable pub write_round : List (List ℕ) → LogFile h → W → Option (LogFile h × W)
  write_round ms f w = do (f', w1) ← append_all h false ms f w; w2 ← flush h f' w1; some (f', w2)

  -- What an action of the log's threads does with `output`: the writing of a round, and the flush
  -- behind the loop.
  unfoldable pub hand_over : Action → System → LogFile h → W → Option (LogFile h × W)
  unfolding write_round chunks
  hand_over (write when) s f w = write_round (chunks when s.writer.to_write) f w
  hand_over enter s f w = if s.running then some (f, w) else write_round [] f w
  hand_over _ s f w = some (f, w)
