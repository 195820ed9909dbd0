-- ===== src/AsyncLogging/Hands.antt =====
-- What each action of the asynchronous log hands to its log file.
use telnet_serv.Prelude.{ℕ, ◌≡◌, refl, ap, List, [], ◌++◌}
use telnet_serv.MsgBuf.{Writer, recycle, resize_two}
use telnet_serv.MsgBuf.Threads.{System, Phase, starting, head, waiting, writing, finished}
use telnet_serv.MsgBuf.Hands.{
  Moved, Moved-bind, Any, Moved-Any, Hands, nothing, take_over-Hands, begin_loop-Hands,
  enter_loop-Hands,
}
use telnet_serv.AsyncLogging.{
  Action, log, stop, begin, enter, wake, write, append, chunks, step, write_out, write_buffers,
  drop_excess,
}

-- What an action hands to the log file.
abbrev pub handed : Action → System → List (List ℕ)
handed (write when) s = chunks when s.writer.to_write
handed _ s = []

write_buffers-chunks :
    (when : List ℕ) (w : Writer)
    → Moved (λ (p : List (List ℕ) × Writer). p.0 ≡ chunks when w.to_write) (write_buffers when w)
unfolding write_buffers
write_buffers-chunks when w =
    Moved-bind Any _ (recycle w.new1 (resize_two (drop_excess w.to_write))) _ (Moved-Any _)
      λ p any. Moved-bind Any _ (recycle w.new2 p.1) _ (Moved-Any _) λ q any'. refl

write_out-Hands :
    (when : List ℕ) (s : System)
    → Moved (Hands s (chunks when s.writer.to_write)) (write_out when s)
unfolding write_out
write_out-Hands when s =
    Moved-bind _ _ (write_buffers when s.writer) _ (write_buffers-chunks when s.writer)
      λ p e. ap (λ (ms : List (List ℕ)). s.handed_on ++ ms) e

module _ (size : ℕ) (memory : List ℕ) where
  pub step-Hands :
      (s : System) (a : Action) (ph : Phase)
      → let t : System = record s { phase = ph } in
        Moved (Hands t (handed a t)) (step size memory t a)
  unfolding step
  step-Hands s (log logline len) ph =
      Moved-bind Any _ (append size memory logline len s.msg) _ (Moved-Any _) λ m any. nothing s
  step-Hands s stop ph = nothing s
  step-Hands s begin starting = begin_loop-Hands (record s { phase = starting })
  step-Hands s begin head = tt
  step-Hands s begin waiting = tt
  step-Hands s begin writing = tt
  step-Hands s begin finished = tt
  step-Hands s enter starting = tt
  step-Hands s enter head = enter_loop-Hands (record s { phase = head })
  step-Hands s enter waiting = tt
  step-Hands s enter writing = tt
  step-Hands s enter finished = tt
  step-Hands s wake waiting = take_over-Hands (record s { phase = waiting })
  step-Hands s wake starting = tt
  step-Hands s wake head = tt
  step-Hands s wake writing = tt
  step-Hands s wake finished = tt
  step-Hands s (write when) writing = write_out-Hands when (record s { phase = writing })
  step-Hands s (write when) starting = tt
  step-Hands s (write when) head = tt
  step-Hands s (write when) waiting = tt
  step-Hands s (write when) finished = tt
