-- ===== src/MsgBuf/Delivery.antt =====
-- The message buffers with the terminal: what the program's threads log is what the client gets.
use telnet_serv.Prelude.{ℕ, ◌<◌, ◌≡◌, Option, some, List, [], ◌∷◌, ◌++◌, concat}
use telnet_serv.Os.{World, delivered}
use telnet_serv.Sock.Delivery.{Recovers}
use telnet_serv.MsgBuf.{moved}
use telnet_serv.MsgBuf.Threads.{System, Action, step, init, run}
use telnet_serv.MsgBuf.Inv.{IsSize, Inv}
use telnet_serv.MsgBuf.Stream.{IsCall, IsCalm, logged}
use telnet_serv.MsgBuf.Reach.{Reach, start, next}
use telnet_serv.MsgBuf.Hands.{Hands}
use telnet_serv.MsgBuf.Output.{hand_over, run_sending}

-- A network that recovers within three tries, in states with `P`, in which the client is there.
module _ {W : Type 0} (send : ℕ → List ℕ → W → Option ℕ × W) (client : W → Option ℕ) (sock : ℕ)
    (P : W → Type 0) (recovers : Recovers send sock P)
    (there : (os : W) → P os → client os ≡ some sock) (size : ℕ) (memory : List ℕ)
    (sized : IsSize size memory) (fuel : ℕ) (enough : size < fuel) where
  -- The states that the threads can bring about from the start, by actions that find at most 25
  -- buffers at a write, with what the log thread sends, and all bytes that they have logged. In
  -- between, other threads and the network may change the system's state, within `P`.
  pub data SendRun (w0 : World W) : System → World W → List ℕ → Type 0 where
    started : SendRun w0 (init size memory) w0 []
    elsewhere :
        {s : System} {w : World W} {bytes : List ℕ}
        → SendRun w0 s w bytes
        → (os : W) → P os
        → SendRun w0 s (record w { os = os }) bytes
    acted :
        {s t : System} {w w' : World W} {bytes : List ℕ}
        → SendRun w0 s w bytes
        → (a : Action) → IsCall a
        → IsCalm s a
        → step size memory s a ≡ moved t
        → hand_over send client fuel a s w ≡ some w'
        → SendRun w0 t w' (bytes ++ logged a)

  pub SendRun-Reach :
      {w0 : World W} {s : System} {w : World W} {bytes : List ℕ}
      → SendRun w0 s w bytes
      → Reach size memory IsCalm s bytes
  SendRun-Reach started = start
  SendRun-Reach (elsewhere r os p) = SendRun-Reach r
  SendRun-Reach (acted r a call calm e put) = next (SendRun-Reach r) a call calm e

  -- The client has got what was handed on since the start.
  abbrev Has : World W → System → World W → Type 0
  Has w0 s w = (delivered sock w.trace ≡ delivered sock w0.trace ++ concat s.handed_on) × P w.os

  abbrev AreCalls : List Action → Type 0
  AreCalls [] = Unit {0}
  AreCalls (a ∷ acts) = IsCall a × AreCalls acts

  -- A run of the threads that comes to an end does so with its sends.
  abbrev Ends : World W → System → List Action → Type 0
  Ends w0 t acts =
      (s : System) (w : World W)
      → AreCalls acts
      → Inv size s
      → Has w0 s w
      → run size memory s acts ≡ moved t
      → (w' : World W) × (run_sending send client fuel size memory acts s w ≡ some (t, w'))
        × Has w0 t w'
