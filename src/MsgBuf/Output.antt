-- ===== src/MsgBuf/Output.antt =====
-- telnetServ/telnetServ.cc, what the loop of LogOutPutFun over buffersToWrite does with each message:
-- sendMsgToTerminal, to the client that is there at that moment.
use telnet_serv.Prelude.{ℕ, Option, none, some, List, [], ◌∷◌, length}
use telnet_serv.Os.{World}
use telnet_serv.Sock.{send_msg_to_terminal}
use telnet_serv.MsgBuf.{moved, blocked, fault}
use telnet_serv.MsgBuf.Threads.{System, Action, step}
use telnet_serv.MsgBuf.Hands.{handed}

-- `client` is what the log thread reads in sockClient_ at a call, which another thread may change
-- at any time; `fuel` bounds the rounds of SockSend.
module _ {W : Type 0} (send : ℕ → List ℕ → W → Option ℕ × W) (client : W → Option ℕ)
    (fuel : ℕ) where
  -- `sendMsgToTerminal(buffersToWrite[i].data(), buffersToWrite[i].length())` for each message; the
  -- results are not looked at, and nothing is sent where there is no client.
  unfoldable pub send_messages : List (List ℕ) → World W → Option (World W)
  send_messages [] w = some w
  send_messages (m ∷ ms) w =
      elim (send_msg_to_terminal send fuel (client w.os) (some m) (length m) w) [
        | none ↦ none
        | some (ok, w') ↦ send_messages ms w'
      ]

  -- What an action of the threads sends.
  unfoldable pub hand_over : Action → System → World W → Option (World W)
  unfolding send_messages
  hand_over a s w = send_messages (handed a s) w

  -- A run of the threads with what it sends; an action that its thread cannot take yet is passed
  -- over.
  unfoldable pub run_sending :
      (size : ℕ) (memory : List ℕ) → List Action → System → World W → Option (System × World W)
  unfolding hand_over step
  run_sending size memory [] s w = some (s, w)
  run_sending size memory (a ∷ acts) s w = elim (step size memory s a) [
    | moved t ↦ elim (hand_over a s w) [ none ↦ none | some w' ↦ run_sending size memory acts t w' ]
    | blocked ↦ run_sending size memory acts s w
    | fault ↦ none
  ]
