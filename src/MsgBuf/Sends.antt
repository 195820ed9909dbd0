-- ===== src/MsgBuf/Sends.antt =====
-- What the log thread sends to a client that is there, on a network that recovers.
use telnet_serv.Prelude.{
  ℕ, ◌≤◌, ◌<◌, ◌≡◌, refl, sym, ap, ◌∙◌, true, Option, some, List, [], ◌∷◌, ◌++◌, ◌==◌, length,
  length-take, arith, concat, append_assoc, append-nil, take_all, Bool-cases, inl, inr,
}
use telnet_serv.Os.{World, delivered}
use telnet_serv.Sock.{send_msg_to_terminal}
use telnet_serv.Sock.Delivery.{Recovers, sock_send_delivers}
use telnet_serv.FixedBuffer.{FixedBuffer, as_string}
use telnet_serv.MsgBuf.{Writer, messages, drop_excess}
use telnet_serv.MsgBuf.Threads.{
  System, Phase, starting, head, waiting, writing, finished, Action, log, stop, begin, enter, wake,
  write,
}
use telnet_serv.MsgBuf.Inv.{IsSize, All, PhaseInv, Inv}
use telnet_serv.MsgBuf.Round.{drop_excess_lem}
use telnet_serv.MsgBuf.Hands.{handed}
use telnet_serv.MsgBuf.Output.{send_messages, hand_over}

-- No message is longer than `n`.
abbrev AllFit : ℕ → List (List ℕ) → Type 0
AllFit n [] = Unit {0}
AllFit n (m ∷ ms) = (length m ≤ n) × AllFit n ms

messages-AllFit : (size : ℕ) (bs : List FixedBuffer) → All size bs → AllFit size (messages bs)
unfolding messages as_string
messages-AllFit size [] all = tt
messages-AllFit size (b ∷ bs) all =
    let rest = messages-AllFit size bs all.1 in
    elim (Bool-cases (b.cur == 0)) [
      | inl e ↦ rw e rest
      | inr e ↦ rw e (omega (arith, length-take b.cur b.chars, all.0.inside), rest)
    ]

PhaseInv-All : (size : ℕ) (ph : Phase) (w : Writer) → PhaseInv size ph w → All size w.to_write
PhaseInv-All size writing w v = v.2
PhaseInv-All size starting w v = rw (v.2) tt
PhaseInv-All size head w v = rw (v.2) tt
PhaseInv-All size waiting w v = rw (v.2) tt
PhaseInv-All size finished w v = rw (v.2) tt

handed-AllFit : (size : ℕ) (a : Action) (s : System) → Inv size s → AllFit size (handed a s)
handed-AllFit size (log client logline len) s v = tt
handed-AllFit size stop s v = tt
handed-AllFit size begin s v = tt
handed-AllFit size enter s v = tt
handed-AllFit size wake s v = tt
handed-AllFit size write s v =
    messages-AllFit size (drop_excess s.writer.to_write)
      (drop_excess_lem size s.writer.to_write (PhaseInv-All size s.phase s.writer v.phase_inv)).0

-- A network that recovers within three tries, in states with `P`, in which the client is there.
module _ {W : Type 0} (send : ℕ → List ℕ → W → Option ℕ × W) (client : W → Option ℕ) (sock : ℕ)
    (P : W → Type 0) (recovers : Recovers send sock P)
    (there : (os : W) → P os → client os ≡ some sock) (size : ℕ) (memory : List ℕ)
    (sized : IsSize size memory) (fuel : ℕ) (enough : size < fuel) where
  -- It comes to an end with exactly `bytes` more at the client.
  abbrev pub Sends : List ℕ → World W → Option (World W) → Type 0
  Sends bytes w o =
      (w' : World W) × (o ≡ some w')
      × (delivered sock w'.trace ≡ delivered sock w.trace ++ bytes)
      × P w'.os

  send_msg-Sends :
      (m : List ℕ) (w : World W)
      → length m ≤ size
      → P w.os
      → (w' : World W) × (send_msg_to_terminal send fuel (client w.os) (some m) (length m) w
          ≡ some (true, w'))
        × (delivered sock w'.trace ≡ delivered sock w.trace ++ m)
        × P w'.os
  unfolding send_msg_to_terminal
  send_msg-Sends m w fits p =
      let (w', e, got, p') =
        sock_send_delivers send sock P recovers fuel m (length m) w (omega arith)
          (omega (arith, sized.fits_int)) (omega (arith, enough)) p in
      (
        w',
        rw (there w.os p) e,
        got ∙ ap (λ bs. delivered sock w.trace ++ bs) (take_all (length m) m (omega arith)),
        p',
      )

  send_messages-Sends :
      (ms : List (List ℕ)) (w : World W)
      → AllFit size ms
      → P w.os
      → Sends (concat ms) w (send_messages send client fuel ms w)
  unfolding send_messages
  send_messages-Sends [] w fits p = (w, refl, sym (append-nil (delivered sock w.trace)), p)
  send_messages-Sends (m ∷ ms) w fits p =
      let (w1, e1, got1, p1) = send_msg-Sends m w fits.0 p in
      let (w2, e2, got2, p2) = send_messages-Sends ms w1 fits.1 p1 in
      (
        w2,
        rw (send_messages, e1) e2,
        got2 ∙ rw (got1, append_assoc (delivered sock w.trace) m (concat ms)),
        p2,
      )

  pub hand_over-Sends :
      (a : Action) (s : System) (w : World W)
      → Inv size s
      → P w.os
      → Sends (concat (handed a s)) w (hand_over send client fuel a s w)
  unfolding hand_over
  hand_over-Sends a s w v p = send_messages-Sends (handed a s) w (handed-AllFit size a s v) p
