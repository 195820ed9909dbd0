-- ===== src/Terminal/Delivery.antt =====
-- pushMsgToTerminalImmidate: a text below 2000 bytes reaches the client whole, where the network
-- recovers within three tries, and nothing but the world changes.
use telnet_serv.Prelude.{
  ℕ, ◌<◌, ◌^◌, ◌≡◌, refl, sym, ◌∙◌, true, false, Option, some, List, [], ◌∷◌, ◌++◌, length,
  take_all, arith, leb, ◌==◌, Bool-cases, inl, inr, append-nil, ==→eq,
}
use telnet_serv.Os.{World, delivered}
use telnet_serv.Sock.{send_msg_to_terminal}
use telnet_serv.Sock.Delivery.{Recovers, sock_send_delivers}
use telnet_serv.Terminal.{Exec, ret, Daemon, send_msg, push_msg}

le→leb : (a b : ℕ) → a < b → leb b a ≡ false
le→leb a b h = ground arith

empty_text : (text : List ℕ) → length text ≡ 0 → text ≡ []
empty_text [] h = refl
empty_text (c ∷ cs) h = absurd (omega arith)

module _ {W : Type 0} (send : ℕ → List ℕ → W → Option ℕ × W) (sock fuel : ℕ) (text : List ℕ)
    (d : Daemon W) (c : d.client ≡ some sock) (short : length text < 2000) where
  push_msg-empty : (length text == 0) ≡ true → push_msg send fuel text d ≡ ret d
  unfolding push_msg
  push_msg-empty e = ground arith

  push_msg-send_msg :
      (length text == 0) ≡ false → push_msg send fuel text d ≡ send_msg send fuel text d
  unfolding push_msg
  push_msg-send_msg e = ground arith

module _ {W : Type 0} (send : ℕ → List ℕ → W → Option ℕ × W) (sock : ℕ) (P : W → Type 0)
    (rec : Recovers send sock P) where
  -- The run ended with only the world changed: the client has got the text, in a good state.
  abbrev pub Shows : Daemon W → List ℕ → Exec (Daemon W) → Type 0
  Shows d text o =
      (w : World W) × (o ≡ ret (record d { world = w }))
      × (delivered sock w.trace ≡ delivered sock d.world.trace ++ text)
      × P w.os

  pub send_msg-Shows :
      (fuel : ℕ) (text : List ℕ) (d : Daemon W)
      → d.client ≡ some sock
      → length text < 2 ^ 31
      → length text < fuel
      → P d.world.os
      → Shows d text (send_msg send fuel text d)
  unfolding send_msg send_msg_to_terminal
  send_msg-Shows fuel text d c small f p =
      let (w, e, del, q) =
        sock_send_delivers send sock P rec fuel text (length text) d.world (omega arith) small f
          p in
      (w, rw (c, send_msg_to_terminal, e), del ∙ rw (take_all (length text) text (omega arith)), q)

  -- pushMsgToTerminalImmidate of a text below 2000 bytes to the client, where in every state one of
  -- three tries of send takes a byte: with more fuel than bytes it returns, the client has got
  -- exactly the text, and nothing else has changed.
  pub push_msg_shows :
      (fuel : ℕ) (text : List ℕ) (d : Daemon W)
      → d.client ≡ some sock
      → length text < 2000
      → length text < fuel
      → P d.world.os
      → (w : World W) × (push_msg send fuel text d ≡ ret (record d { world = w }))
        × (delivered sock w.trace ≡ delivered sock d.world.trace ++ text)
        × P w.os
  push_msg_shows fuel text d c short f p = elim (Bool-cases (length text == 0)) [
    | inl e ↦ (
      d.world,
      push_msg-empty send sock fuel text d c short e,
      sym (
          rw (empty_text text (==→eq (length text) 0 e))
            (append-nil (delivered sock d.world.trace))),
      p,
    )
    | inr e ↦
        let (w, eq, del, q) = send_msg-Shows fuel text d c (omega arith) f p in
        (w, push_msg-send_msg send sock fuel text d c short e ∙ eq, del, q)
  ]
