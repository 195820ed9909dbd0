-- ===== src/Terminal/Shown.antt =====
-- Runs that show the client a text and call no registered function, one after the other.
use telnet_serv.Prelude.{
  ℕ, ◌<◌, ◌≡◌, ap, ◌∙◌, Option, none, some, List, [], ◌∷◌, ◌++◌, length, append_assoc, subst, refl,
  arith,
}
use telnet_serv.Os.{World, delivered, calls}
use telnet_serv.Sock.Delivery.{Recovers}
use telnet_serv.Terminal.{Exec, ret, ◌>>=◌, Daemon, codes, push_msg, prompt_show}
use telnet_serv.Terminal.Delivery.{push_msg_shows, send_msg-Shows}
use telnet_serv.Terminal.Calls.{SameCalls, push_msg-SameCalls, prompt_show-SameCalls}

-- What is done for a client only.
pub client_only :
    {A : Type 0} (o : Option ℕ) (sock : ℕ) (x y : A)
    → o ≡ some sock
    → elim o [ none ↦ x | some s ↦ y ] ≡ y
client_only none sock x y e = cc
client_only (some s) sock x y e = refl

module _ {W : Type 0} (sock : ℕ) (P : W → Type 0) where
  -- The run has shown a text and called nothing, and only the world has changed.
  abbrev pub ShowsOnly : Daemon W → List ℕ → Exec (Daemon W) → Type 0
  ShowsOnly d text o =
      (w : World W) × (o ≡ ret (record d { world = w }))
      × (delivered sock w.trace ≡ delivered sock d.world.trace ++ text)
      × (calls w.trace ≡ calls d.world.trace)
      × P w.os

  pub ShowsOnly-bind :
      (d : Daemon W) (text more : List ℕ) (o : Exec (Daemon W)) (f : Daemon W → Exec (Daemon W))
      → ShowsOnly d text o
      → ((w : World W)
          → P w.os
          → ShowsOnly (record d { world = w }) more (f (record d { world = w })))
      → ShowsOnly d (text ++ more) (o >>= f)
  ShowsOnly-bind d text more o f (w1, e1, del1, same1, p1) later =
      let (w2, e2, del2, same2, p2) = later w1 p1 in
      (
        w2,
        rw e1 e2,
        del2 ∙ ap (λ xs. xs ++ more) del1 ∙ append_assoc (delivered sock d.world.trace) text more,
        same2 ∙ same1,
        p2,
      )

module _ {W : Type 0} (send : ℕ → List ℕ → W → Option ℕ × W) (sock : ℕ) (P : W → Type 0)
    (rec : Recovers send sock P) (fuel : ℕ) where
  pub push_msg-ShowsOnly :
      (text : List ℕ) (d : Daemon W)
      → d.client ≡ some sock
      → length text < 2000
      → length text < fuel
      → P d.world.os
      → ShowsOnly sock P d text (push_msg send fuel text d)
  push_msg-ShowsOnly text d c short f p =
      let (w, e, del, q) = push_msg_shows send sock P rec fuel text d c short f p in
      (w, e, del, subst (SameCalls d) e (push_msg-SameCalls send fuel text d), q)

  -- The prompt, with its NUL.
  pub prompt_show-ShowsOnly :
      (d : Daemon W)
      → d.client ≡ some sock
      → 3 < fuel
      → P d.world.os
      → ShowsOnly sock P d (codes "->" ++ 0 ∷ []) (prompt_show send fuel d)
  unfolding prompt_show
  prompt_show-ShowsOnly d c f p =
      let (w, e, del, q) =
        send_msg-Shows send sock P rec fuel (codes "->" ++ 0 ∷ []) d c (omega arith) f p in
      let shown = client_only d.client sock (ret d) _ c ∙ e in
      (w, shown, del, subst (SameCalls d) shown (prompt_show-SameCalls send fuel d), q)
