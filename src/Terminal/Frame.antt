-- ===== src/Terminal/Frame.antt =====
-- pushMsgToTerminalImmidate changes nothing but the world.
use telnet_serv.Prelude.{
  ℕ, ◌≡◌, refl, ap, ◌∙◌, [], ◌∷◌, ◌++◌, Bool, true, false, Option, none, some, List, leb, ◌==◌,
  if◌then◌else◌, length,
}
use telnet_serv.Os.{World}
use telnet_serv.Terminal.{
  Exec, ret, no_fuel, overflow, ◌>>=◌, Daemon, codes, send_msg, push_msg, prompt_show, sent_or_fuel,
}

-- The run ended, if it did, with only the world changed.
abbrev pub OnlyWorld : {W : Type 0} → Daemon W → Exec (Daemon W) → Type 0
OnlyWorld {W} d (ret d') = (w : World W) × (d' ≡ record d { world = w })
OnlyWorld d no_fuel = Unit
OnlyWorld d overflow = Unit

sent_or_fuel-OnlyWorld :
    {W : Type 0} (send : ℕ → List ℕ → W → Option ℕ × W) (d : Daemon W) (o : Option (Bool × World W))
    → OnlyWorld d (sent_or_fuel send d o)
sent_or_fuel-OnlyWorld send d none = tt
sent_or_fuel-OnlyWorld send d (some (b, w)) = (w, refl)

module _ {W : Type 0} (send : ℕ → List ℕ → W → Option ℕ × W) where
  push_cases :
      (b c : Bool) (fuel : ℕ) (text : List ℕ) (d : Daemon W)
      → OnlyWorld d (if b then overflow else if c then ret d else send_msg send fuel text d)
  unfolding send_msg
  push_cases true c fuel text d = tt
  push_cases false true fuel text d = (d.world, refl)
  push_cases false false fuel text d = sent_or_fuel-OnlyWorld send d _

  pub push_msg-OnlyWorld :
      (fuel : ℕ) (text : List ℕ) (d : Daemon W) → OnlyWorld d (push_msg send fuel text d)
  unfolding push_msg
  push_msg-OnlyWorld fuel text d = by_client d.client
    where
      by_client :
          (o : Option ℕ)
          → OnlyWorld d (elim o [
            | none ↦ ret d
            | some sock ↦
                if leb 2000 (length text)
                then overflow
                else if length text == 0
                then ret d
                else send_msg send fuel text d
          ])
      by_client none = (d.world, refl)
      by_client (some sock) = push_cases (leb 2000 (length text)) (length text == 0) fuel text d

  pub prompt_show-OnlyWorld : (fuel : ℕ) (d : Daemon W) → OnlyWorld d (prompt_show send fuel d)
  unfolding prompt_show send_msg
  prompt_show-OnlyWorld fuel d = by_client d.client
    where
      by_client :
          (o : Option ℕ)
          → OnlyWorld d
              (elim o [ none ↦ ret d | some sock ↦ send_msg send fuel (codes "->" ++ 0 ∷ []) d ])
      by_client none = (d.world, refl)
      by_client (some sock) = sent_or_fuel-OnlyWorld send d _

OnlyWorld-trans :
    {W : Type 0} (d : Daemon W) (w : World W) (d1 : Daemon W)
    → d1 ≡ record d { world = w }
    → (o : Exec (Daemon W)) → OnlyWorld d1 o
    → OnlyWorld d o
OnlyWorld-trans d w d1 e (ret d2) (v, f) = (v, f ∙ ap (λ (x : Daemon _). record x { world = v }) e)
OnlyWorld-trans d w d1 e no_fuel h = tt
OnlyWorld-trans d w d1 e overflow h = tt

-- One such run after the other.
pub OnlyWorld-bind :
    {W : Type 0} (d : Daemon W) (o : Exec (Daemon W)) (f : Daemon W → Exec (Daemon W))
    → OnlyWorld d o
    → ((d1 : Daemon W) → OnlyWorld d1 (f d1))
    → OnlyWorld d (o >>= f)
OnlyWorld-bind d (ret d1) f (w, e) k = OnlyWorld-trans d w d1 e (f d1) (k d1)
OnlyWorld-bind d no_fuel f h k = tt
OnlyWorld-bind d overflow f h k = tt
