-- ===== src/Daemon/Blank.antt =====
-- isNullStr: a command that begins with a blank keeps the telnet thread in its loop for ever.
use telnet_serv.Prelude.{
  ℕ, zero, suc, ◌≡◌, ◌≢◌, refl, ap, Option, none, some, List, ◌==◌, if◌then◌else◌, get_or, arith,
  eq→==,
}
use telnet_serv.Terminal.{Exec, ret, no_fuel, overflow, ◌>>=◌, Daemon, push_msg}
use telnet_serv.Terminal.Frame.{OnlyWorld, push_msg-OnlyWorld}
use telnet_serv.Daemon.{is_null_str, on_return, after_check}

-- isNullStr of a string that begins with a blank has not ended when the fuel is used up, whatever
-- the fuel; of any other string it ends in one step, and tells whether the string is empty.
pub is_null_str_lem :
    (fuel : ℕ) (cmd : List ℕ)
    → is_null_str (suc fuel) cmd
      ≡ (if get_or cmd 0 0 == b' ' then none else some (get_or cmd 0 0 == 0))
unfolding is_null_str
is_null_str_lem zero cmd = ground arith
is_null_str_lem (suc fuel) cmd = ground (arith, is_null_str_lem fuel cmd)

is_null_str-blank : (fuel : ℕ) (cmd : List ℕ) → get_or cmd 0 0 ≡ b' ' → is_null_str fuel cmd ≡ none
is_null_str-blank zero cmd e = unfold is_null_str in refl
is_null_str-blank (suc fuel) cmd e = rw (is_null_str_lem fuel cmd, eq→== (get_or cmd 0 0) b' ' e)

not_ret : {A : Type 0} (a : A) → no_fuel ≢ ret a
not_ret a e = cc

module _ {W : Type 0} (send : ℕ → List ℕ → W → Option ℕ × W) (invoke : ℕ → List ℕ → W → ℕ × W)
    (base : ℕ) where
  check_stuck :
      (fuel : ℕ) (d : Daemon W)
      → get_or d.command 0 0 ≡ b' '
      → (o : Exec (Daemon W)) → OnlyWorld d o
      → (k : Daemon W → Exec (Daemon W)) (d' : Daemon W)
      → (o >>= λ d1. after_check send invoke base fuel d1 (is_null_str fuel d1.command) >>= k)
        ≢ ret d'
  check_stuck fuel d blank (ret d1) (w, e) k d' =
      let null : is_null_str fuel d1.command ≡ none =
        rw (ap (λ (x : Daemon W). x.command) e) (is_null_str-blank fuel d.command blank) in
      rw null (not_ret d')
  check_stuck fuel d blank no_fuel h k d' = not_ret d'
  check_stuck fuel d blank overflow h k d' = λ e. cc

  -- RETURN on a line whose first character is a blank: whatever the fuel, the handler does not
  -- return, so the telnet thread serves no further key and no further client.
  pub return_hangs :
      (fuel : ℕ) (d : Daemon W)
      → get_or d.command 0 0 ≡ b' '
      → (d' : Daemon W) → on_return send invoke base fuel d ≢ ret d'
  unfolding on_return
  return_hangs fuel d blank d' =
      check_stuck fuel d blank (push_msg send fuel _ d) (push_msg-OnlyWorld send fuel _ d) _ d'
