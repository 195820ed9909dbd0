-- ===== src/Daemon/Stale.antt =====
-- A client that is accepted while the client before has typed half a line: the array is cleared, and
-- cmdLen is not, so the new client's first line lands behind NULs and is ignored.
use telnet_serv.Prelude.{
  ℕ, zero, suc, ◌+◌, ◌%◌, ◌<◌, ◌≡◌, refl, ap, subst, ◌∙◌, Option, some, List, [], ◌∷◌, ◌++◌, length,
  take, set, get_or, map, arith, lt→ltb, eq→==,
}
use telnet_serv.Os.{watched, emit}
use telnet_serv.Text.{c_str}
use telnet_serv.Terminal.{Exec, ret, no_fuel, overflow, ◌>>=◌, Daemon, codes, push_msg, prompt_show}
use telnet_serv.Terminal.Frame.{
  OnlyWorld, OnlyWorld-bind, push_msg-OnlyWorld, prompt_show-OnlyWorld,
}
use telnet_serv.Command.{max_command_length}
use telnet_serv.Daemon.{
  other, is_null_str, on_char, on_keys, on_return, on_accepted, after_check, close_client, greet,
  cleared,
}

get_or-set_pos : (xs : List ℕ) (i c : ℕ) → 0 < i → get_or (set xs i c) 0 0 ≡ get_or xs 0 0
get_or-set_pos xs zero c h = absurd (omega arith)
get_or-set_pos [] (suc i) c h = refl
get_or-set_pos (x ∷ xs) (suc i) c h = refl

module _ {W : Type 0} (send : ℕ → List ℕ → W → Option ℕ × W) (invoke : ℕ → List ℕ → W → ℕ × W)
    (base : ℕ) where
  greet-OnlyWorld : (fuel : ℕ) (d : Daemon W) → OnlyWorld d (greet send invoke base fuel d)
  unfolding greet
  greet-OnlyWorld fuel d = OnlyWorld-bind d _ _ (push_msg-OnlyWorld send fuel _ d) λ d1.
      OnlyWorld-bind d1 _ _ (push_msg-OnlyWorld send fuel _ d1) λ d2.
        OnlyWorld-bind d2 _ _ (push_msg-OnlyWorld send fuel _ d2)
          λ d3. prompt_show-OnlyWorld send fuel d3

  cmd_len-close_client : (d : Daemon W) → (close_client send invoke base d).cmd_len ≡ d.cmd_len
  unfolding close_client
  cmd_len-close_client d = ground arith

  -- Where accepting a client returns, the new client is there with the array cleared, and cmdLen is
  -- what it was for the client before.
  pub accept_keeps_length :
      (fuel sock : ℕ) (d d' : Daemon W)
      → on_accepted send invoke base fuel (some sock) d ≡ ret d'
      → (d'.client ≡ some sock) × (d'.command ≡ cleared) × (d'.cmd_len ≡ d.cmd_len)
  accept_keeps_length fuel sock d d' e =
      let d1 = close_client send invoke base d in
      let d2 : Daemon W = record d1 {
        client = some sock;
        command = cleared;
        world = emit (watched sock) d1.world;
      } in
      let (w, eq) = subst (OnlyWorld d2) e (greet-OnlyWorld fuel d2) in
      (
        ap (λ (x : Daemon W). x.client) eq,
        ap (λ (x : Daemon W). x.command) eq,
        ap (λ (x : Daemon W). x.cmd_len) eq ∙ cmd_len-close_client d,
      )

  -- A state in which the array begins with NUL and the line does not: what the new client types.
  typed :
      (fuel : ℕ) (cs : List ℕ) (d : Daemon W)
      → get_or d.command 0 0 ≡ 0
      → 0 < d.cmd_len
      → d.cmd_len + length cs < 256
      → (d' : Daemon W) × (on_keys send invoke base fuel (map other cs) d ≡ ret d')
        × (get_or d'.command 0 0 ≡ 0)
        × (d'.cmd_len ≡ d.cmd_len + length cs)
  unfolding on_keys on_char
  typed fuel [] d z pos room = (d, refl, z, omega arith)
  typed fuel (c ∷ cs) d z pos room =
      let d1 : Daemon W = record d {
        command = set d.command d.cmd_len c;
        cmd_len = (d.cmd_len + 1) % 256;
      } in
      let (d', e, z', n) =
        typed fuel cs d1 (get_or-set_pos d.command d.cmd_len c pos ∙ z) (omega arith)
          (omega arith) in
      (d', rw (lt→ltb d.cmd_len max_command_length (omega arith)) e, z', omega (arith, n))

  return_ignores :
      (fuel : ℕ) (d : Daemon W)
      → get_or d.command 0 0 ≡ 0
      → (o : Exec (Daemon W)) → OnlyWorld d o
      → (k : Daemon W → Exec (Daemon W))
      → (o >>= λ d1.
          after_check send invoke base (suc fuel) d1 (is_null_str (suc fuel) d1.command) >>= k)
        ≡ (o >>= k)
  unfolding is_null_str
  return_ignores fuel d z (ret d1) (w, e) k =
      rw (eq→== (get_or d1.command 0 0) 0 (ap (λ (x : Daemon W). get_or x.command 0 0) e ∙ z))
  return_ignores fuel d z no_fuel h k = refl
  return_ignores fuel d z overflow h k = refl

  -- From the state in which an accepted client finds a length that is not 0 and an array that begins
  -- with NUL: whatever characters it types, as long as the length stays below 256, the telnet thread
  -- takes them, and RETURN then echoes and prompts, and does not parse or execute anything.
  pub stale_line_ignored :
      (fuel : ℕ) (cs : List ℕ) (d : Daemon W)
      → get_or d.command 0 0 ≡ 0
      → 0 < d.cmd_len
      → d.cmd_len + length cs < 256
      → (d' : Daemon W) × (on_keys send invoke base (suc fuel) (map other cs) d ≡ ret d')
        × (on_return send invoke base (suc fuel) d' ≡ (
            push_msg send (suc fuel) (c_str (take d'.cmd_len d'.command) ++ codes "\r\n") d'
            >>= λ d1. prompt_show send (suc fuel) (record d1 { cmd_len = 0; command = cleared })))
  unfolding on_return
  stale_line_ignored fuel cs d z pos room =
      let (d', e, z', n) = typed (suc fuel) cs d z pos room in
      (
        d',
        e,
        return_ignores fuel d' z' (push_msg send (suc fuel) _ d')
            (push_msg-OnlyWorld send (suc fuel) _ d') _,
      )
