-- ===== src/Command/Clients.antt =====
-- A command comes to an end with every client accounted for: `bye` closes the client.
use telnet_serv.Prelude.{
  ℕ, ◌-◌, ◌||◌, ◌≡◌, refl, [], ◌∷◌, ◌++◌, Bool, true, false, Option, none, some, List, ltb, ◌==◌,
  if◌then◌else◌, take, arith,
}
use telnet_serv.Os.{closed, slept, called, emit}
use telnet_serv.Listen.Ports.{closes-append}
use telnet_serv.Text.{str_eq}
use telnet_serv.CmdTable.{find_command}
use telnet_serv.Args.{Parse, scanned, rejected, overrun, scan_cmd}
use telnet_serv.Terminal.{Exec, ◌>>=◌, Daemon, codes}
use telnet_serv.Terminal.Clients.{
  accepts-append, Settled, Ends, Ends-after, Ends-bind, if_client-Ends, push_msg-Ends, telhelp-Ends,
}
use telnet_serv.Command.{
  max_command_length, leading, trimmed, parsed, say_bye, call_func, execute, run_scanned, run_cmd,
  cmd_parse,
}

-- A test chooses between two such runs.
pub if-Ends :
    {W : Type 0} (d : Daemon W) (b : Bool) (x y : Exec (Daemon W))
    → Ends d x
    → Ends d y
    → Ends d (if b then x else y)
if-Ends d true x y h k = h
if-Ends d false x y h k = k

-- An event that is neither a client nor the end of one.
call-Settled :
    {W : Type 0} (d : Daemon W) (func : ℕ) (para : List ℕ) (value : ℕ) (os : W)
    → Settled d (record d { world = emit (called func para value) (record d.world { os = os }) })
call-Settled d func para value os fd = omega (
  arith,
  accepts-append fd d.world.trace (called func para value ∷ []),
  closes-append fd d.world.trace (called func para value ∷ []),
)

bye-Settled :
    {W : Type 0} (d : Daemon W) (o : Option ℕ)
    → d.client ≡ o
    → Settled d (elim o [
      | none ↦ d
      | some sock ↦ record d {
        client = none;
        world = emit (closed sock) (emit (slept 500_000) d.world);
      }
    ])
bye-Settled d none e = λ fd. refl
bye-Settled d (some sock) e = λ fd. rw e (
    omega (
      arith,
      accepts-append fd d.world.trace (slept 500_000 ∷ []),
      closes-append fd d.world.trace (slept 500_000 ∷ []),
      accepts-append fd (d.world.trace ++ slept 500_000 ∷ []) (closed sock ∷ []),
      closes-append fd (d.world.trace ++ slept 500_000 ∷ []) (closed sock ∷ []),
    ))

module _ {W : Type 0} (send : ℕ → List ℕ → W → Option ℕ × W) (invoke : ℕ → List ℕ → W → ℕ × W)
    (base : ℕ) where
  say_bye-Ends : (fuel : ℕ) (d : Daemon W) → Ends d (say_bye send invoke base fuel d)
  unfolding say_bye
  say_bye-Ends fuel d =
      Ends-bind d _ _ (push_msg-Ends send fuel _ d) (λ d1. bye-Settled d1 d1.client refl)

  call_func-Ends :
      (fuel func : ℕ) (para : List ℕ) (d : Daemon W)
      → Ends d (call_func send invoke base fuel func para d)
  unfolding call_func
  call_func-Ends fuel func para d =
      let (value, os) = invoke func para d.world.os in
      let d1 : Daemon W = record d {
        world = emit (called func para value) (record d.world { os = os });
      } in
      Ends-after d d1 _ (call-Settled d func para value os) (push_msg-Ends send fuel _ d1)

  execute-Ends :
      (fuel : ℕ) (name para : List ℕ) (d : Daemon W)
      → Ends d (execute send invoke base fuel name para d)
  unfolding execute
  execute-Ends fuel name para d = if-Ends d (str_eq (codes "bye") name) _ _ (say_bye-Ends fuel d) (
      if-Ends d (str_eq (codes "telhelp") name) _ _ (telhelp-Ends send fuel d) (
        if-Ends d (find_command name d.table == 0) _ _ (push_msg-Ends send fuel _ d)
          (call_func-Ends fuel (find_command name d.table) para d)))

  parse-Ends :
      (fuel : ℕ) (d : Daemon W) (o : Option Parse)
      → Ends d (parsed o >>= run_scanned send invoke base fuel d)
  parse-Ends fuel d none = tt
  parse-Ends fuel d (some (scanned s)) =
      if-Ends d (s.str_start || s.char_start) _ _ (λ fd. refl) (execute-Ends fuel _ _ d)
  parse-Ends fuel d (some rejected) = λ fd. refl
  parse-Ends fuel d (some overrun) = tt

  run_cmd-Ends :
      (fuel : ℕ) (cmd : List ℕ) (d : Daemon W) → Ends d (run_cmd send invoke base fuel cmd d)
  unfolding run_cmd
  run_cmd-Ends fuel cmd d = if_client-Ends send d d.client _ (parse-Ends fuel d (scan_cmd fuel cmd))

  pub cmd_parse-Ends :
      (fuel : ℕ) (cmd : List ℕ) (len : ℕ) (d : Daemon W)
      → Ends d (cmd_parse send invoke base fuel cmd len d)
  unfolding cmd_parse
  cmd_parse-Ends fuel cmd len d =
      if-Ends d (ltb max_command_length (len - leading (take len cmd))) _ _ (λ fd. refl)
        (run_cmd-Ends fuel (trimmed cmd len) d)
