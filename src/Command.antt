-- ===== src/Command.antt =====
-- telnetServ/telnetServ.cc, CmdParse and RunCmd: a command line is trimmed, cut up and executed.
pub mod Clients
use telnet_serv.Prelude.{
  ℕ, suc, ◌-◌, ◌==◌, ◌||◌, Option, none, some, List, [], ◌∷◌, ◌++◌, ltb, if◌then◌else◌, take, drop,
  replicate, set,
}
use telnet_serv.FixedBuffer.{memcpy}
use telnet_serv.Os.{closed, slept, called, emit}
use telnet_serv.Text.{c_str, str_eq, is_alnum}
use telnet_serv.CmdTable.{find_command}
use telnet_serv.Args.{Scan, Parse, scanned, rejected, overrun, scan_cmd, para_values}
use telnet_serv.Terminal.{
  Exec, ret, no_fuel, overflow, ◌>>=◌, Daemon, codes, format_int, push_msg, telhelp,
}

-- MAX_COMMAND_LENGTH
abbrev pub max_command_length : ℕ
max_command_length = 2048

-- How many characters stand before the first letter or digit.
unfoldable pub leading : List ℕ → ℕ
leading [] = 0
leading (c ∷ cs) = if is_alnum c then 0 else suc (leading cs)

-- The local `command` of CmdParse before the call of RunCmd.
unfoldable pub trimmed : List ℕ → ℕ → List ℕ
unfolding leading memcpy
trimmed pch_cmd len =
    let count = leading (take len pch_cmd) in
    let n = len - count in
    let copy = memcpy (replicate max_command_length 0) 0 (drop count pch_cmd) n in
    set copy (if ltb len max_command_length then n else max_command_length - 1) 0

-- The exit of a parse that scanned, or the ends of the others.
abbrev pub parsed : Option Parse → Exec (Option Scan)
parsed none = no_fuel
parsed (some (scanned s)) = ret (some s)
parsed (some rejected) = ret none
parsed (some overrun) = overflow

-- `send` is send(2). `invoke` calls a registered function by its address, with ten arguments.
-- `base` is the address of RunCmd's command.
module _ {W : Type 0} (send : ℕ → List ℕ → W → Option ℕ × W) (invoke : ℕ → List ℕ → W → ℕ × W)
    (base : ℕ) where
  -- strcmp("bye", szCmd) == 0
  unfoldable pub say_bye : ℕ → Daemon W → Exec (Daemon W)
  say_bye fuel d = do
    d' ← push_msg send fuel (codes "\n  bye......\n") d
    ret (elim d'.client [
      | none ↦ d'
      | some sock ↦ record d' {
        client = none;
        world = emit (closed sock) (emit (slept 500_000) d'.world);
      }
    ])

  -- (*func)(para[0], ..., para[9]), and the report of its value.
  unfoldable pub call_func : ℕ → ℕ → List ℕ → Daemon W → Exec (Daemon W)
  call_func fuel func para d =
      let (value, os') = invoke func para d.world.os in
      push_msg send fuel (codes "Return value: " ++ (format_int value ++ codes "\n"))
        (record d { world = emit (called func para value) (record d.world { os = os' }) })

  -- RunCmd behind the scan: `name` is szCmd.
  unfoldable pub execute : ℕ → List ℕ → List ℕ → Daemon W → Exec (Daemon W)
  execute fuel name para d =
      if str_eq (codes "bye") name
      then say_bye fuel d
      else if str_eq (codes "telhelp") name
      then telhelp send fuel d
      else if find_command name d.table == 0
      then push_msg send fuel (codes "function '" ++ (name ++ codes "' doesn't exist!\n")) d
      else call_func fuel (find_command name d.table) para d

  abbrev pub run_scanned : ℕ → Daemon W → Option Scan → Exec (Daemon W)
  run_scanned fuel d none = ret d
  run_scanned fuel d (some s) =
      if s.str_start || s.char_start
      then ret d
      else execute fuel (c_str s.cmd) (para_values base s) d

  -- void RunCmd(char* szCmd)
  unfoldable pub run_cmd : ℕ → List ℕ → Daemon W → Exec (Daemon W)
  run_cmd fuel cmd d = elim d.client [
    | none ↦ ret d
    | some sock ↦ parsed (scan_cmd fuel cmd) >>= run_scanned fuel d
  ]

  -- void CmdParse(const char* pchCmd, unsigned char byCmdLen)
  unfoldable pub cmd_parse : ℕ → List ℕ → ℕ → Daemon W → Exec (Daemon W)
  cmd_parse fuel pch_cmd len d =
      if ltb max_command_length (len - leading (take len pch_cmd))
      then ret d
      else run_cmd fuel (trimmed pch_cmd len) d
