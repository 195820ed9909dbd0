-- ===== src/Terminal.antt =====
-- telnetServ/telnetServ.cc, pushMsgToTerminalImmidate, PromptShow and telhelp: what the telnet thread
-- writes to its client by itself.
pub mod Delivery
pub mod Frame
pub mod Clients
pub mod Calls
pub mod Shown
use telnet_serv.Prelude.{
  ℕ, zero, suc, ◌+◌, ◌-◌, ◌/◌, ◌%◌, ◌^◌, Bool, true, false, Option, none, some, List, [], ◌∷◌, ◌++◌,
  ltb, leb, ◌==◌, if◌then◌else◌, length,
}
use Prim.Native.Char.{code}
use Prim.Native.String
use Prim.Native.String.{String}
use telnet_serv.Os.{World, Event}
use telnet_serv.Sock.{send_msg_to_terminal}
use telnet_serv.Text.{c_str}
use telnet_serv.CmdTable.{CmdFunTable, TcmdTable}

-- The bytes of an ASCII text.
abbrev pub codes : String → List ℕ
codes String.[] = []
codes (String.◌∷◌ c s) = code c ∷ codes s

-- How a piece of the program ends: `no_fuel` says that a loop was still running, `overflow` that
-- memory behind an array was written.
pub data Exec (A : Type 0) : Type 0 where
  ret : A → Exec A
  no_fuel overflow : Exec A

infixl 5 ◌>>=◌
abbrev pub ◌>>=◌ : {A B : Type 0} → Exec A → (A → Exec B) → Exec B
ret a >>= f = f a
no_fuel >>= f = no_fuel
overflow >>= f = overflow

-- What the telnet thread works on: sockClient_, sockServ_, the command table, its local variables
-- `command` and `cmdLen`, and the world.
pub record Daemon (W : Type 0) : Type 0 where
  pub client : Option ℕ
  pub serv : ℕ
  pub table : CmdFunTable
  pub command : List ℕ
  pub cmd_len : ℕ
  pub world : World W

-- The digits of n, at most as many as the fuel, before `acc`.
unfoldable pub decimal : ℕ → ℕ → List ℕ → List ℕ
decimal zero n acc = acc
decimal (suc fuel) n acc =
    let digit = (b'0' + n % 10) in
    let rest = decimal fuel (n / 10) (digit ∷ acc) in if ltb n 10 then digit ∷ acc else rest

-- %d, of a 32-bit pattern.
unfoldable pub format_int : ℕ → List ℕ
unfolding decimal
format_int v = if ltb v (2 ^ 31) then decimal 10 v [] else b'-' ∷ decimal 10 (2 ^ 32 - v) []

-- `send` is send(2).
module _ {W : Type 0} (send : ℕ → List ℕ → W → Option ℕ × W) where
  abbrev pub sent_or_fuel : Daemon W → Option (Bool × World W) → Exec (Daemon W)
  sent_or_fuel d none = no_fuel
  sent_or_fuel d (some (ok, w)) = ret (record d { world = w })

  -- sendMsgToTerminal by the telnet thread, which does not look at the result.
  unfoldable pub send_msg : ℕ → List ℕ → Daemon W → Exec (Daemon W)
  send_msg fuel msg d =
      sent_or_fuel d (send_msg_to_terminal send fuel d.client (some msg) (length msg) d.world)

  -- void pushMsgToTerminalImmidate(char* szFormat, ...), of the text that the format comes to.
  -- vsprintf writes the text and a NUL into 2000 bytes before its length is looked at.
  unfoldable pub push_msg : ℕ → List ℕ → Daemon W → Exec (Daemon W)
  push_msg fuel text d = elim d.client [
    | none ↦ ret d
    | some sock ↦
        if leb 2000 (length text)
        then overflow
        else if length text == 0
        then ret d
        else send_msg fuel text d
  ]

  -- void PromptShow(): the prompt is sent with its NUL.
  unfoldable pub prompt_show : ℕ → Daemon W → Exec (Daemon W)
  prompt_show fuel d = elim d.client [
    | none ↦ ret d
    | some sock ↦ send_msg fuel (codes "->" ++ 0 ∷ []) d
  ]

  -- "Command: %s, Usage:%s \n"
  unfoldable pub help_line : TcmdTable → List ℕ
  help_line info =
      codes "Command: "
      ++ (c_str info.fun_name ++ (codes ", Usage:" ++ (c_str info.fun_usage ++ codes " \n")))

  unfoldable pub help_lines : ℕ → CmdFunTable → Daemon W → Exec (Daemon W)
  help_lines fuel [] d = ret d
  help_lines fuel ((key, info) ∷ table) d = do
    d' ← push_msg fuel (help_line info) d
    help_lines fuel table d'

  -- void telhelp()
  unfoldable pub telhelp : ℕ → Daemon W → Exec (Daemon W)
  telhelp fuel d = elim d.client [
    | none ↦ ret d
    | some sock ↦ do
      d' ← push_msg fuel (codes "Whole User Help Menu:\n\n") d
      help_lines fuel d'.table d'
  ]
