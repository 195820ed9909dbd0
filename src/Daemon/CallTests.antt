-- ===== src/Daemon/CallTests.antt =====
-- A client on socket 5 types commands: instances of the theorems on sessions.
use telnet_serv.Prelude.{
  ℕ, Bool, true, ◌≡◌, refl, Option, none, some, List, [], ◌∷◌, ◌++◌, length, replicate,
}
use telnet_serv.Os.{World}
use telnet_serv.Text.{c_str, str_eq, is_alnum}
use telnet_serv.CmdTable.{find_command, find}
use telnet_serv.Terminal.{Daemon, codes, decimal, format_int, help_line}
use telnet_serv.Args.Items.{num}
use telnet_serv.Daemon.{Received, byte, ended, backspace_char, return_char, key_of, cleared}
use telnet_serv.Daemon.Session.{Entry, all_bytes, Shell, idle, command}

-- The bytes that are still to come.
abbrev Net : Type 0
Net = List ℕ

-- A socket that takes everything, and gives the bytes.
abbrev taking : ℕ → List ℕ → Net → Option ℕ × Net
taking sock chunk os = (some (length chunk), os)

abbrev giving : ℕ → Net → Received × Net
giving sock [] = (ended, [])
giving sock (b ∷ bs) = (byte b, bs)

abbrev refusing : ℕ → Net → Option ℕ × Net
refusing serv os = (none, os)

-- Every registered function returns 7.
abbrev seven : ℕ → List ℕ → Net → ℕ × Net
seven func para os = (7, os)

abbrev ToCome : List ℕ → Net → Type 0
ToCome bs os = os ≡ bs

-- tt 12, with a slip; tx, which is not registered; and telhelp.
abbrev commands : List Entry
commands =
    record {
      bytes = codes "ttx" ++ (backspace_char ∷ codes " 12");
      name = codes "tt";
      items = record { gap = b' ' ∷ []; arg = num 12 } ∷ [];
    }
    ∷ record { bytes = codes "tx"; name = codes "tx"; items = [] }
    ∷ record { bytes = codes "telhelp"; name = codes "telhelp"; items = [] }
    ∷ []

-- tt is registered, at the address 77.
abbrev at_prompt : Daemon Net
at_prompt = record {
  client = some 5;
  serv = 3;
  table = (codes "tt", record { cmd_func = 77; fun_name = codes "tt"; fun_usage = [] }) ∷ [];
  command = cleared;
  cmd_len = 0;
  world = record { os = all_bytes commands ++ 10 ∷ []; trace = [] };
}

-- What the shell shows for these commands, and calls.
abbrev answer_tt : List ℕ
answer_tt = 8 ∷ b' ' ∷ 8 ∷ (codes "tt 12\r\nReturn value: 7\n->" ++ 0 ∷ [])

abbrev answer_tx : List ℕ
answer_tx = codes "tx\r\nfunction 'tx' doesn't exist!\n->" ++ 0 ∷ []

abbrev answer_telhelp : List ℕ
answer_telhelp = codes "telhelp\r\nWhole User Help Menu:\n\nCommand: tt, Usage: \n->" ++ 0 ∷ []

commands-Shell :
    Shell taking seven 1000 at_prompt.table ToCome
      (10 ∷ [])
      commands
      (answer_tt ++ (answer_tx ++ answer_telhelp))
      ((77, 12 ∷ replicate 9 0, 7) ∷ [])
unfolding is_alnum decimal str_eq key_of find_command find format_int help_line c_str
commands-Shell = command _ _ refl (command _ _ refl (command _ (10 ∷ []) refl idle))

-- The client comes, types the commands and then bye.
abbrev coming : ℕ → Net → Option ℕ × Net
coming serv os = (some 5, all_bytes commands ++ (codes "bye" ++ return_char ∷ []))

-- The first port is free.
abbrev opening : Net → Option ℕ × Net
opening os = (some 3, os)

abbrev binding : ℕ → ℕ → Net → Bool × Net
binding fd port os = (true, os)

abbrev listening : ℕ → Net → Bool × Net
listening fd os = (true, os)

abbrev nothing_yet : World Net
nothing_yet = record { os = []; trace = [] }
