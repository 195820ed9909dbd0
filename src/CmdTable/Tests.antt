-- ===== src/CmdTable/Tests.antt =====
-- The command table: runs, and instances of the theorems.
use telnet_serv.Prelude.{◌≡◌, refl, [], ◌∷◌}
use telnet_serv.Text.{str_eq, str_lt}
use telnet_serv.CmdTable.{CmdFunTable, insert, find, reg_command, find_command}
use telnet_serv.CmdTable.Lookup.{find_command-reg_command}

-- main.cc registers "tt" and "tn".
abbrev demo : CmdFunTable
unfolding reg_command insert str_eq str_lt
demo = reg_command (b't' ∷ b'n' ∷ []) 200 [] (reg_command (b't' ∷ b't' ∷ []) 100 [] [])

demo_tt : find_command (b't' ∷ b't' ∷ []) demo ≡ 100
unfolding find_command find reg_command insert str_eq str_lt
demo_tt = refl

unknown : find_command (b't' ∷ []) demo ≡ 0
unfolding find_command find reg_command insert str_eq str_lt
unknown = refl

find_command-reg_command_example :
    find_command (b't' ∷ b't' ∷ []) (reg_command (b't' ∷ b'n' ∷ []) 300 [] demo) ≡ 100
unfolding find_command find reg_command insert str_eq str_lt
find_command-reg_command_example =
    find_command-reg_command (b't' ∷ b'n' ∷ []) (b't' ∷ b't' ∷ []) 300 [] demo
