-- ===== src/CmdTable.antt =====
-- telnetServ/telnetServ.cc, regCommand and FindCommand: the table of registered functions, a
-- std::map from names, and so kept in the order of the names.
pub mod Lookup
mod Tests
use telnet_serv.Prelude.{ℕ, Option, none, some, List, [], ◌∷◌, if◌then◌else◌}
use telnet_serv.Text.{str_eq, str_lt}

-- A function pointer is its address, and NULL is 0.
pub record TcmdTable : Type 0 where
  pub fun_name : List ℕ
  pub cmd_func : ℕ
  pub fun_usage : List ℕ

abbrev pub CmdFunTable : Type 0
CmdFunTable = List (List ℕ × TcmdTable)

-- cmdFunTable_[name] = info
unfoldable pub insert : List ℕ → TcmdTable → CmdFunTable → CmdFunTable
insert name info [] = (name, info) ∷ []
insert name info ((key, old) ∷ table) =
    if str_eq key name
    then (key, info) ∷ table
    else if str_lt name key
    then (name, info) ∷ (key, old) ∷ table
    else (key, old) ∷ insert name info table

-- cmdFunTable_.find(name)
unfoldable pub find : List ℕ → CmdFunTable → Option TcmdTable
find name [] = none
find name ((key, info) ∷ table) = if str_eq key name then some info else find name table

-- void regCommand(const char* name, void* func, const char* usage)
unfoldable pub reg_command : List ℕ → ℕ → List ℕ → CmdFunTable → CmdFunTable
reg_command name func usage table =
    insert name (record { fun_name = name; cmd_func = func; fun_usage = usage }) table

-- UniformFunc FindCommand(const char* name)
unfoldable pub find_command : List ℕ → CmdFunTable → ℕ
find_command name table = elim (find name table) [ none ↦ 0 | some info ↦ info.cmd_func ]
