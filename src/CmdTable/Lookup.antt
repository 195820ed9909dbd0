-- ===== src/CmdTable/Lookup.antt =====
-- The table: a registered name is found with the function registered last, the others as before,
-- and the names stay in order, each once.
use telnet_serv.Prelude.{
  ℕ, ◌≡◌, refl, true, some, List, [], ◌∷◌, if◌then◌else◌, arith, Bool-cases, inl, inr,
}
use telnet_serv.Text.{str_eq, str_lt, str_eq_self, str_eq→eq, str_lt-total}
use telnet_serv.CmdTable.{CmdFunTable, TcmdTable, insert, find, reg_command, find_command}

pub find-insert :
    (name other : List ℕ) (info : TcmdTable) (table : CmdFunTable)
    → find other (insert name info table)
      ≡ (if str_eq name other then some info else find other table)
unfolding insert find
find-insert name other info [] = refl
find-insert name other info ((key, old) ∷ table) = ground (
  arith,
  find-insert name other info table,
  str_eq→eq key name,
  str_eq→eq key other,
  str_eq→eq name other,
  str_eq_self other,
)

-- The function that a name stands for after a registration, whatever the table was: the one
-- registered for that name, and for any other name the same as before.
pub find_command-reg_command :
    (name other : List ℕ) (func : ℕ) (usage : List ℕ) (table : CmdFunTable)
    → find_command other (reg_command name func usage table)
      ≡ (if str_eq name other then func else find_command other table)
unfolding reg_command find_command
find_command-reg_command name other func usage table = ground (
  arith,
  find-insert name other (record { fun_name = name; cmd_func = func; fun_usage = usage }) table,
)

-- Every name of the table comes behind `low`.
abbrev Above : List ℕ → CmdFunTable → Type 0
Above low [] = Unit {0}
Above low ((key, info) ∷ table) = (str_lt low key ≡ true) × Above key table

-- The names are in strictly rising order, so each is there once.
abbrev pub IsOrdered : CmdFunTable → Type 0
IsOrdered [] = Unit {0}
IsOrdered ((key, info) ∷ table) = Above key table

insert-Above :
    (low name : List ℕ) (info : TcmdTable) (table : CmdFunTable)
    → str_lt low name ≡ true
    → Above low table
    → Above low (insert name info table)
unfolding insert
insert-Above low name info [] h a = (h, tt)
insert-Above low name info ((key, old) ∷ table) h a = elim (Bool-cases (str_eq key name)) [
  | inl e ↦ rw (e, insert) (a.0, a.1)
  | inr e ↦ elim (Bool-cases (str_lt name key)) [
    | inl l ↦ rw (e, insert, l) (h, (l, a.1))
    | inr l ↦
        rw (e, insert, l) (a.0, insert-Above key name info table (str_lt-total name key e l) a.1)
  ]
]

-- A registration keeps the names of the table in strictly rising order.
pub reg_command-IsOrdered :
    (name : List ℕ) (func : ℕ) (usage : List ℕ) (table : CmdFunTable)
    → IsOrdered table
    → IsOrdered (reg_command name func usage table)
unfolding reg_command insert
reg_command-IsOrdered name func usage [] h = tt
reg_command-IsOrdered name func usage ((key, old) ∷ table) h = elim (Bool-cases (str_eq key name)) [
  | inl e ↦ rw (e, insert) h
  | inr e ↦ elim (Bool-cases (str_lt name key)) [
    | inl l ↦ rw (e, insert, l) (l, h)
    | inr l ↦ rw (e, insert, l) (insert-Above key name _ table (str_lt-total name key e l) h)
  ]
]
