-- ===== src/Lifecycle/Program.antt =====
-- The program of telnetServ/main.cc: what its server holds when it runs.
use telnet_serv.Prelude.{ℕ, ◌≡◌, refl, true, some, List, [], ◌∷◌, if◌then◌else◌}
use telnet_serv.Text.{str_eq}
use telnet_serv.CmdTable.{find, reg_command, find_command}
use telnet_serv.CmdTable.Lookup.{find_command-reg_command, IsOrdered, reg_command-IsOrdered}
use telnet_serv.Terminal.{codes}
use telnet_serv.Lifecycle.{started, new_server, init, register, main}

-- The functions that the program's server calls.
abbrev pub program_command : ℕ → ℕ → List ℕ → ℕ
program_command time_printf no_time_printf name =
    if str_eq (codes "tn") name
    then no_time_printf
    else if str_eq (codes "tt") name
    then time_printf
    else 0

-- main, up to its wait for input: the server runs, it has made and started two threads, a command
-- calls testTimePrintf if it is "tt", testNoTimePrintf if it is "tn", and nothing otherwise, and the
-- names are in the order of the map.
pub main_lem :
    (garbage time_printf no_time_printf : ℕ)
    → let s = main garbage time_printf no_time_printf in
      (s.is_running ≡ true)
      × (s.events ≡ started 0 ∷ started 1 ∷ [])
      × (s.thd_telnet_daemon_handle ≡ some 0)
      × (s.thd_log_out_put_handle ≡ some 1)
      × ((name : List ℕ)
          → find_command name s.cmd_fun_table ≡ program_command time_printf no_time_printf name)
      × IsOrdered s.cmd_fun_table
unfolding main new_server init register find_command find
main_lem garbage time_printf no_time_printf =
    let usage = codes "print dcServer version" in
    let first = reg_command (codes "tt") time_printf usage [] in
    (
      refl,
      refl,
      refl,
      refl,
      λ name. rw (
        find_command-reg_command (codes "tn") name no_time_printf usage first,
        find_command-reg_command (codes "tt") name time_printf usage [],
      ),
      reg_command-IsOrdered (codes "tn") no_time_printf usage first
          (reg_command-IsOrdered (codes "tt") time_printf usage [] tt),
    )
