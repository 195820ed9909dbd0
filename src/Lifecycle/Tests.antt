-- ===== src/Lifecycle/Tests.antt =====
-- The life of a server: runs, and instances of the theorems.
use telnet_serv.Prelude.{ℕ, ◌≡◌, refl, true, some, List, [], ◌∷◌, arith}
use telnet_serv.Terminal.{codes}
use telnet_serv.CmdTable.{find_command}
use telnet_serv.CmdTable.Lookup.{IsOrdered}
use telnet_serv.Lifecycle.{
  Server, started, notified, joined, new_server, init, destory, destroy, register, main,
}
use telnet_serv.Lifecycle.Threads.{
  Call, call_init, call_destory, call_register, perform, starts, joins, threads_joined,
}
use telnet_serv.Lifecycle.Lost.{second_init_loses}
use telnet_serv.Lifecycle.Program.{program_command, main_lem}

-- Two lives of a server, the second ended by the destructor.
abbrev calls : List Call
calls =
    call_register (codes "tt") 100 [] ∷ call_init 1 ∷ call_destory ∷ call_destory ∷ call_init 2 ∷ []

two_lives :
    (destroy (perform calls (new_server 7))).events
    ≡ started 0
      ∷ started 1
      ∷ notified
      ∷ joined 0
      ∷ joined 1
      ∷ notified
      ∷ started 2
      ∷ started 3
      ∷ notified
      ∷ joined 2
      ∷ joined 3
      ∷ []
unfolding new_server init destory destroy register
two_lives = refl

threads_joined_example :
    (starts 2 (destroy (perform calls (new_server 7))).events ≡ 1)
    × (joins 2 (destroy (perform calls (new_server 7))).events ≡ 1)
unfolding new_server init destory destroy register
threads_joined_example = threads_joined 7 calls (refl, (refl, tt)) 2

abbrev running : Server
unfolding init new_server
running = init 1 (new_server 7)

-- The first telnet thread is never joined when init is called again.
second_init_loses_example :
    joins 0 (perform (call_destory ∷ call_destory ∷ []) (init 1 running)).events ≡ 0
unfolding init new_server
second_init_loses_example =
    second_init_loses 0 1 running (omega arith) (call_destory ∷ call_destory ∷ [])

main_lem_example :
    let s = main 7 100 200 in
    (s.is_running ≡ true)
    × (s.events ≡ started 0 ∷ started 1 ∷ [])
    × (s.thd_telnet_daemon_handle ≡ some 0)
    × (s.thd_log_out_put_handle ≡ some 1)
    × ((name : List ℕ) → find_command name s.cmd_fun_table ≡ program_command 100 200 name)
    × IsOrdered s.cmd_fun_table
main_lem_example = main_lem 7 100 200
