-- ===== src/Listen/Tests.antt =====
-- The listening socket, where only port 2502 is free: a run, and instances of the theorems.
use telnet_serv.Prelude.{ℕ, ◌+◌, ◌==◌, ◌≡◌, refl, Bool, true, Option, some, []}
use telnet_serv.Os.{World}
use telnet_serv.Listen.{create_tcp_listen_sock, bind_to, listen_on, scan_ports, start_listen}
use telnet_serv.Listen.Ports.{Keeps, candidates, try_ports, start_listen-Keeps, start_listen_lem}

-- Sockets are numbered as they come.
abbrev next_socket : ℕ → Option ℕ × ℕ
next_socket os = (some os, os + 1)

abbrev free_port : ℕ → ℕ → ℕ → Bool × ℕ
free_port fd port os = (port == 2502, os)

abbrev all_listen : ℕ → ℕ → Bool × ℕ
all_listen fd os = (true, os)

abbrev boot : World ℕ
boot = record { os = 3; trace = [] }

-- 2500 is wanted, and tried twice; then 2501 and 2502.
third_port :
    (start_listen next_socket free_port all_listen 2500 boot).0
    ≡ record { sock_serv = some 6; port_listen = 2502 }
unfolding start_listen scan_ports create_tcp_listen_sock bind_to listen_on
third_port = refl

start_listen-Keeps_example :
    Keeps
      (start_listen next_socket free_port all_listen 2500 boot).0.sock_serv
      boot
      (start_listen next_socket free_port all_listen 2500 boot).1
start_listen-Keeps_example = start_listen-Keeps next_socket free_port all_listen 2500 boot

start_listen_lem_example :
    start_listen next_socket free_port all_listen 0 boot
    ≡ try_ports next_socket free_port all_listen (candidates 0) boot
start_listen_lem_example = start_listen_lem next_socket free_port all_listen 0 boot
