-- ===== src/Sock/Tests.antt =====
-- SockSend over a scripted socket: runs, and instances of the theorems.
use telnet_serv.Prelude.{ℕ, ◌≡◌, refl, true, Option, none, some, List, [], ◌∷◌, length, arith}
use telnet_serv.Os.{World, delivered}
use telnet_serv.Sock.{try_send, sock_send, send_msg_to_terminal}
use telnet_serv.Sock.Delivery.{Recovers, sock_send_delivers, sock_send_down, sock_send_resends}

-- A socket that takes two bytes, is out of buffers for three tries, and then takes all.
data Load : Type 0 where
  free full1 full2 full3 idle : Load

abbrev scripted : ℕ → List ℕ → Load → Option ℕ × Load
scripted sock chunk free = (some 2, full1)
scripted sock chunk full1 = (none, full2)
scripted sock chunk full2 = (none, full3)
scripted sock chunk full3 = (none, idle)
scripted sock chunk idle = (some (length chunk), idle)

abbrev IsIdle : Load → Type 0
IsIdle idle = Unit {0}
IsIdle _ = ⊥

scripted-Recovers : Recovers scripted 5 IsIdle
unfolding try_send
scripted-Recovers chunk free h p = absurd p
scripted-Recovers chunk full1 h p = absurd p
scripted-Recovers chunk full2 h p = absurd p
scripted-Recovers chunk full3 h p = absurd p
scripted-Recovers chunk idle h p = (length chunk, idle, refl, h, omega arith, tt)

abbrev world : Load → World Load
world l = record { os = l; trace = [] }

abbrev hello : List ℕ
hello = 104 ∷ 101 ∷ 108 ∷ 108 ∷ 111 ∷ []

sock_send_delivers_example :
    (w : World Load) × (sock_send scripted 6 (some 5) (some hello) 5 (world idle) ≡ some (true, w))
    × (delivered 5 w.trace ≡ hello)
    × IsIdle w.os
unfolding delivered
sock_send_delivers_example =
    sock_send_delivers scripted 5 IsIdle scripted-Recovers 6 hello 5 (world idle) (omega arith)
      (omega arith) (omega arith) tt

-- The third byte is the second again.
sock_send_resends_example :
    (w : World Load) × (sock_send scripted 10 (some 5) (some hello) 5 (world free) ≡ some (true, w))
    × (delivered 5 w.trace ≡ 104 ∷ 101 ∷ 101 ∷ 108 ∷ 108 ∷ 111 ∷ [])
unfolding try_send delivered
sock_send_resends_example =
    sock_send_resends scripted 5 IsIdle scripted-Recovers 10 hello 5 2 (world free) full1 idle
      (omega arith) (omega arith) (omega arith) (omega arith) (omega arith) refl refl tt

abbrev broken : ℕ → List ℕ → Load → Option ℕ × Load
broken sock chunk os = (none, os)

sock_send_down_example :
    (w : World Load) × (sock_send broken 2 (some 5) (some hello) 5 (world idle) ≡ some (true, w))
    × (w.trace ≡ [])
sock_send_down_example =
    sock_send_down broken 5 (λ chunk os. refl) 2 hello 5 (world idle) (omega arith) (omega arith)
      (omega arith)

-- Without a client nothing is sent, and that counts as success.
no_client :
    send_msg_to_terminal scripted 6 none (some hello) 5 (world idle) ≡ some (true, world idle)
unfolding send_msg_to_terminal
no_client = refl
