-- ===== src/Daemon/Tests.antt =====
-- The telnet thread with a client on socket 5: runs, and instances of the theorems.
use telnet_serv.Prelude.{
  ℕ, ◌≡◌, ◌≢◌, refl, false, Option, none, true, some, List, [], ◌∷◌, ◌++◌, length, take, replicate,
  arith,
}
use telnet_serv.Os.{delivered, calls}
use telnet_serv.Text.{c_str}
use telnet_serv.Sock.{try_send, send_loop, sock_send, send_msg_to_terminal}
use telnet_serv.Sock.Delivery.{Recovers}
use telnet_serv.Terminal.{Exec, ret, ◌>>=◌, Daemon, codes, push_msg, prompt_show, send_msg}
use telnet_serv.Daemon.{
  Key, backspace, other, on_char, on_keys, on_return, cleared, greet, close_client, Received, ended,
  EpollEvent, handle_event, handle_events,
}
use telnet_serv.Listen.{start_listen, create_tcp_listen_sock, bind_to, listen_on}
use telnet_serv.Daemon.Thread.{telnet_daemon_fun}
use telnet_serv.Listen.Ports.{closes}
use telnet_serv.Terminal.Clients.{accepts, Settled}
use telnet_serv.Daemon.Clients.{handle_events-Settled}
use telnet_serv.Daemon.Blank.{return_hangs}
use telnet_serv.Daemon.Line.{Holds, keys_edit_line}
use telnet_serv.Daemon.Wrap.{line_wraps}
use telnet_serv.Daemon.Stale.{stale_line_ignored}

data Net : Type 0 where
  up : Net

-- A socket that takes everything.
abbrev taking : ℕ → List ℕ → Net → Option ℕ × Net
taking sock chunk os = (some (length chunk), os)

-- Every registered function returns 7.
abbrev seven : ℕ → List ℕ → Net → ℕ × Net
seven func para os = (7, os)

abbrev Any : Net → Type 0
Any os = Unit {0}

taking-Recovers : Recovers taking 5 Any
unfolding try_send
taking-Recovers chunk os h p = (length chunk, os, refl, h, omega arith, tt)

abbrev at_prompt : Daemon Net
at_prompt = record {
  client = some 5;
  serv = 3;
  table = [];
  command = cleared;
  cmd_len = 0;
  world = record { os = up; trace = [] };
}

at_prompt-Holds : Holds at_prompt []
at_prompt-Holds = record { chars = refl; count = refl; short = omega arith }

abbrev typing : List Key
typing = other b't' ∷ other b'x' ∷ backspace ∷ other b'n' ∷ []

keys_edit_line_example :
    (d : Daemon Net) × (on_keys taking seven 1000 4 typing at_prompt ≡ ret d)
    × Holds d (b't' ∷ b'n' ∷ [])
    × (d.client ≡ some 5)
    × (delivered 5 d.world.trace ≡ 8 ∷ b' ' ∷ 8 ∷ [])
    × ((calls d.world.trace ≡ []) × (d.table ≡ []) × (d.serv ≡ 3))
    × Any d.world.os
unfolding delivered
keys_edit_line_example =
    keys_edit_line taking seven 1000 5 Any taking-Recovers 4 (omega arith) typing [] at_prompt
      (omega arith) at_prompt-Holds refl tt

abbrev blank_line : Daemon Net
blank_line = record at_prompt { command = b' ' ∷ b'a' ∷ replicate 2046 0; cmd_len = 2 }

return_hangs_example : on_return taking seven 1000 9 blank_line ≢ ret at_prompt
return_hangs_example = return_hangs taking seven 1000 9 blank_line refl at_prompt

abbrev full_line : Daemon Net
full_line = record at_prompt { command = replicate 255 b'a' ++ replicate 1793 0; cmd_len = 255 }

full_line-Holds : Holds full_line (replicate 255 b'a')
full_line-Holds = record { chars = refl; count = omega arith; short = omega arith }

line_wraps_example :
    (d : Daemon Net) × (on_char taking seven 1000 4 b'b' full_line ≡ ret d)
    × (d.cmd_len ≡ 0)
    × (take 256 d.command ≡ replicate 255 b'a' ++ b'b' ∷ [])
    × (d.world ≡ full_line.world)
line_wraps_example =
    line_wraps taking seven 1000 4 b'b' full_line (replicate 255 b'a') full_line-Holds (omega arith)

abbrev half_typed : Daemon Net
half_typed = record at_prompt { command = b'b' ∷ b'y' ∷ replicate 2046 0; cmd_len = 2 }

-- The new client finds an array of NULs and a length of 2.
abbrev taken_over : Daemon Net
taken_over = record at_prompt { cmd_len = 2 }

stale_line_ignored_example :
    (d : Daemon Net) × (on_keys taking seven 1000 4 (other b't' ∷ other b'n' ∷ []) taken_over
      ≡ ret d)
    × (on_return taking seven 1000 4 d ≡ (
        push_msg taking 4 (c_str (take d.cmd_len d.command) ++ codes "\r\n") d >>= λ d1.
        prompt_show taking 4 (record d1 { cmd_len = 0; command = cleared })))
stale_line_ignored_example =
    stale_line_ignored taking seven 1000 3 (b't' ∷ b'n' ∷ []) taken_over refl (omega arith)
      (omega arith)

greeted : Exec (Daemon Net) → Daemon Net
greeted (ret d) = d
greeted _ = half_typed

-- Socket 6 comes while 5 is the client, then it hangs up.
abbrev six : ℕ → Net → Option ℕ × Net
six serv os = (some 6, os)

abbrev silence : ℕ → Net → Received × Net
silence sock os = (ended, os)

abbrev replaced : List EpollEvent
replaced =
    record { fd = 3; hup = false; inp = true; err = false }
    ∷ record { fd = 6; hup = true; inp = false; err = false }
    ∷ []

abbrev left_alone : Daemon Net
left_alone = greeted (handle_events taking seven 1000 six silence 100 replaced at_prompt)

both_closed :
    (left_alone.client ≡ none)
    × (accepts 6 left_alone.world.trace ≡ 1)
    × (closes 5 left_alone.world.trace ≡ 1)
    × (closes 6 left_alone.world.trace ≡ 1)
unfolding greeted handle_events handle_event greet close_client push_msg prompt_show send_msg
    send_msg_to_terminal sock_send send_loop try_send
both_closed = (refl, refl, refl, refl)

handle_events-Settled_example : Settled at_prompt left_alone
unfolding greeted handle_events handle_event greet close_client push_msg prompt_show send_msg
    send_msg_to_terminal sock_send send_loop try_send
handle_events-Settled_example =
    handle_events-Settled taking seven 1000 six silence 100 replaced at_prompt left_alone refl

-- Socket 3 listens on port 2500, client 6 comes, and hangs up.
abbrev come_and_go : List EpollEvent
come_and_go =
    record { fd = 3; hup = false; inp = true; err = false }
    ∷ record { fd = 6; hup = true; inp = false; err = false }
    ∷ []

abbrev at_end : Option (Exec (Daemon Net)) → Daemon Net
at_end none = half_typed
at_end (some r) = greeted r

abbrev ended_thread : Daemon Net
ended_thread = at_end (
    telnet_daemon_fun taking seven 1000 six silence (λ os. (some 3, os)) (λ fd port os. (true, os))
      (λ fd os. (true, os)) 100 2500 [] come_and_go (record { os = up; trace = [] }))

thread_serves :
    (ended_thread.client ≡ none) × (closes 6 ended_thread.world.trace ≡ 1) × (ended_thread.serv ≡ 3)
unfolding greeted handle_events handle_event greet close_client push_msg prompt_show send_msg
    telnet_daemon_fun start_listen create_tcp_listen_sock bind_to listen_on send_msg_to_terminal
    sock_send send_loop try_send
thread_serves = (refl, refl, refl)
