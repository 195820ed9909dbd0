-- ===== src/MsgBuf/Tests.antt =====
-- The message buffers: runs at a small size, and instances of the theorems.
use telnet_serv.Prelude.{
  ℕ, zero, suc, ◌≡◌, ◌↔◌, refl, true, false, Option, none, some, length, List, [], ◌∷◌, ◌++◌,
  replicate, length-replicate, concat, arith,
}
use telnet_serv.FixedBuffer.{FixedBuffer, as_string, avail, append, signed_lt}
use telnet_serv.FixedBuffer.Contents.{IsValid}
use telnet_serv.MsgBuf.{MsgBuf, Outcome, moved, fault, append_locked, messages, drop_excess}
use telnet_serv.MsgBuf.Threads.{
  System, log, stop, begin, enter, wake, write, step, run, init, writing,
}
use telnet_serv.MsgBuf.Inv.{IsSize, Inv, All}
use telnet_serv.MsgBuf.Append.{pending}
use telnet_serv.MsgBuf.Stream.{IsCalm, Late}
use telnet_serv.MsgBuf.Output.{send_messages, hand_over, run_sending}
use telnet_serv.Os.{World, sent, delivered}
use telnet_serv.Sock.{send_msg_to_terminal}
use telnet_serv.MsgBuf.Reach.{Reach, start, next, init-Inv, no_fault, write_drops_oldest}

abbrev small_memory : List ℕ
small_memory = 7 ∷ 7 ∷ 7 ∷ 7 ∷ []

abbrev small : System
unfolding init
small = init 4 small_memory

-- What a run has handed on, if no assert failed.
sent_of : Outcome System → List (List ℕ)
sent_of (moved s) = s.handed_on
sent_of _ = []

-- Two lines that do not fit one buffer, and a round of the log thread: both are handed on.
two_lines :
    sent_of (
      run 4 small_memory small
        (begin ∷ log true (1 ∷ 2 ∷ []) 2 ∷ log true (3 ∷ 4 ∷ []) 2 ∷ enter ∷ wake ∷ write ∷ []))
    ≡ (1 ∷ 2 ∷ []) ∷ (3 ∷ 4 ∷ []) ∷ []
unfolding sent_of run init as_string append_locked signed_lt avail append
two_lines = refl

-- With no client nothing is logged; the log thread waits, wakes up by its timeout, and hands nothing on.
no_client :
    sent_of
      (run 4 small_memory small (begin ∷ enter ∷ log false (1 ∷ 2 ∷ []) 2 ∷ wake ∷ write ∷ []))
    ≡ []
unfolding sent_of run init as_string append_locked signed_lt avail append
no_client = refl

abbrev size : ℕ
size = 2001

abbrev memory : List ℕ
memory = replicate 2001 7

sized : IsSize size memory
sized = record {
  holds_line = omega arith;
  fits_int = omega arith;
  whole = length-replicate {A = ℕ} 2001 7;
}

abbrev line : List ℕ
line = 104 ∷ 105 ∷ 10 ∷ []

abbrev at_start : System
at_start = init size memory

-- The server is stopped before its log thread has begun.
abbrev stopped : System
unfolding init step
stopped = elim (step size memory at_start stop) [ moved s ↦ s | _ ↦ at_start ]

stopped-Reach : Reach size memory IsCalm stopped []
unfolding init step
stopped-Reach = next start stop tt tt refl

no_fault_example : (step size memory stopped begin ≡ fault) ↔ Late stopped begin
no_fault_example = no_fault size memory sized stopped-Reach begin tt

-- The assert at the start of the log thread then fails.
late_start : step size memory stopped begin ≡ fault
unfolding init step
late_start = refl

abbrev begun : System
unfolding init step
begun = elim (step size memory at_start begin) [ moved s ↦ s | _ ↦ at_start ]

abbrev one_line : System
unfolding init step
one_line = elim (step size memory begun (log true line 3)) [ moved s ↦ s | _ ↦ at_start ]

one_line-Reach : Reach size memory IsCalm one_line line
unfolding init step append_locked signed_lt avail
one_line-Reach = next (next start begin tt tt refl) (log true line 3) (omega arith) tt refl

-- A client on socket 5, and a network that takes all at once.
abbrev takes_all : ℕ → List ℕ → ℕ → Option ℕ × ℕ
takes_all sock chunk os = (some (length chunk), os)

abbrev at_five : ℕ → Option ℕ
at_five os = some 5

abbrev Any : ℕ → Type 0
Any os = Unit {0}

abbrev quiet_world : World ℕ
quiet_world = record { os = 0; trace = [] }

-- A round of the log thread, which sends the line.
abbrev after : Outcome System → System
after (moved s) = s
after _ = at_start

abbrev entered : System
unfolding init step
entered = after (step size memory one_line enter)

abbrev taken : System
unfolding init step
taken = after (step size memory entered wake)

abbrev written : System
unfolding init step
written = after (step size memory taken write)

abbrev line_world : World ℕ
line_world = record { os = 0; trace = sent 5 line ∷ [] }

-- What the client has got and what is still pending, if the run comes to an end.
at_client : Option (System × World ℕ) → List ℕ
at_client none = 7 ∷ []
at_client (some (t, w)) = delivered 5 w.trace ++ pending t.msg

-- With no client at the write, a logged line is taken and nothing is sent.
client_gone :
    at_client (
      run_sending takes_all
        (λ os. none)
        9
        4
        small_memory
        (begin ∷ log true (1 ∷ 2 ∷ []) 2 ∷ enter ∷ wake ∷ write ∷ [])
        small
        quiet_world)
    ≡ []
unfolding run_sending hand_over send_messages step init as_string append_locked signed_lt avail
    append messages drop_excess send_msg_to_terminal delivered at_client
client_gone = refl

-- The log thread behind the critical section, with 26 buffers of one byte each.
abbrev byte_buffer : ℕ → FixedBuffer
byte_buffer c = record { chars = c ∷ replicate 2000 0; cur = 1 }

abbrev flooded : System
flooded = record at_start {
  phase = writing;
  writer = record {
    new1 = none;
    new2 = none;
    to_write = replicate 24 (byte_buffer 1) ++ (byte_buffer 2 ∷ byte_buffer 3 ∷ []);
  };
}

byte_buffer-IsValid : (c : ℕ) → IsValid size (byte_buffer c)
byte_buffer-IsValid c = record {
  whole = omega (arith, length-replicate {A = ℕ} 2000 0);
  inside = omega arith;
}

bytes_All :
    (n : ℕ) (bs : List FixedBuffer) → All size bs → All size (replicate n (byte_buffer 1) ++ bs)
bytes_All zero bs h = h
bytes_All (suc n) bs h = (byte_buffer-IsValid 1, bytes_All n bs h)

flooded-Inv : Inv size flooded
flooded-Inv = record {
  msg_inv = (init-Inv size memory).msg_inv;
  phase_inv = (
    refl,
    tt,
    bytes_All 24 (byte_buffer 2 ∷ byte_buffer 3 ∷ [])
        (byte_buffer-IsValid 2, (byte_buffer-IsValid 3, tt)),
    omega arith,
    omega arith,
  );
}

write_drops_oldest_example :
    (s : System) × (step size memory flooded write ≡ moved s)
    × (concat s.handed_on ≡ [] ++ (as_string (byte_buffer 2) ++ as_string (byte_buffer 3)))
unfolding init
write_drops_oldest_example =
    write_drops_oldest size memory sized flooded (replicate 24 (byte_buffer 1)) (byte_buffer 2)
      (byte_buffer 3) flooded-Inv refl refl (omega arith)
