-- ===== src/AsyncLogging/Tests.antt =====
-- The asynchronous log: runs at a small size, and instances of the theorems.
use telnet_serv.Prelude.{
  ℕ, zero, suc, ◌≡◌, ◌↔◌, refl, none, some, length, inl, List, [], ◌∷◌, ◌++◌, replicate,
  length-replicate, concat, arith,
}
use telnet_serv.FixedBuffer
use telnet_serv.FixedBuffer.{FixedBuffer, memcpy, as_string, avail, signed_lt}
use telnet_serv.FixedBuffer.Contents.{IsValid}
use telnet_serv.Terminal.{codes, decimal}
use telnet_serv.MsgBuf.{Outcome, moved, fault}
use telnet_serv.MsgBuf.Threads.{System, head, writing}
use telnet_serv.MsgBuf.Inv.{IsSize, Inv, All}
use telnet_serv.MsgBuf.Append.{pending}
use telnet_serv.MsgBuf.Stream.{in_flight}
use telnet_serv.AsyncLogging.{
  log, stop, begin, enter, wake, write, append, init, step, dropped_text,
}
use telnet_serv.AsyncLogging.Stream.{IsCalm, Late}
use telnet_serv.AsyncLogging.Output.{output, write_round, hand_over}
use telnet_serv.AsyncLogging.Round.{run_files, round_writes_all}
use telnet_serv.AsyncLogging.Files.{FileRun, file_made, acted, files_get_all}
use telnet_serv.LogFile
use telnet_serv.LogFile.{
  has_slash, LogFile, new_log_file, roll_file, use_file_path, roll_into, open_rolled,
  get_log_file_name, with_slash, delete_expired_file, cp_file_name, log_names, remove_before,
  append_unlocked, after_append, flush,
}
use telnet_serv.LogFile.Dirs.{
  create_dir, end_with_slash, to_slashes, make_path, behind_slash, make_dirs, make_one,
}
use telnet_serv.Text.{str_eq}
use telnet_serv.LogFile.Total.{append_all}
use telnet_serv.LogFile.Sample.{World, host, host-KeepsDirs, host-Opens, host-KeepsBytes, world}
use telnet_serv.AsyncLogging.Reach.{
  Reach, Runs, start, next, init-Inv, async_no_fault, write_drops_newest, stop_keeps_pending,
}

abbrev size : ℕ
size = 2001

abbrev memory : List ℕ
memory = replicate 2001 7

sized : IsSize size memory
sized = record {
  holds_line = omega arith;
  fits_int = omega arith;
  whole = length-replicate {A = ℕ} 2001 7;
}

abbrev line : List ℕ
line = 104 ∷ 105 ∷ 10 ∷ []

abbrev at_start : System
at_start = init size memory

abbrev after : Outcome System → System
after (moved s) = s
after _ = at_start

abbrev begun : System
unfolding init step
begun = after (step size memory at_start begin)

begun-Reach : Reach size memory IsCalm begun []
unfolding init step
begun-Reach = next start begin tt tt refl

async_no_fault_example : (step size memory begun (log line 3) ≡ fault) ↔ Late begun (log line 3)
async_no_fault_example = async_no_fault size memory sized begun-Reach (log line 3) (omega arith)

abbrev one_line : System
unfolding init step
one_line = after (step size memory begun (log line 3))

-- The line is pending when the log is stopped.
abbrev stopped : System
unfolding init step
stopped = after (step size memory one_line stop)

stop_keeps_pending_example :
    (t : System) × (step size memory stopped enter ≡ moved t)
    × (pending t.msg ≡ line)
    × ((u : System) → Runs size memory t u → u.handed_on ≡ [])
unfolding init step append signed_lt avail as_string FixedBuffer.append FixedBuffer.init
stop_keeps_pending_example = stop_keeps_pending size memory stopped refl refl

-- A line, and a round of the log's thread, which writes it to the file "/a/m...".
abbrev in_file : List ℕ → ℕ → LogFile host × World
in_file bytes size = (
  record {
    log_file_path = codes "/a/";
    reserve_log_date = 120;
    basename = codes "m";
    roll_size = 6;
    flush_interval = 3;
    check_every_n = 1024;
    count = size;
    start_of_period = 0;
    last_roll = 101;
    last_flush = 101;
    file = some (length bytes);
  },
  record world { clock = 102; dirs = codes "/a/" ∷ []; bytes = bytes },
)

abbrev entered : System
unfolding init step
entered = after (step size memory one_line enter)

abbrev taken : System
unfolding init step
taken = after (step size memory entered wake)

abbrev all_written : System
unfolding init step
all_written = after (step size memory taken (write (codes "noon")))

first_file :
    output host (codes "m") 6 (codes "/a") world ≡ some ((in_file [] 0).0, (in_file [] 0).1)
unfolding output has_slash new_log_file roll_file use_file_path roll_into open_rolled
    get_log_file_name with_slash delete_expired_file cp_file_name log_names remove_before create_dir
    memcpy end_with_slash to_slashes make_path behind_slash make_dirs make_one str_eq
first_file = refl

written_run :
    FileRun size memory host
      (codes "m")
      6
      (codes "/a")
      world
      all_written
      (in_file line 1).0
      (in_file line 1).1
      line
unfolding init step append signed_lt avail hand_over write_round append_all LogFile.append
    append_unlocked after_append flush as_string FixedBuffer.append
written_run =
    acted
      (acted
        (acted
          (acted (acted (file_made first_file) begin tt tt refl refl) (log line 3) (omega arith) tt
            refl refl)
          enter tt tt refl refl)
        wake tt tt refl refl)
      (write (codes "noon")) tt (λ e. omega arith) refl refl

files_get_all_example :
    line ++ (in_flight all_written.phase all_written.writer ++ pending all_written.msg) ≡ line
unfolding has_slash
files_get_all_example =
    (files_get_all host host-KeepsDirs host-Opens (λ w. w.bytes) host-KeepsBytes size memory
      (codes "m") 6 (codes "/a") world (λ v. omega arith) refl
      (record { plain = omega arith; begins = inl refl; fits = omega arith }) sized written_run).0

line_run :
    FileRun size memory host
      (codes "m")
      6
      (codes "/a")
      world
      one_line
      (in_file [] 0).0
      (in_file [] 0).1
      line
unfolding init step append signed_lt avail hand_over
line_run =
    acted (acted (file_made first_file) begin tt tt refl refl) (log line 3) (omega arith) tt refl
      refl

round_writes_all_example :
    (t : System) × (f : LogFile host) × (w : World) × (run_files size memory host
        (enter ∷ wake ∷ write (codes "noon") ∷ [])
        one_line
        (in_file [] 0).0
        (in_file [] 0).1
      ≡ some (t, f, w))
    × (w.bytes ≡ line)
    × (pending t.msg ≡ [])
    × (t.phase ≡ head)
unfolding has_slash one_line signed_lt avail
round_writes_all_example =
    round_writes_all host host-KeepsDirs host-Opens (λ w. w.bytes) host-KeepsBytes size memory
      (codes "m") 6 (codes "/a") world (λ v. omega arith) refl
      (record { plain = omega arith; begins = inl refl; fits = omega arith }) sized (codes "noon")
      line_run refl refl (omega arith)

-- The log's thread behind the critical section, with 26 buffers of one byte each.
abbrev byte_buffer : ℕ → FixedBuffer
byte_buffer c = record { chars = c ∷ replicate 2000 0; cur = 1 }

abbrev flooded : System
flooded = record at_start {
  phase = writing;
  writer = record {
    new1 = none;
    new2 = none;
    to_write = byte_buffer 2 ∷ byte_buffer 3 ∷ replicate 24 (byte_buffer 1);
  };
}

byte_buffer-IsValid : (c : ℕ) → IsValid size (byte_buffer c)
byte_buffer-IsValid c = record {
  whole = omega (arith, length-replicate {A = ℕ} 2000 0);
  inside = omega arith;
}

bytes-All : (n : ℕ) → All size (replicate n (byte_buffer 1))
bytes-All zero = tt
bytes-All (suc n) = (byte_buffer-IsValid 1, bytes-All n)

flooded-Inv : Inv size flooded
flooded-Inv = record {
  msg_inv = (init-Inv size memory).msg_inv;
  phase_inv = (
    refl,
    tt,
    (byte_buffer-IsValid 2, (byte_buffer-IsValid 3, bytes-All 24)),
    omega arith,
    omega arith,
  );
}

write_drops_newest_example :
    (s : System) × (step size memory flooded (write (codes "noon")) ≡ moved s)
    × (concat s.handed_on
        ≡ codes "Dropped log messages at noon, 24 larger buffers\n" ++ (2 ∷ 3 ∷ []))
unfolding init dropped_text decimal as_string
write_drops_newest_example =
    write_drops_newest size memory sized flooded (codes "noon") (byte_buffer 2) (byte_buffer 3)
      (replicate 24 (byte_buffer 1)) flooded-Inv refl refl (omega arith)
