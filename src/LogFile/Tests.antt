-- ===== src/LogFile/Tests.antt =====
-- The log file on a small host: runs, and instances of the theorems.
use telnet_serv.Prelude.{
  ap, sym, ℕ, ◌≡◌, refl, true, false, Option, none, some, List, [], ◌∷◌, arith, inl,
}
use telnet_serv.Text.{str_eq}
use telnet_serv.Terminal.{codes}
use telnet_serv.FixedBuffer.{memcpy}
use telnet_serv.LogFile.{
  has_slash, LogFile, ◌>>=◌, log_names, remove_before, cp_file_name, delete_expired_file,
  get_log_file_name, with_slash, use_file_path, open_rolled, roll_into, roll_file, new_log_file,
  check_period, after_append, append_unlocked, append,
}
use telnet_serv.LogFile.Dirs.{
  no_error, createdir_fail, to_slashes, behind_slash, make_one, make_dirs, make_path,
  end_with_slash, create_dir,
}
use telnet_serv.LogFile.Sample.{World, host, host-KeepsDirs, host-Opens, world}
use telnet_serv.LogFile.Make.{make_dirs_claims}
use telnet_serv.LogFile.Roll.{IsOpen}
use telnet_serv.LogFile.Total.{append_all, log_file_total}
use telnet_serv.LogFile.Size.{Within, append_bounds}

abbrev full_world : World
full_world = record world { room = false }

-- An open file of 5 bytes that is to be rolled above 6.
abbrev opened : LogFile host
opened = record {
  log_file_path = codes "/a";
  reserve_log_date = 3;
  basename = codes "m";
  roll_size = 6;
  flush_interval = 3;
  check_every_n = 2;
  count = 0;
  start_of_period = 0;
  last_roll = 0;
  last_flush = 0;
  file = some 5;
}

abbrev result : Option (LogFile host × World) → LogFile host × World
result none = (opened, world)
result (some p) = p

abbrev appended : LogFile host × World
unfolding append append_unlocked after_append check_period roll_file use_file_path roll_into
    open_rolled get_log_file_name with_slash delete_expired_file cp_file_name log_names
    remove_before create_dir memcpy end_with_slash to_slashes make_path behind_slash make_dirs
    make_one str_eq
appended = result (append host true (codes "hi") opened world)

new_empty :
    (name : List ℕ) (w : World) (file : ℕ) (w' : World)
    → host.open_file name w ≡ some (file, w')
    → host.written_bytes file ≡ 0
new_empty name w file w' e =
    ap (λ (o : Option (ℕ × World)). elim o [ none ↦ 0 | some p ↦ p.0 ]) (sym e)

-- The file had 7 bytes, and a new one is in use.
append_bounds_example : Within host new_empty 6 appended.0.file
unfolding append append_unlocked after_append check_period roll_file use_file_path roll_into
    open_rolled get_log_file_name with_slash delete_expired_file cp_file_name log_names
    remove_before create_dir memcpy end_with_slash to_slashes make_path behind_slash make_dirs
    make_one str_eq
append_bounds_example =
    append_bounds host new_empty true (codes "hi") opened appended.0 world appended.1
      (λ v. omega arith) refl

abbrev first : LogFile host × World
unfolding has_slash new_log_file roll_file use_file_path roll_into open_rolled get_log_file_name
    with_slash delete_expired_file cp_file_name log_names remove_before create_dir memcpy
    end_with_slash to_slashes make_path behind_slash make_dirs make_one str_eq
first = result (new_log_file host (codes "m") 6 (codes "/a") 3 2 3 world)

log_file_total_example :
    (f : LogFile host) × (w' : World) × ((new_log_file host (codes "m") 6 (codes "/a") 3 2 3 world
        >>= λ p. append_all host true (codes "hi" ∷ codes "ho" ∷ []) p.0 p.1)
      ≡ some (f, w'))
    × IsOpen host f
unfolding has_slash
log_file_total_example =
    log_file_total host host-KeepsDirs host-Opens (codes "m") 6 (codes "/a") 3 2 3 true
      (codes "hi" ∷ codes "ho" ∷ []) world (λ v. omega arith) refl
      (record { plain = omega arith; begins = inl refl; fits = omega arith })

-- The directory of the constructor was made.
first_dir : first.1.dirs ≡ codes "/a/" ∷ []
unfolding has_slash new_log_file roll_file use_file_path roll_into open_rolled get_log_file_name
    with_slash delete_expired_file cp_file_name log_names remove_before create_dir memcpy
    end_with_slash to_slashes make_path behind_slash make_dirs make_one str_eq
first_dir = refl

make_dirs_claims_example : true ≡ true
unfolding make_dirs make_one
make_dirs_claims_example =
    make_dirs_claims host (codes "/a/") (b'a' ∷ b'/' ∷ 0 ∷ []) 1 true no_error createdir_fail
      full_world full_world refl

-- Two days of logs, of which the older goes.
abbrev two_days : World
two_days = record world { dirs = codes "./" ∷ []; names = codes "m.4.log" ∷ codes "m.5.log" ∷ [] }

abbrev foreign : World
foreign = record world { dirs = codes "./" ∷ []; names = codes "apt.log" ∷ [] }
