-- ===== src/LogFile/Sample.antt =====
-- A small host on which the log file is run.
use telnet_serv.Prelude.{
  Option, none, sym, ℕ, ◌+◌, ◌≡◌, refl, ap, Bool, true, false, ◌||◌, some, List, [], ◌∷◌, ◌++◌,
  if◌then◌else◌, length, Bool-cases, inl, inr,
}
use telnet_serv.Text.{str_eq, str_eq_self}
use telnet_serv.Terminal.{codes}
use telnet_serv.LogFile.Dirs.{Host, MkDir, made, refused}
use telnet_serv.LogFile.Total.{Opens}
use telnet_serv.LogFile.Make.{KeepsDirs}
use telnet_serv.LogFile.Quiet.{KeepsBytes}

-- A host with a clock, directories of which more can be made while there is room, the names in
-- every directory, the commands that were run, and the bytes that
-- were written to files.
pub record World : Type 0 where
  pub clock : ℕ
  pub room : Bool
  pub dirs : List (List ℕ)
  pub names : List (List ℕ)
  pub commands : List (List ℕ)
  pub bytes : List ℕ

abbrev pub has : List ℕ → List (List ℕ) → Bool
has dir [] = false
has dir (other ∷ dirs) = str_eq other dir || has dir dirs

abbrev pub make_dir : List ℕ → World → MkDir × World
make_dir dir w = if w.room then (made, record w { dirs = dir ∷ w.dirs }) else (refused, w)

abbrev pub text_of : ℕ → List ℕ
text_of n = b'.' ∷ (b'0' + n) ∷ []

-- Files are their numbers of bytes.
abbrev pub host : Host
host = record {
  W = World;
  F = ℕ;
  access = λ dir w. has dir w.dirs;
  mkdir = make_dir;
  time = λ w. (w.clock + 1, record w { clock = w.clock + 1 });
  read_dir = λ dir w. some w.names;
  system = λ command w. record w { commands = command ∷ w.commands };
  day_text = λ now. text_of 5;
  second_text = text_of;
  hostname = codes "host";
  pid_text = codes "7";
  open_file = λ name w. some (0, w);
  append_file = λ line file w. (file + length line, record w { bytes = w.bytes ++ line });
  flush_file = λ file w. w;
  close_file = λ file w. w;
  written_bytes = λ file. file;
}

pub host-KeepsDirs : KeepsDirs host
host-KeepsDirs = record { made_is_there = is_there; none_removed = stays }
  where
    is_there :
        (dir : List ℕ) (w : World)
        → (make_dir dir w).0 ≡ made
        → has dir (make_dir dir w).1.dirs ≡ true
    is_there dir w e = elim (Bool-cases w.room) [
      | inl room ↦ rw (room, str_eq_self dir)
      | inr full ↦ absurd (was_refused (ap (λ (r : MkDir × World). r.0) (full_eq full)))
    ]
      where
        full_eq : w.room ≡ false → make_dir dir w ≡ (refused, w)
        full_eq full = rw full

        was_refused : (make_dir dir w).0 ≡ refused → ⊥
        was_refused k = cc (e, k)

    or_true : (b : Bool) → (b || true) ≡ true
    or_true true = refl
    or_true false = refl

    stays :
        (dir other : List ℕ) (w : World)
        → has other w.dirs ≡ true
        → has other (make_dir dir w).1.dirs ≡ true
    stays dir other w there = elim (Bool-cases w.room) [
      | inl room ↦ rw (room, there) (or_true (str_eq dir other))
      | inr full ↦ rw full there
    ]

pub host-Opens : Opens host
host-Opens name w = (0, w, refl)

pub host-KeepsBytes : KeepsBytes host (λ w. w.bytes)
host-KeepsBytes = record {
  append_writes = λ line file w. refl;
  open_quiet = λ name w file w' e. same_world w w' e;
  close_quiet = λ file w. refl;
  flush_quiet = λ file w. refl;
  mkdir_quiet = same_bytes;
  time_quiet = λ w. refl;
  system_quiet = λ command w. refl;
}
  where
    same_world :
        (w w' : World) {file : ℕ}
        → let opened : ℕ × World = (file, w') in some (0, w) ≡ some opened → w'.bytes ≡ w.bytes
    same_world w w' e =
        ap (λ (o : Option (ℕ × World)). elim o [ none ↦ w.bytes | some p ↦ p.1.bytes ]) (sym e)

    same_bytes : (dir : List ℕ) (w : World) → (make_dir dir w).1.bytes ≡ w.bytes
    same_bytes dir w = elim (Bool-cases w.room) [ inl e ↦ rw e | inr e ↦ rw e ]

abbrev pub world : World
world = record { clock = 100; room = true; dirs = []; names = []; commands = []; bytes = [] }
