-- ===== src/LogFile.antt =====
-- muduo/base/LogFile.cc and LogFile.h: a log file that rolls by size and by day into a directory
-- that it makes, and that removes old log files. LogFile/Dirs.antt has the directories.
pub mod Dirs
pub mod Roll
pub mod Size
pub mod Make
pub mod Create
pub mod Total
pub mod Expire
pub mod Quiet
pub mod Bytes
pub mod Sample
mod Tests
use telnet_serv.Prelude.{
  ℕ, zero, suc, ◌+◌, ◌-◌, ◌*◌, ◌/◌, ◌%◌, ◌^◌, Bool, true, false, not, ◌&&◌, ◌||◌, Option, none,
  some, List, [], ◌∷◌, ◌++◌, ltb, leb, ◌==◌, if◌then◌else◌, length, get_or, take, drop,
  Option-cases,
}
use telnet_serv.Terminal.{codes}
use telnet_serv.LogFile.Dirs.{Host, ErrorCode, no_error, create_dir, is_exist_file_path}

infixl 5 ◌>>=◌
abbrev pub ◌>>=◌ : {A B : Type 0} → Option A → (A → Option B) → Option B
none >>= f = none
some a >>= f = f a

-- kRollPerSeconds_
abbrev pub roll_per_seconds : ℕ
roll_per_seconds = 86400

-- `dirLen > 4` and the last four characters are ".log"
unfoldable pub is_log_name : List ℕ → Bool
is_log_name name =
    let n = length name in
    ltb 4 n
    && ((get_or name (n - 4) 0 == b'.')
        && ((get_or name (n - 3) 0 == b'l')
            && ((get_or name (n - 2) 0 == b'o') && (get_or name (n - 1) 0 == b'g'))))

-- strncmp(a, b, n) < 0
unfoldable pub strncmp_lt : ℕ → List ℕ → List ℕ → Bool
strncmp_lt zero a b = false
strncmp_lt (suc n) a [] = false
strncmp_lt (suc n) [] (d ∷ ds) = true
strncmp_lt (suc n) (c ∷ cs) (d ∷ ds) = ltb c d || ((c == d) && strncmp_lt n cs ds)

-- basename.find('/') != string::npos
unfoldable pub has_slash : List ℕ → Bool
has_slash [] = false
has_slash (c ∷ cs) = (c == b'/') || has_slash cs

-- The names in nameList.
unfoldable pub log_names : List (List ℕ) → List (List ℕ)
log_names [] = []
log_names (name ∷ names) = if is_log_name name then name ∷ log_names names else log_names names

-- snprintf(cmd, 256, "rm -f %s%s", pszDirName, name)
unfoldable pub rm_command : List ℕ → List ℕ → List ℕ
rm_command dir name = take 255 (codes "rm -f " ++ (dir ++ name))

-- reserveLogDate_ * 24 * 3600, an int product, as a 64-bit pattern; it wraps around.
unfoldable pub reserved_seconds : ℕ → ℕ
reserved_seconds days =
    let product = days * 24 * 3600 % 2 ^ 32 in
    if ltb product (2 ^ 31) then product else product + (2 ^ 64 - 2 ^ 32)

module _ (h : Host) where
  open h use {
    W, F, time, read_dir, system, day_text, second_text, hostname, pid_text, open_file, append_file,
    flush_file, close_file, written_bytes,
  }

  -- The members; `file` is file_, and NULL is `none`.
  pub record LogFile : Type 0 where
    pub log_file_path : List ℕ
    pub reserve_log_date : ℕ
    pub basename : List ℕ
    pub roll_size : ℕ
    pub flush_interval : ℕ
    pub check_every_n : ℕ
    pub count : ℕ
    pub start_of_period : ℕ
    pub last_roll : ℕ
    pub last_flush : ℕ
    pub file : Option F

  -- The loop over nameList.
  unfoldable pub remove_before : List ℕ → List ℕ → List (List ℕ) → W → W
  remove_before dir cp [] w = w
  remove_before dir cp (name ∷ names) w =
      let w' = if strncmp_lt (length cp) name cp then system (rm_command dir name) w else w in
      remove_before dir cp names w'

  -- cpFileName: the base name and the day, `reserve_log_date` days back, of a 64-bit time_t.
  unfoldable pub cp_file_name : LogFile → ℕ → List ℕ
  unfolding reserved_seconds
  cp_file_name f now =
      f.basename ++ day_text ((now + 2 ^ 64 - reserved_seconds f.reserve_log_date) % 2 ^ 64)

  -- bool deleteExpiredFile(const char* pszDirName), which always returns true.
  unfoldable pub delete_expired_file : LogFile → List ℕ → W → W
  delete_expired_file f dir w =
      if not (is_exist_file_path h dir w) then w else elim (read_dir dir w) [
        | none ↦ w
        | some names ↦
            let (now, w') = time w in remove_before dir (cp_file_name f now) (log_names names) w'
      ]

  -- string getLogFileName(const string& basename, time_t* now)
  unfoldable pub get_log_file_name : List ℕ → W → (List ℕ × ℕ) × W
  get_log_file_name basename w =
      let (now, w') = time w in
      (
        (basename ++ (second_text now ++ (hostname ++ (b'.' ∷ (pid_text ++ codes ".log")))), now),
        w',
      )

  -- The directory's name with a slash at its end.
  unfoldable pub with_slash : List ℕ → List ℕ
  with_slash path = if get_or path (length path - 1) 0 == b'/' then path else path ++ b'/' ∷ []

  -- isUseFilePath: the directory is there, or could be made.
  unfoldable pub use_file_path : LogFile → W → Option (Bool × W)
  use_file_path f w =
      if is_exist_file_path h f.log_file_path w
      then some (true, w)
      else elim (create_dir h f.log_file_path (length f.log_file_path) no_error w) [
        | none ↦ none
        | some (ok, err, w') ↦ some (ok, w')
      ]

  -- What `file_.reset` deletes.
  abbrev pub close_old : Option F → W → W
  close_old none w = w
  close_old (some file) w = close_file file w

  -- The end of rollFile: a new file if the second is later than that of the last. `none` says that
  -- assert(fp_) of AppendFile fails.
  unfoldable pub open_rolled : LogFile → List ℕ → ℕ → W → Option (Bool × LogFile × W)
  open_rolled f filename now w =
      if ltb f.last_roll now
      then elim (open_file filename w) [
        | none ↦ none
        | some (file, w') ↦ some (
          true,
          record f {
            last_roll = now;
            last_flush = now;
            start_of_period = now / roll_per_seconds * roll_per_seconds;
            file = some file;
          },
          close_old f.file w',
        )
      ]
      else some (false, f, w)

  -- rollFile behind the choice of the directory.
  unfoldable pub roll_into : Bool → LogFile → W → Option (Bool × LogFile × W)
  roll_into true f w =
      let ((filename, now), w1) = get_log_file_name f.basename w in
      let f1 : LogFile = record f { log_file_path = with_slash f.log_file_path } in
      open_rolled f1 (f1.log_file_path ++ filename) now (delete_expired_file f1 f1.log_file_path w1)
  roll_into false f w =
      let ((filename, now), w1) = get_log_file_name f.basename w in
      open_rolled f filename now (delete_expired_file f (codes "./") w1)

  -- bool rollFile(); `none` says that createDir left an array, or that an assert failed.
  unfoldable pub roll_file : LogFile → W → Option (Bool × LogFile × W)
  roll_file f w = do (used, w') ← use_file_path f w; roll_into used f w'

  abbrev pub rolled : LogFile → W → Option (LogFile × W)
  rolled f w = do (ok, f', w') ← roll_file f w; some (f', w')

  -- LogFile(...): the members, the assert, and the first file.
  unfoldable pub new_log_file : List ℕ → ℕ → List ℕ → ℕ → ℕ → ℕ → W → Option (LogFile × W)
  new_log_file basename roll_size path flush_interval check_every_n keep_log_date w =
      let blank : LogFile = record {
        log_file_path = path;
        reserve_log_date = keep_log_date;
        basename = basename;
        roll_size = roll_size;
        flush_interval = flush_interval;
        check_every_n = check_every_n;
        count = 0;
        start_of_period = 0;
        last_roll = 0;
        last_flush = 0;
        file = none;
      } in
      if has_slash basename then none else rolled blank w

  -- Every checkEveryN_ calls: a new day, or a flush.
  unfoldable pub check_period : F → LogFile → W → Option (LogFile × W)
  check_period file f w =
      let (now, w1) = time w in
      if not (now / roll_per_seconds * roll_per_seconds == f.start_of_period)
      then rolled f w1
      else if ltb (f.last_flush + f.flush_interval) now
      then some (record f { last_flush = now }, flush_file file w1)
      else some (f, w1)

  -- append_unlocked behind the write.
  unfoldable pub after_append : F → LogFile → W → Option (LogFile × W)
  after_append file f w =
      if ltb f.roll_size (written_bytes file)
      then rolled f w
      else if leb f.check_every_n (f.count + 1)
      then check_period file (record f { count = 0 }) w
      else some (record f { count = f.count + 1 }, w)

  -- void append_unlocked(const char* logline, int len); `none` is the use of a null file_ too.
  unfoldable pub append_unlocked : List ℕ → LogFile → W → Option (LogFile × W)
  append_unlocked logline f w = do
    file ← f.file
    let (file', w1) = append_file logline file w
    after_append file' (record f { file = some file' }) w1

  -- void append(const char* logline, int len): one critical section, with the lock or without.
  unfoldable pub append : Bool → List ℕ → LogFile → W → Option (LogFile × W)
  append thread_safe logline f w =
      if thread_safe then append_unlocked logline f w else append_unlocked logline f w

  -- void flush()
  unfoldable pub flush : LogFile → W → Option W
  flush f w = do file ← f.file; some (flush_file file w)
