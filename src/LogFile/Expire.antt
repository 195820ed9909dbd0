-- ===== src/LogFile/Expire.antt =====
-- deleteExpiredFile: which files of the directory are removed.
use telnet_serv.Prelude.{
  ℕ, ◌+◌, ◌-◌, ◌*◌, ◌%◌, ◌^◌, ◌≡◌, true, List, [], ◌∷◌, ◌++◌, if◌then◌else◌, length, ◌≤◌,
}
use telnet_serv.Text.{str_lt}
use telnet_serv.Terminal.{codes}
use telnet_serv.LogFile.{LogFile, is_log_name}
use telnet_serv.LogFile.Dirs.{Host}

-- A file of this log: the base name, the day of its file name, and what comes behind.
abbrev pub own_name : List ℕ → List ℕ × List ℕ → List ℕ
own_name base file = base ++ (file.0 ++ file.1)

-- The command that removes a file.
abbrev pub rm_of : List ℕ → List ℕ → List ℕ
rm_of dir name = codes "rm -f " ++ (dir ++ name)

-- The days are as long as `day`, the names end in ".log", and the commands fit into their array.
abbrev pub AreOwn : List ℕ → List ℕ → List ℕ → List (List ℕ × List ℕ) → Type 0
AreOwn dir base day [] = Unit {0}
AreOwn dir base day (file ∷ files) =
    ((length file.0 ≡ length day)
      × (is_log_name (own_name base file) ≡ true)
      × (length (rm_of dir (own_name base file)) ≤ 255))
    × AreOwn dir base day files

module _ (h : Host) where
  open h use {W, access, time, read_dir, system, day_text}

  -- The files of days before `day` are removed, one by one.
  abbrev pub remove_older : List ℕ → List ℕ → List ℕ → List (List ℕ × List ℕ) → W → W
  remove_older dir base day [] w = w
  remove_older dir base day (file ∷ files) w =
      remove_older dir base day files
        (if str_lt file.0 day then system (rm_of dir (own_name base file)) w else w)

  -- The day's text in a name, that many days before `now`.
  abbrev pub oldest_day : ℕ → ℕ → List ℕ
  oldest_day days now = day_text ((now + 2 ^ 64 - days * 24 * 3600) % 2 ^ 64)
