-- ===== src/LogFile/Size.antt =====
-- The size of the log file's file.
use telnet_serv.Prelude.{
  ℕ, ◌+◌, ◌*◌, ◌/◌, ◌≤◌, ◌<◌, ◌≡◌, refl, sym, subst, Bool, true, false, Option, none, some, List,
  ltb, leb, ◌==◌, arith, Bool-cases, Option-cases, inl, inr, ltb→le,
}
use telnet_serv.LogFile.{
  LogFile, ◌>>=◌, roll_per_seconds, use_file_path, open_rolled, roll_into, roll_file, rolled,
  check_period, after_append, append_unlocked, append, get_log_file_name, with_slash,
}
use telnet_serv.LogFile.Dirs.{Host}

-- `h`, with new files that are empty.
module _ (h : Host)
    (fresh : (name : List ℕ) (w : h.W) (file : h.F) (w' : h.W)
      → h.open_file name w ≡ some (file, w')
      → h.written_bytes file ≡ 0) where
  open h use {W, F, time, open_file, append_file, written_bytes}

  -- The file, if there is one, has at most n bytes.
  abbrev pub Within : ℕ → Option F → Type 0
  Within n none = Unit
  Within n (some file) = written_bytes file ≤ n

  abbrev Fits : ℕ → Option (LogFile h × W) → Type 0
  Fits n none = Unit
  Fits n (some (f, w)) = Within n f.file

  abbrev RollFits : ℕ → Option (Bool × LogFile h × W) → Type 0
  RollFits n none = Unit
  RollFits n (some (ok, f, w)) = Within n f.file

  RollFits-Fits :
      (n : ℕ) (o : Option (Bool × LogFile h × W))
      → RollFits n o
      → Fits n (o >>= λ q. some (q.1, q.2))
  RollFits-Fits n none r = tt
  RollFits-Fits n (some q) r = r

  -- A roll from a file that fits, or at a second behind that of the last roll.
  open_rolled-Within :
      (n : ℕ) (f : LogFile h) (filename : List ℕ) (now : ℕ) (w : W)
      → (ltb f.last_roll now ≡ false → Within n f.file)
      → RollFits n (open_rolled h f filename now w)
  unfolding open_rolled
  open_rolled-Within n f filename now w old = elim (Bool-cases (ltb f.last_roll now)) [
    | inl e ↦ elim (Option-cases (open_file filename w)) [
      | inl k ↦ rw (e, k) tt
      | inr ((file, w'), k) ↦ rw (e, k) (omega (arith, fresh filename w file w' k))
    ]
    | inr e ↦ rw e (old e)
  ]

  roll_into-Within :
      (n : ℕ) (used : Bool) (f : LogFile h) (w : W)
      → ((v : W) → ltb f.last_roll (time v).0 ≡ false → Within n f.file)
      → RollFits n (roll_into h used f w)
  unfolding roll_into get_log_file_name
  roll_into-Within n true f w old =
      open_rolled-Within n (record f { log_file_path = with_slash h f.log_file_path }) _ _ _ (old w)
  roll_into-Within n false f w old = open_rolled-Within n f _ _ _ (old w)

  rolled-Fits :
      (n : ℕ) (f : LogFile h) (w : W)
      → ((v : W) → ltb f.last_roll (time v).0 ≡ false → Within n f.file)
      → Fits n (rolled h f w)
  unfolding roll_file
  rolled-Fits n f w old = elim (Option-cases (use_file_path h f w)) [
    | inl e ↦ rw e tt
    | inr ((used, w'), e) ↦
        rw e (RollFits-Fits n (roll_into h used f w') (roll_into-Within n used f w' old))
  ]

  check_period-Fits :
      (n : ℕ) (file : F) (f : LogFile h) (w : W)
      → Within n f.file
      → Fits n (check_period h file f w)
  unfolding check_period
  check_period-Fits n file f w v =
      let now : ℕ = (time w).0 in
      elim (Bool-cases (now / roll_per_seconds * roll_per_seconds == f.start_of_period)) [
        | inr e ↦ rw e (rolled-Fits n f (time w).1 (λ u later. v))
        | inl e ↦ elim (Bool-cases (ltb (f.last_flush + f.flush_interval) now)) [
          | inl late ↦ rw (e, late) v
          | inr soon ↦ rw (e, soon) v
        ]
      ]

  after_append-Fits :
      (file : F) (f : LogFile h) (w : W)
      → ((v : W) → f.last_roll < (time v).0)
      → f.file ≡ some file
      → Fits f.roll_size (after_append h file f w)
  unfolding after_append
  after_append-Fits file f w clock here = elim (Bool-cases (ltb f.roll_size (written_bytes file))) [
    | inl e ↦
        rw e
          (rolled-Fits f.roll_size f w λ v late. absurd (omega (arith, clock v, ltb→le _ _ late)))
    | inr e ↦
        let fits : Within f.roll_size f.file =
          subst (Within f.roll_size) (sym here) (ltb→le f.roll_size (written_bytes file) e) in
        elim (Bool-cases (leb f.check_every_n (f.count + 1))) [
          | inl due ↦
              rw (e, due) (check_period-Fits f.roll_size file (record f { count = 0 }) w fits)
          | inr not_due ↦ rw (e, not_due) fits
        ]
  ]

  unlocked-Fits :
      (logline : List ℕ) (f : LogFile h) (w : W)
      → ((v : W) → f.last_roll < (time v).0)
      → Fits f.roll_size (append_unlocked h logline f w)
  unfolding append_unlocked
  unlocked-Fits logline f w clock = elim (Option-cases f.file) [
    | inl e ↦ simp e tt
    | inr (file, e) ↦ simp e (
        let put = append_file logline file w in
        after_append-Fits put.0 (record f { file = some put.0 }) put.1 clock refl)
  ]

  -- append, when the clock shows a second behind that of the last roll whenever it is read, and new
  -- files are empty: if it returns, the file in use has at most roll_size bytes, since one that has
  -- more is replaced.
  pub append_bounds :
      (thread_safe : Bool) (logline : List ℕ) (f f' : LogFile h) (w w' : W)
      → ((v : W) → f.last_roll < (time v).0)
      → append h thread_safe logline f w ≡ some (f', w')
      → Within f.roll_size f'.file
  unfolding append
  append_bounds true logline f f' w w' clock e =
      subst (Fits f.roll_size) e (unlocked-Fits logline f w clock)
  append_bounds false logline f f' w w' clock e =
      subst (Fits f.roll_size) e (unlocked-Fits logline f w clock)
