-- ===== src/LogFile/Roll.antt =====
-- The log file over appends: it stays open, its times keep their order, and it rolls by size.
use telnet_serv.Prelude.{
  ℕ, ◌+◌, ◌*◌, ◌/◌, ◌≤◌, ◌<◌, ◌≡◌, ◌≢◌, refl, subst, Bool, true, false, Option, none, some, List,
  ltb, leb, ◌==◌, arith, Bool-cases, Option-cases, inl, inr, lt→ltb, ltb→lt,
}
use telnet_serv.LogFile.{
  has_slash, LogFile, ◌>>=◌, roll_per_seconds, use_file_path, open_rolled, roll_into, roll_file,
  rolled, new_log_file, check_period, after_append, append_unlocked, append, get_log_file_name,
  with_slash,
}
use telnet_serv.LogFile.Dirs.{Host}

module _ (h : Host) where
  open h use {W, F, time, open_file, append_file, flush_file, written_bytes}

  -- There is a file; its period is that of its roll, and no flush is older than the roll.
  pub record IsOpen (f : LogFile h) : Type 0 where
    pub opened : f.file ≢ none
    pub period : f.start_of_period ≡ f.last_roll / roll_per_seconds * roll_per_seconds
    pub flushed : f.last_roll ≤ f.last_flush

  -- The parts of an invariant that a call keeps, if it returns.
  abbrev Returns : (LogFile h → Type 0) → Option (LogFile h × W) → Type 0
  Returns P none = Unit
  Returns P (some (f, w)) = P f

  -- The same of a roll.
  abbrev Rolls : (LogFile h → Type 0) → Option (Bool × LogFile h × W) → Type 0
  Rolls P none = Unit
  Rolls P (some (ok, f, w)) = P f

  Rolls-Returns :
      (P : LogFile h → Type 0) (o : Option (Bool × LogFile h × W))
      → Rolls P o
      → Returns P (o >>= λ q. some (q.1, q.2))
  Rolls-Returns P none r = tt
  Rolls-Returns P (some q) r = r

  some-ne-none : {A : Type 0} (a : A) → some a ≢ none
  some-ne-none a e = cc

  open_rolled-IsOpen :
      (f : LogFile h) (filename : List ℕ) (now : ℕ) (w : W)
      → IsOpen f
      → Rolls IsOpen (open_rolled h f filename now w)
  unfolding open_rolled
  open_rolled-IsOpen f filename now w v = elim (Bool-cases (ltb f.last_roll now)) [
    | inl e ↦ elim (Option-cases (open_file filename w)) [
      | inl n ↦ rw (e, n) tt
      | inr ((file, w'), n) ↦
          rw (e, n) (record { opened = some-ne-none file; period = refl; flushed = omega arith })
    ]
    | inr e ↦ rw e v
  ]

  roll_into-IsOpen :
      (used : Bool) (f : LogFile h) (w : W) → IsOpen f → Rolls IsOpen (roll_into h used f w)
  unfolding roll_into
  roll_into-IsOpen true f w v =
      let f1 : LogFile h = record f { log_file_path = with_slash h f.log_file_path } in
      open_rolled-IsOpen f1 _ _ _
        (record { opened = v.opened; period = v.period; flushed = v.flushed })
  roll_into-IsOpen false f w v = open_rolled-IsOpen f _ _ _ v

  rolled-IsOpen : (f : LogFile h) (w : W) → IsOpen f → Returns IsOpen (rolled h f w)
  unfolding roll_file
  rolled-IsOpen f w v = elim (Option-cases (use_file_path h f w)) [
    | inl e ↦ rw e tt
    | inr ((used, w'), e) ↦
        rw e (Rolls-Returns IsOpen (roll_into h used f w') (roll_into-IsOpen used f w' v))
  ]

  check_period-IsOpen :
      (file : F) (f : LogFile h) (w : W) → IsOpen f → Returns IsOpen (check_period h file f w)
  unfolding check_period
  check_period-IsOpen file f w v =
      let now : ℕ = (time w).0 in
      elim (Bool-cases (now / roll_per_seconds * roll_per_seconds == f.start_of_period)) [
        | inr e ↦ rw e (rolled-IsOpen f (time w).1 v)
        | inl e ↦ elim (Bool-cases (ltb (f.last_flush + f.flush_interval) now)) [
          | inl late ↦
              rw (e, late)
                (record {
                  opened = v.opened;
                  period = v.period;
                  flushed = omega (arith, v.flushed, ltb→lt _ _ late);
                })
          | inr soon ↦ rw (e, soon) v
        ]
      ]

  after_append-IsOpen :
      (file : F) (f : LogFile h) (w : W) → IsOpen f → Returns IsOpen (after_append h file f w)
  unfolding after_append
  after_append-IsOpen file f w v = elim (Bool-cases (ltb f.roll_size (written_bytes file))) [
    | inl e ↦ rw e (rolled-IsOpen f w v)
    | inr e ↦ elim (Bool-cases (leb f.check_every_n (f.count + 1))) [
      | inl due ↦
          rw (e, due)
            (check_period-IsOpen file (record f { count = 0 }) w
              (record { opened = v.opened; period = v.period; flushed = v.flushed }))
      | inr not_due ↦
          rw (e, not_due) (record { opened = v.opened; period = v.period; flushed = v.flushed })
    ]
  ]

  unlocked-IsOpen :
      (logline : List ℕ) (f : LogFile h) (w : W)
      → IsOpen f
      → Returns IsOpen (append_unlocked h logline f w)
  unfolding append_unlocked
  unlocked-IsOpen logline f w v = elim (Option-cases f.file) [
    | inl e ↦ absurd (v.opened e)
    | inr (file, e) ↦ simp e (
        let put = append_file logline file w in
        after_append-IsOpen put.0 (record f { file = some put.0 }) put.1
          (record { opened = some-ne-none put.0; period = v.period; flushed = v.flushed }))
  ]

  Returns-some :
      (P : LogFile h → Type 0) (o : Option (LogFile h × W)) (f : LogFile h) (w : W)
      → Returns P o
      → o ≡ some (f, w)
      → P f
  Returns-some P o f w r e = subst (Returns P) e r

  -- append, with the lock or without, on a log file that is open with its times in order: if it
  -- returns, the file is open and the times are in order again, whatever was written, rolled or
  -- flushed.
  pub append-IsOpen :
      (thread_safe : Bool) (logline : List ℕ) (f f' : LogFile h) (w w' : W)
      → IsOpen f
      → append h thread_safe logline f w ≡ some (f', w')
      → IsOpen f'
  unfolding append
  append-IsOpen true logline f f' w w' v e =
      Returns-some IsOpen (append_unlocked h logline f w) f' w' (unlocked-IsOpen logline f w v) e
  append-IsOpen false logline f f' w w' v e =
      Returns-some IsOpen (append_unlocked h logline f w) f' w' (unlocked-IsOpen logline f w v) e

  first-IsOpen :
      (f : LogFile h) (filename : List ℕ) (now : ℕ) (w : W)
      → f.last_roll ≡ 0
      → 0 < now
      → Rolls IsOpen (open_rolled h f filename now w)
  unfolding open_rolled
  first-IsOpen f filename now w z pos =
      let e = lt→ltb f.last_roll now (omega arith) in
      elim (Option-cases (open_file filename w)) [
        | inl n ↦ rw (e, n) tt
        | inr ((file, w'), n) ↦
            rw (e, n) (record { opened = some-ne-none file; period = refl; flushed = omega arith })
      ]

  first_into :
      (used : Bool) (f : LogFile h) (w : W)
      → ((v : W) → 0 < (time v).0)
      → f.last_roll ≡ 0
      → Rolls IsOpen (roll_into h used f w)
  unfolding roll_into get_log_file_name
  first_into true f w clock z =
      first-IsOpen (record f { log_file_path = with_slash h f.log_file_path }) _ _ _ z (clock w)
  first_into false f w clock z = first-IsOpen f _ _ _ z (clock w)

  -- A new log file, if its constructor returns and the clock shows more than 0, is open with its
  -- times in order.
  pub new_log_file-IsOpen :
      (basename : List ℕ) (roll_size : ℕ) (path : List ℕ) (interval check keep : ℕ) (w w' : W)
      (f : LogFile h)
      → ((v : W) → 0 < (time v).0)
      → new_log_file h basename roll_size path interval check keep w ≡ some (f, w')
      → IsOpen f
  unfolding new_log_file roll_file
  new_log_file-IsOpen basename roll_size path interval check keep w w' f clock e =
      let blank : LogFile h = record {
        log_file_path = path;
        reserve_log_date = keep;
        basename = basename;
        roll_size = roll_size;
        flush_interval = interval;
        check_every_n = check;
        count = 0;
        start_of_period = 0;
        last_roll = 0;
        last_flush = 0;
        file = none;
      } in
      Returns-some IsOpen (new_log_file h basename roll_size path interval check keep w) f w'
        (elim (Bool-cases (has_slash basename)) [
          | inl slash ↦ rw slash tt
          | inr plain ↦ rw plain (by_dir blank refl (use_file_path h blank w))
        ])
        e
    where
      by_dir :
          (g : LogFile h)
          → g.last_roll ≡ 0
          → (o : Option (Bool × W))
          → Returns IsOpen ((o >>= λ p. roll_into h p.0 g p.1) >>= λ q. some (q.1, q.2))
      by_dir g z none = tt
      by_dir g z (some (used, v)) =
          Rolls-Returns IsOpen (roll_into h used g v) (first_into used g v clock z)
