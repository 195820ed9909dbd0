-- ===== src/LogFile/Bytes.antt =====
-- What reaches the files: an append writes its line, and nothing else in a log file writes.
use telnet_serv.Prelude.{
  ℕ, ◌+◌, ◌*◌, ◌/◌, ◌≡◌, refl, sym, subst, ◌∙◌, Bool, true, false, Option, none, some, List, [],
  ◌∷◌, ◌++◌, ltb, leb, ◌==◌, length, Bool-cases, Option-cases, concat, append-nil, append_assoc,
  inl, inr,
}
use telnet_serv.Terminal.{codes}
use telnet_serv.LogFile.Total.{append_all}
use telnet_serv.LogFile.{
  has_slash, LogFile, ◌>>=◌, roll_per_seconds, strncmp_lt, rm_command, log_names, remove_before,
  cp_file_name, delete_expired_file, get_log_file_name, with_slash, use_file_path, close_old,
  open_rolled, roll_into, roll_file, rolled, new_log_file, check_period, after_append,
  append_unlocked, append,
}
use telnet_serv.LogFile.Dirs.{Host}
use telnet_serv.LogFile.Quiet.{KeepsBytes, Leaves, second, use_file_path-quiet}

module _ (h : Host) (written : h.W → List ℕ) (laws : KeepsBytes h written) where
  open h use {
    W, F, access, mkdir, time, system, read_dir, open_file, append_file, flush_file, close_file,
    written_bytes,
  }

  remove_before-quiet :
      (dir cp : List ℕ) (names : List (List ℕ)) (w : W)
      → written (remove_before h dir cp names w) ≡ written w
  unfolding remove_before
  remove_before-quiet dir cp [] w = refl
  remove_before-quiet dir cp (name ∷ names) w = elim (Bool-cases (strncmp_lt (length cp) name cp)) [
    | inl e ↦
        rw (remove_before, e)
          (remove_before-quiet dir cp names (system (rm_command dir name) w)
            ∙ laws.system_quiet (rm_command dir name) w)
    | inr e ↦ rw (remove_before, e) (remove_before-quiet dir cp names w)
  ]

  delete_expired_file-quiet :
      (f : LogFile h) (dir : List ℕ) (w : W) → written (delete_expired_file h f dir w) ≡ written w
  unfolding delete_expired_file
  delete_expired_file-quiet f dir w = elim (Bool-cases (access dir w)) [
    | inr e ↦ rw e
    | inl e ↦ elim (Option-cases (read_dir dir w)) [
      | inl n ↦ rw (e, n)
      | inr (names, n) ↦
          rw (e, n)
            (remove_before-quiet dir (cp_file_name h f (time w).0) (log_names names) (time w).1
              ∙ laws.time_quiet w)
    ]
  ]

  close_old-quiet : (file : Option F) (w : W) → written (close_old h file w) ≡ written w
  close_old-quiet none w = refl
  close_old-quiet (some file) w = laws.close_quiet file w

  abbrev third : Bool × LogFile h × W → W
  third p = p.2

  open_rolled-quiet :
      (f : LogFile h) (filename : List ℕ) (now : ℕ) (w : W)
      → Leaves h written laws third (written w) (open_rolled h f filename now w)
  unfolding open_rolled
  open_rolled-quiet f filename now w = elim (Bool-cases (ltb f.last_roll now)) [
    | inl e ↦ elim (Option-cases (open_file filename w)) [
      | inl n ↦ rw (e, n) tt
      | inr ((file, w'), n) ↦
          rw (e, n) (close_old-quiet f.file w' ∙ laws.open_quiet filename w file w' n)
    ]
    | inr e ↦ rw e refl
  ]

  roll_into-quiet :
      (used : Bool) (f : LogFile h) (w : W)
      → Leaves h written laws third (written w) (roll_into h used f w)
  unfolding roll_into get_log_file_name
  roll_into-quiet true f w =
      let f1 : LogFile h = record f { log_file_path = with_slash h f.log_file_path } in
      let dir : List ℕ = f1.log_file_path in
      subst (λ bs. Leaves h written laws third bs (roll_into h true f w))
        (delete_expired_file-quiet f1 dir (time w).1 ∙ laws.time_quiet w)
        (open_rolled-quiet f1 _ _ (delete_expired_file h f1 dir (time w).1))
  roll_into-quiet false f w =
      subst (λ bs. Leaves h written laws third bs (roll_into h false f w))
        (delete_expired_file-quiet f (codes "./") (time w).1 ∙ laws.time_quiet w)
        (open_rolled-quiet f _ _ (delete_expired_file h f (codes "./") (time w).1))

  abbrev pub world_of : LogFile h × W → W
  world_of p = p.1

  roll-Leaves :
      (bytes : List ℕ) (o : Option (Bool × LogFile h × W))
      → Leaves h written laws third bytes o
      → Leaves h written laws world_of bytes (o >>= λ q. some (q.1, q.2))
  roll-Leaves bytes none l = tt
  roll-Leaves bytes (some q) l = l

  rolled-quiet : (f : LogFile h) (w : W) → Leaves h written laws world_of (written w) (rolled h f w)
  unfolding roll_file
  rolled-quiet f w = elim (Option-cases (use_file_path h f w)) [
    | inl e ↦ rw e tt
    | inr ((used, w'), e) ↦
        let quiet : written w' ≡ written w =
          subst (Leaves h written laws (second h written laws) (written w)) e
            (use_file_path-quiet h written laws f w) in
        rw e (
          subst
            (λ bs.
              Leaves h written laws world_of bs (roll_into h used f w' >>= λ q. some (q.1, q.2)))
            quiet (roll-Leaves (written w') (roll_into h used f w') (roll_into-quiet used f w')))
  ]

  check_period-quiet :
      (file : F) (f : LogFile h) (w : W)
      → Leaves h written laws world_of (written w) (check_period h file f w)
  unfolding check_period
  check_period-quiet file f w =
      let now : ℕ = (time w).0 in
      let after : written (time w).1 ≡ written w = laws.time_quiet w in
      elim (Bool-cases (now / roll_per_seconds * roll_per_seconds == f.start_of_period)) [
        | inr e ↦ rw e (
            subst (λ bs. Leaves h written laws world_of bs (rolled h f (time w).1)) after
              (rolled-quiet f (time w).1))
        | inl e ↦ elim (Bool-cases (ltb (f.last_flush + f.flush_interval) now)) [
          | inl late ↦ rw (e, late) (laws.flush_quiet file (time w).1 ∙ after)
          | inr soon ↦ rw (e, soon) after
        ]
      ]

  after_append-quiet :
      (file : F) (f : LogFile h) (w : W)
      → Leaves h written laws world_of (written w) (after_append h file f w)
  unfolding after_append
  after_append-quiet file f w = elim (Bool-cases (ltb f.roll_size (written_bytes file))) [
    | inl e ↦ rw e (rolled-quiet f w)
    | inr e ↦ elim (Bool-cases (leb f.check_every_n (f.count + 1))) [
      | inl due ↦ rw (e, due) (check_period-quiet file (record f { count = 0 }) w)
      | inr not_due ↦ rw (e, not_due) refl
    ]
  ]

  unlocked-Leaves :
      (logline : List ℕ) (f : LogFile h) (w : W)
      → Leaves h written laws world_of (written w ++ logline) (append_unlocked h logline f w)
  unfolding append_unlocked
  unlocked-Leaves logline f w = elim (Option-cases f.file) [
    | inl e ↦ simp e tt
    | inr (file, e) ↦ simp e (
        let put = append_file logline file w in
        subst
          (λ bs.
            Leaves h written laws world_of bs
              (after_append h put.0 (record f { file = some put.0 }) put.1))
          (laws.append_writes logline file w)
          (after_append-quiet put.0 (record f { file = some put.0 }) put.1))
  ]

  -- An append that returns has written its line.
  pub append_writes_line :
      (thread_safe : Bool) (logline : List ℕ) (f f' : LogFile h) (w w' : W)
      → append h thread_safe logline f w ≡ some (f', w')
      → written w' ≡ written w ++ logline
  unfolding append
  append_writes_line true logline f f' w w' e =
      subst (Leaves h written laws world_of (written w ++ logline)) e (unlocked-Leaves logline f w)
  append_writes_line false logline f f' w w' e =
      subst (Leaves h written laws world_of (written w ++ logline)) e (unlocked-Leaves logline f w)

  -- The constructor writes nothing.
  pub new_log_file_quiet :
      (basename : List ℕ) (roll_size : ℕ) (path : List ℕ) (interval check keep : ℕ) (w w' : W)
      (f : LogFile h)
      → new_log_file h basename roll_size path interval check keep w ≡ some (f, w')
      → written w' ≡ written w
  unfolding new_log_file
  new_log_file_quiet basename roll_size path interval check keep w w' f e =
      subst (Leaves h written laws world_of (written w)) e (elim (Bool-cases (has_slash basename)) [
        | inl slash ↦ rw slash tt
        | inr plain ↦ rw plain (rolled-quiet _ w)
      ])

  -- Appends that return have written their lines.
  pub append_all_writes :
      (thread_safe : Bool) (loglines : List (List ℕ)) (f f' : LogFile h) (w w' : W)
      → append_all h thread_safe loglines f w ≡ some (f', w')
      → written w' ≡ written w ++ concat loglines
  unfolding append_all
  append_all_writes thread_safe [] f f' w w' e =
      subst (Leaves h written laws world_of (written w ++ [])) e (sym (append-nil (written w)))
  append_all_writes thread_safe (line ∷ lines) f f' w w' e =
      elim (Option-cases (append h thread_safe line f w)) [
        | inl n ↦
            subst (Leaves h written laws world_of (written w ++ (line ++ concat lines))) e
              (rw (append_all, n) tt)
        | inr ((f1, w1), n) ↦
            let one = append_writes_line thread_safe line f f1 w w1 n in
            let rest : append_all h thread_safe lines f1 w1 ≡ some (f', w') =
              sym (rw (append_all, n)) ∙ e in
            append_all_writes thread_safe lines f1 f' w1 w' rest
            ∙ rw one (append_assoc (written w) line (concat lines))
      ]
