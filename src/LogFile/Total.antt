-- ===== src/LogFile/Total.antt =====
-- The life of a log file: its constructor and all appends return, and it is always open.
use telnet_serv.Prelude.{
  ℕ, ◌+◌, ◌-◌, ◌*◌, ◌/◌, ◌≤◌, ◌<◌, ◌≡◌, ◌≢◌, refl, subst, Bool, true, false, Option, none, some,
  List, [], ◌∷◌, ◌++◌, ltb, leb, ◌==◌, get_or, length, arith, Bool-cases, Option-cases, inl, inr,
  ◌⊎◌, length-append,
}
use telnet_serv.LogFile.{
  has_slash, LogFile, ◌>>=◌, roll_per_seconds, use_file_path, with_slash, open_rolled, roll_into,
  roll_file, rolled, new_log_file, check_period, after_append, append_unlocked, append,
  get_log_file_name,
}
use telnet_serv.LogFile.Dirs.{Host}
use telnet_serv.LogFile.Make.{IsPlain, KeepsDirs}
use telnet_serv.LogFile.Create.{completed, create_dir_lem, get_or-append, IsPlain-append}
use telnet_serv.LogFile.Roll.{IsOpen, append-IsOpen, new_log_file-IsOpen}

-- A path that createDir takes: it begins with a slash or a dot, has no NUL and no backslash, and at
-- most 254 characters with its last slash.
pub record IsDirPath (path : List ℕ) : Type 0 where
  pub plain : IsPlain path
  pub begins : (get_or path 0 0 ≡ b'/') ⊎ (get_or path 0 0 ≡ b'.')
  pub fits : length (completed path) ≤ 254

length-completed : (path : List ℕ) → length path ≤ length (completed path)
length-completed path = elim (Bool-cases (get_or path (length path - 1) 0 == b'/')) [
  | inl e ↦ rw e (omega arith)
  | inr e ↦ rw e (omega (arith, length-append path (b'/' ∷ [])))
]

nonempty_path :
    (path : List ℕ) → (get_or path 0 0 ≡ b'/') ⊎ (get_or path 0 0 ≡ b'.') → 0 < length path
nonempty_path [] (inl e) = absurd (omega arith)
nonempty_path [] (inr e) = absurd (omega arith)
nonempty_path (c ∷ cs) e = omega arith

last-slash : (path : List ℕ) → get_or (path ++ b'/' ∷ []) (length path) 0 ≡ b'/'
last-slash [] = refl
last-slash (c ∷ cs) = last-slash cs

-- with_slash keeps the path fit, and a second with_slash changes nothing.
with_slash-IsDirPath : (h : Host) (path : List ℕ) → IsDirPath path → IsDirPath (with_slash h path)
unfolding with_slash
with_slash-IsDirPath h path p = elim (Bool-cases (get_or path (length path - 1) 0 == b'/')) [
  | inl e ↦ rw e p
  | inr e ↦
      let longer : length (path ++ b'/' ∷ []) ≡ length path + 1 = length-append path (b'/' ∷ []) in
      let first : get_or (path ++ b'/' ∷ []) 0 0 ≡ get_or path 0 0 =
        get_or-append path (b'/' ∷ []) 0 (nonempty_path path p.begins) in
      let at : length (path ++ b'/' ∷ []) - 1 ≡ length path = omega arith in
      let ends : completed (path ++ b'/' ∷ []) ≡ path ++ b'/' ∷ [] = rw (at, last-slash path) in
      let same : completed path ≡ path ++ b'/' ∷ [] = rw e in
      rw e (record {
        plain = IsPlain-append path (b'/' ∷ []) p.plain (omega arith);
        begins = rw first p.begins;
        fits = rw (ends) (subst (λ q. length q ≤ 254) same p.fits);
      })
]

-- Appends, one after the other.
unfoldable pub append_all :
    (h : Host) → Bool → List (List ℕ) → LogFile h → h.W → Option (LogFile h × h.W)
append_all h thread_safe [] f w = some (f, w)
append_all h thread_safe (logline ∷ loglines) f w =
    append h thread_safe logline f w >>= λ p. append_all h thread_safe loglines p.0 p.1

-- Every file can be opened.
abbrev pub Opens : Host → Type 0
Opens h =
    (name : List ℕ) (w : h.W) → (file : h.F) × (w' : h.W) × (h.open_file name w ≡ some (file, w'))

module _ (h : Host) (keeps : KeepsDirs h) (opens : Opens h) where
  open h use {W, F, time, access, open_file, append_file, written_bytes}

  abbrev pub Ready : LogFile h → Type 0
  Ready f = IsDirPath f.log_file_path

  -- It returns, a log file with a fit path.
  abbrev Yields : Option (LogFile h × W) → Type 0
  Yields none = ⊥
  Yields (some (f, w)) = Ready f

  abbrev RollYields : Option (Bool × LogFile h × W) → Type 0
  RollYields none = ⊥
  RollYields (some (ok, f, w)) = Ready f

  RollYields-Yields :
      (o : Option (Bool × LogFile h × W)) → RollYields o → Yields (o >>= λ q. some (q.1, q.2))
  RollYields-Yields none y = y
  RollYields-Yields (some q) y = y

  use_file_path-some :
      (f : LogFile h) (w : W)
      → Ready f
      → (used : Bool) × (w' : W) × (use_file_path h f w ≡ some (used, w'))
  unfolding use_file_path
  use_file_path-some f w p = elim (Bool-cases (access f.log_file_path w)) [
    | inl e ↦ (true, w, rw e)
    | inr e ↦
        let short : length f.log_file_path ≤ 254 =
          omega (arith, length-completed f.log_file_path, p.fits) in
        let (ok, err, w', made, all, grows) =
          create_dir_lem h keeps f.log_file_path w p.plain p.begins short in
        (ok, w', rw (e, made))
  ]

  open_rolled-Ready :
      (f : LogFile h) (filename : List ℕ) (now : ℕ) (w : W)
      → Ready f
      → RollYields (open_rolled h f filename now w)
  unfolding open_rolled
  open_rolled-Ready f filename now w p =
      let (file, w', n) = opens filename w in
      elim (Bool-cases (ltb f.last_roll now)) [ inl e ↦ rw (e, n) p | inr e ↦ rw e p ]

  roll_into-Ready :
      (used : Bool) (f : LogFile h) (w : W) → Ready f → RollYields (roll_into h used f w)
  unfolding roll_into get_log_file_name
  roll_into-Ready true f w p =
      open_rolled-Ready (record f { log_file_path = with_slash h f.log_file_path }) _ _ _
        (with_slash-IsDirPath h f.log_file_path p)
  roll_into-Ready false f w p = open_rolled-Ready f _ _ _ p

  rolled-Yields : (f : LogFile h) (w : W) → Ready f → Yields (rolled h f w)
  unfolding roll_file
  rolled-Yields f w p =
      let (used, w', e) = use_file_path-some f w p in
      rw e (RollYields-Yields (roll_into h used f w') (roll_into-Ready used f w' p))

  check_period-Yields :
      (file : F) (f : LogFile h) (w : W) → Ready f → Yields (check_period h file f w)
  unfolding check_period
  check_period-Yields file f w p =
      let now : ℕ = (time w).0 in
      elim (Bool-cases (now / roll_per_seconds * roll_per_seconds == f.start_of_period)) [
        | inr e ↦ rw e (rolled-Yields f (time w).1 p)
        | inl e ↦ elim (Bool-cases (ltb (f.last_flush + f.flush_interval) now)) [
          | inl late ↦ rw (e, late) p
          | inr soon ↦ rw (e, soon) p
        ]
      ]

  after_append-Yields :
      (file : F) (f : LogFile h) (w : W) → Ready f → Yields (after_append h file f w)
  unfolding after_append
  after_append-Yields file f w p = elim (Bool-cases (ltb f.roll_size (written_bytes file))) [
    | inl e ↦ rw e (rolled-Yields f w p)
    | inr e ↦ elim (Bool-cases (leb f.check_every_n (f.count + 1))) [
      | inl due ↦ rw (e, due) (check_period-Yields file (record f { count = 0 }) w p)
      | inr not_due ↦ rw (e, not_due) p
    ]
  ]

  unlocked-Yields :
      (logline : List ℕ) (f : LogFile h) (w : W)
      → f.file ≢ none
      → Ready f
      → Yields (append_unlocked h logline f w)
  unfolding append_unlocked
  unlocked-Yields logline f w opened p = elim (Option-cases f.file) [
    | inl e ↦ absurd (opened e)
    | inr (file, e) ↦ simp e (
        let put = append_file logline file w in
        after_append-Yields put.0 (record f { file = some put.0 }) put.1 p)
  ]

  Yields-eq :
      (o : Option (LogFile h × W))
      → Yields o
      → (f : LogFile h) × (w : W) × (o ≡ some (f, w)) × Ready f
  Yields-eq none y = absurd y
  Yields-eq (some (f, w)) y = (f, w, refl, y)

  append-Yields :
      (thread_safe : Bool) (logline : List ℕ) (f : LogFile h) (w : W)
      → f.file ≢ none
      → Ready f
      → Yields (append h thread_safe logline f w)
  unfolding append
  append-Yields true logline f w opened p = unlocked-Yields logline f w opened p
  append-Yields false logline f w opened p = unlocked-Yields logline f w opened p

  pub append_all-some :
      (thread_safe : Bool) (loglines : List (List ℕ)) (f : LogFile h) (w : W)
      → IsOpen h f
      → Ready f
      → (f' : LogFile h) × (w' : W) × (append_all h thread_safe loglines f w ≡ some (f', w'))
        × IsOpen h f'
        × Ready f'
  unfolding append_all
  append_all-some thread_safe [] f w v p = (f, w, refl, v, p)
  append_all-some thread_safe (logline ∷ loglines) f w v p =
      let (f1, w1, e, p1) =
        Yields-eq (append h thread_safe logline f w)
          (append-Yields thread_safe logline f w v.opened p) in
      let v1 = append-IsOpen h thread_safe logline f f1 w w1 v e in
      let (f2, w2, rest, v2, p2) = append_all-some thread_safe loglines f1 w1 v1 p1 in
      (f2, w2, rw (append_all, e) rest, v2, p2)

  pub new_log_file-some :
      (basename : List ℕ) (roll_size : ℕ) (path : List ℕ) (interval check keep : ℕ) (w : W)
      → ((v : W) → 0 < (time v).0)
      → has_slash basename ≡ false
      → IsDirPath path
      → (f : LogFile h) × (w' : W) × (new_log_file h basename roll_size path interval check keep w
          ≡ some (f, w'))
        × IsOpen h f
        × Ready f
  unfolding new_log_file
  new_log_file-some basename roll_size path interval check keep w clock plain p =
      let (f, w', e, q) =
        Yields-eq (new_log_file h basename roll_size path interval check keep w)
          (rw plain (rolled-Yields _ w p)) in
      (
        f,
        w',
        e,
        new_log_file-IsOpen h basename roll_size path interval check keep w w' f clock e,
        q,
      )

  -- A log file on a host whose mkdir makes what it says, where every file can be opened, and
  -- whose clock shows more than 0, with a base name without a slash and a path that createDir
  -- takes: its constructor and any appends return, so that no assert fails, createDir stays
  -- inside its arrays and file_ is never null; and afterwards it is open, with its period that of
  -- its last roll and no flush before that.
  pub log_file_total :
      (basename : List ℕ) (roll_size : ℕ) (path : List ℕ) (interval check keep : ℕ)
      (thread_safe : Bool) (loglines : List (List ℕ)) (w : W)
      → ((v : W) → 0 < (time v).0)
      → has_slash basename ≡ false
      → IsDirPath path
      → (f : LogFile h) × (w' : W) × ((new_log_file h basename roll_size path interval check keep w
            >>= λ p. append_all h thread_safe loglines p.0 p.1)
          ≡ some (f, w'))
        × IsOpen h f
  log_file_total basename roll_size path interval check keep thread_safe loglines w clock plain p =
      let (f1, w1, e, v1, p1) =
        new_log_file-some basename roll_size path interval check keep w clock plain p in
      let (f2, w2, rest, v2, p2) = append_all-some thread_safe loglines f1 w1 v1 p1 in
      (f2, w2, rw e rest, v2)
