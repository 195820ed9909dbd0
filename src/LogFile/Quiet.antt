-- ===== src/LogFile/Quiet.antt =====
-- What reaches the files: nothing, when directories are looked for and made.
use telnet_serv.Prelude.{
  ℕ, ◌+◌, ◌-◌, ◌≡◌, refl, subst, ◌∙◌, Bool, false, not, ◌&&◌, Option, none, some, List, [], ◌∷◌,
  ◌++◌, ltb, leb, ◌==◌, length, get_or, set, take, replicate, Bool-cases, Option-cases, inl, inr,
}
use telnet_serv.FixedBuffer.{memcpy}
use telnet_serv.LogFile.{LogFile, use_file_path}
use telnet_serv.LogFile.Dirs.{
  Host, ErrorCode, no_error, to_slashes, behind_slash, make_one, is_no_error, make_dirs, make_path,
  end_with_slash, create_dir, max_ids_path_len,
}

-- `written` are all bytes that have been written to files: an append adds its line, and no other
-- call adds any.
pub record KeepsBytes (h : Host) (written : h.W → List ℕ) : Type 0 where
  pub append_writes :
      (line : List ℕ) (file : h.F) (w : h.W)
      → written (h.append_file line file w).1 ≡ written w ++ line
  pub open_quiet :
      (name : List ℕ) (w : h.W) (file : h.F) (w' : h.W)
      → h.open_file name w ≡ some (file, w')
      → written w' ≡ written w
  pub close_quiet : (file : h.F) (w : h.W) → written (h.close_file file w) ≡ written w
  pub flush_quiet : (file : h.F) (w : h.W) → written (h.flush_file file w) ≡ written w
  pub mkdir_quiet : (dir : List ℕ) (w : h.W) → written (h.mkdir dir w).1 ≡ written w
  pub time_quiet : (w : h.W) → written (h.time w).1 ≡ written w
  pub system_quiet : (command : List ℕ) (w : h.W) → written (h.system command w) ≡ written w

module _ (h : Host) (written : h.W → List ℕ) (laws : KeepsBytes h written) where
  open h use {
    W, F, access, mkdir, time, system, read_dir, open_file, append_file, flush_file, close_file,
    written_bytes,
  }

  -- If a call returns, then with these bytes written.
  abbrev pub Leaves : {A : Type 0} → (A → W) → List ℕ → Option A → Type 0
  Leaves world bytes none = Unit
  Leaves world bytes (some a) = written (world a) ≡ bytes

  make_one-quiet :
      (dir : List ℕ) (ok : Bool) (err : ErrorCode) (w : W)
      → written (make_one h dir ok err w).2 ≡ written w
  unfolding make_one
  make_one-quiet dir ok err w = elim (Bool-cases (access dir w)) [
    | inl e ↦ rw e
    | inr e ↦ rw e (laws.mkdir_quiet dir w)
  ]

  abbrev third : Bool × ErrorCode × W → W
  third p = p.2

  make_dirs-quiet :
      (dir cs : List ℕ) (i : ℕ) (ok : Bool) (err : ErrorCode) (w : W) (bytes : List ℕ)
      → written w ≡ bytes
      → Leaves third bytes (make_dirs h dir cs i ok err w)
  unfolding make_dirs
  make_dirs-quiet dir [] i ok err w bytes v = tt
  make_dirs-quiet dir (c ∷ cs) i ok err w bytes v = elim (Bool-cases (c == b'/')) [
    | inr e ↦ elim (Bool-cases (c == 0)) [
      | inl z ↦ rw (make_dirs, e, z) v
      | inr z ↦ rw (make_dirs, e, z) (make_dirs-quiet dir cs (i + 1) ok err w bytes v)
    ]
    | inl e ↦
        let one = make_one h (take (i + 1) dir) ok err w in
        let still : written one.2 ≡ bytes = make_one-quiet (take (i + 1) dir) ok err w ∙ v in
        elim (Bool-cases (leb 255 i)) [
          | inl far ↦ rw (make_dirs, e, far) tt
          | inr near ↦ elim (Bool-cases (is_no_error h one.1)) [
            | inl good ↦
                rw (make_dirs, e, near, good)
                  (make_dirs-quiet dir cs (i + 1) one.0 one.1 one.2 bytes still)
            | inr bad ↦ rw (make_dirs, e, near, bad) still
          ]
        ]
  ]

  make_path-quiet :
      (dir : List ℕ) (err : ErrorCode) (w : W) → Leaves third (written w) (make_path h dir err w)
  unfolding make_path
  make_path-quiet dir err w = elim (Option-cases (behind_slash dir 0)) [
    | inl e ↦ rw (make_path, e) tt
    | inr ((rest, i), e) ↦
        rw (make_path, e) (make_dirs-quiet dir rest i false err w (written w) refl)
  ]

  end_with_slash-quiet :
      (dir : List ℕ) (len : ℕ) (err : ErrorCode) (w : W)
      → Leaves third (written w) (end_with_slash h dir len err w)
  unfolding end_with_slash
  end_with_slash-quiet dir len err w = elim (Option-cases (to_slashes dir)) [
    | inl e ↦ rw (end_with_slash, e) tt
    | inr (dir', e) ↦ elim (Bool-cases (get_or dir' (len - 1) 0 == b'/')) [
      | inl slash ↦ rw (end_with_slash, e, slash) (make_path-quiet dir' err w)
      | inr other ↦ elim (Bool-cases (ltb max_ids_path_len (len + 1))) [
        | inl far ↦ rw (end_with_slash, e, other, far) refl
        | inr near ↦ rw (end_with_slash, e, other, near) (make_path-quiet (set dir' len b'/') err w)
      ]
    ]
  ]

  create_dir-quiet :
      (name : List ℕ) (len : ℕ) (err : ErrorCode) (w : W)
      → Leaves third (written w) (create_dir h name len err w)
  unfolding create_dir
  create_dir-quiet name len err w =
      let dir = memcpy (replicate max_ids_path_len 0) 0 name len in
      let first = get_or dir 0 0 in
      elim (Bool-cases (ltb max_ids_path_len len)) [
        | inl far ↦ rw (create_dir, far) refl
        | inr near ↦ elim (Bool-cases (not (b'/' == first) && not (b'.' == first))) [
          | inl bad ↦ rw (create_dir, near, bad) refl
          | inr good ↦ rw (create_dir, near, good) (end_with_slash-quiet dir len err w)
        ]
      ]

  abbrev pub second : Bool × W → W
  second p = p.1

  pub use_file_path-quiet :
      (f : LogFile h) (w : W) → Leaves second (written w) (use_file_path h f w)
  unfolding use_file_path
  use_file_path-quiet f w = elim (Bool-cases (access f.log_file_path w)) [
    | inl e ↦ rw e refl
    | inr e ↦
        rw e
          (elim (Option-cases (create_dir h f.log_file_path (length f.log_file_path) no_error w)) [
            | inl n ↦ rw n tt
            | inr ((ok, err, w'), n) ↦
                let quiet : written w' ≡ written w =
                  subst (Leaves third (written w)) n
                    (create_dir-quiet f.log_file_path (length f.log_file_path) no_error w) in
                rw n quiet
          ])
  ]
