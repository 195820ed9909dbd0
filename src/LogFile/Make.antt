-- ===== src/LogFile/Make.antt =====
-- createDir on an ordinary path: it ends, and when it reports no error every directory of the path
-- is there.
use telnet_serv.Prelude.{
  ℕ, ◌+◌, ◌≤◌, ◌≡◌, ◌≢◌, refl, sym, ap, ◌∙◌, subst, Bool, true, false, Option, none, some, List, [],
  ◌∷◌, ◌++◌, leb, ◌==◌, if◌then◌else◌, length, take, drop, arith, Bool-cases, inl, inr, ◌⊎◌,
  append_assoc, length-append, take_of_length, eq→==, ne→==,
}
use telnet_serv.LogFile.Dirs.{
  Host, ErrorCode, no_error, too_many_links, createdir_fail, MkDir, made, links_full, refused,
  behind_slash, make_one, make_dirs, make_path, noted, is_no_error,
}

-- A text without NUL and backslash.
abbrev pub IsPlain : List ℕ → Type 0
IsPlain [] = Unit {0}
IsPlain (c ∷ cs) = ((c ≢ 0) × (c ≢ 92)) × IsPlain cs

-- The parts of pre ++ cs that end with a slash in `cs`.
abbrev pub slash_prefixes : List ℕ → List ℕ → List (List ℕ)
slash_prefixes pre [] = []
slash_prefixes pre (c ∷ cs) =
    let rest = slash_prefixes (pre ++ c ∷ []) cs in
    if c == b'/' then (pre ++ c ∷ []) ∷ rest else rest

-- What the proofs need of the file system: a directory that is made is there, and mkdir removes
-- none.
pub record KeepsDirs (h : Host) : Type 0 where
  pub made_is_there :
      (dir : List ℕ) (w : h.W) → (h.mkdir dir w).0 ≡ made → h.access dir (h.mkdir dir w).1 ≡ true
  pub none_removed :
      (dir other : List ℕ) (w : h.W)
      → h.access other w ≡ true
      → h.access other (h.mkdir dir w).1 ≡ true

module _ (h : Host) where
  open h use {W, access, mkdir}

  make_one-true : (dir : List ℕ) (err : ErrorCode) (w : W) → (make_one h dir true err w).0 ≡ true
  unfolding make_one
  make_one-true dir err w = elim (Bool-cases (access dir w)) [
    | inl e ↦ rw e
    | inr e ↦ rw e (noted_ok (mkdir dir w).0)
  ]
    where
      noted_ok : (res : MkDir) → (noted h res true).0 ≡ true
      noted_ok made = refl
      noted_ok links_full = refl
      noted_ok refused = refl

  abbrev Claims : Option (Bool × ErrorCode × W) → Type 0
  Claims none = Unit
  Claims (some (ok, err, w)) = ok ≡ true

  make_dirs-Claims :
      (dir cs : List ℕ) (i : ℕ) (ok : Bool) (err : ErrorCode) (w : W)
      → ok ≡ true
      → Claims (make_dirs h dir cs i ok err w)
  unfolding make_dirs
  make_dirs-Claims dir [] i ok err w t = tt
  make_dirs-Claims dir (c ∷ cs) i ok err w t = elim (Bool-cases (c == b'/')) [
    | inr e ↦ elim (Bool-cases (c == 0)) [
      | inl z ↦ rw (make_dirs, e, z) refl
      | inr z ↦ rw (make_dirs, e, z) (make_dirs-Claims dir cs (i + 1) ok err w t)
    ]
    | inl e ↦
        let one = make_one h (take (i + 1) dir) ok err w in
        let still : one.0 ≡ true = rw t (make_one-true (take (i + 1) dir) err w) in
        elim (Bool-cases (leb 255 i)) [
          | inl far ↦ rw (make_dirs, e, far) tt
          | inr near ↦ elim (Bool-cases (is_no_error h one.1)) [
            | inl good ↦
                rw (make_dirs, e, near, good)
                  (make_dirs-Claims dir cs (i + 1) one.0 one.1 one.2 still)
            | inr bad ↦ rw (make_dirs, e, near, bad) still
          ]
        ]
  ]

  -- Once a directory has been made, the loop of createDir, if it ends, returns true, also when a
  -- later directory cannot be made.
  pub make_dirs_claims :
      (dir cs : List ℕ) (i : ℕ) (ok : Bool) (err err' : ErrorCode) (w w' : W)
      → make_dirs h dir cs i true err w ≡ some (ok, err', w')
      → ok ≡ true
  make_dirs_claims dir cs i ok err err' w w' e =
      subst Claims e (make_dirs-Claims dir cs i true err w refl)

  abbrev pub AllThere : W → List (List ℕ) → Type 0
  AllThere w [] = Unit
  AllThere w (dir ∷ dirs) = (access dir w ≡ true) × AllThere w dirs

  module _ (keeps : KeepsDirs h) where
    -- What was there is there.
    abbrev pub Grows : W → W → Type 0
    Grows w w' = (dir : List ℕ) → access dir w ≡ true → access dir w' ≡ true

    make_one-There :
        (dir : List ℕ) (ok : Bool) (w : W)
        → let r = make_one h dir ok no_error w in
          (r.1 ≡ no_error → access dir r.2 ≡ true) × Grows w r.2
    unfolding make_one
    make_one-There dir ok w = elim (Bool-cases (access dir w)) [
      | inl e ↦ rw e (λ _. e, λ d there. there)
      | inr e ↦ rw e (
          let res = mkdir dir w in
          (
            λ good. keeps.made_is_there dir w (was_made res.0 good),
            λ d there. keeps.none_removed dir d w there,
          ))
    ]
      where
        was_made : (res : MkDir) → (noted h res ok).1 ≡ no_error → res ≡ made
        was_made made good = refl
        was_made links_full good = cc
        was_made refused good = cc

    is_no_error-eq : (err : ErrorCode) → is_no_error h err ≡ true → err ≡ no_error
    is_no_error-eq no_error e = refl
    is_no_error-eq too_many_links e = cc
    is_no_error-eq createdir_fail e = cc

    no_clash : (err : ErrorCode) → err ≡ no_error → is_no_error h err ≡ false → ⊥
    no_clash err e f = cc (ap (is_no_error h) e, f)

    -- How the loop ends.
    abbrev pub Ends : W → List (List ℕ) → Option (Bool × ErrorCode × W) → Type 0
    Ends w dirs none = ⊥
    Ends w dirs (some (ok, err, w')) =
        (err ≡ no_error → (ok ≡ true) × AllThere w' dirs) × Grows w w'

    Ends-after :
        (w w1 : W) (dirs : List (List ℕ)) (o : Option (Bool × ErrorCode × W))
        → Grows w w1
        → Ends w1 dirs o
        → Ends w dirs o
    Ends-after w w1 dirs none g e = absurd e
    Ends-after w w1 dirs (some (ok, err, w')) g e = (e.0, λ d there. e.1 d (g d there))

    Ends-cons :
        (w : W) (dir : List ℕ) (dirs : List (List ℕ)) (o : Option (Bool × ErrorCode × W))
        → access dir w ≡ true
        → Ends w dirs o
        → Ends w (dir ∷ dirs) o
    Ends-cons w dir dirs none there e = absurd e
    Ends-cons w dir dirs (some (ok, err, w')) there e =
        (λ good. ((e.0 good).0, (e.1 dir there, (e.0 good).1)), e.1)

    make_dirs-Ends :
        (pre cs tail dir : List ℕ) (i : ℕ) (ok : Bool) (err : ErrorCode) (w : W)
        → err ≡ no_error
        → IsPlain cs
        → i ≡ length pre
        → length pre + length cs ≤ 255
        → dir ≡ pre ++ (cs ++ 0 ∷ tail)
        → Ends w (slash_prefixes pre cs) (make_dirs h dir (cs ++ 0 ∷ tail) i ok err w)
    unfolding make_dirs
    make_dirs-Ends pre [] tail dir i ok err w clean p at fits e =
        (λ good. (refl, tt), λ d there. there)
    make_dirs-Ends pre (c ∷ cs) tail dir i ok err w clean p at fits e =
        let size : length (pre ++ c ∷ []) ≡ length pre + 1 = length-append pre (c ∷ []) in
        let dir_eq : dir ≡ (pre ++ c ∷ []) ++ (cs ++ 0 ∷ tail) =
          e ∙ sym (append_assoc pre (c ∷ []) (cs ++ 0 ∷ tail)) in
        elim (Bool-cases (c == b'/')) [
          | inr other ↦
              rw (make_dirs, other, ne→== c 0 p.0.0)
                (make_dirs-Ends (pre ++ c ∷ []) cs tail dir (i + 1) ok err w clean p.1 (omega arith)
                  (omega arith) dir_eq)
          | inl slash ↦
              let cut : take (i + 1) dir ≡ pre ++ c ∷ [] =
                rw (dir_eq)
                  (take_of_length (i + 1) (pre ++ c ∷ []) (cs ++ 0 ∷ tail) (omega arith)) in
              let one = make_one h (take (i + 1) dir) ok err w in
              let there : (one.1 ≡ no_error → access (pre ++ c ∷ []) one.2 ≡ true) × Grows w one.2 =
                rw (cut, clean) (make_one-There (pre ++ c ∷ []) ok w) in
              let near : leb 255 i ≡ false = ground arith in
              elim (Bool-cases (is_no_error h one.1)) [
                | inl good ↦
                    let clean' = is_no_error-eq one.1 good in
                    rw (make_dirs, slash, near, good)
                      (Ends-after w one.2 ((pre ++ c ∷ []) ∷ slash_prefixes (pre ++ c ∷ []) cs) _
                        there.1
                        (Ends-cons one.2 (pre ++ c ∷ []) _ _ (there.0 clean') (
                          make_dirs-Ends (pre ++ c ∷ []) cs tail dir (i + 1) one.0 one.1 one.2
                            clean' p.1 (omega arith) (omega arith) dir_eq)))
                | inr bad ↦
                    rw (make_dirs, slash, near, bad) (λ z. absurd (no_clash one.1 z bad), there.1)
              ]
        ]

    abbrev pub HasSlash : List ℕ → Type 0
    HasSlash [] = ⊥
    HasSlash (c ∷ cs) = (c ≡ b'/') ⊎ HasSlash cs

    -- createDir from the first slash on.
    behind_slash-Ends :
        (pre cs tail dir : List ℕ) (i : ℕ) (w : W)
        → IsPlain cs
        → HasSlash cs
        → i ≡ length pre
        → length pre + length cs ≤ 255
        → dir ≡ pre ++ (cs ++ 0 ∷ tail)
        → (rest : List ℕ) × (k : ℕ) × (behind_slash (cs ++ 0 ∷ tail) i ≡ some (rest, k))
          × Ends w (drop 1 (slash_prefixes pre cs)) (make_dirs h dir rest k false no_error w)
    unfolding behind_slash
    behind_slash-Ends pre [] tail dir i w p has at fits e = absurd has
    behind_slash-Ends pre (c ∷ cs) tail dir i w p has at fits e =
        let size : length (pre ++ c ∷ []) ≡ length pre + 1 = length-append pre (c ∷ []) in
        let dir_eq : dir ≡ (pre ++ c ∷ []) ++ (cs ++ 0 ∷ tail) =
          e ∙ sym (append_assoc pre (c ∷ []) (cs ++ 0 ∷ tail)) in
        elim (Bool-cases (c == b'/')) [
          | inl slash ↦ (
            cs ++ 0 ∷ tail,
            i + 1,
            rw (behind_slash, slash),
            rw slash (
                make_dirs-Ends (pre ++ c ∷ []) cs tail dir (i + 1) false no_error w refl p.1
                  (omega arith) (omega arith) dir_eq),
          )
          | inr other ↦
              let (rest, k, found, ends) =
                behind_slash-Ends (pre ++ c ∷ []) cs tail dir (i + 1) w p.1 (later c cs has other)
                  (omega arith) (omega arith) dir_eq in
              (rest, k, rw (behind_slash, other, ne→== c 0 p.0.0) found, rw other ends)
        ]
      where
        later : (c : ℕ) (cs : List ℕ) → HasSlash (c ∷ cs) → (c == b'/') ≡ false → HasSlash cs
        later c cs (inl e) other = cc (eq→== c b'/' e, other)
        later c cs (inr has) other = has

    pub make_path-Ends :
        (full tail : List ℕ) (w : W)
        → IsPlain full
        → HasSlash full
        → length full ≤ 255
        → Ends w (drop 1 (slash_prefixes [] full)) (make_path h (full ++ 0 ∷ tail) no_error w)
    unfolding make_path
    make_path-Ends full tail w p has fits =
        let (rest, k, found, ends) =
          behind_slash-Ends [] full tail (full ++ 0 ∷ tail) 0 w p has refl (omega arith) refl in
        rw (make_path, found) ends
