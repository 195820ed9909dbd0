-- ===== src/LogFile/Create.antt =====
-- createDir as a whole, on an ordinary path.
use telnet_serv.Prelude.{
  ℕ, zero, suc, ◌+◌, ◌-◌, ◌≤◌, ◌<◌, ◌≡◌, ◌≢◌, refl, sym, ap, Bool, true, false, not, ◌&&◌, Option,
  none, some, List, [], ◌∷◌, ◌++◌, ◌==◌, if◌then◌else◌, get_or, set, length, drop, replicate, arith,
  Bool-cases, inl, inr, ◌⊎◌, append_assoc, length-append, take_all, ==→eq, ne→==, le→ltb,
}
use telnet_serv.FixedBuffer.{memcpy}
use telnet_serv.LogFile.Dirs.{Host, ErrorCode, no_error, to_slashes, end_with_slash, create_dir}
use telnet_serv.LogFile.Make.{
  IsPlain, slash_prefixes, KeepsDirs, AllThere, Ends, HasSlash, make_path-Ends,
}

drop-replicate : (n k : ℕ) → drop {A = ℕ} n (replicate k 0) ≡ replicate (k - n) 0
drop-replicate zero k = rw (sub_zero k)
  where
    sub_zero : (k : ℕ) → k - 0 ≡ k
    sub_zero k = omega arith
drop-replicate (suc n) zero = let e : 0 - suc n ≡ 0 = omega arith in rw e
drop-replicate (suc n) (suc k) =
    let e : suc k - suc n ≡ k - n = omega arith in rw e (drop-replicate n k)

to_slashes_plain :
    (cs tail : List ℕ) → IsPlain cs → to_slashes (cs ++ 0 ∷ tail) ≡ some (cs ++ 0 ∷ tail)
unfolding to_slashes
to_slashes_plain [] tail p = refl
to_slashes_plain (c ∷ cs) tail p =
    rw (to_slashes_plain cs tail p.1, ne→== c 0 p.0.0, ne→== c 92 p.0.1)

pub get_or-append : (xs ys : List ℕ) (i : ℕ) → i < length xs → get_or (xs ++ ys) i 0 ≡ get_or xs i 0
get_or-append [] ys i h = absurd (omega arith)
get_or-append (x ∷ xs) ys zero h = refl
get_or-append (x ∷ xs) ys (suc i) h = get_or-append xs ys i (omega arith)

set_end : (xs : List ℕ) (y z : ℕ) (ys : List ℕ) → set (xs ++ y ∷ ys) (length xs) z ≡ xs ++ z ∷ ys
set_end [] y z ys = refl
set_end (x ∷ xs) y z ys = ap (◌∷◌ x) (set_end xs y z ys)

pub IsPlain-append : (xs ys : List ℕ) → IsPlain xs → IsPlain ys → IsPlain (xs ++ ys)
IsPlain-append [] ys h k = k
IsPlain-append (x ∷ xs) ys h k = (h.0, IsPlain-append xs ys h.1 k)

-- A path with a slash at its end.
abbrev pub completed : List ℕ → List ℕ
completed name = if get_or name (length name - 1) 0 == b'/' then name else name ++ b'/' ∷ []

-- The directories that createDir is to make: the parts of the path up to each slash but the first.
abbrev pub directories : List ℕ → List (List ℕ)
directories name = drop 1 (slash_prefixes [] (completed name))

module _ (h : Host) (keeps : KeepsDirs h) where
  open h use {W}

  HasSlash-at : (cs : List ℕ) (i : ℕ) → i < length cs → get_or cs i 0 ≡ b'/' → HasSlash h keeps cs
  HasSlash-at [] i l e = absurd (omega arith)
  HasSlash-at (c ∷ cs) zero l e = inl e
  HasSlash-at (c ∷ cs) (suc i) l e = inr (HasSlash-at cs i (omega arith) e)

  HasSlash-end : (cs : List ℕ) → HasSlash h keeps (cs ++ b'/' ∷ [])
  HasSlash-end [] = inl refl
  HasSlash-end (c ∷ cs) = inr (HasSlash-end cs)

  end_with_slash-Ends :
      (name zeros : List ℕ) (w : W)
      → IsPlain name
      → 0 < length name
      → length name ≤ 254
      → Ends h keeps w
          (directories name)
          (end_with_slash h (name ++ 0 ∷ 0 ∷ zeros) (length name) no_error w)
  unfolding end_with_slash
  end_with_slash-Ends name zeros w p pos fits =
      let last = get_or-append name (0 ∷ 0 ∷ zeros) (length name - 1) (omega arith) in
      elim (Bool-cases (get_or name (length name - 1) 0 == b'/')) [
        | inl e ↦
            rw (end_with_slash, to_slashes_plain name (0 ∷ zeros) p, last, e)
              (make_path-Ends h keeps name (0 ∷ zeros) w p
                (HasSlash-at name (length name - 1) (omega arith) (==→eq _ _ e)) (omega arith))
        | inr e ↦
            let moved : (name ++ b'/' ∷ []) ++ 0 ∷ zeros ≡ name ++ b'/' ∷ 0 ∷ zeros =
              append_assoc name (b'/' ∷ []) (0 ∷ zeros) in
            rw
              (
                end_with_slash,
                to_slashes_plain name (0 ∷ zeros) p,
                last,
                e,
                le→ltb 256 (length name + 1) (omega arith),
                set_end name 0 b'/' (0 ∷ zeros),
                ← moved,
              )
              (make_path-Ends h keeps (name ++ b'/' ∷ []) zeros w
                (IsPlain-append name (b'/' ∷ []) p (omega arith)) (HasSlash-end name)
                (omega (arith, length-append name (b'/' ∷ []))))
      ]

  array_eq :
      (name : List ℕ)
      → length name ≤ 254
      → memcpy (replicate 256 0) 0 name (length name)
        ≡ name ++ 0 ∷ 0 ∷ replicate (254 - length name) 0
  unfolding memcpy
  array_eq name fits =
      let two : 256 - (0 + length name) ≡ suc (suc (254 - length name)) = omega arith in
      rw (take_all (length name) name (omega arith), drop-replicate (0 + length name) 256, two)

  first_char : (name tail : List ℕ) → 0 < length name → get_or (name ++ tail) 0 0 ≡ get_or name 0 0
  first_char name tail h = get_or-append name tail 0 h

  nonempty : (name : List ℕ) (c : ℕ) → get_or name 0 0 ≡ c → c ≢ 0 → 0 < length name
  nonempty [] c e h = absurd (h (sym e))
  nonempty (x ∷ xs) c e h = omega arith

  begins :
      (name : List ℕ)
      → (get_or name 0 0 ≡ b'/') ⊎ (get_or name 0 0 ≡ b'.')
      → (not (b'/' == get_or name 0 0) && not (b'.' == get_or name 0 0)) ≡ false
  begins name (inl e) = rw e
  begins name (inr e) = rw e

  is_there : (name : List ℕ) → (get_or name 0 0 ≡ b'/') ⊎ (get_or name 0 0 ≡ b'.') → 0 < length name
  is_there name (inl e) = nonempty name b'/' e (omega arith)
  is_there name (inr e) = nonempty name b'.' e (omega arith)

  create_dir-Ends :
      (name : List ℕ) (w : W)
      → IsPlain name
      → (get_or name 0 0 ≡ b'/') ⊎ (get_or name 0 0 ≡ b'.')
      → length name ≤ 254
      → Ends h keeps w (directories name) (create_dir h name (length name) no_error w)
  unfolding create_dir
  create_dir-Ends name w p start fits =
      let pos = is_there name start in
      rw
        (
          create_dir,
          le→ltb 256 (length name) (omega arith),
          array_eq name fits,
          first_char name (0 ∷ 0 ∷ replicate (254 - length name) 0) pos,
          begins name start,
        )
        (end_with_slash-Ends name (replicate (254 - length name) 0) w p pos fits)

  Ends-eq :
      (dirs : List (List ℕ)) (w : W) (o : Option (Bool × ErrorCode × W))
      → Ends h keeps w dirs o
      → (ok : Bool) × (err : ErrorCode) × (w' : W) × (o ≡ some (ok, err, w'))
        × (err ≡ no_error → (ok ≡ true) × AllThere h w' dirs)
        × ((dir : List ℕ) → h.access dir w ≡ true → h.access dir w' ≡ true)
  Ends-eq dirs w none e = absurd e
  Ends-eq dirs w (some (ok, err, w')) e = (ok, err, w', refl, e.0, e.1)

  pub create_dir_lem :
      (name : List ℕ) (w : W)
      → IsPlain name
      → (get_or name 0 0 ≡ b'/') ⊎ (get_or name 0 0 ≡ b'.')
      → length name ≤ 254
      → (ok : Bool) × (err : ErrorCode) × (w' : W) × (create_dir h name (length name) no_error w
          ≡ some (ok, err, w'))
        × (err ≡ no_error → (ok ≡ true) × AllThere h w' (directories name))
        × ((dir : List ℕ) → h.access dir w ≡ true → h.access dir w' ≡ true)
  create_dir_lem name w p start fits =
      Ends-eq (directories name) w (create_dir h name (length name) no_error w)
        (create_dir-Ends name w p start fits)
