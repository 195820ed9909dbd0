-- ===== src/Logging/BaseName.antt =====
-- The name of a source file in the log is the last part of its path.
use telnet_serv.Prelude.{
  ℕ, suc, ◌<◌, ◌≡◌, refl, sym, ap, ◌∙◌, subst, Option, none, some, List, [], ◌∷◌, ◌++◌, ◌==◌,
  length, take, drop, arith, Bool-cases, Option-cases, inl, inr, ◌⊎◌, length-drop, append_assoc,
  ==→eq, eq→==,
}
use telnet_serv.Text.{IsFree}
use telnet_serv.Logging.Source.{SourceFile, strrchr, from_array, from_pointer}

-- What strrchr finds is the last of the characters.
abbrev Found : List ℕ → ℕ → Option ℕ → Type 0
Found s c none = IsFree c s
Found s c (some i) =
    (s ≡ take i s ++ c ∷ drop (suc i) s) × IsFree c (drop (suc i) s) × (i < length s)

strrchr-Found : (s : List ℕ) (c : ℕ) → Found s c (strrchr s c)
unfolding strrchr
strrchr-Found [] c = tt
strrchr-Found (x ∷ xs) c = elim (Option-cases (strrchr xs c)) [
  | inr (i, e) ↦
      let later : Found xs c (some i) = subst (Found xs c) e (strrchr-Found xs c) in
      rw (e, strrchr) (ap (◌∷◌ x) later.0, later.1, omega (arith, later.2))
  | inl e ↦
      let none_later : IsFree c xs = subst (Found xs c) e (strrchr-Found xs c) in
      elim (Bool-cases (x == c)) [
        | inl same ↦
            rw (e, strrchr, same) (ap (λ (y : ℕ). y ∷ xs) (==→eq x c same), none_later, omega arith)
        | inr other ↦ rw (e, strrchr, other) ((λ h. cc (other, eq→== x c h)), none_later)
      ]
]

-- A path's directory part: empty, or with a slash at its end.
abbrev pub IsDir : List ℕ → Type 0
IsDir dir = (dir ≡ []) ⊎ ((d : List ℕ) × (dir ≡ d ++ b'/' ∷ []))

-- `file` is the last part of `path`.
abbrev pub IsBaseName : List ℕ → SourceFile → Type 0
IsBaseName path file =
    ((dir : List ℕ) × (path ≡ dir ++ file.chars) × IsDir dir)
    × IsFree b'/' file.chars
    × (file.size ≡ length file.chars)

array_cases :
    (path : List ℕ) (o : Option ℕ)
    → strrchr path b'/' ≡ o
    → Found path b'/' o
    → IsBaseName path (from_array path)
unfolding from_array
array_cases path none e h = rw (e, from_array) (([], refl, inl refl), h, refl)
array_cases path (some i) e h =
    rw (e, from_array)
      (
        (
          take i path ++ b'/' ∷ [],
          h.0 ∙ sym (append_assoc (take i path) (b'/' ∷ []) (drop (suc i) path)),
          inr (take i path, refl),
        ),
        h.1,
        omega (arith, length-drop (suc i) path),
      )

-- The two constructors of SourceFile, of a literal and of a pointer, come to the same for every
-- path: its last part, which has no slash and is the path without a part that is empty or ends with
-- a slash; and its length.
pub source_file_lem :
    (path : List ℕ) → IsBaseName path (from_array path) × (from_pointer path ≡ from_array path)
unfolding from_array from_pointer
source_file_lem path = (
  array_cases path (strrchr path b'/') refl (strrchr-Found path b'/'),
  elim (Option-cases (strrchr path b'/')) [
    | inl e ↦ rw (e, from_array, from_pointer)
    | inr (i, e) ↦ rw (e, from_array, from_pointer, length-drop (suc i) path)
  ],
)
