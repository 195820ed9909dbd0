-- ===== src/Args/Items.antt =====
-- Command lines written from arguments, and what the scan makes of each argument.
use telnet_serv.Prelude.{
  ℕ, zero, suc, ◌+◌, ◌≤◌, ◌<◌, ◌^◌, ◌%◌, ◌/◌, ltb, ◌≡◌, ◌≢◌, ◌∙◌, Bool, true, false, some, List, [],
  ◌∷◌, ◌++◌, append_assoc, append-nil, length, replicate, length-append, arith, ne→==, Bool-cases,
  inl, inr,
}
use telnet_serv.Terminal.{decimal}
use telnet_serv.Args.{RawPara, is_separator, is_separator}
use telnet_serv.Args.Modes.{
  mid, is_behind, is_behind_shift, Runs, here, Runs-trans, run_separator, run_kept, run_inside,
  run_start,
}

-- An argument: a number, a bare word, a text in double quotes, or a character in single quotes.
pub data Arg : Type 0 where
  num : (n : ℕ) → Arg
  word : (w : List ℕ) → Arg
  text : (t : List ℕ) → Arg
  chr : (c : ℕ) → Arg

-- An argument with the separators before it.
pub record Item : Type 0 where
  pub gap : List ℕ
  pub arg : Arg

abbrev pub digits : ℕ → List ℕ
digits n = decimal 10 n []

-- How an argument is written, and what the scan leaves of it.
abbrev pub spell : Arg → List ℕ
spell (num n) = digits n
spell (word w) = w
spell (text t) = 34 ∷ (t ++ 34 ∷ [])
spell (chr c) = 39 ∷ c ∷ 39 ∷ []

abbrev pub cut_arg : Arg → List ℕ
cut_arg (num n) = digits n
cut_arg (word w) = w
cut_arg (text t) = 0 ∷ (t ++ 0 ∷ [])
cut_arg (chr c) = 0 ∷ c ∷ 0 ∷ []

-- The parameter of an argument at an offset.
abbrev pub entry : ℕ → Arg → RawPara
entry i (num n) = record { para_str = some i; in_quote = false; is_char = false }
entry i (word w) = record { para_str = some i; in_quote = false; is_char = false }
entry i (text t) = record { para_str = some (i + 1); in_quote = true; is_char = false }
entry i (chr c) = record { para_str = some (i + 1); in_quote = false; is_char = true }

abbrev pub is_quoted : Arg → Bool
is_quoted (num n) = false
is_quoted (word w) = false
is_quoted (text t) = true
is_quoted (chr c) = true

-- A character of a bare word, and one inside of double quotes.
abbrev pub IsBare : ℕ → Type 0
IsBare c = ((c ≢ 39) × (c ≢ 34)) × (c ≢ 0) × (is_separator c ≡ false)

abbrev pub IsInner : ℕ → Type 0
IsInner c = ((c ≢ 39) × (c ≢ 34)) × (c ≢ 0)

abbrev pub AllBare : List ℕ → Type 0
AllBare [] = Unit {0}
AllBare (c ∷ cs) = IsBare c × AllBare cs

abbrev pub AllInner : List ℕ → Type 0
AllInner [] = Unit {0}
AllInner (c ∷ cs) = IsInner c × AllInner cs

abbrev pub IsGap : List ℕ → Type 0
IsGap [] = Unit {0}
IsGap (c ∷ cs) = (((c ≢ 39) × (c ≢ 34)) × (is_separator c ≡ true)) × IsGap cs

-- A word has a character; a text too, and its first is no separator.
abbrev pub IsWord : List ℕ → Type 0
IsWord [] = ⊥
IsWord (c ∷ cs) = IsBare c × AllBare cs

abbrev pub IsText : List ℕ → Type 0
IsText [] = ⊥
IsText (c ∷ cs) = IsBare c × AllInner cs

abbrev pub IsArg : Arg → Type 0
IsArg (num n) = n < 2 ^ 31
IsArg (word w) = IsWord w
IsArg (text t) = IsText t
IsArg (chr c) = IsBare c

abbrev pub zeros : List ℕ → List ℕ
zeros cs = replicate (length cs) 0

no_separator : (c : ℕ) → b'0' ≤ c → is_separator c ≡ false
no_separator c le = ground arith

pub digit-IsBare : (n : ℕ) → IsBare (b'0' + n % 10)
digit-IsBare n =
    ((omega arith, omega arith), omega arith, no_separator (b'0' + n % 10) (omega arith))

decimal-IsWord :
    (fuel n : ℕ) (c : ℕ) (cs : List ℕ) → IsBare c × AllBare cs → IsWord (decimal fuel n (c ∷ cs))
unfolding decimal
decimal-IsWord zero n c cs h = h
decimal-IsWord (suc fuel) n c cs h = elim (Bool-cases (ltb n 10)) [
  | inl e ↦ rw (decimal, e) (digit-IsBare n, h)
  | inr e ↦
      rw (decimal, e) (decimal-IsWord fuel (n / 10) (b'0' + n % 10) (c ∷ cs) (digit-IsBare n, h))
]

pub digits-IsWord : (n : ℕ) → IsWord (digits n)
unfolding decimal
digits-IsWord n = elim (Bool-cases (ltb n 10)) [
  | inl e ↦ rw (decimal, e) (digit-IsBare n, tt)
  | inr e ↦ rw (decimal, e) (decimal-IsWord 9 (n / 10) (b'0' + n % 10) [] (digit-IsBare n, tt))
]

-- What the scan finds behind a piece of the line, and whether it then stands behind a NUL.
module _ (n : ℕ) (small : n ≤ 255) where
  -- The characters of a bare word behind its first.
  pub run_bare :
      (cs pre rest : List ℕ) (k : ℕ) (ps : List RawPara)
      → AllBare cs
      → length pre + length cs ≤ n
      → is_behind pre (cs ++ rest) ≡ false
      → Runs n (mid pre (cs ++ rest) k false false ps) (mid (pre ++ cs) rest k false false ps)
        × (is_behind (pre ++ cs) rest ≡ false)
  run_bare [] pre rest k ps bare fits b = rw (append-nil pre) (here, b)
  run_bare (c ∷ cs) pre rest k ps bare fits b =
      let size : length (pre ++ c ∷ []) ≡ length pre + 1 = length-append pre (c ∷ []) in
      let step =
        run_inside n small pre (cs ++ rest) k ps (omega arith) false false c bare.0.0 bare.0.2 b in
      let later =
        run_bare cs (pre ++ c ∷ []) rest k ps bare.1 (omega arith)
          (is_behind_shift pre (cs ++ rest) c ∙ ne→== c 0 bare.0.1) in
      rw (← append_assoc pre (c ∷ []) cs) (Runs-trans step later.0, later.1)

  -- The characters of a text behind its first.
  pub run_inner :
      (cs pre rest : List ℕ) (k : ℕ) (ps : List RawPara)
      → AllInner cs
      → length pre + length cs ≤ n
      → is_behind pre (cs ++ rest) ≡ false
      → Runs n (mid pre (cs ++ rest) k true false ps) (mid (pre ++ cs) rest k true false ps)
  run_inner [] pre rest k ps inner fits b = rw (append-nil pre) here
  run_inner (c ∷ cs) pre rest k ps inner fits b =
      let size : length (pre ++ c ∷ []) ≡ length pre + 1 = length-append pre (c ∷ []) in
      let step : Runs n (mid pre (c ∷ (cs ++ rest)) k true false ps)
          (mid (pre ++ c ∷ []) (cs ++ rest) k true false ps) =
        elim (Bool-cases (is_separator c)) [
          | inl sep ↦ run_kept n small pre (cs ++ rest) k ps (omega arith) false c inner.0.0 sep
          | inr sep ↦
              run_inside n small pre (cs ++ rest) k ps (omega arith) true false c inner.0.0 sep b
        ] in
      let later =
        run_inner cs (pre ++ c ∷ []) rest k ps inner.1 (omega arith)
          (is_behind_shift pre (cs ++ rest) c ∙ ne→== c 0 inner.0.1) in
      rw (← append_assoc pre (c ∷ []) cs) (Runs-trans step later)

  -- A gap becomes NULs.
  pub run_gap :
      (cs pre rest : List ℕ) (k : ℕ) (ps : List RawPara)
      → IsGap cs
      → length pre + length cs ≤ n
      → is_behind pre (cs ++ rest) ≡ true
      → Runs n (mid pre (cs ++ rest) k false false ps) (mid (pre ++ zeros cs) rest k false false ps)
        × (is_behind (pre ++ zeros cs) rest ≡ true)
  run_gap [] pre rest k ps gap fits b = rw (append-nil pre) (here, b)
  run_gap (c ∷ cs) pre rest k ps gap fits b =
      let size : length (pre ++ 0 ∷ []) ≡ length pre + 1 = length-append pre (0 ∷ []) in
      let step =
        run_separator n small pre (cs ++ rest) k ps (omega arith) false c gap.0.0 gap.0.1 in
      let later =
        run_gap cs (pre ++ 0 ∷ []) rest k ps gap.1 (omega arith)
          (is_behind_shift pre (cs ++ rest) 0) in
      rw (← append_assoc pre (0 ∷ []) (zeros cs)) (Runs-trans step later.0, later.1)

  -- A word that starts a parameter.
  pub run_word :
      (w pre rest : List ℕ) (k : ℕ) (ps : List RawPara)
      → IsWord w
      → length pre + length w ≤ n
      → is_behind pre (w ++ rest) ≡ true
      → length ps < 10
      → let p : RawPara = record {
        para_str = some (length pre);
        in_quote = false;
        is_char = false;
      } in
        Runs n
          (mid pre (w ++ rest) k false false ps)
          (mid (pre ++ w) rest k false false (ps ++ p ∷ []))
        × (is_behind (pre ++ w) rest ≡ false)
  run_word [] pre rest k ps isw fits b free = absurd isw
  run_word (c ∷ cs) pre rest k ps isw fits b free =
      let p : RawPara = record {
        para_str = some (length pre);
        in_quote = false;
        is_char = false;
      } in
      let size : length (pre ++ c ∷ []) ≡ length pre + 1 = length-append pre (c ∷ []) in
      let step =
        run_start n small pre (cs ++ rest) k ps (omega arith) false false c isw.0.0 isw.0.2 b
          free in
      let later =
        run_bare cs (pre ++ c ∷ []) rest k (ps ++ p ∷ []) isw.1 (omega arith)
          (is_behind_shift pre (cs ++ rest) c ∙ ne→== c 0 isw.0.1) in
      rw (← append_assoc pre (c ∷ []) cs) (Runs-trans step later.0, later.1)
