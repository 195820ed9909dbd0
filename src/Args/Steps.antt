-- ===== src/Args/Steps.antt =====
-- The steps of the scan at a character that is no quote.
use telnet_serv.Prelude.{
  ℕ, suc, ◌+◌, ◌-◌, ◌%◌, ◌≤◌, ◌<◌, ◌≡◌, ◌≢◌, refl, sym, ap, Bool, true, false, ◌&&◌, some, List, [],
  ◌∷◌, ◌++◌, map, append_assoc, ltb, ◌==◌, length, get_or, set, replicate, length-append, arith,
  lt→ltb, le→ltb, ne→==,
}
use telnet_serv.Args.{RawPara, no_para, Scan, scanned, overrun, is_separator, on_other, scan_char}

abbrev pub word_at : ℕ → RawPara
word_at i = record { para_str = some i; in_quote = false; is_char = false }

-- atRawPara with the parameters at some offsets.
abbrev pub slots : List ℕ → List RawPara
slots ps = map word_at ps ++ replicate (10 - length ps) no_para

-- The scan between two characters: `pre` is behind it, and there are parameters at `ps`.
abbrev pub between : List ℕ → List ℕ → List ℕ → Scan
between pre rest ps = record {
  cmd = pre ++ rest;
  count = length pre;
  start_cnt = 0;
  str_start = false;
  char_start = false;
  raw_para = slots ps;
  para_num = length ps;
}

module _ {ℓ} {A : Type ℓ} where
  pub get_or_at :
      (xs : List A) (y : A) (ys : List A) (d : A) → get_or (xs ++ y ∷ ys) (length xs) d ≡ y
  get_or_at [] y ys d = refl
  get_or_at (x ∷ xs) y ys d = get_or_at xs y ys d

  pub set_at :
      (xs : List A) (y z : A) (ys : List A) → set (xs ++ y ∷ ys) (length xs) z ≡ xs ++ z ∷ ys
  set_at [] y z ys = refl
  set_at (x ∷ xs) y z ys = ap (◌∷◌ x) (set_at xs y z ys)

length-word_at : (ps : List ℕ) → length (map word_at ps) ≡ length ps
length-word_at [] = refl
length-word_at (p ∷ ps) = ap suc (length-word_at ps)

map-word_at : (ps : List ℕ) (i : ℕ) → map word_at (ps ++ i ∷ []) ≡ map word_at ps ++ word_at i ∷ []
map-word_at [] i = refl
map-word_at (p ∷ ps) i = ap (◌∷◌ (word_at p)) (map-word_at ps i)

set-slots :
    (ps : List ℕ) (i : ℕ)
    → length ps < 10
    → set (slots ps) (length ps) (word_at i) ≡ slots (ps ++ i ∷ [])
set-slots ps i h =
    let left : 10 - length ps ≡ suc (10 - (length ps + 1)) = omega arith in
    let size : length (ps ++ i ∷ []) ≡ length ps + 1 = length-append ps (i ∷ []) in
    rw
      (
        size,
        left,
        map-word_at ps i,
        append_assoc (map word_at ps) (word_at i ∷ []) (replicate (10 - (length ps + 1)) no_para),
        ← length-word_at ps,
      )
      (set_at (map word_at ps) no_para (word_at i) _)

-- One more character is behind the scan.
pub shift : (pre rest : List ℕ) (c : ℕ) → pre ++ c ∷ rest ≡ (pre ++ c ∷ []) ++ rest
shift pre rest c = sym (append_assoc pre (c ∷ []) rest)

-- What stands before the scan.
abbrev pub behind_nul : Scan → Bool
behind_nul s = ltb 0 s.count && (get_or s.cmd (s.count - 1) 0 == 0)

pub behind_shift :
    (pre rest ps : List ℕ) (c : ℕ) → behind_nul (between (pre ++ c ∷ []) rest ps) ≡ (c == 0)
behind_shift pre rest ps c =
    let size : length (pre ++ c ∷ []) ≡ length pre + 1 = length-append pre (c ∷ []) in
    let back : length pre + 1 - 1 ≡ length pre = omega arith in
    rw (
      size,
      lt→ltb 0 (length pre + 1) (omega arith),
      back,
      ← shift pre rest c,
      get_or_at pre c rest 0,
    )

-- The step over a separator, inside a word, and at the start of a parameter.
pub step_separator :
    (pre rest ps : List ℕ) (c : ℕ)
    → length pre < 255
    → (c ≢ 39) × (c ≢ 34)
    → is_separator c ≡ true
    → scan_char (between pre (c ∷ rest) ps) ≡ scanned (between (pre ++ 0 ∷ []) rest ps)
unfolding scan_char
step_separator pre rest ps c h q sep =
    let size : length (pre ++ 0 ∷ []) ≡ length pre + 1 = length-append pre (0 ∷ []) in
    let small : (length pre + 1) % 256 ≡ length pre + 1 = omega arith in
    rw (
      scan_char,
      get_or_at pre c rest 0,
      ne→== c 39 q.0,
      ne→== c 34 q.1,
      sep,
      set_at pre c 0 rest,
      small,
      size,
      ← shift pre rest 0,
    )

pub step_inside :
    (pre rest ps : List ℕ) (c : ℕ)
    → length pre < 255
    → (c ≢ 39) × (c ≢ 34)
    → is_separator c ≡ false
    → behind_nul (between pre (c ∷ rest) ps) ≡ false
    → scan_char (between pre (c ∷ rest) ps) ≡ scanned (between (pre ++ c ∷ []) rest ps)
unfolding scan_char on_other
step_inside pre rest ps c h q sep b =
    let size : length (pre ++ c ∷ []) ≡ length pre + 1 = length-append pre (c ∷ []) in
    let small : (length pre + 1) % 256 ≡ length pre + 1 = omega arith in
    rw (
      scan_char,
      get_or_at pre c rest 0,
      ne→== c 39 q.0,
      ne→== c 34 q.1,
      sep,
      b,
      small,
      size,
      ← shift pre rest c,
    )

pub step_start :
    (pre rest ps : List ℕ) (c : ℕ)
    → length pre < 255
    → length ps < 10
    → (c ≢ 39) × (c ≢ 34)
    → is_separator c ≡ false
    → behind_nul (between pre (c ∷ rest) ps) ≡ true
    → scan_char (between pre (c ∷ rest) ps)
      ≡ scanned (between (pre ++ c ∷ []) rest (ps ++ length pre ∷ []))
unfolding scan_char on_other
step_start pre rest ps c h k q sep b =
    let size : length (pre ++ c ∷ []) ≡ length pre + 1 = length-append pre (c ∷ []) in
    let more : length (ps ++ length pre ∷ []) ≡ length ps + 1 =
      length-append ps (length pre ∷ []) in
    let small : (length pre + 1) % 256 ≡ length pre + 1 = omega arith in
    rw (
      scan_char,
      get_or_at pre c rest 0,
      ne→== c 39 q.0,
      ne→== c 34 q.1,
      sep,
      b,
      lt→ltb (length ps) 10 k,
      small,
      size,
      ← shift pre rest c,
      set-slots ps (length pre) k,
      more,
    )

pub step_overrun :
    (pre rest ps : List ℕ) (c : ℕ)
    → 10 ≤ length ps
    → (c ≢ 39) × (c ≢ 34)
    → is_separator c ≡ false
    → behind_nul (between pre (c ∷ rest) ps) ≡ true
    → scan_char (between pre (c ∷ rest) ps) ≡ overrun
unfolding scan_char on_other
step_overrun pre rest ps c k q sep b = rw (
  scan_char,
  get_or_at pre c rest 0,
  ne→== c 39 q.0,
  ne→== c 34 q.1,
  sep,
  b,
  le→ltb (length ps) 10 k,
)

-- What the scan of the rest comes to, with parameters at `ps` in the end.
