-- ===== src/Args/Modes.antt =====
-- The steps of the scan in all modes, inside and outside of quotes.
use telnet_serv.Prelude.{
  ℕ, suc, ◌+◌, ◌-◌, ◌%◌, ◌≤◌, ◌<◌, ◌≡◌, ◌≢◌, refl, ap, ◌∙◌, Bool, true, false, not, ◌&&◌, some,
  List, [], ◌∷◌, ◌++◌, append_assoc, ltb, ◌==◌, length, get_or, set, replicate, length-append,
  arith, lt→ltb, le→ltb, ne→==,
}
use telnet_serv.Args.{
  RawPara, no_para, Scan, scanned, is_separator, on_other, on_quote, scan_char, scan_loop,
}
use telnet_serv.Args.Steps.{get_or_at, set_at, shift}

-- atRawPara with some parameters.
abbrev pub filled : List RawPara → List RawPara
filled ps = ps ++ replicate (10 - length ps) no_para

-- The scan between two characters: `pre` is behind it, `k` is chStartCnt, and the flags say whether
-- it is inside of double and of single quotes.
abbrev pub mid : List ℕ → List ℕ → ℕ → Bool → Bool → List RawPara → Scan
mid pre rest k str chr ps = record {
  cmd = pre ++ rest;
  count = length pre;
  start_cnt = k;
  str_start = str;
  char_start = chr;
  raw_para = filled ps;
  para_num = length ps;
}

filled-append :
    (ps : List RawPara) (p : RawPara)
    → length ps < 10
    → set (filled ps) (length ps) p ≡ filled (ps ++ p ∷ [])
filled-append ps p h =
    let left : 10 - length ps ≡ suc (10 - (length ps + 1)) = omega arith in
    let size : length (ps ++ p ∷ []) ≡ length ps + 1 = length-append ps (p ∷ []) in
    rw (size, left, append_assoc ps (p ∷ []) (replicate (10 - (length ps + 1)) no_para))
      (set_at ps no_para p _)

-- Whether the scan stands behind a NUL.
abbrev pub is_behind : List ℕ → List ℕ → Bool
is_behind pre rest = ltb 0 (length pre) && (get_or (pre ++ rest) (length pre - 1) 0 == 0)

pub is_behind_shift : (pre rest : List ℕ) (c : ℕ) → is_behind (pre ++ c ∷ []) rest ≡ (c == 0)
is_behind_shift pre rest c =
    let size : length (pre ++ c ∷ []) ≡ length pre + 1 = length-append pre (c ∷ []) in
    let back : length pre + 1 - 1 ≡ length pre = omega arith in
    rw (
      size,
      lt→ltb 0 (length pre + 1) (omega arith),
      back,
      ← shift pre rest c,
      get_or_at pre c rest 0,
    )

-- A run of the loop up to `n`, by characters that it scans.
pub data Runs (n : ℕ) (s : Scan) : Scan → Type 0 where
  here : Runs n s s
  then_to :
      {t u : Scan}
      → Runs n s t
      → t.count < n
      → scan_char t ≡ scanned u
      → u.count ≡ t.count + 1
      → Runs n s u

pub Runs-trans : {n : ℕ} {s t u : Scan} → Runs n s t → Runs n t u → Runs n s u
Runs-trans r here = r
Runs-trans r (then_to q h e c) = then_to (Runs-trans r q) h e c

-- The loop after a run.
pub loop-Runs :
    {n : ℕ} {s t : Scan} (r : Runs n s t) (fuel : ℕ)
    → n - s.count < fuel
    → s.count ≤ n
    → (left : ℕ) × (n - t.count < left) × (t.count ≤ n) × (scan_loop fuel n s ≡ scan_loop left n t)
unfolding scan_loop
loop-Runs here fuel f le = (fuel, f, le, refl)
loop-Runs {n} (then_to {t} {u} r h e c) fuel f le =
    let (left, enough, in_line, same) = loop-Runs r fuel f le in
    let one : left ≡ suc (left - 1) = omega arith in
    (
      left - 1,
      omega arith,
      omega arith,
      same ∙ ap (λ i. scan_loop i n t) one ∙ rw (scan_loop, lt→ltb t.count n h, e),
    )

module _ (n : ℕ) (small : n ≤ 255) where
  one_step :
      (s u : Scan) → s.count < n → scan_char s ≡ scanned u → u.count ≡ s.count + 1 → Runs n s u
  one_step s u h e c = then_to here h e c

  module _ (pre rest : List ℕ) (k : ℕ) (ps : List RawPara) (room : length pre < n) where
    small_count : (length pre + 1) % 256 ≡ length pre + 1
    small_count = omega arith

    size : (c : ℕ) → length (pre ++ c ∷ []) ≡ length pre + 1
    size c = length-append pre (c ∷ [])

    -- A separator outside of double quotes.
    pub run_separator :
        (chr : Bool) (c : ℕ)
        → (c ≢ 39) × (c ≢ 34)
        → is_separator c ≡ true
        → Runs n (mid pre (c ∷ rest) k false chr ps) (mid (pre ++ 0 ∷ []) rest k false chr ps)
    unfolding scan_char
    run_separator chr c q sep =
        one_step (mid pre (c ∷ rest) k false chr ps) (mid (pre ++ 0 ∷ []) rest k false chr ps) room
          (rw (
            scan_char,
            get_or_at pre c rest 0,
            ne→== c 39 q.0,
            ne→== c 34 q.1,
            sep,
            set_at pre c 0 rest,
            small_count,
            size 0,
            ← shift pre rest 0,
          ))
          (size 0)

    -- A separator inside of double quotes.
    pub run_kept :
        (chr : Bool) (c : ℕ)
        → (c ≢ 39) × (c ≢ 34)
        → is_separator c ≡ true
        → Runs n (mid pre (c ∷ rest) k true chr ps) (mid (pre ++ c ∷ []) rest k true chr ps)
    unfolding scan_char
    run_kept chr c q sep =
        one_step (mid pre (c ∷ rest) k true chr ps) (mid (pre ++ c ∷ []) rest k true chr ps) room
          (rw (
            scan_char,
            get_or_at pre c rest 0,
            ne→== c 39 q.0,
            ne→== c 34 q.1,
            sep,
            small_count,
            size c,
            ← shift pre rest c,
          ))
          (size c)

    -- Any other character that stands behind no NUL.
    pub run_inside :
        (str chr : Bool) (c : ℕ)
        → (c ≢ 39) × (c ≢ 34)
        → is_separator c ≡ false
        → is_behind pre (c ∷ rest) ≡ false
        → Runs n (mid pre (c ∷ rest) k str chr ps) (mid (pre ++ c ∷ []) rest k str chr ps)
    unfolding scan_char on_other
    run_inside str chr c q sep b =
        one_step (mid pre (c ∷ rest) k str chr ps) (mid (pre ++ c ∷ []) rest k str chr ps) room
          (rw (
            scan_char,
            get_or_at pre c rest 0,
            ne→== c 39 q.0,
            ne→== c 34 q.1,
            sep,
            b,
            small_count,
            size c,
            ← shift pre rest c,
          ))
          (size c)

    -- Any other character that stands behind a NUL.
    pub run_start :
        (str chr : Bool) (c : ℕ)
        → (c ≢ 39) × (c ≢ 34)
        → is_separator c ≡ false
        → is_behind pre (c ∷ rest) ≡ true
        → length ps < 10
        → let p : RawPara = record {
          para_str = some (length pre);
          in_quote = str;
          is_char = chr;
        } in
          Runs n
            (mid pre (c ∷ rest) k str chr ps)
            (mid (pre ++ c ∷ []) rest k str chr (ps ++ p ∷ []))
    unfolding scan_char on_other
    run_start str chr c q sep b free =
        let p : RawPara = record { para_str = some (length pre); in_quote = str; is_char = chr } in
        let more : length (ps ++ p ∷ []) ≡ length ps + 1 = length-append ps (p ∷ []) in
        one_step (mid pre (c ∷ rest) k str chr ps)
          (mid (pre ++ c ∷ []) rest k str chr (ps ++ p ∷ [])) room
          (rw (
            scan_char,
            get_or_at pre c rest 0,
            ne→== c 39 q.0,
            ne→== c 34 q.1,
            sep,
            b,
            lt→ltb (length ps) 10 free,
            small_count,
            size c,
            ← shift pre rest c,
            filled-append ps p free,
            more,
          ))
          (size c)

    -- A double quote.
    pub run_double :
        (str chr : Bool)
        → Runs n (mid pre (34 ∷ rest) k str chr ps) (mid (pre ++ 0 ∷ []) rest k (not str) chr ps)
    unfolding scan_char
    run_double str chr =
        one_step (mid pre (34 ∷ rest) k str chr ps) (mid (pre ++ 0 ∷ []) rest k (not str) chr ps)
          room
          (rw (
            scan_char,
            get_or_at pre 34 rest 0,
            set_at pre 34 0 rest,
            small_count,
            size 0,
            ← shift pre rest 0,
          ))
          (size 0)

    -- A single quote that opens, and one that closes not too far behind it.
    pub run_open :
        (str : Bool)
        → Runs n
            (mid pre (39 ∷ rest) k str false ps)
            (mid (pre ++ 0 ∷ []) rest (length pre) str true ps)
    unfolding scan_char on_quote
    run_open str =
        one_step (mid pre (39 ∷ rest) k str false ps)
          (mid (pre ++ 0 ∷ []) rest (length pre) str true ps) room
          (rw (
            scan_char,
            get_or_at pre 39 rest 0,
            set_at pre 39 0 rest,
            small_count,
            size 0,
            ← shift pre rest 0,
          ))
          (size 0)

    pub run_close :
        (str : Bool)
        → length pre ≤ k + 2
        → Runs n (mid pre (39 ∷ rest) k str true ps) (mid (pre ++ 0 ∷ []) rest k str false ps)
    unfolding scan_char on_quote
    run_close str near =
        one_step (mid pre (39 ∷ rest) k str true ps) (mid (pre ++ 0 ∷ []) rest k str false ps) room
          (rw (
            scan_char,
            get_or_at pre 39 rest 0,
            le→ltb (k + 2) (length pre) near,
            set_at pre 39 0 rest,
            small_count,
            size 0,
            ← shift pre rest 0,
          ))
          (size 0)
