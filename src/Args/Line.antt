-- ===== src/Args/Line.antt =====
-- The scan of a whole command line that was written from arguments.
use telnet_serv.Prelude.{
  ℕ, ◌+◌, ◌≤◌, ◌<◌, ◌≡◌, refl, sym, ap, ◌∙◌, Bool, true, false, some, List, [], ◌∷◌, ◌++◌,
  append_assoc, append-nil, length, length-append, length-replicate, arith, ne→==, subst,
  if◌then◌else◌,
}
use telnet_serv.Args.{RawPara, Scan}
use telnet_serv.Args.Modes.{
  mid, is_behind, is_behind_shift, Runs, Runs-trans, run_start, run_inside, run_double, run_open,
  run_close, run_separator,
}
use telnet_serv.Args.Items.{
  Arg, num, word, text, chr, Item, spell, cut_arg, entry, is_quoted, IsBare, IsGap, IsText, IsArg,
  zeros, digits, digits-IsWord, run_inner, run_gap, run_word,
}

pub regroup :
    (pre gap arg items tail : List ℕ)
    → ((pre ++ gap) ++ arg) ++ (items ++ tail) ≡ pre ++ ((gap ++ (arg ++ items)) ++ tail)
regroup pre gap arg items tail =
    append_assoc (pre ++ gap) arg (items ++ tail)
    ∙ append_assoc pre gap (arg ++ (items ++ tail))
    ∙ ap (λ (xs : List ℕ). pre ++ xs)
        (ap (λ (xs : List ℕ). gap ++ xs) (sym (append_assoc arg items tail))
          ∙ sym (append_assoc gap (arg ++ items) tail))

module _ (n : ℕ) (small : n ≤ 255) where
  -- What an argument behind a NUL comes to.
  abbrev Parses : Arg → List ℕ → List ℕ → ℕ → List RawPara → Type 0
  Parses a pre rest k ps =
      (k' : ℕ) × Runs n (mid pre (spell a ++ rest) k false false ps)
        (mid (pre ++ cut_arg a) rest k' false false (ps ++ entry (length pre) a ∷ []))
      × (is_behind (pre ++ cut_arg a) rest ≡ is_quoted a)

  run_text :
      (c : ℕ) (cs pre rest : List ℕ) (k : ℕ) (ps : List RawPara)
      → IsText (c ∷ cs)
      → length pre + length cs + 3 ≤ n
      → length ps < 10
      → Parses (text (c ∷ cs)) pre rest k ps
  run_text c cs pre rest k ps ist fits free =
      let one : List ℕ = pre ++ 0 ∷ [] in
      let two : List ℕ = one ++ c ∷ [] in
      let three : List ℕ = two ++ cs in
      let size1 : length one ≡ length pre + 1 = length-append pre (0 ∷ []) in
      let size2 : length two ≡ length pre + 2 = omega (arith, length-append one (c ∷ [])) in
      let size3 : length three ≡ length pre + length cs + 2 = omega (arith, length-append two cs) in
      let p : RawPara = record { para_str = some (length one); in_quote = true; is_char = false } in
      let open_it = run_double n small pre (c ∷ (cs ++ 34 ∷ rest)) k ps (omega arith) false false in
      let start_it =
        run_start n small one (cs ++ 34 ∷ rest) k ps (omega arith) true false c ist.0.0 ist.0.2
          (is_behind_shift pre (c ∷ (cs ++ 34 ∷ rest)) 0) free in
      let inner =
        run_inner n small cs two (34 ∷ rest) k (ps ++ p ∷ []) ist.1 (omega arith)
          (is_behind_shift one (cs ++ 34 ∷ rest) c ∙ ne→== c 0 ist.0.1) in
      let close_it = run_double n small three rest k (ps ++ p ∷ []) (omega arith) true false in
      let same : three ++ 0 ∷ [] ≡ pre ++ (0 ∷ c ∷ (cs ++ 0 ∷ [])) =
        append_assoc two cs (0 ∷ [])
        ∙ append_assoc one (c ∷ []) (cs ++ 0 ∷ [])
        ∙ append_assoc pre (0 ∷ []) (c ∷ (cs ++ 0 ∷ [])) in
      (
        k,
        rw (← same, ← size1, append_assoc cs (34 ∷ []) rest)
            (Runs-trans open_it (Runs-trans start_it (Runs-trans inner close_it))),
        rw (← same) (is_behind_shift three rest 0),
      )

  run_chr :
      (c : ℕ) (pre rest : List ℕ) (k : ℕ) (ps : List RawPara)
      → IsBare c
      → length pre + 3 ≤ n
      → length ps < 10
      → Parses (chr c) pre rest k ps
  run_chr c pre rest k ps bare fits free =
      let p : RawPara = record {
        para_str = some (length pre + 1);
        in_quote = false;
        is_char = true;
      } in
      let one : List ℕ = pre ++ 0 ∷ [] in
      let two : List ℕ = one ++ c ∷ [] in
      let size1 : length one ≡ length pre + 1 = length-append pre (0 ∷ []) in
      let size2 : length two ≡ length pre + 2 = omega (arith, length-append one (c ∷ [])) in
      let open_it = run_open n small pre (c ∷ 39 ∷ rest) k ps (omega arith) false in
      let start_it =
        run_start n small one (39 ∷ rest) (length pre) ps (omega arith) false true c bare.0 bare.2
          (is_behind_shift pre (c ∷ 39 ∷ rest) 0) free in
      let close_it =
        run_close n small two rest (length pre)
          (ps ++ record { para_str = some (length one); in_quote = false; is_char = true } ∷ [])
          (omega arith) false (omega arith) in
      let same : two ++ 0 ∷ [] ≡ pre ++ (0 ∷ c ∷ 0 ∷ []) =
        append_assoc one (c ∷ []) (0 ∷ []) ∙ append_assoc pre (0 ∷ []) (c ∷ 0 ∷ []) in
      (
        length pre,
        rw (← same, ← size1) (Runs-trans open_it (Runs-trans start_it close_it)),
        rw (← same) (is_behind_shift two rest 0),
      )

  run_arg :
      (a : Arg) (pre rest : List ℕ) (k : ℕ) (ps : List RawPara)
      → IsArg a
      → length pre + length (spell a) ≤ n
      → is_behind pre (spell a ++ rest) ≡ true
      → length ps < 10
      → Parses a pre rest k ps
  run_arg (num m) pre rest k ps isa fits b free =
      let (r, q) = run_word n small (digits m) pre rest k ps (digits-IsWord m) fits b free in
      (k, r, q)
  run_arg (word w) pre rest k ps isa fits b free =
      let (r, q) = run_word n small w pre rest k ps isa fits b free in (k, r, q)
  run_arg (text []) pre rest k ps isa fits b free = absurd isa
  run_arg (text (c ∷ cs)) pre rest k ps isa fits b free =
      run_text c cs pre rest k ps isa (omega (arith, length-append cs (34 ∷ []))) free
  run_arg (chr c) pre rest k ps isa fits b free = run_chr c pre rest k ps isa (omega arith) free

-- The line behind its name, as it is written and as the scan leaves it.
abbrev pub spell_all : List Item → List ℕ
spell_all [] = []
spell_all (item ∷ items) = item.gap ++ (spell item.arg ++ spell_all items)

abbrev pub cut_all : List Item → List ℕ
cut_all [] = []
cut_all (item ∷ items) = zeros item.gap ++ (cut_arg item.arg ++ cut_all items)

-- The parameters, from an offset on; a quote at the end of the line is cut to a NUL, and the NUL
-- behind it then counts as one more.
abbrev pub entries : Bool → ℕ → List Item → List RawPara
entries behind i [] =
    if behind then record { para_str = some i; in_quote = false; is_char = false } ∷ [] else []
entries behind i (item ∷ items) =
    entry (i + length item.gap) item.arg
    ∷ entries (is_quoted item.arg) (i + length item.gap + length (cut_arg item.arg)) items

-- A gap before an argument has a character.
abbrev pub AreItems : List Item → Type 0
AreItems [] = Unit {0}
AreItems (item ∷ items) =
    ((IsGap item.gap × (0 < length item.gap)) × IsArg item.arg) × AreItems items

pub length-spell : (a : Arg) → length (spell a) ≡ length (cut_arg a)
length-spell (num m) = refl
length-spell (word w) = refl
length-spell (text t) = omega (arith, length-append t (34 ∷ []), length-append t (0 ∷ []))
length-spell (chr c) = refl

module _ (n : ℕ) (small : n ≤ 255) where
  -- A gap stands behind no NUL, but its characters are separators.
  run_first_gap :
      (cs pre rest : List ℕ) (k : ℕ) (ps : List RawPara)
      → IsGap cs
      → 0 < length cs
      → length pre + length cs ≤ n
      → Runs n (mid pre (cs ++ rest) k false false ps) (mid (pre ++ zeros cs) rest k false false ps)
        × (is_behind (pre ++ zeros cs) rest ≡ true)
  run_first_gap [] pre rest k ps gap pos fits = absurd (omega arith)
  run_first_gap (c ∷ cs) pre rest k ps gap pos fits =
      let size : length (pre ++ 0 ∷ []) ≡ length pre + 1 = length-append pre (0 ∷ []) in
      let step =
        run_separator n small pre (cs ++ rest) k ps (omega arith) false c gap.0.0 gap.0.1 in
      let later =
        run_gap n small cs (pre ++ 0 ∷ []) rest k ps gap.1 (omega arith)
          (is_behind_shift pre (cs ++ rest) 0) in
      rw (← append_assoc pre (0 ∷ []) (zeros cs)) (Runs-trans step later.0, later.1)

  mid-eq :
      {pre pre' rest rest' : List ℕ} {ps ps' : List RawPara} (k : ℕ)
      → pre ≡ pre'
      → rest ≡ rest'
      → ps ≡ ps'
      → mid pre rest k false false ps ≡ mid pre' rest' k false false ps'
  mid-eq k e f g = rw (e, f, g)

  Runs-eq : {s s' t t' : Scan} → s ≡ s' → t ≡ t' → Runs n s t → Runs n s' t'
  Runs-eq {s} {s'} {t} {t'} e f r =
      subst (λ (u : Scan). Runs n s' u) f (subst (λ (u : Scan). Runs n u t) e r)

  -- The items, and the NUL at the end of the line.
  pub run_items :
      (items : List Item) (pre tail : List ℕ) (k : ℕ) (b : Bool) (ps : List RawPara)
      → AreItems items
      → length pre + length (spell_all items) + 1 ≡ n
      → is_behind pre (spell_all items ++ 0 ∷ tail) ≡ b
      → length ps + length (entries b (length pre) items) ≤ 10
      → (k' : ℕ) × Runs n (mid pre (spell_all items ++ 0 ∷ tail) k false false ps) (
          mid
            (pre ++ (cut_all items ++ 0 ∷ []))
            tail
            k'
            false
            false
            (ps ++ entries b (length pre) items))
  run_items [] pre tail k false ps are total b room = (
    k,
    rw (append-nil ps)
        (run_inside n small pre tail k ps (omega arith) false false 0 (omega arith) refl b),
  )
  run_items [] pre tail k true ps are total b room = (
    k,
    run_start n small pre tail k ps (omega arith) false false 0 (omega arith) refl b (omega arith),
  )
  run_items (item ∷ items) pre tail k b ps are total behind room =
      let gap = item.gap in
      let a = item.arg in
      let later : List ℕ = spell_all items ++ 0 ∷ tail in
      let pre1 : List ℕ = pre ++ zeros gap in
      let pre2 : List ℕ = pre1 ++ cut_arg a in
      let p : RawPara = entry (length pre1) a in
      let size1 : length pre1 ≡ length pre + length gap =
        omega (arith, length-append pre (zeros gap), length-replicate {A = ℕ} (length gap) 0) in
      let size2 : length pre2 ≡ length pre1 + length (cut_arg a) = length-append pre1 (cut_arg a) in
      let widths : length (spell_all (item ∷ items))
          ≡ length gap + (length (cut_arg a) + length (spell_all items)) =
        omega (
          arith,
          length-append gap (spell a ++ spell_all items),
          length-append (spell a) (spell_all items),
          length-spell a,
        ) in
      let in_gap =
        run_first_gap gap pre (spell a ++ later) k ps are.0.0.0 are.0.0.1 (omega arith) in
      let (k1, in_arg, q) =
        run_arg n small a pre1 later k ps are.0.1 (omega (arith, length-spell a)) in_gap.1
          (omega arith) in
      let room' : length (ps ++ p ∷ []) + length (entries (is_quoted a) (length pre2) items) ≤ 10 =
        omega (
          arith,
          length-append ps (p ∷ []),
          ap (λ i. length (entries (is_quoted a) i items))
              (size2 ∙ ap (λ i. i + length (cut_arg a)) size1),
        ) in
      let (k2, rest) =
        run_items items pre2 tail k1 (is_quoted a) (ps ++ p ∷ []) are.1 (omega arith) q room' in
      let start : spell_all (item ∷ items) ++ 0 ∷ tail ≡ gap ++ (spell a ++ later) =
        append_assoc gap (spell a ++ spell_all items) (0 ∷ tail)
        ∙ ap (◌++◌ gap) (append_assoc (spell a) (spell_all items) (0 ∷ tail)) in
      let finish = regroup pre (zeros gap) (cut_arg a) (cut_all items) (0 ∷ []) in
      let listed : (ps ++ p ∷ []) ++ entries (is_quoted a) (length pre2) items
          ≡ ps ++ entries b (length pre) (item ∷ items) =
        append_assoc ps (p ∷ []) (entries (is_quoted a) (length pre2) items)
        ∙ ap (λ (es : List RawPara). ps ++ es) (rw (size2, size1)) in
      (
        k2,
        Runs-eq (mid-eq k refl (sym start) refl) (mid-eq k2 finish refl listed)
            (Runs-trans in_gap.0 (Runs-trans in_arg rest)),
      )
