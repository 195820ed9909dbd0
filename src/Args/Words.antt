-- ===== src/Args/Words.antt =====
-- The scan of a command line without quotes, against a description of its words: separators become
-- NUL, and a parameter starts at every character that stands behind one.
use telnet_serv.Prelude.{
  ℕ, zero, suc, ◌+◌, ◌≤◌, ◌<◌, ◌≡◌, ◌≢◌, refl, sym, ap, ◌∙◌, inl, inr, Bool, true, false, not, ◌&&◌,
  some, List, [], ◌∷◌, ◌++◌, map, append_assoc, append-nil, ltb, ◌==◌, if◌then◌else◌, length,
  length-append, arith, Bool-cases, lt→ltb, le→ltb, ne→==, ltb→lt, ltb→le,
}
use telnet_serv.Text.{c_str}
use telnet_serv.Args.{Scan, Parse, scanned, overrun, is_separator, scan_char, scan_loop, scan_cmd}
use telnet_serv.Args.Steps.{
  between, shift, behind_nul, behind_shift, step_separator, step_inside, step_start, step_overrun,
}

-- A character as the scan leaves it.
abbrev pub cut_char : ℕ → ℕ
cut_char c = if is_separator c then 0 else c

-- The offsets at which parameters start, from offset `i` on; `behind` says that a NUL stands before.
unfoldable pub starts : Bool → ℕ → List ℕ → List ℕ
starts behind i [] = []
starts behind i (c ∷ cs) =
    let rest = starts (cut_char c == 0) (i + 1) cs in
    if behind && not (is_separator c) then i ∷ rest else rest

abbrev pub NoQuotes : List ℕ → Type 0
NoQuotes [] = Unit {0}
NoQuotes (c ∷ cs) = ((c ≢ 39) × (c ≢ 34)) × NoQuotes cs

abbrev pub outcome : List ℕ → List ℕ → List ℕ → List ℕ → Parse
outcome pre cs tail ps =
    if ltb 10 (length ps) then overrun else scanned (between (pre ++ map cut_char cs) tail ps)

outcome_shift :
    (pre cs tail ps : List ℕ) (c x : ℕ)
    → cut_char c ≡ x
    → outcome (pre ++ x ∷ []) cs tail ps ≡ outcome pre (c ∷ cs) tail ps
outcome_shift pre cs tail ps c x e = rw (e, ← shift pre (map cut_char cs) x)

and_false : (b : Bool) → (b && false) ≡ false
and_false true = refl
and_false false = refl

starts-separator :
    (b : Bool) (i c : ℕ) (cs : List ℕ)
    → is_separator c ≡ true
    → starts b i (c ∷ cs) ≡ starts true (i + 1) cs
unfolding starts
starts-separator b i c cs sep = rw (starts, sep, and_false b)

starts-inside :
    (b : Bool) (i c : ℕ) (cs : List ℕ)
    → b ≡ false
    → is_separator c ≡ false
    → starts b i (c ∷ cs) ≡ starts (c == 0) (i + 1) cs
unfolding starts
starts-inside b i c cs e sep = rw (starts, sep, e)

starts-word :
    (b : Bool) (i c : ℕ) (cs : List ℕ)
    → b ≡ true
    → is_separator c ≡ false
    → starts b i (c ∷ cs) ≡ i ∷ starts (c == 0) (i + 1) cs
unfolding starts
starts-word b i c cs e sep = rw (starts, sep, e)

-- An eleventh parameter.
word_over :
    (ps cs : List ℕ) (b : Bool) (i c : ℕ)
    → ltb (length ps) 10 ≡ false
    → b ≡ true
    → is_separator c ≡ false
    → 10 < length (ps ++ starts b i (c ∷ cs))
word_over ps cs b i c full e sep = omega (
  arith,
  length-append ps (starts b i (c ∷ cs)),
  ap length (starts-word b i c cs e sep),
  ltb→le _ _ full,
)

outcome_over : (pre cs tail ps : List ℕ) → 10 < length ps → overrun ≡ outcome pre cs tail ps
outcome_over pre cs tail ps h = rw (lt→ltb 10 (length ps) h)

-- The outcome behind one more character, with the parameters found from there on.
outcome_join :
    (pre cs tail : List ℕ) (c x : ℕ) (ps qs : List ℕ)
    → cut_char c ≡ x
    → ps ≡ qs
    → some (outcome (pre ++ x ∷ []) cs tail ps) ≡ some (outcome pre (c ∷ cs) tail qs)
outcome_join pre cs tail c x ps qs e h =
    ap some (outcome_shift pre cs tail ps c x e ∙ ap (outcome pre (c ∷ cs) tail) h)

module _ (n : ℕ) (tail : List ℕ) (small : n ≤ 255) where
  -- One step of the loop, and the rest.
  loop_step :
      (fuel : ℕ) (s t : Scan)
      → s.count < n
      → scan_char s ≡ scanned t
      → scan_loop (suc fuel) n s ≡ scan_loop fuel n t
  unfolding scan_loop
  loop_step fuel s t h e = rw (scan_loop, lt→ltb s.count n h, e)

  loop_overrun :
      (fuel : ℕ) (s : Scan)
      → s.count < n
      → scan_char s ≡ overrun
      → scan_loop (suc fuel) n s ≡ some overrun
  unfolding scan_loop
  loop_overrun fuel s h e = rw (scan_loop, lt→ltb s.count n h, e)

  scan_rest :
      (cs pre ps : List ℕ) (b : Bool) (fuel : ℕ)
      → NoQuotes cs
      → length cs < fuel
      → n ≡ length pre + length cs
      → length ps ≤ 10
      → behind_nul (between pre (cs ++ tail) ps) ≡ b
      → scan_loop fuel n (between pre (cs ++ tail) ps)
        ≡ some (outcome pre cs tail (ps ++ starts b (length pre) cs))
  unfolding scan_loop starts
  scan_rest cs pre ps b zero q f e k h = absurd (omega arith)
  scan_rest [] pre ps b (suc fuel) q f e k h = rw (
    scan_loop,
    le→ltb (length pre) n (omega arith),
    append-nil ps,
    append-nil pre,
    le→ltb 10 (length ps) k,
  )
  scan_rest (c ∷ cs) pre ps b (suc fuel) q f e k h = elim (Bool-cases (is_separator c)) [
    | inl sep ↦
        let size : length (pre ++ 0 ∷ []) ≡ length pre + 1 = length-append pre (0 ∷ []) in
        loop_step fuel _ _ (omega arith)
          (step_separator pre (cs ++ tail) ps c (omega arith) q.0 sep)
        ∙ scan_rest cs (pre ++ 0 ∷ []) ps true fuel q.1 (omega arith) (omega arith) k
            (behind_shift pre (cs ++ tail) ps 0)
        ∙ outcome_join pre cs tail c 0 _ _ (rw sep) (
            ap (◌++◌ ps)
              (ap (λ i. starts true i cs) size ∙ sym (starts-separator b (length pre) c cs sep)))
    | inr sep ↦
        let size : length (pre ++ c ∷ []) ≡ length pre + 1 = length-append pre (c ∷ []) in
        elim (Bool-cases b) [
          | inr inside ↦
              loop_step fuel _ _ (omega arith)
                (step_inside pre (cs ++ tail) ps c (omega arith) q.0 sep (h ∙ inside))
              ∙ scan_rest cs (pre ++ c ∷ []) ps (c == 0) fuel q.1 (omega arith) (omega arith) k
                  (behind_shift pre (cs ++ tail) ps c)
              ∙ outcome_join pre cs tail c c _ _ (rw sep) (
                  ap (◌++◌ ps) (
                    ap (λ i. starts (c == 0) i cs) size
                    ∙ sym (starts-inside b (length pre) c cs inside sep)))
          | inl start ↦ elim (Bool-cases (ltb (length ps) 10)) [
            | inl room ↦
                loop_step fuel _ _ (omega arith) (
                  step_start pre (cs ++ tail) ps c (omega arith) (ltb→lt _ _ room) q.0 sep
                    (h ∙ start))
                ∙ scan_rest cs (pre ++ c ∷ []) (ps ++ length pre ∷ []) (c == 0) fuel q.1
                    (omega arith) (omega arith)
                    (omega (arith, ltb→lt _ _ room, length-append ps (length pre ∷ [])))
                    (behind_shift pre (cs ++ tail) (ps ++ length pre ∷ []) c)
                ∙ outcome_join pre cs tail c c _ _ (rw sep) (
                    append_assoc ps (length pre ∷ []) _
                    ∙ ap (◌++◌ ps) (
                        ap (λ i. length pre ∷ starts (c == 0) i cs) size
                        ∙ sym (starts-word b (length pre) c cs start sep)))
            | inr full ↦
                loop_overrun fuel _ (omega arith)
                  (step_overrun pre (cs ++ tail) ps c (ltb→le _ _ full) q.0 sep (h ∙ start))
                ∙ ap some (
                    outcome_over pre (c ∷ cs) tail _
                      (word_over ps cs b (length pre) c full start sep))
          ]
        ]
  ]

-- Characters of a command without quotes.
abbrev pub Unquoted : List ℕ → Type 0
Unquoted [] = Unit {0}
Unquoted (c ∷ cs) = ((c ≢ 39) × (c ≢ 34) × (c ≢ 0)) × Unquoted cs

Unquoted-NoQuotes : (cs : List ℕ) → Unquoted cs → NoQuotes (cs ++ 0 ∷ [])
Unquoted-NoQuotes [] h = ((omega arith, omega arith), tt)
Unquoted-NoQuotes (c ∷ cs) h = ((h.0.0, h.0.1), Unquoted-NoQuotes cs h.1)

Unquoted-c_str : (cs tail : List ℕ) → Unquoted cs → c_str (cs ++ 0 ∷ tail) ≡ cs
unfolding c_str
Unquoted-c_str [] tail h = refl
Unquoted-c_str (c ∷ cs) tail h = rw (ne→== c 0 h.0.2) (ap (◌∷◌ c) (Unquoted-c_str cs tail h.1))

-- RunCmd's scan of a command of at most 254 characters without quotes, with fuel above its length
-- and the NUL: it ends. Every separator has become NUL, and the parameters start at exactly the
-- characters that are no separators and stand behind one, the NUL at the end of the command being
-- such a character too; with more than ten of them it writes behind atRawPara.
pub scan_words :
    (cs tail : List ℕ) (fuel : ℕ)
    → Unquoted cs
    → length cs ≤ 254
    → length cs + 1 < fuel
    → scan_cmd fuel (cs ++ 0 ∷ tail)
      ≡ some (outcome [] (cs ++ 0 ∷ []) tail (starts false 0 (cs ++ 0 ∷ [])))
unfolding scan_cmd
scan_words cs tail fuel q h f =
    let size : length (c_str (cs ++ 0 ∷ tail)) + 1 ≡ length (cs ++ 0 ∷ []) =
      omega (arith, ap length (Unquoted-c_str cs tail q), length-append cs (0 ∷ [])) in
    rw (size, ← append_assoc cs (0 ∷ []) tail)
      (scan_rest (length (cs ++ 0 ∷ [])) tail (omega (arith, length-append cs (0 ∷ [])))
        (cs ++ 0 ∷ []) [] [] false fuel (Unquoted-NoQuotes cs q)
        (omega (arith, length-append cs (0 ∷ []))) (omega arith) (omega arith) refl)
