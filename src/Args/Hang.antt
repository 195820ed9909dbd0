-- ===== src/Args/Hang.antt =====
-- A command of 255 characters: the counter of the scan wraps to 0 before it reaches the length, and
-- the scan never ends.
use telnet_serv.Prelude.{
  ℕ, zero, suc, ◌+◌, ◌-◌, ◌<◌, ◌≡◌, ◌≢◌, refl, false, none, List, [], ◌∷◌, ltb, length, get_or,
  arith, Bool-cases, inl, inr, lt→ltb, ltb→lt, ltb→le, ne→==, sym, subst, ◌++◌, ap, ◌⊎◌,
}
use telnet_serv.Text.{c_str}
use telnet_serv.Args.{
  Scan, scanned, is_separator, bump, on_other, scan_char, scan_loop, scan_cmd, scan_start,
}

-- A character that no case of the switch but the default takes, and that is not NUL.
pub record IsPlain (c : ℕ) : Type 0 where
  pub not_quotes : (c ≢ 39) × (c ≢ 34)
  pub not_separator : is_separator c ≡ false
  pub not_nul : c ≢ 0

abbrev pub AllPlain : List ℕ → Type 0
AllPlain [] = Unit {0}
AllPlain (c ∷ cs) = IsPlain c × AllPlain cs

Plain-get_or :
    (cs tail : List ℕ) (i : ℕ) → AllPlain cs → i < length cs → IsPlain (get_or (cs ++ tail) i 0)
Plain-get_or [] tail i p h = absurd (omega arith)
Plain-get_or (c ∷ cs) tail zero p h = p.0
Plain-get_or (c ∷ cs) tail (suc i) p h = Plain-get_or cs tail i p.1 (omega arith)

get_or_end : (cs tail : List ℕ) → get_or (cs ++ 0 ∷ tail) (length cs) 0 ≡ 0
get_or_end [] tail = refl
get_or_end (c ∷ cs) tail = get_or_end cs tail

c_str_plain : (cs tail : List ℕ) → AllPlain cs → c_str (cs ++ 0 ∷ tail) ≡ cs
unfolding c_str
c_str_plain [] tail p = refl
c_str_plain (c ∷ cs) tail p = rw (ne→== c 0 p.0.not_nul) (ap (◌∷◌ c) (c_str_plain cs tail p.1))

-- A character that is not special, behind one that is not NUL, changes nothing but the counter.
step_plain :
    (s : Scan)
    → (get_or s.cmd s.count 0 ≡ 0) ⊎ IsPlain (get_or s.cmd s.count 0)
    → (0 < s.count → get_or s.cmd (s.count - 1) 0 ≢ 0)
    → scan_char s ≡ scanned (bump s)
unfolding scan_char on_other
step_plain s (inl z) prev = ground (arith, prev)
step_plain s (inr p) prev = ground (arith, prev)

module _ (cs tail : List ℕ) (plain : AllPlain cs) (long : length cs ≡ 255) where
  here-IsPlain :
      (i : ℕ) → i < 256 → (get_or (cs ++ 0 ∷ tail) i 0 ≡ 0) ⊎ IsPlain (get_or (cs ++ 0 ∷ tail) i 0)
  here-IsPlain i h = elim (Bool-cases (ltb i 255)) [
    | inl e ↦ inr (Plain-get_or cs (0 ∷ tail) i plain (omega (arith, ltb→lt i 255 e)))
    | inr e ↦
        let last : i ≡ length cs = omega (arith, ltb→le i 255 e) in
        inl (rw last (get_or_end cs tail))
  ]

  loop_none :
      (fuel : ℕ) (s : Scan) → s.cmd ≡ cs ++ 0 ∷ tail → s.count < 256 → scan_loop fuel 256 s ≡ none
  unfolding scan_loop
  loop_none zero s e h = refl
  loop_none (suc fuel) s e h =
      let step =
        step_plain s
          (subst (λ l. (get_or l s.count 0 ≡ 0) ⊎ IsPlain (get_or l s.count 0)) (sym e)
            (here-IsPlain s.count h))
          (λ pos.
            subst (λ l. get_or l (s.count - 1) 0 ≢ 0) (sym e)
              ((Plain-get_or cs (0 ∷ tail) (s.count - 1) plain (omega (arith, long))).not_nul)) in
      rw (lt→ltb s.count 256 h, scan_loop, step) (loop_none fuel (bump s) e (omega arith))

  -- RunCmd on a command line of exactly 255 plain characters: whatever the fuel, the scanning loop
  -- has not ended when it is used up.
  pub scan_hangs : (fuel : ℕ) → scan_cmd fuel (cs ++ 0 ∷ tail) ≡ none
  unfolding scan_cmd
  scan_hangs fuel =
      let size : length (c_str (cs ++ 0 ∷ tail)) + 1 ≡ 256 =
        omega (arith, ap length (c_str_plain cs tail plain)) in
      rw size (loop_none fuel (scan_start (cs ++ 0 ∷ tail)) refl (omega arith))
