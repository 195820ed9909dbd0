-- ===== src/Args/Values.antt =====
-- The values that the parameters of a written command line have.
use telnet_serv.Prelude.{
  ℕ, zero, suc, ◌+◌, ◌-◌, ◌*◌, ◌/◌, ◌%◌, ◌^◌, ◌≤◌, ◌<◌, ◌≡◌, refl, sym, ap, ◌∙◌, min, Bool, true,
  false, ◌&&◌, ◌||◌, List, [], ◌∷◌, ◌++◌, append_assoc, length, map, drop, get_or, length-append,
  length-replicate, arith, ne→==, if◌then◌else◌, ltb, leb, ◌==◌, lt→ltb, ltb→lt, Bool-cases, inl,
  inr, drop_of_length, ==→eq, ◌⊎◌,
}
use telnet_serv.Text.{c_str, IsFree, c_str_free}
use telnet_serv.Terminal.{decimal}
use telnet_serv.Args.{digits_value, skip_space, atoi_signed, atoi, from_int, word_parse, para_value}
use telnet_serv.Args.Steps.{get_or_at}
use telnet_serv.Args.Items.{
  Arg, num, word, text, chr, Item, cut_arg, entry, is_quoted, IsWord, IsArg, zeros, digits,
  digits-IsWord,
}
use telnet_serv.Args.Line.{regroup, cut_all, entries, AreItems}
use telnet_serv.Args.Written.{IsWord-IsFree, IsText-IsFree}

-- 10 to the power of the fuel.
abbrev tens : ℕ → ℕ
tens zero = 1
tens (suc fuel) = 10 * tens fuel

digit_step :
    (d : ℕ) (ds : List ℕ) (n : ℕ)
    → d < 10
    → digits_value ((b'0' + d) ∷ ds) n ≡ digits_value ds (n * 10 + d)
unfolding digits_value
digit_step d ds n h =
    let digit : (leb b'0' (b'0' + d) && leb (b'0' + d) b'9') ≡ true = ground arith in
    let back : b'0' + d - b'0' ≡ d = omega arith in rw (digits_value, digit, back)

-- Reading digits behind a value that has been read.
digits_value-decimal :
    (fuel n : ℕ) (ds : List ℕ)
    → n < tens fuel
    → digits_value (decimal fuel n ds) 0 ≡ digits_value ds n
unfolding digits_value decimal
digits_value-decimal zero n ds h = let z : n ≡ 0 = omega arith in rw z
digits_value-decimal (suc fuel) n ds h = elim (Bool-cases (ltb n 10)) [
  | inl e ↦
      let same : 0 * 10 + n % 10 ≡ n = omega (arith, ltb→lt n 10 e) in
      rw (decimal, e) (digit_step (n % 10) ds 0 (omega arith) ∙ ap (digits_value ds) same)
  | inr e ↦
      let less : n / 10 < tens fuel = omega arith in
      let back : n / 10 * 10 + n % 10 ≡ n = omega arith in
      rw (decimal, e)
        (digits_value-decimal fuel (n / 10) ((b'0' + n % 10) ∷ ds) less
          ∙ digit_step (n % 10) ds (n / 10) (omega arith)
          ∙ ap (digits_value ds) back)
]

abbrev BeginsDigit : List ℕ → Type 0
BeginsDigit [] = ⊥
BeginsDigit (c ∷ cs) = (b'0' ≤ c) × (c ≤ b'9')

decimal-BeginsDigit : (fuel n : ℕ) (ds : List ℕ) → BeginsDigit ds → BeginsDigit (decimal fuel n ds)
unfolding decimal
decimal-BeginsDigit zero n ds h = h
decimal-BeginsDigit (suc fuel) n ds h = elim (Bool-cases (ltb n 10)) [
  | inl e ↦ rw (decimal, e) (omega arith, omega arith)
  | inr e ↦
      rw (decimal, e)
        (decimal-BeginsDigit fuel (n / 10) ((b'0' + n % 10) ∷ ds) (omega arith, omega arith))
]

digits-BeginsDigit : (n : ℕ) → BeginsDigit (digits n)
unfolding decimal
digits-BeginsDigit n = elim (Bool-cases (ltb n 10)) [
  | inl e ↦ rw (decimal, e) (omega arith, omega arith)
  | inr e ↦
      rw (decimal, e)
        (decimal-BeginsDigit 9 (n / 10) ((b'0' + n % 10) ∷ []) (omega arith, omega arith))
]

atoi_digit :
    (cs : List ℕ) → BeginsDigit cs → atoi cs ≡ min (digits_value cs 0) (2 ^ 63 - 1) % 2 ^ 32
unfolding atoi atoi_signed skip_space
atoi_digit [] h = absurd h
atoi_digit (c ∷ cs) h =
    let no_space : ((c == b' ') || (leb 9 c && leb c 13)) ≡ false = ground arith in
    rw (skip_space, no_space, ne→== c b'-' (omega arith), ne→== c b'+' (omega arith))

-- atoi reads a printed number back.
pub atoi-digits : (n : ℕ) → n < 2 ^ 31 → atoi (digits n) ≡ n
unfolding digits_value
atoi-digits n h =
    let read : digits_value (digits n) 0 ≡ n =
      digits_value-decimal 10 n [] (omega arith) ∙ digits_value_nil n in
    let small : min n (2 ^ 63 - 1) % 2 ^ 32 ≡ n = omega arith in
    rw (atoi_digit (digits n) (digits-BeginsDigit n), read, small)
  where
    digits_value_nil : (n : ℕ) → digits_value [] n ≡ n
    digits_value_nil n = refl

abbrev pub IsLetter : ℕ → Type 0
IsLetter c = ((b'A' ≤ c) × (c ≤ b'Z')) ⊎ ((b'a' ≤ c) × (c ≤ b'z'))

-- What the values need: a bare word begins with a letter, and a character is in ASCII.
abbrev pub HasValue : Arg → Type 0
HasValue (num n) = Unit {0}
HasValue (word []) = ⊥
HasValue (word (c ∷ cs)) = IsLetter c
HasValue (text t) = Unit {0}
HasValue (chr c) = c < 128

abbrev pub HaveValues : List Item → Type 0
HaveValues [] = Unit {0}
HaveValues (item ∷ items) = HasValue item.arg × HaveValues items

-- The value of an argument at an offset, with the command at `base`: a number and a character stand
-- for themselves, a text for the address of its first character, and a bare word for its address,
-- cut to an int.
abbrev pub value : ℕ → ℕ → Arg → ℕ
value base i (num n) = n
value base i (word w) = from_int ((base + i) % 2 ^ 32)
value base i (text t) = (base + (i + 1)) % 2 ^ 64
value base i (chr c) = c

-- The C string at the address of a text.
abbrev pub IsTextAt : List ℕ → ℕ → Arg → Type 0
IsTextAt cmd i (text t) = c_str (drop (i + 1) cmd) ≡ t
IsTextAt cmd i _ = Unit {0}

string_at :
    (cmd pre w rest : List ℕ) (i : ℕ)
    → cmd ≡ pre ++ (w ++ 0 ∷ rest)
    → length pre ≡ i
    → IsFree 0 w
    → c_str (drop i cmd) ≡ w
string_at cmd pre w rest i e at free =
    rw (e, drop_of_length i pre (w ++ 0 ∷ rest) at) (c_str_free w rest free)

char_at :
    (cmd pre : List ℕ) (c : ℕ) (rest : List ℕ) (i : ℕ)
    → cmd ≡ pre ++ c ∷ rest
    → length pre ≡ i
    → get_or cmd i 0 ≡ c
char_at cmd pre c rest i e at = rw (e, ← at) (get_or_at pre c rest 0)

atoi_letter : (c : ℕ) (cs : List ℕ) → IsLetter c → atoi (c ∷ cs) ≡ 0
unfolding atoi atoi_signed skip_space digits_value
atoi_letter c cs h =
    let no_space : ((c == b' ') || (leb 9 c && leb c 13)) ≡ false = ground arith in
    let no_digit : (leb b'0' c && leb c b'9') ≡ false = ground arith in
    rw (
      skip_space,
      no_space,
      ne→== c b'-' (ground arith),
      ne→== c b'+' (ground arith),
      digits_value,
      no_digit,
    )

module _ (base : ℕ) where
  parse_number :
      (cmd pre rest : List ℕ) (i n : ℕ)
      → n < 2 ^ 31
      → cmd ≡ pre ++ (digits n ++ 0 ∷ rest)
      → length pre ≡ i
      → word_parse base cmd i ≡ n
  unfolding word_parse decimal
  parse_number cmd pre rest i n small e at =
      let read : atoi (c_str (drop i cmd)) ≡ n =
        rw (string_at cmd pre (digits n) rest i e at (IsWord-IsFree (digits n) (digits-IsWord n)))
          (atoi-digits n small) in
      elim (Bool-cases (n == 0)) [
        | inr e' ↦ rw (read, e')
        | inl e' ↦
            let zero_eq : n ≡ 0 = ==→eq n 0 e' in
            let first : get_or cmd i 0 ≡ b'0' =
              char_at cmd pre b'0' (0 ∷ rest) i
                (e ∙ ap (λ (m : ℕ). pre ++ (digits m ++ 0 ∷ rest)) zero_eq) at in
            rw (read, e', first)
      ]

  parse_letter :
      (cmd pre rest : List ℕ) (i c : ℕ) (cs : List ℕ)
      → IsWord (c ∷ cs)
      → IsLetter c
      → cmd ≡ pre ++ ((c ∷ cs) ++ 0 ∷ rest)
      → length pre ≡ i
      → word_parse base cmd i ≡ (base + i) % 2 ^ 32
  unfolding word_parse
  parse_letter cmd pre rest i c cs isw letter e at =
      let read : atoi (c_str (drop i cmd)) ≡ 0 =
        rw (string_at cmd pre (c ∷ cs) rest i e at (IsWord-IsFree (c ∷ cs) isw))
          (atoi_letter c cs letter) in
      let no_zero : (c == b'0') ≡ false = ground arith in
      rw (read, char_at cmd pre c (cs ++ 0 ∷ rest) i e at, no_zero)

  value_lem :
      (a : Arg) (cmd pre rest : List ℕ) (i : ℕ)
      → IsArg a
      → HasValue a
      → cmd ≡ pre ++ (cut_arg a ++ 0 ∷ rest)
      → length pre ≡ i
      → (para_value base cmd (entry i a) ≡ value base i a) × IsTextAt cmd i a
  unfolding para_value
  value_lem (num n) cmd pre rest i isa has e at =
      let read = parse_number cmd pre rest i n isa e at in (rw (read, lt→ltb n (2 ^ 31) isa), tt)
  value_lem (word []) cmd pre rest i isa has e at = absurd isa
  value_lem (word (c ∷ cs)) cmd pre rest i isa has e at =
      (rw (parse_letter cmd pre rest i c cs isa has e at), tt)
  value_lem (text t) cmd pre rest i isa has e at =
      let one : List ℕ = pre ++ 0 ∷ [] in
      let shifted : cmd ≡ one ++ (t ++ 0 ∷ 0 ∷ rest) =
        e
        ∙ rw (append_assoc t (0 ∷ []) (0 ∷ rest), append_assoc pre (0 ∷ []) (t ++ 0 ∷ 0 ∷ rest)) in
      let size : length one ≡ i + 1 = omega (arith, length-append pre (0 ∷ [])) in
      (refl, string_at cmd one t (0 ∷ rest) (i + 1) shifted size (IsText-IsFree t isa))
  value_lem (chr c) cmd pre rest i isa has e at =
      let one : List ℕ = pre ++ 0 ∷ [] in
      let shifted : cmd ≡ one ++ (c ∷ 0 ∷ 0 ∷ rest) =
        e ∙ sym (append_assoc pre (0 ∷ []) (c ∷ 0 ∷ 0 ∷ rest)) in
      let size : length one ≡ i + 1 = omega (arith, length-append pre (0 ∷ [])) in
      (rw (char_at cmd one c (0 ∷ 0 ∷ rest) (i + 1) shifted size, lt→ltb c 128 has), tt)

  -- The values behind the name, from an offset on; a quote at the end of the line makes one more, the
  -- address of an empty word.
  abbrev pub values : Bool → ℕ → List Item → List ℕ
  values behind i [] = if behind then from_int ((base + i) % 2 ^ 32) ∷ [] else []
  values behind i (item ∷ items) =
      value base (i + length item.gap) item.arg
      ∷ values (is_quoted item.arg) (i + length item.gap + length (cut_arg item.arg)) items

  -- At the address of each text stands the text.
  abbrev pub TextsAt : List ℕ → ℕ → List Item → Type 0
  TextsAt cmd i [] = Unit {0}
  TextsAt cmd i (item ∷ items) =
      IsTextAt cmd (i + length item.gap) item.arg
      × TextsAt cmd (i + length item.gap + length (cut_arg item.arg)) items

  -- What stands behind an argument begins with a NUL.
  pub behind_arg :
      (items : List Item) (tail : List ℕ)
      → AreItems items
      → (rest : List ℕ) × (cut_all items ++ 0 ∷ tail ≡ 0 ∷ rest)
  behind_arg [] tail are = (tail, refl)
  behind_arg (item ∷ items) tail are = by_gap item.gap are.0.0.1
    where
      by_gap :
          (gap : List ℕ)
          → 0 < length gap
          → (rest : List ℕ) × ((zeros gap ++ (cut_arg item.arg ++ cut_all items)) ++ 0 ∷ tail
              ≡ 0 ∷ rest)
      by_gap [] pos = absurd (omega arith)
      by_gap (g ∷ gs) pos = ((zeros gs ++ (cut_arg item.arg ++ cut_all items)) ++ 0 ∷ tail, refl)

  empty_word :
      (cmd pre tail : List ℕ) (i : ℕ)
      → cmd ≡ pre ++ 0 ∷ tail
      → length pre ≡ i
      → word_parse base cmd i ≡ (base + i) % 2 ^ 32
  unfolding word_parse atoi atoi_signed skip_space
  empty_word cmd pre tail i e at =
      let read : c_str (drop i cmd) ≡ [] = string_at cmd pre [] tail i e at tt in
      rw (read, char_at cmd pre 0 tail i e at)

  pub values_lem :
      (items : List Item) (cmd pre tail : List ℕ) (b : Bool) (i : ℕ)
      → AreItems items
      → HaveValues items
      → cmd ≡ pre ++ (cut_all items ++ 0 ∷ tail)
      → length pre ≡ i
      → (map (para_value base cmd) (entries b i items) ≡ values b i items) × TextsAt cmd i items
  unfolding para_value
  values_lem [] cmd pre tail false i are have e at = (refl, tt)
  values_lem [] cmd pre tail true i are have e at = (rw (empty_word cmd pre tail i e at), tt)
  values_lem (item ∷ items) cmd pre tail b i are have e at =
      let gap = item.gap in
      let a = item.arg in
      let pre1 : List ℕ = pre ++ zeros gap in
      let pre2 : List ℕ = pre1 ++ cut_arg a in
      let size1 : length pre1 ≡ i + length gap =
        omega (arith, length-append pre (zeros gap), length-replicate {A = ℕ} (length gap) 0) in
      let size2 : length pre2 ≡ i + length gap + length (cut_arg a) =
        omega (arith, length-append pre1 (cut_arg a)) in
      let (rest, nul) = behind_arg items tail are.1 in
      let e2 : cmd ≡ pre2 ++ (cut_all items ++ 0 ∷ tail) =
        e ∙ sym (regroup pre (zeros gap) (cut_arg a) (cut_all items) (0 ∷ tail)) in
      let e1 : cmd ≡ pre1 ++ (cut_arg a ++ 0 ∷ rest) =
        e2
        ∙ append_assoc pre1 (cut_arg a) (cut_all items ++ 0 ∷ tail)
        ∙ ap (λ (xs : List ℕ). pre1 ++ (cut_arg a ++ xs)) nul in
      let (v, t) = value_lem a cmd pre1 rest (i + length gap) are.0.1 have.0 e1 size1 in
      let (vs, ts) =
        values_lem items cmd pre2 tail (is_quoted a) (i + length gap + length (cut_arg a)) are.1
          have.1 e2 size2 in
      (rw (v, vs), (t, ts))
