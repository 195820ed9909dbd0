-- ===== src/Args/Tests.antt =====
-- RunCmd's scan: runs, and an instance of the theorem.
use telnet_serv.Prelude.{
  ℕ, zero, suc, ◌≡◌, ◌≢◌, refl, false, Option, none, some, List, [], ◌∷◌, ◌++◌, replicate,
  length-replicate, arith, ◌≤◌, ◌<◌, length,
}
use telnet_serv.Text.{c_str}
use telnet_serv.Args.{Parse, scanned, overrun, scan_char, scan_loop, scan_cmd, para_values}
use telnet_serv.Args.Hang.{AllPlain, scan_hangs}
use telnet_serv.Args.{Scan}
use telnet_serv.Terminal.{decimal}
use telnet_serv.Args.Items.{Item, num, text, chr, IsBare, IsInner, IsGap}
use telnet_serv.Args.Line.{AreItems}
use telnet_serv.Args.Written.{line_of}
use telnet_serv.Args.Values.{values, TextsAt}
use telnet_serv.Args.RoundTrip.{scan_items}
use telnet_serv.Args.Words.{starts, outcome, Unquoted, scan_words}

-- What a scan leaves: the command cut up, and the parameters with the command at address 1000.
result : Option Parse → Option (List ℕ × List ℕ)
unfolding para_values
result (some (scanned s)) = some (s.cmd, para_values 1000 s)
result _ = none

-- tt 12,'x' in the buffer: the NUL behind the closing quote counts as a third parameter, the
-- address of an empty word.
call_tt : List ℕ
call_tt = b't' ∷ b't' ∷ b' ' ∷ b'1' ∷ b'2' ∷ b',' ∷ 39 ∷ b'x' ∷ 39 ∷ 0 ∷ 0 ∷ []

tt_scanned :
    result (scan_cmd 20 call_tt)
    ≡ some (
      b't' ∷ b't' ∷ 0 ∷ b'1' ∷ b'2' ∷ 0 ∷ 0 ∷ b'x' ∷ 0 ∷ 0 ∷ 0 ∷ [],
      12 ∷ b'x' ∷ 1009 ∷ replicate 7 0,
    )
unfolding result call_tt scan_cmd scan_loop scan_char c_str
tt_scanned = refl

-- Eleven parameters: f 1 2 3 4 5 6 7 8 9 0 1
words : ℕ → List ℕ
words zero = 0 ∷ []
words (suc n) = b' ' ∷ b'1' ∷ words n

eleven : scan_cmd 40 (b'f' ∷ words 11) ≡ some overrun
unfolding words scan_cmd scan_loop scan_char c_str
eleven = refl

all_plain : (n : ℕ) → AllPlain (replicate n b'a')
all_plain zero = tt
all_plain (suc n) =
    (record { not_quotes = omega arith; not_separator = refl; not_nul = omega arith }, all_plain n)

scan_hangs_example : scan_cmd 1000 (replicate 255 b'a' ++ 0 ∷ []) ≡ none
scan_hangs_example =
    scan_hangs (replicate 255 b'a') [] (all_plain 255) (length-replicate {A = ℕ} 255 b'a') 1000

-- f 1, with a blank behind it: the parameters are at 2 and, empty, at 4.
abbrev trailing : List ℕ
trailing = b'f' ∷ b' ' ∷ b'1' ∷ b' ' ∷ []

empty_parameter : starts false 0 (trailing ++ 0 ∷ []) ≡ 2 ∷ 4 ∷ []
unfolding starts
empty_parameter = refl

trailing-Unquoted : Unquoted trailing
trailing-Unquoted =
    let f : (b'f' ≢ 39) × (b'f' ≢ 34) × (b'f' ≢ 0) = (omega arith, omega arith, omega arith) in
    let one : (b'1' ≢ 39) × (b'1' ≢ 34) × (b'1' ≢ 0) = (omega arith, omega arith, omega arith) in
    let blank : (b' ' ≢ 39) × (b' ' ≢ 34) × (b' ' ≢ 0) = (omega arith, omega arith, omega arith) in
    (f, (blank, (one, (blank, tt))))

scan_words_example :
    scan_cmd 20 (trailing ++ 0 ∷ [])
    ≡ some (outcome [] (trailing ++ 0 ∷ []) [] (starts false 0 (trailing ++ 0 ∷ [])))
scan_words_example = scan_words trailing [] 20 trailing-Unquoted (omega arith) (omega arith)

-- tt 12 "a b" 'x' 5
abbrev mixed : List Item
mixed =
    record { gap = b' ' ∷ []; arg = num 12 }
    ∷ record { gap = b' ' ∷ []; arg = text (b'a' ∷ b' ' ∷ b'b' ∷ []) }
    ∷ record { gap = b' ' ∷ []; arg = chr b'x' }
    ∷ record { gap = b',' ∷ b' ' ∷ []; arg = num 5 }
    ∷ []

letter : (c : ℕ) → 97 ≤ c → IsBare c
letter c h = ground arith

blank-IsGap : IsGap (b' ' ∷ []) × (0 < length {A = ℕ} (b' ' ∷ []))
blank-IsGap = ((((omega arith, omega arith), refl), tt), omega arith)

comma-IsGap : IsGap (b',' ∷ b' ' ∷ []) × (0 < length {A = ℕ} (b',' ∷ b' ' ∷ []))
comma-IsGap = ((((omega arith, omega arith), refl), blank-IsGap.0), omega arith)

mixed-AreItems : AreItems mixed
mixed-AreItems =
    let inner : IsInner b' ' = ((omega arith, omega arith), omega arith) in
    let later : IsInner b'b' = ((omega arith, omega arith), omega arith) in
    (
      (blank-IsGap, omega arith),
      (
        (blank-IsGap, (letter b'a' (omega arith), (inner, (later, tt)))),
        ((blank-IsGap, letter b'x' (omega arith)), ((comma-IsGap, omega arith), tt)),
      ),
    )

mixed-values : values 1000 false 2 mixed ≡ 12 ∷ 1007 ∷ b'x' ∷ 5 ∷ []
unfolding decimal
mixed-values = refl

scan_items_example :
    (s : Scan) × (scan_cmd 30 (line_of (b't' ∷ b't' ∷ []) mixed ++ 0 ∷ []) ≡ some (scanned s))
    × (s.str_start ≡ false)
    × (s.char_start ≡ false)
    × (c_str s.cmd ≡ b't' ∷ b't' ∷ [])
    × (para_values 1000 s ≡ 12 ∷ 1007 ∷ b'x' ∷ 5 ∷ replicate 6 0)
    × TextsAt 1000 s.cmd 2 mixed
unfolding decimal
scan_items_example =
    scan_items 1000 (b't' ∷ b't' ∷ []) mixed [] 30
      (letter b't' (omega arith), (letter b't' (omega arith), tt)) mixed-AreItems (omega arith)
      (omega arith) (omega arith) (omega arith)
