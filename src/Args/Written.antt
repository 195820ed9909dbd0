-- ===== src/Args/Written.antt =====
-- A written line holds no NUL, and the scan reads all of it.
use telnet_serv.Prelude.{
  ℕ, zero, suc, ◌+◌, ◌≤◌, ◌<◌, ◌≡◌, ◌≢◌, refl, ap, ◌∙◌, true, false, some, List, [], ◌∷◌, ◌++◌,
  append_assoc, length, length-append, length-replicate, arith, le→ltb,
}
use telnet_serv.Text.{c_str, IsFree, IsFree-append, c_str_free}
use telnet_serv.Args.{Scan, scanned, is_separator, scan_loop, scan_cmd}
use telnet_serv.Args.Modes.{mid, Runs-trans, loop-Runs}
use telnet_serv.Args.Items.{
  Arg, num, word, text, chr, Item, spell, cut_arg, AllBare, AllInner, IsGap, IsWord, IsText, IsArg,
  zeros, digits, digits-IsWord, run_bare,
}
use telnet_serv.Args.Line.{spell_all, cut_all, entries, AreItems, length-spell, run_items}

pub AllBare-IsFree : (cs : List ℕ) → AllBare cs → IsFree 0 cs
AllBare-IsFree [] h = tt
AllBare-IsFree (c ∷ cs) h = (h.0.1, AllBare-IsFree cs h.1)

AllInner-IsFree : (cs : List ℕ) → AllInner cs → IsFree 0 cs
AllInner-IsFree [] h = tt
AllInner-IsFree (c ∷ cs) h = (h.0.1, AllInner-IsFree cs h.1)

pub IsWord-IsFree : (w : List ℕ) → IsWord w → IsFree 0 w
IsWord-IsFree [] h = absurd h
IsWord-IsFree (c ∷ cs) h = (h.0.1, AllBare-IsFree cs h.1)

pub IsText-IsFree : (t : List ℕ) → IsText t → IsFree 0 t
IsText-IsFree [] h = absurd h
IsText-IsFree (c ∷ cs) h = (h.0.1, AllInner-IsFree cs h.1)

IsGap-IsFree : (cs : List ℕ) → IsGap cs → IsFree 0 cs
IsGap-IsFree [] h = tt
IsGap-IsFree (c ∷ cs) h = (not_nul c h.0.1, IsGap-IsFree cs h.1)
  where
    not_nul : (c : ℕ) → is_separator c ≡ true → c ≢ 0
    not_nul c sep e = cc (ap is_separator e, sep)

spell-IsFree : (a : Arg) → IsArg a → IsFree 0 (spell a)
spell-IsFree (num n) h = IsWord-IsFree (digits n) (digits-IsWord n)
spell-IsFree (word w) h = IsWord-IsFree w h
spell-IsFree (text t) h =
    (omega arith, IsFree-append 0 t (34 ∷ []) (IsText-IsFree t h) (omega arith))
spell-IsFree (chr c) h = (omega arith, (h.1, (omega arith, tt)))

spell_all-IsFree : (items : List Item) → AreItems items → IsFree 0 (spell_all items)
spell_all-IsFree [] h = tt
spell_all-IsFree (item ∷ items) h =
    IsFree-append 0 item.gap (spell item.arg ++ spell_all items) (IsGap-IsFree item.gap h.0.0.0) (
      IsFree-append 0 (spell item.arg) (spell_all items) (spell-IsFree item.arg h.0.1)
        (spell_all-IsFree items h.1))

-- The line as it is written.
abbrev pub line_of : List ℕ → List Item → List ℕ
line_of name items = name ++ spell_all items

pub line_of-IsFree :
    (name : List ℕ) (items : List Item)
    → AllBare name
    → AreItems items
    → IsFree 0 (line_of name items)
line_of-IsFree name items bare are =
    IsFree-append 0 name (spell_all items) (AllBare-IsFree name bare) (spell_all-IsFree items are)

length-cut_all : (items : List Item) → length (cut_all items) ≡ length (spell_all items)
length-cut_all [] = refl
length-cut_all (item ∷ items) = omega (
  arith,
  length-append (zeros item.gap) (cut_arg item.arg ++ cut_all items),
  length-append (cut_arg item.arg) (cut_all items),
  length-append item.gap (spell item.arg ++ spell_all items),
  length-append (spell item.arg) (spell_all items),
  length-spell item.arg,
  length-cut_all items,
  length-replicate {A = ℕ} (length item.gap) 0,
)

loop_done : (fuel n : ℕ) (s : Scan) → 0 < fuel → n ≤ s.count → scan_loop fuel n s ≡ some (scanned s)
unfolding scan_loop
loop_done zero n s pos le = absurd (omega arith)
loop_done (suc fuel) n s pos le = rw (scan_loop, le→ltb s.count n le)

-- The scan of a written line ends outside of quotes, with the command cut up and the parameters
-- listed.
pub scan_line :
    (name : List ℕ) (items : List Item) (tail : List ℕ) (fuel : ℕ)
    → AllBare name
    → AreItems items
    → length (line_of name items) ≤ 254
    → length (entries false (length name) items) ≤ 10
    → length (line_of name items) + 1 < fuel
    → (k : ℕ) × (scan_cmd fuel (line_of name items ++ 0 ∷ tail)
        ≡ some (
            scanned (
              mid
                (name ++ (cut_all items ++ 0 ∷ []))
                tail
                k
                false
                false
                (entries false (length name) items))))
unfolding scan_cmd
scan_line name items tail fuel bare are fits room enough =
    let line = line_of name items in
    let n = length line + 1 in
    let read : c_str (line ++ 0 ∷ tail) ≡ line =
      c_str_free line tail (line_of-IsFree name items bare are) in
    let later : List ℕ = spell_all items ++ 0 ∷ tail in
    let widths : length line ≡ length name + length (spell_all items) =
      length-append name (spell_all items) in
    let (r, b) = run_bare n (omega arith) name [] later 0 [] bare (omega arith) refl in
    let (k, r2) =
      run_items n (omega arith) items name tail 0 false [] are (omega arith) b (omega arith) in
    let start : line ++ 0 ∷ tail ≡ name ++ later = append_assoc name (spell_all items) (0 ∷ tail) in
    let (left, some_left, ends, same) =
      loop-Runs (Runs-trans r r2) fuel (omega arith) (omega arith) in
    let size : length (name ++ (cut_all items ++ 0 ∷ [])) ≡ n = omega (
      arith,
      length-append name (cut_all items ++ 0 ∷ []),
      length-append (cut_all items) (0 ∷ []),
      length-cut_all items,
    ) in
    let done =
      loop_done left n
        (mid (name ++ (cut_all items ++ 0 ∷ [])) tail k false false
          (entries false (length name) items))
        (omega arith) (omega arith) in
    (k, rw (read, start) (same ∙ done))
