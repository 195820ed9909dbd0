-- ===== src/Args/RoundTrip.antt =====
-- RunCmd reads back the command lines that are written from arguments.
use telnet_serv.Prelude.{
  ℕ, ◌+◌, ◌-◌, ◌≤◌, ◌<◌, ◌≡◌, refl, ap, ◌∙◌, Bool, true, false, zero, suc, some, List, [], ◌∷◌,
  ◌++◌, append_assoc, map-append, length, replicate, map, arith,
}
use telnet_serv.Text.{c_str, c_str_free}
use telnet_serv.Args.{no_para, Scan, scanned, scan_cmd, para_value, para_values}
use telnet_serv.Args.Modes.{mid}
use telnet_serv.Args.Items.{Item, AllBare, is_quoted, cut_arg}
use telnet_serv.Args.Line.{cut_all, entries, AreItems}
use telnet_serv.Args.Written.{line_of, AllBare-IsFree, scan_line}
use telnet_serv.Args.Values.{HaveValues, values, TextsAt, behind_arg, values_lem}

length-entries :
    (base : ℕ) (items : List Item) (b : Bool) (i : ℕ)
    → length (entries b i items) ≡ length (values base b i items)
length-entries base [] true i = refl
length-entries base [] false i = refl
length-entries base (item ∷ items) b i = ap suc (
    length-entries base items (is_quoted item.arg)
      (i + length item.gap + length (cut_arg item.arg)))

map-none :
    (base : ℕ) (cmd : List ℕ) (k : ℕ)
    → map (para_value base cmd) (replicate k no_para) ≡ replicate k 0
unfolding para_value
map-none base cmd zero = refl
map-none base cmd (suc k) = ap (◌∷◌ 0) (map-none base cmd k)

-- RunCmd's scan of a line that is written from a name, which holds no separator, quote or NUL, and
-- from arguments, each behind at least one separator that is no quote: numbers below 2 ^ 31; bare
-- words, which begin with a letter and hold no separator, no quote of either kind and no NUL; texts
-- in double quotes, which are not empty, hold no quote of either kind and no NUL, and do not begin
-- with a separator; and characters in single quotes, each below 128 and no separator, quote or NUL;
-- the line has at most 254 characters and ten values, and the fuel is above its length by more than
-- one. The scan ends outside of quotes; the command then reads as the name; the ten parameters are
-- the values in order, and zeros behind them, where a number and a character stand for themselves,
-- a text for its address, and a bare word for its address cut to an int, and a quote at the end of
-- the line makes one value more; and at the address of each text stands that text as a C string.
pub scan_items :
    (base : ℕ) (name : List ℕ) (items : List Item) (tail : List ℕ) (fuel : ℕ)
    → AllBare name
    → AreItems items
    → HaveValues items
    → length (line_of name items) ≤ 254
    → length (line_of name items) + 1 < fuel
    → let vs = values base false (length name) items in
      length vs ≤ 10
      → (s : Scan) × (scan_cmd fuel (line_of name items ++ 0 ∷ tail) ≡ some (scanned s))
        × (s.str_start ≡ false)
        × (s.char_start ≡ false)
        × (c_str s.cmd ≡ name)
        × (para_values base s ≡ vs ++ replicate (10 - length vs) 0)
        × TextsAt base s.cmd (length name) items
unfolding para_values
scan_items base name items tail fuel bare are have fits enough room =
    let same = length-entries base items false (length name) in
    let (k, e) = scan_line name items tail fuel bare are fits (omega arith) enough in
    let cmd : List ℕ = (name ++ (cut_all items ++ 0 ∷ [])) ++ tail in
    let whole : cmd ≡ name ++ (cut_all items ++ 0 ∷ tail) =
      append_assoc name (cut_all items ++ 0 ∷ []) tail
      ∙ ap (λ (xs : List ℕ). name ++ xs) (append_assoc (cut_all items) (0 ∷ []) tail) in
    let (vs, texts) = values_lem base items cmd name tail false (length name) are have whole refl in
    let (rest, nul) = behind_arg base items tail are in
    let read : c_str cmd ≡ name =
      ap c_str (whole ∙ ap (λ (xs : List ℕ). name ++ xs) nul)
      ∙ c_str_free name rest (AllBare-IsFree name bare) in
    (
      mid (name ++ (cut_all items ++ 0 ∷ [])) tail k false false
          (entries false (length name) items),
      e,
      refl,
      refl,
      read,
      map-append (para_value base cmd) (entries false (length name) items) _
          ∙ rw (vs, same)
              (ap (λ (xs : List ℕ). values base false (length name) items ++ xs)
                (map-none base cmd _)),
      texts,
    )
