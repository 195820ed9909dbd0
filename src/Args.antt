-- ===== src/Args.antt =====
-- telnetServ/telnetServ.cc, RunCmd up to the call, and WordParse: a command line is cut in place
-- into the function's name and at most ten parameters.
pub mod Hang
pub mod Steps
pub mod Words
pub mod Modes
pub mod Items
pub mod Line
pub mod Written
pub mod Values
pub mod RoundTrip
mod Tests
use telnet_serv.Prelude.{
  ℕ, zero, suc, ◌+◌, ◌-◌, ◌*◌, ◌%◌, ◌^◌, min, Bool, true, false, not, ◌&&◌, ◌||◌, Option, none,
  some, List, [], ◌∷◌, ltb, leb, ◌==◌, if◌then◌else◌, length, get_or, set, drop, replicate, map,
}
use telnet_serv.Text.{c_str}

-- TRawPara. `para_str` is an offset into the command, or NULL.
pub record RawPara : Type 0 where
  pub para_str : Option ℕ
  pub in_quote : Bool
  pub is_char : Bool

abbrev pub no_para : RawPara
no_para = record { para_str = none; in_quote = false; is_char = false }

-- The local variables of the scanning loop; `count` and `start_cnt` are unsigned char.
pub record Scan : Type 0 where
  pub cmd : List ℕ
  pub count : ℕ
  pub start_cnt : ℕ
  pub str_start : Bool
  pub char_start : Bool
  pub raw_para : List RawPara
  pub para_num : ℕ

-- What scanning comes to: `rejected` is the return with "input error", and `overrun` a write behind
-- the ten elements of atRawPara.
pub data Parse : Type 0 where
  scanned : Scan → Parse
  rejected overrun : Parse

abbrev pub is_separator : ℕ → Bool
is_separator c =
    (c == b',') || ((c == b' ') || ((c == 9) || ((c == 10) || ((c == b'(') || (c == b')')))))

-- count++, in an unsigned char.
abbrev pub bump : Scan → Scan
bump s = record s { count = (s.count + 1) % 256 }

-- szCmd[count] = '\0'
abbrev pub cut : Scan → Scan
cut s = record s { cmd = set s.cmd s.count 0 }

-- case '\''
unfoldable pub on_quote : Scan → Parse
on_quote s =
    if not s.char_start
    then scanned (bump (record (cut s) { start_cnt = s.count; char_start = true }))
    else if ltb (s.start_cnt + 2) s.count
    then rejected
    else scanned (bump (record (cut s) { char_start = false }))

-- default: a character behind a NUL starts a parameter.
unfoldable pub on_other : Scan → Parse
on_other s =
    if ltb 0 s.count && (get_or s.cmd (s.count - 1) 0 == 0)
    then (if ltb s.para_num 10
        then scanned (
            bump (record s {
              raw_para = set s.raw_para s.para_num (record {
                para_str = some s.count;
                in_quote = s.str_start;
                is_char = s.char_start;
              });
              para_num = s.para_num + 1;
            }))
        else overrun)
    else scanned (bump s)

-- The body of the loop: the switch on szCmd[count], and count++.
unfoldable pub scan_char : Scan → Parse
unfolding on_quote on_other
scan_char s =
    let c = get_or s.cmd s.count 0 in
    if c == 39
    then on_quote s
    else if c == 34
    then scanned (bump (record (cut s) { str_start = not s.str_start }))
    else if is_separator c
    then scanned (bump (if s.str_start then s else cut s))
    else on_other s

-- while (count < cmdLen); `none` says that the fuel ran out.
unfoldable pub scan_loop : ℕ → ℕ → Scan → Option Parse
scan_loop zero cmd_len s = none
scan_loop (suc fuel) cmd_len s = elim (ltb s.count cmd_len) [
  | false ↦ some (scanned s)
  | true ↦ elim (scan_char s) [
    | scanned t ↦ scan_loop fuel cmd_len t
    | rejected ↦ some rejected
    | overrun ↦ some overrun
  ]
]

abbrev pub scan_start : List ℕ → Scan
scan_start cmd = record {
  cmd = cmd;
  count = 0;
  start_cnt = 0;
  str_start = false;
  char_start = false;
  raw_para = replicate 10 no_para;
  para_num = 0;
}

-- The scan of a whole command; cmdLen is strlen(szCmd) + 1.
unfoldable pub scan_cmd : ℕ → List ℕ → Option Parse
scan_cmd fuel cmd = scan_loop fuel (length (c_str cmd) + 1) (scan_start cmd)

-- The digits that a string begins with, read in base ten.
unfoldable pub digits_value : List ℕ → ℕ → ℕ
digits_value [] acc = acc
digits_value (c ∷ cs) acc =
    let rest = digits_value cs (acc * 10 + (c - b'0')) in
    if leb b'0' c && leb c b'9' then rest else acc

-- isspace
unfoldable pub skip_space : List ℕ → List ℕ
skip_space [] = []
skip_space (c ∷ cs) = if (c == b' ') || (leb 9 c && leb c 13) then skip_space cs else c ∷ cs

-- A 32-bit pattern of minus v.
abbrev pub neg32 : ℕ → ℕ
neg32 v = (2 ^ 32 - v % 2 ^ 32) % 2 ^ 32

-- atoi, as the 32-bit pattern of (int)strtol(s, NULL, 10), which stops at the bounds of long.
unfoldable pub atoi_signed : List ℕ → ℕ
unfolding digits_value
atoi_signed [] = 0
atoi_signed (c ∷ cs) =
    if c == b'-'
    then neg32 (min (digits_value cs 0) (2 ^ 63))
    else if c == b'+'
    then min (digits_value cs 0) (2 ^ 63 - 1) % 2 ^ 32
    else min (digits_value (c ∷ cs) 0) (2 ^ 63 - 1) % 2 ^ 32

unfoldable pub atoi : List ℕ → ℕ
unfolding atoi_signed skip_space
atoi s = atoi_signed (skip_space s)

-- An int, and a char, converted to uint64_t.
unfoldable pub from_int : ℕ → ℕ
from_int v = if ltb v (2 ^ 31) then v else v + (2 ^ 64 - 2 ^ 32)

unfoldable pub from_char : ℕ → ℕ
from_char c = if ltb c 128 then c else c + (2 ^ 64 - 256)

-- `base` is the address of szCmd.
module _ (base : ℕ) where
  -- int WordParse(const char* word), of a word at an offset of the command: a number, or else the
  -- word's address cut to an int.
  unfoldable pub word_parse : List ℕ → ℕ → ℕ
  unfolding atoi
  word_parse cmd off =
      let tmp = atoi (c_str (drop off cmd)) in
      if (tmp == 0) && not (get_or cmd off 0 == b'0') then (base + off) % 2 ^ 32 else tmp

  -- One round of the loop that fills para.
  unfoldable pub para_value : List ℕ → RawPara → ℕ
  unfolding word_parse from_int from_char
  para_value cmd p = elim p.para_str [
    | none ↦ 0
    | some off ↦
        if p.in_quote
        then (base + off) % 2 ^ 64
        else if p.is_char
        then from_char (get_or cmd off 0)
        else from_int (word_parse cmd off)
  ]

  -- The ten parameters of the call.
  unfoldable pub para_values : Scan → List ℕ
  unfolding para_value
  para_values s = map (para_value s.cmd) s.raw_para
