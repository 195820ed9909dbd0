-- ===== src/Daemon/Trim.antt =====
-- CmdParse's copy of a line that begins with a letter or digit.
use telnet_serv.Prelude.{
  ℕ, zero, suc, ◌+◌, ◌-◌, ◌≤◌, ◌≡◌, refl, ap, ◌∙◌, true, List, [], ◌∷◌, ◌++◌, length, take, drop,
  replicate, take-append, lt→ltb, arith, append_assoc,
}
use telnet_serv.FixedBuffer.{memcpy}
use telnet_serv.Text.{is_alnum}
use telnet_serv.Command.{max_command_length, leading, trimmed}
use telnet_serv.Daemon.Line.{set_end}

-- A line with a letter or digit before everything else.
abbrev pub BeginsAlnum : List ℕ → Type 0
BeginsAlnum [] = ⊥
BeginsAlnum (c ∷ cs) = is_alnum c ≡ true

drop-replicate : (n m c : ℕ) → n ≤ m → drop n (replicate m c) ≡ replicate (m - n) c
drop-replicate zero m c h = let all : m - 0 ≡ m = omega arith in rw all refl
drop-replicate (suc n) zero c h = absurd (omega arith)
drop-replicate (suc n) (suc m) c h =
    let less : suc m - suc n ≡ m - n = omega arith in rw less (drop-replicate n m c (omega arith))

leading-BeginsAlnum : (line : List ℕ) → BeginsAlnum line → leading line ≡ 0
unfolding leading
leading-BeginsAlnum [] h = absurd h
leading-BeginsAlnum (c ∷ cs) h = rw h refl

-- The copy is the line with a NUL behind it.
pub trimmed_held :
    (line rest : List ℕ)
    → BeginsAlnum line
    → length line ≤ 255
    → trimmed (line ++ rest) (length line)
      ≡ line ++ 0 ∷ replicate (max_command_length - 1 - length line) 0
unfolding trimmed memcpy
trimmed_held line rest h short =
    let none_before : leading (take (length line) (line ++ rest)) ≡ 0 =
      ap leading (take-append line rest) ∙ leading-BeginsAlnum line h in
    let n : length line - 0 ≡ length line = omega arith in
    let room : max_command_length - length line ≡ suc (max_command_length - 1 - length line) =
      omega arith in
    let start : 0 + length line ≡ length line = omega arith in
    rw (
      none_before,
      n,
      take-append line rest,
      start,
      drop-replicate (length line) max_command_length 0 (omega arith),
      room,
      lt→ltb (length line) max_command_length (omega arith),
      set_end line (max_command_length - 1 - length line) 0,
      append_assoc line (0 ∷ []) (replicate (max_command_length - 1 - length line) 0),
    )

-- What CmdParse leaves out of such a line is nothing.
pub leading_held :
    (line rest : List ℕ) → BeginsAlnum line → leading (take (length line) (line ++ rest)) ≡ 0
leading_held line rest h = ap leading (take-append line rest) ∙ leading-BeginsAlnum line h
