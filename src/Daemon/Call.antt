-- ===== src/Daemon/Call.antt =====
-- CmdParse of a line written from a name and arguments calls the function of that name.
use telnet_serv.Prelude.{
  ℕ, zero, suc, ◌+◌, ◌-◌, ◌≤◌, ◌<◌, ◌≡◌, refl, ap₂, ◌∙◌, false, Option, some, List, [], ◌∷◌, ◌++◌,
  length, ltb, ◌==◌, replicate, length-append, le→ltb, arith, append-nil, Bool-cases, inl, inr,
  subst, ◌^◌, ◌%◌, ◌/◌,
}
use telnet_serv.Os.{World, called, emit, delivered, delivered-append, calls, calls-append}
use telnet_serv.Text.{is_alnum}
use telnet_serv.Sock.Delivery.{Recovers}
use telnet_serv.Args.Items.{Item, AllBare}
use telnet_serv.Args.Line.{AreItems}
use telnet_serv.Args.Written.{line_of}
use telnet_serv.Args.Values.{HaveValues, values}
use telnet_serv.Args.RoundTrip.{scan_items}
use telnet_serv.Terminal.{ret, Daemon, codes, decimal, format_int}
use telnet_serv.Terminal.Shown.{client_only}
use telnet_serv.Terminal.Delivery.{push_msg_shows}
use telnet_serv.Terminal.Calls.{SameCalls, push_msg-SameCalls}
use telnet_serv.Command.{max_command_length, call_func, execute, run_cmd, cmd_parse}
use telnet_serv.Daemon.{is_null_str}
use telnet_serv.Daemon.Line.{Holds}
use telnet_serv.Daemon.Blank.{is_null_str_lem}
use telnet_serv.Daemon.Trim.{BeginsAlnum, trimmed_held, leading_held}

length-decimal : (fuel n : ℕ) (acc : List ℕ) → length (decimal fuel n acc) ≤ fuel + length acc
unfolding decimal
length-decimal zero n acc = omega arith
length-decimal (suc fuel) n acc = elim (Bool-cases (ltb n 10)) [
  | inl e ↦ rw (decimal, e) (omega arith)
  | inr e ↦
      let later = length-decimal fuel (n / 10) ((b'0' + n % 10) ∷ acc) in
      rw (decimal, e) (omega arith)
]

length-format_int : (v : ℕ) → length (format_int v) ≤ 11
unfolding format_int
length-format_int v = elim (Bool-cases (ltb v (2 ^ 31))) [
  | inl e ↦ rw e (omega (arith, length-decimal 10 v []))
  | inr e ↦ rw e (omega (arith, length-decimal 10 (2 ^ 32 - v) []))
]

-- "Return value: %d\n"
abbrev pub report : ℕ → List ℕ
report v = codes "Return value: " ++ (format_int v ++ codes "\n")

length-report : (v : ℕ) → length (report v) ≤ 30
length-report v = omega (
  arith,
  length-append (codes "Return value: ") (format_int v ++ codes "\n"),
  length-append (format_int v) (codes "\n"),
  length-format_int v,
)

module _ {W : Type 0} (send : ℕ → List ℕ → W → Option ℕ × W) (invoke : ℕ → List ℕ → W → ℕ × W)
    (base sock : ℕ) (P : W → Type 0) (rec : Recovers send sock P)
    (keeps : (func : ℕ) (para : List ℕ) (os : W) → P os → P (invoke func para os).1) (fuel : ℕ)
    (enough : 300 < fuel) where
  -- A registered function is called once, and the client is told what it returned.
  pub call_func_reports :
      (func : ℕ) (para : List ℕ) (d : Daemon W)
      → d.client ≡ some sock
      → P d.world.os
      → let value = (invoke func para d.world.os).0 in
        (w : World W) × (call_func send invoke base fuel func para d ≡ ret (record d { world = w }))
        × (delivered sock w.trace ≡ delivered sock d.world.trace ++ report value)
        × (calls w.trace ≡ calls d.world.trace ++ (func, para, value) ∷ [])
        × P w.os
  unfolding call_func delivered
  call_func_reports func para d c p =
      let value = (invoke func para d.world.os).0 in
      let d1 : Daemon W = record d {
        world =
            emit (called func para value) (record d.world { os = (invoke func para d.world.os).1 });
      } in
      let (w, e, del, q) =
        push_msg_shows send sock P rec fuel (report value) d1 c (omega (arith, length-report value))
          (omega (arith, length-report value)) (keeps func para d.world.os p) in
      let same : calls w.trace ≡ calls d1.world.trace =
        subst (SameCalls d1) e (push_msg-SameCalls send fuel (report value) d1) in
      (
        w,
        e,
        del
            ∙ rw
                (
                  delivered-append sock d.world.trace (called func para value ∷ []),
                  append-nil (delivered sock d.world.trace),
                )
                refl,
        same ∙ calls-append d.world.trace (called func para value ∷ []),
        q,
      )

pub BeginsAlnum-append : (xs ys : List ℕ) → BeginsAlnum xs → BeginsAlnum (xs ++ ys)
BeginsAlnum-append [] ys h = absurd h
BeginsAlnum-append (x ∷ xs) ys h = h

-- isNullStr of a line that begins with a letter or digit.
pub is_null_str-BeginsAlnum :
    (fuel : ℕ) (line rest : List ℕ)
    → 0 < fuel
    → BeginsAlnum line
    → is_null_str fuel (line ++ rest) ≡ some false
unfolding is_alnum
is_null_str-BeginsAlnum zero line rest f h = absurd (omega arith)
is_null_str-BeginsAlnum (suc fuel) [] rest f h = absurd h
is_null_str-BeginsAlnum (suc fuel) (c ∷ cs) rest f h =
    let (not_blank, not_nul) : ((c == b' ') ≡ false) × ((c == 0) ≡ false) =
      (ground arith, ground arith) in
    is_null_str_lem fuel ((c ∷ cs) ++ rest) ∙ rw (not_blank, not_nul) refl

-- The parameters of a line: the values, and zeros up to ten.
abbrev pub paras_of : ℕ → List ℕ → List Item → List ℕ
paras_of base name items =
    let vs = values base false (length name) items in vs ++ replicate (10 - length vs) 0

-- A line that is written from a name, which begins with a letter or digit, and arguments, and that
-- RunCmd's scan can hold.
pub record IsLine (base : ℕ) (name : List ℕ) (items : List Item) : Type 0 where
  pub begins : BeginsAlnum name
  pub bare : AllBare name
  pub are : AreItems items
  pub have : HaveValues items
  pub fits : length (line_of name items) ≤ 254
  pub room : length (values base false (length name) items) ≤ 10

module _ {W : Type 0} (send : ℕ → List ℕ → W → Option ℕ × W) (invoke : ℕ → List ℕ → W → ℕ × W)
    (base fuel : ℕ) (d : Daemon W) (name : List ℕ) (items : List Item)
    (line_it : IsLine base name items) where
  -- CmdParse of such a line, when the array holds it.
  pub cmd_parse_executes :
      (sock : ℕ)
      → d.client ≡ some sock
      → Holds d (line_of name items)
      → 300 < fuel
      → cmd_parse send invoke base fuel d.command d.cmd_len d
        ≡ execute send invoke base fuel name (paras_of base name items) d
  unfolding cmd_parse run_cmd
  cmd_parse_executes sock c holds enough =
      let line = line_of name items in
      let begins : BeginsAlnum line = BeginsAlnum-append name _ line_it.begins in
      let tail : List ℕ = replicate (max_command_length - length line) 0 in
      let fits : length line ≤ 254 = line_it.fits in
      let (s, e, no_str, no_char, read, paras, texts) =
        scan_items base name items (replicate (max_command_length - 1 - length line) 0) fuel
          line_it.bare line_it.are line_it.have fits (omega arith) line_it.room in
      let short : length line - 0 ≤ max_command_length = omega arith in
      ap₂ (λ cmd len. cmd_parse send invoke base fuel cmd len d) holds.chars holds.count
      ∙ rw
          (
            leading_held line tail begins,
            le→ltb max_command_length (length line - 0) short,
            trimmed_held line tail begins (omega arith),
          )
          (client_only d.client sock _ _ c ∙ rw (e, no_str, no_char, read, paras) refl)
