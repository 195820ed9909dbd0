-- ===== src/Daemon/Line.antt =====
-- The keys that edit a command line: the array and its length hold exactly what an abstract line
-- editor holds, as long as the line has at most 255 characters, and the client sees the echo.
use telnet_serv.Prelude.{
  ℕ, suc, ◌+◌, ◌-◌, ◌%◌, ◌≤◌, ◌<◌, ◌≡◌, refl, sym, ap, ◌∙◌, Option, some, List, [], ◌∷◌, ◌++◌,
  length, set, replicate, arith, append-nil, append_assoc, lt→ltb, eq→==, ne→==, subst,
  length-append,
}
use telnet_serv.Os.{World, delivered, calls}
use telnet_serv.Sock.Delivery.{Recovers}
use telnet_serv.Terminal.{Exec, ret, Daemon}
use telnet_serv.Terminal.Delivery.{push_msg_shows}
use telnet_serv.Terminal.Calls.{SameCalls, push_msg-SameCalls}
use telnet_serv.Command.{max_command_length}
use telnet_serv.Daemon.{
  Key, ignored, enter, backspace, other, on_char, on_backspace, on_key, on_keys,
}

-- The line without its last character.
abbrev pub drop_last : List ℕ → List ℕ
drop_last [] = []
drop_last (c ∷ []) = []
drop_last (c ∷ d ∷ cs) = c ∷ drop_last (d ∷ cs)

-- An abstract line editor, and what it writes back.
abbrev pub edit : List ℕ → Key → List ℕ
edit line (other c) = line ++ c ∷ []
edit line backspace = drop_last line
edit line _ = line

abbrev pub erasing : List ℕ → List ℕ
erasing [] = []
erasing (c ∷ cs) = 8 ∷ b' ' ∷ 8 ∷ []

abbrev pub echo : List ℕ → Key → List ℕ
echo line backspace = erasing line
echo line _ = []

-- The array holds the line and zeros behind it, and cmdLen is the line's length.
pub record Holds {W : Type 0} (d : Daemon W) (line : List ℕ) : Type 0 where
  pub chars : d.command ≡ line ++ replicate (max_command_length - length line) 0
  pub count : d.cmd_len ≡ length line
  pub short : length line ≤ 255

pub set_end :
    (line : List ℕ) (k c : ℕ)
    → set (line ++ replicate (suc k) 0) (length line) c ≡ (line ++ c ∷ []) ++ replicate k 0
set_end [] k c = refl
set_end (x ∷ line) k c = ap (◌∷◌ x) (set_end line k c)

set_last :
    (x : ℕ) (line : List ℕ) (k : ℕ)
    → set ((x ∷ line) ++ replicate k 0) (length line) 0
      ≡ drop_last (x ∷ line) ++ replicate (suc k) 0
set_last x [] k = refl
set_last x (y ∷ line) k = ap (◌∷◌ x) (set_last y line k)

length-drop_last : (x : ℕ) (line : List ℕ) → length (drop_last (x ∷ line)) ≡ length line
length-drop_last x [] = refl
length-drop_last x (y ∷ line) = ap suc (length-drop_last y line)

module _ {W : Type 0} (send : ℕ → List ℕ → W → Option ℕ × W) (invoke : ℕ → List ℕ → W → ℕ × W)
    (base : ℕ) where
  -- A character, on a line with room for it.
  on_char-Holds :
      (fuel c : ℕ) (d : Daemon W) (line : List ℕ)
      → Holds d line
      → length line < 255
      → (d' : Daemon W) × (on_char send invoke base fuel c d ≡ ret d')
        × Holds d' (line ++ c ∷ [])
        × (d'.client ≡ d.client)
        × (d'.world ≡ d.world)
        × (d'.table ≡ d.table)
        × (d'.serv ≡ d.serv)
  unfolding on_char
  on_char-Holds fuel c d line h room =
      let more : max_command_length - length line
          ≡ suc (max_command_length - length (line ++ c ∷ [])) =
        omega (arith, length-append line (c ∷ [])) in
      (
        record d { command = set d.command d.cmd_len c; cmd_len = (d.cmd_len + 1) % 256 },
        rw (lt→ltb d.cmd_len max_command_length (omega (arith, h.count))),
        record {
          chars =
              rw (h.chars, h.count, more)
                (set_end line (max_command_length - length (line ++ c ∷ [])) c);
          count = omega (arith, h.count, length-append line (c ∷ []));
          short = omega (arith, length-append line (c ∷ []));
        },
        refl,
        refl,
        refl,
        refl,
      )

backspace-empty :
    {W : Type 0} (send : ℕ → List ℕ → W → Option ℕ × W) (invoke : ℕ → List ℕ → W → ℕ × W)
    (base fuel : ℕ) (d : Daemon W)
    → d.cmd_len ≡ 0
    → on_backspace send invoke base fuel d ≡ ret d
unfolding on_backspace
backspace-empty send invoke base fuel d e = rw (eq→== d.cmd_len 0 e)

-- The keys that edit, which are all but RETURN.
abbrev pub IsEdit : Key → Type 0
IsEdit enter = ⊥
IsEdit _ = Unit {0}

-- Editing keys that never make the line longer than 255 characters.
abbrev pub Fits : List ℕ → List Key → Type 0
Fits line [] = Unit {0}
Fits line (k ∷ keys) = IsEdit k × (length (edit line k) ≤ 255) × Fits (edit line k) keys

abbrev pub edit_all : List ℕ → List Key → List ℕ
edit_all line [] = line
edit_all line (k ∷ keys) = edit_all (edit line k) keys

abbrev pub echo_all : List ℕ → List Key → List ℕ
echo_all line [] = []
echo_all line (k ∷ keys) = echo line k ++ echo_all (edit line k) keys

module _ {W : Type 0} (send : ℕ → List ℕ → W → Option ℕ × W) (invoke : ℕ → List ℕ → W → ℕ × W)
    (base : ℕ) (sock : ℕ) (P : W → Type 0) (rec : Recovers send sock P) (fuel : ℕ)
    (enough : 3 < fuel) where
  -- The keys are done: the line is there, and the client has got the echo.
  abbrev pub Edits : List ℕ → List ℕ → Daemon W → Exec (Daemon W) → Type 0
  Edits line shown d o =
      (d' : Daemon W) × (o ≡ ret d')
      × Holds d' line
      × (d'.client ≡ some sock)
      × (delivered sock d'.world.trace ≡ delivered sock d.world.trace ++ shown)
      × ((calls d'.world.trace ≡ calls d.world.trace) × (d'.table ≡ d.table) × (d'.serv ≡ d.serv))
      × P d'.world.os

  backspace-Edits :
      (x : ℕ) (line : List ℕ) (d : Daemon W)
      → Holds d (x ∷ line)
      → d.client ≡ some sock
      → P d.world.os
      → Edits (drop_last (x ∷ line)) (8 ∷ b' ' ∷ 8 ∷ []) d (on_backspace send invoke base fuel d)
  unfolding on_backspace
  backspace-Edits x line d h c p =
      let d1 : Daemon W = record d {
        command = set d.command (d.cmd_len - 1) 0;
        cmd_len = d.cmd_len - 1;
      } in
      let (w, e, del, q) =
        push_msg_shows send sock P rec fuel (8 ∷ b' ' ∷ 8 ∷ []) d1 c (omega arith) enough p in
      let count : d.cmd_len - 1 ≡ length line = omega (arith, h.count) in
      let more : suc (max_command_length - suc (length line)) ≡ max_command_length - length line =
        omega (arith, h.short) in
      (
        record d1 { world = w },
        rw (ne→== d.cmd_len 0 (omega (arith, h.count))) e,
        record {
          chars =
              rw (h.chars, count, length-drop_last x line, ← more)
                (set_last x line (max_command_length - suc (length line)));
          count = rw (length-drop_last x line) count;
          short = omega (arith, length-drop_last x line, h.short);
        },
        c,
        del,
        (subst (SameCalls d1) e (push_msg-SameCalls send fuel (8 ∷ b' ' ∷ 8 ∷ []) d1), refl, refl),
        q,
      )

  pub key-Edits :
      (k : Key) (line : List ℕ) (d : Daemon W)
      → IsEdit k
      → length (edit line k) ≤ 255
      → Holds d line
      → d.client ≡ some sock
      → P d.world.os
      → Edits (edit line k) (echo line k) d (on_key send invoke base fuel k d)
  key-Edits ignored line d i fits h c p = (d, refl, h, c, sym (append-nil _), (refl, refl, refl), p)
  key-Edits enter line d i fits h c p = absurd i
  key-Edits backspace [] d i fits h c p = (
    d,
    backspace-empty send invoke base fuel d h.count,
    h,
    c,
    sym (append-nil _),
    (refl, refl, refl),
    p,
  )
  key-Edits backspace (x ∷ line) d i fits h c p = backspace-Edits x line d h c p
  key-Edits (other x) line d i fits h c p =
      let (d', e, h', c', w', t', v') =
        on_char-Holds send invoke base fuel x d line h
          (omega (arith, length-append line (x ∷ []))) in
      (
        d',
        e,
        h',
        c' ∙ c,
        ap (λ (w : World W). delivered sock w.trace) w' ∙ sym (append-nil _),
        (ap (λ (w : World W). calls w.trace) w', t', v'),
        subst (λ (w : World W). P w.os) (sym w') p,
      )

  -- Any run of characters and backspaces that keeps the line within 255 characters, from an array
  -- that holds a line, with a client on a network that recovers within three tries and fuel above
  -- three: the telnet thread takes all of them, the array then holds what the line editor makes of
  -- the line, the client has got exactly the erasing of what was deleted, no registered function
  -- was called and the table and the listening socket are the same.
  pub keys_edit_line :
      (keys : List Key) (line : List ℕ) (d : Daemon W)
      → Fits line keys
      → Holds d line
      → d.client ≡ some sock
      → P d.world.os
      → (d' : Daemon W) × (on_keys send invoke base fuel keys d ≡ ret d')
        × Holds d' (edit_all line keys)
        × (d'.client ≡ some sock)
        × (delivered sock d'.world.trace ≡ delivered sock d.world.trace ++ echo_all line keys)
        × ((calls d'.world.trace ≡ calls d.world.trace) × (d'.table ≡ d.table) × (d'.serv ≡ d.serv))
        × P d'.world.os
  unfolding on_keys
  keys_edit_line [] line d f h c p = (d, refl, h, c, sym (append-nil _), (refl, refl, refl), p)
  keys_edit_line (k ∷ keys) line d f h c p =
      let (d1, e1, h1, c1, s1, t1, p1) = key-Edits k line d f.0 f.1 h c p in
      let (d2, e2, h2, c2, s2, t2, p2) = keys_edit_line keys (edit line k) d1 f.2 h1 c1 p1 in
      (
        d2,
        rw (e1) e2,
        h2,
        c2,
        s2 ∙ rw (s1, append_assoc),
        (t2.0 ∙ t1.0, t2.1 ∙ t1.1, t2.2 ∙ t1.2),
        p2,
      )
