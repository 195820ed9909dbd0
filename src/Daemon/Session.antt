-- ===== src/Daemon/Session.antt =====
-- Whole sessions: what a client's bytes bring about is what an abstract shell does with its lines.
use telnet_serv.Prelude.{
  ℕ, ◌≤◌, ◌<◌, ◌≡◌, refl, sym, ap, ◌∙◌, false, Option, List, [], ◌∷◌, ◌++◌, length, length-append,
  map, append-nil, ◌==◌, arith, subst, append_assoc,
}
use telnet_serv.Os.{delivered, calls}
use telnet_serv.Text.{str_eq}
use telnet_serv.CmdTable.{CmdFunTable}
use telnet_serv.Sock.Delivery.{Recovers}
use telnet_serv.Args.Items.{Item}
use telnet_serv.Args.Line.{spell_all}
use telnet_serv.Args.Written.{line_of}
use telnet_serv.Terminal.{ret, Daemon, codes}
use telnet_serv.Daemon.{key_of, return_char, Received, byte, handle_events}
use telnet_serv.Daemon.Line.{Fits, edit_all, echo_all}
use telnet_serv.Daemon.Call.{paras_of, IsLine}
use telnet_serv.Daemon.Submit.{AtPrompt, LineDone}
use telnet_serv.Daemon.Answers.{HelpFits, reply, effect, execute-Answers}
use telnet_serv.Daemon.Events.{inputs, inputs-append, handle_events-append, line_events}

-- A command as a client types it: the bytes before RETURN, and the name and arguments that the line
-- is written from.
pub record Entry : Type 0 where
  pub bytes : List ℕ
  pub name : List ℕ
  pub items : List Item

-- The bytes edit an empty line into the written one, which is no bye.
pub record IsEntry (base : ℕ) (e : Entry) : Type 0 where
  pub fit : Fits [] (map key_of e.bytes)
  pub leaves : edit_all [] (map key_of e.bytes) ≡ line_of e.name e.items
  pub is_line : IsLine base e.name e.items
  pub not_bye : str_eq (codes "bye") e.name ≡ false

abbrev pub AreEntries : ℕ → List Entry → Type 0
AreEntries base [] = Unit {0}
AreEntries base (e ∷ es) = IsEntry base e × AreEntries base es

abbrev pub all_bytes : List Entry → List ℕ
all_bytes [] = []
all_bytes (e ∷ es) = (e.bytes ++ return_char ∷ []) ++ all_bytes es

-- What the shell shows for a command, and what it calls.
module _ {W : Type 0} (send : ℕ → List ℕ → W → Option ℕ × W) (invoke : ℕ → List ℕ → W → ℕ × W)
    (base : ℕ) (table : CmdFunTable) where
  abbrev pub shows : Entry → W → List ℕ
  shows e os =
      (echo_all [] (map key_of e.bytes) ++ (line_of e.name e.items ++ codes "\r\n"))
      ++ (reply send invoke table e.name (paras_of base e.name e.items) os
          ++ (codes "->" ++ 0 ∷ []))

  abbrev pub makes : Entry → W → List (ℕ × List ℕ × ℕ)
  makes e os = effect send invoke table e.name (paras_of base e.name e.items) os

  -- The shell's run over commands: all that it shows and calls, where each command finds the
  -- operating system in a state in which the bytes of the later ones, and `rest`, are still to come.
  pub data Shell (Q : List ℕ → W → Type 0) (rest : List ℕ)
      : List Entry → List ℕ → List (ℕ × List ℕ × ℕ) → Type 0 where
    idle : Shell Q rest [] [] []
    command :
        {es : List Entry} {text : List ℕ} {made : List (ℕ × List ℕ × ℕ)}
        → (e : Entry) (os : W) → Q (all_bytes es ++ rest) os
        → Shell Q rest es text made
        → Shell Q rest (e ∷ es) (shows e os ++ text) (makes e os ++ made)

module _ {W : Type 0} (send : ℕ → List ℕ → W → Option ℕ × W) (invoke : ℕ → List ℕ → W → ℕ × W)
    (base : ℕ) (accept : ℕ → W → Option ℕ × W) (recv : ℕ → W → Received × W) (sock : ℕ)
    (Q : List ℕ → W → Type 0) (rec : (bs : List ℕ) → Recovers send sock (Q bs))
    (keeps : (bs : List ℕ) (func : ℕ) (para : List ℕ) (os : W)
      → Q bs os
      → Q bs (invoke func para os).1)
    (feeds : (b : ℕ) (bs : List ℕ) (os : W)
      → Q (b ∷ bs) os
      → (os' : W) × (recv sock os ≡ (byte b, os')) × Q bs os')
    (fuel : ℕ) (enough : 2000 < fuel) where
  entry_events :
      (e : Entry) (rest : List ℕ) (d : Daemon W)
      → IsEntry base e
      → HelpFits send d.table
      → (sock == d.serv) ≡ false
      → AtPrompt sock (Q ((e.bytes ++ return_char ∷ []) ++ rest)) d
      → (d' : Daemon W) × (handle_events send invoke base accept recv fuel
            (inputs sock (e.bytes ++ return_char ∷ []))
            d
          ≡ ret d')
        × LineDone sock
            (Q rest)
            d
            d'
            (echo_all [] (map key_of e.bytes) ++ (line_of e.name e.items ++ codes "\r\n"))
            (reply send invoke d.table e.name (paras_of base e.name e.items))
            (effect send invoke d.table e.name (paras_of base e.name e.items))
  entry_events e rest d is help other at =
      let para = paras_of base e.name e.items in
      let short : length e.name ≤ 254 =
        omega (arith, length-append e.name (spell_all e.items), is.is_line.fits) in
      line_events send invoke base accept recv sock Q rec feeds fuel (omega arith) e.bytes rest
        e.name e.items d (reply send invoke d.table e.name para)
        (effect send invoke d.table e.name para) is.fit is.leaves is.is_line other
        (subst (λ bs. AtPrompt sock (Q bs) d) (append_assoc e.bytes (return_char ∷ []) rest) at)
        (execute-Answers send invoke base sock (Q rest) (rec rest) fuel (keeps rest) enough e.name
          para d is.not_bye short help)

  pub session_lem :
      (es : List Entry) (rest : List ℕ) (d : Daemon W)
      → AreEntries base es
      → HelpFits send d.table
      → (sock == d.serv) ≡ false
      → AtPrompt sock (Q (all_bytes es ++ rest)) d
      → (d' : Daemon W) × (text : List ℕ) × (made : List (ℕ × List ℕ × ℕ)) × (handle_events send
            invoke base accept recv fuel
            (inputs sock (all_bytes es))
            d
          ≡ ret d')
        × Shell send invoke base d.table Q rest es text made
        × (delivered sock d'.world.trace ≡ delivered sock d.world.trace ++ text)
        × (calls d'.world.trace ≡ calls d.world.trace ++ made)
        × AtPrompt sock (Q rest) d'
        × (d'.serv ≡ d.serv)
  unfolding handle_events
  session_lem [] rest d are help other at = (
    d,
    [],
    [],
    refl,
    idle,
    sym (append-nil (delivered sock d.world.trace)),
    sym (append-nil (calls d.world.trace)),
    at,
    refl,
  )
  session_lem (e ∷ es) rest d are help other at =
      let bytes : List ℕ = e.bytes ++ return_char ∷ [] in
      let (d1, e1, done) =
        entry_events e (all_bytes es ++ rest) d are.0 help other
          (subst (λ bs. AtPrompt sock (Q bs) d) (append_assoc bytes (all_bytes es) rest) at) in
      let (d2, text, made, e2, run, del, called, at2, serv2) =
        session_lem es rest d1 are.1 (subst (HelpFits send) (sym done.same_table) help)
          (ap (λ s. sock == s) done.same_serv ∙ other) done.at_prompt in
      let shown = shows send invoke base d.table e done.os in
      let mades = makes send invoke base d.table e done.os in
      (
        d2,
        shown ++ text,
        mades ++ made,
        ap (λ evs. handle_events send invoke base accept recv fuel evs d)
              (inputs-append sock bytes (all_bytes es))
            ∙ handle_events-append send invoke base accept recv fuel (inputs sock bytes)
                (inputs sock (all_bytes es)) d d1 e1
            ∙ e2,
        command e done.os done.good_os
            (subst (λ t. Shell send invoke base t Q rest es text made) done.same_table run),
        del
            ∙ ap (λ xs. xs ++ text) done.delivers
            ∙ append_assoc (delivered sock d.world.trace) shown text,
        called ∙ ap (λ cs. cs ++ made) done.makes ∙ append_assoc (calls d.world.trace) mades made,
        at2,
        serv2 ∙ done.same_serv,
      )
