-- ===== src/Daemon/Answers.antt =====
-- An abstract shell: what a command is answered and what it calls; RunCmd's execution of any command
-- but bye does just that.
use telnet_serv.Prelude.{
  ℕ, ◌<◌, ◌≡◌, refl, sym, ◌∙◌, false, List, [], ◌∷◌, ◌++◌, length, ◌==◌, Option, some, arith,
  append-nil, subst, ◌≤◌, length-append, Bool-cases, inl, inr, if◌then◌else◌,
}
use telnet_serv.Os.{World, delivered, calls}
use telnet_serv.Text.{str_eq}
use telnet_serv.CmdTable.{CmdFunTable, find_command}
use telnet_serv.Sock.Delivery.{Recovers}
use telnet_serv.Terminal.{Exec, ret, Daemon, codes, push_msg, help_line, help_lines, telhelp}
use telnet_serv.Terminal.Shown.{client_only, ShowsOnly, ShowsOnly-bind, push_msg-ShowsOnly}
use telnet_serv.Command.{execute}
use telnet_serv.Daemon.Call.{report, call_func_reports}
use telnet_serv.Daemon.Submit.{Answers}

-- The message for a name that is not registered.
abbrev pub unknown : List ℕ → List ℕ
unknown name = codes "function '" ++ (name ++ codes "' doesn't exist!\n")

module _ {W : Type 0} (send : ℕ → List ℕ → W → Option ℕ × W) where
  -- What telhelp writes for a table.
  abbrev pub help_text : CmdFunTable → List ℕ
  help_text [] = []
  help_text ((key, info) ∷ table) = help_line send info ++ help_text table

  -- Each line of the help fits in the array that it is written to.
  abbrev pub HelpFits : CmdFunTable → Type 0
  HelpFits [] = Unit {0}
  HelpFits ((key, info) ∷ table) = (length (help_line send info) < 2000) × HelpFits table

-- What a command is answered, and the call that it makes, by the table, its name and parameters.
module _ {W : Type 0} (send : ℕ → List ℕ → W → Option ℕ × W) (invoke : ℕ → List ℕ → W → ℕ × W) where
  abbrev pub reply : CmdFunTable → List ℕ → List ℕ → W → List ℕ
  reply table name para os =
      if str_eq (codes "telhelp") name
      then codes "Whole User Help Menu:\n\n" ++ help_text send table
      else if find_command name table == 0
      then unknown name
      else report (invoke (find_command name table) para os).0

  abbrev pub effect : CmdFunTable → List ℕ → List ℕ → W → List (ℕ × List ℕ × ℕ)
  effect table name para os =
      if str_eq (codes "telhelp") name
      then []
      else if find_command name table == 0
      then []
      else (find_command name table, para, (invoke (find_command name table) para os).0) ∷ []

module _ {W : Type 0} (send : ℕ → List ℕ → W → Option ℕ × W) (invoke : ℕ → List ℕ → W → ℕ × W)
    (base sock : ℕ) (P : W → Type 0) (rec : Recovers send sock P) (fuel : ℕ) where
  help_lines-ShowsOnly :
      (table : CmdFunTable) (d : Daemon W)
      → 2000 < fuel
      → HelpFits send table
      → d.client ≡ some sock
      → P d.world.os
      → ShowsOnly sock P d (help_text send table) (help_lines send fuel table d)
  unfolding help_lines
  help_lines-ShowsOnly [] d f fits c p =
      (d.world, refl, sym (append-nil (delivered sock d.world.trace)), refl, p)
  help_lines-ShowsOnly ((key, info) ∷ table) d f fits c p =
      ShowsOnly-bind sock P d (help_line send info) (help_text send table) _ _
        (push_msg-ShowsOnly send sock P rec fuel (help_line send info) d c fits.0
          (omega (arith, fits.0)) p)
        (λ w q. help_lines-ShowsOnly table (record d { world = w }) f fits.1 c q)

  telhelp-ShowsOnly :
      (d : Daemon W)
      → 2000 < fuel
      → HelpFits send d.table
      → d.client ≡ some sock
      → P d.world.os
      → ShowsOnly sock P d
          (codes "Whole User Help Menu:\n\n" ++ help_text send d.table)
          (telhelp send fuel d)
  unfolding telhelp
  telhelp-ShowsOnly d f fits c p =
      let title : List ℕ = codes "Whole User Help Menu:\n\n" in
      subst (ShowsOnly sock P d (title ++ help_text send d.table))
        (sym (client_only d.client sock (ret d) _ c))
        (ShowsOnly-bind sock P d title (help_text send d.table) (push_msg send fuel title d)
          (λ d1. help_lines send fuel d1.table d1)
          (push_msg-ShowsOnly send sock P rec fuel title d c (omega arith) (omega arith) p)
          (λ w q. help_lines-ShowsOnly d.table (record d { world = w }) f fits c q))

  -- The answer and the calls of an execution.
  abbrev Replies : Daemon W → List ℕ → List (ℕ × List ℕ × ℕ) → Exec (Daemon W) → Type 0
  Replies d text made o =
      (w : World W) × (o ≡ ret (record d { world = w }))
      × (delivered sock w.trace ≡ delivered sock d.world.trace ++ text)
      × (calls w.trace ≡ calls d.world.trace ++ made)
      × P w.os

  ShowsOnly-Replies :
      (d : Daemon W) (text : List ℕ) (o : Exec (Daemon W))
      → ShowsOnly sock P d text o
      → Replies d text [] o
  ShowsOnly-Replies d text o (w, e, del, same, q) =
      (w, e, del, same ∙ sym (append-nil (calls d.world.trace)), q)

  module _ (keeps : (func : ℕ) (para : List ℕ) (os : W) → P os → P (invoke func para os).1)
      (enough : 2000 < fuel) where
    execute-Replies :
        (name para : List ℕ) (d : Daemon W)
        → str_eq (codes "bye") name ≡ false
        → length name ≤ 254
        → HelpFits send d.table
        → d.client ≡ some sock
        → P d.world.os
        → Replies d
            (reply send invoke d.table name para d.world.os)
            (effect send invoke d.table name para d.world.os)
            (execute send invoke base fuel name para d)
    unfolding execute
    execute-Replies name para d not_bye short fits c p =
        let size : length (unknown name) ≤ 290 = omega (
          arith,
          length-append (codes "function '") (name ++ codes "' doesn't exist!\n"),
          length-append name (codes "' doesn't exist!\n"),
        ) in
        elim (Bool-cases (str_eq (codes "telhelp") name)) [
          | inl help ↦
              rw (not_bye, help)
                (ShowsOnly-Replies d _ (telhelp send fuel d) (telhelp-ShowsOnly d enough fits c p))
          | inr other ↦ elim (Bool-cases (find_command name d.table == 0)) [
            | inl missing ↦
                rw (not_bye, other, missing)
                  (ShowsOnly-Replies d _ (push_msg send fuel (unknown name) d) (
                    push_msg-ShowsOnly send sock P rec fuel (unknown name) d c (omega arith)
                      (omega arith) p))
            | inr found ↦
                rw (not_bye, other, found)
                  (call_func_reports send invoke base sock P rec keeps fuel (omega arith)
                    (find_command name d.table) para d c p)
          ]
        ]

    pub execute-Answers :
        (name para : List ℕ) (d : Daemon W)
        → str_eq (codes "bye") name ≡ false
        → length name ≤ 254
        → HelpFits send d.table
        → Answers send invoke base sock P fuel d name para
            (reply send invoke d.table name para)
            (effect send invoke d.table name para)
    execute-Answers name para d not_bye short fits d1 c t p =
        subst
          (λ table.
            Replies d1 (reply send invoke table name para d1.world.os)
              (effect send invoke table name para d1.world.os)
              (execute send invoke base fuel name para d1))
          t (execute-Replies name para d1 not_bye short (subst (HelpFits send) (sym t) fits) c p)
