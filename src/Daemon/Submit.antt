-- ===== src/Daemon/Submit.antt =====
-- A command line is submitted: what the client sees, and what is called.
use telnet_serv.Prelude.{
  ℕ, ◌<◌, ◌≡◌, refl, sym, ap, ◌∙◌, false, Option, some, List, [], ◌∷◌, ◌++◌, arith, append_assoc,
}
use telnet_serv.Os.{World, delivered, calls}
use telnet_serv.Sock.Delivery.{Recovers}
use telnet_serv.Args.Items.{Item}
use telnet_serv.Args.Written.{line_of, line_of-IsFree}
use telnet_serv.Terminal.{ret, ◌>>=◌, Daemon, codes, prompt_show}
use telnet_serv.Daemon.{is_null_str, cleared, on_return}
use telnet_serv.Daemon.Line.{Holds}
use telnet_serv.Daemon.Trim.{BeginsAlnum}
use telnet_serv.Daemon.Call.{
  paras_of, IsLine, BeginsAlnum-append, is_null_str-BeginsAlnum, cmd_parse_executes,
}
use telnet_serv.Command.{execute}
use telnet_serv.Daemon.Echo.{echo-ShowsOnly}
use telnet_serv.Terminal.Shown.{prompt_show-ShowsOnly}

module _ {W : Type 0} (sock : ℕ) (P : W → Type 0) where
  -- The telnet thread waits for keys, with an empty line.
  pub record AtPrompt (d : Daemon W) : Type 0 where
    pub holds : Holds d []
    pub is_client : d.client ≡ some sock
    pub good : P d.world.os

  -- The line is done: what the client has got, and what was called.
  pub record LineDone (d d' : Daemon W) (shown : List ℕ) (answer : W → List ℕ)
      (made : W → List (ℕ × List ℕ × ℕ)) : Type 0 where
    pub os : W
    pub delivers :
        delivered sock d'.world.trace
        ≡ delivered sock d.world.trace ++ (shown ++ (answer os ++ (codes "->" ++ 0 ∷ [])))
    pub good_os : P os
    pub makes : calls d'.world.trace ≡ calls d.world.trace ++ made os
    pub at_prompt : AtPrompt d'
    pub same_table : d'.table ≡ d.table
    pub same_serv : d'.serv ≡ d.serv

  -- Behind keys that call nothing.
  pub LineDone-after :
      (d d1 d2 : Daemon W) (typed shown : List ℕ) (answer : W → List ℕ)
      (made : W → List (ℕ × List ℕ × ℕ))
      → delivered sock d1.world.trace ≡ delivered sock d.world.trace ++ typed
      → calls d1.world.trace ≡ calls d.world.trace
      → d1.table ≡ d.table
      → d1.serv ≡ d.serv
      → LineDone d1 d2 shown answer made
      → LineDone d d2 (typed ++ shown) answer made
  LineDone-after d d1 d2 typed shown answer made got same table serv done =
      let rest : List ℕ = answer done.os ++ (codes "->" ++ 0 ∷ []) in
      record {
        os = done.os;
        delivers =
            done.delivers
            ∙ ap (λ xs. xs ++ (shown ++ rest)) got
            ∙ append_assoc (delivered sock d.world.trace) typed (shown ++ rest)
            ∙ ap (λ xs. delivered sock d.world.trace ++ xs) (sym (append_assoc typed shown rest));
        good_os = done.good_os;
        makes = done.makes ∙ ap (λ cs. cs ++ made done.os) same;
        at_prompt = done.at_prompt;
        same_table = done.same_table ∙ table;
        same_serv = done.same_serv ∙ serv;
      }

module _ {W : Type 0} (send : ℕ → List ℕ → W → Option ℕ × W) (invoke : ℕ → List ℕ → W → ℕ × W)
    (base sock : ℕ) (P : W → Type 0) (fuel : ℕ) where
  -- With this table and client, the execution shows `answer` and calls `made`, both of the state of
  -- the operating system at its start.
  abbrev pub Answers :
      Daemon W → List ℕ → List ℕ → (W → List ℕ) → (W → List (ℕ × List ℕ × ℕ)) → Type 0
  Answers d name para answer made =
      (d1 : Daemon W)
      → d1.client ≡ some sock
      → d1.table ≡ d.table
      → P d1.world.os
      → (w : World W) × (execute send invoke base fuel name para d1 ≡ ret (record d1 { world = w }))
        × (delivered sock w.trace ≡ delivered sock d1.world.trace ++ answer d1.world.os)
        × (calls w.trace ≡ calls d1.world.trace ++ made d1.world.os)
        × P w.os

module _ {W : Type 0} (send : ℕ → List ℕ → W → Option ℕ × W) (invoke : ℕ → List ℕ → W → ℕ × W)
    (base sock : ℕ) (P : W → Type 0) (rec : Recovers send sock P) (fuel : ℕ)
    (enough : 300 < fuel) where
  -- RETURN on a held line.
  pub return_line :
      (name : List ℕ) (items : List Item) (d : Daemon W) (answer : W → List ℕ)
      (made : W → List (ℕ × List ℕ × ℕ))
      → IsLine base name items
      → Holds d (line_of name items)
      → d.client ≡ some sock
      → P d.world.os
      → Answers send invoke base sock P fuel d name (paras_of base name items) answer made
      → (d' : Daemon W) × (on_return send invoke base fuel d ≡ ret d')
        × LineDone sock P d d' (line_of name items ++ codes "\r\n") answer made
  unfolding on_return
  return_line name items d answer made it holds c p answers =
      let line = line_of name items in
      let free = line_of-IsFree name items it.bare it.are in
      let begins : BeginsAlnum line = BeginsAlnum-append name _ it.begins in
      let (w1, e1, del1, same1, p1) =
        echo-ShowsOnly send sock P rec fuel enough line d free holds c p in
      let d1 : Daemon W = record d { world = w1 } in
      let holds1 : Holds d1 line = record {
        chars = holds.chars;
        count = holds.count;
        short = holds.short;
      } in
      let checked : is_null_str fuel d1.command ≡ some false =
        ap (is_null_str fuel) holds.chars
        ∙ is_null_str-BeginsAlnum fuel line _ (omega arith) begins in
      let parse = cmd_parse_executes send invoke base fuel d1 name items it sock c holds1 enough in
      let (w2, e2, del2, made2, p2) = answers d1 c refl p1 in
      let d2 : Daemon W = record d { world = w2; cmd_len = 0; command = cleared } in
      let (w3, e3, del3, same3, p3) =
        prompt_show-ShowsOnly send sock P rec fuel d2 c (omega arith) p2 in
      let said = answer w1.os in
      (
        record d2 { world = w3 },
        rw (e1, checked)
            (ap
                (λ o.
                  o >>= λ x. prompt_show send fuel (record x { cmd_len = 0; command = cleared }))
                (parse ∙ e2)
              ∙ e3),
        record {
          os = w1.os;
          delivers =
              del3
              ∙ ap (λ xs. xs ++ (codes "->" ++ 0 ∷ [])) (del2 ∙ ap (λ xs. xs ++ said) del1)
              ∙ append_assoc (delivered sock d.world.trace ++ (line ++ codes "\r\n")) said
                  (codes "->" ++ 0 ∷ [])
              ∙ append_assoc (delivered sock d.world.trace) (line ++ codes "\r\n")
                  (said ++ (codes "->" ++ 0 ∷ []));
          good_os = p1;
          makes = same3 ∙ made2 ∙ ap (λ cs. cs ++ made w1.os) same1;
          at_prompt = record {
            holds = record { chars = refl; count = refl; short = omega arith };
            is_client = c;
            good = p3;
          };
          same_table = refl;
          same_serv = refl;
        },
      )
