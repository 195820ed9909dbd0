-- ===== src/Daemon/Bye.antt =====
-- The command bye: the client is told, and its socket is closed.
use telnet_serv.Prelude.{
  ℕ, ◌<◌, ◌≡◌, refl, ap, ◌∙◌, false, Option, some, none, List, [], ◌∷◌, ◌++◌, map, ◌==◌, arith,
  subst, append_assoc,
}
use telnet_serv.Os.{World, Event, closed, slept, emit, delivered, calls}
use telnet_serv.Text.{str_eq}
use telnet_serv.Sock.Delivery.{Recovers}
use telnet_serv.Args.Items.{Item}
use telnet_serv.Args.Line.{spell_all}
use telnet_serv.Args.Written.{line_of, line_of-IsFree}
use telnet_serv.Terminal.{ret, ◌>>=◌, Daemon, codes, prompt_show}
use telnet_serv.Terminal.Shown.{push_msg-ShowsOnly}
use telnet_serv.Command.{say_bye, execute}
use telnet_serv.Daemon.{
  key_of, return_char, cleared, is_null_str, on_return, Received, byte, handle_events,
}
use telnet_serv.Daemon.Line.{Holds, Fits, edit_all, echo_all}
use telnet_serv.Daemon.Call.{
  paras_of, IsLine, BeginsAlnum-append, is_null_str-BeginsAlnum, cmd_parse_executes,
}
use telnet_serv.Daemon.Echo.{echo-ShowsOnly}
use telnet_serv.Daemon.Submit.{AtPrompt}
use telnet_serv.Daemon.Events.{
  inputs, inputs-append, handle_events-append, edit_events, return_event,
}

-- The client is gone: what it had got before that, and that its socket was closed half a second after.
pub record Gone {W : Type 0} (sock : ℕ) (P : W → Type 0) (d d' : Daemon W) (shown : List ℕ)
    : Type 0 where
  pub before : List Event
  pub ends : d'.world.trace ≡ before ++ slept 500_000 ∷ closed sock ∷ []
  pub delivers : delivered sock before ≡ delivered sock d.world.trace ++ shown
  pub calls_none : calls before ≡ calls d.world.trace
  pub no_client : d'.client ≡ none
  pub empty : Holds d' []
  pub same_table : d'.table ≡ d.table
  pub good : P d'.world.os

bye_closes :
    {W : Type 0} (d : Daemon W) (o : Option ℕ) (sock : ℕ)
    → o ≡ some sock
    → elim o [
      | none ↦ d
      | some s ↦ record d { client = none; world = emit (closed s) (emit (slept 500_000) d.world) }
    ]
      ≡ record d { client = none; world = emit (closed sock) (emit (slept 500_000) d.world) }
bye_closes d none sock e = cc
bye_closes d (some s) sock e =
    let same : s ≡ sock = cc in
    ap (λ x. record d { client = none; world = emit (closed x) (emit (slept 500_000) d.world) })
      same

abbrev pub bye_text : List ℕ
bye_text = codes "\n  bye......\n"

module _ {W : Type 0} (send : ℕ → List ℕ → W → Option ℕ × W) (invoke : ℕ → List ℕ → W → ℕ × W)
    (base sock : ℕ) (P : W → Type 0) (rec : Recovers send sock P) (fuel : ℕ)
    (enough : 300 < fuel) where
  execute_bye :
      (para : List ℕ) (d : Daemon W)
      → execute send invoke base fuel (codes "bye") para d ≡ say_bye send invoke base fuel d
  unfolding execute str_eq
  execute_bye para d = refl

  say_bye-Gone :
      (d : Daemon W)
      → d.client ≡ some sock
      → P d.world.os
      → (w : World W) × (say_bye send invoke base fuel d
          ≡ ret (record d { client = none; world = emit (closed sock) (emit (slept 500_000) w) }))
        × (delivered sock w.trace ≡ delivered sock d.world.trace ++ bye_text)
        × (calls w.trace ≡ calls d.world.trace)
        × P w.os
  unfolding say_bye
  say_bye-Gone d c p =
      let (w, e, del, same, q) =
        push_msg-ShowsOnly send sock P rec fuel bye_text d c (omega arith) (omega arith) p in
      (w, rw e (ap ret (bye_closes (record d { world = w }) d.client sock c)), del, same, q)

  return_bye :
      (items : List Item) (d : Daemon W)
      → IsLine base (codes "bye") items
      → Holds d (line_of (codes "bye") items)
      → d.client ≡ some sock
      → P d.world.os
      → (d' : Daemon W) × (on_return send invoke base fuel d ≡ ret d')
        × Gone sock P d d' ((line_of (codes "bye") items ++ codes "\r\n") ++ bye_text)
  unfolding on_return prompt_show
  return_bye items d it holds c p =
      let name : List ℕ = codes "bye" in
      let line : List ℕ = line_of name items in
      let free = line_of-IsFree name items it.bare it.are in
      let (w1, e1, del1, same1, p1) =
        echo-ShowsOnly send sock P rec fuel enough line d free holds c p in
      let d1 : Daemon W = record d { world = w1 } in
      let holds1 : Holds d1 line = record {
        chars = holds.chars;
        count = holds.count;
        short = holds.short;
      } in
      let checked : is_null_str fuel d1.command ≡ some false =
        ap (is_null_str fuel) holds.chars
        ∙ is_null_str-BeginsAlnum fuel line _ (omega arith)
            (BeginsAlnum-append name (spell_all items) it.begins) in
      let parse = cmd_parse_executes send invoke base fuel d1 name items it sock c holds1 enough in
      let (w2, e2, del2, same2, p2) = say_bye-Gone d1 c p1 in
      (
        record d {
          client = none;
          cmd_len = 0;
          command = cleared;
          world = emit (closed sock) (emit (slept 500_000) w2);
        },
        rw (e1, checked)
            (ap
              (λ o. o >>= λ x. prompt_show send fuel (record x { cmd_len = 0; command = cleared }))
              (parse ∙ execute_bye (paras_of base name items) d1 ∙ e2)),
        record {
          before = w2.trace;
          ends = append_assoc w2.trace (slept 500_000 ∷ []) (closed sock ∷ []);
          delivers =
              del2
              ∙ ap (λ xs. xs ++ bye_text) del1
              ∙ append_assoc (delivered sock d.world.trace) (line ++ codes "\r\n") bye_text;
          calls_none = same2 ∙ same1;
          no_client = refl;
          empty = record { chars = refl; count = refl; short = omega arith };
          same_table = refl;
          good = p2;
        },
      )

module _ {W : Type 0} (send : ℕ → List ℕ → W → Option ℕ × W) (invoke : ℕ → List ℕ → W → ℕ × W)
    (base : ℕ) (accept : ℕ → W → Option ℕ × W) (recv : ℕ → W → Received × W) (sock : ℕ)
    (Q : List ℕ → W → Type 0) (rec : (bs : List ℕ) → Recovers send sock (Q bs))
    (feeds : (b : ℕ) (bs : List ℕ) (os : W)
      → Q (b ∷ bs) os
      → (os' : W) × (recv sock os ≡ (byte b, os')) × Q bs os')
    (fuel : ℕ) (enough : 300 < fuel) where
  -- Bytes that edit an empty line into one that is written from bye and any arguments as in the
  -- scan's round trip, with RETURN behind them; recv gives the bytes one after the other, the network
  -- recovers within three tries in each state, and the fuel is above 300. The telnet thread handles
  -- an event for each; the client has got the erasing of what was deleted, the line and the farewell;
  -- then, after half a second, its socket was closed, and nothing happened behind that: no function
  -- was called, no prompt was sent, and the thread has no client and an empty line.
  pub session_bye :
      (bs rest : List ℕ) (items : List Item) (d : Daemon W)
      → Fits [] (map key_of bs)
      → edit_all [] (map key_of bs) ≡ line_of (codes "bye") items
      → IsLine base (codes "bye") items
      → (sock == d.serv) ≡ false
      → AtPrompt sock (Q (bs ++ return_char ∷ rest)) d
      → (d' : Daemon W) × (handle_events send invoke base accept recv fuel
            (inputs sock (bs ++ return_char ∷ []))
            d
          ≡ ret d')
        × Gone sock (Q rest) d d' (
            echo_all [] (map key_of bs)
            ++ ((line_of (codes "bye") items ++ codes "\r\n") ++ bye_text))
  session_bye bs rest items d fit leaves it other at =
      let final : List ℕ = (line_of (codes "bye") items ++ codes "\r\n") ++ bye_text in
      let typed = echo_all [] (map key_of bs) in
      let (d1, e1, h1, c1, shown, (same, table, serv), q1) =
        edit_events send invoke base accept recv sock Q rec feeds fuel enough bs
          (return_char ∷ rest) [] d fit at.holds at.is_client other at.good in
      let (os', returns, q2) =
        return_event send invoke base accept recv sock Q rec feeds fuel enough rest d1 c1
          (ap (λ s. sock == s) serv ∙ other) q1 in
      let d2 : Daemon W = record d1 { world = record d1.world { os = os' } } in
      let holds2 : Holds d2 (edit_all [] (map key_of bs)) = record {
        chars = h1.chars;
        count = h1.count;
        short = h1.short;
      } in
      let (d3, e3, gone) =
        return_bye send invoke base sock (Q rest) (rec rest) fuel enough items d2 it
          (subst (Holds d2) leaves holds2) c1 q2 in
      (
        d3,
        ap (λ evs. handle_events send invoke base accept recv fuel evs d)
              (inputs-append sock bs (return_char ∷ []))
            ∙ handle_events-append send invoke base accept recv fuel (inputs sock bs)
                (inputs sock (return_char ∷ [])) d d1 e1
            ∙ returns d3 e3,
        record {
          before = gone.before;
          ends = gone.ends;
          delivers =
              gone.delivers
              ∙ ap (λ xs. xs ++ final) shown
              ∙ append_assoc (delivered sock d.world.trace) typed final;
          calls_none = gone.calls_none ∙ same;
          no_client = gone.no_client;
          empty = gone.empty;
          same_table = gone.same_table ∙ table;
          good = gone.good;
        },
      )
