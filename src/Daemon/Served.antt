-- ===== src/Daemon/Served.antt =====
-- A client from its accept(2) to its bye.
use telnet_serv.Prelude.{
  ℕ, ◌<◌, ◌≡◌, refl, sym, ap, ◌∙◌, false, Option, some, none, List, [], ◌∷◌, ◌++◌, length, map,
  ◌==◌, eq→==, arith, subst, append_assoc, append-nil,
}
use telnet_serv.Os.{
  World, Event, watched, slept, closed, emit, delivered, delivered-append, calls, calls-append,
}
use telnet_serv.Sock.Delivery.{Recovers}
use telnet_serv.Args.Items.{Item}
use telnet_serv.Args.Written.{line_of}
use telnet_serv.Terminal.{ret, ◌>>=◌, Daemon, codes, push_msg}
use telnet_serv.Terminal.Shown.{
  ShowsOnly, ShowsOnly-bind, push_msg-ShowsOnly, prompt_show-ShowsOnly,
}
use telnet_serv.Daemon.{
  key_of, return_char, cleared, Received, byte, greet, close_client, handle_event, handle_events,
}
use telnet_serv.Daemon.Line.{Holds, Fits, edit_all, echo_all}
use telnet_serv.Daemon.Call.{IsLine}
use telnet_serv.Daemon.Submit.{AtPrompt}
use telnet_serv.Daemon.Answers.{HelpFits}
use telnet_serv.Daemon.Events.{input, inputs, inputs-append, handle_events-append}
use telnet_serv.Daemon.Session.{Entry, AreEntries, all_bytes, Shell, session_lem}
use telnet_serv.Daemon.Bye.{bye_text, session_bye}

-- What a client sees first.
abbrev pub bar : List ℕ
bar = codes "*===============================================================*\n"

abbrev pub greeting : List ℕ
greeting = bar ++ (codes "Welcome to Telnet Server.\n" ++ (bar ++ (codes "->" ++ 0 ∷ [])))

no_client_yet :
    {A : Type 0} (o : Option ℕ) (x : A) (y : ℕ → A)
    → o ≡ none
    → elim o [ none ↦ x | some s ↦ y s ] ≡ x
no_client_yet none x y e = refl
no_client_yet (some s) x y e = cc

module _ {W : Type 0} (send : ℕ → List ℕ → W → Option ℕ × W) (invoke : ℕ → List ℕ → W → ℕ × W)
    (base : ℕ) (sock : ℕ) (P : W → Type 0) (rec : Recovers send sock P) (fuel : ℕ)
    (enough : 300 < fuel) where
  greet-ShowsOnly :
      (d : Daemon W)
      → d.client ≡ some sock
      → P d.world.os
      → ShowsOnly sock P d greeting (greet send invoke base fuel d)
  unfolding greet
  greet-ShowsOnly d c p =
      let says : (text : List ℕ) (w : World W)
          → length text < 300
          → P w.os
          → ShowsOnly sock P (record d { world = w }) text
              (push_msg send fuel text (record d { world = w })) =
        λ text w short q.
          push_msg-ShowsOnly send sock P rec fuel text (record d { world = w }) c (omega arith)
            (omega arith) q in
      let welcome : List ℕ = codes "Welcome to Telnet Server.\n" in
      let prompt : List ℕ = codes "->" ++ 0 ∷ [] in
      ShowsOnly-bind sock P d bar (welcome ++ (bar ++ prompt)) _ _
        (says bar d.world (omega arith) p)
        (λ w1 p1.
          ShowsOnly-bind sock P (record d { world = w1 }) welcome (bar ++ prompt) _ _
            (says welcome w1 (omega arith) p1)
            (λ w2 p2.
              ShowsOnly-bind sock P (record d { world = w2 }) bar prompt _ _
                (says bar w2 (omega arith) p2)
                (λ w3 p3.
                  prompt_show-ShowsOnly send sock P rec fuel (record d { world = w3 }) c
                    (omega arith) p3)))

module _ {W : Type 0} (send : ℕ → List ℕ → W → Option ℕ × W) (invoke : ℕ → List ℕ → W → ℕ × W)
    (base : ℕ) (accept : ℕ → W → Option ℕ × W) (recv : ℕ → W → Received × W) (sock : ℕ) (fuel : ℕ)
    (enough : 300 < fuel) where
  accepting :
      (d : Daemon W) (os' : W)
      → d.client ≡ none
      → accept d.serv d.world.os ≡ (some sock, os')
      → handle_event send invoke base accept recv fuel (input d.serv) d
        ≡ greet send invoke base fuel (record d {
          client = some sock;
          command = cleared;
          world = emit (watched sock) (record d.world { os = os' });
        })
  unfolding handle_event close_client
  accepting d os' c got =
      let d1 : Daemon W = record d { world = record d.world { os = os' } } in
      rw (eq→== d.serv d.serv refl, got)
        (ap
          (λ x. greet send invoke base fuel (record x {
            client = some sock;
            command = cleared;
            world = emit (watched sock) x.world;
          }))
          (no_client_yet d.client d1 _ c))

  accept_event :
      (P : W → Type 0)
      → Recovers send sock P
      → (d : Daemon W) (os' : W) → d.client ≡ none
      → d.cmd_len ≡ 0
      → accept d.serv d.world.os ≡ (some sock, os')
      → P os'
      → (d' : Daemon W) × (handle_events send invoke base accept recv fuel (input d.serv ∷ []) d
          ≡ ret d')
        × AtPrompt sock P d'
        × (delivered sock d'.world.trace ≡ delivered sock d.world.trace ++ greeting)
        × (calls d'.world.trace ≡ calls d.world.trace)
        × (d'.table ≡ d.table)
        × (d'.serv ≡ d.serv)
  unfolding handle_events delivered
  accept_event P rec d os' c empty got p =
      let d1 : Daemon W = record d {
        client = some sock;
        command = cleared;
        world = emit (watched sock) (record d.world { os = os' });
      } in
      let (w, e, del, same, q) =
        greet-ShowsOnly send invoke base sock P rec fuel enough d1 refl p in
      (
        record d1 { world = w },
        ap (λ o. o >>= λ x. ret x) (accepting d os' c got ∙ e),
        record {
          holds = record { chars = refl; count = empty; short = omega arith };
          is_client = refl;
          good = q;
        },
        del
            ∙ ap (λ xs. xs ++ greeting)
                (delivered-append sock d.world.trace (watched sock ∷ [])
                  ∙ append-nil (delivered sock d.world.trace)),
        same ∙ calls-append d.world.trace (watched sock ∷ []) ∙ append-nil (calls d.world.trace),
        refl,
        refl,
      )

module _ {W : Type 0} (send : ℕ → List ℕ → W → Option ℕ × W) (invoke : ℕ → List ℕ → W → ℕ × W)
    (base : ℕ) (accept : ℕ → W → Option ℕ × W) (recv : ℕ → W → Received × W) (sock : ℕ)
    (Q : List ℕ → W → Type 0) (rec : (bs : List ℕ) → Recovers send sock (Q bs))
    (keeps : (bs : List ℕ) (func : ℕ) (para : List ℕ) (os : W)
      → Q bs os
      → Q bs (invoke func para os).1)
    (feeds : (b : ℕ) (bs : List ℕ) (os : W)
      → Q (b ∷ bs) os
      → (os' : W) × (recv sock os ≡ (byte b, os')) × Q bs os')
    (fuel : ℕ) (enough : 2000 < fuel) where
  -- The telnet thread has no client and a length of 0; accept gives a socket, on which recv gives
  -- the bytes of the commands `es` as for a session, and then bytes that edit an empty line into one
  -- written from bye, with RETURN behind them; the network, the help and the fuel are as for a
  -- session. The thread handles the event of accept and one for each byte; the client has got the
  -- greeting and the prompt, then what the abstract shell shows for the commands, then the line of
  -- bye and the farewell; the shell's calls and no others were made; then, after half a second, the
  -- socket was closed, and nothing happened behind that; and the thread has no client and an empty
  -- line.
  pub client_served :
      (es : List Entry) (bs rest : List ℕ) (items : List Item) (d : Daemon W) (os' : W)
      → AreEntries base es
      → HelpFits send d.table
      → Fits [] (map key_of bs)
      → edit_all [] (map key_of bs) ≡ line_of (codes "bye") items
      → IsLine base (codes "bye") items
      → d.client ≡ none
      → d.cmd_len ≡ 0
      → (sock == d.serv) ≡ false
      → accept d.serv d.world.os ≡ (some sock, os')
      → Q (all_bytes es ++ (bs ++ return_char ∷ rest)) os'
      → (d' : Daemon W) × (text : List ℕ) × (made : List (ℕ × List ℕ × ℕ)) × (before : List Event)
        × (handle_events send invoke base accept recv fuel
              (input d.serv ∷ inputs sock (all_bytes es ++ (bs ++ return_char ∷ [])))
              d
            ≡ ret d')
        × Shell send invoke base d.table Q (bs ++ return_char ∷ rest) es text made
        × (d'.world.trace ≡ before ++ slept 500_000 ∷ closed sock ∷ [])
        × (delivered sock before
            ≡ delivered sock d.world.trace
              ++ (greeting
                  ++ (text
                      ++ (echo_all [] (map key_of bs)
                          ++ ((line_of (codes "bye") items ++ codes "\r\n") ++ bye_text)))))
        × (calls before ≡ calls d.world.trace ++ made)
        × (d'.client ≡ none)
        × Holds d' []
        × Q rest d'.world.os
  client_served es bs rest items d os' are help fit leaves it c empty other got q =
      let later : List ℕ = bs ++ return_char ∷ rest in
      let end : List ℕ =
        echo_all [] (map key_of bs)
        ++ ((line_of (codes "bye") items ++ codes "\r\n") ++ bye_text) in
      let leave = bs ++ return_char ∷ [] in
      let (d1, e1, at1, greeted, same1, table1, serv1) =
        accept_event send invoke base accept recv sock fuel (omega arith)
          (Q (all_bytes es ++ later)) (rec (all_bytes es ++ later)) d os' c empty got q in
      let other1 : (sock == d1.serv) ≡ false = ap (λ s. sock == s) serv1 ∙ other in
      let (d2, text, made, e2, run, shown, called, at2, serv2) =
        session_lem send invoke base accept recv sock Q rec keeps feeds fuel enough es later d1 are
          (subst (HelpFits send) (sym table1) help) other1 at1 in
      let (d3, e3, gone) =
        session_bye send invoke base accept recv sock Q rec feeds fuel (omega arith) bs rest items
          d2 fit leaves it (ap (λ s. sock == s) serv2 ∙ other1) at2 in
      let runs = handle_events send invoke base accept recv fuel in
      (
        d3,
        text,
        made,
        gone.before,
        handle_events-append send invoke base accept recv fuel (input d.serv ∷ [])
              (inputs sock (all_bytes es ++ leave)) d d1 e1
            ∙ ap (λ evs. runs evs d1) (inputs-append sock (all_bytes es) leave)
            ∙ handle_events-append send invoke base accept recv fuel (inputs sock (all_bytes es))
                (inputs sock leave) d1 d2 e2
            ∙ e3,
        subst (λ t. Shell send invoke base t Q later es text made) table1 run,
        gone.ends,
        gone.delivers
            ∙ ap (λ xs. xs ++ end) (shown ∙ ap (λ xs. xs ++ text) greeted)
            ∙ append_assoc (delivered sock d.world.trace ++ greeting) text end
            ∙ append_assoc (delivered sock d.world.trace) greeting (text ++ end),
        gone.calls_none ∙ called ∙ ap (λ cs. cs ++ made) same1,
        gone.no_client,
        gone.empty,
        gone.good,
      )
