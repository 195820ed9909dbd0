-- ===== src/Daemon/Events.antt =====
-- A line that arrives byte by byte, an event for each.
use telnet_serv.Prelude.{
  ℕ, ◌<◌, ◌≡◌, refl, sym, ap, ◌∙◌, true, false, Option, some, List, [], ◌∷◌, ◌++◌, map, append-nil,
  ◌==◌, eq→==, arith, subst, append_assoc,
}
use telnet_serv.Os.{delivered, calls}
use telnet_serv.Sock.Delivery.{Recovers}
use telnet_serv.Args.Items.{Item}
use telnet_serv.Args.Written.{line_of}
use telnet_serv.Terminal.{Exec, ret, no_fuel, overflow, ◌>>=◌, Daemon, codes}
use telnet_serv.Daemon.{
  key_of, return_char, Received, byte, EpollEvent, is_client, on_key, on_return, handle_event,
  handle_events,
}
use telnet_serv.Daemon.Line.{Holds, Fits, edit, echo, edit_all, echo_all, key-Edits}
use telnet_serv.Daemon.Call.{paras_of, IsLine}
use telnet_serv.Daemon.Submit.{AtPrompt, Answers, LineDone, LineDone-after, return_line}

-- The event that says that a socket can be read.
abbrev pub input : ℕ → EpollEvent
input sock = record { fd = sock; hup = false; inp = true; err = false }

-- One such event for each byte.
abbrev pub inputs : ℕ → List ℕ → List EpollEvent
inputs sock [] = []
inputs sock (b ∷ bs) = input sock ∷ inputs sock bs

is_client_self : (o : Option ℕ) (sock : ℕ) → o ≡ some sock → is_client o sock ≡ true
is_client_self o sock e = ap (λ c. is_client c sock) e ∙ eq→== sock sock refl

pub inputs-append :
    (sock : ℕ) (xs ys : List ℕ) → inputs sock (xs ++ ys) ≡ inputs sock xs ++ inputs sock ys
inputs-append sock [] ys = refl
inputs-append sock (x ∷ xs) ys = ap (◌∷◌ (input sock)) (inputs-append sock xs ys)

module _ {W : Type 0} (send : ℕ → List ℕ → W → Option ℕ × W) (invoke : ℕ → List ℕ → W → ℕ × W)
    (base : ℕ) (accept : ℕ → W → Option ℕ × W) (recv : ℕ → W → Received × W) (fuel : ℕ) where
  after_first :
      (o : Exec (Daemon W)) (f g : Daemon W → Exec (Daemon W)) (r : Exec (Daemon W)) (d1 : Daemon W)
      → ((x : Daemon W) → f x ≡ ret d1 → g x ≡ r)
      → (o >>= f) ≡ ret d1
      → (o >>= g) ≡ r
  after_first (ret x) f g r d1 h e = h x e
  after_first no_fuel f g r d1 h e = cc
  after_first overflow f g r d1 h e = cc

  pub handle_events-append :
      (xs ys : List EpollEvent) (d d1 : Daemon W)
      → handle_events send invoke base accept recv fuel xs d ≡ ret d1
      → handle_events send invoke base accept recv fuel (xs ++ ys) d
        ≡ handle_events send invoke base accept recv fuel ys d1
  unfolding handle_events
  handle_events-append [] ys d d1 e =
      ap (λ o. o >>= handle_events send invoke base accept recv fuel ys) e
  handle_events-append (x ∷ xs) ys d d1 e =
      after_first (handle_event send invoke base accept recv fuel x d) _ _ _ d1
        (λ d2 k. handle_events-append xs ys d2 d1 k) e

-- In a state with `Q bs` the bytes `bs` are what recv will give; sending and the registered functions
-- keep that, and the network recovers in each such state.
module _ {W : Type 0} (send : ℕ → List ℕ → W → Option ℕ × W) (invoke : ℕ → List ℕ → W → ℕ × W)
    (base : ℕ) (accept : ℕ → W → Option ℕ × W) (recv : ℕ → W → Received × W) (sock : ℕ)
    (Q : List ℕ → W → Type 0) (rec : (bs : List ℕ) → Recovers send sock (Q bs))
    (feeds : (b : ℕ) (bs : List ℕ) (os : W)
      → Q (b ∷ bs) os
      → (os' : W) × (recv sock os ≡ (byte b, os')) × Q bs os')
    (fuel : ℕ) (enough : 300 < fuel) where
  handle_input :
      (b : ℕ) (d : Daemon W) (os' : W)
      → d.client ≡ some sock
      → (sock == d.serv) ≡ false
      → recv sock d.world.os ≡ (byte b, os')
      → handle_event send invoke base accept recv fuel (input sock) d
        ≡ on_key send invoke base fuel (key_of b) (record d { world = record d.world { os = os' } })
  unfolding handle_event
  handle_input b d os' c other got = rw (other, is_client_self d.client sock c, got) refl

  -- Keys that edit, from a held line on.
  pub edit_events :
      (bs rest line : List ℕ) (d : Daemon W)
      → Fits line (map key_of bs)
      → Holds d line
      → d.client ≡ some sock
      → (sock == d.serv) ≡ false
      → Q (bs ++ rest) d.world.os
      → (d' : Daemon W) × (handle_events send invoke base accept recv fuel (inputs sock bs) d
          ≡ ret d')
        × Holds d' (edit_all line (map key_of bs))
        × (d'.client ≡ some sock)
        × (delivered sock d'.world.trace
            ≡ delivered sock d.world.trace ++ echo_all line (map key_of bs))
        × ((calls d'.world.trace ≡ calls d.world.trace) × (d'.table ≡ d.table) × (d'.serv ≡ d.serv))
        × Q rest d'.world.os
  unfolding handle_events
  edit_events [] rest line d fit holds c other q =
      (d, refl, holds, c, sym (append-nil (delivered sock d.world.trace)), (refl, refl, refl), q)
  edit_events (b ∷ bs) rest line d fit holds c other q =
      let (os', got, q') = feeds b (bs ++ rest) d.world.os q in
      let d1 : Daemon W = record d { world = record d.world { os = os' } } in
      let holds1 : Holds d1 line = record {
        chars = holds.chars;
        count = holds.count;
        short = holds.short;
      } in
      let k = key_of b in
      let (d2, e2, h2, c2, shown, (same, table, serv), q2) =
        key-Edits send invoke base sock (Q (bs ++ rest)) (rec (bs ++ rest)) fuel (omega arith) k
          line d1 fit.0 fit.1 holds1 c q' in
      let (d3, e3, h3, c3, later, (same3, table3, serv3), q3) =
        edit_events bs rest (edit line k) d2 fit.2 h2 c2 (ap (λ s. sock == s) serv ∙ other) q2 in
      (
        d3,
        rw (handle_input b d os' c other got, e2) e3,
        h3,
        c3,
        later
            ∙ ap (λ xs. xs ++ echo_all (edit line k) (map key_of bs)) shown
            ∙ append_assoc (delivered sock d.world.trace) (echo line k)
                (echo_all (edit line k) (map key_of bs)),
        (same3 ∙ same, table3 ∙ table, serv3 ∙ serv),
        q3,
      )

  -- RETURN.
  pub return_event :
      (rest : List ℕ) (d : Daemon W)
      → d.client ≡ some sock
      → (sock == d.serv) ≡ false
      → Q (return_char ∷ rest) d.world.os
      → (os' : W) × ((d' : Daemon W)
          → on_return send invoke base fuel (record d { world = record d.world { os = os' } })
            ≡ ret d'
          → handle_events send invoke base accept recv fuel (inputs sock (return_char ∷ [])) d
            ≡ ret d')
        × Q rest os'
  unfolding handle_events key_of
  return_event rest d c other q =
      let (os', got, q') = feeds return_char rest d.world.os q in
      (os', λ d' e. ap (λ o. o >>= λ x. ret x) (handle_input return_char d os' c other got ∙ e), q')

  -- Keys that edit an empty line, and RETURN.
  pub line_events :
      (bs rest : List ℕ) (name : List ℕ) (items : List Item) (d : Daemon W) (answer : W → List ℕ)
      (made : W → List (ℕ × List ℕ × ℕ))
      → Fits [] (map key_of bs)
      → edit_all [] (map key_of bs) ≡ line_of name items
      → IsLine base name items
      → (sock == d.serv) ≡ false
      → AtPrompt sock (Q (bs ++ return_char ∷ rest)) d
      → Answers send invoke base sock (Q rest) fuel d name (paras_of base name items) answer made
      → (d' : Daemon W) × (handle_events send invoke base accept recv fuel
            (inputs sock (bs ++ return_char ∷ []))
            d
          ≡ ret d')
        × LineDone sock
            (Q rest)
            d
            d'
            (echo_all [] (map key_of bs) ++ (line_of name items ++ codes "\r\n"))
            answer
            made
  line_events bs rest name items d answer made fit leaves it other at answers =
      let (d1, e1, h1, c1, shown, (same, table, serv), q1) =
        edit_events bs (return_char ∷ rest) [] d fit at.holds at.is_client other at.good in
      let (os', returns, q2) = return_event rest d1 c1 (ap (λ s. sock == s) serv ∙ other) q1 in
      let d2 : Daemon W = record d1 { world = record d1.world { os = os' } } in
      let holds2 : Holds d2 (edit_all [] (map key_of bs)) = record {
        chars = h1.chars;
        count = h1.count;
        short = h1.short;
      } in
      let (d3, e3, done) =
        return_line send invoke base sock (Q rest) (rec rest) fuel enough name items d2 answer made
          it (subst (Holds d2) leaves holds2) c1 q2 (λ x cx t p. answers x cx (t ∙ table) p) in
      (
        d3,
        ap (λ evs. handle_events send invoke base accept recv fuel evs d)
              (inputs-append sock bs (return_char ∷ []))
            ∙ handle_events-append send invoke base accept recv fuel (inputs sock bs)
                (inputs sock (return_char ∷ [])) d d1 e1
            ∙ returns d3 e3,
        LineDone-after sock (Q rest) d d2 d3 (echo_all [] (map key_of bs))
            (line_of name items ++ codes "\r\n") answer made shown same table serv done,
      )
