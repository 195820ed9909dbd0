-- ===== src/Terminal/Clients.antt =====
-- Which clients are accepted and closed, and that writing to the terminal does neither.
use telnet_serv.Prelude.{
  ℕ, zero, suc, ◌+◌, ◌≡◌, refl, ◌∙◌, [], ◌∷◌, ◌++◌, Bool, true, false, Option, none, some, List,
  ltb, leb, ◌==◌, if◌then◌else◌, length, take, drop, arith, Bool-cases, inl, inr, append-nil,
}
use telnet_serv.Os.{World, Event, sent, watched, calls, calls-append}
use telnet_serv.Listen.Ports.{closes, closes-append, held}
use telnet_serv.Sock.{
  add_ret, note_sent, try_send, send_loop, sent_all, sock_send, send_msg_to_terminal,
}
use telnet_serv.CmdTable.{CmdFunTable}
use telnet_serv.Terminal.{
  Exec, ret, no_fuel, overflow, ◌>>=◌, Daemon, codes, send_msg, push_msg, prompt_show, sent_or_fuel,
  help_line, help_lines, telhelp,
}

-- How often a socket became the client.
abbrev pub accepts : ℕ → List Event → ℕ
accepts fd [] = 0
accepts fd (watched s ∷ es) = (if s == fd then 1 else 0) + accepts fd es
accepts fd (e ∷ es) = accepts fd es

pub accepts-append :
    (fd : ℕ) (xs ys : List Event) → accepts fd (xs ++ ys) ≡ accepts fd xs + accepts fd ys
accepts-append fd [] ys = omega arith
accepts-append fd (watched s ∷ xs) ys = omega (arith, accepts-append fd xs ys)
accepts-append fd (e ∷ xs) ys = accepts-append fd xs ys

-- From one state to a later one: the clients that came, and the one there was, are those closed
-- and the one there is.
abbrev pub Settled : {W : Type 0} → Daemon W → Daemon W → Type 0
Settled d d' =
    (fd : ℕ)
    → accepts fd d'.world.trace + (closes fd d.world.trace + held fd d.client)
      ≡ accepts fd d.world.trace + (closes fd d'.world.trace + held fd d'.client)

-- The same of a run, if it ends.
abbrev pub Ends : {W : Type 0} → Daemon W → Exec (Daemon W) → Type 0
Ends d (ret d') = Settled d d'
Ends d no_fuel = Unit
Ends d overflow = Unit

-- No client comes or is closed, and no registered function is called.
abbrev pub Quiet : {W : Type 0} → World W → World W → Type 0
Quiet w w' =
    (fd : ℕ)
    → (accepts fd w'.trace ≡ accepts fd w.trace)
      × (closes fd w'.trace ≡ closes fd w.trace)
      × (calls w'.trace ≡ calls w.trace)

abbrev pub QuietRun : {W A : Type 0} → World W → Option (A × World W) → Type 0
QuietRun w none = Unit
QuietRun w (some (a, w')) = Quiet w w'

abbrev QuietLoop : {W : Type 0} → World W → Option (World W) → Type 0
QuietLoop w none = Unit
QuietLoop w (some w') = Quiet w w'

pub Ends-after :
    {W : Type 0} (d d1 : Daemon W) (o : Exec (Daemon W)) → Settled d d1 → Ends d1 o → Ends d o
Ends-after d d1 (ret d2) h k = λ fd. omega (arith, h fd, k fd)
Ends-after d d1 no_fuel h k = tt
Ends-after d d1 overflow h k = tt

pub Ends-bind :
    {W : Type 0} (d : Daemon W) (o : Exec (Daemon W)) (f : Daemon W → Exec (Daemon W))
    → Ends d o
    → ((d1 : Daemon W) → Ends d1 (f d1))
    → Ends d (o >>= f)
Ends-bind d (ret d1) f h k = Ends-after d d1 (f d1) h (k d1)
Ends-bind d no_fuel f h k = tt
Ends-bind d overflow f h k = tt

QuietLoop-after :
    {W : Type 0} (w w1 : World W) (o : Option (World W))
    → Quiet w w1
    → QuietLoop w1 o
    → QuietLoop w o
QuietLoop-after w w1 none h k = tt
QuietLoop-after w w1 (some w2) h k =
    λ fd. ((k fd).0 ∙ (h fd).0, (k fd).1 ∙ (h fd).1, (k fd).2 ∙ (h fd).2)

module _ {W : Type 0} (send : ℕ → List ℕ → W → Option ℕ × W) where
  note_sent-Quiet :
      (sock : ℕ) (chunk : List ℕ) (o : Option ℕ) (w : World W) → Quiet w (note_sent sock chunk o w)
  unfolding note_sent
  note_sent-Quiet sock chunk none w fd = (refl, refl, refl)
  note_sent-Quiet sock chunk (some n) w fd = (
    omega (arith, accepts-append fd w.trace (sent sock (take n chunk) ∷ [])),
    omega (arith, closes-append fd w.trace (sent sock (take n chunk) ∷ [])),
    calls-append w.trace (sent sock (take n chunk) ∷ []) ∙ append-nil (calls w.trace),
  )

  send_loop-Quiet :
      (fuel sock : ℕ) (buf : List ℕ) (len total : ℕ) (w : World W)
      → QuietLoop w (send_loop send fuel sock buf len total w)
  unfolding send_loop
  send_loop-Quiet zero sock buf len total w = tt
  send_loop-Quiet (suc fuel) sock buf len total w = elim (Bool-cases (ltb total len)) [
    | inl e ↦
        let chunk = drop total (take len buf) in
        let tried = try_send send 3 sock chunk w.os in
        let w1 : World W = note_sent sock chunk tried.0 (record w { os = tried.1 }) in
        rw (e, send_loop)
          (QuietLoop-after w w1 _ (note_sent-Quiet sock chunk tried.0 (record w { os = tried.1 }))
            (send_loop-Quiet fuel sock buf len (add_ret total tried.0) w1))
    | inr e ↦ rw (e, send_loop) (λ fd. (refl, refl, refl))
  ]

  sent-Ends :
      (d : Daemon W) (o : Option (Bool × World W))
      → QuietRun d.world o
      → Ends d (sent_or_fuel send d o)
  sent-Ends d none h = tt
  sent-Ends d (some (b, w)) h = λ fd. omega (arith, (h fd).0, (h fd).1)

  all-Quiet : (w : World W) (o : Option (World W)) → QuietLoop w o → QuietRun w (sent_all send o)
  all-Quiet w none h = tt
  all-Quiet w (some v) h = h

  pub terminal-Quiet :
      (fuel : ℕ) (client : Option ℕ) (msg : List ℕ) (w : World W)
      → QuietRun w (send_msg_to_terminal send fuel client (some msg) (length msg) w)
  unfolding send_msg_to_terminal sock_send
  terminal-Quiet fuel none msg w = λ fd. (refl, refl, refl)
  terminal-Quiet fuel (some sock) msg w =
      all-Quiet w (send_loop send fuel sock msg (length msg) 0 w)
        (send_loop-Quiet fuel sock msg (length msg) 0 w)

  send_msg-Ends : (fuel : ℕ) (msg : List ℕ) (d : Daemon W) → Ends d (send_msg send fuel msg d)
  unfolding send_msg
  send_msg-Ends fuel msg d = sent-Ends d _ (terminal-Quiet fuel d.client msg d.world)

  push_cases :
      (b c : Bool) (fuel : ℕ) (text : List ℕ) (d : Daemon W)
      → Ends d (if b then overflow else if c then ret d else send_msg send fuel text d)
  push_cases true c fuel text d = tt
  push_cases false true fuel text d = λ fd. refl
  push_cases false false fuel text d = send_msg-Ends fuel text d

  -- A run that is for a client only.
  pub if_client-Ends :
      (d : Daemon W) (o : Option ℕ) (run : Exec (Daemon W))
      → Ends d run
      → Ends d (elim o [ none ↦ ret d | some sock ↦ run ])
  if_client-Ends d none run h = λ fd. refl
  if_client-Ends d (some sock) run h = h

  pub push_msg-Ends : (fuel : ℕ) (text : List ℕ) (d : Daemon W) → Ends d (push_msg send fuel text d)
  unfolding push_msg
  push_msg-Ends fuel text d =
      if_client-Ends d d.client _
        (push_cases (leb 2000 (length text)) (length text == 0) fuel text d)

  pub prompt_show-Ends : (fuel : ℕ) (d : Daemon W) → Ends d (prompt_show send fuel d)
  unfolding prompt_show
  prompt_show-Ends fuel d =
      if_client-Ends d d.client _ (send_msg-Ends fuel (codes "->" ++ 0 ∷ []) d)

  help_lines-Ends :
      (fuel : ℕ) (table : CmdFunTable) (d : Daemon W) → Ends d (help_lines send fuel table d)
  unfolding help_lines
  help_lines-Ends fuel [] d = λ fd. refl
  help_lines-Ends fuel ((key, info) ∷ table) d =
      Ends-bind d _ _ (push_msg-Ends fuel (help_line send info) d)
        (λ d1. help_lines-Ends fuel table d1)

  pub telhelp-Ends : (fuel : ℕ) (d : Daemon W) → Ends d (telhelp send fuel d)
  unfolding telhelp
  telhelp-Ends fuel d = if_client-Ends d d.client _ (
      Ends-bind d _ (λ d1. help_lines send fuel d1.table d1) (push_msg-Ends fuel _ d)
        (λ d1. help_lines-Ends fuel d1.table d1))
