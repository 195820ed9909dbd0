-- ===== src/AsyncLogging/Reach.antt =====
-- Whole runs of the asynchronous log, and what its end leaves behind.
use telnet_serv.Prelude.{
  ℕ, ◌-◌, ◌<◌, ◌≡◌, ◌↔◌, refl, sym, ◌∙◌, ap, subst, false, List, [], ◌∷◌, ◌++◌, length, replicate,
  length-replicate, arith, concat, append-nil, lt→ltb,
}
use telnet_serv.FixedBuffer
use telnet_serv.FixedBuffer.{FixedBuffer, as_string, bzero}
use telnet_serv.FixedBuffer.Contents.{IsValid}
use telnet_serv.MsgBuf.{MsgBuf, Outcome, moved, blocked, fault, ◌>>=◌}
use telnet_serv.MsgBuf.Threads.{System, Phase, head, writing, finished, enter_loop}
use telnet_serv.MsgBuf.Inv.{IsSize, Inv, PhaseInv, Moves-eq}
use telnet_serv.MsgBuf.Append.{pending}
use telnet_serv.MsgBuf.Stream.{stream}
use telnet_serv.AsyncLogging.{
  Action, log, stop, begin, enter, wake, write, append, init, step, write_out, drop_excess,
  dropped_text,
}
use telnet_serv.AsyncLogging.Stream.{
  IsCall, IsCalm, Late, logged, write_out-Moves, step-Inv, fault-Late,
}

-- If an action moves, then to a state with `P`.
abbrev Leads : (System → Type 0) → Outcome System → Type 0
Leads P (moved t) = P t
Leads P _ = Unit

module _ (size : ℕ) (memory : List ℕ) where
  -- The states that threads can bring about from the start by actions with `P`, with all bytes that
  -- they have appended.
  pub data Reach (P : System → Action → Type 0) : System → List ℕ → Type 0 where
    start : Reach P (init size memory) []
    next :
        {s t : System} {bytes : List ℕ}
        → Reach P s bytes
        → (a : Action) → IsCall a
        → P s a
        → step size memory s a ≡ moved t
        → Reach P t (bytes ++ logged size a)

  pub init-Inv : Inv size (init size memory)
  unfolding init bzero FixedBuffer.init
  init-Inv =
      let valid : IsValid size (record { chars = replicate size 0; cur = 0 }) = record {
        whole = length-replicate size 0;
        inside = omega arith;
      } in
      record {
        msg_inv = record { held = valid; spare = (valid, refl); filled = tt; backed = tt };
        phase_inv = ((valid, refl), (valid, refl), refl);
      }

  init-stream : stream (init size memory) ≡ []
  unfolding init bzero FixedBuffer.init as_string
  init-stream = refl

  -- A run from a state, by actions that move.
  pub data Runs (s : System) : System → Type 0 where
    here : Runs s s
    then_by : {t u : System} → Runs s t → (a : Action) → step size memory t a ≡ moved u → Runs s u

  -- The thread has left its loop, and the log file has got the same.
  abbrev pub Ended : System → System → Type 0
  Ended s t = (t.phase ≡ finished) × (t.handed_on ≡ s.handed_on)

  log-Ended :
      (s : System) (o : Outcome MsgBuf)
      → let t : System = record s { phase = finished } in
        Leads (Ended t) (o >>= λ m. moved (record t { msg = m }))
  log-Ended s (moved m) = (refl, refl)
  log-Ended s blocked = tt
  log-Ended s fault = tt

  finished-Ended :
      (s : System) (a : Action)
      → let t : System = record s { phase = finished } in Leads (Ended t) (step size memory t a)
  unfolding step
  finished-Ended s (log logline len) = log-Ended s (append size memory logline len s.msg)
  finished-Ended s stop = (refl, refl)
  finished-Ended s begin = tt
  finished-Ended s enter = tt
  finished-Ended s wake = tt
  finished-Ended s (write when) = tt

  step-Ended :
      (t : System) {u : System}
      → t.phase ≡ finished
      → (a : Action) → step size memory t a ≡ moved u
      → Ended t u
  step-Ended t ph a e = subst (Leads (Ended t)) e (
      subst (λ p. Leads (Ended t) (step size memory (record t { phase = p }) a)) (sym ph)
        (finished-Ended t a))

  Runs-Ended : {s t : System} → s.phase ≡ finished → Runs s t → Ended s t
  Runs-Ended ph here = (ph, refl)
  Runs-Ended ph (then_by {t = t} r a e) =
      let before = Runs-Ended ph r in
      let after = step-Ended t before.0 a e in (after.0, after.1 ∙ before.1)

  pub step-enter : (s : System) → s.phase ≡ head → step size memory s enter ≡ enter_loop s
  unfolding step
  step-enter s e = ap (λ (ph : Phase). at_phase ph s) e
    where
      at_phase : Phase → System → Outcome System
      at_phase ph s = elim ph [ head ↦ enter_loop s | _ ↦ blocked ]

  leave : (s : System) → s.running ≡ false → enter_loop s ≡ moved (record s { phase = finished })
  unfolding enter_loop
  leave s off = simp off

  -- When the thread comes to the head of its loop after `stop`, it ends, and the bytes that are
  -- pending then stay pending; whatever runs after that, the log file gets nothing more.
  pub stop_keeps_pending :
      (s : System)
      → s.phase ≡ head
      → s.running ≡ false
      → (t : System) × (step size memory s enter ≡ moved t)
        × (pending t.msg ≡ pending s.msg)
        × ((u : System) → Runs t u → u.handed_on ≡ s.handed_on)
  stop_keeps_pending s ph off =
      let t : System = record s { phase = finished } in
      (t, step-enter s ph ∙ leave s off, refl, λ u r. (Runs-Ended refl r).1)

pub step-write :
    (size : ℕ) (memory : List ℕ) (s : System) (when : List ℕ)
    → s.phase ≡ writing
    → step size memory s (write when) ≡ write_out when s
unfolding step
step-write size memory s when e = ap (λ (ph : Phase). at_phase ph s) e
  where
    at_phase : Phase → System → Outcome System
    at_phase ph s = elim ph [ writing ↦ write_out when s | _ ↦ blocked ]

drop_excess_first :
    (bs : List FixedBuffer) (a b : FixedBuffer)
    → 23 < length bs
    → drop_excess (a ∷ b ∷ bs) ≡ a ∷ b ∷ []
unfolding drop_excess
drop_excess_first bs a b h = rw (lt→ltb 25 (length (a ∷ b ∷ bs)) (omega arith))

module _ (size : ℕ) (memory : List ℕ) (sized : IsSize size memory) where
  pub Reach-Inv :
      {P : System → Action → Type 0} {s : System} {bytes : List ℕ}
      → Reach size memory P s bytes
      → Inv size s
  Reach-Inv start = init-Inv size memory
  Reach-Inv (next r a call p e) = (step-Inv size memory sized a call (Reach-Inv r) e).0

  -- In every state that the threads of the asynchronous log can reach from the start of its
  -- thread, with appends of any length that int holds, which pass no more bytes than their line
  -- has, the next action fails an assert of threadFunc or uses a null buffer exactly if it is the
  -- thread's first, assert(running_ == true), and running_ has already been cleared; every other
  -- action in every order is free of both.
  pub async_no_fault :
      {P : System → Action → Type 0} {s : System} {bytes : List ℕ}
      → Reach size memory P s bytes
      → (a : Action) → IsCall a
      → (step size memory s a ≡ fault) ↔ Late s a
  async_no_fault {s = s} r a call = fault-Late size memory sized s a call (Reach-Inv r)

  -- In every run in which no write finds more than 25 buffers, the bytes handed to the log file,
  -- those that its thread has taken and those that are pending are together the bytes appended, in
  -- the order of the calls.
  pub async_stream :
      {s : System} {bytes : List ℕ} → Reach size memory IsCalm s bytes → stream s ≡ bytes
  async_stream start = init-stream size memory
  async_stream (next r a call calm e) =
      (step-Inv size memory sized a call (Reach-Inv r) e).1 calm
      ∙ ap (λ bs. bs ++ logged size a) (async_stream r)

  -- A write that finds more than 25 buffers hands on a note of how many it drops, and then the first
  -- two buffers, which hold the oldest bytes; the others are dropped.
  pub write_drops_newest :
      (s : System) (when : List ℕ) (a b : FixedBuffer) (bs : List FixedBuffer)
      → Inv size s
      → s.phase ≡ writing
      → s.writer.to_write ≡ a ∷ b ∷ bs
      → 23 < length bs
      → (t : System) × (step size memory s (write when) ≡ moved t)
        × (concat t.handed_on
            ≡ concat s.handed_on ++ (dropped_text when (length bs) ++ (as_string a ++ as_string b)))
  write_drops_newest s when a b bs v ph tw many =
      let (t, e, p) = Moves-eq _ (write_out when s) (
        write_out-Moves size when s v.msg_inv
          (subst (λ p. PhaseInv size p s.writer) ph v.phase_inv)) in
      let two : length (a ∷ b ∷ bs) - 2 ≡ length bs = omega arith in
      (
        t,
        step-write size memory s when ph ∙ e,
        p.1
            ∙ rw (
              tw,
              drop_excess_first bs a b many,
              lt→ltb 25 (length (a ∷ b ∷ bs)) (omega arith),
              two,
              append-nil,
            ),
      )
