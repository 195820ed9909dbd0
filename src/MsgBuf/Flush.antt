-- ===== src/MsgBuf/Flush.antt =====
-- A round of the log thread: what is pending at its start has been handed on at its end.
use telnet_serv.Prelude.{
  ℕ, ◌+◌, ◌≤◌, ◌<◌, ◌≡◌, refl, ap, subst, ◌∙◌, true, false, List, [], ◌∷◌, ◌++◌, length, arith,
  concat, concat-append,
}
use telnet_serv.FixedBuffer.{FixedBuffer}
use telnet_serv.MsgBuf.{Outcome, moved, blocked, swap_buffers, write_buffers}
use telnet_serv.MsgBuf.Threads.{
  System, Action, Phase, head, waiting, writing, enter, wake, write, take_over, wait_if_empty,
  enter_loop, write_out, step, run,
}
use telnet_serv.MsgBuf.Inv.{IsSize, MsgInv, PhaseInv, Rested, Loaded, Moves, Moves-bind, Moves-eq}
use telnet_serv.MsgBuf.Append.{queued_bytes, pending}
use telnet_serv.MsgBuf.Round.{swap_buffers-Moves, write_buffers-Moves}
use telnet_serv.MsgBuf.Stream.{
  stream, in_flight, IsCalm, is_empty_cons, asserts_hold_lem, drop_excess-eq,
}
use telnet_serv.MsgBuf.Reach.{Reach, Reach-Inv, stream_lem, step-write}

module _ (size : ℕ) where
  -- Behind the critical section: all that was pending is taken.
  abbrev pub Taken : System → System → Type 0
  Taken s t =
      (t.phase ≡ writing)
      × Loaded size t.writer
      × (queued_bytes t.writer.to_write ≡ pending s.msg)
      × (pending t.msg ≡ [])
      × (length t.writer.to_write ≡ length s.msg.buffers + 1)
      × (t.handed_on ≡ s.handed_on)

  pub take_over-Taken :
      (s : System) → MsgInv size s.msg → Rested size s.writer → Moves (Taken s) (take_over s)
  unfolding take_over
  take_over-Taken s v r =
      Moves-bind _ _ (swap_buffers s.msg s.writer) _ (swap_buffers-Moves size s.msg s.writer v r)
        λ (m, w) h. rw (is_empty_cons w.to_write h.1.3) (refl, h.1, h.2, h.3, h.4, refl)

  -- Behind the writing of at most 25 buffers: all of them are handed on, and the rest is as before.
  abbrev Flushed : System → System → Type 0
  Flushed s t =
      (t.phase ≡ head)
      × (concat t.handed_on ≡ concat s.handed_on ++ queued_bytes s.writer.to_write)
      × (t.msg ≡ s.msg)

  write_out-Flushed :
      (s : System)
      → Loaded size s.writer
      → length s.writer.to_write ≤ 25
      → Moves (Flushed s) (write_out s)
  unfolding write_out
  write_out-Flushed s l few =
      Moves-bind _ _ (write_buffers s.writer) _ (write_buffers-Moves size s.writer l) λ (ms, w) h.
        (refl, simp (concat-append s.handed_on ms, h.1, drop_excess-eq s.writer.to_write few), refl)

module _ (size : ℕ) (memory : List ℕ) where
  step-enter : (s : System) → s.phase ≡ head → step size memory s enter ≡ enter_loop s
  unfolding step
  step-enter s e = ap (λ (ph : Phase). at_phase ph s) e
    where
      at_phase : Phase → System → Outcome System
      at_phase ph s = elim ph [ head ↦ enter_loop s | _ ↦ blocked ]

  step-wake : (s : System) → s.phase ≡ writing → step size memory s wake ≡ blocked
  unfolding step
  step-wake s e = ap (λ (ph : Phase). at_phase ph s) e
    where
      at_phase : Phase → System → Outcome System
      at_phase ph s = elim ph [ waiting ↦ take_over s | _ ↦ blocked ]

  pub run-moved :
      (s t : System) (a : Action) (acts : List Action)
      → step size memory s a ≡ moved t
      → run size memory s (a ∷ acts) ≡ run size memory t acts
  unfolding run
  run-moved s t a acts e = rw (run, e)

  pub run-blocked :
      (s : System) (a : Action) (acts : List Action)
      → step size memory s a ≡ blocked
      → run size memory s (a ∷ acts) ≡ run size memory s acts
  unfolding run
  run-blocked s a acts e = rw (run, e)

  -- What a round from `s` comes to.
  abbrev Sends : System → Outcome System → Type 0
  Sends s o =
      (t : System) × (o ≡ moved t)
      × (concat t.handed_on ≡ concat s.handed_on ++ pending s.msg)
      × (pending t.msg ≡ [])
      × (t.phase ≡ head)

  run-write :
      (s t : System)
      → Taken size s t
      → length s.msg.buffers < 25
      → Sends s (run size memory t (write ∷ []))
  unfolding run
  run-write s t h few =
      let (u, e, f) =
        Moves-eq _ (write_out t) (write_out-Flushed size t h.1 (omega (arith, h.4))) in
      (
        u,
        run-moved t u write [] (step-write size memory t h.0 ∙ e),
        f.1 ∙ rw (h.5, h.2),
        ap pending f.2 ∙ h.3,
        f.0,
      )

  run-take :
      (s : System)
      → MsgInv size s.msg
      → Rested size s.writer
      → length s.msg.buffers < 25
      → (t : System) × (take_over s ≡ moved t)
        × (t.phase ≡ writing)
        × Sends s (run size memory t (write ∷ []))
  run-take s v r few =
      let (t, e, h) = Moves-eq _ (take_over s) (take_over-Taken size s v r) in
      (t, e, h.0, run-write s t h few)

  pub enter_running :
      (s : System)
      → s.running ≡ true
      → Rested size s.writer
      → enter_loop s ≡ wait_if_empty s.msg.buffers s
  unfolding enter_loop
  enter_running s on r = simp (on, asserts_hold_lem size s.writer r)

  -- A round, by whether there are full buffers at its start.
  round_cases :
      (s : System) (bufs : List FixedBuffer)
      → s.msg.buffers ≡ bufs
      → s.phase ≡ head
      → s.running ≡ true
      → MsgInv size s.msg
      → Rested size s.writer
      → length s.msg.buffers < 25
      → Sends s (run size memory s (enter ∷ wake ∷ write ∷ []))
  unfolding wait_if_empty step
  round_cases s [] none_full ph on v r few =
      let asleep : System = record s { msg = record s.msg { notified = false }; phase = waiting } in
      let entered : step size memory s enter ≡ moved asleep =
        step-enter s ph ∙ enter_running s on r ∙ ap (λ bs. wait_if_empty bs s) none_full in
      let (t, e, p, (u, f, sent, none_left, at_end)) =
        run-take asleep
          (record { held = v.held; spare = v.spare; filled = v.filled; backed = v.backed }) r few in
      (
        u,
        run-moved s asleep enter (wake ∷ write ∷ []) entered
            ∙ run-moved asleep t wake (write ∷ []) e
            ∙ f,
        sent,
        none_left,
        at_end,
      )
  round_cases s (b ∷ bs) full ph on v r few =
      let (t, e, p, (u, f, sent, none_left, at_end)) = run-take s v r few in
      let entered : step size memory s enter ≡ moved t =
        step-enter s ph ∙ enter_running s on r ∙ ap (λ bs. wait_if_empty bs s) full ∙ e in
      (
        u,
        run-moved s t enter (wake ∷ write ∷ []) entered
            ∙ run-blocked t wake (write ∷ []) (step-wake t p)
            ∙ f,
        sent,
        none_left,
        at_end,
      )

pub at_head : (s : System) → s.phase ≡ head → in_flight s.phase s.writer ≡ []
at_head s e = ap (λ (ph : Phase). in_flight ph s.writer) e

-- After any calm run, with the server running, the log thread at the head of its loop and at most
-- 24 full buffers waiting: one more round of the log thread, in which it wakes up if it waits, comes
-- to its end, and then exactly the bytes that were logged since the start have been passed to
-- sendMsgToTerminal, in order,
-- and none is pending.
pub round_sends_all :
    (size : ℕ) (memory : List ℕ) (sized : IsSize size memory) {s : System} {bytes : List ℕ}
    → Reach size memory IsCalm s bytes
    → s.phase ≡ head
    → s.running ≡ true
    → length s.msg.buffers < 25
    → (t : System) × (run size memory s (enter ∷ wake ∷ write ∷ []) ≡ moved t)
      × (concat t.handed_on ≡ bytes)
      × (pending t.msg ≡ [])
      × (t.phase ≡ head)
round_sends_all size memory sized {s = s} r ph on few =
    let v = Reach-Inv size memory sized r in
    let rested : Rested size s.writer = subst (λ p. PhaseInv size p s.writer) ph v.phase_inv in
    let (t, e, sent, none_left, at_end) =
      round_cases size memory s s.msg.buffers refl ph on v.msg_inv rested few in
    let all : concat s.handed_on ++ pending s.msg ≡ stream s = rw (at_head s ph) in
    (t, e, sent ∙ all ∙ stream_lem size memory sized r, none_left, at_end)
