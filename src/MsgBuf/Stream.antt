-- ===== src/MsgBuf/Stream.antt =====
-- LogOutPutFun with any number of threads that log: every interleaving is free of null pointers and of
-- failed asserts but for the first one, and the bytes handed on are the bytes logged, in order.
use telnet_serv.Prelude.{
  ℕ, ◌-◌, ◌≤◌, ◌<◌, ◌≡◌, ◌↔◌, refl, sym, ◌∙◌, ap, inl, inr, Bool, true, false, Option, none, some,
  List, [], ◌∷◌, ◌++◌, length, arith, concat, concat-append, subst, append_assoc, append-nil,
  length-append, Bool-cases, lt→ltb, le→ltb, drop_of_length,
}
use telnet_serv.FixedBuffer.{FixedBuffer}
use telnet_serv.MsgBuf.{
  Writer, Outcome, moved, blocked, fault, append_to_msg_buf, swap_buffers, write_buffers,
  drop_excess,
}
use telnet_serv.MsgBuf.Threads.{
  System, Phase, starting, head, waiting, writing, finished, Action, log, stop, begin, enter, wake,
  write, is_empty, take_over, wait_if_empty, asserts_hold, begin_loop, enter_loop, write_out, step,
}
use telnet_serv.MsgBuf.Inv.{
  IsSize, MsgInv, Inv, Rested, Loaded, Moves, Moves-bind, Keeps, Moves-Keeps,
}
use telnet_serv.MsgBuf.Append.{queued_bytes, pending, accepted, append-Moves}
use telnet_serv.MsgBuf.Round.{swap_buffers-Moves, write_buffers-Moves}

-- The bytes that the log thread has taken and not handed on yet.
abbrev pub in_flight : Phase → Writer → List ℕ
in_flight writing w = queued_bytes w.to_write
in_flight _ w = []

-- All bytes from the first: handed on, taken by the log thread, pending.
abbrev pub stream : System → List ℕ
stream s = concat s.handed_on ++ (in_flight s.phase s.writer ++ pending s.msg)

-- What an action adds at the end of the stream.
abbrev pub logged : Action → List ℕ
logged (log client logline len) = accepted client logline len
logged _ = []

-- The thread starts after the loop was stopped.
abbrev pub Late : System → Action → Type 0
Late s begin = (s.phase ≡ starting) × (s.running ≡ false)
Late s _ = ⊥

-- A log action passes no more bytes than its line has.
abbrev pub IsCall : Action → Type 0
IsCall (log client logline len) = len ≤ length logline
IsCall _ = Unit {0}

pub is_empty_cons : (bs : List FixedBuffer) → 1 ≤ length bs → is_empty bs ≡ false
is_empty_cons [] h = absurd (omega arith)
is_empty_cons (b ∷ bs) h = refl

module _ (size : ℕ) where
  -- The critical section moves the pending bytes to the log thread, and loses none.
  pub take_over-Moves :
      (s : System)
      → MsgInv size s.msg
      → Rested size s.writer
      → Moves (λ t. Inv size t × (stream t ≡ concat s.handed_on ++ pending s.msg)) (take_over s)
  unfolding take_over
  take_over-Moves s v r =
      Moves-bind _ _ (swap_buffers s.msg s.writer) _ (swap_buffers-Moves size s.msg s.writer v r)
        λ (m, w) h.
          rw (is_empty_cons w.to_write h.1.3)
            (record { msg_inv = h.0; phase_inv = h.1 }, simp (h.2, h.3, append-nil))

  wait_if_empty-Moves :
      (bs : List FixedBuffer) (s : System)
      → MsgInv size s.msg
      → Rested size s.writer
      → Moves
          (λ t. Inv size t × (stream t ≡ concat s.handed_on ++ pending s.msg))
          (wait_if_empty bs s)
  unfolding wait_if_empty
  wait_if_empty-Moves [] s v r = (
    record {
      msg_inv = record { held = v.held; spare = v.spare; filled = v.filled; backed = v.backed };
      phase_inv = r;
    },
    refl,
  )
  wait_if_empty-Moves (b ∷ bs) s v r = take_over-Moves s v r

  asserts_fields :
      (a b : Option FixedBuffer) (tw : List FixedBuffer)
      → let w : Writer = record { new1 = a; new2 = b; to_write = tw } in
        Rested size w → asserts_hold w ≡ true
  unfolding asserts_hold
  asserts_fields none b tw r = absurd r.0
  asserts_fields (some a) none tw r = absurd r.1
  asserts_fields (some a) (some b) [] r = rw (r.0.1, r.1.1)
  asserts_fields (some a) (some b) (t ∷ tw) r = cc (r.2)

  pub asserts_hold_lem : (w : Writer) → Rested size w → asserts_hold w ≡ true
  asserts_hold_lem w r = asserts_fields w.new1 w.new2 w.to_write r

  pub enter_loop-Moves :
      (s : System)
      → MsgInv size s.msg
      → Rested size s.writer
      → Moves (λ t. Inv size t × (stream t ≡ concat s.handed_on ++ pending s.msg)) (enter_loop s)
  unfolding enter_loop
  enter_loop-Moves s v r = elim (Bool-cases s.running) [
    | inl e ↦ simp (e, asserts_hold_lem s.writer r) (wait_if_empty-Moves s.msg.buffers s v r)
    | inr e ↦ simp e (record { msg_inv = v; phase_inv = r }, refl)
  ]

  -- The writing hands all bytes of the buffers that are not dropped on, in order.
  write_out-Moves :
      (s : System)
      → MsgInv size s.msg
      → Loaded size s.writer
      → Moves
          (λ t.
            Inv size t
            × (stream t
                ≡ concat s.handed_on
                  ++ (queued_bytes (drop_excess s.writer.to_write) ++ pending s.msg)))
          (write_out s)
  unfolding write_out
  write_out-Moves s v l =
      Moves-bind _ _ (write_buffers s.writer) _ (write_buffers-Moves size s.writer l) λ (ms, w) h. (
        record { msg_inv = v; phase_inv = h.0 },
        simp (concat-append s.handed_on ms, h.1, append_assoc),
      )

-- How many buffers a write finds beyond the 25 that it never drops from.
abbrev pub IsCalm : System → Action → Type 0
IsCalm s write = (s.phase ≡ writing) → length s.writer.to_write ≤ 25
IsCalm s _ = Unit {0}

-- With at most 25 buffers nothing is dropped.
pub drop_excess-eq : (bs : List FixedBuffer) → length bs ≤ 25 → drop_excess bs ≡ bs
unfolding drop_excess
drop_excess-eq bs h = rw (le→ltb 25 (length bs) h)

module _ (size : ℕ) (memory : List ℕ) (sized : IsSize size memory) where
  -- What an action makes of the invariant and the stream.
  abbrev After : System → Action → System → Type 0
  After s a t = Inv size t × (IsCalm s a → stream t ≡ stream s ++ logged a)

  -- The assert at the start of the thread fails exactly if the loop was stopped before.
  begin-Keeps :
      (s : System) (ph : Phase)
      → let t : System = record s { phase = ph } in
        Inv size t → Keeps (Late t begin) (After t begin) (step size memory t begin)
  unfolding step begin_loop
  begin-Keeps s starting v =
      let t : System = record s { phase = starting } in
      elim (Bool-cases s.running) [
        | inl on ↦ rw on (
          record { msg_inv = v.msg_inv; phase_inv = v.phase_inv },
          λ _. sym (append-nil (stream t)),
        )
        | inr off ↦ rw off (refl, refl)
      ]
  begin-Keeps s head v = tt
  begin-Keeps s waiting v = tt
  begin-Keeps s writing v = tt
  begin-Keeps s finished v = tt

  enter-Keeps :
      (s : System) (ph : Phase)
      → let t : System = record s { phase = ph } in
        Inv size t → Keeps ⊥ (After t enter) (step size memory t enter)
  unfolding step
  enter-Keeps s head v =
      let t : System = record s { phase = head } in
      Moves-Keeps ⊥ _ _ (enter_loop t) (enter_loop-Moves size t v.msg_inv v.phase_inv)
        λ u h. (h.0, λ _. h.1 ∙ sym (append-nil (stream t)))
  enter-Keeps s starting v = tt
  enter-Keeps s waiting v = tt
  enter-Keeps s writing v = tt
  enter-Keeps s finished v = tt

  wake-Keeps :
      (s : System) (ph : Phase)
      → let t : System = record s { phase = ph } in
        Inv size t → Keeps ⊥ (After t wake) (step size memory t wake)
  unfolding step
  wake-Keeps s starting v = tt
  wake-Keeps s head v = tt
  wake-Keeps s waiting v =
      let t : System = record s { phase = waiting } in
      Moves-Keeps ⊥ _ _ (take_over t) (take_over-Moves size t v.msg_inv v.phase_inv)
        λ u h. (h.0, λ _. h.1 ∙ sym (append-nil (stream t)))
  wake-Keeps s writing v = tt
  wake-Keeps s finished v = tt

  write-Keeps :
      (s : System) (ph : Phase)
      → let t : System = record s { phase = ph } in
        Inv size t → Keeps ⊥ (After t write) (step size memory t write)
  unfolding step
  write-Keeps s starting v = tt
  write-Keeps s head v = tt
  write-Keeps s waiting v = tt
  write-Keeps s writing v =
      let t : System = record s { phase = writing } in
      Moves-Keeps ⊥ _ _ (write_out t) (write_out-Moves size t v.msg_inv v.phase_inv) λ u h. (
        h.0,
        λ calm.
            h.1 ∙ rw (drop_excess-eq t.writer.to_write (calm refl)) (sym (append-nil (stream t))),
      )
  write-Keeps s finished v = tt

  log-Moves :
      (s : System) (client : Bool) (logline : List ℕ) (len : ℕ)
      → len ≤ length logline
      → Inv size s
      → Moves (After s (log client logline len)) (step size memory s (log client logline len))
  unfolding step
  log-Moves s client logline len call v =
      Moves-bind (λ m. MsgInv size m × (pending m ≡ pending s.msg ++ accepted client logline len))
        (After s (log client logline len)) (append_to_msg_buf size memory client logline len s.msg)
        _ (append-Moves size memory sized client logline len s.msg v.msg_inv call)
        λ m h. (record { msg_inv = h.0; phase_inv = v.phase_inv }, λ _. simp (h.1, append_assoc))

  -- Every action, of any thread, in any state that keeps the invariant: no assert fails but for the
  -- first one when it is late, no null pointer is used, the invariant is kept, and the stream grows by what is logged, unless the
  -- action writes with more than 25 buffers.
  pub step-Keeps :
      (s : System) (a : Action)
      → IsCall a
      → Inv size s
      → Keeps (Late s a) (After s a) (step size memory s a)
  unfolding step
  step-Keeps s (log client logline len) call v =
      Moves-Keeps ⊥ _ _ (step size memory s (log client logline len))
        (log-Moves s client logline len call v) λ t h. h
  step-Keeps s stop call v =
      let m = v.msg_inv in
      (
        record {
          msg_inv = record { held = m.held; spare = m.spare; filled = m.filled; backed = m.backed };
          phase_inv = v.phase_inv;
        },
        λ _. sym (append-nil (stream s)),
      )
  step-Keeps s begin call v = begin-Keeps s s.phase v
  step-Keeps s enter call v = enter-Keeps s s.phase v
  step-Keeps s wake call v = wake-Keeps s s.phase v
  step-Keeps s write call v = write-Keeps s s.phase v

  -- An action that moves keeps the invariant.
  pub step-Inv :
      {s t : System} (a : Action)
      → IsCall a
      → Inv size s
      → step size memory s a ≡ moved t
      → After s a t
  step-Inv {s} a call v e = subst (Keeps (Late s a) (After s a)) e (step-Keeps s a call v)

  Late-fault : (s : System) (a : Action) → Late s a → step size memory s a ≡ fault
  unfolding step begin_loop
  Late-fault s begin late = ap (λ (ph : Phase). at_phase ph s) late.0 ∙ simp (late.1)
    where
      at_phase : Phase → System → Outcome System
      at_phase ph s = elim ph [ starting ↦ begin_loop s | _ ↦ blocked ]
  Late-fault s (log client logline len) late = absurd late
  Late-fault s stop late = absurd late
  Late-fault s enter late = absurd late
  Late-fault s wake late = absurd late
  Late-fault s write late = absurd late

  -- An action faults exactly if it is the start of the thread after the loop was stopped.
  pub fault-Late :
      (s : System) (a : Action) → IsCall a → Inv size s → (step size memory s a ≡ fault) ↔ Late s a
  fault-Late s a call v =
      (λ e. subst (Keeps (Late s a) (After s a)) e (step-Keeps s a call v), Late-fault s a)

-- A round that finds more than 25 buffers hands on the last two only, whose bytes are the latest.
pub drop_excess_last :
    (bs : List FixedBuffer) (a b : FixedBuffer)
    → 23 < length bs
    → drop_excess (bs ++ (a ∷ b ∷ [])) ≡ a ∷ b ∷ []
unfolding drop_excess
drop_excess_last bs a b h =
    rw (lt→ltb 25 (length (bs ++ (a ∷ b ∷ []))) (omega (arith, length-append bs (a ∷ b ∷ [])))) (
      drop_of_length (length (bs ++ (a ∷ b ∷ [])) - 2) bs (a ∷ b ∷ [])
        (omega (arith, length-append bs (a ∷ b ∷ []))))
