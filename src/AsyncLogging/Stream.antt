-- ===== src/AsyncLogging/Stream.antt =====
-- The asynchronous log in every interleaving: no assert fails but the first, where the thread begins
-- too late, and the log file gets the bytes that were appended, in order.
use telnet_serv.Prelude.{
  ℕ, ◌-◌, ◌^◌, ◌≤◌, ◌<◌, ◌≡◌, ◌↔◌, refl, sym, ◌∙◌, ap, inl, inr, false, List, [], ◌∷◌, ◌++◌, map,
  length, take, arith, concat, concat-append, subst, append_assoc, append-nil, min, length-take,
  Bool-cases, ltb, le→ltb, if◌then◌else◌,
}
use telnet_serv.FixedBuffer.{FixedBuffer, as_string}
use telnet_serv.MsgBuf.{
  Writer, Outcome, moved, blocked, fault, MsgBuf, append_locked, recycle, resize_two,
}
use telnet_serv.MsgBuf.Threads.{
  System, Phase, starting, head, waiting, writing, finished, begin_loop, enter_loop, take_over,
}
use telnet_serv.MsgBuf.Inv.{
  IsSize, All, All-take, MsgInv, Inv, Rested, Loaded, Moves, Moves-bind, Keeps, Moves-Keeps,
}
use telnet_serv.MsgBuf.Append.{queued_bytes, pending, append_locked-Moves}
use telnet_serv.MsgBuf.Round.{recycle-Moves, resize_two_lem, Backed-mono}
use telnet_serv.MsgBuf.Stream.{stream, take_over-Moves, enter_loop-Moves}
use telnet_serv.AsyncLogging.{
  drop_excess, dropped_text, chunks, write_buffers, write_out, Action, log, stop, begin, enter,
  wake, write, append, step,
}

concat-map : (bs : List FixedBuffer) → concat (map as_string bs) ≡ queued_bytes bs
concat-map [] = refl
concat-map (b ∷ bs) = ap (◌++◌ (as_string b)) (concat-map bs)

-- The note of a round that drops buffers.
abbrev pub note : List ℕ → List FixedBuffer → List ℕ
note when bs = if ltb 25 (length bs) then dropped_text when (length bs - 2) else []

concat-chunks :
    (when : List ℕ) (bs : List FixedBuffer)
    → concat (chunks when bs) ≡ note when bs ++ queued_bytes (drop_excess bs)
unfolding chunks
concat-chunks when bs = elim (Bool-cases (ltb 25 (length bs))) [
  | inl e ↦ rw e (ap (◌++◌ (dropped_text when (length bs - 2))) (concat-map (drop_excess bs)))
  | inr e ↦ rw e (concat-map (drop_excess bs))
]

drop_excess-eq : (bs : List FixedBuffer) → length bs ≤ 25 → drop_excess bs ≡ bs
unfolding drop_excess
drop_excess-eq bs h = rw (le→ltb 25 (length bs) h)

-- The thread starts after the loop was stopped.
abbrev pub Late : System → Action → Type 0
Late s begin = (s.phase ≡ starting) × (s.running ≡ false)
Late s _ = ⊥

-- An append passes no more bytes than its line has, and `int` holds their number.
abbrev pub IsCall : Action → Type 0
IsCall (log logline len) = (len ≤ length logline) × (len < 2 ^ 31)
IsCall _ = Unit {0}

-- A write with at most 25 buffers.
abbrev pub IsCalm : System → Action → Type 0
IsCalm s (write when) = (s.phase ≡ writing) → length s.writer.to_write ≤ 25
IsCalm s _ = Unit {0}

module _ (size : ℕ) where
  -- The bytes of an action that appends. FixedBuffer::append takes nothing of a line that no buffer
  -- has room for.
  abbrev pub logged : Action → List ℕ
  logged (log logline len) = if ltb len size then take len logline else []
  logged _ = []

  drop_excess_lem :
      (bs : List FixedBuffer)
      → All size bs
      → All size (drop_excess bs) × (min 2 (length bs) ≤ length (drop_excess bs))
  unfolding drop_excess
  drop_excess_lem bs all = elim (Bool-cases (ltb 25 (length bs))) [
    | inl e ↦ rw e (All-take size 2 bs all, omega (arith, length-take 2 bs))
    | inr e ↦ rw e (all, omega arith)
  ]

  -- What is behind the critical section, written out, leaves both spares ready.
  abbrev Written : List ℕ → Writer → List (List ℕ) × Writer → Type 0
  Written when w p =
      Rested size p.1 × (concat p.0 ≡ note when w.to_write ++ queued_bytes (drop_excess w.to_write))

  write_buffers-Moves :
      (when : List ℕ) (w : Writer) → Loaded size w → Moves (Written when w) (write_buffers when w)
  unfolding write_buffers
  write_buffers-Moves when w l =
      let kept = drop_excess_lem w.to_write l.2 in
      let cut = resize_two_lem size (drop_excess w.to_write) kept.0 in
      Moves-bind _ _ (recycle w.new1 (resize_two (drop_excess w.to_write))) _
        (recycle-Moves size w.new1 (resize_two (drop_excess w.to_write)) 0 (rw (l.0) tt) cut.0
          (rw (l.0) (omega (arith, kept.1, cut.1, l.3))))
        λ (b1, rest1) h1.
          Moves-bind _ _ (recycle w.new2 rest1) _
            (recycle-Moves size w.new2 rest1 0 l.1 h1.1 (
              Backed-mono size w.new2 2 1 w.to_write rest1
                (λ k. omega (arith, kept.1, cut.1, h1.2, k)) l.4))
            λ (b2, rest2) h2. ((h1.0, h2.0, refl), concat-chunks when w.to_write)

  pub write_out-Moves :
      (when : List ℕ) (s : System)
      → MsgInv size s.msg
      → Loaded size s.writer
      → Moves
          (λ t.
            Inv size t
            × (concat t.handed_on
                ≡ concat s.handed_on
                  ++ (note when s.writer.to_write ++ queued_bytes (drop_excess s.writer.to_write)))
            × (stream t ≡ concat t.handed_on ++ pending s.msg))
          (write_out when s)
  unfolding write_out
  write_out-Moves when s v l =
      Moves-bind _ _ (write_buffers when s.writer) _ (write_buffers-Moves when s.writer l)
        λ (ms, w) h.
          (record { msg_inv = v; phase_inv = h.0 }, simp (concat-append s.handed_on ms, h.1), refl)

module _ (size : ℕ) (memory : List ℕ) (sized : IsSize size memory) where
  append-Moves :
      (m : MsgBuf) (logline : List ℕ) (len : ℕ)
      → MsgInv size m
      → len ≤ length logline
      → len < 2 ^ 31
      → Moves
          (λ m'. MsgInv size m' × (pending m' ≡ pending m ++ logged size (log logline len)))
          (append size memory logline len m)
  unfolding append append_locked
  append-Moves m logline len v h k = append_locked-Moves size memory sized m logline len v h k

  -- What an action makes of the invariant and the stream.
  abbrev pub After : System → Action → System → Type 0
  After s a t = Inv size t × (IsCalm s a → stream t ≡ stream s ++ logged size a)

  -- The assert at the start of the thread fails exactly if the loop was stopped before.
  begin-Keeps :
      (s : System) (ph : Phase)
      → let t : System = record s { phase = ph } in
        Inv size t → Keeps (Late t begin) (After t begin) (step size memory t begin)
  unfolding step begin_loop
  begin-Keeps s starting v =
      let t : System = record s { phase = starting } in
      elim (Bool-cases s.running) [
        | inl on ↦ rw on (
          record { msg_inv = v.msg_inv; phase_inv = v.phase_inv },
          λ _. sym (append-nil (stream t)),
        )
        | inr off ↦ rw off (refl, refl)
      ]
  begin-Keeps s head v = tt
  begin-Keeps s waiting v = tt
  begin-Keeps s writing v = tt
  begin-Keeps s finished v = tt

  enter-Keeps :
      (s : System) (ph : Phase)
      → let t : System = record s { phase = ph } in
        Inv size t → Keeps ⊥ (After t enter) (step size memory t enter)
  unfolding step
  enter-Keeps s head v =
      let t : System = record s { phase = head } in
      Moves-Keeps ⊥ _ _ (enter_loop t) (enter_loop-Moves size t v.msg_inv v.phase_inv)
        λ u h. (h.0, λ _. h.1 ∙ sym (append-nil (stream t)))
  enter-Keeps s starting v = tt
  enter-Keeps s waiting v = tt
  enter-Keeps s writing v = tt
  enter-Keeps s finished v = tt

  wake-Keeps :
      (s : System) (ph : Phase)
      → let t : System = record s { phase = ph } in
        Inv size t → Keeps ⊥ (After t wake) (step size memory t wake)
  unfolding step
  wake-Keeps s waiting v =
      let t : System = record s { phase = waiting } in
      Moves-Keeps ⊥ _ _ (take_over t) (take_over-Moves size t v.msg_inv v.phase_inv)
        λ u h. (h.0, λ _. h.1 ∙ sym (append-nil (stream t)))
  wake-Keeps s starting v = tt
  wake-Keeps s head v = tt
  wake-Keeps s writing v = tt
  wake-Keeps s finished v = tt

  write-Keeps :
      (s : System) (ph : Phase) (when : List ℕ)
      → let t : System = record s { phase = ph } in
        Inv size t → Keeps ⊥ (After t (write when)) (step size memory t (write when))
  unfolding step
  write-Keeps s writing when v =
      let t : System = record s { phase = writing } in
      Moves-Keeps ⊥ _ _ (write_out when t) (write_out-Moves size when t v.msg_inv v.phase_inv)
        λ u h. (
          h.0,
          λ calm.
              h.2
              ∙ rw
                  (
                    h.1,
                    drop_excess-eq t.writer.to_write (calm refl),
                    le→ltb 25 (length t.writer.to_write) (calm refl),
                  )
                  (simp (append_assoc, append-nil)),
        )
  write-Keeps s starting when v = tt
  write-Keeps s head when v = tt
  write-Keeps s waiting when v = tt
  write-Keeps s finished when v = tt

  log-Moves :
      (s : System) (logline : List ℕ) (len : ℕ)
      → len ≤ length logline
      → len < 2 ^ 31
      → Inv size s
      → Moves (After s (log logline len)) (step size memory s (log logline len))
  unfolding step
  log-Moves s logline len h k v =
      Moves-bind (λ m. MsgInv size m × (pending m ≡ pending s.msg ++ logged size (log logline len)))
        (After s (log logline len)) (append size memory logline len s.msg) _
        (append-Moves s.msg logline len v.msg_inv h k)
        λ m p. (record { msg_inv = p.0; phase_inv = v.phase_inv }, λ _. simp (p.1, append_assoc))

  step-Keeps :
      (s : System) (a : Action)
      → IsCall a
      → Inv size s
      → Keeps (Late s a) (After s a) (step size memory s a)
  unfolding step
  step-Keeps s (log logline len) call v =
      Moves-Keeps ⊥ _ _ (step size memory s (log logline len))
        (log-Moves s logline len call.0 call.1 v) λ t h. h
  step-Keeps s stop call v =
      let m = v.msg_inv in
      (
        record {
          msg_inv = record { held = m.held; spare = m.spare; filled = m.filled; backed = m.backed };
          phase_inv = v.phase_inv;
        },
        λ _. sym (append-nil (stream s)),
      )
  step-Keeps s begin call v = begin-Keeps s s.phase v
  step-Keeps s enter call v = enter-Keeps s s.phase v
  step-Keeps s wake call v = wake-Keeps s s.phase v
  step-Keeps s (write when) call v = write-Keeps s s.phase when v

  pub step-Inv :
      {s t : System} (a : Action)
      → IsCall a
      → Inv size s
      → step size memory s a ≡ moved t
      → After s a t
  step-Inv {s} a call v e = subst (Keeps (Late s a) (After s a)) e (step-Keeps s a call v)

  Late-fault : (s : System) (a : Action) → Late s a → step size memory s a ≡ fault
  unfolding step begin_loop
  Late-fault s begin late = ap (λ (ph : Phase). at_phase ph s) late.0 ∙ simp (late.1)
    where
      at_phase : Phase → System → Outcome System
      at_phase ph s = elim ph [ starting ↦ begin_loop s | _ ↦ blocked ]
  Late-fault s (log logline len) late = absurd late
  Late-fault s stop late = absurd late
  Late-fault s enter late = absurd late
  Late-fault s wake late = absurd late
  Late-fault s (write when) late = absurd late

  -- An action faults exactly if it is the start of the thread after the loop was stopped.
  pub fault-Late :
      (s : System) (a : Action) → IsCall a → Inv size s → (step size memory s a ≡ fault) ↔ Late s a
  fault-Late s a call v =
      (λ e. subst (Keeps (Late s a) (After s a)) e (step-Keeps s a call v), Late-fault s a)
