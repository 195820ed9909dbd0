-- ===== src/MsgBuf/Round.antt =====
-- One round of LogOutPutFun: the critical section loads the locals, and the writing hands the
-- messages on and leaves two empty spare buffers.
use telnet_serv.Prelude.{
  ℕ, ◌+◌, suc, ◌-◌, ◌≤◌, ◌≡◌, refl, ap, inl, inr, Bool, Option, none, some, List, [], ◌∷◌, ◌++◌,
  ltb, ◌==◌, length, arith, concat, ==→eq, min, append-nil, length-append, length-take, length-drop,
  Bool-cases,
}
use telnet_serv.FixedBuffer.{FixedBuffer, as_string, reset_data}
use telnet_serv.FixedBuffer.Contents.{IsValid, reset_data-IsValid}
use telnet_serv.MsgBuf.{
  MsgBuf, Writer, swap_buffers, write_buffers, pop_back, recycle, resize_two, drop_excess, messages,
}
use telnet_serv.MsgBuf.Inv.{
  All, All-append, All-drop, All-take, IsFresh, Spare, Backed, MsgInv, Rested, Loaded, Moves,
  Moves-bind,
}
use telnet_serv.MsgBuf.Append.{queued_bytes, queued_bytes-append, pending}

-- The messages are the queued bytes: only empty buffers are skipped.
pub concat-messages : (bs : List FixedBuffer) → concat (messages bs) ≡ queued_bytes bs
unfolding messages as_string
concat-messages [] = refl
concat-messages (b ∷ bs) = elim (Bool-cases (b.cur == 0)) [
  | inl e ↦ rw (e, messages, ==→eq b.cur 0 e) (concat-messages bs)
  | inr e ↦ rw (e, messages) (ap (◌++◌ (as_string b)) (concat-messages bs))
]

module _ (size : ℕ) where
  pop_back-All :
      (b : FixedBuffer) (bs : List FixedBuffer)
      → All size (b ∷ bs)
      → (rest : List FixedBuffer) × (last : FixedBuffer) × (pop_back (b ∷ bs) ≡ some (rest, last))
        × All size rest
        × IsValid size last
        × (length rest ≡ length bs)
  unfolding pop_back
  pop_back-All b [] h = ([], b, refl, tt, h.0, refl)
  pop_back-All b (c ∷ bs) h =
      let (rest, last, e, all, v, n) = pop_back-All c bs h.1 in
      (b ∷ rest, last, rw (e), (h.0, all), v, ap suc n)

  pub recycle-Moves :
      (o : Option FixedBuffer) (bs : List FixedBuffer) (n : ℕ)
      → Spare size o
      → All size bs
      → Backed size o (suc n) bs
      → Moves (λ p. IsFresh size p.0 × All size p.1 × (length bs ≤ suc (length p.1))) (recycle o bs)
  unfolding recycle reset_data
  recycle-Moves (some b) bs n s all k = (s, all, omega arith)
  recycle-Moves none [] n s all k = absurd (omega arith)
  recycle-Moves none (b ∷ bs) n s all k =
      let (rest, last, e, all', v, m) = pop_back-All b bs all in
      rw e (((reset_data-IsValid size last v).0, refl), all', omega arith)

  pub drop_excess_lem :
      (bs : List FixedBuffer)
      → All size bs
      → All size (drop_excess bs) × (min 2 (length bs) ≤ length (drop_excess bs))
  unfolding drop_excess
  drop_excess_lem bs all = elim (Bool-cases (ltb 25 (length bs))) [
    | inl e ↦
        rw e (All-drop size (length bs - 2) bs all, omega (arith, length-drop (length bs - 2) bs))
    | inr e ↦ rw e (all, omega arith)
  ]

  pub resize_two_lem :
      (bs : List FixedBuffer)
      → All size bs
      → All size (resize_two bs) × (min 2 (length bs) ≤ length (resize_two bs))
  unfolding resize_two
  resize_two_lem bs all = elim (Bool-cases (ltb 2 (length bs))) [
    | inl e ↦ rw e (All-take size 2 bs all, omega (arith, length-take 2 bs))
    | inr e ↦ rw e (all, omega arith)
  ]

  -- The critical section moves all pending bytes to the log thread.
  abbrev Swapped : MsgBuf → MsgBuf × Writer → Type 0
  Swapped m p =
      MsgInv size p.0
      × Loaded size p.1
      × (queued_bytes p.1.to_write ≡ pending m)
      × (pending p.0 ≡ [])
      × (length p.1.to_write ≡ length m.buffers + 1)

  swap_fields :
      (cur a b : FixedBuffer) (next : Option FixedBuffer) (bufs : List FixedBuffer) (n : Bool)
      → let m : MsgBuf = record { current = some cur; next = next; buffers = bufs; notified = n } in
        let w : Writer = record { new1 = some a; new2 = some b; to_write = [] } in
        MsgInv size m → IsFresh size a → IsFresh size b → Moves (Swapped m) (swap_buffers m w)
  unfolding swap_buffers as_string
  swap_fields cur a b none bufs n v fa fb = (
    record { held = fa.0; spare = fb; filled = tt; backed = tt },
    (
      refl,
      tt,
      All-append size bufs (cur ∷ []) v.filled (v.held, tt),
      omega (arith, length-append bufs (cur ∷ [])),
      omega (arith, length-append bufs (cur ∷ []), v.backed),
    ),
    simp (queued_bytes-append, append-nil),
    rw (fa.1),
    length-append bufs (cur ∷ []),
  )
  swap_fields cur a b (some c) bufs n v fa fb = (
    record { held = fa.0; spare = v.spare; filled = tt; backed = tt },
    (
      refl,
      fb,
      All-append size bufs (cur ∷ []) v.filled (v.held, tt),
      omega (arith, length-append bufs (cur ∷ [])),
      tt,
    ),
    simp (queued_bytes-append, append-nil),
    rw (fa.1),
    length-append bufs (cur ∷ []),
  )

  swap_options :
      (c a b next : Option FixedBuffer) (bufs to_write : List FixedBuffer) (n : Bool)
      → let m : MsgBuf = record { current = c; next = next; buffers = bufs; notified = n } in
        let w : Writer = record { new1 = a; new2 = b; to_write = to_write } in
        MsgInv size m → Rested size w → Moves (Swapped m) (swap_buffers m w)
  swap_options none a b next bufs tw n v r = absurd v.held
  swap_options (some c) none b next bufs tw n v r = absurd r.0
  swap_options (some c) (some a) none next bufs tw n v r = absurd r.1
  swap_options (some c) (some a) (some b) next bufs [] n v r =
      swap_fields c a b next bufs n v r.0 r.1
  swap_options (some c) (some a) (some b) next bufs (t ∷ tw) n v r = cc (r.2)

  pub swap_buffers-Moves :
      (m : MsgBuf) (w : Writer)
      → MsgInv size m
      → Rested size w
      → Moves (Swapped m) (swap_buffers m w)
  swap_buffers-Moves m w =
      swap_options m.current w.new1 w.new2 m.next m.buffers w.to_write m.notified

  -- What is behind the critical section, written out, leaves both spares ready.
  abbrev Written : Writer → List (List ℕ) × Writer → Type 0
  Written w p = Rested size p.1 × (concat p.0 ≡ queued_bytes (drop_excess w.to_write))

  pub Backed-mono :
      (o : Option FixedBuffer) (n k : ℕ) (bs cs : List FixedBuffer)
      → (n ≤ length bs → k ≤ length cs)
      → Backed size o n bs
      → Backed size o k cs
  Backed-mono none n k bs cs f h = f h
  Backed-mono (some b) n k bs cs f h = tt

  pub write_buffers-Moves : (w : Writer) → Loaded size w → Moves (Written w) (write_buffers w)
  unfolding write_buffers
  write_buffers-Moves w l =
      let kept = drop_excess_lem w.to_write l.2 in
      let cut = resize_two_lem (drop_excess w.to_write) kept.0 in
      Moves-bind _ _ (recycle w.new1 (resize_two (drop_excess w.to_write))) _
        (recycle-Moves w.new1 (resize_two (drop_excess w.to_write)) 0 (rw (l.0) tt) cut.0
          (rw (l.0) (omega (arith, kept.1, cut.1, l.3))))
        λ (b1, rest1) h1.
          Moves-bind _ _ (recycle w.new2 rest1) _
            (recycle-Moves w.new2 rest1 0 l.1 h1.1 (
              Backed-mono w.new2 2 1 w.to_write rest1 (λ k. omega (arith, kept.1, cut.1, h1.2, k))
                l.4))
            λ (b2, rest2) h2. ((h1.0, h2.0, refl), concat-messages (drop_excess w.to_write))
