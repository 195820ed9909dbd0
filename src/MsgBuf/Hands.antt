-- ===== src/MsgBuf/Hands.antt =====
-- What each action of the message buffers' threads passes to sendMsgToTerminal.
use telnet_serv.Prelude.{
  ℕ, ◌≡◌, refl, sym, ap, List, [], ◌∷◌, ◌++◌, append-nil, Bool-cases, inl, inr,
}
use telnet_serv.FixedBuffer.{FixedBuffer}
use telnet_serv.MsgBuf.{
  Writer, Outcome, moved, blocked, fault, ◌>>=◌, swap_buffers, recycle, resize_two, drop_excess,
  messages, write_buffers, append_to_msg_buf,
}
use telnet_serv.MsgBuf.Threads.{
  System, Phase, starting, head, waiting, writing, finished, Action, log, stop, begin, enter, wake,
  write, is_empty, asserts_hold, begin_loop, enter_loop, wait_if_empty, take_over, write_out, step,
}

-- The messages that an action passes on.
abbrev pub handed : Action → System → List (List ℕ)
handed write s = messages (drop_excess s.writer.to_write)
handed _ s = []

-- If it moves, then to a value with `P`.
abbrev pub Moved : {A : Type 0} → (A → Type 0) → Outcome A → Type 0
Moved P (moved t) = P t
Moved P _ = Unit

pub Moved-bind :
    {A B : Type 0} (P : A → Type 0) (Q : B → Type 0) (o : Outcome A) (f : A → Outcome B)
    → Moved P o
    → ((a : A) → P a → Moved Q (f a))
    → Moved Q (o >>= f)
Moved-bind P Q (moved a) f h k = k a h
Moved-bind P Q blocked f h k = tt
Moved-bind P Q fault f h k = tt

abbrev pub Any : {A : Type 0} → A → Type 0
Any a = Unit {0}

pub Moved-Any : {A : Type 0} (o : Outcome A) → Moved Any o
Moved-Any (moved a) = tt
Moved-Any blocked = tt
Moved-Any fault = tt

-- The log thread has passed `ms` on.
abbrev pub Hands : System → List (List ℕ) → System → Type 0
Hands s ms t = t.handed_on ≡ s.handed_on ++ ms

pub nothing : (s : System) → s.handed_on ≡ s.handed_on ++ []
nothing s = sym (append-nil s.handed_on)

pub take_over-Hands : (s : System) → Moved (Hands s []) (take_over s)
unfolding take_over
take_over-Hands s =
    Moved-bind Any (Hands s []) (swap_buffers s.msg s.writer) _ (Moved-Any _) λ (m, w) any.
      elim (Bool-cases (is_empty w.to_write)) [ inl e ↦ rw e tt | inr e ↦ rw e (nothing s) ]

wait_if_empty-Hands : (bs : List FixedBuffer) (s : System) → Moved (Hands s []) (wait_if_empty bs s)
unfolding wait_if_empty
wait_if_empty-Hands [] s = nothing s
wait_if_empty-Hands (b ∷ bs) s = take_over-Hands s

pub begin_loop-Hands : (s : System) → Moved (Hands s []) (begin_loop s)
unfolding begin_loop
begin_loop-Hands s = elim (Bool-cases s.running) [
  | inl on ↦ rw on (nothing s)
  | inr off ↦ rw off tt
]

pub enter_loop-Hands : (s : System) → Moved (Hands s []) (enter_loop s)
unfolding enter_loop
enter_loop-Hands s = elim (Bool-cases s.running) [
  | inr off ↦ simp off (nothing s)
  | inl on ↦ elim (Bool-cases (asserts_hold s.writer)) [
    | inl good ↦ simp (on, good) (wait_if_empty-Hands s.msg.buffers s)
    | inr bad ↦ simp (on, bad) tt
  ]
]

write_buffers-messages :
    (w : Writer)
    → Moved
        (λ (p : List (List ℕ) × Writer). p.0 ≡ messages (drop_excess w.to_write))
        (write_buffers w)
unfolding write_buffers
write_buffers-messages w =
    Moved-bind Any _ (recycle w.new1 (resize_two (drop_excess w.to_write))) _ (Moved-Any _)
      λ p any. Moved-bind Any _ (recycle w.new2 p.1) _ (Moved-Any _) λ q any'. refl

write_out-Hands :
    (s : System) → Moved (Hands s (messages (drop_excess s.writer.to_write))) (write_out s)
unfolding write_out
write_out-Hands s =
    Moved-bind _ _ (write_buffers s.writer) _ (write_buffers-messages s.writer)
      λ p e. ap (λ (ms : List (List ℕ)). s.handed_on ++ ms) e

module _ (size : ℕ) (memory : List ℕ) where
  pub step-Hands :
      (s : System) (a : Action) (ph : Phase)
      → let t : System = record s { phase = ph } in
        Moved (Hands t (handed a t)) (step size memory t a)
  unfolding step
  step-Hands s (log client logline len) ph =
      Moved-bind Any _ (append_to_msg_buf size memory client logline len s.msg) _ (Moved-Any _)
        λ m any. nothing s
  step-Hands s stop ph = nothing s
  step-Hands s begin starting = begin_loop-Hands (record s { phase = starting })
  step-Hands s enter head = enter_loop-Hands (record s { phase = head })
  step-Hands s wake waiting = take_over-Hands (record s { phase = waiting })
  step-Hands s write writing = write_out-Hands (record s { phase = writing })
  step-Hands s begin head = tt
  step-Hands s begin waiting = tt
  step-Hands s begin writing = tt
  step-Hands s begin finished = tt
  step-Hands s enter starting = tt
  step-Hands s enter waiting = tt
  step-Hands s enter writing = tt
  step-Hands s enter finished = tt
  step-Hands s wake starting = tt
  step-Hands s wake head = tt
  step-Hands s wake writing = tt
  step-Hands s wake finished = tt
  step-Hands s write starting = tt
  step-Hands s write head = tt
  step-Hands s write waiting = tt
  step-Hands s write finished = tt
