-- ===== src/MsgBuf/Reach.antt =====
-- Whole runs of the log thread and the threads that log, in every interleaving.
use telnet_serv.Prelude.{
  ℕ, ◌<◌, ◌≡◌, ◌↔◌, refl, ◌∙◌, ap, subst, List, [], ◌∷◌, ◌++◌, length, replicate, length-replicate,
  arith, concat, concat-append, append-nil,
}
use telnet_serv.FixedBuffer
use telnet_serv.FixedBuffer.{FixedBuffer, as_string, bzero}
use telnet_serv.FixedBuffer.Contents.{IsValid}
use telnet_serv.MsgBuf.{Outcome, moved, blocked, fault, write_buffers, drop_excess}
use telnet_serv.MsgBuf.Threads.{System, Action, Phase, writing, write, step, init, write_out}
use telnet_serv.MsgBuf.Inv.{IsSize, Inv, Loaded, PhaseInv, Moves, Moves-bind, Moves-eq}
use telnet_serv.MsgBuf.Append.{queued_bytes}
use telnet_serv.MsgBuf.Round.{write_buffers-Moves}
use telnet_serv.MsgBuf.Stream.{
  IsCall, IsCalm, Late, logged, stream, step-Inv, fault-Late, drop_excess_last,
}

module _ (size : ℕ) (memory : List ℕ) where
  -- The states that threads can bring about from the start by actions with `P`, with all bytes that
  -- they have logged.
  pub data Reach (P : System → Action → Type 0) : System → List ℕ → Type 0 where
    start : Reach P (init size memory) []
    next :
        {s t : System} {bytes : List ℕ}
        → Reach P s bytes
        → (a : Action) → IsCall a
        → P s a
        → step size memory s a ≡ moved t
        → Reach P t (bytes ++ logged a)

  pub init-Inv : Inv size (init size memory)
  unfolding init bzero FixedBuffer.init
  init-Inv =
      let valid : IsValid size (record { chars = replicate size 0; cur = 0 }) = record {
        whole = length-replicate size 0;
        inside = omega arith;
      } in
      record {
        msg_inv = record { held = valid; spare = (valid, refl); filled = tt; backed = tt };
        phase_inv = ((valid, refl), (valid, refl), refl);
      }

  pub init-stream : stream (init size memory) ≡ []
  unfolding init bzero FixedBuffer.init as_string
  init-stream = refl

pub step-write :
    (size : ℕ) (memory : List ℕ) (s : System)
    → s.phase ≡ writing
    → step size memory s write ≡ write_out s
unfolding step
step-write size memory s e = ap (λ (ph : Phase). at_phase ph s) e
  where
    at_phase : Phase → System → Outcome System
    at_phase ph s = elim ph [ writing ↦ write_out s | _ ↦ blocked ]

write_out-sent :
    (size : ℕ) (s : System)
    → Loaded size s.writer
    → Moves
        (λ t.
          concat t.handed_on ≡ concat s.handed_on ++ queued_bytes (drop_excess s.writer.to_write))
        (write_out s)
unfolding write_out
write_out-sent size s l =
    Moves-bind _ _ (write_buffers s.writer) _ (write_buffers-Moves size s.writer l)
      λ (ms, w) h. rw (concat-append s.handed_on ms, h.1)

module _ (size : ℕ) (memory : List ℕ) (sized : IsSize size memory) where
  pub Reach-Inv :
      {P : System → Action → Type 0} {s : System} {bytes : List ℕ}
      → Reach size memory P s bytes
      → Inv size s
  Reach-Inv start = init-Inv size memory
  Reach-Inv (next r a call p e) = (step-Inv size memory sized a call (Reach-Inv r) e).0

  -- In every state that the threads can reach from the start of the log thread, with calls that
  -- pass no more bytes than their line has, the next action of a thread fails an assert of
  -- LogOutPutFun or uses a null buffer pointer exactly if it is the log thread's first,
  -- assert(isRunning_ == true), and destory has already cleared isRunning_; every other action in
  -- every order is free of both.
  pub no_fault :
      {P : System → Action → Type 0} {s : System} {bytes : List ℕ}
      → Reach size memory P s bytes
      → (a : Action) → IsCall a
      → (step size memory s a ≡ fault) ↔ Late s a
  no_fault {s = s} r a call = fault-Late size memory sized s a call (Reach-Inv r)

  -- In every run in which no write finds more than 25 buffers, the bytes passed to sendMsgToTerminal, those that the log
  -- thread has taken and those that are pending are together the bytes logged, in the order of
  -- the calls: none is lost, doubled or swapped.
  pub stream_lem :
      {s : System} {bytes : List ℕ} → Reach size memory IsCalm s bytes → stream s ≡ bytes
  stream_lem start = init-stream size memory
  stream_lem (next r a call calm e) =
      (step-Inv size memory sized a call (Reach-Inv r) e).1 calm
      ∙ ap (λ bs. bs ++ logged a) (stream_lem r)

  -- A write, in a state that keeps the invariant, that finds more than 25 buffers passes the
  -- bytes of the last two buffers to sendMsgToTerminal, and those of no other.
  pub write_drops_oldest :
      (s : System) (bs : List FixedBuffer) (a b : FixedBuffer)
      → Inv size s
      → s.phase ≡ writing
      → s.writer.to_write ≡ bs ++ (a ∷ b ∷ [])
      → 23 < length bs
      → (t : System) × (step size memory s write ≡ moved t)
        × (concat t.handed_on ≡ concat s.handed_on ++ (as_string a ++ as_string b))
  write_drops_oldest s bs a b v ph tw many =
      let (t, e, sent) =
        Moves-eq _ (write_out s)
          (write_out-sent size s (subst (λ p. PhaseInv size p s.writer) ph v.phase_inv)) in
      (t, step-write size memory s ph ∙ e, sent ∙ rw (tw, drop_excess_last bs a b many, append-nil))
