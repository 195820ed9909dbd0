-- ===== src/MsgBuf/Inv.antt =====
-- The invariant of the message buffers, kept by every action of every thread: no null pointer is
-- used, and no assert of LogOutPutFun fails but the one at its start.
use telnet_serv.Prelude.{
  ℕ, zero, suc, ◌^◌, ◌≤◌, ◌<◌, ◌≡◌, refl, Option, none, some, List, [], ◌∷◌, ◌++◌, length, take,
  drop,
}
use telnet_serv.FixedBuffer.{FixedBuffer}
use telnet_serv.FixedBuffer.Contents.{IsValid}
use telnet_serv.MsgBuf.{MsgBuf, Writer, Outcome, moved, blocked, fault, ◌>>=◌, max_log_msg_len}
use telnet_serv.MsgBuf.Threads.{System, Phase, writing}

-- What the proofs need of kLargeBuffer: a line fits into an empty buffer, and `int` holds the size.
pub record IsSize (size : ℕ) (memory : List ℕ) : Type 0 where
  pub holds_line : max_log_msg_len < size
  pub fits_int : size < 2 ^ 31
  pub whole : length memory ≡ size

module _ (size : ℕ) where
  abbrev pub All : List FixedBuffer → Type 0
  All [] = Unit {0}
  All (b ∷ bs) = IsValid size b × All bs

  abbrev pub IsFresh : FixedBuffer → Type 0
  IsFresh b = IsValid size b × (b.cur ≡ 0)

  -- A buffer that is there.
  abbrev pub Held : Option FixedBuffer → Type 0
  Held none = ⊥
  Held (some b) = IsValid size b

  -- A spare buffer that is there, and empty.
  abbrev pub Ready : Option FixedBuffer → Type 0
  Ready none = ⊥
  Ready (some b) = IsFresh b

  -- A spare buffer that is empty, or has been taken.
  abbrev pub Spare : Option FixedBuffer → Type 0
  Spare none = Unit {0}
  Spare (some b) = IsFresh b

  -- `n` buffers at least are there to stand in for a spare that was taken.
  abbrev pub Backed : Option FixedBuffer → ℕ → List FixedBuffer → Type 0
  Backed none n bs = n ≤ length bs
  Backed (some b) n bs = Unit {0}

  pub record MsgInv (m : MsgBuf) : Type 0 where
    pub held : Held m.current
    pub spare : Spare m.next
    pub filled : All m.buffers
    -- nextBuffer_ is taken only when a full buffer has been queued.
    pub backed : Backed m.next 1 m.buffers

  -- The locals at the head of the loop and in the wait: both spares empty, nothing to write.
  abbrev pub Rested : Writer → Type 0
  Rested w = Ready w.new1 × Ready w.new2 × (w.to_write ≡ [])

  -- Behind the critical section: newBuffer1 is taken, and newBuffer2 only if two buffers are there.
  abbrev pub Loaded : Writer → Type 0
  Loaded w =
      (w.new1 ≡ none)
      × Spare w.new2
      × All w.to_write
      × (1 ≤ length w.to_write)
      × Backed w.new2 2 w.to_write

  abbrev pub PhaseInv : Phase → Writer → Type 0
  PhaseInv writing w = Loaded w
  PhaseInv _ w = Rested w

  pub record Inv (s : System) : Type 0 where
    pub msg_inv : MsgInv s.msg
    pub phase_inv : PhaseInv s.phase s.writer

  pub All-append : (xs ys : List FixedBuffer) → All xs → All ys → All (xs ++ ys)
  All-append [] ys hx hy = hy
  All-append (x ∷ xs) ys hx hy = (hx.0, All-append xs ys hx.1 hy)

  pub All-drop : (n : ℕ) (xs : List FixedBuffer) → All xs → All (drop n xs)
  All-drop zero xs h = h
  All-drop (suc n) [] h = tt
  All-drop (suc n) (x ∷ xs) h = All-drop n xs h.1

  pub All-take : (n : ℕ) (xs : List FixedBuffer) → All xs → All (take n xs)
  All-take zero xs h = tt
  All-take (suc n) [] h = tt
  All-take (suc n) (x ∷ xs) h = (h.0, All-take n xs h.1)

-- What an action may come to: a fault only with `L`, and `P` of the state that it moves to.
abbrev pub Keeps : {A : Type 0} → Type 0 → (A → Type 0) → Outcome A → Type 0
Keeps L P (moved a) = P a
Keeps L P blocked = Unit
Keeps L P fault = L

-- It moves, to a state with `P`.
abbrev pub Moves : {A : Type 0} → (A → Type 0) → Outcome A → Type 0
Moves P (moved a) = P a
Moves P blocked = ⊥
Moves P fault = ⊥

pub Moves-bind :
    {A B : Type 0} (P : A → Type 0) (Q : B → Type 0) (o : Outcome A) (f : A → Outcome B)
    → Moves P o
    → ((a : A) → P a → Moves Q (f a))
    → Moves Q (o >>= f)
Moves-bind P Q (moved a) f h k = k a h
Moves-bind P Q blocked f h k = absurd h
Moves-bind P Q fault f h k = absurd h

pub Moves-Keeps :
    {A : Type 0} (L : Type 0) (P Q : A → Type 0) (o : Outcome A)
    → Moves P o
    → ((a : A) → P a → Q a)
    → Keeps L Q o
Moves-Keeps L P Q (moved a) h k = k a h
Moves-Keeps L P Q blocked h k = absurd h
Moves-Keeps L P Q fault h k = absurd h

pub Moves-eq :
    {A : Type 0} (P : A → Type 0) (o : Outcome A) → Moves P o → (a : A) × (o ≡ moved a) × P a
Moves-eq P (moved a) h = (a, refl, h)
Moves-eq P blocked h = absurd h
Moves-eq P fault h = absurd h
