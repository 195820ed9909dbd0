-- ===== src/Os.antt =====
-- What the program does to the world outside: the calls of the operating system with an effect and
-- the calls of registered functions, in order. The state of the operating system is a parameter.
use telnet_serv.Prelude.{
  ℕ, List, [], ◌∷◌, ◌++◌, ◌==◌, if◌then◌else◌, ◌≡◌, refl, ap, append_assoc, arith, append-nil,
}

-- `called` has the pointer, the ten arguments and what the function returned.
pub data Event : Type 0 where
  sent : (sock : ℕ) → (bytes : List ℕ) → Event
  opened closed : (sock : ℕ) → Event
  watched : (sock : ℕ) → Event
  slept : (microseconds : ℕ) → Event
  called : (func : ℕ) → (para : List ℕ) → (ret : ℕ) → Event

pub record World (W : Type 0) : Type 0 where
  pub os : W
  pub trace : List Event

-- The bytes that a socket's peer has been sent.
unfoldable pub delivered : ℕ → List Event → List ℕ
delivered sock [] = []
delivered sock (sent s bytes ∷ es) =
    let rest = delivered sock es in if s == sock then bytes ++ rest else rest
delivered sock (e ∷ es) = delivered sock es

-- Write an event at the end of the trace.
abbrev pub emit : {W : Type 0} → Event → World W → World W
emit e w = record w { trace = w.trace ++ e ∷ [] }

pub delivered-append :
    (sock : ℕ) (xs ys : List Event)
    → delivered sock (xs ++ ys) ≡ delivered sock xs ++ delivered sock ys
unfolding delivered
delivered-append sock [] ys = refl
delivered-append sock (sent s bytes ∷ es) ys =
    ground (
      arith,
      delivered-append sock es ys,
      append_assoc bytes (delivered sock es) (delivered sock ys),
    )
delivered-append sock (e ∷ es) ys = delivered-append sock es ys

pub delivered-sent :
    (sock : ℕ) (es : List Event) (bytes : List ℕ)
    → delivered sock (es ++ sent sock bytes ∷ []) ≡ delivered sock es ++ bytes
unfolding delivered
delivered-sent sock es bytes = rw delivered-append (ground (arith, append-nil bytes))

-- The calls of registered functions: the pointer, the arguments and what came back.
abbrev pub calls : List Event → List (ℕ × List ℕ × ℕ)
calls [] = []
calls (called func para ret ∷ es) = (func, para, ret) ∷ calls es
calls (e ∷ es) = calls es

pub calls-append : (xs ys : List Event) → calls (xs ++ ys) ≡ calls xs ++ calls ys
calls-append [] ys = refl
calls-append (called func para ret ∷ es) ys = ap (◌∷◌ (func, para, ret)) (calls-append es ys)
calls-append (e ∷ es) ys = calls-append es ys
