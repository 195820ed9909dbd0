-- ===== src/Lifecycle/Threads.antt =====
-- Over the calls of a server's life: each thread is started once and joined once.
use telnet_serv.Prelude.{
  ℕ, ◌+◌, ◌≡◌, refl, ap, Bool, true, false, Option, none, some, List, [], ◌∷◌, ◌++◌, ltb, ◌==◌,
  arith, Bool-cases, inl, inr,
}
use telnet_serv.Lifecycle.{
  Server, ThreadEvent, started, notified, joined, new_server, init, join, destory, destroy,
  register,
}

-- The calls that a program makes of its server.
pub data Call : Type 0 where
  call_init : (flush_interval : ℕ) → Call
  call_destory : Call
  call_register : (name : List ℕ) → (func : ℕ) → (usage : List ℕ) → Call

abbrev pub perform : List Call → Server → Server
perform [] s = s
perform (call_init n ∷ calls) s = perform calls (init n s)
perform (call_destory ∷ calls) s = perform calls (destory s)
perform (call_register name func usage ∷ calls) s = perform calls (register name func usage s)

-- No init of a server that runs; the Boolean says whether it runs.
abbrev pub Alternates : Bool → List Call → Type 0
Alternates running [] = Unit {0}
Alternates running (call_init n ∷ calls) = (running ≡ false) × Alternates true calls
Alternates running (call_destory ∷ calls) = Alternates false calls
Alternates running (call_register name func usage ∷ calls) = Alternates running calls

abbrev pub one : Bool → ℕ
one true = 1
one false = 0

-- How often a thread is started, and how often it is joined.
abbrev pub starts : ℕ → List ThreadEvent → ℕ
starts i [] = 0
starts i (started t ∷ es) = one (t == i) + starts i es
starts i (notified ∷ es) = starts i es
starts i (joined t ∷ es) = starts i es

abbrev pub joins : ℕ → List ThreadEvent → ℕ
joins i [] = 0
joins i (started t ∷ es) = joins i es
joins i (notified ∷ es) = joins i es
joins i (joined t ∷ es) = one (t == i) + joins i es

abbrev pub held : ℕ → Option ℕ → ℕ
held i none = 0
held i (some t) = one (t == i)

starts-append : (i : ℕ) (es fs : List ThreadEvent) → starts i (es ++ fs) ≡ starts i es + starts i fs
starts-append i [] fs = omega arith
starts-append i (started t ∷ es) fs = rw (starts-append i es fs) (omega arith)
starts-append i (notified ∷ es) fs = starts-append i es fs
starts-append i (joined t ∷ es) fs = starts-append i es fs

pub joins-append : (i : ℕ) (es fs : List ThreadEvent) → joins i (es ++ fs) ≡ joins i es + joins i fs
joins-append i [] fs = omega arith
joins-append i (started t ∷ es) fs = joins-append i es fs
joins-append i (notified ∷ es) fs = joins-append i es fs
joins-append i (joined t ∷ es) fs = rw (joins-append i es fs) (omega arith)

pub joins-join : (i : ℕ) (handle : Option ℕ) → joins i (join handle) ≡ held i handle
joins-join i none = refl
joins-join i (some t) = omega arith

starts-join : (i : ℕ) (handle : Option ℕ) → starts i (join handle) ≡ 0
starts-join i none = refl
starts-join i (some t) = refl

-- What init and destory keep: the threads made are those started, each once, and a thread is
-- joined, or in a handle, and never both.
record IsKept (s : Server) : Type 0 where
  counted : (i : ℕ) → starts i s.events ≡ one (ltb i s.threads)
  balance :
      (i : ℕ)
      → joins i s.events + held i s.thd_telnet_daemon_handle + held i s.thd_log_out_put_handle
        ≡ starts i s.events
  idle :
      s.is_running ≡ false → (s.thd_telnet_daemon_handle ≡ none) × (s.thd_log_out_put_handle ≡ none)

new_server-IsKept : (garbage : ℕ) → IsKept (new_server garbage)
unfolding new_server
new_server-IsKept garbage = record {
  counted = λ i. ground arith;
  balance = λ i. refl;
  idle = λ off. (refl, refl);
}

two_more : (i n : ℕ) → one (ltb i n) + (one (n == i) + (one (n + 1 == i) + 0)) ≡ one (ltb i (n + 2))
two_more i n = ground arith

init-IsKept : (n : ℕ) (s : Server) → s.is_running ≡ false → IsKept s → IsKept (init n s)
unfolding init
init-IsKept n s off v =
    let new = started s.threads ∷ started (s.threads + 1) ∷ [] in
    record {
      counted = λ i. rw (starts-append i s.events new, v.counted i) (two_more i s.threads);
      balance = λ i.
          rw (starts-append i s.events new, joins-append i s.events new)
            (omega (arith, v.balance i, ap (held i) (v.idle off).0, ap (held i) (v.idle off).1));
      idle = λ stopped. absurd (cc stopped);
    }

destory-IsKept : (s : Server) → IsKept s → IsKept (destory s)
unfolding destory
destory-IsKept s v =
    let a = join s.thd_telnet_daemon_handle in
    let b = join s.thd_log_out_put_handle in
    record {
      counted = λ i. omega (
        arith,
        v.counted i,
        starts-append i s.events (notified ∷ (a ++ b)),
        starts-append i a b,
        starts-join i s.thd_telnet_daemon_handle,
        starts-join i s.thd_log_out_put_handle,
      );
      balance = λ i. omega (
        arith,
        v.balance i,
        starts-append i s.events (notified ∷ (a ++ b)),
        starts-append i a b,
        starts-join i s.thd_telnet_daemon_handle,
        starts-join i s.thd_log_out_put_handle,
        joins-append i s.events (notified ∷ (a ++ b)),
        joins-append i a b,
        joins-join i s.thd_telnet_daemon_handle,
        joins-join i s.thd_log_out_put_handle,
      );
      idle = λ off. (refl, refl);
    }

register-IsKept :
    (name : List ℕ) (func : ℕ) (usage : List ℕ) (s : Server)
    → IsKept s
    → IsKept (register name func usage s)
unfolding register
register-IsKept name func usage s v = record {
  counted = v.counted;
  balance = v.balance;
  idle = v.idle;
}

perform-IsKept :
    (calls : List Call) (s : Server)
    → Alternates s.is_running calls
    → IsKept s
    → IsKept (perform calls s)
unfolding init destory register
perform-IsKept [] s alt v = v
perform-IsKept (call_init n ∷ calls) s alt v =
    perform-IsKept calls (init n s) alt.1 (init-IsKept n s alt.0 v)
perform-IsKept (call_destory ∷ calls) s alt v =
    perform-IsKept calls (destory s) alt (destory-IsKept s v)
perform-IsKept (call_register name func usage ∷ calls) s alt v =
    perform-IsKept calls (register name func usage s) alt (register-IsKept name func usage s v)

-- Nothing is left in a handle.
abbrev AllJoined : Server → Type 0
AllJoined s =
    (i : ℕ)
    → (starts i s.events ≡ one (ltb i s.threads)) × (joins i s.events ≡ one (ltb i s.threads))

destory-AllJoined : (s : Server) → IsKept s → AllJoined (destory s)
unfolding destory
destory-AllJoined s v i =
    let w = destory-IsKept s v in (w.counted i, omega (arith, w.counted i, w.balance i))

destroy-AllJoined : (s : Server) → IsKept s → AllJoined (destroy s)
unfolding destroy
destroy-AllJoined s v = elim (Bool-cases s.is_running) [
  | inl on ↦ rw on (destory-AllJoined s v)
  | inr off ↦ rw off λ i. (
    v.counted i,
    omega (arith, v.counted i, v.balance i, ap (held i) (v.idle off).0, ap (held i) (v.idle off).1),
  )
]

-- For any calls of init, destory and regCommand on a new server in which no init comes on a server
-- that runs: when its destructor has run, each thread that was made has been started exactly once
-- and joined exactly once, and no other has been started or joined.
pub threads_joined :
    (garbage : ℕ) (calls : List Call)
    → Alternates false calls
    → let s = destroy (perform calls (new_server garbage)) in
      (i : ℕ)
      → (starts i s.events ≡ one (ltb i s.threads)) × (joins i s.events ≡ one (ltb i s.threads))
unfolding new_server
threads_joined garbage calls alt =
    destroy-AllJoined (perform calls (new_server garbage))
      (perform-IsKept calls (new_server garbage) alt (new_server-IsKept garbage))
