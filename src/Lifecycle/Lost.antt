-- ===== src/Lifecycle/Lost.antt =====
-- A second init of a server that runs: its threads are lost.
use telnet_serv.Prelude.{ℕ, ◌+◌, ◌<◌, ◌≡◌, refl, ◌∙◌, List, [], ◌∷◌, ◌++◌, ◌==◌, arith}
use telnet_serv.Lifecycle.{Server, started, notified, init, join, destory, register}
use telnet_serv.Lifecycle.Threads.{
  Call, call_init, call_destory, call_register, perform, one, joins, held, joins-append, joins-join,
}

-- A thread that was made and that no handle holds.
record IsLost (t : ℕ) (s : Server) : Type 0 where
  made_before : t < s.threads
  daemon : held t s.thd_telnet_daemon_handle ≡ 0
  log_out : held t s.thd_log_out_put_handle ≡ 0

not_later : (t n : ℕ) → t < n → (one (n == t) ≡ 0) × (one (n + 1 == t) ≡ 0)
not_later t n h = (ground arith, ground arith)

init-IsLost : (t n : ℕ) (s : Server) → t < s.threads → IsLost t (init n s)
unfolding init
init-IsLost t n s h =
    let later = not_later t s.threads h in
    record { made_before = omega arith; daemon = later.0; log_out = later.1 }

never_joined :
    (t : ℕ) (calls : List Call) (s : Server)
    → IsLost t s
    → joins t (perform calls s).events ≡ joins t s.events
unfolding init destory register
never_joined t [] s v = refl
never_joined t (call_init n ∷ calls) s v =
    never_joined t calls (init n s) (init-IsLost t n s v.made_before)
    ∙ joins-append t s.events (started s.threads ∷ started (s.threads + 1) ∷ [])
    ∙ omega arith
never_joined t (call_destory ∷ calls) s v =
    let a = join s.thd_telnet_daemon_handle in
    let b = join s.thd_log_out_put_handle in
    never_joined t calls (destory s)
      (record { made_before = v.made_before; daemon = refl; log_out = refl })
    ∙ omega (
      arith,
      v.daemon,
      v.log_out,
      joins-append t s.events (notified ∷ (a ++ b)),
      joins-append t a b,
      joins-join t s.thd_telnet_daemon_handle,
      joins-join t s.thd_log_out_put_handle,
    )
never_joined t (call_register name func usage ∷ calls) s v =
    never_joined t calls (register name func usage s)
      (record { made_before = v.made_before; daemon = v.daemon; log_out = v.log_out })

-- A second init on a server loses its threads: a thread made before it is joined no more, whatever
-- is called after it.
pub second_init_loses :
    (t n : ℕ) (s : Server)
    → t < s.threads
    → (calls : List Call) → joins t (perform calls (init n s)).events ≡ joins t s.events
unfolding init
second_init_loses t n s h calls =
    never_joined t calls (init n s) (init-IsLost t n s h)
    ∙ joins-append t s.events (started s.threads ∷ started (s.threads + 1) ∷ [])
    ∙ omega arith
