-- ===== src/Listen/Ports.antt =====
-- The ports that are tried, and that no socket is lost on the way.
use telnet_serv.Prelude.{
  ℕ, zero, suc, ◌+◌, ◌-◌, ◌≡◌, refl, ◌==◌, inl, inr, Bool, true, false, Option, none, some, List,
  [], ◌∷◌, ◌++◌, if◌then◌else◌, arith, Bool-cases, Option-cases, subst,
}
use telnet_serv.Os.{World, Event, opened, closed, emit}
use telnet_serv.Listen.{
  Listener, min_telsvr_port, max_telsvr_port, listen_on, bind_to, create_tcp_listen_sock,
  scan_ports, start_listen,
}

-- How often a socket was opened, and how often closed.
abbrev pub opens : ℕ → List Event → ℕ
opens fd [] = 0
opens fd (opened s ∷ es) = (if s == fd then 1 else 0) + opens fd es
opens fd (e ∷ es) = opens fd es

abbrev pub closes : ℕ → List Event → ℕ
closes fd [] = 0
closes fd (closed s ∷ es) = (if s == fd then 1 else 0) + closes fd es
closes fd (e ∷ es) = closes fd es

opens-append : (fd : ℕ) (xs ys : List Event) → opens fd (xs ++ ys) ≡ opens fd xs + opens fd ys
opens-append fd [] ys = omega arith
opens-append fd (opened s ∷ xs) ys = omega (arith, opens-append fd xs ys)
opens-append fd (e ∷ xs) ys = opens-append fd xs ys

pub closes-append :
    (fd : ℕ) (xs ys : List Event) → closes fd (xs ++ ys) ≡ closes fd xs + closes fd ys
closes-append fd [] ys = omega arith
closes-append fd (closed s ∷ xs) ys = omega (arith, closes-append fd xs ys)
closes-append fd (e ∷ xs) ys = closes-append fd xs ys

abbrev pub held : ℕ → Option ℕ → ℕ
held fd none = 0
held fd (some s) = if s == fd then 1 else 0

-- Of the events behind `before`, the sockets opened are the ones closed and the one kept.
abbrev pub Keeps : {W : Type 0} → Option ℕ → World W → World W → Type 0
Keeps sock before after =
    (fd : ℕ)
    → opens fd after.trace + closes fd before.trace
      ≡ opens fd before.trace + (closes fd after.trace + held fd sock)

module _ {W : Type 0} (socket : W → Option ℕ × W) (bind : ℕ → ℕ → W → Bool × W)
    (listen : ℕ → W → Bool × W) where
  -- From a socket that is held already, to the one that is held in the end.
  abbrev KeepsFrom : ℕ → Option ℕ × World W → World W → Type 0
  KeepsFrom s (sock, after) before =
      (fd : ℕ)
      → opens fd after.trace + (closes fd before.trace + held fd (some s))
        ≡ opens fd before.trace + (closes fd after.trace + held fd sock)

  close-KeepsFrom : (s : ℕ) (w : World W) → KeepsFrom s (none, emit (closed s) w) w
  close-KeepsFrom s w fd =
      omega
        (arith, opens-append fd w.trace (closed s ∷ []), closes-append fd w.trace (closed s ∷ []))

  listen_on-KeepsFrom : (s : ℕ) (w : World W) → KeepsFrom s (listen_on socket bind listen s w) w
  unfolding listen_on
  listen_on-KeepsFrom s w = elim (Bool-cases (listen s w.os).0) [
    | inl e ↦ rw e (λ fd. omega arith)
    | inr e ↦ rw e (close-KeepsFrom s (record w { os = (listen s w.os).1 }))
  ]

  bind_to-KeepsFrom :
      (port s : ℕ) (w : World W) → KeepsFrom s (bind_to socket bind listen port s w) w
  unfolding bind_to
  bind_to-KeepsFrom port s w = elim (Bool-cases (bind s port w.os).0) [
    | inl e ↦ rw e (listen_on-KeepsFrom s (record w { os = (bind s port w.os).1 }))
    | inr e ↦ rw e (close-KeepsFrom s (record w { os = (bind s port w.os).1 }))
  ]

  create-Keeps :
      (port : ℕ) (w : World W)
      → let (sock, w') = create_tcp_listen_sock socket bind listen port w in Keeps sock w w'
  unfolding create_tcp_listen_sock
  create-Keeps port w = elim (Option-cases (socket w.os).0) [
    | inl e ↦ rw (e, create_tcp_listen_sock) (λ fd. omega arith)
    | inr (s, e) ↦
        rw (e, create_tcp_listen_sock)
          (λ fd. omega (
            arith,
            bind_to-KeepsFrom port s (emit (opened s) (record w { os = (socket w.os).1 })) fd,
            opens-append fd w.trace (opened s ∷ []),
            closes-append fd w.trace (opened s ∷ []),
          ))
  ]

  scan_ports-Keeps :
      (rounds port : ℕ) (w : World W)
      → let (l, w') = scan_ports socket bind listen rounds port w in Keeps l.sock_serv w w'
  unfolding scan_ports
  scan_ports-Keeps zero port w fd = omega arith
  scan_ports-Keeps (suc rounds) port w fd =
      let made = create_tcp_listen_sock socket bind listen port w in
      elim (Option-cases made.0) [
        | inl e ↦
            rw (e, scan_ports)
              (omega (
                arith,
                subst (λ o. Keeps o w made.1) e (create-Keeps port w) fd,
                scan_ports-Keeps rounds (port + 1) made.1 fd,
              ))
        | inr (s, e) ↦ rw (e, scan_ports) (subst (λ o. Keeps o w made.1) e (create-Keeps port w) fd)
      ]

  -- The head of TelnetDaemonFun, whatever the operating system answers: every socket that it opens
  -- and does not keep as sockServ_ is closed, and the one that it keeps is not.
  pub start_listen-Keeps :
      (port : ℕ) (w : World W)
      → let (l, w') = start_listen socket bind listen port w in Keeps l.sock_serv w w'
  unfolding start_listen
  start_listen-Keeps port w fd = elim (Bool-cases (port == 0)) [
    | inl z ↦ rw z (scan_ports-Keeps 5500 min_telsvr_port w fd)
    | inr z ↦
        let made = create_tcp_listen_sock socket bind listen port w in
        elim (Option-cases made.0) [
          | inl e ↦
              rw (z, e, start_listen)
                (omega (
                  arith,
                  subst (λ o. Keeps o w made.1) e (create-Keeps port w) fd,
                  scan_ports-Keeps 5500 min_telsvr_port made.1 fd,
                ))
          | inr (s, e) ↦
              rw (z, e, start_listen) (subst (λ o. Keeps o w made.1) e (create-Keeps port w) fd)
        ]
  ]

  -- Ports tried one after the other until one can be listened on.
  pub try_ports : List ℕ → World W → Listener × World W
  try_ports [] w = (record { sock_serv = none; port_listen = 0 }, w)
  try_ports (port ∷ ports) w =
      let (sock, w') = create_tcp_listen_sock socket bind listen port w in
      elim sock [
        | none ↦ try_ports ports w'
        | some fd ↦ (record { sock_serv = some fd; port_listen = port }, w')
      ]

-- n numbers from k on.
pub count_up : ℕ → ℕ → List ℕ
count_up zero k = []
count_up (suc n) k = k ∷ count_up n (k + 1)

-- The wanted port, if it is not 0, and then 2500 to 7999.
abbrev pub candidates : ℕ → List ℕ
candidates port =
    let rest = count_up (max_telsvr_port - min_telsvr_port) min_telsvr_port in
    if port == 0 then rest else port ∷ rest

module _ {W : Type 0} (socket : W → Option ℕ × W) (bind : ℕ → ℕ → W → Bool × W)
    (listen : ℕ → W → Bool × W) where
  scan_ports-eq :
      (rounds port : ℕ) (w : World W)
      → scan_ports socket bind listen rounds port w
        ≡ try_ports socket bind listen (count_up rounds port) w
  unfolding scan_ports try_ports count_up
  scan_ports-eq zero port w = refl
  scan_ports-eq (suc rounds) port w =
      let made = create_tcp_listen_sock socket bind listen port w in
      elim (Option-cases made.0) [
        | inl e ↦ rw (e, scan_ports, try_ports) (scan_ports-eq rounds (port + 1) made.1)
        | inr (s, e) ↦ rw (e, scan_ports, try_ports)
      ]

  start_any :
      (port : ℕ) (w : World W)
      → (port == 0) ≡ true
      → start_listen socket bind listen port w ≡ try_ports socket bind listen (candidates port) w
  unfolding start_listen
  start_any port w z = rw z (scan_ports-eq 5500 min_telsvr_port w)

  start_wanted :
      (port : ℕ) (w : World W)
      → (port == 0) ≡ false
      → start_listen socket bind listen port w ≡ try_ports socket bind listen (candidates port) w
  unfolding start_listen try_ports
  start_wanted port w z =
      let made = create_tcp_listen_sock socket bind listen port w in
      elim (Option-cases made.0) [
        | inl e ↦ rw (z, e, start_listen, try_ports) (scan_ports-eq 5500 min_telsvr_port made.1)
        | inr (s, e) ↦ rw (z, e, start_listen, try_ports)
      ]

  -- The head of TelnetDaemonFun listens on the first port, of the wanted one and then 2500 to 7999
  -- in order, on which a socket can be made, and on none if there is no such port.
  pub start_listen_lem :
      (port : ℕ) (w : World W)
      → start_listen socket bind listen port w ≡ try_ports socket bind listen (candidates port) w
  start_listen_lem port w = elim (Bool-cases (port == 0)) [
    | inl z ↦ start_any port w z
    | inr z ↦ start_wanted port w z
  ]
