-- ===== src/Listen.antt =====
-- telnetServ/telnetServ.cc, createTcpListenSock and the head of TelnetDaemonFun: the listening
-- socket, on the wanted port or else on the first free one of a range.
pub mod Ports
mod Tests
use telnet_serv.Prelude.{
  ℕ, zero, suc, ◌+◌, ◌==◌, Bool, true, false, Option, none, some, List, [], ◌∷◌, ◌++◌,
  if◌then◌else◌,
}
use telnet_serv.Os.{World, Event, opened, closed, emit}

-- MIN_TELSVR_PORT and MAX_TELSVR_PORT
abbrev pub min_telsvr_port : ℕ
min_telsvr_port = 2500

abbrev pub max_telsvr_port : ℕ
max_telsvr_port = 8000

-- sockServ_ and portListen_; INVALID_SOCKET is `none`.
pub record Listener : Type 0 where
  pub sock_serv : Option ℕ
  pub port_listen : ℕ

-- The calls socket(2), bind(2) to a port and listen(2); `false` and `none` are -1.
module _ {W : Type 0} (socket : W → Option ℕ × W) (bind : ℕ → ℕ → W → Bool × W)
    (listen : ℕ → W → Bool × W) where
  abbrev close_failed : ℕ → World W → Option ℕ × World W
  close_failed fd w = (none, emit (closed fd) w)

  unfoldable pub listen_on : ℕ → World W → Option ℕ × World W
  listen_on fd w =
      let (ok, os) = listen fd w.os in
      if ok then (some fd, record w { os = os }) else close_failed fd (record w { os = os })

  unfoldable pub bind_to : ℕ → ℕ → World W → Option ℕ × World W
  bind_to port fd w =
      let (ok, os) = bind fd port w.os in
      if ok then listen_on fd (record w { os = os }) else close_failed fd (record w { os = os })

  -- int createTcpListenSock(uint16_t wPort)
  unfoldable pub create_tcp_listen_sock : ℕ → World W → Option ℕ × World W
  create_tcp_listen_sock port w =
      let (sock, os) = socket w.os in
      elim sock [
        | none ↦ (none, record w { os = os })
        | some fd ↦ bind_to port fd (emit (opened fd) (record w { os = os }))
      ]

  -- `for (port = ...; port < MAX_TELSVR_PORT; port++)`, by the rounds that are left.
  unfoldable pub scan_ports : ℕ → ℕ → World W → Listener × World W
  scan_ports zero port w = (record { sock_serv = none; port_listen = 0 }, w)
  scan_ports (suc rounds) port w =
      let (sock, w') = create_tcp_listen_sock port w in
      elim sock [
        | none ↦ scan_ports rounds (port + 1) w'
        | some fd ↦ (record { sock_serv = some fd; port_listen = port }, w')
      ]

  abbrev scan_all : World W → Listener × World W
  scan_all w = scan_ports 5500 min_telsvr_port w

  -- The head of TelnetDaemonFun(wPort), up to the test whether there is a socket.
  unfoldable pub start_listen : ℕ → World W → Listener × World W
  start_listen port w =
      if port == 0
      then scan_all w
      else (let (sock, w') = create_tcp_listen_sock port w in
          elim sock [
            | none ↦ scan_all w'
            | some fd ↦ (record { sock_serv = some fd; port_listen = port }, w')
          ])
