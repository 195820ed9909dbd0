-- ===== src/Daemon/Thread.antt =====
-- telnetServ/telnetServ.cc, TelnetDaemonFun as a whole: the listening socket, and then the events.
use telnet_serv.Prelude.{ℕ, Bool, Option, none, some, List}
use telnet_serv.Os.{World, watched, emit}
use telnet_serv.CmdTable.{CmdFunTable}
use telnet_serv.Terminal.{Exec, Daemon}
use telnet_serv.Listen.{start_listen}
use telnet_serv.Daemon.{EpollEvent, Received, cleared, handle_events}

module _ {W : Type 0} (send : ℕ → List ℕ → W → Option ℕ × W) (invoke : ℕ → List ℕ → W → ℕ × W)
    (base : ℕ) (accept : ℕ → W → Option ℕ × W) (recv : ℕ → W → Received × W)
    (socket : W → Option ℕ × W) (bind : ℕ → ℕ → W → Bool × W) (listen : ℕ → W → Bool × W) where
  -- The locals of TelnetDaemonFun, and the listening socket given to epoll_ctl.
  abbrev pub at_loop : ℕ → CmdFunTable → World W → Daemon W
  at_loop serv table w = record {
    client = none;
    serv = serv;
    table = table;
    command = cleared;
    cmd_len = 0;
    world = emit (watched serv) w;
  }

  -- void TelnetDaemonFun(uint16_t wPort); `none` says that the thread ends with no socket, and
  -- `evs` are the events that it meets while isRunning_ holds.
  unfoldable pub telnet_daemon_fun :
      ℕ → ℕ → CmdFunTable → List EpollEvent → World W → Option (Exec (Daemon W))
  telnet_daemon_fun fuel port table evs w =
      let (l, w') = start_listen socket bind listen port w in
      elim l.sock_serv [
        | none ↦ none
        | some serv ↦
            some (handle_events send invoke base accept recv fuel evs (at_loop serv table w'))
      ]
