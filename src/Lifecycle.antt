-- ===== src/Lifecycle.antt =====
-- telnetServ/telnetServ.h and telnetServ.cc, the members of TelnetServer with its constructor, init,
-- destory and the destructor; and telnetServ/main.cc, a program with a server.
pub mod Threads
pub mod Lost
pub mod Program
mod Tests
use telnet_serv.Prelude.{
  ℕ, ◌+◌, Bool, true, false, Option, none, some, List, [], ◌∷◌, ◌++◌, ◌==◌, if◌then◌else◌,
}
use telnet_serv.CmdTable.{CmdFunTable, reg_command}
use telnet_serv.Terminal.{codes, format_int}
use telnet_serv.MsgBuf.{MsgBuf, Outcome}
use telnet_serv.Printf.{Tm, Stamp, text, tel_printf, tel_printf_no_time}

-- What happens to the server's threads; a thread is the number of its muduo::Thread object.
pub data ThreadEvent : Type 0 where
  started : (thread : ℕ) → ThreadEvent
  notified : ThreadEvent
  joined : (thread : ℕ) → ThreadEvent

-- The members that init, destory and regCommand work on; `threads` counts the Thread objects made.
pub record Server : Type 0 where
  pub port_listen : ℕ
  pub sock_client : Option ℕ
  pub sock_serv : Option ℕ
  pub cmd_fun_table : CmdFunTable
  pub is_running : Bool
  pub thd_telnet_daemon_handle : Option ℕ
  pub thd_log_out_put_handle : Option ℕ
  pub flush_interval : ℕ
  pub threads : ℕ
  pub events : List ThreadEvent

-- TelnetServer(); flushInterval_ is not set, and holds `garbage`.
unfoldable pub new_server : ℕ → Server
new_server garbage = record {
  port_listen = 0;
  sock_client = none;
  sock_serv = none;
  cmd_fun_table = [];
  is_running = false;
  thd_telnet_daemon_handle = none;
  thd_log_out_put_handle = none;
  flush_interval = garbage;
  threads = 0;
  events = [];
}

-- bool init(int flushInterval, uint16_t telnetPort), which returns true; the port goes to the
-- telnet thread.
unfoldable pub init : ℕ → Server → Server
init flush_interval s = record s {
  is_running = true;
  flush_interval = flush_interval;
  thd_telnet_daemon_handle = some s.threads;
  thd_log_out_put_handle = some (s.threads + 1);
  threads = s.threads + 2;
  events = s.events ++ started s.threads ∷ started (s.threads + 1) ∷ [];
}

-- `if (handle != NULL) { handle->join(); delete handle; }`
abbrev pub join : Option ℕ → List ThreadEvent
join none = []
join (some thread) = joined thread ∷ []

-- bool destory(), which returns true.
unfoldable pub destory : Server → Server
destory s = record s {
  is_running = false;
  thd_telnet_daemon_handle = none;
  thd_log_out_put_handle = none;
  port_listen = 0;
  sock_client = none;
  sock_serv = none;
  cmd_fun_table = [];
  events =
      s.events ++ (notified ∷ (join s.thd_telnet_daemon_handle ++ join s.thd_log_out_put_handle));
}

-- ~TelnetServer()
unfoldable pub destroy : Server → Server
unfolding destory
destroy s = if s.is_running then destory s else s

-- The members of cmdFunTable_ are changed by regCommand only.
unfoldable pub register : List ℕ → ℕ → List ℕ → Server → Server
register name func usage s = record s {
  cmd_fun_table = reg_command name func usage s.cmd_fun_table;
}

-- main() up to its wait for input, with the two functions at their addresses.
unfoldable pub main : ℕ → ℕ → ℕ → Server
unfolding new_server init register
main garbage time_printf no_time_printf = init 1 (
    register (codes "tn") no_time_printf (codes "print dcServer version")
      (register (codes "tt") time_printf (codes "print dcServer version") (new_server garbage)))

-- `size` is kLargeBuffer, and `memory` what a new Buffer's array holds.
module _ (size : ℕ) (memory : List ℕ) where
  -- int testTimePrintf(), which returns 0.
  unfoldable pub test_time_printf : (ℕ → Tm) → ℕ → Bool → MsgBuf → Stamp → Outcome (MsgBuf × Stamp)
  test_time_printf to_local_time seconds client m t =
      tel_printf size memory to_local_time seconds client
        (text (
          codes "[testTimePrintf] prover:"
          ++ (codes "bbbb" ++ (codes ", testNum:" ++ (format_int 56 ++ codes "\n")))))
        m t

  -- int testNoTimePrintf(), which returns 0.
  unfoldable pub test_no_time_printf : Bool → MsgBuf → Outcome MsgBuf
  test_no_time_printf client m =
      tel_printf_no_time size memory client
        (text (
          codes "[testNoTimePrintf] prover:"
          ++ (codes "cccccc" ++ (codes ", testNum:" ++ (format_int 56 ++ codes "\n")))))
        m
