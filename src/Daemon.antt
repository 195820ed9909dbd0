-- ===== src/Daemon.antt =====
-- telnetServ/telnetServ.cc, isNullStr and the event loop of TelnetDaemonFun: clients come and go,
-- and a client's keys edit and submit a command line.
pub mod Line
pub mod Blank
pub mod Wrap
pub mod Trim
pub mod Call
pub mod Echo
pub mod Submit
pub mod Answers
pub mod Events
pub mod Session
pub mod Bye
pub mod Served
pub mod Program
pub mod Clients
pub mod Stale
pub mod Thread
mod Tests
mod CallTests
use telnet_serv.Prelude.{
  ℕ, zero, suc, ◌+◌, ◌-◌, ◌%◌, Bool, true, false, not, ◌&&◌, ◌||◌, Option, none, some, List, [],
  ◌∷◌, ◌++◌, ltb, ◌==◌, if◌then◌else◌, take, replicate, set, get_or,
}
use telnet_serv.Os.{World, Event, closed, slept, watched, emit}
use telnet_serv.Text.{c_str}
use telnet_serv.Terminal.{Exec, ret, no_fuel, overflow, ◌>>=◌, Daemon, codes, push_msg, prompt_show}
use telnet_serv.Command.{max_command_length, cmd_parse}

-- bool isNullStr(const char* pchCmd); the loop never moves the pointer. `none` is for the fuel.
unfoldable pub is_null_str : ℕ → List ℕ → Option Bool
is_null_str zero cmd = none
is_null_str (suc fuel) cmd =
    let again = is_null_str fuel cmd in
    if get_or cmd 0 0 == 0 then some true else if get_or cmd 0 0 == b' ' then again else some false

-- memset(command, 0, MAX_COMMAND_LENGTH)
abbrev pub cleared : List ℕ
cleared = replicate max_command_length 0

-- The cases of the switch on a key.
pub data Key : Type 0 where
  ignored enter backspace : Key
  other : ℕ → Key

-- The characters that the switch knows.
abbrev pub newline_char : ℕ
newline_char = 10

abbrev pub backspace_char : ℕ
backspace_char = 8

abbrev pub return_char : ℕ
return_char = 13

abbrev pub ctrl_s : ℕ
ctrl_s = 19

abbrev pub ctrl_r : ℕ
ctrl_r = 18

abbrev pub up_arrow : ℕ
up_arrow = 27

abbrev pub down_arrow : ℕ
down_arrow = 28

abbrev pub left_arrow : ℕ
left_arrow = 29

abbrev pub right_arrow : ℕ
right_arrow = 30

unfoldable pub key_of : ℕ → Key
key_of c =
    if (c == ctrl_s) || (c == ctrl_r)
    then ignored
    else if c == return_char
    then enter
    else if (c == newline_char)
        || ((c == up_arrow) || ((c == down_arrow) || ((c == left_arrow) || (c == right_arrow))))
    then ignored
    else if c == backspace_char
    then backspace
    else other c

-- What recv of one byte comes to: a byte, or a result of at most 0.
pub data Received : Type 0 where
  byte : ℕ → Received
  ended : Received

-- An epoll event: `err` is EPOLLERR | POLLNVAL.
pub record EpollEvent : Type 0 where
  pub fd : ℕ
  pub hup : Bool
  pub inp : Bool
  pub err : Bool

abbrev pub is_client : Option ℕ → ℕ → Bool
is_client none fd = false
is_client (some sock) fd = sock == fd

module _ {W : Type 0} (send : ℕ → List ℕ → W → Option ℕ × W) (invoke : ℕ → List ℕ → W → ℕ × W)
    (base : ℕ) where
  -- close(sockClient_); setInvalidTelnetClient()
  unfoldable pub close_client : Daemon W → Daemon W
  close_client d = elim d.client [
    | none ↦ d
    | some sock ↦ record d { client = none; world = emit (closed sock) d.world }
  ]

  abbrev pub after_check : ℕ → Daemon W → Option Bool → Exec (Daemon W)
  after_check fuel d none = no_fuel
  after_check fuel d (some true) = ret d
  after_check fuel d (some false) = cmd_parse send invoke base fuel d.command d.cmd_len d

  -- case RETURN_CHAR
  unfoldable pub on_return : ℕ → Daemon W → Exec (Daemon W)
  on_return fuel d = do
    d1 ← push_msg send fuel (c_str (take d.cmd_len d.command) ++ codes "\r\n") d
    d2 ← after_check fuel d1 (is_null_str fuel d1.command)
    prompt_show send fuel (record d2 { cmd_len = 0; command = cleared })

  -- case BACKSPACE_CHAR
  unfoldable pub on_backspace : ℕ → Daemon W → Exec (Daemon W)
  on_backspace fuel d =
      if d.cmd_len == 0
      then ret d
      else push_msg send fuel (8 ∷ b' ' ∷ 8 ∷ [])
          (record d { command = set d.command (d.cmd_len - 1) 0; cmd_len = d.cmd_len - 1 })

  -- default: cmdLen is an unsigned char.
  unfoldable pub on_char : ℕ → ℕ → Daemon W → Exec (Daemon W)
  on_char fuel c d =
      if ltb d.cmd_len max_command_length
      then ret (record d { command = set d.command d.cmd_len c; cmd_len = (d.cmd_len + 1) % 256 })
      else do
        d1 ← push_msg send fuel (codes "\n") d
        d2 ← cmd_parse send invoke base fuel d1.command d1.cmd_len d1
        d3 ← prompt_show send fuel d2
        ret (record d3 { cmd_len = 0; command = cleared })

  abbrev pub on_key : ℕ → Key → Daemon W → Exec (Daemon W)
  on_key fuel ignored d = ret d
  on_key fuel enter d = on_return fuel d
  on_key fuel backspace d = on_backspace fuel d
  on_key fuel (other c) d = on_char fuel c d

  -- Keys of a client that are received one after the other.
  unfoldable pub on_keys : ℕ → List Key → Daemon W → Exec (Daemon W)
  on_keys fuel [] d = ret d
  on_keys fuel (k ∷ keys) d = do d' ← on_key fuel k d; on_keys fuel keys d'

  abbrev pub on_received : ℕ → Received → Daemon W → Exec (Daemon W)
  on_received fuel ended d = ret (close_client d)
  on_received fuel (byte c) d = on_key fuel (key_of c) d

  -- The greeting, line by line, and the prompt.
  unfoldable pub greet : ℕ → Daemon W → Exec (Daemon W)
  greet fuel d = do
    d1 ←
        push_msg send fuel
          (codes "*===============================================================*\n") d
    d2 ← push_msg send fuel (codes "Welcome to Telnet Server.\n") d1
    d3 ←
        push_msg send fuel
          (codes "*===============================================================*\n") d2
    prompt_show send fuel d3

  -- An accepted client takes the place of the one before; cmdLen stays as it is.
  abbrev pub on_accepted : ℕ → Option ℕ → Daemon W → Exec (Daemon W)
  on_accepted fuel none d = ret d
  on_accepted fuel (some sock) d =
      let d' = close_client d in
      greet fuel
        (record d' { client = some sock; command = cleared; world = emit (watched sock) d'.world })

  -- An event that fits none of the tests.
  abbrev pub unmatched : Daemon W → Exec (Daemon W)
  unmatched d = let d' = close_client d in ret (record d' { world = emit (slept 500_000) d'.world })

  -- `accept sock` is accept(2), and `recv sock` is recv(2) of one byte.
  module _ (accept : ℕ → W → Option ℕ × W) (recv : ℕ → W → Received × W) where
    -- The body of the loop over the events of one epoll_wait.
    unfoldable pub handle_event : ℕ → EpollEvent → Daemon W → Exec (Daemon W)
    unfolding close_client
    handle_event fuel ev d =
        if (ev.hup && not ev.inp) && is_client d.client ev.fd
        then ret (close_client d)
        else if ev.err && is_client d.client ev.fd
        then ret (close_client d)
        else if ev.fd == d.serv
        then (let (sock, os') = accept d.serv d.world.os in
            on_accepted fuel sock (record d { world = record d.world { os = os' } }))
        else if ev.inp && is_client d.client ev.fd
        then (let (got, os') = recv ev.fd d.world.os in
            on_received fuel got (record d { world = record d.world { os = os' } }))
        else unmatched d

    -- All events that the loop meets while isRunning_ holds, in order.
    unfoldable pub handle_events : ℕ → List EpollEvent → Daemon W → Exec (Daemon W)
    handle_events fuel [] d = ret d
    handle_events fuel (ev ∷ evs) d = do d' ← handle_event fuel ev d; handle_events fuel evs d'
