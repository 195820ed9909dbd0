-- ===== src/Sock.antt =====
-- telnetServ/telnetServ.cc, SockSend and sendMsgToTerminal: bytes to a client's socket.
pub mod Delivery
mod Tests
use telnet_serv.Prelude.{
  ℕ, zero, suc, ◌+◌, ◌-◌, ◌%◌, ◌^◌, Bool, true, false, Option, none, some, List, [], ◌∷◌, ltb, take,
  drop,
}
use telnet_serv.Os.{World, Event, sent, emit}

-- A 32-bit pattern plus `ret`, where -1 is SOCKET_ERROR.
unfoldable pub add_ret : ℕ → Option ℕ → ℕ
add_ret total none = (total + (2 ^ 32 - 1)) % 2 ^ 32
add_ret total (some n) = (total + n) % 2 ^ 32

-- What a call of send(2) came to, in the trace.
unfoldable pub note_sent : {W : Type 0} → ℕ → List ℕ → Option ℕ → World W → World W
note_sent sock chunk none w = w
note_sent sock chunk (some n) w = emit (sent sock (take n chunk)) w

-- `send sock chunk` is send(2): `none` is -1, and `some n` says that the first n bytes were taken.
module _ {W : Type 0} (send : ℕ → List ℕ → W → Option ℕ × W) where
  -- `for (nTryNum = 0; nTryNum < 3; nTryNum++)`, by the tries that are left.
  unfoldable pub try_send : ℕ → ℕ → List ℕ → W → Option ℕ × W
  try_send zero sock chunk os = (none, os)
  try_send (suc tries) sock chunk os =
      let (ret, os') = send sock chunk os in
      elim ret [ none ↦ try_send tries sock chunk os' | some n ↦ (some n, os') ]

  -- `while (nTotalSendLen < dwLen)`: the comparison is unsigned, so `total` is the 32-bit pattern of
  -- the int. `none` says that the fuel ran out.
  unfoldable pub send_loop : ℕ → ℕ → List ℕ → ℕ → ℕ → World W → Option (World W)
  unfolding add_ret note_sent
  send_loop zero sock buf dw_len total w = none
  send_loop (suc fuel) sock buf dw_len total w = elim (ltb total dw_len) [
    | false ↦ some w
    | true ↦
        let chunk = drop total (take dw_len buf) in
        let (ret, os') = try_send 3 sock chunk w.os in
        send_loop fuel sock buf dw_len (add_ret total ret)
          (note_sent sock chunk ret (record w { os = os' }))
  ]

  abbrev pub sent_all : Option (World W) → Option (Bool × World W)
  sent_all none = none
  sent_all (some w) = some (true, w)

  -- bool SockSend(int tSock, const char* pchBuf, uint32_t dwLen). INVALID_SOCKET and NULL are `none`.
  unfoldable pub sock_send : ℕ → Option ℕ → Option (List ℕ) → ℕ → World W → Option (Bool × World W)
  sock_send fuel none buf dw_len w = some (false, w)
  sock_send fuel (some sock) none dw_len w = some (false, w)
  sock_send fuel (some sock) (some buf) dw_len w = sent_all (send_loop fuel sock buf dw_len 0 w)

  -- bool sendMsgToTerminal(const char* pchMsg, int msgLen); `client` is sockClient_.
  unfoldable pub send_msg_to_terminal :
      ℕ → Option ℕ → Option (List ℕ) → ℕ → World W → Option (Bool × World W)
  send_msg_to_terminal fuel none msg msg_len w = some (true, w)
  send_msg_to_terminal fuel (some sock) none msg_len w = some (false, w)
  send_msg_to_terminal fuel (some sock) (some msg) msg_len w =
      sock_send fuel (some sock) (some msg) msg_len w
