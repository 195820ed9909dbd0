-- ===== src/Printf.antt =====
-- telnetServ/telnetServ.cc, telPrintf, telPrintfNoTime and formatTime: the program's threads log a
-- formatted line, with or without the time.
pub mod Time
pub mod Lines
mod Tests
use telnet_serv.Prelude.{
  ℕ, ◌+◌, ◌-◌, ◌%◌, ◌^◌, Bool, true, false, not, ◌||◌, List, [], ◌∷◌, ◌++◌, leb, ◌==◌,
  if◌then◌else◌, length, take, drop, replicate,
}
use telnet_serv.Terminal.{codes, decimal}
use telnet_serv.MsgBuf.{MsgBuf, Outcome, moved, fault, ◌>>=◌, append_to_msg_buf}

-- The fields of struct tm that are printed.
pub record Tm : Type 0 where
  pub tm_year : ℕ
  pub tm_mon : ℕ
  pub tm_mday : ℕ
  pub tm_hour : ℕ
  pub tm_min : ℕ
  pub tm_sec : ℕ

-- %4d and %02d of a number: padded in front by `c`.
unfoldable pub padded : ℕ → ℕ → ℕ → List ℕ
unfolding decimal
padded width c n = let digits = decimal 10 n [] in replicate (width - length digits) c ++ digits

-- "[%4d-%02d-%02d %02d:%02d:%02d]"
unfoldable pub time_text : Tm → List ℕ
time_text tm =
    b'[' ∷ padded 4 b' ' (tm.tm_year + 1900)
    ++ (b'-' ∷ padded 2 b'0' (tm.tm_mon + 1)
        ++ (b'-' ∷ padded 2 b'0' tm.tm_mday
            ++ (b' ' ∷ padded 2 b'0' tm.tm_hour
                ++ (b':' ∷ padded 2 b'0' tm.tm_min
                    ++ (b':' ∷ padded 2 b'0' tm.tm_sec ++ b']' ∷ [])))))

-- t_time and t_lastSecond of a thread.
pub record Stamp : Type 0 where
  pub t_time : List ℕ
  pub t_last_second : ℕ

-- snprintf(t_time, 25, ...): at most 24 characters and a NUL.
unfoldable pub print_time : List ℕ → List ℕ → List ℕ
print_time text old = take 24 text ++ (0 ∷ drop (length (take 24 text) + 1) old)

-- uint32_t formatTime(char* pszMsg): the 21 bytes that are copied, with toLocalTime of the seconds
-- that the clock shows.
unfoldable pub format_time : (ℕ → Tm) → ℕ → Stamp → Outcome (List ℕ × Stamp)
format_time to_local_time seconds t =
    if seconds == t.t_last_second
    then moved (take 21 t.t_time, t)
    else (let text = time_text (to_local_time seconds) in
        let t_time = print_time text t.t_time in
        if length text == 21
        then moved (take 21 t_time, record { t_time = t_time; t_last_second = seconds })
        else fault)

-- What the format and its arguments come to: NULL, an error of the printf function, or a text.
pub data Formatted : Type 0 where
  null_format failed : Formatted
  text : List ℕ → Formatted

-- A char array of 2000 bytes that starts with some bytes and holds zeros behind them.
abbrev pub msg_array : List ℕ → List ℕ
msg_array bytes = take 2000 (bytes ++ replicate 2000 0)

-- actLen, where -1 is an error.
abbrev pub act_len : Formatted → ℕ
act_len (text bytes) = length bytes
act_len _ = 2 ^ 32 - 1

abbrev pub written : Formatted → List ℕ
written (text bytes) = bytes
written _ = []

module _ (size : ℕ) (memory : List ℕ) where
  -- telPrintfNoTime behind the guards; a text of 2000 bytes or more is written behind the array.
  unfoldable pub log_plain : Formatted → MsgBuf → Outcome MsgBuf
  log_plain out m =
      if leb 2000 (length (written out))
      then fault
      else if (act_len out == 0) || leb 2000 (act_len out)
      then moved m
      else append_to_msg_buf size memory true (msg_array (written out)) (act_len out) m

  -- void telPrintfNoTime(char* szFormat, ...)
  unfoldable pub tel_printf_no_time : Bool → Formatted → MsgBuf → Outcome MsgBuf
  tel_printf_no_time false out m = moved m
  tel_printf_no_time true null_format m = moved m
  tel_printf_no_time true failed m = log_plain failed m
  tel_printf_no_time true (text bytes) m = log_plain (text bytes) m

  -- telPrintf behind the guards; vsnprintf writes at most 1978 bytes and a NUL behind the time.
  unfoldable pub log_stamped : (ℕ → Tm) → ℕ → Formatted → MsgBuf → Stamp → Outcome (MsgBuf × Stamp)
  log_stamped to_local_time seconds out m t = do
    (time, t') ← format_time to_local_time seconds t
    let total = (21 + act_len out) % 2 ^ 32
    if (act_len out == 0) || leb 2000 total then moved (m, t') else do
      m' ← append_to_msg_buf size memory true (msg_array (time ++ take 1978 (written out))) total m
      moved (m', t')

  -- void telPrintf(char* szFormat, ...)
  unfoldable pub tel_printf :
      (ℕ → Tm) → ℕ → Bool → Formatted → MsgBuf → Stamp → Outcome (MsgBuf × Stamp)
  tel_printf to_local_time seconds false out m t = moved (m, t)
  tel_printf to_local_time seconds true null_format m t = moved (m, t)
  tel_printf to_local_time seconds true failed m t = log_stamped to_local_time seconds failed m t
  tel_printf to_local_time seconds true (text bytes) m t =
      log_stamped to_local_time seconds (text bytes) m t
