-- ===== src/Printf/Lines.antt =====
-- telPrintf and telPrintfNoTime, called in any state of the message buffers that keeps their
-- invariant.
use telnet_serv.Prelude.{
  ℕ, zero, suc, ◌+◌, ◌%◌, ◌^◌, ◌≤◌, ◌<◌, ◌≡◌, ◌≢◌, refl, sym, ap, ◌∙◌, inl, inr, Bool, true, false,
  ◌||◌, List, [], ◌∷◌, ◌++◌, ltb, leb, ◌==◌, if◌then◌else◌, length, take, replicate, arith,
  length-append, length-replicate, length-take, take_all, append-nil, Bool-cases, le→ltb, ==→eq,
}
use telnet_serv.MsgBuf.{MsgBuf, moved, max_log_msg_len, append_to_msg_buf}
use telnet_serv.MsgBuf.Inv.{IsSize, MsgInv}
use telnet_serv.MsgBuf.Append.{pending, append_to_msg_buf_lem}
use telnet_serv.Printf.{
  Tm, time_text, Stamp, format_time, text, failed, msg_array, log_plain, tel_printf_no_time,
  log_stamped, tel_printf,
}
use telnet_serv.Printf.Time.{IsTime, IsCached, length-time_text, format_time_lem}

take-take : (k n : ℕ) (xs : List ℕ) → k ≤ n → take k (take n xs) ≡ take k xs
take-take zero n xs h = refl
take-take (suc k) zero xs h = absurd (omega arith)
take-take (suc k) (suc n) [] h = refl
take-take (suc k) (suc n) (x ∷ xs) h = ap (◌∷◌ x) (take-take k n xs (omega arith))

take-append_le : (n : ℕ) (xs ys : List ℕ) → n ≤ length xs → take n (xs ++ ys) ≡ take n xs
take-append_le zero xs ys h = refl
take-append_le (suc n) [] ys h = absurd (omega arith)
take-append_le (suc n) (x ∷ xs) ys h = ap (◌∷◌ x) (take-append_le n xs ys (omega arith))

-- The array of `size` bytes gives back the bytes that were printed into it.
take_array :
    (n size : ℕ) (xs ys : List ℕ)
    → n ≤ length xs
    → n ≤ size
    → take n (take size (xs ++ ys)) ≡ take n xs
take_array n size xs ys h k = take-take n size (xs ++ ys) k ∙ take-append_le n xs ys h

length_array : (n : ℕ) (xs : List ℕ) → length (take n (xs ++ replicate n 0)) ≡ n
length_array n xs = omega (
  arith,
  length-take n (xs ++ replicate n 0),
  length-append xs (replicate n 0),
  length-replicate {A = ℕ} n 0,
)

-- What telPrintf of a formatted text is to log: nothing without a client, for an empty text, or if
-- the line does not fit the array with its NUL.
abbrev pub stamped : Bool → List ℕ → List ℕ → List ℕ
stamped client time bytes =
    if client
    then (if (length bytes == 0) || leb 2000 (21 + length bytes) then [] else time ++ bytes)
    else []

module _ (size : ℕ) (memory : List ℕ) (sized : IsSize size memory) where
  abbrev pub Logs : List ℕ → MsgBuf → MsgBuf → Type 0
  Logs line m m' = MsgInv size m' × (pending m' ≡ pending m ++ line)

  -- appendToMsgBuf of the array with a text in it.
  append_prefix :
      (line : List ℕ) (n : ℕ) (m : MsgBuf)
      → MsgInv size m
      → n ≤ length line
      → n < 2000
      → (m' : MsgBuf) × (append_to_msg_buf size memory true (msg_array line) n m ≡ moved m')
        × Logs (take n line) m m'
  append_prefix line n m v h k =
      let (m', done, inv, same) =
        append_to_msg_buf_lem size memory sized true (msg_array line) n m v
          (omega (arith, length_array 2000 line)) in
      let fits : ltb max_log_msg_len n ≡ false = le→ltb max_log_msg_len n (omega arith) in
      let text_eq : take n (msg_array line) ≡ take n line =
        take_array n 2000 line (replicate 2000 0) h (omega arith) in
      (m', done, (inv, rw (same, fits, text_eq)))

  append_array :
      (line : List ℕ) (n : ℕ) (m : MsgBuf)
      → MsgInv size m
      → n ≡ length line
      → n < 2000
      → (m' : MsgBuf) × (append_to_msg_buf size memory true (msg_array line) n m ≡ moved m')
        × Logs line m m'
  append_array line n m v e k =
      let (m', done, logs) = append_prefix line n m v (omega arith) k in
      (m', done, (logs.0, logs.1 ∙ ap (◌++◌ (pending m)) (take_all n line (omega arith))))

  empty_text : (bytes : List ℕ) → (length bytes == 0) ≡ true → [] ≡ bytes
  empty_text [] h = refl
  empty_text (x ∷ xs) h = absurd (omega (arith, ==→eq (suc (length xs)) 0 h))

  -- telPrintfNoTime of any text below 2000 bytes returns, keeps the invariant, and puts the text
  -- behind the pending bytes if there is a client, and nothing if there is none.
  pub tel_printf_no_time_lem :
      (client : Bool) (bytes : List ℕ) (m : MsgBuf)
      → MsgInv size m
      → length bytes < 2000
      → (m' : MsgBuf) × (tel_printf_no_time size memory client (text bytes) m ≡ moved m')
        × Logs (if client then bytes else []) m m'
  unfolding tel_printf_no_time log_plain
  tel_printf_no_time_lem false bytes m v h = (m, refl, (v, sym (append-nil (pending m))))
  tel_printf_no_time_lem true bytes m v h =
      let short : leb 2000 (length bytes) ≡ false = ground arith in
      elim (Bool-cases (length bytes == 0)) [
        | inl e ↦ rw (short, e, ← empty_text bytes e) (m, refl, (v, sym (append-nil (pending m))))
        | inr e ↦ rw (short, e) (append_array bytes (length bytes) m v refl h)
      ]

  module _ (to_local_time : ℕ → Tm) (seconds : ℕ) where
    -- telPrintf behind formatTime, with the time in hand.
    log_timed :
        (time bytes : List ℕ) (m : MsgBuf) (t t' : Stamp)
        → format_time to_local_time seconds t ≡ moved (time, t')
        → length time ≡ 21
        → MsgInv size m
        → length bytes < 2 ^ 31
        → (m' : MsgBuf) × (log_stamped size memory to_local_time seconds (text bytes) m t
            ≡ moved (m', t'))
          × Logs (stamped true time bytes) m m'
    unfolding log_stamped
    log_timed time bytes m t t' f l v h =
        let total : (21 + length bytes) % 2 ^ 32 ≡ 21 + length bytes = omega arith in
        elim (Bool-cases ((length bytes == 0) || leb 2000 (21 + length bytes))) [
          | inl e ↦ rw (f, total, e) (m, refl, (v, sym (append-nil (pending m))))
          | inr e ↦
              let small : 21 + length bytes < 2000 = ground arith in
              let (m', done, logs) =
                append_array (time ++ bytes) (21 + length bytes) m v
                  (omega (arith, length-append time bytes)) small in
              rw (f, total, e, take_all 1978 bytes (omega arith), done) (m', refl, logs)
        ]

    -- telPrintf of any text, with a valid cache and any second but 0 whose local time fits the
    -- format, returns and keeps the invariant and the cache valid; it puts the second's local time
    -- and the text behind the pending bytes, and nothing if there is no client, the text is empty,
    -- or the line has 2000 bytes or more.
    pub tel_printf_lem :
        (client : Bool) (bytes : List ℕ) (m : MsgBuf) (t : Stamp)
        → MsgInv size m
        → length bytes < 2 ^ 31
        → seconds ≢ 0
        → IsTime (to_local_time seconds)
        → IsCached to_local_time t
        → (m' : MsgBuf) × (t' : Stamp) × (tel_printf size memory to_local_time seconds client
              (text bytes)
              m
              t
            ≡ moved (m', t'))
          × IsCached to_local_time t'
          × Logs (stamped client (time_text (to_local_time seconds)) bytes) m m'
    unfolding tel_printf
    tel_printf_lem false bytes m t v h nz time cached =
        (m, t, refl, cached, (v, sym (append-nil (pending m))))
    tel_printf_lem true bytes m t v h nz time cached =
        let (t', f, cached') = format_time_lem to_local_time seconds t nz time cached in
        let (m', done, logs) =
          log_timed (time_text (to_local_time seconds)) bytes m t t' f
            (length-time_text (to_local_time seconds) time) v h in
        (m', t', done, cached', logs)

    -- An error of vsnprintf is -1, and 21 + (2^32 - 1) wraps to 20: with a client, telPrintf then
    -- returns and logs the time without its last character, instead of nothing.
    pub tel_printf-failed :
        (m : MsgBuf) (t : Stamp)
        → MsgInv size m
        → seconds ≢ 0
        → IsTime (to_local_time seconds)
        → IsCached to_local_time t
        → (m' : MsgBuf) × (t' : Stamp) × (tel_printf size memory to_local_time seconds true failed m
              t
            ≡ moved (m', t'))
          × Logs (take 20 (time_text (to_local_time seconds))) m m'
    unfolding tel_printf log_stamped
    tel_printf-failed m t v nz time cached =
        let (t', f, cached') = format_time_lem to_local_time seconds t nz time cached in
        let bytes = time_text (to_local_time seconds) in
        let (m', done, logs) =
          append_prefix bytes 20 m v (omega (arith, length-time_text (to_local_time seconds) time))
            (omega arith) in
        rw (f, append-nil bytes, done) (m', t', refl, logs)
