-- ===== src/Printf/Time.antt =====
-- formatTime: the time is 21 characters long, and the cached text is that of the second asked for.
use telnet_serv.Prelude.{
  ℕ, ◌+◌, ◌≤◌, ◌<◌, ◌≡◌, ◌≢◌, List, ◌==◌, length, take, length-append, length-replicate,
  take_of_length, take_all, arith, Bool-cases, inl, inr, eq→==, ==→eq,
}
use telnet_serv.MsgBuf.{moved}
use telnet_serv.Printf.{Tm, padded, time_text, Stamp, print_time, format_time}

pub two_digits : (n : ℕ) → n < 100 → length (padded 2 b'0' n) ≡ 2
unfolding padded
two_digits n h = ground (arith, length-replicate {A = ℕ} 1 b'0')

pub four_digits : (n : ℕ) → 1000 ≤ n → n < 10000 → length (padded 4 b' ' n) ≡ 4
unfolding padded
four_digits n h k = ground arith

-- A time whose fields fit the widths of the format; the year has four digits.
pub record IsTime (tm : Tm) : Type 0 where
  pub year_low : 1000 ≤ tm.tm_year + 1900
  pub year_high : tm.tm_year + 1900 < 10000
  pub mon : tm.tm_mon + 1 < 100
  pub mday : tm.tm_mday < 100
  pub hour : tm.tm_hour < 100
  pub min : tm.tm_min < 100
  pub sec : tm.tm_sec < 100

pub length-time_text : (tm : Tm) → IsTime tm → length (time_text tm) ≡ 21
unfolding time_text
length-time_text tm t = simp length-append (
    omega (
      arith,
      four_digits (tm.tm_year + 1900) t.year_low t.year_high,
      two_digits (tm.tm_mon + 1) t.mon,
      two_digits tm.tm_mday t.mday,
      two_digits tm.tm_hour t.hour,
      two_digits tm.tm_min t.min,
      two_digits tm.tm_sec t.sec,
    ))

module _ (to_local_time : ℕ → Tm) where
  -- The text in the cache is that of its second; second 0 is the mark of an empty cache.
  abbrev pub IsCached : Stamp → Type 0
  IsCached t = (t.t_last_second ≢ 0) → take 21 t.t_time ≡ time_text (to_local_time t.t_last_second)

  take-print_time :
      (bytes old : List ℕ) → length bytes ≡ 21 → take 21 (print_time bytes old) ≡ bytes
  unfolding print_time
  take-print_time bytes old h = rw (take_all 24 bytes (omega arith)) (take_of_length 21 bytes _ h)

  -- formatTime of any second but 0, whose local time fits the format, from a valid cache: the
  -- assert holds, the 21 bytes are the text of that second's local time, whether they come from the
  -- cache or not, and the cache stays valid.
  pub format_time_lem :
      (seconds : ℕ) (t : Stamp)
      → seconds ≢ 0
      → IsTime (to_local_time seconds)
      → IsCached t
      → (t' : Stamp) × (format_time to_local_time seconds t
          ≡ moved (time_text (to_local_time seconds), t'))
        × IsCached t'
  unfolding format_time
  format_time_lem seconds t nz time cached = elim (Bool-cases (seconds == t.t_last_second)) [
    | inl e ↦
        let same : seconds ≡ t.t_last_second = ==→eq seconds t.t_last_second e in
        let hit : take 21 t.t_time ≡ time_text (to_local_time seconds) =
          rw same (cached (rw (← same) nz)) in
        (t, rw (e, hit), cached)
    | inr e ↦
        let size = length-time_text (to_local_time seconds) time in
        let fill = take-print_time (time_text (to_local_time seconds)) t.t_time size in
        (
          record {
            t_time = print_time (time_text (to_local_time seconds)) t.t_time;
            t_last_second = seconds;
          },
          rw (e, eq→== (length (time_text (to_local_time seconds))) 21 size, fill),
          λ _. fill,
        )
  ]
