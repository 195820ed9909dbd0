-- ===== src/Logging/Stamp.antt =====
-- Impl::formatTime: 17 characters of the second, from the cache or not, and 8 or 9 of the
-- microseconds.
use telnet_serv.Prelude.{
  ℕ, zero, suc, ◌+◌, ◌-◌, ◌/◌, ◌%◌, ◌<◌, ◌≡◌, ◌≢◌, refl, sym, ◌∙◌, subst, Bool, true, false, some,
  List, [], ◌∷◌, ◌++◌, ltb, ◌==◌, if◌then◌else◌, length, drop, replicate, arith, Bool-cases, inl,
  inr, length-append, length-replicate, take_of_length, take_all, ==→eq, eq→==,
}
use telnet_serv.Text.{IsFree, IsFree-append, c_str_free, c_str_all}
use telnet_serv.Terminal.{decimal}
use telnet_serv.Printf.{Tm, padded}
use telnet_serv.Printf.Time.{IsTime, two_digits, four_digits}
use telnet_serv.Logging.{
  LogStream, Globals, second_text, print_second, micro_text, put_t, update_time, format_time,
  micro_length,
}

IsFree-replicate : (c n x : ℕ) → x ≢ c → IsFree c (replicate n x)
IsFree-replicate c zero x h = tt
IsFree-replicate c (suc n) x h = (h, IsFree-replicate c n x h)

decimal-IsFree : (fuel n : ℕ) (acc : List ℕ) → IsFree 0 acc → IsFree 0 (decimal fuel n acc)
unfolding decimal
decimal-IsFree zero n acc h = h
decimal-IsFree (suc fuel) n acc h = elim (Bool-cases (ltb n 10)) [
  | inl e ↦ rw e (omega arith, h)
  | inr e ↦ rw e (decimal-IsFree fuel (n / 10) ((b'0' + n % 10) ∷ acc) (omega arith, h))
]

padded-IsFree : (width c n : ℕ) → c ≢ 0 → IsFree 0 (padded width c n)
unfolding padded
padded-IsFree width c n h =
    IsFree-append 0 (replicate (width - length (decimal 10 n [])) c) (decimal 10 n [])
      (IsFree-replicate 0 (width - length (decimal 10 n [])) c h) (decimal-IsFree 10 n [] tt)

second_text-IsFree : (tm : Tm) → IsFree 0 (second_text tm)
unfolding second_text
second_text-IsFree tm =
    let two = λ (n : ℕ). padded-IsFree 2 b'0' n (omega arith) in
    IsFree-append 0 (padded 4 b' ' (tm.tm_year + 1900)) _
      (padded-IsFree 4 b' ' (tm.tm_year + 1900) (omega arith))
      (IsFree-append 0 (padded 2 b'0' (tm.tm_mon + 1)) _ (two (tm.tm_mon + 1)) (
        IsFree-append 0 (padded 2 b'0' tm.tm_mday) _ (two tm.tm_mday) (
          omega arith,
          IsFree-append 0 (padded 2 b'0' tm.tm_hour) _ (two tm.tm_hour) (
            omega arith,
            IsFree-append 0 (padded 2 b'0' tm.tm_min) _ (two tm.tm_min)
                (omega arith, two tm.tm_sec),
          ),
        )))

length-second_text : (tm : Tm) → IsTime tm → length (second_text tm) ≡ 17
unfolding second_text
length-second_text tm t = simp length-append (
    omega (
      arith,
      four_digits (tm.tm_year + 1900) t.year_low t.year_high,
      two_digits (tm.tm_mon + 1) t.mon,
      two_digits tm.tm_mday t.mday,
      two_digits tm.tm_hour t.hour,
      two_digits tm.tm_min t.min,
      two_digits tm.tm_sec t.sec,
    ))

six_digits : (n : ℕ) → n < 1_000_000 → length (padded 6 b'0' n) ≡ 6
unfolding padded
six_digits n h = ground (arith, length-replicate {A = ℕ} 1 b'0')

micro_text_lem :
    (valid : Bool) (us : ℕ)
    → us < 1_000_000
    → IsFree 0 (micro_text valid us) × (length (micro_text valid us) ≡ micro_length valid)
unfolding micro_text
micro_text_lem true us h = (
  (
    omega arith,
    IsFree-append 0 (padded 6 b'0' us) _ (padded-IsFree 6 b'0' us (omega arith)) (omega arith),
  ),
  omega (arith, length-append (padded 6 b'0' us) (b' ' ∷ []), six_digits us h),
)
micro_text_lem false us h = (
  (
    omega arith,
    IsFree-append 0 (padded 6 b'0' us) _ (padded-IsFree 6 b'0' us (omega arith)) (omega arith),
  ),
  omega (arith, length-append (padded 6 b'0' us) (b'Z' ∷ b' ' ∷ []), six_digits us h),
)

-- TimeZone::toLocalTime and gmtime_r, and the stream, of a thread.
module _ (l : LogStream) (to_local_time gmtime : ℕ → Tm) (tid_string : List ℕ)
    (strerror : ℕ → List ℕ) where
  open l use {Stream, put}

  abbrev pub zone_time : Globals → ℕ → Tm
  zone_time g seconds = if g.zone_valid then to_local_time seconds else gmtime seconds

  -- The cache holds the text of its second; second 0 is the mark of an empty cache.
  abbrev pub IsCached : Globals → Type 0
  IsCached g =
      g.t_last_second ≢ 0
      → (rest : List ℕ) × (g.t_time ≡ second_text (zone_time g g.t_last_second) ++ 0 ∷ rest)

  print_second-eq :
      (bytes old : List ℕ)
      → length bytes ≡ 17
      → (rest : List ℕ) × (print_second bytes old ≡ bytes ++ 0 ∷ rest)
  unfolding print_second
  print_second-eq bytes old h =
      let all = take_all 31 bytes (omega (arith, h)) in (drop (length bytes + 1) old, rw (all))

  -- What formatTime makes of the cache.
  abbrev pub Updated : ℕ → Globals → Globals → Type 0
  Updated seconds g g' =
      (g'.zone_valid ≡ g.zone_valid)
      × (g'.log_level ≡ g.log_level)
      × (g'.has_output ≡ g.has_output)
      × (g'.has_flush ≡ g.has_flush)
      × (g'.t_last_second ≡ seconds)
      × ((rest : List ℕ) × (g'.t_time ≡ second_text (zone_time g seconds) ++ 0 ∷ rest))

  update_time_lem :
      (seconds : ℕ) (g : Globals)
      → seconds ≢ 0
      → IsTime (zone_time g seconds)
      → IsCached g
      → (g' : Globals) × (update_time l to_local_time gmtime tid_string strerror seconds g
          ≡ some g')
        × Updated seconds g g'
  unfolding update_time
  update_time_lem seconds g nz time cached = elim (Bool-cases (seconds == g.t_last_second)) [
    | inl e ↦
        let same : seconds ≡ g.t_last_second = ==→eq seconds g.t_last_second e in
        (
          g,
          rw e,
          (
            refl,
            refl,
            refl,
            refl,
            sym same,
            subst (λ s. (rest : List ℕ) × (g.t_time ≡ second_text (zone_time g s) ++ 0 ∷ rest))
                (sym same) (cached (λ z. nz (same ∙ z))),
          ),
        )
    | inr e ↦
        let size = length-second_text (zone_time g seconds) time in
        (
          record g {
            t_time = print_second (second_text (zone_time g seconds)) g.t_time;
            t_last_second = seconds;
          },
          rw (e, eq→== (length (second_text (zone_time g seconds))) 17 size),
          (
            refl,
            refl,
            refl,
            refl,
            refl,
            print_second-eq (second_text (zone_time g seconds)) g.t_time size,
          ),
        )
  ]

  -- A text without NUL, whose length is the one that T is given.
  pub put_t_free :
      (xs : List ℕ) (n : ℕ) (s : Stream)
      → IsFree 0 xs
      → length xs ≡ n
      → put_t l to_local_time gmtime tid_string strerror xs n s ≡ some (put xs s)
  unfolding put_t
  put_t_free xs n s free size =
      rw (c_str_all xs free, eq→== (length xs) n size, take_all n xs (omega (arith, size)))

  put_t_time :
      (xs rest : List ℕ) (n : ℕ) (s : Stream)
      → IsFree 0 xs
      → length xs ≡ n
      → put_t l to_local_time gmtime tid_string strerror (xs ++ 0 ∷ rest) n s ≡ some (put xs s)
  unfolding put_t
  put_t_time xs rest n s free size =
      rw (c_str_free xs rest free, eq→== (length xs) n size, take_of_length n xs (0 ∷ rest) size)

  -- Impl::formatTime, from a valid cache and at a second above 0 whose time fits the format: no
  -- assert fails, the second and its microseconds are put on the stream, and the cache is that of
  -- the second.
  pub stamp_lem :
      (us : ℕ) (g : Globals) (s : Stream)
      → us / 1_000_000 ≢ 0
      → IsTime (zone_time g (us / 1_000_000))
      → IsCached g
      → (g' : Globals) × (format_time l to_local_time gmtime tid_string strerror us g s
          ≡ some (
            g',
            put
                (micro_text g.zone_valid (us % 1_000_000))
                (put (second_text (zone_time g (us / 1_000_000))) s),
          ))
        × Updated (us / 1_000_000) g g'
  unfolding format_time
  stamp_lem us g s nz time cached =
      let (g', e, up) = update_time_lem (us / 1_000_000) g nz time cached in
      let now = second_text (zone_time g (us / 1_000_000)) in
      let size = length-second_text (zone_time g (us / 1_000_000)) time in
      let free = second_text-IsFree (zone_time g (us / 1_000_000)) in
      let (rest, text_eq) = up.5 in
      let micro = micro_text_lem g.zone_valid (us % 1_000_000) (omega arith) in
      (
        g',
        rw (
          e,
          text_eq,
          put_t_time now rest 17 s free size,
          up.0,
          eq→== _ _ micro.1,
          put_t_free (micro_text g.zone_valid (us % 1_000_000)) (micro_length g.zone_valid)
              (put now s) micro.0 micro.1,
        ),
        up,
      )
