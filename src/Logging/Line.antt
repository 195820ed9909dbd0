-- ===== src/Logging/Line.antt =====
-- A statement of the log: one line goes to the output function, whole, or nothing at all.
use telnet_serv.Prelude.{
  ℕ, ◌+◌, ◌/◌, ◌%◌, ◌≤◌, ◌≡◌, ◌≢◌, refl, ap, ap₂, ◌∙◌, Bool, true, some, List, [], ◌∷◌, ◌++◌, ◌==◌,
  if◌then◌else◌, map, length, arith, Bool-cases, inl, inr,
}
use telnet_serv.Printf.{Tm}
use telnet_serv.Printf.Time.{IsTime}
use telnet_serv.Logging.Source.{SourceFile}
use telnet_serv.Text.{IsFree}
use telnet_serv.Logging.{
  LogStream, LogLevel, trace, debug, info, warn, error, fatal, Macro, log_trace, log_debug,
  log_info, log_warn, log_error, log_fatal, log_syserr, log_sysfatal, LogEvent, output, Globals,
  log_level_name, second_text, micro_text, is_logged, macro_level, saved_errno, put_errno, new_impl,
  put_func, put_all, finish, destroy, log_statement,
}
use telnet_serv.Logging.Stamp.{zone_time, IsCached, Updated, put_t_free, stamp_lem}
use telnet_serv.Logging.Pieces.{
  IsLogStream, str, last_events, errno_pieces, func_pieces, pieces, same_last, feed, spell,
  feed-append, buffer-feed,
}

module _ (l : LogStream) (show_int : ℕ → List ℕ) (laws : IsLogStream l show_int) where
  open l use {Stream, empty, put, put_int, buffer}

  module _ (to_local_time gmtime : ℕ → Tm) (tid_string : List ℕ) (strerror : ℕ → List ℕ) where
    errno-feed :
        (errno : ℕ) (s : Stream)
        → put_errno l to_local_time gmtime tid_string strerror errno s
          ≡ feed l show_int laws (errno_pieces errno strerror) s
    unfolding feed
    errno-feed errno s = elim (Bool-cases (errno == 0)) [ inl e ↦ rw e | inr e ↦ rw e ]

    func-feed :
        (macro : Macro) (func : List ℕ) (s : Stream)
        → put_func l to_local_time gmtime tid_string strerror macro func s
          ≡ feed l show_int laws (func_pieces macro func) s
    unfolding feed
    func-feed log_trace func s = refl
    func-feed log_debug func s = refl
    func-feed log_info func s = refl
    func-feed log_warn func s = refl
    func-feed log_error func s = refl
    func-feed log_fatal func s = refl
    func-feed log_syserr func s = refl
    func-feed log_sysfatal func s = refl

    texts-feed :
        (texts : List (List ℕ)) (s : Stream)
        → put_all l to_local_time gmtime tid_string strerror texts s
          ≡ feed l show_int laws (map str texts) s
    unfolding feed put_all
    texts-feed [] s = refl
    texts-feed (t ∷ texts) s = texts-feed texts (put t s)

    level_name_lem :
        (level : LogLevel) → IsFree 0 (log_level_name level) × (length (log_level_name level) ≡ 6)
    level_name_lem trace = omega arith
    level_name_lem debug = omega arith
    level_name_lem info = omega arith
    level_name_lem warn = omega arith
    level_name_lem error = omega arith
    level_name_lem fatal = omega arith

    destroy-events :
        (level : LogLevel) (file : SourceFile) (line : ℕ) (g : Globals) (s : Stream)
        → destroy l to_local_time gmtime tid_string strerror level file line g s
          ≡ (if g.has_output
              then output (buffer (finish l to_local_time gmtime tid_string strerror file line s))
                ∷ []
              else [])
            ++ last_events level g
    unfolding destroy
    destroy-events fatal file line g s = refl
    destroy-events trace file line g s = refl
    destroy-events debug file line g s = refl
    destroy-events info file line g s = refl
    destroy-events warn file line g s = refl
    destroy-events error file line g s = refl

    same_events :
        (level : LogLevel) (g g' : Globals) (bytes : List ℕ)
        → g'.has_output ≡ g.has_output
        → g'.has_flush ≡ g.has_flush
        → (if g'.has_output then output bytes ∷ [] else []) ++ last_events level g'
          ≡ (if g.has_output then output bytes ∷ [] else []) ++ last_events level g
    same_events level g g' bytes h k =
        ap₂ (λ (xs ys : List LogEvent). xs ++ ys)
          (ap (λ (b : Bool). if b then output bytes ∷ [] else []) h) (same_last level g g' k)

    -- The stream of a whole statement.
    whole-feed :
        (second micro : List ℕ) (macro : Macro) (file : SourceFile) (line : ℕ) (func : List ℕ)
        (errno : ℕ) (texts : List (List ℕ))
        → finish l to_local_time gmtime tid_string strerror file line (
            put_all l to_local_time gmtime tid_string strerror texts (
              put_func l to_local_time gmtime tid_string strerror macro func (
                put_errno l to_local_time gmtime tid_string strerror (saved_errno macro errno) (
                  put
                    (log_level_name (macro_level macro))
                    (put tid_string (put micro (put second empty)))))))
          ≡ feed l show_int laws
              (pieces second micro tid_string strerror macro file line func errno texts)
              empty
    unfolding feed finish
    whole-feed second micro macro file line func errno texts =
        let base =
          put (log_level_name (macro_level macro))
            (put tid_string (put micro (put second empty))) in
        rw (
          errno-feed (saved_errno macro errno) base,
          func-feed macro func
              (feed l show_int laws (errno_pieces (saved_errno macro errno) strerror) base),
          texts-feed texts (
              feed l show_int laws (func_pieces macro func)
                (feed l show_int laws (errno_pieces (saved_errno macro errno) strerror) base)),
          feed-append l show_int laws (errno_pieces (saved_errno macro errno) strerror) _ base,
          feed-append l show_int laws (func_pieces macro func) _
              (feed l show_int laws (errno_pieces (saved_errno macro errno) strerror) base),
          feed-append l show_int laws (map str texts) _ (
              feed l show_int laws (func_pieces macro func)
                (feed l show_int laws (errno_pieces (saved_errno macro errno) strerror) base)),
        )

    -- A statement whose macro the level lets through, from a valid time cache and at a second above
    -- 0 whose time fits the format, with a line that leaves 32 of the stream's 4000 bytes free: no
    -- assert fails; the output function, if one is set, gets exactly the line, of the time, the
    -- thread, the level, the error, the function, the texts, the file and its line in that order;
    -- FATAL then flushes, if a flush function is set, and aborts, and no other level does.
    pub log_statement_lem :
        (macro : Macro) (file : SourceFile) (line : ℕ) (func : List ℕ) (errno us : ℕ)
        (texts : List (List ℕ)) (g : Globals)
        → is_logged g.log_level macro ≡ true
        → us / 1_000_000 ≢ 0
        → IsTime (zone_time l to_local_time gmtime tid_string strerror g (us / 1_000_000))
        → IsCached l to_local_time gmtime tid_string strerror g
        → IsFree 0 tid_string
        → let second =
            second_text (zone_time l to_local_time gmtime tid_string strerror g (us / 1_000_000)) in
          let micro = micro_text g.zone_valid (us % 1_000_000) in
          let bytes =
            spell l show_int laws
              (pieces second micro tid_string strerror macro file line func errno texts) in
          length bytes + 32 ≤ 4000
          → (g' : Globals) × (log_statement l to_local_time gmtime tid_string strerror macro file
                line func errno us texts g
              ≡ some (
                g',
                (if g.has_output then output bytes ∷ [] else [])
                    ++ last_events (macro_level macro) g,
              ))
            × Updated l to_local_time gmtime tid_string strerror (us / 1_000_000) g g'
    unfolding log_statement new_impl
    log_statement_lem macro file line func errno us texts g on nz time cached free fits =
        let (g', e, up) =
          stamp_lem l to_local_time gmtime tid_string strerror us g empty nz time cached in
        let second =
          second_text (zone_time l to_local_time gmtime tid_string strerror g (us / 1_000_000)) in
        let micro = micro_text g.zone_valid (us % 1_000_000) in
        let ps = pieces second micro tid_string strerror macro file line func errno texts in
        let name = level_name_lem (macro_level macro) in
        let spelt : buffer (feed l show_int laws ps empty) ≡ spell l show_int laws ps =
          buffer-feed l show_int laws ps empty (omega (arith, ap length laws.buffer-empty))
          ∙ ap (λ (bs : List ℕ). bs ++ spell l show_int laws ps) laws.buffer-empty in
        (
          g',
          rw
              (
                on,
                e,
                put_t_free l to_local_time gmtime tid_string strerror tid_string (length tid_string)
                    (put micro (put second empty)) free refl,
                put_t_free l to_local_time gmtime tid_string strerror
                    (log_level_name (macro_level macro)) 6
                    (put tid_string (put micro (put second empty))) name.0 name.1,
                destroy-events (macro_level macro) file line g' _,
                whole-feed second micro macro file line func errno texts,
                spelt,
              )
              (ap (λ (es : List LogEvent). some (g', es))
                (same_events (macro_level macro) g g' (spell l show_int laws ps) up.2 up.3)),
          up,
        )
