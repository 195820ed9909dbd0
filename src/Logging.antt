-- ===== src/Logging.antt =====
-- muduo/base/Logging.cc and Logging.h: a line of the log, from the test of its level to the output
-- function. Logging/Source.antt has the names of source files.
pub mod Source
pub mod BaseName
pub mod Stamp
pub mod Pieces
pub mod Line
mod Tests
use telnet_serv.Prelude.{
  ℕ, ◌+◌, ◌-◌, ◌*◌, ◌/◌, ◌%◌, ◌≡◌, ◌≤◌, ◌<◌, Bool, true, false, not, ◌&&◌, Option, none, some, List,
  [], ◌∷◌, ◌++◌, ltb, leb, ◌==◌, if◌then◌else◌, length, take, drop,
}
use telnet_serv.Text.{c_str}
use telnet_serv.Terminal.{codes}
use telnet_serv.Printf.{Tm, padded}
use telnet_serv.LogFile.{◌>>=◌}
use telnet_serv.Logging.Source.{SourceFile}

-- enum LogLevel
pub data LogLevel : Type 0 where
  trace debug info warn error fatal : LogLevel

abbrev pub level_number : LogLevel → ℕ
level_number trace = 0
level_number debug = 1
level_number info = 2
level_number warn = 3
level_number error = 4
level_number fatal = 5

-- LogLevelName
abbrev pub log_level_name : LogLevel → List ℕ
log_level_name trace = codes "TRACE "
log_level_name debug = codes "DEBUG "
log_level_name info = codes "INFO  "
log_level_name warn = codes "WARN  "
log_level_name error = codes "ERROR "
log_level_name fatal = codes "FATAL "

-- initLogLevel(), by whether MUDUO_LOG_TRACE and MUDUO_LOG_DEBUG are set.
unfoldable pub init_log_level : Bool → Bool → LogLevel
init_log_level true debugging = trace
init_log_level false true = debug
init_log_level false false = info

-- What Logging calls of LogStream: its `operator<<` of texts and of ints, and its buffer.
pub record LogStream : Type 1 where
  pub Stream : Type 0
  pub empty : Stream
  pub put : List ℕ → Stream → Stream
  pub put_int : ℕ → Stream → Stream
  pub buffer : Stream → List ℕ

-- What the program does outside by logging.
pub data LogEvent : Type 0 where
  output : List ℕ → LogEvent
  flushed aborted : LogEvent

-- g_logLevel, g_output and g_flush, of which an empty function is `false`, g_logTimeZone's valid(),
-- and t_time and t_lastSecond of the thread.
pub record Globals : Type 0 where
  pub log_level : LogLevel
  pub has_output : Bool
  pub has_flush : Bool
  pub zone_valid : Bool
  pub t_time : List ℕ
  pub t_last_second : ℕ

-- setLogLevel, setAsynOutput and setAsynFlush
unfoldable pub set_log_level : LogLevel → Globals → Globals
set_log_level level g = record g { log_level = level }

unfoldable pub set_asyn_output : Bool → Globals → Globals
set_asyn_output out g = record g { has_output = out }

unfoldable pub set_asyn_flush : Bool → Globals → Globals
set_asyn_flush flush g = record g { has_flush = flush }

-- setTimeZone, by whether the zone is valid.
unfoldable pub set_time_zone : Bool → Globals → Globals
set_time_zone valid g = record g { zone_valid = valid }

-- "%4d%02d%02d %02d:%02d:%02d"
unfoldable pub second_text : Tm → List ℕ
second_text tm =
    padded 4 b' ' (tm.tm_year + 1900)
    ++ (padded 2 b'0' (tm.tm_mon + 1)
        ++ (padded 2 b'0' tm.tm_mday
            ++ (b' ' ∷ padded 2 b'0' tm.tm_hour
                ++ (b':' ∷ padded 2 b'0' tm.tm_min ++ (b':' ∷ padded 2 b'0' tm.tm_sec)))))

-- snprintf(t_time, 32, ...)
unfoldable pub print_second : List ℕ → List ℕ → List ℕ
print_second text old = take 31 text ++ (0 ∷ drop (length (take 31 text) + 1) old)

-- ".%06d " or ".%06dZ "
unfoldable pub micro_text : Bool → ℕ → List ℕ
micro_text valid us = b'.' ∷ padded 6 b'0' us ++ (if valid then b' ' ∷ [] else b'Z' ∷ b' ' ∷ [])

-- The length that formatTime's assert on `us` wants.
abbrev pub micro_length : Bool → ℕ
micro_length true = 8
micro_length false = 9

-- The LOG_ macros.
pub data Macro : Type 0 where
  log_trace log_debug log_info log_warn log_error log_fatal log_syserr log_sysfatal : Macro

-- The `if` of a macro.
unfoldable pub is_logged : LogLevel → Macro → Bool
is_logged level log_trace = leb (level_number level) (level_number trace)
is_logged level log_debug = leb (level_number level) (level_number debug)
is_logged level log_info = leb (level_number level) (level_number info)
is_logged level log_warn = leb (level_number level) (level_number warn)
is_logged level log_error = leb (level_number level) (level_number error)
is_logged level log_fatal = leb (level_number level) (level_number fatal)
is_logged level log_syserr = true
is_logged level log_sysfatal = true

abbrev pub macro_level : Macro → LogLevel
macro_level log_trace = trace
macro_level log_debug = debug
macro_level log_info = info
macro_level log_warn = warn
macro_level log_error = error
macro_level log_fatal = fatal
macro_level log_syserr = error
macro_level log_sysfatal = fatal

-- The macros of system errors pass on errno; the others pass 0.
abbrev pub saved_errno : Macro → ℕ → ℕ
saved_errno log_syserr errno = errno
saved_errno log_sysfatal errno = errno
saved_errno _ errno = 0

-- TimeZone::toLocalTime and gmtime_r, the text of the thread's id, and strerror_r are parameters.
module _ (l : LogStream) (to_local_time gmtime : ℕ → Tm) (tid_string : List ℕ)
    (strerror : ℕ → List ℕ) where
  open l use {Stream, empty, put, put_int, buffer}

  -- `stream_ << T(str, len)`, with the assert of T's constructor.
  unfoldable pub put_t : List ℕ → ℕ → Stream → Option Stream
  put_t str len s = if length (c_str str) == len then some (put (take len str) s) else none

  -- The cache of formatTime, with its assert.
  unfoldable pub update_time : ℕ → Globals → Option Globals
  update_time seconds g =
      if seconds == g.t_last_second
      then some g
      else (let text =
            second_text (if g.zone_valid then to_local_time seconds else gmtime seconds) in
          if length text == 17
          then some (record g { t_time = print_second text g.t_time; t_last_second = seconds })
          else none)

  -- void Impl::formatTime(); `none` is a failed assert.
  unfoldable pub format_time : ℕ → Globals → Stream → Option (Globals × Stream)
  format_time micro_seconds g s = do
    g' ← update_time (micro_seconds / 1_000_000) g
    let us = micro_text g'.zone_valid (micro_seconds % 1_000_000)
    s1 ← put_t g'.t_time 17 s
    s2 ←
        (if length us == micro_length g'.zone_valid
          then put_t us (micro_length g'.zone_valid) s1
          else none)
    some (g', s2)

  abbrev pub put_errno : ℕ → Stream → Stream
  put_errno errno s =
      if not (errno == 0)
      then put (codes ") ") (put_int errno (put (codes " (errno=") (put (strerror errno) s)))
      else s

  -- Impl::Impl(level, savedErrno, file, line)
  unfoldable pub new_impl : LogLevel → ℕ → ℕ → Globals → Option (Globals × Stream)
  new_impl level errno micro_seconds g = do
    (g', s1) ← format_time micro_seconds g empty
    s2 ← put_t tid_string (length tid_string) s1
    s3 ← put_t (log_level_name level) 6 s2
    some (g', put_errno errno s3)

  -- void Impl::finish()
  unfoldable pub finish : SourceFile → ℕ → Stream → Stream
  finish file line s =
      put (b'\n' ∷ [])
        (put_int line (put (b':' ∷ []) (put (take file.size file.chars) (put (codes " - ") s))))

  -- Logger::~Logger()
  unfoldable pub destroy : LogLevel → SourceFile → ℕ → Globals → Stream → List LogEvent
  destroy level file line g s =
      (if g.has_output then output (buffer (finish file line s)) ∷ [] else [])
      ++ (if level_number level == 5
          then (if g.has_flush then flushed ∷ aborted ∷ [] else aborted ∷ [])
          else [])

  -- `stream_ << func << ' '`, which LOG_TRACE and LOG_DEBUG have.
  abbrev pub put_func : Macro → List ℕ → Stream → Stream
  put_func log_trace func s = put (b' ' ∷ []) (put func s)
  put_func log_debug func s = put (b' ' ∷ []) (put func s)
  put_func _ func s = s

  -- The texts of a statement.
  unfoldable pub put_all : List (List ℕ) → Stream → Stream
  put_all [] s = s
  put_all (text ∷ texts) s = put_all texts (put text s)

  -- A statement such as `LOG_INFO << "a" << "b";` at a time, with errno: what it does, and the
  -- globals afterwards.
  unfoldable pub log_statement :
      Macro
      → SourceFile
      → ℕ
      → List ℕ
      → ℕ
      → ℕ
      → List (List ℕ)
      → Globals
      → Option (Globals × List LogEvent)
  log_statement macro file line func errno micro_seconds texts g =
      if not (is_logged g.log_level macro) then some (g, []) else do
        (g', s) ← new_impl (macro_level macro) (saved_errno macro errno) micro_seconds g
        some (g', destroy (macro_level macro) file line g' (put_all texts (put_func macro func s)))

  -- T* CheckNotNull(file, line, names, ptr)
  unfoldable pub check_not_null :
      Option ℕ → SourceFile → ℕ → List ℕ → ℕ → Globals → Option (Globals × List LogEvent)
  check_not_null (some ptr) file line names micro_seconds g = some (g, [])
  check_not_null none file line names micro_seconds g = do
    (g', s) ← new_impl fatal 0 micro_seconds g
    some (g', destroy fatal file line g' (put names s))
