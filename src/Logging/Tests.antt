-- ===== src/Logging/Tests.antt =====
-- The log's lines over a simple stream: runs, and instances of the theorems.
use telnet_serv.Prelude.{
  ℕ, ◌+◌, ◌≡◌, refl, true, false, some, List, [], ◌∷◌, ◌++◌, ltb, if◌then◌else◌, length, replicate,
  arith, lt→ltb,
}
use telnet_serv.Terminal.{codes, decimal}
use telnet_serv.Printf.{Tm, padded}
use telnet_serv.Printf.Time.{IsTime}
use telnet_serv.Logging.Source.{SourceFile, strrchr, from_array, from_pointer}
use telnet_serv.Logging.{
  LogStream, info, log_fatal, output, flushed, aborted, Globals, is_logged, second_text, micro_text,
  log_statement,
}
use telnet_serv.Logging.BaseName.{IsBaseName, source_file_lem}
use telnet_serv.Logging.Stamp.{IsCached, Updated}
use telnet_serv.Logging.Pieces.{IsLogStream}
use telnet_serv.Logging.Line.{log_statement_lem}

-- A stream is what was put on it, within 4000 bytes.
abbrev put_text : List ℕ → List ℕ → List ℕ
put_text t s = if ltb (length s + length t) 4000 then s ++ t else s

abbrev digits : ℕ → List ℕ
digits n = if ltb n 10 then (b'0' + n) ∷ [] else codes "many"

abbrev simple : LogStream
simple = record {
  Stream = List ℕ;
  empty = [];
  put = put_text;
  put_int = λ n s. s ++ digits n;
  buffer = λ s. s;
}

simple-IsLogStream : IsLogStream simple digits
simple-IsLogStream = record {
  buffer-empty = refl;
  buffer-put = λ t s fits. rw (lt→ltb (length s + length t) 4000 fits);
  buffer-put_int = λ n s fits. refl;
}

-- A noon, at which the clock of every zone stands.
abbrev noon : ℕ → Tm
noon seconds = record {
  tm_year = 115;
  tm_mon = 6;
  tm_mday = 1;
  tm_hour = 12;
  tm_min = 0;
  tm_sec = 5;
}

noon-IsTime : (seconds : ℕ) → IsTime (noon seconds)
noon-IsTime seconds = record {
  year_low = omega arith;
  year_high = omega arith;
  mon = omega arith;
  mday = omega arith;
  hour = omega arith;
  min = omega arith;
  sec = omega arith;
}

abbrev strerror : ℕ → List ℕ
strerror n = codes "error"

abbrev globals : Globals
globals = record {
  log_level = info;
  has_output = true;
  has_flush = true;
  zone_valid = false;
  t_time = replicate 32 0;
  t_last_second = 0;
}

globals-IsCached : IsCached simple noon noon (codes "77 ") strerror globals
globals-IsCached h = absurd (h refl)

source_file_example :
    IsBaseName (codes "base/LogFile.cc") (from_array (codes "base/LogFile.cc"))
    × (from_pointer (codes "base/LogFile.cc") ≡ from_array (codes "base/LogFile.cc"))
source_file_example = source_file_lem (codes "base/LogFile.cc")

abbrev file : SourceFile
unfolding from_array strrchr
file = from_array (codes "base/LogFile.cc")

file_name : file.chars ≡ codes "LogFile.cc"
unfolding from_array strrchr
file_name = refl

log_statement_example :
    (g' : Globals) × (log_statement simple noon noon
        (codes "77 ")
        strerror
        log_fatal
        file
        9
        (codes "f")
        2
        1000007
        (codes "no " ∷ codes "disk" ∷ [])
        globals
      ≡ some (
        g',
        output (codes "20150701 12:00:05.000007Z 77 FATAL no disk - LogFile.cc:9\n")
            ∷ flushed
            ∷ aborted
            ∷ [],
      ))
    × Updated simple noon noon (codes "77 ") strerror 1 globals g'
unfolding second_text padded decimal micro_text is_logged from_array strrchr
log_statement_example =
    log_statement_lem simple digits simple-IsLogStream noon noon (codes "77 ") strerror log_fatal
      file 9 (codes "f") 2 1000007 (codes "no " ∷ codes "disk" ∷ []) globals refl (omega arith)
      (noon-IsTime 1) globals-IsCached (omega arith) (omega arith)
