-- ===== src/Logging/Pieces.antt =====
-- What a statement of the log puts on its stream, piece by piece.
use telnet_serv.Prelude.{
  ℕ, ◌+◌, ◌≤◌, ◌<◌, ◌≡◌, refl, sym, ap, ◌∙◌, Bool, not, List, [], ◌∷◌, ◌++◌, ◌==◌, if◌then◌else◌,
  map, length, take, arith, append_assoc, append-nil, length-append,
}
use telnet_serv.Terminal.{codes}
use telnet_serv.Logging.Source.{SourceFile}
use telnet_serv.Logging.{
  LogStream, LogLevel, trace, debug, info, warn, error, fatal, Macro, log_trace, log_debug,
  LogEvent, flushed, aborted, Globals, log_level_name, macro_level, saved_errno,
}

-- What the proofs need of LogStream: within its buffer of 4000 bytes, a text is put at the end, and
-- an int as its decimal digits.
pub record IsLogStream (l : LogStream) (show_int : ℕ → List ℕ) : Type 0 where
  pub buffer-empty : l.buffer l.empty ≡ []
  pub buffer-put :
      (t : List ℕ) (s : l.Stream)
      → length (l.buffer s) + length t < 4000
      → l.buffer (l.put t s) ≡ l.buffer s ++ t
  pub buffer-put_int :
      (n : ℕ) (s : l.Stream)
      → length (l.buffer s) + 32 ≤ 4000
      → l.buffer (l.put_int n s) ≡ l.buffer s ++ show_int n

-- What a statement puts on the stream, piece by piece.
pub data Piece : Type 0 where
  str : List ℕ → Piece
  num : ℕ → Piece

-- The end of a FATAL statement.
abbrev pub last_events : LogLevel → Globals → List LogEvent
last_events fatal g = if g.has_flush then flushed ∷ aborted ∷ [] else aborted ∷ []
last_events _ g = []

abbrev pub errno_pieces : ℕ → (ℕ → List ℕ) → List Piece
errno_pieces errno strerror =
    if not (errno == 0)
    then str (strerror errno) ∷ str (codes " (errno=") ∷ num errno ∷ str (codes ") ") ∷ []
    else []

abbrev pub func_pieces : Macro → List ℕ → List Piece
func_pieces log_trace func = str func ∷ str (b' ' ∷ []) ∷ []
func_pieces log_debug func = str func ∷ str (b' ' ∷ []) ∷ []
func_pieces _ func = []

-- The time, the thread, the level and the error; the function; the texts; the file and line.
abbrev pub pieces :
    List ℕ
    → List ℕ
    → List ℕ
    → (ℕ → List ℕ)
    → Macro
    → SourceFile
    → ℕ
    → List ℕ
    → ℕ
    → List (List ℕ)
    → List Piece
pieces second micro tid_string strerror macro file line func errno texts =
    str second
    ∷ str micro
    ∷ str tid_string
    ∷ str (log_level_name (macro_level macro))
    ∷ (errno_pieces (saved_errno macro errno) strerror
        ++ (func_pieces macro func
            ++ (map str texts
                ++ (str (codes " - ")
                    ∷ str (take file.size file.chars)
                    ∷ str (b':' ∷ [])
                    ∷ num line
                    ∷ str (b'\n' ∷ [])
                    ∷ []))))

pub same_last :
    (level : LogLevel) (g g' : Globals)
    → g'.has_flush ≡ g.has_flush
    → last_events level g' ≡ last_events level g
same_last fatal g g' h = ap (λ (b : Bool). if b then flushed ∷ aborted ∷ [] else aborted ∷ []) h
same_last trace g g' h = refl
same_last debug g g' h = refl
same_last info g g' h = refl
same_last warn g g' h = refl
same_last error g g' h = refl

module _ (l : LogStream) (show_int : ℕ → List ℕ) (laws : IsLogStream l show_int) where
  open l use {Stream, empty, put, put_int, buffer}

  unfoldable pub feed : List Piece → Stream → Stream
  feed [] s = s
  feed (str t ∷ ps) s = feed ps (put t s)
  feed (num n ∷ ps) s = feed ps (put_int n s)

  abbrev pub spell : List Piece → List ℕ
  spell [] = []
  spell (str t ∷ ps) = t ++ spell ps
  spell (num n ∷ ps) = show_int n ++ spell ps

  pub feed-append : (ps qs : List Piece) (s : Stream) → feed (ps ++ qs) s ≡ feed qs (feed ps s)
  unfolding feed
  feed-append [] qs s = refl
  feed-append (str t ∷ ps) qs s = feed-append ps qs (put t s)
  feed-append (num n ∷ ps) qs s = feed-append ps qs (put_int n s)

  -- Pieces that fit are spelt out at the end of the buffer.
  pub buffer-feed :
      (ps : List Piece) (s : Stream)
      → length (buffer s) + length (spell ps) + 32 ≤ 4000
      → buffer (feed ps s) ≡ buffer s ++ spell ps
  unfolding feed
  buffer-feed [] s h = sym (append-nil (buffer s))
  buffer-feed (str t ∷ ps) s h =
      let here : buffer (put t s) ≡ buffer s ++ t =
        laws.buffer-put t s (omega (arith, length-append t (spell ps))) in
      buffer-feed ps (put t s)
        (omega (arith, ap length here, length-append t (spell ps), length-append (buffer s) t))
      ∙ rw here (append_assoc (buffer s) t (spell ps))
  buffer-feed (num n ∷ ps) s h =
      let here : buffer (put_int n s) ≡ buffer s ++ show_int n =
        laws.buffer-put_int n s (omega arith) in
      buffer-feed ps (put_int n s) (
        omega (
          arith,
          ap length here,
          length-append (show_int n) (spell ps),
          length-append (buffer s) (show_int n),
        ))
      ∙ rw here (append_assoc (buffer s) (show_int n) (spell ps))
