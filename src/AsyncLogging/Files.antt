-- ===== src/AsyncLogging/Files.antt =====
-- The asynchronous log with its log file: what the program's threads append is what reaches the
-- files.
use telnet_serv.Prelude.{
  ℕ, ◌<◌, ◌≡◌, ◌≢◌, refl, sym, ap, subst, ◌∙◌, false, Option, none, some, List, [], ◌++◌, concat,
  concat-append, append_assoc, append-nil, Bool-cases, Option-cases, inl, inr,
}
use telnet_serv.MsgBuf.{moved}
use telnet_serv.MsgBuf.Threads.{System}
use telnet_serv.MsgBuf.Inv.{IsSize}
use telnet_serv.MsgBuf.Hands.{Moved, Hands}
use telnet_serv.MsgBuf.Append.{pending}
use telnet_serv.MsgBuf.Stream.{stream, in_flight}
use telnet_serv.LogFile.{has_slash, LogFile, flush}
use telnet_serv.LogFile.Dirs.{Host}
use telnet_serv.LogFile.Make.{KeepsDirs}
use telnet_serv.LogFile.Roll.{IsOpen}
use telnet_serv.LogFile.Total.{Opens, IsDirPath, Ready, append_all-some, new_log_file-some}
use telnet_serv.LogFile.Quiet.{KeepsBytes}
use telnet_serv.LogFile.Bytes.{append_all_writes, new_log_file_quiet}
use telnet_serv.AsyncLogging.{Action, log, stop, begin, enter, wake, write, chunks, init, step}
use telnet_serv.AsyncLogging.Output.{output, write_round, hand_over}
use telnet_serv.AsyncLogging.Stream.{IsCall, IsCalm, logged}
use telnet_serv.AsyncLogging.Reach.{Reach, start, next, async_stream}
use telnet_serv.AsyncLogging.Hands.{handed, step-Hands}

module _ (size : ℕ) (memory : List ℕ) where
  -- The states that the threads can bring about, from the making of the log file on, by actions
  -- that find at most 25 buffers at a write; with the log file, the world, and all bytes appended.
  pub data FileRun (h : Host) (basename : List ℕ) (roll_size : ℕ) (path : List ℕ) (w0 : h.W)
      : System → LogFile h → h.W → List ℕ → Type 0 where
    file_made :
        {f : LogFile h} {w : h.W}
        → output h basename roll_size path w0 ≡ some (f, w)
        → FileRun h basename roll_size path w0 (init size memory) f w []
    acted :
        {s t : System} {f f' : LogFile h} {w w' : h.W} {bytes : List ℕ}
        → FileRun h basename roll_size path w0 s f w bytes
        → (a : Action) → IsCall a
        → IsCalm s a
        → step size memory s a ≡ moved t
        → hand_over h a s f w ≡ some (f', w')
        → FileRun h basename roll_size path w0 t f' w' (bytes ++ logged size a)

-- A log file that is open, with a fit path, takes any chunks, and then these are in the files.
module _ (h : Host) (keeps : KeepsDirs h) (opens : Opens h) (written : h.W → List ℕ)
    (laws : KeepsBytes h written) where
  open h use {W, time}

  abbrev IsGood : LogFile h → Type 0
  IsGood f = IsOpen h f × Ready h keeps opens f

  -- The log file takes what it is handed.
  abbrev Takes : List (List ℕ) → W → Option (LogFile h × W) → Type 0
  Takes ms w o =
      (f' : LogFile h) × (w' : W) × (o ≡ some (f', w'))
      × IsGood f'
      × (written w' ≡ written w ++ concat ms)

  flush-some :
      (f : LogFile h) (w : W)
      → f.file ≢ none
      → (w' : W) × (flush h f w ≡ some w') × (written w' ≡ written w)
  unfolding flush
  flush-some f w opened = elim (Option-cases f.file) [
    | inl e ↦ absurd (opened e)
    | inr (file, e) ↦ (h.flush_file file w, rw e, laws.flush_quiet file w)
  ]

  write_round-Takes :
      (ms : List (List ℕ)) (f : LogFile h) (w : W) → IsGood f → Takes ms w (write_round h ms f w)
  unfolding write_round
  write_round-Takes ms f w good =
      let (f1, w1, e, open1, ready1) = append_all-some h keeps opens false ms f w good.0 good.1 in
      let (w2, e2, quiet) = flush-some f1 w1 open1.opened in
      (
        f1,
        w2,
        rw (e, e2),
        (open1, ready1),
        quiet ∙ append_all_writes h written laws false ms f f1 w w1 e,
      )

  hand_over-Takes :
      (a : Action) (s : System) (f : LogFile h) (w : W)
      → IsGood f
      → Takes (handed a s) w (hand_over h a s f w)
  unfolding hand_over
  hand_over-Takes (log logline len) s f w good = (f, w, refl, good, sym (append-nil (written w)))
  hand_over-Takes stop s f w good = (f, w, refl, good, sym (append-nil (written w)))
  hand_over-Takes begin s f w good = (f, w, refl, good, sym (append-nil (written w)))
  hand_over-Takes wake s f w good = (f, w, refl, good, sym (append-nil (written w)))
  hand_over-Takes enter s f w good = elim (Bool-cases s.running) [
    | inl on ↦ rw on (f, w, refl, good, sym (append-nil (written w)))
    | inr off ↦ rw off (write_round-Takes [] f w good)
  ]
  hand_over-Takes (write when) s f w good =
      write_round-Takes (chunks when s.writer.to_write) f w good

  module _ (size : ℕ) (memory : List ℕ) (basename : List ℕ) (roll_size : ℕ) (path : List ℕ) (w0 : W)
      (clock : (v : W) → 0 < (time v).0) (plain : has_slash basename ≡ false)
      (fit : IsDirPath path) where
    abbrev Run : System → LogFile h → W → List ℕ → Type 0
    Run = FileRun size memory h basename roll_size path w0

    pub Run-Reach :
        {s : System} {f : LogFile h} {w : W} {bytes : List ℕ}
        → Run s f w bytes
        → Reach size memory IsCalm s bytes
    Run-Reach (file_made e) = start
    Run-Reach (acted r a call calm e put) = next (Run-Reach r) a call calm e

    same_result : {A : Type 0} (o : Option A) (a b : A) → o ≡ some a → o ≡ some b → a ≡ b
    same_result o a b e k = cc (e, k)

    -- A good log file with these bytes in the files.
    abbrev Holds : List ℕ → LogFile h × W → Type 0
    Holds bytes p = IsGood p.0 × (written p.1 ≡ bytes)

    output-Holds :
        (p : LogFile h × W) → output h basename roll_size path w0 ≡ some p → Holds (written w0) p
    unfolding output
    output-Holds p e =
        let (f1, w1, made, open1, ready1) =
          new_log_file-some h keeps opens basename roll_size path 3 1024 120 w0 clock plain fit in
        let quiet =
          new_log_file_quiet h written laws basename roll_size path 3 1024 120 w0 w1 f1 made in
        subst (Holds (written w0)) (same_result _ (f1, w1) p made e) ((open1, ready1), quiet)

    Run-Good :
        {s : System} {f : LogFile h} {w : W} {bytes : List ℕ}
        → Run s f w bytes
        → Holds (written w0 ++ concat s.handed_on) (f, w)
    unfolding init
    Run-Good (file_made {f} {w} e) =
        subst (λ bs. Holds bs (f, w)) (sym (append-nil (written w0))) (output-Holds (f, w) e)
    Run-Good (acted {s} {t} {f} {f'} {w} {w'} r a call calm e put) =
        let before = Run-Good r in
        let (f1, w1, taken, good1, more) = hand_over-Takes a s f w before.0 in
        let sent : t.handed_on ≡ s.handed_on ++ handed a s =
          subst (Moved (Hands s (handed a s))) e (step-Hands size memory s a s.phase) in
        let all : written w1 ≡ written w0 ++ concat t.handed_on =
          more ∙ rw (before.1, sent, concat-append s.handed_on (handed a s), append_assoc) in
        subst (Holds (written w0 ++ concat t.handed_on)) (same_result _ (f1, w1) (f', w') taken put)
          (good1, all)

    -- The asynchronous log with its log file, in any interleaving in which no write finds more
    -- than 25 buffers, with appends of any length that int holds, which pass no more bytes than
    -- their line has, on a host whose mkdir makes what it says, where every file can be opened,
    -- whose files take what is appended and whose clock shows more than 0, with a base name
    -- without a slash and a path that createDir takes: what has been written to the files since
    -- the start, what the log's thread has taken and what is pending are together exactly, in
    -- order, the bytes of the appends that are shorter than a buffer (FixedBuffer::append drops
    -- a line of kLargeBuffer bytes or more); and whatever happens next, the log file takes what
    -- it is handed, so that file_ is not null, no assert(fp_) fails and createDir stays inside
    -- its arrays.
    pub files_get_all :
        {s : System} {f : LogFile h} {w : W} {bytes : List ℕ}
        → IsSize size memory
        → FileRun size memory h basename roll_size path w0 s f w bytes
        → (written w ++ (in_flight s.phase s.writer ++ pending s.msg) ≡ written w0 ++ bytes)
          × ((a : Action) → (f' : LogFile h) × (w' : W) × (hand_over h a s f w ≡ some (f', w')))
    files_get_all {s} {f} {w} {bytes} sized r =
        let good = Run-Good r in
        let total : stream s ≡ bytes = async_stream size memory sized (Run-Reach r) in
        (
          rw good.1 (
              append_assoc (written w0) (concat s.handed_on)
                (in_flight s.phase s.writer ++ pending s.msg)
              ∙ ap (λ (bs : List ℕ). written w0 ++ bs) total),
          λ a. let (f', w', taken, good', more) = hand_over-Takes a s f w good.0 in (f', w', taken),
        )
