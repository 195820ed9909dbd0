-- ===== src/AsyncLogging/Round.antt =====
-- A round of the asynchronous log's thread: what is pending at its start is in the files at its end.
use telnet_serv.Prelude.{
  ℕ, ◌≤◌, ◌<◌, ◌≡◌, refl, sym, ap, subst, ◌∙◌, true, false, Option, none, some, List, [], ◌∷◌, ◌++◌,
  length, arith, append-nil,
}
use telnet_serv.FixedBuffer.{FixedBuffer}
use telnet_serv.MsgBuf.{Outcome, moved, blocked, fault}
use telnet_serv.MsgBuf.Threads.{System, Phase, head, waiting, writing, take_over, wait_if_empty}
use telnet_serv.MsgBuf.Inv.{IsSize, PhaseInv, Inv, Rested, Moves-eq}
use telnet_serv.MsgBuf.Append.{pending}
use telnet_serv.MsgBuf.Stream.{in_flight}
use telnet_serv.MsgBuf.Flush.{Taken, take_over-Taken, enter_running, at_head}
use telnet_serv.LogFile.{has_slash, LogFile}
use telnet_serv.LogFile.Dirs.{Host}
use telnet_serv.LogFile.Make.{KeepsDirs}
use telnet_serv.LogFile.Total.{Opens, IsDirPath}
use telnet_serv.LogFile.Quiet.{KeepsBytes}
use telnet_serv.AsyncLogging.{Action, enter, wake, write, step, write_buffers, write_out}
use telnet_serv.AsyncLogging.Output.{hand_over}
use telnet_serv.AsyncLogging.Stream.{IsCall, IsCalm, logged, write_out-Moves}
use telnet_serv.AsyncLogging.Reach.{Reach-Inv, step-enter, step-write}
use telnet_serv.MsgBuf.Hands.{Moved, Moved-bind, Any, Moved-Any}
use telnet_serv.AsyncLogging.Files.{FileRun, acted, Run-Reach, files_get_all}

-- A write leaves the buffers that are being filled.
write_out-Moved :
    (when : List ℕ) (s : System)
    → Moved (λ t. (t.phase ≡ head) × (t.msg ≡ s.msg)) (write_out when s)
unfolding write_out
write_out-Moved when s =
    Moved-bind Any _ (write_buffers when s.writer) _ (Moved-Any _) λ p any. (refl, refl)

module _ (size : ℕ) (memory : List ℕ) where
  step-wake : (s : System) → s.phase ≡ waiting → step size memory s wake ≡ take_over s
  unfolding step
  step-wake s e = ap (λ (ph : Phase). at_phase ph s) e
    where
      at_phase : Phase → System → Outcome System
      at_phase ph s = elim ph [ waiting ↦ take_over s | _ ↦ blocked ]

  step-awake : (s : System) → s.phase ≡ writing → step size memory s wake ≡ blocked
  unfolding step
  step-awake s e = ap (λ (ph : Phase). at_phase ph s) e
    where
      at_phase : Phase → System → Outcome System
      at_phase ph s = elim ph [ waiting ↦ take_over s | _ ↦ blocked ]

  module _ (h : Host) where
    open h use {W}

    -- Actions of the log's thread, each at once if it can be taken, with the log file.
    pub run_files : List Action → System → LogFile h → W → Option (System × LogFile h × W)
    run_files [] s f w = some (s, f, w)
    run_files (a ∷ acts) s f w = elim (step size memory s a) [
      | moved t ↦ elim (hand_over h a s f w) [
        | none ↦ none
        | some (f', w') ↦ run_files acts t f' w'
      ]
      | blocked ↦ run_files acts s f w
      | fault ↦ none
    ]

    run_files-moved :
        (a : Action) (acts : List Action) (s t : System) (f f' : LogFile h) (w w' : W)
        → step size memory s a ≡ moved t
        → hand_over h a s f w ≡ some (f', w')
        → run_files (a ∷ acts) s f w ≡ run_files acts t f' w'
    unfolding run_files
    run_files-moved a acts s t f f' w w' e put = rw (run_files, e, put)

    run_files-blocked :
        (a : Action) (acts : List Action) (s : System) (f : LogFile h) (w : W)
        → step size memory s a ≡ blocked
        → run_files (a ∷ acts) s f w ≡ run_files acts s f w
    unfolding run_files
    run_files-blocked a acts s f w e = rw (run_files, e)

    enter_quiet :
        (s : System) (f : LogFile h) (w : W)
        → s.running ≡ true
        → hand_over h enter s f w ≡ some (f, w)
    unfolding hand_over
    enter_quiet s f w on = rw (on, hand_over)

    wake_quiet : (s : System) (f : LogFile h) (w : W) → hand_over h wake s f w ≡ some (f, w)
    unfolding hand_over
    wake_quiet s f w = refl

-- The asynchronous log and its log file, on a host and with arguments as for `files_get_all`.
module _ (h : Host) (keeps : KeepsDirs h) (opens : Opens h) (written : h.W → List ℕ)
    (laws : KeepsBytes h written) (size : ℕ) (memory : List ℕ) (basename : List ℕ) (roll_size : ℕ)
    (path : List ℕ) (w0 : h.W) (clock : (v : h.W) → 0 < (h.time v).0)
    (plain : has_slash basename ≡ false) (fit : IsDirPath path) (sized : IsSize size memory) where
  open h use {W}

  abbrev Run : System → LogFile h → W → List ℕ → Type 0
  Run = FileRun size memory h basename roll_size path w0

  got_all :
      {s : System} {f : LogFile h} {w : W} {bytes : List ℕ}
      → Run s f w bytes
      → (written w ++ (in_flight s.phase s.writer ++ pending s.msg) ≡ written w0 ++ bytes)
        × ((a : Action) → (f' : LogFile h) × (w' : W) × (hand_over h a s f w ≡ some (f', w')))
  got_all r =
      files_get_all h keeps opens written laws size memory basename roll_size path w0 clock plain
        fit sized r

  Run-Inv : {s : System} {f : LogFile h} {w : W} {bytes : List ℕ} → Run s f w bytes → Inv size s
  Run-Inv r = Reach-Inv size memory sized (
      Run-Reach h keeps opens written laws size memory basename roll_size path w0 clock plain fit r)

  -- An action that appends nothing.
  quietly :
      {s t : System} {f f' : LogFile h} {w w' : W} {bytes : List ℕ} (a : Action)
      → Run s f w bytes
      → logged size a ≡ []
      → IsCall a
      → IsCalm s a
      → step size memory s a ≡ moved t
      → hand_over h a s f w ≡ some (f', w')
      → Run t f' w' bytes
  quietly {t = t} {f' = f'} {w' = w'} {bytes} a r none_new call calm e put =
      subst (λ bs. Run t f' w' bs) (ap (λ bs. bytes ++ bs) none_new ∙ append-nil bytes)
        (acted r a call calm e put)

  -- What the rest of a round comes to.
  abbrev AllWritten : List ℕ → Option (System × LogFile h × W) → Type 0
  AllWritten bytes o =
      (t : System) × (f' : LogFile h) × (w' : W) × (o ≡ some (t, f', w'))
      × (written w' ≡ written w0 ++ bytes)
      × (pending t.msg ≡ [])
      × (t.phase ≡ head)

  AllWritten-eq :
      (bytes : List ℕ) {o o' : Option (System × LogFile h × W)}
      → o ≡ o'
      → AllWritten bytes o'
      → AllWritten bytes o
  AllWritten-eq bytes e (t, f', w', k, all, none_left, ph) = (t, f', w', e ∙ k, all, none_left, ph)

  write-AllWritten :
      {s : System} {f : LogFile h} {w : W} {bytes : List ℕ} (when : List ℕ)
      → Run s f w bytes
      → s.phase ≡ writing
      → length s.writer.to_write ≤ 25
      → pending s.msg ≡ []
      → AllWritten bytes (run_files size memory h (write when ∷ []) s f w)
  unfolding run_files
  write-AllWritten {s} {f} {w} {bytes} when r ph few none_left =
      let v = Run-Inv r in
      let (t, e, p) = Moves-eq _ (write_out when s) (
        write_out-Moves size when s v.msg_inv
          (subst (λ p. PhaseInv size p s.writer) ph v.phase_inv)) in
      let (f', w', put) = (got_all r).1 (write when) in
      let moves = step-write size memory s when ph ∙ e in
      let (at_head_now, same_msg) =
        subst (Moved (λ u. (u.phase ≡ head) × (u.msg ≡ s.msg))) e (write_out-Moved when s) in
      let later = quietly (write when) r refl tt (λ _. few) moves put in
      let empty : pending t.msg ≡ [] = ap pending same_msg ∙ none_left in
      (
        t,
        f',
        w',
        run_files-moved size memory h (write when) [] s t f f' w w' moves put,
        sym (append-nil (written w'))
            ∙ ap (λ bs. written w' ++ bs) (sym (rw (at_head t at_head_now, empty)))
            ∙ (got_all later).0,
        empty,
        at_head_now,
      )

  -- Behind the critical section.
  Taken-AllWritten :
      (s : System) {t : System} {f : LogFile h} {w : W} {bytes : List ℕ} (when : List ℕ)
      → Run t f w bytes
      → Taken size s t
      → length s.msg.buffers < 25
      → AllWritten bytes (run_files size memory h (write when ∷ []) t f w)
  Taken-AllWritten s when r taken few =
      write-AllWritten when r taken.0 (omega (arith, taken.4)) taken.3

  round_cases :
      {s : System} {f : LogFile h} {w : W} {bytes : List ℕ} (when : List ℕ)
      (bufs : List FixedBuffer)
      → s.msg.buffers ≡ bufs
      → Run s f w bytes
      → s.phase ≡ head
      → s.running ≡ true
      → length s.msg.buffers < 25
      → AllWritten bytes (run_files size memory h (enter ∷ wake ∷ write when ∷ []) s f w)
  unfolding wait_if_empty
  round_cases {s} {f} {w} {bytes} when [] none_full r ph on few =
      let v = Run-Inv r in
      let rested : Rested size s.writer = subst (λ p. PhaseInv size p s.writer) ph v.phase_inv in
      let asleep : System = record s { msg = record s.msg { notified = false }; phase = waiting } in
      let entered : step size memory s enter ≡ moved asleep =
        step-enter size memory s ph
        ∙ enter_running size memory s on rested
        ∙ ap (λ bs. wait_if_empty bs s) none_full in
      let r1 = quietly enter r refl tt tt entered (enter_quiet size memory h s f w on) in
      let m = v.msg_inv in
      let (t, e, taken) = Moves-eq _ (take_over asleep) (
        take_over-Taken size asleep
          (record { held = m.held; spare = m.spare; filled = m.filled; backed = m.backed })
          rested) in
      let woken = step-wake size memory asleep refl ∙ e in
      let r2 = quietly wake r1 refl tt tt woken (wake_quiet size memory h asleep f w) in
      AllWritten-eq bytes
        (run_files-moved size memory h enter (wake ∷ write when ∷ []) s asleep f f w w entered
            (enter_quiet size memory h s f w on)
          ∙ run_files-moved size memory h wake (write when ∷ []) asleep t f f w w woken
              (wake_quiet size memory h asleep f w))
        (Taken-AllWritten asleep when r2 taken few)
  round_cases {s} {f} {w} {bytes} when (b ∷ bs) full r ph on few =
      let v = Run-Inv r in
      let rested : Rested size s.writer = subst (λ p. PhaseInv size p s.writer) ph v.phase_inv in
      let (t, e, taken) = Moves-eq _ (take_over s) (take_over-Taken size s v.msg_inv rested) in
      let entered : step size memory s enter ≡ moved t =
        step-enter size memory s ph
        ∙ enter_running size memory s on rested
        ∙ ap (λ bs. wait_if_empty bs s) full
        ∙ e in
      let r1 = quietly enter r refl tt tt entered (enter_quiet size memory h s f w on) in
      AllWritten-eq bytes
        (run_files-moved size memory h enter (wake ∷ write when ∷ []) s t f f w w entered
            (enter_quiet size memory h s f w on)
          ∙ run_files-blocked size memory h wake (write when ∷ []) t f w
              (step-awake size memory t taken.0))
        (Taken-AllWritten s when r1 taken few)

  -- The asynchronous log with its log file after any run as in AsyncLogging.Files.files_get_all,
  -- with the same conditions on the appends, the host and the arguments, with the log running,
  -- its thread at the head of its loop and at most 24 full buffers waiting: one more round of the
  -- thread, in which it wakes up if it waits, comes to its end, and then what has been written to
  -- the files since the start is exactly, in order, the bytes of the appends that are shorter
  -- than a buffer, and none is pending.
  pub round_writes_all :
      {s : System} {f : LogFile h} {w : W} {bytes : List ℕ} (when : List ℕ)
      → FileRun size memory h basename roll_size path w0 s f w bytes
      → s.phase ≡ head
      → s.running ≡ true
      → length s.msg.buffers < 25
      → (t : System) × (f' : LogFile h) × (w' : W) × (run_files size memory h
            (enter ∷ wake ∷ write when ∷ [])
            s
            f
            w
          ≡ some (t, f', w'))
        × (written w' ≡ written w0 ++ bytes)
        × (pending t.msg ≡ [])
        × (t.phase ≡ head)
  round_writes_all {s} when r ph on few = round_cases when s.msg.buffers refl r ph on few
