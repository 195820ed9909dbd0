-- ===== src/Terminal/Calls.antt =====
-- Writing to the terminal calls no registered function.
use telnet_serv.Prelude.{
  ℕ, ◌≡◌, refl, [], ◌∷◌, ◌++◌, Bool, true, false, Option, none, some, List, leb, ◌==◌,
  if◌then◌else◌, length,
}
use telnet_serv.Os.{World, calls}
use telnet_serv.Terminal.{
  Exec, ret, no_fuel, overflow, Daemon, codes, send_msg, push_msg, prompt_show, sent_or_fuel,
}
use telnet_serv.Terminal.Clients.{QuietRun, terminal-Quiet}

-- The calls are the same when the run ended, if it did.
abbrev pub SameCalls : {W : Type 0} → Daemon W → Exec (Daemon W) → Type 0
SameCalls d (ret d') = calls d'.world.trace ≡ calls d.world.trace
SameCalls d no_fuel = Unit
SameCalls d overflow = Unit

module _ {W : Type 0} (send : ℕ → List ℕ → W → Option ℕ × W) where
  sent-SameCalls :
      (d : Daemon W) (o : Option (Bool × World W))
      → QuietRun d.world o
      → SameCalls d (sent_or_fuel send d o)
  sent-SameCalls d none h = tt
  sent-SameCalls d (some (b, w)) h = (h 0).2

  send_msg-SameCalls :
      (fuel : ℕ) (msg : List ℕ) (d : Daemon W) → SameCalls d (send_msg send fuel msg d)
  unfolding send_msg
  send_msg-SameCalls fuel msg d = sent-SameCalls d _ (terminal-Quiet send fuel d.client msg d.world)

  if_client-SameCalls :
      (d : Daemon W) (o : Option ℕ) (run : Exec (Daemon W))
      → SameCalls d run
      → SameCalls d (elim o [ none ↦ ret d | some sock ↦ run ])
  if_client-SameCalls d none run h = refl
  if_client-SameCalls d (some sock) run h = h

  push_cases :
      (b c : Bool) (fuel : ℕ) (text : List ℕ) (d : Daemon W)
      → SameCalls d (if b then overflow else if c then ret d else send_msg send fuel text d)
  push_cases true c fuel text d = tt
  push_cases false true fuel text d = refl
  push_cases false false fuel text d = send_msg-SameCalls fuel text d

  pub push_msg-SameCalls :
      (fuel : ℕ) (text : List ℕ) (d : Daemon W) → SameCalls d (push_msg send fuel text d)
  unfolding push_msg
  push_msg-SameCalls fuel text d =
      if_client-SameCalls d d.client _
        (push_cases (leb 2000 (length text)) (length text == 0) fuel text d)

  pub prompt_show-SameCalls : (fuel : ℕ) (d : Daemon W) → SameCalls d (prompt_show send fuel d)
  unfolding prompt_show
  prompt_show-SameCalls fuel d =
      if_client-SameCalls d d.client _ (send_msg-SameCalls fuel (codes "->" ++ 0 ∷ []) d)
