-- ===== src/Daemon/Clients.antt =====
-- The clients over the events of the telnet thread: no accepted socket is lost, and none is closed
-- that was not accepted.
use telnet_serv.Prelude.{
  ℕ, ◌-◌, ◌≡◌, refl, subst, [], ◌∷◌, Bool, true, false, not, ◌&&◌, Option, none, some, List, ltb,
  ◌==◌, set, arith,
}
use telnet_serv.Os.{closed, slept, watched, emit}
use telnet_serv.Listen.Ports.{closes-append}
use telnet_serv.Terminal.{ret, Daemon, codes, prompt_show}
use telnet_serv.Terminal.Clients.{
  accepts-append, Settled, Ends, Ends-after, Ends-bind, push_msg-Ends, prompt_show-Ends,
}
use telnet_serv.Command.{max_command_length}
use telnet_serv.Command.Clients.{if-Ends, cmd_parse-Ends}
use telnet_serv.Daemon.{
  cleared, is_null_str, Key, ignored, enter, backspace, other, key_of, Received, byte, ended,
  EpollEvent, is_client, close_client, after_check, on_return, on_backspace, on_char, on_key,
  on_received, greet, on_accepted, handle_event, handle_events,
}

close-Settled :
    {W : Type 0} (d : Daemon W) (o : Option ℕ)
    → d.client ≡ o
    → Settled d (elim o [
      | none ↦ d
      | some sock ↦ record d { client = none; world = emit (closed sock) d.world }
    ])
close-Settled d none e = λ fd. refl
close-Settled d (some sock) e = λ fd. rw e (
    omega (
      arith,
      accepts-append fd d.world.trace (closed sock ∷ []),
      closes-append fd d.world.trace (closed sock ∷ []),
    ))

module _ {W : Type 0} (send : ℕ → List ℕ → W → Option ℕ × W) (invoke : ℕ → List ℕ → W → ℕ × W)
    (base : ℕ) where
  close_client-Settled : (d : Daemon W) → Settled d (close_client send invoke base d)
  unfolding close_client
  close_client-Settled d = close-Settled d d.client refl

  check-Ends :
      (fuel : ℕ) (d : Daemon W) (o : Option Bool) → Ends d (after_check send invoke base fuel d o)
  check-Ends fuel d none = tt
  check-Ends fuel d (some true) = λ fd. refl
  check-Ends fuel d (some false) = cmd_parse-Ends send invoke base fuel d.command d.cmd_len d

  -- The prompt, and the line is empty again.
  prompt-Ends :
      (fuel : ℕ) (d : Daemon W)
      → Ends d (prompt_show send fuel (record d { cmd_len = 0; command = cleared }))
  prompt-Ends fuel d =
      let d1 : Daemon W = record d { cmd_len = 0; command = cleared } in
      Ends-after d d1 (prompt_show send fuel d1) (λ fd. refl) (prompt_show-Ends send fuel d1)

  on_return-Ends : (fuel : ℕ) (d : Daemon W) → Ends d (on_return send invoke base fuel d)
  unfolding on_return
  on_return-Ends fuel d = Ends-bind d _ _ (push_msg-Ends send fuel _ d) (λ d1.
      Ends-bind d1 _ _ (check-Ends fuel d1 (is_null_str fuel d1.command))
        (λ d2. prompt-Ends fuel d2))

  on_backspace-Ends : (fuel : ℕ) (d : Daemon W) → Ends d (on_backspace send invoke base fuel d)
  unfolding on_backspace
  on_backspace-Ends fuel d =
      let d1 : Daemon W = record d {
        command = set d.command (d.cmd_len - 1) 0;
        cmd_len = d.cmd_len - 1;
      } in
      if-Ends d (d.cmd_len == 0) _ _ (λ fd. refl)
        (Ends-after d d1 _ (λ fd. refl) (push_msg-Ends send fuel _ d1))

  on_char-Ends : (fuel c : ℕ) (d : Daemon W) → Ends d (on_char send invoke base fuel c d)
  unfolding on_char
  on_char-Ends fuel c d =
      if-Ends d (ltb d.cmd_len max_command_length) _ _ (λ fd. refl)
        (Ends-bind d _ _ (push_msg-Ends send fuel (codes "\n") d) (λ d1.
          Ends-bind d1 _ _ (cmd_parse-Ends send invoke base fuel d1.command d1.cmd_len d1)
            (λ d2. Ends-bind d2 _ _ (prompt_show-Ends send fuel d2) (λ d3. λ fd. refl))))

  on_key-Ends : (fuel : ℕ) (k : Key) (d : Daemon W) → Ends d (on_key send invoke base fuel k d)
  on_key-Ends fuel ignored d = λ fd. refl
  on_key-Ends fuel enter d = on_return-Ends fuel d
  on_key-Ends fuel backspace d = on_backspace-Ends fuel d
  on_key-Ends fuel (other c) d = on_char-Ends fuel c d

  on_received-Ends :
      (fuel : ℕ) (got : Received) (d : Daemon W) → Ends d (on_received send invoke base fuel got d)
  on_received-Ends fuel ended d = close_client-Settled d
  on_received-Ends fuel (byte c) d = on_key-Ends fuel (key_of c) d

  greet-Ends : (fuel : ℕ) (d : Daemon W) → Ends d (greet send invoke base fuel d)
  unfolding greet
  greet-Ends fuel d = Ends-bind d _ _ (push_msg-Ends send fuel _ d) (λ d1.
      Ends-bind d1 _ _ (push_msg-Ends send fuel _ d1) (λ d2.
        Ends-bind d2 _ _ (push_msg-Ends send fuel _ d2) (λ d3. prompt_show-Ends send fuel d3)))

  close_client-none : (d : Daemon W) → (close_client send invoke base d).client ≡ none
  unfolding close_client
  close_client-none d = none_left d.client refl
    where
      none_left :
          (o : Option ℕ)
          → d.client ≡ o
          → let d1 : Daemon W = elim o [
            | none ↦ d
            | some sock ↦ record d { client = none; world = emit (closed sock) d.world }
          ] in
            d1.client ≡ none
      none_left none e = e
      none_left (some sock) e = refl

  -- A socket becomes the client where there is none.
  watch-Settled :
      (sock : ℕ) (d : Daemon W)
      → d.client ≡ none
      → Settled d
          (record d { client = some sock; command = cleared; world = emit (watched sock) d.world })
  watch-Settled sock d e fd = rw e (
      omega (
        arith,
        accepts-append fd d.world.trace (watched sock ∷ []),
        closes-append fd d.world.trace (watched sock ∷ []),
      ))

  on_accepted-Ends :
      (fuel : ℕ) (o : Option ℕ) (d : Daemon W) → Ends d (on_accepted send invoke base fuel o d)
  on_accepted-Ends fuel none d = λ fd. refl
  on_accepted-Ends fuel (some sock) d =
      let d1 : Daemon W = close_client send invoke base d in
      let d2 : Daemon W = record d1 {
        client = some sock;
        command = cleared;
        world = emit (watched sock) d1.world;
      } in
      Ends-after d d1 (greet send invoke base fuel d2) (close_client-Settled d)
        (Ends-after d1 d2 _ (watch-Settled sock d1 (close_client-none d)) (greet-Ends fuel d2))

  sleep-Settled : (d : Daemon W) → Settled d (record d { world = emit (slept 500_000) d.world })
  sleep-Settled d fd = omega (
    arith,
    accepts-append fd d.world.trace (slept 500_000 ∷ []),
    closes-append fd d.world.trace (slept 500_000 ∷ []),
  )

  module _ (accept : ℕ → W → Option ℕ × W) (recv : ℕ → W → Received × W) where
    accept-Ends :
        (fuel : ℕ) (d : Daemon W)
        → let (sock, os) = accept d.serv d.world.os in
          Ends d (
            on_accepted send invoke base fuel sock
              (record d { world = record d.world { os = os } }))
    accept-Ends fuel d =
        let (sock, os) = accept d.serv d.world.os in
        let d1 : Daemon W = record d { world = record d.world { os = os } } in
        Ends-after d d1 _ (λ fd. refl) (on_accepted-Ends fuel sock d1)

    recv-Ends :
        (fuel fd : ℕ) (d : Daemon W)
        → let (got, os) = recv fd d.world.os in
          Ends d (
            on_received send invoke base fuel got (record d { world = record d.world { os = os } }))
    recv-Ends fuel fd d =
        let (got, os) = recv fd d.world.os in
        let d1 : Daemon W = record d { world = record d.world { os = os } } in
        Ends-after d d1 _ (λ s. refl) (on_received-Ends fuel got d1)

    last-Ends :
        (d : Daemon W)
        → let d1 : Daemon W = close_client send invoke base d in
          Settled d (record d1 { world = emit (slept 500_000) d1.world })
    last-Ends d =
        let d1 : Daemon W = close_client send invoke base d in
        let d2 : Daemon W = record d1 { world = emit (slept 500_000) d1.world } in
        Ends-after d d1 (ret d2) (close_client-Settled d) (sleep-Settled d1)

    handle_event-Ends :
        (fuel : ℕ) (ev : EpollEvent) (d : Daemon W)
        → Ends d (handle_event send invoke base accept recv fuel ev d)
    unfolding handle_event
    handle_event-Ends fuel ev d =
        if-Ends d ((ev.hup && not ev.inp) && is_client d.client ev.fd) _ _ (close_client-Settled d)
          (if-Ends d (ev.err && is_client d.client ev.fd) _ _ (close_client-Settled d) (
            if-Ends d (ev.fd == d.serv) _ _ (accept-Ends fuel d) (
              if-Ends d (ev.inp && is_client d.client ev.fd) _ _ (recv-Ends fuel ev.fd d)
                (last-Ends d))))

    events-Ends :
        (fuel : ℕ) (evs : List EpollEvent) (d : Daemon W)
        → Ends d (handle_events send invoke base accept recv fuel evs d)
    unfolding handle_events
    events-Ends fuel [] d = λ fd. refl
    events-Ends fuel (ev ∷ evs) d =
        Ends-bind d _ _ (handle_event-Ends fuel ev d) (λ d1. events-Ends fuel evs d1)

    -- Whatever the operating system and the registered functions answer: over any events that the
    -- telnet thread has handled, for every socket the times that it became the client, plus one if
    -- it was the client before, are the times that it was closed, plus one if it is the client now.
    pub handle_events-Settled :
        (fuel : ℕ) (evs : List EpollEvent) (d d' : Daemon W)
        → handle_events send invoke base accept recv fuel evs d ≡ ret d'
        → Settled d d'
    handle_events-Settled fuel evs d d' e = subst (Ends d) e (events-Ends fuel evs d)
