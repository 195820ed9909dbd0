-- ===== src/Daemon/Wrap.antt =====
-- The 256th character of a line: cmdLen is an unsigned char and wraps to 0, long before the test
-- against MAX_COMMAND_LENGTH could fail.
use telnet_serv.Prelude.{
  ℕ, suc, ◌+◌, ◌-◌, ◌%◌, ◌≡◌, refl, Option, List, [], ◌∷◌, ◌++◌, length, take, set, replicate,
  arith, lt→ltb, take_of_length, length-append,
}
use telnet_serv.Terminal.{ret, Daemon}
use telnet_serv.Command.{max_command_length}
use telnet_serv.Daemon.{on_char}
use telnet_serv.Daemon.Line.{Holds, set_end}

module _ {W : Type 0} (send : ℕ → List ℕ → W → Option ℕ × W) (invoke : ℕ → List ℕ → W → ℕ × W)
    (base : ℕ) where
  -- A character on a line of 255: it is stored behind the line, but the line now counts as empty,
  -- and nothing is submitted.
  pub line_wraps :
      (fuel c : ℕ) (d : Daemon W) (line : List ℕ)
      → Holds d line
      → length line ≡ 255
      → (d' : Daemon W) × (on_char send invoke base fuel c d ≡ ret d')
        × (d'.cmd_len ≡ 0)
        × (take 256 d'.command ≡ line ++ c ∷ [])
        × (d'.world ≡ d.world)
  unfolding on_char
  line_wraps fuel c d line h full =
      let more : max_command_length - length line ≡ suc 1792 = omega arith in
      (
        record d { command = set d.command d.cmd_len c; cmd_len = (d.cmd_len + 1) % 256 },
        rw (lt→ltb d.cmd_len max_command_length (omega (arith, h.count))),
        omega (arith, h.count),
        rw (h.chars, h.count, more, set_end line 1792 c)
            (take_of_length 256 (line ++ c ∷ []) (replicate 1792 0)
              (omega (arith, length-append line (c ∷ [])))),
        refl,
      )
