-- ===== src/Daemon/Echo.antt =====
-- The line that RETURN echoes.
use telnet_serv.Prelude.{
  ℕ, ◌≤◌, ◌<◌, ◌≡◌, ap, ap₂, ◌∙◌, Option, some, List, ◌++◌, length, take, take-append,
  length-append, arith, subst,
}
use telnet_serv.Text.{c_str, c_str_all, IsFree}
use telnet_serv.Sock.Delivery.{Recovers}
use telnet_serv.Terminal.{Daemon, codes, push_msg}
use telnet_serv.Terminal.Shown.{ShowsOnly, push_msg-ShowsOnly}
use telnet_serv.Daemon.Line.{Holds}

module _ {W : Type 0} (send : ℕ → List ℕ → W → Option ℕ × W) (sock : ℕ) (P : W → Type 0)
    (rec : Recovers send sock P) (fuel : ℕ) (enough : 300 < fuel) where
  -- The line, with its end.
  pub echo-ShowsOnly :
      (line : List ℕ) (d : Daemon W)
      → IsFree 0 line
      → Holds d line
      → d.client ≡ some sock
      → P d.world.os
      → ShowsOnly sock P d
          (line ++ codes "\r\n")
          (push_msg send fuel (c_str (take d.cmd_len d.command) ++ codes "\r\n") d)
  echo-ShowsOnly line d free holds c p =
      let text : List ℕ = c_str (take d.cmd_len d.command) ++ codes "\r\n" in
      let same : text ≡ line ++ codes "\r\n" =
        ap (λ xs. c_str xs ++ codes "\r\n")
          (ap₂ (λ (n : ℕ) (xs : List ℕ). take n xs) holds.count holds.chars ∙ take-append line _)
        ∙ ap (λ xs. xs ++ codes "\r\n") (c_str_all line free) in
      let size : length text ≤ 257 =
        omega (arith, ap length same, length-append line (codes "\r\n"), holds.short) in
      subst (λ xs. ShowsOnly sock P d xs (push_msg send fuel text d)) same
        (push_msg-ShowsOnly send sock P rec fuel text d c (omega arith) (omega arith) p)
