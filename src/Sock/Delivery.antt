-- ===== src/Sock/Delivery.antt =====
-- SockSend: what reaches the peer, when the network recovers within three tries and when not.
use telnet_serv.Prelude.{
  ℕ, zero, suc, ◌+◌, ◌-◌, ◌%◌, ◌^◌, ◌≤◌, ◌<◌, ◌≡◌, refl, sym, ◌∙◌, ap, true, false, Option, none,
  some, List, [], ◌∷◌, ◌++◌, ltb, take, drop, length, length-take, length-drop, lt→ltb, le→ltb,
  arith, append_assoc, append-nil, inl, inr, Bool-cases, ltb→lt, ltb→le, take-append-drop,
}
use native.Mathlib.Nat.{zero-add, suc-add}
use telnet_serv.Os.{World, sent, emit, delivered, delivered-sent}
use telnet_serv.Sock.{try_send, send_loop, sock_send}

-- The first n bytes behind an offset, and what is behind those.
take-drop-append : (n k : ℕ) (xs : List ℕ) → take n (drop k xs) ++ drop (k + n) xs ≡ drop k xs
take-drop-append n zero xs = rw zero-add (take-append-drop n xs)
take-drop-append zero (suc k) [] = rw suc-add
take-drop-append (suc n) (suc k) [] = rw suc-add
take-drop-append n (suc k) (x ∷ xs) = rw suc-add (take-drop-append n k xs)

drop_all : (n : ℕ) (xs : List ℕ) → length xs ≤ n → drop n xs ≡ []
drop_all zero [] h = refl
drop_all zero (x ∷ xs) h = absurd (omega arith)
drop_all (suc n) [] h = refl
drop_all (suc n) (x ∷ xs) h = drop_all n xs (omega arith)

module _ {W : Type 0} (send : ℕ → List ℕ → W → Option ℕ × W) (sock : ℕ) where
  -- In a state with `P`, one of three tries takes at least a byte, and no more than it is given, and
  -- leaves a state with `P`.
  abbrev pub Recovers : (W → Type 0) → Type 0
  Recovers P =
      (chunk : List ℕ) (os : W)
      → 0 < length chunk
      → P os
      → (n : ℕ) × (os' : W) × (try_send send 3 sock chunk os ≡ (some n, os'))
        × (0 < n)
        × (n ≤ length chunk)
        × P os'

  -- A round in which the peer's socket takes n bytes.
  step-sent :
      (fuel : ℕ) (buf : List ℕ) (dw_len total n : ℕ) (w : World W) (os' : W)
      → ltb total dw_len ≡ true
      → total + n < 2 ^ 32
      → try_send send 3 sock (drop total (take dw_len buf)) w.os ≡ (some n, os')
      → send_loop send (suc fuel) sock buf dw_len total w
        ≡ send_loop send fuel sock buf dw_len
            (total + n)
            (emit (sent sock (take n (drop total (take dw_len buf)))) (record w { os = os' }))
  unfolding send_loop
  step-sent fuel buf dw_len total n w os' e small t =
      let sum : (total + n) % 2 ^ 32 ≡ total + n = omega arith in rw (e, send_loop, t, sum)

  -- A round in which all three tries fail.
  step-failed :
      (fuel : ℕ) (buf : List ℕ) (dw_len total : ℕ) (w : World W) (os' : W)
      → ltb total dw_len ≡ true
      → try_send send 3 sock (drop total (take dw_len buf)) w.os ≡ (none, os')
      → send_loop send (suc fuel) sock buf dw_len total w
        ≡ send_loop send fuel sock buf dw_len
            ((total + (2 ^ 32 - 1)) % 2 ^ 32)
            (record w { os = os' })
  unfolding send_loop
  step-failed fuel buf dw_len total w os' e t = rw (e, send_loop, t)

  step-done :
      (fuel : ℕ) (buf : List ℕ) (dw_len total : ℕ) (w : World W)
      → ltb total dw_len ≡ false
      → send_loop send (suc fuel) sock buf dw_len total w ≡ some w
  unfolding send_loop
  step-done fuel buf dw_len total w e = rw (e, send_loop)

  length-chunk :
      (buf : List ℕ) (dw_len total : ℕ)
      → dw_len ≤ length buf
      → length (drop total (take dw_len buf)) ≡ dw_len - total
  length-chunk buf dw_len total h =
      omega (arith, length-drop total (take dw_len buf), length-take dw_len buf)

  -- The loop has put the bytes from `total` on behind what the peer had, and leaves a good state.
  abbrev Delivers : (W → Type 0) → List ℕ → ℕ → ℕ → World W → Option (World W) → Type 0
  Delivers P buf dw_len total w o =
      (w' : World W) × (o ≡ some w')
      × (delivered sock w'.trace ≡ delivered sock w.trace ++ drop total (take dw_len buf))
      × P w'.os

  Delivers-sent :
      (P : W → Type 0) (fuel : ℕ) (buf : List ℕ) (dw_len total n : ℕ) (w : World W) (os' : W)
      → ltb total dw_len ≡ true
      → total + n < 2 ^ 32
      → try_send send 3 sock (drop total (take dw_len buf)) w.os ≡ (some n, os')
      → let w1 : World W =
          emit (sent sock (take n (drop total (take dw_len buf)))) (record w { os = os' }) in
        Delivers P buf dw_len (total + n) w1 (send_loop send fuel sock buf dw_len (total + n) w1)
        → Delivers P buf dw_len total w (send_loop send (suc fuel) sock buf dw_len total w)
  Delivers-sent P fuel buf dw_len total n w os' e small t (w', eq, del, p) =
      let chunk = drop total (take dw_len buf) in
      (
        w',
        step-sent fuel buf dw_len total n w os' e small t ∙ eq,
        del
            ∙ rw
                (
                  delivered-sent sock w.trace (take n chunk),
                  append_assoc (delivered sock w.trace) (take n chunk),
                )
                (ap (λ bs. delivered sock w.trace ++ bs)
                  (take-drop-append n total (take dw_len buf))),
        p,
      )

  send_loop-Delivers :
      (P : W → Type 0)
      → Recovers P
      → (fuel : ℕ) (buf : List ℕ) (dw_len total : ℕ) (w : World W) → dw_len ≤ length buf
      → dw_len < 2 ^ 31
      → total ≤ dw_len
      → dw_len - total < fuel
      → P w.os
      → Delivers P buf dw_len total w (send_loop send fuel sock buf dw_len total w)
  send_loop-Delivers P rec zero buf dw_len total w h small le f p = absurd (omega arith)
  send_loop-Delivers P rec (suc fuel) buf dw_len total w h small le f p =
      let size = length-chunk buf dw_len total h in
      elim (Bool-cases (ltb total dw_len)) [
        | inr e ↦ (
          w,
          step-done fuel buf dw_len total w e,
          sym (
              rw
                (drop_all total (take dw_len buf)
                  (omega (arith, length-take dw_len buf, ltb→le total dw_len e)))
                (append-nil (delivered sock w.trace))),
          p,
        )
        | inl e ↦
            let chunk = drop total (take dw_len buf) in
            let (n, os', t, pos, fits, p') =
              rec chunk w.os (omega (arith, size, ltb→lt total dw_len e)) p in
            Delivers-sent P fuel buf dw_len total n w os' e (omega (arith, size)) t (
              send_loop-Delivers P rec fuel buf dw_len (total + n)
                (emit (sent sock (take n chunk)) (record w { os = os' })) h small
                (omega (arith, size)) (omega (arith, size)) p')
      ]

  try_send_down :
      ((chunk : List ℕ) (os : W) → (send sock chunk os).0 ≡ none)
      → (tries : ℕ) (chunk : List ℕ) (os : W) → (try_send send tries sock chunk os).0 ≡ none
  unfolding try_send
  try_send_down down zero chunk os = refl
  try_send_down down (suc tries) chunk os =
      rw (try_send, down chunk os) (try_send_down down tries chunk (send sock chunk os).1)

module _ {W : Type 0} (send : ℕ → List ℕ → W → Option ℕ × W) (sock : ℕ) where
  -- SockSend, where in every state one of three tries takes at least a byte: with more fuel than
  -- bytes it ends, reports success, and has sent exactly the first `dw_len` bytes of the buffer,
  -- each once and in order.
  pub sock_send_delivers :
      (P : W → Type 0)
      → Recovers send sock P
      → (fuel : ℕ) (buf : List ℕ) (dw_len : ℕ) (w : World W) → dw_len ≤ length buf
      → dw_len < 2 ^ 31
      → dw_len < fuel
      → P w.os
      → (w' : World W) × (sock_send send fuel (some sock) (some buf) dw_len w ≡ some (true, w'))
        × (delivered sock w'.trace ≡ delivered sock w.trace ++ take dw_len buf)
        × P w'.os
  unfolding sock_send
  sock_send_delivers P rec fuel buf dw_len w h small f p =
      let (w', e, del, q) =
        send_loop-Delivers send sock P rec fuel buf dw_len 0 w h small (omega arith) (omega arith)
          p in
      (w', rw e, del, q)

  -- SockSend on a socket on which every send(2) fails: it ends after one round of three tries, and
  -- reports success although nothing was sent.
  pub sock_send_down :
      ((chunk : List ℕ) (os : W) → (send sock chunk os).0 ≡ none)
      → (fuel : ℕ) (buf : List ℕ) (dw_len : ℕ) (w : World W) → 0 < dw_len
      → dw_len < 2 ^ 32
      → 1 < fuel
      → (w' : World W) × (sock_send send fuel (some sock) (some buf) dw_len w ≡ some (true, w'))
        × (w'.trace ≡ w.trace)
  unfolding sock_send
  sock_send_down down zero buf dw_len w pos small f = absurd (omega arith)
  sock_send_down down (suc zero) buf dw_len w pos small f = absurd (omega arith)
  sock_send_down down (suc (suc fuel)) buf dw_len w pos small f =
      let os' = (try_send send 3 sock (take dw_len buf) w.os).1 in
      let t : try_send send 3 sock (take dw_len buf) w.os ≡ (none, os') =
        λ i. (try_send_down send sock down 3 (take dw_len buf) w.os i, os') in
      let e =
        step-failed send sock (suc fuel) buf dw_len 0 w os' (lt→ltb 0 dw_len pos) t
        ∙ step-done send sock fuel buf dw_len (2 ^ 32 - 1) (record w { os = os' })
            (le→ltb (2 ^ 32 - 1) dw_len (omega arith)) in
      (record w { os = os' }, rw e, refl)

  -- SockSend, where the socket takes k bytes, refuses three tries in a row, and then recovers: the
  -- loop goes back by one byte, so the peer gets byte k - 1 twice.
  pub sock_send_resends :
      (P : W → Type 0)
      → Recovers send sock P
      → (fuel : ℕ) (buf : List ℕ) (dw_len k : ℕ) (w : World W) (os1 os2 : W) → dw_len ≤ length buf
      → dw_len < 2 ^ 31
      → 0 < k
      → k < dw_len
      → dw_len + 3 < fuel
      → try_send send 3 sock (take dw_len buf) w.os ≡ (some k, os1)
      → try_send send 3 sock (drop k (take dw_len buf)) os1 ≡ (none, os2)
      → P os2
      → (w' : World W) × (sock_send send fuel (some sock) (some buf) dw_len w ≡ some (true, w'))
        × (delivered sock w'.trace
            ≡ delivered sock w.trace
              ++ (take k (take dw_len buf) ++ drop (k - 1) (take dw_len buf)))
  unfolding sock_send
  sock_send_resends P rec zero buf dw_len k w os1 os2 h small pos lt f t1 t2 p =
      absurd (omega arith)
  sock_send_resends P rec (suc zero) buf dw_len k w os1 os2 h small pos lt f t1 t2 p =
      absurd (omega arith)
  sock_send_resends P rec (suc (suc fuel)) buf dw_len k w os1 os2 h small pos lt f t1 t2 p =
      let got = take k (take dw_len buf) in
      let w1 : World W = emit (sent sock got) (record w { os = os1 }) in
      let (w', e, del, q) =
        send_loop-Delivers send sock P rec fuel buf dw_len (k - 1) (record w1 { os = os2 }) h small
          (omega arith) (omega arith) p in
      let first =
        step-sent send sock (suc fuel) buf dw_len 0 k w os1 (lt→ltb 0 dw_len (omega arith))
          (omega arith) t1 in
      let second = step-failed send sock fuel buf dw_len k w1 os2 (lt→ltb k dw_len lt) t2 in
      let start : 0 + k ≡ k = omega arith in
      let back : (k + (2 ^ 32 - 1)) % 2 ^ 32 ≡ k - 1 = omega arith in
      (
        w',
        rw (first, start, second, back, e),
        del
            ∙ rw (
              delivered-sent sock w.trace got,
              append_assoc (delivered sock w.trace) got (drop (k - 1) (take dw_len buf)),
            ),
      )
