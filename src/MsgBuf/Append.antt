-- ===== src/MsgBuf/Append.antt =====
-- appendToMsgBuf: it keeps the invariant, and puts the line behind everything that is pending.
use telnet_serv.Prelude.{
  ℕ, ◌+◌, ◌-◌, ◌≤◌, ◌<◌, ◌≡◌, refl, sym, ◌∙◌, ap, inl, inr, Bool, true, false, Option, none, some,
  List, [], ◌∷◌, ◌++◌, ltb, if◌then◌else◌, length, take, arith, append_assoc, append-nil,
  length-append, Bool-cases, ltb→lt, ltb→le, lt→ltb, subst, ◌^◌,
}
use telnet_serv.FixedBuffer.{FixedBuffer, avail, append, signed_lt, as_string}
use telnet_serv.FixedBuffer
use telnet_serv.FixedBuffer.Contents.{
  IsValid, append_fits, append_full, signed_lt_small, avail-IsValid, init-IsValid,
}
use telnet_serv.MsgBuf.{
  MsgBuf, moved, max_log_msg_len, append_locked, append_to_msg_buf, spare_or_new,
}
use telnet_serv.MsgBuf.Inv.{IsSize, All-append, IsFresh, Spare, MsgInv, Moves, Moves-eq}

-- Every pending byte, in order: the queued buffers, then the current one.
abbrev pub held_bytes : Option FixedBuffer → List ℕ
held_bytes none = []
held_bytes (some b) = as_string b

abbrev pub queued_bytes : List FixedBuffer → List ℕ
queued_bytes [] = []
queued_bytes (b ∷ bs) = as_string b ++ queued_bytes bs

abbrev pub pending : MsgBuf → List ℕ
pending m = queued_bytes m.buffers ++ held_bytes m.current

pub queued_bytes-append :
    (xs ys : List FixedBuffer) → queued_bytes (xs ++ ys) ≡ queued_bytes xs ++ queued_bytes ys
queued_bytes-append [] ys = refl
queued_bytes-append (x ∷ xs) ys = simp (queued_bytes-append xs ys, append_assoc)

-- The bytes that a call of appendToMsgBuf is to add.
abbrev pub accepted : Bool → List ℕ → ℕ → List ℕ
accepted client logline len =
    if client then (if ltb max_log_msg_len len then [] else take len logline) else []

module _ (size : ℕ) (memory : List ℕ) (sized : IsSize size memory) where
  -- The test `currentBuffer_->avail() > len` is that of the numbers.
  room :
      (b : FixedBuffer) (len : ℕ)
      → IsValid size b
      → len < 2 ^ 31
      → signed_lt len (avail size b) ≡ ltb len (size - b.cur)
  room b len v h = rw (avail-IsValid size b sized.fits_int v.inside) (
      signed_lt_small size len (size - b.cur) (omega (arith, sized.fits_int))
        (omega (arith, sized.fits_int)))

  Spare-IsFresh :
      (o : Option FixedBuffer) → Spare size o → IsFresh size (spare_or_new size memory o)
  unfolding spare_or_new FixedBuffer.init
  Spare-IsFresh none h = (init-IsValid size memory sized.whole, refl)
  Spare-IsFresh (some b) h = h

  -- What a buffer takes of a line: all, or nothing of a line that no buffer has room for.
  abbrev pub fitting : List ℕ → ℕ → List ℕ
  fitting logline len = if ltb len size then take len logline else []

  -- What `append_locked` does.
  abbrev pub Appended : List ℕ → ℕ → MsgBuf → MsgBuf → Type 0
  Appended logline len m m' = MsgInv size m' × (pending m' ≡ pending m ++ fitting logline len)

  append_fresh :
      (b : FixedBuffer) (logline : List ℕ) (len : ℕ)
      → IsFresh size b
      → len ≤ length logline
      → IsValid size (append size b logline len)
        × (as_string (append size b logline len) ≡ fitting logline len)
  unfolding as_string
  append_fresh b logline len f h = elim (Bool-cases (ltb len size)) [
    | inl e ↦
        let room : b.cur + len < size = omega (arith, f.1, ltb→lt len size e) in
        let done = append_fits size b logline len sized.fits_int f.0 h room in
        rw e (done.0, done.1 ∙ rw (f.1))
    | inr e ↦
        let full =
          append_full size b logline len sized.fits_int f.0 (omega (arith, ltb→le len size e)) in
        rw e (rw full (f.0, rw (f.1)))
  ]

  queue_full :
      (cur : FixedBuffer) (next : Option FixedBuffer) (bufs : List FixedBuffer) (n : Bool)
      (logline : List ℕ) (len : ℕ)
      → MsgInv size (record { current = some cur; next = next; buffers = bufs; notified = n })
      → len ≤ length logline
      → Appended logline len
          (record { current = some cur; next = next; buffers = bufs; notified = n })
          (record {
            current = some (append size (spare_or_new size memory next) logline len);
            next = none;
            buffers = bufs ++ cur ∷ [];
            notified = true;
          })
  queue_full cur next bufs n logline len v h =
      let put =
        append_fresh (spare_or_new size memory next) logline len (Spare-IsFresh next v.spare) h in
      (
        record {
          held = put.0;
          spare = tt;
          filled = All-append size bufs (cur ∷ []) v.filled (v.held, tt);
          backed = omega (arith, length-append bufs (cur ∷ []));
        },
        simp (put.1, queued_bytes-append, append_assoc, append-nil),
      )

  append_locked_cases :
      (cur : FixedBuffer) (next : Option FixedBuffer) (bufs : List FixedBuffer) (n : Bool)
      (logline : List ℕ) (len : ℕ)
      → let m : MsgBuf = record { current = some cur; next = next; buffers = bufs; notified = n } in
        MsgInv size m
        → len ≤ length logline
        → len < 2 ^ 31
        → Moves (Appended logline len m) (append_locked size memory logline len m)
  unfolding append_locked
  append_locked_cases cur next bufs n logline len v h k =
      elim (Bool-cases (signed_lt len (avail size cur))) [
        | inl e ↦
            let fits : cur.cur + len < size =
              omega (arith, ltb→lt len (size - cur.cur) (sym (room cur len v.held k) ∙ e)) in
            let done = append_fits size cur logline len sized.fits_int v.held h fits in
            rw (e, lt→ltb len size (omega (arith, fits)))
              (
                record { held = done.0; spare = v.spare; filled = v.filled; backed = v.backed },
                ap (◌++◌ (queued_bytes bufs)) (done.1)
                    ∙ sym (append_assoc (queued_bytes bufs) (as_string cur) (take len logline)),
              )
        | inr e ↦ rw e (queue_full cur next bufs n logline len v h)
      ]

  -- appendToMsgBuf under the lock, for any line.
  locked_fields :
      (c : Option FixedBuffer) (next : Option FixedBuffer) (bufs : List FixedBuffer) (n : Bool)
      (logline : List ℕ) (len : ℕ)
      → let m : MsgBuf = record { current = c; next = next; buffers = bufs; notified = n } in
        MsgInv size m
        → len ≤ length logline
        → len < 2 ^ 31
        → Moves (Appended logline len m) (append_locked size memory logline len m)
  locked_fields none next bufs n logline len v h k = absurd v.held
  locked_fields (some cur) next bufs n logline len v h k =
      append_locked_cases cur next bufs n logline len v h k

  pub append_locked-Moves :
      (m : MsgBuf) (logline : List ℕ) (len : ℕ)
      → MsgInv size m
      → len ≤ length logline
      → len < 2 ^ 31
      → Moves (Appended logline len m) (append_locked size memory logline len m)
  append_locked-Moves m logline len v h k =
      locked_fields m.current m.next m.buffers m.notified logline len v h k

  pub append-Moves :
      (client : Bool) (logline : List ℕ) (len : ℕ) (m : MsgBuf)
      → MsgInv size m
      → len ≤ length logline
      → Moves
          (λ m'. MsgInv size m' × (pending m' ≡ pending m ++ accepted client logline len))
          (append_to_msg_buf size memory client logline len m)
  unfolding append_to_msg_buf
  append-Moves false logline len m v h = (v, sym (append-nil (pending m)))
  append-Moves true logline len m v h = elim (Bool-cases (ltb max_log_msg_len len)) [
    | inl e ↦ rw e (v, sym (append-nil (pending m)))
    | inr e ↦
        let short : len < size = omega (arith, ltb→le max_log_msg_len len e, sized.holds_line) in
        let small : len < 2 ^ 31 = omega (arith, sized.fits_int) in
        rw e (
          subst
            (λ bs.
              Moves (λ m'. MsgInv size m' × (pending m' ≡ pending m ++ bs))
                (append_locked size memory logline len m))
            (rw (lt→ltb len size short))
            (locked_fields m.current m.next m.buffers m.notified logline len v h small))
  ]

  pub append_to_msg_buf_lem :
      (client : Bool) (logline : List ℕ) (len : ℕ) (m : MsgBuf)
      → MsgInv size m
      → len ≤ length logline
      → (m' : MsgBuf) × (append_to_msg_buf size memory client logline len m ≡ moved m')
        × MsgInv size m'
        × (pending m' ≡ pending m ++ accepted client logline len)
  append_to_msg_buf_lem client logline len m v h =
      let (m', e, p) =
        Moves-eq _ (append_to_msg_buf size memory client logline len m)
          (append-Moves client logline len m v h) in
      (m', e, p.0, p.1)
