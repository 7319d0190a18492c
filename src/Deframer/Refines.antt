-- ===== src/Deframer/Refines.antt =====
-- One call of PDeframer::tryWrite: what went out, and what is still to be sent.
use protocom.Prelude.{
  ℕ, zero, suc, ◌+◌, ◌-◌, ◌/◌, ◌%◌, ◌≤◌, ◌<◌, ◌≡◌, refl, ap, ap₂, subst, ◌∙◌, sym, ◌⊎◌, inl, inr,
  Bool, true, false, List, [], ◌∷◌, ◌++◌, arith, length, take, drop, length-drop, append_assoc,
  take-append-drop, if◌then◌else◌, ◌==◌, ltb, ntohs, ntohs-ntohs, len_bytes-ntohs, sub_u32,
  sub_u32_lem, Outcome, returned, ◌>>=◌, Bool-cases, returned-injective, threw-ne-returned,
  drop_all, take-drop-append, drop-drop,
}
use protocom.Socket.{Socket, SendsStream, SendResult, sent, sent_none, send_again, send_failed}
use protocom.Deframer.{
  Deframer, Tx, TxState, tx_header, tx_len, tx_msg, Memory, after_send, sent_msg, prepare, offered,
  wrote, try_send, write_step, bytes_at_len, bytes_at_msg,
}

-- The bytes of the frame that are still to be sent.
abbrev pub rest_at : TxState → Deframer → List ℕ
rest_at tx_header d =
    d.txd_frame.header ∷ d.txd_frame.len / 256 % 256 ∷ d.txd_frame.len % 256 ∷ d.txd_frame.msg
rest_at tx_len d = d.txd_frame.len / 256 % 256 ∷ d.txd_frame.len % 256 ∷ d.txd_frame.msg
rest_at tx_msg d = drop (d.txd_frame.len - d.msg_remaining_bytes) d.txd_frame.msg

abbrev pub rest : Deframer → List ℕ
rest d = if d.write_in_progress then rest_at d.state d else []

-- What each state says of the counters and of the buffer.
abbrev pub IsValidAt : TxState → Deframer → Type 0
IsValidAt tx_header d = (length d.txd_frame.msg ≡ d.txd_frame.len) × (d.txd_frame.len < 65536)
IsValidAt tx_len d =
    (length d.txd_frame.msg ≡ d.txd_frame.len)
    × (d.txd_frame.len < 65536)
    × (d.len_remaining_bytes ≡ 2)
IsValidAt tx_msg d =
    (length d.txd_frame.msg ≡ d.txd_frame.len)
    × (d.txd_frame.len < 65536)
    × (d.msg_remaining_bytes ≤ d.txd_frame.len)

abbrev pub IsValid : Deframer → Type 0
IsValid d = d.write_in_progress ≡ true → IsValidAt d.state d

-- The precondition that PDeframer's length field needs: a send of two bytes takes both, or fails
-- for good.
abbrev pub WholeSends : {S : Type 0} → Socket S → Type 0
WholeSends {S} socket =
    (s : S) (a b : ℕ) → let r = (socket.send s (a ∷ b ∷ [])).0 in (r ≡ sent 1) ⊎ (r ≡ send_failed)

-- The message's remaining part shrinks from its front.
sent_msg_lem :
    {S : Type 0} (k : ℕ) (t : Tx S)
    → t.deframer.state ≡ tx_msg
    → t.deframer.write_in_progress ≡ true
    → IsValidAt tx_msg t.deframer
    → k ≤ t.deframer.msg_remaining_bytes
    → let d = (sent_msg k t).deframer in
      (rest d ≡ drop k (rest_at tx_msg t.deframer))
      × IsValid d
      × (d.write_in_progress ≡ true → 0 < length (rest d))
unfolding sent_msg
sent_msg_lem k t e w v h =
    let d = t.deframer in
    let len = d.txd_frame.len in
    let msg = d.txd_frame.msg in
    let rem : sub_u32 d.msg_remaining_bytes k ≡ d.msg_remaining_bytes - k =
      sub_u32_lem d.msg_remaining_bytes k h (omega arith) in
    let n : len - (d.msg_remaining_bytes - k) ≡ len - d.msg_remaining_bytes + k = omega arith in
    let left = drop-drop k (len - d.msg_remaining_bytes) msg in
    rw rem (elim (Bool-cases ((d.msg_remaining_bytes - k) == 0)) [
      | inl z ↦
          let none_left = drop_all (len - d.msg_remaining_bytes + k) msg (ground arith) in
          rw z (sym (left ∙ none_left), (λ c. absurd (cc)), λ c. absurd (cc))
      | inr nz ↦
          let some_left = length-drop (len - (d.msg_remaining_bytes - k)) msg in
          let more : 0 < length (drop (len - (d.msg_remaining_bytes - k)) msg) = ground arith in
          rw (nz, w, e)
            (ap (λ (m : ℕ). drop m msg) n ∙ sym left, (λ c. (v.0, v.1, omega arith)), λ c. more)
    ])

module _ {S : Type 0} (socket : Socket S) (mem : Memory) (stream : SendsStream socket) where
  open stream use {outgoing}

  -- From `t` in the state `st`, with the result `x.0`: no byte is lost, doubled or changed.
  pub record Wrote (st : TxState) (t : Tx S) (x : Bool × Tx S) : Type 0 where
    pub kept : outgoing t.sock ++ rest_at st t.deframer ≡ outgoing x.1.sock ++ rest x.1.deframer
    pub valid : IsValid x.1.deframer
    pub progress : x.0 ≡ true → length (rest x.1.deframer) < length (rest_at st t.deframer)
    pub idle : x.0 ≡ false → x.1.deframer.write_in_progress ≡ true → 0 < length (rest x.1.deframer)

  abbrev after_at : Bool → Bool → S → Tx S → Tx S
  after_at a e s t = record t {
    deframer = record t.deframer { write_again = a; write_eof = e };
    sock = s;
  }

  abbrev finish : TxState → SendResult × S → Tx S → Outcome (Bool × Tx S)
  finish st r t = after_send r t >>= λ y. returned (ltb 0 y.0, wrote st y.0 y.1)

  header-Wrote :
      (res : SendResult) (s' : S) (t : Tx S) (x : Bool × Tx S)
      → t.deframer.state ≡ tx_header
      → t.deframer.write_in_progress ≡ true
      → IsValidAt tx_header t.deframer
      → socket.send t.sock (t.deframer.txd_frame.header ∷ []) ≡ (res, s')
      → finish tx_header (res, s') t ≡ returned x
      → Wrote tx_header t x
  unfolding after_send wrote
  header-Wrote (sent zero) s' t x e w v h y =
      subst (Wrote tx_header t) (returned-injective y) (record {
        kept =
            rw (w, (stream.send_sent t.sock s' _ 0 h).0)
              (sym (append_assoc (outgoing t.sock) (t.deframer.txd_frame.header ∷ []) _));
        valid = λ _. (v.0, v.1, refl);
        progress = λ _. rw w (omega arith);
        idle = λ z. absurd (cc);
      })
  header-Wrote (sent (suc n)) s' t x e w v h y =
      absurd (omega (arith, (stream.send_sent t.sock s' _ (suc n) h).1))
  header-Wrote sent_none s' t x e w v h y =
      subst (Wrote tx_header t) (returned-injective y) (record {
        kept = rw (w, e, stream.send_none t.sock s' _ h) refl;
        valid = λ _. rw e v;
        progress = λ z. absurd (cc);
        idle = λ _ _. rw (w, e) (omega arith);
      })
  header-Wrote send_again s' t x e w v h y =
      subst (Wrote tx_header t) (returned-injective y) (record {
        kept = rw (w, e, stream.send_idle t.sock s' _ h) refl;
        valid = λ _. rw e v;
        progress = λ z. absurd (cc);
        idle = λ _ _. rw (w, e) (omega arith);
      })
  header-Wrote send_failed s' t x e w v h y = absurd (threw-ne-returned y)

  len-Wrote :
      (res : SendResult) (s' : S) (t : Tx S) (x : Bool × Tx S)
      → t.deframer.write_in_progress ≡ true
      → IsValidAt tx_len t.deframer
      → (res ≡ sent 1) ⊎ (res ≡ send_failed)
      → let n = t.deframer.txd_frame.len in
        socket.send t.sock (n / 256 % 256 ∷ n % 256 ∷ []) ≡ (res, s')
        → finish tx_len (res, s') (prepare tx_len t) ≡ returned x
        → Wrote tx_len t x
  unfolding after_send wrote prepare sub_u32
  len-Wrote (sent zero) s' t x w v o h y = absurd (elim o [ inl z ↦ ground arith | inr z ↦ cc ])
  len-Wrote (sent (suc (suc n))) s' t x w v o h y =
      absurd (elim o [ inl z ↦ ground arith | inr z ↦ cc ])
  len-Wrote sent_none s' t x w v o h y = absurd (elim o [ inl z ↦ cc | inr z ↦ cc ])
  len-Wrote send_again s' t x w v o h y = absurd (elim o [ inl z ↦ cc | inr z ↦ cc ])
  len-Wrote send_failed s' t x w v o h y = absurd (threw-ne-returned y)
  len-Wrote (sent (suc zero)) s' t x w v o h y =
      let len = t.deframer.txd_frame.len in
      let msg = t.deframer.txd_frame.msg in
      let back : ntohs (ntohs len) ≡ len = ntohs-ntohs len v.1 in
      let law = stream.send_sent t.sock s' (len / 256 % 256 ∷ len % 256 ∷ []) 1 h in
      let start : len - len ≡ 0 = omega arith in
      subst (Wrote tx_len t) (returned-injective y) (
        rw (v.2, back)
          (record {
            kept =
                rw (w, law.0, start)
                  (sym (append_assoc (outgoing t.sock) (len / 256 % 256 ∷ len % 256 ∷ []) msg));
            valid = λ _. (v.0, v.1, omega arith);
            progress = λ _. rw (w, start) (omega arith);
            idle = λ z. absurd (cc);
          }))

  msg-Wrote :
      (res : SendResult) (s' : S) (t : Tx S) (x : Bool × Tx S)
      → t.deframer.state ≡ tx_msg
      → t.deframer.write_in_progress ≡ true
      → IsValidAt tx_msg t.deframer
      → 0 < t.deframer.msg_remaining_bytes
      → socket.send t.sock (rest_at tx_msg t.deframer) ≡ (res, s')
      → finish tx_msg (res, s') t ≡ returned x
      → Wrote tx_msg t x
  unfolding after_send wrote
  msg-Wrote (sent n) s' t x e w v p h y =
      let law = stream.send_sent t.sock s' (rest_at tx_msg t.deframer) n h in
      let left =
        length-drop (t.deframer.txd_frame.len - t.deframer.msg_remaining_bytes)
          t.deframer.txd_frame.msg in
      let r =
        sent_msg_lem (suc n) (after_at false t.deframer.write_eof s' t) e w v
          (omega (arith, left, law.1)) in
      let gone = length-drop (suc n) (rest_at tx_msg t.deframer) in
      let count : n + 1 ≡ suc n = omega arith in
      subst (Wrote tx_msg t) (returned-injective y) (record {
        kept =
            ap (◌++◌ (outgoing t.sock)) (sym (take-append-drop (suc n) (rest_at tx_msg t.deframer)))
            ∙ sym (
                append_assoc (outgoing t.sock) (take (suc n) (rest_at tx_msg t.deframer))
                  (drop (suc n) (rest_at tx_msg t.deframer)))
            ∙ ap₂ ◌++◌
                (sym (
                  law.0
                  ∙ ap (λ (m : ℕ). outgoing t.sock ++ take m (rest_at tx_msg t.deframer)) count))
                (sym r.0);
        valid = r.1;
        progress = λ _. rw r.0 (omega (arith, gone, law.1));
        idle = λ z. absurd (ground arith);
      })
  msg-Wrote sent_none s' t x e w v p h y =
      let r = sent_msg_lem 0 (after_at t.deframer.write_again true s' t) e w v (omega arith) in
      subst (Wrote tx_msg t) (returned-injective y) (record {
        kept = ap₂ ◌++◌ (sym (stream.send_none t.sock s' _ h)) (sym r.0);
        valid = r.1;
        progress = λ z. absurd (cc);
        idle = λ _. r.2;
      })
  msg-Wrote send_again s' t x e w v p h y =
      let r = sent_msg_lem 0 (after_at true t.deframer.write_eof s' t) e w v (omega arith) in
      subst (Wrote tx_msg t) (returned-injective y) (record {
        kept = ap₂ ◌++◌ (sym (stream.send_idle t.sock s' _ h)) (sym r.0);
        valid = r.1;
        progress = λ z. absurd (cc);
        idle = λ _. r.2;
      })
  msg-Wrote send_failed s' t x e w v p h y = absurd (threw-ne-returned y)

  offered_msg :
      (t : Tx S) → IsValidAt tx_msg t.deframer → offered mem tx_msg t ≡ rest_at tx_msg t.deframer
  unfolding offered bytes_at_msg
  offered_msg t v =
      take-drop-append t.deframer.msg_remaining_bytes
        (t.deframer.txd_frame.len - t.deframer.msg_remaining_bytes) t.deframer.txd_frame.msg
        mem.behind (omega arith)

  offered_len :
      (t : Tx S)
      → IsValidAt tx_len t.deframer
      → let n = t.deframer.txd_frame.len in
        offered mem tx_len (prepare tx_len t) ≡ n / 256 % 256 ∷ n % 256 ∷ []
  unfolding offered bytes_at_len prepare
  offered_len t v = rw v.2 (len_bytes-ntohs t.deframer.txd_frame.len v.1)

  msg_step :
      (bs : List ℕ) (t : Tx S) (x : Bool × Tx S)
      → t.deframer.state ≡ tx_msg
      → t.deframer.write_in_progress ≡ true
      → IsValidAt tx_msg t.deframer
      → rest_at tx_msg t.deframer ≡ bs
      → (try_send socket mem bs t >>= λ y. returned (ltb 0 y.0, wrote tx_msg y.0 y.1)) ≡ returned x
      → Wrote tx_msg t x
  unfolding try_send wrote
  msg_step [] t x e w v z y =
      let r = sent_msg_lem 0 t e w v (omega arith) in
      subst (Wrote tx_msg t) (returned-injective y) (record {
        kept = ap (◌++◌ (outgoing t.sock)) (sym r.0);
        valid = r.1;
        progress = λ c. absurd (cc);
        idle = λ _. r.2;
      })
  msg_step (b ∷ bs) t x e w v z y =
      let (res, s') = socket.send t.sock (b ∷ bs) in
      let d = t.deframer in
      let n = length-drop (d.txd_frame.len - d.msg_remaining_bytes) d.txd_frame.msg in
      msg-Wrote res s' t x e w v (omega (arith, n, ap length z)) (ap (socket.send t.sock) z) y

  -- A call of tryWrite during a write, that does not throw: what has gone out and what is still to be
  -- sent, together, stay the same bytes, the invariant is kept, and a result true means progress.
  pub write_step-Wrote :
      (st : TxState) (t : Tx S) (x : Bool × Tx S)
      → WholeSends socket
      → t.deframer.state ≡ st
      → t.deframer.write_in_progress ≡ true
      → IsValidAt st t.deframer
      → write_step socket mem st t ≡ returned x
      → Wrote st t x
  unfolding write_step try_send prepare
  write_step-Wrote tx_header t x whole e w v y =
      let (res, s') = socket.send t.sock (t.deframer.txd_frame.header ∷ []) in
      header-Wrote res s' t x e w v refl y
  write_step-Wrote tx_len t x whole e w v y =
      let n = t.deframer.txd_frame.len in
      let (res, s') = socket.send t.sock (n / 256 % 256 ∷ n % 256 ∷ []) in
      len-Wrote res s' t x w v (whole t.sock (n / 256 % 256) (n % 256)) refl
        (rw (offered_len t v) at y)
  write_step-Wrote tx_msg t x whole e w v y =
      msg_step (rest_at tx_msg t.deframer) t x e w v refl (rw (offered_msg t v) at y)
