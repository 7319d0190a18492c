-- ===== src/FrameSocket/Sending.antt =====
-- IOFrameSocket::sendFrame over a stream socket.
use protocom.Prelude.{
  ℕ, ◌+◌, ◌/◌, ◌%◌, ◌<◌, ◌≡◌, refl, ap, ap₂, sym, ◌∙◌, inl, inr, Bool, true, false, not, ◌||◌, List,
  [], ◌∷◌, ◌++◌, arith, ◌==◌, ==_iff, length, take, take_all, append-nil, append_assoc,
  if◌then◌else◌, ntohs, len_bytes, len_bytes-ntohs, Bool-cases, Outcome, returned, ◌>>=◌,
  >>=-eq-returned, returned-injective,
}
use protocom.Frame.{Frame, packet, wire}
use protocom.Socket.{Socket, SendResult, SendsStream, sent, sent_none, send_again, send_failed}
use protocom.FrameSocket.{FrameSocket, after_try_send, try_send, if_whole, send_frame}

module _ {S : Type 0} (socket : Socket S) (stream : SendsStream socket) where
  open stream use {outgoing}

  none_of : (xs bs : List ℕ) → 0 ≡ length bs → xs ≡ xs ++ bs
  none_of xs [] e = sym (append-nil xs)
  none_of xs (b ∷ bs) e = absurd (omega arith)

  after_try_send-all :
      (res : SendResult) (s : S) (bs : List ℕ) (io io' : FrameSocket S)
      → socket.send io.sock bs ≡ (res, s)
      → after_try_send (res, s) io ≡ returned (length bs, io')
      → outgoing io'.sock ≡ outgoing io.sock ++ bs
  unfolding after_try_send
  after_try_send-all (sent n) s bs io io' e h =
      let p = returned-injective h in
      ap (λ (x : ℕ × FrameSocket S). outgoing x.1.sock) (sym p)
      ∙ (stream.send_sent io.sock s bs n e).0
      ∙ ap (◌++◌ (outgoing io.sock))
          (take_all (n + 1) bs (omega (arith, ap (λ (x : ℕ × FrameSocket S). x.0) p)))
  after_try_send-all sent_none s bs io io' e h =
      let p = returned-injective h in
      ap (λ (x : ℕ × FrameSocket S). outgoing x.1.sock) (sym p)
      ∙ stream.send_none io.sock s bs e
      ∙ none_of (outgoing io.sock) bs (ap (λ (x : ℕ × FrameSocket S). x.0) p)
  after_try_send-all send_again s bs io io' e h =
      let p = returned-injective h in
      ap (λ (x : ℕ × FrameSocket S). outgoing x.1.sock) (sym p)
      ∙ stream.send_idle io.sock s bs e
      ∙ none_of (outgoing io.sock) bs (ap (λ (x : ℕ × FrameSocket S). x.0) p)
  after_try_send-all send_failed s bs io io' e h = absurd (cc)

  -- A try_send that gives the size of its buffer has sent the buffer.
  try_send-all :
      (bs : List ℕ) (io io' : FrameSocket S)
      → try_send socket bs io ≡ returned (length bs, io')
      → outgoing io'.sock ≡ outgoing io.sock ++ bs
  unfolding try_send
  try_send-all bs io io' h = elim (Bool-cases (not io.conn_open || length bs == 0)) [
    | inl skip ↦
        let p = returned-injective (
          sym (
            ap (λ b. if b then returned (0, io) else after_try_send (socket.send io.sock bs) io)
              skip)
          ∙ h) in
        ap (λ (x : ℕ × FrameSocket S). outgoing x.1.sock) (sym p)
        ∙ none_of (outgoing io.sock) bs (ap (λ (x : ℕ × FrameSocket S). x.0) p)
    | inr go ↦ after_try_send-all _ _ bs io io' refl (
        sym
          (ap (λ b. if b then returned (0, io) else after_try_send (socket.send io.sock bs) io) go)
        ∙ h)
  ]

  -- A part behind which the frame was sent to its end was sent whole.
  if_whole-true :
      (bs : List ℕ) (size : ℕ) (k : FrameSocket S → Outcome (Bool × FrameSocket S))
      (io io' : FrameSocket S)
      → size ≡ length bs
      → (try_send socket bs io >>= if_whole socket size k) ≡ returned (true, io')
      → (io₁ : FrameSocket S) × (outgoing io₁.sock ≡ outgoing io.sock ++ bs)
        × (k io₁ ≡ returned (true, io'))
  if_whole-true bs size k io io' e h =
      let ((n, io₁), did, more) =
        >>=-eq-returned (try_send socket bs io) (if_whole socket size k) h in
      elim (Bool-cases (n == size)) [
        | inl same ↦
            let all : n ≡ length bs = (==_iff n size).0 same ∙ e in
            (
              io₁,
              try_send-all bs io io₁ (did ∙ ap (λ (m : ℕ). returned (m, io₁)) all),
              sym (ap (λ b. if not b then returned (false, io₁) else k io₁) same) ∙ more,
            )
        | inr other ↦
            absurd
              (cc (sym (ap (λ b. if not b then returned (false, io₁) else k io₁) other) ∙ more))
      ]

  -- Over a stream socket: a sendFrame of a frame with its true length that returns true has sent the
  -- frame's header, its length in network order and its message.
  pub send_frame-wire :
      (f : Frame) (io io' : FrameSocket S)
      → length f.msg ≡ f.len
      → f.len < 65536
      → send_frame socket f io ≡ returned (true, io')
      → outgoing io'.sock ≡ outgoing io.sock ++ wire (packet f)
  unfolding send_frame wire
  send_frame-wire f io io' full fits h =
      let (io₁, header, h₁) = if_whole-true (f.header ∷ []) 1 _ io io' refl h in
      let (io₂, len, h₂) = if_whole-true (len_bytes (ntohs f.len)) 2 _ io₁ io' two h₁ in
      let (io₃, msg, h₃) =
        if_whole-true (take f.len f.msg) f.len _ io₂ io' (sym (ap length whole ∙ full)) h₂ in
      let sent_all = returned-injective h₃ in
      ap (λ (x : Bool × FrameSocket S). outgoing x.1.sock) (sym sent_all)
      ∙ msg
      ∙ ap₂ (◌++◌) (len ∙ ap₂ (◌++◌) header (len_bytes-ntohs f.len fits)) whole
      ∙ append_assoc (outgoing io.sock ++ f.header ∷ []) (f.len / 256 % 256 ∷ f.len % 256 ∷ [])
          f.msg
      ∙ append_assoc (outgoing io.sock) (f.header ∷ []) _
      ∙ ap (λ (n : ℕ). outgoing io.sock ++ f.header ∷ n / 256 % 256 ∷ n % 256 ∷ f.msg) (sym full)
    where
      two : 2 ≡ length (len_bytes (ntohs f.len))
      two = ap length (sym (len_bytes-ntohs f.len fits))

      whole : take f.len f.msg ≡ f.msg
      whole = take_all f.len f.msg (omega (arith, full))
