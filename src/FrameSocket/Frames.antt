-- ===== src/FrameSocket/Frames.antt =====
-- IOFrameSocket::recvFrame against the reference parser.
use protocom.Prelude.{
  ℕ, ◌+◌, ◌*◌, ◌%◌, ◌≡◌, refl, ap, sym, ◌∙◌, inl, inr, Bool, true, false, not, List, [], ◌∷◌, ◌++◌,
  Option, some, arith, length, if◌then◌else◌, ntohs, store_len, ntohs-store_len, Bool-cases,
  Outcome, returned, threw, some_returned-injective, not-thrown,
}
use protocom.Frame.{Frame, packet, valid_header}
use protocom.Socket.{Socket, ReceivesStream}
use protocom.Framer.Reference.{at_header, feed, feed_frame}
use protocom.Framer.Steps.{WholeLengths}
use protocom.FrameSocket.{FrameSocket, try_recv, recv_msg, recv_len, recv_frame}
use protocom.FrameSocket.Pieces.{try_recv-Took, recv_msg-bytes}

module _ {S : Type 0} (socket : Socket S) (stream : ReceivesStream socket) where
  open stream use {incoming}

  -- The two bytes of the length, and the message.
  recv_len-bytes :
      (f : Frame) (io : FrameSocket S) (f' : Frame) (io' : FrameSocket S)
      → WholeLengths socket
      → recv_len socket f io ≡ some (returned (true, (f', io')))
      → (a : ℕ) × (b : ℕ) × (bs : List ℕ) × (f'
          ≡ record f { len = a % 256 * 256 + b % 256; msg = bs })
        × (length bs ≡ a % 256 * 256 + b % 256)
        × (incoming io.sock ≡ a ∷ b ∷ bs ++ incoming io'.sock)
  unfolding recv_len
  recv_len-bytes f io f' io' whole h = by_recv (try_recv socket 2 io) refl h
    where
      by_recv :
          (o : Outcome (List ℕ × FrameSocket S))
          → try_recv socket 2 io ≡ o
          → ◌≡◌ {A = Option (Outcome (Bool × (Frame × FrameSocket S)))}
              (elim o [
                | threw ↦ some threw
                | returned ([], io₁) ↦ some (returned (false, (f, io₁)))
                | returned (b ∷ bs, io₁) ↦
                    recv_msg socket (record f { len = ntohs (store_len (b ∷ bs) f.len) }) io₁
              ])
              (some (returned (true, (f', io'))))
          → (a : ℕ) × (b : ℕ) × (bs : List ℕ) × (f'
              ≡ record f { len = a % 256 * 256 + b % 256; msg = bs })
            × (length bs ≡ a % 256 * 256 + b % 256)
            × (incoming io.sock ≡ a ∷ b ∷ bs ++ incoming io'.sock)
      by_recv threw e h = absurd (not-thrown h)
      by_recv (returned ([], io₁)) e h =
          absurd (cc (ap (λ (x : Bool × (Frame × FrameSocket S)). x.0) (some_returned-injective h)))
      by_recv (returned (a ∷ [], io₁)) e h =
          let (b, s, one) = (try_recv-Took socket stream 2 io (a ∷ [], io₁) e).single refl in
          absurd (whole io.sock s b one)
      by_recv (returned (a ∷ b ∷ [], io₁)) e h =
          let t = try_recv-Took socket stream 2 io (a ∷ b ∷ [], io₁) e in
          let n = ntohs-store_len a b f.len in
          let (bs, same, size, next) =
            recv_msg-bytes socket stream (record f { len = ntohs (store_len (a ∷ b ∷ []) f.len) })
              io₁ f' io' h in
          (
            a,
            b,
            bs,
            same ∙ ap (λ (k : ℕ). record f { len = k; msg = bs }) n,
            size ∙ n,
            t.next_bytes ∙ ap (λ (xs : List ℕ). a ∷ b ∷ xs) next,
          )
      by_recv (returned (a ∷ b ∷ c ∷ bs, io₁)) e h =
          absurd (omega (arith, (try_recv-Took socket stream 2 io (a ∷ b ∷ c ∷ bs, io₁) e).at_most))

  -- Over a stream socket with whole lengths: a recvFrame that returns true has taken from the stream
  -- some bytes of which the reference parser makes the frame's header and message, and nothing else,
  -- and the frame's length is its message's.
  pub recv_frame-feed :
      (f : Frame) (io : FrameSocket S) (f' : Frame) (io' : FrameSocket S)
      → WholeLengths socket
      → recv_frame socket f io ≡ some (returned (true, (f', io')))
      → (bs : List ℕ) × (incoming io.sock ≡ bs ++ incoming io'.sock)
        × (feed at_header bs ≡ (at_header, packet f' ∷ []))
        × (length f'.msg ≡ f'.len)
  unfolding recv_frame
  recv_frame-feed f io f' io' whole h = by_recv (try_recv socket 1 io) refl h
    where
      by_recv :
          (o : Outcome (List ℕ × FrameSocket S))
          → try_recv socket 1 io ≡ o
          → ◌≡◌ {A = Option (Outcome (Bool × (Frame × FrameSocket S)))}
              (elim o [
                | threw ↦ some threw
                | returned ([], io₁) ↦ some (returned (false, (f, io₁)))
                | returned (b ∷ bs, io₁) ↦
                    if not (valid_header b)
                    then some (returned (false, (record f { header = b }, io₁)))
                    else recv_len socket (record f { header = b }) io₁
              ])
              (some (returned (true, (f', io'))))
          → (bs : List ℕ) × (incoming io.sock ≡ bs ++ incoming io'.sock)
            × (feed at_header bs ≡ (at_header, packet f' ∷ []))
            × (length f'.msg ≡ f'.len)
      by_recv threw e h = absurd (not-thrown h)
      by_recv (returned ([], io₁)) e h =
          absurd (cc (ap (λ (x : Bool × (Frame × FrameSocket S)). x.0) (some_returned-injective h)))
      by_recv (returned (b ∷ c ∷ bs, io₁)) e h =
          absurd (omega (arith, (try_recv-Took socket stream 1 io (b ∷ c ∷ bs, io₁) e).at_most))
      by_recv (returned (b ∷ [], io₁)) e h = elim (Bool-cases (valid_header b)) [
        | inl ok ↦
            let (x, y, bs, same, size, next) =
              recv_len-bytes (record f { header = b }) io₁ f' io' whole (sym (header_at ok) ∙ h) in
            (
              b ∷ x ∷ y ∷ bs,
              (try_recv-Took socket stream 1 io (b ∷ [], io₁) e).next_bytes ∙ ap (◌∷◌ b) next,
              feed_frame b x y bs ok size
                  ∙ ap (λ (g : Frame). (at_header, packet g ∷ [])) (sym same),
              ap (λ (g : Frame). length g.msg) same ∙ size ∙ sym (ap (λ (g : Frame). g.len) same),
            )
        | inr bad ↦ absurd (
            cc (
              ap (λ (x : Bool × (Frame × FrameSocket S)). x.0)
                (some_returned-injective (sym (header_at bad) ∙ h))))
      ]
        where
          header_at :
              {v : Bool}
              → valid_header b ≡ v
              → ◌≡◌ {A = Option (Outcome (Bool × (Frame × FrameSocket S)))}
                  (if not (valid_header b)
                    then some (returned (false, (record f { header = b }, io₁)))
                    else recv_len socket (record f { header = b }) io₁)
                  (if not v
                    then some (returned (false, (record f { header = b }, io₁)))
                    else recv_len socket (record f { header = b }) io₁)
          header_at e =
              ap
                (λ (v : Bool).
                  if not v
                  then some (returned (false, (record f { header = b }, io₁)))
                  else recv_len socket (record f { header = b }) io₁)
                e
