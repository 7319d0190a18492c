-- ===== src/FrameSocket/Faults.antt =====
-- IOFrameSocket::recvFrame and messages in two pieces.
use protocom.Prelude.{
  ℕ, suc, ◌+◌, ◌-◌, ◌≡◌, refl, ap, ap₂, ◌∙◌, Bool, true, false, not, List, [], ◌∷◌, ◌++◌, some,
  arith, ◌==◌, length, if◌then◌else◌, returned,
}
use protocom.Frame.{Frame}
use protocom.Socket.{Socket, received}
use protocom.FrameSocket.{FrameSocket, after_try_recv, try_recv, recv_loop, got_frame, recv_msg}

module _ {S : Type 0} (socket : Socket S) where
  abbrev pub received_at : S → FrameSocket S → FrameSocket S
  received_at s io = record io { sock = s; read_eagain = false }

  try_recv-open :
      (n b : ℕ) (bs : List ℕ) (s : S) (io : FrameSocket S)
      → io.conn_open ≡ true
      → socket.recv io.sock (suc n) ≡ (received b bs, s)
      → try_recv socket (suc n) io ≡ returned (b ∷ bs, received_at s io)
  unfolding try_recv after_try_recv
  try_recv-open n b bs s io o e =
      let some_bytes : (suc n == 0) ≡ false = ground arith in rw (o, some_bytes, e) refl

  -- One piece of the loop.
  recv_loop-piece :
      (fuel n last : ℕ) (got : List ℕ) (b : ℕ) (bs : List ℕ) (s : S) (io : FrameSocket S)
      → io.conn_open ≡ true
      → socket.recv io.sock (suc n) ≡ (received b bs, s)
      → recv_loop socket (suc fuel) (suc n) last got io
        ≡ recv_loop socket fuel
            (suc n - length (b ∷ bs))
            (length (b ∷ bs))
            (got ++ b ∷ bs)
            (received_at s io)
  unfolding recv_loop
  recv_loop-piece fuel n last got b bs s io o e = rw (try_recv-open n b bs s io o e, recv_loop) refl

  -- Where, behind a length of `n + m + 2` and on an open connection, recv gives a first piece of
  -- `n + 1` bytes and then the other `m + 1`, recvFrame takes both pieces and returns false.
  pub recv_msg-two_pieces :
      (n m : ℕ) (f : Frame) (io : FrameSocket S) (c d : ℕ) (cs ds : List ℕ) (s₁ s₂ : S)
      → io.conn_open ≡ true
      → f.len ≡ suc (n + suc m)
      → length cs ≡ n
      → length ds ≡ m
      → socket.recv io.sock (suc (n + suc m)) ≡ (received c cs, s₁)
      → socket.recv s₁ (suc m) ≡ (received d ds, s₂)
      → recv_msg socket f io ≡ some (returned (false, (f, received_at s₂ io)))
  unfolding recv_msg recv_loop got_frame
  recv_msg-two_pieces n m f io c d cs ds s₁ s₂ o l ln lm e₁ e₂ =
      let fuel : n + suc m ≡ suc (n + m) = omega arith in
      let left : suc (n + suc m) - suc (length cs) ≡ suc m = omega (arith, ln) in
      let over : suc m - suc (length ds) ≡ 0 = omega (arith, lm) in
      let io₁ = received_at s₁ io in
      let got = [] ++ c ∷ cs in
      let loop : recv_loop socket f.len f.len 1 [] io
          ≡ some (returned (some (got ++ d ∷ ds, length (d ∷ ds)), received_at s₂ io)) =
        ap (λ (k : ℕ). recv_loop socket k k 1 [] io) l
        ∙ recv_loop-piece (n + suc m) (n + suc m) 1 [] c cs s₁ io o e₁
        ∙ ap₂ (λ (k j : ℕ). recv_loop socket k j (length (c ∷ cs)) got io₁) fuel left
        ∙ recv_loop-piece (n + m) m (length (c ∷ cs)) got d ds s₂ io₁ o e₂
        ∙ ap
            (λ (j : ℕ).
              recv_loop socket (n + m) j (length (d ∷ ds)) (got ++ d ∷ ds) (received_at s₂ io))
            over in
      let short : (length (d ∷ ds) == f.len) ≡ false = ground (arith, lm, l) in
      rw (loop, recv_msg)
        (ap
          (λ (b : Bool). some (
            returned (
              if not b
              then (false, (f, received_at s₂ io))
              else (true, (record f { msg = got ++ d ∷ ds }, received_at s₂ io)))))
          short)
