-- ===== src/FrameSocket/Receiving.antt =====
-- IOFrameSocket::recvFrame: its loop.
use protocom.Prelude.{
  ℕ, zero, suc, ◌-◌, ◌≤◌, ◌≡◌, refl, inl, inr, Bool, false, List, [], ◌∷◌, ◌++◌, Option, none, some,
  arith, length, ntohs, store_len, Bool-cases, Outcome-cases, Outcome, returned, threw, ◌>>=◌,
}
use protocom.Frame.{Frame, valid_header}
use protocom.Socket.{Socket}
use protocom.FrameSocket.{
  FrameSocket, try_recv, recv_loop, got_frame, recv_msg, recv_len, recv_frame,
}

module _ {S : Type 0} (socket : Socket S) where
  -- The loop ends: each recv that gives something shortens what is to be received.
  recv_loop-ends :
      (fuel n last : ℕ) (got : List ℕ) (io : FrameSocket S)
      → n ≤ fuel
      → (o : Outcome (Option (List ℕ × ℕ) × FrameSocket S)) × (recv_loop socket fuel n last got io
          ≡ some o)
  unfolding recv_loop
  recv_loop-ends fuel zero last got io h = (_, refl)
  recv_loop-ends zero (suc n) last got io h = absurd (omega arith)
  recv_loop-ends (suc fuel) (suc n) last got io h =
      elim (Outcome-cases (try_recv socket (suc n) io)) [
        | inl e ↦ (threw, rw (e, recv_loop) refl)
        | inr (([], io'), e) ↦ (returned (none, io'), rw (e, recv_loop) refl)
        | inr ((b ∷ bs, io'), e) ↦
            let (o, ended) =
              recv_loop-ends fuel (suc n - length (b ∷ bs)) (length (b ∷ bs)) (got ++ b ∷ bs) io'
                (omega arith) in
            (o, rw (e, recv_loop) ended)
      ]

  -- With any socket recvFrame comes to an end: a recv that gives nothing, or fails, ends it, and each
  -- other one shortens what is to be received.
  pub recv_frame-ends :
      (f : Frame) (io : FrameSocket S)
      → (o : Outcome (Bool × (Frame × FrameSocket S))) × (recv_frame socket f io ≡ some o)
  unfolding recv_frame recv_len recv_msg
  recv_frame-ends f io = elim (Outcome-cases (try_recv socket 1 io)) [
    | inl e ↦ (threw, rw (e, recv_frame) refl)
    | inr (([], io'), e) ↦ (returned (false, (f, io')), rw (e, recv_frame) refl)
    | inr ((b ∷ bs, io'), e) ↦ elim (Bool-cases (valid_header b)) [
      | inl ok ↦ elim (Outcome-cases (try_recv socket 2 io')) [
        | inl e' ↦ (threw, rw (e, ok, e', recv_frame, recv_len) refl)
        | inr (([], io''), e') ↦ (
          returned (false, (record f { header = b }, io'')),
          rw (e, ok, e', recv_frame, recv_len) refl,
        )
        | inr ((c ∷ cs, io''), e') ↦
            let n = ntohs (store_len (c ∷ cs) f.len) in
            let (o, ended) = recv_loop-ends n n 1 [] io'' (omega arith) in
            (
              o >>= (λ r. returned (got_frame socket (record f { header = b; len = n }) r)),
              rw (e, ok, e', ended, recv_frame, recv_len, recv_msg) refl,
            )
      ]
      | inr bad ↦ (returned (false, (record f { header = b }, io')), rw (e, bad, recv_frame) refl)
    ]
  ]
