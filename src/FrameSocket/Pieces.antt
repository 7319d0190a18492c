-- ===== src/FrameSocket/Pieces.antt =====
-- try_recv and recvFrame's loop in IOFrameSocket.cpp, over a stream socket.
use protocom.Prelude.{
  ℕ, zero, suc, ◌-◌, ◌≤◌, ◌≡◌, refl, ap, sym, ◌∙◌, subst, inl, inr, Bool, true, false, not, ◌||◌,
  List, [], ◌∷◌, ◌++◌, Option, none, some, arith, ◌==◌, length, append-nil, append_assoc,
  length-append, if◌then◌else◌, Bool-cases, Outcome-cases, Outcome, returned, threw, ◌>>=◌,
  returned-injective, some_returned-injective, not-thrown,
}
use mathlib.Core.Option.{some_inj}
use protocom.Frame.{Frame}
use protocom.Socket.{Socket, RecvResult, ReceivesStream, received, eof, recv_again, recv_failed}
use protocom.FrameSocket.{FrameSocket, after_try_recv, try_recv, recv_loop, got_frame, recv_msg}

module _ {S : Type 0} (socket : Socket S) (stream : ReceivesStream socket) where
  open stream use {incoming}

  -- What a try_recv of at most `n` bytes took.
  pub record Took (n : ℕ) (io : FrameSocket S) (x : List ℕ × FrameSocket S) : Type 0 where
    pub next_bytes : incoming io.sock ≡ x.0 ++ incoming x.1.sock
    pub at_most : length x.0 ≤ n
    pub single : length x.0 ≡ 1 → (b : ℕ) × (s : S) × (socket.recv io.sock n ≡ (received b [], s))

  after_try_recv-Took :
      (res : RecvResult) (s : S) (n : ℕ) (io : FrameSocket S) (x : List ℕ × FrameSocket S)
      → socket.recv io.sock n ≡ (res, s)
      → after_try_recv (res, s) io ≡ returned x
      → Took n io x
  unfolding after_try_recv
  after_try_recv-Took (received b bs) s n io x e h =
      let law = stream.recv_received io.sock s n b bs e in
      subst (Took n io) (returned-injective h)
        (record { next_bytes = law.0; at_most = law.1; single = one bs e })
    where
      one :
          (bs : List ℕ)
          → socket.recv io.sock n ≡ (received b bs, s)
          → length (b ∷ bs) ≡ 1
          → (c : ℕ) × (s' : S) × (socket.recv io.sock n ≡ (received c [], s'))
      one [] d l = (b, s, d)
      one (c ∷ cs) d l = absurd (omega arith)
  after_try_recv-Took eof s n io x e h = subst (Took n io) (returned-injective h) (record {
    next_bytes = sym (stream.recv_eof io.sock s n e);
    at_most = omega arith;
    single = λ l. absurd (omega arith);
  })
  after_try_recv-Took recv_again s n io x e h = subst (Took n io) (returned-injective h) (record {
    next_bytes = sym (stream.recv_idle io.sock s n e);
    at_most = omega arith;
    single = λ l. absurd (omega arith);
  })
  after_try_recv-Took recv_failed s n io x e h = absurd (cc)

  pub try_recv-Took :
      (n : ℕ) (io : FrameSocket S) (x : List ℕ × FrameSocket S)
      → try_recv socket n io ≡ returned x
      → Took n io x
  unfolding try_recv
  try_recv-Took n io x h = elim (Bool-cases (not io.conn_open || n == 0)) [
    | inl skip ↦
        subst (Took n io) (returned-injective (sym (branch skip) ∙ h))
          (record { next_bytes = refl; at_most = omega arith; single = λ l. absurd (omega arith) })
    | inr go ↦ after_try_recv-Took _ _ n io x refl (sym (branch go) ∙ h)
  ]
    where
      branch :
          {b : Bool}
          → (not io.conn_open || n == 0) ≡ b
          → try_recv socket n io
            ≡ (if b then returned ([], io) else after_try_recv (socket.recv io.sock n) io)
      branch e =
          ap (λ c. if c then returned ([], io) else after_try_recv (socket.recv io.sock n) io) e

  -- The loop appends as many bytes as it was asked for, the next ones of the stream.
  recv_loop-bytes :
      (fuel n last : ℕ) (got : List ℕ) (io : FrameSocket S) (got' : List ℕ) (last' : ℕ)
      (io' : FrameSocket S)
      → recv_loop socket fuel n last got io ≡ some (returned (some (got', last'), io'))
      → (bs : List ℕ) × (got' ≡ got ++ bs)
        × (length bs ≡ n)
        × (incoming io.sock ≡ bs ++ incoming io'.sock)
  unfolding recv_loop
  recv_loop-bytes fuel zero last got io got' last' io' h =
      let p = some_returned-injective h in
      let q = some_inj.0 (ap (λ (x : Option (List ℕ × ℕ) × FrameSocket S). x.0) p) in
      (
        [],
        sym (ap (λ (x : List ℕ × ℕ). x.0) q) ∙ sym (append-nil got),
        refl,
        ap (λ (x : Option (List ℕ × ℕ) × FrameSocket S). incoming x.1.sock) p,
      )
  recv_loop-bytes zero (suc n) last got io got' last' io' h = absurd (cc)
  recv_loop-bytes (suc fuel) (suc n) last got io got' last' io' h =
      elim (Outcome-cases (try_recv socket (suc n) io)) [
        | inl e ↦ absurd (not-thrown (sym (threw_at e) ∙ h))
        | inr (([], io₁), e) ↦
            let p =
              ap (λ (x : Option (List ℕ × ℕ) × FrameSocket S). x.0)
                (some_returned-injective (sym (nothing_at io₁ e) ∙ h)) in
            absurd (cc p)
        | inr ((b ∷ bs, io₁), e) ↦
            let t = try_recv-Took (suc n) io (b ∷ bs, io₁) e in
            let (more, all, size, next) =
              recv_loop-bytes fuel (suc n - length (b ∷ bs)) (length (b ∷ bs)) (got ++ b ∷ bs) io₁
                got' last' io' (sym (more_at b bs io₁ e) ∙ h) in
            (
              b ∷ bs ++ more,
              all ∙ append_assoc got (b ∷ bs) more,
              length-append (b ∷ bs) more ∙ omega (arith, size, t.at_most),
              t.next_bytes
                  ∙ ap (◌++◌ (b ∷ bs)) next
                  ∙ sym (append_assoc (b ∷ bs) more (incoming io'.sock)),
            )
      ]
    where
      threw_at :
          try_recv socket (suc n) io ≡ threw
          → recv_loop socket (suc fuel) (suc n) last got io ≡ some threw
      threw_at e = rw (e, recv_loop) refl

      nothing_at :
          (io₁ : FrameSocket S)
          → try_recv socket (suc n) io ≡ returned ([], io₁)
          → recv_loop socket (suc fuel) (suc n) last got io ≡ some (returned (none, io₁))
      nothing_at io₁ e = rw (e, recv_loop) refl

      more_at :
          (b : ℕ) (bs : List ℕ) (io₁ : FrameSocket S)
          → try_recv socket (suc n) io ≡ returned (b ∷ bs, io₁)
          → recv_loop socket (suc fuel) (suc n) last got io
            ≡ recv_loop socket fuel (suc n - length (b ∷ bs)) (length (b ∷ bs)) (got ++ b ∷ bs) io₁
      more_at b bs io₁ e = rw (e, recv_loop) refl

  -- A message that recvFrame accepts is as long as the length says.
  pub recv_msg-bytes :
      (f : Frame) (io : FrameSocket S) (f' : Frame) (io' : FrameSocket S)
      → recv_msg socket f io ≡ some (returned (true, (f', io')))
      → (bs : List ℕ) × (f' ≡ record f { msg = bs })
        × (length bs ≡ f.len)
        × (incoming io.sock ≡ bs ++ incoming io'.sock)
  unfolding recv_msg got_frame
  recv_msg-bytes f io f' io' h = by_loop (recv_loop socket f.len f.len 1 [] io) refl h
    where
      by_loop :
          (o : Option (Outcome (Option (List ℕ × ℕ) × FrameSocket S)))
          → recv_loop socket f.len f.len 1 [] io ≡ o
          → (elim o [
            | none ↦ none
            | some o' ↦ some (o' >>= (λ r. returned (got_frame socket f r)))
          ])
            ≡ some (returned (true, (f', io')))
          → (bs : List ℕ) × (f' ≡ record f { msg = bs })
            × (length bs ≡ f.len)
            × (incoming io.sock ≡ bs ++ incoming io'.sock)
      by_loop none e h = absurd (cc)
      by_loop (some threw) e h = absurd (not-thrown h)
      by_loop (some (returned (none, io₁))) e h =
          absurd (cc (ap (λ (x : Bool × (Frame × FrameSocket S)). x.0) (some_returned-injective h)))
      by_loop (some (returned (some (got, last), io₁))) e h = elim (Bool-cases (last == f.len)) [
        | inl one ↦
            let (bs, same, size, next) = recv_loop-bytes f.len f.len 1 [] io got last io₁ e in
            let p = some_returned-injective (
              sym (
                ap
                  (λ b. some (
                    returned
                      (if not b then (false, (f, io₁)) else (true, (record f { msg = got }, io₁)))))
                  one)
              ∙ h) in
            (
              bs,
              sym (ap (λ (x : Bool × (Frame × FrameSocket S)). x.1.0) p)
                  ∙ ap (λ (m : List ℕ). record f { msg = m }) same,
              size,
              next ∙ ap (λ (x : Bool × (Frame × FrameSocket S)). bs ++ incoming x.1.1.sock) p,
            )
        | inr other ↦
            let p = some_returned-injective (
              sym (
                ap
                  (λ b. some (
                    returned
                      (if not b then (false, (f, io₁)) else (true, (record f { msg = got }, io₁)))))
                  other)
              ∙ h) in
            absurd (cc (ap (λ (x : Bool × (Frame × FrameSocket S)). x.0) p))
      ]
