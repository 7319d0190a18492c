-- ===== src/Framer/Steps.antt =====
-- PFramer::tryRead as a whole, over a stream socket.
use protocom.Prelude.{
  ℕ, zero, suc, ◌≤◌, ◌<◌, ◌≡◌, ◌≢◌, refl, ap, ◌∙◌, sym, Bool, true, false, List, [], ◌∷◌, ◌++◌,
  arith, length, ◌⊎◌, inl, inr, returned, >>=-eq-returned, returned-injective, threw-ne-returned,
  subst, Bool-cases, ◌==◌, sub_u32,
}
use protocom.Frame.{valid_header}
use protocom.Socket.{Socket, RecvResult, ReceivesStream, received, eof, recv_again, recv_failed}
use protocom.Framer.{
  Framer, Rx, RxState, rx_header, rx_len, rx_msg, after_recv, push_frame, store_msg, got_header,
  got_len, got_msg, got, wanted, try_recv, try_read,
}
use protocom.Framer.Reference.{body}
use protocom.Framer.Refines.{
  IsValid, IsValidAt, view, Consumed, got_header-Consumed, got_len-Consumed, got_msg-Consumed,
}

-- The precondition that PFramer's length field needs: a recv of two bytes never returns just one.
abbrev pub WholeLengths : {S : Type 0} → Socket S → Type 0
WholeLengths {S} socket = (s s' : S) (b : ℕ) → socket.recv s 2 ≢ (received b [], s')

body_pending : (h n : ℕ) (done : List ℕ) → (n == 0) ≡ false → (body h n done).1 ≡ []
body_pending h zero done e = absurd (cc)
body_pending h (suc n) done e = refl

wanted_len : (st : RxState) (f : Framer) → IsValidAt st f → st ≡ rx_len → wanted st f ≡ 2
unfolding wanted
wanted_len rx_header f v e = absurd (cc)
wanted_len rx_len f v e = v.1
wanted_len rx_msg f v e = absurd (cc)

module _ {S : Type 0} where
  -- What tryRecv may change besides the bytes that it stores.
  abbrev reflag : Bool → Bool → S → Rx S → Rx S
  reflag e a s r = record r { framer = record r.framer { read_eof = e; read_again = a }; sock = s }

  reflag-IsValid :
      (st : RxState) (r : Rx S) (e a : Bool) (s : S)
      → IsValidAt st r.framer
      → IsValidAt st (reflag e a s r).framer
  reflag-IsValid rx_header r e a s v = v
  reflag-IsValid rx_len r e a s v = v
  reflag-IsValid rx_msg r e a s v = v

  reflag-Consumed :
      (st : RxState) (bs : List ℕ) (r y : Rx S) (e a : Bool) (s : S)
      → Consumed st bs (reflag e a s r) y
      → Consumed st bs r y
  reflag-Consumed rx_header bs r y e a s c = record {
    parse = c.parse;
    packets = c.packets;
    valid = c.valid;
    unlimited = c.unlimited;
    same_fd = c.same_fd;
  }
  reflag-Consumed rx_len bs r y e a s c = record {
    parse = c.parse;
    packets = c.packets;
    valid = c.valid;
    unlimited = c.unlimited;
    same_fd = c.same_fd;
  }
  reflag-Consumed rx_msg bs r y e a s c = record {
    parse = c.parse;
    packets = c.packets;
    valid = c.valid;
    unlimited = c.unlimited;
    same_fd = c.same_fd;
  }

  wanted-reflag :
      (st : RxState) (r : Rx S) (e a : Bool) (s : S)
      → wanted st (reflag e a s r).framer ≡ wanted st r.framer
  unfolding wanted
  wanted-reflag rx_header r e a s = refl
  wanted-reflag rx_len r e a s = refl
  wanted-reflag rx_msg r e a s = refl

  got-Consumed :
      (st : RxState) (bs : List ℕ) (r : Rx S)
      → r.framer.state ≡ st
      → IsValidAt st r.framer
      → r.wq.item_limit ≡ 0
      → length bs ≤ wanted st r.framer
      → (st ≡ rx_len → length bs ≢ 1)
      → Consumed st bs r (got st bs r).1
  unfolding got wanted
  got-Consumed rx_header bs r e v u k w = got_header-Consumed bs r e v u k
  got-Consumed rx_len bs r e v u k w =
      got_len-Consumed bs r e v u (zero_or_two (length bs) (omega arith) (w refl))
    where
      zero_or_two : (n : ℕ) → n ≤ 2 → n ≢ 1 → (n ≡ 0) ⊎ (n ≡ 2)
      zero_or_two n h ne = ground arith
  got-Consumed rx_msg bs r e v u k w = got_msg-Consumed bs r e v u k

  -- A call that reports progress was given bytes, and no case touches the socket.
  got-progress :
      (st : RxState) (bs : List ℕ) (r : Rx S)
      → ((got st bs r).0 ≡ true → 0 < length bs) × ((got st bs r).1.sock ≡ r.sock)
  unfolding got got_header got_len got_msg push_frame store_msg
  got-progress rx_header [] r = ((λ e. cc), refl)
  got-progress rx_header (b ∷ bs) r = ground arith
  got-progress rx_len bs r = ground arith
  got-progress rx_msg bs r = ground arith

  -- A call that reports no progress leaves no complete message behind.
  got-settled :
      (st : RxState) (bs : List ℕ) (r : Rx S)
      → r.framer.state ≡ st
      → IsValidAt st r.framer
      → (got st bs r).0 ≡ false
      → (view (got st bs r).1.framer).1 ≡ []
  unfolding got got_header got_len got_msg push_frame store_msg sub_u32
  got-settled rx_header [] r e v h = rw e refl
  got-settled rx_header (b ∷ bs) r e v h = elim (Bool-cases (valid_header b)) [
    | inl ok ↦ absurd (cc (ok, h))
    | inr bad ↦ rw (bad, e) refl
  ]
  got-settled rx_len [] r e v h = rw v.1 (rw e refl)
  got-settled rx_len (b ∷ bs) r e v h = absurd (ground arith)
  got-settled rx_msg (b ∷ bs) r e v h = absurd (ground arith)
  got-settled rx_msg [] r e v h =
      elim (Bool-cases ((store_msg [] r).framer.msg_remaining_bytes == 0)) [
        | inl z ↦ rw z refl
        | inr nz ↦ rw nz (rw e (body_pending r.framer.rxd_frame.header _ _ nz))
      ]

module _ {S : Type 0} (socket : Socket S) (stream : ReceivesStream socket) where
  open stream use {incoming}

  -- What tryRecv did: it changed the flags, and what it stored are the stream's next bytes.
  record Stored (n : ℕ) (r : Rx S) (x : List ℕ × Rx S) : Type 0 where
    e : Bool
    a : Bool
    s : S
    flags : x.1 ≡ reflag e a s r
    next_bytes : incoming r.sock ≡ x.0 ++ incoming s
    at_most : length x.0 ≤ n
    single : length x.0 ≡ 1 → (b : ℕ) × (socket.recv r.sock n ≡ (received b [], s))

  after_recv-Stored :
      (res : RecvResult) (s' : S) (n : ℕ) (r : Rx S) (x : List ℕ × Rx S)
      → socket.recv r.sock n ≡ (res, s')
      → after_recv (res, s') r ≡ returned x
      → Stored n r x
  unfolding after_recv
  after_recv-Stored (received b []) s' n r x e h =
      let law = stream.recv_received r.sock s' n b [] e in
      subst (Stored n r) (returned-injective h) (record {
        e = false;
        a = r.framer.read_again;
        s = s';
        flags = refl;
        next_bytes = law.0;
        at_most = law.1;
        single = λ one. (b, e);
      })
  after_recv-Stored (received b (c ∷ bs)) s' n r x e h =
      let law = stream.recv_received r.sock s' n b (c ∷ bs) e in
      subst (Stored n r) (returned-injective h) (record {
        e = false;
        a = r.framer.read_again;
        s = s';
        flags = refl;
        next_bytes = law.0;
        at_most = law.1;
        single = λ one. absurd (omega arith);
      })
  after_recv-Stored eof s' n r x e h = subst (Stored n r) (returned-injective h) (record {
    e = true;
    a = r.framer.read_again;
    s = s';
    flags = refl;
    next_bytes = sym (stream.recv_eof r.sock s' n e);
    at_most = omega arith;
    single = λ one. absurd (omega arith);
  })
  after_recv-Stored recv_again s' n r x e h = subst (Stored n r) (returned-injective h) (record {
    e = r.framer.read_eof;
    a = true;
    s = s';
    flags = refl;
    next_bytes = sym (stream.recv_idle r.sock s' n e);
    at_most = omega arith;
    single = λ one. absurd (omega arith);
  })
  after_recv-Stored recv_failed s' n r x e h = absurd (threw-ne-returned h)

  try_recv-Stored :
      (n : ℕ) (r : Rx S) (x : List ℕ × Rx S) → try_recv socket n r ≡ returned x → Stored n r x
  unfolding try_recv
  try_recv-Stored zero r x h = subst (Stored 0 r) (returned-injective h) (record {
    e = r.framer.read_eof;
    a = r.framer.read_again;
    s = r.sock;
    flags = refl;
    next_bytes = refl;
    at_most = omega arith;
    single = λ one. absurd (omega arith);
  })
  try_recv-Stored (suc n) r x h =
      let (res, s') = socket.recv r.sock (suc n) in after_recv-Stored res s' (suc n) r x refl h

  -- What one call of tryRead did, from `r` to `x.1` with the result `x.0`.
  pub record Read (r : Rx S) (x : Bool × Rx S) : Type 0 where
    pub bytes : List ℕ
    pub next_bytes : incoming r.sock ≡ bytes ++ incoming x.1.sock
    pub consumed : Consumed r.framer.state bytes r x.1
    pub progress : x.0 ≡ true → 0 < length bytes
    pub settled : x.0 ≡ false → (view x.1.framer).1 ≡ []

  -- Over a stream socket with whole lengths, from a valid framer and a queue without a limit: a
  -- call of tryRead that returns has taken some next bytes of the stream, has done with them what
  -- the reference parser does, has kept the invariant, has taken at least one if it returns true,
  -- and owes no packet if it returns false.
  pub try_read-Read :
      (r : Rx S) (x : Bool × Rx S)
      → WholeLengths socket
      → IsValid r.framer
      → r.wq.item_limit ≡ 0
      → try_read socket r ≡ returned x
      → Read r x
  unfolding try_read
  try_read-Read r x whole v u h =
      let ((bs, r₁), recv, got_x) =
        >>=-eq-returned (try_recv socket (wanted r.framer.state r.framer) r) _ h in
      let t = try_recv-Stored _ r (bs, r₁) recv in
      subst (Read r) (returned-injective got_x)
        (rw t.flags (read bs t.e t.a t.s t.next_bytes t.at_most t.single))
    where
      read :
          (bs : List ℕ) (e a : Bool) (s : S)
          → incoming r.sock ≡ bs ++ incoming s
          → length bs ≤ wanted r.framer.state r.framer
          → (length bs ≡ 1
              → (b : ℕ) × (socket.recv r.sock (wanted r.framer.state r.framer)
                  ≡ (received b [], s)))
          → Read r (got r.framer.state bs (reflag e a s r))
      read bs e a s next within single =
          let st = r.framer.state in
          let r₁ = reflag e a s r in
          let c =
            got-Consumed st bs r₁ refl (reflag-IsValid st r e a s v) u
              (rw (wanted-reflag st r e a s) within)
              (λ len one.
                let (b, short) = single one in
                whole r.sock s b
                  (ap (socket.recv r.sock) (sym (wanted_len st r.framer v len)) ∙ short)) in
          let p = got-progress st bs r₁ in
          record {
            bytes = bs;
            next_bytes = next ∙ ap (λ (s' : S). bs ++ incoming s') (sym p.1);
            consumed = reflag-Consumed st bs r (got st bs r₁).1 e a s c;
            progress = p.0;
            settled = got-settled st bs r₁ refl (reflag-IsValid st r e a s v);
          }
