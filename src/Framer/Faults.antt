-- ===== src/Framer/Faults.antt =====
-- PFramer::tryRead and a length that comes in two pieces, and a message of length 0.
use protocom.Prelude.{
  ℕ, suc, ◌+◌, ◌*◌, ◌<◌, ◌≡◌, ◌↔◌, refl, ap, if-in, ◌∙◌, true, false, [], ◌∷◌, ◌++◌, some, arith,
  returned, ntohs, store_len, sub_u32,
}
use protocom.Frame
use protocom.Frame.{Frame, valid_header}
use protocom.Socket.{Socket, ReceivesStream, received}
use protocom.WorkQueue.{WorkQueue}
use protocom.WorkQueue.Fifo.{push_item-queue}
use protocom.Framer.{
  Rx, rx_header, rx_len, rx_msg, push_frame, store_msg, got_len, got_msg, try_read, read_all,
}
use protocom.Framer.ReadAll.{read_all-more, read_all-done}

-- What tryRecv leaves when recv gave it bytes.
abbrev received_at : {S : Type 0} → S → Rx S → Rx S
received_at s r = record r { framer = record r.framer { read_eof = false }; sock = s }

alloc_msg-header : (f : Frame) → (Frame.alloc_msg f).header ≡ f.header
alloc_msg-header f =
    if-in (λ (g : Frame). g.header ≡ f.header) f.has_dynamic_data _ _ (λ _. refl) (λ _. refl)

alloc_msg-len : (f : Frame) → (Frame.alloc_msg f).len ≡ f.len
alloc_msg-len f =
    if-in (λ (g : Frame). g.len ≡ f.len) f.has_dynamic_data _ _ (λ _. refl) (λ _. refl)

module _ {S : Type 0} (socket : Socket S) where
  -- Where a framer waits for a length, and the socket gives the length's bytes `a` and `b` one at
  -- a time, two calls of tryRead make progress, and the framer goes on with a message of `a`
  -- bytes, whatever `b` is.
  pub split_length :
      (r : Rx S) (a b : ℕ) (s₁ s₂ : S)
      → r.framer.state ≡ rx_len
      → r.framer.len_remaining_bytes ≡ 2
      → r.framer.rxd_frame.len ≡ 0
      → a < 256
      → socket.recv r.sock 2 ≡ (received a [], s₁)
      → socket.recv s₁ 1 ≡ (received b [], s₂)
      → (r₁ : Rx S) × (r₂ : Rx S) × (try_read socket r ≡ returned (true, r₁))
        × (try_read socket r₁ ≡ returned (true, r₂))
        × (r₂.framer.state ≡ rx_msg)
        × (r₂.framer.rxd_frame.len ≡ a)
        × (r₂.framer.msg_remaining_bytes ≡ a)
  unfolding try_read ntohs store_len sub_u32
  split_length r a b s₁ s₂ st rem len h e₁ e₂ =
      let r₁ : Rx S = (got_len (a ∷ []) (received_at s₁ r)).1 in
      let r₂ : Rx S = (got_len (b ∷ []) (received_at s₂ r₁)).1 in
      (r₁, r₂, ground arith, ground arith, ground arith, ground arith, ground arith)

  -- That is the length that was sent only if both bytes are 0.
  pub split_length-wrong : (a b : ℕ) → (a ≡ a * 256 + b) ↔ ((a ≡ 0) × (b ≡ 0))
  split_length-wrong a b = ((λ e. omega arith), (λ e. omega arith))

  -- The steps of a frame of length 0, the last of which makes no call of recv.
  at_len : ℕ → Rx S → Rx S
  at_len h r = record r {
    framer = record r.framer {
      rxd_frame = record r.framer.rxd_frame { header = h };
      state = rx_len;
      len_remaining_bytes = 2;
    };
  }

  try_read-header :
      (r : Rx S) (h : ℕ) (s₁ : S)
      → r.framer.state ≡ rx_header
      → valid_header h ≡ true
      → socket.recv r.sock 1 ≡ (received h [], s₁)
      → try_read socket r ≡ returned (true, at_len h (received_at s₁ r))
  unfolding try_read at_len
  try_read-header r h s₁ st valid e = rw (st, e, valid) refl

  try_read-zero :
      (r : Rx S) (s₂ : S)
      → r.framer.state ≡ rx_len
      → r.framer.len_remaining_bytes ≡ 2
      → socket.recv r.sock 2 ≡ (received 0 (0 ∷ []), s₂)
      → try_read socket r ≡ returned (true, (got_len (0 ∷ 0 ∷ []) (received_at s₂ r)).1)
  unfolding try_read
  try_read-zero r s₂ st two e = rw (st, two, e) refl

  try_read-empty :
      (r : Rx S)
      → r.framer.state ≡ rx_msg
      → r.framer.msg_remaining_bytes ≡ 0
      → try_read socket r ≡ returned (false, (got_msg [] r).1)
  unfolding try_read
  try_read-empty r st none_left = rw (st, none_left) refl

  -- At the start of a frame, with no limit on the queue, where the socket gives a valid header `h`
  -- and then a length of 0: readAll queues a frame of this header and of length 0, and stops, ready
  -- for the next frame. It has made no further call of recv: the socket is the one behind the length,
  -- and whatever follows these three bytes on the stream is still to come.
  pub read_all-stops_after_empty :
      (stream : ReceivesStream socket) (fuel : ℕ) (r : Rx S) (h : ℕ) (s₁ s₂ : S)
      → r.framer.state ≡ rx_header
      → r.wq.item_limit ≡ 0
      → valid_header h ≡ true
      → socket.recv r.sock 1 ≡ (received h [], s₁)
      → socket.recv s₁ 2 ≡ (received 0 (0 ∷ []), s₂)
      → (r' : Rx S) × (f : Frame) × (read_all socket (suc (suc (suc fuel))) r ≡ some (returned r'))
        × (r'.wq.queue ≡ r.wq.queue ++ (r.framer.assoc_fd, f) ∷ [])
        × (f.header ≡ h)
        × (f.len ≡ 0)
        × (r'.framer.state ≡ rx_header)
        × (r'.sock ≡ s₂)
        × (stream.incoming r.sock ≡ h ∷ 0 ∷ 0 ∷ stream.incoming r'.sock)
  unfolding at_len got_len got_msg store_msg ntohs store_len sub_u32 push_frame
  read_all-stops_after_empty stream fuel r h s₁ s₂ st unlimited valid e₁ e₂ =
      let r₁ : Rx S = at_len h (received_at s₁ r) in
      let r₂ : Rx S = (got_len (0 ∷ 0 ∷ []) (received_at s₂ r₁)).1 in
      let r₃ : Rx S = (got_msg [] r₂).1 in
      let sized = record r.framer.rxd_frame { header = h; len = 0 } in
      (
        r₃,
        (store_msg [] r₂).framer.rxd_frame,
        read_all-more socket (suc (suc fuel)) r r₁ (try_read-header r h s₁ st valid e₁)
            ∙ read_all-more socket (suc fuel) r₁ r₂ (try_read-zero r₁ s₂ refl refl e₂)
            ∙ read_all-done socket fuel r₂ r₃ (try_read-empty r₂ refl refl),
        ap (λ (q : WorkQueue). q.queue) (push_item-queue _ r.wq unlimited),
        alloc_msg-header sized,
        alloc_msg-len sized,
        refl,
        refl,
        (stream.recv_received r.sock s₁ 1 h [] e₁).0
            ∙ ap (◌∷◌ h) (stream.recv_received s₁ s₂ 2 0 (0 ∷ []) e₂).0,
      )
