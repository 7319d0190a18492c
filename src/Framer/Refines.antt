-- ===== src/Framer/Refines.antt =====
-- The cases of PFramer::tryRead against the reference parser, and the invariant.
use protocom.Prelude.{
  ℕ, ◌+◌, ◌-◌, ◌*◌, ◌%◌, ◌≤◌, ◌<◌, ◌≡◌, refl, ap, ◌∙◌, sym, false, List, [], ◌∷◌, ◌++◌, map, arith,
  length, Bool-cases, ◌==◌, ==_iff, ◌⊎◌, inl, inr, take, take_all, write_at, replicate,
  length-replicate, append_assoc, append-nil, ntohs, ntohs-lt, ntohs-store_len, store_len, sub_u32,
  sub_u32_lem,
}
use protocom.Frame.{Packet, packet, valid_header}
use mathlib.Core.List.{map-append}
use protocom.WorkQueue.{WorkQueue, WorkItem}
use protocom.WorkQueue.Fifo.{push_item-queue}
use protocom.Framer.{
  Framer, Rx, RxState, rx_header, rx_len, rx_msg, push_frame, got_header, got_len, got_msg,
  store_msg,
}
use protocom.Framer.Chunks.{entered, stored_chunk, length-write_at}
use protocom.Framer.Reference.{
  Parse, at_header, at_len, body, feed, feed_header-valid, feed_header-invalid, feed-len, feed-nil,
}

-- What each state says of the length counters and of the buffer.
abbrev pub IsValidAt : RxState → Framer → Type 0
IsValidAt rx_header f = f.rxd_frame.has_dynamic_data ≡ false
IsValidAt rx_len f = (f.rxd_frame.has_dynamic_data ≡ false) × (f.len_remaining_bytes ≡ 2)
IsValidAt rx_msg f =
    (length f.rxd_frame.msg ≡ f.rxd_frame.len)
    × (f.msg_remaining_bytes ≤ f.rxd_frame.len)
    × (f.rxd_frame.len < 65536)
    × (f.msg_remaining_bytes ≡ 0 → f.rxd_frame.len ≡ 0)

abbrev pub IsValid : Framer → Type 0
IsValid f = IsValidAt f.state f

-- The parser's state that a framer stands for. A message of length 0 is complete before the call
-- that pushes it, and is owed until then.
abbrev pub view_at : RxState → Framer → Parse × List Packet
view_at rx_header f = (at_header, [])
view_at rx_len f = (at_len f.rxd_frame.header, [])
view_at rx_msg f =
    body f.rxd_frame.header f.msg_remaining_bytes
      (take (f.rxd_frame.len - f.msg_remaining_bytes) f.rxd_frame.msg)

abbrev pub view : Framer → Parse × List Packet
view f = view_at f.state f

abbrev pub Tagged : Type 0
Tagged = ℕ × Packet

abbrev pub tag : ℕ → List Packet → List Tagged
tag fd = map (λ p. (fd, p))

abbrev pub item_packet : WorkItem → Tagged
item_packet (fd, f) = (fd, packet f)

-- What a framer has delivered: the queue, and the packet that it owes.
abbrev pub delivered_at : {S : Type 0} → RxState → Rx S → List Tagged
delivered_at st r = map item_packet r.wq.queue ++ tag r.framer.assoc_fd (view_at st r.framer).1

abbrev pub delivered : {S : Type 0} → Rx S → List Tagged
delivered r = delivered_at r.framer.state r

regroup :
    (f : WorkItem → Tagged) (q : List WorkItem) (fd : ℕ) (xs ys : List Packet)
    → map f q ++ tag fd (xs ++ ys) ≡ (map f q ++ tag fd xs) ++ tag fd ys
regroup f q fd xs ys =
    rw
      (map-append {B = Tagged} (λ p. (fd, p)) xs ys, append_assoc (map f q) (tag fd xs) (tag fd ys))

module _ {S : Type 0} where
  -- From `r`, read as in the state `st`, the bytes `bs` lead to `r'` as they lead the parser on.
  pub record Consumed (st : RxState) (bs : List ℕ) (r r' : Rx S) : Type 0 where
    pub parse : (view r'.framer).0 ≡ (feed (view_at st r.framer).0 bs).0
    pub packets :
        delivered r'
        ≡ delivered_at st r ++ tag r.framer.assoc_fd (feed (view_at st r.framer).0 bs).1
    pub valid : IsValid r'.framer
    pub unlimited : r'.wq.item_limit ≡ 0
    pub same_fd : r'.framer.assoc_fd ≡ r.framer.assoc_fd

  pub got_header-Consumed :
      (bs : List ℕ) (r : Rx S)
      → r.framer.state ≡ rx_header
      → IsValidAt rx_header r.framer
      → r.wq.item_limit ≡ 0
      → length bs ≤ 1
      → Consumed rx_header bs r (got_header bs r).1
  unfolding got_header
  got_header-Consumed [] r e v u k = record {
    parse = rw (e, feed-nil at_header);
    packets = rw (e, feed-nil at_header) (sym (append-nil _));
    valid = rw e v;
    unlimited = u;
    same_fd = refl;
  }
  got_header-Consumed (b ∷ []) r e v u k = elim (Bool-cases (valid_header b)) [
    | inl ok ↦ rw ok (record {
      parse = rw (feed_header-valid b ok);
      packets = rw (feed_header-valid b ok) (sym (append-nil _));
      valid = (v, refl);
      unlimited = u;
      same_fd = refl;
    })
    | inr bad ↦ rw bad (record {
      parse = rw (e, feed_header-invalid b bad);
      packets = rw (e, feed_header-invalid b bad) (sym (append-nil _));
      valid = rw e v;
      unlimited = u;
      same_fd = refl;
    })
  ]
  got_header-Consumed (b ∷ c ∷ bs) r e v u k = absurd (omega arith)

  -- The hypothesis on `bs`: the two bytes of the length come in one piece, or not yet.
  pub got_len-Consumed :
      (bs : List ℕ) (r : Rx S)
      → r.framer.state ≡ rx_len
      → IsValidAt rx_len r.framer
      → r.wq.item_limit ≡ 0
      → (length bs ≡ 0) ⊎ (length bs ≡ 2)
      → Consumed rx_len bs r (got_len bs r).1
  unfolding got_len sub_u32
  got_len-Consumed [] r e v u k = rw v.1 (record {
    parse = rw (e, feed-nil (at_len r.framer.rxd_frame.header));
    packets = rw (e, feed-nil (at_len r.framer.rxd_frame.header)) (sym (append-nil _));
    valid = rw e (v.0, refl);
    unlimited = u;
    same_fd = refl;
  })
  got_len-Consumed (a ∷ []) r e v u k =
      absurd (elim k [ inl z ↦ omega arith | inr z ↦ omega arith ])
  got_len-Consumed (a ∷ b ∷ []) r e v u k =
      rw (v.1, v.0)
        (let n = ntohs (store_len (a ∷ b ∷ []) r.framer.rxd_frame.len) in
          let h = r.framer.rxd_frame.header in
          let fits : n < 65536 = ntohs-lt (store_len (a ∷ b ∷ []) r.framer.rxd_frame.len) in
          let seen =
            entered h n (a % 256 * 256 + b % 256) (replicate n 0)
              (ntohs-store_len a b r.framer.rxd_frame.len)
            ∙ sym (feed-len h a b) in
          record {
            parse = ap (λ (x : Parse × List Packet). x.0) seen;
            packets =
                ap
                  (λ (x : Parse × List Packet).
                    map item_packet r.wq.queue ++ tag r.framer.assoc_fd x.1)
                  seen
                ∙ sym (
                    ap
                      (λ (xs : List Tagged).
                        xs ++ tag r.framer.assoc_fd (feed (at_len h) (a ∷ b ∷ [])).1)
                      (append-nil (map item_packet r.wq.queue)));
            valid = (length-replicate n 0, omega arith, fits, λ z. z);
            unlimited = u;
            same_fd = refl;
          })
  got_len-Consumed (a ∷ b ∷ c ∷ bs) r e v u k =
      absurd (elim k [ inl z ↦ omega arith | inr z ↦ omega arith ])

  -- A packet owed is the packet that the push queues.
  push_frame-Consumed :
      (r : Rx S)
      → length r.framer.rxd_frame.msg ≡ r.framer.rxd_frame.len
      → r.framer.msg_remaining_bytes ≡ 0
      → r.wq.item_limit ≡ 0
      → ((view (push_frame r).framer).0 ≡ (view_at rx_msg r.framer).0)
        × (delivered (push_frame r) ≡ delivered_at rx_msg r)
        × IsValid (push_frame r).framer
        × ((push_frame r).wq.item_limit ≡ 0)
        × ((push_frame r).framer.assoc_fd ≡ r.framer.assoc_fd)
  unfolding push_frame
  push_frame-Consumed r full z u =
      let i : WorkItem = (r.framer.assoc_fd, r.framer.rxd_frame) in
      let e = push_item-queue i r.wq u in
      let m = r.framer.rxd_frame in
      let whole : body m.header r.framer.msg_remaining_bytes
            (take (m.len - r.framer.msg_remaining_bytes) m.msg)
          ≡ body m.header 0 m.msg =
        rw z (ap (body m.header 0) (take_all (m.len - 0) m.msg (omega arith))) in
      (
        sym (ap (λ (x : Parse × List Packet). x.0) whole),
        append-nil _
            ∙ ap (λ (w : WorkQueue). map item_packet w.queue) e
            ∙ map-append item_packet r.wq.queue (i ∷ [])
            ∙ sym (
                ap
                  (λ (x : Parse × List Packet).
                    map item_packet r.wq.queue ++ tag r.framer.assoc_fd x.1)
                  whole),
        refl,
        ap (λ (w : WorkQueue). w.item_limit) e ∙ u,
        refl,
      )

  -- The buffer and the count behind a chunk, before a complete message is pushed.
  store_msg_lem :
      (bs : List ℕ) (r : Rx S)
      → IsValidAt rx_msg r.framer
      → length bs ≤ r.framer.msg_remaining_bytes
      → let r' = store_msg bs r in
        ((view_at rx_msg r'.framer).0 ≡ (feed (view_at rx_msg r.framer).0 bs).0)
        × (delivered_at rx_msg r'
            ≡ delivered_at rx_msg r
              ++ tag r.framer.assoc_fd (feed (view_at rx_msg r.framer).0 bs).1)
        × (length r'.framer.rxd_frame.msg ≡ r'.framer.rxd_frame.len)
        × (r'.framer.msg_remaining_bytes ≤ r'.framer.rxd_frame.len)
  unfolding store_msg
  store_msg_lem bs r (full, within, fits, _) k =
      let f = r.framer in
      let m = f.rxd_frame in
      let off = m.len - f.msg_remaining_bytes in
      let rem : sub_u32 f.msg_remaining_bytes (length bs) ≡ f.msg_remaining_bytes - length bs =
        sub_u32_lem f.msg_remaining_bytes (length bs) k (omega arith) in
      let seen : body m.header (sub_u32 f.msg_remaining_bytes (length bs))
            (take (m.len - sub_u32 f.msg_remaining_bytes (length bs)) (write_at off bs m.msg))
          ≡ body m.header (f.msg_remaining_bytes - length bs)
              (take (off + length bs) (write_at off bs m.msg)) =
        rw rem (
          ap
            (λ (n : ℕ).
              body m.header (f.msg_remaining_bytes - length bs) (take n (write_at off bs m.msg)))
            (omega arith)) in
      let (p, out) = stored_chunk m.header off f.msg_remaining_bytes bs m.msg (omega arith) k in
      (
        ap (λ (x : Parse × List Packet). x.0) seen ∙ p,
        ap (λ (xs : List Packet). map item_packet r.wq.queue ++ tag f.assoc_fd xs)
              (ap (λ (x : Parse × List Packet). x.1) seen ∙ out)
            ∙ regroup item_packet r.wq.queue f.assoc_fd (view_at rx_msg f).1
                (feed (view_at rx_msg f).0 bs).1,
        length-write_at off bs m.msg (omega arith) ∙ full,
        omega (arith, rem),
      )

  pub got_msg-Consumed :
      (bs : List ℕ) (r : Rx S)
      → r.framer.state ≡ rx_msg
      → IsValidAt rx_msg r.framer
      → r.wq.item_limit ≡ 0
      → length bs ≤ r.framer.msg_remaining_bytes
      → Consumed rx_msg bs r (got_msg bs r).1
  unfolding got_msg
  got_msg-Consumed bs r e v u k =
      let r' = store_msg bs r in
      let (p, out, full, within) = store_msg_lem bs r v k in
      elim (Bool-cases (r'.framer.msg_remaining_bytes == 0)) [
        | inl z ↦
            let (p', out', v', u', fd') = push_frame-Consumed r' full (ground arith) u in
            rw z (record {
              parse = p' ∙ p;
              packets = out' ∙ out;
              valid = v';
              unlimited = u';
              same_fd = fd';
            })
        | inr nz ↦ rw nz (record {
          parse = rw e p;
          packets = rw e out;
          valid = rw e (
            full,
            within,
            v.2,
            λ (y : (store_msg bs r).framer.msg_remaining_bytes ≡ 0).
                cc (nz, (==_iff (store_msg bs r).framer.msg_remaining_bytes 0).1 y),
          );
          unlimited = u;
          same_fd = refl;
        })
      ]
