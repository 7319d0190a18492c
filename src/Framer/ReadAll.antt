-- ===== src/Framer/ReadAll.antt =====
-- PFramer::readAll, the loop over tryRead.
use protocom.Prelude.{
  ℕ, zero, suc, ◌<◌, ◌≡◌, refl, inl, inr, ap, subst, ◌∙◌, sym, true, false, some, List, [], ◌++◌,
  map, arith, length, length-append, append_assoc, append-nil, append-right_cancel, Outcome,
  returned, threw, Outcome-cases, some_returned-injective, not-thrown,
}
use mathlib.Core.Path.{ap₂}
use mathlib.Core.List.{map-append}
use protocom.Frame.{Packet, wire_all}
use protocom.WorkQueue.{WorkQueue}
use protocom.WorkQueue
use protocom.Socket.{Socket, ReceivesStream}
use protocom.Framer.{Framer, Rx, new, reset, try_read, read_all}
use protocom.Framer
use protocom.Framer.Reference.{
  Parse, at_header, feed, feed-append, feed-wire_all, feed-nil, AllSendable,
}
use protocom.Framer.Refines.{IsValid, Consumed, Tagged, tag, item_packet, delivered, view}
use protocom.Framer.Steps.{WholeLengths, try_read-Read}

regroup_tags :
    (before : List Tagged) (fd : ℕ) (xs ys : List Packet)
    → before ++ tag fd (xs ++ ys) ≡ (before ++ tag fd xs) ++ tag fd ys
regroup_tags before fd xs ys =
    rw (map-append {B = Tagged} (λ p. (fd, p)) xs ys, append_assoc before (tag fd xs) (tag fd ys))

-- The loop by the result of its test.
module _ {S : Type 0} (socket : Socket S) (fuel : ℕ) (r : Rx S) where
  pub read_all-threw : try_read socket r ≡ threw → read_all socket (suc fuel) r ≡ some threw
  unfolding read_all
  read_all-threw e = rw (e, read_all) refl

  pub read_all-more :
      (r₁ : Rx S)
      → try_read socket r ≡ returned (true, r₁)
      → read_all socket (suc fuel) r ≡ read_all socket fuel r₁
  unfolding read_all
  read_all-more r₁ e = rw (e, read_all) refl

  pub read_all-done :
      (r₁ : Rx S)
      → try_read socket r ≡ returned (false, r₁)
      → read_all socket (suc fuel) r ≡ some (returned r₁)
  unfolding read_all
  read_all-done r₁ e = rw (e, read_all) refl

module _ {S : Type 0} (socket : Socket S) (stream : ReceivesStream socket) where
  open stream use {incoming}

  -- What a run of calls did, from `r` to `r'`.
  pub record ReadMany (r r' : Rx S) : Type 0 where
    pub bytes : List ℕ
    pub next_bytes : incoming r.sock ≡ bytes ++ incoming r'.sock
    pub consumed : Consumed r.framer.state bytes r r'
    pub settled : (view r'.framer).1 ≡ []

  one_more :
      (r r₁ r' : Rx S)
      → (bs : List ℕ) → incoming r.sock ≡ bs ++ incoming r₁.sock
      → Consumed r.framer.state bs r r₁
      → ReadMany r₁ r'
      → ReadMany r r'
  one_more r r₁ r' bs next c m =
      let p = (view r.framer).0 in
      let fd = r.framer.assoc_fd in
      let both = feed-append p bs m.bytes in
      let before = delivered r ++ tag fd (feed p bs).1 in
      record {
        bytes = bs ++ m.bytes;
        next_bytes =
            next ∙ ap (◌++◌ bs) m.next_bytes ∙ sym (append_assoc bs m.bytes (incoming r'.sock));
        consumed = record {
          parse =
              m.consumed.parse
              ∙ ap (λ (q : Parse). (feed q m.bytes).0) c.parse
              ∙ sym (ap (λ (x : Parse × List Packet). x.0) both);
          packets =
              m.consumed.packets
              ∙ ap₂ (λ (b : List Tagged) (n : ℕ). b ++ tag n (feed (view r₁.framer).0 m.bytes).1)
                  c.packets c.same_fd
              ∙ ap (λ (q : Parse). before ++ tag fd (feed q m.bytes).1) c.parse
              ∙ sym (regroup_tags (delivered r) fd (feed p bs).1 (feed (feed p bs).0 m.bytes).1)
              ∙ sym (ap (λ (x : Parse × List Packet). delivered r ++ tag fd x.1) both);
          valid = m.consumed.valid;
          unlimited = m.consumed.unlimited;
          same_fd = m.consumed.same_fd ∙ c.same_fd;
        };
        settled = m.settled;
      }

  none_more :
      (r : Rx S) → IsValid r.framer → r.wq.item_limit ≡ 0 → (view r.framer).1 ≡ [] → ReadMany r r
  none_more r v u d = record {
    settled = d;
    bytes = [];
    next_bytes = refl;
    consumed = record {
      parse = rw feed-nil refl;
      packets = rw feed-nil (sym (append-nil _));
      valid = v;
      unlimited = u;
      same_fd = refl;
    };
  }

  -- Over a stream socket with whole lengths, from a valid framer and a queue without a limit: a
  -- readAll that returns has taken some next bytes of the stream, and the state and the queue that
  -- it leaves are what the reference parser makes of these bytes, with no packet owed.
  pub read_all-ReadMany :
      (fuel : ℕ) (r r' : Rx S)
      → WholeLengths socket
      → IsValid r.framer
      → r.wq.item_limit ≡ 0
      → read_all socket fuel r ≡ some (returned r')
      → ReadMany r r'
  unfolding read_all
  read_all-ReadMany zero r r' whole v u h = absurd (cc)
  read_all-ReadMany (suc fuel) r r' whole v u h = elim (Outcome-cases (try_read socket r)) [
    | inl thrown ↦ absurd (not-thrown (sym (read_all-threw socket fuel r thrown) ∙ h))
    | inr ((true, r₁), did) ↦
        let t = try_read-Read socket stream r (true, r₁) whole v u did in
        one_more r r₁ r' t.bytes t.next_bytes t.consumed (
          read_all-ReadMany fuel r₁ r' whole t.consumed.valid t.consumed.unlimited
            (sym (read_all-more socket fuel r r₁ did) ∙ h))
    | inr ((false, r₁), did) ↦
        let t = try_read-Read socket stream r (false, r₁) whole v u did in
        one_more r r₁ r' t.bytes t.next_bytes t.consumed (
          subst (ReadMany r₁)
            (some_returned-injective (sym (read_all-done socket fuel r r₁ did) ∙ h))
            (none_more r₁ t.consumed.valid t.consumed.unlimited (t.settled refl)))
  ]

  -- Over a stream socket with whole lengths, from a valid framer and a queue without a limit: with
  -- more fuel than there are bytes to come, readAll's loop ends.
  pub read_all-ends :
      (fuel : ℕ) (r : Rx S)
      → WholeLengths socket
      → IsValid r.framer
      → r.wq.item_limit ≡ 0
      → length (incoming r.sock) < fuel
      → (o : Outcome (Rx S)) × (read_all socket fuel r ≡ some o)
  read_all-ends zero r whole v u h = absurd (omega arith)
  read_all-ends (suc fuel) r whole v u h = elim (Outcome-cases (try_read socket r)) [
    | inl thrown ↦ (threw, read_all-threw socket fuel r thrown)
    | inr ((true, r₁), did) ↦
        let t = try_read-Read socket stream r (true, r₁) whole v u did in
        let (o, ended) = read_all-ends fuel r₁ whole t.consumed.valid t.consumed.unlimited (
          omega (
            arith,
            t.progress refl,
            ap length t.next_bytes,
            length-append t.bytes (incoming r₁.sock),
          )) in
        (o, read_all-more socket fuel r r₁ did ∙ ended)
    | inr ((false, r₁), did) ↦ (returned r₁, read_all-done socket fuel r r₁ did)
  ]

  -- Over a stream socket with whole lengths, from a new connection: if readAll returns, and the
  -- bytes that it took from the stream are the wire form of some sendable packets, the queue holds
  -- exactly these packets, in order and tagged with the descriptor.
  pub read_all-delivers :
      (fuel fd : ℕ) (s : S) (r' : Rx S) (ps : List Packet)
      → WholeLengths socket
      → AllSendable ps
      → incoming s ≡ wire_all ps ++ incoming r'.sock
      → read_all socket fuel (record { framer = Framer.new fd; wq = WorkQueue.new; sock = s })
        ≡ some (returned r')
      → map item_packet r'.wq.queue ≡ tag fd ps
  unfolding Framer.new
  read_all-delivers fuel fd s r' ps whole vs e h =
      let m =
        read_all-ReadMany fuel (record { framer = Framer.new fd; wq = WorkQueue.new; sock = s }) r'
          whole refl refl h in
      let taken : m.bytes ≡ wire_all ps =
        append-right_cancel (incoming r'.sock) m.bytes (wire_all ps) (sym m.next_bytes ∙ e) in
      sym (append-nil (map item_packet r'.wq.queue))
      ∙ ap (λ (xs : List Packet). map item_packet r'.wq.queue ++ tag r'.framer.assoc_fd xs)
          (sym m.settled)
      ∙ m.consumed.packets
      ∙ ap (λ (bs : List ℕ). tag fd (feed at_header bs).1) taken
      ∙ ap (λ (x : Parse × List Packet). tag fd x.1) (feed-wire_all ps vs)
