-- ===== src/Server/Servable.antt =====
-- The reading and the writing of one connection: they end, and keep what the next ones rely on.
use protocom.Prelude.{
  ℕ, ◌-◌, ◌≡◌, ◌≤◌, ◌<◌, refl, ap, Bool, true, false, List, [], ◌∷◌, Option, none, some, arith,
  length, length-append, length-drop, if-in, if◌then◌else◌, Outcome, returned, threw, after, Leaves,
  Leaves-map, Leaves-returned, if-Leaves,
}
use protocom.Frame.{Frame}
use protocom.WorkQueue.{WorkItem, WorkQueue}
use protocom.Socket.{Socket, ReceivesStream, SendsStream}
use protocom.Framer.{Rx, read_all}
use protocom.Framer.Refines as Reading
use protocom.Framer.Steps.{WholeLengths}
use protocom.Framer.ReadAll.{read_all-ends, read_all-ReadMany}
use protocom.Deframer.{
  TxState, tx_header, tx_len, tx_msg, Deframer, Tx, Memory, set_sent_item, write_all,
}
use protocom.Deframer.Refines as Writing
use protocom.Deframer.Refines.{WholeSends, rest, rest_at, IsValidAt}
use protocom.Deframer.WriteAll.{write_all-ends, write_all-Sent}
use protocom.Deframer.Apart.{SendsApart, write_all-Keeps}
use protocom.Server.State.{ConnectionContext}
use protocom.Server.Clients.{Accept, accept_aborted, accept_failed, accepted}
use protocom.Server.Loop.{was_read, was_written, read_from, write_to, handle_writable, if_writable}

-- A loop that has enough fuel.
abbrev pub Ends {ℓ} : {A : Type ℓ} → Option (Outcome A) → Type ℓ
Ends {A} m = (o : Outcome A) × (m ≡ some o)

pub Ends-after :
    {A B : Type 0} (m : Option (Outcome A)) (f : A → Option (Outcome B))
    → Ends m
    → ((a : A) → m ≡ some (returned a) → Ends (f a))
    → Ends (after m f)
Ends-after none f (o, e) k = absurd (cc)
Ends-after (some threw) f (o, e) k = (threw, refl)
Ends-after (some (returned a)) f (o, e) k = k a refl

pub Ends-if :
    {A : Type 0} (b : Bool) (m n : Option (Outcome A))
    → (b ≡ true → Ends m)
    → (b ≡ false → Ends n)
    → Ends (if b then m else n)
Ends-if true m n f g = f refl
Ends-if false m n f g = g refl

-- A frame of its true length, as setSentItem takes it.
abbrev pub IsWhole : Frame → Type 0
IsWhole f = (length f.msg ≡ f.len) × (f.len < 65536)

abbrev pub AllWhole : List WorkItem → Type 0
AllWhole [] = Unit {0}
AllWhole ((k, f) ∷ items) = IsWhole f × AllWhole items

pub set_sent_item-busy :
    (itm : WorkItem) (d : Deframer) → (set_sent_item itm d).0 ≡ true → d.write_in_progress ≡ false
unfolding set_sent_item
set_sent_item-busy (k, f) d e = ground (arith, e)

bounded_at : (st : TxState) (d : Deframer) → IsValidAt st d → length (rest_at st d) < 65540
bounded_at tx_header d (full, fits) = omega (arith, full, fits)
bounded_at tx_len d (full, fits, two) = omega (arith, full, fits)
bounded_at tx_msg d (full, fits, left) =
    omega (arith, full, fits, length-drop (d.txd_frame.len - d.msg_remaining_bytes) d.txd_frame.msg)

-- A valid deframer has no more to send than a frame of the largest length.
rest-bounded : (d : Deframer) → Writing.IsValid d → length (rest d) < 65540
rest-bounded d v =
    if-in (λ (bs : List ℕ). length bs < 65540) d.write_in_progress (rest_at d.state d) []
      (λ busy. bounded_at d.state d (v busy)) (λ free. omega arith)

module _ {S : Type 0} (socket : Socket S) (mem : Memory) (receives : ReceivesStream socket)
    (sends : SendsStream socket) (fuel : ℕ) where
  open receives use {incoming}

  -- A connection in order, whose bytes to come the fuel is enough for.
  pub record IsServable (k : ℕ) (c : ConnectionContext S) : Type 0 where
    pub framer_valid : Reading.IsValid c.framer
    pub deframer_valid : Writing.IsValid c.deframer
    pub enough_in : length (incoming c.sock) < fuel

  -- A new connection has no more to come than the fuel is enough for.
  abbrev pub IsShort : Accept S → Type 0
  IsShort accept_aborted = Unit {0}
  IsShort accept_failed = Unit {0}
  IsShort (accepted k sock registered) = length (incoming sock) < fuel

  module _ (lengths : WholeLengths socket) (whole : WholeSends socket)
      (apart : SendsApart socket receives) where
    pub write_to-Ends :
        (c : ConnectionContext S)
        → Writing.IsValid c.deframer
        → 65540 ≤ fuel
        → Ends (write_to socket mem fuel c)
    unfolding write_to
    write_to-Ends c valid enough =
        let t : Tx S = record { deframer = c.deframer; sock = c.sock } in
        Ends-after (write_all socket mem fuel t) (λ x. some (returned (was_written c x)))
          (write_all-ends socket mem sends fuel t whole valid
            (omega (arith, enough, rest-bounded c.deframer valid)))
          (λ x e. (_, refl))

    pub read_from-Ends :
        (c : ConnectionContext S) (wq : WorkQueue)
        → Reading.IsValid c.framer
        → wq.item_limit ≡ 0
        → length (incoming c.sock) < fuel
        → Ends (read_from socket mem fuel c wq)
    unfolding read_from
    read_from-Ends c wq valid unlimited enough =
        let r : Rx S = record { framer = c.framer; wq = wq; sock = c.sock } in
        Ends-after (read_all socket fuel r) (λ x. some (returned (was_read c x)))
          (read_all-ends socket receives fuel r lengths valid unlimited enough) (λ x e. (_, refl))

    pub if_writable-Ends :
        (b : Bool) (k : ℕ) (c : ConnectionContext S)
        → IsServable k c
        → 65540 ≤ fuel
        → Ends (if_writable socket mem fuel b c)
    unfolding if_writable handle_writable
    if_writable-Ends false k c v enough = (_, refl)
    if_writable-Ends true k c v enough =
        Ends-if c.deframer.write_in_progress _ _ (λ busy. write_to-Ends c v.deframer_valid enough)
          (λ free. (_, refl))

    -- What the writing leaves of a connection's other direction.
    abbrev pub SameIn : ConnectionContext S → ConnectionContext S → Type 0
    SameIn c c' = (c'.framer ≡ c.framer) × (incoming c'.sock ≡ incoming c.sock)

    pub if_writable-SameIn :
        (b : Bool) (c : ConnectionContext S) → Leaves (SameIn c) (if_writable socket mem fuel b c)
    unfolding if_writable handle_writable write_to
    if_writable-SameIn false c = (refl, refl)
    if_writable-SameIn true c =
        let t : Tx S = record { deframer = c.deframer; sock = c.sock } in
        if-Leaves (SameIn c) c.deframer.write_in_progress _ _
          (λ busy. Leaves-map (SameIn c) (write_all socket mem fuel t) (was_written c) (λ x e. (
            refl,
            Leaves-returned (λ (y : Bool × Tx S). incoming y.1.sock ≡ incoming c.sock)
                (write_all socket mem fuel t) x e
                (write_all-Keeps socket mem receives apart fuel t),
          )))
          (λ free. (refl, refl))

    pub write_to-Servable :
        (k : ℕ) (c : ConnectionContext S)
        → IsServable k c
        → Leaves (IsServable k) (write_to socket mem fuel c)
    unfolding write_to
    write_to-Servable k c v =
        let t : Tx S = record { deframer = c.deframer; sock = c.sock } in
        Leaves-map (IsServable k) (write_all socket mem fuel t) (was_written c) (λ x e.
          let same =
            Leaves-returned (λ (y : Bool × Tx S). incoming y.1.sock ≡ incoming c.sock)
              (write_all socket mem fuel t) x e
              (write_all-Keeps socket mem receives apart fuel t) in
          record {
            framer_valid = v.framer_valid;
            deframer_valid =
                (write_all-Sent socket mem sends fuel t x whole v.deframer_valid e).0.valid;
            enough_in = omega (arith, ap length same, v.enough_in);
          })

    pub if_writable-Servable :
        (b : Bool) (k : ℕ) (c : ConnectionContext S)
        → IsServable k c
        → Leaves (IsServable k) (if_writable socket mem fuel b c)
    unfolding if_writable handle_writable
    if_writable-Servable false k c v = v
    if_writable-Servable true k c v =
        if-Leaves (IsServable k) c.deframer.write_in_progress _ _ (λ busy. write_to-Servable k c v)
          (λ free. record {
            framer_valid = v.framer_valid;
            deframer_valid = v.deframer_valid;
            enough_in = v.enough_in;
          })

    pub read_from-Servable :
        (k : ℕ) (c : ConnectionContext S) (wq : WorkQueue)
        → IsServable k c
        → wq.item_limit ≡ 0
        → Leaves
            (λ (x : ConnectionContext S × WorkQueue). IsServable k x.0 × (x.1.item_limit ≡ 0))
            (read_from socket mem fuel c wq)
    unfolding read_from
    read_from-Servable k c wq v unlimited =
        let r : Rx S = record { framer = c.framer; wq = wq; sock = c.sock } in
        Leaves-map
          (λ (x : ConnectionContext S × WorkQueue). IsServable k x.0 × (x.1.item_limit ≡ 0))
          (read_all socket fuel r) (was_read c)
          (λ r' e.
            let m =
              read_all-ReadMany socket receives fuel r r' lengths v.framer_valid unlimited e in
            (
              record {
                framer_valid = m.consumed.valid;
                deframer_valid = v.deframer_valid;
                enough_in = omega (
                  arith,
                  ap length m.next_bytes,
                  length-append m.bytes (incoming r'.sock),
                  v.enough_in,
                );
              },
              m.consumed.unlimited,
            ))
