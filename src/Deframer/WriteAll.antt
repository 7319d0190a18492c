-- ===== src/Deframer/WriteAll.antt =====
-- PDeframer::writeAll, the loop over tryWrite.
use protocom.Prelude.{
  ℕ, zero, suc, ◌<◌, ◌≡◌, refl, inl, inr, ap, subst, ◌∙◌, sym, Bool, true, false, not, some, [],
  ◌++◌, arith, length, append-nil, Outcome, returned, threw, returned-injective, Outcome-cases,
  Bool-cases, some_returned-injective, not-thrown, take_all, if◌then◌else◌,
}
use protocom.Frame
use protocom.Frame.{Frame, packet, wire}
use protocom.Socket.{Socket, SendsStream}
use protocom.Deframer.{
  Deframer, Tx, tx_header, Memory, try_write, write_all, set_sent_item, write_step,
}
use protocom.Deframer.Refines.{rest, rest_at, IsValid, WholeSends, write_step-Wrote}

module _ {S : Type 0} (socket : Socket S) (mem : Memory) (fuel : ℕ) (t : Tx S) where
  write_all-threw : try_write socket mem t ≡ threw → write_all socket mem (suc fuel) t ≡ some threw
  unfolding write_all
  write_all-threw e = rw (e, write_all) refl

  write_all-more :
      (t₁ : Tx S)
      → try_write socket mem t ≡ returned (true, t₁)
      → write_all socket mem (suc fuel) t ≡ write_all socket mem fuel t₁
  unfolding write_all
  write_all-more t₁ e = rw (e, write_all) refl

  write_all-done :
      (t₁ : Tx S)
      → try_write socket mem t ≡ returned (false, t₁)
      → write_all socket mem (suc fuel) t ≡ some (returned (not t₁.deframer.write_in_progress, t₁))
  unfolding write_all
  write_all-done t₁ e = rw (e, write_all) refl

rest_busy : (d : Deframer) → d.write_in_progress ≡ true → rest d ≡ rest_at d.state d
rest_busy d w = ap (λ (b : Bool). if b then rest_at d.state d else []) w

module _ {S : Type 0} (socket : Socket S) (mem : Memory) (t : Tx S) where
  try_write-busy :
      t.deframer.write_in_progress ≡ true
      → try_write socket mem t ≡ write_step socket mem t.deframer.state t
  unfolding try_write
  try_write-busy w =
      ap (λ (b : Bool). if b then write_step socket mem t.deframer.state t else returned (false, t))
        w

  try_write-idle :
      t.deframer.write_in_progress ≡ false → try_write socket mem t ≡ returned (false, t)
  unfolding try_write
  try_write-idle w =
      ap (λ (b : Bool). if b then write_step socket mem t.deframer.state t else returned (false, t))
        w

-- The deframer that a successful setSentItem leaves.
abbrev pub started : ℕ → Frame → Deframer → Deframer
started fd f d = record {
  state = tx_header;
  msg_remaining_bytes = 0;
  len_remaining_bytes = 0;
  txd_frame = Frame.copy f;
  write_in_progress = true;
  write_eof = false;
  write_again = false;
  assoc_fd = some fd;
}

pub set_sent_item-idle :
    (fd : ℕ) (f : Frame) (d : Deframer)
    → d.write_in_progress ≡ false
    → set_sent_item (fd, f) d ≡ (true, started fd f d)
unfolding set_sent_item
set_sent_item-idle fd f d w = ap (λ (b : Bool). if b then (false, d) else (true, started fd f d)) w

not-rest : (d : Deframer) → true ≡ not d.write_in_progress → rest d ≡ []
not-rest d e = ground arith

module _ {S : Type 0} (socket : Socket S) (mem : Memory) (stream : SendsStream socket) where
  open stream use {outgoing}

  -- What has gone out and what is still to be sent stay the same bytes together.
  pub record Sent (t t' : Tx S) : Type 0 where
    pub kept : outgoing t.sock ++ rest t.deframer ≡ outgoing t'.sock ++ rest t'.deframer
    pub valid : IsValid t'.deframer

  pub try_write-Sent :
      (t : Tx S) (x : Bool × Tx S)
      → WholeSends socket
      → IsValid t.deframer
      → try_write socket mem t ≡ returned x
      → Sent t x.1 × (x.0 ≡ true → length (rest x.1.deframer) < length (rest t.deframer))
  try_write-Sent t x whole v y = elim (Bool-cases t.deframer.write_in_progress) [
    | inl w ↦
        let c =
          write_step-Wrote socket mem stream t.deframer.state t x whole refl w (v w)
            (sym (try_write-busy socket mem t w) ∙ y) in
        let r = rest_busy t.deframer w in
        (
          record { kept = ap (◌++◌ (outgoing t.sock)) r ∙ c.kept; valid = c.valid },
          λ more. omega (arith, c.progress more, ap length r),
        )
    | inr w ↦
        let same = returned-injective (sym (try_write-idle socket mem t w) ∙ y) in
        subst
          (λ (z : Bool × Tx S).
            Sent t z.1 × (z.0 ≡ true → length (rest z.1.deframer) < length (rest t.deframer)))
          same (record { kept = refl; valid = v }, λ c. absurd (cc))
  ]

  trans-Sent : (t t₁ t₂ : Tx S) → Sent t t₁ → Sent t₁ t₂ → Sent t t₂
  trans-Sent t t₁ t₂ a b = record { kept = a.kept ∙ b.kept; valid = b.valid }

  -- Over a stream socket with whole lengths, from a valid deframer: a writeAll that returns has
  -- kept what has gone out and what is still to be sent, together, and the invariant, and its
  -- result says whether the write is over.
  pub write_all-Sent :
      (fuel : ℕ) (t : Tx S) (x : Bool × Tx S)
      → WholeSends socket
      → IsValid t.deframer
      → write_all socket mem fuel t ≡ some (returned x)
      → Sent t x.1 × (x.0 ≡ not x.1.deframer.write_in_progress)
  unfolding write_all
  write_all-Sent zero t x whole v h = absurd (cc)
  write_all-Sent (suc fuel) t x whole v h = elim (Outcome-cases (try_write socket mem t)) [
    | inl thrown ↦ absurd (not-thrown (sym (write_all-threw socket mem fuel t thrown) ∙ h))
    | inr ((true, t₁), did) ↦
        let (c, _) = try_write-Sent t (true, t₁) whole v did in
        let (c', b) =
          write_all-Sent fuel t₁ x whole c.valid
            (sym (write_all-more socket mem fuel t t₁ did) ∙ h) in
        (trans-Sent t t₁ x.1 c c', b)
    | inr ((false, t₁), did) ↦
        let (c, _) = try_write-Sent t (false, t₁) whole v did in
        subst (λ (z : Bool × Tx S). Sent t z.1 × (z.0 ≡ not z.1.deframer.write_in_progress))
          (some_returned-injective (sym (write_all-done socket mem fuel t t₁ did) ∙ h)) (c, refl)
  ]

  -- Over a stream socket with whole lengths, from a valid deframer: with more fuel than bytes to
  -- be sent, writeAll's loop ends.
  pub write_all-ends :
      (fuel : ℕ) (t : Tx S)
      → WholeSends socket
      → IsValid t.deframer
      → length (rest t.deframer) < fuel
      → (o : Outcome (Bool × Tx S)) × (write_all socket mem fuel t ≡ some o)
  write_all-ends zero t whole v h = absurd (omega arith)
  write_all-ends (suc fuel) t whole v h = elim (Outcome-cases (try_write socket mem t)) [
    | inl thrown ↦ (threw, write_all-threw socket mem fuel t thrown)
    | inr ((true, t₁), did) ↦
        let (c, less) = try_write-Sent t (true, t₁) whole v did in
        let (o, ended) = write_all-ends fuel t₁ whole c.valid (omega (arith, less refl)) in
        (o, write_all-more socket mem fuel t t₁ did ∙ ended)
    | inr ((false, t₁), did) ↦
        (returned (not t₁.deframer.write_in_progress, t₁), write_all-done socket mem fuel t t₁ did)
  ]

  -- A writeAll that returns true leaves the deframer idle.
  pub write_all-idle :
      (fuel : ℕ) (t t' : Tx S)
      → WholeSends socket
      → IsValid t.deframer
      → write_all socket mem fuel t ≡ some (returned (true, t'))
      → t'.deframer.write_in_progress ≡ false
  write_all-idle fuel t t' whole v h =
      let (_, over) = write_all-Sent fuel t (true, t') whole v h in ground arith

  -- The deframer behind setSentItem is valid.
  pub set_sent_item-IsValid :
      (fd : ℕ) (f : Frame) (d : Deframer)
      → d.write_in_progress ≡ false
      → length f.msg ≡ f.len
      → f.len < 65536
      → IsValid (set_sent_item (fd, f) d).1
  set_sent_item-IsValid fd f d w full fits =
      rw (set_sent_item-idle fd f d w)
        (λ _. rw (take_all f.len f.msg (omega (arith, full))) (full, fits))

  -- Over a stream socket with whole lengths: handing an item whose frame has its true length to an
  -- idle deframer, and a writeAll that returns true, have sent exactly the frame's header, its
  -- length in network order and its message.
  pub write_all-sends :
      (fuel fd : ℕ) (f : Frame) (t t' : Tx S)
      → WholeSends socket
      → t.deframer.write_in_progress ≡ false
      → length f.msg ≡ f.len
      → f.len < 65536
      → write_all socket mem fuel (record t { deframer = (set_sent_item (fd, f) t.deframer).1 })
        ≡ some (returned (true, t'))
      → outgoing t'.sock ≡ outgoing t.sock ++ wire (packet f)
  unfolding wire
  write_all-sends fuel fd f t t' whole w full fits h =
      let d = started fd f t.deframer in
      let same = set_sent_item-idle fd f t.deframer w in
      let h' =
        ap (λ (x : Bool × Deframer). write_all socket mem fuel (record t { deframer = x.1 }))
          (sym same)
        ∙ h in
      let whole_msg = take_all f.len f.msg (omega (arith, full)) in
      let valid : IsValid d = λ _. rw whole_msg (full, fits) in
      let (c, over) = write_all-Sent fuel (record t { deframer = d }) (true, t') whole valid h' in
      let nothing : rest t'.deframer ≡ [] = not-rest t'.deframer over in
      sym (append-nil (outgoing t'.sock))
      ∙ ap (◌++◌ (outgoing t'.sock)) (sym nothing)
      ∙ sym c.kept
      ∙ rw (whole_msg, full) refl
