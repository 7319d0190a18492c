-- ===== src/Deframer/Apart.antt =====
-- PDeframer::writeAll and the bytes that are still to come on its socket.
use protocom.Prelude.{
  ℕ, zero, suc, ◌≡◌, refl, ◌∙◌, Bool, true, false, not, List, [], ◌∷◌, some, ◌==◌, ltb, if-both,
  Outcome, returned, threw, Holds, Holds-bind, Leaves, Leaves-mono,
}
use protocom.Socket.{Socket, SendResult, sent, sent_none, send_again, send_failed, ReceivesStream}
use protocom.Deframer.{
  Tx, TxState, tx_header, tx_len, tx_msg, Memory, after_send, sent_header, sent_len, sent_msg,
  prepare, offered, wrote, try_send, write_step, try_write, write_all,
}

-- The two directions of a socket are apart: a send takes nothing of what is to come.
abbrev pub SendsApart : {S : Type 0} (socket : Socket S) → ReceivesStream socket → Type 0
SendsApart {S} socket stream =
    (s : S) (bs : List ℕ) → stream.incoming (socket.send s bs).1 ≡ stream.incoming s

module _ {S : Type 0} (socket : Socket S) (mem : Memory) (stream : ReceivesStream socket)
    (apart : SendsApart socket stream) where
  open stream use {incoming}

  abbrev Keeps : Tx S → Tx S → Type 0
  Keeps t t' = incoming t'.sock ≡ incoming t.sock

  after_send-Keeps :
      (r : SendResult × S) (t : Tx S)
      → incoming r.1 ≡ incoming t.sock
      → Holds (λ (x : ℕ × Tx S). Keeps t x.1) (after_send r t)
  unfolding after_send
  after_send-Keeps (sent n, s) t e = e
  after_send-Keeps (sent_none, s) t e = e
  after_send-Keeps (send_again, s) t e = e
  after_send-Keeps (send_failed, s) t e = tt

  try_send-Keeps :
      (bs : List ℕ) (t : Tx S) → Holds (λ (x : ℕ × Tx S). Keeps t x.1) (try_send socket mem bs t)
  unfolding try_send
  try_send-Keeps [] t = refl
  try_send-Keeps (b ∷ bs) t =
      after_send-Keeps (socket.send t.sock (b ∷ bs)) t (apart t.sock (b ∷ bs))

  wrote-Keeps : (st : TxState) (n : ℕ) (t : Tx S) → Keeps t (wrote st n t)
  unfolding wrote sent_header sent_len sent_msg
  wrote-Keeps tx_header n t = if-both (Keeps t) (n == 1) _ t refl refl
  wrote-Keeps tx_len n t = if-both (Keeps t) _ _ _ refl refl
  wrote-Keeps tx_msg n t = refl

  prepare-Keeps : (st : TxState) (t : Tx S) → Keeps t (prepare st t)
  unfolding prepare
  prepare-Keeps tx_header t = refl
  prepare-Keeps tx_len t = refl
  prepare-Keeps tx_msg t = refl

  try_write-Keeps : (t : Tx S) → Holds (λ (x : Bool × Tx S). Keeps t x.1) (try_write socket mem t)
  unfolding try_write write_step
  try_write-Keeps t =
      if-both (Holds (λ (x : Bool × Tx S). Keeps t x.1)) t.deframer.write_in_progress _
        (returned (false, t))
        (let st = t.deframer.state in
          Holds-bind (λ (x : ℕ × Tx S). Keeps (prepare st t) x.1) (λ (x : Bool × Tx S). Keeps t x.1)
            (try_send socket mem (offered mem st (prepare st t)) (prepare st t))
            (λ (n, t'). returned (ltb 0 n, wrote st n t'))
            (try_send-Keeps (offered mem st (prepare st t)) (prepare st t))
            (λ (n, t') kept. wrote-Keeps st n t' ∙ kept ∙ prepare-Keeps st t))
        refl

  -- A writeAll leaves what is to come.
  pub write_all-Keeps :
      (fuel : ℕ) (t : Tx S)
      → Leaves (λ (x : Bool × Tx S). Keeps t x.1) (write_all socket mem fuel t)
  unfolding write_all
  write_all-Keeps zero t = tt
  write_all-Keeps (suc fuel) t =
      by_step (write_all-Keeps fuel) (try_write socket mem t) (try_write-Keeps t)
    where
      by_step :
          ((u : Tx S) → Leaves (λ (x : Bool × Tx S). Keeps u x.1) (write_all socket mem fuel u))
          → (o : Outcome (Bool × Tx S)) → Holds (λ (x : Bool × Tx S). Keeps t x.1) o
          → Leaves
              (λ (x : Bool × Tx S). Keeps t x.1)
              (elim o [
                | threw ↦ some threw
                | returned (b, t') ↦ elim b [
                  | true ↦ write_all socket mem fuel t'
                  | false ↦ some (returned (not t'.deframer.write_in_progress, t'))
                ]
              ])
      by_step next threw kept = tt
      by_step next (returned (true, t')) kept =
          Leaves-mono (λ (x : Bool × Tx S). Keeps t' x.1) (λ (x : Bool × Tx S). Keeps t x.1)
            (write_all socket mem fuel t') (next t') (λ x more. more ∙ kept)
      by_step next (returned (false, t')) kept = kept
