-- ===== src/Server/Entries.antt =====
-- What reading and writing keep of a connection in Server.cpp.
use protocom.Prelude.{ℕ, ◌≡◌, ◌∙◌, Bool, true, false, some, returned, Leaves, Leaves-map, if-Leaves}
use protocom.WorkQueue.{WorkQueue}
use protocom.Socket.{Socket, ReceivesStream}
use protocom.Framer.{Rx, read_all}
use protocom.Framer.Steps.{WholeLengths}
use protocom.Framer.ReadAll.{read_all-ReadMany}
use protocom.Deframer.{Memory, write_all}
use protocom.Server.State.{ConnectionContext}
use protocom.Server.Loop.{read_from, write_to, if_writable, was_read, was_written}
use protocom.Server.Consistency.{IsValidEntry}

module _ {S : Type 0} (socket : Socket S) (mem : Memory) (fuel : ℕ) where
  -- Writing leaves the framer and the descriptor alone.
  pub write_to-IsValidEntry :
      (k : ℕ) (c : ConnectionContext S)
      → IsValidEntry k c
      → Leaves (IsValidEntry k) (write_to socket mem fuel c)
  unfolding write_to
  write_to-IsValidEntry k c v =
      Leaves-map (IsValidEntry k)
        (write_all socket mem fuel (record { deframer = c.deframer; sock = c.sock }))
        (was_written c) (λ _ _. v)

  pub if_writable-IsValidEntry :
      (b : Bool) (k : ℕ) (c : ConnectionContext S)
      → IsValidEntry k c
      → Leaves (IsValidEntry k) (if_writable socket mem fuel b c)
  unfolding if_writable
  if_writable-IsValidEntry false k c v = v
  if_writable-IsValidEntry true k c v =
      if-Leaves (IsValidEntry k) c.deframer.write_in_progress (write_to socket mem fuel c)
        (some (returned (record c { tx_ready = true }))) (λ busy. write_to-IsValidEntry k c v)
        (λ idle. v)

  pub read_from-IsValidEntry :
      (k : ℕ) (c : ConnectionContext S) (wq : WorkQueue)
      → ReceivesStream socket
      → WholeLengths socket
      → IsValidEntry k c
      → wq.item_limit ≡ 0
      → Leaves
          (λ (x : ConnectionContext S × WorkQueue). IsValidEntry k x.0 × (x.1.item_limit ≡ 0))
          (read_from socket mem fuel c wq)
  unfolding read_from
  read_from-IsValidEntry k c wq stream whole (key, tagged, v) u =
      let r : Rx S = record { framer = c.framer; wq = wq; sock = c.sock } in
      Leaves-map _ (read_all socket fuel r) (was_read c) (λ r' e.
        let m = read_all-ReadMany socket stream fuel r r' whole v u e in
        ((key, m.consumed.same_fd ∙ tagged, m.consumed.valid), m.consumed.unlimited))
