-- ===== src/Deframer/Faults.antt =====
-- PDeframer::tryWrite and a length that the socket does not take at once.
use protocom.Prelude.{
  ℕ, ◌/◌, ◌%◌, ◌<◌, ◌≡◌, true, false, [], ◌∷◌, ◌*◌, ◌+◌, arith, returned, ntohs, len_bytes, sub_u32,
}
use protocom.Socket.{Socket, sent, send_again}
use protocom.Deframer.{Tx, Memory, tx_len, tx_msg, prepare, bytes_at_len, sent_len, try_write}

-- The bytes that a second attempt offers: the length's low byte first.
abbrev pub swapped : ℕ → ℕ
swapped n = n % 256 * 256 + n / 256 % 256

module _ {S : Type 0} (socket : Socket S) (mem : Memory) where
  -- Where a deframer with a length `n` below 65536 to send meets EAGAIN, and a second send takes
  -- both bytes, that send is given them in host order, and the deframer goes on to send as many
  -- message bytes as the swapped length says.
  pub again_at_length :
      (t : Tx S) (s₁ s₂ : S)
      → t.deframer.state ≡ tx_len
      → t.deframer.write_in_progress ≡ true
      → t.deframer.len_remaining_bytes ≡ 2
      → t.deframer.txd_frame.len < 65536
      → let n = t.deframer.txd_frame.len in
        socket.send t.sock (n / 256 % 256 ∷ n % 256 ∷ []) ≡ (send_again, s₁)
        → socket.send s₁ (n % 256 ∷ n / 256 % 256 ∷ []) ≡ (sent 1, s₂)
        → (t₁ : Tx S) × (t₂ : Tx S) × (try_write socket mem t ≡ returned (false, t₁))
          × (try_write socket mem t₁ ≡ returned (true, t₂))
          × (t₂.deframer.state ≡ tx_msg)
          × (t₂.deframer.msg_remaining_bytes ≡ swapped n)
          × (t₂.deframer.txd_frame.len ≡ swapped n)
  unfolding try_write ntohs len_bytes sub_u32 bytes_at_len
  again_at_length t s₁ s₂ st w rem fits e₁ e₂ =
      let t₁ : Tx S = record (prepare tx_len t) {
        deframer = record (prepare tx_len t).deframer { write_again = true };
        sock = s₁;
      } in
      let t₂ : Tx S = sent_len 2 (record (prepare tx_len t₁) {
        deframer = record (prepare tx_len t₁).deframer { write_again = false };
        sock = s₂;
      }) in
      (t₁, t₂, ground arith, ground arith, ground arith, ground arith, ground arith)
