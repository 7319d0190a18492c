-- ===== src/Socket.antt =====
-- The connected stream socket that the framers call. `recv` and `send` are the operating system's,
-- so they are parameters; the laws below say what their manual pages promise of a stream.
use protocom.Prelude.{ℕ, ◌+◌, ◌≤◌, ◌<◌, ◌≡◌, List, ◌∷◌, ◌++◌, length, take}

-- A result of recv with a positive size: bytes, 0, -1 with EAGAIN or EWOULDBLOCK, -1 otherwise.
pub data RecvResult : Type 0 where
  received : ℕ → List ℕ → RecvResult
  eof : RecvResult
  recv_again : RecvResult
  recv_failed : RecvResult

-- A result of send with a positive size: `sent n` is n + 1 bytes taken.
pub data SendResult : Type 0 where
  sent : ℕ → SendResult
  sent_none : SendResult
  send_again : SendResult
  send_failed : SendResult

pub record Socket (S : Type 0) : Type 0 where
  pub recv : S → ℕ → RecvResult × S
  pub send : S → List ℕ → SendResult × S

-- recv takes the next bytes of the stream, at most as many as were asked for, and nothing otherwise.
pub record ReceivesStream {S : Type 0} (socket : Socket S) : Type 0 where
  pub incoming : S → List ℕ
  pub recv_received :
      (s s' : S) (n b : ℕ) (bs : List ℕ)
      → socket.recv s n ≡ (received b bs, s')
      → (incoming s ≡ b ∷ bs ++ incoming s') × (length (b ∷ bs) ≤ n)
  pub recv_eof : (s s' : S) (n : ℕ) → socket.recv s n ≡ (eof, s') → incoming s' ≡ incoming s
  pub recv_idle : (s s' : S) (n : ℕ) → socket.recv s n ≡ (recv_again, s') → incoming s' ≡ incoming s

-- send takes a prefix of what it is given.
pub record SendsStream {S : Type 0} (socket : Socket S) : Type 0 where
  pub outgoing : S → List ℕ
  pub send_sent :
      (s s' : S) (bs : List ℕ) (n : ℕ)
      → socket.send s bs ≡ (sent n, s')
      → (outgoing s' ≡ outgoing s ++ take (n + 1) bs) × (n < length bs)
  pub send_none :
      (s s' : S) (bs : List ℕ) → socket.send s bs ≡ (sent_none, s') → outgoing s' ≡ outgoing s
  pub send_idle :
      (s s' : S) (bs : List ℕ) → socket.send s bs ≡ (send_again, s') → outgoing s' ≡ outgoing s
