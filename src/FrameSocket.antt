-- ===== src/FrameSocket.antt =====
-- IOFrameSocket.cpp and protocom/IOFrameSocket.h: whole frames over a blocking socket. With a timeout
-- set, the socket answers EAGAIN when the time is over.
pub mod Sending
pub mod Receiving
pub mod Pieces
pub mod Frames
pub mod Faults
use protocom.Prelude.{
  ltb, ℕ, zero, suc, ◌-◌, Bool, true, false, not, ◌||◌, List, [], ◌∷◌, ◌++◌, Option, none, some,
  ◌==◌, length, take, if◌then◌else◌, ntohs, len_bytes, store_len, Outcome, returned, threw, ◌>>=◌,
}
use protocom.Frame.{Frame, valid_header}
use protocom.Socket.{
  Socket, RecvResult, SendResult, received, eof, recv_again, recv_failed, sent, sent_none,
  send_again, send_failed,
}

pub record FrameSocket (S : Type 0) : Type 0 where
  pub sock : S
  pub conn_open : Bool
  pub read_eagain : Bool
  pub write_eagain : Bool

module _ {S : Type 0} where
  -- try_recv behind the call of recv: the bytes that it stored, and the flags.
  unfoldable pub after_try_recv : RecvResult × S → FrameSocket S → Outcome (List ℕ × FrameSocket S)
  after_try_recv (received b bs, s) io =
      returned (b ∷ bs, record io { sock = s; read_eagain = false })
  after_try_recv (eof, s) io =
      returned ([], record io { sock = s; conn_open = false; read_eagain = false })
  after_try_recv (recv_again, s) io = returned ([], record io { sock = s; read_eagain = true })
  after_try_recv (recv_failed, s) io = threw

  unfoldable pub after_try_send : SendResult × S → FrameSocket S → Outcome (ℕ × FrameSocket S)
  after_try_send (sent n, s) io = returned (suc n, record io { sock = s; write_eagain = false })
  after_try_send (sent_none, s) io =
      returned (0, record io { sock = s; conn_open = false; write_eagain = false })
  after_try_send (send_again, s) io = returned (0, record io { sock = s; write_eagain = true })
  after_try_send (send_failed, s) io = threw

module _ {S : Type 0} (socket : Socket S) where
  unfoldable pub try_recv : ℕ → FrameSocket S → Outcome (List ℕ × FrameSocket S)
  unfolding after_try_recv
  try_recv n io =
      if not io.conn_open || n == 0
      then returned ([], io)
      else after_try_recv (socket.recv io.sock n) io

  unfoldable pub try_send : List ℕ → FrameSocket S → Outcome (ℕ × FrameSocket S)
  unfolding after_try_send
  try_send bs io =
      if not io.conn_open || length bs == 0
      then returned (0, io)
      else after_try_send (socket.send io.sock bs) io

  -- The rest of a send behind a part of `size` bytes, of which `n` were taken.
  abbrev pub if_whole :
      (size : ℕ)
      → (FrameSocket S → Outcome (Bool × FrameSocket S))
      → ℕ × FrameSocket S
      → Outcome (Bool × FrameSocket S)
  if_whole size k (n, io) = if not (n == size) then returned (false, io) else k io

  unfoldable pub send_frame : Frame → FrameSocket S → Outcome (Bool × FrameSocket S)
  unfolding try_send
  send_frame f io =
      try_send (f.header ∷ []) io
      >>= if_whole 1 (λ io₁.
        try_send (len_bytes (ntohs f.len)) io₁
        >>= if_whole 2 (λ io₂.
          try_send (take f.len f.msg) io₂ >>= if_whole f.len (λ io₃. returned (true, io₃))))

  -- The loop over the message: what came, and what the last recv gave, or none behind a recv that
  -- gave nothing. `last` is nrecv, and the outer none means that the fuel ran out.
  unfoldable pub recv_loop :
      (fuel to_recv last : ℕ)
      → List ℕ
      → FrameSocket S
      → Option (Outcome (Option (List ℕ × ℕ) × FrameSocket S))
  recv_loop fuel zero last got io = some (returned (some (got, last), io))
  recv_loop zero (suc n) last got io = none
  recv_loop (suc fuel) (suc n) last got io = elim (try_recv (suc n) io) [
    | threw ↦ some threw
    | returned ([], io') ↦ some (returned (none, io'))
    | returned (b ∷ bs, io') ↦
        recv_loop fuel (suc n - length (b ∷ bs)) (length (b ∷ bs)) (got ++ b ∷ bs) io'
  ]

  -- recvFrame behind the loop: nrecv, the size of the last piece, is compared with the whole length.
  unfoldable pub got_frame :
      Frame → Option (List ℕ × ℕ) × FrameSocket S → Bool × (Frame × FrameSocket S)
  got_frame f (none, io) = (false, (f, io))
  got_frame f (some (got, last), io) =
      if not (last == f.len) then (false, (f, io)) else (true, (record f { msg = got }, io))

  -- recvFrame behind the length: nrecv is still 1, of the header, where the message is empty.
  unfoldable pub recv_msg :
      Frame → FrameSocket S → Option (Outcome (Bool × (Frame × FrameSocket S)))
  unfolding recv_loop got_frame
  recv_msg f io = elim (recv_loop f.len f.len 1 [] io) [
    | none ↦ none
    | some o ↦ some (o >>= λ r. returned (got_frame f r))
  ]

  unfoldable pub recv_len :
      Frame → FrameSocket S → Option (Outcome (Bool × (Frame × FrameSocket S)))
  unfolding try_recv recv_msg
  recv_len f io = elim (try_recv 2 io) [
    | threw ↦ some threw
    | returned ([], io') ↦ some (returned (false, (f, io')))
    | returned (b ∷ bs, io') ↦ recv_msg (record f { len = ntohs (store_len (b ∷ bs) f.len) }) io'
  ]

  unfoldable pub recv_frame :
      Frame → FrameSocket S → Option (Outcome (Bool × (Frame × FrameSocket S)))
  unfolding try_recv recv_len
  recv_frame f io = elim (try_recv 1 io) [
    | threw ↦ some threw
    | returned ([], io') ↦ some (returned (false, (f, io')))
    | returned (b ∷ bs, io') ↦
        if not (valid_header b)
        then some (returned (false, (record f { header = b }, io')))
        else recv_len (record f { header = b }) io'
  ]

-- The constructor behind setTimeout. It leaves the two flags uninitialized, so they are arguments.
abbrev pub new : {S : Type 0} → S → (again_read again_write : Bool) → FrameSocket S
new s again_read again_write = record {
  sock = s;
  conn_open = true;
  read_eagain = again_read;
  write_eagain = again_write;
}

-- setsockopt gives 0 or -1, of which neither is below -1, the code's test of a failure. Here each
-- number stands 1 higher.
abbrev set_option_result : Bool → ℕ
set_option_result false = 0
set_option_result true = 1

-- By whether the two calls of setsockopt succeed.
unfoldable pub set_timeout : Bool → Bool → Outcome (Unit {0})
set_timeout receive_set send_set =
    if ltb (set_option_result receive_set) 0
    then threw
    else if ltb (set_option_result send_set) 0
    then threw
    else returned tt

-- The constructor.
unfoldable pub open_socket :
    {S : Type 0}
    → S
    → ℕ
    → (again_read again_write receive_set send_set : Bool) → Outcome (FrameSocket S)
unfolding set_timeout
open_socket s timeout again_read again_write receive_set send_set = do
  _ ← if ltb 0 timeout then set_timeout receive_set send_set else returned tt
  returned (new s again_read again_write)

module _ {S : Type 0} where
  abbrev pub is_eof : FrameSocket S → Bool
  is_eof io = not io.conn_open

  abbrev pub is_write_exhausted : FrameSocket S → Bool
  is_write_exhausted io = io.write_eagain

  abbrev pub is_read_exhausted : FrameSocket S → Bool
  is_read_exhausted io = io.read_eagain

module _ {S : Type 0} (socket : Socket S) where
  abbrev pub read_frame : Frame → FrameSocket S → Option (Outcome (Bool × (Frame × FrameSocket S)))
  read_frame f io = recv_frame socket f io

  abbrev pub write_frame : Frame → FrameSocket S → Outcome (Bool × FrameSocket S)
  write_frame f io = send_frame socket f io
