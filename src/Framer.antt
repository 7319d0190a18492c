-- ===== src/Framer.antt =====
-- PFramer.cpp and protocom/PFramer.h: the receiving state machine of one connection.
pub mod Reference
pub mod Chunks
pub mod Refines
pub mod Steps
pub mod ReadAll
pub mod Faults
use protocom.Prelude.{
  ℕ, zero, suc, ◌-◌, Bool, true, false, List, [], ◌∷◌, Option, none, some, ◌==◌, ltb, length,
  write_at, if◌then◌else◌, ntohs, store_len, sub_u32, Outcome, returned, threw, ◌>>=◌,
}
use protocom.Frame
use protocom.Frame.{Frame, valid_header}
use protocom.WorkQueue.{WorkQueue, push_item}
use protocom.Socket.{Socket, RecvResult, received, eof, recv_again, recv_failed}

pub data RxState : Type 0 where
  rx_header rx_len rx_msg : RxState

pub record Framer : Type 0 where
  pub state : RxState
  pub msg_remaining_bytes : ℕ
  pub len_remaining_bytes : ℕ
  pub rxd_frame : Frame
  pub read_in_progress : Bool
  pub read_eof : Bool
  pub read_again : Bool
  pub assoc_fd : ℕ

unfoldable pub reset : Framer → Framer
reset f = record {
  state = rx_header;
  msg_remaining_bytes = 0;
  len_remaining_bytes = 0;
  rxd_frame = Frame.erase f.rxd_frame;
  read_in_progress = false;
  read_eof = false;
  read_again = false;
  assoc_fd = f.assoc_fd;
}

-- The constructor.
unfoldable pub new : ℕ → Framer
unfolding reset
new fd = reset (record {
  state = rx_header;
  msg_remaining_bytes = 0;
  len_remaining_bytes = 0;
  rxd_frame = Frame.new;
  read_in_progress = false;
  read_eof = false;
  read_again = false;
  assoc_fd = fd;
})

-- A framer with the queue that it fills and the socket that it reads.
pub record Rx (S : Type 0) : Type 0 where
  pub framer : Framer
  pub wq : WorkQueue
  pub sock : S

-- `&rxdFrame.len + sizeof(PFrame::len) - lenRemainingBytes` counts in 16-bit words: with 2 bytes
-- remaining the bytes go into `len`, and with 1 remaining into the padding behind it.
unfoldable pub store_at_len : ℕ → List ℕ → ℕ → ℕ
store_at_len remaining bs len = if remaining == 2 then store_len bs len else len

-- The size that each state asks tryRecv for, and the case that takes what it stored.
unfoldable pub wanted : RxState → Framer → ℕ
wanted rx_header f = 1
wanted rx_len f = f.len_remaining_bytes
wanted rx_msg f = f.msg_remaining_bytes

module _ {S : Type 0} where
  unfoldable pub push_frame : Rx S → Rx S
  unfolding reset
  push_frame r = record r {
    wq = push_item (r.framer.assoc_fd, (Frame.move r.framer.rxd_frame).0) r.wq;
    framer = reset (record r.framer { rxd_frame = (Frame.move r.framer.rxd_frame).1 });
  }

  -- tryRecv behind the call of recv: the bytes that it stored, and the flags.
  unfoldable pub after_recv : RecvResult × S → Rx S → Outcome (List ℕ × Rx S)
  after_recv (received b bs, s) r =
      returned (b ∷ bs, record r { framer = record r.framer { read_eof = false }; sock = s })
  after_recv (eof, s) r =
      returned ([], record r { framer = record r.framer { read_eof = true }; sock = s })
  after_recv (recv_again, s) r =
      returned ([], record r { framer = record r.framer { read_again = true }; sock = s })
  after_recv (recv_failed, s) r = threw

  -- The case RX_HEADER behind tryRecv. An invalid header is consumed, and the state stays.
  unfoldable pub got_header : List ℕ → Rx S → Bool × Rx S
  got_header [] r = (false, r)
  got_header (h ∷ _) r =
      let f = record r.framer { rxd_frame = record r.framer.rxd_frame { header = h } } in
      if valid_header h
      then (true, record r { framer = record f { state = rx_len; len_remaining_bytes = 2 } })
      else (false, record r { framer = f })

  unfoldable pub enter_msg : Rx S → Rx S
  enter_msg r =
      let f = r.framer in
      record r {
        framer = record f {
          state = rx_msg;
          msg_remaining_bytes = f.rxd_frame.len;
          rxd_frame = Frame.alloc_msg f.rxd_frame;
        };
      }

  -- The case RX_LEN behind tryRecv: the length is swapped on every call, whatever was read.
  unfoldable pub got_len : List ℕ → Rx S → Bool × Rx S
  unfolding store_at_len enter_msg
  got_len bs r =
      let f = r.framer in
      let len = ntohs (store_at_len f.len_remaining_bytes bs f.rxd_frame.len) in
      let remaining = sub_u32 f.len_remaining_bytes (length bs) in
      let r' = record r {
        framer = record f {
          rxd_frame = record f.rxd_frame { len = len };
          len_remaining_bytes = remaining;
        };
      } in
      (ltb 0 (length bs), if remaining == 0 then enter_msg r' else r')

  unfoldable pub store_msg : List ℕ → Rx S → Rx S
  store_msg bs r =
      let f = r.framer in
      let m = f.rxd_frame in
      record r {
        framer = record f {
          rxd_frame = record m { msg = write_at (m.len - f.msg_remaining_bytes) bs m.msg };
          msg_remaining_bytes = sub_u32 f.msg_remaining_bytes (length bs);
        };
      }

  -- The case RX_MSG behind tryRecv.
  unfoldable pub got_msg : List ℕ → Rx S → Bool × Rx S
  unfolding push_frame store_msg
  got_msg bs r =
      let r' = store_msg bs r in
      (ltb 0 (length bs), if r'.framer.msg_remaining_bytes == 0 then push_frame r' else r')

  unfoldable pub got : RxState → List ℕ → Rx S → Bool × Rx S
  unfolding got_header got_len got_msg
  got rx_header bs r = got_header bs r
  got rx_len bs r = got_len bs r
  got rx_msg bs r = got_msg bs r

module _ {S : Type 0} (socket : Socket S) where
  unfoldable pub try_recv : ℕ → Rx S → Outcome (List ℕ × Rx S)
  unfolding after_recv
  try_recv zero r = returned ([], r)
  try_recv (suc n) r = after_recv (socket.recv r.sock (suc n)) r

  unfoldable pub try_read : Rx S → Outcome (Bool × Rx S)
  unfolding try_recv got wanted
  try_read r = do
    (bs, r') ← try_recv (wanted r.framer.state r.framer) r
    returned (got r.framer.state bs r')

  -- `while (tryRead());` on fuel: `none` means that the fuel ran out.
  unfoldable pub read_all : ℕ → Rx S → Option (Outcome (Rx S))
  read_all zero r = none
  read_all (suc fuel) r = elim (try_read r) [
    | threw ↦ some threw
    | returned (b, r') ↦ elim b [ true ↦ read_all fuel r' | false ↦ some (returned r') ]
  ]

abbrev pub is_read_eof : Framer → Bool
is_read_eof f = f.read_eof

abbrev pub is_read_again : Framer → Bool
is_read_again f = f.read_again
