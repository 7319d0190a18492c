-- ===== src/Deframer.antt =====
-- PDeframer.cpp and protocom/PDeframer.h: the sending state machine of one connection.
pub mod Refines
pub mod WriteAll
pub mod Apart
pub mod Faults
use protocom.Prelude.{
  ℕ, zero, suc, ◌+◌, ◌-◌, Bool, true, false, not, List, [], ◌∷◌, ◌++◌, Option, none, some, ◌==◌,
  ltb, length, take, drop, if◌then◌else◌, ntohs, len_bytes, sub_u32, Outcome, returned, threw,
  ◌>>=◌,
}
use protocom.Frame
use protocom.Frame.{Frame}
use protocom.WorkQueue.{WorkItem}
use protocom.Socket.{Socket, SendResult, sent, sent_none, send_again, send_failed}

pub data TxState : Type 0 where
  tx_header tx_len tx_msg : TxState

-- `assoc_fd` is none for the -1 of a deframer that never had an item.
pub record Deframer : Type 0 where
  pub state : TxState
  pub msg_remaining_bytes : ℕ
  pub len_remaining_bytes : ℕ
  pub txd_frame : Frame
  pub write_in_progress : Bool
  pub write_eof : Bool
  pub write_again : Bool
  pub assoc_fd : Option ℕ

unfoldable pub reset_state : Deframer → Deframer
reset_state d = record d {
  state = tx_header;
  msg_remaining_bytes = 0;
  len_remaining_bytes = 0;
  write_eof = false;
  write_again = false;
}

unfoldable pub reset_all : Deframer → Deframer
unfolding reset_state
reset_all d =
    reset_state
      (record d { txd_frame = Frame.erase d.txd_frame; assoc_fd = none; write_in_progress = false })

-- The constructor, which resets all fields.
unfoldable pub new : Deframer
unfolding reset_all
new = reset_all (record {
  state = tx_header;
  msg_remaining_bytes = 0;
  len_remaining_bytes = 0;
  txd_frame = Frame.new;
  write_in_progress = false;
  write_eof = false;
  write_again = false;
  assoc_fd = none;
})

-- An item is refused while another is being written, and copied otherwise.
unfoldable pub set_sent_item : WorkItem → Deframer → Bool × Deframer
unfolding reset_state
set_sent_item (fd, f) d = if d.write_in_progress then (false, d) else (
  true,
  reset_state (record d { txd_frame = Frame.copy f; assoc_fd = some fd; write_in_progress = true }),
)

-- A deframer with the socket that it writes.
pub record Tx (S : Type 0) : Type 0 where
  pub deframer : Deframer
  pub sock : S

-- Memory that only a wrong address reaches: the padding behind `len`, and what lies behind the
-- message's buffer.
pub record Memory : Type 0 where
  pub padding : ℕ
  pub behind : List ℕ

-- `&txdFrame.len + sizeof(PFrame::len) - lenRemainingBytes` counts in 16-bit words: with 2 bytes
-- remaining it is `len`, with 1 remaining the padding behind it.
unfoldable pub bytes_at_len : Memory → ℕ → ℕ → List ℕ
bytes_at_len mem remaining len = if remaining == 2 then len_bytes len else mem.padding ∷ []

-- The bytes from `msg + len - remaining` on.
unfoldable pub bytes_at_msg : Memory → ℕ → Frame → List ℕ
bytes_at_msg mem remaining f = take remaining (drop (f.len - remaining) (f.msg ++ mem.behind))

module _ {S : Type 0} where
  -- trySend behind the call of send: the count, and the flags.
  unfoldable pub after_send : SendResult × S → Tx S → Outcome (ℕ × Tx S)
  after_send (sent n, s) t =
      returned (suc n, record t { deframer = record t.deframer { write_again = false }; sock = s })
  after_send (sent_none, s) t =
      returned (0, record t { deframer = record t.deframer { write_eof = true }; sock = s })
  after_send (send_again, s) t =
      returned (0, record t { deframer = record t.deframer { write_again = true }; sock = s })
  after_send (send_failed, s) t = threw

  -- The cases of tryWrite behind trySend.
  unfoldable pub sent_header : ℕ → Tx S → Tx S
  sent_header n t =
      if n == 1
      then record t { deframer = record t.deframer { state = tx_len; len_remaining_bytes = 2 } }
      else t

  unfoldable pub sent_len : ℕ → Tx S → Tx S
  sent_len n t =
      let d = t.deframer in
      let remaining = sub_u32 d.len_remaining_bytes n in
      let len = ntohs d.txd_frame.len in
      if remaining == 0
      then record t {
        deframer = record d {
          len_remaining_bytes = remaining;
          txd_frame = record d.txd_frame { len = len };
          state = tx_msg;
          msg_remaining_bytes = len;
        };
      }
      else record t { deframer = record d { len_remaining_bytes = remaining } }

  unfoldable pub sent_msg : ℕ → Tx S → Tx S
  sent_msg n t =
      let d = t.deframer in
      let remaining = sub_u32 d.msg_remaining_bytes n in
      record t {
        deframer = record d {
          msg_remaining_bytes = remaining;
          write_in_progress = if remaining == 0 then false else d.write_in_progress;
        };
      }

  -- What a state does before its call of trySend: the length is swapped on every call.
  unfoldable pub prepare : TxState → Tx S → Tx S
  prepare tx_header t = t
  prepare tx_len t =
      let f = t.deframer.txd_frame in
      record t { deframer = record t.deframer { txd_frame = record f { len = ntohs f.len } } }
  prepare tx_msg t = t

  unfoldable pub offered : Memory → TxState → Tx S → List ℕ
  offered mem tx_header t = t.deframer.txd_frame.header ∷ []
  offered mem tx_len t = bytes_at_len mem t.deframer.len_remaining_bytes t.deframer.txd_frame.len
  offered mem tx_msg t = bytes_at_msg mem t.deframer.msg_remaining_bytes t.deframer.txd_frame

  unfoldable pub wrote : TxState → ℕ → Tx S → Tx S
  unfolding sent_header sent_len sent_msg
  wrote tx_header n t = sent_header n t
  wrote tx_len n t = sent_len n t
  wrote tx_msg n t = sent_msg n t

module _ {S : Type 0} (socket : Socket S) (mem : Memory) where
  unfoldable pub try_send : List ℕ → Tx S → Outcome (ℕ × Tx S)
  unfolding after_send
  try_send [] t = returned (0, t)
  try_send (b ∷ bs) t = after_send (socket.send t.sock (b ∷ bs)) t

  -- The body of tryWrite behind its guard.
  unfoldable pub write_step : TxState → Tx S → Outcome (Bool × Tx S)
  unfolding try_send prepare offered wrote
  write_step st t = do
    (n, t') ← try_send (offered mem st (prepare st t)) (prepare st t)
    returned (ltb 0 n, wrote st n t')

  unfoldable pub try_write : Tx S → Outcome (Bool × Tx S)
  unfolding write_step
  try_write t =
      if t.deframer.write_in_progress then write_step t.deframer.state t else returned (false, t)

  -- `while (tryWrite());` on fuel, and the result `!writeInProgress`.
  unfoldable pub write_all : ℕ → Tx S → Option (Outcome (Bool × Tx S))
  write_all zero t = none
  write_all (suc fuel) t = elim (try_write t) [
    | threw ↦ some threw
    | returned (b, t') ↦ elim b [
      | true ↦ write_all fuel t'
      | false ↦ some (returned (not t'.deframer.write_in_progress, t'))
    ]
  ]

abbrev pub is_write_in_progress : Deframer → Bool
is_write_in_progress d = d.write_in_progress

abbrev pub is_write_eof : Deframer → Bool
is_write_eof d = d.write_eof

abbrev pub is_write_again : Deframer → Bool
is_write_again d = d.write_again
