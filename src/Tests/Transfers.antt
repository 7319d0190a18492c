-- ===== src/Tests/Transfers.antt =====
-- Two frames from a deframer to a framer.
use protocom.Prelude.{
  ℕ, ◌≡◌, refl, Bool, true, false, List, [], ◌∷◌, ◌++◌, Option, none, some, arith, map, Outcome,
  returned,
}
use protocom.Frame
use protocom.Frame.{Frame, packet, wire_all}
use protocom.WorkQueue
use protocom.Framer
use protocom.Framer.{Framer, Rx, rx_header, read_all}
use protocom.Framer.Refines.{tag, item_packet}
use protocom.Deframer.{Deframer, Tx, tx_header, tx_msg, Memory, set_sent_item, write_all}
use protocom.Transfer.{AllWhole, Writes, none_left, write, read_all-Writes}
use protocom.Tests.Wires.{
  Wires, wires, wires_receive, wires_send, wires-WholeLengths, wires-WholeSends,
}

abbrev hello : Frame
hello = record { header = 0xF0; len = 3; msg = 104 ∷ 105 ∷ 33 ∷ []; has_dynamic_data = true }

abbrev sealed : Frame
sealed = record { header = 0xF1; len = 1; msg = 7 ∷ []; has_dynamic_data = true }

abbrev memory : Memory
memory = record { padding = 0; behind = [] }

abbrev writer : Deframer → List ℕ → Tx Wires
writer d bs = record { deframer = d; sock = record { incoming = []; outgoing = bs } }

abbrev new_deframer : Deframer
new_deframer = record {
  state = tx_header;
  msg_remaining_bytes = 0;
  len_remaining_bytes = 0;
  txd_frame = Frame.new;
  write_in_progress = false;
  write_eof = false;
  write_again = false;
  assoc_fd = none;
}

-- What a write to the descriptor 5 leaves.
abbrev over : Frame → Deframer
over f = record new_deframer { state = tx_msg; txd_frame = f; assoc_fd = some 5 }

abbrev first_bytes : List ℕ
first_bytes = 0xF0 ∷ 0 ∷ 3 ∷ 104 ∷ 105 ∷ 33 ∷ []

abbrev bytes : List ℕ
bytes = first_bytes ++ 0xF1 ∷ 0 ∷ 1 ∷ 7 ∷ []

both :
    Writes wires memory (hello ∷ sealed ∷ []) (writer new_deframer []) (writer (over sealed) bytes)
unfolding write_all protocom.Deframer.try_write protocom.Deframer.bytes_at_len
    protocom.Prelude.len_bytes protocom.Prelude.sub_u32 protocom.Deframer.bytes_at_msg
    protocom.Prelude.ntohs set_sent_item
both =
    write 9 5 hello _ _ (writer (over hello) first_bytes) _ refl
      (write 9 5 sealed _ _ (writer (over sealed) bytes) _ refl (none_left _))

whole : AllWhole (hello ∷ sealed ∷ [])
unfolding protocom.Frame.valid_header
whole = (
  record { header = refl; full = refl; fits = omega arith },
  (record { header = refl; full = refl; fits = omega arith }, tt),
)

abbrev reader : Framer → List ℕ → Rx Wires
reader f bs = record {
  framer = f;
  wq = WorkQueue.new;
  sock = record { incoming = bs; outgoing = [] };
}

abbrev read : Rx Wires
read = record {
  framer = record {
    state = rx_header;
    msg_remaining_bytes = 0;
    len_remaining_bytes = 0;
    rxd_frame = Frame.new;
    read_in_progress = false;
    read_eof = false;
    read_again = true;
    assoc_fd = 8;
  };
  wq = record WorkQueue.new { queue = (8, hello) ∷ (8, sealed) ∷ []; notified = true };
  sock = record { incoming = []; outgoing = [] };
}

reads : read_all wires 20 (reader (Framer.new 8) bytes) ≡ some (returned read)
unfolding read_all Framer.new protocom.Framer.try_read protocom.Frame.valid_header
    protocom.Prelude.sub_u32 protocom.Prelude.ntohs protocom.Prelude.store_len WorkQueue.push_item
reads = refl

read_all-Writes_example : map item_packet read.wq.queue ≡ tag 8 (map packet (hello ∷ sealed ∷ []))
read_all-Writes_example =
    read_all-Writes wires memory wires_send wires wires_receive (hello ∷ sealed ∷ [])
      (writer new_deframer []) (writer (over sealed) bytes) 20 8
      (record { incoming = bytes; outgoing = [] }) read wires-WholeSends wires-WholeLengths refl
      refl whole both refl reads refl
