-- ===== src/Tests/Framing.antt =====
-- The queue, the framer and the deframer at concrete inputs.
use protocom.Prelude.{
  ℕ, zero, suc, ◌+◌, ◌≤◌, ◌<◌, ◌≡◌, refl, Bool, true, false, List, [], ◌∷◌, ◌++◌, Option, none,
  some, arith, map, length, Outcome, returned, drop, not, if◌then◌else◌, ◌-◌,
}
use protocom.Frame
use protocom.Frame.{valid_header, Frame, Packet, packet, wire, wire_all, IsSendable}
use protocom.WorkQueue
use protocom.WorkQueue.{WorkQueue, WorkItem}
use protocom.WorkQueue.Fifo.{
  Call, push, push_copy, fetch, enter, wake, cancel, set_limit, run, AllSetOnly, pushed, run-fifo,
}
use protocom.Socket.{Socket, received, recv_again, send_again, sent}
use protocom.Framer.{Framer, Rx, rx_header, rx_len, rx_msg, try_read, read_all}
use protocom.Framer.Reference.{AllSendable}
use protocom.Framer.Faults.{split_length, read_all-stops_after_empty}
use protocom.Framer.ReadAll.{ReadMany, read_all-ReadMany}
use protocom.Deframer
use protocom.Deframer.{Tx, tx_header, tx_len, tx_msg, Memory, set_sent_item, try_write, write_all}
use protocom.Deframer.WriteAll.{write_all-sends}
use protocom.Deframer.Faults.{again_at_length}
use protocom.Tests.Wires.{
  Wires, wires, wires_receive, wires_send, wires-WholeLengths, wires-WholeSends,
}

abbrev hello : Frame
hello = record { header = 0xF0; len = 3; msg = 104 ∷ 105 ∷ 33 ∷ []; has_dynamic_data = true }

abbrev sealed : Frame
sealed = record { header = 0xF1; len = 1; msg = 7 ∷ []; has_dynamic_data = false }

abbrev calls : List Call
calls =
    enter
    ∷ push (5, hello)
    ∷ wake
    ∷ push_copy (6, sealed)
    ∷ push (5, sealed)
    ∷ enter
    ∷ fetch
    ∷ fetch
    ∷ enter
    ∷ cancel
    ∷ wake
    ∷ set_limit 0
    ∷ push (8, hello)
    ∷ []

all_unlimited : AllSetOnly 0 calls
all_unlimited = (tt, (tt, (tt, (tt, (tt, (tt, (tt, (tt, (tt, (tt, (tt, (refl, (tt, tt)))))))))))))

run-fifo_example :
    (run calls WorkQueue.new).0 ++ (run calls WorkQueue.new).1.queue ≡ [] ++ pushed calls
run-fifo_example = run-fifo calls WorkQueue.new all_unlimited refl

abbrev packets : List Packet
packets = packet hello ∷ packet sealed ∷ []

abbrev bytes : List ℕ
bytes = 0xF0 ∷ 0 ∷ 3 ∷ 104 ∷ 105 ∷ 33 ∷ 0xF1 ∷ 0 ∷ 1 ∷ 7 ∷ []

-- A new framer.
abbrev idle : Framer
idle = record {
  state = rx_header;
  msg_remaining_bytes = 0;
  len_remaining_bytes = 0;
  rxd_frame = Frame.new;
  read_in_progress = false;
  read_eof = false;
  read_again = false;
  assoc_fd = 5;
}

abbrev reader : Rx Wires
reader = record {
  framer = idle;
  wq = WorkQueue.new;
  sock = record { incoming = bytes; outgoing = [] };
}

abbrev read : Rx Wires
read = record {
  framer = record idle { read_again = true };
  wq = record {
    queue = (5, hello) ∷ (5, record sealed { has_dynamic_data = true }) ∷ [];
    item_limit = 0;
    fetch_cancelled = false;
    notified = true;
  };
  sock = record { incoming = []; outgoing = [] };
}

reads : read_all wires 20 reader ≡ some (returned read)
unfolding read_all try_read valid_header protocom.Prelude.sub_u32 protocom.Prelude.ntohs
    protocom.Prelude.store_len WorkQueue.push_item
reads = refl

packets-AllSendable : AllSendable packets
unfolding valid_header
packets-AllSendable =
    (record { valid = refl; fits = omega arith }, (record { valid = refl; fits = omega arith }, tt))

read_all-ReadMany_example : ReadMany wires wires_receive reader read
read_all-ReadMany_example =
    read_all-ReadMany wires wires_receive 20 reader read wires-WholeLengths refl refl reads

abbrev header_read : Rx Wires
header_read = record {
  framer = record idle {
    state = rx_len;
    len_remaining_bytes = 2;
    rxd_frame = record Frame.new { header = 0xF0 };
  };
  wq = WorkQueue.new;
  sock = record { incoming = drop 1 bytes; outgoing = [] };
}

reads_header : try_read wires reader ≡ returned (true, header_read)
unfolding try_read valid_header
reads_header = refl

-- The bytes 1 and 2 of a length, one at a time.
abbrev trickle : Socket (List ℕ)
trickle = record {
  recv = λ s n. elim s [ [] ↦ (recv_again, []) | b ∷ bs ↦ (received b [], bs) ];
  send = λ s bs. (send_again, s);
}

abbrev at_length : Rx (List ℕ)
at_length = record { framer = header_read.framer; wq = WorkQueue.new; sock = 1 ∷ 2 ∷ [] }

split_length_example :
    (r₁ : Rx (List ℕ)) × (r₂ : Rx (List ℕ)) × (try_read trickle at_length ≡ returned (true, r₁))
    × (try_read trickle r₁ ≡ returned (true, r₂))
    × (r₂.framer.state ≡ rx_msg)
    × (r₂.framer.rxd_frame.len ≡ 1)
    × (r₂.framer.msg_remaining_bytes ≡ 1)
split_length_example =
    split_length trickle at_length 1 2 (2 ∷ []) [] refl refl refl (omega arith) refl refl

-- A frame of length 0 before another frame.
abbrev empty_first : Rx Wires
empty_first = record {
  framer = idle;
  wq = WorkQueue.new;
  sock = record { incoming = 0xF0 ∷ 0 ∷ 0 ∷ bytes; outgoing = [] };
}

read_all-stops_after_empty_example :
    (r' : Rx Wires) × (f : Frame) × (read_all wires 9 empty_first ≡ some (returned r'))
    × (r'.wq.queue ≡ [] ++ (idle.assoc_fd, f) ∷ [])
    × (f.header ≡ 0xF0)
    × (f.len ≡ 0)
    × (r'.framer.state ≡ rx_header)
    × (r'.sock ≡ record { incoming = bytes; outgoing = [] })
    × (0xF0 ∷ 0 ∷ 0 ∷ bytes ≡ 0xF0 ∷ 0 ∷ 0 ∷ r'.sock.incoming)
unfolding protocom.Frame.valid_header
read_all-stops_after_empty_example =
    read_all-stops_after_empty wires wires_receive 6 empty_first 0xF0
      (record { incoming = 0 ∷ 0 ∷ bytes; outgoing = [] })
      (record { incoming = bytes; outgoing = [] }) refl refl refl refl refl

abbrev memory : Memory
memory = record { padding = 0; behind = [] }

abbrev hello_bytes : List ℕ
hello_bytes = 0xF0 ∷ 0 ∷ 3 ∷ 104 ∷ 105 ∷ 33 ∷ []

-- A new deframer, over a connection that has sent a byte.
abbrev writer : Tx Wires
writer = record {
  deframer = record {
    state = tx_header;
    msg_remaining_bytes = 0;
    len_remaining_bytes = 0;
    txd_frame = Frame.new;
    write_in_progress = false;
    write_eof = false;
    write_again = false;
    assoc_fd = none;
  };
  sock = record { incoming = []; outgoing = 9 ∷ [] };
}

abbrev loaded : Tx Wires
loaded = record writer {
  deframer = record writer.deframer {
    txd_frame = hello;
    write_in_progress = true;
    assoc_fd = some 5;
  };
}

abbrev written : Tx Wires
written = record {
  deframer = record loaded.deframer { state = tx_msg; write_in_progress = false };
  sock = record { incoming = []; outgoing = 9 ∷ hello_bytes };
}

writes : write_all wires memory 9 loaded ≡ some (returned (true, written))
unfolding write_all try_write Deframer.bytes_at_len protocom.Prelude.len_bytes
    protocom.Prelude.sub_u32 Deframer.bytes_at_msg protocom.Prelude.ntohs
writes = refl

write_all-sends_example : written.sock.outgoing ≡ 9 ∷ [] ++ wire (packet hello)
unfolding set_sent_item
write_all-sends_example =
    write_all-sends wires memory wires_send 9 5 hello writer written wires-WholeSends refl refl
      (omega arith) writes

-- A socket that is full once, and then takes everything.
abbrev full_once : Socket Bool
full_once = record {
  recv = λ s n. (recv_again, s);
  send = λ s bs. if s then (send_again, false) else (sent (length bs - 1), false);
}

abbrev length_due : Tx Bool
length_due = record {
  deframer = record loaded.deframer { state = tx_len; len_remaining_bytes = 2 };
  sock = true;
}

again_at_length_example :
    (t₁ : Tx Bool) × (t₂ : Tx Bool) × (try_write full_once memory length_due ≡ returned (false, t₁))
    × (try_write full_once memory t₁ ≡ returned (true, t₂))
    × (t₂.deframer.state ≡ tx_msg)
    × (t₂.deframer.msg_remaining_bytes ≡ 768)
    × (t₂.deframer.txd_frame.len ≡ 768)
again_at_length_example =
    again_at_length full_once memory length_due false false refl refl refl (omega arith) refl refl
