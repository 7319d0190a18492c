-- ===== src/Tests/FrameSockets.antt =====
-- A frame socket at concrete inputs.
use protocom.Prelude.{
  ℕ, ◌≡◌, refl, Bool, true, false, List, [], ◌∷◌, ◌++◌, Option, some, arith, length, Outcome,
  returned,
}
use protocom.Frame
use protocom.Frame.{Frame, packet, wire}
use protocom.Framer.Reference.{at_header, feed}
use protocom.Socket.{Socket, received, recv_again, send_again}
use protocom.FrameSocket.Faults.{recv_msg-two_pieces, received_at}
use protocom.FrameSocket.{FrameSocket, recv_msg, send_frame, recv_frame}
use protocom.FrameSocket.Sending.{send_frame-wire}
use protocom.FrameSocket.Frames.{recv_frame-feed}
use protocom.Tests.Wires.{Wires, wires, wires_receive, wires_send, wires-WholeLengths}

abbrev hello : Frame
hello = record { header = 0xF0; len = 3; msg = 104 ∷ 105 ∷ 33 ∷ []; has_dynamic_data = false }

abbrev bytes : List ℕ
bytes = 0xF0 ∷ 0 ∷ 3 ∷ 104 ∷ 105 ∷ 33 ∷ []

-- A frame socket over the given wires, on an open connection.
abbrev over : List ℕ → List ℕ → FrameSocket Wires
over i o = record {
  sock = record { incoming = i; outgoing = o };
  conn_open = true;
  read_eagain = false;
  write_eagain = false;
}

sends : send_frame wires hello (over [] (9 ∷ [])) ≡ returned (true, over [] (9 ∷ bytes))
unfolding send_frame protocom.Prelude.len_bytes protocom.Prelude.ntohs
sends = refl

send_frame-wire_example : 9 ∷ bytes ≡ 9 ∷ [] ++ wire (packet hello)
send_frame-wire_example =
    send_frame-wire wires wires_send hello (over [] (9 ∷ [])) (over [] (9 ∷ bytes)) refl
      (omega arith) sends

receives :
    recv_frame wires Frame.new (over (bytes ++ 0xF1 ∷ []) [])
    ≡ some (returned (true, (hello, over (0xF1 ∷ []) [])))
unfolding recv_frame protocom.Frame.valid_header protocom.Prelude.store_len protocom.Prelude.ntohs
receives = refl

recv_frame-feed_example :
    (bs : List ℕ) × (bytes ++ 0xF1 ∷ [] ≡ bs ++ 0xF1 ∷ [])
    × (feed at_header bs ≡ (at_header, packet hello ∷ []))
    × (length hello.msg ≡ hello.len)
recv_frame-feed_example =
    recv_frame-feed wires wires_receive Frame.new (over (bytes ++ 0xF1 ∷ []) []) hello
      (over (0xF1 ∷ []) []) wires-WholeLengths receives

-- A socket that gives its pieces one at a time.
abbrev pieces : Socket (List (List ℕ))
pieces = record {
  recv = λ s n. elim s [
    | [] ↦ (recv_again, [])
    | [] ∷ rest ↦ (recv_again, rest)
    | (b ∷ bs) ∷ rest ↦ (received b bs, rest)
  ];
  send = λ s bs. (send_again, s);
}

abbrev length_read : Frame
length_read = record hello { msg = [] }

abbrev two_pieces : FrameSocket (List (List ℕ))
two_pieces = record {
  sock = (104 ∷ []) ∷ (105 ∷ 33 ∷ []) ∷ [];
  conn_open = true;
  read_eagain = false;
  write_eagain = false;
}

recv_msg-two_pieces_example :
    recv_msg pieces length_read two_pieces
    ≡ some (returned (false, (length_read, received_at pieces [] two_pieces)))
recv_msg-two_pieces_example =
    recv_msg-two_pieces pieces 0 1 length_read two_pieces 104 105 [] (33 ∷ [])
      ((105 ∷ 33 ∷ []) ∷ []) [] refl refl refl refl refl refl
