-- ===== src/Tests/Clients.antt =====
-- A client over a socket, against the bytes of a server.
use protocom.Prelude.{
  ℕ, suc, ◌≡◌, refl, Bool, true, false, List, [], ◌∷◌, ◌++◌, Option, none, some, length, replicate,
  arith, Outcome, returned, threw,
}
use protocom.Frame.{packet, wire_all}
use protocom.Messages.{kex_or_default}
use protocom.Coder.{plain, encrypted, borrowed}
use protocom.Kex
use protocom.Kex.{Kex}
use protocom.Kex.Agreement.{exchange}
use protocom.Protocol.State.{Env}
use protocom.FrameSocket
use protocom.FrameSocket.{FrameSocket}
use protocom.Client.State
use protocom.Client.State.{Client, Dialed, socket_io, connect_sock}
use protocom.Client.{connect}
use protocom.Client.Connecting.{KeyAgreed}
use protocom.Client.Connect.{connect-KeyAgreed, connect-has_connected, KeyAgreed-same_key}
use protocom.Main.{main, serving, coding_test, kex_test}
use protocom.Main.SelfTests.{main-serves}
use protocom.Tests.Wires.{Wires, wires}
use protocom.Tests.Samples.{env, first, rest_of, toy, toy-Agrees, toy-Seals, zeros, zeros_round}
use protocom.Tests.Sessions.{sealed}

-- An answer as its status, and the public key behind it.
abbrev kex_env : Env ℕ
kex_env = record env {
  connected_response = record {
    byte_size_long = λ m. suc (length (kex_or_default m.kex).pkey);
    serialize_to_array = λ m n. some (m.status ∷ (kex_or_default m.kex).pkey);
    parse_from_array = λ bs. (
      true,
      record { status = first bs; kex = some (record { alg = 1; pkey = rest_of bs }); iv = none },
    );
  };
}

abbrev dialed : List ℕ → Dialed (FrameSocket Wires)
dialed bs = record {
  socket_fd = some 5;
  receive_timeout_set = true;
  send_timeout_set = true;
  is_open = true;
  frame_socket = FrameSocket.new (record { incoming = bs; outgoing = [] }) false false;
}

-- The server's pair is that of 9; the secret is 5 + 9.
abbrev answers : List ℕ
answers = wire_all (packet (borrowed 0xF0 33 (1 ∷ replicate 32 9)) ∷ packet (sealed (1 ∷ [])) ∷ [])

abbrev refusals : List ℕ
refusals = wire_all (packet (borrowed 0xF0 1 (3 ∷ [])) ∷ [])

abbrev empty_kex : Kex
empty_kex = Kex.new [] [] [] false

abbrev new_client : Client ℕ (FrameSocket Wires)
new_client = State.new false 5

abbrev connected_to : List ℕ → Outcome (Bool × Client ℕ (FrameSocket Wires))
connected_to bs = connect kex_env (socket_io wires) (dialed bs) [] empty_kex new_client

-- The clients that the two connects leave.
abbrev client_of : Outcome (Bool × Client ℕ (FrameSocket Wires)) → Client ℕ (FrameSocket Wires)
client_of (returned (ok, c)) = c
client_of threw = new_client

connects : connected_to answers ≡ returned (true, client_of (connected_to answers))
unfolding connect protocom.FrameSocket.send_frame protocom.FrameSocket.recv_frame
    protocom.Client.State.connect_sock Kex.init Kex.get_pub_key protocom.Coder.encode
    protocom.Coder.decode wire_all Kex.load_other_key_arr Kex.agree Kex.get_key256
    protocom.Coder.new_encrypted protocom.Prelude.ntohs protocom.Prelude.store_len
    protocom.Prelude.len_bytes protocom.Prelude.sub_u32 protocom.Frame.valid_header
connects = refl

connect-KeyAgreed_example :
    KeyAgreed kex_env (socket_io wires) (5 ∷ []) plain (client_of (connected_to answers))
connect-KeyAgreed_example =
    connect-KeyAgreed kex_env (socket_io wires) (dialed answers) [] empty_kex new_client
      (client_of (connected_to answers)) connects

fails : connected_to refusals ≡ returned (false, client_of (connected_to refusals))
unfolding connect protocom.FrameSocket.send_frame protocom.FrameSocket.recv_frame
    protocom.Client.State.connect_sock Kex.init Kex.get_pub_key protocom.Coder.encode
    protocom.Coder.decode wire_all Kex.load_other_key_arr Kex.agree Kex.get_key256
    protocom.Coder.new_encrypted protocom.Prelude.ntohs protocom.Prelude.store_len
    protocom.Prelude.len_bytes protocom.Prelude.sub_u32 protocom.Frame.valid_header
fails = refl

connect-has_connected_example :
    (client_of (connected_to refusals)).is_connected ≡ (connect_sock (dialed refusals) new_client).0
connect-has_connected_example =
    connect-has_connected kex_env (socket_io wires) (dialed refusals) [] empty_kex new_client
      (client_of (connected_to refusals)) false fails

abbrev offer_bytes : List ℕ
offer_bytes = wire_all (packet (borrowed 0xF0 33 (1 ∷ replicate 32 5)) ∷ [])

abbrev later_bytes : List ℕ
later_bytes = wire_all (packet (sealed (1 ∷ [])) ∷ [])

-- What the first connect had when it gave true.
agreed_client :
    KeyAgreed kex_env (socket_io wires) (5 ∷ []) plain (client_of (connected_to answers))
unfolding connect protocom.FrameSocket.send_frame protocom.FrameSocket.recv_frame
    protocom.Client.State.connect_sock Kex.init Kex.get_pub_key protocom.Coder.encode
    protocom.Coder.decode wire_all Kex.load_other_key_arr Kex.agree Kex.get_key256
    protocom.Coder.new_encrypted protocom.Prelude.ntohs protocom.Prelude.store_len
    protocom.Prelude.len_bytes protocom.Prelude.sub_u32 protocom.Frame.valid_header
agreed_client = record {
  resp = record { status = 1; kex = some (record { alg = 1; pkey = replicate 32 9 }); iv = none };
  frame = borrowed 0xF0 33 (1 ∷ replicate 32 9);
  answer = record {
    offer = borrowed 0xF0 33 (1 ∷ replicate 32 5);
    at_offer = (dialed answers).frame_socket;
    at_answer = FrameSocket.new (record { incoming = answers; outgoing = offer_bytes }) false false;
    behind =
        FrameSocket.new (record { incoming = later_bytes; outgoing = offer_bytes }) false false;
    offered = refl;
    read = refl;
  };
  decoded = refl;
  is_ok = refl;
  is_ecdh = refl;
  full_key = refl;
  secret = 14 ∷ [];
  agrees = refl;
  seals = refl;
}

KeyAgreed-same_key_example :
    (key : List ℕ) × (exchange toy empty_kex 9 (replicate 32 5) ≡ some key)
    × ((client_of (connected_to answers)).coder ≡ encrypted key)
unfolding agreed_client
KeyAgreed-same_key_example =
    KeyAgreed-same_key kex_env (socket_io wires) 5 9 empty_kex plain
      (client_of (connected_to answers)) toy-Agrees agreed_client refl

main-serves_example :
    (main toy zeros 9 0 empty_kex empty_kex 0 4 false ≡ serving)
    × (coding_test toy zeros 9 0 0 ≡ (true, 9))
    × (kex_test toy empty_kex empty_kex 4 ≡ some (replicate 32 9, replicate 32 9))
main-serves_example =
    main-serves toy zeros 9 0 empty_kex empty_kex 0 4 (9 ∷ []) zeros_round toy-Seals toy-Agrees
      (omega arith) (λ key iv p. (p ++ replicate 16 (first key), refl)) refl
