-- ===== src/Client/State.antt =====
-- The data of protocom/Client.h, and Client::connect_sock.
use protocom.Prelude.{ℕ, Bool, true, false, not, Option, none, some, if◌then◌else◌, Outcome, threw}
use protocom.Frame.{Frame}
use protocom.Coder.{Coder, plain}
use protocom.Socket.{Socket}
use protocom.FrameSocket
use protocom.FrameSocket.{FrameSocket}

-- IFrameIO. readFrame leaves the frame that it read, or a part of it.
pub record FrameIo (I : Type 0) : Type 0 where
  pub read_frame : Frame → I → Outcome (Bool × (Frame × I))
  pub write_frame : Frame → I → Outcome (Bool × I)
  pub is_eof : I → Bool

-- IOFrameSocket as an IFrameIO. A read always comes to an end.
abbrev pub socket_io : {S : Type 0} → Socket S → FrameIo (FrameSocket S)
socket_io socket = record {
  read_frame = λ f io. elim (FrameSocket.read_frame socket f io) [ none ↦ threw | some o ↦ o ];
  write_frame = FrameSocket.write_frame socket;
  is_eof = FrameSocket.is_eof;
}

-- `fd` is none for -1, `io` none for the null pointer. `entropy` are the random pools of the coder
-- and of the key exchange.
pub record Client (G I : Type 0) : Type 0 where
  pub fd : Option ℕ
  pub is_connected : Bool
  pub is_authenticated : Bool
  pub io : Option I
  pub coder : Coder
  pub entropy : G

-- The results of socket, of the two calls of setsockopt, and of connect, with the new IOFrameSocket.
pub record Dialed (I : Type 0) : Type 0 where
  pub socket_fd : Option ℕ
  pub receive_timeout_set : Bool
  pub send_timeout_set : Bool
  pub is_open : Bool
  pub frame_socket : I

module _ {G I : Type 0} where
  -- The constructor. It leaves isAuthenticated uninitialized.
  abbrev pub new : Bool → G → Client G I
  new authenticated g = record {
    fd = none;
    is_connected = false;
    is_authenticated = authenticated;
    io = none;
    coder = plain;
    entropy = g;
  }

  -- connect_sock. Its argument, a timeout, goes to the IOFrameSocket only.
  unfoldable pub connect_sock : Dialed I → Client G I → Bool × Client G I
  connect_sock d c =
      let c' = record c { fd = d.socket_fd } in
      if c.is_connected
      then (true, c)
      else if not d.receive_timeout_set
      then (false, c')
      else if not d.send_timeout_set
      then (false, c')
      else (elim d.socket_fd [
        | none ↦ (false, c')
        | some n ↦
            if d.is_open
            then (true, record c' { io = some d.frame_socket; is_connected = true })
            else (false, c')
      ])

  abbrev pub has_connected : Client G I → Bool
  has_connected c = c.is_connected

  abbrev pub has_authenticated : Client G I → Bool
  has_authenticated c = c.is_authenticated
