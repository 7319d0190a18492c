-- ===== src/Session.antt =====
-- A client of Client.cpp against a context of ProtocolContext.cpp.
pub mod Answering
pub mod Laws
pub mod Direct
pub mod Served
pub mod Connect
pub mod Authenticate
pub mod LogIn
pub mod Requests
pub mod ClientTest
pub mod EndToEnd
use protocom.Prelude.{
  ℕ, ◌≡◌, refl, ap, ◌∙◌, Bool, true, false, List, [], ◌∷◌, ◌++◌, Option, none, some, Outcome,
  returned, threw, ◌>>=◌, if◌then◌else◌,
}
use protocom.Frame
use protocom.Frame.{Frame}
use protocom.Messages.{Codec}
use protocom.Coder.{encode, decode}
use protocom.Kex.{Kex}
use protocom.Authenticator.{UserTable}
use protocom.Protocol.State.{Env, Handler, Factory, Ctx}
use protocom.Protocol.Context
use protocom.Protocol.Context.{ProtocolContext, handle_frame}
use protocom.Client.State.{FrameIo, Client, Dialed}
use protocom.Client.{decode_read, fetch_msg, write_encoded, send_msg, fetch_request}

-- A context between two frames: its sink is set, and what it wrote is on its way.
abbrev pub idle :
    {G : Type 0} → Option Factory → Option UserTable → G → Option Handler → ProtocolContext G
idle factory auth g state = record {
  ctx = record {
    io_set = true;
    final_state_factory = factory;
    authenticator = auth;
    entropy = g;
    written = [];
  };
  state = state;
}

-- A context's answer to one frame, as a record: `f` is what it wrote.
abbrev pub answered : {G : Type 0} → ProtocolContext G → Frame → ProtocolContext G
answered s f = record s { ctx = record s.ctx { written = f ∷ [] } }

-- What carries frames between the client and a context, with the context at its other end. `At` is
-- the context's pools, its state, and the frames on their way to the client. An answer comes to the
-- client where the context's new state is one that the carrier `Keeps`. `fresh` is the memory that
-- the context's key exchange finds.
pub record Link {G : Type 0} (env : Env G) (fresh : Kex) (factory : Option Factory)
    (auth : Option UserTable) (I : Type 0) : Type 1 where
  pub io : FrameIo I
  pub At : G → Option Handler → List Frame → I → Type 0
  pub Keeps : Option Handler → Type 0
  pub keeps_handler : (h : Handler) → Keeps (some h)
  pub replies :
      (h : Handler) (state : Option Handler) (g g' : G) (f r : Frame) (p : I)
      → Keeps state
      → At g (some h) [] p
      → handle_frame env fresh (Frame.copy f) (idle factory auth g (some h))
        ≡ returned (answered (idle factory auth g' state) (Frame.copy r))
      → (p' : I) × (io.write_frame f p ≡ returned (true, p')) × At g' state (Frame.copy r ∷ []) p'
  pub reads :
      (g : G) (state : Option Handler) (f r : Frame) (p : I)
      → At g state (r ∷ []) p
      → (p' : I) × (io.read_frame f p ≡ returned (true, (r, p'))) × At g state [] p'

-- A client at one end of a link, with the pools at `g`.
abbrev pub at : {G I : Type 0} → I → G → Client G I → Client G I
at p g c = record c { io = some p; entropy = g }

-- What a socket that opens gives connect.
abbrev pub opened : {I : Type 0} → ℕ → I → Dialed I
opened fd p = record {
  socket_fd = some fd;
  receive_timeout_set = true;
  send_timeout_set = true;
  is_open = true;
  frame_socket = p;
}

module _ {G I : Type 0} (env : Env G) (fresh : Kex) (factory : Option Factory)
    (auth : Option UserTable) (link : Link env fresh factory auth I) where
  module _ (c : Client G I) (g : G) where
    -- A message that is encoded, and answered by one frame.
    pub send_msg-answered :
        {M : Type 0} (codec : Codec M) (m : M) (p : I) (k : Handler) (state : Option Handler)
        (h h' : G) (f r : Frame) (g' : G)
        → link.Keeps state
        → link.At h (some k) [] p
        → encode env.crypto codec c.coder m g ≡ (some f, g')
        → handle_frame env fresh (Frame.copy f) (idle factory auth h (some k))
          ≡ returned (answered (idle factory auth h' state) (Frame.copy r))
        → (p' : I) × (send_msg env link.io codec m (at p g c) ≡ returned (true, at p' g' c))
          × link.At h' state (Frame.copy r ∷ []) p'
    unfolding send_msg
    send_msg-answered codec m p k state h h' f r g' kept here enc handled =
        let (p', written, there) = link.replies k state h h' f r p kept here handled in
        (p', rw (enc, write_encoded, written) refl, there)

    -- The answer, read and decoded.
    pub fetch_msg-decoded :
        {M : Type 0} (codec : Codec M) (m prev : M) (p : I) (state : Option Handler) (h : G)
        (r : Frame)
        → link.At h state (r ∷ []) p
        → decode env.crypto codec c.coder r prev ≡ (true, m)
        → (p' : I) × (fetch_msg env link.io codec prev (at p g c) ≡ returned (true, (m, at p' g c)))
          × link.At h state [] p'
    unfolding fetch_msg
    fetch_msg-decoded codec m prev p state h r here dec =
        let (p', read, there) = link.reads h state Frame.new r p here in
        (p', rw (read, decode_read, dec) refl, there)

  -- A request and the answer to it, which may be of another message type than the server sent.
  pub fetch_request-decoded :
      (c : Client G I) (g : G) {M N : Type 0} (request : Codec M) (response : Codec N) (m : M)
      (n prev : N) (p : I) (k k' : Handler) (h h' : G) (f r : Frame) (g' : G)
      → link.At h (some k) [] p
      → encode env.crypto request c.coder m g ≡ (some f, g')
      → handle_frame env fresh (Frame.copy f) (idle factory auth h (some k))
        ≡ returned (answered (idle factory auth h' (some k')) (Frame.copy r))
      → decode env.crypto response c.coder (Frame.copy r) prev ≡ (true, n)
      → (p' : I) × (fetch_request env link.io request response m prev (at p g c)
          ≡ returned (true, (n, at p' g' c)))
        × link.At h' (some k') [] p'
  unfolding fetch_request
  fetch_request-decoded c g request response m n prev p k k' h h' f r g' here enc handled dec =
      let (p₁, sent, going) =
        send_msg-answered c g request m p k (some k') h h' f r g' (link.keeps_handler k') here enc
          handled in
      let (p₂, read, there) =
        fetch_msg-decoded c g' response n prev p₁ (some k') h' (Frame.copy r) going dec in
      (
        p₂,
        ap
              (λ o. o >>= (λ x.
                if x.0
                then fetch_msg env link.io response prev x.1
                else returned (false, (prev, x.1))))
              sent
            ∙ read,
        there,
      )
