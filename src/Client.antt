-- ===== src/Client.antt =====
-- Client.cpp and protocom/Client.h: the client's side of a connection.
pub mod State
pub mod Exchanging
pub mod Connecting
pub mod Connect
use protocom.Prelude.{
  ℕ, Bool, true, false, not, ◌||◌, List, [], ◌++◌, Option, none, some, ◌==◌, if◌then◌else◌, Outcome,
  returned, threw, ◌>>=◌,
}
use protocom.Frame
use protocom.Frame.{Frame}
use protocom.Messages.{
  Codec, ClientConnectedStateRequest, ServerConnectedStateResponse, ClientAuthRequest,
  ServerAuthResponse, kex_ecdh, request_kex, request_auth, status_ok, auth_supply, auth_accept,
  kex_or_default,
}
use protocom.Crypto.{Crypto}
use protocom.Coder.{Coder, plain, new_encrypted, decode, encode}
use protocom.Kex
use protocom.Kex.{Kex, get_pub_key, load_other_key_arr, agree, get_key256}
use protocom.Protocol.State.{Env}
use protocom.Socket.{Socket}
use protocom.FrameSocket
use protocom.FrameSocket.{FrameSocket}
use protocom.Client.State.{FrameIo, Client, Dialed, connect_sock}

-- The block behind getKey256, with its first contents.
abbrev pub key_block : List ℕ → Option (List ℕ) → List ℕ
key_block block none = block
key_block block (some k) = k

module _ {G I : Type 0} (frame_io : FrameIo I) where
  -- A call on the null pointer is `threw`.
  unfoldable pub has_server_closed : Client G I → Outcome Bool
  has_server_closed c = elim c.io [ none ↦ threw | some io ↦ returned (frame_io.is_eof io) ]

module _ {G I : Type 0} (env : Env G) (frame_io : FrameIo I) where
  -- The result, the message, and the client behind readFrame.
  unfoldable pub decode_read :
      {M : Type 0} → Codec M → M → Client G I → Bool × (Frame × I) → Bool × (M × Client G I)
  decode_read codec prev c (false, (f, io)) = (false, (prev, record c { io = some io }))
  decode_read codec prev c (true, (f, io)) =
      let (ok, m) = decode env.crypto codec c.coder f prev in (ok, (m, record c { io = some io }))

  -- `prev` is the message that is fetched into.
  unfoldable pub fetch_msg :
      {M : Type 0} → Codec M → M → Client G I → Outcome (Bool × (M × Client G I))
  unfolding decode_read
  fetch_msg codec prev c = elim c.io [
    | none ↦ threw
    | some io ↦ (do r ← frame_io.read_frame Frame.new io; returned (decode_read codec prev c r))
  ]

  unfoldable pub write_encoded : Option Frame → Option I → Client G I → Outcome (Bool × Client G I)
  write_encoded none io c = returned (false, c)
  write_encoded (some f) none c = threw
  write_encoded (some f) (some io) c = do
    (ok, io') ← frame_io.write_frame f io
    returned (ok, record c { io = some io' })

  unfoldable pub send_msg : {M : Type 0} → Codec M → M → Client G I → Outcome (Bool × Client G I)
  unfolding write_encoded
  send_msg codec m c =
      let (f, g) = encode env.crypto codec c.coder m c.entropy in
      write_encoded f c.io (record c { entropy = g })

  unfoldable pub fetch_request :
      {M N : Type 0} → Codec M → Codec N → M → N → Client G I → Outcome (Bool × (N × Client G I))
  unfolding send_msg fetch_msg
  fetch_request request response req prev c = do
    (ok, c') ← send_msg request req c
    if ok then fetch_msg response prev c' else returned (false, (prev, c'))

  -- The last part of connect: the answer to the request for the authentication.
  unfoldable pub admitted : Bool × (ServerConnectedStateResponse × Client G I) → Bool × Client G I
  admitted (false, (resp, c)) = (false, c)
  admitted (true, (resp, c)) =
      if not (resp.status == status_ok)
      then (false, c)
      else (true, record c { is_connected = true })

  unfoldable pub await_admission :
      ServerConnectedStateResponse → Bool × Client G I → Outcome (Bool × Client G I)
  unfolding admitted fetch_msg
  await_admission resp (false, c) = returned (false, c)
  await_admission resp (true, c) = do
    r ← fetch_msg env.connected_response resp c
    returned (admitted r)

  -- connect from getKey256 on. A key that is not given is reported only, and the block, of which
  -- `block` is the first contents, is used all the same.
  unfoldable pub seal_up :
      List ℕ
      → Option (List ℕ)
      → ServerConnectedStateResponse
      → Client G I
      → Outcome (Bool × Client G I)
  unfolding await_admission send_msg new_encrypted
  seal_up block key resp c = do
    let mcoder : Coder × G = new_encrypted env.crypto (key_block block key) c.entropy
    sent ←
        send_msg env.connected_request (record { type = request_auth; kex = none })
          (record c { coder = mcoder.0; entropy = mcoder.1 })
    await_admission resp sent

  -- connect from the test of the server's key on.
  unfoldable pub agree_on :
      List ℕ → Kex → ServerConnectedStateResponse → Client G I → Outcome (Bool × Client G I)
  unfolding seal_up load_other_key_arr agree get_key256
  agree_on block k resp c =
      let theirs = kex_or_default resp.kex in
      let (loaded, k₁) = load_other_key_arr theirs.pkey k in
      let (agreed, k₂) = agree env.crypto k₁ in
      if not (theirs.alg == kex_ecdh) || not loaded || not agreed
      then returned (false, c)
      else seal_up block (get_key256 env.crypto 32 k₂) resp c

  -- connect behind the first fetchMsg.
  unfoldable pub got_response :
      List ℕ
      → Kex
      → Bool × (ServerConnectedStateResponse × Client G I)
      → Outcome (Bool × Client G I)
  unfolding agree_on
  got_response block k (false, (resp, c)) = returned (false, c)
  got_response block k (true, (resp, c)) =
      if not (resp.status == status_ok)
      then returned (false, c)
      else (elim resp.kex [ none ↦ returned (false, c) | some _ ↦ agree_on block k resp c ])

  unfoldable pub await_key : List ℕ → Kex → Bool × Client G I → Outcome (Bool × Client G I)
  unfolding got_response fetch_msg
  await_key block k (false, c) = returned (false, c)
  await_key block k (true, c) = do
    r ← fetch_msg env.connected_response (record { status = 0; kex = none; iv = none }) c
    got_response block k r

  unfoldable pub offer_key :
      List ℕ → Kex → Option (List ℕ) → Client G I → Outcome (Bool × Client G I)
  unfolding await_key send_msg
  offer_key block k none c = returned (false, c)
  offer_key block k (some pubkey) c = do
    sent ←
        send_msg env.connected_request
          (record { type = request_kex; kex = some (record { alg = kex_ecdh; pkey = pubkey }) }) c
    await_key block k sent

  -- `fresh` is the new x25519KexProtocol.
  unfoldable pub handshake : List ℕ → Kex → Client G I → Outcome (Bool × Client G I)
  unfolding offer_key get_pub_key
  handshake block fresh c =
      let (k, g) = Kex.init env.crypto fresh c.entropy in
      offer_key block k (get_pub_key k) (record c { entropy = g })

  unfoldable pub connect : Dialed I → List ℕ → Kex → Client G I → Outcome (Bool × Client G I)
  unfolding handshake connect_sock
  connect d block fresh c =
      let (ok, c') = connect_sock d c in
      if ok then handshake block fresh c' else returned (false, c')

  unfoldable pub accepted : Bool × (ServerAuthResponse × Client G I) → Bool × Client G I
  accepted (false, (resp, c)) = (false, c)
  accepted (true, (resp, c)) =
      if not (resp.status == auth_accept)
      then (false, c)
      else (true, record c { is_authenticated = true })

  unfoldable pub await_verdict : Bool × Client G I → Outcome (Bool × Client G I)
  unfolding accepted fetch_msg
  await_verdict (false, c) = returned (false, c)
  await_verdict (true, c) = do
    r ← fetch_msg env.auth_response (record { status = 0; server_info = none }) c
    returned (accepted r)

  unfoldable pub authenticate : List ℕ → List ℕ → Client G I → Outcome (Bool × Client G I)
  unfolding await_verdict send_msg
  authenticate username password c = do
    sent ←
        send_msg env.auth_request
          (record {
            request = auth_supply;
            username = some ([] ++ username);
            auth_credential = some ([] ++ password);
          })
          c
    await_verdict sent
