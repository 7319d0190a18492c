-- ===== src/Protocol/Connected.antt =====
-- ProtocolConnectedHandler.cpp: the key exchange, and the way on to the authentication.
use protocom.Prelude.{
  ℕ, Bool, true, false, not, ◌||◌, List, [], Option, none, some, ◌==◌, if◌then◌else◌, Outcome,
  returned, ◌>>=◌,
}
use protocom.Frame.{Frame}
use protocom.Messages.{
  KexMsg, ClientConnectedStateRequest, kex_ecdh, request_kex, request_auth, status_ok,
  status_invalid_request, status_request_error, status_decode_error, kex_or_default,
}
use protocom.Coder.{Coder, plain, new_encrypted, decode}
use protocom.Kex
use protocom.Kex.{Kex, get_pub_key, load_other_key_arr, agree, get_key256}
use protocom.Protocol.State.{
  Env, ConnectedHandler, connected, authentication, Ctx, Next, stays, set_state, send,
}
use protocom.Protocol.Authentication

-- The constructor.
abbrev pub new : ConnectedHandler
new = record {
  coder = plain;
  request = record { type = 0; kex = none };
  response = record { status = 0; kex = none; iv = none };
  is_kex_complete = false;
}

-- request->has_kex().
abbrev pub has_kex : ClientConnectedStateRequest → Bool
has_kex r = elim r.kex [ none ↦ false | some _ ↦ true ]

-- respMsg->set_kex.
abbrev pub with_kex : KexMsg → ConnectedHandler → ConnectedHandler
with_kex k h = record h { response = record h.response { kex = some k } }

-- The request decoded, and the response prepared.
abbrev pub received : ClientConnectedStateRequest → ConnectedHandler → ConnectedHandler
received req h = record h {
  request = req;
  response = record { status = status_invalid_request; kex = none; iv = none };
}

module _ {G : Type 0} (env : Env G) where
  unfoldable pub resp_with_status :
      ℕ → ConnectedHandler → Ctx G → Outcome (ConnectedHandler × Ctx G)
  unfolding send
  resp_with_status status h ctx = do
    let h' : ConnectedHandler = record h { response = record h.response { status = status } }
    ctx' ←
        send env.crypto env.connected_response h.coder (record h.response { status = status }) ctx
    returned (h', ctx')

  -- A handler that answers, and stays the state.
  unfoldable pub answer : ℕ → ConnectedHandler → Ctx G → Outcome (Next × Ctx G)
  unfolding resp_with_status
  answer status h ctx = do
    (h', ctx') ← resp_with_status status h ctx
    returned (stays (connected h'), ctx')

  -- handleKex behind getKey256: the answer goes out in clear, then the coder is replaced.
  unfoldable pub complete_kex : Option (List ℕ) → ConnectedHandler → Ctx G → Outcome (Next × Ctx G)
  unfolding answer resp_with_status new_encrypted
  complete_kex none h ctx = answer status_request_error h ctx
  complete_kex (some key) h ctx = do
    let mcoder : Coder × G = new_encrypted env.crypto key ctx.entropy
    (h', ctx') ←
        resp_with_status status_ok (record h { is_kex_complete = true })
          (record ctx { entropy = mcoder.1 })
    returned (stays (connected (record h' { coder = mcoder.0 })), ctx')

  -- handleKex behind getPubKey and agree.
  unfoldable pub agreed_kex :
      Option (List ℕ) → Bool × Kex → ConnectedHandler → Ctx G → Outcome (Next × Ctx G)
  unfolding complete_kex answer
  agreed_kex none (done, k) h ctx = answer status_request_error h ctx
  agreed_kex (some pubkey) (false, k) h ctx = answer status_request_error h ctx
  agreed_kex (some pubkey) (true, k) h ctx =
      complete_kex (get_key256 env.crypto 32 k)
        (with_kex (record { alg = kex_ecdh; pkey = pubkey }) h) ctx

  -- handleKex behind loadOtherKeyArr.
  unfoldable pub loaded_kex : Bool × Kex → ConnectedHandler → Ctx G → Outcome (Next × Ctx G)
  unfolding agreed_kex answer
  loaded_kex (false, k) h ctx = answer status_request_error h ctx
  loaded_kex (true, k) h ctx =
      agreed_kex (get_pub_key k) (agree env.crypto k)
        (with_kex (record { alg = kex_ecdh; pkey = [] }) h) ctx

  -- `fresh` is the new x25519KexProtocol, whose uninitialized members are not known.
  unfoldable pub handle_kex : Kex → ConnectedHandler → Ctx G → Outcome (Next × Ctx G)
  unfolding loaded_kex answer
  handle_kex fresh h ctx =
      if h.is_kex_complete || not (has_kex h.request)
      then answer status_request_error h ctx
      else (let (k, g) = Kex.init env.crypto fresh ctx.entropy in
          let kex_req = kex_or_default h.request.kex in
          let ctx' : Ctx G = record ctx { entropy = g } in
          let h' : ConnectedHandler = with_kex (record { alg = 0; pkey = [] }) h in
          if not (kex_req.alg == kex_ecdh)
          then answer status_request_error h' ctx'
          else loaded_kex (load_other_key_arr kex_req.pkey k) h' ctx')

  unfoldable pub handle_auth_request : ConnectedHandler → Ctx G → Outcome (Next × Ctx G)
  unfolding answer resp_with_status
  handle_auth_request h ctx =
      if not h.is_kex_complete then answer status_request_error h ctx else (do
        (h', ctx') ← resp_with_status status_ok h ctx
        returned (set_state (some (authentication (Authentication.new h'.coder))), ctx'))

  -- The switch of handleFrame: a request of another type is not answered.
  unfoldable pub dispatch : Kex → ConnectedHandler → Ctx G → Outcome (Next × Ctx G)
  unfolding handle_kex handle_auth_request
  dispatch fresh h ctx =
      if h.request.type == request_kex
      then handle_kex fresh h ctx
      else if h.request.type == request_auth
      then handle_auth_request h ctx
      else returned (stays (connected h), ctx)

  unfoldable pub handle_decoded :
      Kex → Bool × ClientConnectedStateRequest → ConnectedHandler → Ctx G → Outcome (Next × Ctx G)
  unfolding dispatch answer
  handle_decoded fresh (true, req) h ctx = dispatch fresh (received req h) ctx
  handle_decoded fresh (false, req) h ctx = answer status_decode_error (received req h) ctx

  unfoldable pub handle_frame : Kex → Frame → ConnectedHandler → Ctx G → Outcome (Next × Ctx G)
  unfolding handle_decoded
  handle_frame fresh f h ctx =
      handle_decoded fresh (decode env.crypto env.connected_request h.coder f h.request) h ctx
