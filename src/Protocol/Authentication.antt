-- ===== src/Protocol/Authentication.antt =====
-- ProtocolAuthenticationHandler.cpp, with the factories that make its successor.
use protocom.Prelude.{
  ℕ, ◌-◌, Bool, true, false, [], Option, none, some, ◌==◌, ltb, if◌then◌else◌, Outcome, returned,
  ◌>>=◌,
}
use protocom.Frame.{Frame}
use protocom.Messages.{
  ClientAuthRequest, ServerAuthResponse, auth_supply, auth_accept, auth_reject, auth_continue,
  auth_invalid_request, auth_decode_error,
}
use protocom.Coder.{Coder, decode}
use protocom.Authenticator.{UserTable, authenticate}
use protocom.Protocol.State.{
  Env, AuthenticationHandler, UserHandler, Handler, authentication, user, Factory,
  null_user_handler_factory, test_user_handler_factory, Ctx, Next, stays, set_state, send,
}

abbrev pub empty_request : ClientAuthRequest
empty_request = record { request = 0; username = none; auth_credential = none }

abbrev pub empty_response : ServerAuthResponse
empty_response = record { status = 0; server_info = none }

-- The constructor.
abbrev pub new : Coder → AuthenticationHandler
new coder = record {
  coder = coder;
  request = empty_request;
  response = empty_response;
  remaining_attempts = 5;
}

-- ProtocolUserHandler's constructor.
abbrev pub new_user : Coder → UserHandler
new_user coder = record {
  coder = coder;
  request = record { msg = [] };
  response = record { msg = [] };
}

-- NullUserHandlerFactory::createHandler and TestUserHandlerFactory::createHandler.
unfoldable pub create_handler : Factory → Coder → Option Handler
create_handler null_user_handler_factory coder = none
create_handler test_user_handler_factory coder = some (user (new_user coder))

-- The state that proceedAuth sets.
unfoldable pub final_state : Option Factory → Coder → Option Handler
unfolding create_handler
final_state none coder = none
final_state (some factory) coder = create_handler factory coder

-- A null authenticator lets everybody in.
unfoldable pub admits : Option UserTable → ClientAuthRequest → Bool
admits none req = true
admits (some t) req = authenticate t req

-- The handler as handleFrame enters the test of decode's result: response prepared, request decoded.
abbrev pub received : ClientAuthRequest → AuthenticationHandler → AuthenticationHandler
received req h = record h {
  request = req;
  response = record { status = auth_invalid_request; server_info = none };
}

module _ {G : Type 0} (env : Env G) where
  unfoldable pub resp_with_status :
      ℕ → AuthenticationHandler → Ctx G → Outcome (AuthenticationHandler × Ctx G)
  unfolding send
  resp_with_status status h ctx = do
    let h' : AuthenticationHandler = record h { response = record h.response { status = status } }
    ctx' ← send env.crypto env.auth_response h.coder (record h.response { status = status }) ctx
    returned (h', ctx')

  unfoldable pub proceed_auth : AuthenticationHandler → Ctx G → Outcome (Next × Ctx G)
  unfolding resp_with_status final_state
  proceed_auth h ctx = do
    (h', ctx') ← resp_with_status auth_accept h ctx
    returned (set_state (final_state ctx'.final_state_factory h'.coder), ctx')

  -- doAuth behind a failed authenticate.
  unfoldable pub refuse_auth : AuthenticationHandler → Ctx G → Outcome (Next × Ctx G)
  unfolding resp_with_status
  refuse_auth h ctx =
      if ltb 0 h.remaining_attempts
      then (do
        (h', ctx') ←
            resp_with_status auth_continue
              (record h { remaining_attempts = h.remaining_attempts - 1 }) ctx
        returned (stays (authentication h'), ctx'))
      else (do (h', ctx') ← resp_with_status auth_reject h ctx; returned (set_state none, ctx'))

  unfoldable pub do_auth : AuthenticationHandler → Ctx G → Outcome (Next × Ctx G)
  unfolding proceed_auth refuse_auth admits
  do_auth h ctx =
      if admits ctx.authenticator h.request then proceed_auth h ctx else refuse_auth h ctx

  -- The switch of handleFrame.
  unfoldable pub dispatch : AuthenticationHandler → Ctx G → Outcome (Next × Ctx G)
  unfolding do_auth resp_with_status
  dispatch h ctx = if h.request.request == auth_supply then do_auth h ctx else (do
    (h', ctx') ← resp_with_status auth_invalid_request h ctx
    returned (stays (authentication h'), ctx'))

  -- A frame that does not decode is answered, and the switch is entered all the same.
  unfoldable pub handle_decoded :
      Bool × ClientAuthRequest → AuthenticationHandler → Ctx G → Outcome (Next × Ctx G)
  unfolding dispatch resp_with_status
  handle_decoded (true, req) h ctx = dispatch (received req h) ctx
  handle_decoded (false, req) h ctx = do
    (h', ctx') ← resp_with_status auth_decode_error (received req h) ctx
    dispatch h' ctx'

  unfoldable pub handle_frame : Frame → AuthenticationHandler → Ctx G → Outcome (Next × Ctx G)
  unfolding handle_decoded
  handle_frame f h ctx =
      handle_decoded (decode env.crypto env.auth_request h.coder f h.request) h ctx
