-- ===== src/Protocol/State.antt =====
-- The data of ProtocolContext.h and of the handlers below ProtocolStateHandler.h, and the way by
-- which a handler answers: encode, then ProtocolContext::getIO and writeFrame.
use protocom.Prelude.{
  ℕ, Bool, List, [], ◌∷◌, ◌++◌, Option, none, some, if◌then◌else◌, Outcome, returned, threw,
}
use protocom.Frame
use protocom.Frame.{Frame}
use protocom.Messages.{
  ClientConnectedStateRequest, ServerConnectedStateResponse, ClientAuthRequest, ServerAuthResponse,
  UserRequest, ServerResponse, Codec,
}
use protocom.Crypto.{Crypto}
use protocom.Coder.{Coder, encode}
use protocom.Authenticator.{UserTable}

-- The libraries that the handlers call.
pub record Env (G : Type 0) : Type 0 where
  pub crypto : Crypto G
  pub connected_request : Codec ClientConnectedStateRequest
  pub connected_response : Codec ServerConnectedStateResponse
  pub auth_request : Codec ClientAuthRequest
  pub auth_response : Codec ServerAuthResponse
  pub user_request : Codec UserRequest
  pub user_response : Codec ServerResponse

pub record ConnectedHandler : Type 0 where
  pub coder : Coder
  pub request : ClientConnectedStateRequest
  pub response : ServerConnectedStateResponse
  pub is_kex_complete : Bool

pub record AuthenticationHandler : Type 0 where
  pub coder : Coder
  pub request : ClientAuthRequest
  pub response : ServerAuthResponse
  pub remaining_attempts : ℕ

-- ProtocolUserHandler, at the messages of TestUserHandler.
pub record UserHandler : Type 0 where
  pub coder : Coder
  pub request : UserRequest
  pub response : ServerResponse

pub data Handler : Type 0 where
  connected : ConnectedHandler → Handler
  authentication : AuthenticationHandler → Handler
  user : UserHandler → Handler

-- The factories of the repository.
pub data Factory : Type 0 where
  null_user_handler_factory test_user_handler_factory : Factory

-- What a context refers to: whether its sink is set, the factory, the server's authenticator (none
-- is the null pointer), the random pools, and the frames written to the sink, oldest first.
pub record Ctx (G : Type 0) : Type 0 where
  pub io_set : Bool
  pub final_state_factory : Option Factory
  pub authenticator : Option UserTable
  pub entropy : G
  pub written : List Frame

-- What a handler leaves: itself as the state, or the state of its call of setState, which deletes it.
pub data Next : Type 0 where
  stays : Handler → Next
  set_state : Option Handler → Next

module _ {G : Type 0} where
  -- getIO throws on a null sink; the sink keeps a copy.
  unfoldable pub write_frame : Frame → Ctx G → Outcome (Ctx G)
  write_frame f ctx =
      if ctx.io_set
      then returned (record ctx { written = ctx.written ++ Frame.copy f ∷ [] })
      else threw

  unfoldable pub write_encoded : Option Frame × G → Ctx G → Outcome (Ctx G)
  unfolding write_frame
  write_encoded (none, g) ctx = threw
  write_encoded (some f, g) ctx = write_frame f (record ctx { entropy = g })

  -- `if (!coder->encode(frame, msg)) throw ...; ctx.getIO().writeFrame(frame);`
  unfoldable pub send : {M : Type 0} → Crypto G → Codec M → Coder → M → Ctx G → Outcome (Ctx G)
  unfolding write_encoded
  send crypto codec coder m ctx = write_encoded (encode crypto codec coder m ctx.entropy) ctx
