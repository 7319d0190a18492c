-- ===== src/Protocol/User.antt =====
-- ProtocolUserHandler.h and TestUserHandler.cpp: the state behind the authentication.
use protocom.Prelude.{ℕ, Bool, true, false, List, ◌++◌, Outcome, returned, ◌>>=◌}
use Prim.Native.String.{String}
use Prim.Native.Char.{code}
use mathlib.Core.List.{[], ◌∷◌}
use protocom.Frame.{Frame}
use protocom.Messages.{UserRequest}
use protocom.Coder.{decode}
use protocom.Protocol.State.{Env, UserHandler, user, Ctx, Next, stays, send}

-- The bytes of an ASCII text.
abbrev pub bytes : String → List ℕ
bytes String.[] = []
bytes (String.◌∷◌ c s) = code c ∷ bytes s

module _ {G : Type 0} (env : Env G) where
  unfoldable pub send_resp : UserHandler → Ctx G → Outcome (Next × Ctx G)
  unfolding send
  send_resp h ctx = do
    ctx' ← send env.crypto env.user_response h.coder h.response ctx
    returned (stays (user h), ctx')

  unfoldable pub handle_msg : UserRequest → UserHandler → Ctx G → Outcome (Next × Ctx G)
  unfolding send_resp
  handle_msg req h ctx =
      send_resp (record h { response = record { msg = bytes "You said: " ++ req.msg } }) ctx

  unfoldable pub handle_decode_err : UserHandler → Ctx G → Outcome (Next × Ctx G)
  unfolding send_resp
  handle_decode_err h ctx =
      send_resp (record h { response = record { msg = bytes "You stupid!!!!" } }) ctx

  unfoldable pub handle_decoded : Bool × UserRequest → UserHandler → Ctx G → Outcome (Next × Ctx G)
  unfolding handle_msg handle_decode_err
  handle_decoded (true, req) h ctx = handle_msg req (record h { request = req }) ctx
  handle_decoded (false, req) h ctx = handle_decode_err (record h { request = req }) ctx

  unfoldable pub handle_frame : Frame → UserHandler → Ctx G → Outcome (Next × Ctx G)
  unfolding handle_decoded
  handle_frame f h ctx =
      handle_decoded (decode env.crypto env.user_request h.coder f h.request) h ctx
