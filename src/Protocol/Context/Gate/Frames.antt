-- ===== src/Protocol/Context/Gate/Frames.antt =====
-- The order of the states: the user's handler, and a connection's frames one after the other.
use protocom.Prelude.{
  ◌≡◌, refl, ◌∙◌, Bool, true, false, List, [], ◌∷◌, Option, none, some, returned, Holds, Holds-bind,
  Holds-returned,
}
use protocom.Frame.{Frame}
use protocom.Messages.{UserRequest}
use protocom.Coder.{decode}
use protocom.Kex.{Kex}
use protocom.Authenticator.{UserTable}
use protocom.Protocol.State.{
  Env, UserHandler, Handler, connected, authentication, user, Factory, Ctx, Next, stays, set_state,
}
use protocom.Protocol.Connected
use protocom.Protocol.Authentication
use protocom.Protocol.Authentication.{admits}
use protocom.Protocol.User
use protocom.Protocol.Context.{
  ProtocolContext, new, set_io, settle, run_handler, handle_in, handle_frame, handle_frames,
}
use protocom.Protocol.Context.Answers.{Wrote, send-Wrote}
use protocom.Protocol.Context.Gate.{IsGuarded, IsGuardedState, IsGuardedNext, Guards}
use protocom.Protocol.Context.Gate.KeyExchange.{connected-Guards}
use protocom.Protocol.Context.Gate.Admission.{authentication-Guards, decode-Supplied}

module _ {G : Type 0} (env : Env G) (Received : Frame → Type 0) (auth : Option UserTable) where
  send_resp-Guards :
      (h : UserHandler) (ctx : Ctx G)
      → (ctx.authenticator ≡ auth)
      → IsGuarded env Received auth (user h)
      → Guards env Received auth (User.send_resp env h ctx)
  unfolding User.send_resp
  send_resp-Guards h ctx same v =
      Holds-bind (Wrote 1 ctx) (IsGuardedNext env Received auth) _ _
        (send-Wrote env.crypto env.user_response h.coder h.response ctx)
        (λ ctx' w. (v, w.same_authenticator ∙ same))

  user-Guards :
      (r : Bool × UserRequest) (h : UserHandler) (ctx : Ctx G)
      → (ctx.authenticator ≡ auth)
      → IsGuarded env Received auth (user h)
      → Guards env Received auth (User.handle_decoded env r h ctx)
  unfolding User.handle_decoded User.handle_msg User.handle_decode_err
  user-Guards (true, req) h ctx same v = send_resp-Guards _ ctx same v
  user-Guards (false, req) h ctx same v = send_resp-Guards _ ctx same v

  run_handler-Guards :
      (fresh : Kex) (f : Frame) (h : Handler) (ctx : Ctx G)
      → Received f
      → (ctx.authenticator ≡ auth)
      → IsGuarded env Received auth h
      → Guards env Received auth (run_handler env fresh f h ctx)
  unfolding run_handler Connected.handle_frame Authentication.handle_frame User.handle_frame
  run_handler-Guards fresh f (connected h) ctx rec same v =
      connected-Guards env Received auth fresh
        (decode env.crypto env.connected_request h.coder f h.request) h ctx same v
  run_handler-Guards fresh f (authentication h) ctx rec same (key, sealed, s) =
      authentication-Guards env Received auth key
        (decode env.crypto env.auth_request h.coder f h.request) h ctx same sealed
        (decode-Supplied env Received auth h.coder key f h.request sealed rec s)
  run_handler-Guards fresh f (user h) ctx rec same v =
      user-Guards (decode env.crypto env.user_request h.coder f h.request) h ctx same v

  abbrev pub IsGuardedContext : ProtocolContext G → Type 0
  IsGuardedContext c = (IsGuardedState env Received auth) c.state × (c.ctx.authenticator ≡ auth)

  settle-Guarded :
      (r : Next × Ctx G) → IsGuardedNext env Received auth r → IsGuardedContext (settle r)
  unfolding settle
  settle-Guarded (stays h, ctx) p = p
  settle-Guarded (set_state s, ctx) p = p

  pub handle_in-Guards :
      (fresh : Kex) (f : Frame) (s : Option Handler) (ctx : Ctx G)
      → Received f
      → (ctx.authenticator ≡ auth)
      → IsGuardedState env Received auth s
      → Holds IsGuardedContext (handle_in env fresh f s ctx)
  unfolding handle_in
  handle_in-Guards fresh f none ctx rec same v = (tt, same)
  handle_in-Guards fresh f (some h) ctx rec same v =
      Holds-bind (IsGuardedNext env Received auth) IsGuardedContext _ _
        (run_handler-Guards fresh f h ctx rec same v) settle-Guarded

  abbrev AllReceived : List (Kex × Frame) → Type 0
  AllReceived [] = Unit {0}
  AllReceived ((fresh, f) ∷ fs) = Received f × AllReceived fs

  handle_frames-Guards :
      (fs : List (Kex × Frame)) (c : ProtocolContext G)
      → AllReceived fs
      → IsGuardedContext c
      → Holds IsGuardedContext (handle_frames env fs c)
  unfolding handle_frames handle_frame
  handle_frames-Guards [] c all v = v
  handle_frames-Guards ((fresh, f) ∷ fs) c (rec, all) v =
      Holds-bind IsGuardedContext IsGuardedContext _ _
        (handle_in-Guards fresh f c.state c.ctx rec v.1 v.0)
        (λ c' v'. handle_frames-Guards fs c' all v')

  -- From a new context, after any frames, each of which satisfies `Received`: a connected handler
  -- with a complete key exchange and every later handler seal with a key; and a context in the user
  -- state has, under that key, a sealed received frame that the key opens, from whose text the
  -- parser leaves a request that the server's authenticator admits.
  pub handle_frames-Guarded :
      (factory : Option Factory) (g : G) (fs : List (Kex × Frame)) (c : ProtocolContext G)
      → AllReceived fs
      → (handle_frames env fs (set_io true (new factory auth g)) ≡ returned c)
      → IsGuardedState env Received auth c.state
  handle_frames-Guarded factory g fs c all e =
      (Holds-returned IsGuardedContext _ c e
        (handle_frames-Guards fs _ all ((λ done. absurd (cc)), refl))).0
