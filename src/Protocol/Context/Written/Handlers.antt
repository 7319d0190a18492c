-- ===== src/Protocol/Context/Written/Handlers.antt =====
-- The handlers and ProtocolContext::handleFrame, by the frames that they write.
use protocom.Prelude.{
  ℕ, ◌-◌, Bool, true, false, not, ◌||◌, List, [], Option, none, some, ltb, ◌==◌, if-both, Outcome,
  ◌>>=◌, Holds, Holds-bind,
}
use protocom.Frame.{Frame}
use protocom.Messages.{
  ClientConnectedStateRequest, ClientAuthRequest, UserRequest, kex_or_default, kex_ecdh,
  request_kex, request_auth, auth_supply,
}
use protocom.Coder.{decode, new_encrypted}
use protocom.Kex
use protocom.Kex.{Kex, get_pub_key, agree, load_other_key_arr, get_key256}
use protocom.Protocol.State.{
  Env, ConnectedHandler, AuthenticationHandler, UserHandler, Handler, connected, authentication,
  user, Ctx, Next, stays, set_state,
}
use protocom.Protocol.Connected
use protocom.Protocol.Authentication
use protocom.Protocol.Authentication.{admits}
use protocom.Protocol.User
use protocom.Protocol.Context.{ProtocolContext, settle, run_handler, handle_in, handle_frame}
use protocom.Protocol.Context.Written.{Fills, AllFull, send-AllFull}

module _ {G : Type 0} (env : Env G) (connected_fills : Fills env.connected_response)
    (auth_fills : Fills env.auth_response) (user_fills : Fills env.user_response) where
  abbrev HasFull : Next × Ctx G → Type 0
  HasFull r = AllFull r.1.written

  abbrev Full : Outcome (Next × Ctx G) → Type 0
  Full = Holds HasFull

  -- The handlers one after the other, each at a context that has written full frames only.
  module _ (ctx : Ctx G) (all : AllFull ctx.written) where
    connected_resp-Full :
        (status : ℕ) (h : ConnectedHandler)
        → Holds
            (λ (x : ConnectedHandler × Ctx G). AllFull x.1.written)
            (Connected.resp_with_status env status h ctx)
    unfolding Connected.resp_with_status
    connected_resp-Full status h =
        Holds-bind (λ (ctx' : Ctx G). AllFull ctx'.written)
          (λ (x : ConnectedHandler × Ctx G). AllFull x.1.written) _ _
          (send-AllFull env.crypto env.connected_response connected_fills h.coder _ ctx all)
          (λ ctx' full. full)

    answer-Full : (status : ℕ) (h : ConnectedHandler) → Full (Connected.answer env status h ctx)
    unfolding Connected.answer
    answer-Full status h =
        Holds-bind (λ (x : ConnectedHandler × Ctx G). AllFull x.1.written) HasFull _ _
          (connected_resp-Full status h) (λ x full. full)

    auth_resp-Full :
        (status : ℕ) (h : AuthenticationHandler)
        → Holds
            (λ (x : AuthenticationHandler × Ctx G). AllFull x.1.written)
            (Authentication.resp_with_status env status h ctx)
    unfolding Authentication.resp_with_status
    auth_resp-Full status h =
        Holds-bind (λ (ctx' : Ctx G). AllFull ctx'.written)
          (λ (x : AuthenticationHandler × Ctx G). AllFull x.1.written) _ _
          (send-AllFull env.crypto env.auth_response auth_fills h.coder _ ctx all)
          (λ ctx' full. full)

    handle_auth_request-Full :
        (h : ConnectedHandler) → Full (Connected.handle_auth_request env h ctx)
    unfolding Connected.handle_auth_request
    handle_auth_request-Full h = if-both Full (not h.is_kex_complete) _ _ (answer-Full _ h) (
        Holds-bind (λ (x : ConnectedHandler × Ctx G). AllFull x.1.written) HasFull _ _
          (connected_resp-Full _ h) (λ x full. full))

    auth_dispatch-Full : (h : AuthenticationHandler) → Full (Authentication.dispatch env h ctx)
    unfolding Authentication.dispatch Authentication.do_auth Authentication.proceed_auth
        Authentication.refuse_auth
    auth_dispatch-Full h =
        if-both Full (h.request.request == auth_supply) _ _
          (if-both Full (admits ctx.authenticator h.request) _ _ (answers _ _ h (λ x full. full)) (
            if-both Full (ltb 0 h.remaining_attempts) _ _
              (answers _ _ (record h { remaining_attempts = h.remaining_attempts - 1 })
                (λ x full. full))
              (answers _ _ h (λ x full. full))))
          (answers _ _ h (λ x full. full))
      where
        answers :
            (next : AuthenticationHandler × Ctx G → Outcome (Next × Ctx G)) (status : ℕ)
            (h' : AuthenticationHandler)
            → ((x : AuthenticationHandler × Ctx G) → AllFull x.1.written → Full (next x))
            → Full (Authentication.resp_with_status env status h' ctx >>= next)
        answers next status h' k =
            Holds-bind (λ (x : AuthenticationHandler × Ctx G). AllFull x.1.written) HasFull _ _
              (auth_resp-Full status h') k

    user-Full : (r : Bool × UserRequest) (h : UserHandler) → Full (User.handle_decoded env r h ctx)
    unfolding User.handle_decoded User.handle_msg User.handle_decode_err User.send_resp
    user-Full (true, req) h =
        Holds-bind (λ (ctx' : Ctx G). AllFull ctx'.written) HasFull _ _
          (send-AllFull env.crypto env.user_response user_fills h.coder _ ctx all)
          (λ ctx' full. full)
    user-Full (false, req) h =
        Holds-bind (λ (ctx' : Ctx G). AllFull ctx'.written) HasFull _ _
          (send-AllFull env.crypto env.user_response user_fills h.coder _ ctx all)
          (λ ctx' full. full)

  auth-Full :
      (r : Bool × ClientAuthRequest) (h : AuthenticationHandler) (ctx : Ctx G)
      → AllFull ctx.written
      → Full (Authentication.handle_decoded env r h ctx)
  unfolding Authentication.handle_decoded
  auth-Full (true, req) h ctx all = auth_dispatch-Full ctx all (Authentication.received req h)
  auth-Full (false, req) h ctx all =
      Holds-bind (λ (x : AuthenticationHandler × Ctx G). AllFull x.1.written) HasFull _ _
        (auth_resp-Full ctx all _ (Authentication.received req h))
        (λ x full. auth_dispatch-Full x.1 full x.0)

  complete_kex-Full :
      (key : Option (List ℕ)) (h : ConnectedHandler) (ctx : Ctx G)
      → AllFull ctx.written
      → Full (Connected.complete_kex env key h ctx)
  unfolding Connected.complete_kex new_encrypted
  complete_kex-Full none h ctx all = answer-Full ctx all _ h
  complete_kex-Full (some key) h ctx all =
      Holds-bind (λ (x : ConnectedHandler × Ctx G). AllFull x.1.written) HasFull _ _
        (connected_resp-Full (record ctx { entropy = (new_encrypted env.crypto key ctx.entropy).1 })
          all _ (record h { is_kex_complete = true }))
        (λ x full. full)

  agreed_kex-Full :
      (pubkey : Option (List ℕ)) (r : Bool × Kex) (h : ConnectedHandler) (ctx : Ctx G)
      → AllFull ctx.written
      → Full (Connected.agreed_kex env pubkey r h ctx)
  unfolding Connected.agreed_kex
  agreed_kex-Full none (done, k) h ctx all = answer-Full ctx all _ h
  agreed_kex-Full (some pubkey) (false, k) h ctx all = answer-Full ctx all _ h
  agreed_kex-Full (some pubkey) (true, k) h ctx all = complete_kex-Full _ _ ctx all

  loaded_kex-Full :
      (r : Bool × Kex) (h : ConnectedHandler) (ctx : Ctx G)
      → AllFull ctx.written
      → Full (Connected.loaded_kex env r h ctx)
  unfolding Connected.loaded_kex
  loaded_kex-Full (false, k) h ctx all = answer-Full ctx all _ h
  loaded_kex-Full (true, k) h ctx all =
      agreed_kex-Full (get_pub_key k) (agree env.crypto k) _ ctx all

  handle_kex-Full :
      (fresh : Kex) (h : ConnectedHandler) (ctx : Ctx G)
      → AllFull ctx.written
      → Full (Connected.handle_kex env fresh h ctx)
  unfolding Connected.handle_kex
  handle_kex-Full fresh h ctx all =
      let (k, g) = Kex.init env.crypto fresh ctx.entropy in
      let ctx' : Ctx G = record ctx { entropy = g } in
      if-both Full (h.is_kex_complete || not (Connected.has_kex h.request)) _ _
        (answer-Full ctx all _ h)
        (if-both Full (not ((kex_or_default h.request.kex).alg == kex_ecdh)) _ _
          (answer-Full ctx' all _ (Connected.with_kex (record { alg = 0; pkey = [] }) h))
          (loaded_kex-Full (load_other_key_arr (kex_or_default h.request.kex).pkey k) _ ctx' all))

  connected-Full :
      (fresh : Kex) (r : Bool × ClientConnectedStateRequest) (h : ConnectedHandler) (ctx : Ctx G)
      → AllFull ctx.written
      → Full (Connected.handle_decoded env fresh r h ctx)
  unfolding Connected.handle_decoded Connected.dispatch
  connected-Full fresh (false, req) h ctx all = answer-Full ctx all _ (Connected.received req h)
  connected-Full fresh (true, req) h ctx all =
      if-both Full (req.type == request_kex) _ _
        (handle_kex-Full fresh (Connected.received req h) ctx all)
        (if-both Full (req.type == request_auth) _ _
          (handle_auth_request-Full ctx all (Connected.received req h)) all)

  run_handler-Full :
      (fresh : Kex) (f : Frame) (h : Handler) (ctx : Ctx G)
      → AllFull ctx.written
      → Full (run_handler env fresh f h ctx)
  unfolding run_handler Connected.handle_frame Authentication.handle_frame User.handle_frame
  run_handler-Full fresh f (connected h) ctx all =
      connected-Full fresh (decode env.crypto env.connected_request h.coder f h.request) h ctx all
  run_handler-Full fresh f (authentication h) ctx all =
      auth-Full (decode env.crypto env.auth_request h.coder f h.request) h ctx all
  run_handler-Full fresh f (user h) ctx all =
      user-Full ctx all (decode env.crypto env.user_request h.coder f h.request) h

  -- Where Protocol Buffers fills the buffer of each response: a frame that is handled leaves a
  -- context that has written full frames only.
  pub handle_frame-AllFull :
      (fresh : Kex) (f : Frame) (c : ProtocolContext G)
      → AllFull c.ctx.written
      → Holds (λ (c' : ProtocolContext G). AllFull c'.ctx.written) (handle_frame env fresh f c)
  unfolding handle_frame handle_in settle
  handle_frame-AllFull fresh f c all = by_state c.state
    where
      settled : (r : Next × Ctx G) → HasFull r → AllFull (settle r).ctx.written
      settled (stays h, ctx) full = full
      settled (set_state s, ctx) full = full

      by_state :
          (o : Option Handler)
          → Holds
              (λ (c' : ProtocolContext G). AllFull c'.ctx.written)
              (handle_in env fresh f o c.ctx)
      by_state none = all
      by_state (some h) =
          Holds-bind HasFull (λ (c' : ProtocolContext G). AllFull c'.ctx.written) _ _
            (run_handler-Full fresh f h c.ctx all) (λ r full. settled r full)
