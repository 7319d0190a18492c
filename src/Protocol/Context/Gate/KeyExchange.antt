-- ===== src/Protocol/Context/Gate/KeyExchange.antt =====
-- The order of the states: ProtocolConnectedHandler.cpp.
use protocom.Prelude.{
  ℕ, ◌≡◌, refl, ◌∙◌, Bool, true, false, not, ◌||◌, List, [], Option, none, some, ◌==◌, Holds-bind,
}
use protocom.Frame.{Frame}
use protocom.Messages.{
  ClientConnectedStateRequest, kex_or_default, kex_ecdh, request_kex, request_auth,
}
use protocom.Coder.{new_encrypted}
use protocom.Kex.{Kex, get_pub_key, agree, load_other_key_arr, init}
use protocom.Authenticator.{UserTable}
use protocom.Protocol.State.{Env, ConnectedHandler, connected, Ctx, stays}
use protocom.Protocol.Connected
use protocom.Protocol.Context.Answers.{connected_answer}
use protocom.Protocol.Context.Gate.{
  IsEncrypted, IsGuardedNext, Guards, if-Guards, not-false, empty_request-Supplied,
}

module _ {G : Type 0} (env : Env G) (Received : Frame → Type 0) (auth : Option UserTable) where
  -- The state before the authentication.
  module _ (h : ConnectedHandler) (ctx : Ctx G) (same : ctx.authenticator ≡ auth) where
    answer-Guards :
        (status : ℕ)
        → (h.is_kex_complete ≡ true → IsEncrypted env Received auth h.coder)
        → Guards env Received auth (Connected.answer env status h ctx)
    unfolding Connected.answer
    answer-Guards status v =
        Holds-bind
          (λ (x : ConnectedHandler × Ctx G).
            (IsGuardedNext env Received auth) (stays (connected x.0), x.1))
          _ _ _ (connected_answer env _ status h ctx (λ ctx' w. (v, w.same_authenticator ∙ same)))
          (λ x p. p)

    complete_kex-Guards :
        (key : Option (List ℕ))
        → (h.is_kex_complete ≡ true → IsEncrypted env Received auth h.coder)
        → Guards env Received auth (Connected.complete_kex env key h ctx)
    unfolding Connected.complete_kex new_encrypted
    complete_kex-Guards none v = answer-Guards _ v
    complete_kex-Guards (some key) v =
        Holds-bind (λ (x : ConnectedHandler × Ctx G). x.1.authenticator ≡ auth)
          (IsGuardedNext env Received auth) _ _
          (connected_answer env (λ (x : ConnectedHandler × Ctx G). x.1.authenticator ≡ auth) 1
            (record h { is_kex_complete = true })
            (record ctx { entropy = (new_encrypted env.crypto key ctx.entropy).1 })
            (λ ctx' w. w.same_authenticator ∙ same))
          (λ x p. ((λ _. (key, refl)), p))

    handle_auth_request-Guards :
        (h.is_kex_complete ≡ true → IsEncrypted env Received auth h.coder)
        → Guards env Received auth (Connected.handle_auth_request env h ctx)
    unfolding Connected.handle_auth_request
    handle_auth_request-Guards v =
        if-Guards env Received auth (not h.is_kex_complete) _ _ (λ _. answer-Guards _ v)
          (λ done.
            Holds-bind
              (λ (x : ConnectedHandler × Ctx G).
                (IsEncrypted env Received auth) x.0.coder × (x.1.authenticator ≡ auth))
              (IsGuardedNext env Received auth) _ _
              (connected_answer env
                (λ (x : ConnectedHandler × Ctx G).
                  (IsEncrypted env Received auth) x.0.coder × (x.1.authenticator ≡ auth))
                1 h ctx
                (λ ctx' w. (
                  v (not-false env Received auth h.is_kex_complete done),
                  w.same_authenticator ∙ same,
                )))
              (λ x (enc, p). ((enc.0, enc.1, (empty_request-Supplied env Received auth) enc.0), p)))

  agreed_kex-Guards :
      (pubkey : Option (List ℕ)) (r : Bool × Kex) (h : ConnectedHandler) (ctx : Ctx G)
      → (ctx.authenticator ≡ auth)
      → (h.is_kex_complete ≡ true → IsEncrypted env Received auth h.coder)
      → Guards env Received auth (Connected.agreed_kex env pubkey r h ctx)
  unfolding Connected.agreed_kex
  agreed_kex-Guards none (done, k) h ctx same v = answer-Guards h ctx same _ v
  agreed_kex-Guards (some pubkey) (false, k) h ctx same v = answer-Guards h ctx same _ v
  agreed_kex-Guards (some pubkey) (true, k) h ctx same v = complete_kex-Guards _ ctx same _ v

  loaded_kex-Guards :
      (r : Bool × Kex) (h : ConnectedHandler) (ctx : Ctx G)
      → (ctx.authenticator ≡ auth)
      → (h.is_kex_complete ≡ true → IsEncrypted env Received auth h.coder)
      → Guards env Received auth (Connected.loaded_kex env r h ctx)
  unfolding Connected.loaded_kex
  loaded_kex-Guards (false, k) h ctx same v = answer-Guards h ctx same _ v
  loaded_kex-Guards (true, k) h ctx same v =
      agreed_kex-Guards (get_pub_key k) (agree env.crypto k)
        (Connected.with_kex (record { alg = 1; pkey = [] }) h) ctx same v

  handle_kex-Guards :
      (fresh : Kex) (h : ConnectedHandler) (ctx : Ctx G)
      → (ctx.authenticator ≡ auth)
      → (h.is_kex_complete ≡ true → IsEncrypted env Received auth h.coder)
      → Guards env Received auth (Connected.handle_kex env fresh h ctx)
  unfolding Connected.handle_kex
  handle_kex-Guards fresh h ctx same v =
      if-Guards env Received auth (h.is_kex_complete || not (Connected.has_kex h.request)) _ _
        (λ _. answer-Guards h ctx same _ v)
        (λ _.
          if-Guards env Received auth (not ((kex_or_default h.request.kex).alg == kex_ecdh)) _ _
            (λ _.
              answer-Guards (Connected.with_kex (record { alg = 0; pkey = [] }) h) generated same _
                v)
            (λ _.
              loaded_kex-Guards
                (load_other_key_arr (kex_or_default h.request.kex).pkey
                  (init env.crypto fresh ctx.entropy).0)
                (Connected.with_kex (record { alg = 0; pkey = [] }) h) generated same v))
    where
      generated : Ctx G
      generated = record ctx { entropy = (init env.crypto fresh ctx.entropy).1 }

  pub connected-Guards :
      (fresh : Kex) (r : Bool × ClientConnectedStateRequest) (h : ConnectedHandler) (ctx : Ctx G)
      → (ctx.authenticator ≡ auth)
      → (h.is_kex_complete ≡ true → IsEncrypted env Received auth h.coder)
      → Guards env Received auth (Connected.handle_decoded env fresh r h ctx)
  unfolding Connected.handle_decoded Connected.dispatch
  connected-Guards fresh (false, req) h ctx same v =
      answer-Guards (Connected.received req h) ctx same _ v
  connected-Guards fresh (true, req) h ctx same v =
      if-Guards env Received auth (req.type == request_kex) _ _
        (λ _. handle_kex-Guards fresh (Connected.received req h) ctx same v)
        (λ _.
          if-Guards env Received auth (req.type == request_auth) _ _
            (λ _. handle_auth_request-Guards (Connected.received req h) ctx same v)
            (λ _. (v, same)))
