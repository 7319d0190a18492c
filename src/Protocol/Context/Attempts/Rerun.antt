-- ===== src/Protocol/Context/Attempts/Rerun.antt =====
-- ProtocolAuthenticationHandler::handleFrame and frames that do not decode.
use protocom.Prelude.{
  ℕ, suc, ◌+◌, ◌≡◌, ◌≢◌, ◌∙◌, refl, ap, true, false, not, ◌||◌, List, Option, none, some, arith,
  ◌==◌, leb, length, returned,
}
use protocom.Frame.{Frame}
use protocom.Messages.{ClientAuthRequest, auth_supply}
use protocom.Coder.{encrypted, decode, decode_encrypted}
use protocom.Kex.{Kex}
use protocom.Authenticator.{UserTable}
use protocom.Protocol.State.{Env, AuthenticationHandler, authentication, Ctx, Next}
use protocom.Protocol.Authentication
use protocom.Protocol.Authentication.{admits}
use protocom.Protocol.Context.{settle, run_handler}
use protocom.Protocol.Context.Answers.{Wrote-trans}
use protocom.Protocol.Context.Attempts.{
  Returns-bind, Returns-mono, Returns-eq, if_true, CanAnswer, IsOpen, IsOpen-Wrote, answer-Returns,
  Left, refuse_auth-suc, dispatch-refused,
}

module _ {G : Type 0} (env : Env G) (key : List ℕ) (auth : Option UserTable) where
  decode-header :
      (f : Frame) (prev : ClientAuthRequest)
      → f.header ≢ 0xF1
      → decode env.crypto env.auth_request (encrypted key) f prev ≡ (false, prev)
  unfolding decode decode_encrypted
  decode-header f prev n = if_true (leb f.len 16 || not (f.header == 0xF1)) _ _ (ground arith)

  -- Let the responses that the handler makes, each a status without a text, encode under the key, and
  -- let the sink be set. In the authentication state
  -- after a request to authenticate that the authenticator does not admit, with `n + 1` attempts
  -- left, a frame that is not sealed writes two responses, the second for the request before it, and
  -- leaves `n` attempts.
  pub undecodable-Left :
      (CanAnswer env key auth)
      → (n : ℕ) (fresh : Kex) (f : Frame) (h : AuthenticationHandler) (ctx : Ctx G)
      → (ctx.io_set ≡ true)
      → (ctx.authenticator ≡ auth)
      → (h.coder ≡ encrypted key)
      → (h.remaining_attempts ≡ suc n)
      → (h.request.request ≡ auth_supply)
      → (admits auth h.request ≡ false)
      → (f.header ≢ 0xF1)
      → (r : Next × Ctx G) × (run_handler env fresh f (authentication h) ctx ≡ returned r)
        × (length (settle r).ctx.written ≡ length ctx.written + 2)
        × ((h' : AuthenticationHandler) × ((settle r).state ≡ some (authentication h'))
            × (h'.remaining_attempts ≡ n))
  unfolding run_handler Authentication.handle_frame Authentication.handle_decoded
  undecodable-Left can n fresh f h ctx io same e r supply refused unsealed =
      let o : (IsOpen env key auth) ctx = record { io = io; authenticator = same } in
      let h₁ : AuthenticationHandler = Authentication.received h.request h in
      let (r', d, (w, l)) =
        Returns-eq (λ r'. (Left env key auth can) 2 n ctx (settle r')) _ _
          (ap
              (λ c.
                Authentication.handle_decoded env (decode env.crypto env.auth_request c f h.request)
                  h ctx)
              e
            ∙ ap (λ x. Authentication.handle_decoded env x h ctx)
                (decode-header f h.request unsealed))
          (Returns-bind _ _ _ _ ((answer-Returns env key auth can) 5 h₁ ctx (omega arith) refl o e)
            (λ x p.
              let o' : (IsOpen env key auth) x.1 = (IsOpen-Wrote env key auth) 1 ctx x.1 p.1 o in
              let bare : x.0.response.server_info ≡ none = ap (λ a. a.response.server_info) p.0 in
              let e' : x.0.coder ≡ encrypted key = ap (λ a. a.coder) p.0 ∙ e in
              Returns-eq _ _ _
                ((dispatch-refused env key auth can) x.0 x.1 bare o' e'
                  (ap (λ a. a.request.request) p.0 ∙ supply)
                  (ap (λ a. admits auth a.request) p.0 ∙ refused))
                (Returns-mono _ _ _
                  ((refuse_auth-suc env key auth can) x.0 x.1 bare o' e' n
                    (ap (λ a. a.remaining_attempts) p.0 ∙ r))
                  (λ r' (w, l). (Wrote-trans 1 1 2 ctx x.1 _ (omega arith) p.1 w, l))))) in
      let (h', state, sealed, left) = l in (r', d, w.count, (h', state, left))
