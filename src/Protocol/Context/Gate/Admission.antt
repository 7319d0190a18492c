-- ===== src/Protocol/Context/Gate/Admission.antt =====
-- The order of the states: ProtocolAuthenticationHandler.cpp.
use protocom.Prelude.{
  ℕ, ◌-◌, ◌≡◌, refl, ◌∙◌, sym, ap, subst, Bool, true, false, not, ◌||◌, List, Option, none, some,
  arith, ◌==◌, leb, ltb, take, drop, if◌then◌else◌, Holds, Holds-bind, ==_iff,
}
use protocom.Frame.{Frame}
use protocom.Messages.{ClientAuthRequest, auth_supply}
use protocom.Crypto.{block_size}
use protocom.Coder.{Coder, encrypted, decode, decode_encrypted, decode_opened, decode_plain}
use protocom.Authenticator.{UserTable}
use protocom.Protocol.State.{
  Env, AuthenticationHandler, authentication, Factory, Ctx, null_user_handler_factory,
  test_user_handler_factory,
}
use protocom.Protocol.Authentication
use protocom.Protocol.Authentication.{admits}
use protocom.Protocol.Context.Answers.{authentication_answer}
use protocom.Protocol.Context.Gate.{
  Supplied, Admitted, IsGuarded, IsGuardedState, IsGuardedNext, Guards, if-Guards,
}

module _ {G : Type 0} (env : Env G) (Received : Frame → Type 0) (auth : Option UserTable) where
  -- What a decode leaves in the handler's request.
  if-Supplied :
      (key : List ℕ) (b : Bool) (m n : Bool × ClientAuthRequest)
      → (b ≡ true → Supplied env Received auth key m.1)
      → (b ≡ false → Supplied env Received auth key n.1)
      → Supplied env Received auth key (if b then m else n).1
  if-Supplied key true m n p q = p refl
  if-Supplied key false m n p q = q refl

  decode_opened-Supplied :
      (key : List ℕ) (f : Frame) (prev : ClientAuthRequest) (r : Option (List ℕ))
      → Received f
      → (f.header ≡ 0xF1)
      → (env.crypto.unseal key
            (take block_size f.msg)
            (take (f.len - block_size) (drop block_size f.msg))
          ≡ r)
      → Supplied env Received auth key prev
      → Supplied env Received auth key (decode_opened env.crypto env.auth_request r prev).1
  unfolding decode_opened decode_plain
  decode_opened-Supplied key f prev none rec sealed e s = s
  decode_opened-Supplied key f prev (some text) rec sealed e s = λ _. record {
    frame = f;
    is_received = rec;
    is_sealed = sealed;
    text = text;
    unsealed = e;
    parsed = refl;
  }

  pub decode-Supplied :
      (c : Coder) (key : List ℕ) (f : Frame) (prev : ClientAuthRequest)
      → (c ≡ encrypted key)
      → Received f
      → Supplied env Received auth key prev
      → Supplied env Received auth key (decode env.crypto env.auth_request c f prev).1
  unfolding decode decode_encrypted
  decode-Supplied c key f prev e rec s =
      subst
        (λ c'. (Supplied env Received auth) key (decode env.crypto env.auth_request c' f prev).1)
        (sym e)
        (if-Supplied key (leb f.len block_size || not (f.header == 0xF1)) _ _ (λ _. s)
          (λ same.
            decode_opened-Supplied key f prev _ rec (sealed_header f.len f.header same) refl s))
    where
      sealed_header : (n x : ℕ) → (leb n block_size || not (x == 0xF1)) ≡ false → x ≡ 0xF1
      sealed_header n x g = ground arith

  -- The state of the authentication.
  module _ (key : List ℕ) (h : AuthenticationHandler) (ctx : Ctx G)
      (same : ctx.authenticator ≡ auth) (sealed : h.coder ≡ encrypted key)
      (s : (Supplied env Received auth) key h.request) where
    abbrev Kept : AuthenticationHandler × Ctx G → Type 0
    Kept x = ((x.0.coder ≡ encrypted key) × (x.0.request ≡ h.request)) × (x.1.authenticator ≡ auth)

    status-Kept : (status : ℕ) → Holds Kept (Authentication.resp_with_status env status h ctx)
    status-Kept status =
        authentication_answer env Kept status h ctx
          (λ ctx' w. ((sealed, refl), w.same_authenticator ∙ same))

    refuse_auth-Guards : (Guards env Received auth) (Authentication.refuse_auth env h ctx)
    unfolding Authentication.refuse_auth
    refuse_auth-Guards =
        if-Guards env Received auth (ltb 0 h.remaining_attempts) _ _
          (λ _.
            Holds-bind IsGuardedAfter (IsGuardedNext env Received auth) _ _
              (authentication_answer env IsGuardedAfter 3
                (record h { remaining_attempts = h.remaining_attempts - 1 }) ctx
                (λ ctx' w. ((key, sealed, s), w.same_authenticator ∙ same)))
              (λ x p. p))
          (λ _.
            Holds-bind Kept (IsGuardedNext env Received auth) _ _ (status-Kept 2)
              (λ x p. (tt, p.1)))
      where
        IsGuardedAfter : AuthenticationHandler × Ctx G → Type 0
        IsGuardedAfter x =
            (IsGuarded env Received auth) (authentication x.0) × (x.1.authenticator ≡ auth)

    final_state-Guarded :
        (factory : Option Factory) (c : Coder)
        → (c ≡ encrypted key)
        → Admitted env Received auth key
        → IsGuardedState env Received auth (Authentication.final_state factory c)
    unfolding Authentication.final_state Authentication.create_handler
    final_state-Guarded none c e a = tt
    final_state-Guarded (some null_user_handler_factory) c e a = tt
    final_state-Guarded (some test_user_handler_factory) c e a = (key, e, a)

    do_auth-Guards :
        h.request.request ≡ auth_supply
        → Guards env Received auth (Authentication.do_auth env h ctx)
    unfolding Authentication.do_auth Authentication.proceed_auth
    do_auth-Guards supply =
        if-Guards env Received auth (admits ctx.authenticator h.request) _ _
          (λ ok. Holds-bind Kept (IsGuardedNext env Received auth) _ _ (status-Kept 1) (λ x p. (
            final_state-Guarded _ x.0.coder p.0.0 (record {
              request = h.request;
              opened = s supply;
              is_admitted = sym (ap (λ a. admits a h.request) same) ∙ ok;
            }),
            p.1,
          )))
          (λ _. refuse_auth-Guards)

    authentication_dispatch-Guards : (Guards env Received auth) (Authentication.dispatch env h ctx)
    unfolding Authentication.dispatch
    authentication_dispatch-Guards =
        if-Guards env Received auth (h.request.request == auth_supply) _ _
          (λ e. do_auth-Guards ((==_iff _ _).0 e))
          (λ _.
            Holds-bind Kept (IsGuardedNext env Received auth) _ _ (status-Kept 4)
              (λ x p. ((key, p.0.0, subst ((Supplied env Received auth) key) (sym p.0.1) s), p.1)))

  pub authentication-Guards :
      (key : List ℕ) (r : Bool × ClientAuthRequest) (h : AuthenticationHandler) (ctx : Ctx G)
      → (ctx.authenticator ≡ auth)
      → (h.coder ≡ encrypted key)
      → Supplied env Received auth key r.1
      → Guards env Received auth (Authentication.handle_decoded env r h ctx)
  unfolding Authentication.handle_decoded
  authentication-Guards key (true, req) h ctx same sealed s =
      authentication_dispatch-Guards key (Authentication.received req h) ctx same sealed s
  authentication-Guards key (false, req) h ctx same sealed s =
      Holds-bind (Kept key (Authentication.received req h) ctx same sealed s)
        (IsGuardedNext env Received auth) _ _
        (status-Kept key (Authentication.received req h) ctx same sealed s 5)
        (λ x p.
          authentication_dispatch-Guards key x.0 x.1 p.1 p.0.0
            (subst ((Supplied env Received auth) key) (sym p.0.1) s))
