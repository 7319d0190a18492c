-- ===== src/Protocol/Context/Attempts.antt =====
-- ProtocolAuthenticationHandler.cpp: the attempts, and what a refusal leaves.
pub mod Lockout
pub mod Rerun
use protocom.Prelude.{
  ℕ, zero, suc, ◌+◌, ◌-◌, ◌≡◌, ◌≢◌, ◌≤◌, refl, ◌∙◌, sym, ap, subst, Bool, true, false, not, ◌||◌,
  List, [], ◌∷◌, Option, none, some, arith, ◌==◌, leb, ltb, length, if◌then◌else◌, Outcome,
  returned, threw, ◌>>=◌, Holds, Holds-returned, ==_iff, ◌++◌,
}
use protocom.Frame
use protocom.Frame.{Frame}
use protocom.Messages.{ClientAuthRequest, ServerAuthResponse, auth_supply, auth_decode_error}
use protocom.Coder.{Coder, encrypted, encode, decode, decode_encrypted}
use protocom.Kex.{Kex}
use protocom.Authenticator.{UserTable}
use protocom.Protocol.State.{
  Env, AuthenticationHandler, Handler, authentication, Ctx, Next, stays, set_state, send,
  write_encoded, write_frame,
}
use protocom.Protocol.Authentication
use protocom.Protocol.Authentication.{admits}
use protocom.Protocol.Context.{
  ProtocolContext, settle, run_handler, handle_in, handle_frame, handle_frames,
}
use protocom.Protocol.Context.Answers.{Wrote, Wrote-none, Wrote-trans, send-Wrote}

abbrev pub Returns {ℓ} : {A : Type 0} → (A → Type ℓ) → Outcome A → Type ℓ
Returns {A} P m = (a : A) × (m ≡ returned a) × P a

pub Returns-bind {ℓ κ} :
    {A B : Type 0} (P : A → Type ℓ) (Q : B → Type κ) (m : Outcome A) (f : A → Outcome B)
    → Returns P m
    → ((a : A) → P a → Returns Q (f a))
    → Returns Q (m >>= f)
Returns-bind P Q m f (a, e, p) k = let (b, e', q) = k a p in (b, ap (λ o. o >>= f) e ∙ e', q)

pub Returns-mono {ℓ κ} :
    {A : Type 0} (P : A → Type ℓ) (Q : A → Type κ) (m : Outcome A)
    → Returns P m
    → ((a : A) → P a → Q a)
    → Returns Q m
Returns-mono P Q m (a, e, p) k = (a, e, k a p)

pub Returns-eq {ℓ} :
    {A : Type 0} (P : A → Type ℓ) (m n : Outcome A) → m ≡ n → Returns P n → Returns P m
Returns-eq P m n e (a, e', p) = (a, e ∙ e', p)

pub if_true : {A : Type 0} (b : Bool) (x y : A) → b ≡ true → (if b then x else y) ≡ x
if_true b x y e = ap (λ c. if c then x else y) e

if_false : {A : Type 0} (b : Bool) (x y : A) → b ≡ false → (if b then x else y) ≡ y
if_false b x y e = ap (λ c. if c then x else y) e

module _ {G : Type 0} (env : Env G) (key : List ℕ) (auth : Option UserTable) where
  -- The responses that the handler makes, each a status and no more, are encoded under the key.
  abbrev pub CanAnswer : Type 0
  CanAnswer =
      (status : ℕ) (g : G)
      → status ≤ auth_decode_error
      → (f : Frame) × (g' : G) × (encode env.crypto env.auth_response (encrypted key)
            (record { status = status; server_info = none }) g
          ≡ (some f, g'))

  -- The frame opens to a request to authenticate, which the authenticator does not admit.
  pub record IsRefused (f : Frame) : Type 0 where
    pub request : ClientAuthRequest
    pub decodes :
        (prev : ClientAuthRequest)
        → decode env.crypto env.auth_request (encrypted key) f prev ≡ (true, request)
    pub supplies : request.request ≡ auth_supply
    pub not_admitted : admits auth request ≡ false

  -- A context that can answer.
  pub record IsOpen (ctx : Ctx G) : Type 0 where
    pub io : ctx.io_set ≡ true
    pub authenticator : ctx.authenticator ≡ auth

  pub IsOpen-Wrote : (n : ℕ) (a b : Ctx G) → Wrote n a b → IsOpen a → IsOpen b
  IsOpen-Wrote n a b w o = record {
    io = w.same_io ∙ o.io;
    authenticator = w.same_authenticator ∙ o.authenticator;
  }

  module _ (can : CanAnswer) where
    send-Returns :
        (c : Coder) (m : ServerAuthResponse) (ctx : Ctx G)
        → m.status ≤ auth_decode_error
        → m.server_info ≡ none
        → IsOpen ctx
        → (c ≡ encrypted key)
        → Returns (Wrote 1 ctx) (send env.crypto env.auth_response c m ctx)
    unfolding send write_encoded write_frame
    send-Returns c m ctx small bare o e =
        let (f, g', enc) = can m.status ctx.entropy small in
        (
          _,
          sent f g' (bare_path ∙ enc),
          Holds-returned (Wrote 1 ctx) _ _ (sent f g' (bare_path ∙ enc))
              (send-Wrote env.crypto env.auth_response c m ctx),
        )
      where
        bare_path :
            encode env.crypto env.auth_response (encrypted key) m ctx.entropy
            ≡ encode env.crypto env.auth_response
                (encrypted key)
                (record { status = m.status; server_info = none })
                ctx.entropy
        bare_path =
            ap
              (λ (i : Option (List ℕ)).
                encode env.crypto env.auth_response (encrypted key)
                  (record { status = m.status; server_info = i }) ctx.entropy)
              bare

        sent :
            (f : Frame) (g' : G)
            → (encode env.crypto env.auth_response (encrypted key) m ctx.entropy ≡ (some f, g'))
            → send env.crypto env.auth_response c m ctx
              ≡ returned (record ctx { entropy = g'; written = ctx.written ++ Frame.copy f ∷ [] })
        sent f g' enc =
            ap (λ c'. write_encoded (encode env.crypto env.auth_response c' m ctx.entropy) ctx) e
            ∙ ap (λ r. write_encoded r ctx) enc
            ∙ if_true ctx.io_set _ _ o.io

    pub answer-Returns :
        (status : ℕ) (h : AuthenticationHandler) (ctx : Ctx G)
        → status ≤ auth_decode_error
        → h.response.server_info ≡ none
        → IsOpen ctx
        → (h.coder ≡ encrypted key)
        → Returns
            (λ (x : AuthenticationHandler × Ctx G).
              (x.0 ≡ record h { response = record h.response { status = status } })
              × Wrote 1 ctx x.1)
            (Authentication.resp_with_status env status h ctx)
    unfolding Authentication.resp_with_status
    answer-Returns status h ctx small bare o e =
        Returns-bind (Wrote 1 ctx) _ _ _ (send-Returns h.coder _ ctx small bare o e)
          (λ ctx' w. (_, refl, (refl, w)))

    -- The handler after a refusal with `n` attempts left, as `settle` leaves it.
    abbrev pub Left : ℕ → ℕ → Ctx G → ProtocolContext G → Type 0
    Left k n ctx c =
        Wrote k ctx c.ctx
        × ((h : AuthenticationHandler) × (c.state ≡ some (authentication h))
            × (h.coder ≡ encrypted key)
            × (h.remaining_attempts ≡ n))

    -- The context without a state.
    abbrev pub Closed : ℕ → Ctx G → ProtocolContext G → Type 0
    Closed k ctx c = Wrote k ctx c.ctx × (c.state ≡ none)

    module _ (h : AuthenticationHandler) (ctx : Ctx G) (bare : h.response.server_info ≡ none)
        (o : IsOpen ctx) (e : h.coder ≡ encrypted key) where
      pub refuse_auth-suc :
          (n : ℕ)
          → (h.remaining_attempts ≡ suc n)
          → Returns (λ r. Left 1 n ctx (settle r)) (Authentication.refuse_auth env h ctx)
      unfolding Authentication.refuse_auth settle
      refuse_auth-suc n r =
          let h' : AuthenticationHandler = record h {
            remaining_attempts = h.remaining_attempts - 1;
          } in
          Returns-eq _ _ _ (if_true (ltb 0 h.remaining_attempts) _ _ (ground arith)) (
            Returns-bind _ _ _ _ (answer-Returns 3 h' ctx (omega arith) bare o e) (λ x p. (
              _,
              refl,
              (
                p.1,
                (
                  x.0,
                  refl,
                  ap (λ a. a.coder) p.0 ∙ e,
                  ap (λ a. a.remaining_attempts) p.0 ∙ omega arith,
                ),
              ),
            )))

      pub refuse_auth-zero :
          h.remaining_attempts ≡ 0
          → Returns (λ r. Closed 1 ctx (settle r)) (Authentication.refuse_auth env h ctx)
      unfolding Authentication.refuse_auth settle
      refuse_auth-zero r =
          Returns-eq _ _ _ (if_false (ltb 0 h.remaining_attempts) _ _ (ground arith)) (
            Returns-bind _ _ _ _ (answer-Returns 2 h ctx (omega arith) bare o e)
              (λ x p. (_, refl, (p.1, refl))))

      -- A supplied request that is not admitted comes to the refusal.
      pub dispatch-refused :
          h.request.request ≡ auth_supply
          → admits auth h.request ≡ false
          → Authentication.dispatch env h ctx ≡ Authentication.refuse_auth env h ctx
      unfolding Authentication.dispatch Authentication.do_auth
      dispatch-refused supply refused =
          if_true (h.request.request == auth_supply) _ _ ((==_iff _ _).1 supply)
          ∙ if_false (admits ctx.authenticator h.request) _ _
              (ap (λ a. admits a h.request) o.authenticator ∙ refused)

    pub handle_frame-refused :
        (f : Frame) (bad : IsRefused f) (h : AuthenticationHandler) (ctx : Ctx G)
        → IsOpen ctx
        → (h.coder ≡ encrypted key)
        → Authentication.handle_frame env f h ctx
          ≡ Authentication.refuse_auth env (Authentication.received bad.request h) ctx
    unfolding Authentication.handle_frame Authentication.handle_decoded
    handle_frame-refused f bad h ctx o e =
        ap
          (λ c.
            Authentication.handle_decoded env (decode env.crypto env.auth_request c f h.request) h
              ctx)
          e
        ∙ ap (λ r. Authentication.handle_decoded env r h ctx) (bad.decodes h.request)
        ∙ dispatch-refused (Authentication.received bad.request h) ctx refl o e bad.supplies
            bad.not_admitted
