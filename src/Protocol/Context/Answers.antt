-- ===== src/Protocol/Context/Answers.antt =====
-- What an answer changes in the context: respWithStatus of both handlers.
use protocom.Prelude.{
  ℕ, ◌+◌, ◌≡◌, refl, ◌∙◌, Bool, true, false, [], ◌∷◌, ◌++◌, Option, none, some, arith, length,
  length-append, returned, threw, Holds, Holds-bind, if◌then◌else◌,
}
use protocom.Frame
use protocom.Frame.{Frame}
use protocom.Messages.{Codec}
use protocom.Crypto.{Crypto}
use protocom.Coder.{Coder, encode}
use protocom.Protocol.State.{
  Env, ConnectedHandler, AuthenticationHandler, Ctx, write_frame, write_encoded, send,
}
use protocom.Protocol.Connected
use protocom.Protocol.Authentication

module _ {G : Type 0} where
  -- `n` frames more, and the same sink, factory and authenticator.
  pub record Wrote (n : ℕ) (ctx ctx' : Ctx G) : Type 0 where
    pub count : length ctx'.written ≡ length ctx.written + n
    pub same_io : ctx'.io_set ≡ ctx.io_set
    pub same_factory : ctx'.final_state_factory ≡ ctx.final_state_factory
    pub same_authenticator : ctx'.authenticator ≡ ctx.authenticator

  pub Wrote-none : (ctx : Ctx G) → Wrote 0 ctx ctx
  Wrote-none ctx = record {
    count = omega arith;
    same_io = refl;
    same_factory = refl;
    same_authenticator = refl;
  }

  pub Wrote-trans :
      (m n k : ℕ) (a b c : Ctx G) → k ≡ m + n → Wrote m a b → Wrote n b c → Wrote k a c
  Wrote-trans m n k a b c e x y = record {
    count = omega arith;
    same_io = y.same_io ∙ x.same_io;
    same_factory = y.same_factory ∙ x.same_factory;
    same_authenticator = y.same_authenticator ∙ x.same_authenticator;
  }

  write_frame-Wrote :
      (f : Frame) (g : G) (ctx : Ctx G)
      → Holds (Wrote 1 ctx) (write_frame f (record ctx { entropy = g }))
  unfolding write_frame
  write_frame-Wrote f g ctx = by_io ctx.io_set
    where
      wrote : Wrote 1 ctx (record ctx { entropy = g; written = ctx.written ++ Frame.copy f ∷ [] })
      wrote = record {
        count = length-append ctx.written (Frame.copy f ∷ []);
        same_io = refl;
        same_factory = refl;
        same_authenticator = refl;
      }

      by_io :
          (b : Bool)
          → Holds (Wrote 1 ctx) (
              if b
              then returned (record ctx { entropy = g; written = ctx.written ++ Frame.copy f ∷ [] })
              else threw)
      by_io true = wrote
      by_io false = tt

  write_encoded-Wrote :
      (r : Option Frame × G) (ctx : Ctx G) → Holds (Wrote 1 ctx) (write_encoded r ctx)
  unfolding write_encoded
  write_encoded-Wrote (none, g) ctx = tt
  write_encoded-Wrote (some f, g) ctx = write_frame-Wrote f g ctx

  pub send-Wrote :
      {M : Type 0} (crypto : Crypto G) (codec : Codec M) (coder : Coder) (m : M) (ctx : Ctx G)
      → Holds (Wrote 1 ctx) (send crypto codec coder m ctx)
  unfolding send
  send-Wrote crypto codec coder m ctx =
      write_encoded-Wrote (encode crypto codec coder m ctx.entropy) ctx

module _ {G : Type 0} (env : Env G) where
  -- The handler after an answer differs in the response's status only.
  pub connected_answer {ℓ} :
      (P : ConnectedHandler × Ctx G → Type ℓ) (status : ℕ) (h : ConnectedHandler) (ctx : Ctx G)
      → ((ctx' : Ctx G)
          → Wrote 1 ctx ctx'
          → P (record h { response = record h.response { status = status } }, ctx'))
      → Holds P (Connected.resp_with_status env status h ctx)
  unfolding Connected.resp_with_status
  connected_answer P status h ctx k =
      Holds-bind (Wrote 1 ctx) P _ _
        (send-Wrote env.crypto env.connected_response h.coder
          (record h.response { status = status }) ctx)
        k

  pub authentication_answer {ℓ} :
      (P : AuthenticationHandler × Ctx G → Type ℓ) (status : ℕ) (h : AuthenticationHandler)
      (ctx : Ctx G)
      → ((ctx' : Ctx G)
          → Wrote 1 ctx ctx'
          → P (record h { response = record h.response { status = status } }, ctx'))
      → Holds P (Authentication.resp_with_status env status h ctx)
  unfolding Authentication.resp_with_status
  authentication_answer P status h ctx k =
      Holds-bind (Wrote 1 ctx) P _ _
        (send-Wrote env.crypto env.auth_response h.coder (record h.response { status = status })
          ctx)
        k
