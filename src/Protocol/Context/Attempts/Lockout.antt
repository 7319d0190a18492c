-- ===== src/Protocol/Context/Attempts/Lockout.antt =====
-- ProtocolAuthenticationHandler::doAuth and the attempts that are left.
use protocom.Prelude.{
  ℕ, zero, suc, ◌+◌, ◌≡◌, refl, ap, true, List, [], ◌∷◌, Option, none, some, arith, length,
  returned,
}
use protocom.Frame.{Frame}
use protocom.Coder.{encrypted}
use protocom.Kex.{Kex}
use protocom.Authenticator.{UserTable}
use protocom.Protocol.State.{Env, AuthenticationHandler, authentication, Ctx}
use protocom.Protocol.Authentication
use protocom.Protocol.Authentication.{admits}
use protocom.Protocol.Context.{ProtocolContext, run_handler, handle_in, handle_frame, handle_frames}
use protocom.Protocol.Context.Answers.{Wrote-trans}
use protocom.Protocol.Context.Attempts.{
  Returns, Returns-bind, Returns-mono, Returns-eq, CanAnswer, IsRefused, IsOpen, IsOpen-Wrote, Left,
  Closed, refuse_auth-suc, refuse_auth-zero, handle_frame-refused,
}

module _ {G : Type 0} (env : Env G) (key : List ℕ) (auth : Option UserTable) where
  abbrev AllRefused : List (Kex × Frame) → Type 0
  AllRefused [] = Unit {0}
  AllRefused ((fresh, f) ∷ fs) = IsRefused env key auth f × AllRefused fs

  module _ (can : (CanAnswer env key auth)) where
    handle_frames-Closed :
        (n : ℕ) (fs : List (Kex × Frame)) (h : AuthenticationHandler) (ctx : Ctx G)
        → IsOpen env key auth ctx
        → (h.coder ≡ encrypted key)
        → (h.remaining_attempts ≡ n)
        → (length fs ≡ suc n)
        → AllRefused fs
        → Returns
            ((Closed env key auth can) (suc n) ctx)
            (handle_frames env fs (record { ctx = ctx; state = some (authentication h) }))
    unfolding handle_frames handle_frame handle_in run_handler
    handle_frames-Closed n [] h ctx o e r l all = absurd (omega arith)
    handle_frames-Closed zero ((fresh, f) ∷ []) h ctx o e r l (bad, all) =
        Returns-bind ((Closed env key auth can) 1 ctx) _ _ _
          (Returns-bind _ _ _ _
            (Returns-eq _ _ _ ((handle_frame-refused env key auth can) f bad h ctx o e) (
              (refuse_auth-zero env key auth can) (Authentication.received bad.request h) ctx refl o
                e r))
            (λ x p. (_, refl, p)))
          (λ c p. (c, refl, p))
    handle_frames-Closed zero (g ∷ g' ∷ fs) h ctx o e r l all = absurd (omega arith)
    handle_frames-Closed (suc n) ((fresh, f) ∷ fs) h ctx o e r l (bad, all) =
        Returns-bind ((Left env key auth can) 1 n ctx) _ _ _
          (Returns-bind _ _ _ _
            (Returns-eq _ _ _ ((handle_frame-refused env key auth can) f bad h ctx o e) (
              (refuse_auth-suc env key auth can) (Authentication.received bad.request h) ctx refl o
                e n r))
            (λ x p. (_, refl, p)))
          (λ c (w, (h', s, e', r')).
            Returns-eq _ _ _
              (ap (λ st. handle_frames env fs (record { ctx = c.ctx; state = st })) s)
              (Returns-mono _ _ _
                (handle_frames-Closed n fs h' c.ctx ((IsOpen-Wrote env key auth) 1 ctx c.ctx w o) e'
                  r' (omega arith) all)
                (λ c' p.
                  (Wrote-trans 1 (suc n) (suc (suc n)) ctx c.ctx c'.ctx (omega arith) w p.0, p.1))))

  -- Let the responses that the handler makes, each a status without a text, encode under the key, and
  -- let the sink be set. A context in the
  -- authentication state with `n` attempts left, to which `n + 1` frames come, each of which opens to
  -- a request to authenticate that the authenticator does not admit, returns from all of them, has
  -- written `n + 1` responses, and is left without a state. (A new handler has 5 attempts left.)
  pub attempts-Closed :
      (CanAnswer env key auth)
      → (n : ℕ) (fs : List (Kex × Frame)) (h : AuthenticationHandler) (ctx : Ctx G)
      → (ctx.io_set ≡ true)
      → (ctx.authenticator ≡ auth)
      → (h.coder ≡ encrypted key)
      → (h.remaining_attempts ≡ n)
      → (length fs ≡ suc n)
      → AllRefused fs
      → (c : ProtocolContext G) × (handle_frames env fs
            (record { ctx = ctx; state = some (authentication h) })
          ≡ returned c)
        × (length c.ctx.written ≡ length ctx.written + suc n)
        × (c.state ≡ none)
  attempts-Closed can n fs h ctx io same e r l all =
      let (c, d, (w, s)) =
        handle_frames-Closed can n fs h ctx (record { io = io; authenticator = same }) e r l all in
      (c, d, w.count, s)
