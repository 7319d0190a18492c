-- ===== src/Protocol/Context/Gate.antt =====
-- The order of the protocol's states in ProtocolContext.cpp and its handlers.
pub mod KeyExchange
pub mod Admission
pub mod Frames
use protocom.Prelude.{
  ℕ, ◌+◌, ◌-◌, ◌≡◌, ◌≢◌, ◌⊎◌, refl, ◌∙◌, sym, ap, subst, Bool, true, false, not, ◌||◌, List, [],
  ◌∷◌, Option, none, some, arith, ◌==◌, leb, ltb, Bool-cases, inl, inr, length, take, drop,
  if◌then◌else◌, Outcome, returned, threw, ◌>>=◌, Holds, Holds-bind, Holds-mono, Holds-returned,
  ==_iff,
}
use protocom.Frame.{Frame}
use protocom.Messages.{
  ClientAuthRequest, ClientConnectedStateRequest, UserRequest, auth_supply, kex_or_default,
  kex_ecdh, request_kex, request_auth,
}
use protocom.Crypto.{block_size}
use protocom.Coder.{
  Coder, plain, encrypted, decode, decode_encrypted, decode_opened, decode_plain, u16,
}
use protocom.Kex.{Kex, get_pub_key, agree, load_other_key_arr, init}
use protocom.Authenticator.{UserTable, authenticate}
use protocom.Protocol.State.{
  Env, ConnectedHandler, AuthenticationHandler, UserHandler, Handler, connected, authentication,
  user, Factory, Ctx, Next, stays, set_state, null_user_handler_factory, test_user_handler_factory,
  send,
}
use protocom.Protocol.Connected
use protocom.Protocol.Authentication
use protocom.Protocol.Authentication.{admits}
use protocom.Protocol.User
use protocom.Protocol.Context.{
  ProtocolContext, new, set_io, settle, run_handler, handle_in, handle_frame, handle_frames,
}
use protocom.Protocol.Context.Answers.{Wrote, send-Wrote, connected_answer, authentication_answer}

-- `Received` are the frames that came.
module _ {G : Type 0} (env : Env G) (Received : Frame → Type 0) (auth : Option UserTable) where
  -- The key opens a received sealed frame, and the request is what the parser leaves of its text.
  pub record Opened (key : List ℕ) (req : ClientAuthRequest) : Type 0 where
    pub frame : Frame
    pub is_received : Received frame
    pub is_sealed : frame.header ≡ 0xF1
    pub text : List ℕ
    pub unsealed :
        env.crypto.unseal key
          (take block_size frame.msg)
          (take (frame.len - block_size) (drop block_size frame.msg))
        ≡ some text
    pub parsed : (env.auth_request.parse_from_array (take (u16 (length text)) text)).1 ≡ req

  abbrev pub Supplied : List ℕ → ClientAuthRequest → Type 0
  Supplied key req = req.request ≡ auth_supply → Opened key req

  -- What brings a connection to the user state.
  pub record Admitted (key : List ℕ) : Type 0 where
    pub request : ClientAuthRequest
    pub opened : Opened key request
    pub is_admitted : admits auth request ≡ true

  abbrev pub IsEncrypted : Coder → Type 0
  IsEncrypted c = (key : List ℕ) × (c ≡ encrypted key)

  abbrev pub IsGuarded : Handler → Type 0
  IsGuarded (connected h) = h.is_kex_complete ≡ true → IsEncrypted h.coder
  IsGuarded (authentication h) = (key : List ℕ) × (h.coder ≡ encrypted key) × Supplied key h.request
  IsGuarded (user h) = (key : List ℕ) × (h.coder ≡ encrypted key) × Admitted key

  abbrev pub IsGuardedState : Option Handler → Type 0
  IsGuardedState none = Unit {0}
  IsGuardedState (some h) = IsGuarded h

  abbrev pub IsGuardedNext : Next × Ctx G → Type 0
  IsGuardedNext (stays h, ctx) = IsGuarded h × (ctx.authenticator ≡ auth)
  IsGuardedNext (set_state s, ctx) = IsGuardedState s × (ctx.authenticator ≡ auth)

  abbrev pub Guards : Outcome (Next × Ctx G) → Type 0
  Guards = Holds IsGuardedNext

  pub if-Guards :
      (b : Bool) (m n : Outcome (Next × Ctx G))
      → (b ≡ true → Guards m)
      → (b ≡ false → Guards n)
      → Guards (if b then m else n)
  if-Guards true m n p q = p refl
  if-Guards false m n p q = q refl

  pub not-false : (b : Bool) → not b ≡ false → b ≡ true
  not-false true e = refl
  not-false false e = cc

  pub empty_request-Supplied : (key : List ℕ) → Supplied key Authentication.empty_request
  empty_request-Supplied key e = absurd (omega arith)
