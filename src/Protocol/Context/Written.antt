-- ===== src/Protocol/Context/Written.antt =====
-- The frames that the handlers write: each is a coder's, with as many bytes as its length says.
pub mod Handlers
use protocom.Prelude.{
  ℕ, ◌-◌, ◌%◌, ◌≤◌, ◌<◌, ◌≡◌, refl, sym, ap, ◌∙◌, subst, Bool, true, false, not, ◌||◌, List, [],
  ◌∷◌, ◌++◌, Option, none, some, arith, length, take, length-take, ltb, ◌==◌, if◌then◌else◌, if-in,
  if-both, Outcome, returned, threw, ◌>>=◌, Holds, Holds-bind, Holds-all,
}
use mathlib.Core.Option.{some_inj}
use protocom.Frame
use protocom.Frame.{Frame}
use protocom.Messages.{
  Codec, ClientConnectedStateRequest, ClientAuthRequest, UserRequest, ServerConnectedStateResponse,
  ServerAuthResponse, ServerResponse, kex_or_default, kex_ecdh, request_kex, request_auth,
  auth_supply,
}
use protocom.Crypto.{Crypto, block_size}
use protocom.Coder.{
  Coder, plain, encrypted, borrowed, u16, encode_plain, seal_frame, sealed_frame, encode_encrypted,
  encode, decode, new_encrypted,
}
use protocom.Kex
use protocom.Kex.{Kex, get_pub_key, agree, load_other_key_arr, get_key256}
use protocom.Protocol.State.{
  Env, ConnectedHandler, AuthenticationHandler, UserHandler, Handler, connected, authentication,
  user, Ctx, Next, stays, set_state, send, write_encoded, write_frame,
}
use protocom.Protocol.Connected
use protocom.Protocol.Authentication
use protocom.Protocol.Authentication.{admits}
use protocom.Protocol.User
use protocom.Protocol.Context.{ProtocolContext, settle, run_handler, handle_in, handle_frame}

-- SerializeToArray fills a buffer of ByteSizeLong bytes.
abbrev pub Fills : {M : Type 0} → Codec M → Type 0
Fills {M} codec =
    (m : M) (bs : List ℕ)
    → codec.serialize_to_array m (codec.byte_size_long m) ≡ some bs
    → length bs ≡ codec.byte_size_long m

abbrev pub IsFull : Frame → Type 0
IsFull f = (f.len ≤ length f.msg) × (f.len < 65536)

abbrev pub AllFull : List Frame → Type 0
AllFull [] = Unit {0}
AllFull (f ∷ fs) = IsFull f × AllFull fs

AllFull-append : (xs : List Frame) (f : Frame) → AllFull xs → IsFull f → AllFull (xs ++ f ∷ [])
AllFull-append [] f all full = (full, tt)
AllFull-append (x ∷ xs) f (first, all) full = (first, AllFull-append xs f all full)

-- The copy of a full frame has its true length.
pub copy-IsFull : (f : Frame) → IsFull f → (length (Frame.copy f).msg ≡ f.len) × (f.len < 65536)
copy-IsFull f (full, fits) = (omega (arith, length-take f.len f.msg, full), fits)

abbrev IsFullOption : Option Frame → Type 0
IsFullOption none = Unit {0}
IsFullOption (some f) = IsFull f

sealed_frame-IsFull : (iv : List ℕ) (o : Option (List ℕ)) → IsFullOption (sealed_frame iv o)
unfolding sealed_frame
sealed_frame-IsFull iv none = tt
sealed_frame-IsFull iv (some c) = (omega arith, omega arith)

module _ {G M : Type 0} (crypto : Crypto G) (codec : Codec M) (fills : Fills codec) where
  encode_plain-IsFull : (m : M) → IsFullOption (encode_plain codec m)
  unfolding encode_plain
  encode_plain-IsFull m =
      let size = codec.byte_size_long m in
      if-in IsFullOption (ltb 65535 size) none _ (λ long. tt)
        (λ short. by_bytes (codec.serialize_to_array m size) refl short)
    where
      by_bytes :
          (o : Option (List ℕ))
          → codec.serialize_to_array m (codec.byte_size_long m) ≡ o
          → ltb 65535 (codec.byte_size_long m) ≡ false
          → IsFullOption (elim o [
            | none ↦ none
            | some bs ↦ some (borrowed 0xF0 (u16 (codec.byte_size_long m)) bs)
          ])
      by_bytes none e short = tt
      by_bytes (some bs) e short = let size = fills m bs e in (omega (arith, size), omega arith)

  encode-IsFull : (coder : Coder) (m : M) (g : G) → IsFullOption (encode crypto codec coder m g).0
  unfolding encode encode_encrypted seal_frame
  encode-IsFull plain m g = encode_plain-IsFull m
  encode-IsFull (encrypted key) m g = by_plain (encode_plain codec m)
    where
      by_plain :
          (o : Option Frame)
          → IsFullOption (
              let r : Option Frame × G = elim o [
                | none ↦ (none, g)
                | some p ↦ seal_frame crypto codec key p g
              ] in
              r.0)
      by_plain none = tt
      by_plain (some p) = sealed_frame-IsFull _ _

  -- A context that has written full frames only.
  pub send-AllFull :
      (coder : Coder) (m : M) (ctx : Ctx G)
      → AllFull ctx.written
      → Holds (λ (ctx' : Ctx G). AllFull ctx'.written) (send crypto codec coder m ctx)
  unfolding send write_encoded write_frame
  send-AllFull coder m ctx all =
      by_frame (encode crypto codec coder m ctx.entropy) (encode-IsFull coder m ctx.entropy)
    where
      by_frame :
          (r : Option Frame × G)
          → IsFullOption r.0
          → Holds (λ (ctx' : Ctx G). AllFull ctx'.written) (write_encoded r ctx)
      by_frame (none, g) full = tt
      by_frame (some f, g) full =
          if-both (Holds (λ (ctx' : Ctx G). AllFull ctx'.written)) ctx.io_set _ _
            (AllFull-append ctx.written (Frame.copy f) all
              (omega (arith, (copy-IsFull f full).0), full.1))
            tt
