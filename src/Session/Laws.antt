-- ===== src/Session/Laws.antt =====
-- What a session relies on in Protocol Buffers and in Crypto++.
use protocom.Prelude.{ℕ, ◌+◌, ◌<◌, ◌≤◌, ◌≡◌, List, length}
use protocom.Messages.{RoundTrips}
use protocom.Crypto.{Seals, Agrees, public_key_length}
use protocom.Coder.Delivery.{SealsAll}
use protocom.Protocol.State.{Env}
use protocom.Session.Answering.{kex_request, kex_response, auth_request, admission, verdict}

-- The messages of the handshake and the verdicts are serialized without a loss, and are short; the
-- filters open what they seal, and seal any text; X25519 agrees.
pub record SessionLaws {G : Type 0} (env : Env G) : Type 0 where
  pub connected_request : RoundTrips env.connected_request
  pub connected_response : RoundTrips env.connected_response
  pub auth_requests : RoundTrips env.auth_request
  pub auth_responses : RoundTrips env.auth_response
  pub seals : Seals env.crypto
  pub seals_all : SealsAll env.crypto
  pub agrees : Agrees env.crypto
  pub fits_kex_request :
      (pkey : List ℕ)
      → length pkey ≡ public_key_length
      → env.connected_request.byte_size_long (kex_request pkey) + 32 < 65536
  pub fits_kex_response :
      (pkey : List ℕ)
      → length pkey ≡ public_key_length
      → env.connected_response.byte_size_long (kex_response pkey) + 32 < 65536
  pub fits_auth_request : env.connected_request.byte_size_long auth_request + 32 < 65536
  pub fits_admission : env.connected_response.byte_size_long admission + 32 < 65536
  pub fits_verdict :
      (status : ℕ) → status ≤ 5 → env.auth_response.byte_size_long (verdict status) + 32 < 65536
