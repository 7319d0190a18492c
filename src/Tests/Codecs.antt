-- ===== src/Tests/Codecs.antt =====
-- Codecs without a loss, which skip the messages of another type.
use protocom.Prelude.{
  ℕ, zero, suc, ◌≡◌, refl, ap, true, List, [], ◌∷◌, ◌++◌, Option, none, some, arith, length, take,
  drop, take_all, take-append_length, drop-append_length, replicate,
}
use protocom.Messages.{
  Codec, RoundTrips, KexMsg, ClientConnectedStateRequest, ServerConnectedStateResponse,
  ClientAuthRequest, ServerAuthResponse, auth_invalid_request,
}
use protocom.Protocol.State.{Env}
use protocom.Session.Laws.{SessionLaws}
use protocom.Session.Answering.{verdict}
use protocom.Session.ClientTest.{no_answer}
use protocom.Tests.Samples.{toy, toy-Seals, toy-Agrees, first}

module _ {M : Type 0} (write : M → List ℕ) (read : List ℕ → M) where
  abbrev pub codec : Codec M
  codec = record {
    byte_size_long = λ m. length (write m);
    serialize_to_array = λ m n. some (write m);
    parse_from_array = λ bs. (true, read bs);
  }

  abbrev pub codec_round : ((m : M) → read (write m) ≡ m) → RoundTrips codec
  codec_round same = record {
    serialized = write;
    serializes = λ m. refl;
    sized = λ m. refl;
    parses = λ m. ap (λ (x : M). (true, x)) (same m);
  }

-- An optional text: 0, or its length and 1 before it.
abbrev write_text : Option (List ℕ) → List ℕ
write_text none = 0 ∷ []
write_text (some s) = suc (length s) ∷ s

abbrev read_text : List ℕ → Option (List ℕ) × List ℕ
read_text [] = (none, [])
read_text (zero ∷ bs) = (none, bs)
read_text (suc n ∷ bs) = (some (take n bs), drop n bs)

read_text-write_text :
    (o : Option (List ℕ)) (bs : List ℕ) → read_text (write_text o ++ bs) ≡ (o, bs)
read_text-write_text none bs = refl
read_text-write_text (some s) bs = rw (take-append_length s bs, drop-append_length s bs) refl

read_text_all : (o : Option (List ℕ)) → (read_text (write_text o)).0 ≡ o
read_text_all none = refl
read_text_all (some s) = ap some (take_all (length s) s (omega arith))

abbrev write_kex : Option KexMsg → List ℕ
write_kex none = []
write_kex (some k) = k.alg ∷ k.pkey

abbrev read_kex : List ℕ → Option KexMsg
read_kex [] = none
read_kex (a ∷ bs) = some (record { alg = a; pkey = bs })

read_kex-write_kex : (o : Option KexMsg) → read_kex (write_kex o) ≡ o
read_kex-write_kex none = refl
read_kex-write_kex (some k) = refl

abbrev write_request : ClientConnectedStateRequest → List ℕ
write_request m = m.type ∷ write_kex m.kex

abbrev read_request : List ℕ → ClientConnectedStateRequest
read_request [] = record { type = 0; kex = none }
read_request (t ∷ bs) = record { type = t; kex = read_kex bs }

abbrev write_response : ServerConnectedStateResponse → List ℕ
write_response m = m.status ∷ write_text m.iv ++ write_kex m.kex

abbrev read_response : List ℕ → ServerConnectedStateResponse
read_response [] = record { status = 0; kex = none; iv = none }
read_response (s ∷ bs) =
    let (iv, rest) = read_text bs in record { status = s; kex = read_kex rest; iv = iv }

read_response-write_response :
    (m : ServerConnectedStateResponse) → read_response (write_response m) ≡ m
read_response-write_response m =
    rw (read_text-write_text m.iv (write_kex m.kex), read_kex-write_kex m.kex) refl

-- The messages of the authentication begin with 0, and those of the user with 1.
abbrev write_auth : ClientAuthRequest → List ℕ
write_auth m = 0 ∷ m.request ∷ write_text m.username ++ write_text m.auth_credential

abbrev read_auth : List ℕ → ClientAuthRequest
read_auth (zero ∷ r ∷ bs) =
    let (name, rest) = read_text bs in
    record { request = r; username = name; auth_credential = (read_text rest).0 }
read_auth _ = record { request = 0; username = none; auth_credential = none }

read_auth-write_auth : (m : ClientAuthRequest) → read_auth (write_auth m) ≡ m
read_auth-write_auth m =
    rw
      (
        read_text-write_text m.username (write_text m.auth_credential),
        read_text_all m.auth_credential,
      )
      refl

abbrev write_verdict : ServerAuthResponse → List ℕ
write_verdict m = 0 ∷ m.status ∷ write_text m.server_info

abbrev read_verdict : List ℕ → ServerAuthResponse
read_verdict (zero ∷ s ∷ bs) = record { status = s; server_info = (read_text bs).0 }
read_verdict _ = record { status = 0; server_info = none }

read_verdict-write_verdict : (m : ServerAuthResponse) → read_verdict (write_verdict m) ≡ m
read_verdict-write_verdict m = rw (read_text_all m.server_info) refl

-- The texts of the user.
abbrev read_msg : List ℕ → List ℕ
read_msg (suc n ∷ bs) = bs
read_msg _ = []

abbrev pub faithful : Env ℕ
faithful = record {
  crypto = toy;
  connected_request = codec write_request read_request;
  connected_response = codec write_response read_response;
  auth_request = codec write_auth read_auth;
  auth_response = codec write_verdict read_verdict;
  user_request = codec (λ m. 1 ∷ m.msg) (λ bs. record { msg = read_msg bs });
  user_response = codec (λ m. 1 ∷ m.msg) (λ bs. record { msg = read_msg bs });
}

abbrev pub user_requests : RoundTrips faithful.user_request
user_requests = codec_round _ _ (λ m. refl)

abbrev pub user_responses : RoundTrips faithful.user_response
user_responses = codec_round _ _ (λ m. refl)

pub faithful-SessionLaws : SessionLaws faithful
faithful-SessionLaws = record {
  connected_request =
      codec_round _ _ (λ m. ap (λ k. record { type = m.type; kex = k }) (read_kex-write_kex m.kex));
  connected_response = codec_round _ _ read_response-write_response;
  auth_requests = codec_round _ _ read_auth-write_auth;
  auth_responses = codec_round _ _ read_verdict-write_verdict;
  seals = toy-Seals;
  seals_all = λ key iv p. (p ++ replicate 16 (first key), refl);
  agrees = toy-Agrees;
  fits_kex_request = λ pkey n. omega (arith, n);
  fits_kex_response = λ pkey n. omega (arith, n);
  fits_auth_request = omega arith;
  fits_admission = omega arith;
  fits_verdict = λ status n. omega arith;
}

-- The user's parser on the refusal of a request.
pub skips_verdict :
    faithful.user_response.parse_from_array
      (faithful-SessionLaws.auth_responses.serialized (verdict auth_invalid_request))
    ≡ (true, no_answer)
unfolding faithful-SessionLaws
skips_verdict = refl
