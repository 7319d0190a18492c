-- ===== src/Main.antt =====
-- main.cpp: the client's test, the two self-tests, and the server that follows them.
pub mod SelfTests
pub mod Serving
pub mod Bound
use protocom.Prelude.{
  ℕ, zero, suc, ◌≡◌, ◌<◌, ◌+◌, refl, sym, ap, ◌∙◌, Bool, true, false, not, ◌||◌, List, [], ◌++◌,
  length, Option, none, some, arith, if◌then◌else◌, Outcome, returned, ◌>>=◌,
}
use protocom.Frame
use protocom.Frame.{Frame}
use protocom.Messages.{Codec, RoundTrips, UserRequest, ServerResponse}
use protocom.Crypto.{Crypto, Seals, Agrees, block_size}
use protocom.Coder.{encrypted, borrowed, u16, sealed_frame, new_encrypted, decode, encode}
use protocom.Coder.RoundTrip.{decode-encode, encode_encrypted-eq}
use protocom.Kex
use protocom.Kex.{Kex, get_pub_key, load_other_key, agree, agreed, get_key256}
use protocom.Protocol.State.{Env}
use protocom.Protocol.User.{bytes}
use protocom.Client.State.{FrameIo, Client, Dialed}
use protocom.Client.{connect, fetch_request}

-- runClientTest's requests, `n` of them. Each response is fetched into the one before.
module _ {G I : Type 0} (env : Env G) (frame_io : FrameIo I) where
  unfoldable pub request_loop :
      ℕ → UserRequest → ServerResponse → Client G I → Outcome (Bool × Client G I)
  request_loop zero req resp c = returned (true, c)
  request_loop (suc n) req resp c = do
    (ok, (resp', c')) ← fetch_request env frame_io env.user_request env.user_response req resp c
    if ok then request_loop n req resp' c' else returned (false, c')

  -- The results are printed only: true is the end of all requests.
  unfoldable pub run_client_test :
      Dialed I → List ℕ → Kex → Client G I → Outcome (Bool × Client G I)
  unfolding request_loop
  run_client_test d block fresh c = do
    (ok, c') ← connect env frame_io d block fresh c
    (if ok
        then request_loop 100 (record { msg = bytes "Hello there" }) (record { msg = [] }) c'
        else returned (false, c'))

-- AES::DEFAULT_KEYLENGTH.
abbrev pub default_key_length : ℕ
default_key_length = 16

-- The first self-test: a message is sealed under a new key, and opened again. The result of encode
-- is not looked at: without one the frame is empty. `prev` is the message that is decoded into.
unfoldable pub coding_test : {G M : Type 0} → Crypto G → Codec M → M → M → G → Bool × M
unfolding new_encrypted
coding_test crypto codec m prev g =
    let (key, g₁) = crypto.generate_block g default_key_length in
    let (coder, g₂) = new_encrypted crypto key g₁ in
    decode crypto codec coder
      (elim (encode crypto codec coder m g₂).0 [ none ↦ Frame.new | some f ↦ f ]) prev

module _ {G : Type 0} (crypto : Crypto G) where
  -- The keys of both sides; none is the exit with -1.
  unfoldable pub derived_keys : Bool × Kex → Bool × Kex → Option (List ℕ × List ℕ)
  unfolding get_key256
  derived_keys (done_a, a) (done_b, b) =
      if not done_a || not done_b then none else (elim (get_key256 crypto 32 a) [
        | none ↦ none
        | some key_a ↦ elim (get_key256 crypto 32 b) [
          | none ↦ none
          | some key_b ↦ some (key_a, key_b)
        ]
      ])

  -- The second self-test: the two sides of a key exchange, which load each other's public key.
  unfoldable pub kex_test : Kex → Kex → G → Option (List ℕ × List ℕ)
  unfolding derived_keys get_pub_key load_other_key agree
  kex_test fresh_a fresh_b g =
      let (a, g₁) = Kex.init crypto fresh_a g in
      let (b, g₂) = Kex.init crypto fresh_b g₁ in
      let b' = load_other_key (get_pub_key a) b in
      let a' = load_other_key (get_pub_key b') a in derived_keys (agree crypto a') (agree crypto b')

-- What main() comes to: the client's test, the exit with -1 behind a self-test, or the server.
pub data Verdict : Type 0 where
  client_test exit_failure serving : Verdict

unfoldable pub main :
    {G M : Type 0}
    → Crypto G
    → Codec M
    → M
    → M
    → Kex
    → Kex
    → G
    → G
    → (client_test_asked : Bool) → Verdict
unfolding coding_test kex_test
main crypto codec t prev fresh_a fresh_b g g' asked =
    if asked
    then client_test
    else if not (coding_test crypto codec t prev g).0
    then exit_failure
    else (elim (kex_test crypto fresh_a fresh_b g') [ none ↦ exit_failure | some keys ↦ serving ])
