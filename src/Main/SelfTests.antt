-- ===== src/Main/SelfTests.antt =====
-- The self-tests of main.cpp under the laws of the libraries.
use protocom.Prelude.{
  ℕ, ◌≡◌, ◌<◌, ◌+◌, refl, sym, ap, ◌∙◌, true, false, List, ◌++◌, length, Option, none, some, arith,
}
use protocom.Frame
use protocom.Frame.{Frame}
use protocom.Messages.{Codec, RoundTrips}
use protocom.Crypto.{Crypto, Seals, Agrees, block_size}
use protocom.Coder.{encrypted, borrowed, u16, sealed_frame, new_encrypted, decode, encode}
use protocom.Coder.RoundTrip.{decode-encode, encode_encrypted-eq}
use protocom.Kex
use protocom.Kex.{Kex, get_pub_key, load_other_key, agree, agreed, get_key256}
use protocom.Main.{default_key_length, coding_test, derived_keys, kex_test, serving, main}

module _ {G : Type 0} (crypto : Crypto G) where
  coding_test-opens :
      {M : Type 0} (codec : Codec M) (laws : RoundTrips codec) (seals : Seals crypto) (m prev : M)
      → (g : G) → codec.byte_size_long m + 32 < 65536
      → ((key iv p : List ℕ) → (c : List ℕ) × (crypto.seal key iv p ≡ some c))
      → coding_test crypto codec m prev g ≡ (true, m)
  unfolding coding_test new_encrypted encode sealed_frame
  coding_test-opens codec laws seals m prev g fits total =
      let key = (crypto.generate_block g default_key_length).0 in
      let g₂ =
        (crypto.generate_block (crypto.generate_block g default_key_length).1 block_size).1 in
      let iv = (crypto.generate_block g₂ block_size).0 in
      let (c, sealed) = total key iv (laws.serialized m) in
      let f = borrowed 0xF1 (u16 (length (iv ++ c))) (iv ++ c) in
      let encoded : (encode crypto codec (encrypted key) m g₂).0 ≡ some f =
        encode_encrypted-eq crypto codec laws key m g₂ (omega arith)
        ∙ ap (sealed_frame iv) sealed in
      ap
        (λ (o : Option Frame).
          decode crypto codec (encrypted key) (elim o [ none ↦ Frame.new | some x ↦ x ]) prev)
        encoded
      ∙ decode-encode crypto codec laws seals (encrypted key) m prev g₂ f fits encoded

  kex_test-derive :
      (a b : Kex) (g : G) (secret : List ℕ)
      → Agrees crypto
      → (let (pair, g₁) = crypto.generate_key_pair g in
          crypto.agree pair.private (crypto.generate_key_pair g₁).0.public ≡ some secret)
      → kex_test crypto a b g ≡ some (crypto.derive secret 32, crypto.derive secret 32)
  unfolding kex_test Kex.init get_pub_key load_other_key agree agreed derived_keys get_key256
  kex_test-derive a b g secret laws e =
      let other = sym (laws.agree_comm g (crypto.generate_key_pair g).1) ∙ e in rw (e, other) refl

  -- Under the laws of the codec, of the sealing and of X25519: if the seal of every text succeeds,
  -- the test message has at most 65503 bytes, and X25519 gives a secret for the two new pairs, then
  -- main() goes past both self-tests, whatever the exchange objects held before, and both sides have
  -- derived the same key from that secret.
  pub main-serves :
      {M : Type 0} (codec : Codec M) (t prev : M) (a b : Kex) (g g' : G) (secret : List ℕ)
      → RoundTrips codec
      → Seals crypto
      → Agrees crypto
      → codec.byte_size_long t + 32 < 65536
      → ((key iv p : List ℕ) → (c : List ℕ) × (crypto.seal key iv p ≡ some c))
      → (let (pair, g₁) = crypto.generate_key_pair g' in
          crypto.agree pair.private (crypto.generate_key_pair g₁).0.public ≡ some secret)
      → (main crypto codec t prev a b g g' false ≡ serving)
        × (coding_test crypto codec t prev g ≡ (true, t))
        × (kex_test crypto a b g' ≡ some (crypto.derive secret 32, crypto.derive secret 32))
  unfolding main
  main-serves codec t prev a b g g' secret laws seals agrees fits total e =
      let coded = coding_test-opens codec laws seals t prev g fits total in
      let exchanged = kex_test-derive a b g' secret agrees e in
      (rw (coded, exchanged) refl, coded, exchanged)
