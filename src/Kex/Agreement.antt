-- ===== src/Kex/Agreement.antt =====
-- Two sides of a key exchange.
use protocom.Prelude.{
  ℕ, ◌≡◌, refl, ap, ◌∙◌, sym, true, ◌&&◌, if◌then◌else◌, List, Option, none, some, length,
}
use protocom.Crypto.{Crypto, Agrees, public_key_length}
use protocom.Kex.{Kex, load_other_key_arr, init, agreed, agree, get_key256}

module _ {G : Type 0} (crypto : Crypto G) where
  -- init, loadOtherKeyArr of the peer's key, agree and getKey256: `none` where a step fails.
  unfoldable pub exchange : Kex → G → List ℕ → Option (List ℕ)
  unfolding init load_other_key_arr agree get_key256
  exchange k g key =
      let (k₀, g') = init crypto k g in
      let (loaded, k₁) = load_other_key_arr key k₀ in
      let (done, k₂) = agree crypto k₁ in if loaded && done then get_key256 crypto 32 k₂ else none

  abbrev pub derived : Option (List ℕ) → Option (List ℕ)
  derived none = none
  derived (some s) = some (crypto.derive s 32)

  agreed-derived :
      (o : Option (List ℕ)) (k : Kex)
      → (let (done, k₂) = agreed crypto o k in
          if true && done then get_key256 crypto 32 k₂ else none)
        ≡ derived o
  unfolding agreed get_key256
  agreed-derived none k = refl
  agreed-derived (some s) k = refl

  -- A key of the right length is agreed on: the result is derived from X25519's secret, if it gives
  -- one, and what the constructor left uninitialized plays no part.
  pub exchange-derived :
      (k : Kex) (g : G) (key : List ℕ)
      → length key ≡ public_key_length
      → exchange k g key ≡ derived (crypto.agree (crypto.generate_key_pair g).0.private key)
  unfolding exchange
  exchange-derived k g key n = rw n (agreed-derived _ _)

  -- If X25519 agrees: two sides that generate their keys and load each other's public key come to
  -- the same result, whatever their objects held before.
  pub exchange_comm :
      (k l : Kex) (g h : G)
      → Agrees crypto
      → exchange k g (crypto.generate_key_pair h).0.public
        ≡ exchange l h (crypto.generate_key_pair g).0.public
  exchange_comm k l g h laws =
      exchange-derived k g _ (laws.length-public h)
      ∙ ap derived (laws.agree_comm g h)
      ∙ sym (exchange-derived l h _ (laws.length-public g))
