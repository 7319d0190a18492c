-- ===== src/Crypto.antt =====
-- What the program calls of Crypto++: random blocks, X25519, SHA-512 as a key derivation, and
-- AES-GCM. All of it is a parameter. `G` is the state of the random pools.
use protocom.Prelude.{ℕ, ◌+◌, ◌≡◌, List, Option, some, length}

-- AES::BLOCKSIZE, x25519::PUBLIC_KEYLENGTH and the size of the tag.
abbrev pub block_size : ℕ
block_size = 16

abbrev pub public_key_length : ℕ
public_key_length = 32

abbrev pub tag_size : ℕ
tag_size = 16

pub record KeyPair : Type 0 where
  pub private : List ℕ
  pub public : List ℕ

-- `seal` and `unseal` are the authenticated filters over a key, an initial vector and the text:
-- `none` is a failure that they report, or an exception of the library.
pub record Crypto (G : Type 0) : Type 0 where
  pub generate_block : G → ℕ → List ℕ × G
  pub generate_key_pair : G → KeyPair × G
  pub agree : List ℕ → List ℕ → Option (List ℕ)
  pub derive : List ℕ → ℕ → List ℕ
  pub seal : List ℕ → List ℕ → List ℕ → Option (List ℕ)
  pub unseal : List ℕ → List ℕ → List ℕ → Option (List ℕ)

-- AES-GCM under one key and initial vector opens what it sealed, and appends a tag.
pub record Seals {G : Type 0} (crypto : Crypto G) : Type 0 where
  pub unseal-seal :
      (key iv p c : List ℕ) → crypto.seal key iv p ≡ some c → crypto.unseal key iv c ≡ some p
  pub length-seal :
      (key iv p c : List ℕ) → crypto.seal key iv p ≡ some c → length c ≡ length p + tag_size
  pub length-block : (g : G) (n : ℕ) → length (crypto.generate_block g n).0 ≡ n

-- X25519 agrees: two generated pairs, each private key with the other's public key.
pub record Agrees {G : Type 0} (crypto : Crypto G) : Type 0 where
  pub agree_comm :
      (g h : G)
      → let a = (crypto.generate_key_pair g).0 in
        let b = (crypto.generate_key_pair h).0 in
        crypto.agree a.private b.public ≡ crypto.agree b.private a.public
  pub length-public : (g : G) → length (crypto.generate_key_pair g).0.public ≡ public_key_length
