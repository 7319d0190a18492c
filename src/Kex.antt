-- ===== src/Kex.antt =====
-- x25519KexProtocol.cpp: one side of a key exchange. The members that the constructor leaves
-- uninitialized come in as arguments of `new`.
pub mod Agreement
use protocom.Prelude.{
  ℕ, Bool, true, false, not, ◌||◌, List, [], Option, none, some, ◌==◌, length, if◌then◌else◌,
}
use protocom.Crypto.{Crypto, public_key_length}

pub record Kex : Type 0 where
  pub priv_key : List ℕ
  pub pub_key : List ℕ
  pub pub_key_other : List ℕ
  pub shared : List ℕ
  pub is_init : Bool
  pub is_shared_secret_agreed : Bool

-- The blocks' first contents and `isSharedSecretAgreed` are indeterminate.
abbrev pub new : (priv pub₀ shared : List ℕ) → Bool → Kex
new priv pub₀ shared agreed = record {
  priv_key = priv;
  pub_key = pub₀;
  pub_key_other = [];
  shared = shared;
  is_init = false;
  is_shared_secret_agreed = agreed;
}

-- A null pointer is none.
unfoldable pub get_pub_key : Kex → Option (List ℕ)
get_pub_key k = if not k.is_init then none else some k.pub_key

unfoldable pub get_shared : Kex → Option (List ℕ)
get_shared k = if not k.is_shared_secret_agreed then none else some k.shared

unfoldable pub load_other_key_arr : List ℕ → Kex → Bool × Kex
load_other_key_arr buf k =
    if not (length buf == public_key_length)
    then (false, k)
    else (true, record k { pub_key_other = buf })

unfoldable pub load_other_key : Option (List ℕ) → Kex → Kex
load_other_key none k = k
load_other_key (some key) k = record k { pub_key_other = key }

module _ {G : Type 0} (crypto : Crypto G) where
  unfoldable pub init : Kex → G → Kex × G
  init k g =
      let (pair, g') = crypto.generate_key_pair g in
      (record k { priv_key = pair.private; pub_key = pair.public; is_init = true }, g')

  -- The shared secret that Agree leaves; on a failure it is not used.
  unfoldable pub agreed : Option (List ℕ) → Kex → Bool × Kex
  agreed none k = (false, k)
  agreed (some s) k = (true, record k { shared = s; is_shared_secret_agreed = true })

  unfoldable pub agree : Kex → Bool × Kex
  unfolding agreed
  agree k = agreed (crypto.agree k.priv_key k.pub_key_other) k

  -- getKey256 into a block of `size` bytes: none is the result false.
  unfoldable pub get_key256 : ℕ → Kex → Option (List ℕ)
  get_key256 size k =
      if not k.is_shared_secret_agreed || not (size == 32)
      then none
      else some (crypto.derive k.shared size)
