-- ===== src/Prelude/Words.antt =====
-- Machine words: 16-bit byte order on a little-endian host, and 32-bit unsigned subtraction.
use Prim.Native.Nat.{ℕ, ◌+◌, ◌-◌, ◌*◌, ◌/◌, ◌%◌, ◌^◌, ◌≤◌, ◌<◌}
use mathlib.Core.Path.{◌≡◌, refl}
use mathlib.Core.List.{List, [], ◌∷◌}
use native.Mathlib.Omega.{arith}

-- `ntohs` and `htons` swap the two bytes of a 16-bit word.
unfoldable pub ntohs : ℕ → ℕ
ntohs n = n % 256 * 256 + n / 256 % 256

pub ntohs-ntohs : (n : ℕ) → n < 65536 → ntohs (ntohs n) ≡ n
unfolding ntohs
ntohs-ntohs n h = omega arith

pub ntohs-lt : (n : ℕ) → ntohs n < 65536
unfolding ntohs
ntohs-lt n = omega arith

-- `unsigned` subtraction.
unfoldable pub sub_u32 : ℕ → ℕ → ℕ
sub_u32 a b = (a + 2 ^ 32 - b) % 2 ^ 32

pub sub_u32_lem : (a b : ℕ) → b ≤ a → a < 2 ^ 32 → sub_u32 a b ≡ a - b
unfolding sub_u32
sub_u32_lem a b h k = omega arith

-- The two bytes of a 16-bit word in memory, the low byte first.
unfoldable pub len_bytes : ℕ → List ℕ
len_bytes n = n % 256 ∷ n / 256 % 256 ∷ []

-- A 16-bit word after bytes were written at its address; a third byte falls behind it.
unfoldable pub store_len : List ℕ → ℕ → ℕ
store_len [] len = len
store_len (b ∷ []) len = len / 256 * 256 + b % 256
store_len (b ∷ c ∷ _) len = b % 256 + c % 256 * 256

pub ntohs-store_len : (a b len : ℕ) → ntohs (store_len (a ∷ b ∷ []) len) ≡ a % 256 * 256 + b % 256
unfolding ntohs store_len
ntohs-store_len a b len = omega arith

pub len_bytes-ntohs : (n : ℕ) → n < 65536 → len_bytes (ntohs n) ≡ n / 256 % 256 ∷ n % 256 ∷ []
unfolding len_bytes ntohs
len_bytes-ntohs n h =
    let a : (n % 256 * 256 + n / 256 % 256) % 256 ≡ n / 256 % 256 = omega arith in
    let b : (n % 256 * 256 + n / 256 % 256) / 256 % 256 ≡ n % 256 = omega arith in rw (a, b) refl
