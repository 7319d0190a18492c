-- ===== src/Prelude/Throwing.antt =====
-- What a call that may throw comes back with.
use mathlib.Core.Path.{◌≡◌, refl, ap, subst}
use mathlib.Core.Option.{Option, none, some}
use mathlib.Core.Bool.{Bool, true, false}
use protocom.Prelude.Tests.{if◌then◌else◌}
use mathlib.Core.Logic.{◌⊎◌, inl, inr}

pub data Outcome {ℓ} (A : Type ℓ) : Type ℓ where
  returned : A → Outcome A
  threw : Outcome A

infixl 5 ◌>>=◌
abbrev pub ◌>>=◌ {ℓ κ} : {A : Type ℓ} {B : Type κ} → Outcome A → (A → Outcome B) → Outcome B
returned a >>= f = f a
threw >>= f = threw

-- Inversion of a chain that returned.
pub >>=-eq-returned {ℓ κ} :
    {A : Type ℓ} {B : Type κ} (m : Outcome A) (f : A → Outcome B) {b : B}
    → (m >>= f) ≡ returned b
    → (a : A) × (m ≡ returned a) × (f a ≡ returned b)
>>=-eq-returned (returned a) f h = (a, refl, h)
>>=-eq-returned threw f h = cc

pub returned-injective {ℓ} : {A : Type ℓ} {a b : A} → returned a ≡ returned b → a ≡ b
returned-injective {A} {a} e = ap (λ (o : Outcome A). elim o [ returned x ↦ x | threw ↦ a ]) e

pub threw-ne-returned {ℓ} : {A : Type ℓ} {a : A} → threw ≡ returned a → ⊥
threw-ne-returned e = cc

pub Outcome-cases {ℓ} : {A : Type ℓ} (o : Outcome A) → (o ≡ threw) ⊎ ((a : A) × (o ≡ returned a))
Outcome-cases (returned a) = inr (a, refl)
Outcome-cases threw = inl refl

pub some_returned-injective : {A : Type 0} {a b : A} → some (returned a) ≡ some (returned b) → a ≡ b
some_returned-injective {A} {a} e =
    ap (λ (o : Option (Outcome A)). elim o [ none ↦ a | some (returned x) ↦ x | some threw ↦ a ]) e

pub not-thrown : {A : Type 0} {a : A} → some threw ≡ some (returned a) → ⊥
not-thrown e = cc

-- A postcondition of a call that returns.
abbrev pub Holds {ℓ κ} : {A : Type ℓ} → (A → Type κ) → Outcome A → Type κ
Holds P (returned a) = P a
Holds P threw = Unit

pub Holds-bind {ℓ κ ι μ} :
    {A : Type ℓ} {B : Type κ} (P : A → Type ι) (Q : B → Type μ) (m : Outcome A) (f : A → Outcome B)
    → Holds P m
    → ((a : A) → P a → Holds Q (f a))
    → Holds Q (m >>= f)
Holds-bind P Q (returned a) f h k = k a h
Holds-bind P Q threw f h k = tt

pub Holds-mono {ℓ κ ι} :
    {A : Type ℓ} (P : A → Type κ) (Q : A → Type ι) (m : Outcome A)
    → Holds P m
    → ((a : A) → P a → Q a)
    → Holds Q m
Holds-mono P Q (returned a) h k = k a h
Holds-mono P Q threw h k = tt

pub Holds-all {ℓ κ} : {A : Type ℓ} (P : A → Type κ) (m : Outcome A) → ((a : A) → P a) → Holds P m
Holds-all P (returned a) h = h a
Holds-all P threw h = tt

pub Holds-itself {ℓ} : {A : Type ℓ} (m : Outcome A) → Holds (λ (a : A). m ≡ returned a) m
Holds-itself (returned a) = refl
Holds-itself threw = tt

pub Holds-returned {ℓ κ} :
    {A : Type ℓ} (P : A → Type κ) (m : Outcome A) (a : A) → m ≡ returned a → Holds P m → P a
Holds-returned P m a e h = subst (Holds P) e h

-- A loop on fuel that may throw, and what follows it.
abbrev pub after {ℓ κ} :
    {A : Type ℓ} {B : Type κ} → Option (Outcome A) → (A → Option (Outcome B)) → Option (Outcome B)
after none f = none
after (some threw) f = some threw
after (some (returned a)) f = f a

-- A postcondition of a loop that ends and returns.
abbrev pub Leaves {ℓ κ} : {A : Type ℓ} → (A → Type κ) → Option (Outcome A) → Type κ
Leaves P none = Unit
Leaves P (some o) = Holds P o

pub Leaves-after {ℓ κ ι μ} :
    {A : Type ℓ} {B : Type κ} (P : A → Type ι) (Q : B → Type μ) (m : Option (Outcome A))
    → (f : A → Option (Outcome B)) → Leaves P m
    → ((a : A) → P a → Leaves Q (f a))
    → Leaves Q (after m f)
Leaves-after P Q none f h k = tt
Leaves-after P Q (some threw) f h k = tt
Leaves-after P Q (some (returned a)) f h k = k a h

pub Leaves-mono {ℓ κ ι} :
    {A : Type ℓ} (P : A → Type κ) (Q : A → Type ι) (m : Option (Outcome A))
    → Leaves P m
    → ((a : A) → P a → Leaves Q (some (returned a)))
    → Leaves Q m
Leaves-mono P Q none h k = tt
Leaves-mono P Q (some threw) h k = tt
Leaves-mono P Q (some (returned a)) h k = k a h

-- The same, with the result that is followed.
pub Leaves-step {ℓ κ ι μ} :
    {A : Type ℓ} {B : Type κ} (P : A → Type ι) (Q : B → Type μ) (m : Option (Outcome A))
    → (f : A → Option (Outcome B)) → Leaves P m
    → ((a : A) → m ≡ some (returned a) → P a → Leaves Q (f a))
    → Leaves Q (after m f)
Leaves-step P Q none f h k = tt
Leaves-step P Q (some threw) f h k = tt
Leaves-step P Q (some (returned a)) f h k = k a refl h

pub Leaves-returned {ℓ κ} :
    {A : Type ℓ} (P : A → Type κ) (m : Option (Outcome A)) (a : A)
    → m ≡ some (returned a)
    → Leaves P m
    → P a
Leaves-returned P m a e h = subst (Leaves P) e h

-- What holds of every result of a loop holds of it.
pub Leaves-all {ℓ κ} :
    {A : Type ℓ} (P : A → Type κ) (m : Option (Outcome A))
    → ((a : A) → m ≡ some (returned a) → P a)
    → Leaves P m
Leaves-all P none h = tt
Leaves-all P (some threw) h = tt
Leaves-all P (some (returned a)) h = h a refl

pub Leaves-map {ℓ κ μ} :
    {A : Type ℓ} {B : Type κ} (Q : B → Type μ) (m : Option (Outcome A)) (g : A → B)
    → ((a : A) → m ≡ some (returned a) → Q (g a))
    → Leaves Q (after m (λ a. some (returned (g a))))
Leaves-map Q none g k = tt
Leaves-map Q (some threw) g k = tt
Leaves-map Q (some (returned a)) g k = k a refl

pub if-Leaves {ℓ κ} :
    {A : Type ℓ} (P : A → Type κ) (b : Bool) (m n : Option (Outcome A))
    → (b ≡ true → Leaves P m)
    → (b ≡ false → Leaves P n)
    → Leaves P (if b then m else n)
if-Leaves P true m n f g = f refl
if-Leaves P false m n f g = g refl
