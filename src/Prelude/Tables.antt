-- ===== src/Prelude/Tables.antt =====
-- Tables with numbers as keys, as association lists in the order of insertion.
use Prim.Native.Nat.{ℕ}
use mathlib.Core.Path.{◌≡◌, refl, sym, subst}
use mathlib.Core.Logic.{◌⊎◌, inl, inr}
use mathlib.Core.Bool.{Bool, true, false}
use mathlib.Core.Option.{Option, none, some, some_inj}
use mathlib.Core.List.{List, [], ◌∷◌}
use native.Mathlib.Omega.{arith}
use protocom.Prelude.Tests.{◌==◌, ==_iff, if◌then◌else◌, Bool-cases}

module _ {ℓ} {V : Type ℓ} where
  unfoldable pub lookup : ℕ → List (ℕ × V) → Option V
  lookup k [] = none
  lookup k ((j, v) ∷ m) = if j == k then some v else lookup k m

  -- A key that is there keeps its value.
  unfoldable pub emplace : ℕ → V → List (ℕ × V) → List (ℕ × V)
  emplace k v [] = (k, v) ∷ []
  emplace k v ((j, w) ∷ m) = if j == k then (j, w) ∷ m else (j, w) ∷ emplace k v m

  unfoldable pub erase : ℕ → List (ℕ × V) → List (ℕ × V)
  erase k [] = []
  erase k ((j, v) ∷ m) = if j == k then erase k m else (j, v) ∷ erase k m

  -- A value that is there is overwritten.
  unfoldable pub replace : ℕ → V → List (ℕ × V) → List (ℕ × V)
  replace k v [] = []
  replace k v ((j, w) ∷ m) = if j == k then (j, v) ∷ replace k v m else (j, w) ∷ replace k v m

  abbrev pub keys : List (ℕ × V) → List ℕ
  keys [] = []
  keys ((k, v) ∷ m) = k ∷ keys m

  pub lookup-emplace :
      (k j : ℕ) (v : V) (m : List (ℕ × V))
      → lookup j (emplace k v m)
        ≡ (if k == j then elim (lookup k m) [ none ↦ some v | some w ↦ some w ] else lookup j m)
  unfolding lookup emplace
  lookup-emplace k j v [] = ground arith
  lookup-emplace k j v ((i, w) ∷ m) = ground (arith, lookup-emplace k j v m)

  pub lookup-erase :
      (k j : ℕ) (m : List (ℕ × V)) → lookup j (erase k m) ≡ (if k == j then none else lookup j m)
  unfolding lookup erase
  lookup-erase k j [] = ground arith
  lookup-erase k j ((i, w) ∷ m) = ground (arith, lookup-erase k j m)

  pub lookup-replace :
      (k j : ℕ) (v : V) (m : List (ℕ × V))
      → lookup j (replace k v m)
        ≡ (if k == j then elim (lookup k m) [ none ↦ none | some w ↦ some v ] else lookup j m)
  unfolding lookup replace
  lookup-replace k j v [] = ground arith
  lookup-replace k j v ((i, w) ∷ m) = ground (arith, lookup-replace k j v m)

  pub keys-replace : (k : ℕ) (v : V) (m : List (ℕ × V)) → keys (replace k v m) ≡ keys m
  unfolding replace
  keys-replace k v [] = refl
  keys-replace k v ((i, w) ∷ m) = ground (arith, keys-replace k v m)

-- The same operation on two tables with the same keys.
module _ {ℓ κ} {V : Type ℓ} {W : Type κ} where
  pub keys-emplace :
      (k : ℕ) (v : V) (w : W) (m : List (ℕ × V)) (n : List (ℕ × W))
      → keys m ≡ keys n
      → keys (emplace k v m) ≡ keys (emplace k w n)
  unfolding emplace
  keys-emplace k v w [] [] e = refl
  keys-emplace k v w [] ((j, y) ∷ n) e = absurd (cc)
  keys-emplace k v w ((i, x) ∷ m) [] e = absurd (cc)
  keys-emplace k v w ((i, x) ∷ m) ((j, y) ∷ n) e = ground (arith, keys-emplace k v w m n)

  pub keys-erase :
      (k : ℕ) (m : List (ℕ × V)) (n : List (ℕ × W))
      → keys m ≡ keys n
      → keys (erase k m) ≡ keys (erase k n)
  unfolding erase
  keys-erase k [] [] e = refl
  keys-erase k [] ((j, y) ∷ n) e = absurd (cc)
  keys-erase k ((i, x) ∷ m) [] e = absurd (cc)
  keys-erase k ((i, x) ∷ m) ((j, y) ∷ n) e = ground (arith, keys-erase k m n)

  pub lookup-same_keys :
      (k : ℕ) (m : List (ℕ × V)) (n : List (ℕ × W)) {v : V}
      → keys m ≡ keys n
      → lookup k m ≡ some v
      → (w : W) × (lookup k n ≡ some w)
  unfolding lookup
  lookup-same_keys k [] n e h = absurd (cc)
  lookup-same_keys k ((i, x) ∷ m) [] e h = absurd (cc)
  lookup-same_keys k ((i, x) ∷ m) ((j, y) ∷ n) {v} e h = elim (Bool-cases (j == k)) [
    | inl same ↦ (y, rw same refl)
    | inr other ↦
        let (w, found) = lookup-same_keys k m n {v = v} (ground arith) (ground arith) in
        (w, rw other found)
  ]

module _ {ℓ} {V : Type ℓ} where
  unfoldable pub has : ℕ → List (ℕ × V) → Bool
  has k [] = false
  has k ((j, v) ∷ m) = if j == k then true else has k m

  pub has-emplace :
      (k j : ℕ) (v : V) (m : List (ℕ × V))
      → has j (emplace k v m) ≡ (if k == j then true else has j m)
  unfolding has emplace
  has-emplace k j v [] = ground arith
  has-emplace k j v ((i, w) ∷ m) = ground (arith, has-emplace k j v m)

  pub has-erase :
      (k j : ℕ) (m : List (ℕ × V)) → has j (erase k m) ≡ (if k == j then false else has j m)
  unfolding has erase
  has-erase k j [] = ground arith
  has-erase k j ((i, w) ∷ m) = ground (arith, has-erase k j m)

  pub has-replace : (k j : ℕ) (v : V) (m : List (ℕ × V)) → has j (replace k v m) ≡ has j m
  unfolding has replace
  has-replace k j v [] = ground arith
  has-replace k j v ((i, w) ∷ m) = ground (arith, has-replace k j v m)

-- What every entry keeps.
module _ {ℓ κ} {V : Type ℓ} (P : ℕ → V → Type κ) where
  abbrev pub AllEntries : List (ℕ × V) → Type κ
  AllEntries [] = Unit {κ}
  AllEntries ((k, v) ∷ m) = P k v × AllEntries m

  pub lookup-AllEntries :
      (k : ℕ) (m : List (ℕ × V)) {v : V} → lookup k m ≡ some v → AllEntries m → P k v
  unfolding lookup
  lookup-AllEntries k [] {v} e all = absurd (cc)
  lookup-AllEntries k ((j, w) ∷ m) {v} e (p, all) = elim (Bool-cases (j == k)) [
    | inl same ↦
        let found : w ≡ v = some_inj.0 (ground arith) in
        subst (λ (i : ℕ). P i v) ((==_iff j k).0 same) (subst (P j) found p)
    | inr other ↦ lookup-AllEntries k m {v = v} (ground arith) all
  ]

  if-AllEntries :
      (b : Bool) (m n : List (ℕ × V))
      → (b ≡ true → AllEntries m)
      → (b ≡ false → AllEntries n)
      → AllEntries (if b then m else n)
  if-AllEntries true m n f g = f refl
  if-AllEntries false m n f g = g refl

  pub erase-AllEntries : (k : ℕ) (m : List (ℕ × V)) → AllEntries m → AllEntries (erase k m)
  unfolding erase
  erase-AllEntries k [] all = tt
  erase-AllEntries k ((j, w) ∷ m) (p, all) =
      let rest = erase-AllEntries k m all in
      if-AllEntries (j == k) _ _ (λ same. rest) (λ other. (p, rest))

  pub replace-AllEntries :
      (k : ℕ) (v : V) (m : List (ℕ × V)) → P k v → AllEntries m → AllEntries (replace k v m)
  unfolding replace
  replace-AllEntries k v [] new all = tt
  replace-AllEntries k v ((j, w) ∷ m) new (p, all) =
      let rest = replace-AllEntries k v m new all in
      if-AllEntries (j == k) _ _
        (λ same. (subst (λ (i : ℕ). P i v) (sym ((==_iff j k).0 same)) new, rest))
        (λ other. (p, rest))

  pub emplace-AllEntries :
      (k : ℕ) (v : V) (m : List (ℕ × V)) → P k v → AllEntries m → AllEntries (emplace k v m)
  unfolding emplace
  emplace-AllEntries k v [] new all = (new, tt)
  emplace-AllEntries k v ((j, w) ∷ m) new (p, all) =
      if-AllEntries (j == k) _ _ (λ same. (p, all)) (λ other. (p, emplace-AllEntries k v m new all))

module _ {ℓ κ ι} {V : Type ℓ} (P : ℕ → V → Type κ) (Q : ℕ → V → Type ι) where
  pub mono-AllEntries :
      (m : List (ℕ × V)) → ((k : ℕ) (v : V) → P k v → Q k v) → AllEntries P m → AllEntries Q m
  mono-AllEntries [] f all = tt
  mono-AllEntries ((j, w) ∷ m) f (p, all) = (f j w p, mono-AllEntries m f all)

-- Every entry but those with one key.
abbrev pub But {ℓ κ} : {V : Type ℓ} → ℕ → (ℕ → V → Type κ) → ℕ → V → Type κ
But k P j v = (j ≡ k) ⊎ P j v

module _ {ℓ κ} {V : Type ℓ} (P : ℕ → V → Type κ) where
  pub erase-But : (k : ℕ) (m : List (ℕ × V)) → AllEntries (But k P) m → AllEntries P (erase k m)
  unfolding erase
  erase-But k [] all = tt
  erase-But k ((j, w) ∷ m) (inl here, all) =
      if-AllEntries P (j == k) _ _ (λ same. erase-But k m all) (λ other. absurd (ground arith))
  erase-But k ((j, w) ∷ m) (inr p, all) =
      let rest = erase-But k m all in
      if-AllEntries P (j == k) _ _ (λ same. rest) (λ other. (p, rest))
