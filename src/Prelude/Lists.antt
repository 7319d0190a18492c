-- ===== src/Prelude/Lists.antt =====
-- Lists measured and cut by native numbers, under the library's names.
use Prim.Native.Nat.{ℕ, zero, suc, ◌+◌, ◌-◌, ◌≤◌, min}
use mathlib.Core.Path.{◌≡◌, refl, sym, ap, ◌∙◌}
use mathlib.Core.Logic.{◌≢◌}
use mathlib.Core.List.{List, [], ◌∷◌, ◌++◌}
use native.Mathlib.Omega.{arith}

module _ {ℓ} {A : Type ℓ} where
  abbrev pub length : List A → ℕ
  length [] = 0
  length (x ∷ xs) = suc (length xs)

  abbrev pub take : ℕ → List A → List A
  take zero xs = []
  take (suc n) [] = []
  take (suc n) (x ∷ xs) = x ∷ take n xs

  abbrev pub drop : ℕ → List A → List A
  drop zero xs = xs
  drop (suc n) [] = []
  drop (suc n) (x ∷ xs) = drop n xs

  abbrev pub replicate : ℕ → A → List A
  replicate zero a = []
  replicate (suc n) a = a ∷ replicate n a

  pub length-append : (xs ys : List A) → length (xs ++ ys) ≡ length xs + length ys
  length-append [] ys = omega arith
  length-append (x ∷ xs) ys = omega (arith, length-append xs ys)

  pub length-take : (n : ℕ) (xs : List A) → length (take n xs) ≡ min n (length xs)
  length-take zero xs = omega arith
  length-take (suc n) [] = omega arith
  length-take (suc n) (x ∷ xs) = omega (arith, length-take n xs)

  pub length-drop : (n : ℕ) (xs : List A) → length (drop n xs) ≡ length xs - n
  length-drop zero xs = omega arith
  length-drop (suc n) [] = omega arith
  length-drop (suc n) (x ∷ xs) = omega (arith, length-drop n xs)

  pub length-replicate : (n : ℕ) (a : A) → length (replicate n a) ≡ n
  length-replicate zero a = refl
  length-replicate (suc n) a = ap suc (length-replicate n a)

  pub take-append-drop : (n : ℕ) (xs : List A) → take n xs ++ drop n xs ≡ xs
  take-append-drop zero xs = refl
  take-append-drop (suc n) [] = refl
  take-append-drop (suc n) (x ∷ xs) = rw (take-append-drop n xs)

  -- A prefix that is long enough is the whole list.
  pub take_all : (n : ℕ) (xs : List A) → length xs ≤ n → take n xs ≡ xs
  take_all zero [] h = refl
  take_all zero (x ∷ xs) h = elim h [ ]
  take_all (suc n) [] h = refl
  take_all (suc n) (x ∷ xs) h = ap (◌∷◌ x) (take_all n xs (omega arith))

  pub drop_all : (n : ℕ) (xs : List A) → length xs ≤ n → drop n xs ≡ []
  drop_all zero [] h = refl
  drop_all zero (x ∷ xs) h = elim h [ ]
  drop_all (suc n) [] h = refl
  drop_all (suc n) (x ∷ xs) h = drop_all n xs (omega arith)

  pub drop_past_nil : (n : ℕ) → drop n [] ≡ []
  drop_past_nil zero = refl
  drop_past_nil (suc n) = refl

  pub drop-drop : (m n : ℕ) (xs : List A) → drop m (drop n xs) ≡ drop (n + m) xs
  drop-drop m zero xs = let e : m ≡ zero + m = omega arith in ap (λ (k : ℕ). drop k xs) e
  drop-drop m (suc n) [] = drop_past_nil m ∙ sym (drop_past_nil (suc n + m))
  drop-drop m (suc n) (x ∷ xs) =
      let e : suc (n + m) ≡ suc n + m = omega arith in
      drop-drop m n xs ∙ ap (λ (k : ℕ). drop k (x ∷ xs)) e

  -- What is read from offset `n` on stays inside the list where that is long enough.
  pub take-drop-append :
      (k n : ℕ) (xs ys : List A) → n + k ≡ length xs → take k (drop n (xs ++ ys)) ≡ drop n xs
  take-drop-append zero n xs ys h = sym (drop_all n xs (omega arith))
  take-drop-append (suc k) zero [] ys h = absurd (omega arith)
  take-drop-append (suc k) zero (x ∷ xs) ys h =
      ap (◌∷◌ x) (take-drop-append k zero xs ys (omega arith))
  take-drop-append (suc k) (suc n) [] ys h = absurd (omega arith)
  take-drop-append (suc k) (suc n) (x ∷ xs) ys h = take-drop-append (suc k) n xs ys (omega arith)

  pub take-append_length : (xs ys : List A) → take (length xs) (xs ++ ys) ≡ xs
  take-append_length [] ys = refl
  take-append_length (x ∷ xs) ys = ap (◌∷◌ x) (take-append_length xs ys)

  pub drop-append_length : (xs ys : List A) → drop (length xs) (xs ++ ys) ≡ ys
  drop-append_length [] ys = refl
  drop-append_length (x ∷ xs) ys = drop-append_length xs ys

module _ {ℓ} {A : Type ℓ} where
  append_longer : (x : A) (xs zs : List A) → x ∷ xs ++ zs ≢ zs
  append_longer x xs zs e = absurd (omega (arith, ap length e, length-append xs zs))

  pub append-right_cancel : (zs xs ys : List A) → xs ++ zs ≡ ys ++ zs → xs ≡ ys
  append-right_cancel zs [] [] e = refl
  append-right_cancel zs [] (y ∷ ys) e = absurd (append_longer y ys zs (sym e))
  append-right_cancel zs (x ∷ xs) [] e = absurd (append_longer x xs zs e)
  append-right_cancel zs (x ∷ xs) (y ∷ ys) e = cc (append-right_cancel zs xs ys (ap (drop 1) e))

-- The buffer `buf` after `bs` was written over it from offset `n` on.
abbrev pub write_at {ℓ} : {A : Type ℓ} → ℕ → List A → List A → List A
write_at n bs buf = take n buf ++ bs ++ drop (n + length bs) buf
