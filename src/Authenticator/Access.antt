-- ===== src/Authenticator/Access.antt =====
-- Who is let in, and what addUser and delUser change.
use protocom.Prelude.{
  ℕ, ◌≡◌, ◌↔◌, refl, true, false, not, ◌&&◌, ◌||◌, List, [], ◌∷◌, ◌++◌, Option, none, some, arith,
  if◌then◌else◌, Bool-cases, inl, inr,
}
use protocom.Messages.{ClientAuthRequest, bytes_or_empty}
use protocom.Authenticator.{
  Strategy, UserTable, bytes_eq, verify, find, add_user, del_user, any_verifies, verified_by,
  authenticate,
}

pub bytes_eq_iff : (xs ys : List ℕ) → (bytes_eq xs ys ≡ true) ↔ (xs ≡ ys)
unfolding bytes_eq
bytes_eq_iff [] [] = ((λ e. refl), λ e. refl)
bytes_eq_iff [] (y ∷ ys) = ((λ e. cc), λ e. cc)
bytes_eq_iff (x ∷ xs) [] = ((λ e. cc), λ e. cc)
bytes_eq_iff (x ∷ xs) (y ∷ ys) = ground (arith, bytes_eq_iff xs ys)

pub bytes_eq_refl : (xs : List ℕ) → bytes_eq xs xs ≡ true
bytes_eq_refl xs = (bytes_eq_iff xs xs).1 refl

abbrev strategies : Option (List Strategy) → List Strategy
strategies none = []
strategies (some ms) = ms

-- The user's own list grows at its end, and no other changes.
find-add_user :
    (k j : List ℕ) (m : Strategy) (t : UserTable)
    → find j (add_user k m t)
      ≡ (if bytes_eq k j then some (strategies (find j t) ++ m ∷ []) else find j t)
unfolding find add_user
find-add_user k j m [] = refl
find-add_user k j m ((n, s) ∷ t) =
    ground (arith, bytes_eq_iff n k, bytes_eq_iff n j, bytes_eq_iff k j, find-add_user k j m t)

any_verifies-append :
    (ms : List Strategy) (m : Strategy) (req : ClientAuthRequest)
    → any_verifies (ms ++ m ∷ []) req ≡ (any_verifies ms req || verify m req)
unfolding any_verifies
any_verifies-append [] m req = ground arith
any_verifies-append (x ∷ ms) m req = ground (arith, any_verifies-append ms m req)

verified_by-append :
    (o : Option (List Strategy)) (m : Strategy) (req : ClientAuthRequest)
    → verified_by (some (strategies o ++ m ∷ [])) req ≡ (verified_by o req || verify m req)
unfolding verified_by
verified_by-append none m req = any_verifies-append [] m req
verified_by-append (some ms) m req = any_verifies-append ms m req

-- addUser lets in, besides those that were let in before, exactly the requests under that name that
-- the new method verifies.
pub authenticate-add_user :
    (k : List ℕ) (m : Strategy) (t : UserTable) (req : ClientAuthRequest)
    → authenticate (add_user k m t) req
      ≡ (authenticate t req || (bytes_eq k (bytes_or_empty req.username) && verify m req))
unfolding authenticate
authenticate-add_user k m t req =
    let j = bytes_or_empty req.username in
    elim (Bool-cases (bytes_eq k j)) [
      | inl same ↦ rw (find-add_user k j m t, same) (verified_by-append (find j t) m req)
      | inr other ↦ rw (find-add_user k j m t, other) (ground arith)
    ]

-- One entry for each name, as in a map.
abbrev pub Unique : UserTable → Type 0
Unique [] = Unit {0}
Unique ((n, s) ∷ t) = (find n t ≡ none) × Unique t

-- addUser keeps a table with one entry for each name such a table.
pub add_user-Unique :
    (k : List ℕ) (m : Strategy) (t : UserTable) → Unique t → Unique (add_user k m t)
unfolding find add_user
add_user-Unique k m [] u = (refl, tt)
add_user-Unique k m ((n, s) ∷ t) u = elim (Bool-cases (bytes_eq n k)) [
  | inl same ↦ rw same u
  | inr other ↦
      rw other (rw (find-add_user k n m t, not_same k n other) u.0, add_user-Unique k m t u.1)
]
  where
    not_same : (a b : List ℕ) → bytes_eq b a ≡ false → bytes_eq a b ≡ false
    not_same a b e = ground (arith, bytes_eq_iff a b, bytes_eq_iff b a)

find-del_user :
    (k j : List ℕ) (t : UserTable)
    → Unique t
    → find j (del_user k t) ≡ (if bytes_eq k j then none else find j t)
unfolding find del_user
find-del_user k j [] u = ground arith
find-del_user k j ((n, s) ∷ t) u =
    ground
      (arith, bytes_eq_iff n k, bytes_eq_iff n j, bytes_eq_iff k j, find-del_user k j t u.1, u.0)

-- In a table with one entry for each name, delUser lets in no request under that name any more,
-- and changes nothing for the others.
pub authenticate-del_user :
    (k : List ℕ) (t : UserTable) (req : ClientAuthRequest)
    → Unique t
    → authenticate (del_user k t) req
      ≡ (not (bytes_eq k (bytes_or_empty req.username)) && authenticate t req)
unfolding authenticate verified_by
authenticate-del_user k t req u =
    let j = bytes_or_empty req.username in
    elim (Bool-cases (bytes_eq k j)) [
      | inl same ↦ rw (find-del_user k j t u, same) refl
      | inr other ↦ rw (find-del_user k j t u, other) refl
    ]
