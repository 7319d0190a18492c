-- ===== src/Authenticator.antt =====
-- Authenticator.cpp: users, each with a list of strategies. The hash map is an association list
-- with one entry for each name; names and passwords are lists of bytes.
pub mod Access
use protocom.Prelude.{
  ℕ, ◌≡◌, refl, ap, Bool, true, false, ◌&&◌, ◌||◌, List, [], ◌∷◌, ◌++◌, Option, none, some, ◌==◌,
  if◌then◌else◌,
}
use protocom.Messages.{ClientAuthRequest, bytes_or_empty}

-- `==` of std::string.
unfoldable pub bytes_eq : List ℕ → List ℕ → Bool
bytes_eq [] [] = true
bytes_eq [] (y ∷ ys) = false
bytes_eq (x ∷ xs) [] = false
bytes_eq (x ∷ xs) (y ∷ ys) = x == y && bytes_eq xs ys

-- The classes below IAuthenticationStrategy.
pub data Strategy : Type 0 where
  trust : Strategy
  password : List ℕ → Strategy

-- TrustAuthentication::verify and PasswordAuthentication::verify.
unfoldable pub verify : Strategy → ClientAuthRequest → Bool
unfolding bytes_eq
verify trust req = true
verify (password p) req = elim req.auth_credential [ none ↦ false | some c ↦ bytes_eq c p ]

abbrev pub UserTable : Type 0
UserTable = List (List ℕ × List Strategy)

unfoldable pub find : List ℕ → UserTable → Option (List Strategy)
unfolding bytes_eq
find name [] = none
find name ((n, s) ∷ rest) = if bytes_eq n name then some s else find name rest

-- `userTable[username].supportedAuths.emplace_back(method)`
unfoldable pub add_user : List ℕ → Strategy → UserTable → UserTable
unfolding bytes_eq
add_user name m [] = (name, m ∷ []) ∷ []
add_user name m ((n, s) ∷ rest) =
    if bytes_eq n name then (n, s ++ m ∷ []) ∷ rest else (n, s) ∷ add_user name m rest

unfoldable pub del_user : List ℕ → UserTable → UserTable
unfolding bytes_eq
del_user name [] = []
del_user name ((n, s) ∷ rest) = if bytes_eq n name then rest else (n, s) ∷ del_user name rest

unfoldable pub any_verifies : List Strategy → ClientAuthRequest → Bool
unfolding verify
any_verifies [] req = false
any_verifies (m ∷ ms) req = verify m req || any_verifies ms req

-- The methods of the user that was found.
unfoldable pub verified_by : Option (List Strategy) → ClientAuthRequest → Bool
unfolding any_verifies
verified_by none req = false
verified_by (some ms) req = any_verifies ms req

unfoldable pub authenticate : UserTable → ClientAuthRequest → Bool
unfolding verified_by
authenticate t req = verified_by (find (bytes_or_empty req.username) t) req
