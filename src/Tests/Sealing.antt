-- ===== src/Tests/Sealing.antt =====
-- The coders, the key exchange and the authenticator at concrete inputs.
use protocom.Prelude.{
  ℕ, ◌+◌, ◌<◌, ◌≡◌, refl, true, List, [], ◌∷◌, ◌++◌, some, arith, length, replicate,
}
use protocom.Frame.{Frame}
use protocom.Messages.{ClientAuthRequest}
use protocom.Coder.{Coder, encrypted, borrowed, u16, decode, encode_encrypted}
use protocom.Coder.RoundTrip.{decode-encode, encode_encrypted-eq, encode_encrypted_truncates}
use protocom.Kex
use protocom.Authenticator.{
  Strategy, trust, password, UserTable, bytes_eq, verify, add_user, del_user, authenticate,
}
use protocom.Authenticator.Access.{Unique}
use protocom.Tests.Samples.{zeros, zeros_round, toy, toy-Seals}

abbrev key : List ℕ
key = replicate 32 5

abbrev sealed : ℕ → Frame
sealed n =
    let bs = replicate 16 0 ++ (replicate n 0 ++ replicate 16 5) in
    borrowed 0xF1 (u16 (length bs)) bs

decode-encode_example : decode toy zeros (encrypted key) (sealed 3) 0 ≡ (true, 3)
unfolding protocom.Coder.encode
decode-encode_example =
    decode-encode toy zeros zeros_round toy-Seals (encrypted key) 3 0 0 (sealed 3) (omega arith)
      refl

seals : (n : ℕ) → n < 65536 → (encode_encrypted toy zeros key n 0).0 ≡ some (sealed n)
unfolding protocom.Coder.sealed_frame
seals n fits = encode_encrypted-eq toy zeros zeros_round key n 0 fits

encode_encrypted_truncates_example :
    ((sealed 65510).len + 65536 ≡ length (sealed 65510).msg) × ((sealed 65510).len < 32)
encode_encrypted_truncates_example =
    encode_encrypted_truncates toy zeros zeros_round toy-Seals key 65510 0 (sealed 65510)
      (omega arith) (omega arith) (seals 65510 (omega arith))

abbrev kex : Kex.Kex
kex = Kex.new [] [] [] true

abbrev users : UserTable
users = (97 ∷ [], password (1 ∷ 2 ∷ []) ∷ []) ∷ (98 ∷ [], trust ∷ []) ∷ []

abbrev request : ClientAuthRequest
request = record { request = 1; username = some (97 ∷ []); auth_credential = some (1 ∷ 2 ∷ []) }

users-Unique : Unique users
unfolding protocom.Authenticator.find
users-Unique = (refl, (refl, tt))
