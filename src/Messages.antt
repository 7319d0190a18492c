-- ===== src/Messages.antt =====
-- The messages of pcomserver.proto and testuserprotocol.proto, as pcomserver.pb.h presents them. An
-- enum of proto3 is open, so it is a number. Texts and byte strings are lists of bytes. Protocol
-- Buffers itself is a parameter: `Codec` is what the program calls of it.
use protocom.Prelude.{ℕ, ◌≡◌, Bool, true, List, [], Option, none, some, length}

pub record KexMsg : Type 0 where
  pub alg : ℕ
  pub pkey : List ℕ

pub record ClientConnectedStateRequest : Type 0 where
  pub type : ℕ
  pub kex : Option KexMsg

pub record ServerConnectedStateResponse : Type 0 where
  pub status : ℕ
  pub kex : Option KexMsg
  pub iv : Option (List ℕ)

pub record ClientAuthRequest : Type 0 where
  pub request : ℕ
  pub username : Option (List ℕ)
  pub auth_credential : Option (List ℕ)

pub record ServerAuthResponse : Type 0 where
  pub status : ℕ
  pub server_info : Option (List ℕ)

pub record UserRequest : Type 0 where
  pub msg : List ℕ

pub record ServerResponse : Type 0 where
  pub msg : List ℕ

abbrev pub kex_ecdh : ℕ
kex_ecdh = 1

-- ClientConnectedStateRequest.RequestType
abbrev pub request_kex : ℕ
request_kex = 1

abbrev pub request_auth : ℕ
request_auth = 2

-- ServerConnectedStateResponse.ResponseStatus
abbrev pub status_ok : ℕ
status_ok = 1

abbrev pub status_invalid_request : ℕ
status_invalid_request = 2

abbrev pub status_request_error : ℕ
status_request_error = 3

abbrev pub status_decode_error : ℕ
status_decode_error = 4

-- ClientAuthRequest.RequestType
abbrev pub auth_supply : ℕ
auth_supply = 1

abbrev pub auth_info : ℕ
auth_info = 2

-- ServerAuthResponse.ResponseStatus
abbrev pub auth_accept : ℕ
auth_accept = 1

abbrev pub auth_reject : ℕ
auth_reject = 2

abbrev pub auth_continue : ℕ
auth_continue = 3

abbrev pub auth_invalid_request : ℕ
auth_invalid_request = 4

abbrev pub auth_decode_error : ℕ
auth_decode_error = 5

-- A field that is absent reads as its default.
abbrev pub kex_or_default : Option KexMsg → KexMsg
kex_or_default none = record { alg = 0; pkey = [] }
kex_or_default (some k) = k

abbrev pub bytes_or_empty : Option (List ℕ) → List ℕ
bytes_or_empty none = []
bytes_or_empty (some s) = s

-- What the program calls of Protocol Buffers for one message type: ByteSizeLong, SerializeToArray
-- into a buffer of the given size, and ParseFromArray, which clears the message first and leaves a
-- part of it on failure.
pub record Codec (M : Type 0) : Type 0 where
  pub byte_size_long : M → ℕ
  pub serialize_to_array : M → ℕ → Option (List ℕ)
  pub parse_from_array : List ℕ → Bool × M

-- What Protocol Buffers promises of a message that is serialized into a buffer of its size.
pub record RoundTrips {M : Type 0} (codec : Codec M) : Type 0 where
  pub serialized : M → List ℕ
  pub serializes :
      (m : M) → codec.serialize_to_array m (codec.byte_size_long m) ≡ some (serialized m)
  pub sized : (m : M) → length (serialized m) ≡ codec.byte_size_long m
  pub parses : (m : M) → codec.parse_from_array (serialized m) ≡ (true, m)
