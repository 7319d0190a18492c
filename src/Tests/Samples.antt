-- ===== src/Tests/Samples.antt =====
-- Toy instances of Protocol Buffers and Crypto++ that keep the laws.
use protocom.Prelude.{
  ℕ, suc, ◌+◌, ◌-◌, ◌≡◌, refl, ap, sym, ◌∙◌, true, List, [], ◌∷◌, ◌++◌, none, some, arith, length,
  take, replicate, length-append, length-replicate, take-append_length,
}
use mathlib.Core.Option.{some_inj}
use protocom.Messages.{Codec, RoundTrips, kex_or_default}
use protocom.Crypto.{Crypto, Seals, Agrees}
use protocom.Protocol.State.{Env}

-- A message that is a number of zero bytes.
abbrev pub zeros : Codec ℕ
zeros = record {
  byte_size_long = λ n. n;
  serialize_to_array = λ n size. some (replicate n 0);
  parse_from_array = λ bs. (true, length bs);
}

abbrev pub zeros_round : RoundTrips zeros
zeros_round = record {
  serialized = λ n. replicate n 0;
  serializes = λ n. refl;
  sized = λ n. length-replicate n 0;
  parses = λ n. ap (λ (k : ℕ). (true, k)) (length-replicate n 0);
}

abbrev pub first : List ℕ → ℕ
first [] = 0
first (b ∷ bs) = b

abbrev pub rest_of : List ℕ → List ℕ
rest_of [] = []
rest_of (b ∷ bs) = bs

-- The random pools count the keys.
abbrev pub toy : Crypto ℕ
toy = record {
  generate_block = λ g n. (replicate n g, suc g);
  generate_key_pair = λ g. (record { private = g ∷ []; public = replicate 32 g }, suc g);
  agree = λ mine other. some ((first mine + first other) ∷ []);
  derive = λ s n. replicate n (first s);
  seal = λ key iv p. some (p ++ replicate 16 (first key));
  unseal = λ key iv c. some (take (length c - 16) c);
}

pub toy-Seals : Seals toy
toy-Seals = record {
  unseal-seal = λ key iv p c e.
      let tag = replicate 16 (first key) in
      let shape : c ≡ p ++ tag = sym (some_inj.0 e) in
      let size : length c - 16 ≡ length p =
        omega (arith, ap length shape, length-append p tag, length-replicate 16 (first key)) in
      ap some
        (ap (λ (n : ℕ). take n c) size ∙ ap (take (length p)) shape ∙ take-append_length p tag);
  length-seal = λ key iv p c e.
      let tag = replicate 16 (first key) in
      omega (
        arith,
        ap length (sym (some_inj.0 e)),
        length-append p tag,
        length-replicate 16 (first key),
      );
  length-block = λ g n. length-replicate n g;
}

pub toy-Agrees : Agrees toy
toy-Agrees = record {
  agree_comm = λ g h. let e : g + h ≡ h + g = omega arith in ap (λ (n : ℕ). some (n ∷ [])) e;
  length-public = λ g. length-replicate 32 g;
}

-- Each message as its number, and its bytes behind it.
abbrev pub env : Env ℕ
env = record {
  crypto = toy;
  connected_request = record {
    byte_size_long = λ m. suc (length (kex_or_default m.kex).pkey);
    serialize_to_array = λ m n. some (m.type ∷ (kex_or_default m.kex).pkey);
    parse_from_array = λ bs.
        (true, record { type = first bs; kex = some (record { alg = 1; pkey = rest_of bs }) });
  };
  connected_response = record {
    byte_size_long = λ m. 1;
    serialize_to_array = λ m n. some (m.status ∷ []);
    parse_from_array = λ bs. (true, record { status = first bs; kex = none; iv = none });
  };
  auth_request = record {
    byte_size_long = λ m. 1;
    serialize_to_array = λ m n. some (m.request ∷ []);
    parse_from_array = λ bs.
        (true, record { request = first bs; username = some (rest_of bs); auth_credential = none });
  };
  auth_response = record {
    byte_size_long = λ m. 1;
    serialize_to_array = λ m n. some (m.status ∷ []);
    parse_from_array = λ bs. (true, record { status = first bs; server_info = none });
  };
  user_request = record {
    byte_size_long = λ m. length m.msg;
    serialize_to_array = λ m n. some m.msg;
    parse_from_array = λ bs. (true, record { msg = bs });
  };
  user_response = record {
    byte_size_long = λ m. length m.msg;
    serialize_to_array = λ m n. some m.msg;
    parse_from_array = λ bs. (true, record { msg = bs });
  };
}
