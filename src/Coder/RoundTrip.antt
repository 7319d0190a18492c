-- ===== src/Coder/RoundTrip.antt =====
-- Decoding what was encoded, and the messages that a sealed frame is too short for.
use protocom.Prelude.{
  ℕ, ◌+◌, ◌-◌, ◌≤◌, ◌<◌, ◌≡◌, refl, ap, ◌∙◌, sym, true, false, List, ◌++◌, Option, none, some,
  arith, leb, length, take, drop, length-append, take_all, take-append_length, drop-append_length,
}
use mathlib.Core.Option.{some_inj}
use protocom.Frame.{Frame}
use protocom.Messages.{Codec, RoundTrips}
use protocom.Crypto.{Crypto, Seals, block_size}
use protocom.Coder.{
  Coder, plain, encrypted, borrowed, u16, decode_plain, encode_plain, decode_opened,
  decode_encrypted, sealed_frame, encode_encrypted, decode, encode,
}

module _ {M : Type 0} (codec : Codec M) (laws : RoundTrips codec) where
  open laws use {serialized}

  -- The frame of a message that is not too long.
  pub encode_plain-fits :
      (m : M)
      → codec.byte_size_long m < 65536
      → encode_plain codec m ≡ some (borrowed 0xF0 (codec.byte_size_long m) (serialized m))
  unfolding encode_plain
  encode_plain-fits m h = ground (arith, laws.serializes m)

  -- What any codec makes of that frame: it parses the serialized message.
  decode_plain-serialized :
      {N : Type 0} (other : Codec N) (m : M)
      → decode_plain other (borrowed 0xF0 (codec.byte_size_long m) (serialized m))
        ≡ other.parse_from_array (serialized m)
  unfolding decode_plain
  decode_plain-serialized other m =
      ap other.parse_from_array
        (take_all (codec.byte_size_long m) (serialized m) (omega (arith, laws.sized m)))

sealed_frame_lem :
    (iv : List ℕ) (o : Option (List ℕ)) (f : Frame)
    → sealed_frame iv o ≡ some f
    → (c : List ℕ) × (o ≡ some c) × (f ≡ borrowed 0xF1 (u16 (length (iv ++ c))) (iv ++ c))
unfolding sealed_frame
sealed_frame_lem iv none f h = absurd (cc)
sealed_frame_lem iv (some c) f h = (c, refl, cc)

module _ {G M : Type 0} (crypto : Crypto G) (codec : Codec M) (laws : RoundTrips codec) where
  open laws use {serialized}

  -- The frame of a sealed message.
  pub encode_encrypted-eq :
      (key : List ℕ) (m : M) (g : G)
      → codec.byte_size_long m < 65536
      → let iv = (crypto.generate_block g block_size).0 in
        (encode_encrypted crypto codec key m g).0
        ≡ sealed_frame iv (crypto.seal key iv (serialized m))
  unfolding encode_encrypted
  encode_encrypted-eq key m g fits =
      let iv = (crypto.generate_block g block_size).0 in
      let all = take_all (codec.byte_size_long m) (serialized m) (omega (arith, laws.sized m)) in
      rw (encode_plain-fits codec laws m fits, encode_encrypted)
        (ap (λ (p : List ℕ). sealed_frame iv (crypto.seal key iv p)) all)

  -- A sealed frame with its true length is opened.
  decode_encrypted-opens :
      {N : Type 0} (other : Codec N) (key iv c : List ℕ) (prev : N)
      → length iv ≡ block_size
      → 0 < length c
      → decode_encrypted crypto other key (borrowed 0xF1 (length (iv ++ c)) (iv ++ c)) prev
        ≡ decode_opened crypto other (crypto.unseal key iv c) prev
  unfolding decode_encrypted
  decode_encrypted-opens other key iv c prev block some_text =
      let cut : leb (length (iv ++ c)) 16 ≡ false = ground (arith, length-append iv c) in
      let front : take 16 (iv ++ c) ≡ iv =
        ap (λ (k : ℕ). take k (iv ++ c)) (sym block) ∙ take-append_length iv c in
      let back : drop 16 (iv ++ c) ≡ c =
        ap (λ (k : ℕ). drop k (iv ++ c)) (sym block) ∙ drop-append_length iv c in
      let rest : take (length (iv ++ c) - 16) c ≡ c =
        take_all _ c (omega (arith, length-append iv c)) in
      rw (cut, front, back, rest) refl

  decode_opened-serialized :
      {N : Type 0} (other : Codec N) (m : M) (prev : N)
      → codec.byte_size_long m < 65536
      → decode_opened crypto other (some (serialized m)) prev
        ≡ other.parse_from_array (serialized m)
  unfolding decode_opened decode_plain
  decode_opened-serialized other m prev h =
      let n : length (serialized m) ≤ u16 (length (serialized m)) = omega (arith, laws.sized m) in
      ap other.parse_from_array (take_all (u16 (length (serialized m))) (serialized m) n)

  module _ (seals : Seals crypto) where
    encode_encrypted-sealed :
        (key : List ℕ) (m : M) (g : G) (f : Frame)
        → codec.byte_size_long m < 65536
        → (encode_encrypted crypto codec key m g).0 ≡ some f
        → let iv = (crypto.generate_block g block_size).0 in
          (c : List ℕ) × (crypto.seal key iv (serialized m) ≡ some c)
          × (f ≡ borrowed 0xF1 (u16 (codec.byte_size_long m + 32)) (iv ++ c))
          × (length (iv ++ c) ≡ codec.byte_size_long m + 32)
    encode_encrypted-sealed key m g f fits h =
        let iv = (crypto.generate_block g block_size).0 in
        let (c, e, shape) = sealed_frame_lem iv _ f (sym (encode_encrypted-eq key m g fits) ∙ h) in
        let size : length (iv ++ c) ≡ codec.byte_size_long m + 32 = omega (
          arith,
          length-append iv c,
          seals.length-block g block_size,
          seals.length-seal key iv (serialized m) c e,
          laws.sized m,
        ) in
        (c, e, shape ∙ ap (λ (n : ℕ). borrowed 0xF1 (u16 n) (iv ++ c)) size, size)

    -- A sealed message of at most 65503 bytes comes to the other codec whole.
    decode_encrypted-parses :
        {N : Type 0} (other : Codec N) (key : List ℕ) (m : M) (prev : N) (g : G) (f : Frame)
        → codec.byte_size_long m + 32 < 65536
        → (encode_encrypted crypto codec key m g).0 ≡ some f
        → decode_encrypted crypto other key f prev ≡ other.parse_from_array (serialized m)
    decode_encrypted-parses other key m prev g f fits h =
        let iv = (crypto.generate_block g block_size).0 in
        let (c, e, shape, size) = encode_encrypted-sealed key m g f (omega arith) h in
        let n : u16 (codec.byte_size_long m + 32) ≡ length (iv ++ c) = omega (arith, size) in
        let block = seals.length-block g block_size in
        ap (λ (x : Frame). decode_encrypted crypto other key x prev)
          (shape ∙ ap (λ (k : ℕ). borrowed 0xF1 k (iv ++ c)) n)
        ∙ decode_encrypted-opens other key iv c prev block
            (omega (arith, size, block, length-append iv c))
        ∙ ap (λ (o : Option (List ℕ)). decode_opened crypto other o prev)
            (seals.unseal-seal key iv (serialized m) c e)
        ∙ decode_opened-serialized other m prev (omega arith)

    -- Under the laws of the codec and of the sealing: a message of 65504 to 65535 bytes, if an
    -- encrypted encode gives a frame, goes out under a length below 32 that is 65536 short of the
    -- frame's bytes.
    pub encode_encrypted_truncates :
        (key : List ℕ) (m : M) (g : G) (f : Frame)
        → codec.byte_size_long m < 65536
        → 65504 ≤ codec.byte_size_long m
        → (encode_encrypted crypto codec key m g).0 ≡ some f
        → (f.len + 65536 ≡ length f.msg) × (f.len < 32)
    encode_encrypted_truncates key m g f fits long h =
        let (c, e, shape, size) = encode_encrypted-sealed key m g f fits h in
        rw shape (omega (arith, size), omega arith)

  -- A frame that an encode gave, of a message that is short enough, comes to any codec as the
  -- serialized message.
  pub decode-parses :
      {N : Type 0} (other : Codec N) (seals : Seals crypto) (coder : Coder) (m : M) (prev : N)
      (g : G) (f : Frame)
      → codec.byte_size_long m + 32 < 65536
      → (encode crypto codec coder m g).0 ≡ some f
      → decode crypto other coder f prev ≡ other.parse_from_array (serialized m)
  unfolding encode decode
  decode-parses other seals plain m prev g f fits h =
      let shape = some_inj.0 (sym (encode_plain-fits codec laws m (omega arith)) ∙ h) in
      ap (decode_plain other) (sym shape) ∙ decode_plain-serialized codec laws other m
  decode-parses other seals (encrypted key) m prev g f fits h =
      decode_encrypted-parses seals other key m prev g f fits h

  -- Under the laws of the codec and of the sealing, and with either coder: a message of at most
  -- 65503 bytes decodes to itself from the frame that an encode gave.
  pub decode-encode :
      (seals : Seals crypto) (coder : Coder) (m prev : M) (g : G) (f : Frame)
      → codec.byte_size_long m + 32 < 65536
      → (encode crypto codec coder m g).0 ≡ some f
      → decode crypto codec coder f prev ≡ (true, m)
  decode-encode seals coder m prev g f fits h =
      decode-parses codec seals coder m prev g f fits h ∙ laws.parses m
