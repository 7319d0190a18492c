-- ===== src/Coder.antt =====
-- MessageCoder.cpp and EncrMessageCoder.cpp: messages to frames and back, in clear or sealed. The
-- frame that an encode returns points into the coder's buffer; here it holds the bytes. All random
-- pools of the program are one, `G`, which an encode draws from.
pub mod RoundTrip
pub mod Delivery
use protocom.Prelude.{
  ℕ, ◌+◌, ◌-◌, ◌%◌, Bool, true, false, not, ◌||◌, List, [], ◌++◌, Option, none, some, ◌==◌, leb,
  ltb, length, take, drop, if◌then◌else◌,
}
use protocom.Frame.{Frame}
use protocom.Messages.{Codec}
use protocom.Crypto.{Crypto, block_size}

-- `encrypted key` is an EncrMessageCoder with that key.
pub data Coder : Type 0 where
  plain : Coder
  encrypted : List ℕ → Coder

-- EncrMessageCoder's constructor. The initial vector that it draws is not used: each message has its own.
unfoldable pub new_encrypted : {G : Type 0} → Crypto G → List ℕ → G → Coder × G
new_encrypted crypto key g = (encrypted key, (crypto.generate_block g block_size).1)

-- A frame that points into a coder's buffer.
abbrev pub borrowed : ℕ → ℕ → List ℕ → Frame
borrowed h n bs = record { header = h; len = n; msg = bs; has_dynamic_data = false }

-- A length cast to uint16_t.
abbrev pub u16 : ℕ → ℕ
u16 n = n % 65536

module _ {M : Type 0} (codec : Codec M) where
  -- MessageCoder::decode. The header is not looked at.
  unfoldable pub decode_plain : Frame → Bool × M
  decode_plain f = codec.parse_from_array (take f.len f.msg)

  -- MessageCoder::encode: `none` is the result false.
  unfoldable pub encode_plain : M → Option Frame
  encode_plain m =
      if ltb 65535 (codec.byte_size_long m)
      then none
      else (elim (codec.serialize_to_array m (codec.byte_size_long m)) [
        | none ↦ none
        | some bs ↦ some (borrowed 0xF0 (u16 (codec.byte_size_long m)) bs)
      ])

-- The initial vector, then the sealed text. The length is cast to uint16_t.
unfoldable pub sealed_frame : List ℕ → Option (List ℕ) → Option Frame
sealed_frame iv none = none
sealed_frame iv (some c) = some (borrowed 0xF1 (u16 (length (iv ++ c))) (iv ++ c))

module _ {G M : Type 0} (crypto : Crypto G) (codec : Codec M) where
  -- EncrMessageCoder::decode behind the opened text.
  unfoldable pub decode_opened : Option (List ℕ) → M → Bool × M
  unfolding decode_plain
  decode_opened none prev = (false, prev)
  decode_opened (some bs) prev = decode_plain codec (borrowed 0xF0 (u16 (length bs)) bs)

  -- EncrMessageCoder::decode. What fails before the parser leaves the message as it was.
  unfoldable pub decode_encrypted : List ℕ → Frame → M → Bool × M
  unfolding decode_opened
  decode_encrypted key f prev =
      if leb f.len block_size || not (f.header == 0xF1)
      then (false, prev)
      else decode_opened
          (crypto.unseal key (take block_size f.msg)
            (take (f.len - block_size) (drop block_size f.msg)))
          prev

  -- EncrMessageCoder::encode behind the plaintext frame.
  unfoldable pub seal_frame : List ℕ → Frame → G → Option Frame × G
  unfolding sealed_frame
  seal_frame key p g =
      let (iv, g') = crypto.generate_block g block_size in
      (sealed_frame iv (crypto.seal key iv (take p.len p.msg)), g')

  unfoldable pub encode_encrypted : List ℕ → M → G → Option Frame × G
  unfolding encode_plain seal_frame
  encode_encrypted key m g = elim (encode_plain codec m) [
    | none ↦ (none, g)
    | some p ↦ seal_frame key p g
  ]

  -- The virtual calls. `prev` is the message that is decoded into.
  unfoldable pub decode : Coder → Frame → M → Bool × M
  unfolding decode_plain decode_encrypted
  decode plain f prev = decode_plain codec f
  decode (encrypted key) f prev = decode_encrypted key f prev

  unfoldable pub encode : Coder → M → G → Option Frame × G
  unfolding encode_plain encode_encrypted
  encode plain m g = (encode_plain codec m, g)
  encode (encrypted key) m g = encode_encrypted key m g
