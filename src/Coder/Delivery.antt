-- ===== src/Coder/Delivery.antt =====
-- A message that one coder sends, and another with the same key receives: MessageCoder.cpp and
-- EncrMessageCoder.cpp on a frame and on its copy.
use protocom.Prelude.{
  ℕ, ◌+◌, ◌<◌, ◌≡◌, refl, ap, ◌∙◌, List, true, ◌++◌, Option, some, arith, length, length-append,
  take_all,
}
use protocom.Frame
use protocom.Frame.{Frame}
use protocom.Messages.{Codec, RoundTrips}
use protocom.Crypto.{Crypto, Seals, block_size}
use protocom.Coder.{
  Coder, plain, encrypted, borrowed, u16, sealed_frame, encode_encrypted, decode, encode,
}
use protocom.Coder.RoundTrip.{encode_plain-fits, encode_encrypted-eq, decode-parses, decode-encode}

-- The filter that seals gives a text on every input.
abbrev pub SealsAll : {G : Type 0} → Crypto G → Type 0
SealsAll crypto = (key iv p : List ℕ) → (c : List ℕ) × (crypto.seal key iv p ≡ some c)

module _ {G M : Type 0} (crypto : Crypto G) (codec : Codec M) where
  -- The coder gives a frame, and the frame's copy decodes to the message. To another codec, it comes
  -- as the message serialized.
  pub record Delivers (laws : RoundTrips codec) (coder : Coder) (m : M) (g : G) : Type 1 where
    pub frame : Frame
    pub rest : G
    pub encodes : encode crypto codec coder m g ≡ (some frame, rest)
    pub decodes : (prev : M) → decode crypto codec coder (Frame.copy frame) prev ≡ (true, m)
    pub parses_as :
        {N : Type 0} (other : Codec N) (prev : N)
        → decode crypto other coder (Frame.copy frame) prev
          ≡ other.parse_from_array (laws.serialized m)

  -- A frame with its true length decodes as its copy does.
  decode-copy :
      {N : Type 0} (other : Codec N) (coder : Coder) (f : Frame) (prev : N)
      → length f.msg ≡ f.len
      → decode crypto other coder (Frame.copy f) prev ≡ decode crypto other coder f prev
  unfolding decode
  decode-copy other plain f prev n = rw (take_all f.len f.msg (omega (arith, n))) refl
  decode-copy other (encrypted key) f prev n = rw (take_all f.len f.msg (omega (arith, n))) refl

  module _ (laws : RoundTrips codec) (seals : Seals crypto) (all : SealsAll crypto) where
    -- Any message that is short enough goes out, under its true length.
    encode-gives :
        (coder : Coder) (m : M) (g : G)
        → codec.byte_size_long m + 32 < 65536
        → (f : Frame) × ((encode crypto codec coder m g).0 ≡ some f) × (length f.msg ≡ f.len)
    unfolding encode sealed_frame
    encode-gives plain m g fits = (
      borrowed 0xF0 (codec.byte_size_long m) (laws.serialized m),
      encode_plain-fits codec laws m (omega arith),
      laws.sized m,
    )
    encode-gives (encrypted key) m g fits =
        let iv = (crypto.generate_block g block_size).0 in
        let (c, e) = all key iv (laws.serialized m) in
        let f : Frame = borrowed 0xF1 (u16 (length (iv ++ c))) (iv ++ c) in
        let sent : (encode_encrypted crypto codec key m g).0 ≡ some f =
          encode_encrypted-eq crypto codec laws key m g (omega arith) ∙ ap (sealed_frame iv) e in
        (
          f,
          sent,
          omega (
            arith,
            length-append iv c,
            seals.length-block g block_size,
            seals.length-seal key iv (laws.serialized m) c e,
            laws.sized m,
          ),
        )

    pub encode-Delivers :
        (coder : Coder) (m : M) (g : G)
        → codec.byte_size_long m + 32 < 65536
        → Delivers laws coder m g
    encode-Delivers coder m g fits =
        let (f, e, n) = encode-gives coder m g fits in
        record {
          frame = f;
          rest = (encode crypto codec coder m g).1;
          encodes = ap (λ (o : Option Frame). (o, (encode crypto codec coder m g).1)) e;
          decodes = λ prev.
              decode-copy codec coder f prev n
              ∙ decode-encode crypto codec laws seals coder m prev g f fits e;
          parses_as = λ other prev.
              decode-copy other coder f prev n
              ∙ decode-parses crypto codec laws other seals coder m prev g f fits e;
        }
