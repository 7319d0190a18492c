-- ===== src/Client/Exchanging.antt =====
-- The messages that Client.cpp sends and fetches.
use protocom.Prelude.{
  ◌≡◌, ◌∙◌, refl, ap, Bool, true, false, Option, none, some, returned, threw, ◌>>=◌, Holds,
  Holds-bind, Holds-itself,
}
use protocom.Frame
use protocom.Frame.{Frame}
use protocom.Messages.{Codec}
use protocom.Coder.{decode, encode}
use protocom.Protocol.State.{Env}
use protocom.Client.State.{FrameIo, Client}
use protocom.Client.{decode_read, fetch_msg, write_encoded, send_msg}

module _ {G I : Type 0} where
  -- What messages leave of a client.
  pub record IsSame (c c' : Client G I) : Type 0 where
    pub same_coder : c'.coder ≡ c.coder
    pub same_connected : c'.is_connected ≡ c.is_connected
    pub same_authenticated : c'.is_authenticated ≡ c.is_authenticated

module _ {G I : Type 0} (env : Env G) (frame_io : FrameIo I) where
  -- A send that gives true has written a frame.
  pub record Sent (c : Client G I) (r : Bool × Client G I) : Type 0 where
    pub same : IsSame c r.1
    pub written :
        r.0 ≡ true
        → (f : Frame) × (io : I) × (io' : I) × (frame_io.write_frame f io ≡ returned (true, io'))
          × (r.1.io ≡ some io')

  pub send_msg-Sent :
      {M : Type 0} (codec : Codec M) (m : M) (c : Client G I)
      → Holds (Sent c) (send_msg env frame_io codec m c)
  unfolding send_msg
  send_msg-Sent codec m c =
      by_frame (encode env.crypto codec c.coder m c.entropy).0 c.io
        (encode env.crypto codec c.coder m c.entropy).1
    where
      by_frame :
          (f : Option Frame) (io : Option I) (g : G)
          → Holds (Sent c) (write_encoded env frame_io f io (record c { entropy = g }))
      by_frame none io g = record {
        same = record { same_coder = refl; same_connected = refl; same_authenticated = refl };
        written = λ e. absurd (cc);
      }
      by_frame (some f) none g = tt
      by_frame (some f) (some io) g =
          Holds-bind (λ (r : Bool × I). frame_io.write_frame f io ≡ returned r) (Sent c)
            (frame_io.write_frame f io)
            (λ (ok, io'). returned (ok, record c { entropy = g; io = some io' }))
            (Holds-itself (frame_io.write_frame f io))
            (λ (ok, io') e. record {
              same = record { same_coder = refl; same_connected = refl; same_authenticated = refl };
              written = λ y. (f, io, io', e ∙ ap (λ (b : Bool). returned (b, io')) y, refl);
            })

  -- A fetch that gives true has read a frame, and decoded it.
  pub record Fetched {M : Type 0} (codec : Codec M) (prev : M) (c : Client G I)
      (r : Bool × (M × Client G I)) : Type 0 where
    pub same : IsSame c r.1.1
    pub decoded :
        r.0 ≡ true
        → (f : Frame) × (io : I) × (io' : I) × (c.io ≡ some io)
          × (frame_io.read_frame Frame.new io ≡ returned (true, (f, io')))
          × (decode env.crypto codec c.coder f prev ≡ (true, r.1.0))

  pub fetch_msg-Fetched :
      {M : Type 0} (codec : Codec M) (prev : M) (c : Client G I)
      → Holds (Fetched codec prev c) (fetch_msg env frame_io codec prev c)
  unfolding fetch_msg decode_read
  fetch_msg-Fetched {M} codec prev c = by_io c.io refl
    where
      same : (io : Option I) → IsSame c (record c { io = io })
      same io = record { same_coder = refl; same_connected = refl; same_authenticated = refl }

      read :
          (io : I) (r : Bool × (Frame × I))
          → c.io ≡ some io
          → frame_io.read_frame Frame.new io ≡ returned r
          → Fetched codec prev c (decode_read env frame_io codec prev c r)
      read before (false, (f, io)) here e = record {
        same = same (some io);
        decoded = λ e. absurd (cc);
      }
      read before (true, (f, io)) here e = record {
        same = same (some io);
        decoded = λ y. (
          f,
          before,
          io,
          here,
          e,
          ap (λ (b : Bool). (b, (decode env.crypto codec c.coder f prev).1)) y,
        );
      }

      by_io :
          (o : Option I)
          → c.io ≡ o
          → Holds (Fetched codec prev c) (elim o [
            | none ↦ threw
            | some io ↦
                frame_io.read_frame Frame.new io
                >>= (λ r. returned (decode_read env frame_io codec prev c r))
          ])
      by_io none here = tt
      by_io (some io) here =
          Holds-bind (λ (r : Bool × (Frame × I)). frame_io.read_frame Frame.new io ≡ returned r)
            (Fetched codec prev c) (frame_io.read_frame Frame.new io)
            (λ r. returned (decode_read env frame_io codec prev c r))
            (Holds-itself (frame_io.read_frame Frame.new io)) (λ r e. read io r here e)
