-- ===== src/Framer/Reference.antt =====
-- What a byte stream means, independent of PFramer.cpp: a parser that takes one byte at a time.
-- A byte that is no valid header is skipped between frames. Byte values are read modulo 256.
use protocom.Prelude.{
  ℕ, zero, suc, ◌+◌, ◌-◌, ◌*◌, ◌/◌, ◌%◌, ◌≤◌, ◌≡◌, refl, ap, ◌∙◌, sym, List, [], ◌∷◌, ◌++◌, arith,
  length, append_assoc, append-nil, true, false, if◌then◌else◌,
}
use protocom.Frame.{Packet, IsSendable, valid_header, wire, wire_all}

-- `at_body h n got` waits for n + 1 bytes behind those in `got`.
pub data Parse : Type 0 where
  at_header : Parse
  at_len : ℕ → Parse
  at_len_low : ℕ → ℕ → Parse
  at_body : ℕ → ℕ → List ℕ → Parse

-- With `n` bytes of the message to come: a packet is complete as soon as there are none.
abbrev pub body : ℕ → ℕ → List ℕ → Parse × List Packet
body h zero done = (at_header, record { header = h; payload = done } ∷ [])
body h (suc n) done = (at_body h n done, [])

unfoldable pub feed_byte : Parse → ℕ → Parse × List Packet
feed_byte at_header b = if valid_header b then (at_len b, []) else (at_header, [])
feed_byte (at_len h) b = (at_len_low h b, [])
feed_byte (at_len_low h hi) b = body h (hi % 256 * 256 + b % 256) []
feed_byte (at_body h n done) b = body h n (done ++ b ∷ [])

unfoldable pub feed : Parse → List ℕ → Parse × List Packet
unfolding feed_byte
feed p [] = (p, [])
feed p (b ∷ bs) =
    let (p', out) = feed_byte p b in let (p'', out') = feed p' bs in (p'', out ++ out')

-- Feeding is a fold: what was fed before is a state and some packets.
pub feed-append :
    (p : Parse) (xs ys : List ℕ)
    → feed p (xs ++ ys) ≡ ((feed (feed p xs).0 ys).0, (feed p xs).1 ++ (feed (feed p xs).0 ys).1)
unfolding feed
feed-append p [] ys = refl
feed-append p (b ∷ xs) ys =
    let (p', out) = feed_byte p b in
    let ih = feed-append p' xs ys in
    λ i. (
      (ih i).0,
      (ap (λ (r : Parse × List Packet). out ++ r.1) ih
            ∙ sym (append_assoc out (feed p' xs).1 (feed (feed p' xs).0 ys).1))
          i,
    )

pub feed_header-valid : (b : ℕ) → valid_header b ≡ true → feed at_header (b ∷ []) ≡ (at_len b, [])
unfolding feed feed_byte
feed_header-valid b ok = rw ok

pub feed_header-invalid :
    (b : ℕ) → valid_header b ≡ false → feed at_header (b ∷ []) ≡ (at_header, [])
unfolding feed feed_byte
feed_header-invalid b bad = rw bad

pub feed-len : (h a b : ℕ) → feed (at_len h) (a ∷ b ∷ []) ≡ body h (a % 256 * 256 + b % 256) []
unfolding feed feed_byte
feed-len h a b = λ i.
    ((body h (a % 256 * 256 + b % 256) []).0, append-nil (body h (a % 256 * 256 + b % 256) []).1 i)

pub feed-nil : (p : Parse) → feed p [] ≡ (p, [])
unfolding feed
feed-nil p = refl

-- A chunk of the message.
pub feed-body :
    (h n : ℕ) (done bs : List ℕ)
    → length bs ≤ suc n
    → feed (at_body h n done) bs ≡ body h (suc n - length bs) (done ++ bs)
unfolding feed feed_byte
feed-body h n done [] k = let e : suc n - 0 ≡ suc n = omega arith in rw (append-nil done, e) refl
feed-body h zero done (b ∷ []) k = refl
feed-body h zero done (b ∷ c ∷ bs) k = absurd (omega arith)
feed-body h (suc n) done (b ∷ bs) k =
    feed-body h n (done ++ b ∷ []) bs (omega arith)
    ∙ ap (body h (suc n - length bs)) (append_assoc done (b ∷ []) bs)
    ∙ ap (λ (m : ℕ). body h m (done ++ b ∷ bs)) (omega arith)

-- A whole message behind its length.
feed_message :
    (h n : ℕ) (bs : List ℕ)
    → length bs ≡ n
    → let (p, out) = body h n [] in
      (out ++ (feed p bs).1 ≡ record { header = h; payload = bs } ∷ [])
      × ((feed p bs).0 ≡ at_header)
unfolding feed
feed_message h zero [] e = (refl, refl)
feed_message h zero (b ∷ bs) e = absurd (omega arith)
feed_message h (suc n) bs e =
    let all : feed (at_body h n []) bs ≡ body h 0 bs =
      feed-body h n [] bs (omega arith)
      ∙ (let z : suc n - length bs ≡ 0 = omega arith in ap (λ (m : ℕ). body h m bs) z) in
    (ap (λ (r : Parse × List Packet). r.1) all, ap (λ (r : Parse × List Packet). r.0) all)

-- A header, the two bytes of a length and a message of that length are one packet.
pub feed_frame :
    (h a b : ℕ) (bs : List ℕ)
    → valid_header h ≡ true
    → length bs ≡ a % 256 * 256 + b % 256
    → feed at_header (h ∷ a ∷ b ∷ bs) ≡ (at_header, record { header = h; payload = bs } ∷ [])
unfolding feed feed_byte
feed_frame h a b bs ok size =
    let message = feed_message h (a % 256 * 256 + b % 256) bs size in
    rw ok (λ i. (message.1 i, message.0 i))

feed-wire : (p : Packet) → IsSendable p → feed at_header (wire p) ≡ (at_header, p ∷ [])
unfolding feed feed_byte wire
feed-wire p v =
    let n = length p.payload in
    let message =
      feed_message p.header (n / 256 % 256 % 256 * 256 + n % 256 % 256) p.payload
        (omega (arith, v.fits)) in
    rw (v.valid) (λ i. (message.1 i, message.0 i))

abbrev pub AllSendable : List Packet → Type 0
AllSendable [] = Unit {0}
AllSendable (p ∷ ps) = IsSendable p × AllSendable ps

-- The wire form of sendable packets parses to those packets, with nothing left over.
pub feed-wire_all :
    (ps : List Packet) → AllSendable ps → feed at_header (wire_all ps) ≡ (at_header, ps)
unfolding feed wire_all
feed-wire_all [] h = refl
feed-wire_all (p ∷ ps) (v, vs) =
    feed-append at_header (wire p) (wire_all ps)
    ∙ ap
        (λ (r : Parse × List Packet).
          ((feed r.0 (wire_all ps)).0, r.1 ++ (feed r.0 (wire_all ps)).1))
        (feed-wire p v)
    ∙ ap (λ (r : Parse × List Packet). (r.0, p ∷ r.1)) (feed-wire_all ps vs)
