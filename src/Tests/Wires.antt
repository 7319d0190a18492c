-- ===== src/Tests/Wires.antt =====
-- A socket over two lists of bytes, with the laws of a stream.
use protocom.Prelude.{
  ℕ, zero, suc, ◌+◌, ◌≤◌, ◌≡◌, ◌≢◌, inl, inr, refl, ap, sym, ◌∙◌, Bool, true, false, ◌&&◌, List, [],
  ◌∷◌, ◌++◌, arith, length, take, drop, ◌==◌, if◌then◌else◌, take_all, take-append-drop, append-nil,
  subst, Bool-cases,
}
use protocom.Socket.{
  Socket, RecvResult, SendResult, received, eof, recv_again, recv_failed, sent, sent_none,
  send_again, send_failed, ReceivesStream, SendsStream,
}
use protocom.Framer.Steps.{WholeLengths}
use protocom.Deframer.Refines.{WholeSends}

pub record Wires : Type 0 where
  pub incoming : List ℕ
  pub outgoing : List ℕ

abbrev pub is_nil : List ℕ → Bool
is_nil [] = true
is_nil (b ∷ bs) = false

-- The next bytes, but not one where two are asked for.
abbrev pub recv_from : List ℕ → ℕ → RecvResult × List ℕ
recv_from [] n = (recv_again, [])
recv_from (b ∷ bs) zero = (recv_again, b ∷ bs)
recv_from (b ∷ bs) (suc n) =
    if n == 1 && is_nil bs then (recv_again, b ∷ bs) else (received b (take n bs), drop n bs)

abbrev pub send_to : List ℕ → SendResult
send_to [] = sent_none
send_to (b ∷ bs) = sent (length bs)

abbrev pub wires : Socket Wires
wires = record {
  recv = λ s n. let (r, rest) = recv_from s.incoming n in (r, record s { incoming = rest });
  send = λ s bs. (send_to bs, record s { outgoing = s.outgoing ++ bs });
}

take_part : (n : ℕ) (bs : List ℕ) → length (take n bs) ≤ n
take_part zero bs = ground arith
take_part (suc n) [] = ground arith
take_part (suc n) (b ∷ bs) = ground (arith, take_part n bs)

abbrev pub bytes_of : RecvResult → List ℕ
bytes_of (received b bs) = b ∷ bs
bytes_of eof = []
bytes_of recv_again = []
bytes_of recv_failed = []

-- Whatever the result, the bytes and what is left are the bytes that were there.
recv_from_lem :
    (xs : List ℕ) (n : ℕ)
    → let (r, ys) = recv_from xs n in
      (xs ≡ bytes_of r ++ ys) × (length (bytes_of r) ≤ n) × (n ≡ 2 → length (bytes_of r) ≢ 1)
recv_from_lem [] n = (refl, omega arith, λ _ e. absurd (omega arith))
recv_from_lem (b ∷ bs) zero = (refl, omega arith, λ _ e. absurd (omega arith))
recv_from_lem (b ∷ bs) (suc n) = elim (Bool-cases (n == 1 && is_nil bs)) [
  | inl y ↦ rw y (refl, omega arith, λ _ e. absurd (omega arith))
  | inr y ↦ rw y (
    ap (◌∷◌ b) (sym (take-append-drop n bs)),
    omega (arith, take_part n bs),
    λ two one. absurd (some_bytes bs n y two one),
  )
]
  where
    some_bytes :
        (bs : List ℕ) (n : ℕ)
        → (n == 1 && is_nil bs) ≡ false
        → suc n ≡ 2
        → length (b ∷ take n bs) ≡ 1
        → ⊥
    some_bytes [] n y two one = ground arith
    some_bytes (c ∷ cs) zero y two one = omega arith
    some_bytes (c ∷ cs) (suc n) y two one = omega arith

pub wires-recv :
    (s s' : Wires) (n : ℕ) (r : RecvResult)
    → wires.recv s n ≡ (r, s')
    → (s.incoming ≡ bytes_of r ++ s'.incoming)
      × (length (bytes_of r) ≤ n)
      × (n ≡ 2 → length (bytes_of r) ≢ 1)
wires-recv s s' n r e =
    subst
      (λ (x : RecvResult × Wires).
        (s.incoming ≡ bytes_of x.0 ++ x.1.incoming)
        × (length (bytes_of x.0) ≤ n)
        × (n ≡ 2 → length (bytes_of x.0) ≢ 1))
      e (recv_from_lem s.incoming n)

abbrev pub wires_receive : ReceivesStream wires
wires_receive = record {
  incoming = λ s. s.incoming;
  recv_received = λ s s' n b bs e. let (next, fits, _) = wires-recv s s' n _ e in (next, fits);
  recv_eof = λ s s' n e. sym (wires-recv s s' n _ e).0;
  recv_idle = λ s s' n e. sym (wires-recv s s' n _ e).0;
}

pub wires-WholeLengths : WholeLengths wires
wires-WholeLengths s s' b e = let (_, _, whole) = wires-recv s s' 2 _ e in whole refl refl

pub wires-send :
    (s s' : Wires) (bs : List ℕ) (r : SendResult)
    → wires.send s bs ≡ (r, s')
    → (s'.outgoing ≡ s.outgoing ++ bs) × (send_to bs ≡ r)
wires-send s s' bs r e =
    (sym (ap (λ (x : SendResult × Wires). x.1.outgoing) e), ap (λ (x : SendResult × Wires). x.0) e)

abbrev pub count_of : SendResult → ℕ
count_of (sent m) = m
count_of sent_none = 0
count_of send_again = 0
count_of send_failed = 0

pub sent_all : (bs : List ℕ) (n : ℕ) → send_to bs ≡ sent n → length bs ≡ n + 1
sent_all [] n e = absurd (cc)
sent_all (b ∷ bs) n e = omega (arith, ap count_of e)

pub sent_nothing :
    (bs : List ℕ) (r : SendResult) → send_to bs ≡ r → ((n : ℕ) → r ≢ sent n) → bs ≡ []
sent_nothing [] r e h = refl
sent_nothing (b ∷ bs) r e h = absurd (h (length bs) (sym e))

abbrev pub wires_send : SendsStream wires
wires_send = record {
  outgoing = λ s. s.outgoing;
  send_sent = λ s s' bs n e.
      let (out, r) = wires-send s s' bs _ e in
      let all = sent_all bs n r in
      (
        out ∙ ap (◌++◌ s.outgoing) (sym (take_all (n + 1) bs (omega (arith, all)))),
        omega (arith, all),
      );
  send_none = λ s s' bs e.
      let (out, r) = wires-send s s' bs _ e in
      out ∙ ap (◌++◌ s.outgoing) (sent_nothing bs _ r (λ n z. cc)) ∙ append-nil s.outgoing;
  send_idle = λ s s' bs e.
      let (out, r) = wires-send s s' bs _ e in
      out ∙ ap (◌++◌ s.outgoing) (sent_nothing bs _ r (λ n z. cc)) ∙ append-nil s.outgoing;
}

pub wires-WholeSends : WholeSends wires
wires-WholeSends s a b = inl refl
