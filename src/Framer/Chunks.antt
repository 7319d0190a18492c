-- ===== src/Framer/Chunks.antt =====
-- The message buffer of PFramer.cpp as chunks are written into it, against the reference parser.
use protocom.Prelude.{
  ℕ, zero, suc, ◌+◌, ◌-◌, ◌≤◌, ◌≡◌, refl, ap, ◌∙◌, sym, List, [], ◌∷◌, ◌++◌, arith, length, take,
  take-append_length, drop, write_at, length-append, length-take, length-drop, append-nil,
}
use protocom.Frame.{Packet}
use protocom.Framer.Reference.{Parse, body, feed, feed-body, feed-nil}

-- What a chunk does to the buffer: the part that is filled grows by the chunk.
pub length-write_at :
    (off : ℕ) (bs msg : List ℕ)
    → off + length bs ≤ length msg
    → length (write_at off bs msg) ≡ length msg
length-write_at off bs msg h = omega (
  arith,
  length-append (take off msg ++ bs) (drop (off + length bs) msg),
  length-append (take off msg) bs,
  length-take off msg,
  length-drop (off + length bs) msg,
)

take-write_at :
    (off : ℕ) (bs msg : List ℕ)
    → off + length bs ≤ length msg
    → take (off + length bs) (write_at off bs msg) ≡ take off msg ++ bs
take-write_at off bs msg h =
    let n : off + length bs ≡ length (take off msg ++ bs) =
      omega (arith, length-append (take off msg) bs, length-take off msg) in
    ap (λ (k : ℕ). take k (write_at off bs msg)) n
    ∙ take-append_length (take off msg ++ bs) (drop (off + length bs) msg)

pub stored_chunk :
    (h off rem : ℕ) (bs msg : List ℕ)
    → length msg ≡ off + rem
    → length bs ≤ rem
    → let before = body h rem (take off msg) in
      let after = body h (rem - length bs) (take (off + length bs) (write_at off bs msg)) in
      (after.0 ≡ (feed before.0 bs).0) × (after.1 ≡ before.1 ++ (feed before.0 bs).1)
stored_chunk h off zero [] msg e k =
    let same : body h (0 - 0) (take (off + 0) (write_at off [] msg)) ≡ body h 0 (take off msg) =
      ap (body h 0) (take-write_at off [] msg (omega arith) ∙ append-nil (take off msg)) in
    rw feed-nil
      (ap (λ (x : Parse × List Packet). x.0) same, ap (λ (x : Parse × List Packet). x.1) same)
stored_chunk h off zero (b ∷ bs) msg e k = absurd (omega arith)
stored_chunk h off (suc n) bs msg e k =
    let same =
      ap (body h (suc n - length bs)) (take-write_at off bs msg (omega arith))
      ∙ sym (feed-body h n (take off msg) bs k) in
    (ap (λ (x : Parse × List Packet). x.0) same, ap (λ (x : Parse × List Packet). x.1) same)

pub entered : (h n m : ℕ) (buf : List ℕ) → n ≡ m → body h n (take (n - n) buf) ≡ body h m []
entered h n m buf e = let z : n - n ≡ 0 = omega arith in rw (z, e) refl
