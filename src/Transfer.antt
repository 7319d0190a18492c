-- ===== src/Transfer.antt =====
-- From the deframer of one side to the framer of the other: Server::handleDataOut in Server.cpp hands
-- each item of the outgoing queue to the connection's deframer and writes it.
use protocom.Prelude.{
  ℕ, ◌<◌, ◌≡◌, ap, ◌∙◌, sym, true, false, List, [], ◌∷◌, ◌++◌, map, arith, length, append_assoc,
  append-nil, some, returned,
}
use protocom.Frame.{Frame, packet, wire, wire_all, valid_header}
use protocom.WorkQueue
use protocom.Socket.{Socket, ReceivesStream, SendsStream}
use protocom.Framer
use protocom.Framer.{Rx, read_all}
use protocom.Framer.Reference.{AllSendable}
use protocom.Framer.Refines.{tag, item_packet}
use protocom.Framer.Steps.{WholeLengths}
use protocom.Framer.ReadAll.{read_all-delivers}
use protocom.Deframer.{Tx, Memory, set_sent_item, write_all}
use protocom.Deframer.Refines.{WholeSends}
use protocom.Deframer.WriteAll.{write_all-sends, write_all-idle, set_sent_item-IsValid}

-- A frame that a deframer may send and a framer accepts.
pub record IsWhole (f : Frame) : Type 0 where
  pub header : valid_header f.header ≡ true
  pub full : length f.msg ≡ f.len
  pub fits : f.len < 65536

abbrev pub AllWhole : List Frame → Type 0
AllWhole [] = Unit {0}
AllWhole (f ∷ fs) = IsWhole f × AllWhole fs

AllWhole-AllSendable : (fs : List Frame) → AllWhole fs → AllSendable (map packet fs)
AllWhole-AllSendable [] h = tt
AllWhole-AllSendable (f ∷ fs) (w, ws) =
    (record { valid = w.header; fits = omega (arith, w.full, w.fits) }, AllWhole-AllSendable fs ws)

module _ {S : Type 0} (socket : Socket S) (mem : Memory) where
  -- The deframer was handed each frame, and writeAll wrote it to its end.
  pub data Writes : List Frame → Tx S → Tx S → Type 0 where
    none_left : (t : Tx S) → Writes [] t t
    write :
        (fuel fd : ℕ) (f : Frame) (fs : List Frame) (t t₁ t₂ : Tx S)
        → write_all socket mem fuel (record t { deframer = (set_sent_item (fd, f) t.deframer).1 })
          ≡ some (returned (true, t₁))
        → Writes fs t₁ t₂
        → Writes (f ∷ fs) t t₂

module _ {S : Type 0} (socket : Socket S) (mem : Memory) (stream : SendsStream socket) where
  open stream use {outgoing}

  -- Over a stream socket with whole lengths, from an idle deframer: frames with their true lengths,
  -- each written to its end, have sent their wire forms one after the other.
  pub Writes-wire_all :
      (fs : List Frame) (t t' : Tx S)
      → WholeSends socket
      → t.deframer.write_in_progress ≡ false
      → AllWhole fs
      → Writes socket mem fs t t'
      → outgoing t'.sock ≡ outgoing t.sock ++ wire_all (map packet fs)
  unfolding wire_all
  Writes-wire_all [] t t' whole idle all (none_left _) = sym (append-nil (outgoing t.sock))
  Writes-wire_all (f ∷ fs) t t' whole idle (w, ws) (write fuel fd _ _ _ t₁ _ e rest) =
      Writes-wire_all fs t₁ t' whole
        (write_all-idle socket mem stream fuel _ t₁ whole
          (set_sent_item-IsValid socket mem stream fd f t.deframer idle w.full w.fits) e)
        ws rest
      ∙ ap (λ (bs : List ℕ). bs ++ wire_all (map packet fs))
          (write_all-sends socket mem stream fuel fd f t t₁ whole idle w.full w.fits e)
      ∙ append_assoc (outgoing t.sock) (wire (packet f)) (wire_all (map packet fs))

module _ {S R : Type 0} (sender : Socket S) (mem : Memory) (out : SendsStream sender)
    (receiver : Socket R) (inp : ReceivesStream receiver) where
  -- Over stream sockets with whole lengths: if an idle deframer, on a connection that has sent
  -- nothing, wrote some frames with true lengths and valid headers, each to its end, and the other
  -- side's new framer reads from a stream that holds what was sent, and its readAll returns and
  -- leaves nothing in the stream, then its queue holds exactly these frames' headers and messages,
  -- in order and tagged with its descriptor.
  pub read_all-Writes :
      (fs : List Frame) (t t' : Tx S) (fuel fd : ℕ) (s : R) (r : Rx R)
      → WholeSends sender
      → WholeLengths receiver
      → t.deframer.write_in_progress ≡ false
      → out.outgoing t.sock ≡ []
      → AllWhole fs
      → Writes sender mem fs t t'
      → inp.incoming s ≡ out.outgoing t'.sock
      → read_all receiver fuel (record { framer = Framer.new fd; wq = WorkQueue.new; sock = s })
        ≡ some (returned r)
      → inp.incoming r.sock ≡ []
      → map item_packet r.wq.queue ≡ tag fd (map packet fs)
  read_all-Writes fs t t' fuel fd s r sends reads idle fresh all ws same did nothing =
      read_all-delivers receiver inp fuel fd s r (map packet fs) reads (AllWhole-AllSendable fs all)
        (same
          ∙ Writes-wire_all sender mem out fs t t' sends idle all ws
          ∙ ap (λ (bs : List ℕ). bs ++ wire_all (map packet fs)) fresh
          ∙ sym (append-nil (wire_all (map packet fs)))
          ∙ ap (◌++◌ (wire_all (map packet fs))) (sym nothing))
        did
