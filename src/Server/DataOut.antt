-- ===== src/Server/DataOut.antt =====
-- Server::handleDataOut: one item of the outgoing queue on its way to its connection.
use protocom.Prelude.{
  ℕ, ◌≡◌, ◌<◌, refl, sym, ap, ◌∙◌, subst, Bool, true, false, not, List, ◌∷◌, ◌++◌, Option, some,
  arith, length, ==_iff, returned, Leaves, Leaves-after, Leaves-map, Leaves-returned, if-Leaves,
}
use mathlib.Core.Option.{some_inj}
use protocom.Prelude.Tables.{lookup, lookup-replace}
use protocom.Frame.{Frame, packet, wire}
use protocom.WorkQueue.{WorkItem, WorkQueue, take_front}
use protocom.Socket.{Socket, SendsStream}
use protocom.Deframer.{Deframer, Tx, Memory, write_all, set_sent_item}
use protocom.Deframer.Refines.{WholeSends}
use protocom.Deframer.WriteAll.{write_all-sends, write_all-Sent, set_sent_item-IsValid}
use protocom.Server.State.{ConnectionContext, Server}
use protocom.Server.Notifications.{IsQuiet, send_fetched-Quiet}
use protocom.Server.Loop.{
  handle_data_out, send_fetched, send_item, write_to, was_written, store_connection,
}

set_sent_item-taken :
    (itm : WorkItem) (d : Deframer) → d.write_in_progress ≡ false → (set_sent_item itm d).0 ≡ true
unfolding set_sent_item
set_sent_item-taken (k, f) d idle = rw idle refl

set_sent_item-busy :
    (itm : WorkItem) (d : Deframer) → d.write_in_progress ≡ true → (set_sent_item itm d).0 ≡ false
unfolding set_sent_item
set_sent_item-busy (k, f) d busy = rw busy refl

module _ {G S C : Type 0} where
  lookup-store_connection :
      (k : ℕ) (c c' : ConnectionContext S) (s : Server G S C)
      → lookup k s.fd_info_table ≡ some c
      → lookup k (store_connection k c' s).fd_info_table ≡ some c'
  unfolding store_connection
  lookup-store_connection k c c' s found =
      rw (lookup-replace k k c' s.fd_info_table, found, (==_iff k k).1 refl) refl

module _ {S : Type 0} (socket : Socket S) (mem : Memory) (stream : SendsStream socket)
    (fuel : ℕ) where
  open stream use {outgoing}

  -- A connection is marked as ready if its write is over, and then it has sent the frame's wire
  -- form behind what went out before.
  abbrev pub HasSent : Frame → ConnectionContext S → ConnectionContext S → Type 0
  HasSent f c c' =
      (c'.tx_ready ≡ not c'.deframer.write_in_progress)
      × (c'.tx_ready ≡ true → outgoing c'.sock ≡ outgoing c.sock ++ wire (packet f))

  write_to-HasSent :
      (k : ℕ) (f : Frame) (c : ConnectionContext S)
      → WholeSends socket
      → c.deframer.write_in_progress ≡ false
      → length f.msg ≡ f.len
      → f.len < 65536
      → Leaves
          (HasSent f c)
          (write_to socket mem fuel (record c { deframer = (set_sent_item (k, f) c.deframer).1 }))
  unfolding write_to
  write_to-HasSent k f c whole idle full fits =
      let t : Tx S = record { deframer = c.deframer; sock = c.sock } in
      let d = (set_sent_item (k, f) c.deframer).1 in
      Leaves-map (HasSent f c) (write_all socket mem fuel (record t { deframer = d }))
        (was_written (record c { deframer = d }))
        (λ (b, t') e. (
          (write_all-Sent socket mem stream fuel (record t { deframer = d }) (b, t') whole
              (set_sent_item-IsValid socket mem stream k f c.deframer idle full fits) e).1,
          λ ready.
              write_all-sends socket mem stream fuel k f t t' whole idle full fits
                (e ∙ ap (λ (x : Bool). some (returned (x, t'))) ready),
        ))

module _ {G S C : Type 0} (socket : Socket S) (mem : Memory) (fuel : ℕ) where
  handle_data_out-queue :
      (itm : WorkItem) (rest : List WorkItem) (s s' : Server G S C)
      → s.wq_out.queue ≡ itm ∷ rest
      → handle_data_out socket mem fuel s ≡ some (returned s')
      → s'.wq_out.queue ≡ rest
  unfolding handle_data_out
  handle_data_out-queue itm rest s s' front e =
      let s₁ : Server G S C = record s { wq_out = record s.wq_out { queue = rest } } in
      let taken : handle_data_out socket mem fuel s ≡ send_fetched socket mem fuel (some itm) s₁ =
        rw front refl in
      ap (λ (q : WorkQueue). q.queue)
        (Leaves-returned (IsQuiet s₁) (send_fetched socket mem fuel (some itm) s₁) s'
          (sym taken ∙ e) (send_fetched-Quiet socket mem fuel (some itm) s₁)).0

module _ {G S C : Type 0} (socket : Socket S) (mem : Memory) (stream : SendsStream socket)
    (fuel : ℕ) where
  open stream use {outgoing}

  -- Over a stream socket with whole lengths: a handleDataOut that returns, with a frame of its true
  -- length in front of the queue for a connection that is not writing, leaves the connection in the
  -- table, marked as ready exactly if its write is over; and if it is, it has sent exactly the
  -- frame's header, its length in network order and its message.
  pub handle_data_out-sends :
      (k : ℕ) (f : Frame) (rest : List WorkItem) (c : ConnectionContext S) (s s' : Server G S C)
      → WholeSends socket
      → s.wq_out.queue ≡ (k, f) ∷ rest
      → lookup k s.fd_info_table ≡ some c
      → c.deframer.write_in_progress ≡ false
      → length f.msg ≡ f.len
      → f.len < 65536
      → handle_data_out socket mem fuel s ≡ some (returned s')
      → (c' : ConnectionContext S) × (lookup k s'.fd_info_table ≡ some c')
        × (c'.tx_ready ≡ not c'.deframer.write_in_progress)
        × (c'.tx_ready ≡ true → outgoing c'.sock ≡ outgoing c.sock ++ wire (packet f))
  unfolding handle_data_out send_fetched send_item
  handle_data_out-sends k f rest c s s' whole front found idle full fits e =
      Leaves-returned Goal (handle_data_out socket mem fuel s) s' e (
        subst
          (λ (xs : List WorkItem). Leaves Goal (
            let (itm, wq) = take_front xs s.wq_out in
            send_fetched socket mem fuel itm (record s { wq_out = wq })))
          (sym front)
          (subst
            (λ (o : Option (ConnectionContext S)).
              Leaves Goal (send_item socket mem fuel (k, f) o s₁))
            (sym found) sends))
    where
      s₁ : Server G S C
      s₁ = record s { wq_out = record s.wq_out { queue = rest } }

      Goal : Server G S C → Type 0
      Goal t =
          (c' : ConnectionContext S) × (lookup k t.fd_info_table ≡ some c')
          × (c'.tx_ready ≡ not c'.deframer.write_in_progress)
          × (c'.tx_ready ≡ true → outgoing c'.sock ≡ outgoing c.sock ++ wire (packet f))

      sends : Leaves Goal (send_item socket mem fuel (k, f) (some c) s₁)
      sends =
          let d = (set_sent_item (k, f) c.deframer).1 in
          if-Leaves Goal (set_sent_item (k, f) c.deframer).0 _ (some (returned s₁))
            (λ _.
              Leaves-after (HasSent socket mem stream fuel f c) Goal
                (write_to socket mem fuel (record c { deframer = d }))
                (λ c'. some (returned (store_connection k c' s₁)))
                (write_to-HasSent socket mem stream fuel k f c whole idle full fits)
                (λ c' (over, sent). (c', lookup-store_connection k c c' s₁ found, over, sent)))
            (λ refused. absurd (ground (arith, set_sent_item-taken (k, f) c.deframer idle)))

  -- A busy connection: the frame is taken from the queue, and nothing else is changed.
  handle_data_out-busy :
      (k : ℕ) (f : Frame) (rest : List WorkItem) (c : ConnectionContext S) (s : Server G S C)
      → s.wq_out.queue ≡ (k, f) ∷ rest
      → lookup k s.fd_info_table ≡ some c
      → c.deframer.write_in_progress ≡ true
      → handle_data_out socket mem fuel s
        ≡ some (returned (record s { wq_out = record s.wq_out { queue = rest } }))
  unfolding handle_data_out send_fetched send_item
  handle_data_out-busy k f rest c s front found busy =
      rw (front, found, set_sent_item-busy (k, f) c.deframer busy) refl

  -- Over a stream socket with whole lengths: of two frames of their true lengths in front of the
  -- queue for a connection that is not writing, if the first handleDataOut returns with the
  -- connection not marked as ready, the second takes the other frame from the queue and changes
  -- nothing else, so that this frame is never sent.
  pub handle_data_out-drops :
      (k : ℕ) (f f₂ : Frame) (rest : List WorkItem) (c c' : ConnectionContext S)
      → (s s' : Server G S C) → WholeSends socket
      → s.wq_out.queue ≡ (k, f) ∷ (k, f₂) ∷ rest
      → lookup k s.fd_info_table ≡ some c
      → c.deframer.write_in_progress ≡ false
      → length f.msg ≡ f.len
      → f.len < 65536
      → handle_data_out socket mem fuel s ≡ some (returned s')
      → lookup k s'.fd_info_table ≡ some c'
      → c'.tx_ready ≡ false
      → handle_data_out socket mem fuel s'
        ≡ some (returned (record s' { wq_out = record s'.wq_out { queue = rest } }))
  handle_data_out-drops k f f₂ rest c c' s s' whole front found idle full fits e found' waits =
      let (c₁, found₁, over, _) =
        handle_data_out-sends k f ((k, f₂) ∷ rest) c s s' whole front found idle full fits e in
      let same : c₁ ≡ c' = some_inj.0 (sym found₁ ∙ found') in
      let over' : c'.tx_ready ≡ not c'.deframer.write_in_progress =
        subst (λ (x : ConnectionContext S). x.tx_ready ≡ not x.deframer.write_in_progress) same
          over in
      let left : s'.wq_out.queue ≡ (k, f₂) ∷ rest =
        handle_data_out-queue socket mem fuel (k, f) ((k, f₂) ∷ rest) s s' front e in
      handle_data_out-busy k f₂ rest c' s' left found' (ground (arith, over', waits))
