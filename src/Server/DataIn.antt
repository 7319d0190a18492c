-- ===== src/Server/DataIn.antt =====
-- Server::handleDataIn: the bytes of one connection on their way to the incoming queue.
use protocom.Prelude.{
  ℕ, ◌≡◌, refl, sym, ap, ◌∙◌, true, false, List, [], ◌++◌, none, some, map, append-nil, ==_iff,
  if-in, returned, Leaves, Leaves-after, Leaves-map, Leaves-returned,
}
use protocom.Prelude.Tables.{lookup, replace, erase, lookup-replace, lookup-erase}
use protocom.Frame.{Packet}
use protocom.WorkQueue.{WorkQueue}
use protocom.Socket.{Socket, ReceivesStream}
use protocom.Framer.{Rx, read_all}
use protocom.Framer.Reference.{feed}
use protocom.Framer.Refines.{tag, item_packet, view}
use protocom.Framer.Steps.{WholeLengths}
use protocom.Framer.ReadAll.{read_all-ReadMany}
use protocom.Deframer.{Memory}
use protocom.Server.State.{ConnectionContext, Server}
use protocom.Server.Clients.{close_connection}
use protocom.Server.Loop.{handle_data_in, read_from, was_read, close_if_eof, store_connection}
use protocom.Server.Consistency.{IsValidEntry}

module _ {S : Type 0} (socket : Socket S) (stream : ReceivesStream socket) where
  open stream use {incoming}

  -- From the connection `c` of the descriptor `k` and the queue `wq` to `c'` and `wq'`: some bytes
  -- were taken from the stream, the framer stands where the parser does behind them, and the queue
  -- has, behind what was there, the packet that was owed and those that the parser gives.
  pub record Feeds (k : ℕ) (c : ConnectionContext S) (wq : WorkQueue) (c' : ConnectionContext S)
      (wq' : WorkQueue) : Type 0 where
    pub bytes : List ℕ
    pub next_bytes : incoming c.sock ≡ bytes ++ incoming c'.sock
    pub parse : (view c'.framer).0 ≡ (feed (view c.framer).0 bytes).0
    pub owes_nothing : (view c'.framer).1 ≡ []
    pub queued :
        map item_packet wq'.queue
        ≡ (map item_packet wq.queue ++ tag k (view c.framer).1)
          ++ tag k (feed (view c.framer).0 bytes).1
    pub same_fd : c'.fd ≡ c.fd

  module _ (mem : Memory) (fuel : ℕ) where
    read_from-Feeds :
        (k : ℕ) (c : ConnectionContext S) (wq : WorkQueue)
        → WholeLengths socket
        → IsValidEntry k c
        → wq.item_limit ≡ 0
        → Leaves
            (λ (x : ConnectionContext S × WorkQueue). Feeds k c wq x.0 x.1)
            (read_from socket mem fuel c wq)
    unfolding read_from
    read_from-Feeds k c wq whole (key, tagged, v) u =
        let r : Rx S = record { framer = c.framer; wq = wq; sock = c.sock } in
        Leaves-map (λ (x : ConnectionContext S × WorkQueue). Feeds k c wq x.0 x.1)
          (read_all socket fuel r) (was_read c)
          (λ r' e.
            let m = read_all-ReadMany socket stream fuel r r' whole v u e in
            record {
              bytes = m.bytes;
              next_bytes = m.next_bytes;
              parse = m.consumed.parse;
              owes_nothing = m.settled;
              queued =
                  sym (append-nil (map item_packet r'.wq.queue))
                  ∙ ap
                      (λ (ps : List Packet).
                        map item_packet r'.wq.queue ++ tag r'.framer.assoc_fd ps)
                      (sym m.settled)
                  ∙ m.consumed.packets
                  ∙ ap
                      (λ (j : ℕ).
                        (map item_packet wq.queue ++ tag j (view c.framer).1)
                        ++ tag j (feed (view c.framer).0 m.bytes).1)
                      tagged;
              same_fd = refl;
            })

module _ {G S C : Type 0} (socket : Socket S) (stream : ReceivesStream socket) (mem : Memory)
    (fuel : ℕ) where
  -- What handleDataIn leaves for the descriptor: the connection, unless the stream was at its end.
  pub record IsFed (k : ℕ) (c : ConnectionContext S) (s s' : Server G S C) : Type 0 where
    pub c' : ConnectionContext S
    pub feeds : Feeds socket stream k c s.wq_in c' s'.wq_in
    pub stays : c'.framer.read_eof ≡ false → lookup k s'.fd_info_table ≡ some c'
    pub closes : c'.framer.read_eof ≡ true → lookup k s'.fd_info_table ≡ none

  -- Over a stream socket with whole lengths, for a connection of the table with its descriptor in
  -- its fields and a valid framer, and an incoming queue without a limit: a handleDataIn that
  -- returns has taken some next bytes of the stream; the queue has, behind what was there and the
  -- packet that the framer owed, exactly the packets that the reference parser makes of these bytes,
  -- tagged with the descriptor; the framer stands where that parser does; and the connection is
  -- still in the table if the end of the stream was not seen, and no longer if it was.
  pub handle_data_in-IsFed :
      (k freed : ℕ) (c : ConnectionContext S) (s s' : Server G S C)
      → WholeLengths socket
      → IsValidEntry k c
      → s.wq_in.item_limit ≡ 0
      → lookup k s.fd_info_table ≡ some c
      → handle_data_in socket mem fuel k freed c s ≡ some (returned s')
      → IsFed k c s s'
  unfolding handle_data_in close_if_eof close_connection store_connection
  handle_data_in-IsFed k freed c s s' whole valid u found e = Leaves-returned (IsFed k c s) _ s' e (
      Leaves-after
        (λ (x : ConnectionContext S × WorkQueue). Feeds socket stream k c s.wq_in x.0 x.1)
        (IsFed k c s) (read_from socket mem fuel c s.wq_in)
        (λ x. some (returned (close_if_eof k freed x s)))
        (read_from-Feeds socket stream mem fuel k c s.wq_in whole valid u)
        (λ (c', wq) f.
          let own : c'.fd ≡ k = f.same_fd ∙ valid.0 in
          if-in (IsFed k c s) c'.framer.read_eof _ _
            (λ ended. record {
              c' = c';
              feeds = f;
              stays = λ more. absurd (cc);
              closes = λ _.
                  ap (λ (j : ℕ). lookup k (erase j (replace k c' s.fd_info_table))) own
                  ∙ rw (lookup-erase k k (replace k c' s.fd_info_table), (==_iff k k).1 refl) refl;
            })
            (λ more. record {
              c' = c';
              feeds = f;
              stays =
                  λ _. rw (lookup-replace k k c' s.fd_info_table, found, (==_iff k k).1 refl) refl;
              closes = λ ended. absurd (cc);
            })))
