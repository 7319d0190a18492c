-- ===== src/Server/Ending.antt =====
-- Server::run: the handling of one event comes to an end.
use protocom.Prelude.{
  ℕ, ◌≡◌, ◌≤◌, ◌<◌, refl, sym, ap, subst, Bool, true, false, List, [], ◌∷◌, Option, none, some,
  arith, length, ◌==◌, Outcome, returned, Leaves-returned,
}
use protocom.Prelude.Tables.{lookup, AllEntries, lookup-AllEntries}
use protocom.Frame.{Frame}
use protocom.WorkQueue.{WorkItem, fetch_item_non_blocking, take_front}
use protocom.Socket.{Socket, ReceivesStream, SendsStream}
use protocom.Framer.Refines as Reading
use protocom.Framer.Steps.{WholeLengths}
use protocom.Deframer.{Memory, set_sent_item}
use protocom.Deframer.Refines.{WholeSends}
use protocom.Deframer.WriteAll.{set_sent_item-IsValid}
use protocom.Deframer.Apart.{SendsApart}
use protocom.Server.State.{EventFd, ConnectionContext, Server}
use protocom.Server.Loop.{
  Arrival, is_fd, store_connection, close_if_eof, read_from, write_to, if_writable, handle_data_in,
  if_readable, handle_client, send_item, send_fetched, handle_data_out, after_event, handle_event,
}
use protocom.Server.Servable.{
  Ends, Ends-after, Ends-if, IsWhole, AllWhole, IsServable, set_sent_item-busy, SameIn,
  write_to-Ends, read_from-Ends, if_writable-Ends, if_writable-SameIn,
}

module _ {G S C : Type 0} (socket : Socket S) (mem : Memory) (receives : ReceivesStream socket)
    (sends : SendsStream socket) (fuel : ℕ) (lengths : WholeLengths socket)
    (whole : WholeSends socket) (apart : SendsApart socket receives) where
  open receives use {incoming}

  -- The table, the queues and the fuel, as an event finds them.
  pub record IsServed (s : Server G S C) : Type 0 where
    pub servable : AllEntries (IsServable socket mem receives sends fuel) s.fd_info_table
    pub whole_out : AllWhole s.wq_out.queue
    pub unlimited : s.wq_in.item_limit ≡ 0
    pub enough : 65540 ≤ fuel

  send_item-Ends :
      (k : ℕ) (f : Frame) (o : Option (ConnectionContext S)) (s : Server G S C)
      → IsWhole f
      → 65540 ≤ fuel
      → Ends (send_item socket mem fuel (k, f) o s)
  unfolding send_item
  send_item-Ends k f none s (full, fits) enough = (_, refl)
  send_item-Ends k f (some c) s (full, fits) enough =
      let (taken, d) = set_sent_item (k, f) c.deframer in
      Ends-if taken _ _
        (λ free.
          let idle = set_sent_item-busy (k, f) c.deframer free in
          Ends-after (write_to socket mem fuel (record c { deframer = d }))
            (λ c'. some (returned (store_connection k c' s)))
            (write_to-Ends socket mem receives sends fuel lengths whole apart
              (record c { deframer = d })
              (set_sent_item-IsValid socket mem sends k f c.deframer idle full fits) enough)
            (λ c' e. (_, refl)))
        (λ busy. (_, refl))

  send_front-Ends :
      (items : List WorkItem) (s : Server G S C)
      → AllWhole items
      → 65540 ≤ fuel
      → Ends (
          let (itm, wq) = take_front items s.wq_out in
          send_fetched socket mem fuel itm (record s { wq_out = wq }))
  unfolding take_front send_fetched
  send_front-Ends [] s all enough = (_, refl)
  send_front-Ends ((k, f) ∷ items) s (front, all) enough =
      send_item-Ends k f (lookup k s.fd_info_table) _ front enough

  handle_data_out-Ends : (s : Server G S C) → IsServed s → Ends (handle_data_out socket mem fuel s)
  unfolding handle_data_out fetch_item_non_blocking
  handle_data_out-Ends s v = send_front-Ends s.wq_out.queue s v.whole_out v.enough

  handle_data_in-Ends :
      (k freed : ℕ) (c : ConnectionContext S) (s : Server G S C)
      → Reading.IsValid c.framer
      → s.wq_in.item_limit ≡ 0
      → length (incoming c.sock) < fuel
      → Ends (handle_data_in socket mem fuel k freed c s)
  unfolding handle_data_in
  handle_data_in-Ends k freed c s valid unlimited enough =
      Ends-after (read_from socket mem fuel c s.wq_in)
        (λ x. some (returned (close_if_eof k freed x s)))
        (read_from-Ends socket mem receives sends fuel lengths whole apart c s.wq_in valid unlimited
          enough)
        (λ x e. (_, refl))

  handle_client-Ends :
      (a : Arrival S) (o : Option (ConnectionContext S)) (s : Server G S C)
      → ((c : ConnectionContext S)
          → o ≡ some c
          → IsServable socket mem receives sends fuel a.event.data_fd c)
      → s.wq_in.item_limit ≡ 0
      → 65540 ≤ fuel
      → Ends (handle_client socket mem fuel a o s)
  unfolding handle_client if_readable store_connection
  handle_client-Ends a none s v unlimited enough = (_, refl)
  handle_client-Ends a (some c) s v unlimited enough =
      Ends-if a.event.err _ _ (λ err. (_, refl))
        (λ fine.
          Ends-if a.event.hup _ _ (λ hup. (_, refl))
            (λ here.
              Ends-after (if_writable socket mem fuel a.event.out c) _
                (if_writable-Ends socket mem receives sends fuel lengths whole apart a.event.out
                  a.event.data_fd c (v c refl) enough)
                (λ c' e. by_flag c' a.event.inp (
                  Leaves-returned (SameIn socket mem receives sends fuel lengths whole apart c)
                    (if_writable socket mem fuel a.event.out c) c' e
                    (if_writable-SameIn socket mem receives sends fuel lengths whole apart
                      a.event.out c)))))
    where
      by_flag :
          (c' : ConnectionContext S) (b : Bool)
          → (c'.framer ≡ c.framer) × (incoming c'.sock ≡ incoming c.sock)
          → Ends (
              if_readable socket mem fuel b a.event.data_fd a.freed c'
                (store_connection a.event.data_fd c' s))
      by_flag c' false same = (_, refl)
      by_flag c' true (same_framer, same_in) =
          handle_data_in-Ends a.event.data_fd a.freed c' (store_connection a.event.data_fd c' s)
            (subst Reading.IsValid (sym same_framer) (v c refl).framer_valid) unlimited
            (omega (arith, ap length same_in, (v c refl).enough_in))

  -- Over a stream socket with whole lengths, whose two directions are apart: with every connection's
  -- framer and deframer valid, every frame of the outgoing queue of its true length, no limit on the
  -- incoming queue, and a fuel of at least 65540 that is more than the bytes to come on any
  -- connection: the handling of an event, of any kind, comes to an end.
  pub handle_event-Ends :
      (eventfd : EventFd C) (a : Arrival S) (s : Server G S C)
      → IsServed s
      → (o : Outcome (Server G S C)) × (handle_event socket mem fuel eventfd a s ≡ some o)
  unfolding handle_event after_event
  handle_event-Ends eventfd a s v =
      Ends-if (is_fd s.fd a.event.data_fd) _ _ (λ listener. (_, refl))
        (λ other.
          Ends-if (a.event.data_fd == s.event_fd_out) _ _
            (λ notified. by_count (eventfd.read s.events).0 (eventfd.read s.events).1)
            (λ client.
              handle_client-Ends a (lookup a.event.data_fd s.fd_info_table) s
                (λ c e.
                  lookup-AllEntries (IsServable socket mem receives sends fuel) a.event.data_fd
                    s.fd_info_table e v.servable)
                v.unlimited v.enough))
    where
      by_count :
          (n : Option ℕ) (c : C) → Ends (after_event socket mem fuel n (record s { events = c }))
      by_count none c = (_, refl)
      by_count (some n) c =
          Ends-if (n == 8) _ _
            (λ whole_count.
              handle_data_out-Ends (record s { events = c })
                (record {
                  servable = v.servable;
                  whole_out = v.whole_out;
                  unlimited = v.unlimited;
                  enough = v.enough;
                }))
            (λ part. (_, refl))
