-- ===== src/Server/Lasting.antt =====
-- The steps of Server::run for a client and what the handling of the next event relies on.
pub mod Events
pub mod Serving
use protocom.Prelude.{
  ℕ, suc, ◌+◌, ◌≡◌, ◌≤◌, ◌<◌, refl, sym, ap, ◌∙◌, subst, Bool, true, false, not, List, [], ◌∷◌,
  ◌++◌, Option, none, some, arith, length, length-append, ◌==◌, if◌then◌else◌, if-both, Outcome,
  returned, threw, after, Leaves, Leaves-after, Leaves-map, Leaves-returned, if-Leaves,
}
use protocom.Prelude.Tables.{
  lookup, AllEntries, lookup-AllEntries, replace-AllEntries, erase-AllEntries, emplace-AllEntries,
}
use protocom.Frame
use protocom.Frame.{Frame}
use protocom.WorkQueue.{WorkItem, WorkQueue, fetch_item_non_blocking, take_front}
use protocom.Socket.{Socket, ReceivesStream, SendsStream}
use protocom.Framer
use protocom.Framer.{Rx, read_all}
use protocom.Framer.Refines as Reading
use protocom.Framer.Steps.{WholeLengths}
use protocom.Framer.ReadAll.{read_all-ReadMany}
use protocom.Deframer
use protocom.Deframer.{Deframer, Tx, Memory, set_sent_item, write_all}
use protocom.Deframer.Refines as Writing
use protocom.Deframer.Refines.{WholeSends}
use protocom.Deframer.WriteAll.{write_all-Sent, set_sent_item-IsValid}
use protocom.Deframer.Apart.{SendsApart, write_all-Keeps}
use protocom.Server.State.{EventFd, ConnectionContext, Worker, Server, new_connection}
use protocom.Server.Clients.{
  Accept, accept_aborted, accept_failed, accepted, create_with, create_handler, close_connection,
  accept_client,
}
use protocom.Server.Loop.{
  Arrival, is_fd, was_read, was_written, store_connection, close_if_eof, read_from, write_to,
  handle_writable, if_writable, handle_data_in, if_readable, handle_client, send_item, send_fetched,
  handle_data_out, after_event, handle_event, handle_server_socket,
}
use protocom.Server.Ending.{IsServed}
use protocom.Server.Servable.{
  Ends, Ends-after, Ends-if, IsWhole, AllWhole, IsServable, IsShort, set_sent_item-busy, SameIn,
  write_to-Ends, read_from-Ends, if_writable-Ends, if_writable-SameIn, write_to-Servable,
  if_writable-Servable, read_from-Servable,
}

module _ {G S C : Type 0} (socket : Socket S) (mem : Memory) (receives : ReceivesStream socket)
    (sends : SendsStream socket) (fuel : ℕ) (lengths : WholeLengths socket)
    (whole : WholeSends socket) (apart : SendsApart socket receives) where
  open receives use {incoming}

  abbrev pub Served : Server G S C → Type 0
  Served = IsServed socket mem receives sends fuel lengths whole apart

  stored :
      (k : ℕ) (c : ConnectionContext S) (s : Server G S C)
      → IsServable socket mem receives sends fuel k c
      → Served s
      → Served (store_connection k c s)
  unfolding store_connection
  stored k c s new v = record {
    servable =
        replace-AllEntries (IsServable socket mem receives sends fuel) k c s.fd_info_table new
          v.servable;
    whole_out = v.whole_out;
    unlimited = v.unlimited;
    enough = v.enough;
  }

  closed :
      (freed : ℕ) (c : ConnectionContext S) (s : Server G S C)
      → Served s
      → Served (close_connection freed c s)
  unfolding close_connection
  closed freed c s v = record {
    servable =
        erase-AllEntries (IsServable socket mem receives sends fuel) c.fd s.fd_info_table
          v.servable;
    whole_out = v.whole_out;
    unlimited = v.unlimited;
    enough = v.enough;
  }

  with_wq_in :
      (wq : WorkQueue) (s : Server G S C)
      → wq.item_limit ≡ 0
      → Served s
      → Served (record s { wq_in = wq })
  with_wq_in wq s u v = record {
    servable = v.servable;
    whole_out = v.whole_out;
    unlimited = u;
    enough = v.enough;
  }

  if_readable-Served :
      (b : Bool) (k freed : ℕ) (c : ConnectionContext S) (s : Server G S C)
      → IsServable socket mem receives sends fuel k c
      → Served s
      → Leaves Served (if_readable socket mem fuel b k freed c s)
  unfolding if_readable handle_data_in close_if_eof
  if_readable-Served false k freed c s e v = v
  if_readable-Served true k freed c s e v =
      Leaves-after
        (λ (x : ConnectionContext S × WorkQueue).
          IsServable socket mem receives sends fuel k x.0 × (x.1.item_limit ≡ 0))
        Served (read_from socket mem fuel c s.wq_in)
        (λ x. some (returned (close_if_eof k freed x s)))
        (read_from-Servable socket mem receives sends fuel lengths whole apart k c s.wq_in e
          v.unlimited)
        (λ (c', wq) (e', u).
          let fed = stored k c' (record s { wq_in = wq }) e' (with_wq_in wq s u v) in
          if-both Served c'.framer.read_eof _ _ (closed freed c' _ fed) fed)

  pub handle_client-Served :
      (a : Arrival S) (o : Option (ConnectionContext S)) (s : Server G S C)
      → ((c : ConnectionContext S)
          → o ≡ some c
          → IsServable socket mem receives sends fuel a.event.data_fd c)
      → Served s
      → Leaves Served (handle_client socket mem fuel a o s)
  unfolding handle_client
  handle_client-Served a none s e v = v
  handle_client-Served a (some c) s e v =
      let k = a.event.data_fd in
      if-Leaves Served a.event.err _ _ (λ err. closed a.freed c s v)
        (λ fine.
          if-Leaves Served a.event.hup _ _ (λ hup. closed a.freed c s v)
            (λ here.
              Leaves-after (IsServable socket mem receives sends fuel k) Served
                (if_writable socket mem fuel a.event.out c)
                (λ c'.
                  if_readable socket mem fuel a.event.inp k a.freed c' (store_connection k c' s))
                (if_writable-Servable socket mem receives sends fuel lengths whole apart a.event.out
                  k c (e c refl))
                (λ c' e'. if_readable-Served a.event.inp k a.freed c' _ e' (stored k c' s e' v))))

  send_item-Served :
      (k : ℕ) (f : Frame) (o : Option (ConnectionContext S)) (s : Server G S C)
      → IsWhole f
      → ((c : ConnectionContext S) → o ≡ some c → IsServable socket mem receives sends fuel k c)
      → Served s
      → Leaves Served (send_item socket mem fuel (k, f) o s)
  unfolding send_item
  send_item-Served k f none s full e v = v
  send_item-Served k f (some c) s (full, fits) e v =
      let (taken, d) = set_sent_item (k, f) c.deframer in
      if-Leaves Served taken _ _
        (λ free.
          Leaves-after (IsServable socket mem receives sends fuel k) Served
            (write_to socket mem fuel (record c { deframer = d }))
            (λ c'. some (returned (store_connection k c' s)))
            (write_to-Servable socket mem receives sends fuel lengths whole apart k
              (record c { deframer = d })
              (record {
                framer_valid = (e c refl).framer_valid;
                deframer_valid =
                    set_sent_item-IsValid socket mem sends k f c.deframer
                      (set_sent_item-busy (k, f) c.deframer free) full fits;
                enough_in = (e c refl).enough_in;
              }))
            (λ c' e'. stored k c' s e' v))
        (λ busy. v)

  pub send_front-Served :
      (items : List WorkItem) (s : Server G S C)
      → AllWhole items
      → Served s
      → Leaves Served (
          let (itm, wq) = take_front items s.wq_out in
          send_fetched socket mem fuel itm (record s { wq_out = wq }))
  unfolding take_front send_fetched
  send_front-Served [] s all v = v
  send_front-Served ((k, f) ∷ items) s (front, all) v =
      send_item-Served k f (lookup k s.fd_info_table) _ front
        (λ c e.
          lookup-AllEntries (IsServable socket mem receives sends fuel) k s.fd_info_table e
            v.servable)
        (record {
          servable = v.servable;
          whole_out = all;
          unlimited = v.unlimited;
          enough = v.enough;
        })
