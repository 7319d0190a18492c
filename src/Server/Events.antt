-- ===== src/Server/Events.antt =====
-- The events of Server::run, and what they keep of the two tables.
use protocom.Prelude.{
  ℕ, ◌≡◌, refl, sym, subst, Bool, true, false, Option, none, some, ◌==◌, returned, Leaves,
  Leaves-after, if-Leaves, if-in, if-both,
}
use protocom.Prelude.Tables.{lookup, lookup-AllEntries}
use protocom.WorkQueue.{WorkItem, WorkQueue}
use protocom.Socket.{Socket, ReceivesStream}
use protocom.Framer.Steps.{WholeLengths}
use protocom.Deframer.{Memory, set_sent_item}
use protocom.Authenticator.{UserTable}
use protocom.Protocol.Context.{ProtocolContext}
use protocom.Server.State.{EventFd, ConnectionContext, Server}
use protocom.Server.Clients.{close_connection, accept_failed, accept_client}
use protocom.Server.Loop.{
  Arrival, read_from, write_to, store_connection, if_writable, if_readable, handle_client,
  handle_data_out, send_item, send_fetched, after_event, handle_event, handle_wait, wait_failed,
  handle_server_socket, is_fd, close_if_eof,
}
use protocom.Server.Entries.{
  write_to-IsValidEntry, if_writable-IsValidEntry, read_from-IsValidEntry,
}
use protocom.Server.Consistency.{
  Consistent, IsValidEntry, IsRegistered, HoldsNew, close_connection-Consistent,
  store_connection-Consistent, accept_client-Consistent,
}

-- What the calls find that handle an event: the freed memory still holds the descriptor, and epoll
-- takes a new one.
pub record IsSound {S : Type 0} (a : Arrival S) : Type 0 where
  pub intact : a.freed ≡ a.event.data_fd
  pub registered : IsRegistered a.accept

-- The queues are not in the invariant, but for the limit of the first.
module _ {G S C : Type 0} (P : ℕ → ProtocolContext G → Type 0) (auth : Option UserTable) where
  pub with_wq_in :
      (wq : WorkQueue) (s : Server G S C)
      → wq.item_limit ≡ 0
      → Consistent P auth s
      → Consistent P auth (record s { wq_in = wq })
  with_wq_in wq s u v = record {
    w = v.w;
    has_worker = v.has_worker;
    same_keys = v.same_keys;
    contexts = v.contexts;
    valid = v.valid;
    unlimited = u;
    same_authenticator = v.same_authenticator;
    open_keys = v.open_keys;
  }

  with_wq_out :
      (wq : WorkQueue) (c : C) (s : Server G S C)
      → Consistent P auth s
      → Consistent P auth (record s { wq_out = wq; events = c })
  with_wq_out wq c s v = record {
    w = v.w;
    has_worker = v.has_worker;
    same_keys = v.same_keys;
    contexts = v.contexts;
    valid = v.valid;
    unlimited = v.unlimited;
    same_authenticator = v.same_authenticator;
    open_keys = v.open_keys;
  }

module _ {G S C : Type 0} (P : ℕ → ProtocolContext G → Type 0) (auth : Option UserTable)
    (socket : Socket S) (mem : Memory) (fuel : ℕ) where
  -- The invariant of the tables.
  abbrev Keeps : Server G S C → Type 0
  Keeps = Consistent P auth

  close_if_eof-Keeps :
      (k : ℕ) (c : ConnectionContext S) (wq : WorkQueue) (s : Server G S C)
      → IsValidEntry k c
      → wq.item_limit ≡ 0
      → Keeps s
      → Keeps (close_if_eof k k (c, wq) s)
  unfolding close_if_eof
  close_if_eof-Keeps k c wq s (key, tagged, framing) u v =
      let stored =
        store_connection-Consistent P auth k c (record s { wq_in = wq }) (key, tagged, framing)
          (with_wq_in P auth wq s u v) in
      if-both Keeps c.framer.read_eof _ _ (close_connection-Consistent P auth k c _ key stored)
        stored

  if_readable-Keeps :
      (b : Bool) (k : ℕ) (c : ConnectionContext S) (s : Server G S C)
      → ReceivesStream socket
      → WholeLengths socket
      → IsValidEntry k c
      → Keeps s
      → Leaves Keeps (if_readable socket mem fuel b k k c s)
  unfolding if_readable
  if_readable-Keeps false k c s stream whole e v = v
  if_readable-Keeps true k c s stream whole e v =
      Leaves-after _ Keeps (read_from socket mem fuel c s.wq_in)
        (λ x. some (returned (close_if_eof k k x s)))
        (read_from-IsValidEntry socket mem fuel k c s.wq_in stream whole e v.unlimited)
        (λ (c', wq) (e', u). close_if_eof-Keeps k c' wq s e' u v)

  -- The entry is in the table, and the freed memory still holds the descriptor.
  handle_client-Keeps :
      (a : Arrival S) (o : Option (ConnectionContext S)) (s : Server G S C)
      → ReceivesStream socket
      → WholeLengths socket
      → a.freed ≡ a.event.data_fd
      → lookup a.event.data_fd s.fd_info_table ≡ o
      → Keeps s
      → Leaves Keeps (handle_client socket mem fuel a o s)
  unfolding handle_client
  handle_client-Keeps a none s stream whole intact e v = v
  handle_client-Keeps a (some c) s stream whole intact e v =
      let k = a.event.data_fd in
      let entry = lookup-AllEntries IsValidEntry k s.fd_info_table e v.valid in
      let closed : Keeps (close_connection a.freed c s) =
        subst (λ (i : ℕ). Keeps (close_connection i c s)) (sym intact)
          (close_connection-Consistent P auth k c s entry.0 v) in
      if-Leaves Keeps a.event.err _ _ (λ _. closed)
        (λ _.
          if-Leaves Keeps a.event.hup _ _ (λ _. closed)
            (λ _.
              Leaves-after (IsValidEntry k) Keeps (if_writable socket mem fuel a.event.out c)
                (λ c'.
                  if_readable socket mem fuel a.event.inp k a.freed c' (store_connection k c' s))
                (if_writable-IsValidEntry socket mem fuel a.event.out k c entry)
                (λ c' e'.
                  subst
                    (λ (i : ℕ).
                      Leaves Keeps
                        (if_readable socket mem fuel a.event.inp k i c' (store_connection k c' s)))
                    (sym intact)
                    (if_readable-Keeps a.event.inp k c' _ stream whole e'
                      (store_connection-Consistent P auth k c' s e' v)))))

  send_item-Keeps :
      (itm : WorkItem) (o : Option (ConnectionContext S)) (s : Server G S C)
      → lookup itm.0 s.fd_info_table ≡ o
      → Keeps s
      → Leaves Keeps (send_item socket mem fuel itm o s)
  unfolding send_item
  send_item-Keeps (k, f) none s e v = v
  send_item-Keeps (k, f) (some c) s e v =
      let (taken, d) = set_sent_item (k, f) c.deframer in
      if-Leaves Keeps taken _ _
        (λ _.
          Leaves-after (IsValidEntry k) Keeps (write_to socket mem fuel (record c { deframer = d }))
            (λ c'. some (returned (store_connection k c' s)))
            (write_to-IsValidEntry socket mem fuel k (record c { deframer = d })
              (lookup-AllEntries IsValidEntry k s.fd_info_table e v.valid))
            (λ c' e'. store_connection-Consistent P auth k c' s e' v))
        (λ _. v)

  send_fetched-Keeps :
      (itm : Option WorkItem) (s : Server G S C)
      → Keeps s
      → Leaves Keeps (send_fetched socket mem fuel itm s)
  unfolding send_fetched
  send_fetched-Keeps none s v = v
  send_fetched-Keeps (some (k, f)) s v = send_item-Keeps (k, f) _ s refl v

  after_event-Keeps :
      (n : Option ℕ) (s : Server G S C) → Keeps s → Leaves Keeps (after_event socket mem fuel n s)
  unfolding after_event handle_data_out
  after_event-Keeps none s v = v
  after_event-Keeps (some n) s v =
      if-Leaves Keeps (n == 8) _ _ (λ _. send_fetched-Keeps _ _ (with_wq_out P auth _ s.events s v))
        (λ _. v)

  pub handle_event-Keeps :
      (eventfd : EventFd C) (a : Arrival S) (s : Server G S C)
      → ReceivesStream socket
      → WholeLengths socket
      → HoldsNew P
      → IsSound a
      → Keeps s
      → Leaves Keeps (handle_event socket mem fuel eventfd a s)
  unfolding handle_event handle_server_socket accept_client
  handle_event-Keeps eventfd a s stream whole new sound v =
      let stopping : Keeps (record s { running = false }) =
        accept_client-Consistent P auth accept_failed s tt new v in
      if-Leaves Keeps (is_fd s.fd a.event.data_fd) _ _
        (λ _. if-both Keeps a.event.err _ _ stopping (
          if-both Keeps a.event.inp _ _
            (accept_client-Consistent P auth a.accept s sound.registered new v) v))
        (λ _.
          if-Leaves Keeps (a.event.data_fd == s.event_fd_out) _ _
            (λ _.
              after_event-Keeps (eventfd.read s.events).0 _
                (with_wq_out P auth s.wq_out (eventfd.read s.events).1 s v))
            (λ _. handle_client-Keeps a _ s stream whole sound.intact refl v))

  pub failed_wait-Keeps :
      (eventfd : EventFd C) (interrupted : Bool) (s : Server G S C)
      → HoldsNew P
      → Keeps s
      → Leaves Keeps (handle_wait socket mem fuel eventfd (wait_failed interrupted) s)
  unfolding handle_wait accept_client
  failed_wait-Keeps eventfd interrupted s new v =
      if-in Keeps interrupted s (record s { running = false }) (λ _. v)
        (λ _. accept_client-Consistent P auth accept_failed s tt new v)
