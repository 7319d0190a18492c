-- ===== src/Server/Notifications.antt =====
-- The eventfd of Server.cpp and ServerWorker.cpp, and the outgoing queue.
use protocom.Prelude.{
  ℕ, ◌≡◌, refl, Bool, true, false, Option, none, some, Leaves, Leaves-after, Leaves-map, Leaves-all,
  if-Leaves, if-both,
}
use protocom.Prelude.Tables.{lookup}
use protocom.WorkQueue.{WorkItem, WorkQueue}
use protocom.Socket.{Socket}
use protocom.Deframer.{Memory, set_sent_item}
use protocom.Protocol.Context.{ProtocolContext, is_active}
use protocom.Server.State.{ConnectionContext, Worker, Server}
use protocom.Server.Clients.{
  Accept, accept_aborted, accept_failed, accepted, create_with, create_handler, destroy_with,
  destroy_handler, close_found, close_client, close_connection, accept_client,
}
use protocom.Server.Loop.{
  Arrival, handle_server_socket, handle_client, send_fetched, send_item, if_writable, if_readable,
  read_from, write_to, store_connection, close_if_eof,
}
use protocom.Server.Serve.{close_inactive}

module _ {G S C : Type 0} where
  -- The outgoing queue and the eventfd are as they were.
  abbrev pub IsQuiet : Server G S C → Server G S C → Type 0
  IsQuiet s s' = (s'.wq_out ≡ s.wq_out) × (s'.events ≡ s.events)

  create_with-Quiet :
      (k : ℕ) (sock : S) (o : Option (Worker G)) (s : Server G S C)
      → IsQuiet s (create_with k sock o s).1
  unfolding create_with
  create_with-Quiet k sock none s = (refl, refl)
  create_with-Quiet k sock (some w) s = (refl, refl)

  accept_client-Quiet : (a : Accept S) (s : Server G S C) → IsQuiet s (accept_client a s)
  unfolding accept_client create_handler
  accept_client-Quiet accept_aborted s = (refl, refl)
  accept_client-Quiet accept_failed s = (refl, refl)
  accept_client-Quiet (accepted k sock registered) s = create_with-Quiet k sock s.worker _

  destroy_with-Quiet :
      (k : ℕ) (o : Option (Worker G)) (s : Server G S C) → IsQuiet s (destroy_with k o s)
  unfolding destroy_with
  destroy_with-Quiet k none s = (refl, refl)
  destroy_with-Quiet k (some w) s = (refl, refl)

  close_found-Quiet :
      (o : Option (ConnectionContext S)) (s : Server G S C) → IsQuiet s (close_found o s)
  unfolding close_found destroy_handler
  close_found-Quiet none s = (refl, refl)
  close_found-Quiet (some c) s = destroy_with-Quiet c.fd s.worker _

  pub close_inactive-Quiet :
      (k : ℕ) (c : ProtocolContext G) (s : Server G S C) → IsQuiet s (close_inactive k c s)
  unfolding close_inactive close_client
  close_inactive-Quiet k c s =
      if-both (IsQuiet s) (is_active c) s (close_client k s) (refl, refl) (close_found-Quiet _ s)

  pub handle_server_socket-Quiet :
      (a : Arrival S) (s : Server G S C) → IsQuiet s (handle_server_socket a s)
  unfolding handle_server_socket
  handle_server_socket-Quiet a s =
      if-both (IsQuiet s) a.event.err _ _ (refl, refl)
        (if-both (IsQuiet s) a.event.inp _ s (accept_client-Quiet a.accept s) (refl, refl))

  close_if_eof-Quiet :
      (k freed : ℕ) (x : ConnectionContext S × WorkQueue) (s : Server G S C)
      → IsQuiet s (close_if_eof k freed x s)
  unfolding close_if_eof store_connection close_connection
  close_if_eof-Quiet k freed (c, wq) s =
      if-both (IsQuiet s) c.framer.read_eof _ _ (refl, refl) (refl, refl)

module _ {G S C : Type 0} (socket : Socket S) (mem : Memory) (fuel : ℕ) where
  if_readable-Quiet :
      (b : Bool) (k freed : ℕ) (c : ConnectionContext S) (s : Server G S C)
      → Leaves (IsQuiet s) (if_readable socket mem fuel b k freed c s)
  unfolding if_readable
  if_readable-Quiet false k freed c s = (refl, refl)
  if_readable-Quiet true k freed c s =
      Leaves-map (IsQuiet s) (read_from socket mem fuel c s.wq_in) (λ x. close_if_eof k freed x s)
        (λ x _. close_if_eof-Quiet k freed x s)

  pub handle_client-Quiet :
      (a : Arrival S) (o : Option (ConnectionContext S)) (s : Server G S C)
      → Leaves (IsQuiet s) (handle_client socket mem fuel a o s)
  unfolding handle_client close_connection store_connection
  handle_client-Quiet a none s = (refl, refl)
  handle_client-Quiet a (some c) s =
      let k = a.event.data_fd in
      if-Leaves (IsQuiet s) a.event.err _ _ (λ _. (refl, refl))
        (λ _.
          if-Leaves (IsQuiet s) a.event.hup _ _ (λ _. (refl, refl))
            (λ _.
              Leaves-after (λ _. Unit {0}) (IsQuiet s) (if_writable socket mem fuel a.event.out c)
                (λ c'.
                  if_readable socket mem fuel a.event.inp k a.freed c' (store_connection k c' s))
                (Leaves-all (λ _. Unit {0}) _ (λ _ _. tt))
                (λ c' _. if_readable-Quiet a.event.inp k a.freed c' (store_connection k c' s))))

  pub send_fetched-Quiet :
      (itm : Option WorkItem) (s : Server G S C)
      → Leaves (IsQuiet s) (send_fetched socket mem fuel itm s)
  unfolding send_fetched send_item store_connection
  send_fetched-Quiet none s = (refl, refl)
  send_fetched-Quiet (some (k, f)) s = send_item-Quiet (lookup k s.fd_info_table)
    where
      send_item-Quiet :
          (o : Option (ConnectionContext S))
          → Leaves (IsQuiet s) (send_item socket mem fuel (k, f) o s)
      send_item-Quiet none = (refl, refl)
      send_item-Quiet (some c) =
          let (taken, d) = set_sent_item (k, f) c.deframer in
          if-Leaves (IsQuiet s) taken _ _
            (λ _.
              Leaves-map (IsQuiet s) (write_to socket mem fuel (record c { deframer = d }))
                (λ c'. store_connection k c' s) (λ c' _. (refl, refl)))
            (λ _. (refl, refl))
