-- ===== src/Server/Closing.antt =====
-- The two closeClient methods of Server.cpp, and the addition that they undo.
use protocom.Prelude.{
  ℕ, ◌≡◌, refl, sym, ap, ◌∙◌, true, false, List, [], ◌∷◌, ◌++◌, none, some, arith,
}
use protocom.Prelude.Tables.{lookup, emplace, erase, has}
use protocom.Protocol.Context
use protocom.Protocol.Context.{ProtocolContext, set_io}
use protocom.Server.State.{ConnectionContext, Worker, Server, new_connection}
use protocom.Server.Worker.{create_context, destroy_context}
use protocom.Server.Clients.{
  accepted, destroy_handler, close_found, close_connection, close_client, close_fd, accept_client,
  is_open,
}

erase-emplace :
    {V : Type 0} (k : ℕ) (v : V) (m : List (ℕ × V)) → has k m ≡ false → erase k (emplace k v m) ≡ m
unfolding erase emplace has
erase-emplace k v [] absent = ground arith
erase-emplace k v ((j, w) ∷ m) absent = ground (arith, erase-emplace k v m)

lookup-new :
    {V : Type 0} (k : ℕ) (v : V) (m : List (ℕ × V))
    → has k m ≡ false
    → lookup k (emplace k v m) ≡ some v
unfolding lookup emplace has
lookup-new k v [] absent = ground arith
lookup-new k v ((j, w) ∷ m) absent = ground (arith, lookup-new k v m)

close_fd-append : (k : ℕ) (fds : List ℕ) → is_open k fds ≡ false → close_fd k (fds ++ k ∷ []) ≡ fds
unfolding close_fd is_open
close_fd-append k [] absent = ground arith
close_fd-append k (j ∷ fds) absent = ground (arith, close_fd-append k fds)

close_fd-absent : (k : ℕ) (fds : List ℕ) → is_open k fds ≡ false → close_fd k fds ≡ fds
unfolding close_fd is_open
close_fd-absent k [] absent = refl
close_fd-absent k (j ∷ fds) absent = ground (arith, close_fd-absent k fds)

module _ {G S C : Type 0} where
  -- With a worker, for a connection of the table with its key in its field, and with that number
  -- still in the freed memory: the event loop's closeClient and the worker's leave the same state.
  pub close_connection-close_client :
      (k : ℕ) (c : ConnectionContext S) (s : Server G S C) (w : Worker G)
      → s.worker ≡ some w
      → lookup k s.fd_info_table ≡ some c
      → c.fd ≡ k
      → close_connection k c s ≡ close_client k s
  unfolding close_connection close_client close_found destroy_handler
  close_connection-close_client k c s w has_worker found own = rw (found, has_worker, own) refl

  -- With a worker, and a descriptor that is not open, not in epoll's set and no key of the two
  -- tables: closing a client that was accepted on it, and that epoll took, restores the state.
  pub close_client-accept_client :
      (k : ℕ) (sock : S) (s : Server G S C) (w : Worker G)
      → s.worker ≡ some w
      → has k s.fd_info_table ≡ false
      → has k w.handler_table ≡ false
      → is_open k s.open_fds ≡ false
      → is_open k s.watched ≡ false
      → close_client k (accept_client (accepted k sock true) s) ≡ s
  unfolding close_client close_found destroy_handler accept_client create_context destroy_context
  close_client-accept_client k sock s w has_worker absent no_context not_open not_watched =
      let c = set_io true (Context.new w.user_handler_factory none s.entropy) in
      let found : lookup k (emplace k (new_connection k sock) s.fd_info_table)
          ≡ some (new_connection k sock) =
        lookup-new k (new_connection k sock) s.fd_info_table absent in
      let workers : some (record w { handler_table = erase k (emplace k c w.handler_table) })
          ≡ s.worker =
        ap (λ (m : List (ℕ × ProtocolContext G)). some (record w { handler_table = m }))
          (erase-emplace k c w.handler_table no_context)
        ∙ sym has_worker in
      let tables = erase-emplace k (new_connection k sock) s.fd_info_table absent in
      let fds = close_fd-append k s.open_fds not_open in
      let set =
        ap (close_fd k) (close_fd-append k s.watched not_watched)
        ∙ close_fd-absent k s.watched not_watched in
      let closed : close_client k (accept_client (accepted k sock true) s) ≡ record s {
        worker = some (record w { handler_table = erase k (emplace k c w.handler_table) });
        fd_info_table = erase k (emplace k (new_connection k sock) s.fd_info_table);
        open_fds = close_fd k (s.open_fds ++ k ∷ []);
        watched = close_fd k (close_fd k (s.watched ++ k ∷ []));
      } =
        rw (has_worker, found) refl in
      closed ∙ (λ i. record s {
        worker = workers i;
        fd_info_table = tables i;
        open_fds = fds i;
        watched = set i;
      })
