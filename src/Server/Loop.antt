-- ===== src/Server/Loop.antt =====
-- Server::run and its handlers, the loop of ServerWorker::run, and the ways to stop. Each round of
-- a loop is one step, and so is each event of a round of Server::run.
use protocom.Prelude.{
  ℕ, Bool, true, false, List, [], ◌∷◌, Option, none, some, ◌==◌, if◌then◌else◌, Outcome, returned,
  after,
}
use protocom.Prelude.Tables.{lookup, replace}
use protocom.Socket.{Socket}
use protocom.WorkQueue.{WorkItem, WorkQueue, fetch_item_non_blocking}
use protocom.Framer.{Rx, read_all}
use protocom.Deframer.{Tx, Memory, write_all, set_sent_item}
use protocom.Server.State.{EventFd, ConnectionContext, Server, new_worker}
use protocom.Server.Worker.{start}
use protocom.Server.Clients.{Accept, close_connection, accept_client}

-- epoll_event, by the flags that the loop tests.
pub record EpollEvent : Type 0 where
  pub data_fd : ℕ
  pub err : Bool
  pub hup : Bool
  pub out : Bool
  pub inp : Bool

-- An event with what the calls that handle it find: accept4's result, and the freed memory.
pub record Arrival (S : Type 0) : Type 0 where
  pub event : EpollEvent
  pub accept : Accept S
  pub freed : ℕ

-- The results of epoll_wait. With -1, whether errno is EINTR.
pub data Wait (S : Type 0) : Type 0 where
  wait_failed : Bool → Wait S
  events : List (Arrival S) → Wait S

abbrev pub is_fd : Option ℕ → ℕ → Bool
is_fd none k = false
is_fd (some n) k = k == n

-- The framer and the deframer are fields of the connection.
abbrev pub was_read : {S : Type 0} → ConnectionContext S → Rx S → ConnectionContext S × WorkQueue
was_read c r = (record c { framer = r.framer; sock = r.sock }, r.wq)

abbrev pub was_written : {S : Type 0} → ConnectionContext S → Bool × Tx S → ConnectionContext S
was_written c (ready, t) = record c { tx_ready = ready; deframer = t.deframer; sock = t.sock }

module _ {G S C : Type 0} where
  -- `cctx` is a reference into the table.
  unfoldable pub store_connection : ℕ → ConnectionContext S → Server G S C → Server G S C
  store_connection k c s = record s { fd_info_table = replace k c s.fd_info_table }

  unfoldable pub handle_server_socket : Arrival S → Server G S C → Server G S C
  handle_server_socket a s =
      if a.event.err
      then record s { running = false }
      else if a.event.inp
      then accept_client a.accept s
      else s

  -- handleDataIn behind the call of readAll.
  unfoldable pub close_if_eof :
      ℕ → ℕ → ConnectionContext S × WorkQueue → Server G S C → Server G S C
  unfolding store_connection close_connection
  close_if_eof k freed (c, wq) s =
      let s' = store_connection k c (record s { wq_in = wq }) in
      if c.framer.read_eof then close_connection freed c s' else s'

  -- The constructor call and the start of the worker's thread in front of the loop of run().
  unfoldable pub start_run : Server G S C → Server G S C
  start_run s = record s { worker = some (start (new_worker s.user_handler_factory)) }

module _ {S : Type 0} (socket : Socket S) (mem : Memory) (fuel : ℕ) where
  -- cctx.framer.readAll(), with the queue that the framer refers to.
  unfoldable pub read_from :
      ConnectionContext S → WorkQueue → Option (Outcome (ConnectionContext S × WorkQueue))
  read_from c wq =
      after (read_all socket fuel (record { framer = c.framer; wq = wq; sock = c.sock }))
        (λ r. some (returned (was_read c r)))

  -- `cctx.txReady = cctx.deframer.writeAll()`.
  unfoldable pub write_to : ConnectionContext S → Option (Outcome (ConnectionContext S))
  write_to c =
      after (write_all socket mem fuel (record { deframer = c.deframer; sock = c.sock }))
        (λ x. some (returned (was_written c x)))

  unfoldable pub handle_writable : ConnectionContext S → Option (Outcome (ConnectionContext S))
  unfolding write_to
  handle_writable c =
      if c.deframer.write_in_progress
      then write_to c
      else some (returned (record c { tx_ready = true }))

  unfoldable pub if_writable : Bool → ConnectionContext S → Option (Outcome (ConnectionContext S))
  unfolding handle_writable
  if_writable true c = handle_writable c
  if_writable false c = some (returned c)

module _ {G S C : Type 0} (socket : Socket S) (mem : Memory) (fuel : ℕ) where
  -- `cctx` is the connection of the table at `k`.
  unfoldable pub handle_data_in :
      ℕ → ℕ → ConnectionContext S → Server G S C → Option (Outcome (Server G S C))
  unfolding read_from close_if_eof
  handle_data_in k freed c s =
      after (read_from socket mem fuel c s.wq_in) (λ x. some (returned (close_if_eof k freed x s)))

  unfoldable pub if_readable :
      Bool → ℕ → ℕ → ConnectionContext S → Server G S C → Option (Outcome (Server G S C))
  unfolding handle_data_in
  if_readable true k freed c s = handle_data_in k freed c s
  if_readable false k freed c s = some (returned s)

  -- The part of the loop for a client's socket.
  unfoldable pub handle_client :
      Arrival S → Option (ConnectionContext S) → Server G S C → Option (Outcome (Server G S C))
  unfolding if_writable if_readable store_connection close_connection
  handle_client a none s = some (returned s)
  handle_client a (some c) s =
      if a.event.err
      then some (returned (close_connection a.freed c s))
      else if a.event.hup
      then some (returned (close_connection a.freed c s))
      else after (if_writable socket mem fuel a.event.out c) (λ c'.
        if_readable a.event.inp a.event.data_fd a.freed c' (store_connection a.event.data_fd c' s))

  -- handleDataOut behind the fetch and the search. A refused item is dropped.
  unfoldable pub send_item :
      WorkItem → Option (ConnectionContext S) → Server G S C → Option (Outcome (Server G S C))
  unfolding write_to store_connection
  send_item (k, f) none s = some (returned s)
  send_item (k, f) (some c) s =
      let (taken, d) = set_sent_item (k, f) c.deframer in
      if taken
      then after (write_to socket mem fuel (record c { deframer = d }))
          (λ c'. some (returned (store_connection k c' s)))
      else some (returned s)

  unfoldable pub send_fetched : Option WorkItem → Server G S C → Option (Outcome (Server G S C))
  unfolding send_item lookup
  send_fetched none s = some (returned s)
  send_fetched (some (k, f)) s = send_item (k, f) (lookup k s.fd_info_table) s

  unfoldable pub handle_data_out : Server G S C → Option (Outcome (Server G S C))
  unfolding send_fetched fetch_item_non_blocking
  handle_data_out s =
      let (itm, wq) = fetch_item_non_blocking s.wq_out in
      send_fetched itm (record s { wq_out = wq })

  -- The part of the loop for the eventfd behind the read.
  unfoldable pub after_event : Option ℕ → Server G S C → Option (Outcome (Server G S C))
  unfolding handle_data_out
  after_event none s = some (returned s)
  after_event (some n) s = if n == 8 then handle_data_out s else some (returned s)

  unfoldable pub handle_event :
      EventFd C → Arrival S → Server G S C → Option (Outcome (Server G S C))
  unfolding handle_server_socket after_event handle_client lookup
  handle_event eventfd a s =
      if is_fd s.fd a.event.data_fd
      then some (returned (handle_server_socket a s))
      else if a.event.data_fd == s.event_fd_out
      then (let (n, c) = eventfd.read s.events in after_event n (record s { events = c }))
      else handle_client a (lookup a.event.data_fd s.fd_info_table) s

  -- The events of one epoll_wait.
  unfoldable pub handle_events :
      EventFd C → List (Arrival S) → Server G S C → Option (Outcome (Server G S C))
  handle_events eventfd [] s = some (returned s)
  handle_events eventfd (a ∷ rest) s = after (handle_event eventfd a s) (handle_events eventfd rest)

  unfoldable pub handle_wait : EventFd C → Wait S → Server G S C → Option (Outcome (Server G S C))
  unfolding handle_events
  handle_wait eventfd (wait_failed interrupted) s =
      some (returned (if interrupted then s else record s { running = false }))
  handle_wait eventfd (events arrivals) s = handle_events eventfd arrivals s

  -- `while (running)`, with the results of epoll_wait; with no result left, the loop waits.
  unfoldable pub run_loop :
      EventFd C → List (Wait S) → Server G S C → Option (Outcome (Server G S C))
  unfolding handle_wait
  run_loop eventfd [] s = some (returned s)
  run_loop eventfd (w ∷ ws) s =
      let rest = after (handle_wait eventfd w s) (run_loop eventfd ws) in
      if s.running then rest else some (returned s)

  -- Server::run: the worker is started, and then the loop.
  unfoldable pub run : EventFd C → List (Wait S) → Server G S C → Option (Outcome (Server G S C))
  unfolding start_run run_loop
  run eventfd ws s = run_loop eventfd ws (start_run s)
