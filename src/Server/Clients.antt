-- ===== src/Server/Clients.antt =====
-- The methods of Server.cpp that add a connection to the two tables, and that take one away.
use protocom.Prelude.{
  ℕ, Bool, true, false, List, [], ◌∷◌, ◌++◌, Option, none, some, ◌==◌, if◌then◌else◌,
}
use protocom.Prelude.Tables.{lookup, emplace, erase}
use protocom.Server.State.{ConnectionContext, Worker, Server, new_connection}
use protocom.Server.Worker.{create_context, destroy_context}

-- close(2).
unfoldable pub close_fd : ℕ → List ℕ → List ℕ
close_fd k [] = []
close_fd k (j ∷ js) = if j == k then close_fd k js else j ∷ close_fd k js

unfoldable pub is_open : ℕ → List ℕ → Bool
is_open k [] = false
is_open k (j ∷ js) = if j == k then true else is_open k js

-- The results of accept4, with the new socket, and of epoll_ctl for it.
pub data Accept (S : Type 0) : Type 0 where
  accept_aborted accept_failed : Accept S
  accepted : ℕ → S → Bool → Accept S

-- `worker->destroyContext(fd)` where there is a worker.
abbrev pub destroy_in_worker : {G : Type 0} → ℕ → Option (Worker G) → Option (Worker G)
destroy_in_worker fd none = none
destroy_in_worker fd (some w) = some (destroy_context fd w)

module _ {G S C : Type 0} where
  unfoldable pub create_with : ℕ → S → Option (Worker G) → Server G S C → Bool × Server G S C
  unfolding create_context emplace
  create_with fd sock none s = (false, s)
  create_with fd sock (some w) s = (
    true,
    record s {
      fd_info_table = emplace fd (new_connection fd sock) s.fd_info_table;
      worker = some (create_context fd s.entropy w);
    },
  )

  unfoldable pub create_handler : ℕ → S → Server G S C → Bool × Server G S C
  unfolding create_with
  create_handler fd sock s = create_with fd sock s.worker s

  unfoldable pub destroy_with : ℕ → Option (Worker G) → Server G S C → Server G S C
  unfolding destroy_context erase
  destroy_with fd none s = s
  destroy_with fd (some w) s = record s {
    fd_info_table = erase fd s.fd_info_table;
    worker = some (destroy_context fd w);
  }

  unfoldable pub destroy_handler : ℕ → Server G S C → Server G S C
  unfolding destroy_with
  destroy_handler fd s = destroy_with fd s.worker s

  -- The EPOLL_CTL_DEL of a descriptor that is not in the set fails, and is only reported.
  abbrev pub epoll_del_client : ℕ → Server G S C → Bool × Server G S C
  epoll_del_client fd s = (is_open fd s.watched, record s { watched = close_fd fd s.watched })

  -- The close of a client's descriptor, which takes it out of epoll's set as well.
  abbrev pub close_socket : ℕ → Server G S C → Server G S C
  close_socket fd s = record s {
    open_fds = close_fd fd s.open_fds;
    watched = close_fd fd s.watched;
  }

  -- closeClient(ConnectionContext&), the event loop's. Behind the erase `cctx` refers to freed
  -- memory: `freed` is what the second read of cctx.fd finds there.
  unfoldable pub close_connection : ℕ → ConnectionContext S → Server G S C → Server G S C
  unfolding destroy_context erase close_fd is_open
  close_connection freed c s = record (close_socket c.fd (epoll_del_client c.fd s).1) {
    fd_info_table = erase c.fd s.fd_info_table;
    worker = destroy_in_worker freed s.worker;
  }

  unfoldable pub close_found : Option (ConnectionContext S) → Server G S C → Server G S C
  unfolding destroy_handler close_fd is_open
  close_found none s = s
  close_found (some c) s = destroy_handler c.fd (epoll_del_client c.fd (close_socket c.fd s)).1

  -- closeClient(int), the worker's.
  unfoldable pub close_client : ℕ → Server G S C → Server G S C
  unfolding close_found lookup
  close_client fd s = close_found (lookup fd s.fd_info_table) s

  -- A descriptor that epoll refuses is closed, and gets a handler all the same.
  unfoldable pub accept_client : Accept S → Server G S C → Server G S C
  unfolding create_handler close_fd
  accept_client accept_aborted s = s
  accept_client accept_failed s = record s { running = false }
  accept_client (accepted fd sock registered) s =
      let opened = s.open_fds ++ fd ∷ [] in
      (create_handler fd sock (record s {
        open_fds = if registered then opened else close_fd fd opened;
        watched = if registered then s.watched ++ fd ∷ [] else s.watched;
      })).1
