-- ===== src/Server/Serve.antt =====
-- The loop of ServerWorker::run, and the methods that stop the two threads. The worker takes an
-- item and serves it as one step, its frames leaving for the sink when the handler is done.
use protocom.Prelude.{
  ℕ, Bool, true, false, not, ◌||◌, List, [], ◌∷◌, ◌++◌, Option, none, some, if◌then◌else◌, Outcome,
  returned, threw, ◌>>=◌,
}
use mathlib.Core.Option
use protocom.Prelude.Tables.{lookup, replace}
use protocom.Kex.{Kex}
use protocom.WorkQueue.{WorkItem, WorkQueue, finish_fetch, cancel_fetch}
use protocom.Protocol.State.{Env}
use protocom.Protocol.Context.{ProtocolContext, is_active, handle_frame}
use protocom.Server.State.{EventFd, Worker, Server}
use protocom.Server.Worker.{load, destroy_context, write_all_to_sink}
use protocom.Server.Clients.{close_client}

module _ {G S C : Type 0} where
  unfoldable pub close_inactive : ℕ → ProtocolContext G → Server G S C → Server G S C
  unfolding is_active close_client
  close_inactive k c s = if is_active c then s else close_client k s

module _ {G S C : Type 0} (eventfd : EventFd C) where
  -- The context as its handler left it, and the frames that it wrote.
  unfoldable pub store_context : ℕ → ProtocolContext G → Worker G → Server G S C → Server G S C
  unfolding write_all_to_sink
  store_context k c w s =
      let (wq, e) = write_all_to_sink eventfd k c.ctx.written (s.wq_out, s.events) in
      record s {
        worker = some (record w { handler_table = replace k c w.handler_table });
        entropy = c.ctx.entropy;
        wq_out = wq;
        events = e;
      }

module _ {G S C : Type 0} (env : Env G) (eventfd : EventFd C) where
  -- An exception of a handler leaves the thread, which ends the process.
  unfoldable pub serve_active :
      Kex → WorkItem → ProtocolContext G → Worker G → Server G S C → Outcome (Server G S C)
  unfolding store_context close_inactive
  serve_active fresh (k, f) c w s = do
    c' ← handle_frame env fresh f (load s.authenticator s.entropy c)
    returned (close_inactive k c' (store_context eventfd k c' w s))

  unfoldable pub serve_found :
      Kex → WorkItem → Option (ProtocolContext G) → Worker G → Server G S C → Outcome (Server G S C)
  unfolding serve_active is_active destroy_context
  serve_found fresh (k, f) none w s = returned s
  serve_found fresh (k, f) (some c) w s =
      let inactive = record s { worker = some (destroy_context k w) } in
      if is_active c then serve_active fresh (k, f) c w s else returned inactive

  unfoldable pub serve_with :
      Kex → WorkItem → Option (Worker G) → Server G S C → Outcome (Server G S C)
  unfolding serve_found lookup
  serve_with fresh (k, f) none s = returned s
  serve_with fresh (k, f) (some w) s = serve_found fresh (k, f) (lookup k w.handler_table) w s

  -- The round behind the fetch. The thread is the worker's, so there is a worker.
  unfoldable pub serve_item : Kex → WorkItem → Server G S C → Outcome (Server G S C)
  unfolding serve_with
  serve_item fresh itm s = serve_with fresh itm s.worker s

  unfoldable pub serve_fetched :
      Kex → Outcome (Option WorkItem × WorkQueue) → Server G S C → Outcome (Server G S C)
  unfolding serve_item
  serve_fetched fresh threw s = returned s
  serve_fetched fresh (returned (none, wq)) s = returned s
  serve_fetched fresh (returned (some itm, wq)) s = serve_item fresh itm (record s { wq_in = wq })

  -- A round of the loop, from the end of the wait in fetchItemBlocking.
  unfoldable pub worker_round : Kex → Server G S C → Outcome (Server G S C)
  unfolding serve_fetched finish_fetch
  worker_round fresh s = serve_fetched fresh (finish_fetch s.wq_in) s

-- ServerWorker::stop. `joins` says whether the worker's thread comes to its end, which the join of
-- a thread that was started waits for; none is a join that blocks for ever. Server/Stopping has
-- runs of both kinds.
unfoldable pub stop_worker :
    {G : Type 0} → Bool → Worker G → WorkQueue → Option (Worker G × WorkQueue)
unfolding cancel_fetch
stop_worker joins w wq =
    if not w.started || joins
    then some (record w { should_stop = true; started = false }, cancel_fetch wq)
    else none

module _ {G S C : Type 0} where
  stop_with : Bool → Option (Worker G) → Server G S C → Option (Server G S C)
  stop_with joins none s = some s
  stop_with joins (some w) s =
      Option.map (λ (w', wq). record s { worker = none; wq_in = wq }) (stop_worker joins w s.wq_in)

  unfoldable pub stop : Bool → EventFd C → Server G S C → Option (Server G S C)
  unfolding stop_with stop_worker
  stop joins eventfd s =
      stop_with joins s.worker (record s { running = false; events = (eventfd.write s.events).1 })

  terminate_with : Bool → Option (Worker G) → Server G S C → Option (Outcome (Server G S C))
  terminate_with joins none s = some threw
  terminate_with joins (some w) s =
      Option.map (λ (w', wq). returned (record s { worker = some w'; wq_in = wq }))
        (stop_worker joins w s.wq_in)

  -- Without a worker it calls a method on the null pointer.
  unfoldable pub terminate : Bool → Server G S C → Option (Outcome (Server G S C))
  unfolding terminate_with stop_worker
  terminate joins s = terminate_with joins s.worker (record s { running = false })

-- The item that a round of the worker serves, if it does not find the fetch cancelled.
unfoldable pub fetched : {G S C : Type 0} → Server G S C → Option WorkItem
unfolding finish_fetch
fetched s = elim (finish_fetch s.wq_in) [ threw ↦ none | returned (itm, wq) ↦ itm ]

abbrev pub fd_list : Option ℕ → List ℕ
fd_list none = []
fd_list (some n) = n ∷ []

-- The destructor, with the descriptors that it closes. The clients' are not among them.
unfoldable pub destroy_server :
    {G S C : Type 0} → Bool → ℕ → Server G S C → Option (Server G S C × List ℕ)
unfolding stop_with stop_worker
destroy_server joins epoll_fd s =
    Option.map
      (λ s'. (
        record s' { authenticator = none; user_handler_factory = none },
        fd_list s.fd ++ epoll_fd ∷ s.event_fd_out ∷ [],
      ))
      (stop_with joins s.worker s)
