-- ===== src/Server/Lasting/Serving.antt =====
-- The rounds of ServerWorker::run, and what the handling of the next event relies on.
use protocom.Prelude.{
  ℕ, List, [], ◌∷◌, ◌++◌, Option, none, some, if-both, Outcome, returned, Holds, Holds-bind,
}
use protocom.Prelude.Tables.{lookup, erase-AllEntries}
use protocom.Frame
use protocom.Frame.{Frame}
use protocom.Kex.{Kex}
use protocom.WorkQueue.{
  WorkItem, WorkQueue, push_item, finish_fetch, fetch_item_non_blocking, take_front,
}
use protocom.Socket.{Socket, ReceivesStream, SendsStream}
use protocom.Framer.Steps.{WholeLengths}
use protocom.Deframer.{Memory}
use protocom.Deframer.Refines.{WholeSends}
use protocom.Deframer.Apart.{SendsApart}
use protocom.Protocol.State.{Env}
use protocom.Protocol.Context.{ProtocolContext, is_active}
use protocom.Protocol.Context.Written.{Fills, AllFull, copy-IsFull}
use protocom.Protocol.Context.Written.Handlers.{handle_frame-AllFull}
use protocom.Server.State.{EventFd, ConnectionContext, Worker, Server}
use protocom.Server.Worker.{write_to_sink, write_all_to_sink}
use protocom.Server.Clients.{
  epoll_del_client, close_socket, close_client, close_found, destroy_handler, destroy_with,
}
use protocom.Server.Serve.{
  store_context, close_inactive, serve_active, serve_found, serve_with, serve_fetched, serve_item,
  worker_round,
}
use protocom.Server.Servable.{AllWhole, IsWhole, IsServable}
use protocom.Server.Ending.{IsServed}

AllWhole-append :
    (xs : List WorkItem) (k : ℕ) (f : Frame)
    → AllWhole xs
    → IsWhole f
    → AllWhole (xs ++ (k, f) ∷ [])
AllWhole-append [] k f all whole = (whole, tt)
AllWhole-append ((j, g) ∷ xs) k f (first, all) whole = (first, AllWhole-append xs k f all whole)

write_all_to_sink-AllWhole :
    {C : Type 0} (eventfd : EventFd C) (k : ℕ) (fs : List Frame) (q : WorkQueue × C)
    → AllFull fs
    → AllWhole q.0.queue
    → AllWhole (write_all_to_sink eventfd k fs q).0.queue
unfolding write_all_to_sink write_to_sink push_item
write_all_to_sink-AllWhole eventfd k [] q full all = all
write_all_to_sink-AllWhole eventfd k (f ∷ fs) (wq, c) (first, full) all =
    write_all_to_sink-AllWhole eventfd k fs (write_to_sink eventfd k f (wq, c)).1 full (
      if-both (λ (q : WorkQueue). AllWhole q.queue) _ _ _ all
        (AllWhole-append wq.queue k (Frame.copy f) all (copy-IsFull f first)))

module _ {G S C : Type 0} (env : Env G) (eventfd : EventFd C) (socket : Socket S) (mem : Memory)
    (receives : ReceivesStream socket) (sends : SendsStream socket) (fuel : ℕ)
    (lengths : WholeLengths socket) (whole : WholeSends socket) (apart : SendsApart socket receives)
    (connected_fills : Fills env.connected_response) (auth_fills : Fills env.auth_response)
    (user_fills : Fills env.user_response) where
  abbrev Served : Server G S C → Type 0
  Served = IsServed socket mem receives sends fuel lengths whole apart

  store_context-Served :
      (k : ℕ) (c : ProtocolContext G) (w : Worker G) (s : Server G S C)
      → AllFull c.ctx.written
      → Served s
      → Served (store_context eventfd k c w s)
  unfolding store_context
  store_context-Served k c w s full v = record {
    servable = v.servable;
    whole_out =
        write_all_to_sink-AllWhole eventfd k c.ctx.written (s.wq_out, s.events) full v.whole_out;
    unlimited = v.unlimited;
    enough = v.enough;
  }

  close_client-Served : (k : ℕ) (s : Server G S C) → Served s → Served (close_client k s)
  unfolding close_client close_found destroy_handler destroy_with
  close_client-Served k s v = by_entry (lookup k s.fd_info_table)
    where
      by_worker :
          (c : ConnectionContext S) (w : Option (Worker G))
          → Served (destroy_with c.fd w (epoll_del_client c.fd (close_socket c.fd s)).1)
      by_worker c none = record {
        servable = v.servable;
        whole_out = v.whole_out;
        unlimited = v.unlimited;
        enough = v.enough;
      }
      by_worker c (some w) = record {
        servable =
            erase-AllEntries (IsServable socket mem receives sends fuel) c.fd s.fd_info_table
              v.servable;
        whole_out = v.whole_out;
        unlimited = v.unlimited;
        enough = v.enough;
      }

      by_entry : (o : Option (ConnectionContext S)) → Served (close_found o s)
      by_entry none = v
      by_entry (some c) = by_worker c s.worker

  serve_item-Served :
      (fresh : Kex) (itm : WorkItem) (s : Server G S C)
      → Served s
      → Holds Served (serve_item env eventfd fresh itm s)
  unfolding serve_item serve_with serve_found serve_active close_inactive
  serve_item-Served fresh (k, f) s v = by_worker s.worker
    where
      by_context :
          (o : Option (ProtocolContext G)) (w : Worker G)
          → Holds Served (serve_found env eventfd fresh (k, f) o w s)
      by_context none w = v
      by_context (some c) w =
          if-both (Holds Served) (is_active c) _ _
            (Holds-bind (λ (c' : ProtocolContext G). AllFull c'.ctx.written) Served _ _
              (handle_frame-AllFull env connected_fills auth_fills user_fills fresh f _ tt)
              (λ c' full.
                let stored = store_context-Served k c' w s full v in
                if-both Served (is_active c') _ _ stored (close_client-Served k _ stored)))
            (record {
              servable = v.servable;
              whole_out = v.whole_out;
              unlimited = v.unlimited;
              enough = v.enough;
            })

      by_worker : (o : Option (Worker G)) → Holds Served (serve_with env eventfd fresh (k, f) o s)
      by_worker none = v
      by_worker (some w) = by_context (lookup k w.handler_table) w

  pub worker_round-Served :
      (fresh : Kex) (s : Server G S C) → Served s → Holds Served (worker_round env eventfd fresh s)
  unfolding worker_round serve_fetched finish_fetch fetch_item_non_blocking
  worker_round-Served fresh s v =
      if-both
        (λ (o : Outcome (Option WorkItem × WorkQueue)).
          Holds Served (serve_fetched env eventfd fresh o s))
        s.wq_in.fetch_cancelled _ _ v (by_queue s.wq_in.queue)
    where
      by_queue :
          (xs : List WorkItem)
          → Holds Served (serve_fetched env eventfd fresh (returned (take_front xs s.wq_in)) s)
      by_queue [] = v
      by_queue (itm ∷ rest) = serve_item-Served fresh itm _ (record {
        servable = v.servable;
        whole_out = v.whole_out;
        unlimited = v.unlimited;
        enough = v.enough;
      })
