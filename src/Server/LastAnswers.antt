-- ===== src/Server/LastAnswers.antt =====
-- ServerWorker::run with a handler that ends its context: the answer that it wrote last.
use protocom.Prelude.{ℕ, ◌≡◌, refl, true, false, [], ◌∷◌, none, some, ==_iff, returned}
use protocom.Prelude.Tables.{lookup, erase, replace, lookup-erase}
use protocom.Frame
use protocom.Frame.{Frame}
use protocom.Kex.{Kex}
use protocom.WorkQueue.{push_item, fetch_item_non_blocking}
use protocom.Socket.{Socket}
use protocom.Deframer.{Memory}
use protocom.Protocol.State.{Env}
use protocom.Protocol.Context.{ProtocolContext, is_active, handle_frame}
use protocom.Server.State.{EventFd, ConnectionContext, Worker, Server}
use protocom.Server.Worker.{load, write_all_to_sink, destroy_context}
use protocom.Server.Clients.{close_fd, close_client, close_found, destroy_handler, destroy_with}
use protocom.Server.Serve.{
  store_context, close_inactive, serve_active, serve_found, serve_with, serve_item,
}
use protocom.Server.Loop.{handle_data_out, send_fetched, send_item}

module _ {G S C : Type 0} (env : Env G) (eventfd : EventFd C) (socket : Socket S) (mem : Memory)
    (fuel : ℕ) where
  -- A connection with nothing in the outgoing queue, whose context is active.
  pub record IsTalking (k : ℕ) (s : Server G S C) : Type 0 where
    pub w : Worker G
    pub c : ProtocolContext G
    pub connection : ConnectionContext S
    pub has_worker : s.worker ≡ some w
    pub found : lookup k w.handler_table ≡ some c
    pub active : is_active c ≡ true
    pub connected : lookup k s.fd_info_table ≡ some connection
    pub same_key : connection.fd ≡ k
    pub nothing_out : s.wq_out.queue ≡ []
    pub unlimited : s.wq_out.item_limit ≡ 0

  -- The server behind the item: the answer is queued, and the connection is closed.
  abbrev closed : ℕ → Frame → ProtocolContext G → Worker G → Server G S C → Server G S C
  closed k r c' w s = record s {
    worker = some (destroy_context k (record w { handler_table = replace k c' w.handler_table }));
    entropy = c'.ctx.entropy;
    wq_out = record s.wq_out { queue = (k, Frame.copy r) ∷ []; notified = true };
    events = (eventfd.write s.events).1;
    open_fds = close_fd k s.open_fds;
    watched = close_fd k (close_fd k s.watched);
    fd_info_table = erase k s.fd_info_table;
  }

  -- The server behind handleDataOut.
  abbrev dropped : ℕ → Frame → ProtocolContext G → Worker G → Server G S C → Server G S C
  dropped k r c' w s = record (closed k r c' w s) {
    wq_out = record s.wq_out { queue = []; notified = true };
  }

  serve_item-closed :
      (fresh : Kex) (k : ℕ) (f r : Frame) (c' : ProtocolContext G) (s : Server G S C)
      (v : IsTalking k s)
      → handle_frame env fresh f (load s.authenticator s.entropy v.c) ≡ returned c'
      → is_active c' ≡ false
      → c'.ctx.written ≡ r ∷ []
      → serve_item env eventfd fresh (k, f) s ≡ returned (closed k r c' v.w s)
  unfolding serve_item serve_with serve_found serve_active store_context close_inactive
      write_all_to_sink push_item close_client close_found destroy_handler destroy_with
  serve_item-closed fresh k f r c' s v handled ended wrote =
      rw
        (
          v.has_worker, v.found, v.active, handled, ended, wrote, v.nothing_out, v.unlimited,
          v.connected, v.same_key,
        )
        refl

  handle_data_out-dropped :
      (k : ℕ) (r : Frame) (c' : ProtocolContext G) (w : Worker G) (s : Server G S C)
      → handle_data_out socket mem fuel (closed k r c' w s) ≡ some (returned (dropped k r c' w s))
  unfolding handle_data_out send_fetched send_item fetch_item_non_blocking
  handle_data_out-dropped k r c' w s =
      rw (lookup-erase k k s.fd_info_table, (==_iff k k).1 refl) refl

  -- If a connection has nothing in the outgoing queue, and serving its frame leaves its context
  -- without a state and with one answer written, and no step of the event loop comes between: the
  -- connection is closed and gone from both tables, with the answer in the queue; and the
  -- handleDataOut that takes the answer from the queue sends nothing, so that the client never gets
  -- it.
  pub serve_item-drops_last :
      (fresh : Kex) (k : ℕ) (f r : Frame) (c' : ProtocolContext G) (s : Server G S C)
      (v : IsTalking k s)
      → handle_frame env fresh f (load s.authenticator s.entropy v.c) ≡ returned c'
      → is_active c' ≡ false
      → c'.ctx.written ≡ r ∷ []
      → (s₁ : Server G S C) × (s₂ : Server G S C) × (serve_item env eventfd fresh (k, f) s
          ≡ returned s₁)
        × (s₁.wq_out.queue ≡ (k, Frame.copy r) ∷ [])
        × (lookup k s₁.fd_info_table ≡ none)
        × (handle_data_out socket mem fuel s₁ ≡ some (returned s₂))
        × (s₂.wq_out.queue ≡ [])
        × (s₂.fd_info_table ≡ s₁.fd_info_table)
  serve_item-drops_last fresh k f r c' s v handled ended wrote = (
    closed k r c' v.w s,
    dropped k r c' v.w s,
    serve_item-closed fresh k f r c' s v handled ended wrote,
    refl,
    rw (lookup-erase k k s.fd_info_table, (==_iff k k).1 refl) refl,
    handle_data_out-dropped k r c' v.w s,
    refl,
    refl,
  )
