-- ===== src/Server/Separate.antt =====
-- ServerWorker::run: what serving one connection's frame leaves of the others.
use protocom.Prelude.{
  true, ℕ, ◌≡◌, ◌≢◌, refl, sym, ap, ◌∙◌, subst, false, List, [], ◌∷◌, ◌++◌, Option, none, some, inl,
  inr, arith, ◌==◌, Bool-cases, append-nil, append_assoc, returned, Holds, Holds-bind, if-both,
  Holds-all, Holds-returned,
}
use protocom.Prelude.Tables.{lookup, replace, lookup-replace, lookup-erase}
use protocom.Frame
use protocom.Frame.{Frame}
use protocom.Kex.{Kex}
use protocom.WorkQueue.{WorkItem, WorkQueue}
use protocom.WorkQueue.Fifo.{push_item-queue}
use protocom.Protocol.State.{Env}
use protocom.Protocol.Context.{ProtocolContext, is_active, handle_frame}
use protocom.Server.State.{EventFd, ConnectionContext, Worker, Server}
use protocom.Server.Worker.{load, destroy_context, write_all_to_sink}
use protocom.Server.Clients.{close_client, close_found, destroy_handler, destroy_with}
use protocom.Server.Serve.{
  store_context, close_inactive, serve_active, serve_found, serve_with, serve_item,
}

-- Frames as items for one descriptor.
abbrev pub items_for : ℕ → List Frame → List WorkItem
items_for k [] = []
items_for k (f ∷ fs) = (k, f) ∷ items_for k fs

write_all_to_sink-items :
    {C : Type 0} (eventfd : EventFd C) (k : ℕ) (fs : List Frame) (wq : WorkQueue) (c : C)
    → wq.item_limit ≡ 0
    → (out : List Frame) × ((write_all_to_sink eventfd k fs (wq, c)).0.queue
        ≡ wq.queue ++ items_for k out)
unfolding write_all_to_sink
write_all_to_sink-items eventfd k [] wq c u = ([], sym (append-nil wq.queue))
write_all_to_sink-items eventfd k (f ∷ fs) wq c u =
    let pushed = push_item-queue (k, Frame.copy f) wq u in
    let more = record wq { queue = wq.queue ++ (k, Frame.copy f) ∷ []; notified = true } in
    let (out, rest) = write_all_to_sink-items eventfd k fs more (eventfd.write c).1 u in
    (
      Frame.copy f ∷ out,
      ap (λ (q : WorkQueue). (write_all_to_sink eventfd k fs (q, (eventfd.write c).1)).0.queue)
            pushed
          ∙ rest
          ∙ append_assoc wq.queue ((k, Frame.copy f) ∷ []) (items_for k out),
    )

module _ {G S C : Type 0} where
  -- Serving an item for `k` leaves the other descriptors' contexts and connections as they were,
  -- and what it adds to the outgoing queue is for `k`.
  pub record IsSeparate (k : ℕ) (s : Server G S C) (w : Worker G) (s' : Server G S C) : Type 0 where
    pub w' : Worker G
    pub has_worker : s'.worker ≡ some w'
    pub other_contexts : (j : ℕ) → j ≢ k → lookup j w'.handler_table ≡ lookup j w.handler_table
    pub other_connections : (j : ℕ) → j ≢ k → lookup j s'.fd_info_table ≡ lookup j s.fd_info_table
    pub out : List Frame
    pub queued : s'.wq_out.queue ≡ s.wq_out.queue ++ items_for k out
    pub same_incoming : s'.wq_in ≡ s.wq_in
    pub same_authenticator : s'.authenticator ≡ s.authenticator

  same-Separate : (k : ℕ) (s : Server G S C) (w : Worker G) → s.worker ≡ some w → IsSeparate k s w s
  same-Separate k s w e = record {
    w' = w;
    has_worker = e;
    other_contexts = λ j o. refl;
    other_connections = λ j o. refl;
    out = [];
    queued = sym (append-nil s.wq_out.queue);
    same_incoming = refl;
    same_authenticator = refl;
  }

  destroyed-Separate :
      (k : ℕ) (s : Server G S C) (w : Worker G)
      → IsSeparate k s w (record s { worker = some (destroy_context k w) })
  unfolding destroy_context
  destroyed-Separate k s w = record {
    w' = destroy_context k w;
    has_worker = refl;
    other_contexts = λ j o.
        let apart : (k == j) ≡ false = ground (arith, o) in
        rw (lookup-erase k j w.handler_table, apart) refl;
    other_connections = λ j o. refl;
    out = [];
    queued = sym (append-nil s.wq_out.queue);
    same_incoming = refl;
    same_authenticator = refl;
  }

  stored-Separate :
      (eventfd : EventFd C) (k : ℕ) (c : ProtocolContext G) (s : Server G S C) (w : Worker G)
      → s.wq_out.item_limit ≡ 0
      → IsSeparate k s w (store_context eventfd k c w s)
  unfolding store_context
  stored-Separate eventfd k c s w u =
      let (out, queued) = write_all_to_sink-items eventfd k c.ctx.written s.wq_out s.events u in
      record {
        w' = record w { handler_table = replace k c w.handler_table };
        has_worker = refl;
        other_contexts = λ j o.
            let apart : (k == j) ≡ false = ground (arith, o) in
            rw (lookup-replace k j c w.handler_table, apart) refl;
        other_connections = λ j o. refl;
        out = out;
        queued = queued;
        same_incoming = refl;
        same_authenticator = refl;
      }

  -- The connection that is closed has its key in its fields.
  close_found-Separate :
      (k : ℕ) (o : Option (ConnectionContext S)) (s t : Server G S C) (w : Worker G)
      → ((c : ConnectionContext S) → o ≡ some c → c.fd ≡ k)
      → IsSeparate k s w t
      → IsSeparate k s w (close_found o t)
  unfolding close_found destroy_handler destroy_with destroy_context
  close_found-Separate k none s t w own v = v
  close_found-Separate k (some c) s t w own v =
      rw (own c refl, v.has_worker)
        (record {
          w' = destroy_context k v.w';
          has_worker = refl;
          other_contexts = λ j o.
              let apart : (k == j) ≡ false = ground (arith, o) in
              rw (lookup-erase k j v.w'.handler_table, apart) (v.other_contexts j o);
          other_connections = λ j o.
              let apart : (k == j) ≡ false = ground (arith, o) in
              rw (lookup-erase k j t.fd_info_table, apart) (v.other_connections j o);
          out = v.out;
          queued = v.queued;
          same_incoming = v.same_incoming;
          same_authenticator = v.same_authenticator;
        })

module _ {G S C : Type 0} (env : Env G) (eventfd : EventFd C) where
  -- With no limit on the outgoing queue, and a connection of `k`, if there is one, that has `k` in
  -- its field: serving an item for `k`, if it returns, leaves every other descriptor's context and
  -- connection as they were, and adds to the outgoing queue only frames for `k`.
  pub serve_item-Separate :
      (fresh : Kex) (k : ℕ) (f : Frame) (s s' : Server G S C) (w : Worker G)
      → s.worker ≡ some w
      → s.wq_out.item_limit ≡ 0
      → ((c : ConnectionContext S) → lookup k s.fd_info_table ≡ some c → c.fd ≡ k)
      → serve_item env eventfd fresh (k, f) s ≡ returned s'
      → IsSeparate k s w s'
  unfolding serve_item serve_with serve_found serve_active close_inactive close_client store_context
  serve_item-Separate fresh k f s s' w has_worker unlimited own e =
      Holds-returned (IsSeparate k s w) (serve_item env eventfd fresh (k, f) s) s' e (
        subst
          (λ (o : Option (Worker G)).
            Holds (IsSeparate k s w) (serve_with env eventfd fresh (k, f) o s))
          (sym has_worker) (by_context (lookup k w.handler_table)))
    where
      closed :
          (c' : ProtocolContext G)
          → IsSeparate k s w (close_inactive k c' (store_context eventfd k c' w s))
      closed c' =
          let t = store_context eventfd k c' w s in
          let stored = stored-Separate eventfd k c' s w unlimited in
          if-both (IsSeparate k s w) (is_active c') t (close_client k t) stored
            (close_found-Separate k (lookup k s.fd_info_table) s t w own stored)

      by_context :
          (o : Option (ProtocolContext G))
          → Holds (IsSeparate k s w) (serve_found env eventfd fresh (k, f) o w s)
      by_context none = same-Separate k s w has_worker
      by_context (some c) = elim (Bool-cases (is_active c)) [
        | inl active ↦ rw active (
            Holds-bind (λ (c' : ProtocolContext G). Unit {0}) (IsSeparate k s w)
              (handle_frame env fresh f (load s.authenticator s.entropy c))
              (λ c'. returned (close_inactive k c' (store_context eventfd k c' w s)))
              (Holds-all (λ (c' : ProtocolContext G). Unit {0})
                (handle_frame env fresh f (load s.authenticator s.entropy c)) (λ _. tt))
              (λ c' _. closed c'))
        | inr inactive ↦ rw inactive (destroyed-Separate k s w)
      ]
