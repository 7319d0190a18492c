-- ===== src/Server/Counted.antt =====
-- The counter of the eventfd in Server.cpp and ServerWorker.cpp.
use protocom.Prelude.{
  ℕ, ◌+◌, ◌≡◌, refl, sym, ap, ◌∙◌, Bool, true, List, [], ◌∷◌, Option, none, some, inl, inr, arith,
  length, length-append, ◌==◌, Bool-cases, false, Outcome, returned, threw, Holds, Holds-bind,
  Holds-all, Leaves, Leaves-after, Leaves-mono, Leaves-returned, if-in, if-Leaves, subst,
}
use protocom.Prelude.Tables.{lookup}
use protocom.Frame
use protocom.Frame.{Frame}
use protocom.Kex.{Kex}
use protocom.WorkQueue.{WorkItem, WorkQueue, finish_fetch, take_front}
use protocom.WorkQueue.Fifo.{push_item-queue}
use protocom.Socket.{Socket}
use protocom.Deframer.{Memory}
use protocom.Protocol.State.{Env}
use protocom.Protocol.Context.{ProtocolContext, is_active, handle_frame}
use protocom.Server.State.{EventFd, CountsEvents, Worker, Server}
use protocom.Server.Worker.{load, write_all_to_sink}
use protocom.Server.Loop.{
  Arrival, wait_failed, handle_wait, handle_event, handle_server_socket, handle_client,
  handle_data_out, send_fetched, after_event, is_fd,
}
use protocom.Server.Serve.{
  store_context, close_inactive, serve_active, serve_found, serve_with, serve_item, serve_fetched,
  worker_round,
}
use protocom.Server.Runs.{Action, event, failed_wait, serve, act, run_actions}
use protocom.Server.Notifications.{
  IsQuiet, close_inactive-Quiet, handle_server_socket-Quiet, handle_client-Quiet,
  send_fetched-Quiet,
}

module _ {C : Type 0} (eventfd : EventFd C) (counts : CountsEvents eventfd) where
  open counts use {value, write_adds}

  -- No write fails: the counter stays below its maximum.
  abbrev pub NeverFails : Type 0
  NeverFails = (c : C) → (eventfd.write c).0 ≡ true

  -- The counter is the number of the frames that are queued.
  abbrev pub IsCounted : WorkQueue → C → Type 0
  IsCounted wq c = (wq.item_limit ≡ 0) × (value c ≡ length wq.queue)

  write_all_to_sink-Counted :
      (k : ℕ) (fs : List Frame) (wq : WorkQueue) (c : C)
      → NeverFails
      → IsCounted wq c
      → let (wq', c') = write_all_to_sink eventfd k fs (wq, c) in IsCounted wq' c'
  unfolding write_all_to_sink
  write_all_to_sink-Counted k [] wq c ok v = v
  write_all_to_sink-Counted k (f ∷ fs) wq c ok (limit, count) =
      let (b, c') = eventfd.write c in
      let pushed = push_item-queue (k, Frame.copy f) wq limit in
      let added : value (eventfd.write c).1 ≡ value c + 1 =
        write_adds c (eventfd.write c).1 (ap (λ (b : Bool). (b, (eventfd.write c).1)) (ok c)) in
      write_all_to_sink-Counted k fs _ (eventfd.write c).1 ok (
        rw pushed
          (limit, omega (arith, added, count, length-append wq.queue ((k, Frame.copy f) ∷ []))))

module _ {G S C : Type 0} (eventfd : EventFd C) (counts : CountsEvents eventfd) where
  open counts use {value, read_takes, read_fails, read_whole}

  abbrev pub Counts : Server G S C → Type 0
  Counts s = IsCounted eventfd counts s.wq_out s.events

  quiet-Counts : (s s' : Server G S C) → IsQuiet s s' → Counts s → Counts s'
  quiet-Counts s s' (q, e) v =
      subst (λ (c : C). IsCounted eventfd counts s'.wq_out c) (sym e)
        (subst (λ (wq : WorkQueue). IsCounted eventfd counts wq s.events) (sym q) v)

  serve_with-Counts :
      (env : Env G) (fresh : Kex) (k : ℕ) (f : Frame) (o : Option (Worker G)) (s : Server G S C)
      → NeverFails eventfd counts
      → Counts s
      → Holds Counts (serve_with env eventfd fresh (k, f) o s)
  unfolding serve_with serve_found serve_active store_context
  serve_with-Counts env fresh k f none s ok v = v
  serve_with-Counts env fresh k f (some w) s ok v = serve_found-Counts (lookup k w.handler_table)
    where
      stored : (c' : ProtocolContext G) → Counts (store_context eventfd k c' w s)
      stored c' = write_all_to_sink-Counted eventfd counts k c'.ctx.written s.wq_out s.events ok v

      serve_active-Counts :
          (c : ProtocolContext G) → Holds Counts (serve_active env eventfd fresh (k, f) c w s)
      serve_active-Counts c =
          Holds-bind (λ (c' : ProtocolContext G). Unit {0}) Counts
            (handle_frame env fresh f (load s.authenticator s.entropy c))
            (λ c'. returned (close_inactive k c' (store_context eventfd k c' w s)))
            (Holds-all (λ (c' : ProtocolContext G). Unit {0})
              (handle_frame env fresh f (load s.authenticator s.entropy c)) (λ _. tt))
            (λ c' _.
              quiet-Counts (store_context eventfd k c' w s)
                (close_inactive k c' (store_context eventfd k c' w s))
                (close_inactive-Quiet k c' (store_context eventfd k c' w s)) (stored c'))

      serve_found-Counts :
          (o : Option (ProtocolContext G))
          → Holds Counts (serve_found env eventfd fresh (k, f) o w s)
      serve_found-Counts none = v
      serve_found-Counts (some c) = elim (Bool-cases (is_active c)) [
        | inl active ↦ rw active (serve_active-Counts c)
        | inr inactive ↦ rw inactive v
      ]

  serve_fetched-Counts :
      (env : Env G) (fresh : Kex) (o : Outcome (Option WorkItem × WorkQueue)) (s : Server G S C)
      → NeverFails eventfd counts
      → Counts s
      → Holds Counts (serve_fetched env eventfd fresh o s)
  unfolding serve_fetched serve_item
  serve_fetched-Counts env fresh threw s ok v = v
  serve_fetched-Counts env fresh (returned (none, wq)) s ok v = v
  serve_fetched-Counts env fresh (returned (some (k, f), wq)) s ok v =
      serve_with-Counts env fresh k f s.worker (record s { wq_in = wq }) ok v

  -- A read that takes one off finds a frame in the queue.
  handle_data_out-Counts :
      (socket : Socket S) (mem : Memory) (fuel : ℕ) (c : C) (s : Server G S C)
      → (s.wq_out.item_limit ≡ 0)
      → (length s.wq_out.queue ≡ value c + 1)
      → Leaves Counts (handle_data_out socket mem fuel (record s { events = c }))
  unfolding handle_data_out
  handle_data_out-Counts socket mem fuel c s limit one = by_queue s.wq_out.queue one
    where
      by_queue :
          (xs : List WorkItem)
          → length xs ≡ value c + 1
          → let (itm, wq) = take_front xs s.wq_out in
            Leaves Counts (send_fetched socket mem fuel itm (record s { events = c; wq_out = wq }))
      by_queue [] e = absurd (omega arith)
      by_queue (x ∷ xs) e =
          let s' : Server G S C = record s {
            events = c;
            wq_out = record s.wq_out { queue = xs };
          } in
          Leaves-mono (IsQuiet s') Counts (send_fetched socket mem fuel (some x) s')
            (send_fetched-Quiet socket mem fuel (some x) s')
            (λ t q. quiet-Counts s' t q (limit, omega (arith, e)))

  after_event-Counts :
      (socket : Socket S) (mem : Memory) (fuel : ℕ) (s : Server G S C) (x : Option ℕ × C)
      → eventfd.read s.events ≡ x
      → Counts s
      → Leaves Counts (after_event socket mem fuel x.0 (record s { events = x.1 }))
  unfolding after_event
  after_event-Counts socket mem fuel s (none, c) e (limit, count) =
      (limit, read_fails s.events c e ∙ count)
  after_event-Counts socket mem fuel s (some n, c) e (limit, count) =
      let whole = read_whole s.events c n e in
      let taken : value s.events ≡ value c + 1 =
        read_takes s.events c (e ∙ ap (λ (m : ℕ). (some m, c)) whole) in
      if-Leaves Counts (n == 8) _ _
        (λ _. handle_data_out-Counts socket mem fuel c s limit (omega (arith, taken, count)))
        (λ other. absurd (ground (arith, whole)))

  handle_event-Counts :
      (socket : Socket S) (mem : Memory) (fuel : ℕ) (a : Arrival S) (s : Server G S C)
      → Counts s
      → Leaves Counts (handle_event socket mem fuel eventfd a s)
  unfolding handle_event
  handle_event-Counts socket mem fuel a s v =
      let client = lookup a.event.data_fd s.fd_info_table in
      if-Leaves Counts (is_fd s.fd a.event.data_fd) _ _
        (λ _. quiet-Counts s (handle_server_socket a s) (handle_server_socket-Quiet a s) v)
        (λ _.
          if-Leaves Counts (a.event.data_fd == s.event_fd_out) _ _
            (λ _. after_event-Counts socket mem fuel s (eventfd.read s.events) refl v)
            (λ _.
              Leaves-mono (IsQuiet s) Counts (handle_client socket mem fuel a client s)
                (handle_client-Quiet socket mem fuel a client s) (λ t q. quiet-Counts s t q v)))

  -- With an eventfd that counts and whose writes do not fail, after any steps of the two threads
  -- that return, from a server without a limit on the outgoing queue whose counter is the number of
  -- the frames queued there: it still is. No queued frame lacks its notification, and none has two.
  pub run_actions-Counts :
      (env : Env G) (socket : Socket S) (mem : Memory) (fuel : ℕ) (actions : List (Action S))
      → (s s' : Server G S C) → NeverFails eventfd counts
      → s.wq_out.item_limit ≡ 0
      → value s.events ≡ length s.wq_out.queue
      → run_actions env eventfd socket mem fuel actions s ≡ some (returned s')
      → value s'.events ≡ length s'.wq_out.queue
  unfolding run_actions act worker_round handle_wait
  run_actions-Counts env socket mem fuel actions s s' ok limit count e =
      (Leaves-returned Counts _ s' e (all actions s (limit, count))).1
    where
      all :
          (rest : List (Action S)) (t : Server G S C)
          → Counts t
          → Leaves Counts (run_actions env eventfd socket mem fuel rest t)
      all [] t v = v
      all (event a ∷ rest) t v =
          Leaves-after Counts Counts (handle_event socket mem fuel eventfd a t)
            (run_actions env eventfd socket mem fuel rest)
            (handle_event-Counts socket mem fuel a t v) (λ t' v'. all rest t' v')
      all (failed_wait b ∷ rest) t v =
          Leaves-after Counts Counts (handle_wait socket mem fuel eventfd (wait_failed b) t)
            (run_actions env eventfd socket mem fuel rest)
            (if-in Counts b t (record t { running = false }) (λ _. v) (λ _. v))
            (λ t' v'. all rest t' v')
      all (serve fresh ∷ rest) t v =
          Leaves-after Counts Counts (some (worker_round env eventfd fresh t))
            (run_actions env eventfd socket mem fuel rest)
            (serve_fetched-Counts env fresh (finish_fetch t.wq_in) t ok v) (λ t' v'. all rest t' v')
