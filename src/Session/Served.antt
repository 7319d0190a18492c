-- ===== src/Session/Served.antt =====
-- A connection of the server of ServerWorker.cpp and Server.cpp as a link. A frame comes to the
-- incoming queue, as the framer of the connection puts it there, and the worker serves it. The
-- client reads what stands in front of the outgoing queue, if it is for its connection.
use protocom.Prelude.{
  ℕ, zero, suc, ◌≡◌, refl, ap, sym, ◌∙◌, subst, Bool, true, false, List, [], ◌∷◌, Option, none,
  some, Outcome, returned, threw, ◌>>=◌, take, ◌==◌, ==_iff, if◌then◌else◌,
}
use protocom.Prelude.Tables.{lookup, replace, lookup-replace}
use protocom.Frame
use protocom.Frame.{Frame}
use protocom.Kex.{Kex}
use protocom.Authenticator.{UserTable}
use protocom.WorkQueue.{WorkItem, WorkQueue, push_item, fetch_item_non_blocking, finish_fetch}
use protocom.Protocol.State.{Env, Handler, Factory}
use protocom.Protocol.Context.{ProtocolContext, handle_frame, is_active}
use protocom.Server.State.{EventFd, Worker, Server}
use protocom.Server.Worker.{load, write_all_to_sink}
use protocom.Server.Serve.{
  worker_round, serve_fetched, serve_item, serve_with, serve_found, serve_active, store_context,
  close_inactive,
}
use protocom.Server.Separate.{items_for}
use protocom.Client.State.{FrameIo}
use protocom.Session.{Link, idle, answered}

module _ {G S C : Type 0} where
  -- The result of a step of the worker, as the link shows it.
  unfoldable pub served : Outcome (Server G S C) → Server G S C → Bool × Server G S C
  served threw s = (false, s)
  served (returned s') s = (true, s')

  unfoldable pub taken :
      ℕ → Option WorkItem × WorkQueue → Server G S C → Bool × (Frame × Server G S C)
  taken k (none, wq) s = (false, (Frame.new, s))
  taken k (some (j, f), wq) s =
      if j == k then (true, (f, record s { wq_out = wq })) else (false, (Frame.new, s))

take-take : {A : Type 0} (n : ℕ) (xs : List A) → take n (take n xs) ≡ take n xs
take-take zero xs = refl
take-take (suc n) [] = refl
take-take (suc n) (x ∷ xs) = ap (◌∷◌ x) (take-take n xs)

copy-copy : (f : Frame) → Frame.copy (Frame.copy f) ≡ Frame.copy f
copy-copy f = ap (λ (bs : List ℕ). record (Frame.copy f) { msg = bs }) (take-take f.len f.msg)

module _ {G S C : Type 0} (env : Env G) (eventfd : EventFd C) (fresh : Kex)
    (factory : Option Factory) (auth : Option UserTable) (k : ℕ) where
  abbrev pub served_io : FrameIo (Server G S C)
  served_io = record {
    read_frame = λ f s. returned (taken k (fetch_item_non_blocking s.wq_out) s);
    write_frame = λ f s. returned (
        served
          (worker_round env eventfd fresh
            (record s { wq_in = push_item (k, Frame.copy f) s.wq_in }))
          s);
    is_eof = λ s. false;
  }

  -- The worker has a context for the connection, which is in the given state when it is loaded, and
  -- the queues hold no frame but those on their way to the client.
  pub record Carries (g : G) (state : Option Handler) (inbox : List Frame) (s : Server G S C)
      : Type 0 where
    pub w : Worker G
    pub c : ProtocolContext G
    pub has_worker : s.worker ≡ some w
    pub found : lookup k w.handler_table ≡ some c
    pub loads : load s.authenticator s.entropy c ≡ idle factory auth g state
    pub same_auth : s.authenticator ≡ auth
    pub nothing_in : s.wq_in.queue ≡ []
    pub unlimited_in : s.wq_in.item_limit ≡ 0
    pub not_cancelled : s.wq_in.fetch_cancelled ≡ false
    pub out : s.wq_out.queue ≡ items_for k inbox
    pub unlimited_out : s.wq_out.item_limit ≡ 0

  -- The server behind an answer.
  abbrev after_answer : G → Handler → Frame → Worker G → Server G S C → Server G S C
  after_answer g' h' r w s = record s {
    wq_in = record s.wq_in { queue = []; notified = true };
    worker = some (record w {
      handler_table =
          replace k (answered (idle factory auth g' (some h')) (Frame.copy r)) w.handler_table;
    });
    entropy = g';
    wq_out = record s.wq_out { queue = (k, Frame.copy r) ∷ []; notified = true };
    events = (eventfd.write s.events).1;
  }

  -- The server behind the fetch of a round of the worker.
  abbrev fetched : Server G S C → Server G S C
  fetched s = record s { wq_in = record s.wq_in { queue = []; notified = true } }

  worker_round-active :
      (h : Handler) (g : G) (f : Frame) (s : Server G S C) (v : Carries g (some h) [] s)
      → worker_round env eventfd fresh (record s { wq_in = push_item (k, Frame.copy f) s.wq_in })
        ≡ serve_active env eventfd fresh (k, Frame.copy f) v.c v.w (fetched s)
  unfolding worker_round serve_fetched serve_item serve_with serve_found finish_fetch push_item
      is_active
  worker_round-active h g f s v =
      rw
        (
          v.nothing_in,
          v.unlimited_in,
          v.not_cancelled,
          v.has_worker,
          v.found,
          ap (λ (x : ProtocolContext G). x.state) v.loads,
        )
        refl

  stores :
      (h' : Handler) (g g' : G) (r : Frame) (state : Option Handler) (s : Server G S C)
      (v : Carries g state [] s)
      → close_inactive k (answered (idle factory auth g' (some h')) (Frame.copy r)) (
          store_context eventfd k
            (answered (idle factory auth g' (some h')) (Frame.copy r))
            v.w
            (fetched s))
        ≡ after_answer g' h' r v.w s
  unfolding store_context close_inactive is_active write_all_to_sink push_item
  stores h' g g' r state s v = rw (v.out, v.unlimited_out, take-take r.len r.msg) refl

  serves :
      (h h' : Handler) (g g' : G) (f r : Frame) (s : Server G S C) (v : Carries g (some h) [] s)
      → handle_frame env fresh (Frame.copy f) (idle factory auth g (some h))
        ≡ returned (answered (idle factory auth g' (some h')) (Frame.copy r))
      → worker_round env eventfd fresh (record s { wq_in = push_item (k, Frame.copy f) s.wq_in })
        ≡ returned (after_answer g' h' r v.w s)
  unfolding serve_active
  serves h h' g g' f r s v handled =
      worker_round-active h g f s v
      ∙ ap
          (λ o.
            o >>= λ c'. returned (close_inactive k c' (store_context eventfd k c' v.w (fetched s))))
          (ap (handle_frame env fresh (Frame.copy f)) v.loads ∙ handled)
      ∙ ap returned (stores h' g g' r (some h) s v)

  answer-Carries :
      (h h' : Handler) (g g' : G) (r : Frame) (s : Server G S C) (v : Carries g (some h) [] s)
      → Carries g' (some h') (Frame.copy r ∷ []) (after_answer g' h' r v.w s)
  answer-Carries h h' g g' r s v = record {
    w = _;
    c = answered (idle factory auth g' (some h')) (Frame.copy r);
    has_worker = refl;
    found =
        rw
          (
            lookup-replace k k (answered (idle factory auth g' (some h')) (Frame.copy r))
                v.w.handler_table,
            v.found,
            (==_iff k k).1 refl,
          )
          refl;
    loads = ap (λ (a : Option UserTable). idle factory a g' (some h')) v.same_auth;
    same_auth = v.same_auth;
    nothing_in = refl;
    unlimited_in = v.unlimited_in;
    not_cancelled = v.not_cancelled;
    out = refl;
    unlimited_out = v.unlimited_out;
  }

  pub writes :
      (h h' : Handler) (state : Option Handler) (g g' : G) (f r : Frame) (s : Server G S C)
      (v : Carries g (some h) [] s)
      → state ≡ some h'
      → handle_frame env fresh (Frame.copy f) (idle factory auth g (some h))
        ≡ returned (answered (idle factory auth g' state) (Frame.copy r))
      → (s' : Server G S C) × (served_io.write_frame f s ≡ returned (true, s'))
        × Carries g' state (Frame.copy r ∷ []) s'
  unfolding served
  writes h h' state g g' f r s v e handled =
      let handled' =
        handled
        ∙ ap (λ (x : Option Handler). returned (answered (idle factory auth g' x) (Frame.copy r)))
            e in
      (
        after_answer g' h' r v.w s,
        ap (λ (o : Outcome (Server G S C)). returned (served o s))
            (serves h h' g g' f r s v handled'),
        subst
            (λ (x : Option Handler). Carries g' x (Frame.copy r ∷ []) (after_answer g' h' r v.w s))
            (sym e) (answer-Carries h h' g g' r s v),
      )

  -- The server behind the read of an answer.
  abbrev emptied : Server G S C → Server G S C
  emptied s = record s { wq_out = record s.wq_out { queue = [] } }

  pub reads :
      (state : Option Handler) (g : G) (f r : Frame) (s : Server G S C)
      (v : Carries g state (r ∷ []) s)
      → (s' : Server G S C) × (served_io.read_frame f s ≡ returned (true, (r, s')))
        × Carries g state [] s'
  unfolding taken fetch_item_non_blocking
  reads state g f r s v = (
    emptied s,
    rw (v.out, (==_iff k k).1 refl) refl,
    record {
      w = v.w;
      c = v.c;
      has_worker = v.has_worker;
      found = v.found;
      loads = v.loads;
      same_auth = v.same_auth;
      nothing_in = v.nothing_in;
      unlimited_in = v.unlimited_in;
      not_cancelled = v.not_cancelled;
      out = refl;
      unlimited_out = v.unlimited_out;
    },
  )

  -- The server's connection as a link. It keeps a context that has a state: the connection of one
  -- without a state is closed by the worker, with its last answer in the queue.
  unfoldable pub served_link : Link env fresh factory auth (Server G S C)
  served_link = record {
    io = served_io;
    At = Carries;
    Keeps = λ state. (h : Handler) × (state ≡ some h);
    keeps_handler = λ h. (h, refl);
    replies =
        λ h state g g' f r s (h', e) here handled. writes h h' state g g' f r s here e handled;
    reads = λ g state f r s here. reads state g f r s here;
  }
