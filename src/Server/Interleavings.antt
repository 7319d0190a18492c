-- ===== src/Server/Interleavings.antt =====
-- What every interleaving of the two threads keeps, from the start of Server::run.
use protocom.Prelude.{
  ℕ, ◌≡◌, refl, sym, ap, subst, true, List, [], ◌∷◌, Option, none, some, Outcome, returned,
  Holds-all, Leaves, Leaves-step, Leaves-returned,
}
use mathlib.Core.List.{Memᴰ}
use mathlib.Core.List.Memᴰ
use mathlib.Core.Option.{some_inj}
use protocom.Prelude.Tables.{keys, has, AllEntries}
use protocom.Frame.{Frame}
use protocom.WorkQueue.{WorkItem}
use protocom.Socket.{Socket, ReceivesStream}
use protocom.Framer.Steps.{WholeLengths}
use protocom.Deframer.{Memory}
use protocom.Authenticator.{UserTable}
use protocom.Protocol.State.{Env, Factory}
use protocom.Protocol.Context
use protocom.Protocol.Context.{ProtocolContext, is_active, handle_frame, set_io}
use protocom.Server.Clients.{is_open}
use protocom.Server.Worker.{start}
use protocom.Server.State.{new_worker, EventFd, Server}
use protocom.Server.Loop.{handle_event, handle_wait, wait_failed, start_run}
use protocom.Server.Serve.{fetched, worker_round}
use protocom.Server.Runs.{
  Action, event, failed_wait, serve, act, run_actions, served, action_item, items_from,
}
use protocom.Server.Consistency.{Consistent, IsActiveEntry, IsValidEntry, HoldsNew}
use protocom.Server.Events.{IsSound, handle_event-Keeps, failed_wait-Keeps}
use protocom.Server.Rounds.{IsKept, IsAlive, worker_round-Consistent}

abbrev pub AllSound : {S : Type 0} → List (Action S) → Type 0
AllSound [] = Unit {0}
AllSound (event a ∷ rest) = IsSound a × AllSound rest
AllSound (failed_wait b ∷ rest) = AllSound rest
AllSound (serve fresh ∷ rest) = AllSound rest

-- A server that has no connection yet.
pub record IsNew {G S C : Type 0} (s : Server G S C) : Type 0 where
  pub no_connections : s.fd_info_table ≡ []
  pub none_open : s.open_fds ≡ []
  pub unlimited : s.wq_in.item_limit ≡ 0

first_item :
    (x : WorkItem) (o : Option WorkItem)
    → o ≡ some x
    → Memᴰ x (elim o [ none ↦ [] | some itm ↦ itm ∷ [] ])
first_item x none e = absurd (cc)
first_item x (some y) e = Memᴰ.head (sym (some_inj.0 e))

no_keys :
    {V : Type 0} (k : ℕ) (m : List (ℕ × V)) (fds : List ℕ)
    → m ≡ []
    → fds ≡ []
    → has k m ≡ is_open k fds
unfolding has is_open
no_keys k m fds e e' = rw (e, e') refl

pub new_active :
    {G : Type 0} (factory : Option Factory) (g : G)
    → is_active (set_io true (Context.new factory none g)) ≡ true
unfolding is_active
new_active factory g = refl

module _ {G S C : Type 0} (env : Env G) (eventfd : EventFd C) (socket : Socket S)
    (mem : Memory) where
  later :
      (fuel : ℕ) (rest : List (Action S)) (s' : Server G S C) (x : WorkItem)
      → (o : Option (Outcome (Server G S C))) → o ≡ some (returned s')
      → Memᴰ x (served env eventfd socket mem fuel rest s')
      → Memᴰ x (items_from (served env eventfd socket mem fuel rest) o)
  later fuel rest s' x o e m =
      subst
        (λ (p : Option (Outcome (Server G S C))).
          Memᴰ x (items_from (served env eventfd socket mem fuel rest) p))
        (sym e) m

  -- Every item that is served keeps what the contexts keep.
  module _ (P : ℕ → ProtocolContext G → Type 0) (auth : Option UserTable)
      (Received : ℕ → Frame → Type 0) where
    pub run_actions-Keeps :
        (fuel : ℕ) (actions : List (Action S)) (s : Server G S C)
        → ReceivesStream socket
        → WholeLengths socket
        → HoldsNew P
        → IsKept env P auth Received
        → IsAlive P
        → AllSound actions
        → ((k : ℕ) (f : Frame)
            → Memᴰ (k, f) (served env eventfd socket mem fuel actions s)
            → Received k f)
        → Consistent P auth s
        → Leaves (Consistent P auth) (run_actions env eventfd socket mem fuel actions s)
    unfolding run_actions served act action_item
    run_actions-Keeps fuel [] s stream whole new kept alive sound rec v = v
    run_actions-Keeps fuel (event a ∷ rest) s stream whole new kept alive (ok, sound) rec v =
        Leaves-step (Consistent P auth) (Consistent P auth)
          (handle_event socket mem fuel eventfd a s) (run_actions env eventfd socket mem fuel rest)
          (handle_event-Keeps P auth socket mem fuel eventfd a s stream whole new ok v)
          (λ s' e v'.
            run_actions-Keeps fuel rest s' stream whole new kept alive sound
              (λ k f m. rec k f (later fuel rest s' (k, f) _ e m)) v')
    run_actions-Keeps fuel (failed_wait b ∷ rest) s stream whole new kept alive sound rec v =
        Leaves-step (Consistent P auth) (Consistent P auth)
          (handle_wait socket mem fuel eventfd (wait_failed b) s)
          (run_actions env eventfd socket mem fuel rest)
          (failed_wait-Keeps P auth socket mem fuel eventfd b s new v)
          (λ s' e v'.
            run_actions-Keeps fuel rest s' stream whole new kept alive sound
              (λ k f m. rec k f (later fuel rest s' (k, f) _ e m)) v')
    run_actions-Keeps fuel (serve fresh ∷ rest) s stream whole new kept alive sound rec v =
        let o = worker_round env eventfd fresh s in
        let items = action_item env eventfd socket mem (serve fresh) s in
        Leaves-step (Consistent P auth) (Consistent P auth) (some o)
          (run_actions env eventfd socket mem fuel rest)
          (worker_round-Consistent env eventfd P auth Received fresh s kept alive
            (λ k f e. rec k f (
              Memᴰ.append_left (items_from (served env eventfd socket mem fuel rest) (some o))
                (first_item (k, f) (fetched s) e)))
            v)
          (λ s' e v'.
            run_actions-Keeps fuel rest s' stream whole new kept alive sound
              (λ k f m. rec k f (Memᴰ.append_right items (later fuel rest s' (k, f) (some o) e m)))
              v')

  pub start_run-Consistent :
      (P : ℕ → ProtocolContext G → Type 0) (s : Server G S C)
      → IsNew s
      → Consistent P s.authenticator (start_run s)
  unfolding start_run
  start_run-Consistent P s new = record {
    w = start (new_worker s.user_handler_factory);
    has_worker = refl;
    same_keys = ap keys new.no_connections;
    contexts = tt;
    valid = subst (AllEntries IsValidEntry) (sym new.no_connections) tt;
    unlimited = new.unlimited;
    same_authenticator = refl;
    open_keys = λ k. no_keys k s.fd_info_table s.open_fds new.no_connections new.none_open;
  }

  -- Over a stream socket with whole lengths, from the start of a server without connections and
  -- without a limit on the incoming queue, after any sequence of steps of the two threads that
  -- return, where the freed memory of a closed connection still holds its descriptor and epoll
  -- takes every new one: the two tables have the same keys, which are the open descriptors; every
  -- connection has its key in its fields and a valid framer; and every context is active.
  pub run_actions-Consistent :
      (fuel : ℕ) (actions : List (Action S)) (s s' : Server G S C)
      → ReceivesStream socket
      → WholeLengths socket
      → IsNew s
      → AllSound actions
      → run_actions env eventfd socket mem fuel actions (start_run s) ≡ some (returned s')
      → Consistent IsActiveEntry s.authenticator s'
  run_actions-Consistent fuel actions s s' stream whole new sound e =
      Leaves-returned (Consistent IsActiveEntry s.authenticator) _ s' e (
        run_actions-Keeps IsActiveEntry s.authenticator (λ k f. Unit {0}) fuel actions (start_run s)
          stream whole (λ k factory g. new_active factory g)
          (λ fresh k f g c rec p.
            Holds-all (λ (c' : ProtocolContext G). is_active c' ≡ true → is_active c' ≡ true) _
              (λ c' active. active))
          (λ k c p. p) sound (λ k f m. tt) (start_run-Consistent IsActiveEntry s new))
