-- ===== src/Main/Bound.antt =====
-- What main() of main.cpp makes of the result of bindSock.
use protocom.Prelude.{
  ℕ, suc, ◌≡◌, refl, ap, ◌∙◌, Bool, true, false, List, [], ◌∷◌, ◌++◌, Option, none, some, Outcome,
  returned, after, if◌then◌else◌,
}
use protocom.Protocol.State.{test_user_handler_factory}
use protocom.Socket.{Socket}
use protocom.Deframer.{Memory}
use protocom.Server.State
use protocom.Server.State.{EventFd, Server, initial, bind_sock, set_user_handler_factory}
use protocom.Server.Loop.{Wait, run_loop, start_run, run}
use protocom.Server.Serve.{fd_list}
use protocom.Main.Serving.{Bound, set_up, cleanup, exits, serve}

module _ {G S C : Type 0} (socket : Socket S) (mem : Memory) (fuel : ℕ) (eventfd : EventFd C) where
  run_loop-stopped :
      (ws : List (Wait S)) (s : Server G S C)
      → s.running ≡ false
      → run_loop socket mem fuel eventfd ws s ≡ some (returned s)
  unfolding run_loop
  run_loop-stopped [] s stopped = refl
  run_loop-stopped (w ∷ ws) s stopped = rw stopped refl

-- bindSock by its result: it stores the descriptor, and sets running if the result is true.
bind_sock-eq :
    {G S C : Type 0} (o : Option ℕ) (bound listening added notified : Bool) (s : Server G S C)
    → let ok = (bind_sock o bound listening added notified s).0 in
      bind_sock o bound listening added notified s
      ≡ (ok, record s { fd = o; running = if ok then true else s.running })
unfolding bind_sock
bind_sock-eq none bound listening added notified s = refl
bind_sock-eq (some n) false listening added notified s = refl
bind_sock-eq (some n) true false added notified s = refl
bind_sock-eq (some n) true true false notified s = refl
bind_sock-eq (some n) true true true false s = refl
bind_sock-eq (some n) true true true true s = refl

module _ {G S C : Type 0} where
  -- The result of bindSock in main().
  abbrev pub bind_result : Bound → Server G S C → Bool
  bind_result b s =
      (bind_sock b.socket_fd b.bound b.listening b.added b.notified
        (set_user_handler_factory (some test_user_handler_factory) s)).0

  set_up-eq :
      (b : Bound) (s : Server G S C)
      → set_up b s ≡ record s {
        user_handler_factory = some test_user_handler_factory;
        fd = b.socket_fd;
        running = if bind_result b s then true else s.running;
      }
  unfolding set_up
  set_up-eq b s =
      ap (λ (x : Bool × Server G S C). x.1)
        (bind_sock-eq b.socket_fd b.bound b.listening b.added b.notified
          (set_user_handler_factory (some test_user_handler_factory) s))

module _ {G S C : Type 0} (socket : Socket S) (mem : Memory) (fuel : ℕ) (eventfd : EventFd C) where
  -- Where bindSock gives false in main(): whatever epoll_wait would give, the loop of run makes no
  -- round, so that no client is accepted, and the server is deleted at once. If the worker's thread,
  -- which run started, comes to its end, the worker is gone and its fetch cancelled, and the
  -- descriptors that are closed are those of the socket, if it was opened, of epoll and of the
  -- eventfd. If it does not, main() does not come to its end.
  pub serve-unbound :
      (name : List ℕ) (epoll_fd event_fd : ℕ) (c : C) (g : G) (b : Bound) (ws : List (Wait S))
      → bind_result b (initial {G = G} {S = S} name (suc event_fd) c g) ≡ false
      → (t : Server G S C) × (serve socket mem fuel eventfd true name
            (suc epoll_fd)
            (suc event_fd)
            c
            g
            b
            ws
          ≡ some (returned (t, fd_list b.socket_fd ++ suc epoll_fd ∷ suc event_fd ∷ [])))
        × (t.worker ≡ none)
        × (t.fd_info_table ≡ [])
        × (t.wq_in.fetch_cancelled ≡ true)
        × (serve {G = G} socket mem fuel eventfd false name (suc epoll_fd) (suc event_fd) c g b ws
            ≡ none)
  unfolding serve State.new run start_run cleanup
  serve-unbound name epoll_fd event_fd c g b ws failed =
      (_, at_once true, refl, refl, refl, at_once false)
    where
      s₁ : Server G S C
      s₁ = record (initial name (suc event_fd) c g) {
        user_handler_factory = some test_user_handler_factory;
        fd = b.socket_fd;
      }

      ready : set_up b (initial name (suc event_fd) c g) ≡ s₁
      ready =
          set_up-eq b (initial name (suc event_fd) c g)
          ∙ ap (λ (x : Bool). record s₁ { running = if x then true else false }) failed

      at_once :
          (joins : Bool)
          → serve socket mem fuel eventfd joins name (suc epoll_fd) (suc event_fd) c g b ws
            ≡ exits (cleanup joins (suc epoll_fd) (start_run s₁))
      at_once joins =
          ap
            (λ (x : Server G S C).
              after (run socket mem fuel eventfd ws x)
                (λ t. exits (cleanup joins (suc epoll_fd) t)))
            ready
          ∙ ap
              (λ (m : Option (Outcome (Server G S C))).
                after m (λ t. exits (cleanup joins (suc epoll_fd) t)))
              (run_loop-stopped socket mem fuel eventfd ws (start_run s₁) refl)
