-- ===== src/Main/Serving.antt =====
-- main() of main.cpp behind the self-tests: the server is made, bound and run, and cleanup deletes
-- it. What the worker does meanwhile is in Server/Runs.
use protocom.Prelude.{ℕ, Bool, List, Option, none, some, Outcome, returned, threw, after}
use protocom.Protocol.State.{test_user_handler_factory}
use protocom.Socket.{Socket}
use protocom.Deframer.{Memory}
use protocom.Server.State
use protocom.Server.State.{EventFd, Server, bind_sock, set_user_handler_factory}
use protocom.Server.Loop.{Wait, run}
use protocom.Server.Serve.{destroy_server}

-- The results of socket, bind, listen and the two calls of epoll_ctl.
pub record Bound : Type 0 where
  pub socket_fd : Option ℕ
  pub bound : Bool
  pub listening : Bool
  pub added : Bool
  pub notified : Bool

module _ {G S C : Type 0} where
  -- The server as main() runs it. The result of bindSock is not looked at.
  unfoldable pub set_up : Bound → Server G S C → Server G S C
  unfolding bind_sock
  set_up b s =
      (bind_sock b.socket_fd b.bound b.listening b.added b.notified
        (set_user_handler_factory (some test_user_handler_factory) s)).1

-- The delete of the server, less the exit.
unfoldable pub cleanup : {G S C : Type 0} → Bool → ℕ → Server G S C → Option (Server G S C × List ℕ)
unfolding destroy_server
cleanup joins epoll_fd s = destroy_server joins epoll_fd s

abbrev pub exits : {A : Type 0} → Option A → Option (Outcome A)
exits none = none
exits (some a) = some (returned a)

module _ {G S C : Type 0} (socket : Socket S) (mem : Memory) (fuel : ℕ) (eventfd : EventFd C) where
  -- The constructor may throw. The result is what cleanup leaves, whose exit status is 0; none is
  -- also a cleanup that blocks.
  unfoldable pub serve :
      Bool
      → List ℕ
      → ℕ
      → ℕ
      → C
      → G
      → Bound
      → List (Wait S)
      → Option (Outcome (Server G S C × List ℕ))
  unfolding set_up run cleanup
  serve joins name epoll_fd event_fd c g b ws = elim (State.new name epoll_fd event_fd c g) [
    | none ↦ some threw
    | some s ↦
        after (run socket mem fuel eventfd ws (set_up b s)) (λ t. exits (cleanup joins epoll_fd t))
  ]
