-- ===== src/Server/Runs.antt =====
-- The two threads of Server.cpp and ServerWorker.cpp together, as a sequence of their steps.
use protocom.Prelude.{
  ℕ, Bool, List, [], ◌∷◌, ◌++◌, Option, none, some, Outcome, returned, threw, after,
}
use protocom.WorkQueue.{WorkItem}
use protocom.Kex.{Kex}
use protocom.Socket.{Socket}
use protocom.Deframer.{Memory}
use protocom.Protocol.State.{Env}
use protocom.Server.State.{EventFd, Server}
use protocom.Server.Loop.{Arrival, wait_failed, handle_event, handle_wait}
use protocom.Server.Serve.{worker_round, fetched}

-- The event loop's thread handles an event, or comes back from a failed epoll_wait, with whether it
-- was interrupted; or the worker's thread serves an item.
pub data Action (S : Type 0) : Type 0 where
  event : Arrival S → Action S
  failed_wait : Bool → Action S
  serve : Kex → Action S

-- The items behind a step, if it came to an end.
abbrev pub items_from : {T : Type 0} → (T → List WorkItem) → Option (Outcome T) → List WorkItem
items_from f none = []
items_from f (some threw) = []
items_from f (some (returned s)) = f s

module _ {G S C : Type 0} (env : Env G) (eventfd : EventFd C) (socket : Socket S)
    (mem : Memory) where
  unfoldable pub act : ℕ → Action S → Server G S C → Option (Outcome (Server G S C))
  act fuel (event a) s = handle_event socket mem fuel eventfd a s
  act fuel (failed_wait b) s = handle_wait socket mem fuel eventfd (wait_failed b) s
  act fuel (serve fresh) s = some (worker_round env eventfd fresh s)

  -- An interleaving of the threads.
  unfoldable pub run_actions : ℕ → List (Action S) → Server G S C → Option (Outcome (Server G S C))
  run_actions fuel [] s = some (returned s)
  run_actions fuel (a ∷ rest) s = after (act fuel a s) (run_actions fuel rest)

  -- The items that the worker serves in a run, oldest first.
  unfoldable pub action_item : Action S → Server G S C → List WorkItem
  unfolding fetched
  action_item (event a) s = []
  action_item (failed_wait b) s = []
  action_item (serve fresh) s = elim (fetched s) [ none ↦ [] | some itm ↦ itm ∷ [] ]

  unfoldable pub served : ℕ → List (Action S) → Server G S C → List WorkItem
  unfolding action_item act
  served fuel [] s = []
  served fuel (a ∷ rest) s = action_item a s ++ items_from (served fuel rest) (act fuel a s)
