-- ===== src/Server/Ends.antt =====
-- The rounds of ServerWorker::run and the events of Server::run, one after the other to their end.
use protocom.Prelude.{
  ℕ, ◌≡◌, ◌≤◌, refl, sym, subst, Bool, false, List, [], ◌∷◌, some, if-both, Outcome, returned,
  Leaves-returned, Holds-returned,
}
use mathlib.Core.Option.{some_inj}
use protocom.Prelude.Tables.{AllEntries}
use protocom.Socket.{Socket, ReceivesStream, SendsStream}
use protocom.Framer.Steps.{WholeLengths}
use protocom.Deframer.{Memory}
use protocom.Deframer.Refines.{WholeSends}
use protocom.Deframer.Apart.{SendsApart}
use protocom.Protocol.State.{Env}
use protocom.Protocol.Context.Written.{Fills}
use protocom.Server.State.{EventFd, Server}
use protocom.Server.Loop.{wait_failed, start_run, handle_event, handle_wait}
use protocom.Server.Serve.{worker_round}
use protocom.Server.Runs.{Action, event, failed_wait, serve, act, run_actions}
use protocom.Server.Interleavings.{IsNew}
use protocom.Server.Servable.{Ends, Ends-after, AllWhole, IsServable, IsShort}
use protocom.Server.Ending.{IsServed, handle_event-Ends}
use protocom.Server.Lasting.Events.{handle_event-Served}
use protocom.Server.Lasting.Serving.{worker_round-Served}

module _ {G S C : Type 0} (env : Env G) (eventfd : EventFd C) (socket : Socket S) (mem : Memory)
    (receives : ReceivesStream socket) (sends : SendsStream socket) (fuel : ℕ)
    (lengths : WholeLengths socket) (whole : WholeSends socket) (apart : SendsApart socket receives)
    (connected_fills : Fills env.connected_response) (auth_fills : Fills env.auth_response)
    (user_fills : Fills env.user_response) where
  abbrev Served : Server G S C → Type 0
  Served = IsServed socket mem receives sends fuel lengths whole apart

  failed_wait-Ends :
      (b : Bool) (s : Server G S C) → Ends (handle_wait socket mem fuel eventfd (wait_failed b) s)
  unfolding handle_wait
  failed_wait-Ends b s = (_, refl)

  failed_wait-Served :
      (b : Bool) (s s' : Server G S C)
      → Served s
      → handle_wait socket mem fuel eventfd (wait_failed b) s ≡ some (returned s')
      → Served s'
  unfolding handle_wait
  failed_wait-Served b s s' v e = Leaves-returned Served _ s' e (
      if-both Served b s (record s { running = false }) v
        (record {
          servable = v.servable;
          whole_out = v.whole_out;
          unlimited = v.unlimited;
          enough = v.enough;
        }))

  -- The connections that are accepted in a run are short.
  abbrev pub AllShort : List (Action S) → Type 0
  AllShort [] = Unit {0}
  AllShort (event a ∷ rest) = IsShort socket mem receives sends fuel a.accept × AllShort rest
  AllShort (failed_wait b ∷ rest) = AllShort rest
  AllShort (serve fresh ∷ rest) = AllShort rest

  -- Over a stream socket with whole lengths, whose two directions are apart, and where Protocol
  -- Buffers fills the buffer of each response: from a server as IsServed says, every sequence of
  -- steps of the two threads, whose accepted connections have less to come than the fuel, comes to
  -- an end.
  pub run_actions-Ends :
      (actions : List (Action S)) (s : Server G S C)
      → AllShort actions
      → Served s
      → (o : Outcome (Server G S C)) × (run_actions env eventfd socket mem fuel actions s ≡ some o)
  unfolding run_actions act
  run_actions-Ends [] s short v = (_, refl)
  run_actions-Ends (event a ∷ rest) s (new, short) v =
      Ends-after (handle_event socket mem fuel eventfd a s) _
        (handle_event-Ends socket mem receives sends fuel lengths whole apart eventfd a s v)
        (λ s' e. run_actions-Ends rest s' short (
          Leaves-returned Served _ s' e (
            handle_event-Served socket mem receives sends fuel lengths whole apart eventfd a s new
              v)))
  run_actions-Ends (failed_wait b ∷ rest) s short v =
      Ends-after (handle_wait socket mem fuel eventfd (wait_failed b) s) _ (failed_wait-Ends b s)
        (λ s' e. run_actions-Ends rest s' short (failed_wait-Served b s s' v e))
  run_actions-Ends (serve fresh ∷ rest) s short v =
      Ends-after (some (worker_round env eventfd fresh s)) _ (_, refl)
        (λ s' e. run_actions-Ends rest s' short (
          Holds-returned Served _ s' (some_inj.0 e) (
            worker_round-Served env eventfd socket mem receives sends fuel lengths whole apart
              connected_fills auth_fills user_fills fresh s v)))

  -- Over a stream socket with whole lengths, whose two directions are apart, and where Protocol
  -- Buffers fills the buffer of each response: from the start of a server that has no connection,
  -- no limit on the incoming queue and nothing in the outgoing one, every sequence of steps of the
  -- two threads comes to an end, on a fuel of at least 65540 that is more than the bytes to come on
  -- each connection that is accepted in it.
  pub start_run-Ends :
      (actions : List (Action S)) (s : Server G S C)
      → IsNew s
      → s.wq_out.queue ≡ []
      → 65540 ≤ fuel
      → AllShort actions
      → (o : Outcome (Server G S C)) × (run_actions env eventfd socket mem fuel actions
            (start_run s)
          ≡ some o)
  unfolding start_run
  start_run-Ends actions s new nothing enough short =
      run_actions-Ends actions (start_run s) short (record {
        servable =
            subst (AllEntries (IsServable socket mem receives sends fuel)) (sym new.no_connections)
              tt;
        whole_out = subst AllWhole (sym nothing) tt;
        unlimited = new.unlimited;
        enough = enough;
      })
