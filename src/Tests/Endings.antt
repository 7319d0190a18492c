-- ===== src/Tests/Endings.antt =====
-- What a descriptor that is taken again finds, a frame that is served, and the end of the worker.
use protocom.Prelude.{
  ℕ, zero, suc, ◌+◌, ◌≡◌, ◌≢◌, inl, inr, refl, ap, sym, ◌∙◌, Bool, true, false, List, [], ◌∷◌, ◌++◌,
  subst, Option, none, some, arith, not, take, length, ◌<◌, Outcome, returned, threw,
}
use mathlib.Core.Option.{some_inj}
use protocom.Prelude.Tables.{lookup}
use protocom.Frame.{packet, wire}
use protocom.WorkQueue
use protocom.WorkQueue.{WorkItem, cancel_fetch}
use protocom.Protocol.Context.{ProtocolContext}
use protocom.Server.State.{ConnectionContext, Worker, Server, new_connection}
use protocom.Server.Loop.{handle_data_out}
use protocom.Server.Serve.{serve_item}
use protocom.Server.Stale.{reopen, reopen-stale_context, reopen-stale_output}
use protocom.Server.Separate.{IsSeparate, serve_item-Separate}
use protocom.Server.Stopping.{
  WorkerPc, at_fetch, in_wait, at_end, StopPc, at_flag, at_join, has_joined, Threads, Thread,
  worker, stopper, step, run_threads, OnlyRun, stop-deadlock, stop-waiting,
}
use protocom.Tests.Samples.{env}
use protocom.Tests.Wires.{Wires, wires, wires_send, wires-WholeSends}
use protocom.Tests.Sessions.{logged_in, fresh, supply_frame}
use protocom.Tests.Servers.{counter, or_else, memory, new_server, result_of}
use protocom.Tests.Connections.{hello, no_bytes, logged_in_worker, queued}

-- The descriptor 7 is closed and taken again, with a frame for it in the queue.
abbrev next_client : ℕ → Server ℕ Wires ℕ
next_client freed = reopen freed (new_connection 7 no_bytes) no_bytes (queued ((7, hello) ∷ []))

abbrev greeted : Server ℕ Wires ℕ
greeted = result_of new_server (handle_data_out wires memory 9 (next_client 7))

abbrev greeted_connection : ConnectionContext Wires
greeted_connection = or_else (new_connection 7 no_bytes) (lookup 7 greeted.fd_info_table)

greets :
    (handle_data_out wires memory 9 (next_client 7) ≡ some (returned greeted))
    × (lookup 7 greeted.fd_info_table ≡ some greeted_connection)
    × (greeted_connection.tx_ready ≡ true)
unfolding handle_data_out protocom.Deframer.set_sent_item protocom.Deframer.new
    protocom.Deframer.write_all protocom.Deframer.try_write protocom.Deframer.bytes_at_len
    protocom.Prelude.len_bytes protocom.Prelude.sub_u32 protocom.Deframer.bytes_at_msg
    protocom.Prelude.ntohs lookup protocom.Prelude.Tables.replace
    protocom.Server.Clients.accept_client protocom.Server.Clients.close_connection
greets = (refl, refl, refl)

reopen-stale_output_example : greeted_connection.sock.outgoing ≡ [] ++ wire (packet hello)
reopen-stale_output_example =
    reopen-stale_output wires memory wires_send 9 7 (new_connection 7 no_bytes) greeted_connection
      no_bytes (queued ((7, hello) ∷ [])) greeted logged_in_worker hello [] wires-WholeSends refl
      refl refl (omega arith) (greets.0) (greets.1) (greets.2)

-- The freed memory holds 0.
reopen-stale_context_example :
    (w' : Worker ℕ) × ((next_client 0).worker ≡ some w')
    × (lookup 7 w'.handler_table ≡ some logged_in)
    × (lookup 7 (next_client 0).fd_info_table ≡ some (new_connection 7 no_bytes))
unfolding lookup
reopen-stale_context_example =
    reopen-stale_context 0 (new_connection 7 no_bytes) no_bytes (queued ((7, hello) ∷ []))
      logged_in_worker logged_in (λ e. absurd (omega arith)) refl refl

-- A frame that the logged in client sends is served.
abbrev or_else_returned : {A : Type 0} → A → Outcome A → A
or_else_returned a threw = a
or_else_returned a (returned b) = b

abbrev asked : Server ℕ Wires ℕ
asked = or_else_returned new_server (serve_item env counter fresh (7, supply_frame) (queued []))

serves : serve_item env counter fresh (7, supply_frame) (queued []) ≡ returned asked
unfolding serve_item protocom.Protocol.Context.handle_frame protocom.Protocol.User.handle_frame
    protocom.Coder.decode protocom.Coder.encode
serves = refl

serve_item-Separate_example : IsSeparate 7 (queued []) logged_in_worker asked
unfolding lookup
serve_item-Separate_example =
    serve_item-Separate env counter fresh 7 supply_frame (queued []) asked logged_in_worker refl
      refl (λ c e. sym (ap (λ (x : ConnectionContext Wires). x.fd) (some_inj.0 e))) serves

-- A worker that has passed its test, or waits, when the server stops.
abbrev stopping : WorkerPc → StopPc → Bool → Threads
stopping w p b = record { wq = WorkQueue.new; should_stop = b; worker = w; stopper = p }

stop-deadlock_example :
    (t' : Threads) × (run_threads
        (stopper ∷ stopper ∷ worker ∷ [])
        (stopping at_fetch at_flag false)
      ≡ some t')
    × (t'.worker ≡ in_wait)
    × (t'.stopper ≡ at_join)
    × (t'.should_stop ≡ true)
    × ((x : Thread) → step x t' ≡ none)
stop-deadlock_example = stop-deadlock (stopping at_fetch at_flag false) refl refl refl

stop-waiting_example :
    OnlyRun
      (stopper ∷ stopper ∷ worker ∷ worker ∷ stopper ∷ [])
      (stopping in_wait at_flag false)
      (record (stopping at_end has_joined true) { wq = cancel_fetch WorkQueue.new })
stop-waiting_example = stop-waiting WorkQueue.new false refl
