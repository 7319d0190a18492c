-- ===== src/Tests/Traffic.antt =====
-- A connection's bytes in the server, and connections that come and go.
use protocom.Prelude.{
  ℕ, ◌≡◌, refl, Bool, true, false, List, [], ◌∷◌, Option, none, some, Outcome, returned,
}
use protocom.Server.State.{ConnectionContext, Server, new_connection}
use protocom.Server.Clients.{accepted, accept_client, close_client, close_connection}
use protocom.Server.Loop.{Wait, wait_failed, events, handle_data_in, start_run}
use protocom.Server.EventLoop.{MakesRounds, run_loop-MakesRounds}
use protocom.Tests.Samples.{env}
use protocom.Server.DataIn.{IsFed, handle_data_in-IsFed}
use protocom.Server.Closing.{close_connection-close_client, close_client-accept_client}
use protocom.Tests.Wires.{Wires, wires, wires_receive, wires-WholeLengths}
use protocom.Tests.Servers.{
  memory, counter, new_server, login_bytes, result_of, arrival, accepting_arrival,
}
use protocom.Tests.Connections.{logged_in_worker, no_bytes, queued}

-- The client 7, whose bytes have come.
abbrev talking : ConnectionContext Wires
talking = new_connection 7 (record { incoming = login_bytes; outgoing = [] })

abbrev hearing : Server ℕ Wires ℕ
hearing = record new_server {
  worker = some logged_in_worker;
  fd_info_table = (7, talking) ∷ [];
  open_fds = 7 ∷ [];
  watched = 7 ∷ [];
}

abbrev heard : Option (Outcome (Server ℕ Wires ℕ))
heard = handle_data_in wires memory 300 7 7 talking hearing

hears : heard ≡ some (returned (result_of new_server heard))
unfolding handle_data_in protocom.Framer.read_all protocom.Framer.try_read protocom.Framer.new
    protocom.Framer.after_recv protocom.Frame.valid_header protocom.Prelude.sub_u32
    protocom.Prelude.ntohs protocom.Prelude.store_len protocom.Frame.wire_all
    protocom.WorkQueue.push_item protocom.Prelude.Tables.replace
hears = refl

handle_data_in-IsFed_example :
    IsFed wires wires_receive memory 300 7 talking hearing (result_of new_server heard)
unfolding protocom.Framer.new protocom.Prelude.Tables.lookup
handle_data_in-IsFed_example =
    handle_data_in-IsFed wires wires_receive memory 300 7 7 talking hearing
      (result_of new_server heard) wires-WholeLengths (refl, refl, refl) refl refl hears

close_connection-close_client_example :
    close_connection 7 (new_connection 7 no_bytes) (queued []) ≡ close_client 7 (queued [])
unfolding protocom.Prelude.Tables.lookup
close_connection-close_client_example =
    close_connection-close_client 7 (new_connection 7 no_bytes) (queued []) logged_in_worker refl
      refl refl

close_client-accept_client_example :
    close_client 8 (accept_client (accepted 8 no_bytes true) (queued [])) ≡ queued []
unfolding protocom.Prelude.Tables.has protocom.Server.Clients.is_open
close_client-accept_client_example =
    close_client-accept_client 8 no_bytes (queued []) logged_in_worker refl refl refl refl refl

-- The client is accepted, and its bytes come; then epoll_wait fails.
abbrev waits : List (Wait Wires)
waits =
    events (accepting_arrival login_bytes ∷ arrival 7 ∷ [])
    ∷ wait_failed false
    ∷ events (arrival 7 ∷ [])
    ∷ []

run_loop-MakesRounds_example : MakesRounds env counter wires memory 300 waits (start_run new_server)
run_loop-MakesRounds_example =
    run_loop-MakesRounds env counter wires memory 300 waits (start_run new_server)
