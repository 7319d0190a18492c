-- ===== src/Tests/Servers.antt =====
-- A server with one client, which logs in.
use protocom.Prelude.{
  ℕ, zero, suc, ◌+◌, ◌≡◌, refl, Bool, true, false, List, [], ◌∷◌, ◌++◌, Option, none, some, arith,
  Outcome, returned, threw,
}
use mathlib.Core.List.{Memᴰ}
use protocom.Prelude.Tables.{lookup}
use protocom.Frame.{Frame, packet, wire_all}
use protocom.Kex
use protocom.Kex.{Kex}
use protocom.WorkQueue
use protocom.Deframer.{Memory}
use protocom.Protocol.State.{test_user_handler_factory}
use protocom.Protocol.Context.{ProtocolContext}
use protocom.Protocol.Context
use protocom.Protocol.Context.Gate.{IsGuardedState}
use protocom.Server.State.{EventFd, Worker, Server, new_worker}
use protocom.Server.Worker.{start}
use protocom.Server.Clients.{accepted, accept_aborted}
use protocom.Server.Loop.{EpollEvent, Arrival, start_run}
use protocom.Server.Runs.{Action, event, serve, run_actions, served}
use protocom.Server.Consistency.{Consistent, IsActiveEntry}
use protocom.Server.Interleavings.{run_actions-Consistent, AllSound}
use protocom.Server.Events.{IsSound}
use protocom.Server.Guarded.{run_actions-Guarded}
use protocom.Tests.Samples.{env}
use protocom.Tests.Wires.{Wires, wires, wires_receive, wires-WholeLengths}
use protocom.Tests.Sessions.{kex_frame, auth_frame, supply_frame, users, fresh}

-- An eventfd that is its counter.
abbrev pub counter_read : ℕ → Option ℕ × ℕ
counter_read zero = (none, 0)
counter_read (suc n) = (some 8, n)

abbrev pub counter : EventFd ℕ
counter = record { write = λ n. (true, suc n); read = counter_read }

abbrev pub memory : Memory
memory = record { padding = 0; behind = [] }

-- The server's socket is 3, its eventfd 4.
abbrev pub new_server : Server ℕ Wires ℕ
new_server = record {
  worker = none;
  authenticator = some users;
  wq_in = WorkQueue.new;
  wq_out = WorkQueue.new;
  fd = some 3;
  event_fd_out = 4;
  info_string = [];
  fd_info_table = [];
  user_handler_factory = some test_user_handler_factory;
  running = true;
  events = 0;
  entropy = 0;
  open_fds = [];
  watched = [];
}

abbrev pub on : ℕ → EpollEvent
on k = record { data_fd = k; err = false; hup = false; out = true; inp = true }

-- A client on the descriptor 7, whose bytes have come.
abbrev pub accepting_arrival : List ℕ → Arrival Wires
accepting_arrival bs = record {
  event = on 3;
  accept = accepted 7 (record { incoming = bs; outgoing = [] }) true;
  freed = 3;
}

abbrev pub arrival : ℕ → Arrival Wires
arrival k = record { event = on k; accept = accept_aborted; freed = k }

abbrev pub accepting : List ℕ → Action Wires
accepting bs = event (accepting_arrival bs)

abbrev pub coming : ℕ → Action Wires
coming k = event (arrival k)

abbrev pub login_bytes : List ℕ
login_bytes = wire_all (packet kex_frame ∷ packet auth_frame ∷ packet supply_frame ∷ [])

abbrev pub login : List (Action Wires)
login =
    accepting login_bytes
    ∷ coming 7
    ∷ serve fresh
    ∷ serve fresh
    ∷ coming 4
    ∷ serve fresh
    ∷ coming 4
    ∷ coming 4
    ∷ []

abbrev pub result_of : {A : Type 0} → A → Option (Outcome A) → A
result_of a none = a
result_of a (some threw) = a
result_of a (some (returned b)) = b

abbrev pub after_login : Option (Outcome (Server ℕ Wires ℕ))
after_login = run_actions env counter wires memory 300 login (start_run new_server)

-- What the session leaves: its worker, and the context of the client.
abbrev login_worker : Option (Worker ℕ)
login_worker = (result_of new_server after_login).worker

abbrev pub or_else : {A : Type 0} → A → Option A → A
or_else a none = a
or_else a (some b) = b

abbrev the_worker : Worker ℕ
the_worker = or_else (new_worker none) login_worker

abbrev the_context : ProtocolContext ℕ
the_context = or_else (Context.new none none 0) (lookup 7 the_worker.handler_table)

pub logs_in :
    (after_login ≡ some (returned (result_of new_server after_login)))
    × (login_worker ≡ some the_worker)
    × (lookup 7 the_worker.handler_table ≡ some the_context)
unfolding run_actions protocom.Server.Runs.act protocom.Server.Loop.handle_event
    protocom.Server.Clients.accept_client protocom.Server.Loop.store_connection
    protocom.Server.Loop.start_run protocom.Framer.read_all protocom.Framer.try_read
    protocom.Framer.new protocom.Framer.after_recv protocom.Deframer.new protocom.Deframer.write_all
    protocom.Deframer.try_write protocom.Deframer.set_sent_item protocom.Server.Serve.worker_round
    protocom.Server.Worker.write_all_to_sink WorkQueue.push_item
    protocom.Protocol.Context.handle_frame protocom.Protocol.Context.is_active
    protocom.Protocol.Connected.handle_frame protocom.Protocol.Authentication.handle_frame
    protocom.Coder.decode protocom.Coder.encode Kex.load_other_key_arr Kex.get_pub_key Kex.init
    Kex.agree Kex.get_key256 protocom.Authenticator.authenticate protocom.Authenticator.find lookup
    wire_all protocom.Frame.valid_header protocom.Prelude.sub_u32 protocom.Prelude.ntohs
    protocom.Prelude.store_len protocom.Prelude.Tables.replace protocom.Deframer.bytes_at_len
    protocom.Prelude.len_bytes protocom.Deframer.bytes_at_msg
logs_in = (refl, refl, refl)

ok : IsSound (accepting_arrival login_bytes)
ok = record { intact = refl; registered = refl }

came : (k : ℕ) → IsSound (arrival k)
came k = record { intact = refl; registered = tt }

all_sound : AllSound login
all_sound = (ok, (came 7, (came 4, (came 4, (came 4, tt)))))

run_actions-Consistent_example :
    Consistent IsActiveEntry (some users) (result_of new_server after_login)
run_actions-Consistent_example =
    run_actions-Consistent env counter wires memory 300 login new_server
      (result_of new_server after_login) wires_receive wires-WholeLengths
      (record { no_connections = refl; none_open = refl; unlimited = refl }) all_sound logs_in.0

-- Before the client comes, an event finds nothing to send.
idles :
    run_actions env counter wires memory 300 (coming 4 ∷ []) (start_run new_server)
    ≡ some (returned (start_run new_server))
unfolding run_actions protocom.Server.Runs.act protocom.Server.Loop.handle_event
    protocom.Server.Loop.start_run
idles = refl

run_actions-Guarded_example :
    IsGuardedState env
      (λ f. Memᴰ (7, f) (served env counter wires memory 300 login (start_run new_server)))
      (some users)
      the_context.state
unfolding start_run lookup
run_actions-Guarded_example =
    run_actions-Guarded env counter wires memory 300 (coming 4 ∷ []) login new_server
      (start_run new_server) (result_of new_server after_login)
      (start (new_worker (some test_user_handler_factory))) the_worker 7 the_context wires_receive
      wires-WholeLengths (record { no_connections = refl; none_open = refl; unlimited = refl })
      (came 4, tt) all_sound idles refl refl logs_in.0 logs_in.1 logs_in.2
