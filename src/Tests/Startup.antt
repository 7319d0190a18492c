-- ===== src/Tests/Startup.antt =====
-- main() of main.cpp where the port is taken.
use protocom.Prelude.{ℕ, ◌≡◌, refl, true, false, [], ◌∷◌, ◌++◌, none, some, returned}
use protocom.Server.State.{Server}
use protocom.Server.Loop.{events}
use protocom.Server.Serve.{fd_list}
use protocom.Main.Serving.{Bound, serve}
use protocom.Main.Bound.{serve-unbound}
use protocom.Tests.Wires.{Wires, wires}
use protocom.Tests.Servers.{memory, counter, login_bytes, accepting_arrival}

abbrev taken_port : Bound
taken_port = record {
  socket_fd = some 3;
  bound = false;
  listening = true;
  added = true;
  notified = true;
}

serve-unbound_example :
    (t : Server ℕ Wires ℕ) × (serve wires memory 300 counter true [] 5 4 0 0 taken_port
        (events (accepting_arrival login_bytes ∷ []) ∷ [])
      ≡ some (returned (t, fd_list (some 3) ++ 5 ∷ 4 ∷ [])))
    × (t.worker ≡ none)
    × (t.fd_info_table ≡ [])
    × (t.wq_in.fetch_cancelled ≡ true)
    × (serve {G = ℕ} wires memory 300 counter false [] 5 4 0 0 taken_port
          (events (accepting_arrival login_bytes ∷ []) ∷ [])
        ≡ none)
unfolding protocom.Server.State.bind_sock
serve-unbound_example =
    serve-unbound wires memory 300 counter [] 4 3 0 0 taken_port
      (events (accepting_arrival login_bytes ∷ []) ∷ []) refl
