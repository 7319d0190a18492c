-- ===== src/Tests/Finishing.antt =====
-- The session of a client that logs in comes to its end, on the fuel of the largest frame.
use protocom.Prelude.{ℕ, ◌≡◌, ◌<◌, refl, List, none, some, arith, length, Option, Outcome, sym, ap}
use mathlib.Core.Option.{some_inj}
use protocom.Server.State.{Server}
use protocom.Server.Loop.{start_run}
use protocom.Server.Runs.{run_actions}
use protocom.Server.Ends.{start_run-Ends}
use protocom.Tests.Samples.{env}
use protocom.Tests.Wires.{
  Wires, wires, wires_receive, wires_send, wires-WholeLengths, wires-WholeSends,
}
use protocom.Tests.Servers.{counter, memory, new_server, login, login_bytes}

few_bytes : length login_bytes ≡ 109
unfolding protocom.Frame.wire_all protocom.Prelude.len_bytes
few_bytes = refl

start_run-Ends_example :
    (o : Outcome (Server ℕ Wires ℕ)) × (run_actions env counter wires memory 65540 login
        (start_run new_server)
      ≡ some o)
start_run-Ends_example =
    start_run-Ends env counter wires memory wires_receive wires_send 65540 wires-WholeLengths
      wires-WholeSends (λ s bs. refl) (λ m bs e. ap length (sym (some_inj.0 e)))
      (λ m bs e. ap length (sym (some_inj.0 e))) (λ m bs e. ap length (sym (some_inj.0 e))) login
      new_server (record { no_connections = refl; none_open = refl; unlimited = refl }) refl
      (omega arith) (omega (arith, few_bytes), (tt, (tt, (tt, (tt, tt)))))
