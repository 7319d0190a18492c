-- ===== src/Tests/Rejections.antt =====
-- A client at its last attempt.
use protocom.Prelude.{ℕ, ◌≡◌, refl, [], ◌∷◌, none, some, returned}
use protocom.Prelude.Tables.{lookup}
use protocom.Frame
use protocom.Frame.{Frame}
use protocom.Protocol.State.{authentication}
use protocom.Protocol.Context.{ProtocolContext, handle_frame, is_active}
use protocom.Server.State.{Server, new_connection, new_worker}
use protocom.Server.Worker.{load, start}
use protocom.Server.Loop.{handle_data_out}
use protocom.Server.Serve.{serve_item}
use protocom.Server.LastAnswers.{IsTalking, serve_item-drops_last}
use protocom.Tests.Samples.{env}
use protocom.Tests.Wires.{Wires, wires}
use protocom.Tests.Sessions.{users, fresh, refused_frame, attempting, open_ctx, answered}
use protocom.Tests.Servers.{counter, memory, new_server}
use protocom.Tests.Connections.{no_bytes}

abbrev last_chance : ProtocolContext ℕ
last_chance = record { ctx = open_ctx; state = some (authentication (attempting 0)) }

abbrev attempted : Server ℕ Wires ℕ
attempted = record new_server {
  worker = some (record (start (new_worker none)) { handler_table = (7, last_chance) ∷ [] });
  fd_info_table = (7, new_connection 7 no_bytes) ∷ [];
  open_fds = 7 ∷ [];
  watched = 7 ∷ [];
}

is_talking : IsTalking env counter wires memory 9 7 attempted
unfolding lookup is_active
is_talking = record {
  w = record (start (new_worker none)) { handler_table = (7, last_chance) ∷ [] };
  c = last_chance;
  connection = new_connection 7 no_bytes;
  has_worker = refl;
  found = refl;
  active = refl;
  connected = refl;
  same_key = refl;
  nothing_out = refl;
  unlimited = refl;
}

-- AUTH_REJECT, and no state.
abbrev rejected : ProtocolContext ℕ
rejected = record {
  ctx = record open_ctx { entropy = 1; written = answered 0 2 ∷ [] };
  state = none;
}

rejects : handle_frame env fresh refused_frame (load (some users) 0 last_chance) ≡ returned rejected
unfolding handle_frame protocom.Protocol.Authentication.handle_frame protocom.Coder.decode
    protocom.Coder.encode protocom.Authenticator.authenticate protocom.Authenticator.find
rejects = refl

serve_item-drops_last_example :
    (s₁ : Server ℕ Wires ℕ) × (s₂ : Server ℕ Wires ℕ) × (serve_item env counter fresh
        (7, refused_frame)
        attempted
      ≡ returned s₁)
    × (s₁.wq_out.queue ≡ (7, Frame.copy (answered 0 2)) ∷ [])
    × (lookup 7 s₁.fd_info_table ≡ none)
    × (handle_data_out wires memory 9 s₁ ≡ some (returned s₂))
    × (s₂.wq_out.queue ≡ [])
    × (s₂.fd_info_table ≡ s₁.fd_info_table)
unfolding is_talking is_active
serve_item-drops_last_example =
    serve_item-drops_last env counter wires memory 9 fresh 7 refused_frame (answered 0 2) rejected
      attempted is_talking rejects refl refl
