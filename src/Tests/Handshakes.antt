-- ===== src/Tests/Handshakes.antt =====
-- Whole sessions of a client and a context.
use protocom.Prelude.{
  ℕ, ◌≡◌, refl, Bool, true, false, List, [], ◌∷◌, Option, none, some, arith, Outcome, returned,
}
use protocom.Messages.{UserRequest}
use protocom.Coder.{encrypted}
use protocom.Authenticator.{UserTable, password}
use protocom.Protocol.State.{
  AuthenticationHandler, UserHandler, authentication, user, Factory, test_user_handler_factory,
}
use protocom.Protocol.Authentication
use protocom.Protocol.Authentication.{admits}
use protocom.Server.State.{Server, new_worker}
use protocom.Server.Worker.{start}
use protocom.Server.Clients.{accepted, accept_client}
use protocom.Client.State
use protocom.Client.State.{Client}
use protocom.Client.{authenticate, fetch_request}
use protocom.Main.{run_client_test}
use protocom.Session.{opened, at}
use protocom.Session.Answering.{credentials, said, user_after}
use protocom.Session.Direct.{Peer, peer, new_peer, direct_io, direct}
use protocom.Session.Served.{served_io, Carries}
use protocom.Session.Connect.{connected_by}
use protocom.Session.Authenticate.{state_on, judged, authenticate-admits}
use protocom.Session.LogIn.{log_in}
use protocom.Session.EndToEnd.{IsReady, log_in-served}
use protocom.Session.Requests.{fetch_request-said}
use protocom.Session.ClientTest.{run_client_test-unheard}
use protocom.Tests.Sessions.{fresh}
use protocom.Tests.Wires.{Wires}
use protocom.Tests.Connections.{no_bytes}
use protocom.Tests.Servers.{counter, new_server}
use protocom.Tests.Codecs.{
  faithful, faithful-SessionLaws, user_requests, user_responses, skips_verdict,
}

abbrev users : UserTable
users = (97 ∷ [], password (1 ∷ 2 ∷ []) ∷ []) ∷ []

abbrev handlers : Option Factory
handlers = some test_user_handler_factory

-- The pools of the client are at 5, those of the server at 9: the secret is 5 + 9.
abbrev caller : {I : Type 0} → Client ℕ I
caller = State.new false 5

abbrev shared_key : List ℕ
shared_key = faithful.crypto.derive (14 ∷ []) 32

abbrev ready_server : Server ℕ Wires ℕ
ready_server = record new_server {
  worker = some (start (new_worker handlers));
  authenticator = some users;
  entropy = 9;
}

is_ready : IsReady 7 handlers (some users) ready_server
unfolding protocom.Prelude.Tables.lookup
is_ready = record {
  w = start (new_worker handlers);
  has_worker = refl;
  has_factory = refl;
  is_new = refl;
  same_auth = refl;
  nothing_in = refl;
  unlimited_in = refl;
  not_cancelled = refl;
  nothing_out = refl;
  unlimited_out = refl;
}

-- The password is right.
abbrev admitted : Bool
admitted = admits (some users) (credentials (97 ∷ []) (1 ∷ 2 ∷ []))

admits_right : admitted ≡ true
unfolding admits protocom.Authenticator.authenticate protocom.Authenticator.find
admits_right = refl

log_in-served_example :
    (g : ℕ) × (h : ℕ) × (s : Server ℕ Wires ℕ) × (log_in faithful
        (served_io faithful counter fresh handlers (some users) 7)
        (opened 3 (accept_client (accepted 7 no_bytes true) ready_server))
        []
        fresh
        (97 ∷ [])
        (1 ∷ 2 ∷ [])
        caller
      ≡ returned (admitted, judged admitted s g (connected_by 3 shared_key s g caller)))
    × Carries faithful counter fresh handlers
        (some users)
        7
        h
        (state_on handlers shared_key
          (97 ∷ [])
          (1 ∷ 2 ∷ [])
          (Authentication.new (encrypted shared_key))
          admitted
          true)
        []
        s
log_in-served_example =
    log_in-served faithful counter fresh (some users) 7 faithful-SessionLaws 3 [] (14 ∷ [])
      (97 ∷ []) (1 ∷ 2 ∷ []) fresh caller no_bytes ready_server is_ready refl refl refl
      (omega arith)

abbrev last_attempt : AuthenticationHandler
last_attempt = record (Authentication.new (encrypted shared_key)) { remaining_attempts = 0 }

abbrev sealing : Client ℕ (Peer ℕ)
sealing = record caller { coder = encrypted shared_key }

-- A wrong password.
abbrev refused : Bool
refused = admits (some users) (credentials (97 ∷ []) (1 ∷ []))

authenticate-admits_example :
    (g : ℕ) × (h : ℕ) × (p : Peer ℕ) × (authenticate faithful
        (direct_io faithful fresh handlers (some users))
        (97 ∷ [])
        (1 ∷ [])
        (at (peer handlers (some users) 9 (some (authentication last_attempt))) 5 sealing)
      ≡ returned (refused, judged refused p g sealing))
    × (p
        ≡ peer handlers
            (some users)
            h
            (state_on handlers shared_key (97 ∷ []) (1 ∷ []) last_attempt refused false))
unfolding direct
authenticate-admits_example =
    authenticate-admits faithful fresh handlers (some users)
      (direct faithful fresh handlers (some users)) faithful-SessionLaws shared_key (97 ∷ [])
      (1 ∷ []) last_attempt refl (omega arith) sealing
      (peer handlers (some users) 9 (some (authentication last_attempt))) 5 9 refl refl tt

abbrev greeting : UserRequest
greeting = record { msg = 72 ∷ 105 ∷ [] }

abbrev serving_user : UserHandler
serving_user = record {
  coder = encrypted shared_key;
  request = record { msg = [] };
  response = record { msg = [] };
}

fetch_request-said_example :
    (g : ℕ) × (h : ℕ) × (p : Peer ℕ) × (fetch_request faithful
        (direct_io faithful fresh handlers (some users))
        faithful.user_request
        faithful.user_response
        greeting
        (record { msg = [] })
        (at (peer handlers (some users) 9 (some (user serving_user))) 5 sealing)
      ≡ returned (true, (said greeting, at p g sealing)))
    × (p ≡ peer handlers (some users) h (some (user (user_after shared_key greeting))))
unfolding direct
fetch_request-said_example =
    fetch_request-said faithful fresh handlers (some users)
      (direct faithful fresh handlers (some users)) faithful-SessionLaws user_requests
      user_responses shared_key greeting (omega arith) (omega arith) (record { msg = [] })
      serving_user sealing (peer handlers (some users) 9 (some (user serving_user))) 5 9 refl refl
      refl

run_client_test-unheard_example :
    (a : AuthenticationHandler) × (h : ℕ) × (p : Peer ℕ) × (c : Client ℕ (Peer ℕ))
    × (a.remaining_attempts ≡ 5)
    × (c.io ≡ some p)
    × (run_client_test faithful
          (direct_io faithful fresh handlers none)
          (opened 3 (new_peer handlers none 9))
          []
          fresh
          caller
        ≡ returned (true, c))
    × (p ≡ peer handlers none h (some (authentication a)))
unfolding direct
run_client_test-unheard_example =
    run_client_test-unheard faithful fresh handlers none (direct faithful fresh handlers none)
      faithful-SessionLaws user_requests (omega arith) refl skips_verdict 3 [] (14 ∷ []) fresh
      caller (new_peer handlers none 9) 9 refl refl refl refl
