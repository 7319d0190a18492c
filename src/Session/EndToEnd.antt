-- ===== src/Session/EndToEnd.antt =====
-- A client that the server of Server.cpp accepts, up to its authentication and its first request.
use protocom.Prelude.{
  ℕ, ◌+◌, ◌<◌, ◌≡◌, refl, Bool, true, false, List, [], Option, none, some, returned, ==_iff,
}
use protocom.Prelude.Tables.{lookup, lookup-emplace}
use protocom.Coder.{plain, encrypted}
use protocom.Kex.{Kex}
use protocom.Authenticator.{UserTable}
use protocom.Protocol.State.{Env, Handler, Factory, connected, test_user_handler_factory}
use protocom.Protocol.Connected
use protocom.Protocol.Authentication
use protocom.Protocol.Authentication.{admits, final_state}
use protocom.Protocol.Context
use protocom.Protocol.Context.{set_io}
use protocom.Server.State.{EventFd, Worker, Server}
use protocom.Server.Worker.{create_context}
use protocom.Server.Clients.{accepted, accept_client}
use protocom.Client.State.{Client}
use protocom.Session.{opened}
use protocom.Session.Answering.{credentials}
use protocom.Session.Laws.{SessionLaws}
use protocom.Session.Connect.{connected_by}
use protocom.Session.Authenticate.{state_on, judged}
use protocom.Session.LogIn.{log_in, log_in-admits}
use protocom.Session.Served.{served_io, served_link, Carries}

-- A server whose worker runs, with nothing in its queues, and no context for the descriptor.
pub record IsReady {G S C : Type 0} (k : ℕ) (factory : Option Factory) (auth : Option UserTable)
    (s : Server G S C) : Type 0 where
  pub w : Worker G
  pub has_worker : s.worker ≡ some w
  pub has_factory : w.user_handler_factory ≡ factory
  pub is_new : lookup k w.handler_table ≡ none
  pub same_auth : s.authenticator ≡ auth
  pub nothing_in : s.wq_in.queue ≡ []
  pub unlimited_in : s.wq_in.item_limit ≡ 0
  pub not_cancelled : s.wq_in.fetch_cancelled ≡ false
  pub nothing_out : s.wq_out.queue ≡ []
  pub unlimited_out : s.wq_out.item_limit ≡ 0

module _ {G S C : Type 0} (env : Env G) (eventfd : EventFd C) (fresh : Kex)
    (factory : Option Factory) (auth : Option UserTable) (k : ℕ) where
  -- The connection that acceptClient makes, as an end of a link.
  accept_client-Carries :
      (sock : S) (s : Server G S C)
      → IsReady k factory auth s
      → Carries env eventfd fresh factory auth k s.entropy
          (some (connected Connected.new))
          []
          (accept_client (accepted k sock true) s)
  unfolding accept_client create_context
  accept_client-Carries sock s v = rw v.has_worker (record {
    w = create_context k s.entropy v.w;
    c = set_io true (Context.new v.w.user_handler_factory none s.entropy);
    has_worker = refl;
    found =
        rw
          (
            lookup-emplace k k (set_io true (Context.new v.w.user_handler_factory none s.entropy))
                v.w.handler_table,
            v.is_new,
            (==_iff k k).1 refl,
          )
          refl;
    loads = rw (v.same_auth, v.has_factory) refl;
    same_auth = v.same_auth;
    nothing_in = v.nothing_in;
    unlimited_in = v.unlimited_in;
    not_cancelled = v.not_cancelled;
    out = v.nothing_out;
    unlimited_out = v.unlimited_out;
  })

keeps_verdict :
    (is_admitted : Bool) (key username password : List ℕ)
    → (h : Handler) × (state_on
          (some test_user_handler_factory)
          key
          username
          password
          (Authentication.new (encrypted key))
          is_admitted
          true
        ≡ some h)
unfolding final_state
keeps_verdict true key username password = (_, refl)
keeps_verdict false key username password = (_, refl)

module _ {G S C : Type 0} (env : Env G) (eventfd : EventFd C) (fresh : Kex)
    (auth : Option UserTable) (k : ℕ) (laws : SessionLaws env) where
  -- A server as main() sets it up, whose worker runs, with nothing in its queues, accepts a
  -- connection on a new descriptor. Its frames come to the incoming queue, the worker serves them,
  -- and the answers are read from the outgoing queue. Under the laws of a session, where X25519
  -- gives a secret for the two new pairs, and the request with the credentials is short enough: a
  -- new client connects and authenticates, and the result is true just when the server's
  -- authenticator admits the credentials. Then the worker's context for the descriptor is in the
  -- user state, and otherwise it waits for an authentication, with four attempts left; it seals with
  -- the key that the client seals with. Nothing is left in the queues.
  pub log_in-served :
      (fd : ℕ) (block secret username password : List ℕ) (mine : Kex) (c : Client G (Server G S C))
      (sock : S) (s : Server G S C)
      → IsReady k (some test_user_handler_factory) auth s
      → c.is_connected ≡ false
      → c.coder ≡ plain
      → env.crypto.agree
          (env.crypto.generate_key_pair c.entropy).0.private
          (env.crypto.generate_key_pair s.entropy).0.public
        ≡ some secret
      → env.auth_request.byte_size_long (credentials username password) + 32 < 65536
      → let key = env.crypto.derive secret 32 in
        let is_admitted = admits auth (credentials username password) in
        let factory = some test_user_handler_factory in
        (g' : G) × (h' : G) × (s' : Server G S C) × (log_in env
            (served_io env eventfd fresh factory auth k)
            (opened fd (accept_client (accepted k sock true) s))
            block
            mine
            username
            password
            c
          ≡ returned (is_admitted, judged is_admitted s' g' (connected_by fd key s' g' c)))
        × Carries env eventfd fresh factory auth k h'
            (state_on factory key username password
              (Authentication.new (encrypted key))
              is_admitted
              true)
            []
            s'
  unfolding served_link
  log_in-served fd block secret username password mine c sock s ready closed clear agrees fits =
      let factory = some test_user_handler_factory in
      log_in-admits env fresh factory auth (served_link env eventfd fresh factory auth k) laws fd
        block secret username password mine c (accept_client (accepted k sock true) s) s.entropy
        (accept_client-Carries env eventfd fresh factory auth k sock s ready) closed clear agrees
        fits (keeps_verdict (admits auth (credentials username password)) _ username password)
