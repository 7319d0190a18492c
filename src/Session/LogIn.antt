-- ===== src/Session/LogIn.antt =====
-- Client::connect and then Client::authenticate, against a new context.
use protocom.Prelude.{
  ℕ, ◌+◌, ◌<◌, ◌≡◌, ap, ◌∙◌, refl, Bool, true, false, List, Option, some, Outcome, returned, ◌>>=◌,
  if◌then◌else◌, [],
}
use protocom.Coder.{plain, encrypted}
use protocom.Kex.{Kex}
use protocom.Authenticator.{UserTable}
use protocom.Protocol.State.{Env, Factory, connected}
use protocom.Protocol.Connected
use protocom.Protocol.Authentication
use protocom.Protocol.Authentication.{admits}
use protocom.Client.State.{FrameIo, Client, Dialed}
use protocom.Client.{connect, authenticate}
use protocom.Session.{Link, opened}
use protocom.Session.Answering.{credentials}
use protocom.Session.Laws.{SessionLaws}
use protocom.Session.Connect.{connected_by, connect-waiting}
use protocom.Session.Authenticate.{state_on, judged, authenticate-admits}

-- The two calls of a client: authenticate follows a connect that gives true.
abbrev pub log_in :
    {G I : Type 0}
    → Env G
    → FrameIo I
    → Dialed I
    → List ℕ
    → Kex
    → (username password : List ℕ) → Client G I
    → Outcome (Bool × Client G I)
log_in env io d block mine username password c = do
  (ok, c') ← connect env io d block mine c
  (if ok then authenticate env io username password c' else returned (false, c'))

module _ {G I : Type 0} (env : Env G) (fresh : Kex) (factory : Option Factory)
    (auth : Option UserTable) (link : Link env fresh factory auth I) (laws : SessionLaws env) where
  -- Over any link that keeps the state of the user, under the laws of a session, where X25519 gives
  -- a secret for the two new pairs, and the request with the credentials is short enough: a new
  -- client connects to a new context and authenticates, and the result is true just when the
  -- authenticator admits the credentials. Then the context is in the state that its factory makes,
  -- and the client has authenticated; otherwise the context still waits for an authentication, with
  -- four attempts left. The client, and the context as it waits, seal with the key that is derived
  -- from the secret.
  pub log_in-admits :
      (fd : ℕ) (block secret username password : List ℕ) (mine : Kex) (c : Client G I) (p : I)
      (h : G)
      → link.At h (some (connected Connected.new)) [] p
      → c.is_connected ≡ false
      → c.coder ≡ plain
      → env.crypto.agree
          (env.crypto.generate_key_pair c.entropy).0.private
          (env.crypto.generate_key_pair h).0.public
        ≡ some secret
      → env.auth_request.byte_size_long (credentials username password) + 32 < 65536
      → let key = env.crypto.derive secret 32 in
        let is_admitted = admits auth (credentials username password) in
        let state =
          state_on factory key username password
            (Authentication.new (encrypted key))
            is_admitted
            true in
        link.Keeps state
        → (g' : G) × (h' : G) × (p' : I) × (log_in env link.io
              (opened fd p)
              block
              mine
              username
              password
              c
            ≡ returned (is_admitted, judged is_admitted p' g' (connected_by fd key p' g' c)))
          × link.At h' state [] p'
  log_in-admits fd block secret username password mine c p h here closed clear agrees fits kept =
      let key = env.crypto.derive secret 32 in
      let (g₁, h₁, p₁, connects, waits) =
        connect-waiting env fresh factory auth link laws fd block secret mine c p h here closed
          clear agrees in
      let (g', h', p', authenticates, there) =
        authenticate-admits env fresh factory auth link laws key username password
          (Authentication.new (encrypted key)) refl fits (connected_by fd key p₁ g₁ c) p₁ g₁ h₁ refl
          waits kept in
      (
        g',
        h',
        p',
        ap
              (λ o. o >>= λ r.
                if r.0
                then authenticate env link.io username password r.1
                else returned (false, r.1))
              connects
            ∙ authenticates,
        there,
      )
