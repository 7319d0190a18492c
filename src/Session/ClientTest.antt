-- ===== src/Session/ClientTest.antt =====
-- runClientTest of main.cpp against a new context. It does not authenticate, so that its requests
-- come to the handler for the authentication.
use protocom.Prelude.{
  ℕ, zero, suc, ◌+◌, ◌<◌, ◌≡◌, refl, ap, ◌∙◌, true, false, List, [], Option, some, arith, returned,
  ◌>>=◌, if◌then◌else◌,
}
use protocom.Frame
use protocom.Messages.{UserRequest, ServerResponse, RoundTrips, auth_invalid_request}
use protocom.Coder.{plain, encrypted, encode, decode}
use protocom.Coder.Delivery.{encode-Delivers}
use protocom.Kex.{Kex}
use protocom.Authenticator.{UserTable}
use protocom.Protocol.State.{Env, AuthenticationHandler, authentication, connected, Factory}
use protocom.Protocol.Authentication
use protocom.Protocol.Connected
use protocom.Protocol.User.{bytes}
use protocom.Client.State.{Client}
use protocom.Client.{fetch_request}
use protocom.Main.{request_loop, run_client_test}
use protocom.Session.{Link, opened, at, fetch_request-decoded}
use protocom.Session.Answering.{verdict, handle_frame-unsupplied}
use protocom.Session.Laws.{SessionLaws}
use protocom.Session.Connect.{connected_by, connect-waiting}

abbrev pub hello : UserRequest
hello = record { msg = bytes "Hello there" }

abbrev pub no_answer : ServerResponse
no_answer = record { msg = [] }

-- The handler as a request of another type leaves it.
abbrev pub unmoved : List ℕ → ℕ → AuthenticationHandler
unmoved key attempts = record {
  coder = encrypted key;
  request = Authentication.empty_request;
  response = verdict auth_invalid_request;
  remaining_attempts = attempts;
}

module _ {G I : Type 0} (env : Env G) (fresh : Kex) (factory : Option Factory)
    (auth : Option UserTable) (link : Link env fresh factory auth I) (laws : SessionLaws env)
    (requests : RoundTrips env.user_request)
    (fits : env.user_request.byte_size_long hello + 32 < 65536)
    (misread : env.auth_request.parse_from_array (requests.serialized hello)
      ≡ (true, Authentication.empty_request))
    (misread_answer : env.user_response.parse_from_array
        (laws.auth_responses.serialized (verdict auth_invalid_request))
      ≡ (true, no_answer)) where
  fetch_request-misread :
      (key : List ℕ) (prev : ServerResponse) (h : AuthenticationHandler) (c : Client G I) (p : I)
      (g h' : G)
      → link.At h' (some (authentication h)) [] p
      → h.coder ≡ encrypted key
      → c.coder ≡ encrypted key
      → (g₁ : G) × (h₁ : G) × (p₁ : I) × (fetch_request env link.io env.user_request
            env.user_response hello prev
            (at p g c)
          ≡ returned (true, (no_answer, at p₁ g₁ c)))
        × link.At h₁ (some (authentication (unmoved key h.remaining_attempts))) [] p₁
  fetch_request-misread key prev h c p g h' here theirs ours =
      let sent =
        encode-Delivers env.crypto env.user_request requests laws.seals laws.seals_all
          (encrypted key) hello g fits in
      let back =
        encode-Delivers env.crypto env.auth_response laws.auth_responses laws.seals laws.seals_all
          (encrypted key) (verdict auth_invalid_request) h' (laws.fits_verdict 4 (omega arith)) in
      let (p₁, fetched, there) =
        fetch_request-decoded env fresh factory auth link c g env.user_request env.user_response
          hello no_answer prev p (authentication h)
          (authentication (unmoved key h.remaining_attempts)) h' back.rest sent.frame back.frame
          sent.rest here
          (ap (λ x. encode env.crypto env.user_request x hello g) ours ∙ sent.encodes)
          (handle_frame-unsupplied env fresh factory auth (Frame.copy sent.frame) back.frame h'
            back.rest key h theirs (sent.parses_as env.auth_request h.request ∙ misread)
            back.encodes)
          (ap (λ x. decode env.crypto env.user_response x (Frame.copy back.frame) prev) ours
            ∙ back.parses_as env.user_response prev
            ∙ misread_answer) in
      (sent.rest, back.rest, p₁, fetched, there)

  -- Any number of requests, each of them misread.
  request_loop-misread :
      (n : ℕ) (key : List ℕ) (prev : ServerResponse) (h : AuthenticationHandler) (c : Client G I)
      (p : I) (g h' : G)
      → link.At h' (some (authentication h)) [] p
      → h.coder ≡ encrypted key
      → c.coder ≡ encrypted key
      → (a : AuthenticationHandler) × (g₁ : G) × (h₁ : G) × (p₁ : I) × (a.remaining_attempts
          ≡ h.remaining_attempts)
        × (request_loop env link.io n hello prev (at p g c) ≡ returned (true, at p₁ g₁ c))
        × link.At h₁ (some (authentication a)) [] p₁
  unfolding request_loop
  request_loop-misread zero key prev h c p g h' here theirs ours = (h, g, h', p, refl, refl, here)
  request_loop-misread (suc n) key prev h c p g h' here theirs ours =
      let (g₁, h₁, p₁, fetched, there) =
        fetch_request-misread key prev h c p g h' here theirs ours in
      let (a, g₂, h₂, p₂, left, done, end) =
        request_loop-misread n key no_answer (unmoved key h.remaining_attempts) c p₁ g₁ h₁ there
          refl ours in
      (
        a,
        g₂,
        h₂,
        p₂,
        left,
        ap
              (λ o. o >>= (λ r.
                if r.0
                then request_loop env link.io n hello r.1.0 r.1.1
                else returned (false, r.1.1)))
              fetched
            ∙ done,
        end,
      )

  -- Over any link, under the laws of a session and of the request, where X25519 gives a secret for
  -- the two new pairs, and where the parser skips the fields of another message type: all requests
  -- of runClientTest are answered, so that its result is true; and the context still waits for an
  -- authentication, with all five attempts left. No request came to the user's handler.
  pub run_client_test-unheard :
      (fd : ℕ) (block secret : List ℕ) (mine : Kex) (c : Client G I) (p : I) (h : G)
      → link.At h (some (connected Connected.new)) [] p
      → c.is_connected ≡ false
      → c.coder ≡ plain
      → env.crypto.agree
          (env.crypto.generate_key_pair c.entropy).0.private
          (env.crypto.generate_key_pair h).0.public
        ≡ some secret
      → (a : AuthenticationHandler) × (h' : G) × (p' : I) × (c' : Client G I)
        × (a.remaining_attempts ≡ 5)
        × (c'.io ≡ some p')
        × (run_client_test env link.io (opened fd p) block mine c ≡ returned (true, c'))
        × link.At h' (some (authentication a)) [] p'
  unfolding run_client_test
  run_client_test-unheard fd block secret mine c p h here closed clear agrees =
      let key = env.crypto.derive secret 32 in
      let (g₁, h₁, p₁, connects, waits) =
        connect-waiting env fresh factory auth link laws fd block secret mine c p h here closed
          clear agrees in
      let (a, g₂, h₂, p₂, left, done, end) =
        request_loop-misread 100 key no_answer (Authentication.new (encrypted key))
          (connected_by fd key p₁ g₁ c) p₁ g₁ h₁ waits refl refl in
      (
        a,
        h₂,
        p₂,
        at p₂ g₂ (connected_by fd key p₁ g₁ c),
        left,
        refl,
        ap
              (λ o. o >>= (λ r.
                if r.0
                then request_loop env link.io 100 hello no_answer r.1
                else returned (false, r.1)))
              connects
            ∙ done,
        end,
      )
