-- ===== src/Session/Authenticate.antt =====
-- Client::authenticate against a context that waits for it: Client.cpp with
-- ProtocolAuthenticationHandler.cpp.
use protocom.Prelude.{
  ℕ, ◌-◌, ◌+◌, ◌<◌, ◌≤◌, ◌≡◌, refl, ap, ◌∙◌, Bool, true, false, ◌||◌, List, Option, none, some,
  arith, ltb, returned, ◌>>=◌, if◌then◌else◌, [],
}
use protocom.Frame
use protocom.Messages.{ServerAuthResponse, auth_accept, auth_reject, auth_continue}
use protocom.Coder.{encrypted, encode, decode}
use protocom.Coder.Delivery.{encode-Delivers}
use protocom.Kex.{Kex}
use protocom.Authenticator.{UserTable}
use protocom.Protocol.State.{Env, AuthenticationHandler, Handler, authentication, Factory}
use protocom.Protocol.Authentication.{admits, final_state}
use protocom.Protocol.Context.{handle_frame}
use protocom.Client.State.{FrameIo, Client}
use protocom.Client.{accepted, await_verdict, authenticate}
use protocom.Session.{Link, idle, answered, at, send_msg-answered, fetch_msg-decoded}
use protocom.Session.Answering.{
  credentials, verdict, handle_frame-admitted, handle_frame-again, handle_frame-rejected,
}
use protocom.Session.Laws.{SessionLaws}

-- The status of the answer: accepted, or to be tried again while attempts are left, or rejected.
abbrev pub verdict_on : (is_admitted has_attempts : Bool) → ℕ
verdict_on true has_attempts = auth_accept
verdict_on false true = auth_continue
verdict_on false false = auth_reject

verdict_on_le : (a b : Bool) → verdict_on a b ≤ 5
verdict_on_le true b = omega arith
verdict_on_le false true = omega arith
verdict_on_le false false = omega arith

module _ (factory : Option Factory) (key username password : List ℕ) (h : AuthenticationHandler)
    (is_admitted has_attempts : Bool) where
  -- The state that the verdict leaves.
  abbrev pub state_on : Option Handler
  state_on =
      if is_admitted
      then final_state factory (encrypted key)
      else if has_attempts
      then some (
          authentication (record {
            coder = encrypted key;
            request = credentials username password;
            response = verdict auth_continue;
            remaining_attempts = h.remaining_attempts - 1;
          }))
      else none

-- The client that the verdict leaves.
abbrev pub judged : {G I : Type 0} → Bool → I → G → Client G I → Client G I
judged is_admitted p g c = record c {
  is_authenticated = is_admitted || c.is_authenticated;
  io = some p;
  entropy = g;
}

module _ {G I : Type 0} (env : Env G) (io : FrameIo I) where
  accepted-verdict :
      (is_admitted has_attempts : Bool) (p : I) (g : G) (c : Client G I)
      → accepted env io (true, (verdict (verdict_on is_admitted has_attempts), at p g c))
        ≡ (is_admitted, judged is_admitted p g c)
  unfolding accepted
  accepted-verdict true has_attempts p g c = refl
  accepted-verdict false true p g c = refl
  accepted-verdict false false p g c = refl

module _ {G : Type 0} (env : Env G) (fresh : Kex) (factory : Option Factory)
    (auth : Option UserTable) where
  module _ (key username password : List ℕ) (h : AuthenticationHandler)
      (sealed : h.coder ≡ encrypted key) where
    -- The context's answer to a frame with the credentials.
    handle_frame-verdict :
        (is_admitted has_attempts : Bool) (f r : Frame.Frame) (g g' : G)
        → admits auth (credentials username password) ≡ is_admitted
        → ltb 0 h.remaining_attempts ≡ has_attempts
        → decode env.crypto env.auth_request (encrypted key) f h.request
          ≡ (true, credentials username password)
        → encode env.crypto env.auth_response
            (encrypted key)
            (verdict (verdict_on is_admitted has_attempts))
            g
          ≡ (some r, g')
        → handle_frame env fresh f (idle factory auth g (some (authentication h)))
          ≡ returned (
              answered
                (idle factory auth g'
                  (state_on factory key username password h is_admitted has_attempts))
                (Frame.copy r))
    handle_frame-verdict true left f r g g' a l dec sent =
        handle_frame-admitted env fresh factory auth f r g g' key username password h sealed dec a
          sent
    handle_frame-verdict false true f r g g' a l dec sent =
        handle_frame-again env fresh factory auth f r g g' key username password h sealed dec a l
          sent
    handle_frame-verdict false false f r g g' a l dec sent =
        handle_frame-rejected env fresh factory auth f r g g' key username password h sealed dec a l
          sent

  module _ {I : Type 0} (link : Link env fresh factory auth I) (laws : SessionLaws env)
      (key username password : List ℕ) (h : AuthenticationHandler)
      (sealed : h.coder ≡ encrypted key)
      (fits : env.auth_request.byte_size_long (credentials username password) + 32 < 65536) where
    -- Over any link that keeps the state that the verdict leads to, under the laws of a session, and
    -- where the request with the credentials is short enough: a client that seals with the context's
    -- key, against a context that waits for an authentication. authenticate gives true just when the
    -- authenticator admits the credentials; the client then has authenticated, and the context's
    -- state is the one that its factory makes. Otherwise the context has an attempt less, and without
    -- one left no state any more.
    pub authenticate-admits :
        (c : Client G I) (p : I) (g h' : G)
        → c.coder ≡ encrypted key
        → link.At h' (some (authentication h)) [] p
        → let is_admitted = admits auth (credentials username password) in
          let has_attempts = ltb 0 h.remaining_attempts in
          let state = state_on factory key username password h is_admitted has_attempts in
          link.Keeps state
          → (g₁ : G) × (h₁ : G) × (p₁ : I) × (authenticate env link.io username password (at p g c)
              ≡ returned (is_admitted, judged is_admitted p₁ g₁ c))
            × link.At h₁ state [] p₁
    unfolding authenticate await_verdict
    authenticate-admits c p g h' same here kept =
        let is_admitted = admits auth (credentials username password) in
        let has_attempts = ltb 0 h.remaining_attempts in
        let state = state_on factory key username password h is_admitted has_attempts in
        let v = verdict (verdict_on is_admitted has_attempts) in
        let prev : ServerAuthResponse = record { status = 0; server_info = none } in
        let sent =
          encode-Delivers env.crypto env.auth_request laws.auth_requests laws.seals laws.seals_all
            (encrypted key) (credentials username password) g fits in
        let back =
          encode-Delivers env.crypto env.auth_response laws.auth_responses laws.seals laws.seals_all
            (encrypted key) v h' (laws.fits_verdict _ (verdict_on_le is_admitted has_attempts)) in
        let (p₁, step, going) =
          send_msg-answered env fresh factory auth link c g env.auth_request
            (credentials username password) p (authentication h) state h' back.rest sent.frame
            back.frame sent.rest kept here
            (ap (λ x. encode env.crypto env.auth_request x (credentials username password) g) same
              ∙ sent.encodes)
            (handle_frame-verdict key username password h sealed is_admitted has_attempts
              (Frame.copy sent.frame) back.frame h' back.rest refl refl (sent.decodes h.request)
              back.encodes) in
        let (p₂, read, there) =
          fetch_msg-decoded env fresh factory auth link c sent.rest env.auth_response v prev p₁
            state back.rest (Frame.copy back.frame) going
            (ap (λ x. decode env.crypto env.auth_response x (Frame.copy back.frame) prev) same
              ∙ back.decodes prev) in
        (
          sent.rest,
          back.rest,
          p₂,
          ap (λ o. o >>= await_verdict env link.io) step
              ∙ ap (λ o. o >>= λ r. returned (accepted env link.io r)) read
              ∙ ap returned (accepted-verdict env link.io is_admitted has_attempts p₂ sent.rest c),
          there,
        )
