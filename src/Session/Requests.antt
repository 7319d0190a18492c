-- ===== src/Session/Requests.antt =====
-- Client::fetchRequest against the user's handler of TestUserHandler.cpp.
use protocom.Prelude.{ℕ, ◌+◌, ◌<◌, ◌≡◌, ap, ◌∙◌, true, List, Option, some, returned, []}
use protocom.Frame
use protocom.Messages.{UserRequest, ServerResponse, RoundTrips}
use protocom.Coder.{encrypted, encode, decode}
use protocom.Coder.Delivery.{encode-Delivers}
use protocom.Kex.{Kex}
use protocom.Authenticator.{UserTable}
use protocom.Protocol.State.{Env, UserHandler, user, Factory}
use protocom.Client.State.{Client}
use protocom.Client.{fetch_request}
use protocom.Session.{Link, at, fetch_request-decoded}
use protocom.Session.Answering.{said, user_after, handle_frame-user}
use protocom.Session.Laws.{SessionLaws}

module _ {G I : Type 0} (env : Env G) (fresh : Kex) (factory : Option Factory)
    (auth : Option UserTable) (link : Link env fresh factory auth I) (laws : SessionLaws env)
    (requests : RoundTrips env.user_request) (responses : RoundTrips env.user_response)
    (key : List ℕ) (req : UserRequest) (fits : env.user_request.byte_size_long req + 32 < 65536)
    (fits_answer : env.user_response.byte_size_long (said req) + 32 < 65536) where
  -- Over any link, under the laws of a session and of the user's messages, where the request and its
  -- answer are short enough: a client that seals with the context's key, against a context in the
  -- user state, gets the text "You said: " with its request behind it, and the context stays in the
  -- user state.
  pub fetch_request-said :
      (prev : ServerResponse) (h : UserHandler) (c : Client G I) (p : I) (g h' : G)
      → link.At h' (some (user h)) [] p
      → h.coder ≡ encrypted key
      → c.coder ≡ encrypted key
      → (g₁ : G) × (h₁ : G) × (p₁ : I) × (fetch_request env link.io env.user_request
            env.user_response req prev
            (at p g c)
          ≡ returned (true, (said req, at p₁ g₁ c)))
        × link.At h₁ (some (user (user_after key req))) [] p₁
  fetch_request-said prev h c p g h' here theirs ours =
      let sent =
        encode-Delivers env.crypto env.user_request requests laws.seals laws.seals_all
          (encrypted key) req g fits in
      let back =
        encode-Delivers env.crypto env.user_response responses laws.seals laws.seals_all
          (encrypted key) (said req) h' fits_answer in
      let (p₁, fetched, there) =
        fetch_request-decoded env fresh factory auth link c g env.user_request env.user_response req
          (said req) prev p (user h) (user (user_after key req)) h' back.rest sent.frame back.frame
          sent.rest here (ap (λ x. encode env.crypto env.user_request x req g) ours ∙ sent.encodes)
          (handle_frame-user env fresh factory auth (Frame.copy sent.frame) back.frame h' back.rest
            key h req theirs (sent.decodes h.request) back.encodes)
          (ap (λ x. decode env.crypto env.user_response x (Frame.copy back.frame) prev) ours
            ∙ back.decodes prev) in
      (sent.rest, back.rest, p₁, fetched, there)
