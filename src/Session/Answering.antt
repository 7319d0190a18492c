-- ===== src/Session/Answering.antt =====
-- ProtocolContext.cpp and its handlers: the answer to each frame of a session without faults.
use protocom.Prelude.{
  ℕ, ◌-◌, ◌≡◌, refl, true, false, List, ◌++◌, Option, none, some, length, ltb, returned,
}
use protocom.Frame
use protocom.Frame.{Frame}
use protocom.Messages.{
  ClientConnectedStateRequest, ServerConnectedStateResponse, ClientAuthRequest, ServerAuthResponse,
  UserRequest, ServerResponse, kex_ecdh, request_kex, request_auth, status_ok, auth_supply,
  auth_accept, auth_continue, auth_reject, auth_invalid_request,
}
use protocom.Crypto.{block_size}
use protocom.Coder.{plain, encrypted, encode, decode, new_encrypted}
use protocom.Kex
use protocom.Kex.{Kex}
use protocom.Authenticator.{UserTable}
use protocom.Protocol.State.{
  Env, ConnectedHandler, AuthenticationHandler, UserHandler, connected, authentication, user,
  Factory,
}
use protocom.Protocol.Connected
use protocom.Protocol.Authentication
use protocom.Protocol.User
use protocom.Protocol.Context.{handle_frame}
use protocom.Session.{idle, answered}

-- The handler behind a key exchange.
abbrev pub exchanged :
    List ℕ → ClientConnectedStateRequest → ServerConnectedStateResponse → ConnectedHandler
exchanged key req resp = record {
  coder = encrypted key;
  request = req;
  response = resp;
  is_kex_complete = true;
}

abbrev pub kex_request : List ℕ → ClientConnectedStateRequest
kex_request pkey = record {
  type = request_kex;
  kex = some (record { alg = kex_ecdh; pkey = pkey });
}

abbrev pub kex_response : List ℕ → ServerConnectedStateResponse
kex_response pkey = record {
  status = status_ok;
  kex = some (record { alg = kex_ecdh; pkey = pkey });
  iv = none;
}

abbrev pub auth_request : ClientConnectedStateRequest
auth_request = record { type = request_auth; kex = none }

abbrev pub admission : ServerConnectedStateResponse
admission = record { status = status_ok; kex = none; iv = none }

abbrev pub credentials : List ℕ → List ℕ → ClientAuthRequest
credentials username password = record {
  request = auth_supply;
  username = some username;
  auth_credential = some password;
}

abbrev pub verdict : ℕ → ServerAuthResponse
verdict status = record { status = status; server_info = none }

-- What TestUserHandler answers.
abbrev pub said : UserRequest → ServerResponse
said req = record { msg = User.bytes "You said: " ++ req.msg }

-- The handler behind that answer.
abbrev pub user_after : List ℕ → UserRequest → UserHandler
user_after key req = record { coder = encrypted key; request = req; response = said req }

module _ {G : Type 0} (env : Env G) (fresh : Kex) (factory : Option Factory)
    (auth : Option UserTable) where
  -- A first request for a key exchange, in clear.
  pub handle_frame-kex :
      (f r : Frame) (g g' : G) (pkey secret : List ℕ)
      → decode env.crypto env.connected_request plain f (record { type = 0; kex = none })
        ≡ (true, kex_request pkey)
      → length pkey ≡ 32
      → env.crypto.agree (env.crypto.generate_key_pair g).0.private pkey ≡ some secret
      → encode env.crypto env.connected_response plain
          (kex_response (env.crypto.generate_key_pair g).0.public)
          (env.crypto.generate_block (env.crypto.generate_key_pair g).1 block_size).1
        ≡ (some r, g')
      → handle_frame env fresh f (idle factory auth g (some (connected Connected.new)))
        ≡ returned (
            answered
              (idle factory auth g' (
                some (
                  connected (
                    exchanged
                      (env.crypto.derive secret 32)
                      (kex_request pkey)
                      (kex_response (env.crypto.generate_key_pair g).0.public)))))
              (Frame.copy r))
  unfolding handle_frame Connected.handle_frame Kex.init Kex.get_pub_key Kex.load_other_key_arr
      Kex.agree Kex.get_key256 new_encrypted
  handle_frame-kex f r g g' pkey secret dec full agrees sent = rw (dec, full, agrees, sent) refl

  -- The request for the authentication.
  pub handle_frame-auth :
      (f r : Frame) (g g' : G) (key : List ℕ) (req : ClientConnectedStateRequest)
      (resp : ServerConnectedStateResponse)
      → decode env.crypto env.connected_request (encrypted key) f req ≡ (true, auth_request)
      → encode env.crypto env.connected_response (encrypted key) admission g ≡ (some r, g')
      → handle_frame env fresh f (idle factory auth g (some (connected (exchanged key req resp))))
        ≡ returned (
            answered
              (idle factory auth g' (some (authentication (Authentication.new (encrypted key)))))
              (Frame.copy r))
  unfolding handle_frame Connected.handle_frame
  handle_frame-auth f r g g' key req resp dec sent = rw (dec, sent) refl

  module _ (f r : Frame) (g g' : G) (key username password : List ℕ) (h : AuthenticationHandler)
      (sealed : h.coder ≡ encrypted key)
      (dec : decode env.crypto env.auth_request (encrypted key) f h.request
        ≡ (true, credentials username password)) where
    -- Supplied credentials that the authenticator admits.
    pub handle_frame-admitted :
        Authentication.admits auth (credentials username password) ≡ true
        → encode env.crypto env.auth_response (encrypted key) (verdict auth_accept) g ≡ (some r, g')
        → handle_frame env fresh f (idle factory auth g (some (authentication h)))
          ≡ returned (
              answered
                (idle factory auth g' (Authentication.final_state factory (encrypted key)))
                (Frame.copy r))
    unfolding handle_frame Authentication.handle_frame
    handle_frame-admitted admitted sent = rw (sealed, dec, admitted, sent) refl

    -- Credentials that it does not admit, with attempts left.
    pub handle_frame-again :
        Authentication.admits auth (credentials username password) ≡ false
        → ltb 0 h.remaining_attempts ≡ true
        → encode env.crypto env.auth_response (encrypted key) (verdict auth_continue) g
          ≡ (some r, g')
        → handle_frame env fresh f (idle factory auth g (some (authentication h)))
          ≡ returned (
              answered
                (idle factory auth g' (
                  some (
                    authentication (record {
                      coder = encrypted key;
                      request = credentials username password;
                      response = verdict auth_continue;
                      remaining_attempts = h.remaining_attempts - 1;
                    }))))
                (Frame.copy r))
    unfolding handle_frame Authentication.handle_frame
    handle_frame-again refused left sent = rw (sealed, dec, refused, left, sent) refl

    -- Credentials that it does not admit, with none left.
    pub handle_frame-rejected :
        Authentication.admits auth (credentials username password) ≡ false
        → ltb 0 h.remaining_attempts ≡ false
        → encode env.crypto env.auth_response (encrypted key) (verdict auth_reject) g ≡ (some r, g')
        → handle_frame env fresh f (idle factory auth g (some (authentication h)))
          ≡ returned (answered (idle factory auth g' none) (Frame.copy r))
    unfolding handle_frame Authentication.handle_frame
    handle_frame-rejected refused left sent = rw (sealed, dec, refused, left, sent) refl

  -- A request to the user's handler.
  pub handle_frame-user :
      (f r : Frame) (g g' : G) (key : List ℕ) (h : UserHandler) (req : UserRequest)
      → h.coder ≡ encrypted key
      → decode env.crypto env.user_request (encrypted key) f h.request ≡ (true, req)
      → encode env.crypto env.user_response (encrypted key) (said req) g ≡ (some r, g')
      → handle_frame env fresh f (idle factory auth g (some (user h)))
        ≡ returned
            (answered (idle factory auth g' (some (user (user_after key req)))) (Frame.copy r))
  unfolding handle_frame User.handle_frame
  handle_frame-user f r g g' key h req sealed dec sent = rw (sealed, dec, sent) refl

  -- A request that supplies no credentials costs no attempt.
  pub handle_frame-unsupplied :
      (f r : Frame) (g g' : G) (key : List ℕ) (h : AuthenticationHandler)
      → h.coder ≡ encrypted key
      → decode env.crypto env.auth_request (encrypted key) f h.request
        ≡ (true, Authentication.empty_request)
      → encode env.crypto env.auth_response (encrypted key) (verdict auth_invalid_request) g
        ≡ (some r, g')
      → handle_frame env fresh f (idle factory auth g (some (authentication h)))
        ≡ returned (
            answered
              (idle factory auth g' (
                some (
                  authentication (record {
                    coder = encrypted key;
                    request = Authentication.empty_request;
                    response = verdict auth_invalid_request;
                    remaining_attempts = h.remaining_attempts;
                  }))))
              (Frame.copy r))
  unfolding handle_frame Authentication.handle_frame
  handle_frame-unsupplied f r g g' key h sealed dec sent = rw (sealed, dec, sent) refl
