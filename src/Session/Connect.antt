-- ===== src/Session/Connect.antt =====
-- Client::connect against a new context: the key exchange of Client.cpp and of
-- ProtocolConnectedHandler.cpp, one with the other.
use protocom.Prelude.{
  ℕ, ◌≡◌, refl, ap, ◌∙◌, sym, Bool, true, false, List, Option, none, some, length, Outcome,
  returned, ◌>>=◌, [],
}
use protocom.Frame
use protocom.Messages.{
  ClientConnectedStateRequest, ServerConnectedStateResponse, ClientConnectedStateRequest,
}
use protocom.Crypto.{block_size}
use protocom.Coder.{plain, encrypted, encode, decode, new_encrypted}
use protocom.Coder.Delivery.{encode-Delivers}
use protocom.Kex
use protocom.Kex.{Kex}
use protocom.Authenticator.{UserTable}
use protocom.Protocol.State.{Handler, Env, connected, authentication, Factory}
use protocom.Protocol.Connected
use protocom.Protocol.Authentication
use protocom.Client.State.{Client, connect_sock}
use protocom.Client.{
  await_admission, admitted, seal_up, agree_on, got_response, await_key, handshake, connect,
}
use protocom.Session.{Link, opened, at, send_msg-answered, fetch_msg-decoded}
use protocom.Session.Answering.{
  exchanged, kex_request, kex_response, auth_request, admission, handle_frame-kex,
  handle_frame-auth,
}
use protocom.Session.Laws.{SessionLaws}

-- The handler behind the key exchange.
abbrev pub waiting : List ℕ → Handler
waiting key = authentication (Authentication.new (encrypted key))

-- The client that a connect leaves, which seals with `key`.
abbrev pub connected_by : {G I : Type 0} → ℕ → List ℕ → I → G → Client G I → Client G I
connected_by fd key p g c = record c {
  fd = some fd;
  is_connected = true;
  io = some p;
  coder = encrypted key;
  entropy = g;
}

module _ {G I : Type 0} (env : Env G) (fresh : Kex) (factory : Option Factory)
    (auth : Option UserTable) (link : Link env fresh factory auth I) (laws : SessionLaws env) where
  -- A client that seals with the same key as the context, which waits for an authentication.
  abbrev ConnectsTo : List ℕ → Client G I → Outcome (Bool × Client G I) → Type 0
  ConnectsTo key c o =
      (g : G) × (h : G) × (p : I) × (o
        ≡ returned (
          true,
          record c { is_connected = true; io = some p; coder = encrypted key; entropy = g },
        ))
      × link.At h (some (waiting key)) [] p

  seal_up-ConnectsTo :
      (block key : List ℕ) (req : ClientConnectedStateRequest)
      (prev resp : ServerConnectedStateResponse) (c : Client G I) (p : I) (g h : G)
      → link.At h (some (connected (exchanged key req resp))) [] p
      → ConnectsTo key c (seal_up env link.io block (some key) prev (at p g c))
  unfolding seal_up new_encrypted
  seal_up-ConnectsTo block key req prev resp c p g h here =
      let c₁ : Client G I = record c { coder = encrypted key } in
      let g₁ = (env.crypto.generate_block g block_size).1 in
      let sent =
        encode-Delivers env.crypto env.connected_request laws.connected_request laws.seals
          laws.seals_all (encrypted key) auth_request g₁ laws.fits_auth_request in
      let back =
        encode-Delivers env.crypto env.connected_response laws.connected_response laws.seals
          laws.seals_all (encrypted key) admission h laws.fits_admission in
      let (p₁, step, going) =
        send_msg-answered env fresh factory auth link c₁ g₁ env.connected_request auth_request p
          (connected (exchanged key req resp)) (some (waiting key)) h back.rest sent.frame
          back.frame sent.rest (link.keeps_handler (waiting key)) here sent.encodes
          (handle_frame-auth env fresh factory auth (Frame.copy sent.frame) back.frame h back.rest
            key req resp (sent.decodes req) back.encodes) in
      let (p₂, read, there) =
        fetch_msg-decoded env fresh factory auth link c₁ sent.rest env.connected_response admission
          prev p₁ (some (waiting key)) back.rest (Frame.copy back.frame) going
          (back.decodes prev) in
      (
        sent.rest,
        back.rest,
        p₂,
        ap (λ o. o >>= await_admission env link.io prev) step
            ∙ ap (λ o. o >>= λ r. returned (admitted env link.io r)) read,
        there,
      )

  -- An answer with a key of the right length, from which X25519 gives a secret, is sealed with.
  agree_on-seals :
      (block pkey secret : List ℕ) (k : Kex) (c : Client G I)
      → length pkey ≡ 32
      → env.crypto.agree k.priv_key pkey ≡ some secret
      → agree_on env link.io block k (kex_response pkey) c
        ≡ seal_up env link.io block (some (env.crypto.derive secret 32)) (kex_response pkey) c
  unfolding agree_on Kex.load_other_key_arr Kex.agree Kex.get_key256
  agree_on-seals block pkey secret k c full agrees = rw (full, agrees) refl

  -- The handshake of a client in clear with a new context, where X25519 gives the two a secret.
  handshake-ConnectsTo :
      (block secret : List ℕ) (mine : Kex) (c : Client G I) (p : I) (g h : G)
      → link.At h (some (connected Connected.new)) [] p
      → c.coder ≡ plain
      → env.crypto.agree
          (env.crypto.generate_key_pair g).0.private
          (env.crypto.generate_key_pair h).0.public
        ≡ some secret
      → ConnectsTo (env.crypto.derive secret 32) c (handshake env link.io block mine (at p g c))
  unfolding handshake Kex.init Kex.get_pub_key
  handshake-ConnectsTo block secret mine c p g h here clear agrees =
      let ours = (env.crypto.generate_key_pair g).0.public in
      let theirs = (env.crypto.generate_key_pair h).0.public in
      let g₁ = (env.crypto.generate_key_pair g).1 in
      let h₁ = (env.crypto.generate_block (env.crypto.generate_key_pair h).1 block_size).1 in
      let key = env.crypto.derive secret 32 in
      let prev : ServerConnectedStateResponse = record { status = 0; kex = none; iv = none } in
      let k : Kex = (Kex.init env.crypto mine g).0 in
      let state = connected (exchanged key (kex_request ours) (kex_response theirs)) in
      let sent =
        encode-Delivers env.crypto env.connected_request laws.connected_request laws.seals
          laws.seals_all plain (kex_request ours) g₁
          (laws.fits_kex_request ours (laws.agrees.length-public g)) in
      let back =
        encode-Delivers env.crypto env.connected_response laws.connected_response laws.seals
          laws.seals_all plain (kex_response theirs) h₁
          (laws.fits_kex_response theirs (laws.agrees.length-public h)) in
      let (p₁, step, going) =
        send_msg-answered env fresh factory auth link c g₁ env.connected_request (kex_request ours)
          p (connected Connected.new) (some state) h back.rest sent.frame back.frame sent.rest
          (link.keeps_handler state) here
          (ap (λ x. encode env.crypto env.connected_request x (kex_request ours) g₁) clear
            ∙ sent.encodes)
          (handle_frame-kex env fresh factory auth (Frame.copy sent.frame) back.frame h back.rest
            ours secret (sent.decodes _) (laws.agrees.length-public g)
            (sym (laws.agrees.agree_comm g h) ∙ agrees) back.encodes) in
      let (p₂, read, there) =
        fetch_msg-decoded env fresh factory auth link c sent.rest env.connected_response
          (kex_response theirs) prev p₁ (some state) back.rest (Frame.copy back.frame) going
          (ap (λ x. decode env.crypto env.connected_response x (Frame.copy back.frame) prev) clear
            ∙ back.decodes prev) in
      let (g', h', p', done, end) =
        seal_up-ConnectsTo block key (kex_request ours) (kex_response theirs) (kex_response theirs)
          c p₂ sent.rest back.rest there in
      (
        g',
        h',
        p',
        ap (λ o. o >>= await_key env link.io block k) step
            ∙ ap (λ o. o >>= got_response env link.io block k) read
            ∙ agree_on-seals block theirs secret k _ (laws.agrees.length-public h) agrees
            ∙ done,
        end,
      )

  -- Over any link, under the laws of a session, and where X25519 gives a secret for the two new
  -- pairs: a client in clear that is not connected connects to a new context, with the result true.
  -- Both sides then seal with the key derived from the secret, and the context waits for an
  -- authentication, with all attempts left. What the exchange objects and the key block held before
  -- plays no part.
  pub connect-waiting :
      (fd : ℕ) (block secret : List ℕ) (mine : Kex) (c : Client G I) (p : I) (h : G)
      → link.At h (some (connected Connected.new)) [] p
      → c.is_connected ≡ false
      → c.coder ≡ plain
      → env.crypto.agree
          (env.crypto.generate_key_pair c.entropy).0.private
          (env.crypto.generate_key_pair h).0.public
        ≡ some secret
      → let key = env.crypto.derive secret 32 in
        (g' : G) × (h' : G) × (p' : I) × (connect env link.io (opened fd p) block mine c
          ≡ returned (true, connected_by fd key p' g' c))
        × link.At h' (some (waiting key)) [] p'
  unfolding connect connect_sock
  connect-waiting fd block secret mine c p h here closed clear agrees =
      let (g', h', p', done, end) =
        handshake-ConnectsTo block secret mine (record c { fd = some fd; is_connected = true }) p
          c.entropy h here clear agrees in
      (g', h', p', rw closed done, end)
