-- ===== src/Client/Connect.antt =====
-- Client::connect as a whole, and the peer's side of its key exchange.
use protocom.Prelude.{
  ℕ, ◌≡◌, refl, sym, ap, ◌∙◌, subst, Bool, true, false, not, List, Option, none, some, if-in,
  if◌then◌else◌, returned, Holds, Holds-mono, Holds-returned,
}
use protocom.Messages.{kex_or_default}
use protocom.Crypto.{Agrees}
use protocom.Coder.{Coder, encrypted}
use protocom.Kex.{Kex}
use protocom.Kex.Agreement.{exchange, exchange_comm, exchange-derived, derived}
use protocom.Protocol.State.{Env}
use protocom.Client.State.{FrameIo, Client, Dialed, connect_sock}
use protocom.Client.{handshake, connect}
use protocom.Client.Connecting.{KeyAgreed, IsAgreed, handshake-IsAgreed}

-- What connect_sock leaves: hasConnected says its result.
module _ {G I : Type 0} (d : Dialed I) (c : Client G I) where
  abbrev IsDialed : Bool × Client G I → Type 0
  IsDialed (ok, c') = (c'.is_connected ≡ ok) × (c'.coder ≡ c.coder) × (c'.entropy ≡ c.entropy)

  connect_sock-IsDialed : IsDialed (connect_sock d c)
  unfolding connect_sock
  connect_sock-IsDialed =
      let c' = record c { fd = d.socket_fd } in
      if-in IsDialed c.is_connected _ _ (λ already. (already, refl, refl))
        (λ closed.
          if-in IsDialed (not d.receive_timeout_set) _ _ (λ _. (closed, refl, refl))
            (λ _.
              if-in IsDialed (not d.send_timeout_set) _ _ (λ _. (closed, refl, refl))
                (λ _. by_fd closed d.socket_fd)))
    where
      by_fd :
          c.is_connected ≡ false
          → (o : Option ℕ)
          → IsDialed (elim o [
            | none ↦ (false, record c { fd = d.socket_fd })
            | some n ↦
                if d.is_open
                then (
                  true,
                  record c { fd = d.socket_fd; io = some d.frame_socket; is_connected = true },
                )
                else (false, record c { fd = d.socket_fd })
          ])
      by_fd closed none = (closed, refl, refl)
      by_fd closed (some n) =
          if-in IsDialed d.is_open _ _ (λ _. (refl, refl, refl)) (λ _. (closed, refl, refl))

module _ {G I : Type 0} (env : Env G) (frame_io : FrameIo I) where
  abbrev Result : Dialed I → Client G I → Bool × Client G I → Type 0
  Result d c (ok, c') =
      (c'.is_connected ≡ (connect_sock d c).0)
      × (ok ≡ true
          → KeyAgreed env frame_io (env.crypto.generate_key_pair c.entropy).0.private c.coder c')

  connect-Result :
      (d : Dialed I) (block : List ℕ) (fresh : Kex) (c : Client G I)
      → Holds (Result d c) (connect env frame_io d block fresh c)
  unfolding connect
  connect-Result d block fresh c =
      let (ok, c₁) = connect_sock d c in
      let (open_now, same_coder, same_entropy) = connect_sock-IsDialed d c in
      if-in (Holds (Result d c)) ok (handshake env frame_io block fresh c₁) (returned (false, c₁))
        (λ dialed.
          Holds-mono
            (IsAgreed env frame_io (env.crypto.generate_key_pair c₁.entropy).0.private c₁.coder)
            (Result d c) (handshake env frame_io block fresh c₁)
            (handshake-IsAgreed env frame_io block fresh c₁ (open_now ∙ dialed))
            (λ (b, c') (connected, agreed). (
              connected ∙ sym dialed,
              λ e.
                  subst
                    (λ (g : G).
                      KeyAgreed env frame_io (env.crypto.generate_key_pair g).0.private c.coder c')
                    same_entropy
                    (subst
                      (λ (x : Coder).
                        KeyAgreed env frame_io (env.crypto.generate_key_pair c₁.entropy).0.private x
                          c')
                      same_coder (agreed e)),
            )))
        (λ refused. (open_now, λ e. absurd (cc)))

  -- With any peer: a connect that gives true has written a frame, has read a frame from the
  -- connection as this write left it, and its first coder decodes the frame that was read to an
  -- answer with status OK and a public key of 32 bytes; and it leaves a coder that seals with the key
  -- derived from the secret that this public key and the client's new private key give.
  pub connect-KeyAgreed :
      (d : Dialed I) (block : List ℕ) (fresh : Kex) (c c' : Client G I)
      → connect env frame_io d block fresh c ≡ returned (true, c')
      → KeyAgreed env frame_io (env.crypto.generate_key_pair c.entropy).0.private c.coder c'
  connect-KeyAgreed d block fresh c c' e =
      (Holds-returned (Result d c) _ (true, c') e (connect-Result d block fresh c)).1 refl

  -- With any peer: after a connect that returns, whatever its result, hasConnected says whether the
  -- socket was opened. A connect that fails behind the socket leaves it true.
  pub connect-has_connected :
      (d : Dialed I) (block : List ℕ) (fresh : Kex) (c c' : Client G I) (ok : Bool)
      → connect env frame_io d block fresh c ≡ returned (ok, c')
      → c'.is_connected ≡ (connect_sock d c).0
  connect-has_connected d block fresh c c' ok e =
      (Holds-returned (Result d c) _ (ok, c') e (connect-Result d block fresh c)).0

  -- If X25519 agrees, and the public key that the answer carried is that of a pair which the peer
  -- generated from `h`: of a client that agreed on a key, from its own pair of `g`, the peer's key
  -- exchange with the client's public key gives the key that the client seals with, whatever the
  -- peer's exchange object held before.
  pub KeyAgreed-same_key :
      (g h : G) (other : Kex) (first : Coder) (c : Client G I)
      → Agrees env.crypto
      → (v : KeyAgreed env frame_io (env.crypto.generate_key_pair g).0.private first c)
      → (kex_or_default v.resp.kex).pkey ≡ (env.crypto.generate_key_pair h).0.public
      → (key : List ℕ) × (exchange env.crypto other h (env.crypto.generate_key_pair g).0.public
          ≡ some key)
        × (c.coder ≡ encrypted key)
  KeyAgreed-same_key g h other first c laws v theirs =
      let mine = (env.crypto.generate_key_pair g).0.private in
      (
        env.crypto.derive v.secret 32,
        exchange_comm env.crypto other other h g laws
            ∙ exchange-derived env.crypto other g _ (laws.length-public h)
            ∙ ap (λ (p : List ℕ). derived env.crypto (env.crypto.agree mine p)) (sym theirs)
            ∙ ap (derived env.crypto) v.agrees,
        v.seals,
      )
