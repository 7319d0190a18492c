-- ===== src/Client/Connecting.antt =====
-- Client::connect against any peer.
use protocom.Prelude.{
  ℕ, ◌≡◌, refl, sym, ap, ◌∙◌, subst, Bool, true, false, not, List, Option, none, some, arith,
  length, ◌==◌, ==_iff, Bool-cases, inl, inr, if◌then◌else◌, if-in, returned, Holds, Holds-bind,
  Holds-mono,
}
use mathlib.Core.Option.{some_inj}
use protocom.Frame
use protocom.Frame.{Frame}
use protocom.Messages.{KexMsg, ServerConnectedStateResponse, kex_ecdh, status_ok, kex_or_default}
use protocom.Crypto.{public_key_length}
use protocom.Coder.{Coder, encrypted, new_encrypted, decode}
use protocom.Kex
use protocom.Kex.{Kex, get_pub_key, load_other_key_arr, agree, agreed, get_key256}
use protocom.Protocol.State.{Env}
use protocom.Client.State.{FrameIo, Client}
use protocom.Client.{
  fetch_msg, admitted, await_admission, key_block, seal_up, agree_on, got_response, await_key,
  offer_key, handshake,
}
use protocom.Client.Exchanging.{Sent, send_msg-Sent, Fetched, fetch_msg-Fetched}

module _ {G I : Type 0} (env : Env G) (frame_io : FrameIo I) where
  -- Connected, and sealing with that key.
  abbrev IsSealed : List ℕ → Bool × Client G I → Type 0
  IsSealed key (ok, c) = (c.is_connected ≡ true) × (c.coder ≡ encrypted key)

  await_admission-IsSealed :
      (key : List ℕ) (resp : ServerConnectedStateResponse) (r : Bool × Client G I)
      → IsSealed key r
      → Holds (IsSealed key) (await_admission env frame_io resp r)
  unfolding await_admission
  await_admission-IsSealed key resp (false, c) v = v
  await_admission-IsSealed key resp (true, c) (connected, sealed) =
      Holds-bind (Fetched env frame_io env.connected_response resp c) (IsSealed key)
        (fetch_msg env frame_io env.connected_response resp c)
        (λ r. returned (admitted env frame_io r))
        (fetch_msg-Fetched env frame_io env.connected_response resp c)
        (λ r f. by_answer r (f.same.same_connected ∙ connected, f.same.same_coder ∙ sealed))
    where
      by_answer :
          (r : Bool × (ServerConnectedStateResponse × Client G I))
          → IsSealed key (r.0, r.1.1)
          → IsSealed key (admitted env frame_io r)
      by_answer (false, (m, c')) v = v
      by_answer (true, (m, c')) v =
          if-in (IsSealed key) (not (m.status == status_ok)) (false, c')
            (true, record c' { is_connected = true }) (λ _. v) (λ _. (refl, v.1))

  seal_up-IsSealed :
      (block : List ℕ) (key : Option (List ℕ)) (resp : ServerConnectedStateResponse)
      → (c : Client G I) → c.is_connected ≡ true
      → Holds (IsSealed (key_block block key)) (seal_up env frame_io block key resp c)
  unfolding seal_up new_encrypted
  seal_up-IsSealed block key resp c connected =
      Holds-bind (Sent env frame_io _) (IsSealed (key_block block key)) _
        (await_admission env frame_io resp) (send_msg-Sent env frame_io env.connected_request _ _)
        (λ r s.
          await_admission-IsSealed (key_block block key) resp r
            (s.same.same_connected ∙ connected, s.same.same_coder))

  -- The frame is what readFrame gave, of the connection as the write of a frame left it.
  pub record IsAnswer (frame : Frame) : Type 0 where
    pub offer : Frame
    pub at_offer : I
    pub at_answer : I
    pub behind : I
    pub offered : frame_io.write_frame offer at_offer ≡ returned (true, at_answer)
    pub read : frame_io.read_frame Frame.new at_answer ≡ returned (true, (frame, behind))

  -- What connect has when it gives true: an answer that was read behind its offer and that the
  -- first coder decoded, with status OK and a public key of 32 bytes, and a coder that seals with the key derived from the secret that the
  -- private key `priv` and this public key give.
  pub record KeyAgreed (priv : List ℕ) (first : Coder) (c : Client G I) : Type 0 where
    pub resp : ServerConnectedStateResponse
    pub frame : Frame
    pub answer : IsAnswer frame
    pub decoded :
        decode env.crypto env.connected_response first frame
          (record { status = 0; kex = none; iv = none })
        ≡ (true, resp)
    pub is_ok : resp.status ≡ status_ok
    pub is_ecdh : (kex_or_default resp.kex).alg ≡ kex_ecdh
    pub full_key : length (kex_or_default resp.kex).pkey ≡ public_key_length
    pub secret : List ℕ
    pub agrees : env.crypto.agree priv (kex_or_default resp.kex).pkey ≡ some secret
    pub seals : c.coder ≡ encrypted (env.crypto.derive secret 32)

  -- Connected in any case; and if the result is true, agreed on a key.
  abbrev pub IsAgreed : List ℕ → Coder → Bool × Client G I → Type 0
  IsAgreed priv first (ok, c) = (c.is_connected ≡ true) × (ok ≡ true → KeyAgreed priv first c)

  refused :
      (priv : List ℕ) (first : Coder) (c : Client G I)
      → c.is_connected ≡ true
      → IsAgreed priv first (false, c)
  refused priv first c connected = (connected, λ e. absurd (cc))

  agree_on-IsAgreed :
      (block priv : List ℕ) (first : Coder) (frame : Frame) (k : Kex)
      → (resp : ServerConnectedStateResponse) (c : Client G I) → k.priv_key ≡ priv
      → IsAnswer frame
      → decode env.crypto env.connected_response first frame
          (record { status = 0; kex = none; iv = none })
        ≡ (true, resp)
      → resp.status ≡ status_ok
      → c.is_connected ≡ true
      → Holds (IsAgreed priv first) (agree_on env frame_io block k resp c)
  unfolding agree_on load_other_key_arr agree agreed get_key256
  agree_on-IsAgreed block priv first frame k resp c mine answer decoded ok connected =
      elim (Bool-cases (alg == kex_ecdh)) [
        | inr other ↦ rw other no
        | inl ecdh ↦ elim (Bool-cases (length pkey == 32)) [
          | inr short ↦ rw (ecdh, short) no
          | inl full ↦ rw (ecdh, full) (by_secret ecdh full (env.crypto.agree k.priv_key pkey) refl)
        ]
      ]
    where
      alg : ℕ
      alg = (kex_or_default resp.kex).alg

      pkey : List ℕ
      pkey = (kex_or_default resp.kex).pkey

      no : IsAgreed priv first (false, c)
      no = refused priv first c connected

      by_secret :
          (alg == kex_ecdh) ≡ true
          → (length pkey == 32) ≡ true
          → (o : Option (List ℕ)) → env.crypto.agree k.priv_key pkey ≡ o
          → Holds (IsAgreed priv first) (
              let (done, k₂) = agreed env.crypto o (record k { pub_key_other = pkey }) in
              if not done
              then returned (false, c)
              else seal_up env frame_io block (get_key256 env.crypto 32 k₂) resp c)
      by_secret ecdh full none e = no
      by_secret ecdh full (some s) e =
          Holds-mono (IsSealed (env.crypto.derive s 32)) (IsAgreed priv first)
            (seal_up env frame_io block (some (env.crypto.derive s 32)) resp c)
            (seal_up-IsSealed block (some (env.crypto.derive s 32)) resp c connected)
            (λ (b, c') (conn, sealed). (
              conn,
              λ _. record {
                resp = resp;
                frame = frame;
                answer = answer;
                decoded = decoded;
                is_ok = ok;
                is_ecdh = (==_iff alg kex_ecdh).0 ecdh;
                full_key = (==_iff (length pkey) 32).0 full;
                secret = s;
                agrees = ap (λ (p : List ℕ). env.crypto.agree p pkey) (sym mine) ∙ e;
                seals = sealed;
              },
            ))

  got_response-IsAgreed :
      (block priv : List ℕ) (first : Coder) (k : Kex)
      → (r : Bool × (ServerConnectedStateResponse × Client G I)) → k.priv_key ≡ priv
      → (r.0 ≡ true
          → (f : Frame) × IsAnswer f
            × (decode env.crypto env.connected_response first f
                  (record { status = 0; kex = none; iv = none })
                ≡ (true, r.1.0)))
      → r.1.1.is_connected ≡ true
      → Holds (IsAgreed priv first) (got_response env frame_io block k r)
  unfolding got_response
  got_response-IsAgreed block priv first k (false, (resp, c)) mine decoded connected =
      refused priv first c connected
  got_response-IsAgreed block priv first k (true, (resp, c)) mine decoded connected =
      if-in (Holds (IsAgreed priv first)) (not (resp.status == status_ok)) _ _
        (λ _. refused priv first c connected) (λ good. by_kex (ground (arith, good)) resp.kex)
    where
      by_kex :
          resp.status ≡ status_ok
          → (o : Option KexMsg)
          → Holds (IsAgreed priv first) (elim o [
            | none ↦ returned (false, c)
            | some _ ↦ agree_on env frame_io block k resp c
          ])
      by_kex good none = refused priv first c connected
      by_kex good (some _) =
          agree_on-IsAgreed block priv first (decoded refl).0 k resp c mine (decoded refl).1
            (decoded refl).2 good connected

  await_key-IsAgreed :
      (block priv : List ℕ) (first : Coder) (k : Kex) (r : Bool × Client G I)
      → k.priv_key ≡ priv
      → r.1.coder ≡ first
      → (r.0 ≡ true
          → (f : Frame) × (io : I) × (io' : I) × (frame_io.write_frame f io ≡ returned (true, io'))
            × (r.1.io ≡ some io'))
      → r.1.is_connected ≡ true
      → Holds (IsAgreed priv first) (await_key env frame_io block k r)
  unfolding await_key
  await_key-IsAgreed block priv first k (false, c) mine plain_first offer connected =
      refused priv first c connected
  await_key-IsAgreed block priv first k (true, c) mine plain_first offer connected =
      let prev : ServerConnectedStateResponse = record { status = 0; kex = none; iv = none } in
      Holds-bind (Fetched env frame_io env.connected_response prev c) (IsAgreed priv first)
        (fetch_msg env frame_io env.connected_response prev c) (got_response env frame_io block k)
        (fetch_msg-Fetched env frame_io env.connected_response prev c)
        (λ r f.
          got_response-IsAgreed block priv first k r mine
            (λ e.
              let (f₁, io₁, io₂, offered, here) = offer refl in
              let (f₂, io₃, io₄, there, was_read, decoded) = f.decoded e in
              (
                f₂,
                record {
                  offer = f₁;
                  at_offer = io₁;
                  at_answer = io₂;
                  behind = io₄;
                  offered = offered;
                  read =
                      subst
                        (λ (i : I). frame_io.read_frame Frame.new i ≡ returned (true, (f₂, io₄)))
                        (some_inj.0 (sym there ∙ here)) was_read;
                },
                subst
                    (λ (x : Coder).
                      decode env.crypto env.connected_response x f₂ prev ≡ (true, r.1.0))
                    plain_first decoded,
              ))
            (f.same.same_connected ∙ connected))

  pub handshake-IsAgreed :
      (block : List ℕ) (fresh : Kex) (c : Client G I)
      → c.is_connected ≡ true
      → Holds
          (IsAgreed (env.crypto.generate_key_pair c.entropy).0.private c.coder)
          (handshake env frame_io block fresh c)
  unfolding handshake offer_key get_pub_key Kex.init
  handshake-IsAgreed block fresh c connected =
      let priv = (env.crypto.generate_key_pair c.entropy).0.private in
      let c₁ : Client G I = record c { entropy = (env.crypto.generate_key_pair c.entropy).1 } in
      Holds-bind (Sent env frame_io c₁) (IsAgreed priv c.coder) _ (await_key env frame_io block _)
        (send_msg-Sent env frame_io env.connected_request _ c₁)
        (λ r s.
          await_key-IsAgreed block priv c.coder _ r refl s.same.same_coder s.written
            (s.same.same_connected ∙ connected))
