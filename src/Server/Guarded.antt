-- ===== src/Server/Guarded.antt =====
-- The order of the protocol's states in every connection of Server.cpp and ServerWorker.cpp.
use protocom.Prelude.{
  ℕ, ◌≡◌, refl, sym, subst, ◌∙◌, true, List, [], ◌∷◌, Option, none, some, returned, Holds-mono,
  Holds-all, Bool-cases, inl, inr, ◌==◌, ==_iff, arith, Leaves-returned,
}
use mathlib.Core.List.{Memᴰ}
use mathlib.Core.Option.{some_inj}
use protocom.Prelude.Tables.{lookup, AllEntries, lookup-AllEntries}
use protocom.Frame.{Frame}
use protocom.Socket.{Socket, ReceivesStream}
use protocom.Framer.Steps.{WholeLengths}
use protocom.Deframer.{Memory}
use protocom.Authenticator.{UserTable}
use protocom.Protocol.State.{Env, Factory}
use protocom.Protocol.Context.{ProtocolContext, is_active, set_io, handle_frame}
use protocom.Protocol.Context
use protocom.Protocol.Context.Gate.{IsGuardedState}
use protocom.Protocol.Context.Gate.Frames.{IsGuardedContext, handle_in-Guards}
use protocom.Server.State.{EventFd, Worker, Server}
use protocom.Server.Worker.{load}
use protocom.Server.Loop.{start_run}
use protocom.Server.Runs.{Action, run_actions, served}
use protocom.Server.Consistency.{Consistent, IsActiveEntry}
use protocom.Server.Rounds.{IsKept}
use protocom.Server.Interleavings.{
  AllSound, IsNew, run_actions-Keeps, run_actions-Consistent, new_active,
}

-- `k` is the descriptor whose context is followed.
module _ {G : Type 0} (env : Env G) (Received : ℕ → Frame → Type 0) (auth : Option UserTable)
    (k : ℕ) where
  -- Active; and the context of `k` is guarded by the frames that came for it.
  abbrev pub IsGuardedEntry : ℕ → ProtocolContext G → Type 0
  IsGuardedEntry j c = (is_active c ≡ true) × (j ≡ k → IsGuardedState env (Received j) auth c.state)

  new-Guarded :
      (j : ℕ) (factory : Option Factory) (g : G)
      → IsGuardedEntry j (set_io true (Context.new factory none g))
  new-Guarded j factory g = (new_active factory g, λ same done. absurd (cc))

  guarded-IsKept : IsKept env IsGuardedEntry auth Received
  unfolding handle_frame
  guarded-IsKept fresh j f g c rec (_, guarded) = elim (Bool-cases (j == k)) [
    | inl same ↦
        Holds-mono (IsGuardedContext env (Received j) auth)
          (λ (c' : ProtocolContext G). is_active c' ≡ true → IsGuardedEntry j c') _
          (handle_in-Guards env (Received j) auth fresh f c.state (load auth g c).ctx rec refl
            (guarded ((==_iff j k).0 same)))
          (λ c' g' active. (active, λ _. g'.0))
    | inr other ↦
        Holds-all (λ (c' : ProtocolContext G). is_active c' ≡ true → IsGuardedEntry j c') _
          (λ c' active. (active, λ same. absurd (cc (other, (==_iff j k).1 same))))
  ]

  -- Where `k` has no context, nothing is to be guarded.
  none-Guarded :
      (m : List (ℕ × ProtocolContext G))
      → lookup k m ≡ none
      → AllEntries IsActiveEntry m
      → AllEntries IsGuardedEntry m
  unfolding lookup
  none-Guarded [] e all = tt
  none-Guarded ((j, c) ∷ m) e (active, all) = elim (Bool-cases (j == k)) [
    | inl same ↦ absurd (cc (same, e))
    | inr other ↦ (
      (active, λ same. absurd (cc (other, (==_iff j k).1 same))),
      none-Guarded m (ground (arith, other, e)) all,
    )
  ]

  none-Consistent :
      {S C : Type 0} (s : Server G S C) (w : Worker G)
      → s.worker ≡ some w
      → lookup k w.handler_table ≡ none
      → Consistent IsActiveEntry auth s
      → Consistent IsGuardedEntry auth s
  none-Consistent s w has_worker nothing v = record {
    w = v.w;
    has_worker = v.has_worker;
    same_keys = v.same_keys;
    contexts =
        none-Guarded v.w.handler_table
          (subst (λ (x : Worker G). lookup k x.handler_table ≡ none)
            (some_inj.0 (sym has_worker ∙ v.has_worker)) nothing)
          v.contexts;
    valid = v.valid;
    unlimited = v.unlimited;
    same_authenticator = v.same_authenticator;
    open_keys = v.open_keys;
  }

module _ {G S C : Type 0} (env : Env G) (eventfd : EventFd C) (socket : Socket S)
    (mem : Memory) where
  -- Over a stream socket with whole lengths, from the start of a server without connections and
  -- without a limit on the incoming queue, after any sequence of steps of the two threads that
  -- return, where the freed memory of a closed connection still holds its descriptor and epoll
  -- takes every new one; and from any point `s₁` of the run on at which the descriptor `k` has no
  -- context: if the context of `k` has a complete key exchange, it seals with a key; and in the user
  -- state it has, under that key, a sealed frame that the worker served for `k` behind `s₁` and that
  -- the key opens, from whose text the parser leaves a request that the server's authenticator
  -- admits.
  pub run_actions-Guarded :
      (fuel : ℕ) (before after : List (Action S)) (s s₁ s' : Server G S C) (w₁ w : Worker G)
      → (k : ℕ) → (c : ProtocolContext G) → ReceivesStream socket
      → WholeLengths socket
      → IsNew s
      → AllSound before
      → AllSound after
      → run_actions env eventfd socket mem fuel before (start_run s) ≡ some (returned s₁)
      → s₁.worker ≡ some w₁
      → lookup k w₁.handler_table ≡ none
      → run_actions env eventfd socket mem fuel after s₁ ≡ some (returned s')
      → s'.worker ≡ some w
      → lookup k w.handler_table ≡ some c
      → IsGuardedState env
          (λ f. Memᴰ (k, f) (served env eventfd socket mem fuel after s₁))
          s.authenticator
          c.state
  run_actions-Guarded fuel before after s s₁ s' w₁ w k c stream whole new sound₁ sound e₁
        has_worker₁ nothing e has_worker found =
      let items = served env eventfd socket mem fuel after s₁ in
      let Came : ℕ → Frame → Type 0 = λ j f. Memᴰ (j, f) items in
      let P = IsGuardedEntry env Came s.authenticator k in
      let v₁ =
        run_actions-Consistent env eventfd socket mem fuel before s s₁ stream whole new sound₁ e₁ in
      let v = Leaves-returned (Consistent P s.authenticator) _ s' e (
        run_actions-Keeps env eventfd socket mem P s.authenticator Came fuel after s₁ stream whole
          (new-Guarded env Came s.authenticator k) (guarded-IsKept env Came s.authenticator k)
          (λ j x p. p.0) sound (λ j f m. m)
          (none-Consistent env Came s.authenticator k s₁ w₁ has_worker₁ nothing v₁)) in
      let same : v.w ≡ w = some_inj.0 (sym (v.has_worker) ∙ has_worker) in
      let found' : lookup k v.w.handler_table ≡ some c =
        subst (λ (x : Worker G). lookup k x.handler_table ≡ some c) (sym same) found in
      (lookup-AllEntries P k v.w.handler_table found' v.contexts).1 refl
