-- ===== src/Server/Rounds.antt =====
-- The rounds of ServerWorker::run, and what they keep of the two tables.
use protocom.Prelude.{
  ℕ, List, [], ◌∷◌, ◌≡◌, ◌∙◌, refl, sym, ap, subst, Bool, true, false, Option, none, some, inl, inr,
  ◌==◌, Bool-cases, if◌then◌else◌, Outcome, returned, threw, Holds, Holds-bind, Holds-returned,
}
use protocom.Prelude.Tables.{
  lookup, replace, keys-replace, keys-erase, has-erase, lookup-same_keys, lookup-AllEntries,
  replace-AllEntries, mono-AllEntries, But, erase-But, erase-AllEntries,
}
use protocom.Frame.{Frame}
use protocom.Kex.{Kex}
use protocom.WorkQueue.{WorkItem, WorkQueue, finish_fetch, fetch_item_non_blocking, take_front}
use protocom.Authenticator.{UserTable}
use protocom.Protocol.State.{Env}
use protocom.Protocol.Context.{ProtocolContext, is_active, handle_frame}
use protocom.Server.State.{EventFd, ConnectionContext, Worker, Server}
use protocom.Server.Worker.{load, destroy_context}
use protocom.Server.Clients.{close_client}
use protocom.Server.Serve.{
  store_context, close_inactive, serve_active, serve_found, serve_with, serve_fetched, fetched,
  serve_item, worker_round,
}
use protocom.Server.Events.{with_wq_in}
use protocom.Server.Consistency.{Consistent, IsValidEntry, is_open-close_fd}

module _ {G S C : Type 0} (P : ℕ → ProtocolContext G → Type 0) (auth : Option UserTable) where
  mono-Consistent :
      (Q : ℕ → ProtocolContext G → Type 0) (s : Server G S C)
      → ((k : ℕ) (c : ProtocolContext G) → P k c → Q k c)
      → Consistent P auth s
      → Consistent Q auth s
  mono-Consistent Q s f v = record {
    w = v.w;
    has_worker = v.has_worker;
    same_keys = v.same_keys;
    contexts = mono-AllEntries P Q v.w.handler_table f v.contexts;
    valid = v.valid;
    unlimited = v.unlimited;
    same_authenticator = v.same_authenticator;
    open_keys = v.open_keys;
  }

  -- The worker's closeClient takes the context away that alone may have lost what the others keep.
  close_client-Consistent :
      (k : ℕ) (c : ConnectionContext S) (s : Server G S C)
      → lookup k s.fd_info_table ≡ some c
      → Consistent (But k P) auth s
      → Consistent P auth (close_client k s)
  unfolding close_client destroy_context
  close_client-Consistent k c s found v =
      let same = (lookup-AllEntries IsValidEntry k s.fd_info_table found v.valid).0 in
      rw (found, v.has_worker, same)
        (record {
          w = destroy_context k v.w;
          has_worker = refl;
          same_keys = keys-erase k s.fd_info_table v.w.handler_table v.same_keys;
          contexts = erase-But P k v.w.handler_table v.contexts;
          valid = erase-AllEntries IsValidEntry k s.fd_info_table v.valid;
          unlimited = v.unlimited;
          same_authenticator = v.same_authenticator;
          open_keys = λ j.
              has-erase k j s.fd_info_table
              ∙ ap (λ (b : Bool). if k == j then false else b) (v.open_keys j)
              ∙ sym (is_open-close_fd k j s.open_fds);
        })

  store_context-Consistent :
      (eventfd : EventFd C) (k : ℕ) (c : ProtocolContext G) (s : Server G S C)
      → P k c
      → (v : Consistent P auth s) → Consistent P auth (store_context eventfd k c v.w s)
  unfolding store_context
  store_context-Consistent eventfd k c s p v = record {
    w = record v.w { handler_table = replace k c v.w.handler_table };
    has_worker = refl;
    same_keys = v.same_keys ∙ sym (keys-replace k c v.w.handler_table);
    contexts = replace-AllEntries P k c v.w.handler_table p v.contexts;
    valid = v.valid;
    unlimited = v.unlimited;
    same_authenticator = v.same_authenticator;
    open_keys = v.open_keys;
  }

-- What the contexts keep, and the items whose frames keep it.
module _ {G : Type 0} (env : Env G) (P : ℕ → ProtocolContext G → Type 0) (auth : Option UserTable)
    (Received : ℕ → Frame → Type 0) where
  abbrev pub IsKept : Type 0
  IsKept =
      (fresh : Kex) (k : ℕ) (f : Frame) (g : G) (c : ProtocolContext G)
      → Received k f
      → P k c
      → Holds (λ c'. is_active c' ≡ true → P k c') (handle_frame env fresh f (load auth g c))

finish_fetch-item_limit :
    (q : WorkQueue)
    → Holds (λ (x : Option WorkItem × WorkQueue). x.1.item_limit ≡ q.item_limit) (finish_fetch q)
unfolding finish_fetch fetch_item_non_blocking
finish_fetch-item_limit q = by_state q.fetch_cancelled q.queue
  where
    by_state :
        (b : Bool) (xs : List WorkItem)
        → Holds
            (λ (x : Option WorkItem × WorkQueue). x.1.item_limit ≡ q.item_limit)
            (if b then threw else returned (take_front xs q))
    by_state true xs = tt
    by_state false [] = refl
    by_state false (x ∷ xs) = refl

abbrev pub IsAlive : {G : Type 0} → (ℕ → ProtocolContext G → Type 0) → Type 0
IsAlive P = (k : ℕ) (c : ProtocolContext _) → P k c → is_active c ≡ true

module _ {G S C : Type 0} (env : Env G) (eventfd : EventFd C) (P : ℕ → ProtocolContext G → Type 0)
    (auth : Option UserTable) (Received : ℕ → Frame → Type 0) where
  served-Consistent :
      (k : ℕ) (c : ProtocolContext G) (s : Server G S C)
      → (old : ProtocolContext G) → (v : Consistent P auth s)
      → lookup k v.w.handler_table ≡ some old
      → (is_active c ≡ true → P k c)
      → Consistent P auth (close_inactive k c (store_context eventfd k c v.w s))
  unfolding close_inactive store_context mono-Consistent
  served-Consistent k c s old v found p = elim (Bool-cases (is_active c)) [
    | inl active ↦ rw active (store_context-Consistent P auth eventfd k c s (p active) v)
    | inr inactive ↦
        let here = lookup-same_keys k v.w.handler_table s.fd_info_table (sym v.same_keys) found in
        rw inactive (
          close_client-Consistent P auth k here.0 (store_context eventfd k c v.w s) here.1 (
            store_context-Consistent (But k P) auth eventfd k c s (inl refl)
              (mono-Consistent P auth (But k P) s (λ j x y. inr y) v)))
  ]

  serve_item-Consistent :
      (fresh : Kex) (k : ℕ) (f : Frame) (s : Server G S C)
      → IsKept env P auth Received
      → IsAlive P
      → Received k f
      → Consistent P auth s
      → Holds (Consistent P auth) (serve_item env eventfd fresh (k, f) s)
  unfolding serve_item serve_with serve_found serve_active
  serve_item-Consistent fresh k f s kept alive rec v =
      subst
        (λ (o : Option (Worker G)).
          Holds (Consistent P auth) (serve_with env eventfd fresh (k, f) o s))
        (sym v.has_worker) (by_context (lookup k v.w.handler_table) refl)
    where
      by_context :
          (o : Option (ProtocolContext G))
          → lookup k v.w.handler_table ≡ o
          → Holds (Consistent P auth) (serve_found env eventfd fresh (k, f) o v.w s)
      by_context none e = v
      by_context (some c) e =
          let p = lookup-AllEntries P k v.w.handler_table e v.contexts in
          rw (alive k c p) (
            Holds-bind (λ (c' : ProtocolContext G). is_active c' ≡ true → P k c')
              (Consistent P auth) _ _
              (subst
                (λ (a : Option UserTable).
                  Holds (λ (c' : ProtocolContext G). is_active c' ≡ true → P k c')
                    (handle_frame env fresh f (load a s.entropy c)))
                (sym v.same_authenticator) (kept fresh k f s.entropy c rec p))
              (λ c' p'. served-Consistent k c' s c v e p'))

  -- With the item that the fetch gives, if any.
  pub worker_round-Consistent :
      (fresh : Kex) (s : Server G S C)
      → IsKept env P auth Received
      → IsAlive P
      → ((k : ℕ) (f : Frame) → fetched s ≡ some (k, f) → Received k f)
      → Consistent P auth s
      → Holds (Consistent P auth) (worker_round env eventfd fresh s)
  unfolding worker_round serve_fetched fetched
  worker_round-Consistent fresh s kept alive rec v = by_fetch (finish_fetch s.wq_in) refl
    where
      by_fetch :
          (o : Outcome (Option WorkItem × WorkQueue))
          → finish_fetch s.wq_in ≡ o
          → Holds (Consistent P auth) (serve_fetched env eventfd fresh o s)
      by_fetch threw e = v
      by_fetch (returned (none, q)) e = v
      by_fetch (returned (some (k, f), q)) e =
          let unlimited : q.item_limit ≡ 0 =
            Holds-returned
              (λ (x : Option WorkItem × WorkQueue). x.1.item_limit ≡ s.wq_in.item_limit) _ _ e
              (finish_fetch-item_limit s.wq_in)
            ∙ v.unlimited in
          serve_item-Consistent fresh k f (record s { wq_in = q }) kept alive
            (rec k f (
              ap
                (λ (o : Outcome (Option WorkItem × WorkQueue)). elim o [
                  | threw ↦ none
                  | returned (itm, wq) ↦ itm
                ])
                e))
            (with_wq_in P auth q s unlimited v)
