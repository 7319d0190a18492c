-- ===== src/Server/Consistency.antt =====
-- The two tables of Server.cpp and ServerWorker.cpp, and the descriptors behind them.
use protocom.Prelude.{
  ℕ, ◌≡◌, ◌∙◌, refl, sym, ap, subst, Bool, true, false, List, [], ◌∷◌, ◌++◌, Option, none, some,
  arith, ◌==◌, if◌then◌else◌,
}
use protocom.Prelude.Tables.{
  keys, has, keys-emplace, keys-erase, keys-replace, has-emplace, has-erase, has-replace,
  AllEntries, emplace-AllEntries, erase-AllEntries, replace-AllEntries,
}
use protocom.Framer
use protocom.Framer.Refines.{IsValid}
use protocom.Protocol.Context
use protocom.Protocol.Context.{ProtocolContext, is_active, set_io}
use protocom.Authenticator.{UserTable}
use protocom.Protocol.State.{Factory}
use protocom.Server.State.{ConnectionContext, Worker, Server, new_connection}
use protocom.Server.Worker.{create_context, destroy_context}
use protocom.Server.Clients.{
  is_open, Accept, accept_aborted, accept_failed, accepted, close_fd, close_connection,
  accept_client,
}
use protocom.Server.Loop.{store_connection}

pub is_open-close_fd :
    (k j : ℕ) (fds : List ℕ)
    → is_open j (close_fd k fds) ≡ (if k == j then false else is_open j fds)
unfolding is_open close_fd
is_open-close_fd k j [] = ground arith
is_open-close_fd k j (i ∷ fds) = ground (arith, is_open-close_fd k j fds)

is_open-append :
    (k j : ℕ) (fds : List ℕ) → is_open j (fds ++ k ∷ []) ≡ (if k == j then true else is_open j fds)
unfolding is_open
is_open-append k j [] = ground arith
is_open-append k j (i ∷ fds) = ground (arith, is_open-append k j fds)

abbrev pub IsValidEntry : {S : Type 0} → ℕ → ConnectionContext S → Type 0
IsValidEntry k c = (c.fd ≡ k) × (c.framer.assoc_fd ≡ k) × IsValid c.framer

abbrev pub IsActiveEntry : {G : Type 0} → ℕ → ProtocolContext G → Type 0
IsActiveEntry k c = is_active c ≡ true

-- A new descriptor that epoll takes.
abbrev pub IsRegistered : {S : Type 0} → Accept S → Type 0
IsRegistered accept_aborted = Unit {0}
IsRegistered accept_failed = Unit {0}
IsRegistered (accepted k sock registered) = registered ≡ true

abbrev pub HoldsNew : {G : Type 0} → (ℕ → ProtocolContext G → Type 0) → Type 0
HoldsNew P =
    (k : ℕ) (factory : Option Factory) (g : _) → P k (set_io true (Context.new factory none g))

-- `P` is what the contexts keep, and `auth` the server's authenticator.
module _ {G S C : Type 0} (P : ℕ → ProtocolContext G → Type 0) (auth : Option UserTable) where
  -- The two tables have the same keys, which are the open descriptors. Every entry of the first has
  -- its key in its fields and a valid framer.
  pub record Consistent (s : Server G S C) : Type 0 where
    pub w : Worker G
    pub has_worker : s.worker ≡ some w
    pub same_keys : keys s.fd_info_table ≡ keys w.handler_table
    pub contexts : AllEntries P w.handler_table
    pub valid : AllEntries IsValidEntry s.fd_info_table
    pub unlimited : s.wq_in.item_limit ≡ 0
    pub same_authenticator : s.authenticator ≡ auth
    pub open_keys : (k : ℕ) → has k s.fd_info_table ≡ is_open k s.open_fds

  pub close_connection-Consistent :
      (k : ℕ) (c : ConnectionContext S) (s : Server G S C)
      → c.fd ≡ k
      → Consistent s
      → Consistent (close_connection k c s)
  unfolding close_connection destroy_context
  close_connection-Consistent k c s e v = record {
    w = destroy_context k v.w;
    has_worker = rw (v.has_worker) refl;
    same_keys = rw e (keys-erase k s.fd_info_table v.w.handler_table v.same_keys);
    contexts = erase-AllEntries P k v.w.handler_table v.contexts;
    valid = erase-AllEntries IsValidEntry c.fd s.fd_info_table v.valid;
    unlimited = v.unlimited;
    same_authenticator = v.same_authenticator;
    open_keys = λ j.
        has-erase c.fd j s.fd_info_table
        ∙ ap (λ (b : Bool). if c.fd == j then false else b) (v.open_keys j)
        ∙ sym (is_open-close_fd c.fd j s.open_fds);
  }

  pub store_connection-Consistent :
      (k : ℕ) (c : ConnectionContext S) (s : Server G S C)
      → IsValidEntry k c
      → Consistent s
      → Consistent (store_connection k c s)
  unfolding store_connection
  store_connection-Consistent k c s valid v = record {
    w = v.w;
    has_worker = v.has_worker;
    same_keys = keys-replace k c s.fd_info_table ∙ v.same_keys;
    contexts = v.contexts;
    valid = replace-AllEntries IsValidEntry k c s.fd_info_table valid v.valid;
    unlimited = v.unlimited;
    same_authenticator = v.same_authenticator;
    open_keys = λ j. has-replace k j c s.fd_info_table ∙ v.open_keys j;
  }

  accepted-Consistent :
      (k : ℕ) (sock : S) (s : Server G S C)
      → HoldsNew P
      → Consistent s
      → Consistent (accept_client (accepted k sock true) s)
  unfolding accept_client create_context Framer.new
  accepted-Consistent k sock s new_context v = rw (v.has_worker) (record {
    w = create_context k s.entropy v.w;
    has_worker = refl;
    same_keys = keys-emplace k _ _ s.fd_info_table v.w.handler_table v.same_keys;
    contexts =
        emplace-AllEntries P k (set_io true (Context.new v.w.user_handler_factory none s.entropy))
          v.w.handler_table (new_context k v.w.user_handler_factory s.entropy) v.contexts;
    valid =
        emplace-AllEntries IsValidEntry k (new_connection k sock) s.fd_info_table (refl, refl, refl)
          v.valid;
    unlimited = v.unlimited;
    same_authenticator = v.same_authenticator;
    open_keys = λ j.
        has-emplace k j _ s.fd_info_table
        ∙ ap (λ (b : Bool). if k == j then true else b) (v.open_keys j)
        ∙ sym (is_open-append k j s.open_fds);
  })

  pub accept_client-Consistent :
      (a : Accept S) (s : Server G S C)
      → IsRegistered a
      → HoldsNew P
      → Consistent s
      → Consistent (accept_client a s)
  unfolding accept_client
  accept_client-Consistent accept_aborted s r new_context v = v
  accept_client-Consistent accept_failed s r new_context v = record {
    w = v.w;
    has_worker = v.has_worker;
    same_keys = v.same_keys;
    contexts = v.contexts;
    valid = v.valid;
    unlimited = v.unlimited;
    same_authenticator = v.same_authenticator;
    open_keys = v.open_keys;
  }
  accept_client-Consistent (accepted k sock registered) s r new_context v =
      subst (λ (b : Bool). Consistent (accept_client (accepted k sock b) s)) (sym r)
        (accepted-Consistent k sock s new_context v)
