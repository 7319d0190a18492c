-- ===== src/Server/Stale.antt =====
-- What a descriptor in Server.cpp that is closed and given to the next client leaves behind.
use protocom.Prelude.{
  ℕ, ◌≡◌, ◌≢◌, ◌<◌, refl, sym, ◌∙◌, subst, true, false, List, ◌∷◌, ◌++◌, some, arith, length, ◌==◌,
  ==_iff, returned,
}
use mathlib.Core.Option.{some_inj}
use protocom.Server.DataOut.{handle_data_out-sends}
use protocom.Prelude.Tables.{lookup, erase, lookup-emplace, lookup-erase}
use protocom.Frame.{Frame, packet, wire}
use protocom.WorkQueue.{WorkItem}
use protocom.Socket.{Socket, SendsStream}
use protocom.Deframer
use protocom.Deframer.{Deframer, Tx, Memory, write_all, set_sent_item}
use protocom.Deframer.Refines.{WholeSends}
use protocom.Protocol.Context.{ProtocolContext}
use protocom.Server.State.{ConnectionContext, Worker, Server, new_connection}
use protocom.Server.Worker.{create_context, destroy_context}
use protocom.Server.Clients.{accepted, close_connection, accept_client}
use protocom.Server.Loop.{handle_data_out}

-- The next client on the descriptor of a connection that the event loop closes.
abbrev pub reopen : {G S C : Type 0} → ℕ → ConnectionContext S → S → Server G S C → Server G S C
reopen freed c sock s = accept_client (accepted c.fd sock true) (close_connection freed c s)

module _ {G S C : Type 0} where
  -- What lookups find in the tables after the close and the accept.
  reopen-connection :
      (freed : ℕ) (c : ConnectionContext S) (sock : S) (s : Server G S C) (w : Worker G)
      → s.worker ≡ some w
      → lookup c.fd (reopen freed c sock s).fd_info_table ≡ some (new_connection c.fd sock)
  unfolding accept_client close_connection
  reopen-connection freed c sock s w has_worker =
      rw
        (
          has_worker,
          lookup-emplace c.fd c.fd (new_connection c.fd sock) (erase c.fd s.fd_info_table),
          lookup-erase c.fd c.fd s.fd_info_table,
          (==_iff c.fd c.fd).1 refl,
        )
        refl

  reopen-wq_out :
      (freed : ℕ) (c : ConnectionContext S) (sock : S) (s : Server G S C) (w : Worker G)
      → s.worker ≡ some w
      → (reopen freed c sock s).wq_out.queue ≡ s.wq_out.queue
  unfolding accept_client close_connection
  reopen-wq_out freed c sock s w has_worker = rw has_worker refl

  -- If the freed memory no longer holds the descriptor: a connection whose descriptor is closed by
  -- the event loop and taken by the next client leaves its context, with its key and its state, to
  -- that client.
  pub reopen-stale_context :
      (freed : ℕ) (c : ConnectionContext S) (sock : S) (s : Server G S C) (w : Worker G)
      → (old : ProtocolContext G) → freed ≢ c.fd
      → s.worker ≡ some w
      → lookup c.fd w.handler_table ≡ some old
      → (w' : Worker G) × ((reopen freed c sock s).worker ≡ some w')
        × (lookup c.fd w'.handler_table ≡ some old)
        × (lookup c.fd (reopen freed c sock s).fd_info_table ≡ some (new_connection c.fd sock))
  unfolding accept_client close_connection create_context destroy_context
  reopen-stale_context freed c sock s w old moved has_worker found =
      let old_table = erase freed w.handler_table in
      let kept : (freed == c.fd) ≡ false = ground (arith, moved) in
      (
        create_context c.fd s.entropy (destroy_context freed w),
        rw has_worker refl,
        rw
            (
              lookup-emplace c.fd c.fd _ old_table,
              lookup-erase freed c.fd w.handler_table,
              kept,
              found,
              (==_iff c.fd c.fd).1 refl,
            )
            refl,
        reopen-connection freed c sock s w has_worker,
      )

module _ {G S C : Type 0} (socket : Socket S) (mem : Memory) (stream : SendsStream socket)
    (fuel : ℕ) where
  open stream use {outgoing}

  -- Over a stream socket with whole lengths: a frame of its true length that is in front of the
  -- outgoing queue when the event loop closes its connection, and whose descriptor the next client
  -- takes, goes to that client: when handleDataOut returns with the new connection marked as ready,
  -- the new socket has sent exactly the old frame.
  pub reopen-stale_output :
      (freed : ℕ) (c c' : ConnectionContext S) (sock : S) (s s' : Server G S C) (w : Worker G)
      → (f : Frame) (rest : List WorkItem) → WholeSends socket
      → s.worker ≡ some w
      → s.wq_out.queue ≡ (c.fd, f) ∷ rest
      → length f.msg ≡ f.len
      → f.len < 65536
      → handle_data_out socket mem fuel (reopen freed c sock s) ≡ some (returned s')
      → lookup c.fd s'.fd_info_table ≡ some c'
      → c'.tx_ready ≡ true
      → outgoing c'.sock ≡ outgoing sock ++ wire (packet f)
  unfolding Deframer.new
  reopen-stale_output freed c c' sock s s' w f rest whole has_worker front full fits e found ready =
      let (c₁, found₁, _, sent) =
        handle_data_out-sends socket mem stream fuel c.fd f rest (new_connection c.fd sock)
          (reopen freed c sock s) s' whole (reopen-wq_out freed c sock s w has_worker ∙ front)
          (reopen-connection freed c sock s w has_worker) refl full fits e in
      let same : c₁ ≡ c' = some_inj.0 (sym found₁ ∙ found) in
      subst
        (λ (x : ConnectionContext S).
          x.tx_ready ≡ true → outgoing x.sock ≡ outgoing sock ++ wire (packet f))
        same sent ready
