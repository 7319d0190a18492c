-- ===== src/Server/Lasting/Events.antt =====
-- The events of Server::run, and what the handling of the next one relies on.
use protocom.Prelude.{ℕ, ◌<◌, refl, Option, none, some, length, ◌==◌, if-both, Leaves, if-Leaves}
use protocom.Prelude.Tables.{lookup, lookup-AllEntries, emplace-AllEntries}
use protocom.WorkQueue.{fetch_item_non_blocking}
use protocom.Socket.{Socket, ReceivesStream, SendsStream}
use protocom.Framer
use protocom.Framer.{Rx, read_all}
use protocom.Framer.Steps.{WholeLengths}
use protocom.Deframer
use protocom.Deframer.{Deframer, Tx, Memory, set_sent_item, write_all}
use protocom.Deframer.Refines.{WholeSends}
use protocom.Deframer.Apart.{SendsApart}
use protocom.Server.State.{EventFd, Worker, Server, new_connection}
use protocom.Server.Clients.{
  Accept, accept_aborted, accept_failed, accepted, create_with, create_handler, accept_client,
}
use protocom.Server.Loop.{
  Arrival, is_fd, handle_data_out, after_event, handle_event, handle_server_socket,
}
use protocom.Server.Servable.{IsServable, IsShort}
use protocom.Server.Lasting.{Served, handle_client-Served, send_front-Served}

module _ {G S C : Type 0} (socket : Socket S) (mem : Memory) (receives : ReceivesStream socket)
    (sends : SendsStream socket) (fuel : ℕ) (lengths : WholeLengths socket)
    (whole : WholeSends socket) (apart : SendsApart socket receives) where
  open receives use {incoming}

  abbrev Kept : Server G S C → Type 0
  Kept = Served socket mem receives sends fuel lengths whole apart

  create_with-Served :
      (k : ℕ) (sock : S) (o : Option (Worker G)) (s : Server G S C)
      → length (incoming sock) < fuel
      → Kept s
      → Kept (create_with k sock o s).1
  unfolding create_with Framer.new Deframer.new
  create_with-Served k sock none s short v = v
  create_with-Served k sock (some w) s short v = record {
    servable =
        emplace-AllEntries (IsServable socket mem receives sends fuel) k (new_connection k sock)
          s.fd_info_table
          (record { framer_valid = refl; deframer_valid = λ e. absurd (cc); enough_in = short })
          v.servable;
    whole_out = v.whole_out;
    unlimited = v.unlimited;
    enough = v.enough;
  }

  accept_client-Served :
      (x : Accept S) (s : Server G S C)
      → IsShort socket mem receives sends fuel x
      → Kept s
      → Kept (accept_client x s)
  unfolding accept_client create_handler
  accept_client-Served accept_aborted s short v = v
  accept_client-Served accept_failed s short v = record {
    servable = v.servable;
    whole_out = v.whole_out;
    unlimited = v.unlimited;
    enough = v.enough;
  }
  accept_client-Served (accepted k sock registered) s short v =
      create_with-Served k sock s.worker _ short (record {
        servable = v.servable;
        whole_out = v.whole_out;
        unlimited = v.unlimited;
        enough = v.enough;
      })

  pub handle_event-Served :
      (eventfd : EventFd C) (a : Arrival S) (s : Server G S C)
      → IsShort socket mem receives sends fuel a.accept
      → Kept s
      → Leaves Kept (handle_event socket mem fuel eventfd a s)
  unfolding handle_event handle_server_socket after_event handle_data_out fetch_item_non_blocking
      accept_client
  handle_event-Served eventfd a s short v =
      if-Leaves Kept (is_fd s.fd a.event.data_fd) _ _
        (λ listener.
          if-both Kept a.event.err _ _ (accept_client-Served accept_failed s tt v)
            (if-both Kept a.event.inp _ _ (accept_client-Served a.accept s short v) v))
        (λ other.
          if-Leaves Kept (a.event.data_fd == s.event_fd_out) _ _
            (λ notified. by_count (eventfd.read s.events).0 (eventfd.read s.events).1)
            (λ client.
              handle_client-Served socket mem receives sends fuel lengths whole apart a
                (lookup a.event.data_fd s.fd_info_table) s
                (λ c e.
                  lookup-AllEntries (IsServable socket mem receives sends fuel) a.event.data_fd
                    s.fd_info_table e v.servable)
                v))
    where
      counted : (c : C) → Kept (record s { events = c })
      counted c = record {
        servable = v.servable;
        whole_out = v.whole_out;
        unlimited = v.unlimited;
        enough = v.enough;
      }

      by_count :
          (n : Option ℕ) (c : C)
          → Leaves Kept (after_event socket mem fuel n (record s { events = c }))
      by_count none c = counted c
      by_count (some n) c =
          if-Leaves Kept (n == 8) _ _
            (λ complete.
              send_front-Served socket mem receives sends fuel lengths whole apart s.wq_out.queue
                (record s { events = c }) v.whole_out (counted c))
            (λ part. counted c)
