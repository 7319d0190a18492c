-- ===== src/Server/Worker.antt =====
-- ServerWorker.cpp, less its loop: the table of contexts and the sink that a context writes to.
use protocom.Prelude.{ℕ, Bool, true, List, [], ◌∷◌, Option, none}
use protocom.Prelude.Tables.{emplace, erase}
use protocom.Frame
use protocom.Frame.{Frame}
use protocom.WorkQueue.{WorkQueue, push_item}
use protocom.Authenticator.{UserTable}
use protocom.Protocol.State.{Factory}
use protocom.Protocol.Context.{ProtocolContext, set_io, is_active, handle_frame}
use protocom.Protocol.Context
use protocom.Server.State.{EventFd, Worker}

module _ {G : Type 0} where
  -- A new context takes the server's authenticator and the pools when a frame comes.
  unfoldable pub create_context : ℕ → G → Worker G → Worker G
  unfolding emplace
  create_context fd g w = record w {
    handler_table =
        emplace fd (set_io true (Context.new w.user_handler_factory none g)) w.handler_table;
  }

  unfoldable pub destroy_context : ℕ → Worker G → Worker G
  unfolding erase
  destroy_context fd w = record w { handler_table = erase fd w.handler_table }

  abbrev pub set_worker_factory : Option Factory → Worker G → Worker G
  set_worker_factory factory w = record w { user_handler_factory = factory }

  abbrev pub start : Worker G → Worker G
  start w = record w { started = true }

  -- What a context refers to when a frame comes: the server's authenticator and the pools now, and
  -- nothing written yet.
  abbrev pub load : Option UserTable → G → ProtocolContext G → ProtocolContext G
  load auth g c = record c {
    ctx = record c.ctx { authenticator = auth; entropy = g; written = [] };
  }

module _ {C : Type 0} (eventfd : EventFd C) where
  -- FrameSink::writeFrame, over the queue and the eventfd that the sink refers to.
  unfoldable pub write_to_sink : ℕ → Frame → WorkQueue × C → Bool × (WorkQueue × C)
  write_to_sink fd f (wq, c) =
      let (ok, c') = eventfd.write c in (ok, (push_item (fd, Frame.copy f) wq, c'))

  -- The handlers leave the result of writeFrame aside.
  unfoldable pub write_all_to_sink : ℕ → List Frame → WorkQueue × C → WorkQueue × C
  unfolding write_to_sink
  write_all_to_sink fd [] q = q
  write_all_to_sink fd (f ∷ fs) q = write_all_to_sink fd fs (write_to_sink fd f q).1
