-- ===== src/Server/State.antt =====
-- The data of protocom/Server.h and protocom/ServerWorker.h, and what the operating system gives.
use protocom.Prelude.{ℕ, zero, suc, ◌+◌, ◌≡◌, Bool, true, false, List, [], Option, none, some}
use protocom.Framer.{Framer}
use protocom.Framer
use protocom.Deframer.{Deframer}
use protocom.Deframer
use protocom.WorkQueue.{WorkQueue}
use protocom.WorkQueue
use protocom.Authenticator.{UserTable}
use protocom.Protocol.State.{Factory, null_user_handler_factory}
use protocom.Protocol.Context.{ProtocolContext}

-- The eventfd that tells the event loop of frames to send. `write` writes the number 1, and false is
-- -1; `read` asks for 8 bytes, and none is -1.
pub record EventFd (C : Type 0) : Type 0 where
  pub write : C → Bool × C
  pub read : C → Option ℕ × C

-- An eventfd with EFD_SEMAPHORE counts: a read takes one off, and fails where there is none.
pub record CountsEvents {C : Type 0} (eventfd : EventFd C) : Type 0 where
  pub value : C → ℕ
  pub write_adds : (c c' : C) → eventfd.write c ≡ (true, c') → value c' ≡ value c + 1
  pub write_fails : (c c' : C) → eventfd.write c ≡ (false, c') → value c' ≡ value c
  pub read_takes : (c c' : C) → eventfd.read c ≡ (some 8, c') → value c ≡ value c' + 1
  pub read_fails : (c c' : C) → eventfd.read c ≡ (none, c') → value c' ≡ value c
  pub read_whole : (c c' : C) (n : ℕ) → eventfd.read c ≡ (some n, c') → n ≡ 8

-- `sock` is the connected socket behind `fd`. The address, which is only printed, is left out.
pub record ConnectionContext (S : Type 0) : Type 0 where
  pub framer : Framer
  pub deframer : Deframer
  pub tx_ready : Bool
  pub fd : ℕ
  pub sock : S

-- ServerWorker, with its thread: whether it was started.
pub record Worker (G : Type 0) : Type 0 where
  pub handler_table : List (ℕ × ProtocolContext G)
  pub user_handler_factory : Option Factory
  pub should_stop : Bool
  pub started : Bool

-- `fd` is none for -1. `events` is the state behind `event_fd_out`, `entropy` the random pools of
-- all contexts, `open_fds` the descriptors of clients that were accepted and not yet closed, and
-- `watched` those of them that are in epoll's set.
pub record Server (G S C : Type 0) : Type 0 where
  pub worker : Option (Worker G)
  pub authenticator : Option UserTable
  pub wq_in : WorkQueue
  pub wq_out : WorkQueue
  pub fd : Option ℕ
  pub event_fd_out : ℕ
  pub info_string : List ℕ
  pub fd_info_table : List (ℕ × ConnectionContext S)
  pub user_handler_factory : Option Factory
  pub running : Bool
  pub events : C
  pub entropy : G
  pub open_fds : List ℕ
  pub watched : List ℕ

-- ConnectionContext's constructor.
abbrev pub new_connection : {S : Type 0} → ℕ → S → ConnectionContext S
new_connection fd s = record {
  framer = Framer.new fd;
  deframer = Deframer.new;
  tx_ready = false;
  fd = fd;
  sock = s;
}

-- ServerWorker's constructor.
abbrev pub new_worker : {G : Type 0} → Option Factory → Worker G
new_worker factory = record {
  handler_table = [];
  user_handler_factory = factory;
  should_stop = false;
  started = false;
}

module _ {G S C : Type 0} where
  -- The members of a new server. `name` is the text "A server.".
  abbrev pub initial : List ℕ → ℕ → C → G → Server G S C
  initial name event_fd c g = record {
    worker = none;
    authenticator = none;
    wq_in = WorkQueue.new;
    wq_out = WorkQueue.new;
    fd = none;
    event_fd_out = event_fd;
    info_string = name;
    fd_info_table = [];
    user_handler_factory = some null_user_handler_factory;
    running = false;
    events = c;
    entropy = g;
    open_fds = [];
    watched = [];
  }

  -- The constructor behind epoll_create and eventfd: none is the exception where one of them gave a
  -- number below 1.
  unfoldable pub new : List ℕ → ℕ → ℕ → C → G → Option (Server G S C)
  new name zero event_fd c g = none
  new name (suc epoll_fd) zero c g = none
  new name (suc epoll_fd) (suc event_fd) c g = some (initial name (suc event_fd) c g)

  abbrev pub get_event_fd_out : Server G S C → ℕ
  get_event_fd_out s = s.event_fd_out

  abbrev pub is_running : Server G S C → Bool
  is_running s = s.running

  abbrev pub set_user_handler_factory : Option Factory → Server G S C → Server G S C
  set_user_handler_factory factory s = record s { user_handler_factory = factory }

  abbrev pub set_info_string : List ℕ → Server G S C → Server G S C
  set_info_string name s = record s { info_string = name }

  abbrev pub get_authenticator : Server G S C → Option UserTable
  get_authenticator s = s.authenticator

  abbrev pub set_authenticator : Option UserTable → Server G S C → Server G S C
  set_authenticator auth s = record s { authenticator = auth }

  -- bindSock by the results of socket, bind, listen and the two calls of epoll_ctl. A descriptor
  -- that socket gave stays, whatever fails behind it.
  unfoldable pub bind_sock :
      Option ℕ → Bool → Bool → Bool → Bool → Server G S C → Bool × Server G S C
  bind_sock none bound listening added notified s = (false, record s { fd = none })
  bind_sock (some n) false listening added notified s = (false, record s { fd = some n })
  bind_sock (some n) true false added notified s = (false, record s { fd = some n })
  bind_sock (some n) true true false notified s = (false, record s { fd = some n })
  bind_sock (some n) true true true false s = (false, record s { fd = some n })
  bind_sock (some n) true true true true s = (true, record s { fd = some n; running = true })
