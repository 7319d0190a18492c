-- ===== src/Tests/Connections.antt =====
-- The server's queues at concrete states: a frame that is sent, and one that is dropped.
use protocom.Prelude.{
  ℕ, zero, suc, ◌+◌, ◌≡◌, ◌≢◌, inl, inr, refl, ap, sym, ◌∙◌, Bool, true, false, List, [], ◌∷◌, ◌++◌,
  subst, Option, none, some, arith, not, take, length, ◌<◌, Outcome, returned, threw,
}
use mathlib.Core.Option.{some_inj}
use protocom.Prelude.Tables.{lookup}
use protocom.Frame.{Frame, packet, wire}
use protocom.WorkQueue.{WorkItem}
use protocom.Socket.{Socket, SendsStream, SendResult, recv_again, send_again, sent, sent_none}
use protocom.Protocol.State.{test_user_handler_factory}
use protocom.Server.State.{CountsEvents, ConnectionContext, Worker, Server, new_connection}
use protocom.Server.Loop.{handle_data_out, start_run}
use protocom.Server.Counted.{run_actions-Counts}
use protocom.Server.DataOut.{handle_data_out-sends, handle_data_out-drops}
use protocom.Tests.Samples.{env}
use protocom.Tests.Wires.{count_of, Wires, wires, wires_send, wires-WholeSends}
use protocom.Tests.Sessions.{logged_in}
use protocom.Tests.Servers.{
  counter, counter_read, or_else, memory, new_server, login, after_login, result_of, logs_in,
}

abbrev pub hello : Frame
hello = record { header = 0xF0; len = 3; msg = 104 ∷ 105 ∷ 33 ∷ []; has_dynamic_data = true }

abbrev pub bye : Frame
bye = record { header = 0xF0; len = 1; msg = 98 ∷ []; has_dynamic_data = true }

abbrev pub no_bytes : Wires
no_bytes = record { incoming = []; outgoing = [] }

abbrev pub logged_in_worker : Worker ℕ
logged_in_worker = record {
  handler_table = (7, logged_in) ∷ [];
  user_handler_factory = some test_user_handler_factory;
  should_stop = false;
  started = true;
}

-- The client 7 is logged in, and two frames are queued for it.
abbrev pub queued : List WorkItem → Server ℕ Wires ℕ
queued items = record new_server {
  worker = some logged_in_worker;
  wq_out = record { queue = items; item_limit = 0; fetch_cancelled = false; notified = false };
  fd_info_table = (7, new_connection 7 no_bytes) ∷ [];
  open_fds = 7 ∷ [];
  watched = 7 ∷ [];
  events = length items;
}

abbrev counter_counts : CountsEvents counter
counter_counts = record {
  value = λ n. n;
  write_adds = λ c c' e. let next = ap (λ (x : Bool × ℕ). x.1) e in omega (arith, next);
  write_fails = λ c c' e. absurd (cc);
  read_takes = λ c c' e. taken c c' e;
  read_fails = λ c c' e. failed c c' e;
  read_whole = λ c c' n e. whole c c' n e;
}
  where
    taken : (c c' : ℕ) → counter_read c ≡ (some 8, c') → c ≡ c' + 1
    taken zero c' e = absurd (cc)
    taken (suc c) c' e = let next = ap (λ (x : Option ℕ × ℕ). x.1) e in omega (arith, next)

    failed : (c c' : ℕ) → counter_read c ≡ (none, c') → c' ≡ c
    failed zero c' e = sym (ap (λ (x : Option ℕ × ℕ). x.1) e)
    failed (suc c) c' e = absurd (cc)

    whole : (c c' n : ℕ) → counter_read c ≡ (some n, c') → n ≡ 8
    whole zero c' n e = absurd (cc)
    whole (suc c) c' n e = sym (some_inj.0 (ap (λ (x : Option ℕ × ℕ). x.0) e))

run_actions-Counts_example :
    (result_of new_server after_login).events
    ≡ length (result_of new_server after_login).wq_out.queue
unfolding start_run
run_actions-Counts_example =
    run_actions-Counts counter counter_counts env wires memory 300 login (start_run new_server)
      (result_of new_server after_login) (λ c. refl) refl refl logs_in.0

abbrev after_hello : Server ℕ Wires ℕ
after_hello = result_of new_server (handle_data_out wires memory 9 (queued ((7, hello) ∷ [])))

says_hello : handle_data_out wires memory 9 (queued ((7, hello) ∷ [])) ≡ some (returned after_hello)
unfolding handle_data_out protocom.Deframer.set_sent_item protocom.Deframer.new
    protocom.Deframer.write_all protocom.Deframer.try_write protocom.Deframer.bytes_at_len
    protocom.Prelude.len_bytes protocom.Prelude.sub_u32 protocom.Deframer.bytes_at_msg
    protocom.Prelude.ntohs lookup protocom.Prelude.Tables.replace
says_hello = refl

handle_data_out-sends_example :
    (c' : ConnectionContext Wires) × (lookup 7 after_hello.fd_info_table ≡ some c')
    × (c'.tx_ready ≡ not c'.deframer.write_in_progress)
    × (c'.tx_ready ≡ true → c'.sock.outgoing ≡ [] ++ wire (packet hello))
unfolding lookup protocom.Deframer.new
handle_data_out-sends_example =
    handle_data_out-sends wires memory wires_send 9 7 hello [] (new_connection 7 no_bytes)
      (queued ((7, hello) ∷ [])) after_hello wires-WholeSends refl refl refl refl (omega arith)
      says_hello

-- A socket whose buffer has room for two bytes only.
abbrev stalled_send : Wires → List ℕ → SendResult × Wires
stalled_send s [] = (sent_none, s)
stalled_send s (a ∷ []) = (send_again, s)
stalled_send s (a ∷ b ∷ []) = (sent 1, record s { outgoing = s.outgoing ++ a ∷ b ∷ [] })
stalled_send s (a ∷ b ∷ c ∷ bs) = (send_again, s)

abbrev stalled : Socket Wires
stalled = record { recv = λ s n. (recv_again, s); send = stalled_send }

abbrev stalled_sends : SendsStream stalled
stalled_sends = record {
  outgoing = λ s. s.outgoing;
  send_sent = λ s s' bs n e. sent_lem s s' bs n e;
  send_none = λ s s' bs e. none_lem s s' bs e;
  send_idle = λ s s' bs e. idle_lem s s' bs e;
}
  where
    sent_lem :
        (s s' : Wires) (bs : List ℕ) (n : ℕ)
        → stalled_send s bs ≡ (sent n, s')
        → (s'.outgoing ≡ s.outgoing ++ take (n + 1) bs) × (n < length bs)
    sent_lem s s' [] n e = absurd (cc)
    sent_lem s s' (a ∷ []) n e = absurd (cc)
    sent_lem s s' (a ∷ b ∷ []) n e =
        subst (λ (m : ℕ). (s'.outgoing ≡ s.outgoing ++ take (m + 1) (a ∷ b ∷ [])) × (m < 2))
          (ap (λ (x : SendResult × Wires). count_of x.0) e)
          (sym (ap (λ (x : SendResult × Wires). x.1.outgoing) e), omega arith)
    sent_lem s s' (a ∷ b ∷ c ∷ bs) n e = absurd (cc)

    none_lem :
        (s s' : Wires) (bs : List ℕ)
        → stalled_send s bs ≡ (sent_none, s')
        → s'.outgoing ≡ s.outgoing
    none_lem s s' [] e = sym (ap (λ (x : SendResult × Wires). x.1.outgoing) e)
    none_lem s s' (a ∷ []) e = absurd (cc)
    none_lem s s' (a ∷ b ∷ []) e = absurd (cc)
    none_lem s s' (a ∷ b ∷ c ∷ bs) e = absurd (cc)

    idle_lem :
        (s s' : Wires) (bs : List ℕ)
        → stalled_send s bs ≡ (send_again, s')
        → s'.outgoing ≡ s.outgoing
    idle_lem s s' [] e = absurd (cc)
    idle_lem s s' (a ∷ []) e = sym (ap (λ (x : SendResult × Wires). x.1.outgoing) e)
    idle_lem s s' (a ∷ b ∷ []) e = absurd (cc)
    idle_lem s s' (a ∷ b ∷ c ∷ bs) e = sym (ap (λ (x : SendResult × Wires). x.1.outgoing) e)

abbrev after_stall : Server ℕ Wires ℕ
after_stall =
    result_of new_server (handle_data_out stalled memory 9 (queued ((7, hello) ∷ (7, bye) ∷ [])))

abbrev waiting : ConnectionContext Wires
waiting = or_else (new_connection 7 no_bytes) (lookup 7 after_stall.fd_info_table)

stalls :
    (handle_data_out stalled memory 9 (queued ((7, hello) ∷ (7, bye) ∷ []))
      ≡ some (returned after_stall))
    × (lookup 7 after_stall.fd_info_table ≡ some waiting)
    × (waiting.tx_ready ≡ false)
unfolding handle_data_out protocom.Deframer.set_sent_item protocom.Deframer.new
    protocom.Deframer.write_all protocom.Deframer.try_write protocom.Deframer.bytes_at_len
    protocom.Prelude.len_bytes protocom.Prelude.sub_u32 protocom.Deframer.bytes_at_msg
    protocom.Prelude.ntohs lookup protocom.Prelude.Tables.replace
stalls = (refl, refl, refl)

handle_data_out-drops_example :
    handle_data_out stalled memory 9 after_stall
    ≡ some (returned (record after_stall { wq_out = record after_stall.wq_out { queue = [] } }))
unfolding lookup protocom.Deframer.new
handle_data_out-drops_example =
    handle_data_out-drops stalled memory stalled_sends 9 7 hello bye [] (new_connection 7 no_bytes)
      waiting (queued ((7, hello) ∷ (7, bye) ∷ [])) after_stall (λ s a b. inl refl) refl refl refl
      refl (omega arith) (stalls.0) (stalls.1) (stalls.2)
