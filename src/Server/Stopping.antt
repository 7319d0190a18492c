-- ===== src/Server/Stopping.antt =====
-- ServerWorker::stop against the loop of ServerWorker::run, statement by statement, over the queue
-- that both use. What the worker does with an item is left out: it ends.
use protocom.Prelude.{
  ◌≡◌, refl, Bool, true, false, not, ◌||◌, List, [], ◌∷◌, Option, none, some, if◌then◌else◌,
  returned, threw,
}
use protocom.WorkQueue.{
  WorkItem, WorkQueue, begin_fetch, fetch_ready, finish_fetch, cancel_fetch, Waited, asleep, over,
  test_wait, enter_fetch, wake_fetch,
}

-- Where the worker's thread is: in front of its test of shouldStop, in front of the call of
-- fetchItemBlocking, in the wait of it, or at its end.
pub data WorkerPc : Type 0 where
  at_test at_fetch in_wait at_end : WorkerPc

-- Where the thread in ServerWorker::stop is: in front of its three statements, or behind them.
pub data StopPc : Type 0 where
  at_flag at_cancel at_join has_joined : StopPc

pub record Threads : Type 0 where
  pub wq : WorkQueue
  pub should_stop : Bool
  pub worker : WorkerPc
  pub stopper : StopPc

-- fetchItemBlocking, asleep in its wait or over. An exception and an item both lead to the test.
after_wait : Waited → Threads → Threads
after_wait (asleep wq) t = record t { worker = in_wait; wq = wq }
after_wait (over threw) t = record t { worker = at_test }
after_wait (over (returned (itm, wq))) t = record t { worker = at_test; wq = wq }

-- The next statement of each thread; none where it is blocked, or at its end. In the wait it is
-- blocked until the condition variable is notified.
step_worker : WorkerPc → Threads → Option Threads
unfolding begin_fetch enter_fetch wake_fetch after_wait
step_worker at_test t = some (record t { worker = if t.should_stop then at_end else at_fetch })
step_worker at_fetch t = some (after_wait (enter_fetch t.wq) (record t { wq = begin_fetch t.wq }))
step_worker in_wait t = if t.wq.notified then some (after_wait (wake_fetch t.wq) t) else none
step_worker at_end t = none

step_stopper : StopPc → Threads → Option Threads
unfolding cancel_fetch
step_stopper at_flag t = some (record t { should_stop = true; stopper = at_cancel })
step_stopper at_cancel t = some (record t { wq = cancel_fetch t.wq; stopper = at_join })
step_stopper at_join t = elim t.worker [
  | at_test ↦ none
  | at_fetch ↦ none
  | in_wait ↦ none
  | at_end ↦ some (record t { stopper = has_joined })
]
step_stopper has_joined t = none

pub data Thread : Type 0 where
  worker stopper : Thread

unfoldable pub step : Thread → Threads → Option Threads
unfolding step_worker step_stopper
step worker t = step_worker t.worker t
step stopper t = step_stopper t.stopper t

-- An interleaving in which no statement was blocked.
unfoldable pub run_threads : List Thread → Threads → Option Threads
unfolding step
run_threads [] t = some t
run_threads (x ∷ xs) t = elim (step x t) [ none ↦ none | some t' ↦ run_threads xs t' ]

-- With no item in the queue, if the worker has passed its test when stop() is called, and goes on
-- to wait when stop() has cancelled: then the fetch has cleared the cancellation, and both threads
-- are blocked, the worker in its wait and stop() in its join.
pub stop-deadlock :
    (t : Threads)
    → t.wq.queue ≡ []
    → t.worker ≡ at_fetch
    → t.stopper ≡ at_flag
    → (t' : Threads) × (run_threads (stopper ∷ stopper ∷ worker ∷ []) t ≡ some t')
      × (t'.worker ≡ in_wait)
      × (t'.stopper ≡ at_join)
      × (t'.should_stop ≡ true)
      × ((x : Thread) → step x t' ≡ none)
unfolding run_threads step begin_fetch fetch_ready cancel_fetch enter_fetch test_wait
stop-deadlock t empty at_work at_stop =
    let cancelled = record (begin_fetch (cancel_fetch t.wq)) { notified = false } in
    (
      record { wq = cancelled; should_stop = true; worker = in_wait; stopper = at_join },
      rw (at_stop, at_work, empty) refl,
      refl,
      refl,
      refl,
      λ x.
          elim x
            as (λ y.
              step y
                (record { wq = cancelled; should_stop = true; worker = in_wait; stopper = at_join })
              ≡ none) [ worker ↦ refl | stopper ↦ refl ],
    )

cancel_fetch-ready : (q : WorkQueue) → fetch_ready (cancel_fetch q) ≡ true
unfolding fetch_ready cancel_fetch
cancel_fetch-ready q = by_items q.queue
  where
    by_items : (xs : List WorkItem) → (not (elim xs [ [] ↦ true | _ ∷ _ ↦ false ]) || true) ≡ true
    by_items [] = refl
    by_items (x ∷ xs) = refl

other : Thread → Thread
other worker = stopper
other stopper = worker

-- The threads make these steps one after the other, and at each of them the other thread is blocked.
pub OnlyRun : List Thread → Threads → Threads → Type 0
unfolding step other
OnlyRun [] t t' = t ≡ t'
OnlyRun (x ∷ xs) t t' =
    (step (other x) t ≡ none) × ((u : Threads) × (step x t ≡ some u) × OnlyRun xs u t')

-- If stop() is called while the worker is asleep in its wait, whatever is in the queue: there is one
-- order only in which the threads can go on, and in it stop() sets the flag and cancels the fetch,
-- the worker wakes up and leaves its loop, and stop() comes back, with the items still in the queue.
pub stop-waiting :
    (q : WorkQueue) (flag : Bool)
    → q.notified ≡ false
    → OnlyRun
        (stopper ∷ stopper ∷ worker ∷ worker ∷ stopper ∷ [])
        (record { wq = q; should_stop = flag; worker = in_wait; stopper = at_flag })
        (record { wq = cancel_fetch q; should_stop = true; worker = at_end; stopper = has_joined })
unfolding OnlyRun step cancel_fetch wake_fetch test_wait finish_fetch
stop-waiting q flag sleeps = (
  rw sleeps refl,
  (
    _,
    refl,
    (rw sleeps refl, (_, refl, (refl, (_, woken, (refl, (_, refl, (refl, (_, refl, refl)))))))),
  ),
)
  where
    woken :
        step worker
          (record { wq = cancel_fetch q; should_stop = true; worker = in_wait; stopper = at_join })
        ≡ some (record {
          wq = cancel_fetch q;
          should_stop = true;
          worker = at_test;
          stopper = at_join;
        })
    woken = rw (cancel_fetch-ready q) refl
