-- ===== src/WorkQueue.antt =====
-- WorkQueue.cpp and protocom/WorkQueue.h. Each method runs under the queue's mutex, so it is one
-- step; a blocking fetch is two, its entry and its wake-up, with the wait between them.
pub mod Fifo
use protocom.Prelude.{
  ℕ, zero, Bool, true, false, not, ◌&&◌, ◌||◌, List, [], ◌∷◌, ◌++◌, Option, none, some, ◌==◌, leb,
  length, if◌then◌else◌, Outcome, returned, threw,
}
use protocom.Frame
use protocom.Frame.{Frame}

abbrev pub WorkItem : Type 0
WorkItem = ℕ × Frame

-- The oldest item first. `item_limit` 0 is no limit. `notified` stands for the condition variable:
-- whether it was notified since the thread that waits for it fell asleep. One thread waits, the
-- worker's, so that notify_one and notify_all are the same.
pub record WorkQueue : Type 0 where
  pub queue : List WorkItem
  pub item_limit : ℕ
  pub fetch_cancelled : Bool
  pub notified : Bool

abbrev pub new : WorkQueue
new = record { queue = []; item_limit = 0; fetch_cancelled = false; notified = false }

abbrev pub set_item_limit : ℕ → WorkQueue → WorkQueue
set_item_limit n q = record q { item_limit = n }

-- `itemLimit && queue.size() >= itemLimit`
unfoldable pub limit_hit : WorkQueue → Bool
limit_hit q = not (q.item_limit == 0) && leb q.item_limit (length q.queue)

-- pushItem(const WorkItem&) copies the item, and pushItem(WorkItem&&) moves it.
unfoldable pub push_item_copy : WorkItem → WorkQueue → WorkQueue
unfolding limit_hit
push_item_copy (fd, f) q =
    if limit_hit q
    then q
    else record q { queue = q.queue ++ (fd, Frame.copy f) ∷ []; notified = true }

unfoldable pub push_item : WorkItem → WorkQueue → WorkQueue
unfolding limit_hit
push_item (fd, f) q =
    if limit_hit q
    then q
    else record q { queue = q.queue ++ (fd, (Frame.move f).0) ∷ []; notified = true }

-- `none` is the result false, with the item untouched.
unfoldable pub take_front : List WorkItem → WorkQueue → Option WorkItem × WorkQueue
take_front [] q = (none, q)
take_front (itm ∷ rest) q = (some itm, record q { queue = rest })

unfoldable pub fetch_item_non_blocking : WorkQueue → Option WorkItem × WorkQueue
unfolding take_front
fetch_item_non_blocking q = take_front q.queue q

-- fetchItemBlocking up to the wait.
unfoldable pub begin_fetch : WorkQueue → WorkQueue
begin_fetch q = record q { fetch_cancelled = false }

-- The condition of the wait.
unfoldable pub fetch_ready : WorkQueue → Bool
fetch_ready q = not (elim q.queue [ [] ↦ true | _ ∷ _ ↦ false ]) || q.fetch_cancelled

-- fetchItemBlocking behind the wait: `threw` is CancelledException.
unfoldable pub finish_fetch : WorkQueue → Outcome (Option WorkItem × WorkQueue)
unfolding fetch_item_non_blocking
finish_fetch q = if q.fetch_cancelled then threw else returned (fetch_item_non_blocking q)

-- A wait that has not been over: the thread is asleep, and unlocked the mutex.
pub data Waited : Type 0 where
  asleep : WorkQueue → Waited
  over : Outcome (Option WorkItem × WorkQueue) → Waited

-- The wait tests its condition, and falls asleep if it does not hold.
unfoldable pub test_wait : WorkQueue → Waited
unfolding fetch_ready finish_fetch
test_wait q =
    if fetch_ready q then over (finish_fetch q) else asleep (record q { notified = false })

-- fetchItemBlocking as it is called, and as it goes on when it was woken.
unfoldable pub enter_fetch : WorkQueue → Waited
unfolding begin_fetch test_wait
enter_fetch q = test_wait (begin_fetch q)

unfoldable pub wake_fetch : WorkQueue → Waited
unfolding test_wait
wake_fetch q = if q.notified then test_wait q else asleep q

unfoldable pub get_queued_count : WorkQueue → ℕ
get_queued_count q = length q.queue

unfoldable pub cancel_fetch : WorkQueue → WorkQueue
cancel_fetch q = record q { fetch_cancelled = true; notified = true }
