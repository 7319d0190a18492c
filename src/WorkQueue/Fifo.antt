-- ===== src/WorkQueue/Fifo.antt =====
-- The queue's order and limit, over any sequence of its calls.
use protocom.Prelude.{
  ℕ, suc, ◌≤◌, ◌≡◌, refl, true, List, [], ◌∷◌, ◌++◌, Option, none, some, arith, length,
  length-append, append_assoc, append-nil, ap, sym, ◌∙◌, if-both, Outcome, returned, threw,
}
use protocom.Frame
use protocom.Frame.{Frame}
use protocom.WorkQueue.{
  WorkQueue, WorkItem, set_item_limit, push_item, push_item_copy, fetch_item_non_blocking,
  take_front, finish_fetch, begin_fetch, fetch_ready, Waited, asleep, over, test_wait, enter_fetch,
  wake_fetch, cancel_fetch,
}

-- The calls of one queue, as its threads make them. A blocking fetch is its call, and each time
-- that its thread goes on behind the wait.
pub data Call : Type 0 where
  push push_copy : WorkItem → Call
  fetch enter wake cancel : Call
  set_limit : ℕ → Call

abbrev pub taken : Option WorkItem → List WorkItem
taken none = []
taken (some i) = i ∷ []

-- The item that a blocking fetch returned, if any, and the queue. An exception leaves the queue as
-- it was.
abbrev pub left_by : WorkQueue → Waited → List WorkItem × WorkQueue
left_by q (asleep q') = ([], q')
left_by q (over threw) = ([], q)
left_by q (over (returned (o, q'))) = (taken o, q')

-- The items that a call returned, and the queue behind it.
unfoldable pub act : Call → WorkQueue → List WorkItem × WorkQueue
unfolding push_item push_item_copy fetch_item_non_blocking enter_fetch wake_fetch cancel_fetch
act (push i) q = ([], push_item i q)
act (push_copy i) q = ([], push_item_copy i q)
act fetch q = let (o, q') = fetch_item_non_blocking q in (taken o, q')
act enter q = left_by q (enter_fetch q)
act wake q = left_by q (wake_fetch q)
act cancel q = ([], cancel_fetch q)
act (set_limit n) q = ([], set_item_limit n q)

-- The queue after some calls, and the items that the fetches returned, in order.
unfoldable pub run : List Call → WorkQueue → List WorkItem × WorkQueue
unfolding act
run [] q = ([], q)
run (c ∷ cs) q = let (out, q') = act c q in let (outs, q'') = run cs q' in (out ++ outs, q'')

abbrev pub pushed_by : Call → List WorkItem
pushed_by (push i) = i ∷ []
pushed_by (push_copy (fd, f)) = (fd, Frame.copy f) ∷ []
pushed_by _ = []

-- The items that the calls pushed.
abbrev pub pushed : List Call → List WorkItem
pushed [] = []
pushed (c ∷ cs) = pushed_by c ++ pushed cs

-- No call sets another limit than `n`.
abbrev SetsOnly : ℕ → Call → Type 0
SetsOnly n (set_limit m) = m ≡ n
SetsOnly n _ = Unit {0}

abbrev pub AllSetOnly : ℕ → List Call → Type 0
AllSetOnly n [] = Unit {0}
AllSetOnly n (c ∷ cs) = SetsOnly n c × AllSetOnly n cs

-- What the calls that push nothing leave.
abbrev Keeps : WorkQueue → List WorkItem × WorkQueue → Type 0
Keeps q (out, q') = (out ++ q'.queue ≡ q.queue) × (q'.item_limit ≡ q.item_limit)

fetch-Keeps : (q : WorkQueue) → Keeps q (let (o, q') = fetch_item_non_blocking q in (taken o, q'))
unfolding fetch_item_non_blocking take_front
fetch-Keeps q = by_items q.queue refl
  where
    by_items :
        (xs : List WorkItem)
        → q.queue ≡ xs
        → Keeps q (let (o, q') = take_front xs q in (taken o, q'))
    by_items [] e = (refl, refl)
    by_items (x ∷ xs) e = (sym e, refl)

test_wait-Keeps : (q r : WorkQueue) → Keeps r ([], q) → Keeps r (left_by r (test_wait q))
unfolding test_wait finish_fetch
test_wait-Keeps q r (queue, limit) =
    if-both (λ (w : Waited). Keeps r (left_by r w)) (fetch_ready q) _ _
      (if-both (λ (o : Outcome (Option WorkItem × WorkQueue)). Keeps r (left_by r (over o)))
        q.fetch_cancelled threw _ (refl, refl)
        ((fetch-Keeps q).0 ∙ queue, (fetch-Keeps q).1 ∙ limit))
      (queue, limit)

enter_fetch-Keeps : (q : WorkQueue) → Keeps q (left_by q (enter_fetch q))
unfolding enter_fetch begin_fetch
enter_fetch-Keeps q = test_wait-Keeps (begin_fetch q) q (refl, refl)

wake_fetch-Keeps : (q : WorkQueue) → Keeps q (left_by q (wake_fetch q))
unfolding wake_fetch
wake_fetch-Keeps q =
    if-both (λ (w : Waited). Keeps q (left_by q w)) q.notified _ _
      (test_wait-Keeps q q (refl, refl)) (refl, refl)

pub push_item-queue :
    (i : WorkItem) (q : WorkQueue)
    → q.item_limit ≡ 0
    → push_item i q ≡ record q { queue = q.queue ++ i ∷ []; notified = true }
unfolding push_item
push_item-queue (fd, f) q h = ground arith

push_item_copy-queue :
    (fd : ℕ) (f : Frame) (q : WorkQueue)
    → q.item_limit ≡ 0
    → push_item_copy (fd, f) q
      ≡ record q { queue = q.queue ++ (fd, Frame.copy f) ∷ []; notified = true }
unfolding push_item_copy
push_item_copy-queue fd f q h = ground arith

in_order :
    (c : Call) (q : WorkQueue) (r : List WorkItem × WorkQueue)
    → pushed_by c ≡ []
    → q.item_limit ≡ 0
    → Keeps q r
    → (r.0 ++ r.1.queue ≡ q.queue ++ pushed_by c) × (r.1.item_limit ≡ 0)
in_order c q r nothing h (kept, limit) =
    (kept ∙ sym (append-nil q.queue) ∙ ap (◌++◌ q.queue) (sym nothing), limit ∙ h)

-- One call, where there is no limit.
abbrev InOrder : Call → WorkQueue → List WorkItem × WorkQueue → Type 0
InOrder c q (out, q') = (out ++ q'.queue ≡ q.queue ++ pushed_by c) × (q'.item_limit ≡ 0)

act-InOrder : (c : Call) (q : WorkQueue) → SetsOnly 0 c → q.item_limit ≡ 0 → InOrder c q (act c q)
unfolding act cancel_fetch
act-InOrder (push i) q s h =
    let e = push_item-queue i q h in
    (ap (λ (w : WorkQueue). w.queue) e, ap (λ (w : WorkQueue). w.item_limit) e ∙ h)
act-InOrder (push_copy (fd, f)) q s h =
    let e = push_item_copy-queue fd f q h in
    (ap (λ (w : WorkQueue). w.queue) e, ap (λ (w : WorkQueue). w.item_limit) e ∙ h)
act-InOrder fetch q s h = in_order fetch q (act fetch q) refl h (fetch-Keeps q)
act-InOrder enter q s h = in_order enter q (act enter q) refl h (enter_fetch-Keeps q)
act-InOrder wake q s h = in_order wake q (act wake q) refl h (wake_fetch-Keeps q)
act-InOrder cancel q s h = (sym (append-nil q.queue), h)
act-InOrder (set_limit n) q s h = (sym (append-nil q.queue), s)

-- Without a limit and over any calls, the blocking fetches, the cancellations and settings of the
-- limit to none included: no item is lost, doubled or overtaken. What the fetches returned, then
-- what is still queued, is what was queued before, then what was pushed, in order.
pub run-fifo :
    (cs : List Call) (q : WorkQueue)
    → AllSetOnly 0 cs
    → q.item_limit ≡ 0
    → (run cs q).0 ++ (run cs q).1.queue ≡ q.queue ++ pushed cs
unfolding run
run-fifo [] q s h = sym (append-nil q.queue)
run-fifo (c ∷ cs) q (s, all) h =
    let (out, q') = act c q in
    let (kept, unlimited) = act-InOrder c q s h in
    append_assoc out (run cs q').0 (run cs q').1.queue
    ∙ ap (◌++◌ out) (run-fifo cs q' all unlimited)
    ∙ sym (append_assoc out q'.queue (pushed cs))
    ∙ ap (λ (xs : List WorkItem). xs ++ pushed cs) kept
    ∙ append_assoc q.queue (pushed_by c) (pushed cs)

-- One call, where there is a limit.
abbrev InLimit : ℕ → List WorkItem × WorkQueue → Type 0
InLimit n (out, q') = (length q'.queue ≤ suc n) × (q'.item_limit ≡ suc n)

in_limit :
    (q : WorkQueue) (r : List WorkItem × WorkQueue) (n : ℕ)
    → q.item_limit ≡ suc n
    → length q.queue ≤ suc n
    → Keeps q r
    → InLimit n r
in_limit q r n h b (kept, limit) =
    (omega (arith, ap length (sym kept), length-append r.0 r.1.queue, b), limit ∙ h)

push_item-bounded :
    (i : WorkItem) (q : WorkQueue) (n : ℕ)
    → q.item_limit ≡ suc n
    → length q.queue ≤ suc n
    → (length (push_item i q).queue ≤ suc n) × ((push_item i q).item_limit ≡ suc n)
unfolding push_item
push_item-bounded (fd, f) q n h b = ground (arith, length-append q.queue ((fd, f) ∷ []))

push_item_copy-bounded :
    (fd : ℕ) (f : Frame) (q : WorkQueue) (n : ℕ)
    → q.item_limit ≡ suc n
    → length q.queue ≤ suc n
    → (length (push_item_copy (fd, f) q).queue ≤ suc n)
      × ((push_item_copy (fd, f) q).item_limit ≡ suc n)
unfolding push_item_copy
push_item_copy-bounded fd f q n h b =
    ground (arith, length-append q.queue ((fd, Frame.copy f) ∷ []))

act-InLimit :
    (c : Call) (q : WorkQueue) (n : ℕ)
    → SetsOnly (suc n) c
    → q.item_limit ≡ suc n
    → length q.queue ≤ suc n
    → InLimit n (act c q)
unfolding act cancel_fetch
act-InLimit (push i) q n s h b = push_item-bounded i q n h b
act-InLimit (push_copy (fd, f)) q n s h b = push_item_copy-bounded fd f q n h b
act-InLimit fetch q n s h b = in_limit q (act fetch q) n h b (fetch-Keeps q)
act-InLimit enter q n s h b = in_limit q (act enter q) n h b (enter_fetch-Keeps q)
act-InLimit wake q n s h b = in_limit q (act wake q) n h b (wake_fetch-Keeps q)
act-InLimit cancel q n s h b = (b, h)
act-InLimit (set_limit m) q n s h b = (b, s)

-- With a limit of at least 1 that the calls keep, a queue that is within it stays within it.
pub run-bounded :
    (cs : List Call) (q : WorkQueue) (n : ℕ)
    → AllSetOnly (suc n) cs
    → q.item_limit ≡ suc n
    → length q.queue ≤ suc n
    → length (run cs q).1.queue ≤ suc n
unfolding run
run-bounded [] q n s h b = b
run-bounded (c ∷ cs) q n (s, all) h b =
    let (b', h') = act-InLimit c q n s h b in run-bounded cs (act c q).1 n all h' b'
