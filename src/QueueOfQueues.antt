-- ===== src/QueueOfQueues.antt =====
-- `queue_of_queues_t` of dev/so_5/disp/reuse/queue_of_queues.hpp: the queue from which the threads of a
-- thread pool take their work. Items and conditions are numbers; the intrusive list is a list from its
-- head, the vector of waiting customers one from its back. A section under the lock is one step, and a
-- pop that waits is two.
pub mod Wakeup
pub mod Threads
pub mod Tests
use sobjectizer.Base.{
  take_at, ℕ, zero, suc, ◌+◌, ◌-◌, ◌++◌, ◌&&◌, ◌||◌, not, ltb, is_nil, length, Bool, true, false,
  Option, none, some, List, [], ◌∷◌, ◌==◌, if◌then◌else◌,
}

pub record Queue : Type 0 where
  pub shutdown_flag : Bool
  pub items : List ℕ
  pub queue_size : ℕ
  pub wakeup_in_progress : Bool
  pub max_thread_count : ℕ
  pub next_thread_wakeup_threshold : ℕ
  pub waiting_customers : List ℕ

unfoldable pub make : ℕ → ℕ → Queue
make thread_count next_thread_wakeup_threshold = record {
  shutdown_flag = false;
  items = [];
  queue_size = 0;
  wakeup_in_progress = false;
  max_thread_count = thread_count;
  next_thread_wakeup_threshold = next_thread_wakeup_threshold;
  waiting_customers = [];
}

-- With the conditions that are notified.
unfoldable pub pop_and_notify_one_waiting_customer : Queue → Queue × List ℕ
pop_and_notify_one_waiting_customer q = elim q.waiting_customers [
  | [] ↦ (q, [])
  | condition ∷ rest ↦
      (record q { waiting_customers = rest; wakeup_in_progress = true }, condition ∷ [])
]

unfoldable pub is_wakeup_possible : Queue → Bool
is_wakeup_possible q =
    not (is_nil q.items)
    && not (is_nil q.waiting_customers)
    && not q.wakeup_in_progress
    && (ltb q.next_thread_wakeup_threshold q.queue_size
        || (q.max_thread_count == length q.waiting_customers))

unfoldable pub try_wakeup_someone_if_possible : Queue → Queue × List ℕ
unfolding pop_and_notify_one_waiting_customer is_wakeup_possible
try_wakeup_someone_if_possible q =
    if is_wakeup_possible q then pop_and_notify_one_waiting_customer q else (q, [])

unfoldable pub push_to_queue : ℕ → Queue → Queue
push_to_queue new_tail q = record q {
  items = q.items ++ (new_tail ∷ []);
  queue_size = q.queue_size + 1;
}

-- The loop of `shutdown`, for as many rounds as customers wait.
unfoldable pub notify_all : List ℕ → Queue → Queue × List ℕ
unfolding pop_and_notify_one_waiting_customer
notify_all [] q = (q, [])
notify_all (c ∷ cs) q =
    let (q', notified) = pop_and_notify_one_waiting_customer q in
    let (q'', others) = notify_all cs q' in (q'', notified ++ others)

unfoldable pub shutdown : Queue → Queue × List ℕ
unfolding notify_all
shutdown q = notify_all q.waiting_customers (record q { shutdown_flag = true })

pub data PopResult : Type 0 where
  popped : ℕ → PopResult
  null waits : PopResult

-- One round of the loop of `pop`, with the conditions that are notified.
unfoldable pub pop : ℕ → Queue → (Queue × List ℕ) × PopResult
unfolding try_wakeup_someone_if_possible
pop condition q = if q.shutdown_flag then ((q, []), null) else elim q.items [
  | r ∷ rest ↦ (
    try_wakeup_someone_if_possible (record q { items = rest; queue_size = q.queue_size - 1 }),
    popped r,
  )
  | [] ↦ ((record q { waiting_customers = condition ∷ q.waiting_customers }, []), waits)
]

-- The next round, after the wait.
unfoldable pub pop_again : ℕ → Queue → (Queue × List ℕ) × PopResult
unfolding pop
pop_again condition q = pop condition (record q { wakeup_in_progress = false })

unfoldable pub try_switch_to_another : ℕ → Queue → Queue × Option ℕ
unfolding push_to_queue
try_switch_to_another current q = if q.shutdown_flag then (q, none) else elim q.items [
  | r ∷ rest ↦
      (push_to_queue current (record q { items = rest; queue_size = q.queue_size - 1 }), some r)
  | [] ↦ (q, some current)
]

unfoldable pub schedule : ℕ → Queue → Queue × List ℕ
unfolding push_to_queue try_wakeup_someone_if_possible
schedule item q = try_wakeup_someone_if_possible (push_to_queue item q)

-- The queue and the threads of the pool, each by its condition: those at work, and those that have been
-- notified and are still in their wait.
pub record Pool : Type 0 where
  pub queue : Queue
  pub working : List ℕ
  pub woken : List ℕ

unfoldable pub start : List ℕ → ℕ → Pool
unfolding make
start threads threshold = record {
  queue = make (length threads) threshold;
  working = threads;
  woken = [];
}

pub data Step : Type 0 where
  pops goes_on : ℕ → Step
  switches : ℕ → ℕ → Step
  schedules : ℕ → Step
  shuts_down : Step

-- A thread that gets an item is at work, one that gets a null pointer ends.
unfoldable pub after_pop : ℕ → (Queue × List ℕ) × PopResult → List ℕ → List ℕ → Pool
after_pop condition (q, popped r) working woken = record {
  queue = q.0;
  working = condition ∷ working;
  woken = q.1 ++ woken;
}
after_pop condition (q, null) working woken = record {
  queue = q.0;
  working = working;
  woken = q.1 ++ woken;
}
after_pop condition (q, waits) working woken = record {
  queue = q.0;
  working = working;
  woken = q.1 ++ woken;
}

unfoldable pub step : Step → Pool → Pool
unfolding pop pop_again try_switch_to_another schedule shutdown after_pop take_at
step (pops i) s = elim (take_at i s.working) [
  | none ↦ s
  | some p ↦ after_pop p.0 (pop p.0 s.queue) p.1 s.woken
]
step (goes_on i) s = elim (take_at i s.woken) [
  | none ↦ s
  | some p ↦ after_pop p.0 (pop_again p.0 s.queue) s.working p.1
]
step (switches i current) s = elim (take_at i s.working) [
  | none ↦ s
  | some p ↦ elim (try_switch_to_another current s.queue).1 [
    | none ↦ record s { working = p.1 }
    | some r ↦ record s { queue = (try_switch_to_another current s.queue).0 }
  ]
]
step (schedules item) s =
    let (q, notified) = schedule item s.queue in record s { queue = q; woken = notified ++ s.woken }
step shuts_down s =
    let (q, notified) = shutdown s.queue in record s { queue = q; woken = notified ++ s.woken }

unfoldable pub run : List Step → Pool → Pool
unfolding step
run [] s = s
run (x ∷ xs) s = run xs (step x s)
