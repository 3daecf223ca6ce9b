-- ===== src/QueueOfQueues/Threads.antt =====
-- The threads of a pool over all steps on `queue_of_queues_t` (dev/so_5/disp/reuse/queue_of_queues.hpp).
use sobjectizer.Base.{
  take_at, ℕ, ◌+◌, ◌-◌, ◌<◌, ◌≡◌, refl, sym, ap, subst, inl, inr, length, true, false, some, List,
  [], ◌∷◌, arith, Bool-cases, Option-cases, List-cases,
}
use sobjectizer.QueueOfQueues.{
  Queue, make, try_wakeup_someone_if_possible, push_to_queue, shutdown, pop_again,
  try_switch_to_another, schedule, Pool, start, Step, pops, goes_on, switches, schedules,
  shuts_down, step, run,
}
use sobjectizer.QueueOfQueues.Wakeup.{
  length-take_at, IsAwake, tried-IsAwake, joined-IsAwake, popped-IsAwake, notify_all-waits,
}

abbrev PoolIsAwake : Pool → Type 0
PoolIsAwake s = IsAwake s.queue (length s.working) (length s.woken)

switched-IsAwake :
    (i current : ℕ) (s : Pool) (p : ℕ × List ℕ)
    → take_at i s.working ≡ some p
    → PoolIsAwake s
    → PoolIsAwake (step (switches i current) s)
unfolding step try_switch_to_another push_to_queue
switched-IsAwake i current s p t ((a, b, c, d), w) =
    let l = length-take_at i s.working p t in
    elim (Bool-cases s.queue.shutdown_flag) [
      | inl h ↦
          let after : step (switches i current) s ≡ record s { working = p.1 } =
            simp (t, h, step, try_switch_to_another) in
          subst PoolIsAwake (sym after)
            ((a, b, (λ f. absurd (cc)), (λ f k. absurd (cc))), (λ f k. absurd (cc)))
      | inr h ↦ elim (List-cases s.queue.items) [
        | inl e ↦
            let after : step (switches i current) s ≡ s =
              simp (t, h, e, step, try_switch_to_another) in
            subst PoolIsAwake (sym after) ((a, b, c, d), w)
        | inr (r, rest, e) ↦
            let q : Queue =
              push_to_queue current
                (record s.queue { items = rest; queue_size = s.queue.queue_size - 1 }) in
            let after : step (switches i current) s ≡ record s { queue = q } =
              simp (t, h, e, step, try_switch_to_another) in
            subst PoolIsAwake (sym after) ((a, b, c, d), (λ f k. omega arith))
      ]
    ]

step-IsAwake : (x : Step) (s : Pool) → PoolIsAwake s → PoolIsAwake (step x s)
unfolding step schedule shutdown push_to_queue pop_again
step-IsAwake (pops i) s ((a, b, c, d), w) = elim (Option-cases (take_at i s.working)) [
  | inl e ↦ rw (step, e) ((a, b, c, d), w)
  | inr (p, e) ↦
      let l = length-take_at i s.working p e in
      rw (step, e)
        (popped-IsAwake p.0 s.queue p.1 s.woken (a, b, (λ f. let z = c f in omega arith), d))
]
step-IsAwake (goes_on i) s ((a, b, c, d), w) = elim (Option-cases (take_at i s.woken)) [
  | inl e ↦ rw (step, e) ((a, b, c, d), w)
  | inr (p, e) ↦
      let l = length-take_at i s.woken p e in
      rw (step, e)
        (popped-IsAwake p.0 (record s.queue { wakeup_in_progress = false }) s.working p.1
          (a, b, (λ f. let z = c f in omega arith), (λ f k. absurd (cc))))
]
step-IsAwake (switches i current) s k = elim (Option-cases (take_at i s.working)) [
  | inl e ↦ rw (step, e) k
  | inr (p, e) ↦ switched-IsAwake i current s p e k
]
step-IsAwake (schedules item) s (k, w) =
    let q = push_to_queue item s.queue in
    joined-IsAwake (try_wakeup_someone_if_possible q).0 (length s.working)
      (try_wakeup_someone_if_possible q).1 s.woken
      (tried-IsAwake q (length s.working) (length s.woken) k)
step-IsAwake shuts_down s ((a, b, c, d), w) =
    let q : Queue = record s.queue { shutdown_flag = true } in
    let (nobody, flag, count) = notify_all-waits s.queue.waiting_customers q refl in
    (
      (
        subst (λ n. 0 < n) (sym count) a,
        (λ f. ap length nobody),
        (λ f. absurd (cc)),
        (λ f p. absurd (cc)),
      ),
      (λ f p. absurd (cc)),
    )

run-IsAwake : (script : List Step) (s : Pool) → PoolIsAwake s → PoolIsAwake (run script s)
unfolding run
run-IsAwake [] s k = k
run-IsAwake (x ∷ xs) s k = run-IsAwake xs (step x s) (step-IsAwake x s k)

start-IsAwake :
    (threads : List ℕ) (threshold : ℕ) → 0 < length threads → PoolIsAwake (start threads threshold)
unfolding start make
start-IsAwake threads threshold h =
    ((h, (λ f. refl), (λ f. omega arith), (λ f k. absurd (cc))), (λ f k. omega arith))

-- After every sequence of steps on a new pool with some thread: while the queue is not shut down and
-- has an item, some thread is at work or has been notified, so not all wait.
pub no_lost_wakeup :
    (threads : List ℕ) (threshold : ℕ) (script : List Step)
    → 0 < length threads
    → (run script (start threads threshold)).queue.shutdown_flag ≡ false
    → 0 < length (run script (start threads threshold)).queue.items
    → 0
      < length (run script (start threads threshold)).working
        + length (run script (start threads threshold)).woken
no_lost_wakeup threads threshold script h f k =
    (run-IsAwake script (start threads threshold) (start-IsAwake threads threshold h)).1 f k

-- After every sequence of steps on a new pool with some thread: once the queue is shut down, no thread
-- waits without having been notified.
pub nobody_waits_after_shutdown :
    (threads : List ℕ) (threshold : ℕ) (script : List Step)
    → 0 < length threads
    → (run script (start threads threshold)).queue.shutdown_flag ≡ true
    → length (run script (start threads threshold)).queue.waiting_customers ≡ 0
nobody_waits_after_shutdown threads threshold script h f =
    (run-IsAwake script (start threads threshold) (start-IsAwake threads threshold h)).0.1 f
