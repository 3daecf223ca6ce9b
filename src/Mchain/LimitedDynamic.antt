-- ===== src/Mchain/LimitedDynamic.antt =====
-- `limited_dynamic_demand_queue` of mchain_details.hpp.
use sobjectizer.Base.{
  ◌≡◌, refl, ap, Bool, true, false, some, List, [], ◌∷◌, ◌++◌, length, length-append, is_nil, ℕ,
  ◌≤◌, ◌==◌, arith,
}
use sobjectizer.Mchain.Queue.{
  Demand, Result, ok, throw, msg_chain_is_empty, msg_chain_is_full, ◌>>◌, QueueOps, QueueLaws,
  deque_front, deque_pop_front, ensure_queue_not_empty, ensure_queue_not_full,
}

pub record LimitedDynamicDemandQueue : Type 0 where
  pub queue : List Demand
  pub max_size : ℕ

unfoldable pub make : ℕ → LimitedDynamicDemandQueue
make capacity = record { queue = []; max_size = capacity }

abbrev pub is_full : LimitedDynamicDemandQueue → Bool
is_full q = q.max_size == length q.queue

abbrev pub is_empty : LimitedDynamicDemandQueue → Bool
is_empty q = is_nil q.queue

unfoldable pub front : LimitedDynamicDemandQueue → Result Demand
unfolding ensure_queue_not_empty
front q = do ensure_queue_not_empty (is_empty q); ok (deque_front q.queue)

unfoldable pub pop_front : LimitedDynamicDemandQueue → Result LimitedDynamicDemandQueue
unfolding ensure_queue_not_empty
pop_front q = do
  ensure_queue_not_empty (is_empty q)
  ok (record q { queue = deque_pop_front q.queue })

unfoldable pub push_back : LimitedDynamicDemandQueue → Demand → Result LimitedDynamicDemandQueue
unfolding ensure_queue_not_full
push_back q d = do ensure_queue_not_full (is_full q); ok (record q { queue = q.queue ++ d ∷ [] })

abbrev pub size : LimitedDynamicDemandQueue → ℕ
size q = length q.queue

abbrev pub limited_dynamic_demand_queue : QueueOps
limited_dynamic_demand_queue = record {
  Queue = LimitedDynamicDemandQueue;
  is_full = is_full;
  is_empty = is_empty;
  front = front;
  pop_front = pop_front;
  push_back = push_back;
  size = size;
}

pub record IsValid (n : ℕ) (q : LimitedDynamicDemandQueue) : Type 0 where
  pub capacity : q.max_size ≡ n
  pub room : length q.queue ≤ n

push_back_lem :
    (n : ℕ) (q : LimitedDynamicDemandQueue) (d : Demand)
    → IsValid n q
    → is_full q ≡ false
    → (push_back q d ≡ ok (record q { queue = q.queue ++ d ∷ [] }))
      × IsValid n (record q { queue = q.queue ++ d ∷ [] })
unfolding push_back
push_back_lem n q d v e = (ground arith, ground (arith, length-append q.queue (d ∷ [])))

pub take_law :
    (n : ℕ) (q : LimitedDynamicDemandQueue) (d : Demand) (ds : List Demand)
    → IsValid n q
    → q.queue ≡ d ∷ ds
    → (front q ≡ ok d)
      × ((q' : LimitedDynamicDemandQueue) × (pop_front q ≡ ok q') × IsValid n q' × (q'.queue ≡ ds))
unfolding front pop_front
take_law n q d ds v e = (ground arith, (record q { queue = ds }, ground arith, ground arith, refl))

pub push_law :
    (n : ℕ) (q : LimitedDynamicDemandQueue) (d : Demand)
    → IsValid n q
    → is_full q ≡ false
    → (q' : LimitedDynamicDemandQueue) × (push_back q d ≡ ok q')
      × IsValid n q'
      × (q'.queue ≡ q.queue ++ d ∷ [])
push_law n q d v e =
    let (done, valid) = push_back_lem n q d v e in
    (record q { queue = q.queue ++ d ∷ [] }, done, valid, refl)

pub is_full_law :
    (n : ℕ) (q : LimitedDynamicDemandQueue) → IsValid n q → is_full q ≡ (n == length q.queue)
is_full_law n q v = ap (λ (m : ℕ). m == length q.queue) v.capacity

pub empty_law :
    (q : LimitedDynamicDemandQueue)
    → q.queue ≡ []
    → (front q ≡ throw msg_chain_is_empty) × (pop_front q ≡ throw msg_chain_is_empty)
unfolding front pop_front
empty_law q e = (ground (arith), ground (arith))

pub full_law :
    (q : LimitedDynamicDemandQueue) (d : Demand)
    → is_full q ≡ true
    → push_back q d ≡ throw msg_chain_is_full
unfolding push_back
full_law q d e = ground arith

-- The dynamic queue of capacity `n` meets the contract of a queue with limit `n`.
abbrev pub limited_dynamic-QueueLaws : (n : ℕ) → QueueLaws limited_dynamic_demand_queue (some n)
limited_dynamic-QueueLaws n = record {
  IsValid = IsValid n;
  contents = λ q. q.queue;
  within = λ q v. v.room;
  is_empty_law = λ q v. refl;
  is_full_law = is_full_law n;
  size_law = λ q v. refl;
  take_law = take_law n;
  push_law = push_law n;
  empty_law = λ q v e. empty_law q e;
  full_law = λ q d v e. full_law q d e;
}
