-- ===== src/Mchain/Unlimited.antt =====
-- `unlimited_demand_queue` of mchain_details.hpp: the deque is a list, front first.
use sobjectizer.Base.{
  ◌≡◌, refl, Bool, true, false, none, List, [], ◌∷◌, ◌++◌, length, is_nil, ℕ, arith,
}
use sobjectizer.Mchain.Queue.{
  Demand, Result, ok, throw, msg_chain_is_empty, ◌>>◌, QueueOps, QueueLaws, deque_front,
  deque_pop_front, ensure_queue_not_empty,
}

abbrev pub is_full : List Demand → Bool
is_full q = false

abbrev pub is_empty : List Demand → Bool
is_empty q = is_nil q

unfoldable pub front : List Demand → Result Demand
unfolding ensure_queue_not_empty
front q = do ensure_queue_not_empty (is_empty q); ok (deque_front q)

unfoldable pub pop_front : List Demand → Result (List Demand)
unfolding ensure_queue_not_empty
pop_front q = do ensure_queue_not_empty (is_empty q); ok (deque_pop_front q)

abbrev pub push_back : List Demand → Demand → Result (List Demand)
push_back q d = ok (q ++ d ∷ [])

abbrev pub size : List Demand → ℕ
size q = length q

abbrev pub unlimited_demand_queue : QueueOps
unlimited_demand_queue = record {
  Queue = List Demand;
  is_full = is_full;
  is_empty = is_empty;
  front = front;
  pop_front = pop_front;
  push_back = push_back;
  size = size;
}

pub take_law :
    (q : List Demand) (d : Demand) (ds : List Demand)
    → q ≡ d ∷ ds
    → (front q ≡ ok d) × ((q' : List Demand) × (pop_front q ≡ ok q') × Unit {0} × (q' ≡ ds))
unfolding front pop_front
take_law q d ds e = (ground arith, (ds, ground arith, tt, refl))

pub empty_law :
    (q : List Demand)
    → q ≡ []
    → (front q ≡ throw msg_chain_is_empty) × (pop_front q ≡ throw msg_chain_is_empty)
unfolding front pop_front
empty_law q e = (ground arith, ground arith)

pub never_full {ℓ} : {P : Type ℓ} → false ≡ true → P
never_full e = cc

-- The unlimited queue meets the contract of a queue without a limit.
abbrev pub unlimited-QueueLaws : QueueLaws unlimited_demand_queue none
unlimited-QueueLaws = record {
  IsValid = λ q. Unit;
  contents = λ q. q;
  within = λ q v. tt;
  is_empty_law = λ q v. refl;
  is_full_law = λ q v. refl;
  size_law = λ q v. refl;
  take_law = λ q d ds v e. take_law q d ds e;
  push_law = λ q d v e. (q ++ d ∷ [], refl, tt, refl);
  empty_law = λ q v e. empty_law q e;
  full_law = λ q d v e. never_full e;
}
