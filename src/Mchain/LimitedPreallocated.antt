-- ===== src/Mchain/LimitedPreallocated.antt =====
-- `limited_preallocated_demand_queue` of mchain_details.hpp: a ring over a preallocated vector.
mod Window
use native.Mathlib.Nat.{mod-lt}
use native.Mathlib.Numerals.{add-one}
use sobjectizer.Base.{
  ℕ, zero, suc, ◌+◌, ◌-◌, ◌%◌, ◌≤◌, ◌<◌, ◌≡◌, refl, sym, ap₂, ◌∙◌, Bool, true, false, some, List,
  [], ◌∷◌, ◌++◌, length, length-set, length-replicate, get_or, set, replicate, is_nil, ◌==◌, arith,
}
use sobjectizer.Mchain.Queue.{
  Demand, empty_demand, Result, ok, throw, msg_chain_is_empty, msg_chain_is_full, ◌>>◌, QueueOps,
  QueueLaws, ensure_queue_not_empty, ensure_queue_not_full,
}
use Window.{window, window-push, window-pop, length-window}

pub record LimitedPreallocatedDemandQueue : Type 0 where
  pub storage : List Demand
  pub max_size : ℕ
  pub head : ℕ
  pub size : ℕ

unfoldable pub make : ℕ → LimitedPreallocatedDemandQueue
make capacity = record {
  storage = replicate capacity empty_demand;
  max_size = capacity;
  head = 0;
  size = 0;
}

abbrev pub is_full : LimitedPreallocatedDemandQueue → Bool
is_full q = q.max_size == q.size

abbrev pub is_empty : LimitedPreallocatedDemandQueue → Bool
is_empty q = 0 == q.size

unfoldable pub front : LimitedPreallocatedDemandQueue → Result Demand
unfolding ensure_queue_not_empty
front q = do ensure_queue_not_empty (is_empty q); ok (get_or q.storage q.head empty_demand)

-- `--m_size` runs only when the queue is not empty, so the truncated `-` is exact.
unfoldable pub pop_front : LimitedPreallocatedDemandQueue → Result LimitedPreallocatedDemandQueue
unfolding ensure_queue_not_empty
pop_front q = do
  ensure_queue_not_empty (is_empty q)
  ok (record q {
    storage = set q.storage q.head empty_demand;
    head = (q.head + 1) % q.max_size;
    size = q.size - 1;
  })

unfoldable pub push_back :
    LimitedPreallocatedDemandQueue → Demand → Result LimitedPreallocatedDemandQueue
unfolding ensure_queue_not_full
push_back q d = do
  ensure_queue_not_full (is_full q)
  ok (record q { storage = set q.storage ((q.head + q.size) % q.max_size) d; size = q.size + 1 })

abbrev pub size : LimitedPreallocatedDemandQueue → ℕ
size q = q.size

abbrev pub limited_preallocated_demand_queue : QueueOps
limited_preallocated_demand_queue = record {
  Queue = LimitedPreallocatedDemandQueue;
  is_full = is_full;
  is_empty = is_empty;
  front = front;
  pop_front = pop_front;
  push_back = push_back;
  size = size;
}

-- The head is in range, except that a ring without cells has its head at 0.
pub record IsValid (n : ℕ) (q : LimitedPreallocatedDemandQueue) : Type 0 where
  pub capacity : q.max_size ≡ n
  pub cells : length q.storage ≡ n
  pub room : q.size ≤ n
  pub in_range : 0 < n → q.head < n

-- The demands from the head on, oldest first.
unfoldable pub contents : LimitedPreallocatedDemandQueue → List Demand
unfolding window
contents q = window q.storage q.max_size q.head q.size

pub make-IsValid : (n : ℕ) → IsValid n (make n)
unfolding make
make-IsValid n = record {
  capacity = refl;
  cells = length-replicate n empty_demand;
  room = omega arith;
  in_range = λ h. h;
}

pub length-contents : (q : LimitedPreallocatedDemandQueue) → length (contents q) ≡ q.size
unfolding contents
length-contents q = length-window q.storage q.max_size q.head q.size

pub is_empty_law : (q : LimitedPreallocatedDemandQueue) → is_empty q ≡ is_nil (contents q)
is_empty_law q = ground (arith, length-contents q, nil_length (contents q))
  where
    nil_length : (ds : List Demand) → is_nil ds ≡ (0 == length ds)
    nil_length [] = refl
    nil_length (d ∷ ds) = ground arith

pub is_full_law :
    (n : ℕ) (q : LimitedPreallocatedDemandQueue)
    → IsValid n q
    → is_full q ≡ (n == length (contents q))
is_full_law n q v = ap₂ ◌==◌ v.capacity (sym (length-contents q))

popped : LimitedPreallocatedDemandQueue → LimitedPreallocatedDemandQueue
popped q = record q {
  storage = set q.storage q.head empty_demand;
  head = (q.head + 1) % q.max_size;
  size = q.size - 1;
}

popped-IsValid :
    (n : ℕ) (q : LimitedPreallocatedDemandQueue) → IsValid n q → 0 < q.size → IsValid n (popped q)
unfolding popped
popped-IsValid n q v h = record {
  capacity = v.capacity;
  cells = length-set q.storage q.head empty_demand ∙ v.cells;
  room = omega (arith, v.room);
  in_range = λ p. rw v.capacity (mod-lt (q.head + 1) p);
}

popped-contents :
    (n k : ℕ) (q : LimitedPreallocatedDemandQueue) (d : Demand) (ds : List Demand)
    → IsValid n q
    → q.size ≡ k
    → contents q ≡ d ∷ ds
    → (front q ≡ ok d) × (pop_front q ≡ ok (popped q)) × (contents (popped q) ≡ ds)
unfolding popped contents front pop_front
popped-contents n zero q d ds v z e = ground arith
popped-contents n (suc k) q d ds v z e = ground (
  arith,
  window-pop q.storage q.max_size q.head k empty_demand,
  v.in_range (ground (arith, v.room)),
)

pub take_law :
    (n : ℕ) (q : LimitedPreallocatedDemandQueue) (d : Demand) (ds : List Demand)
    → IsValid n q
    → contents q ≡ d ∷ ds
    → (front q ≡ ok d)
      × ((q' : LimitedPreallocatedDemandQueue) × (pop_front q ≡ ok q')
          × IsValid n q'
          × (contents q' ≡ ds))
take_law n q d ds v e =
    let (first, rest, left) = popped-contents n q.size q d ds v refl e in
    (first, (popped q, rest, popped-IsValid n q v held, left))
  where
    held : 0 < q.size
    held = ground (arith, length-contents q)

pushed : LimitedPreallocatedDemandQueue → Demand → LimitedPreallocatedDemandQueue
pushed q d = record q {
  storage = set q.storage ((q.head + q.size) % q.max_size) d;
  size = q.size + 1;
}

pub push_law :
    (n : ℕ) (q : LimitedPreallocatedDemandQueue) (d : Demand)
    → IsValid n q
    → is_full q ≡ false
    → (q' : LimitedPreallocatedDemandQueue) × (push_back q d ≡ ok q')
      × IsValid n q'
      × (contents q' ≡ contents q ++ d ∷ [])
unfolding push_back contents pushed
push_law n q d v e = (pushed q d, ground arith, valid, added)
  where
    free : q.size < n
    free = ground (arith, v.room)

    valid : IsValid n (pushed q d)
    valid = record {
      capacity = v.capacity;
      cells = length-set q.storage _ d ∙ v.cells;
      room = omega (arith, free);
      in_range = v.in_range;
    }

    added : contents (pushed q d) ≡ contents q ++ d ∷ []
    added = rw add-one (
        window-push q.storage q.max_size q.head q.size _ d refl (v.cells ∙ sym v.capacity)
          (rw v.capacity (v.in_range (omega (arith, free)))) (rw v.capacity free))

pub empty_law :
    (q : LimitedPreallocatedDemandQueue)
    → contents q ≡ []
    → (front q ≡ throw msg_chain_is_empty) × (pop_front q ≡ throw msg_chain_is_empty)
unfolding front pop_front
empty_law q e = (ground (arith, is_empty_law q), ground (arith, is_empty_law q))

pub full_law :
    (q : LimitedPreallocatedDemandQueue) (d : Demand)
    → is_full q ≡ true
    → push_back q d ≡ throw msg_chain_is_full
unfolding push_back
full_law q d e = ground arith

-- The ring of capacity `n` meets the contract of a queue with limit `n`.
abbrev pub limited_preallocated-QueueLaws :
    (n : ℕ) → QueueLaws limited_preallocated_demand_queue (some n)
limited_preallocated-QueueLaws n = record {
  IsValid = IsValid n;
  contents = contents;
  within = λ q v. rw (length-contents q) v.room;
  is_empty_law = λ q v. is_empty_law q;
  is_full_law = is_full_law n;
  size_law = λ q v. sym (length-contents q);
  take_law = take_law n;
  push_law = push_law n;
  empty_law = λ q v e. empty_law q e;
  full_law = λ q d v e. full_law q d e;
}
