-- ===== src/PrioOneThread/StrictlyOrdered.antt =====
-- `demand_queue_t` of disp/prio_one_thread/strictly_ordered/impl/demand_queue.hpp. The lock makes a
-- method one step; `pop` on an empty queue waits, and is called again after the notification.
pub mod Search
pub mod Order
pub mod Refinement
use sobjectizer.Base.{
  add_size, sub_size, ℕ, zero, suc, ◌+◌, ◌-◌, Bool, true, false, Option, none, some, List, [], ◌∷◌,
  ◌++◌, is_nil, ltb, ◌==◌, if◌then◌else◌,
}
use sobjectizer.PrioOneThread.Priority.{Priority, to_size_t}

-- `queue_for_one_priority_t`: the linked list from the head to the tail, and the two counters.
pub record Subqueue (A : Type 0) : Type 0 where
  pub demands : List A
  pub agents_count : ℕ
  pub demands_count : ℕ

-- The array of subqueues, by index, and the pointer into it (`none` is the null pointer).
pub record DemandQueue (A : Type 0) : Type 0 where
  pub shutdown : Bool
  pub current_priority : Option ℕ
  pub priorities : ℕ → Subqueue A

-- What `pop` comes to. The last one is the use of the head of an empty subqueue, a null pointer.
pub data Popped (A : Type 0) : Type 0 where
  waits : Popped A
  shutdown_ex : Popped A
  popped : A → Popped A
  null_dereferenced : Popped A

abbrev pub update : {A : Type 0} → (ℕ → Subqueue A) → ℕ → Subqueue A → ℕ → Subqueue A
update f p x i = if i == p then x else f i

unfoldable pub make : {A : Type 0} → DemandQueue A
make = record {
  shutdown = false;
  current_priority = none;
  priorities = λ i. record { demands = []; agents_count = 0; demands_count = 0 };
}

-- The queue after `stop`, and whether it notifies.
unfoldable pub stop : {A : Type 0} → DemandQueue A → DemandQueue A × Bool
stop q = (record q { shutdown = true }, elim q.current_priority [ none ↦ true | some p ↦ false ])

unfoldable pub add_demand_to_queue : {A : Type 0} → Subqueue A → A → Subqueue A
add_demand_to_queue s d = record s {
  demands = s.demands ++ d ∷ [];
  demands_count = s.demands_count + 1;
}

-- The pointer after a push to the subqueue `p`.
abbrev pub raised : Option ℕ → ℕ → Option ℕ
raised none p = some p
raised (some c) p = if ltb c p then some p else some c

-- The queue after `push`, and whether it notifies.
unfoldable pub push : {A : Type 0} → Priority → A → DemandQueue A → DemandQueue A × Bool
unfolding add_demand_to_queue
push p d q = (
  record q {
    priorities =
        update q.priorities (to_size_t p) (add_demand_to_queue (q.priorities (to_size_t p)) d);
    current_priority = raised q.current_priority (to_size_t p);
  },
  elim q.current_priority [ none ↦ true | some c ↦ false ],
)

-- The loop at the end of `pop`: the first subqueue with demands below the given index.
unfoldable pub next_below : {A : Type 0} → (ℕ → Subqueue A) → ℕ → Option ℕ
next_below f zero = none
next_below f (suc n) = let rest = next_below f n in if is_nil (f n).demands then rest else some n

-- The part of `pop` behind its guards, for the current subqueue `c`.
unfoldable pub pop_from : {A : Type 0} → ℕ → DemandQueue A → DemandQueue A × Popped A
unfolding next_below
pop_from c q = elim (q.priorities c).demands [
  | [] ↦ (q, null_dereferenced)
  | d ∷ ds ↦
      let left = record (q.priorities c) {
        demands = ds;
        demands_count = (q.priorities c).demands_count - 1;
      } in
      let priorities' = update q.priorities c left in
      (
        record q {
          priorities = priorities';
          current_priority = if is_nil ds then next_below priorities' c else some c;
        },
        popped d,
      )
]

unfoldable pub pop : {A : Type 0} → DemandQueue A → DemandQueue A × Popped A
unfolding pop_from
pop q =
    if q.shutdown
    then (q, shutdown_ex)
    else elim q.current_priority [ none ↦ (q, waits) | some c ↦ pop_from c q ]

unfoldable pub agent_bound : {A : Type 0} → Priority → DemandQueue A → DemandQueue A
agent_bound p q =
    let s = q.priorities (to_size_t p) in
    record q {
      priorities =
          update q.priorities (to_size_t p) (record s { agents_count = add_size s.agents_count 1 });
    }

unfoldable pub agent_unbound : {A : Type 0} → Priority → DemandQueue A → DemandQueue A
agent_unbound p q =
    let s = q.priorities (to_size_t p) in
    record q {
      priorities =
          update q.priorities (to_size_t p) (record s { agents_count = sub_size s.agents_count 1 });
    }
