-- ===== src/PrioOneThread/QuotedRoundRobin.antt =====
-- `demand_queue_t` of disp/prio_one_thread/quoted_round_robin/impl/demand_queue.hpp and `quotes_t` of
-- quotes.hpp. The lock makes a method one step; `pop` on an empty queue waits, and is called again after
-- the notification.
pub mod Rounds
pub mod Valid
pub mod Take
pub mod Scripts
use sobjectizer.Base.{
  add_size, sub_size, ℕ, zero, suc, ◌+◌, ◌-◌, Bool, true, false, Option, none, some, List, [], ◌∷◌,
  ◌++◌, is_nil, leb, ◌==◌, if◌then◌else◌,
}
use sobjectizer.PrioOneThread.Priority.{Priority, to_size_t, total_priorities_count}
use sobjectizer.PrioOneThread.StrictlyOrdered.{
  Popped, waits, shutdown_ex, popped, null_dereferenced,
}

-- `quotes_t`: the quotes by index. `none` is the exception about a quote of 0.
abbrev pub Quotes : Type 0
Quotes = ℕ → ℕ

unfoldable pub make_quotes : ℕ → Option Quotes
make_quotes default_value = if default_value == 0 then none else some (λ i. default_value)

unfoldable pub set_quote : Priority → ℕ → Quotes → Option Quotes
set_quote p quote quotes =
    if quote == 0 then none else some (λ i. if i == to_size_t p then quote else quotes i)

-- `queue_for_one_priority_t`.
pub record Subqueue (A : Type 0) : Type 0 where
  pub demands : List A
  pub quote : ℕ
  pub demands_processed : ℕ
  pub agents_count : ℕ
  pub demands_count : ℕ

pub record DemandQueue (A : Type 0) : Type 0 where
  pub shutdown : Bool
  pub total_demands_count : ℕ
  pub priorities : ℕ → Subqueue A
  pub current_priority : ℕ

abbrev pub update : {A : Type 0} → (ℕ → Subqueue A) → ℕ → Subqueue A → ℕ → Subqueue A
update f p x i = if i == p then x else f i

unfoldable pub make : {A : Type 0} → Quotes → DemandQueue A
make quotes = record {
  shutdown = false;
  total_demands_count = 0;
  priorities = λ i. record {
    demands = [];
    quote = quotes i;
    demands_processed = 0;
    agents_count = 0;
    demands_count = 0;
  };
  current_priority = 7;
}

-- The queue after `stop`, and whether it notifies.
abbrev pub stop : {A : Type 0} → DemandQueue A → DemandQueue A × Bool
stop q = (record q { shutdown = true }, q.total_demands_count == 0)

unfoldable pub add_demand_to_queue : {A : Type 0} → Subqueue A → A → Subqueue A
add_demand_to_queue s d = record s {
  demands = s.demands ++ d ∷ [];
  demands_count = s.demands_count + 1;
}

-- The queue after `push`, and whether it notifies.
unfoldable pub push : {A : Type 0} → Priority → A → DemandQueue A → DemandQueue A × Bool
unfolding add_demand_to_queue
push p d q = (
  record q {
    priorities =
        update q.priorities (to_size_t p) (add_demand_to_queue (q.priorities (to_size_t p)) d);
    total_demands_count = q.total_demands_count + 1;
  },
  q.total_demands_count + 1 == 1,
)

-- The next index, from the lowest priority to the highest again.
abbrev pub lower : ℕ → ℕ
lower zero = 7
lower (suc n) = n

unfoldable pub switch_to_lower_priority : {A : Type 0} → DemandQueue A → DemandQueue A
switch_to_lower_priority q = record q {
  priorities =
      update q.priorities q.current_priority
        (record (q.priorities q.current_priority) { demands_processed = 0 });
  current_priority = lower q.current_priority;
}

-- The loop of `pop` that looks for a demand, with fuel for its rounds.
unfoldable pub find_demand : {A : Type 0} → ℕ → DemandQueue A → DemandQueue A
unfolding switch_to_lower_priority
find_demand zero q = q
find_demand (suc fuel) q = elim (is_nil (q.priorities q.current_priority).demands) [
  | true ↦ find_demand fuel (switch_to_lower_priority q)
  | false ↦ q
]

-- The rest of `pop`, on the current subqueue.
unfoldable pub take : {A : Type 0} → DemandQueue A → DemandQueue A × Popped A
unfolding switch_to_lower_priority
take q =
    let s = q.priorities q.current_priority in
    elim s.demands [
      | [] ↦ (q, null_dereferenced)
      | d ∷ ds ↦
          let left = record s {
            demands = ds;
            demands_count = s.demands_count - 1;
            demands_processed = s.demands_processed + 1;
          } in
          let taken = record q {
            priorities = update q.priorities q.current_priority left;
            total_demands_count = q.total_demands_count - 1;
          } in
          (
            (if leb s.quote (s.demands_processed + 1)
                then switch_to_lower_priority taken
                else taken),
            popped d,
          )
    ]

unfoldable pub pop : {A : Type 0} → DemandQueue A → DemandQueue A × Popped A
unfolding find_demand take
pop q =
    if q.shutdown
    then (q, shutdown_ex)
    else if q.total_demands_count == 0
    then (q, waits)
    else take (find_demand total_priorities_count q)

unfoldable pub agent_bound : {A : Type 0} → Priority → DemandQueue A → DemandQueue A
agent_bound p q =
    let s = q.priorities (to_size_t p) in
    record q {
      priorities =
          update q.priorities (to_size_t p) (record s { agents_count = add_size s.agents_count 1 });
    }

unfoldable pub agent_unbound : {A : Type 0} → Priority → DemandQueue A → DemandQueue A
agent_unbound p q =
    let s = q.priorities (to_size_t p) in
    record q {
      priorities =
          update q.priorities (to_size_t p) (record s { agents_count = sub_size s.agents_count 1 });
    }
