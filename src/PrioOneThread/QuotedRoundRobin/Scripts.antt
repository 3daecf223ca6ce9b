-- ===== src/PrioOneThread/QuotedRoundRobin/Scripts.antt =====
-- Scripts of calls on a quoted round robin demand queue.
use sobjectizer.Base.{ℕ, ◌<◌, ◌≡◌, refl, false, List, [], ◌∷◌, ◌==◌, if◌then◌else◌, arith}
use sobjectizer.PrioOneThread.StrictlyOrdered.{popped}
use sobjectizer.PrioOneThread.StrictlyOrdered.Order.{QueueCall, pushes, pops, stops, binds, unbinds}
use sobjectizer.PrioOneThread.QuotedRoundRobin.{
  Quotes, DemandQueue, make, stop, push, pop, agent_bound, agent_unbound,
}
use sobjectizer.PrioOneThread.QuotedRoundRobin.Rounds.{waiting}
use sobjectizer.PrioOneThread.QuotedRoundRobin.Valid.{
  IsValid, push-IsValid, bound-IsValid, unbound-IsValid,
}
use sobjectizer.PrioOneThread.QuotedRoundRobin.Take.{pop-Served, pop-IsValid}

unfoldable pub run : {A : Type 0} → DemandQueue A → List (QueueCall A) → DemandQueue A
run q [] = q
run q (pushes p d ∷ cs) = run (push p d q).0 cs
run q (pops ∷ cs) = run (pop q).0 cs
run q (stops ∷ cs) = run (stop q).0 cs
run q (binds p ∷ cs) = run (agent_bound p q) cs
run q (unbinds p ∷ cs) = run (agent_unbound p q) cs

make-IsValid :
    {A : Type 0} (quotes : Quotes) → ((i : ℕ) → 0 < quotes i) → IsValid {A = A} (make quotes)
unfolding make waiting
make-IsValid quotes h = record { total = refl; in_range = omega arith; within = h }

run-IsValid :
    {A : Type 0} (q : DemandQueue A) (cs : List (QueueCall A)) → IsValid q → IsValid (run q cs)
unfolding run
run-IsValid q [] v = v
run-IsValid q (pushes p d ∷ cs) v = run-IsValid (push p d q).0 cs (push-IsValid p d q v)
run-IsValid q (pops ∷ cs) v = run-IsValid (pop q).0 cs (pop-IsValid q v)
run-IsValid q (stops ∷ cs) v =
    run-IsValid (stop q).0 cs (record { total = v.total; in_range = v.in_range; within = v.within })
run-IsValid q (binds p ∷ cs) v = run-IsValid (agent_bound p q) cs (bound-IsValid p q v)
run-IsValid q (unbinds p ∷ cs) v = run-IsValid (agent_unbound p q) cs (unbound-IsValid p q v)

-- With quotes other than 0, after every script of calls: the total is the number of demands in the
-- subqueues, the current subqueue is one of the eight, and none has used up its quote.
pub totals_and_quotes :
    {A : Type 0} (quotes : Quotes) (script : List (QueueCall A)) (i : ℕ)
    → ((j : ℕ) → 0 < quotes j)
    → let q = run (make quotes) script in
      (q.total_demands_count ≡ waiting q.priorities 8)
      × (q.current_priority < 8)
      × ((q.priorities i).demands_processed < (q.priorities i).quote)
totals_and_quotes quotes script i h =
    let v = run-IsValid (make quotes) script (make-IsValid quotes h) in
    (v.total, v.in_range, v.within i)

-- With quotes other than 0, after every script of calls that leaves the queue running with some demand
-- in it, a pop returns: it takes the first demand of one of the subqueues and leaves all else. The loop
-- that looks for the demand ends within eight rounds.
pub pop_takes_first :
    {A : Type 0} (quotes : Quotes) (script : List (QueueCall A))
    → ((j : ℕ) → 0 < quotes j)
    → (run (make quotes) script).shutdown ≡ false
    → 0 < (run (make quotes) script).total_demands_count
    → let q = run (make quotes) script in
      let (q', reply) = pop q in
      (c : ℕ) × (d : A) × (ds : List A) × ((q.priorities c).demands ≡ d ∷ ds)
      × (reply ≡ popped d)
      × ((i : ℕ) → (q'.priorities i).demands ≡ (if i == c then ds else (q.priorities i).demands))
pop_takes_first quotes script h go some_demand =
    let q = run (make quotes) script in
    let v = run-IsValid (make quotes) script (make-IsValid quotes h) in
    let total = v.total in
    let k = pop-Served q v go (omega arith) in (k.from, k.first, k.rest, k.stood, k.replied, k.left)
