-- ===== src/PrioOneThread/Tests.antt =====
-- Runs of the queues with priorities on concrete calls.
use sobjectizer.Base.{ℕ, ◌<◌, ◌==◌, if◌then◌else◌, arith, ◌≡◌, refl, true, false, List, [], ◌∷◌}
use sobjectizer.PrioOneThread.QuotedRoundRobin
use sobjectizer.PrioOneThread.QuotedRoundRobin.{Quotes}
use sobjectizer.PrioOneThread.QuotedRoundRobin.Rounds.{waiting}
use sobjectizer.PrioOneThread.QuotedRoundRobin.Scripts.{run, totals_and_quotes, pop_takes_first}
use sobjectizer.PrioOneThread.Priority.{p0, p3, p7}
use sobjectizer.PrioOneThread.StrictlyOrdered.{make, push, pop, stop, waits, shutdown_ex, popped}
use sobjectizer.PrioOneThread.StrictlyOrdered.Order.{
  QueueCall, pushes, pops, stops, notified, outcome, replies, specified_replies,
}
use sobjectizer.PrioOneThread.StrictlyOrdered.Refinement.{like_one_line}

abbrev script : List (QueueCall ℕ)
script =
    pushes p0 1
    ∷ pushes p3 2
    ∷ pushes p3 3
    ∷ pops
    ∷ pushes p7 4
    ∷ pops
    ∷ pops
    ∷ pops
    ∷ pops
    ∷ stops
    ∷ pops
    ∷ []

like_one_line_example :
    replies make script ≡ specified_replies (record { stopped = false; line = [] }) script
like_one_line_example = like_one_line script

strictly_ordered_replies :
    replies make script
    ≡ notified true
      ∷ notified false
      ∷ notified false
      ∷ outcome (popped 2)
      ∷ notified false
      ∷ outcome (popped 4)
      ∷ outcome (popped 3)
      ∷ outcome (popped 1)
      ∷ outcome waits
      ∷ notified true
      ∷ outcome shutdown_ex
      ∷ []
unfolding replies make push pop stop
strictly_ordered_replies = refl

-- The quote of p3 is 1 and those of the others are 2.
abbrev quotes : Quotes
quotes i = if i == 3 then 1 else 2

quotes-positive : (i : ℕ) → 0 < quotes i
quotes-positive i = ground arith

abbrev rounds : List (QueueCall ℕ)
rounds = pushes p0 1 ∷ pushes p3 2 ∷ pushes p3 3 ∷ pops ∷ []

totals_and_quotes_example :
    let q = run (QuotedRoundRobin.make quotes) rounds in
    (q.total_demands_count ≡ waiting q.priorities 8)
    × (q.current_priority < 8)
    × ((q.priorities 3).demands_processed < (q.priorities 3).quote)
totals_and_quotes_example = totals_and_quotes quotes rounds 3 quotes-positive

-- The quote of p3 is used up, so the demand of p0 is next.
round_robin_pops : (QuotedRoundRobin.pop (run (QuotedRoundRobin.make quotes) rounds)).1 ≡ popped 1
unfolding run QuotedRoundRobin.make QuotedRoundRobin.push QuotedRoundRobin.pop
round_robin_pops = refl

pop_takes_first_example :
    let q = run (QuotedRoundRobin.make quotes) rounds in
    let (q', reply) = QuotedRoundRobin.pop q in
    (c : ℕ) × (d : ℕ) × (ds : List ℕ) × ((q.priorities c).demands ≡ d ∷ ds)
    × (reply ≡ popped d)
    × ((i : ℕ) → (q'.priorities i).demands ≡ (if i == c then ds else (q.priorities i).demands))
unfolding run QuotedRoundRobin.make QuotedRoundRobin.push QuotedRoundRobin.pop
pop_takes_first_example = pop_takes_first quotes rounds quotes-positive refl (omega arith)
