-- ===== src/PrioOneThread/QuotedRoundRobin/Valid.antt =====
-- The valid states of a quoted round robin demand queue.
use sobjectizer.Base.{
  ℕ, ◌<◌, ◌≡◌, refl, sym, ◌∙◌, inl, inr, [], ◌∷◌, length-append, ◌==◌, arith, Bool-cases,
}
use sobjectizer.PrioOneThread.Priority.{Priority, to_size_t, to_size_t-bound}
use sobjectizer.PrioOneThread.QuotedRoundRobin.{
  Subqueue, DemandQueue, update, add_demand_to_queue, push, agent_bound, agent_unbound,
}
use sobjectizer.PrioOneThread.QuotedRoundRobin.Rounds.{
  waiting, waiting-update, waiting-cong, Turned,
}

-- The total is right, the index is in range, and no subqueue has used its quote up.
pub record IsValid {A : Type 0} (q : DemandQueue A) : Type 0 where
  pub total : q.total_demands_count ≡ waiting q.priorities 8
  pub in_range : q.current_priority < 8
  pub within : (i : ℕ) → (q.priorities i).demands_processed < (q.priorities i).quote

pub turned-IsValid : {A : Type 0} (q r : DemandQueue A) → Turned q r → IsValid q → IsValid r
turned-IsValid q r t v = record {
  total = t.total ∙ v.total ∙ sym (waiting-cong r.priorities q.priorities 8 t.demands);
  in_range = t.in_range v.in_range;
  within = λ i.
      let before = v.within i in
      let quote = t.quotes i in elim (t.processed i) [ inl e ↦ omega arith | inr e ↦ omega arith ];
}

pub push-IsValid :
    {A : Type 0} (p : Priority) (d : A) (q : DemandQueue A) → IsValid q → IsValid (push p d q).0
unfolding push add_demand_to_queue
push-IsValid p d q v =
    let n = to_size_t p in
    let x = add_demand_to_queue (q.priorities n) d in
    record {
      total =
          let total = v.total in
          let more = waiting-update q.priorities 8 n x (to_size_t-bound p) in
          omega (arith, length-append (q.priorities n).demands (d ∷ []));
      in_range = v.in_range;
      within = λ i. ground (arith, v.within i, v.within n);
    }

-- A subqueue that holds the same demands and counts.
same_waiting :
    {A : Type 0} (f : ℕ → Subqueue A) (p i : ℕ) (x : Subqueue A)
    → x.demands ≡ (f p).demands
    → (update f p x i).demands ≡ (f i).demands
same_waiting f p i x e = elim (Bool-cases (i == p)) [
  | inl j ↦ let same : (f p).demands ≡ (f i).demands = ground arith in rw (j, e) same
  | inr j ↦ rw j refl
]

pub bound-IsValid :
    {A : Type 0} (p : Priority) (q : DemandQueue A) → IsValid q → IsValid (agent_bound p q)
unfolding agent_bound
bound-IsValid p q v = record {
  total =
      v.total
      ∙ sym (waiting-cong _ q.priorities 8 (λ i. same_waiting q.priorities (to_size_t p) i _ refl));
  in_range = v.in_range;
  within = λ i. ground (arith, v.within i, v.within (to_size_t p));
}

pub unbound-IsValid :
    {A : Type 0} (p : Priority) (q : DemandQueue A) → IsValid q → IsValid (agent_unbound p q)
unfolding agent_unbound
unbound-IsValid p q v = record {
  total =
      v.total
      ∙ sym (waiting-cong _ q.priorities 8 (λ i. same_waiting q.priorities (to_size_t p) i _ refl));
  in_range = v.in_range;
  within = λ i. ground (arith, v.within i, v.within (to_size_t p));
}
