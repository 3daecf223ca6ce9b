-- ===== src/PrioOneThread/QuotedRoundRobin/Take.antt =====
-- What a pop takes out of a quoted round robin demand queue.
use sobjectizer.Base.{
  ℕ, suc, ◌+◌, ◌-◌, ◌<◌, ◌≡◌, refl, sym, ap, subst, ◌∙◌, inl, inr, true, false, List, ◌∷◌, length,
  leb, ◌==◌, if◌then◌else◌, arith, Bool-cases, List-cases,
}
use sobjectizer.PrioOneThread.StrictlyOrdered.{Popped, waits, shutdown_ex, popped}
use sobjectizer.PrioOneThread.QuotedRoundRobin.{
  Subqueue, DemandQueue, update, switch_to_lower_priority, find_demand, take, pop,
}
use sobjectizer.PrioOneThread.QuotedRoundRobin.Rounds.{
  waiting, waiting-update, waiting-cong, some_waiting, switch-Turned, find_demand-Turned,
  find_demand-filled, distance-bound,
}
use sobjectizer.PrioOneThread.QuotedRoundRobin.Valid.{IsValid, turned-IsValid}

-- What `take` leaves of a current subqueue with demands, before a switch.
abbrev shortened : {A : Type 0} → Subqueue A → List A → Subqueue A
shortened s ds = record s {
  demands = ds;
  demands_count = s.demands_count - 1;
  demands_processed = s.demands_processed + 1;
}

abbrev taken : {A : Type 0} → DemandQueue A → List A → DemandQueue A
taken q ds = record q {
  priorities =
      update q.priorities q.current_priority (shortened (q.priorities q.current_priority) ds);
  total_demands_count = q.total_demands_count - 1;
}

-- A pop of `d` from the current subqueue, of which `ds` is left.
record Taken {A : Type 0} (q : DemandQueue A) (d : A) (ds : List A) (r : DemandQueue A × Popped A)
    : Type 0 where
  replied : r.1 ≡ popped d
  valid : IsValid r.0
  left :
      (i : ℕ)
      → (r.0.priorities i).demands
        ≡ (if i == q.current_priority then ds else (q.priorities i).demands)

taken-total :
    {A : Type 0} (q : DemandQueue A) (d : A) (ds : List A)
    → IsValid q
    → (q.priorities q.current_priority).demands ≡ d ∷ ds
    → (taken q ds).total_demands_count ≡ waiting (taken q ds).priorities 8
taken-total q d ds v e =
    let less =
      waiting-update q.priorities 8 q.current_priority
        (shortened (q.priorities q.current_priority) ds) v.in_range in
    let total = v.total in
    let here : length (q.priorities q.current_priority).demands ≡ suc (length ds) = ap length e in
    omega arith

take_keeps :
    {A : Type 0} (q : DemandQueue A) (d : A) (ds : List A)
    → IsValid q
    → (q.priorities q.current_priority).demands ≡ d ∷ ds
    → let s = q.priorities q.current_priority in
      leb s.quote (s.demands_processed + 1) ≡ false → Taken q d ds (taken q ds, popped d)
take_keeps q d ds v e k = record {
  replied = refl;
  valid = record {
    total = taken-total q d ds v e;
    in_range = v.in_range;
    within = λ i. ground (arith, v.within i);
  };
  left = λ i. ground arith;
}

take_switches :
    {A : Type 0} (q : DemandQueue A) (d : A) (ds : List A)
    → IsValid q
    → (q.priorities q.current_priority).demands ≡ d ∷ ds
    → Taken q d ds (switch_to_lower_priority (taken q ds), popped d)
unfolding switch_to_lower_priority
take_switches q d ds v e =
    let t = switch-Turned (taken q ds) in
    record {
      replied = refl;
      valid = record {
        total = taken-total q d ds v e ∙ sym (waiting-cong _ (taken q ds).priorities 8 t.demands);
        in_range = t.in_range v.in_range;
        within = λ i. ground (arith, v.within i, v.within q.current_priority);
      };
      left = λ i. ground arith;
    }

take_lem :
    {A : Type 0} (q : DemandQueue A) (d : A) (ds : List A)
    → IsValid q
    → (q.priorities q.current_priority).demands ≡ d ∷ ds
    → Taken q d ds (take q)
unfolding take
take_lem q d ds v e =
    let s = q.priorities q.current_priority in
    elim (Bool-cases (leb s.quote (s.demands_processed + 1))) [
      | inl k ↦ subst (λ r. Taken q d ds r) (sym (simp (e, k, take))) (take_switches q d ds v e)
      | inr k ↦ subst (λ r. Taken q d ds r) (sym (simp (e, k, take))) (take_keeps q d ds v e k)
    ]

found_first :
    {A : Type 0} (q : DemandQueue A)
    → IsValid q
    → 0 < waiting q.priorities 8
    → let r = find_demand 8 q in
      (d : A) × (ds : List A) × ((r.priorities r.current_priority).demands ≡ d ∷ ds)
found_first q v some_demand =
    let (i, b, h) = some_waiting q.priorities 8 some_demand in
    let filled =
      find_demand-filled 8 q i v.in_range b h (distance-bound q.current_priority i v.in_range b) in
    let r = find_demand 8 q in
    elim (List-cases (r.priorities r.current_priority).demands) [
      | inl e ↦ absurd (ground arith)
      | inr (d, ds, e) ↦ (d, ds, e)
    ]

-- What a pop takes out: the first demand `d` of a subqueue, and nothing else.
pub record Served {A : Type 0} (q : DemandQueue A) (r : DemandQueue A × Popped A) : Type 0 where
  pub from : ℕ
  pub first : A
  pub rest : List A
  pub stood : (q.priorities from).demands ≡ first ∷ rest
  pub replied : r.1 ≡ popped first
  pub valid : IsValid r.0
  pub left :
      (i : ℕ) → (r.0.priorities i).demands ≡ (if i == from then rest else (q.priorities i).demands)

found-Served :
    {A : Type 0} (q : DemandQueue A)
    → IsValid q
    → 0 < waiting q.priorities 8
    → Served q (take (find_demand 8 q))
found-Served q v some_demand =
    let r = find_demand 8 q in
    let t = find_demand-Turned 8 q in
    let (d, ds, e) = found_first q v some_demand in
    let k = take_lem r d ds (turned-IsValid q r t v) e in
    record {
      from = r.current_priority;
      first = d;
      rest = ds;
      stood = sym (t.demands r.current_priority) ∙ e;
      replied = k.replied;
      valid = k.valid;
      left = λ i. k.left i ∙ ap (λ x. if i == r.current_priority then ds else x) (t.demands i);
    }

pub pop-Served :
    {A : Type 0} (q : DemandQueue A)
    → IsValid q
    → q.shutdown ≡ false
    → 0 < waiting q.priorities 8
    → Served q (pop q)
unfolding pop
pop-Served q v go some_demand =
    let total = v.total in
    let some_left : (q.total_demands_count == 0) ≡ false = ground arith in
    subst (λ r. Served q r) (sym (simp (go, some_left, pop))) (found-Served q v some_demand)

pop-stopped : {A : Type 0} (q : DemandQueue A) → q.shutdown ≡ true → pop q ≡ (q, shutdown_ex)
unfolding pop
pop-stopped q s = simp (s, pop)

pop-empty :
    {A : Type 0} (q : DemandQueue A)
    → q.shutdown ≡ false
    → (q.total_demands_count == 0) ≡ true
    → pop q ≡ (q, waits)
unfolding pop
pop-empty q s e = simp (s, e, pop)

pub pop-IsValid : {A : Type 0} (q : DemandQueue A) → IsValid q → IsValid (pop q).0
pop-IsValid q v = elim (Bool-cases q.shutdown) [
  | inl s ↦ subst (λ r. IsValid r) (sym (ap (λ x. x.0) (pop-stopped q s))) v
  | inr s ↦ elim (Bool-cases (q.total_demands_count == 0)) [
    | inl e ↦ subst (λ r. IsValid r) (sym (ap (λ x. x.0) (pop-empty q s e))) v
    | inr e ↦ let total = v.total in let k = pop-Served q v s (ground arith) in k.valid
  ]
]
