-- ===== src/PrioOneThread/QuotedRoundRobin/Rounds.antt =====
-- The loop of `pop` over the subqueues.
use sobjectizer.Base.{
  ℕ, zero, suc, ◌+◌, ◌-◌, ◌<◌, ◌≡◌, refl, sym, ap, subst, ◌∙◌, inl, inr, ◌⊎◌, true, false, length,
  is_nil, leb, ◌==◌, if◌then◌else◌, arith, Bool-cases, List-cases,
}
use sobjectizer.PrioOneThread.QuotedRoundRobin.{
  Subqueue, DemandQueue, update, lower, switch_to_lower_priority, find_demand,
}

-- The number of demands in the subqueues below an index.
unfoldable pub waiting : {A : Type 0} → (ℕ → Subqueue A) → ℕ → ℕ
waiting f zero = 0
waiting f (suc n) = length (f n).demands + waiting f n

pub waiting-update_above :
    {A : Type 0} (f : ℕ → Subqueue A) (n p : ℕ) (x : Subqueue A)
    → n < suc p
    → waiting (update f p x) n ≡ waiting f n
unfolding waiting
waiting-update_above f zero p x b = refl
waiting-update_above f (suc n) p x b =
    let rest = waiting-update_above f n p x (omega arith) in
    let other : (n == p) ≡ false = ground arith in rw (other, rest) refl

-- The number with another subqueue at an index, against the one before.
pub waiting-update :
    {A : Type 0} (f : ℕ → Subqueue A) (n p : ℕ) (x : Subqueue A)
    → p < n
    → waiting (update f p x) n + length (f p).demands ≡ waiting f n + length x.demands
unfolding waiting
waiting-update f zero p x b = absurd (omega arith)
waiting-update f (suc n) p x b = elim (Bool-cases (n == p)) [
  | inl j ↦
      let rest = waiting-update_above f n p x (ground arith) in
      let same : n ≡ p = ground arith in rw (j, rest) (ground arith)
  | inr j ↦ let rest = waiting-update f n p x (ground arith) in rw j (omega arith)
]

pub some_waiting :
    {A : Type 0} (f : ℕ → Subqueue A) (n : ℕ)
    → 0 < waiting f n
    → (i : ℕ) × (i < n) × (is_nil (f i).demands ≡ false)
unfolding waiting
some_waiting f zero b = absurd (omega arith)
some_waiting f (suc n) b = elim (List-cases (f n).demands) [
  | inl e ↦ let (i, lt, h) = some_waiting f n (ground arith) in (i, omega arith, h)
  | inr (x, xs, e) ↦ (n, omega arith, ground arith)
]

-- The rounds from one index down to another, around the end.
abbrev distance : ℕ → ℕ → ℕ
distance c i = if leb i c then c - i else (c + 8) - i

distance-lower :
    (c i : ℕ) → c < 8 → i < 8 → (c == i) ≡ false → suc (distance (lower c) i) ≡ distance c i
distance-lower zero i b b' h = ground arith
distance-lower (suc c) i b b' h = ground arith

pub waiting-cong :
    {A : Type 0} (f g : ℕ → Subqueue A) (n : ℕ)
    → ((i : ℕ) → (f i).demands ≡ (g i).demands)
    → waiting f n ≡ waiting g n
unfolding waiting
waiting-cong f g zero e = refl
waiting-cong f g (suc n) e = rw (e n, waiting-cong f g n e) refl

-- Nothing is moved, but for the index and the counts of the iteration.
pub record Turned {A : Type 0} (q r : DemandQueue A) : Type 0 where
  pub demands : (i : ℕ) → (r.priorities i).demands ≡ (q.priorities i).demands
  pub quotes : (i : ℕ) → (r.priorities i).quote ≡ (q.priorities i).quote
  pub processed :
      (i : ℕ)
      → ((r.priorities i).demands_processed ≡ (q.priorities i).demands_processed)
        ⊎ ((r.priorities i).demands_processed ≡ 0)
  pub total : r.total_demands_count ≡ q.total_demands_count
  pub shutdown : r.shutdown ≡ q.shutdown
  pub in_range : q.current_priority < 8 → r.current_priority < 8

pub switch-Turned : {A : Type 0} (q : DemandQueue A) → Turned q (switch_to_lower_priority q)
unfolding switch_to_lower_priority
switch-Turned q = record {
  demands = λ i. ground arith;
  quotes = λ i. ground arith;
  processed = λ i. ground arith;
  total = refl;
  shutdown = refl;
  in_range = λ b. lower-bound q.current_priority b;
}
  where
    lower-bound : (c : ℕ) → c < 8 → lower c < 8
    lower-bound zero b = omega arith
    lower-bound (suc c) b = omega arith

turn_twice : {A : Type 0} (q r s : DemandQueue A) → Turned q r → Turned r s → Turned q s
turn_twice q r s a b = record {
  demands = λ i. b.demands i ∙ a.demands i;
  quotes = λ i. b.quotes i ∙ a.quotes i;
  processed = λ i. elim (b.processed i) [
    | inl e ↦ elim (a.processed i) [ inl e' ↦ inl (e ∙ e') | inr e' ↦ inr (e ∙ e') ]
    | inr e ↦ inr e
  ];
  total = b.total ∙ a.total;
  shutdown = b.shutdown ∙ a.shutdown;
  in_range = λ h. b.in_range (a.in_range h);
}

still : {A : Type 0} (q : DemandQueue A) → Turned q q
still q = record {
  demands = λ i. refl;
  quotes = λ i. refl;
  processed = λ i. inl refl;
  total = refl;
  shutdown = refl;
  in_range = λ b. b;
}

-- One round of the loop.
find_demand-round :
    {A : Type 0} (fuel : ℕ) (q : DemandQueue A)
    → is_nil (q.priorities q.current_priority).demands ≡ true
    → find_demand (suc fuel) q ≡ find_demand fuel (switch_to_lower_priority q)
unfolding find_demand
find_demand-round fuel q e = simp (e, find_demand)

find_demand-end :
    {A : Type 0} (fuel : ℕ) (q : DemandQueue A)
    → is_nil (q.priorities q.current_priority).demands ≡ false
    → find_demand (suc fuel) q ≡ q
unfolding find_demand
find_demand-end fuel q e = simp (e, find_demand)

pub find_demand-Turned : {A : Type 0} (fuel : ℕ) (q : DemandQueue A) → Turned q (find_demand fuel q)
unfolding find_demand
find_demand-Turned zero q = still q
find_demand-Turned (suc fuel) q =
    elim (Bool-cases (is_nil (q.priorities q.current_priority).demands)) [
      | inl e ↦
          let q' = switch_to_lower_priority q in
          subst (λ r. Turned q r) (sym (find_demand-round fuel q e))
            (turn_twice q q' (find_demand fuel q') (switch-Turned q) (find_demand-Turned fuel q'))
      | inr e ↦ subst (λ r. Turned q r) (sym (find_demand-end fuel q e)) (still q)
    ]

not_here :
    {A : Type 0} (f : ℕ → Subqueue A) (c i : ℕ)
    → is_nil (f i).demands ≡ false
    → is_nil (f c).demands ≡ true
    → (c == i) ≡ false
not_here f c i h e = ground arith

next_distance :
    {A : Type 0} {fuel : ℕ} (q : DemandQueue A) (i : ℕ)
    → distance (lower q.current_priority) i < fuel
    → distance (switch_to_lower_priority q).current_priority i < fuel
unfolding switch_to_lower_priority
next_distance q i b = b

-- With a round for each subqueue between the index and one with demands, the loop ends at one.
pub find_demand-filled :
    {A : Type 0} (fuel : ℕ) (q : DemandQueue A) (i : ℕ)
    → q.current_priority < 8
    → i < 8
    → is_nil (q.priorities i).demands ≡ false
    → distance q.current_priority i < fuel
    → let r = find_demand fuel q in is_nil (r.priorities r.current_priority).demands ≡ false
unfolding find_demand
find_demand-filled zero q i b b' h d = absurd (omega arith)
find_demand-filled (suc fuel) q i b b' h d =
    elim (Bool-cases (is_nil (q.priorities q.current_priority).demands)) [
      | inl e ↦
          let q' = switch_to_lower_priority q in
          let turned = switch-Turned q in
          let other = not_here q.priorities q.current_priority i h e in
          let closer = distance-lower q.current_priority i b b' other in
          subst (λ r. is_nil (r.priorities r.current_priority).demands ≡ false)
            (sym (find_demand-round fuel q e))
            (find_demand-filled fuel q' i (turned.in_range b) b' (ap is_nil (turned.demands i) ∙ h)
              (next_distance q i (omega arith)))
      | inr e ↦
          subst (λ r. is_nil (r.priorities r.current_priority).demands ≡ false)
            (sym (find_demand-end fuel q e)) e
    ]

pub distance-bound : (c i : ℕ) → c < 8 → i < 8 → distance c i < 8
distance-bound c i b b' = ground arith
