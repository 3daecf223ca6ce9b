-- ===== src/QueueOfQueues/Wakeup.antt =====
-- No wakeup is lost in `queue_of_queues_t` (dev/so_5/disp/reuse/queue_of_queues.hpp).
use sobjectizer.Base.{
  take_at, ℕ, zero, suc, ◌+◌, ◌-◌, ◌<◌, ◌≡◌, refl, sym, ap, subst, inl, inr, ◌++◌, is_nil, length,
  length-append, true, false, none, some, List, [], ◌∷◌, ◌==◌, arith, Bool-cases, Option-cases,
  List-cases,
}
use sobjectizer.QueueOfQueues.{
  Queue, pop_and_notify_one_waiting_customer, is_wakeup_possible, try_wakeup_someone_if_possible,
  notify_all, PopResult, popped, null, waits, pop, after_pop,
}

pub length-take_at :
    {A : Type 0} (i : ℕ) (l : List A) (p : A × List A)
    → take_at i l ≡ some p
    → length l ≡ suc (length p.1)
unfolding take_at
length-take_at zero [] p e = absurd (cc)
length-take_at (suc i) [] p e = absurd (cc)
length-take_at {A} zero (x ∷ xs) p e =
    let same : (x, xs) ≡ p = cc in
    subst (λ (q : A × List A). suc (length xs) ≡ suc (length q.1)) same refl
length-take_at {A} (suc i) (x ∷ xs) p e = elim (Option-cases (take_at i xs)) [
  | inl k ↦ let gone : take_at (suc i) (x ∷ xs) ≡ none = simp (k, take_at) in absurd (cc)
  | inr (q, k) ↦
      let rest = length-take_at i xs q k in
      let there : take_at (suc i) (x ∷ xs) ≡ some (q.0, x ∷ q.1) = simp (k, take_at) in
      let same : (q.0, x ∷ q.1) ≡ p = cc in
      subst (λ (r : A × List A). suc (length xs) ≡ suc (length r.1)) same (omega arith)
]

-- With the number of threads at work and that of woken ones: before a wakeup is tried.
abbrev pub IsCounted : Queue → ℕ → ℕ → Type 0
IsCounted q working woken =
    (0 < q.max_thread_count)
    × (q.shutdown_flag ≡ true → length q.waiting_customers ≡ 0)
    × (q.shutdown_flag ≡ false → working + woken + length q.waiting_customers ≡ q.max_thread_count)
    × (q.shutdown_flag ≡ false → q.wakeup_in_progress ≡ true → 0 < woken)

-- And after it.
abbrev pub IsAwake : Queue → ℕ → ℕ → Type 0
IsAwake q working woken =
    IsCounted q working woken × (q.shutdown_flag ≡ false → 0 < length q.items → 0 < working + woken)

notified-IsAwake :
    (q : Queue) (working woken : ℕ)
    → IsCounted q working woken
    → 0 < length q.waiting_customers
    → let r = pop_and_notify_one_waiting_customer q in IsAwake r.0 working (length r.1 + woken)
unfolding pop_and_notify_one_waiting_customer
notified-IsAwake q working woken (a, b, c, d) w = elim (List-cases q.waiting_customers) [
  | inl e ↦ let l : length q.waiting_customers ≡ 0 = ap length e in absurd (omega arith)
  | inr (condition, rest, e) ↦
      let l : length q.waiting_customers ≡ suc (length rest) = ap length e in
      let after : pop_and_notify_one_waiting_customer q
          ≡ (record q { waiting_customers = rest; wakeup_in_progress = true }, condition ∷ []) =
        simp (e, pop_and_notify_one_waiting_customer) in
      subst (λ (r : Queue × List ℕ). IsAwake r.0 working (length r.1 + woken)) (sym after)
        (
          (
            a,
            (λ h. let z = b h in absurd (omega arith)),
            (λ h. let z = c h in omega arith),
            (λ h k. omega arith),
          ),
          (λ h k. omega arith),
        )
]

is_nil-length : {A : Type 0} (l : List A) → is_nil l ≡ (length l == 0)
is_nil-length [] = refl
is_nil-length (x ∷ xs) = ground arith

possible_lem : (q : Queue) → is_wakeup_possible q ≡ true → 0 < length q.waiting_customers
unfolding is_wakeup_possible
possible_lem q h = let customers = is_nil-length q.waiting_customers in ground arith

impossible_lem :
    (q : Queue) (working woken : ℕ)
    → working + woken + length q.waiting_customers ≡ q.max_thread_count
    → (q.wakeup_in_progress ≡ true → 0 < woken)
    → 0 < q.max_thread_count
    → 0 < length q.items
    → is_wakeup_possible q ≡ false
    → 0 < working + woken
unfolding is_wakeup_possible
impossible_lem q working woken c d a k h =
    let items = is_nil-length q.items in
    let customers = is_nil-length q.waiting_customers in
    elim (Bool-cases q.wakeup_in_progress) [
      | inl p ↦ let z = d p in omega arith
      | inr p ↦ ground arith
    ]

pub tried-IsAwake :
    (q : Queue) (working woken : ℕ)
    → IsCounted q working woken
    → let r = try_wakeup_someone_if_possible q in IsAwake r.0 working (length r.1 + woken)
unfolding try_wakeup_someone_if_possible
tried-IsAwake q working woken (a, b, c, d) = elim (Bool-cases (is_wakeup_possible q)) [
  | inl h ↦
      let some_wait : 0 < length q.waiting_customers = possible_lem q h in
      rw h (notified-IsAwake q working woken (a, b, c, d) some_wait)
  | inr h ↦ rw h (
    (a, b, (λ f. let z = c f in omega arith), (λ f p. let z = d f p in omega arith)),
    (λ f k. let z = impossible_lem q working woken (c f) (d f) a k h in omega arith),
  )
]

-- The threads that are notified are woken ones.
pub joined-IsAwake :
    (q : Queue) (working : ℕ) (notified woken : List ℕ)
    → IsAwake q working (length notified + length woken)
    → IsAwake q working (length (notified ++ woken))
joined-IsAwake q working notified woken =
    subst (λ n. IsAwake q working n) (sym (length-append notified woken))

pub popped-IsAwake :
    (condition : ℕ) (q : Queue) (working woken : List ℕ)
    → IsCounted q (suc (length working)) (length woken)
    → let s = after_pop condition (pop condition q) working woken in
      IsAwake s.queue (length s.working) (length s.woken)
unfolding pop after_pop
popped-IsAwake condition q working woken (a, b, c, d) = elim (Bool-cases q.shutdown_flag) [
  | inl h ↦
      let after : pop condition q ≡ ((q, []), null) = simp (h, pop) in
      subst
        (λ (r : (Queue × List ℕ) × PopResult).
          let s = after_pop condition r working woken in
          IsAwake s.queue (length s.working) (length s.woken))
        (sym after) ((a, b, (λ f. absurd (cc)), (λ f p. absurd (cc))), (λ f k. absurd (cc)))
  | inr h ↦ elim (List-cases q.items) [
    | inl e ↦
        let after : pop condition q
            ≡ ((record q { waiting_customers = condition ∷ q.waiting_customers }, []), waits) =
          simp (h, e, pop) in
        subst
          (λ (r : (Queue × List ℕ) × PopResult).
            let s = after_pop condition r working woken in
            IsAwake s.queue (length s.working) (length s.woken))
          (sym after)
          (
            (a, (λ f. absurd (cc)), (λ f. let z = c f in omega arith), d),
            (λ f k. let l : length q.items ≡ 0 = ap length e in absurd (omega arith)),
          )
    | inr (r, rest, e) ↦
        let left : Queue = record q { items = rest; queue_size = q.queue_size - 1 } in
        let after : pop condition q ≡ (try_wakeup_someone_if_possible left, popped r) =
          simp (h, e, pop) in
        subst
          (λ (r : (Queue × List ℕ) × PopResult).
            let s = after_pop condition r working woken in
            IsAwake s.queue (length s.working) (length s.woken))
          (sym after)
          (joined-IsAwake (try_wakeup_someone_if_possible left).0 (suc (length working))
            (try_wakeup_someone_if_possible left).1 woken
            (tried-IsAwake left (suc (length working)) (length woken) (a, b, c, d)))
  ]
]

-- When all are notified at the shutdown, nobody waits.
pub notify_all-waits :
    (cs : List ℕ) (q : Queue)
    → q.waiting_customers ≡ cs
    → ((notify_all cs q).0.waiting_customers ≡ [])
      × ((notify_all cs q).0.shutdown_flag ≡ q.shutdown_flag)
      × ((notify_all cs q).0.max_thread_count ≡ q.max_thread_count)
unfolding notify_all pop_and_notify_one_waiting_customer
notify_all-waits [] q e = (e, refl, refl)
notify_all-waits (c ∷ cs) q e =
    let q' : Queue = record q { waiting_customers = cs; wakeup_in_progress = true } in
    let one : pop_and_notify_one_waiting_customer q ≡ (q', c ∷ []) =
      simp (e, pop_and_notify_one_waiting_customer) in
    let after : (notify_all (c ∷ cs) q).0 ≡ (notify_all cs q').0 = simp (one, notify_all) in
    subst
      (λ (r : Queue).
        (r.waiting_customers ≡ [])
        × (r.shutdown_flag ≡ q.shutdown_flag)
        × (r.max_thread_count ≡ q.max_thread_count))
      (sym after) (notify_all-waits cs q' refl)
