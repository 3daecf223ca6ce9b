-- ===== src/Mchain/Equivalence.antt =====
-- Scripts of calls on the demand queues of mchain_details.hpp, and what a chain sees of them.
use sobjectizer.Base.{
  ℕ, ◌≡◌, refl, sym, ap, ap₂, ◌∙◌, inl, inr, Bool, Option, List, [], ◌∷◌, ◌++◌, arith, Bool-cases,
  List-cases,
}
use sobjectizer.Mchain.Queue.{Demand, Result, ok, throw, QueueOps, QueueLaws}
use sobjectizer.Mchain.LimitedDynamic
use sobjectizer.Mchain.LimitedDynamic.{limited_dynamic_demand_queue, limited_dynamic-QueueLaws}
use sobjectizer.Mchain.LimitedPreallocated
use sobjectizer.Mchain.LimitedPreallocated.{
  limited_preallocated_demand_queue, limited_preallocated-QueueLaws, make-IsValid,
}

pub data QueueCall : Type 0 where
  push_back : Demand → QueueCall
  pop_front : QueueCall

-- What is seen before a call: the tests, the size and the front, and then whether the call throws.
pub record Seen : Type 0 where
  pub full : Bool
  pub empty : Bool
  pub size : ℕ
  pub front : Result Demand
  pub call : Result (Unit {0})

abbrev forget {ℓ} : {A : Type ℓ} → Result A → Result (Unit {0})
forget (ok a) = ok tt
forget (throw e) = throw e

-- A call that throws leaves the queue as it was.
abbrev kept {ℓ} : {A : Type ℓ} → A → Result A → A
kept q (ok q') = q'
kept q (throw e) = q

module _ (ops : QueueOps) where
  abbrev call : QueueCall → ops.Queue → Result ops.Queue
  call (push_back d) q = ops.push_back q d
  call pop_front q = ops.pop_front q

  abbrev pub look : QueueCall → ops.Queue → Seen
  look c q = record {
    full = ops.is_full q;
    empty = ops.is_empty q;
    size = ops.size q;
    front = ops.front q;
    call = forget (call c q);
  }

  unfoldable pub observe : ops.Queue → List QueueCall → List Seen
  observe q [] = []
  observe q (c ∷ cs) = look c q ∷ observe (kept q (call c q)) cs

module _ (ops ops' : QueueOps) {limit : Option ℕ} (laws : QueueLaws ops limit)
    (laws' : QueueLaws ops' limit) where
  record Alike (q : ops.Queue) (q' : ops'.Queue) : Type 0 where
    valid : laws.IsValid q
    valid' : laws'.IsValid q'
    same : laws.contents q ≡ laws'.contents q'

  tests-Alike :
      (q : ops.Queue) (q' : ops'.Queue)
      → Alike q q'
      → (ops.is_full q ≡ ops'.is_full q')
        × (ops.is_empty q ≡ ops'.is_empty q')
        × (ops.size q ≡ ops'.size q')
  tests-Alike q q' a = (
    rw (laws.is_full_law q a.valid, laws'.is_full_law q' a.valid', a.same),
    rw (laws.is_empty_law q a.valid, laws'.is_empty_law q' a.valid', a.same),
    rw (laws.size_law q a.valid, laws'.size_law q' a.valid', a.same),
  )

  front-Alike : (q : ops.Queue) (q' : ops'.Queue) → Alike q q' → ops.front q ≡ ops'.front q'
  front-Alike q q' a = elim (List-cases (laws'.contents q')) [
    | inl e ↦ (laws.empty_law q a.valid (a.same ∙ e)).0 ∙ sym (laws'.empty_law q' a.valid' e).0
    | inr (d, ds, e) ↦
        (laws.take_law q d ds a.valid (a.same ∙ e)).0 ∙ sym (laws'.take_law q' d ds a.valid' e).0
  ]

  -- The rest of a call after its test, on both queues.
  CallAlike : QueueCall → (q : ops.Queue) (q' : ops'.Queue) → Type 0
  CallAlike c q q' =
      (forget (call ops c q) ≡ forget (call ops' c q'))
      × Alike (kept q (call ops c q)) (kept q' (call ops' c q'))

  push-Alike :
      (d : Demand) (q : ops.Queue) (q' : ops'.Queue) → Alike q q' → CallAlike (push_back d) q q'
  unfolding CallAlike
  push-Alike d q q' a = elim (Bool-cases (ops'.is_full q')) [
    | inl f ↦
        rw
          (
            laws.full_law q d a.valid ((tests-Alike q q' a).0 ∙ f),
            laws'.full_law q' d a.valid' f,
            forget,
            kept,
          )
          (refl, a)
    | inr f ↦
        let (r, e, v, c) = laws.push_law q d a.valid ((tests-Alike q q' a).0 ∙ f) in
        let (r', e', v', c') = laws'.push_law q' d a.valid' f in
        rw (e, e', forget, kept)
          (
            refl,
            record { valid = v; valid' = v'; same = c ∙ ap (λ x. x ++ d ∷ []) a.same ∙ sym c' },
          )
  ]

  pop-Alike : (q : ops.Queue) (q' : ops'.Queue) → Alike q q' → CallAlike pop_front q q'
  unfolding CallAlike
  pop-Alike q q' a = elim (List-cases (laws'.contents q')) [
    | inl e ↦
        rw
          (
            (laws.empty_law q a.valid (a.same ∙ e)).1,
            (laws'.empty_law q' a.valid' e).1,
            forget,
            kept,
          )
          (refl, a)
    | inr (d, ds, e) ↦
        let (_, (r, p, v, c)) = laws.take_law q d ds a.valid (a.same ∙ e) in
        let (_, (r', p', v', c')) = laws'.take_law q' d ds a.valid' e in
        rw (p, p', forget, kept) (refl, record { valid = v; valid' = v'; same = c ∙ sym c' })
  ]

  call_alike : (c : QueueCall) (q : ops.Queue) (q' : ops'.Queue) → Alike q q' → CallAlike c q q'
  call_alike (push_back d) q q' a = push-Alike d q q' a
  call_alike pop_front q q' a = pop-Alike q q' a

  look-Alike :
      (c : QueueCall) (q : ops.Queue) (q' : ops'.Queue) → Alike q q' → look ops c q ≡ look ops' c q'
  unfolding CallAlike
  look-Alike c q q' a =
      let (full, empty, size) = tests-Alike q q' a in
      let front = front-Alike q q' a in
      let (called, _) = call_alike c q q' a in
      λ i. record {
        full = full i;
        empty = empty i;
        size = size i;
        front = front i;
        call = called i;
      }

  observe-Alike :
      (q : ops.Queue) (q' : ops'.Queue) (script : List QueueCall)
      → Alike q q'
      → observe ops q script ≡ observe ops' q' script
  unfolding observe CallAlike
  observe-Alike q q' [] a = refl
  observe-Alike q q' (c ∷ cs) a =
      ap₂ ◌∷◌ (look-Alike c q q' a) (
        observe-Alike (kept q (call ops c q)) (kept q' (call ops' c q')) cs (call_alike c q q' a).1)

-- The preallocated ring and the dynamic queue of one capacity answer every script of calls alike:
-- the same tests, sizes, fronts and exceptions at each call.
pub preallocated_like_dynamic :
    (n : ℕ) (script : List QueueCall)
    → observe limited_preallocated_demand_queue (LimitedPreallocated.make n) script
      ≡ observe limited_dynamic_demand_queue (LimitedDynamic.make n) script
unfolding LimitedDynamic.make LimitedPreallocated.make LimitedPreallocated.contents
preallocated_like_dynamic n script =
    observe-Alike limited_preallocated_demand_queue limited_dynamic_demand_queue
      (limited_preallocated-QueueLaws n) (limited_dynamic-QueueLaws n) (LimitedPreallocated.make n)
      (LimitedDynamic.make n) script
      (record {
        valid = make-IsValid n;
        valid' = record { capacity = refl; room = omega arith };
        same = refl;
      })
