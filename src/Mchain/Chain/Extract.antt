-- ===== src/Mchain/Chain/Extract.antt =====
-- The steps of a chain that extract.
use sobjectizer.Base.{
  ◌-◌, ℕ, ◌≡◌, refl, inl, inr, false, Option, arith, if◌then◌else◌, append-nil, Bool-cases,
  List-cases,
}
use sobjectizer.Mchain.Queue.{Result, ok, throw, QueueOps, QueueLaws}
use sobjectizer.Mchain.Chain.{
  waits, chain_closed, no_messages, hang, Chain, Step, is_closed,
  extract_demand_from_not_empty_queue, extract, extract_after_wait, extract_for_select,
}
use sobjectizer.Mchain.Chain.Ops.{entered, departed}
use sobjectizer.Mchain.Chain.Moves.{Moves, still-Moves}

module _ (ops : QueueOps) {limit : Option ℕ} (laws : QueueLaws ops limit) where
  open laws use {IsValid, contents}

  pub extract_not_empty-Moves :
      (c : Chain ops.Queue)
      → IsValid c.queue
      → ops.is_empty c.queue ≡ false
      → Moves ops laws c (extract_demand_from_not_empty_queue ops c)
  unfolding extract_demand_from_not_empty_queue entered departed
  extract_not_empty-Moves c v f = elim (List-cases (contents c.queue)) [
    | inl e ↦ absurd (ground (arith, laws.is_empty_law c.queue v))
    | inr (first, rest, e) ↦
        ground (arith, laws.take_law c.queue first rest v e, append-nil (contents c.queue))
  ]

  pub extract-Moves : (c : Chain ops.Queue) → IsValid c.queue → Moves ops laws c (extract ops c)
  unfolding extract
  extract-Moves c v = elim (Bool-cases (ops.is_empty c.queue)) [
    | inl e ↦ rw e (elim (Bool-cases (is_closed c.status)) [
      | inl o ↦ rw o (still-Moves ops laws c c chain_closed v refl refl)
      | inr o ↦ rw o (still-Moves ops laws c _ waits v refl refl)
    ])
    | inr e ↦ rw e (extract_not_empty-Moves c v e)
  ]

  abbrev woken : Chain ops.Queue → Chain ops.Queue
  woken c = record c { threads_to_wakeup = c.threads_to_wakeup - 1 }

  pub woken-Moves :
      (c : Chain ops.Queue) (r : Result (Step ops.Queue))
      → Moves ops laws (woken c) r
      → Moves ops laws c r
  woken-Moves c (ok r) m = record {
    valid = m.valid;
    flow = m.flow;
    stays_closed = m.stays_closed;
    nothing_enters = m.nothing_enters;
  }
  woken-Moves c (throw e) m = m

  pub extract_after_wait-Moves :
      (c : Chain ops.Queue) → IsValid c.queue → Moves ops laws c (extract_after_wait ops c)
  unfolding extract_after_wait
  extract_after_wait-Moves c v = elim (Bool-cases (ops.is_empty c.queue)) [
    | inl e ↦ rw e (
        still-Moves ops laws c (woken c) (if is_closed c.status then chain_closed else no_messages)
          v refl refl)
    | inr e ↦ rw e (woken-Moves c _ (extract_not_empty-Moves (woken c) v e))
  ]

  pub extract_for_select-Moves :
      (c : Chain ops.Queue) (case : ℕ)
      → IsValid c.queue
      → Moves ops laws c (extract_for_select ops c case)
  unfolding extract_for_select hang
  extract_for_select-Moves c case v = elim (Bool-cases (ops.is_empty c.queue)) [
    | inl e ↦ rw e (elim (Bool-cases (is_closed c.status)) [
      | inl o ↦ rw o (still-Moves ops laws c c chain_closed v refl refl)
      | inr o ↦ rw o (still-Moves ops laws c _ no_messages v refl refl)
    ])
    | inr e ↦ rw e (extract_not_empty-Moves c v e)
  ]
