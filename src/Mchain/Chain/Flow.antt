-- ===== src/Mchain/Chain/Flow.antt =====
-- The demands that enter and leave a chain over a sequence of calls.
use sobjectizer.Base.{
  sym, ℕ, ◌≡◌, refl, ap, ◌∙◌, true, Option, List, [], ◌∷◌, ◌++◌, append-nil, append_assoc,
}
use sobjectizer.Mchain.Queue.{Positive, Demand, Result, ok, throw, QueueOps, QueueLaws}
use sobjectizer.Mchain.Chain.{
  remove_from_select, stored, extracted, remove_from_select, stored, extracted, dropped_on_close,
  done, Chain, Signal, Step, is_closed, removed_oldest,
}
use sobjectizer.Mchain.Chain.Ops.{
  ordinary, nonblocking, delivers, delivers_after_wait, extracts, extracts_after_wait,
  extracts_for_select, removes_from_select, pushes, closes, do_deliver_message, Op, entered,
  departed, apply, after, run,
}
use sobjectizer.Mchain.Chain.Moves.{
  Moved, Moves, still-Moves, ordinary-Moves, nonblocking-Moves, after_wait-Moves, push-Moves,
}
use sobjectizer.Mchain.Chain.Extract.{
  extract-Moves, extract_after_wait-Moves, extract_for_select-Moves,
}
use sobjectizer.Mchain.Chain.Close.{actual_close-Moves}

entered-append : (xs ys : List Signal) → entered (xs ++ ys) ≡ entered xs ++ entered ys
unfolding entered
entered-append [] ys = refl
entered-append (stored d ∷ xs) ys = ap (λ x. d ∷ x) (entered-append xs ys)
entered-append (_ ∷ xs) ys = entered-append xs ys

departed-append : (xs ys : List Signal) → departed (xs ++ ys) ≡ departed xs ++ departed ys
unfolding departed
departed-append [] ys = refl
departed-append (extracted d ∷ xs) ys = ap (λ x. d ∷ x) (departed-append xs ys)
departed-append (removed_oldest d ∷ xs) ys = ap (λ x. d ∷ x) (departed-append xs ys)
departed-append (dropped_on_close d ∷ xs) ys = ap (λ x. d ∷ x) (departed-append xs ys)
departed-append (_ ∷ xs) ys = departed-append xs ys

-- Two stretches of a history, one after the other.
join_flow :
    (a b c in1 out1 in2 out2 : List Demand)
    → a ++ in1 ≡ out1 ++ b
    → b ++ in2 ≡ out2 ++ c
    → a ++ (in1 ++ in2) ≡ (out1 ++ out2) ++ c
join_flow a b c in1 out1 in2 out2 p q =
    sym (append_assoc a in1 in2)
    ∙ ap (λ x. x ++ in2) p
    ∙ append_assoc out1 b in2
    ∙ ap (λ x. out1 ++ x) q
    ∙ sym (append_assoc out1 out2 c)

module _ (ops : QueueOps) {limit : Option ℕ} (laws : QueueLaws ops limit) where
  open laws use {IsValid, contents}

  pub apply-Moves :
      (c : Chain ops.Queue) (op : Op)
      → Positive limit
      → IsValid c.queue
      → Moves ops laws c (apply ops op c)
  unfolding apply do_deliver_message remove_from_select
  apply-Moves c (delivers ordinary d) p v = ordinary-Moves ops laws c d p v
  apply-Moves c (delivers nonblocking d) p v = nonblocking-Moves ops laws c d p v
  apply-Moves c (delivers_after_wait d) p v = after_wait-Moves ops laws c d p v
  apply-Moves c extracts p v = extract-Moves ops laws c v
  apply-Moves c extracts_after_wait p v = extract_after_wait-Moves ops laws c v
  apply-Moves c (extracts_for_select case) p v = extract_for_select-Moves ops laws c case v
  apply-Moves c (removes_from_select case) p v = still-Moves ops laws c _ done v refl refl
  apply-Moves c (pushes d case) p v = push-Moves ops laws c d case v
  apply-Moves c (closes mode) p v = actual_close-Moves ops laws c mode v

  after-Moved :
      (c : Chain ops.Queue) (r : Result (Step ops.Queue))
      → IsValid c.queue
      → Moves ops laws c r
      → Moved ops laws c (after ops c r).0 (after ops c r).1
  after-Moved c (ok (c', signals, outcome)) v m = m
  after-Moved c (throw e) v m = still-Moves ops laws c c done v refl refl

  pub step-Moved :
      (c : Chain ops.Queue) (op : Op)
      → Positive limit
      → IsValid c.queue
      → Moved ops laws c (after ops c (apply ops op c)).0 (after ops c (apply ops op c)).1
  step-Moved c op p v = after-Moved c (apply ops op c) v (apply-Moves c op p v)

  -- Over every sequence of calls, on every valid queue that meets the contract and whose capacity is
  -- not 0: what was in the chain followed by what entered is what left followed by what is still in
  -- it, each in order, and the queue stays valid.
  pub run_flow :
      (c : Chain ops.Queue) (script : List Op)
      → Positive limit
      → IsValid c.queue
      → let (last, signals) = run ops c script in
        (contents c.queue ++ entered signals ≡ departed signals ++ contents last.queue)
        × IsValid last.queue
  unfolding run entered departed
  run_flow c [] p v = (append-nil (contents c.queue), v)
  run_flow c (op ∷ script) p v =
      let first = after ops c (apply ops op c) in
      let later = run ops first.0 script in
      let m = step-Moved c op p v in
      let (flow, valid) = run_flow first.0 script p m.valid in
      (
        rw (entered-append first.1 later.1, departed-append first.1 later.1)
            (join_flow (contents c.queue) (contents first.0.queue) (contents later.0.queue)
              (entered first.1) (departed first.1) (entered later.1) (departed later.1) m.flow
              flow),
        valid,
      )

  -- On every valid queue that meets the contract and whose capacity is not 0, a closed chain stays
  -- closed and takes no demand, whatever is called on it.
  pub run_closed :
      (c : Chain ops.Queue) (script : List Op)
      → Positive limit
      → IsValid c.queue
      → is_closed c.status ≡ true
      → let (last, signals) = run ops c script in
        (is_closed last.status ≡ true) × (entered signals ≡ [])
  unfolding run entered
  run_closed c [] p v o = (o, refl)
  run_closed c (op ∷ script) p v o =
      let first = after ops c (apply ops op c) in
      let later = run ops first.0 script in
      let m = step-Moved c op p v in
      let (still, none_later) = run_closed first.0 script p m.valid (m.stays_closed o) in
      (still, rw (entered-append first.1 later.1, m.nothing_enters o) none_later)
