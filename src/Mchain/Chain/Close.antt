-- ===== src/Mchain/Chain/Close.antt =====
-- Closing a chain.
use sobjectizer.Base.{
  sym, map, ℕ, ◌≡◌, refl, ap, inl, inr, Bool, true, false, zero, suc, Option, List, [], ◌∷◌, ◌++◌,
  arith, length, append-nil, Bool-cases,
}
use sobjectizer.Mchain.Queue.{Demand, ok, ◌>>=◌, QueueOps, QueueLaws}
use sobjectizer.Mchain.Chain.{
  dropped_on_close, underflow_notify_all, overflow_notify_all, select_ops_notified, notified,
  wake_all, closed, done, Chain, CloseMode, drop_content, retain_content, Signal, is_closed,
  drop_all, actual_close,
}
use sobjectizer.Mchain.Chain.Ops.{entered, departed}
use sobjectizer.Mchain.Chain.Moves.{Moved, Moves, still-Moves}

-- Signals that tell of no demand.
entered-notified :
    (cs : List ℕ) (n : ℕ) (full : Bool) → entered (notified cs ++ wake_all n full) ≡ []
unfolding entered notified wake_all
entered-notified [] n full = ground arith
entered-notified (c ∷ cs) n full = ground arith

departed-notified :
    (cs : List ℕ) (n : ℕ) (full : Bool) → departed (notified cs ++ wake_all n full) ≡ []
unfolding departed notified wake_all
departed-notified [] n full = ground arith
departed-notified (c ∷ cs) n full = ground arith

-- What a closed chain owes to those that wait, told case by case: the select cases that hang at it, the
-- threads that sleep because it is empty, and whether some may wait because it is full.
unfoldable pub owed_signals : List ℕ → ℕ → Bool → List Signal
owed_signals [] zero false = []
owed_signals [] zero true = overflow_notify_all ∷ []
owed_signals [] (suc n) false = underflow_notify_all ∷ []
owed_signals [] (suc n) true = underflow_notify_all ∷ overflow_notify_all ∷ []
owed_signals (c ∷ cs) zero false = select_ops_notified (c ∷ cs) ∷ []
owed_signals (c ∷ cs) zero true = select_ops_notified (c ∷ cs) ∷ overflow_notify_all ∷ []
owed_signals (c ∷ cs) (suc n) false = select_ops_notified (c ∷ cs) ∷ underflow_notify_all ∷ []
owed_signals (c ∷ cs) (suc n) true =
    select_ops_notified (c ∷ cs) ∷ underflow_notify_all ∷ overflow_notify_all ∷ []

owed_signals_lem :
    (cs : List ℕ) (n : ℕ) (full : Bool) → notified cs ++ wake_all n full ≡ owed_signals cs n full
unfolding owed_signals notified wake_all
owed_signals_lem [] zero false = refl
owed_signals_lem [] zero true = refl
owed_signals_lem [] (suc n) false = ground arith
owed_signals_lem [] (suc n) true = ground arith
owed_signals_lem (c ∷ cs) zero false = refl
owed_signals_lem (c ∷ cs) zero true = refl
owed_signals_lem (c ∷ cs) (suc n) false = ground arith
owed_signals_lem (c ∷ cs) (suc n) true = ground arith

entered-dropped :
    (ds : List Demand) (rest : List Signal)
    → entered (map dropped_on_close ds ++ rest) ≡ entered rest
unfolding entered
entered-dropped [] rest = refl
entered-dropped (d ∷ ds) rest = entered-dropped ds rest

departed-dropped :
    (ds : List Demand) (rest : List Signal)
    → departed (map dropped_on_close ds ++ rest) ≡ ds ++ departed rest
unfolding departed
departed-dropped [] rest = refl
departed-dropped (d ∷ ds) rest = ap (λ x. d ∷ x) (departed-dropped ds rest)

module _ (ops : QueueOps) {limit : Option ℕ} (laws : QueueLaws ops limit) where
  open laws use {IsValid, contents}

  -- What `drop_all` does to a queue that holds `ds`: with a round for each demand it ends empty.
  pub drop_all_lem :
      (ds : List Demand) (q : ops.Queue)
      → IsValid q
      → contents q ≡ ds
      → (last : ops.Queue) × (drop_all ops (length ds) q ≡ ok (last, map dropped_on_close ds))
        × IsValid last
        × (contents last ≡ [])
  unfolding drop_all
  drop_all_lem [] q v e = (q, refl, v, e)
  drop_all_lem (d ∷ ds) q v e =
      let (front_ok, (q', pop_ok, v', e')) = laws.take_law q d ds v e in
      let (last, dropped, v'', e'') = drop_all_lem ds q' v' e' in
      let filled : ops.is_empty q ≡ false = ground (arith, laws.is_empty_law q v) in
      (last, ground (arith, filled, front_ok, pop_ok, dropped), v'', e'')

  -- What an open chain is after `actual_close`.
  abbrev pub closed_chain : Chain ops.Queue → ops.Queue → Chain ops.Queue
  closed_chain c q = record c { status = closed; queue = q; select_tail = [] }

  abbrev close_signals : Chain ops.Queue → List Signal
  close_signals c = notified c.select_tail ++ wake_all c.threads_to_wakeup (ops.is_full c.queue)

  closed-Moved :
      (c : Chain ops.Queue) (q : ops.Queue) (ds : List Demand)
      → is_closed c.status ≡ false
      → IsValid q
      → ds ++ contents q ≡ contents c.queue
      → Moved ops laws c (closed_chain c q) (map dropped_on_close ds ++ close_signals c)
  closed-Moved c q ds o v e = record {
    valid = v;
    flow =
        rw
          (
            entered-dropped ds (close_signals c),
            departed-dropped ds (close_signals c),
            entered-notified c.select_tail c.threads_to_wakeup (ops.is_full c.queue),
            departed-notified c.select_tail c.threads_to_wakeup (ops.is_full c.queue),
            append-nil ds,
            append-nil (contents c.queue),
          )
          (sym e);
    stays_closed = λ h. refl;
    nothing_enters = λ h. ground arith;
  }

  -- Closing an open chain with `drop_content` returns: every demand is dropped, from the oldest on, and
  -- the queue ends empty; then one signal tells the waiting select cases, if there are any, which are
  -- taken off, one wakes the sleeping threads, if there are any, and one the threads that wait for a
  -- free place, if the queue was full.
  pub close_dropping :
      (c : Chain ops.Queue)
      → IsValid c.queue
      → is_closed c.status ≡ false
      → (last : ops.Queue) × (actual_close ops c drop_content
          ≡ ok (
            closed_chain c last,
            map dropped_on_close (contents c.queue)
                ++ owed_signals c.select_tail c.threads_to_wakeup (ops.is_full c.queue),
            done,
          ))
        × IsValid last
        × (contents last ≡ [])
  unfolding actual_close
  close_dropping c v o =
      let (last, dropped, v', e) = drop_all_lem (contents c.queue) c.queue v refl in
      let owed = owed_signals_lem c.select_tail c.threads_to_wakeup (ops.is_full c.queue) in
      (last, rw (o, laws.size_law c.queue v, dropped, ◌>>=◌, owed), v', e)

  pub actual_close-Moves :
      (c : Chain ops.Queue) (mode : CloseMode)
      → IsValid c.queue
      → Moves ops laws c (actual_close ops c mode)
  unfolding actual_close
  actual_close-Moves c mode v = elim (Bool-cases (is_closed c.status)) [
    | inl o ↦ rw o (still-Moves ops laws c c done v refl refl)
    | inr o ↦ when_open mode o
  ]
    where
      when_open :
          (m : CloseMode) → is_closed c.status ≡ false → Moves ops laws c (actual_close ops c m)
      when_open retain_content o = rw o (closed-Moved c c.queue [] o v refl)
      when_open drop_content o =
          let (last, e, v', empty) = close_dropping c v o in
          let owed = owed_signals_lem c.select_tail c.threads_to_wakeup (ops.is_full c.queue) in
          rw e (
            rw (sym owed) (
              closed-Moved c last (contents c.queue) o v'
                (rw empty (append-nil (contents c.queue)))))
