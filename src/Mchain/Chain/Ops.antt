-- ===== src/Mchain/Chain/Ops.antt =====
-- The methods of a chain as steps of an interleaving: every thread's call, or the part of a call from
-- the end of its wait, is one step on the chain.
use sobjectizer.Base.{ℕ, List, [], ◌∷◌, ◌++◌}
use sobjectizer.Mchain.Queue.{Demand, Result, ok, throw, QueueOps}
use sobjectizer.Mchain.Chain.{
  Chain, CloseMode, Signal, stored, extracted, removed_oldest, dropped_on_close, done, Step,
  remove_from_select, try_to_store_message_to_queue_ordinary_mode, store_after_wait,
  try_to_store_message_to_queue_nonblocking_mode, extract, extract_after_wait, extract_for_select,
  push, actual_close,
}

pub data DeliveryMode : Type 0 where
  ordinary nonblocking : DeliveryMode

pub data Op : Type 0 where
  delivers : DeliveryMode → Demand → Op
  delivers_after_wait : Demand → Op
  extracts extracts_after_wait : Op
  extracts_for_select removes_from_select : ℕ → Op
  pushes : Demand → ℕ → Op
  closes : CloseMode → Op

-- The demands that entered the chain, and those that left it, in order.
unfoldable pub entered : List Signal → List Demand
entered [] = []
entered (stored d ∷ signals) = d ∷ entered signals
entered (_ ∷ signals) = entered signals

unfoldable pub departed : List Signal → List Demand
departed [] = []
departed (extracted d ∷ signals) = d ∷ departed signals
departed (removed_oldest d ∷ signals) = d ∷ departed signals
departed (dropped_on_close d ∷ signals) = d ∷ departed signals
departed (_ ∷ signals) = departed signals

module _ (ops : QueueOps) where
  -- `do_deliver_message`.
  unfoldable pub do_deliver_message :
      DeliveryMode → Chain ops.Queue → Demand → Result (Step ops.Queue)
  do_deliver_message ordinary c d = try_to_store_message_to_queue_ordinary_mode ops c d
  do_deliver_message nonblocking c d = try_to_store_message_to_queue_nonblocking_mode ops c d

  unfoldable pub apply : Op → Chain ops.Queue → Result (Step ops.Queue)
  apply (delivers mode d) c = do_deliver_message mode c d
  apply (delivers_after_wait d) c = store_after_wait ops c d
  apply extracts c = extract ops c
  apply extracts_after_wait c = extract_after_wait ops c
  apply (extracts_for_select case) c = extract_for_select ops c case
  apply (removes_from_select case) c = ok (remove_from_select c case, [], done)
  apply (pushes d case) c = push ops c d case
  apply (closes mode) c = actual_close ops c mode

  -- A call that throws leaves the chain as it was.
  abbrev pub after : Chain ops.Queue → Result (Step ops.Queue) → Chain ops.Queue × List Signal
  after c (ok (c', signals, outcome)) = (c', signals)
  after c (throw e) = (c, [])

  unfoldable pub run : Chain ops.Queue → List Op → Chain ops.Queue × List Signal
  run c [] = (c, [])
  run c (op ∷ rest) =
      let (c', signals) = after c (apply op c) in
      let (last, later) = run c' rest in (last, signals ++ later)
