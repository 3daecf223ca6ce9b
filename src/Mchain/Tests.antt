-- ===== src/Mchain/Tests.antt =====
-- Runs of the message chains on concrete calls.
use sobjectizer.Base.{ℕ, ◌≡◌, refl, ◌⊎◌, true, false, some, List, [], ◌∷◌, ◌++◌, map, arith}
use sobjectizer.Mchain.Queue.{
  Demand, Error, msg_chain_is_empty, msg_chain_overflow, app_aborted, ok, throw,
}
use sobjectizer.Mchain.LimitedDynamic
use sobjectizer.Mchain.LimitedDynamic.{
  limited_dynamic_demand_queue, limited_dynamic-QueueLaws, LimitedDynamicDemandQueue,
}
use sobjectizer.Mchain.LimitedPreallocated
use sobjectizer.Mchain.LimitedPreallocated.{
  limited_preallocated_demand_queue, limited_preallocated-QueueLaws, LimitedPreallocatedDemandQueue,
  make-IsValid,
}
use sobjectizer.Mchain.Equivalence.{
  QueueCall, push_back, pop_front, observe, preallocated_like_dynamic,
}
use sobjectizer.Mchain.Chain.{
  Chain, make_mchain, abort_app, throw_exception, remove_oldest, drop_content, closed, is_closed,
  dropped_on_close, underflow_notify_all, overflow_notify_all, select_ops_notified, done,
  try_to_store_message_to_queue_ordinary_mode, try_to_store_message_to_queue_nonblocking_mode,
  actual_close, extract, extract_for_select,
}
use sobjectizer.Mchain.Chain.Ops.{
  Op, ordinary, nonblocking, delivers, extracts, extracts_for_select, closes, entered, departed,
  run, apply, do_deliver_message,
}
use sobjectizer.Mchain.Chain.Flow.{run_flow, run_closed}
use sobjectizer.Mchain.Chain.Close.{close_dropping, closed_chain, owed_signals}
use sobjectizer.Mchain.Chain.Errors.{nonblocking_throws, ordinary_throws, zero_capacity_throws}

abbrev msg : ℕ → Demand
msg n = record { msg_type = 1; message_ref = some n }

abbrev calls : List QueueCall
calls =
    push_back (msg 1)
    ∷ push_back (msg 2)
    ∷ push_back (msg 3)
    ∷ pop_front
    ∷ push_back (msg 4)
    ∷ pop_front
    ∷ []

preallocated_like_dynamic_example :
    observe limited_preallocated_demand_queue (LimitedPreallocated.make 2) calls
    ≡ observe limited_dynamic_demand_queue (LimitedDynamic.make 2) calls
preallocated_like_dynamic_example = preallocated_like_dynamic 2 calls

-- A ring of two cells that drops its oldest message, and has a notificator.
abbrev ring : Chain LimitedPreallocatedDemandQueue
ring = make_mchain (LimitedPreallocated.make 2) false remove_oldest true

abbrev script : List Op
script =
    delivers ordinary (msg 1)
    ∷ delivers nonblocking (msg 2)
    ∷ delivers ordinary (msg 3)
    ∷ extracts
    ∷ extracts_for_select 7
    ∷ extracts_for_select 7
    ∷ closes drop_content
    ∷ []

run_flow_example :
    let (last, signals) = run limited_preallocated_demand_queue ring script in
    (LimitedPreallocated.contents ring.queue ++ entered signals
      ≡ departed signals ++ LimitedPreallocated.contents last.queue)
    × LimitedPreallocated.IsValid 2 last.queue
unfolding make_mchain
run_flow_example =
    run_flow limited_preallocated_demand_queue (limited_preallocated-QueueLaws 2) ring script
      (omega arith) (make-IsValid 2)

-- Three demands went in and came out again, the first of them as the oldest.
departed-run :
    departed (run limited_preallocated_demand_queue ring script).1 ≡ msg 1 ∷ msg 2 ∷ msg 3 ∷ []
unfolding departed run make_mchain LimitedPreallocated.make LimitedPreallocated.push_back
    LimitedPreallocated.pop_front LimitedPreallocated.front apply do_deliver_message
    try_to_store_message_to_queue_ordinary_mode try_to_store_message_to_queue_nonblocking_mode
    extract extract_for_select actual_close
departed-run = refl

-- A dynamic queue of one cell with one message in it.
abbrev full_queue : LimitedDynamicDemandQueue
full_queue = record { queue = msg 1 ∷ []; max_size = 1 }

abbrev shut_chain : Chain LimitedDynamicDemandQueue
shut_chain = record {
  status = closed;
  queue = full_queue;
  threads_to_wakeup = 0;
  select_tail = [];
  overflow_timeout_defined = false;
  overflow_reaction = remove_oldest;
  not_empty_notificator = false;
}

run_closed_example :
    let (last, signals) = run limited_dynamic_demand_queue shut_chain script in
    (is_closed last.status ≡ true) × (entered signals ≡ [])
run_closed_example =
    run_closed limited_dynamic_demand_queue (limited_dynamic-QueueLaws 1) shut_chain script
      (omega arith) (omega arith) refl

abbrev full_chain : Chain LimitedDynamicDemandQueue
full_chain = make_mchain full_queue false throw_exception false

-- Two select cases hang at the chain and a thread sleeps.
abbrev watched_chain : Chain LimitedDynamicDemandQueue
watched_chain = record full_chain { threads_to_wakeup = 1; select_tail = 7 ∷ 8 ∷ [] }

owed_to_watchers :
    owed_signals watched_chain.select_tail watched_chain.threads_to_wakeup true
    ≡ select_ops_notified (7 ∷ 8 ∷ []) ∷ underflow_notify_all ∷ overflow_notify_all ∷ []
unfolding owed_signals
owed_to_watchers = refl

close_dropping_example :
    (last : LimitedDynamicDemandQueue) × (actual_close limited_dynamic_demand_queue watched_chain
        drop_content
      ≡ ok (
        closed_chain limited_dynamic_demand_queue (limited_dynamic-QueueLaws 1) watched_chain last,
        map dropped_on_close watched_chain.queue.queue
            ++ owed_signals watched_chain.select_tail watched_chain.threads_to_wakeup
                (LimitedDynamic.is_full watched_chain.queue),
        done,
      ))
    × LimitedDynamic.IsValid 1 last
    × (last.queue ≡ [])
unfolding make_mchain
close_dropping_example =
    close_dropping limited_dynamic_demand_queue (limited_dynamic-QueueLaws 1) watched_chain
      (omega arith) refl

abbrev aborting_chain : Chain LimitedDynamicDemandQueue
aborting_chain = make_mchain full_queue false abort_app false

nonblocking_throws_example :
    (◌≡◌ {A = Error} app_aborted app_aborted)
    × (aborting_chain.overflow_reaction ≡ abort_app)
    × (is_closed aborting_chain.status ≡ false)
    × (LimitedDynamic.is_full aborting_chain.queue ≡ true)
unfolding make_mchain try_to_store_message_to_queue_nonblocking_mode
nonblocking_throws_example =
    nonblocking_throws limited_dynamic_demand_queue (limited_dynamic-QueueLaws 1) aborting_chain
      (msg 2) app_aborted (omega arith) (omega arith) refl

ordinary_throws_example :
    (is_closed full_chain.status ≡ false)
    × (LimitedDynamic.is_full full_chain.queue ≡ true)
    × (full_chain.overflow_timeout_defined ≡ false)
    × (((◌≡◌ {A = Error} msg_chain_overflow msg_chain_overflow)
          × (full_chain.overflow_reaction ≡ throw_exception))
        ⊎ ((msg_chain_overflow ≡ app_aborted) × (full_chain.overflow_reaction ≡ abort_app)))
unfolding make_mchain try_to_store_message_to_queue_ordinary_mode
ordinary_throws_example =
    ordinary_throws limited_dynamic_demand_queue (limited_dynamic-QueueLaws 1) full_chain (msg 2)
      msg_chain_overflow (omega arith) (omega arith) refl

abbrev no_room : Chain LimitedDynamicDemandQueue
no_room = make_mchain (record { queue = []; max_size = 0 }) false remove_oldest false

zero_capacity_throws_example :
    (try_to_store_message_to_queue_ordinary_mode limited_dynamic_demand_queue no_room (msg 1)
      ≡ throw msg_chain_is_empty)
    × (try_to_store_message_to_queue_nonblocking_mode limited_dynamic_demand_queue no_room (msg 1)
        ≡ throw msg_chain_is_empty)
unfolding make_mchain
zero_capacity_throws_example =
    zero_capacity_throws limited_dynamic_demand_queue (limited_dynamic-QueueLaws 0) no_room (msg 1)
      (omega arith) refl refl refl
