-- ===== src/Mchain/Chain.antt =====
-- `mchain_template` of mchain_details.hpp. Each method takes the chain and returns the new chain, the
-- signals that it raised on the way and its result; the lock makes a method one step. A wait on a
-- condition variable gives the lock up, so a method that waits is two steps: up to the wait, and from
-- the return of the wait (its predicate holds, or its time is over) to the end. An exception of the
-- queue would leave a method halfway; here it leaves the chain as it was.
pub mod Ops
pub mod Moves
pub mod Extract
pub mod Close
pub mod Errors
pub mod Flow
use sobjectizer.Base.{
  ℕ, zero, suc, ◌+◌, ◌-◌, Bool, true, false, ◌&&◌, List, [], ◌∷◌, ◌++◌, ltb, leb, ◌==◌,
  if◌then◌else◌,
}
use sobjectizer.Mchain.Queue.{
  Demand, msg_chain_overflow, app_aborted, Result, ok, throw, ◌>>=◌, QueueOps,
}

pub data Status : Type 0 where
  opened closed : Status

pub data OverflowReaction : Type 0 where
  abort_app throw_exception drop_newest remove_oldest : OverflowReaction

pub data CloseMode : Type 0 where
  drop_content retain_content : CloseMode

-- What a method does besides changing the chain: the notifications, and the message tracing's calls
-- for a demand that enters or leaves. A select case is named by a number; `select_ops_notified` has
-- the whole list that hangs at the notified case.
pub data Signal : Type 0 where
  stored extracted removed_oldest dropped_on_close : Demand → Signal
  dropped_newest not_empty_notified underflow_notify_one underflow_notify_all : Signal
  overflow_notify_all : Signal
  select_ops_notified : List ℕ → Signal

pub data Outcome : Type 0 where
  done waits no_messages chain_closed deferred : Outcome
  msg_extracted : Demand → Outcome

-- `m_select_tail` with the cases behind it, through their `m_next`.
pub record Chain (Q : Type 0) : Type 0 where
  pub status : Status
  pub queue : Q
  pub threads_to_wakeup : ℕ
  pub select_tail : List ℕ
  pub overflow_timeout_defined : Bool
  pub overflow_reaction : OverflowReaction
  pub not_empty_notificator : Bool

abbrev pub is_closed : Status → Bool
is_closed opened = false
is_closed closed = true

-- The chain, the signals in order, and the result.
abbrev pub Step : Type 0 → Type 0
Step Q = Chain Q × List Signal × Outcome

abbrev pub when {ℓ} : {A : Type ℓ} → Bool → List A → List A
when true xs = xs
when false xs = []

-- The constructor: the queue is made from the same parameters.
unfoldable pub make_mchain : {Q : Type 0} → Q → Bool → OverflowReaction → Bool → Chain Q
make_mchain q timeout reaction notificator = record {
  status = opened;
  queue = q;
  threads_to_wakeup = 0;
  select_tail = [];
  overflow_timeout_defined = timeout;
  overflow_reaction = reaction;
  not_empty_notificator = notificator;
}

-- `notify_multi_chain_select_ops`: the signals, and the chain without its cases.
unfoldable pub notified : List ℕ → List Signal
notified [] = []
notified (c ∷ cs) = select_ops_notified (c ∷ cs) ∷ []

unfoldable pub notify_multi_chain_select_ops : {Q : Type 0} → Chain Q → Chain Q × List Signal
unfolding notified
notify_multi_chain_select_ops c = (record c { select_tail = [] }, notified c.select_tail)

-- `remove_from_select`: the loop over the list; the first entry that is the case is unlinked.
unfoldable pub unlink : ℕ → List ℕ → List ℕ
unlink case [] = []
unlink case (c ∷ cs) = if c == case then cs else c ∷ unlink case cs

unfoldable pub remove_from_select : {Q : Type 0} → Chain Q → ℕ → Chain Q
unfolding unlink
remove_from_select c case = record c { select_tail = unlink case c.select_tail }

unfoldable pub hang : {Q : Type 0} → Chain Q → ℕ → Chain Q
hang c case = record c { select_tail = case ∷ c.select_tail }

-- The notifications at the end of `actual_close`.
unfoldable pub wake_all : ℕ → Bool → List Signal
wake_all threads was_full =
    when (ltb 0 threads) (underflow_notify_all ∷ []) ++ when was_full (overflow_notify_all ∷ [])

module _ (ops : QueueOps) where
  open ops use {Queue, is_full, is_empty, front, pop_front, push_back, size}

  -- The last part of every way to store a message.
  unfoldable pub complete_store_message_to_queue : Chain Queue → Demand → Result (Step Queue)
  unfolding notify_multi_chain_select_ops
  complete_store_message_to_queue c d = do
    let was_empty = is_empty c.queue
    q ← push_back c.queue d
    let stored_chain = record c { queue = q }
    let (notified_chain, select_signals) = notify_multi_chain_select_ops stored_chain
    let wake = ltb 0 c.threads_to_wakeup && leb (size q) c.threads_to_wakeup
    ok (
      (if was_empty then notified_chain else stored_chain),
      stored d
          ∷ (when was_empty
                (when c.not_empty_notificator (not_empty_notified ∷ []) ++ select_signals)
              ++ when wake (underflow_notify_one ∷ [])),
      done,
    )

  -- `prefix` stands for the tracing calls before the rest of a method.
  abbrev pub prefixed : List Signal → Result (Step Queue) → Result (Step Queue)
  prefixed before r = do (c, signals, outcome) ← r; ok (c, before ++ signals, outcome)

  -- `overflow_reaction_t::remove_oldest`, and the rest of the method behind it.
  unfoldable pub store_without_oldest : Chain Queue → Demand → Result (Step Queue)
  unfolding complete_store_message_to_queue
  store_without_oldest c d = do
    oldest ← front c.queue
    q ← pop_front c.queue
    prefixed (removed_oldest oldest ∷ [])
        (complete_store_message_to_queue (record c { queue = q }) d)

  -- The reaction of an ordinary delivery to a full queue.
  unfoldable pub react_ordinary : OverflowReaction → Chain Queue → Demand → Result (Step Queue)
  unfolding store_without_oldest
  react_ordinary drop_newest c d = ok (c, dropped_newest ∷ [], done)
  react_ordinary remove_oldest c d = store_without_oldest c d
  react_ordinary throw_exception c d = throw msg_chain_overflow
  react_ordinary abort_app c d = throw app_aborted

  -- The end of `try_to_store_message_to_queue_ordinary_mode`: `queue_full` is tested for good.
  unfoldable pub store_ordinary : Chain Queue → Demand → Result (Step Queue)
  unfolding react_ordinary complete_store_message_to_queue
  store_ordinary c d =
      if is_full c.queue
      then react_ordinary c.overflow_reaction c d
      else complete_store_message_to_queue c d

  -- `try_to_store_message_to_queue_ordinary_mode`, up to the wait on a full queue if there is one.
  unfoldable pub try_to_store_message_to_queue_ordinary_mode :
      Chain Queue → Demand → Result (Step Queue)
  unfolding store_ordinary
  try_to_store_message_to_queue_ordinary_mode c d =
      if is_closed c.status
      then ok (c, [], done)
      else if is_full c.queue && c.overflow_timeout_defined
      then ok (c, [], waits)
      else store_ordinary c d

  -- The same method from the end of its wait.
  unfoldable pub store_after_wait : Chain Queue → Demand → Result (Step Queue)
  unfolding store_ordinary
  store_after_wait c d = if is_closed c.status then ok (c, [], done) else store_ordinary c d

  -- The reaction of a nonblocking delivery to a full queue.
  unfoldable pub react_nonblocking : OverflowReaction → Chain Queue → Demand → Result (Step Queue)
  unfolding store_without_oldest
  react_nonblocking drop_newest c d = ok (c, dropped_newest ∷ [], done)
  react_nonblocking throw_exception c d = ok (c, dropped_newest ∷ [], done)
  react_nonblocking remove_oldest c d = store_without_oldest c d
  react_nonblocking abort_app c d = throw app_aborted

  unfoldable pub try_to_store_message_to_queue_nonblocking_mode :
      Chain Queue → Demand → Result (Step Queue)
  unfolding react_nonblocking complete_store_message_to_queue
  try_to_store_message_to_queue_nonblocking_mode c d =
      if is_closed c.status
      then ok (c, [], done)
      else if is_full c.queue
      then react_nonblocking c.overflow_reaction c d
      else complete_store_message_to_queue c d

  unfoldable pub extract_demand_from_not_empty_queue : Chain Queue → Result (Step Queue)
  unfolding notify_multi_chain_select_ops
  extract_demand_from_not_empty_queue c = do
    let queue_was_full = is_full c.queue
    d ← front c.queue
    q ← pop_front c.queue
    let popped_chain = record c { queue = q }
    let (notified_chain, select_signals) = notify_multi_chain_select_ops popped_chain
    ok (
      (if queue_was_full then notified_chain else popped_chain),
      extracted d ∷ when queue_was_full (select_signals ++ overflow_notify_all ∷ []),
      msg_extracted d,
    )

  -- `extract` with a timeout, up to the wait on an empty queue if there is one.
  unfoldable pub extract : Chain Queue → Result (Step Queue)
  unfolding extract_demand_from_not_empty_queue
  extract c =
      if is_empty c.queue
      then if is_closed c.status
        then ok (c, [], chain_closed)
        else ok (record c { threads_to_wakeup = c.threads_to_wakeup + 1 }, [], waits)
      else extract_demand_from_not_empty_queue c

  -- The same method from the end of its wait.
  unfoldable pub extract_after_wait : Chain Queue → Result (Step Queue)
  unfolding extract_demand_from_not_empty_queue
  extract_after_wait c =
      let woken = record c { threads_to_wakeup = c.threads_to_wakeup - 1 } in
      if is_empty woken.queue
      then ok (woken, [], (if is_closed woken.status then chain_closed else no_messages))
      else extract_demand_from_not_empty_queue woken

  -- `extract` for a select case.
  unfoldable pub extract_for_select : Chain Queue → ℕ → Result (Step Queue)
  unfolding hang extract_demand_from_not_empty_queue
  extract_for_select c case =
      if is_empty c.queue
      then if is_closed c.status
        then ok (c, [], chain_closed)
        else ok (hang c case, [], no_messages)
      else extract_demand_from_not_empty_queue c

  -- `push` for a select case; `done` is `push_status_t::stored`.
  unfoldable pub push : Chain Queue → Demand → ℕ → Result (Step Queue)
  unfolding hang complete_store_message_to_queue
  push c d case =
      if is_closed c.status
      then ok (c, [], chain_closed)
      else if is_full c.queue
      then ok (hang c case, [], deferred)
      else complete_store_message_to_queue c d

  -- The loop of `actual_close`, with fuel for its rounds.
  unfoldable pub drop_all : ℕ → Queue → Result (Queue × List Signal)
  drop_all zero q = ok (q, [])
  drop_all (suc fuel) q = elim (is_empty q) [
    | true ↦ ok (q, [])
    | false ↦ do
      d ← front q
      q' ← pop_front q
      (last, signals) ← drop_all fuel q'
      ok (last, dropped_on_close d ∷ signals)
  ]

  abbrev pub drop_for : CloseMode → Queue → Result (Queue × List Signal)
  drop_for drop_content q = drop_all (size q) q
  drop_for retain_content q = ok (q, [])

  unfoldable pub actual_close : Chain Queue → CloseMode → Result (Step Queue)
  unfolding drop_all notify_multi_chain_select_ops wake_all
  actual_close c mode = if is_closed c.status then ok (c, [], done) else do
    let was_full = is_full c.queue
    (q, drops) ← drop_for mode c.queue
    let closed_chain = record c { status = closed; queue = q }
    let (notified_chain, select_signals) = notify_multi_chain_select_ops closed_chain
    ok (notified_chain, drops ++ (select_signals ++ wake_all c.threads_to_wakeup was_full), done)
