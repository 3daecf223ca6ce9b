-- ===== src/Mchain/Chain/Errors.antt =====
-- The exceptions of a chain's methods that store a demand.
use sobjectizer.Base.{
  ℕ, ◌≡◌, ◌⊎◌, inl, inr, ◌≢◌, true, false, Option, some, arith, length, List-cases,
}
use sobjectizer.Mchain.Queue.{
  Positive, Demand, Error, msg_chain_is_empty, msg_chain_overflow, app_aborted, throw, QueueOps,
  QueueLaws,
}
use sobjectizer.Mchain.Chain.{
  Chain, abort_app, throw_exception, remove_oldest, is_closed, complete_store_message_to_queue,
  store_without_oldest, react_ordinary, react_nonblocking, store_ordinary,
  try_to_store_message_to_queue_ordinary_mode, try_to_store_message_to_queue_nonblocking_mode,
}
use sobjectizer.Mchain.Chain.Moves.{room_after_take, never_full_empty}

module _ (ops : QueueOps) {limit : Option ℕ} (laws : QueueLaws ops limit) where
  open laws use {IsValid, contents}

  complete_store-ne-throw :
      (c : Chain ops.Queue) (d : Demand) (e : Error)
      → IsValid c.queue
      → ops.is_full c.queue ≡ false
      → complete_store_message_to_queue ops c d ≢ throw e
  unfolding complete_store_message_to_queue
  complete_store-ne-throw c d e v f = ground (arith, laws.push_law c.queue d v f)

  store_without_oldest-ne-throw :
      (c : Chain ops.Queue) (d : Demand) (e : Error)
      → Positive limit
      → IsValid c.queue
      → ops.is_full c.queue ≡ true
      → store_without_oldest ops c d ≢ throw e
  unfolding store_without_oldest
  store_without_oldest-ne-throw c d e p v f = elim (List-cases (contents c.queue)) [
    | inl h ↦ absurd (never_full_empty ops laws p (ground (arith, laws.is_full_law c.queue v)))
    | inr (first, rest, h) ↦
        let (front_ok, (q, pop_ok, v', h')) = laws.take_law c.queue first rest v h in
        let room : ops.is_full q ≡ false = ground (
          arith,
          laws.is_full_law c.queue v,
          laws.is_full_law q v',
          room_after_take ops laws (length rest),
        ) in
        ground (arith, complete_store-ne-throw (record c { queue = q }) d e v' room)
  ]

  -- Where the capacity is not 0, a nonblocking delivery, the one that the timer thread makes, throws
  -- in no case but one: the chain is open and full, and its reaction is to abort the application.
  pub nonblocking_throws :
      (c : Chain ops.Queue) (d : Demand) (e : Error)
      → Positive limit
      → IsValid c.queue
      → try_to_store_message_to_queue_nonblocking_mode ops c d ≡ throw e
      → (e ≡ app_aborted)
        × (c.overflow_reaction ≡ abort_app)
        × (is_closed c.status ≡ false)
        × (ops.is_full c.queue ≡ true)
  unfolding try_to_store_message_to_queue_nonblocking_mode react_nonblocking
  nonblocking_throws c d e p v h =
      ground (arith, complete_store-ne-throw c d e v, store_without_oldest-ne-throw c d e p v)

  -- Where the capacity is not 0, an ordinary delivery that does not get to a wait throws only into an
  -- open and full chain without an overflow timeout, and then what its reaction says: the overflow
  -- exception or the abort.
  pub ordinary_throws :
      (c : Chain ops.Queue) (d : Demand) (e : Error)
      → Positive limit
      → IsValid c.queue
      → try_to_store_message_to_queue_ordinary_mode ops c d ≡ throw e
      → (is_closed c.status ≡ false)
        × (ops.is_full c.queue ≡ true)
        × (c.overflow_timeout_defined ≡ false)
        × (((e ≡ msg_chain_overflow) × (c.overflow_reaction ≡ throw_exception))
            ⊎ ((e ≡ app_aborted) × (c.overflow_reaction ≡ abort_app)))
  unfolding try_to_store_message_to_queue_ordinary_mode store_ordinary react_ordinary
  ordinary_throws c d e p v h =
      ground (arith, complete_store-ne-throw c d e v, store_without_oldest-ne-throw c d e p v)

module _ (ops : QueueOps) (laws : QueueLaws ops (some 0)) where
  open laws use {IsValid, contents}

  -- In an open chain of capacity 0 that does not wait on an overflow, and whose reaction is to remove
  -- the oldest message, an ordinary and a nonblocking delivery both throw that the queue is empty.
  pub zero_capacity_throws :
      (c : Chain ops.Queue) (d : Demand)
      → IsValid c.queue
      → is_closed c.status ≡ false
      → c.overflow_timeout_defined ≡ false
      → c.overflow_reaction ≡ remove_oldest
      → (try_to_store_message_to_queue_ordinary_mode ops c d ≡ throw msg_chain_is_empty)
        × (try_to_store_message_to_queue_nonblocking_mode ops c d ≡ throw msg_chain_is_empty)
  unfolding try_to_store_message_to_queue_ordinary_mode store_ordinary react_ordinary
      try_to_store_message_to_queue_nonblocking_mode react_nonblocking store_without_oldest
  zero_capacity_throws c d v o t r = elim (List-cases (contents c.queue)) [
    | inl e ↦ (
      ground (arith, laws.is_full_law c.queue v, laws.empty_law c.queue v e),
      ground (arith, laws.is_full_law c.queue v, laws.empty_law c.queue v e),
    )
    | inr (first, rest, e) ↦ absurd (ground (arith, laws.within c.queue v))
  ]
