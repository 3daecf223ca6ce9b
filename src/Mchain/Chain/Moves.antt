-- ===== src/Mchain/Chain/Moves.antt =====
-- What one step of a chain does to the demands in it, and the steps that store.
use sobjectizer.Base.{
  ◌&&◌, ℕ, suc, ◌≡◌, refl, ◌⊎◌, inl, inr, true, false, Option, List, [], ◌∷◌, ◌++◌, arith, length,
  append-nil, Bool-cases, List-cases,
}
use sobjectizer.Mchain.Queue.{
  is_full_at, Positive, Demand, msg_chain_overflow, app_aborted, Result, ok, throw, ◌>>=◌, QueueOps,
  QueueLaws,
}
use sobjectizer.Mchain.Chain.{
  Outcome, done, waits, deferred, chain_closed, abort_app, throw_exception, drop_newest,
  remove_oldest, hang, Chain, OverflowReaction, Signal, Step, is_closed, prefixed, removed_oldest,
  complete_store_message_to_queue, store_without_oldest, react_ordinary, react_nonblocking,
  store_ordinary, try_to_store_message_to_queue_ordinary_mode, store_after_wait,
  try_to_store_message_to_queue_nonblocking_mode, push,
}
use sobjectizer.Mchain.Chain.Ops.{entered, departed}

module _ (ops : QueueOps) {limit : Option ℕ} (laws : QueueLaws ops limit) where
  open laws use {IsValid, contents}

  -- A step from `c` to `c'` with these signals.
  pub record Moved (c c' : Chain ops.Queue) (signals : List Signal) : Type 0 where
    pub valid : IsValid c'.queue
    pub flow : contents c.queue ++ entered signals ≡ departed signals ++ contents c'.queue
    pub stays_closed : is_closed c.status ≡ true → is_closed c'.status ≡ true
    pub nothing_enters : is_closed c.status ≡ true → entered signals ≡ []

  -- Either such a step, or one of the two failures that the overflow reactions ask for.
  abbrev pub Moves : Chain ops.Queue → Result (Step ops.Queue) → Type 0
  Moves c (ok (c', signals, outcome)) = Moved c c' signals
  Moves c (throw e) = (e ≡ msg_chain_overflow) ⊎ (e ≡ app_aborted)

  pub complete_store-Moves :
      (c : Chain ops.Queue) (d : Demand)
      → IsValid c.queue
      → is_closed c.status ≡ false
      → ops.is_full c.queue ≡ false
      → Moves c (complete_store_message_to_queue ops c d)
  unfolding complete_store_message_to_queue entered departed
  complete_store-Moves c d v o f =
      ground (arith, laws.push_law c.queue d v f, append-nil (contents c.queue))

  -- One demand less makes room.
  pub room_after_take : (n : ℕ) → is_full_at limit (suc n) ≡ true → is_full_at limit n ≡ false
  room_after_take n h = ground arith

  pub never_full_empty : Positive limit → is_full_at limit 0 ≡ true → ⊥
  never_full_empty p h = ground arith

  pub store_rest-Moves :
      (c : Chain ops.Queue) (d first : Demand) (q : ops.Queue) (rest : List Demand)
      → is_closed c.status ≡ false
      → IsValid q
      → contents c.queue ≡ first ∷ rest
      → contents q ≡ rest
      → ops.is_full q ≡ false
      → Moves c (
          prefixed ops
            (removed_oldest first ∷ [])
            (complete_store_message_to_queue ops (record c { queue = q }) d))
  unfolding entered departed
  store_rest-Moves c d first q rest o v e e' f =
      ground (arith, complete_store-Moves (record c { queue = q }) d v o f)

  pub store_without_oldest-Moves :
      (c : Chain ops.Queue) (d : Demand)
      → Positive limit
      → IsValid c.queue
      → is_closed c.status ≡ false
      → ops.is_full c.queue ≡ true
      → Moves c (store_without_oldest ops c d)
  unfolding store_without_oldest
  store_without_oldest-Moves c d p v o f = elim (List-cases (contents c.queue)) [
    | inl e ↦ absurd (never_full_empty p (ground (arith, laws.is_full_law c.queue v)))
    | inr (first, rest, e) ↦
        let (front_ok, (q, pop_ok, v', e')) = laws.take_law c.queue first rest v e in
        let room : ops.is_full q ≡ false = ground (
          arith,
          laws.is_full_law c.queue v,
          laws.is_full_law q v',
          room_after_take (length rest),
        ) in
        rw (front_ok, pop_ok, ◌>>=◌) (store_rest-Moves c d first q rest o v' e e' room)
  ]

  -- A step that changes no demand.
  pub still-Moves :
      (c c' : Chain ops.Queue) (o : Outcome)
      → IsValid c.queue
      → c'.queue ≡ c.queue
      → c'.status ≡ c.status
      → Moves c (ok (c', [], o))
  unfolding entered departed
  still-Moves c c' o v q s = ground (arith, append-nil (contents c.queue))

  pub react_ordinary-Moves :
      (r : OverflowReaction) (c : Chain ops.Queue) (d : Demand)
      → Positive limit
      → IsValid c.queue
      → is_closed c.status ≡ false
      → ops.is_full c.queue ≡ true
      → Moves c (react_ordinary ops r c d)
  unfolding react_ordinary entered departed
  react_ordinary-Moves abort_app c d p v o f = inr refl
  react_ordinary-Moves throw_exception c d p v o f = inl refl
  react_ordinary-Moves drop_newest c d p v o f = ground (arith, append-nil (contents c.queue))
  react_ordinary-Moves remove_oldest c d p v o f = store_without_oldest-Moves c d p v o f

  pub react_nonblocking-Moves :
      (r : OverflowReaction) (c : Chain ops.Queue) (d : Demand)
      → Positive limit
      → IsValid c.queue
      → is_closed c.status ≡ false
      → ops.is_full c.queue ≡ true
      → Moves c (react_nonblocking ops r c d)
  unfolding react_nonblocking entered departed
  react_nonblocking-Moves abort_app c d p v o f = inr refl
  react_nonblocking-Moves throw_exception c d p v o f =
      ground (arith, append-nil (contents c.queue))
  react_nonblocking-Moves drop_newest c d p v o f = ground (arith, append-nil (contents c.queue))
  react_nonblocking-Moves remove_oldest c d p v o f = store_without_oldest-Moves c d p v o f

  pub store_ordinary-Moves :
      (c : Chain ops.Queue) (d : Demand)
      → Positive limit
      → IsValid c.queue
      → is_closed c.status ≡ false
      → Moves c (store_ordinary ops c d)
  unfolding store_ordinary
  store_ordinary-Moves c d p v o = elim (Bool-cases (ops.is_full c.queue)) [
    | inl f ↦ rw f (react_ordinary-Moves c.overflow_reaction c d p v o f)
    | inr f ↦ rw f (complete_store-Moves c d v o f)
  ]

  pub ordinary-Moves :
      (c : Chain ops.Queue) (d : Demand)
      → Positive limit
      → IsValid c.queue
      → Moves c (try_to_store_message_to_queue_ordinary_mode ops c d)
  unfolding try_to_store_message_to_queue_ordinary_mode
  ordinary-Moves c d p v = elim (Bool-cases (is_closed c.status)) [
    | inl o ↦ rw o (still-Moves c c done v refl refl)
    | inr o ↦ rw o (elim (Bool-cases (ops.is_full c.queue && c.overflow_timeout_defined)) [
      | inl w ↦ rw w (still-Moves c c waits v refl refl)
      | inr w ↦ rw w (store_ordinary-Moves c d p v o)
    ])
  ]

  pub after_wait-Moves :
      (c : Chain ops.Queue) (d : Demand)
      → Positive limit
      → IsValid c.queue
      → Moves c (store_after_wait ops c d)
  unfolding store_after_wait
  after_wait-Moves c d p v = elim (Bool-cases (is_closed c.status)) [
    | inl o ↦ rw o (still-Moves c c done v refl refl)
    | inr o ↦ rw o (store_ordinary-Moves c d p v o)
  ]

  pub nonblocking-Moves :
      (c : Chain ops.Queue) (d : Demand)
      → Positive limit
      → IsValid c.queue
      → Moves c (try_to_store_message_to_queue_nonblocking_mode ops c d)
  unfolding try_to_store_message_to_queue_nonblocking_mode
  nonblocking-Moves c d p v = elim (Bool-cases (is_closed c.status)) [
    | inl o ↦ rw o (still-Moves c c done v refl refl)
    | inr o ↦ rw o (elim (Bool-cases (ops.is_full c.queue)) [
      | inl f ↦ rw f (react_nonblocking-Moves c.overflow_reaction c d p v o f)
      | inr f ↦ rw f (complete_store-Moves c d v o f)
    ])
  ]

  pub push-Moves :
      (c : Chain ops.Queue) (d : Demand) (case : ℕ) → IsValid c.queue → Moves c (push ops c d case)
  unfolding push hang
  push-Moves c d case v = elim (Bool-cases (is_closed c.status)) [
    | inl o ↦ rw o (still-Moves c c chain_closed v refl refl)
    | inr o ↦ rw o (elim (Bool-cases (ops.is_full c.queue)) [
      | inl f ↦ rw f (still-Moves c _ deferred v refl refl)
      | inr f ↦ rw f (complete_store-Moves c d v o f)
    ])
  ]
