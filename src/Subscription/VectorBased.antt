-- ===== src/Subscription/VectorBased.antt =====
-- `vector_based_subscr_storage::storage_t` of subscr_storage_vector_based.cpp: the vector of events is a
-- list. `std::sort` is a parameter.
pub mod Create
pub mod Drop
pub mod DropAll
pub mod Laws
use sobjectizer.Base.{
  ℕ, zero, suc, ◌+◌, ◌-◌, ◌≡◌, refl, Bool, true, false, ◌&&◌, ◌||◌, Option, none, some, List, [],
  ◌∷◌, ◌++◌, length, ◌==◌, if◌then◌else◌, is_nil, arith,
}
use sobjectizer.Subscription.Iface.{
  SubscrInfo, EventHandlerData, MboxCall, subscribe_event_handler, unsubscribe_event_handler, Error,
  evt_handler_already_provided, mbox_exception, Outcome, same_pair, same_key, has_pair, StorageOps,
}

-- The loop of `create_event_subscription`: `none` where it throws, and else
-- `has_subscriptions_from_that_mbox`.
unfoldable pub scan : ℕ → ℕ → ℕ → Bool → List SubscrInfo → Option Bool
scan mbox msg_type state has [] = some has
scan mbox msg_type state has (o ∷ os) =
    if same_key mbox msg_type state o
    then none
    else scan mbox msg_type state (same_pair mbox msg_type o || has) os

unfoldable pub pop_back : List SubscrInfo → List SubscrInfo
pop_back [] = []
pop_back (o ∷ []) = []
pop_back (o ∷ p ∷ os) = o ∷ pop_back (p ∷ os)

-- `emplace_back`, and the mbox's subscription with its rollback where there was none.
unfoldable pub add_to_end : Bool → SubscrInfo → List SubscrInfo → Bool → Outcome (List SubscrInfo)
unfolding pop_back
add_to_end returns o events has =
    let added = events ++ o ∷ [] in
    if has
    then record { storage = added; calls = []; error = none }
    else if returns
    then record {
      storage = added;
      calls = subscribe_event_handler o.mbox o.msg_type o.message_sink ∷ [];
      error = none;
    }
    else record { storage = pop_back added; calls = []; error = some mbox_exception }

unfoldable pub create_event_subscription :
    Bool → SubscrInfo → List SubscrInfo → Outcome (List SubscrInfo)
unfolding scan add_to_end
create_event_subscription returns o events = elim (scan o.mbox o.msg_type o.state false events) [
  | none ↦ record { storage = events; calls = []; error = some evt_handler_already_provided }
  | some has ↦ add_to_end returns o events has
]

-- Where the loop of `drop_subscription` stops: the iterator, with what stands before and behind it,
-- and `number_of_subscriptions`.
pub record Found : Type 0 where
  pub before : List SubscrInfo
  pub item : SubscrInfo
  pub rest : List SubscrInfo
  pub number_of_subscriptions : ℕ

abbrev pub further : SubscrInfo → Option Found → Option Found
further o none = none
further o (some f) = some (record f { before = o ∷ f.before })

unfoldable pub locate : ℕ → ℕ → ℕ → ℕ → List SubscrInfo → Option Found
locate mbox msg_type state number [] = none
locate mbox msg_type state number (o ∷ os) =
    let number' = (if same_pair mbox msg_type o then number + 1 else number) in
    let later = locate mbox msg_type state number' os in
    if same_key mbox msg_type state o
    then some (record { before = []; item = o; rest = os; number_of_subscriptions = number' })
    else further o later

-- The subscriptions that are left, counted up to the erased one, and then at least 1 if there are
-- others behind it.
unfoldable pub number_left : ℕ → ℕ → Found → ℕ
number_left mbox msg_type f =
    let left = f.number_of_subscriptions - 1 in
    if left == 0 then (if has_pair mbox msg_type f.rest then 1 else 0) else left

unfoldable pub drop_subscription : ℕ → ℕ → ℕ → List SubscrInfo → List SubscrInfo × List MboxCall
unfolding locate number_left
drop_subscription mbox msg_type state events = elim (locate mbox msg_type state 0 events) [
  | none ↦ (events, [])
  | some f ↦ (
    f.before ++ f.rest,
    (if number_left mbox msg_type f == 0
        then unsubscribe_event_handler mbox msg_type f.item.message_sink ∷ []
        else []),
  )
]

-- `find_if` and `remove_if` with `is_same_mbox_msg`.
unfoldable pub first_same : ℕ → ℕ → List SubscrInfo → Option SubscrInfo
first_same mbox msg_type [] = none
first_same mbox msg_type (o ∷ os) =
    if same_pair mbox msg_type o then some o else first_same mbox msg_type os

unfoldable pub remove_same : ℕ → ℕ → List SubscrInfo → List SubscrInfo
remove_same mbox msg_type [] = []
remove_same mbox msg_type (o ∷ os) =
    let rest = remove_same mbox msg_type os in if same_pair mbox msg_type o then rest else o ∷ rest

-- `remove_if` from the first match on, which leaves what stands before it.
unfoldable pub erase_same : ℕ → ℕ → List SubscrInfo → List SubscrInfo
unfolding remove_same
erase_same mbox msg_type [] = []
erase_same mbox msg_type (o ∷ os) =
    let rest = erase_same mbox msg_type os in
    if same_pair mbox msg_type o then remove_same mbox msg_type (o ∷ os) else o ∷ rest

unfoldable pub drop_subscription_for_all_states :
    ℕ → ℕ → List SubscrInfo → List SubscrInfo × List MboxCall
unfolding first_same erase_same
drop_subscription_for_all_states mbox msg_type events = elim (first_same mbox msg_type events) [
  | none ↦ (events, [])
  | some o ↦
      (erase_same mbox msg_type events, unsubscribe_event_handler mbox msg_type o.message_sink ∷ [])
]

unfoldable pub find : ℕ → ℕ → ℕ → List SubscrInfo → Option SubscrInfo
find mbox msg_type state [] = none
find mbox msg_type state (o ∷ os) =
    if same_key mbox msg_type state o then some o else find mbox msg_type state os

unfoldable pub find_handler : ℕ → ℕ → ℕ → List SubscrInfo → Option EventHandlerData
unfolding find
find_handler mbox msg_type state events = elim (find mbox msg_type state events) [
  | none ↦ none
  | some o ↦ some o.handler
]

-- The loop of step two of `destroy_all_subscriptions`: `current_info` is the head of a run of
-- subscriptions for one pair, and the inner loop goes over the rest of the run.
unfoldable pub unsubscribe_after : ℕ → ℕ → List SubscrInfo → List MboxCall
unsubscribe_after mbox msg_type [] = []
unsubscribe_after mbox msg_type (o ∷ os) =
    let later = unsubscribe_after o.mbox o.msg_type os in
    if same_pair mbox msg_type o
    then later
    else unsubscribe_event_handler o.mbox o.msg_type o.message_sink ∷ later

unfoldable pub unsubscribe_runs : List SubscrInfo → List MboxCall
unfolding unsubscribe_after
unsubscribe_runs [] = []
unsubscribe_runs (o ∷ os) =
    unsubscribe_event_handler o.mbox o.msg_type o.message_sink
    ∷ unsubscribe_after o.mbox o.msg_type os

module _ (sort : List SubscrInfo → List SubscrInfo) where
  unfoldable pub destroy_all_subscriptions : List SubscrInfo → List SubscrInfo × List MboxCall
  unfolding unsubscribe_runs
  destroy_all_subscriptions events =
      if is_nil events then (events, []) else ([], unsubscribe_runs (sort events))

  abbrev pub vector_based_storage : StorageOps
  vector_based_storage = record {
    Storage = List SubscrInfo;
    create_event_subscription = create_event_subscription;
    drop_subscription = drop_subscription;
    drop_subscription_for_all_states = drop_subscription_for_all_states;
    drop_all_subscriptions = destroy_all_subscriptions;
    find_handler = find_handler;
    drop_content = λ events. [];
    query_content = λ events. events;
    setup_content = λ info events. info;
    query_subscriptions_count = λ events. length events;
  }
