-- ===== src/Subscription/MapBased.antt =====
-- `map_based_subscr_storage::storage_t` of subscr_storage_map_based.cpp: the `std::map` is the list of
-- its items in the order of their keys, and an iterator is a place in that list. `key_t` and
-- `value_t` of one item are one `SubscrInfo`.
pub mod Order
pub mod Find
pub mod Sorted
pub mod Create
pub mod Drop
pub mod DropPair
pub mod DropAll
pub mod Setup
pub mod Laws
use sobjectizer.Base.{
  ℕ, ◌≡◌, Bool, true, false, ◌&&◌, ◌||◌, not, Option, none, some, List, [], ◌∷◌, ◌++◌, length, ◌==◌,
  ltb, if◌then◌else◌,
}
use sobjectizer.Subscription.Iface.{
  SubscrInfo, EventHandlerData, MboxCall, subscribe_event_handler, unsubscribe_event_handler, Error,
  evt_handler_already_provided, mbox_exception, Outcome, same_pair, same_key, StorageOps,
}

-- `key_t::operator<`.
abbrev pub key_less : ℕ → ℕ → ℕ → ℕ → ℕ → ℕ → Bool
key_less m t k m' t' k' =
    if ltb m m'
    then true
    else if m == m'
    then (if ltb t t' then true else if t == t' then ltb k k' else false)
    else false

-- `std::map::lower_bound`: the items before it, and those from it on.
unfoldable pub lower_bound : ℕ → ℕ → ℕ → List SubscrInfo → List SubscrInfo × List SubscrInfo
lower_bound m t k [] = ([], [])
lower_bound m t k (o ∷ os) =
    let later = lower_bound m t k os in
    if key_less o.mbox o.msg_type o.state m t k then (o ∷ later.0, later.1) else ([], o ∷ os)

pub record Position : Type 0 where
  pub before : List SubscrInfo
  pub item : SubscrInfo
  pub rest : List SubscrInfo

-- `find`, from the lower bound.
unfoldable pub find_at : ℕ → ℕ → ℕ → List SubscrInfo → List SubscrInfo → Option Position
find_at m t k b [] = none
find_at m t k b (o ∷ r) =
    if same_key m t k o then some (record { before = b; item = o; rest = r }) else none

unfoldable pub find : ℕ → ℕ → ℕ → List SubscrInfo → Option Position
unfolding find_at lower_bound
find m t k events = find_at m t k (lower_bound m t k events).0 (lower_bound m t k events).1

-- `is_known_mbox_msg_pair`: the item before the iterator and the one behind it.
unfoldable pub last_same : ℕ → ℕ → List SubscrInfo → Bool
last_same m t [] = false
last_same m t (o ∷ []) = same_pair m t o
last_same m t (o ∷ p ∷ os) = last_same m t (p ∷ os)

unfoldable pub head_same : ℕ → ℕ → List SubscrInfo → Bool
head_same m t [] = false
head_same m t (o ∷ os) = same_pair m t o

unfoldable pub is_known_mbox_msg_pair : ℕ → ℕ → List SubscrInfo → List SubscrInfo → Bool
unfolding last_same head_same
is_known_mbox_msg_pair m t b r = last_same m t b || head_same m t r

-- `emplace` between `b` and `r`, and the mbox's subscription with its rollback.
unfoldable pub emplace_at :
    Bool → SubscrInfo → List SubscrInfo → List SubscrInfo → Outcome (List SubscrInfo)
unfolding is_known_mbox_msg_pair
emplace_at returns o b r =
    if is_known_mbox_msg_pair o.mbox o.msg_type b r
    then record { storage = b ++ o ∷ r; calls = []; error = none }
    else if returns
    then record {
      storage = b ++ o ∷ r;
      calls = subscribe_event_handler o.mbox o.msg_type o.message_sink ∷ [];
      error = none;
    }
    else record { storage = b ++ r; calls = []; error = some mbox_exception }

unfoldable pub create_event_subscription :
    Bool → SubscrInfo → List SubscrInfo → Outcome (List SubscrInfo)
unfolding find emplace_at lower_bound
create_event_subscription returns o events = elim (find o.mbox o.msg_type o.state events) [
  | some p ↦ record { storage = events; calls = []; error = some evt_handler_already_provided }
  | none ↦
      emplace_at returns o (lower_bound o.mbox o.msg_type o.state events).0
        (lower_bound o.mbox o.msg_type o.state events).1
]

unfoldable pub drop_subscription : ℕ → ℕ → ℕ → List SubscrInfo → List SubscrInfo × List MboxCall
unfolding find is_known_mbox_msg_pair
drop_subscription m t k events = elim (find m t k events) [
  | none ↦ (events, [])
  | some p ↦ (
    p.before ++ p.rest,
    (if is_known_mbox_msg_pair p.item.mbox p.item.msg_type p.before p.rest
        then []
        else unsubscribe_event_handler m t p.item.message_sink ∷ []),
  )
]

-- The loop that erases from the iterator on while the pair is the same.
unfoldable pub erase_while_same : ℕ → ℕ → List SubscrInfo → List SubscrInfo
erase_while_same m t [] = []
erase_while_same m t (o ∷ os) =
    let rest = erase_while_same m t os in if same_pair m t o then rest else o ∷ os

unfoldable pub drop_from :
    ℕ → ℕ → List SubscrInfo → List SubscrInfo → List SubscrInfo × List MboxCall
unfolding erase_while_same
drop_from m t b [] = (b, [])
drop_from m t b (o ∷ r) =
    if same_pair m t o
    then (b ++ erase_while_same m t (o ∷ r), unsubscribe_event_handler m t o.message_sink ∷ [])
    else (b ++ o ∷ r, [])

-- The null pointer is 0.
unfoldable pub drop_subscription_for_all_states :
    ℕ → ℕ → List SubscrInfo → List SubscrInfo × List MboxCall
unfolding drop_from lower_bound
drop_subscription_for_all_states m t events =
    drop_from m t (lower_bound m t 0 events).0 (lower_bound m t 0 events).1

unfoldable pub find_handler : ℕ → ℕ → ℕ → List SubscrInfo → Option EventHandlerData
unfolding find
find_handler m t k events = elim (find m t k events) [ none ↦ none | some p ↦ some p.item.handler ]

-- The loop of `destroy_all_subscriptions`: the last item of each run of a pair unsubscribes.
unfoldable pub unsubscribe_last : List SubscrInfo → List MboxCall
unsubscribe_last [] = []
unsubscribe_last (o ∷ []) = unsubscribe_event_handler o.mbox o.msg_type o.message_sink ∷ []
unsubscribe_last (o ∷ p ∷ os) =
    let later = unsubscribe_last (p ∷ os) in
    if same_pair o.mbox o.msg_type p
    then later
    else unsubscribe_event_handler o.mbox o.msg_type o.message_sink ∷ later

unfoldable pub destroy_all_subscriptions : List SubscrInfo → List SubscrInfo × List MboxCall
unfolding unsubscribe_last
destroy_all_subscriptions events = ([], unsubscribe_last events)

-- An insertion by the `inserter`: an item whose key is there is left out.
unfoldable pub insert : SubscrInfo → List SubscrInfo → List SubscrInfo
unfolding find lower_bound
insert o events = elim (find o.mbox o.msg_type o.state events) [
  | some p ↦ events
  | none ↦
      (lower_bound o.mbox o.msg_type o.state events).0
      ++ o ∷ (lower_bound o.mbox o.msg_type o.state events).1
]

unfoldable pub insert_all : List SubscrInfo → List SubscrInfo → List SubscrInfo
unfolding insert
insert_all events [] = events
insert_all events (o ∷ info) = insert_all (insert o events) info

unfoldable pub setup_content : List SubscrInfo → List SubscrInfo → List SubscrInfo
unfolding insert_all
setup_content info events = insert_all [] info

abbrev pub map_based_storage : StorageOps
map_based_storage = record {
  Storage = List SubscrInfo;
  create_event_subscription = create_event_subscription;
  drop_subscription = drop_subscription;
  drop_subscription_for_all_states = drop_subscription_for_all_states;
  drop_all_subscriptions = destroy_all_subscriptions;
  find_handler = find_handler;
  drop_content = λ events. [];
  query_content = λ events. events;
  setup_content = setup_content;
  query_subscriptions_count = λ events. length events;
}
