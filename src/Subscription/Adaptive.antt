-- ===== src/Subscription/Adaptive.antt =====
-- `adaptive_subscr_storage::storage_t` of subscr_storage_adaptive.cpp, over any two storages.
pub mod Laws
use sobjectizer.Base.{ℕ, Bool, true, false, List, length, leb, if◌then◌else◌, Option}
use sobjectizer.Subscription.Iface.{SubscrInfo, EventHandlerData, MboxCall, Outcome, StorageOps}

-- Which of the two `m_current_storage` points to.
pub data Current : Type 0 where
  small_storage large_storage : Current

module _ (small large : StorageOps) where
  pub record AdaptiveStorage : Type 0 where
    pub threshold : ℕ
    pub small_part : small.Storage
    pub large_part : large.Storage
    pub current : Current

  -- The constructor.
  unfoldable pub make : ℕ → small.Storage → large.Storage → AdaptiveStorage
  make n s l = record { threshold = n; small_part = s; large_part = l; current = small_storage }

  unfoldable pub query_content : AdaptiveStorage → List SubscrInfo
  query_content a = elim a.current [
    | small_storage ↦ small.query_content a.small_part
    | large_storage ↦ large.query_content a.large_part
  ]

  unfoldable pub query_subscriptions_count : AdaptiveStorage → ℕ
  query_subscriptions_count a = elim a.current [
    | small_storage ↦ small.query_subscriptions_count a.small_part
    | large_storage ↦ large.query_subscriptions_count a.large_part
  ]

  unfoldable pub find_handler : ℕ → ℕ → ℕ → AdaptiveStorage → Option EventHandlerData
  find_handler m t k a = elim a.current [
    | small_storage ↦ small.find_handler m t k a.small_part
    | large_storage ↦ large.find_handler m t k a.large_part
  ]

  -- The switch to the large storage, and the one back.
  unfoldable pub to_large : AdaptiveStorage → AdaptiveStorage
  to_large a = record a {
    large_part = large.setup_content (small.query_content a.small_part) a.large_part;
    small_part = small.drop_content a.small_part;
    current = large_storage;
  }

  unfoldable pub to_small : AdaptiveStorage → AdaptiveStorage
  to_small a = record a {
    small_part = small.setup_content (large.query_content a.large_part) a.small_part;
    large_part = large.drop_content a.large_part;
    current = small_storage;
  }

  -- The first `if` of `create_event_subscription`.
  unfoldable pub try_switch_to_larger_storage : AdaptiveStorage → AdaptiveStorage
  unfolding to_large
  try_switch_to_larger_storage a = elim a.current [
    | small_storage ↦
        if leb a.threshold (small.query_subscriptions_count a.small_part) then to_large a else a
    | large_storage ↦ a
  ]

  unfoldable pub try_switch_to_smaller_storage : AdaptiveStorage → AdaptiveStorage
  unfolding to_small
  try_switch_to_smaller_storage a = elim a.current [
    | small_storage ↦ a
    | large_storage ↦
        if leb (large.query_subscriptions_count a.large_part) a.threshold then to_small a else a
  ]

  abbrev in_small : AdaptiveStorage → Outcome small.Storage → Outcome AdaptiveStorage
  in_small a r = record {
    storage = record a { small_part = r.storage };
    calls = r.calls;
    error = r.error;
  }

  abbrev in_large : AdaptiveStorage → Outcome large.Storage → Outcome AdaptiveStorage
  in_large a r = record {
    storage = record a { large_part = r.storage };
    calls = r.calls;
    error = r.error;
  }

  -- The call of the current storage at the end of `create_event_subscription`.
  unfoldable pub create_in_current : Bool → SubscrInfo → AdaptiveStorage → Outcome AdaptiveStorage
  create_in_current returns o a = elim a.current [
    | small_storage ↦ in_small a (small.create_event_subscription returns o a.small_part)
    | large_storage ↦ in_large a (large.create_event_subscription returns o a.large_part)
  ]

  unfoldable pub create_event_subscription :
      Bool → SubscrInfo → AdaptiveStorage → Outcome AdaptiveStorage
  unfolding create_in_current try_switch_to_larger_storage
  create_event_subscription returns o a =
      create_in_current returns o (try_switch_to_larger_storage a)

  -- A drop in the current storage.
  unfoldable pub drop_in_current :
      (small.Storage → small.Storage × List MboxCall)
      → (large.Storage → large.Storage × List MboxCall)
      → AdaptiveStorage
      → AdaptiveStorage × List MboxCall
  drop_in_current f g a = elim a.current [
    | small_storage ↦ let (s, calls) = f a.small_part in (record a { small_part = s }, calls)
    | large_storage ↦ let (l, calls) = g a.large_part in (record a { large_part = l }, calls)
  ]

  unfoldable pub drop_subscription : ℕ → ℕ → ℕ → AdaptiveStorage → AdaptiveStorage × List MboxCall
  unfolding drop_in_current try_switch_to_smaller_storage
  drop_subscription m t k a =
      let (dropped, calls) =
        drop_in_current (small.drop_subscription m t k) (large.drop_subscription m t k) a in
      (try_switch_to_smaller_storage dropped, calls)

  unfoldable pub drop_subscription_for_all_states :
      ℕ → ℕ → AdaptiveStorage → AdaptiveStorage × List MboxCall
  unfolding drop_in_current try_switch_to_smaller_storage
  drop_subscription_for_all_states m t a =
      let (dropped, calls) =
        drop_in_current (small.drop_subscription_for_all_states m t)
          (large.drop_subscription_for_all_states m t) a in
      (try_switch_to_smaller_storage dropped, calls)

  unfoldable pub drop_all_subscriptions : AdaptiveStorage → AdaptiveStorage × List MboxCall
  unfolding drop_in_current
  drop_all_subscriptions a =
      let (dropped, calls) =
        drop_in_current small.drop_all_subscriptions large.drop_all_subscriptions a in
      (record dropped { current = small_storage }, calls)

  unfoldable pub drop_content : AdaptiveStorage → AdaptiveStorage
  drop_content a = elim a.current [
    | small_storage ↦ record a { small_part = small.drop_content a.small_part }
    | large_storage ↦ record a {
      large_part = large.drop_content a.large_part;
      current = small_storage;
    }
  ]

  unfoldable pub setup_content : List SubscrInfo → AdaptiveStorage → AdaptiveStorage
  setup_content info a =
      if leb (length info) a.threshold
      then record a { small_part = small.setup_content info a.small_part; current = small_storage }
      else record a { large_part = large.setup_content info a.large_part; current = large_storage }

  abbrev pub adaptive_storage : StorageOps
  adaptive_storage = record {
    Storage = AdaptiveStorage;
    create_event_subscription = create_event_subscription;
    drop_subscription = drop_subscription;
    drop_subscription_for_all_states = drop_subscription_for_all_states;
    drop_all_subscriptions = drop_all_subscriptions;
    find_handler = find_handler;
    drop_content = drop_content;
    query_content = query_content;
    setup_content = setup_content;
    query_subscriptions_count = query_subscriptions_count;
  }
