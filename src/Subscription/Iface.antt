-- ===== src/Subscription/Iface.antt =====
-- subscription_storage_iface.hpp: what a storage holds, the calls that it makes on mboxes, and the
-- interface `subscription_storage_t` with its contract.
use sobjectizer.Base.{
  ℕ, suc, ◌≡◌, Bool, true, false, ◌&&◌, ◌||◌, Option, none, some, List, [], ◌∷◌, length, ◌==◌,
  if◌then◌else◌,
}

pub data ThreadSafety : Type 0 where
  not_thread_safe thread_safe : ThreadSafety

pub data EventHandlerKind : Type 0 where
  final_handler intermediate_handler : EventHandlerKind

-- `event_handler_data_t`: the method is named by a number.
pub record EventHandlerData : Type 0 where
  pub method : ℕ
  pub thread_safety : ThreadSafety
  pub kind : EventHandlerKind

-- `subscr_info_t`: an mbox by its id, a message type by its index, a sink and a state by their addresses.
pub record SubscrInfo : Type 0 where
  pub mbox : ℕ
  pub msg_type : ℕ
  pub message_sink : ℕ
  pub state : ℕ
  pub handler : EventHandlerData

-- A call on an mbox: its id, the message type and the sink.
pub data MboxCall : Type 0 where
  subscribe_event_handler unsubscribe_event_handler : ℕ → ℕ → ℕ → MboxCall

-- The exception of a storage, and that of `subscribe_event_handler` passed on.
pub data Error : Type 0 where
  evt_handler_already_provided mbox_exception : Error

-- The storage and the calls on mboxes that returned, after a method that may throw or not.
pub record Outcome (S : Type 0) : Type 0 where
  pub storage : S
  pub calls : List MboxCall
  pub error : Option Error

abbrev pub same_pair : ℕ → ℕ → SubscrInfo → Bool
same_pair mbox msg_type o = (o.mbox == mbox) && (o.msg_type == msg_type)

abbrev pub same_key : ℕ → ℕ → ℕ → SubscrInfo → Bool
same_key mbox msg_type state o = same_pair mbox msg_type o && (o.state == state)

-- The contents of a storage as a list, read as a partial function from keys to handlers.
unfoldable pub lookup : ℕ → ℕ → ℕ → List SubscrInfo → Option EventHandlerData
lookup mbox msg_type state [] = none
lookup mbox msg_type state (o ∷ os) =
    if same_key mbox msg_type state o then some o.handler else lookup mbox msg_type state os

-- Is there a subscription for the mbox and the type, in any state?
unfoldable pub has_pair : ℕ → ℕ → List SubscrInfo → Bool
has_pair mbox msg_type [] = false
has_pair mbox msg_type (o ∷ os) = same_pair mbox msg_type o || has_pair mbox msg_type os

-- No key stands twice.
abbrev pub Distinct : List SubscrInfo → Type 0
Distinct [] = Unit
Distinct (o ∷ os) = (lookup o.mbox o.msg_type o.state os ≡ none) × Distinct os

-- Whether the mbox holds a subscription of the agent for the type, after the calls.
unfoldable pub subscribed_after : ℕ → ℕ → Bool → List MboxCall → Bool
subscribed_after mbox msg_type before [] = before
subscribed_after mbox msg_type before (subscribe_event_handler m t sink ∷ calls) =
    subscribed_after mbox msg_type (if (m == mbox) && (t == msg_type) then true else before) calls
subscribed_after mbox msg_type before (unsubscribe_event_handler m t sink ∷ calls) =
    subscribed_after mbox msg_type (if (m == mbox) && (t == msg_type) then false else before) calls

-- `subscription_storage_t`. The flag of `create_event_subscription` says whether the mbox's
-- `subscribe_event_handler` returns or throws.
pub record StorageOps : Type 1 where
  pub Storage : Type 0
  pub create_event_subscription : Bool → SubscrInfo → Storage → Outcome Storage
  pub drop_subscription : ℕ → ℕ → ℕ → Storage → Storage × List MboxCall
  pub drop_subscription_for_all_states : ℕ → ℕ → Storage → Storage × List MboxCall
  pub drop_all_subscriptions : Storage → Storage × List MboxCall
  pub find_handler : ℕ → ℕ → ℕ → Storage → Option EventHandlerData
  pub drop_content : Storage → Storage
  pub query_content : Storage → List SubscrInfo
  pub setup_content : List SubscrInfo → Storage → Storage
  pub query_subscriptions_count : Storage → ℕ

-- The calls keep the mboxes in step with the storage: an mbox holds a subscription exactly if the
-- storage has an entry for the pair.
abbrev pub InStep : List SubscrInfo → List MboxCall → List SubscrInfo → Type 0
InStep old calls new =
    (mbox msg_type : ℕ)
    → subscribed_after mbox msg_type (has_pair mbox msg_type old) calls ≡ has_pair mbox msg_type new

-- The new contents answer like the old ones but at the keys that `changed` picks.
abbrev pub Answers :
    List SubscrInfo → (ℕ → ℕ → ℕ → Bool) → Option EventHandlerData → List SubscrInfo → Type 0
Answers old changed answer new =
    (mbox msg_type state : ℕ)
    → lookup mbox msg_type state new
      ≡ (if changed mbox msg_type state then answer else lookup mbox msg_type state old)

-- Two contents with the same answers and as many entries, in whatever order.
pub record SameContent (old new : List SubscrInfo) : Type 0 where
  pub answers : (m t k : ℕ) → lookup m t k new ≡ lookup m t k old
  pub pairs : (m t : ℕ) → has_pair m t new ≡ has_pair m t old
  pub count : length new ≡ length old

module _ (ops : StorageOps) where
  open ops use {
    Storage, create_event_subscription, drop_subscription, drop_subscription_for_all_states,
    drop_all_subscriptions, find_handler, drop_content, query_content, setup_content,
    query_subscriptions_count,
  }

  -- The contract of a storage, told by its contents.
  pub record StorageLaws : Type 1 where
    pub IsValid : Storage → Type 0
    pub distinct : (s : Storage) → IsValid s → Distinct (query_content s)
    pub find_law :
        (s : Storage) (m t k : ℕ)
        → IsValid s
        → find_handler m t k s ≡ lookup m t k (query_content s)
    pub count_law : (s : Storage) → query_subscriptions_count s ≡ length (query_content s)
    pub create_known :
        (returns : Bool) (o : SubscrInfo) (s : Storage) (h : EventHandlerData)
        → IsValid s
        → lookup o.mbox o.msg_type o.state (query_content s) ≡ some h
        → let r = create_event_subscription returns o s in
          (r.error ≡ some evt_handler_already_provided)
          × (r.calls ≡ [])
          × IsValid r.storage
          × SameContent (query_content s) (query_content r.storage)
    pub create_refused :
        (o : SubscrInfo) (s : Storage)
        → IsValid s
        → lookup o.mbox o.msg_type o.state (query_content s) ≡ none
        → has_pair o.mbox o.msg_type (query_content s) ≡ false
        → let r = create_event_subscription false o s in
          (r.error ≡ some mbox_exception)
          × (r.calls ≡ [])
          × IsValid r.storage
          × SameContent (query_content s) (query_content r.storage)
    pub create_new :
        (returns : Bool) (o : SubscrInfo) (s : Storage)
        → IsValid s
        → lookup o.mbox o.msg_type o.state (query_content s) ≡ none
        → (returns || has_pair o.mbox o.msg_type (query_content s)) ≡ true
        → let r = create_event_subscription returns o s in
          (r.error ≡ none)
          × IsValid r.storage
          × Answers
              (query_content s)
              (λ m t k. same_key m t k o)
              (some o.handler)
              (query_content r.storage)
          × InStep (query_content s) r.calls (query_content r.storage)
          × (length (query_content r.storage) ≡ suc (length (query_content s)))
    pub drop_law :
        (m t k : ℕ) (s : Storage)
        → IsValid s
        → let (s', calls) = drop_subscription m t k s in
          IsValid s'
          × Answers
              (query_content s)
              (λ m' t' k'. (m == m') && ((t == t') && (k == k')))
              none
              (query_content s')
          × InStep (query_content s) calls (query_content s')
    pub drop_for_all_states_law :
        (m t : ℕ) (s : Storage)
        → IsValid s
        → let (s', calls) = drop_subscription_for_all_states m t s in
          IsValid s'
          × Answers (query_content s) (λ m' t' k'. (m == m') && (t == t')) none (query_content s')
          × InStep (query_content s) calls (query_content s')
    pub drop_all_law :
        (s : Storage)
        → IsValid s
        → let (s', calls) = drop_all_subscriptions s in
          IsValid s' × (query_content s' ≡ []) × InStep (query_content s) calls []
    pub drop_content_law :
        (s : Storage) → IsValid s → IsValid (drop_content s) × (query_content (drop_content s) ≡ [])
    pub setup_law :
        (l : List SubscrInfo) (s : Storage)
        → Distinct l
        → IsValid s
        → query_content s ≡ []
        → IsValid (setup_content l s) × SameContent l (query_content (setup_content l s))
