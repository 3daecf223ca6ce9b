-- ===== src/Subscription/Tests.antt =====
-- Runs of the subscription storages on concrete calls.
use sobjectizer.Base.{ℕ, ◌+◌, ◌≡◌, refl, true, false, none, some, List, [], ◌∷◌, if◌then◌else◌}
use sobjectizer.Subscription.Iface.{
  EventHandlerData, thread_safe, final_handler, SubscrInfo, has_pair, Distinct, subscribed_after,
  mbox_exception, evt_handler_already_provided,
}
use sobjectizer.Subscription.VectorBased
use sobjectizer.Subscription.VectorBased.{vector_based_storage}
use sobjectizer.Subscription.VectorBased.DropAll.{unsubscriptions, destroy_all_once}
use sobjectizer.Subscription.MapBased
use sobjectizer.Subscription.MapBased.{map_based_storage, is_known_mbox_msg_pair}
use sobjectizer.Subscription.MapBased.Create.{is_known_mbox_msg_pair_lem}
use sobjectizer.Subscription.MapBased.DropAll.{map_destroy_all_once}
use sobjectizer.Subscription.Adaptive.{adaptive_storage, make, query_content}
use sobjectizer.Subscription.Sort.{insertion_sort, insertion_sort-IsSort}
use sobjectizer.Subscription.Agreement.{
  StorageCall, creates, drops, drops_for_all_states, finds, created, dropped, found, replies,
  perform_all,
}
use sobjectizer.Subscription.Agreement.Replies.{vector_like_map, adaptive_like_map}
use sobjectizer.Subscription.Agreement.Mboxes.{mboxes_in_step}

abbrev handler : ℕ → EventHandlerData
handler n = record { method = n; thread_safety = thread_safe; kind = final_handler }

abbrev entry : ℕ → ℕ → ℕ → SubscrInfo
entry m t k = record {
  mbox = m;
  msg_type = t;
  message_sink = 9;
  state = k;
  handler = handler (m + k);
}

abbrev script : List StorageCall
script =
    creates true (entry 2 1 1)
    ∷ creates false (entry 2 1 3)
    ∷ creates false (entry 1 1 1)
    ∷ creates true (entry 1 1 1)
    ∷ creates true (entry 1 1 1)
    ∷ finds 2 1 3
    ∷ drops 2 1 1
    ∷ drops_for_all_states 1 1
    ∷ finds 2 1 3
    ∷ []

vector_like_map_example :
    replies (vector_based_storage insertion_sort) [] script ≡ replies map_based_storage [] script
vector_like_map_example = vector_like_map insertion_sort insertion_sort-IsSort script

-- With the threshold 1 the script makes the storage switch both ways.
adaptive_like_map_example :
    replies
      (adaptive_storage (vector_based_storage insertion_sort) map_based_storage)
      (make (vector_based_storage insertion_sort) map_based_storage 1 [] [])
      script
    ≡ replies map_based_storage [] script
adaptive_like_map_example = adaptive_like_map insertion_sort insertion_sort-IsSort 1 script

mboxes_in_step_example :
    let small = vector_based_storage insertion_sort in
    let (last, calls) =
      perform_all
        (adaptive_storage small map_based_storage)
        (make small map_based_storage 1 [] [])
        script in
    (subscribed_after 2 1 false calls ≡ has_pair 2 1 (query_content small map_based_storage last))
    × Distinct (query_content small map_based_storage last)
mboxes_in_step_example = mboxes_in_step insertion_sort insertion_sort-IsSort 1 script 2 1

-- What the map's caller sees of the script.
map_replies :
    replies map_based_storage [] script
    ≡ created none
      ∷ created none
      ∷ created (some mbox_exception)
      ∷ created none
      ∷ created (some evt_handler_already_provided)
      ∷ found (some (handler 5))
      ∷ dropped
      ∷ dropped
      ∷ found (some (handler 5))
      ∷ []
unfolding replies MapBased.create_event_subscription MapBased.drop_subscription
    MapBased.drop_subscription_for_all_states MapBased.find_handler
map_replies = refl

abbrev entries : List SubscrInfo
entries = entry 1 1 1 ∷ entry 1 1 2 ∷ entry 2 1 1 ∷ []

destroy_all_once_example :
    let (s', calls) = VectorBased.destroy_all_subscriptions insertion_sort entries in
    (s' ≡ []) × (unsubscriptions 1 1 calls ≡ (if has_pair 1 1 entries then 1 else 0))
destroy_all_once_example = destroy_all_once insertion_sort insertion_sort-IsSort entries 1 1

map_destroy_all_once_example :
    let (s', calls) = MapBased.destroy_all_subscriptions entries in
    (s' ≡ []) × (unsubscriptions 1 1 calls ≡ (if has_pair 1 1 entries then 1 else 0))
map_destroy_all_once_example =
    map_destroy_all_once entries 1 1 (((refl, (refl, tt)), ((refl, tt), (tt, tt))))

is_known_mbox_msg_pair_example :
    is_known_mbox_msg_pair 1 1 (entry 1 1 1 ∷ []) (entry 2 1 1 ∷ [])
    ≡ has_pair 1 1 (entry 1 1 1 ∷ entry 2 1 1 ∷ [])
is_known_mbox_msg_pair_example =
    is_known_mbox_msg_pair_lem 1 1 2 (entry 1 1 1 ∷ []) (entry 2 1 1 ∷ []) (refl, tt) (refl, tt)
      ((refl, tt), (tt, tt))
