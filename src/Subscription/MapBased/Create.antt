-- ===== src/Subscription/MapBased/Create.antt =====
-- Adding a subscription to the map.
use sobjectizer.Base.{
  ℕ, suc, ◌≡◌, refl, ap, subst, ◌∙◌, Bool, true, false, ◌||◌, none, some, List, [], ◌∷◌, ◌++◌,
  length, if◌then◌else◌, arith,
}
use sobjectizer.Subscription.Iface.{
  SubscrInfo, EventHandlerData, subscribe_event_handler, evt_handler_already_provided,
  mbox_exception, Outcome, same_key, lookup, has_pair, subscribed_after, InStep, Answers,
}
use sobjectizer.Subscription.Lists.{lookup-middle, has_pair-middle, length-middle}
use sobjectizer.Subscription.VectorBased.Drop.{has_pair-append}
use sobjectizer.Subscription.MapBased.{
  lower_bound, is_known_mbox_msg_pair, emplace_at, create_event_subscription,
}
use sobjectizer.Subscription.MapBased.Order.{
  AllBelow, AllAbove, IsSorted, lower_bound-append, lower_bound-AllBelow, find-none-AllAbove,
}
use sobjectizer.Subscription.MapBased.Sorted.{IsSorted-append, IsSorted-insert}
use sobjectizer.Subscription.MapBased.Find.{find_known, find_new, head_same_lem, last_same_lem}

-- At the place of a key in a sorted map, with lesser keys before it and greater ones behind it, the two
-- neighbours tell whether the map has any entry for the key's mbox and message type.
pub is_known_mbox_msg_pair_lem :
    (m t k : ℕ) (b r : List SubscrInfo)
    → AllBelow m t k b
    → AllAbove m t k r
    → IsSorted (b ++ r)
    → is_known_mbox_msg_pair m t b r ≡ has_pair m t (b ++ r)
unfolding is_known_mbox_msg_pair
is_known_mbox_msg_pair_lem m t k b r below above s =
    let (front, back) = IsSorted-append b r s in
    rw
      (last_same_lem m t k b below front, head_same_lem m t k r above back, has_pair-append m t b r)

abbrev pub CreateLaw : SubscrInfo → List SubscrInfo → Outcome (List SubscrInfo) → Type 0
CreateLaw o s r =
    (r.error ≡ none)
    × IsSorted r.storage
    × Answers s (λ m t k. same_key m t k o) (some o.handler) r.storage
    × InStep s r.calls r.storage
    × (length r.storage ≡ suc (length s))

emplaced : SubscrInfo → List SubscrInfo → List SubscrInfo → Outcome (List SubscrInfo)
emplaced o b r = record {
  storage = b ++ o ∷ r;
  calls =
      (if has_pair o.mbox o.msg_type (b ++ r)
        then []
        else subscribe_event_handler o.mbox o.msg_type o.message_sink ∷ []);
  error = none;
}

module _ (o : SubscrInfo) (b r : List SubscrInfo) (below : AllBelow o.mbox o.msg_type o.state b)
    (above : AllAbove o.mbox o.msg_type o.state r) (sorted : IsSorted (b ++ r))
    (gone : lookup o.mbox o.msg_type o.state (b ++ r) ≡ none) where
  emplace_at_lem :
      (returns : Bool)
      → (returns || has_pair o.mbox o.msg_type (b ++ r)) ≡ true
      → emplace_at returns o b r ≡ emplaced o b r
  unfolding emplace_at emplaced
  emplace_at_lem returns h =
      ground (arith, is_known_mbox_msg_pair_lem o.mbox o.msg_type o.state b r below above sorted)

  emplace_at_refused :
      has_pair o.mbox o.msg_type (b ++ r) ≡ false
      → emplace_at false o b r
        ≡ record { storage = b ++ r; calls = []; error = some mbox_exception }
  unfolding emplace_at
  emplace_at_refused h =
      ground (arith, is_known_mbox_msg_pair_lem o.mbox o.msg_type o.state b r below above sorted)

  emplaced-CreateLaw : CreateLaw o (b ++ r) (emplaced o b r)
  unfolding emplaced subscribed_after
  emplaced-CreateLaw = (
    refl,
    IsSorted-insert o b r below above sorted,
    (λ m t k. lookup-middle o b r m t k gone),
    (λ m t. ground (arith, has_pair-middle o b r m t)),
    length-middle o b r,
  )

pub create_known :
    (returns : Bool) (o : SubscrInfo) (s : List SubscrInfo) (h : EventHandlerData)
    → IsSorted s
    → lookup o.mbox o.msg_type o.state s ≡ some h
    → create_event_subscription returns o s
      ≡ record { storage = s; calls = []; error = some evt_handler_already_provided }
unfolding create_event_subscription
create_known returns o s h v e =
    let (p, found) = find_known o.mbox o.msg_type o.state s h v e in
    rw (found, create_event_subscription)

-- The place of a new key.
module _ (o : SubscrInfo) (s : List SubscrInfo) (v : IsSorted s)
    (e : lookup o.mbox o.msg_type o.state s ≡ none) where
  abbrev before : List SubscrInfo
  before = (lower_bound o.mbox o.msg_type o.state s).0

  abbrev rest : List SubscrInfo
  rest = (lower_bound o.mbox o.msg_type o.state s).1

  split : before ++ rest ≡ s
  split = lower_bound-append o.mbox o.msg_type o.state s

  above : AllAbove o.mbox o.msg_type o.state rest
  above = find-none-AllAbove o.mbox o.msg_type o.state s v (find_new o.mbox o.msg_type o.state s e)

  create_at :
      (returns : Bool) → create_event_subscription returns o s ≡ emplace_at returns o before rest
  unfolding create_event_subscription
  create_at returns = rw (find_new o.mbox o.msg_type o.state s e, create_event_subscription)

  pub create_refused :
      has_pair o.mbox o.msg_type s ≡ false
      → create_event_subscription false o s
        ≡ record { storage = s; calls = []; error = some mbox_exception }
  create_refused h =
      create_at false
      ∙ emplace_at_refused o before rest (lower_bound-AllBelow o.mbox o.msg_type o.state s) above
          (rw split v) (rw split e) (rw split h)
      ∙ ap (λ x. record { storage = x; calls = []; error = some mbox_exception }) split

  pub create_new :
      (returns : Bool)
      → (returns || has_pair o.mbox o.msg_type s) ≡ true
      → CreateLaw o s (create_event_subscription returns o s)
  create_new returns h =
      let below = lower_bound-AllBelow o.mbox o.msg_type o.state s in
      let made =
        emplace_at_lem o before rest below above (rw split v) (rw split e) returns (rw split h) in
      let law = emplaced-CreateLaw o before rest below above (rw split v) (rw split e) in
      rw (create_at returns, made) (subst (λ x. CreateLaw o x (emplaced o before rest)) split law)
