-- ===== src/Subscription/VectorBased/Create.antt =====
-- Adding a subscription to the vector.
use sobjectizer.Base.{
  ℕ, suc, ◌≡◌, refl, ap, ◌∙◌, Bool, true, false, ◌||◌, none, some, List, [], ◌∷◌, ◌++◌, length,
  if◌then◌else◌, append-nil, arith,
}
use sobjectizer.Subscription.Iface.{
  SubscrInfo, EventHandlerData, subscribe_event_handler, evt_handler_already_provided,
  mbox_exception, Outcome, same_pair, same_key, lookup, has_pair, Distinct, subscribed_after,
  InStep, Answers,
}
use sobjectizer.Subscription.Lists.{lookup-middle, has_pair-middle, length-middle, Distinct-insert}
use sobjectizer.Subscription.VectorBased.{scan, pop_back, create_event_subscription}

scan_known :
    (m t k : ℕ) (has : Bool) (l : List SubscrInfo) (h : EventHandlerData)
    → lookup m t k l ≡ some h
    → scan m t k has l ≡ none
unfolding scan lookup
scan_known m t k has [] h e = cc
scan_known m t k has (o ∷ os) h e = ground (arith, scan_known m t k (same_pair m t o || has) os h)

scan_new :
    (m t k : ℕ) (has : Bool) (l : List SubscrInfo)
    → lookup m t k l ≡ none
    → scan m t k has l ≡ some (has || has_pair m t l)
unfolding scan lookup has_pair
scan_new m t k has [] e = ground arith
scan_new m t k has (o ∷ os) e = ground (arith, scan_new m t k (same_pair m t o || has) os)

pop_back_lem : (l : List SubscrInfo) (o : SubscrInfo) → pop_back (l ++ o ∷ []) ≡ l
unfolding pop_back
pop_back_lem [] o = refl
pop_back_lem (x ∷ []) o = refl
pop_back_lem (x ∷ y ∷ l) o = ap (λ r. x ∷ r) (pop_back_lem (y ∷ l) o)

pub create_known :
    (returns : Bool) (o : SubscrInfo) (s : List SubscrInfo) (h : EventHandlerData)
    → lookup o.mbox o.msg_type o.state s ≡ some h
    → create_event_subscription returns o s
      ≡ record { storage = s; calls = []; error = some evt_handler_already_provided }
unfolding create_event_subscription
create_known returns o s h e =
    rw (scan_known o.mbox o.msg_type o.state false s h e, create_event_subscription)

pub create_refused :
    (o : SubscrInfo) (s : List SubscrInfo)
    → lookup o.mbox o.msg_type o.state s ≡ none
    → has_pair o.mbox o.msg_type s ≡ false
    → create_event_subscription false o s
      ≡ record { storage = s; calls = []; error = some mbox_exception }
unfolding create_event_subscription
create_refused o s e p =
    ground (arith, scan_new o.mbox o.msg_type o.state false s e, pop_back_lem s o)

created : (o : SubscrInfo) (s : List SubscrInfo) → Outcome (List SubscrInfo)
created o s = record {
  storage = s ++ o ∷ [];
  calls =
      (if has_pair o.mbox o.msg_type s
        then []
        else subscribe_event_handler o.mbox o.msg_type o.message_sink ∷ []);
  error = none;
}

create_lem :
    (returns : Bool) (o : SubscrInfo) (s : List SubscrInfo)
    → lookup o.mbox o.msg_type o.state s ≡ none
    → (returns || has_pair o.mbox o.msg_type s) ≡ true
    → create_event_subscription returns o s ≡ created o s
unfolding create_event_subscription created
create_lem returns o s e p = ground (arith, scan_new o.mbox o.msg_type o.state false s e)

created-InStep : (o : SubscrInfo) (s : List SubscrInfo) → InStep s (created o s).calls (s ++ o ∷ [])
unfolding subscribed_after created
created-InStep o s m t = ground (arith, has_pair-middle o s [] m t, append-nil s)

pub create_new :
    (returns : Bool) (o : SubscrInfo) (s : List SubscrInfo)
    → Distinct s
    → lookup o.mbox o.msg_type o.state s ≡ none
    → (returns || has_pair o.mbox o.msg_type s) ≡ true
    → let r = create_event_subscription returns o s in
      (r.error ≡ none)
      × Distinct r.storage
      × Answers s (λ m t k. same_key m t k o) (some o.handler) r.storage
      × InStep s r.calls r.storage
      × (length r.storage ≡ suc (length s))
unfolding created
create_new returns o s d e p =
    let nil = append-nil s in
    let gone : lookup o.mbox o.msg_type o.state (s ++ []) ≡ none = rw nil e in
    rw (create_lem returns o s e p) (
      refl,
      Distinct-insert o s [] gone (rw nil d),
      (λ m t k. rw nil at (lookup-middle o s [] m t k gone)),
      created-InStep o s,
      length-middle o s [] ∙ ap (λ l. suc (length l)) nil,
    )
