-- ===== src/Subscription/Agreement/Mboxes.antt =====
-- The calls of a storage on mboxes, over a whole script.
use sobjectizer.Base.{
  ℕ, ◌≡◌, refl, sym, ap, ◌∙◌, inl, inr, Bool, true, false, ◌&&◌, ◌==◌, if◌then◌else◌, none, List,
  [], ◌∷◌, ◌++◌, Bool-cases, Option-cases,
}
use sobjectizer.Subscription.Iface.{
  SubscrInfo, MboxCall, subscribe_event_handler, unsubscribe_event_handler, lookup, has_pair,
  Distinct, subscribed_after, StorageOps, InStep, StorageLaws,
}
use sobjectizer.Subscription.VectorBased.{vector_based_storage}
use sobjectizer.Subscription.VectorBased.DropAll.{IsSort}
use sobjectizer.Subscription.VectorBased.Laws.{vector_based-StorageLaws}
use sobjectizer.Subscription.MapBased.{map_based_storage}
use sobjectizer.Subscription.MapBased.Laws.{map_based-StorageLaws}
use sobjectizer.Subscription.Adaptive.{adaptive_storage, make, query_content}
use sobjectizer.Subscription.Adaptive.Laws.{adaptive-StorageLaws}
use sobjectizer.Subscription.Agreement.{
  StorageCall, creates, drops, drops_for_all_states, drops_all, finds, perform, perform_all,
}

subscribed_after-append :
    (m t : ℕ) (xs ys : List MboxCall) (b : Bool)
    → subscribed_after m t b (xs ++ ys) ≡ subscribed_after m t (subscribed_after m t b xs) ys
unfolding subscribed_after
subscribed_after-append m t [] ys b = refl
subscribed_after-append m t (subscribe_event_handler m' t' k ∷ xs) ys b =
    subscribed_after-append m t xs ys (if (m' == m) && (t' == t) then true else b)
subscribed_after-append m t (unsubscribe_event_handler m' t' k ∷ xs) ys b =
    subscribed_after-append m t xs ys (if (m' == m) && (t' == t) then false else b)

module _ (ops : StorageOps) (laws : StorageLaws ops) where
  -- After calls, the storage is valid and the mboxes are in step with it.
  abbrev Follows : ops.Storage → ops.Storage → List MboxCall → Type 0
  Follows s s' calls = laws.IsValid s' × InStep (ops.query_content s) calls (ops.query_content s')

  still :
      (s s' : ops.Storage) (calls : List MboxCall)
      → ((m t : ℕ) → has_pair m t (ops.query_content s') ≡ has_pair m t (ops.query_content s))
      → calls ≡ []
      → InStep (ops.query_content s) calls (ops.query_content s')
  unfolding subscribed_after
  still s s' calls pairs e m t = rw e (sym (pairs m t))

  unknown_step :
      (returns : Bool) (o : SubscrInfo) (s : ops.Storage)
      → laws.IsValid s
      → lookup o.mbox o.msg_type o.state (ops.query_content s) ≡ none
      → let r = ops.create_event_subscription returns o s in Follows s r.storage r.calls
  unknown_step true o s v e =
      let (err, valid, answers, step, count) = laws.create_new true o s v e refl in (valid, step)
  unknown_step false o s v e =
      elim (Bool-cases (has_pair o.mbox o.msg_type (ops.query_content s))) [
        | inl p ↦
            let (err, valid, answers, step, count) = laws.create_new false o s v e p in
            (valid, step)
        | inr p ↦
            let (err, calls, valid, kept) = laws.create_refused o s v e p in
            (valid, still s _ _ kept.pairs calls)
      ]

  perform_step :
      (c : StorageCall) (s : ops.Storage)
      → laws.IsValid s
      → let (s', calls, reply) = perform ops c s in Follows s s' calls
  unfolding perform subscribed_after
  perform_step (creates returns o) s v =
      elim (Option-cases (lookup o.mbox o.msg_type o.state (ops.query_content s))) [
        | inl e ↦ unknown_step returns o s v e
        | inr (h, e) ↦
            let (err, calls, valid, kept) = laws.create_known returns o s h v e in
            (valid, still s _ _ kept.pairs calls)
      ]
  perform_step (drops m t k) s v =
      let (valid, answers, step) = laws.drop_law m t k s v in (valid, step)
  perform_step (drops_for_all_states m t) s v =
      let (valid, answers, step) = laws.drop_for_all_states_law m t s v in (valid, step)
  perform_step drops_all s v =
      let (valid, e, step) = laws.drop_all_law s v in
      (valid, (λ m t. step m t ∙ ap (λ x. has_pair m t x) (sym e)))
  perform_step (finds m t k) s v = (v, (λ m t. refl))

  pub follows :
      (cs : List StorageCall) (s : ops.Storage)
      → laws.IsValid s
      → let (last, calls) = perform_all ops s cs in Follows s last calls
  unfolding perform_all subscribed_after
  follows [] s v = (v, (λ m t. refl))
  follows (c ∷ cs) s v =
      let (valid, step) = perform_step c s v in
      let (valid', step') = follows cs (perform ops c s).0 valid in
      (
        valid',
        (λ m t.
            subscribed_after-append m t (perform ops c s).1
              (perform_all ops (perform ops c s).0 cs).1 (has_pair m t (ops.query_content s))
            ∙ ap (λ b. subscribed_after m t b (perform_all ops (perform ops c s).0 cs).1) (step m t)
            ∙ step' m t),
      )

-- With a sort as documented, an adaptive storage over an empty vector and an empty map makes, in every
-- script of calls, such calls on mboxes that at the end an mbox holds a subscription for a message type
-- exactly if the storage has an entry for the two; and no key stands twice in the storage.
pub mboxes_in_step :
    (sort : List SubscrInfo → List SubscrInfo) (is_sort : IsSort sort) (threshold : ℕ)
    (script : List StorageCall) (m t : ℕ)
    → let small = vector_based_storage sort in
      let (last, calls) =
        perform_all
          (adaptive_storage small map_based_storage)
          (make small map_based_storage threshold [] [])
          script in
      (subscribed_after m t false calls ≡ has_pair m t (query_content small map_based_storage last))
      × Distinct (query_content small map_based_storage last)
unfolding make query_content has_pair adaptive-StorageLaws
mboxes_in_step sort is_sort threshold script m t =
    let small = vector_based_storage sort in
    let laws =
      adaptive-StorageLaws small map_based_storage (vector_based-StorageLaws sort is_sort)
        map_based-StorageLaws in
    let (valid, step) =
      follows (adaptive_storage small map_based_storage) laws script
        (make small map_based_storage threshold [] [])
        (record { small_valid = tt; large_valid = tt; idle = refl }) in
    (step m t, laws.distinct _ valid)
