-- ===== src/Subscription/Agreement.antt =====
-- Scripts of calls on a subscription storage: what the agent sees of them, and what the mboxes do.
pub mod Replies
pub mod Mboxes
use sobjectizer.Base.{
  ℕ, ◌≡◌, refl, sym, ap, ap₂, ◌∙◌, inl, inr, ◌⊎◌, Bool, true, false, ◌||◌, ◌&&◌, ◌==◌, Option, none,
  some, List, [], ◌∷◌, ◌++◌, if◌then◌else◌, arith, Bool-cases, Option-cases,
}
use sobjectizer.Subscription.Iface.{
  SubscrInfo, EventHandlerData, MboxCall, Error, same_pair, same_key, lookup, has_pair,
  subscribed_after, StorageOps, Answers, InStep, StorageLaws, subscribe_event_handler,
  unsubscribe_event_handler,
}

pub data StorageCall : Type 0 where
  creates : Bool → SubscrInfo → StorageCall
  drops : ℕ → ℕ → ℕ → StorageCall
  drops_for_all_states : ℕ → ℕ → StorageCall
  drops_all : StorageCall
  finds : ℕ → ℕ → ℕ → StorageCall

-- What a call gives its caller.
pub data Reply : Type 0 where
  created : Option Error → Reply
  dropped : Reply
  found : Option EventHandlerData → Reply

module _ (ops : StorageOps) where
  unfoldable pub perform : StorageCall → ops.Storage → ops.Storage × List MboxCall × Reply
  perform (creates returns o) s =
      let r = ops.create_event_subscription returns o s in (r.storage, r.calls, created r.error)
  perform (drops m t k) s = let (s', calls) = ops.drop_subscription m t k s in (s', calls, dropped)
  perform (drops_for_all_states m t) s =
      let (s', calls) = ops.drop_subscription_for_all_states m t s in (s', calls, dropped)
  perform drops_all s = let (s', calls) = ops.drop_all_subscriptions s in (s', calls, dropped)
  perform (finds m t k) s = (s, [], found (ops.find_handler m t k s))

  -- The replies of a script.
  unfoldable pub replies : ops.Storage → List StorageCall → List Reply
  unfolding perform
  replies s [] = []
  replies s (c ∷ cs) = let (s', calls, reply) = perform c s in reply ∷ replies s' cs

  -- The storage after a script, and the calls that it made on mboxes.
  unfoldable pub perform_all : ops.Storage → List StorageCall → ops.Storage × List MboxCall
  unfolding perform
  perform_all s [] = (s, [])
  perform_all s (c ∷ cs) =
      let (s', calls, reply) = perform c s in
      let (last, later) = perform_all s' cs in (last, calls ++ later)

-- A pair has an entry exactly if some key of the pair has an answer.
some_answer :
    (m t : ℕ) (l : List SubscrInfo)
    → has_pair m t l ≡ true
    → (k : ℕ) × (h : EventHandlerData) × (lookup m t k l ≡ some h)
unfolding has_pair lookup
some_answer m t [] e = absurd (ground arith)
some_answer m t (o ∷ os) e = elim (Bool-cases (same_pair m t o)) [
  | inl p ↦ (o.state, o.handler, ground arith)
  | inr p ↦ let (k, h, e') = some_answer m t os (ground arith) in (k, h, ground arith)
]

answer_has_pair :
    (m t k : ℕ) (h : EventHandlerData) (l : List SubscrInfo)
    → lookup m t k l ≡ some h
    → has_pair m t l ≡ true
unfolding has_pair lookup
answer_has_pair m t k h [] e = absurd (ground arith)
answer_has_pair m t k h (o ∷ os) e = elim (Bool-cases (same_pair m t o)) [
  | inl p ↦ ground arith
  | inr p ↦ let rest = answer_has_pair m t k h os (ground arith) in ground arith
]

has_pair_from :
    (m t : ℕ) (l l' : List SubscrInfo)
    → ((k : ℕ) → lookup m t k l ≡ lookup m t k l')
    → has_pair m t l ≡ true
    → has_pair m t l' ≡ true
has_pair_from m t l l' same e =
    let (k, h, e') = some_answer m t l e in answer_has_pair m t k h l' (sym (same k) ∙ e')

pub same_has_pair :
    (m t : ℕ) (l l' : List SubscrInfo)
    → ((k : ℕ) → lookup m t k l ≡ lookup m t k l')
    → has_pair m t l ≡ has_pair m t l'
same_has_pair m t l l' same =
    let there = has_pair_from m t l l' same in
    let back = has_pair_from m t l' l (λ k. sym (same k)) in
    elim (Bool-cases (has_pair m t l)) [
      | inl e ↦ e ∙ sym (there e)
      | inr e ↦ elim (Bool-cases (has_pair m t l')) [
        | inl e' ↦ back e' ∙ sym e'
        | inr e' ↦ e ∙ sym e'
      ]
    ]
