-- ===== src/Subscription/MapBased/Drop.antt =====
-- Dropping one subscription of the map, or those of a pair in all states.
use sobjectizer.Base.{
  ℕ, ◌≡◌, refl, Bool, true, ◌&&◌, none, some, List, [], ◌∷◌, ◌++◌, ◌==◌, if◌then◌else◌, arith,
  Option-cases, inl, inr,
}
use sobjectizer.Subscription.Iface.{
  SubscrInfo, MboxCall, unsubscribe_event_handler, same_key, lookup, has_pair, subscribed_after,
  InStep, Answers,
}
use sobjectizer.Subscription.Lists.{lookup-remove, has_pair-middle}
use sobjectizer.Subscription.MapBased.{Position, find, drop_subscription}
use sobjectizer.Subscription.MapBased.Order.{IsSorted}
use sobjectizer.Subscription.MapBased.Sorted.{IsSorted-remove}
use sobjectizer.Subscription.MapBased.Find.{Distinct-of_sorted, find-none, At, find-some}
use sobjectizer.Subscription.MapBased.Create.{is_known_mbox_msg_pair_lem}

-- What a drop of the keys that `changed` picks does.
abbrev pub DropLaw : (ℕ → ℕ → ℕ → Bool) → List SubscrInfo → List SubscrInfo × List MboxCall → Type 0
DropLaw changed s (s', calls) = IsSorted s' × Answers s changed none s' × InStep s calls s'

same_key_fields :
    (m t k : ℕ) (o : SubscrInfo)
    → same_key m t k o ≡ true
    → (o.mbox ≡ m) × (o.msg_type ≡ t) × (o.state ≡ k)
same_key_fields m t k o h = ground arith

-- The outcome of a drop, told by what the contents have.
dropped : ℕ → ℕ → Position → List SubscrInfo × List MboxCall
dropped m t p = (
  p.before ++ p.rest,
  (if has_pair p.item.mbox p.item.msg_type (p.before ++ p.rest)
      then []
      else unsubscribe_event_handler m t p.item.message_sink ∷ []),
)

drop_at :
    (m t k : ℕ) (s : List SubscrInfo) (p : Position)
    → IsSorted s
    → find m t k s ≡ some p
    → drop_subscription m t k s ≡ dropped m t p
unfolding drop_subscription dropped
drop_at m t k s p v e =
    let found = find-some m t k s p e in
    let (rest, below, above) = IsSorted-remove p.item p.before p.rest (rw found.split v) in
    rw (
      e,
      drop_subscription,
      is_known_mbox_msg_pair_lem p.item.mbox p.item.msg_type p.item.state p.before p.rest below
          above rest,
    )

dropped-DropLaw :
    (m t k : ℕ) (s : List SubscrInfo) (p : Position)
    → IsSorted s
    → At m t k s p
    → DropLaw (λ m' t' k'. (m == m') && ((t == t') && (k == k'))) s (dropped m t p)
unfolding dropped subscribed_after
dropped-DropLaw m t k s p v found =
    let sorted : IsSorted (p.before ++ p.item ∷ p.rest) = rw found.split v in
    (
      (IsSorted-remove p.item p.before p.rest sorted).0,
      (λ m' t' k'. ground (
        arith,
        found.split,
        same_key_fields m t k p.item found.key,
        lookup-remove p.item p.before p.rest m' t' k' (Distinct-of_sorted _ sorted),
      )),
      (λ m' t'. ground (
        arith,
        found.split,
        same_key_fields m t k p.item found.key,
        has_pair-middle p.item p.before p.rest m' t',
      )),
    )

drop_none :
    (m t k : ℕ) (s : List SubscrInfo)
    → IsSorted s
    → lookup m t k s ≡ none
    → DropLaw (λ m' t' k'. (m == m') && ((t == t') && (k == k'))) s (s, [])
unfolding subscribed_after
drop_none m t k s v e = (v, (λ m' t' k'. ground arith), (λ m' t'. refl))

pub drop_law :
    (m t k : ℕ) (s : List SubscrInfo)
    → IsSorted s
    → DropLaw (λ m' t' k'. (m == m') && ((t == t') && (k == k'))) s (drop_subscription m t k s)
unfolding drop_subscription
drop_law m t k s v = elim (Option-cases (find m t k s)) [
  | inl e ↦ rw (e, drop_subscription) (drop_none m t k s v (find-none m t k s v e))
  | inr (p, e) ↦ rw (drop_at m t k s p v e) (dropped-DropLaw m t k s p v (find-some m t k s p e))
]
