-- ===== src/Subscription/VectorBased/Drop.antt =====
-- Dropping one subscription of the vector, or those of a pair in all states.
use sobjectizer.Base.{
  ℕ, ◌+◌, ◌≤◌, ◌≡◌, refl, true, false, ◌&&◌, ◌||◌, none, some, List, [], ◌∷◌, ◌++◌, ◌==◌, ltb,
  if◌then◌else◌, arith, Option-cases, Bool-cases, inl, inr,
}
use sobjectizer.Subscription.Iface.{
  SubscrInfo, MboxCall, unsubscribe_event_handler, same_pair, same_key, lookup, has_pair, Distinct,
  subscribed_after, InStep, Answers,
}
use sobjectizer.Subscription.Lists.{lookup-remove, has_pair-middle, Distinct-remove}
use sobjectizer.Subscription.VectorBased.{
  Found, locate, number_left, drop_subscription, find, find_handler,
}

pub find_law : (s : List SubscrInfo) (m t k : ℕ) → find_handler m t k s ≡ lookup m t k s
unfolding find_handler find lookup
find_law [] m t k = refl
find_law (o ∷ s) m t k = ground (arith, find_law s m t k)

-- What `locate` says of the list that it went through.
pub record Located (m t k n : ℕ) (l : List SubscrInfo) (f : Found) : Type 0 where
  pub split : l ≡ f.before ++ f.item ∷ f.rest
  pub key : same_key m t k f.item ≡ true
  pub counted : ltb (n + 1) f.number_of_subscriptions ≡ has_pair m t f.before
  pub least : n + 1 ≤ f.number_of_subscriptions

locate-none : (m t k n : ℕ) (l : List SubscrInfo) → locate m t k n l ≡ none → lookup m t k l ≡ none
unfolding locate lookup
locate-none m t k n [] e = refl
locate-none m t k n (o ∷ os) e =
    ground (arith, locate-none m t k (if same_pair m t o then n + 1 else n) os)

locate-some :
    (m t k n : ℕ) (l : List SubscrInfo) (f : Found)
    → locate m t k n l ≡ some f
    → Located m t k n l f
unfolding locate has_pair
locate-some m t k n [] f e = cc
locate-some m t k n (o ∷ os) f e = elim (Bool-cases (same_key m t k o)) [
  | inl hit ↦ ground arith
  | inr miss ↦ elim (Option-cases (locate m t k (if same_pair m t o then n + 1 else n) os)) [
    | inl gone ↦ absurd (ground arith)
    | inr (f', e') ↦
        ground (arith, locate-some m t k (if same_pair m t o then n + 1 else n) os f' e')
  ]
]

same_key_fields :
    (m t k : ℕ) (o : SubscrInfo)
    → same_key m t k o ≡ true
    → (o.mbox ≡ m) × (o.msg_type ≡ t) × (o.state ≡ k)
same_key_fields m t k o h = ground arith

pub has_pair-append :
    (m t : ℕ) (xs ys : List SubscrInfo)
    → has_pair m t (xs ++ ys) ≡ (has_pair m t xs || has_pair m t ys)
unfolding has_pair
has_pair-append m t [] ys = refl
has_pair-append m t (x ∷ xs) ys = ground (arith, has_pair-append m t xs ys)

-- The count is 0 exactly if no other subscription for the pair is left.
number_left_lem :
    (m t k : ℕ) (l : List SubscrInfo) (f : Found)
    → Located m t k 0 l f
    → (number_left m t f == 0) ≡ (if has_pair m t (f.before ++ f.rest) then false else true)
unfolding number_left
number_left_lem m t k l f v = ground (arith, has_pair-append m t f.before f.rest)

DropLaw : (m t k : ℕ) (s s' : List SubscrInfo) (calls : List MboxCall) → Type 0
DropLaw m t k s s' calls =
    Distinct s'
    × Answers s (λ m' t' k'. (m == m') && ((t == t') && (k == k'))) none s'
    × InStep s calls s'

drop_found :
    (m t k : ℕ) (s : List SubscrInfo) (f : Found)
    → Distinct s
    → Located m t k 0 s f
    → DropLaw m t k s (f.before ++ f.rest) (
        if number_left m t f == 0
        then unsubscribe_event_handler m t f.item.message_sink ∷ []
        else [])
unfolding DropLaw subscribed_after
drop_found m t k s f d v =
    let d' : Distinct (f.before ++ f.item ∷ f.rest) = rw (← v.split) d in
    (
      (Distinct-remove f.item f.before f.rest d').0,
      (λ m' t' k'. ground (
        arith,
        v.split,
        same_key_fields m t k f.item v.key,
        lookup-remove f.item f.before f.rest m' t' k' d',
      )),
      (λ m' t'. ground (
        arith,
        v.split,
        same_key_fields m t k f.item v.key,
        number_left_lem m t k s f v,
        has_pair-middle f.item f.before f.rest m' t',
      )),
    )

drop_none :
    (m t k : ℕ) (s : List SubscrInfo) → Distinct s → lookup m t k s ≡ none → DropLaw m t k s s []
unfolding DropLaw subscribed_after
drop_none m t k s d e = (d, (λ m' t' k'. ground arith), (λ m' t'. refl))

pub drop_law :
    (m t k : ℕ) (s : List SubscrInfo)
    → Distinct s
    → let (s', calls) = drop_subscription m t k s in
      Distinct s'
      × Answers s (λ m' t' k'. (m == m') && ((t == t') && (k == k'))) none s'
      × InStep s calls s'
unfolding drop_subscription DropLaw
drop_law m t k s d = elim (Option-cases (locate m t k 0 s)) [
  | inl e ↦ rw (e, drop_subscription) (drop_none m t k s d (locate-none m t k 0 s e))
  | inr (f, e) ↦ rw (e, drop_subscription) (drop_found m t k s f d (locate-some m t k 0 s f e))
]
