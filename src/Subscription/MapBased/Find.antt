-- ===== src/Subscription/MapBased/Find.antt =====
-- Looking a key up in the map, and the neighbours of a place.
use sobjectizer.Base.{
  ℕ, ◌≡◌, refl, sym, ap, subst, ◌∙◌, true, none, some, List, [], ◌∷◌, ◌++◌, arith, Option-cases,
  Bool-cases, inl, inr,
}
use sobjectizer.Subscription.Iface.{
  SubscrInfo, EventHandlerData, same_key, lookup, has_pair, Distinct,
}
use sobjectizer.Subscription.MapBased.{
  lower_bound, Position, find_at, find, find_handler, last_same, head_same,
}
use sobjectizer.Subscription.MapBased.Order.{
  AllBelow, AllAbove, IsSorted, lower_bound-append, lower_bound-AllBelow, find-none-AllAbove,
}

pub lookup-AllAbove : (m t k : ℕ) (l : List SubscrInfo) → AllAbove m t k l → lookup m t k l ≡ none
unfolding lookup
lookup-AllAbove m t k [] a = refl
lookup-AllAbove m t k (o ∷ os) a = ground (arith, lookup-AllAbove m t k os a.1)

lookup-AllBelow :
    (m t k : ℕ) (b r : List SubscrInfo) → AllBelow m t k b → lookup m t k (b ++ r) ≡ lookup m t k r
unfolding lookup
lookup-AllBelow m t k [] r a = refl
lookup-AllBelow m t k (o ∷ os) r a = ground (arith, lookup-AllBelow m t k os r a.1)

pub Distinct-of_sorted : (l : List SubscrInfo) → IsSorted l → Distinct l
Distinct-of_sorted [] s = tt
Distinct-of_sorted (o ∷ os) s =
    (lookup-AllAbove o.mbox o.msg_type o.state os s.0, Distinct-of_sorted os s.1)

pub find-none :
    (m t k : ℕ) (l : List SubscrInfo) → IsSorted l → find m t k l ≡ none → lookup m t k l ≡ none
find-none m t k l s e =
    ap (lookup m t k) (sym (lower_bound-append m t k l))
    ∙ lookup-AllBelow m t k (lower_bound m t k l).0 (lower_bound m t k l).1
        (lower_bound-AllBelow m t k l)
    ∙ lookup-AllAbove m t k (lower_bound m t k l).1 (find-none-AllAbove m t k l s e)

-- What `find` says of the list where it finds.
pub record At (m t k : ℕ) (l : List SubscrInfo) (p : Position) : Type 0 where
  pub split : p.before ++ p.item ∷ p.rest ≡ l
  pub key : same_key m t k p.item ≡ true
  pub below : AllBelow m t k p.before

find_at-some :
    (m t k : ℕ) (b r : List SubscrInfo) (p : Position)
    → AllBelow m t k b
    → find_at m t k b r ≡ some p
    → At m t k (b ++ r) p
unfolding find_at
find_at-some m t k b [] p a e = cc
find_at-some m t k b (o ∷ r) p a e = elim (Bool-cases (same_key m t k o)) [
  | inl hit ↦
      let same : record { before = b; item = o; rest = r } ≡ p = ground arith in
      subst (At m t k (b ++ o ∷ r)) same (record { split = refl; key = hit; below = a })
  | inr miss ↦ absurd (ground arith)
]

pub find-some :
    (m t k : ℕ) (l : List SubscrInfo) (p : Position) → find m t k l ≡ some p → At m t k l p
unfolding find
find-some m t k l p e =
    subst (λ x. At m t k x p) (lower_bound-append m t k l)
      (find_at-some m t k (lower_bound m t k l).0 (lower_bound m t k l).1 p
        (lower_bound-AllBelow m t k l) e)

lookup-At :
    (m t k : ℕ) (l : List SubscrInfo) (p : Position)
    → At m t k l p
    → lookup m t k l ≡ some p.item.handler
unfolding lookup
lookup-At m t k l p a =
    ap (lookup m t k) (sym a.split)
    ∙ lookup-AllBelow m t k p.before (p.item ∷ p.rest) a.below
    ∙ ground (arith, a.key)

pub find_law :
    (s : List SubscrInfo) (m t k : ℕ) → IsSorted s → find_handler m t k s ≡ lookup m t k s
unfolding find_handler
find_law s m t k v = elim (Option-cases (find m t k s)) [
  | inl e ↦ rw (e, find_handler) (sym (find-none m t k s v e))
  | inr (p, e) ↦ rw (e, find_handler) (sym (lookup-At m t k s p (find-some m t k s p e)))
]

pub find_known :
    (m t k : ℕ) (l : List SubscrInfo) (h : EventHandlerData)
    → IsSorted l
    → lookup m t k l ≡ some h
    → (p : Position) × (find m t k l ≡ some p)
find_known m t k l h s e = elim (Option-cases (find m t k l)) [
  | inl none_found ↦ absurd (ground (arith, find-none m t k l s none_found))
  | inr found ↦ found
]

pub find_new : (m t k : ℕ) (l : List SubscrInfo) → lookup m t k l ≡ none → find m t k l ≡ none
find_new m t k l e = elim (Option-cases (find m t k l)) [
  | inl none_found ↦ none_found
  | inr (p, found) ↦ absurd (ground (arith, lookup-At m t k l p (find-some m t k l p found)))
]

-- The neighbour behind a place tells of all that stands behind it.
pub head_same_lem :
    (m t k : ℕ) (r : List SubscrInfo)
    → AllAbove m t k r
    → IsSorted r
    → head_same m t r ≡ has_pair m t r
unfolding head_same has_pair
head_same_lem m t k [] a s = refl
head_same_lem m t k (o ∷ []) a s = ground arith
head_same_lem m t k (o ∷ p ∷ r) a s = ground (
  arith,
  head_same_lem o.mbox o.msg_type o.state (p ∷ r) s.0 s.1,
  head_same_lem m t k (p ∷ r) a.1 s.1,
)

-- The neighbour before a place tells of all that stands before it.
pub last_same_lem :
    (m t k : ℕ) (b : List SubscrInfo)
    → AllBelow m t k b
    → IsSorted b
    → last_same m t b ≡ has_pair m t b
unfolding last_same has_pair
last_same_lem m t k [] a s = refl
last_same_lem m t k (o ∷ []) a s = ground arith
last_same_lem m t k (o ∷ p ∷ b) a s = ground (arith, last_same_lem m t k (p ∷ b) a.1 s.1)
