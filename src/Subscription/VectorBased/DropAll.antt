-- ===== src/Subscription/VectorBased/DropAll.antt =====
-- Dropping the vector's subscriptions for a pair, and all of them.
use mathlib.Core.Bool.{Bool-set}
use mathlib.Core.Logic.{∥∥₁_elim}
use mathlib.Core.List.{Perm, Permᴰ}
use sobjectizer.Base.{
  ℕ, ◌+◌, ◌≡◌, refl, ◌∙◌, Bool, true, false, ◌&&◌, ◌||◌, none, List, [], ◌∷◌, ◌==◌, if◌then◌else◌,
  ltb, arith, Option-cases, inl, inr,
}
use sobjectizer.Subscription.Iface.{
  SubscrInfo, MboxCall, subscribe_event_handler, unsubscribe_event_handler, lookup, has_pair,
  Distinct, subscribed_after, InStep, Answers,
}
use sobjectizer.Subscription.VectorBased.{
  first_same, remove_same, erase_same, drop_subscription_for_all_states, unsubscribe_after,
  unsubscribe_runs, destroy_all_subscriptions,
}

erase_same_lem : (m t : ℕ) (l : List SubscrInfo) → erase_same m t l ≡ remove_same m t l
unfolding erase_same remove_same
erase_same_lem m t [] = refl
erase_same_lem m t (o ∷ os) = ground (arith, erase_same_lem m t os)

pub lookup-remove_same :
    (m t : ℕ) (l : List SubscrInfo) (m' t' k : ℕ)
    → lookup m' t' k (remove_same m t l)
      ≡ (if (m == m') && (t == t') then none else lookup m' t' k l)
unfolding remove_same lookup
lookup-remove_same m t [] m' t' k = ground arith
lookup-remove_same m t (o ∷ os) m' t' k = ground (arith, lookup-remove_same m t os m' t' k)

pub has_pair-remove_same :
    (m t : ℕ) (l : List SubscrInfo) (m' t' : ℕ)
    → has_pair m' t' (remove_same m t l)
      ≡ (if (m == m') && (t == t') then false else has_pair m' t' l)
unfolding remove_same has_pair
has_pair-remove_same m t [] m' t' = ground arith
has_pair-remove_same m t (o ∷ os) m' t' = ground (arith, has_pair-remove_same m t os m' t')

pub Distinct-remove_same :
    (m t : ℕ) (l : List SubscrInfo) → Distinct l → Distinct (remove_same m t l)
unfolding remove_same
Distinct-remove_same m t [] d = tt
Distinct-remove_same m t (o ∷ os) d =
    ground
      (arith, Distinct-remove_same m t os d.1, lookup-remove_same m t os o.mbox o.msg_type o.state)

first_same-none :
    (m t : ℕ) (l : List SubscrInfo)
    → first_same m t l ≡ none
    → (remove_same m t l ≡ l) × (has_pair m t l ≡ false)
unfolding first_same remove_same has_pair
first_same-none m t [] e = (refl, refl)
first_same-none m t (o ∷ os) e = ground (arith, first_same-none m t os)

drop_same :
    (m t sink : ℕ) (s : List SubscrInfo)
    → Distinct s
    → Distinct (remove_same m t s)
      × Answers s (λ m' t' k'. (m == m') && (t == t')) none (remove_same m t s)
      × InStep s (unsubscribe_event_handler m t sink ∷ []) (remove_same m t s)
unfolding subscribed_after
drop_same m t sink s d = (
  Distinct-remove_same m t s d,
  (λ m' t' k'. lookup-remove_same m t s m' t' k'),
  (λ m' t'. ground (arith, has_pair-remove_same m t s m' t')),
)

pub drop_for_all_states_law :
    (m t : ℕ) (s : List SubscrInfo)
    → Distinct s
    → let (s', calls) = drop_subscription_for_all_states m t s in
      Distinct s' × Answers s (λ m' t' k'. (m == m') && (t == t')) none s' × InStep s calls s'
unfolding drop_subscription_for_all_states subscribed_after
drop_for_all_states_law m t s d = elim (Option-cases (first_same m t s)) [
  | inl e ↦
      rw (e, drop_subscription_for_all_states)
        (
          d,
          (λ m' t' k'. ground (arith, first_same-none m t s e, lookup-remove_same m t s m' t' k')),
          (λ m' t'. refl),
        )
  | inr (o, e) ↦
      rw (e, drop_subscription_for_all_states)
        (rw (erase_same_lem m t s) (drop_same m t o.message_sink s d))
]

-- `comp` of the `std::sort` call: by the mbox and then by the type.
abbrev pub pair_less : ℕ → ℕ → ℕ → ℕ → Bool
pair_less m t m' t' = ltb m m' || ((m == m') && ltb t t')

-- No element is less than the pair.
abbrev pub NoneLess : ℕ → ℕ → List SubscrInfo → Type 0
NoneLess m t [] = Unit
NoneLess m t (p ∷ ps) = (pair_less p.mbox p.msg_type m t ≡ false) × NoneLess m t ps

abbrev pub IsSorted : List SubscrInfo → Type 0
IsSorted [] = Unit
IsSorted (o ∷ os) = NoneLess o.mbox o.msg_type os × IsSorted os

-- What is documented of `std::sort`: a permutation, in which no element is less than one before it.
pub record IsSort (sort : List SubscrInfo → List SubscrInfo) : Type 0 where
  pub permutes : (l : List SubscrInfo) → Perm (sort l) l
  pub sorts : (l : List SubscrInfo) → IsSorted (sort l)

has_pair-permᴰ :
    (m t : ℕ) {xs ys : List SubscrInfo} → Permᴰ xs ys → has_pair m t xs ≡ has_pair m t ys
unfolding has_pair
has_pair-permᴰ m t Permᴰ.nil = refl
has_pair-permᴰ m t (Permᴰ.cons e d) = rw (e, has_pair-permᴰ m t d)
has_pair-permᴰ m t (Permᴰ.swap {a} {b} {l} p q) = rw (p, q) (ground arith)
has_pair-permᴰ m t (Permᴰ.trans d e) = has_pair-permᴰ m t d ∙ has_pair-permᴰ m t e

has_pair-perm : (m t : ℕ) {xs ys : List SubscrInfo} → Perm xs ys → has_pair m t xs ≡ has_pair m t ys
has_pair-perm m t p = ∥∥₁_elim p (Bool-set _ _) (λ d. has_pair-permᴰ m t d)

-- How often the mbox is told to drop the type.
unfoldable pub unsubscriptions : ℕ → ℕ → List MboxCall → ℕ
unsubscriptions m t [] = 0
unsubscriptions m t (subscribe_event_handler m' t' sink ∷ calls) = unsubscriptions m t calls
unsubscriptions m t (unsubscribe_event_handler m' t' sink ∷ calls) =
    (if (m' == m) && (t' == t) then 1 else 0) + unsubscriptions m t calls

abbrev pub once : Bool → ℕ
once b = if b then 1 else 0

-- A pair below the head of a sorted list is not in it.
absent :
    (a b m t : ℕ) (l : List SubscrInfo)
    → pair_less a b m t ≡ true
    → NoneLess m t l
    → has_pair a b l ≡ false
unfolding has_pair
absent a b m t [] h n = refl
absent a b m t (o ∷ os) h n = ground (arith, absent a b m t os h n.1)

unsubscriptions-after :
    (m t a b : ℕ) (l : List SubscrInfo)
    → NoneLess a b l
    → IsSorted l
    → unsubscriptions m t (unsubscribe_after a b l)
      ≡ (if (a == m) && (b == t) then 0 else once (has_pair m t l))
unfolding unsubscriptions unsubscribe_after has_pair
unsubscriptions-after m t a b [] n s = ground arith
unsubscriptions-after m t a b (o ∷ os) n s =
    ground (
      arith,
      unsubscriptions-after m t o.mbox o.msg_type os s.0 s.1,
      absent a b o.mbox o.msg_type os,
    )

unsubscriptions-runs :
    (m t : ℕ) (l : List SubscrInfo)
    → IsSorted l
    → unsubscriptions m t (unsubscribe_runs l) ≡ once (has_pair m t l)
unfolding unsubscriptions unsubscribe_runs has_pair
unsubscriptions-runs m t [] s = refl
unsubscriptions-runs m t (o ∷ os) s =
    ground (arith, unsubscriptions-after m t o.mbox o.msg_type os s.0 s.1)

subscribed_after-after :
    (m t a b : ℕ) (before : Bool) (l : List SubscrInfo)
    → subscribed_after m t before (unsubscribe_after a b l)
      ≡ (before && (unsubscriptions m t (unsubscribe_after a b l) == 0))
unfolding subscribed_after unsubscriptions unsubscribe_after
subscribed_after-after m t a b before [] = ground arith
subscribed_after-after m t a b before (o ∷ os) = ground (
  arith,
  subscribed_after-after m t o.mbox o.msg_type before os,
  subscribed_after-after m t o.mbox o.msg_type false os,
)

subscribed_after-runs :
    (m t : ℕ) (before : Bool) (l : List SubscrInfo)
    → subscribed_after m t before (unsubscribe_runs l)
      ≡ (before && (unsubscriptions m t (unsubscribe_runs l) == 0))
unfolding subscribed_after unsubscriptions unsubscribe_runs
subscribed_after-runs m t before [] = ground arith
subscribed_after-runs m t before (o ∷ os) = ground (
  arith,
  subscribed_after-after m t o.mbox o.msg_type before os,
  subscribed_after-after m t o.mbox o.msg_type false os,
)

module _ (sort : List SubscrInfo → List SubscrInfo) (is_sort : IsSort sort) where
  -- With a sort as documented, destroying all subscriptions empties the vector and tells the mbox of
  -- each pair that had some, and no other, to drop the type, exactly once.
  pub destroy_all_once :
      (s : List SubscrInfo) (m t : ℕ)
      → let (s', calls) = destroy_all_subscriptions sort s in
        (s' ≡ []) × (unsubscriptions m t calls ≡ (if has_pair m t s then 1 else 0))
  unfolding destroy_all_subscriptions unsubscriptions has_pair
  destroy_all_once [] m t = (refl, refl)
  destroy_all_once (o ∷ os) m t = (
    refl,
    rw (← has_pair-perm m t (is_sort.permutes (o ∷ os)))
        (unsubscriptions-runs m t (sort (o ∷ os)) (is_sort.sorts (o ∷ os))),
  )

  emptied :
      (s sorted : List SubscrInfo) (m t : ℕ)
      → unsubscriptions m t (unsubscribe_runs sorted) ≡ once (has_pair m t s)
      → subscribed_after m t (has_pair m t s) (unsubscribe_runs sorted) ≡ false
  emptied s sorted m t h = ground (arith, subscribed_after-runs m t (has_pair m t s) sorted)

  pub drop_all_law :
      (s : List SubscrInfo)
      → let (s', calls) = destroy_all_subscriptions sort s in
        Distinct s' × (s' ≡ []) × InStep s calls []
  unfolding destroy_all_subscriptions subscribed_after has_pair
  drop_all_law [] = (tt, refl, (λ m t. refl))
  drop_all_law (o ∷ os) =
      (tt, refl, (λ m t. emptied (o ∷ os) (sort (o ∷ os)) m t (destroy_all_once (o ∷ os) m t).1))
