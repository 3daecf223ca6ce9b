-- ===== src/Subscription/MapBased/DropPair.antt =====
-- Dropping the subscriptions of the map for a pair in all states.
use sobjectizer.Base.{
  ℕ, ◌≡◌, refl, sym, ap, subst, ◌∙◌, true, false, ◌&&◌, List, [], ◌∷◌, ◌++◌, ◌==◌, arith,
  append-nil, Bool-cases, inl, inr,
}
use sobjectizer.Subscription.Iface.{
  SubscrInfo, unsubscribe_event_handler, same_pair, subscribed_after,
}
use sobjectizer.Subscription.VectorBased.{remove_same}
use sobjectizer.Subscription.VectorBased.DropAll.{lookup-remove_same, has_pair-remove_same}
use sobjectizer.Subscription.MapBased.{
  key_less, lower_bound, erase_while_same, drop_from, drop_subscription_for_all_states,
}
use sobjectizer.Subscription.MapBased.Order.{
  AllBelow, AllAbove, IsSorted, lower_bound-append, lower_bound-AllBelow,
}
use sobjectizer.Subscription.MapBased.Sorted.{IsSorted-append}
use sobjectizer.Subscription.MapBased.Drop.{DropLaw}

-- No item before the lower bound of `(m, t, 0)` is of the pair.
remove_same-below :
    (m t : ℕ) (b r : List SubscrInfo)
    → AllBelow m t 0 b
    → remove_same m t (b ++ r) ≡ b ++ remove_same m t r
unfolding remove_same
remove_same-below m t [] r a = refl
remove_same-below m t (o ∷ b) r a = ground (arith, remove_same-below m t b r a.1)

-- No item is of the pair where all are above one that is not, and that is not before the pair.
remove_same-above :
    (m t m' t' k' : ℕ) (r : List SubscrInfo)
    → key_less m' t' k' m t 0 ≡ false
    → ((m' == m) && (t' == t)) ≡ false
    → AllAbove m' t' k' r
    → remove_same m t r ≡ r
unfolding remove_same
remove_same-above m t m' t' k' [] h n a = refl
remove_same-above m t m' t' k' (o ∷ r) h n a =
    ground (arith, remove_same-above m t m' t' k' r h n a.1)

NotBelow : ℕ → ℕ → List SubscrInfo → Type 0
NotBelow m t [] = Unit
NotBelow m t (o ∷ r) = key_less o.mbox o.msg_type o.state m t 0 ≡ false

lower_bound-NotBelow : (m t : ℕ) (l : List SubscrInfo) → NotBelow m t (lower_bound m t 0 l).1
unfolding lower_bound NotBelow
lower_bound-NotBelow m t [] = tt
lower_bound-NotBelow m t (o ∷ os) = elim (Bool-cases (key_less o.mbox o.msg_type o.state m t 0)) [
  | inl e ↦ rw (e, lower_bound) (lower_bound-NotBelow m t os)
  | inr e ↦ rw (e, lower_bound) e
]

next-NotBelow :
    (m t : ℕ) (o : SubscrInfo) (r : List SubscrInfo)
    → key_less o.mbox o.msg_type o.state m t 0 ≡ false
    → AllAbove o.mbox o.msg_type o.state r
    → NotBelow m t r
unfolding NotBelow
next-NotBelow m t o [] h a = tt
next-NotBelow m t o (p ∷ r) h a = ground arith

-- From the lower bound on, the erased run is all that is of the pair.
erase_while_same_lem :
    (m t : ℕ) (r : List SubscrInfo)
    → NotBelow m t r
    → IsSorted r
    → erase_while_same m t r ≡ remove_same m t r
unfolding erase_while_same remove_same NotBelow
erase_while_same_lem m t [] n s = refl
erase_while_same_lem m t (o ∷ r) n s = ground (
  arith,
  erase_while_same_lem m t r (next-NotBelow m t o r n s.0) s.1,
  remove_same-above m t o.mbox o.msg_type o.state r n,
)

AllAbove-remove_same :
    (m t a b c : ℕ) (l : List SubscrInfo) → AllAbove a b c l → AllAbove a b c (remove_same m t l)
unfolding remove_same
AllAbove-remove_same m t a b c [] h = tt
AllAbove-remove_same m t a b c (o ∷ os) h = ground (arith, AllAbove-remove_same m t a b c os h.1)

IsSorted-remove_same : (m t : ℕ) (l : List SubscrInfo) → IsSorted l → IsSorted (remove_same m t l)
unfolding remove_same
IsSorted-remove_same m t [] s = tt
IsSorted-remove_same m t (o ∷ os) s = ground (
  arith,
  IsSorted-remove_same m t os s.1,
  AllAbove-remove_same m t o.mbox o.msg_type o.state os s.0,
)

module _ (m t : ℕ) (b r : List SubscrInfo) (below : AllBelow m t 0 b) (ahead : NotBelow m t r) where
  whole : IsSorted r → remove_same m t (b ++ r) ≡ b ++ erase_while_same m t r
  whole s =
      remove_same-below m t b r below ∙ ap (λ x. b ++ x) (sym (erase_while_same_lem m t r ahead s))

removed :
    (m t sink : ℕ) (s : List SubscrInfo)
    → IsSorted s
    → DropLaw
        (λ m' t' k'. (m == m') && (t == t'))
        s
        (remove_same m t s, unsubscribe_event_handler m t sink ∷ [])
unfolding subscribed_after
removed m t sink s v = (
  IsSorted-remove_same m t s v,
  (λ m' t' k'. lookup-remove_same m t s m' t' k'),
  (λ m' t'. ground (arith, has_pair-remove_same m t s m' t')),
)

untouched :
    (m t : ℕ) (s : List SubscrInfo)
    → IsSorted s
    → remove_same m t s ≡ s
    → DropLaw (λ m' t' k'. (m == m') && (t == t')) s (s, [])
unfolding subscribed_after
untouched m t s v e =
    (v, (λ m' t' k'. ground (arith, lookup-remove_same m t s m' t' k')), (λ m' t'. refl))

drop_from-nil :
    (m t : ℕ) (b : List SubscrInfo) → (remove_same m t [] ≡ []) × (drop_from m t b [] ≡ (b, []))
unfolding drop_from remove_same
drop_from-nil m t b = (refl, refl)

drop_from-hit :
    (m t : ℕ) (b r : List SubscrInfo) (o : SubscrInfo)
    → same_pair m t o ≡ true
    → drop_from m t b (o ∷ r)
      ≡ (b ++ erase_while_same m t (o ∷ r), unsubscribe_event_handler m t o.message_sink ∷ [])
unfolding drop_from
drop_from-hit m t b r o e = rw e

drop_from-miss :
    (m t : ℕ) (b r : List SubscrInfo) (o : SubscrInfo)
    → same_pair m t o ≡ false
    → (drop_from m t b (o ∷ r) ≡ (b ++ o ∷ r, [])) × (erase_while_same m t (o ∷ r) ≡ o ∷ r)
unfolding drop_from erase_while_same
drop_from-miss m t b r o e = (rw e, rw e)

drop_from-DropLaw :
    (m t : ℕ) (b r : List SubscrInfo)
    → AllBelow m t 0 b
    → NotBelow m t r
    → IsSorted (b ++ r)
    → DropLaw (λ m' t' k'. (m == m') && (t == t')) (b ++ r) (drop_from m t b r)
drop_from-DropLaw m t b [] below ahead s =
    let (none_left, unchanged) = drop_from-nil m t b in
    rw unchanged (
      subst (λ x. DropLaw (λ m' t' k'. (m == m') && (t == t')) (b ++ []) (x, [])) (append-nil b)
        (untouched m t (b ++ []) s (remove_same-below m t b [] below ∙ ap (λ x. b ++ x) none_left)))
drop_from-DropLaw m t b (o ∷ r) below ahead s = elim (Bool-cases (same_pair m t o)) [
  | inl hit ↦
      rw
        (
          drop_from-hit m t b r o hit,
          ← whole m t b (o ∷ r) below ahead (IsSorted-append b (o ∷ r) s).1,
        )
        (removed m t o.message_sink (b ++ o ∷ r) s)
  | inr miss ↦
      let (unchanged, kept) = drop_from-miss m t b r o miss in
      rw unchanged (
        untouched m t (b ++ o ∷ r) s
          (whole m t b (o ∷ r) below ahead (IsSorted-append b (o ∷ r) s).1 ∙ ap (λ x. b ++ x) kept))
]

pub drop_for_all_states_law :
    (m t : ℕ) (s : List SubscrInfo)
    → IsSorted s
    → DropLaw (λ m' t' k'. (m == m') && (t == t')) s (drop_subscription_for_all_states m t s)
unfolding drop_subscription_for_all_states
drop_for_all_states_law m t s v =
    let split = lower_bound-append m t 0 s in
    subst
      (λ x.
        DropLaw (λ m' t' k'. (m == m') && (t == t')) x
          (drop_from m t (lower_bound m t 0 s).0 (lower_bound m t 0 s).1))
      split
      (drop_from-DropLaw m t (lower_bound m t 0 s).0 (lower_bound m t 0 s).1
        (lower_bound-AllBelow m t 0 s) (lower_bound-NotBelow m t s) (rw split v))
