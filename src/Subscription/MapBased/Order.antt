-- ===== src/Subscription/MapBased/Order.antt =====
-- The order of the map's keys, and the place where a key belongs.
use sobjectizer.Base.{
  ℕ, ◌≡◌, refl, true, false, ◌&&◌, none, List, [], ◌∷◌, ◌++◌, ◌==◌, arith, Bool-cases, inl, inr,
}
use sobjectizer.Subscription.Iface.{SubscrInfo}
use sobjectizer.Subscription.MapBased.{key_less, lower_bound, find_at, find}

abbrev pub AllBelow : ℕ → ℕ → ℕ → List SubscrInfo → Type 0
AllBelow m t k [] = Unit
AllBelow m t k (o ∷ os) = (key_less o.mbox o.msg_type o.state m t k ≡ true) × AllBelow m t k os

abbrev pub AllAbove : ℕ → ℕ → ℕ → List SubscrInfo → Type 0
AllAbove m t k [] = Unit
AllAbove m t k (o ∷ os) = (key_less m t k o.mbox o.msg_type o.state ≡ true) × AllAbove m t k os

-- The map's invariant: the keys rise strictly.
abbrev pub IsSorted : List SubscrInfo → Type 0
IsSorted [] = Unit
IsSorted (o ∷ os) = AllAbove o.mbox o.msg_type o.state os × IsSorted os

key_less_trans :
    (a b c d e f g h i : ℕ)
    → key_less a b c d e f ≡ true
    → key_less d e f g h i ≡ true
    → key_less a b c g h i ≡ true
key_less_trans a b c d e f g h i p q = ground arith

pub AllAbove-trans :
    (m t k m' t' k' : ℕ) (l : List SubscrInfo)
    → key_less m t k m' t' k' ≡ true
    → AllAbove m' t' k' l
    → AllAbove m t k l
AllAbove-trans m t k m' t' k' [] h a = tt
AllAbove-trans m t k m' t' k' (o ∷ os) h a = (
  key_less_trans m t k m' t' k' o.mbox o.msg_type o.state h a.0,
  AllAbove-trans m t k m' t' k' os h a.1,
)

pub lower_bound-append :
    (m t k : ℕ) (l : List SubscrInfo) → (lower_bound m t k l).0 ++ (lower_bound m t k l).1 ≡ l
unfolding lower_bound
lower_bound-append m t k [] = refl
lower_bound-append m t k (o ∷ os) = ground (arith, lower_bound-append m t k os)

pub lower_bound-AllBelow :
    (m t k : ℕ) (l : List SubscrInfo) → AllBelow m t k (lower_bound m t k l).0
unfolding lower_bound
lower_bound-AllBelow m t k [] = tt
lower_bound-AllBelow m t k (o ∷ os) = ground (arith, lower_bound-AllBelow m t k os)

above_of_not_below :
    (m t k m' t' k' : ℕ)
    → key_less m t k m' t' k' ≡ false
    → ((m == m') && ((t == t') && (k == k'))) ≡ false
    → key_less m' t' k' m t k ≡ true
above_of_not_below m t k m' t' k' p q = ground arith

-- A key that is not found belongs between the two parts.
pub find-none-AllAbove :
    (m t k : ℕ) (l : List SubscrInfo)
    → IsSorted l
    → find m t k l ≡ none
    → AllAbove m t k (lower_bound m t k l).1
unfolding find find_at lower_bound
find-none-AllAbove m t k [] s e = tt
find-none-AllAbove m t k (o ∷ os) s e =
    elim (Bool-cases (key_less o.mbox o.msg_type o.state m t k)) [
      | inl below ↦ rw (below, lower_bound) (find-none-AllAbove m t k os s.1 (ground arith))
      | inr not_below ↦
          let above : key_less m t k o.mbox o.msg_type o.state ≡ true =
            ground (arith, above_of_not_below o.mbox o.msg_type o.state m t k not_below) in
          rw (not_below, lower_bound)
            (above, AllAbove-trans m t k o.mbox o.msg_type o.state os above s.0)
    ]
