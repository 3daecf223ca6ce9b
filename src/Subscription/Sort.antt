-- ===== src/Subscription/Sort.antt =====
-- An insertion sort, an instance of the parameter `std::sort`.
use mathlib.Core.List.{Permᴰ}
use sobjectizer.Base.{
  ℕ, ◌≡◌, inl, inr, false, List, [], ◌∷◌, refl, if◌then◌else◌, arith, Bool-cases,
}
use sobjectizer.Subscription.Iface.{SubscrInfo}
use sobjectizer.Subscription.VectorBased.DropAll.{pair_less, NoneLess, IsSorted, IsSort}

unfoldable put : SubscrInfo → List SubscrInfo → List SubscrInfo
put o [] = o ∷ []
put o (p ∷ ps) =
    let rest = put o ps in
    if pair_less p.mbox p.msg_type o.mbox o.msg_type then p ∷ rest else o ∷ p ∷ ps

unfoldable pub insertion_sort : List SubscrInfo → List SubscrInfo
unfolding put
insertion_sort [] = []
insertion_sort (o ∷ os) = put o (insertion_sort os)

same : (l : List SubscrInfo) → Permᴰ l l
same [] = Permᴰ.nil
same (o ∷ os) = Permᴰ.cons refl (same os)

put-Perm : (o : SubscrInfo) (l : List SubscrInfo) → Permᴰ (put o l) (o ∷ l)
unfolding put
put-Perm o [] = same (o ∷ [])
put-Perm o (p ∷ ps) = elim (Bool-cases (pair_less p.mbox p.msg_type o.mbox o.msg_type)) [
  | inl e ↦ rw e (Permᴰ.trans (Permᴰ.cons refl (put-Perm o ps)) (Permᴰ.swap refl refl))
  | inr e ↦ rw e (same (o ∷ p ∷ ps))
]

sort-Perm : (l : List SubscrInfo) → Permᴰ (insertion_sort l) l
unfolding insertion_sort
sort-Perm [] = Permᴰ.nil
sort-Perm (o ∷ os) = Permᴰ.trans (put-Perm o (insertion_sort os)) (Permᴰ.cons refl (sort-Perm os))

put-NoneLess :
    (m t : ℕ) (o : SubscrInfo) (l : List SubscrInfo)
    → pair_less o.mbox o.msg_type m t ≡ false
    → NoneLess m t l
    → NoneLess m t (put o l)
unfolding put
put-NoneLess m t o [] h n = (h, tt)
put-NoneLess m t o (p ∷ ps) h n =
    elim (Bool-cases (pair_less p.mbox p.msg_type o.mbox o.msg_type)) [
      | inl e ↦ rw e (n.0, put-NoneLess m t o ps h n.1)
      | inr e ↦ rw e (h, n)
    ]

NoneLess-below :
    (m t m' t' : ℕ) (l : List SubscrInfo)
    → pair_less m' t' m t ≡ false
    → NoneLess m' t' l
    → NoneLess m t l
NoneLess-below m t m' t' [] h n = tt
NoneLess-below m t m' t' (p ∷ ps) h n =
    let below = n.0 in (ground arith, NoneLess-below m t m' t' ps h n.1)

put-IsSorted : (o : SubscrInfo) (l : List SubscrInfo) → IsSorted l → IsSorted (put o l)
unfolding put
put-IsSorted o [] s = (tt, tt)
put-IsSorted o (p ∷ ps) s = elim (Bool-cases (pair_less p.mbox p.msg_type o.mbox o.msg_type)) [
  | inl e ↦ rw e (put-NoneLess p.mbox p.msg_type o ps (ground arith) s.0, put-IsSorted o ps s.1)
  | inr e ↦ rw e ((e, NoneLess-below o.mbox o.msg_type p.mbox p.msg_type ps e s.0), s)
]

sort-IsSorted : (l : List SubscrInfo) → IsSorted (insertion_sort l)
unfolding insertion_sort
sort-IsSorted [] = tt
sort-IsSorted (o ∷ os) = put-IsSorted o (insertion_sort os) (sort-IsSorted os)

pub insertion_sort-IsSort : IsSort insertion_sort
insertion_sort-IsSort = record { permutes = λ l. ∣ sort-Perm l ∣₁; sorts = sort-IsSorted }
