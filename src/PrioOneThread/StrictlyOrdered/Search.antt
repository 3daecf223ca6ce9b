-- ===== src/PrioOneThread/StrictlyOrdered/Search.antt =====
-- Searching the subqueues from the highest priority down.
use sobjectizer.Base.{
  ℕ, zero, suc, ◌<◌, ◌≡◌, inl, inr, true, false, some, is_nil, ◌==◌, arith, Bool-cases,
  Option-cases,
}
use sobjectizer.PrioOneThread.StrictlyOrdered.{Subqueue, update, raised, next_below}

pub next_below-bound : {A : Type 0} (f : ℕ → Subqueue A) (n c : ℕ) → next_below f n ≡ some c → c < n
unfolding next_below
next_below-bound f zero c e = absurd (ground arith)
next_below-bound f (suc n) c e = elim (Bool-cases (is_nil (f n).demands)) [
  | inl h ↦ let below = next_below-bound f n c (ground arith) in omega arith
  | inr h ↦ ground arith
]

-- What the search finds has demands, and is found again when it is the first looked at.
pub next_below-filled :
    {A : Type 0} (f : ℕ → Subqueue A) (n c : ℕ)
    → next_below f n ≡ some c
    → is_nil (f c).demands ≡ false
unfolding next_below
next_below-filled f zero c e = absurd (ground arith)
next_below-filled f (suc n) c e = elim (Bool-cases (is_nil (f n).demands)) [
  | inl h ↦ next_below-filled f n c (ground arith)
  | inr h ↦ ground arith
]

-- All above what the search finds are empty.
pub above_empty :
    {A : Type 0} (f : ℕ → Subqueue A) (n c i : ℕ)
    → next_below f n ≡ some c
    → c < i
    → i < n
    → is_nil (f i).demands ≡ true
unfolding next_below
above_empty f zero c i e lo hi = absurd (omega arith)
above_empty f (suc n) c i e lo hi = elim (Bool-cases (is_nil (f n).demands)) [
  | inl h ↦ elim (Bool-cases (i == n)) [
    | inl j ↦ ground arith
    | inr j ↦ above_empty f n c i (ground arith) lo (ground arith)
  ]
  | inr h ↦ ground arith
]

-- A subqueue that gets a demand is found if it is above what was found before.
pub next_below-update :
    {A : Type 0} (f : ℕ → Subqueue A) (n p : ℕ) (x : Subqueue A)
    → p < n
    → is_nil x.demands ≡ false
    → next_below (update f p x) n ≡ raised (next_below f n) p
unfolding next_below
next_below-update f zero p x b h = absurd (omega arith)
next_below-update f (suc n) p x b h = elim (Bool-cases (n == p)) [
  | inl j ↦ elim (Option-cases (next_below f n)) [
    | inl e ↦ ground arith
    | inr (c, e) ↦ let below = next_below-bound f n c e in ground arith
  ]
  | inr j ↦
      let rest = next_below-update f n p x (ground arith) h in
      elim (Bool-cases (is_nil (f n).demands)) [ inl k ↦ ground arith | inr k ↦ ground arith ]
]

-- Where the subqueue that was found gets empty, the search can go on from there.
pub next_below-emptied :
    {A : Type 0} (f : ℕ → Subqueue A) (n c : ℕ) (x : Subqueue A)
    → next_below f n ≡ some c
    → is_nil x.demands ≡ true
    → next_below (update f c x) n ≡ next_below (update f c x) c
unfolding next_below
next_below-emptied f zero c x e h = absurd (ground arith)
next_below-emptied f (suc n) c x e h = elim (Bool-cases (is_nil (f n).demands)) [
  | inl k ↦
      let below = next_below-bound f n c (ground arith) in
      let rest = next_below-emptied f n c x (ground arith) h in ground arith
  | inr k ↦ ground arith
]
