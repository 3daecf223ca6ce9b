-- ===== src/Agent/State/Enter.antt =====
-- The loop of `actual_state_to_enter` ends, and where it ends.
use sobjectizer.Base.{
  ℕ, zero, suc, ◌+◌, ◌≤◌, ◌≡◌, refl, subst, inl, inr, ◌⊎◌, none, some, arith, Option-cases,
}
use sobjectizer.Agent.State.{
  State, Store, no_initial_substate, Entered, entered, failed, out_of_fuel, enter_from,
  actual_state_to_enter,
}
use sobjectizer.Agent.State.Valid.{Below, child, further, IsValid, Below-level}

-- The state itself, or one below it.
pub data AtOrBelow (f : ℕ → State) (s : ℕ) : ℕ → Type 0 where
  itself : (c : ℕ) → s ≡ c → AtOrBelow f s c
  below : (c : ℕ) → Below f s c → AtOrBelow f s c

pub Below-trans : (f : ℕ → State) (r s : ℕ) {c : ℕ} → Below f r s → Below f s c → Below f r c
Below-trans f r s b (child c e) = further c s e b
Below-trans f r s b (further c p e d) = further c p e (Below-trans f r s b d)

AtOrBelow-trans :
    (f : ℕ → State) (r s : ℕ) {c : ℕ} → Below f r s → AtOrBelow f s c → AtOrBelow f r c
AtOrBelow-trans f r s b (itself c e) = below c (subst (λ x. Below f r x) e b)
AtOrBelow-trans f r s b (below c d) = below c (Below-trans f r s b d)

-- What the loop gives: a state without substates, at or below the first, or the exception.
abbrev pub Ends : (ℕ → State) → ℕ → Entered → Type 0
Ends f s (entered c) = AtOrBelow f s c × ((f c).substate_count ≡ 0)
Ends f s (failed e) = e ≡ no_initial_substate
Ends f s out_of_fuel = ⊥

Ends-below : (f : ℕ → State) (r s : ℕ) (x : Entered) → Below f r s → Ends f s x → Ends f r x
Ends-below f r s (entered c) b h = (AtOrBelow-trans f r s b h.0, h.1)
Ends-below f r s (failed e) b h = h
Ends-below f r s out_of_fuel b h = h

module _ (fuel : ℕ) (f : ℕ → State) (s : ℕ) where
  pub enter_leaf : (f s).substate_count ≡ 0 → enter_from (suc fuel) f s ≡ entered s
  unfolding enter_from
  enter_leaf e = simp (e, enter_from)

  module _ (n : ℕ) (e : (f s).substate_count ≡ suc n) where
    pub enter_last :
        (c : ℕ)
        → (f s).last_active_substate ≡ some c
        → enter_from (suc fuel) f s ≡ enter_from fuel f c
    unfolding enter_from
    enter_last c l = simp (e, l, enter_from)

    enter_initial :
        (c : ℕ)
        → (f s).last_active_substate ≡ none
        → (f s).initial_substate ≡ some c
        → enter_from (suc fuel) f s ≡ enter_from fuel f c
    unfolding enter_from
    enter_initial c l i = simp (e, l, i, enter_from)

    enter_fails :
        (f s).last_active_substate ≡ none
        → (f s).initial_substate ≡ none
        → enter_from (suc fuel) f s ≡ failed no_initial_substate
    unfolding enter_from
    enter_fails l i = simp (e, l, i, enter_from)

pub ℕ-cases : (n : ℕ) → (n ≡ 0) ⊎ ((m : ℕ) × (n ≡ suc m))
ℕ-cases zero = inl refl
ℕ-cases (suc m) = inr (m, refl)

enter_from-Ends :
    (fuel : ℕ) (st : Store) (s : ℕ)
    → IsValid st
    → 16 ≤ fuel + (st.at s).nested_level
    → Ends st.at s (enter_from fuel st.at s)
unfolding enter_from
enter_from-Ends zero st s v h = let b = v.deep_enough s in absurd (omega arith)
enter_from-Ends (suc fuel) st s v h = elim (ℕ-cases (st.at s).substate_count) [
  | inl e ↦ rw (enter_leaf fuel st.at s e) (itself s refl, e)
  | inr (n, e) ↦ elim (Option-cases (st.at s).last_active_substate) [
    | inr (c, l) ↦
        let b = v.last_below s c l in
        let deeper = Below-level st v b in
        rw (enter_last fuel st.at s n e c l) (
          Ends-below st.at s c (enter_from fuel st.at c) b
            (enter_from-Ends fuel st c v (omega arith)))
    | inl l ↦ elim (Option-cases (st.at s).initial_substate) [
      | inr (c, i) ↦
          let b = child c (v.initial_below s c i) in
          let deeper = Below-level st v b in
          rw (enter_initial fuel st.at s n e c l i) (
            Ends-below st.at s c (enter_from fuel st.at c) b
              (enter_from-Ends fuel st c v (omega arith)))
      | inl i ↦ rw (enter_fails fuel st.at s n e l i) refl
    ]
  ]
]

-- The loop ends within 16 rounds, at a state without substates.
pub actual_state_to_enter-Ends :
    (st : Store) (s : ℕ) → IsValid st → Ends st.at s (actual_state_to_enter s st)
actual_state_to_enter-Ends st s v = enter_from-Ends 16 st s v (omega arith)
