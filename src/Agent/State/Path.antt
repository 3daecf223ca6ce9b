-- ===== src/Agent/State/Path.antt =====
-- `fill_path`: the array holds the state and its parents, up to the top.
use sobjectizer.Base.{
  ℕ, zero, suc, ◌<◌, ◌≡◌, refl, ap, ap₂, ◌∙◌, inl, inr, true, false, none, some, List, [], ◌∷◌,
  ◌==◌, arith, Option-cases,
}
use sobjectizer.Agent.State.{State, Store, write, fill_from, fill_path}
use sobjectizer.Agent.State.Valid.{IsValid}

-- The state, its parent and so on, up to a state without a parent.
pub data Chain (f : ℕ → State) : ℕ → List ℕ → Type 0 where
  top : (s : ℕ) → (f s).parent_state ≡ none → Chain f s (s ∷ [])
  up : (s p : ℕ) (l : List ℕ) → (f s).parent_state ≡ some p → Chain f p l → Chain f s (s ∷ l)

-- The first `n` places of a path, the last of them first.
unfoldable pub stack : (ℕ → ℕ) → ℕ → List ℕ
stack path zero = []
stack path (suc i) = path i ∷ stack path i

module _ (fuel : ℕ) (f : ℕ → State) (s : ℕ) (path : ℕ → ℕ) where
  abbrev written : ℕ → ℕ
  written = write path (f s).nested_level s

  fill_top : (f s).parent_state ≡ none → fill_from (suc fuel) f s path ≡ written
  unfolding fill_from
  fill_top e = simp (e, fill_from)

  fill_up :
      (p : ℕ)
      → (f s).parent_state ≡ some p
      → fill_from (suc fuel) f s path ≡ fill_from fuel f p written
  unfolding fill_from
  fill_up p e = simp (e, fill_from)

-- Above the level of the state nothing is written.
fill_above :
    (fuel : ℕ) (st : Store) (s : ℕ) (path : ℕ → ℕ) (j : ℕ)
    → IsValid st
    → (st.at s).nested_level < j
    → fill_from fuel st.at s path j ≡ path j
unfolding fill_from
fill_above zero st s path j v h = refl
fill_above (suc fuel) st s path j v h =
    let other : (j == (st.at s).nested_level) ≡ false = ground arith in
    let kept : written fuel st.at s path j ≡ path j = rw other refl in
    elim (Option-cases (st.at s).parent_state) [
      | inl e ↦ ap (λ (r : ℕ → ℕ). r j) (fill_top fuel st.at s path e) ∙ kept
      | inr (p, e) ↦
          let below = v.level s p e in
          ap (λ (r : ℕ → ℕ). r j) (fill_up fuel st.at s path p e)
          ∙ fill_above fuel st p (written fuel st.at s path) j v (omega arith)
          ∙ kept
    ]

stack_top : (path : ℕ → ℕ) (n s : ℕ) → path n ≡ s → n ≡ 0 → stack path (suc n) ≡ s ∷ []
unfolding stack
stack_top path n s h e = ap₂ (λ x (m : ℕ). x ∷ stack path m) h e

stack_up : (path : ℕ → ℕ) (n s m : ℕ) → path n ≡ s → n ≡ m → stack path (suc n) ≡ s ∷ stack path m
unfolding stack
stack_up path n s m h e = ap₂ (λ x (k : ℕ). x ∷ stack path k) h e

fill_from-Chain :
    (fuel : ℕ) (st : Store) (s : ℕ) (path : ℕ → ℕ)
    → IsValid st
    → (st.at s).nested_level < fuel
    → Chain st.at s (stack (fill_from fuel st.at s path) (suc (st.at s).nested_level))
fill_from-Chain zero st s path v h = absurd (omega arith)
fill_from-Chain (suc fuel) st s path v h =
    let level = (st.at s).nested_level in
    let path' = written fuel st.at s path in
    let same : (level == level) ≡ true = ground arith in
    let here : path' level ≡ s = rw same refl in
    elim (Option-cases (st.at s).parent_state) [
      | inl e ↦
          rw (fill_top fuel st.at s path e, stack_top path' level s here (v.top_level s e))
            (top s e)
      | inr (p, e) ↦
          let above = v.level s p e in
          let rest = fill_from fuel st.at p path' in
          let kept = fill_above fuel st p path' level v (omega arith) in
          rw
            (
              fill_up fuel st.at s path p e,
              stack_up rest level s (suc (st.at p).nested_level) (kept ∙ here) above,
            )
            (up s p _ e (fill_from-Chain fuel st p path' v (omega arith)))
    ]

-- The path of a state of a valid store is its chain of parents.
pub fill_path-Chain :
    (st : Store) (s : ℕ)
    → IsValid st
    → Chain st.at s (stack (fill_path s st.at) (suc (st.at s).nested_level))
fill_path-Chain st s v = fill_from-Chain 16 st s (λ i. 0) v (v.deep_enough s)
