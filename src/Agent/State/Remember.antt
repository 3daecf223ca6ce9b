-- ===== src/Agent/State/Remember.antt =====
-- `update_history_in_parent_states` keeps a store valid, and what it remembers is found again.
use sobjectizer.Base.{
  ℕ, zero, suc, ◌≤◌, ◌≡◌, refl, ap, subst, ◌∙◌, inl, inr, ◌⊎◌, true, false, Option, none, some,
  ◌==◌, arith, Bool-cases,
}
use sobjectizer.Agent.State.{
  History, no_history, shallow, deep, State, Store, update, remember, update_from,
  update_history_in_parent_states,
}
use sobjectizer.Agent.State.Valid.{
  Below, child, further, Below-map, Below-level, IsValid, SameTree, SameTree-trans,
}
use sobjectizer.Agent.State.Enter.{AtOrBelow, itself, below, Below-trans}
use sobjectizer.Agent.State.Build.{marked-IsValid}

History-cases : (h : History) → (h ≡ no_history) ⊎ ((h ≡ shallow) ⊎ (h ≡ deep))
History-cases no_history = inl refl
History-cases shallow = inr (inl refl)
History-cases deep = inr (inr refl)

below_child :
    {f : ℕ → State} {p c s : ℕ} → AtOrBelow f c s → (f c).parent_state ≡ some p → Below f p s
below_child {f} {p} {c} {s} (itself _ same) e = subst (λ x. Below f p x) same (child c e)
below_child {f} {p} {c} {s} (below _ b) e = Below-trans f p c (child c e) b

-- What `remember` writes, as one value.
abbrev pub chosen : ℕ → ℕ → State → Option ℕ
chosen s c p = elim p.state_history [
  | no_history ↦ p.last_active_substate
  | shallow ↦ some c
  | deep ↦ some s
]

pub remember-chosen :
    (s c : ℕ) (p : State) → remember s c p ≡ record p { last_active_substate = chosen s c p }
remember-chosen s c p = by_history p.state_history
  where
    by_history :
        (h : History)
        → Path State
            (elim h [
              | no_history ↦ p
              | shallow ↦ record p { last_active_substate = some c }
              | deep ↦ record p { last_active_substate = some s }
            ])
            (record p {
              last_active_substate = elim h [
                | no_history ↦ p.last_active_substate
                | shallow ↦ some c
                | deep ↦ some s
              ];
            })
    by_history no_history = refl
    by_history shallow = refl
    by_history deep = refl

-- One round of the loop, at the parent `p`.
module _ (f : ℕ → State) (s c p : ℕ) where
  abbrev round : ℕ → State
  round = update f p (remember s c (f p))

  round-chosen : round ≡ update f p (record (f p) { last_active_substate = chosen s c (f p) })
  round-chosen = ap (update f p) (remember-chosen s c (f p))

  round-SameTree : SameTree f round
  round-SameTree = rw round-chosen (record {
    parent = λ x. ground arith;
    level = λ x. ground arith;
    count = λ x. ground arith;
    agent = λ x. ground arith;
    limit = λ x. ground arith;
  })

  chosen-Below :
      (n : ℕ)
      → IsValid (record { at = f; next = n })
      → (f c).parent_state ≡ some p
      → AtOrBelow f c s
      → (d : ℕ) → chosen s c (f p) ≡ some d
      → Below f p d
  chosen-Below n v e b d h = elim (History-cases (f p).state_history) [
    | inl k ↦ v.last_below p d (ground (arith))
    | inr (inl k) ↦ let same : c ≡ d = ground arith in subst (λ x. Below f p x) same (child c e)
    | inr (inr k) ↦
        let same : s ≡ d = ground arith in subst (λ x. Below f p x) same (below_child b e)
  ]

  round-IsValid :
      (n : ℕ)
      → IsValid (record { at = f; next = n })
      → (f c).parent_state ≡ some p
      → AtOrBelow f c s
      → IsValid (record { at = round; next = n })
  round-IsValid n v e b = rw round-chosen (
      marked-IsValid (record { at = f; next = n }) p (f p).initial_substate (chosen s c (f p)) v
        (v.known c p e) (λ d h. v.initial_below p d h) (chosen-Below n v e b))

SameTree-refl : (f : ℕ → State) → SameTree f f
SameTree-refl f = record {
  parent = λ s. refl;
  level = λ s. refl;
  count = λ s. refl;
  agent = λ s. refl;
  limit = λ s. refl;
}

level_ne :
    (f : ℕ → State) (p x : ℕ) → ((f x).nested_level ≡ (f p).nested_level → ⊥) → (x == p) ≡ false
level_ne f p x h = elim (Bool-cases (x == p)) [
  | inl k ↦ let same : x ≡ p = ground arith in absurd (h (ap (λ y. (f y).nested_level) same))
  | inr k ↦ k
]

-- A state at or above `c` is `c`, or it is at or above the parent.
at_parent :
    {f : ℕ → State} {y c : ℕ}
    → AtOrBelow f y c
    → (y ≡ c) ⊎ ((p : ℕ) × ((f c).parent_state ≡ some p) × AtOrBelow f y p)
at_parent (itself _ e) = inl e
at_parent {f} {y} (below _ (child _ j)) = inr (y, j, itself y refl)
at_parent {f} {y} (below _ (further _ r j d)) = inr (r, j, below r d)

pub AtOrBelow-map :
    {f g : ℕ → State} {s c : ℕ}
    → ((x p : ℕ) → (f x).parent_state ≡ some p → (g x).parent_state ≡ some p)
    → AtOrBelow f s c
    → AtOrBelow g s c
AtOrBelow-map {f} {g} {s} {c} h (itself _ e) = itself c e
AtOrBelow-map {f} {g} {s} {c} h (below _ b) = below c (Below-map h b)

pub AtOrBelow-level :
    (st : Store) (s c : ℕ)
    → IsValid st
    → AtOrBelow st.at s c
    → (st.at s).nested_level ≤ (st.at c).nested_level
AtOrBelow-level st s c v (itself _ e) = rw e (omega arith)
AtOrBelow-level st s c v (below _ b) = let deeper = Below-level st v b in omega arith

-- The loop from the state `c`, and the states that it does not reach.
loop-kept :
    (fuel n s c : ℕ) (q : Option ℕ) (f : ℕ → State)
    → IsValid (record { at = f; next = n })
    → (f c).parent_state ≡ q
    → AtOrBelow f c s
    → let g = update_from fuel s c q f in
      SameTree f g
      × IsValid (record { at = g; next = n })
      × ((x : ℕ) → (f c).nested_level ≤ (f x).nested_level → g x ≡ f x)
unfolding update_from
loop-kept fuel n s c none f v e b = (SameTree-refl f, v, λ x h. refl)
loop-kept zero n s c (some p) f v e b = (SameTree-refl f, v, λ x h. refl)
loop-kept (suc fuel) n s c (some p) f v e b =
    let same = round-SameTree f s c p in
    let v' = round-IsValid f s c p n v e b in
    let above = v.level c p e in
    let b' = below s (Below-map (λ x r h. same.parent x ∙ h) (below_child b e)) in
    let (tree, valid, kept) =
      loop-kept fuel n s p (f p).parent_state (round f s c p) v' (same.parent p) b' in
    (
      SameTree-trans f (round f s c p) _ same tree,
      valid,
      λ x h.
          let out : round f s c p x ≡ f x = rw (level_ne f p x (λ q. absurd (omega arith))) refl in
          let level = same.level p in let level' = same.level x in kept x (omega arith) ∙ out,
    )

loop-remembers :
    (fuel n s c : ℕ) (q : Option ℕ) (f : ℕ → State)
    → IsValid (record { at = f; next = n })
    → (f c).parent_state ≡ q
    → AtOrBelow f c s
    → (f c).nested_level ≤ fuel
    → (y x : ℕ) → AtOrBelow f y c
    → (f y).parent_state ≡ some x
    → update_from fuel s c q f x ≡ remember s y (f x)
unfolding update_from
loop-remembers fuel n s c none f v e b h y x a k = elim (at_parent a) [
  | inl same ↦ absurd (ground (arith, ap (λ z. (f z).parent_state) same))
  | inr (r, j, _) ↦ absurd (ground arith)
]
loop-remembers zero n s c (some p) f v e b h y x a k =
    let above = v.level c p e in absurd (omega arith)
loop-remembers (suc fuel) n s c (some p) f v e b h y x a k =
    let f' = round f s c p in
    let same = round-SameTree f s c p in
    let v' = round-IsValid f s c p n v e b in
    let b' = below s (Below-map (λ z r j. same.parent z ∙ j) (below_child b e)) in
    elim (at_parent a) [
      | inl at_c ↦
          let to_p : p ≡ x = ground (arith, ap (λ z. (f z).parent_state) at_c) in
          let (_, _, kept) = loop-kept fuel n s p (f p).parent_state f' v' (same.parent p) b' in
          let itself_p : (p == p) ≡ true = ground arith in
          let written : f' p ≡ remember s c (f p) = rw itself_p refl in
          subst (λ z. update_from fuel s p (f p).parent_state f' z ≡ remember s y (f z)) to_p
            (rw at_c (kept p (omega arith) ∙ written))
      | inr (r, j, at_r) ↦
          let to_p : r ≡ p = ground arith in
          let at_p = subst (λ z. AtOrBelow f y z) to_p at_r in
          let deep_y = AtOrBelow-level (record { at = f; next = n }) y p v at_p in
          let above = v.level y x k in
          let above' = v.level c p e in
          let level = same.level p in
          let kept : f' x ≡ f x = rw (level_ne f p x (λ q. absurd (omega arith))) refl in
          loop-remembers fuel n s p (f p).parent_state f' v' (same.parent p) b' (omega arith) y x
            (AtOrBelow-map (λ z r' j'. same.parent z ∙ j') at_p) (same.parent y ∙ k)
          ∙ ap (remember s y) kept
    ]

pub update_history-IsValid :
    (s : ℕ) (st : Store) → IsValid st → IsValid (update_history_in_parent_states s st)
unfolding update_history_in_parent_states
update_history-IsValid s st v =
    (loop-kept 16 st.next s s (st.at s).parent_state st.at v refl (itself s refl)).1

pub update_history-SameTree :
    (s : ℕ) (st : Store) → IsValid st → SameTree st.at (update_history_in_parent_states s st).at
unfolding update_history_in_parent_states
update_history-SameTree s st v =
    (loop-kept 16 st.next s s (st.at s).parent_state st.at v refl (itself s refl)).0

-- The fuel is enough: every state above gets what it has to remember.
pub update_history-remember :
    (s : ℕ) (st : Store) (y x : ℕ)
    → IsValid st
    → AtOrBelow st.at y s
    → (st.at y).parent_state ≡ some x
    → (update_history_in_parent_states s st).at x ≡ remember s y (st.at x)
unfolding update_history_in_parent_states
update_history-remember s st y x v a k =
    let bound = v.deep_enough s in
    loop-remembers 16 st.next s s (st.at s).parent_state st.at v refl (itself s refl) (omega arith)
      y x a k

-- The loop leaves alone the states at the level of `s` or deeper.
pub update_history-kept :
    (s : ℕ) (st : Store) (x : ℕ)
    → IsValid st
    → (st.at s).nested_level ≤ (st.at x).nested_level
    → (update_history_in_parent_states s st).at x ≡ st.at x
unfolding update_history_in_parent_states
update_history-kept s st x v h =
    (loop-kept 16 st.next s s (st.at s).parent_state st.at v refl (itself s refl)).2 x h
