-- ===== src/Agent/State/Return.antt =====
-- Entering a state with a history again, after a switch to a state below it.
use sobjectizer.Base.{ℕ, zero, suc, ◌+◌, ◌≤◌, ◌≡◌, refl, ap, ◌∙◌, inl, inr, some, arith}
use sobjectizer.Agent.State.{
  shallow, deep, State, Store, entered, enter_from, actual_state_to_enter, remember,
  update_history_in_parent_states,
}
use sobjectizer.Agent.State.Valid.{Below, child, further, Below-level, IsValid}
use sobjectizer.Agent.State.Enter.{AtOrBelow, itself, below, enter_leaf, enter_last, ℕ-cases}
use sobjectizer.Agent.State.Remember.{
  chosen, remember-chosen, update_history-SameTree, update_history-remember,
}

-- The history of `p` leads to the state `s` below it: it is deep, or it is shallow and its substate
-- towards `s` is `s`, or leads there itself.
pub data LeadsTo (f : ℕ → State) (s : ℕ) : ℕ → Type 0 where
  deep_above : (p : ℕ) → (f p).state_history ≡ deep → Below f p s → LeadsTo f s p
  shallow_parent :
      (p : ℕ) → (f p).state_history ≡ shallow → (f s).parent_state ≡ some p → LeadsTo f s p
  shallow_above :
      (p c : ℕ)
      → (f p).state_history ≡ shallow
      → (f c).parent_state ≡ some p
      → LeadsTo f s c
      → LeadsTo f s p

first_step :
    (f : ℕ → State) (p : ℕ) {s : ℕ}
    → Below f p s
    → (y : ℕ) × ((f y).parent_state ≡ some p) × AtOrBelow f y s
first_step f p (child s e) = (s, e, itself s refl)
first_step f p (further s r e b) = let (y, k, a) = first_step f p b in (y, k, down y a)
  where
    down : (y : ℕ) → AtOrBelow f y r → AtOrBelow f y s
    down y (itself _ same) = below s (child s (rw same e))
    down y (below _ d) = below s (further s r e d)

LeadsTo-Below : (f : ℕ → State) (s p : ℕ) → LeadsTo f s p → Below f p s
LeadsTo-Below f s p (deep_above _ h b) = b
LeadsTo-Below f s p (shallow_parent _ h e) = child s e
LeadsTo-Below f s p (shallow_above _ c h e l) = under (LeadsTo-Below f s c l)
  where
    under : {x : ℕ} → Below f c x → Below f p x
    under (child x k) = further x c k (child c e)
    under (further x r k b) = further x r k (under b)

last-remember :
    (s y c : ℕ) (q : State) → chosen s y q ≡ some c → (remember s y q).last_active_substate ≡ some c
last-remember s y c q e = ap (λ (x : State). x.last_active_substate) (remember-chosen s y q) ∙ e

chosen-deep : (s y : ℕ) (q : State) → q.state_history ≡ deep → chosen s y q ≡ some s
chosen-deep s y q e = rw e refl

chosen-shallow : (s y : ℕ) (q : State) → q.state_history ≡ shallow → chosen s y q ≡ some y
chosen-shallow s y q e = rw e refl

module _ (st : Store) (s : ℕ) (v : IsValid st) where
  abbrev later : ℕ → State
  later = (update_history_in_parent_states s st).at

  -- One round of the entering loop at a state with a substate on the way.
  enter-remembered :
      (fuel y p c : ℕ)
      → AtOrBelow st.at y s
      → (st.at y).parent_state ≡ some p
      → (remember s y (st.at p)).last_active_substate ≡ some c
      → enter_from (suc fuel) later p ≡ enter_from fuel later c
  enter-remembered fuel y p c a e h =
      let tree = update_history-SameTree s st v in
      let last =
        ap (λ (x : State). x.last_active_substate) (update_history-remember s st y p v a e) in
      elim (ℕ-cases (later p).substate_count) [
        | inl none_there ↦
            let some_there = v.counted y p e in let same = tree.count p in absurd (omega arith)
        | inr (n, count) ↦ enter_last fuel later p n count c (last ∙ h)
      ]

  enter_leaf_later :
      (fuel : ℕ) → (st.at s).substate_count ≡ 0 → enter_from (suc fuel) later s ≡ entered s
  enter_leaf_later fuel leaf =
      enter_leaf fuel later s ((update_history-SameTree s st v).count s ∙ leaf)

  -- At the substate itself one more round is left, since it is deeper.
  enter_next :
      (fuel p : ℕ)
      → (st.at s).substate_count ≡ 0
      → Below st.at p s
      → 16 ≤ suc fuel + (st.at p).nested_level
      → enter_from fuel later s ≡ entered s
  enter_next zero p leaf b h =
      let deeper = Below-level st v b in let bound = v.deep_enough s in absurd (omega arith)
  enter_next (suc fuel) p leaf b h = enter_leaf_later fuel leaf

  enter_from-LeadsTo :
      (fuel p : ℕ)
      → (st.at s).substate_count ≡ 0
      → LeadsTo st.at s p
      → 16 ≤ fuel + (st.at p).nested_level
      → enter_from fuel later p ≡ entered s
  enter_from-LeadsTo zero p leaf l h = let bound = v.deep_enough p in absurd (omega arith)
  enter_from-LeadsTo (suc fuel) p leaf (deep_above _ k b) h =
      let (y, e, a) = first_step st.at p b in
      enter-remembered fuel y p s a e (last-remember s y s (st.at p) (chosen-deep s y (st.at p) k))
      ∙ enter_next fuel p leaf b h
  enter_from-LeadsTo (suc fuel) p leaf (shallow_parent _ k e) h =
      enter-remembered fuel s p s (itself s refl) e
        (last-remember s s s (st.at p) (chosen-shallow s s (st.at p) k))
      ∙ enter_next fuel p leaf (child s e) h
  enter_from-LeadsTo (suc fuel) p leaf (shallow_above _ c k e l) h =
      let level = v.level c p e in
      enter-remembered fuel c p c (below s (LeadsTo-Below st.at s c l)) e
        (last-remember s c c (st.at p) (chosen-shallow s c (st.at p) k))
      ∙ enter_from-LeadsTo fuel c leaf l (omega arith)

-- In a valid store, after a switch to a state without substates, entering any state above it whose
-- history leads to it gives that state again.
pub returns_to_last_active :
    (st : Store) (s p : ℕ)
    → IsValid st
    → (st.at s).substate_count ≡ 0
    → LeadsTo st.at s p
    → actual_state_to_enter p (update_history_in_parent_states s st) ≡ entered s
returns_to_last_active st s p v leaf l = enter_from-LeadsTo st s v 16 p leaf l (omega arith)
