-- ===== src/Agent/State/Valid.antt =====
-- The valid stores of states: a forest, with the levels and the marks in step with the parents.
use sobjectizer.Base.{
  ℕ, suc, ◌≤◌, ◌<◌, ◌≡◌, refl, sym, ap, ◌∙◌, inl, inr, none, some, leb, arith, Bool-cases,
}
use sobjectizer.Agent.State.{no_history, State, Store, fresh_state, no_states}

-- The state `c` is below `s`, through its parents.
pub data Below (f : ℕ → State) (s : ℕ) : ℕ → Type 0 where
  child : (c : ℕ) → (f c).parent_state ≡ some s → Below f s c
  further : (c p : ℕ) → (f c).parent_state ≡ some p → Below f s p → Below f s c

pub Below-map :
    {f g : ℕ → State} {s c : ℕ}
    → ((x p : ℕ) → (f x).parent_state ≡ some p → (g x).parent_state ≡ some p)
    → Below f s c
    → Below g s c
Below-map h (child c e) = child c (h c _ e)
Below-map h (further c p e b) = further c p (h c p e) (Below-map h b)

pub record IsValid (st : Store) : Type 0 where
  pub free : (s : ℕ) → st.next ≤ s → st.at s ≡ fresh_state none none 0 no_history
  pub top_level : (s : ℕ) → (st.at s).parent_state ≡ none → (st.at s).nested_level ≡ 0
  pub level :
      (s p : ℕ)
      → (st.at s).parent_state ≡ some p
      → (st.at s).nested_level ≡ suc (st.at p).nested_level
  pub deep_enough : (s : ℕ) → (st.at s).nested_level < 16
  pub known : (s p : ℕ) → (st.at s).parent_state ≡ some p → p < st.next
  pub counted : (s p : ℕ) → (st.at s).parent_state ≡ some p → 0 < (st.at p).substate_count
  pub initial_below :
      (s c : ℕ) → (st.at s).initial_substate ≡ some c → (st.at c).parent_state ≡ some s
  pub last_below : (s c : ℕ) → (st.at s).last_active_substate ≡ some c → Below st.at s c

-- A state with a parent is not at a free address.
pub known_child :
    (st : Store) (s p : ℕ) → IsValid st → (st.at s).parent_state ≡ some p → s < st.next
known_child st s p v e = elim (Bool-cases (leb st.next s)) [
  | inl h ↦
      let free = v.free s (ground arith) in
      absurd (ground (arith, ap (λ (x : State). x.parent_state) free))
  | inr h ↦ ground arith
]

pub Below-level :
    (st : Store) {s c : ℕ}
    → IsValid st
    → Below st.at s c
    → (st.at s).nested_level < (st.at c).nested_level
Below-level st v (child c e) = let up = v.level c _ e in omega arith
Below-level st v (further c p e b) =
    let up = v.level c p e in let rest = Below-level st v b in omega arith

pub no_states-IsValid : IsValid no_states
unfolding no_states
no_states-IsValid = record {
  free = λ s h. refl;
  top_level = λ s e. refl;
  level = λ s p e. cc;
  deep_enough = λ s. omega arith;
  known = λ s p e. cc;
  counted = λ s p e. cc;
  initial_below = λ s c e. cc;
  last_below = λ s c e. absurd (cc);
}

-- A change of the marks only.
pub record SameTree (f g : ℕ → State) : Type 0 where
  pub parent : (s : ℕ) → (g s).parent_state ≡ (f s).parent_state
  pub level : (s : ℕ) → (g s).nested_level ≡ (f s).nested_level
  pub count : (s : ℕ) → (g s).substate_count ≡ (f s).substate_count
  pub agent : (s : ℕ) → (g s).target_agent ≡ (f s).target_agent
  pub limit : (s : ℕ) → (g s).time_limit ≡ (f s).time_limit

pub SameTree-trans : (f g h : ℕ → State) → SameTree f g → SameTree g h → SameTree f h
SameTree-trans f g h a b = record {
  parent = λ s. b.parent s ∙ a.parent s;
  level = λ s. b.level s ∙ a.level s;
  count = λ s. b.count s ∙ a.count s;
  agent = λ s. b.agent s ∙ a.agent s;
  limit = λ s. b.limit s ∙ a.limit s;
}

-- Such a change keeps the store valid if the new marks are below.
pub remarked-IsValid :
    (f g : ℕ → State) (n : ℕ)
    → SameTree f g
    → IsValid (record { at = f; next = n })
    → ((s : ℕ) → n ≤ s → g s ≡ fresh_state none none 0 no_history)
    → ((s c : ℕ) → (g s).initial_substate ≡ some c → (f c).parent_state ≡ some s)
    → ((s c : ℕ) → (g s).last_active_substate ≡ some c → Below f s c)
    → IsValid (record { at = g; next = n })
remarked-IsValid f g n t v free initial last = record {
  free = free;
  top_level = λ s e. t.level s ∙ v.top_level s (sym (t.parent s) ∙ e);
  level = λ s p e. t.level s ∙ v.level s p (sym (t.parent s) ∙ e) ∙ ap suc (sym (t.level p));
  deep_enough = λ s. let bound = v.deep_enough s in let same = t.level s in omega arith;
  known = λ s p e. v.known s p (sym (t.parent s) ∙ e);
  counted = λ s p e.
      let some_child = v.counted s p (sym (t.parent s) ∙ e) in let same = t.count p in omega arith;
  initial_below = λ s c e. t.parent c ∙ initial s c e;
  last_below = λ s c e. Below-map (λ x p h. t.parent x ∙ h) (last s c e);
}
