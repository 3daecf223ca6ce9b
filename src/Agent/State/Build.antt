-- ===== src/Agent/State/Build.antt =====
-- The constructors of states, and the clearing of a history, keep the store valid.
use sobjectizer.Base.{
  ℕ, suc, ◌+◌, ◌<◌, ◌≡◌, refl, sym, ap, subst, ◌∙◌, inl, inr, ◌⊎◌, true, false, Option, none, some,
  leb, ◌==◌, arith, Bool-cases, Option-cases,
}
use sobjectizer.Agent.State.{
  History, State, Store, fresh_state, update, max_deep, Error, initial_substate_already_defined,
  make_state, add_substate, mark_initial, make_initial_substate, clear_history,
}
use sobjectizer.Agent.State.Valid.{Below, Below-map, IsValid, known_child, remarked-IsValid}

abbrev remarked : Store → ℕ → Option ℕ → Option ℕ → ℕ → State
remarked st s initial last =
    update st.at s (record (st.at s) { initial_substate = initial; last_active_substate = last })

-- A change of the marks of one known state.
pub marked-IsValid :
    (st : Store) (s : ℕ) (initial last : Option ℕ)
    → IsValid st
    → s < st.next
    → ((c : ℕ) → initial ≡ some c → (st.at c).parent_state ≡ some s)
    → ((c : ℕ) → last ≡ some c → Below st.at s c)
    → IsValid (record st { at = remarked st s initial last })
marked-IsValid st s initial last v known i l =
    remarked-IsValid st.at (remarked st s initial last) st.next
      (record {
        parent = λ x. ground arith;
        level = λ x. ground arith;
        count = λ x. ground arith;
        agent = λ x. ground arith;
        limit = λ x. ground arith;
      })
      v (λ x b. let other : (x == s) ≡ false = ground arith in rw other (v.free x b))
      (λ x c e. elim (Bool-cases (x == s)) [
        | inl h ↦
            let same : s ≡ x = ground arith in
            subst (λ y. (st.at c).parent_state ≡ some y) same (i c (ground arith))
        | inr h ↦ v.initial_below x c (ground arith)
      ])
      (λ x c e. elim (Bool-cases (x == s)) [
        | inl h ↦
            let same : s ≡ x = ground arith in
            subst (λ y. Below st.at y c) same (l c (ground arith))
        | inr h ↦ v.last_below x c (ground arith)
      ])

-- A new state at the free address, with what its place among the others must be.
module _ (st : Store) (v : IsValid st) (x : State) where
  abbrev grown : Store
  grown = record { at = update st.at st.next x; next = st.next + 1 }

  abbrev Fits : Type 0
  Fits =
      (x.initial_substate ≡ none)
      × (x.last_active_substate ≡ none)
      × (x.nested_level < 16)
      × (x.parent_state ≡ none → x.nested_level ≡ 0)
      × ((p : ℕ)
          → x.parent_state ≡ some p
          → (p < st.next)
            × (x.nested_level ≡ suc (st.at p).nested_level)
            × (0 < (st.at p).substate_count))

  old : (s : ℕ) → s < st.next → grown.at s ≡ st.at s
  old s b = let other : (s == st.next) ≡ false = ground arith in rw other refl

  here : grown.at st.next ≡ x
  here = let same : (st.next == st.next) ≡ true = ground arith in rw same refl

  grown-parent : (s p : ℕ) → (st.at s).parent_state ≡ some p → (grown.at s).parent_state ≡ some p
  grown-parent s p e = ap (λ (y : State). y.parent_state) (old s (known_child st s p v e)) ∙ e

  -- Each address is the new one, or it is as before.
  OrOld : (s : ℕ) → Type 0
  OrOld s = (s ≡ st.next) ⊎ (grown.at s ≡ st.at s)

  new-OrOld : (s : ℕ) → OrOld s
  unfolding OrOld
  new-OrOld s = elim (Bool-cases (s == st.next)) [
    | inl e ↦ inl (ground arith)
    | inr e ↦ inr (rw e refl)
  ]

  at_new : {A : Type 0} (g : State → A) (s : ℕ) → s ≡ st.next → g (grown.at s) ≡ g x
  at_new g s e = ap (λ y. g (grown.at y)) e ∙ ap g here

  module _ (fits : Fits) where
    grown-level :
        (s p : ℕ)
        → (grown.at s).parent_state ≡ some p
        → (p < st.next)
          × ((grown.at s).nested_level ≡ suc (grown.at p).nested_level)
          × (0 < (grown.at p).substate_count)
    unfolding OrOld
    grown-level s p e = elim (new-OrOld s) [
      | inl n ↦
          let (known, level, count) = fits.4 p (sym (at_new (λ y. y.parent_state) s n) ∙ e) in
          (
            known,
            at_new (λ y. y.nested_level) s n
                ∙ level
                ∙ ap (λ (y : State). suc y.nested_level) (sym (old p known)),
            rw (old p known) count,
          )
      | inr same ↦
          let e' = sym (ap (λ (y : State). y.parent_state) same) ∙ e in
          let known = v.known s p e' in
          (
            known,
            ap (λ (y : State). y.nested_level) same
                ∙ v.level s p e'
                ∙ ap (λ (y : State). suc y.nested_level) (sym (old p known)),
            rw (old p known) (v.counted s p e'),
          )
    ]

    pub grown-IsValid : IsValid grown
    unfolding OrOld
    grown-IsValid = record {
      free = λ s b.
          let other : (s == st.next) ≡ false = ground arith in
          let before = v.free s (omega arith) in rw other before;
      top_level = λ s e. elim (new-OrOld s) [
        | inl n ↦
            at_new (λ y. y.nested_level) s n ∙ fits.3 (sym (at_new (λ y. y.parent_state) s n) ∙ e)
        | inr same ↦
            ap (λ (y : State). y.nested_level) same
            ∙ v.top_level s (sym (ap (λ (y : State). y.parent_state) same) ∙ e)
      ];
      level = λ s p e. (grown-level s p e).1;
      deep_enough = λ s. elim (new-OrOld s) [
        | inl n ↦ let e = at_new (λ y. y.nested_level) s n in let b = fits.2 in omega arith
        | inr same ↦
            let e = ap (λ (y : State). y.nested_level) same in
            let b = v.deep_enough s in omega arith
      ];
      known = λ s p e. let b = (grown-level s p e).0 in omega arith;
      counted = λ s p e. (grown-level s p e).2;
      initial_below = λ s c e. elim (new-OrOld s) [
        | inl n ↦ absurd (ground (arith, at_new (λ y. y.initial_substate) s n, fits.0))
        | inr same ↦
            grown-parent c s
              (v.initial_below s c (sym (ap (λ (y : State). y.initial_substate) same) ∙ e))
      ];
      last_below = λ s c e. elim (new-OrOld s) [
        | inl n ↦ absurd (ground (arith, at_new (λ y. y.last_active_substate) s n, fits.1))
        | inr same ↦
            Below-map grown-parent
              (v.last_below s c (sym (ap (λ (y : State). y.last_active_substate) same) ∙ e))
      ];
    }

-- One more substate in the count of a known state.
abbrev bumped : Store → ℕ → Store
bumped st p = record st {
  at = update st.at p (record (st.at p) { substate_count = (st.at p).substate_count + 1 });
}

bumped-IsValid : (st : Store) (p : ℕ) → IsValid st → p < st.next → IsValid (bumped st p)
bumped-IsValid st p v known = record {
  free = λ s b. let other : (s == p) ≡ false = ground arith in rw other (v.free s b);
  top_level = λ s e. ground (arith, v.top_level s);
  level = λ s q e. ground (arith, v.level s q);
  deep_enough = λ s. ground (arith, v.deep_enough s);
  known = λ s q e. ground (arith, v.known s q);
  counted = λ s q e. ground (arith, v.counted s q);
  initial_below = λ s c e. ground (arith, v.initial_below s c);
  last_below = λ s c e. Below-map (λ x q h. ground arith) (v.last_below s c (ground arith));
}

pub make_state-IsValid :
    (agent : ℕ) (h : History) (st : Store) → IsValid st → IsValid (make_state agent h st).0
unfolding make_state
make_state-IsValid agent h st v =
    grown-IsValid st v (fresh_state (some agent) none 0 h)
      (refl, refl, omega arith, (λ e. refl), (λ p e. absurd (ground arith)))

-- The state that `add_substate` makes, where the level allows it.
abbrev substate : ℕ → History → Store → State
substate parent h st =
    fresh_state (st.at parent).target_agent (some parent) ((st.at parent).nested_level + 1) h

substate_fits :
    (parent : ℕ) (h : History) (st : Store)
    → parent < st.next
    → (p : ℕ) → (substate parent h st).parent_state ≡ some p
    → (p < st.next)
      × ((substate parent h st).nested_level ≡ suc ((bumped st parent).at p).nested_level)
      × (0 < ((bumped st parent).at p).substate_count)
substate_fits parent h st known p e =
    let same : (p == parent) ≡ true = ground arith in
    (ground arith, rw same (omega arith), rw same (omega arith))

pub add_substate-IsValid :
    (parent : ℕ) (h : History) (st : Store)
    → IsValid st
    → parent < st.next
    → IsValid (add_substate parent h st).0
unfolding add_substate
add_substate-IsValid parent h st v known =
    elim (Bool-cases (leb max_deep ((st.at parent).nested_level + 1))) [
      | inl e ↦ rw e v
      | inr e ↦ rw e (
          grown-IsValid (bumped st parent) (bumped-IsValid st parent v known) (substate parent h st)
            (
              refl,
              refl,
              ground arith,
              (λ e. absurd (ground arith)),
              substate_fits parent h st known,
            ))
    ]

pub mark_initial-IsValid :
    (parent sub : ℕ) (st : Store)
    → IsValid st
    → parent < st.next
    → (st.at sub).parent_state ≡ some parent
    → IsValid (mark_initial parent sub st).0
unfolding mark_initial
mark_initial-IsValid parent sub st v known e = elim (Option-cases (st.at parent).initial_substate) [
  | inr (c, h) ↦
      let same : mark_initial parent sub st ≡ (st, some initial_substate_already_defined) =
        simp (h, mark_initial) in
      subst (λ (r : Store × Option Error). IsValid r.0) (sym same) v
  | inl h ↦
      let last = (st.at parent).last_active_substate in
      let same : mark_initial parent sub st
          ≡ (record st { at = remarked st parent (some sub) last }, none) =
        simp (h, mark_initial) in
      subst (λ (r : Store × Option Error). IsValid r.0) (sym same)
        (marked-IsValid st parent (some sub) last v known (λ c k. ground arith)
          (λ c k. v.last_below parent c k))
]

-- Where `add_substate` does not fail, the new state is below its parent.
add_substate-parent :
    (parent : ℕ) (h : History) (st : Store)
    → (add_substate parent h st).1 ≡ none
    → (((add_substate parent h st).0.at st.next).parent_state ≡ some parent)
      × ((add_substate parent h st).0.next ≡ st.next + 1)
unfolding add_substate
add_substate-parent parent h st e =
    elim (Bool-cases (leb max_deep ((st.at parent).nested_level + 1))) [
      | inl k ↦ absurd (ground arith)
      | inr k ↦ (ground arith, ground arith)
    ]

pub make_initial_substate-IsValid :
    (parent : ℕ) (h : History) (st : Store)
    → IsValid st
    → parent < st.next
    → IsValid (make_initial_substate parent h st).0
unfolding make_initial_substate
make_initial_substate-IsValid parent h st v known =
    let v' = add_substate-IsValid parent h st v known in
    elim (Option-cases (add_substate parent h st).1) [
      | inr (failure, e) ↦
          let same : make_initial_substate parent h st
              ≡ ((add_substate parent h st).0, some failure) =
            simp (e, make_initial_substate) in
          subst (λ (r : Store × Option Error). IsValid r.0) (sym same) v'
      | inl e ↦
          let (up, next) = add_substate-parent parent h st e in
          let same : make_initial_substate parent h st
              ≡ mark_initial parent st.next (add_substate parent h st).0 =
            simp (e, make_initial_substate) in
          subst (λ (r : Store × Option Error). IsValid r.0) (sym same)
            (mark_initial-IsValid parent st.next (add_substate parent h st).0 v' (omega arith) up)
    ]

pub clear_history-IsValid :
    (s : ℕ) (st : Store) → IsValid st → s < st.next → IsValid (clear_history s st)
unfolding clear_history
clear_history-IsValid s st v known =
    marked-IsValid st s (st.at s).initial_substate none v known (λ c e. v.initial_below s c e)
      (λ c e. absurd (ground arith))
