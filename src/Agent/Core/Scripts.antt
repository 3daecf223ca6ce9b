-- ===== src/Agent/Core/Scripts.antt =====
-- Scripts of calls on the states of an agent.
use sobjectizer.Base.{
  ℕ, suc, ◌<◌, ◌≡◌, refl, sym, ap, subst, ◌∙◌, inl, inr, Bool, true, false, ◌&&◌, Option, none,
  some, List, [], ◌∷◌, ◌==◌, if◌then◌else◌, arith, Bool-cases, Option-cases,
}
use sobjectizer.Agent.State.{
  History, no_history, State, Store, update, no_states, max_deep, make_state, add_substate,
  make_substate, mark_initial, make_initial_substate, clear_history, Error,
  initial_substate_already_defined, awaiting_deregistration_state,
}
use sobjectizer.Agent.State.Valid.{IsValid, SameTree, no_states-IsValid}
use sobjectizer.Agent.State.Path.{Chain, top}
use sobjectizer.Agent.State.Build.{
  make_state-IsValid, make_initial_substate-IsValid, clear_history-IsValid,
}
use sobjectizer.Agent.Switch.Replay.{Active, replay, is_in}
use sobjectizer.Agent.Core.{Core, endless, Changed, returns, make_core}
use sobjectizer.Agent.Core.InOrder.{InOrder, Tracks, Keeps, returns-Keeps}
use sobjectizer.Agent.Core.Switching.{do_change_agent_state-Keeps}
use sobjectizer.Agent.Core.Calls.{
  CoreCall, makes_state, makes_substate, makes_initial_substate, clears_history, sets_time_limit,
  drops_time_limit, changes_state, deactivates, is_made, is_own, built, call,
}
use sobjectizer.Agent.Core.Growth.{
  Growth, grown-Keeps, remarked-Growth, made_known, same-Growth, make_state-Growth,
  add_substate-Growth,
}
use sobjectizer.Agent.Core.Limits.{drop_time_limit-Keeps, time_limit-Keeps}

-- A store in which one state has another initial substate.
abbrev initialled : Store → ℕ → ℕ → ℕ → State
initialled st p d = update st.at p (record (st.at p) { initial_substate = some d })

initialled-SameTree : (st : Store) (p d : ℕ) → SameTree st.at (initialled st p d)
initialled-SameTree st p d = record {
  parent = λ x. ground arith;
  level = λ x. ground arith;
  count = λ x. ground arith;
  agent = λ x. ground arith;
  limit = λ x. ground arith;
}

mark_initial-Growth :
    (c : Core) (p d : ℕ) (st : Store)
    → Growth c st
    → IsValid (mark_initial p d st).0
    → Growth c (mark_initial p d st).0
unfolding mark_initial
mark_initial-Growth c p d st g v = elim (Option-cases (st.at p).initial_substate) [
  | inr (x, e) ↦
      let same : mark_initial p d st ≡ (st, some initial_substate_already_defined) =
        simp (e, mark_initial) in
      subst (λ (r : Store × Option Error). Growth c r.0) (sym same) g
  | inl e ↦
      let same : mark_initial p d st ≡ (record st { at = initialled st p d }, none) =
        simp (e, mark_initial) in
      subst (λ (r : Store × Option Error). Growth c r.0) (sym same)
        (remarked-Growth c st (initialled st p d) g (initialled-SameTree st p d)
          (subst (λ (r : Store × Option Error). IsValid r.0) same v))
]

make_initial_substate-Growth :
    (p : ℕ) (h : History) (c : Core)
    → InOrder c
    → is_made p c ≡ true
    → Growth c (make_initial_substate p h c.states).0
unfolding make_initial_substate
make_initial_substate-Growth p h c o made =
    let st = c.states in
    let g = add_substate-Growth p h c o made in
    let v = make_initial_substate-IsValid p h st o.valid (made_known c p o made) in
    elim (Option-cases (add_substate p h st).1) [
      | inr (failure, e) ↦
          let same : make_initial_substate p h st ≡ ((add_substate p h st).0, some failure) =
            simp (e, make_initial_substate) in
          subst (λ (r : Store × Option Error). Growth c r.0) (sym same) g
      | inl e ↦
          let same : make_initial_substate p h st ≡ mark_initial p st.next (add_substate p h st).0 =
            simp (e, make_initial_substate) in
          subst (λ (r : Store × Option Error). Growth c r.0) (sym same)
            (mark_initial-Growth c p st.next (add_substate p h st).0 g
              (subst (λ (r : Store × Option Error). IsValid r.0) same v))
    ]

clear_history-Growth :
    (s : ℕ) (c : Core) → InOrder c → is_made s c ≡ true → Growth c (clear_history s c.states)
unfolding clear_history
clear_history-Growth s c o made =
    remarked-Growth c c.states
      (update c.states.at s (record (c.states.at s) { last_active_substate = none }))
      (same-Growth c o)
      (record {
        parent = λ x. ground arith;
        level = λ x. ground arith;
        count = λ x. ground arith;
        agent = λ x. ground arith;
        limit = λ x. ground arith;
      })
      (clear_history-IsValid s c.states o.valid (made_known c s o made))

-- A guarded call does its work, or nothing.
guarded-Keeps :
    (c : Core) (b : Bool) (r : Changed)
    → InOrder c
    → (b ≡ true → Keeps c r)
    → Keeps c (if b then r else returns c)
guarded-Keeps c true r o h = h refl
guarded-Keeps c false r o h = returns-Keeps c o

unless-Keeps :
    (c : Core) (b : Bool) (r : Changed)
    → InOrder c
    → Keeps c r
    → Keeps c (if b then returns c else r)
unless-Keeps c true r o h = returns-Keeps c o
unless-Keeps c false r o h = h

pub call-Keeps : (x : CoreCall) (c : Core) → InOrder c → Keeps c (call x c)
unfolding call
call-Keeps (makes_state agent h) c o =
    grown-Keeps c (make_state agent h c.states).0 none o (make_state-Growth agent h c o)
call-Keeps (makes_substate p h) c o =
    guarded-Keeps c (is_made p c) (built c (make_substate p h c.states)) o (λ made.
      grown-Keeps c (add_substate p h c.states).0 (add_substate p h c.states).1 o
        (add_substate-Growth p h c o made))
call-Keeps (makes_initial_substate p h) c o =
    guarded-Keeps c (is_made p c) (built c (make_initial_substate p h c.states)) o (λ made.
      grown-Keeps c (make_initial_substate p h c.states).0 (make_initial_substate p h c.states).1 o
        (make_initial_substate-Growth p h c o made))
call-Keeps (clears_history s) c o =
    guarded-Keeps c (is_made s c) (built c (clear_history s c.states, none)) o
      (λ made. grown-Keeps c (clear_history s c.states) none o (clear_history-Growth s c o made))
call-Keeps (sets_time_limit timeout s) c o =
    guarded-Keeps c (is_own s c) _ o (time_limit-Keeps timeout s c o)
call-Keeps (drops_time_limit s) c o = guarded-Keeps c (is_own s c) _ o (drop_time_limit-Keeps s c o)
call-Keeps (changes_state s) c o =
    unless-Keeps c (s == awaiting_deregistration_state) _ o (do_change_agent_state-Keeps s c o)
call-Keeps deactivates c o = do_change_agent_state-Keeps awaiting_deregistration_state c o

-- The agent after a script.
unfoldable pub core_after : List CoreCall → Core → Core
unfolding call
core_after [] c = c
core_after (x ∷ xs) c = core_after xs (call x c).core

-- The signals of all calls of a script, replayed.
unfoldable pub track : List CoreCall → Core → Active → Option Active
unfolding call replay
track [] c a = some a
track (x ∷ xs) c a = elim (replay c.states.at (call x c).signals a) [
  | none ↦ none
  | some b ↦ track xs (call x c).core b
]

-- No call of a script is in a loop that does not end.
abbrev pub AllEnd : List CoreCall → Core → Type 0
AllEnd [] c = Unit
AllEnd (x ∷ xs) c = ((call x c).failure ≡ some endless → ⊥) × AllEnd xs (call x c).core

pub core_after-InOrder : (xs : List CoreCall) (c : Core) → InOrder c → InOrder (core_after xs c)
unfolding core_after
core_after-InOrder [] c o = o
core_after-InOrder (x ∷ xs) c o = core_after-InOrder xs (call x c).core (call-Keeps x c o).0

call-AllEnd : (xs : List CoreCall) (c : Core) → InOrder c → AllEnd xs c
call-AllEnd [] c o = tt
call-AllEnd (x ∷ xs) c o =
    ((call-Keeps x c o).2, call-AllEnd xs (call x c).core (call-Keeps x c o).0)

track-Tracks :
    (xs : List CoreCall) (c : Core) (a : Active)
    → InOrder c
    → Tracks c a
    → (b : Active) × (track xs c a ≡ some b) × Tracks (core_after xs c) b
unfolding track core_after
track-Tracks [] c a o t = (a, refl, t)
track-Tracks (x ∷ xs) c a o t =
    let (b, e, t') = (call-Keeps x c o).1 a t in
    let (d, e', last) = track-Tracks xs (call x c).core b (call-Keeps x c o).0 t' in
    let whole : track (x ∷ xs) c a ≡ some d = simp (e, e', track) in (d, whole, last)

abbrev pub new_core : ℕ → Core
new_core self = make_core self no_states

pub new_core-InOrder : (self : ℕ) → InOrder (new_core self)
unfolding make_core make_state no_states
new_core-InOrder self = record {
  valid = make_state-IsValid self no_history no_states no_states-IsValid;
  same_agent = λ s p e. absurd (no_parent s p e);
  enough = omega arith;
  awaiting_agent = refl;
  awaiting_leaf = refl;
  deadletter_agent = refl;
  own_current = ground arith;
}
  where
    no_parent : (s p : ℕ) → ((new_core self).states.at s).parent_state ≡ some p → ⊥
    no_parent s p e = elim (Bool-cases (s == 3)) [ inl h ↦ ground arith | inr h ↦ ground arith ]

-- Nothing but the default state is active at first.
abbrev pub at_first : Active
at_first = record { states = 3 ∷ []; limits = λ x. false }

new_core-Tracks : (self : ℕ) → Tracks (new_core self) at_first
unfolding make_core make_state no_states is_in
new_core-Tracks self =
    (3 ∷ [], top 3 refl, record { same_states = refl; same_limits = λ x. ground arith })

-- For every script of calls on a new agent: the signals of its calls, replayed from the default
-- state, leave each state as the innermost one only, enter each from its parent, set no time limit
-- twice; at the end the active states are the chain of the current state up to the top, and the
-- limits set are those of the active states that have one.
pub active_states_in_step :
    (self : ℕ) (script : List CoreCall)
    → let c = core_after script (new_core self) in
      (b : Active) × (track script (new_core self) at_first ≡ some b)
      × Chain c.states.at c.current b.states
      × ((x : ℕ) → b.limits x ≡ (is_in x b.states && (c.states.at x).time_limit))
active_states_in_step self script =
    let (b, e, (l, chain, m)) =
      track-Tracks script (new_core self) at_first (new_core-InOrder self) (new_core-Tracks self) in
    let c = core_after script (new_core self) in
    let same = m.same_states in
    (
      b,
      e,
      subst (λ k. Chain c.states.at c.current k) (sym same) chain,
      (λ x. m.same_limits x ∙ ap (λ k. is_in x k && (c.states.at x).time_limit) (sym same)),
    )

-- Every call of a script on a new agent ends: the loop that enters a state never runs for ever.
pub calls_end : (self : ℕ) (script : List CoreCall) → AllEnd script (new_core self)
calls_end self script = call-AllEnd script (new_core self) (new_core-InOrder self)

-- After every script of calls on a new agent, a state with a parent has a level below the length of
-- the array that takes a path, which is one more than that of its parent; the parent exists and
-- belongs to the same agent.
pub levels_fit :
    (self : ℕ) (script : List CoreCall) (s p : ℕ)
    → ((core_after script (new_core self)).states.at s).parent_state ≡ some p
    → let c = core_after script (new_core self) in
      ((c.states.at s).nested_level < max_deep)
      × ((c.states.at s).nested_level ≡ suc (c.states.at p).nested_level)
      × (p < c.states.next)
      × ((c.states.at s).target_agent ≡ (c.states.at p).target_agent)
levels_fit self script s p e =
    let o = core_after-InOrder script (new_core self) (new_core-InOrder self) in
    (o.valid.deep_enough s, o.valid.level s p e, o.valid.known s p e, o.same_agent s p e)
