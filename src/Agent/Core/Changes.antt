-- ===== src/Agent/Core/Changes.antt =====
-- What a change of the state leaves where it fails, and where the agent is deactivated.
use sobjectizer.Base.{
  ℕ, ◌≡◌, ◌≢◌, refl, sym, ap, subst, ◌∙◌, inl, inr, ◌⊎◌, true, not, ◌&&◌, none, some, ◌==◌, arith,
  Bool-cases,
}
use sobjectizer.Agent.State.{
  Error, awaiting_deregistration_state, is_target, actual_state_to_enter, Entered, entered, failed,
  out_of_fuel, agent_deactivated, agent_unknown_state, another_state_switch_in_progress,
}
use sobjectizer.Agent.State.Enter.{AtOrBelow, itself, below, Ends, actual_state_to_enter-Ends}
use sobjectizer.Agent.Core.{
  Core, Failure, Changed, throws, switch_to, do_change_agent_state, is_agent_deactivated,
  in_progress, time_limit, drop_time_limit,
}
use sobjectizer.Agent.Core.InOrder.{InOrder, Below-agent, not_below_awaiting}
use sobjectizer.Agent.Core.Calls.{
  CoreCall, makes_state, makes_substate, makes_initial_substate, clears_history, sets_time_limit,
  drops_time_limit, changes_state, deactivates, call,
}

-- The four results of a change.
data Change (s : ℕ) (c : Core) : Changed → Type 0 where
  thrown_out : (e : Error) → Change s c (throws e c)
  entering :
      is_target c.self s c.states ≡ true
      → Change s c (switch_to (actual_state_to_enter s c.states) c)

Change-cases : (s : ℕ) (c : Core) → Change s c (do_change_agent_state s c)
unfolding do_change_agent_state
Change-cases s c =
    elim (Bool-cases (is_agent_deactivated c && not (s == awaiting_deregistration_state))) [
      | inl e ↦ rw e (thrown_out agent_deactivated)
      | inr e ↦ elim (Bool-cases (is_target c.self s c.states)) [
        | inr e' ↦ rw e (rw e' (thrown_out agent_unknown_state))
        | inl e' ↦ elim (Bool-cases (in_progress c.status)) [
          | inl k ↦ rw e (rw e' (rw k (thrown_out another_state_switch_in_progress)))
          | inr k ↦ rw e (rw e' (rw k (entering e')))
        ]
      ]
    ]

switch_to-failed :
    (x : Entered) (c : Core) (f : Failure)
    → (switch_to x c).failure ≡ some f
    → (switch_to x c).core ≡ c
unfolding switch_to
switch_to-failed (entered s) c f e = elim (Bool-cases (s == c.current)) [
  | inl k ↦ rw k refl
  | inr k ↦ let no_failure : (switch_to (entered s) c).failure ≡ none = rw k refl in absurd (cc)
]
switch_to-failed (failed e') c f e = refl
switch_to-failed out_of_fuel c f e = refl

-- A change that fails leaves the states of the agent as they were.
pub failed_change :
    (s : ℕ) (c : Core) (f : Failure)
    → (do_change_agent_state s c).failure ≡ some f
    → (do_change_agent_state s c).core ≡ c
failed_change s c f e = by_cases (Change-cases s c) e
  where
    by_cases : {r : Changed} → Change s c r → r.failure ≡ some f → r.core ≡ c
    by_cases (thrown_out x) h = refl
    by_cases (entering own) h = switch_to-failed (actual_state_to_enter s c.states) c f h

-- Where a switch leads, but to the current state itself.
switch_to-current :
    (x : Entered) (c : Core)
    → ((switch_to x c).core.current ≡ c.current)
      ⊎ ((s : ℕ) × (x ≡ entered s) × ((switch_to x c).core.current ≡ s))
unfolding switch_to
switch_to-current (entered s) c = elim (Bool-cases (s == c.current)) [
  | inl k ↦ inl (rw k refl)
  | inr k ↦ inr (s, refl, rw k refl)
]
switch_to-current (failed e) c = inl refl
switch_to-current out_of_fuel c = inl refl

-- From 1, the loop of entering ends at 1.
enters_awaiting :
    (c : Core) (x : ℕ)
    → InOrder c
    → AtOrBelow c.states.at awaiting_deregistration_state x
    → x ≡ awaiting_deregistration_state
enters_awaiting c x o (itself _ e) = sym e
enters_awaiting c x o (below _ b) = absurd (not_below_awaiting c o b)

ended_at :
    (c : Core) (s x : ℕ)
    → InOrder c
    → actual_state_to_enter s c.states ≡ entered x
    → AtOrBelow c.states.at s x
ended_at c s x o e =
    (subst (λ y. Ends c.states.at s y) e (actual_state_to_enter-Ends c.states s o.valid)).0

refused_away :
    (s : ℕ) (c : Core)
    → (is_agent_deactivated c && not (s == awaiting_deregistration_state)) ≡ true
    → do_change_agent_state s c ≡ throws agent_deactivated c
unfolding do_change_agent_state
refused_away s c e = rw e refl

-- An agent that is deactivated stays so.
pub deactivated_stays :
    (s : ℕ) (c : Core)
    → InOrder c
    → c.current ≡ awaiting_deregistration_state
    → (do_change_agent_state s c).core.current ≡ awaiting_deregistration_state
deactivated_stays s c o now = elim (Bool-cases (s == awaiting_deregistration_state)) [
  | inr k ↦
      let away : (is_agent_deactivated c && not (s == awaiting_deregistration_state)) ≡ true =
        ground arith in
      ap (λ (r : Changed). r.core.current) (refused_away s c away) ∙ now
  | inl k ↦ by_cases (Change-cases s c) (ground arith)
]
  where
    by_cases :
        {r : Changed}
        → Change s c r
        → s ≡ awaiting_deregistration_state
        → r.core.current ≡ awaiting_deregistration_state
    by_cases (thrown_out x) k = now
    by_cases (entering own) k = elim (switch_to-current (actual_state_to_enter s c.states) c) [
      | inl same ↦ same ∙ now
      | inr (x, e, at) ↦
          at ∙ enters_awaiting c x o (subst (λ y. AtOrBelow c.states.at y x) k (ended_at c s x o e))
    ]

-- Only a change to the state for deactivated agents leads there.
pub awaiting_from :
    (s : ℕ) (c : Core)
    → InOrder c
    → s ≢ awaiting_deregistration_state
    → (do_change_agent_state s c).core.current ≡ awaiting_deregistration_state
    → c.current ≡ awaiting_deregistration_state
awaiting_from s c o other = by_cases (Change-cases s c)
  where
    by_cases :
        {r : Changed}
        → Change s c r
        → r.core.current ≡ awaiting_deregistration_state
        → c.current ≡ awaiting_deregistration_state
    by_cases (thrown_out x) h = h
    by_cases (entering own) h = elim (switch_to-current (actual_state_to_enter s c.states) c) [
      | inl same ↦ sym same ∙ h
      | inr (x, e, at) ↦
          let place = subst (λ y. AtOrBelow c.states.at s y) (sym at ∙ h) (ended_at c s x o e) in
          absurd (not_awaiting place)
    ]
      where
        not_awaiting : AtOrBelow c.states.at s awaiting_deregistration_state → ⊥
        not_awaiting (itself _ k) = other k
        not_awaiting (below _ b) =
            let same = Below-agent c o b in
            let none_there = o.awaiting_agent in other (ground arith)

-- The calls that make no change of the state leave the current state.
pub shape-current :
    (x : CoreCall) (c : Core)
    → ((s : ℕ) → x ≢ changes_state s)
    → x ≢ deactivates
    → (call x c).core.current ≡ c.current
unfolding call time_limit drop_time_limit
shape-current (makes_state agent h) c d e = refl
shape-current (makes_substate p h) c d e = ground arith
shape-current (makes_initial_substate p h) c d e = ground arith
shape-current (clears_history s) c d e = ground arith
shape-current (sets_time_limit timeout s) c d e = ground arith
shape-current (drops_time_limit s) c d e = ground arith
shape-current (changes_state s) c d e = absurd (d s refl)
shape-current deactivates c d e = absurd (e refl)
