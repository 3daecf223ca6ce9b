-- ===== src/Agent/Core/Calls.antt =====
-- The calls on the states of an agent.
use sobjectizer.Base.{ℕ, Bool, true, false, Option, none, some, [], ◌==◌, if◌then◌else◌}
use sobjectizer.Agent.State.{
  History, Store, make_state, add_substate, make_substate, make_initial_substate, clear_history,
  Error, awaiting_deregistration_state,
}
use sobjectizer.Agent.Core.{
  Core, Failure, exception, Changed, returns, time_limit, drop_time_limit, do_change_agent_state,
}

pub data CoreCall : Type 0 where
  makes_state : ℕ → History → CoreCall
  makes_substate makes_initial_substate : ℕ → History → CoreCall
  clears_history : ℕ → CoreCall
  sets_time_limit : ℕ → ℕ → CoreCall
  drops_time_limit : ℕ → CoreCall
  changes_state : ℕ → CoreCall
  deactivates : CoreCall

-- Is there a state of some agent at the address?
abbrev pub is_made : ℕ → Core → Bool
is_made s c = elim (c.states.at s).target_agent [ none ↦ false | some a ↦ true ]

-- Is there a state of this agent at the address?
abbrev pub is_own : ℕ → Core → Bool
is_own s c = elim (c.states.at s).target_agent [ none ↦ false | some a ↦ a == c.self ]

abbrev pub thrown : Option Error → Option Failure
thrown none = none
thrown (some e) = some (exception e)

abbrev pub built : Core → Store × Option Error → Changed
built c (st, e) = record {
  core = record c { states = st };
  signals = [];
  told = none;
  failure = thrown e;
}

-- A call on a state that does not exist, or a call for a state of another agent, does nothing.
unfoldable pub call : CoreCall → Core → Changed
unfolding make_state add_substate make_initial_substate clear_history time_limit drop_time_limit
    do_change_agent_state
call (makes_state agent h) c = built c ((make_state agent h c.states).0, none)
call (makes_substate p h) c =
    if is_made p c then built c (make_substate p h c.states) else returns c
call (makes_initial_substate p h) c =
    if is_made p c then built c (make_initial_substate p h c.states) else returns c
call (clears_history s) c =
    if is_made s c then built c (clear_history s c.states, none) else returns c
call (sets_time_limit timeout s) c = if is_own s c then time_limit timeout s c else returns c
call (drops_time_limit s) c = if is_own s c then drop_time_limit s c else returns c
call (changes_state s) c =
    if s == awaiting_deregistration_state then returns c else do_change_agent_state s c
call deactivates c = do_change_agent_state awaiting_deregistration_state c
