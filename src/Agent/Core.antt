-- ===== src/Agent/Core.antt =====
-- The states of an agent: the part of `agent_t` in agent.cpp that switches them, and time limits.
pub mod InOrder
pub mod Switching
pub mod Calls
pub mod Growth
pub mod Limits
pub mod Changes
pub mod Scripts
use sobjectizer.Base.{
  ℕ, zero, suc, ◌+◌, ◌-◌, Bool, true, false, not, ◌&&◌, Option, none, some, List, [], ◌∷◌, ◌++◌,
  ltb, leb, ◌==◌, if◌then◌else◌,
}
use sobjectizer.Agent.State.{
  History, no_history, State, Store, update, awaiting_deregistration_state, no_states, make_state,
  Error, another_state_switch_in_progress, agent_deactivated, agent_unknown_state,
  invalid_time_limit_for_state, is_target, Entered, entered, failed, out_of_fuel,
  actual_state_to_enter, fill_path,
}
use sobjectizer.Agent.Switch.{Signal, limit_set, limit_dropped, do_state_switch}

pub data Status : Type 0 where
  not_defined_yet defined state_switch_in_progress : Status

-- The agent's address, the states of the program, its current state and its status.
pub record Core : Type 0 where
  pub self : ℕ
  pub states : Store
  pub current : ℕ
  pub status : Status

-- An exception, or a loop that does not end.
pub data Failure : Type 0 where
  exception : Error → Failure
  endless : Failure

-- What a method leaves: the core, the signals raised, the state told to the listeners, the failure.
pub record Changed : Type 0 where
  pub core : Core
  pub signals : List Signal
  pub told : Option ℕ
  pub failure : Option Failure

abbrev pub returns : Core → Changed
returns c = record { core = c; signals = []; told = none; failure = none }

abbrev pub throws : Error → Core → Changed
throws e c = record { core = c; signals = []; told = none; failure = some (exception e) }

-- A new agent in its default state, in a program with some states.
unfoldable pub make_core : ℕ → Store → Core
unfolding make_state
make_core self st =
    let (st', s) = make_state self no_history st in
    record { self = self; states = st'; current = s; status = not_defined_yet }

abbrev pub is_agent_deactivated : Core → Bool
is_agent_deactivated c = c.current == awaiting_deregistration_state

-- The search of `std::find` on the path, from index `i`.
unfoldable pub find_on_path : ℕ → (ℕ → ℕ) → ℕ → ℕ → Bool
find_on_path zero path i s = false
find_on_path (suc rounds) path i s =
    let rest = find_on_path rounds path (i + 1) s in if path i == s then true else rest

unfoldable pub so_is_active_state : ℕ → Core → Bool
unfolding find_on_path
so_is_active_state s c =
    find_on_path ((c.states.at c.current).nested_level + 1) (fill_path c.current c.states.at) 0 s

abbrev pub in_progress : Status → Bool
in_progress not_defined_yet = false
in_progress defined = false
in_progress state_switch_in_progress = true

-- `do_change_agent_state` from the entering of the state on. The guard sets the status and puts it
-- back.
unfoldable pub switch_to : Entered → Core → Changed
unfolding do_state_switch
switch_to (entered s) c =
    if s == c.current
    then returns c
    else let (st, signals) = do_state_switch c.current s c.states in
      record {
        core = record c { states = st; current = s };
        signals = signals;
        told = some s;
        failure = none;
      }
switch_to (failed e) c = throws e c
switch_to out_of_fuel c = record { core = c; signals = []; told = none; failure = some endless }

unfoldable pub do_change_agent_state : ℕ → Core → Changed
unfolding switch_to
do_change_agent_state s c =
    if is_agent_deactivated c && not (s == awaiting_deregistration_state)
    then throws agent_deactivated c
    else if is_target c.self s c.states
    then if in_progress c.status
      then throws another_state_switch_in_progress c
      else switch_to (actual_state_to_enter s c.states) c
    else throws agent_unknown_state c

abbrev pub with_limit : ℕ → Bool → Store → Store
with_limit s b st = record st { at = update st.at s (record (st.at s) { time_limit = b }) }

-- `drop_time_limit` of a state of the agent.
unfoldable pub drop_time_limit : ℕ → Core → Changed
drop_time_limit s c =
    if (c.states.at s).time_limit
    then record {
      core = record c { states = with_limit s false c.states };
      signals = limit_dropped s ∷ [];
      told = none;
      failure = none;
    }
    else returns c

-- `time_limit` of a state of the agent.
unfoldable pub time_limit : ℕ → ℕ → Core → Changed
unfolding drop_time_limit so_is_active_state
time_limit timeout s c =
    if timeout == 0
    then throws invalid_time_limit_for_state c
    else let dropped = drop_time_limit s c in
      record dropped {
        core = record (dropped.core) { states = with_limit s true dropped.core.states };
        signals = dropped.signals ++ (if so_is_active_state s c then limit_set s ∷ [] else []);
      }
