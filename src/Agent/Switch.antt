-- ===== src/Agent/Switch.antt =====
-- `agent_t::do_state_switch` of agent.cpp, with `call_on_enter` and `call_on_exit` of state.hpp.
pub mod Replay
pub mod Proof
use sobjectizer.Base.{
  ℕ, zero, suc, ◌+◌, ◌-◌, Bool, true, false, Option, none, some, List, [], ◌∷◌, ◌++◌, ltb, leb,
  ◌==◌, if◌then◌else◌,
}
use sobjectizer.Agent.State.{State, Store, fill_path, update_history_in_parent_states}

-- What a switch does for a state: its handlers, and its time limit.
pub data Signal : Type 0 where
  on_exit on_enter limit_set limit_dropped : ℕ → Signal

unfoldable pub call_on_enter : (ℕ → State) → ℕ → List Signal
call_on_enter f s = on_enter s ∷ (if (f s).time_limit then limit_set s ∷ [] else [])

unfoldable pub call_on_exit : (ℕ → State) → ℕ → List Signal
call_on_exit f s = if (f s).time_limit then limit_dropped s ∷ on_exit s ∷ [] else on_exit s ∷ []

-- The loop for the first difference of two paths, with its rounds.
unfoldable pub first_diff_from : ℕ → (ℕ → ℕ) → (ℕ → ℕ) → ℕ → ℕ
first_diff_from zero old new i = i
first_diff_from (suc rounds) old new i =
    if old i == new i then first_diff_from rounds old new (i + 1) else i

abbrev pub min : ℕ → ℕ → ℕ
min m n = if leb m n then m else n

-- The loop of exits, from `i` down to `first_diff`.
unfoldable pub exits_from : (ℕ → State) → (ℕ → ℕ) → ℕ → ℕ → List Signal
unfolding call_on_exit
exits_from f old first_diff zero = if leb first_diff 0 then call_on_exit f (old 0) else []
exits_from f old first_diff (suc i) =
    let rest = exits_from f old first_diff i in
    if leb first_diff (suc i) then call_on_exit f (old (suc i)) ++ rest else []

-- The loop of enters, from `i` up, with its rounds.
unfoldable pub enters_from : ℕ → (ℕ → State) → (ℕ → ℕ) → ℕ → List Signal
unfolding call_on_enter
enters_from zero f new i = []
enters_from (suc rounds) f new i = call_on_enter f (new i) ++ enters_from rounds f new (i + 1)

-- The signals of a switch.
unfoldable pub switch_signals : (ℕ → State) → ℕ → ℕ → List Signal
unfolding first_diff_from exits_from enters_from
switch_signals f current s =
    let old = fill_path current f in
    let new = fill_path s f in
    let first_diff = first_diff_from (min (f current).nested_level (f s).nested_level) old new 0 in
    exits_from f old first_diff (f current).nested_level
    ++ enters_from ((f s).nested_level + 1 - first_diff) f new first_diff

-- The store and the signals; the new current state is `s`.
unfoldable pub do_state_switch : ℕ → ℕ → Store → Store × List Signal
unfolding update_history_in_parent_states switch_signals
do_state_switch current s st =
    (update_history_in_parent_states s st, switch_signals st.at current s)
