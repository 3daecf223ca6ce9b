-- ===== src/Agent/Tests.antt =====
-- Runs of agents on concrete scripts.
use sobjectizer.Base.{ℕ, suc, ◌≡◌, ◌<◌, refl, Bool, true, ◌&&◌, none, some, List, [], ◌∷◌}
use sobjectizer.Subscription.Iface.{lookup, thread_safe, final_handler}
use sobjectizer.Subscription.MapBased.{map_based_storage}
use sobjectizer.Subscription.MapBased.Laws.{map_based-StorageLaws}
use sobjectizer.Agent.State.{
  no_states, enter_from, no_history, shallow, deep, awaiting_deregistration_state, deadletter_state,
  max_deep, entered, actual_state_to_enter, update_history_in_parent_states, agent_deactivated,
}
use sobjectizer.Agent.State.Valid.{child}
use sobjectizer.Agent.State.Path.{Chain, top, up}
use sobjectizer.Agent.State.Return.{deep_above, shallow_above, returns_to_last_active}
use sobjectizer.Agent.Switch.Replay.{Active, is_in}
use sobjectizer.Agent.Core.{make_core, exception}
use sobjectizer.Agent.Core.Calls.{
  CoreCall, makes_state, makes_substate, makes_initial_substate, sets_time_limit, changes_state,
  deactivates,
}
use sobjectizer.Agent.Core.Scripts.{
  core_after, track, AllEnd, new_core, at_first, active_states_in_step, calls_end, levels_fit,
  core_after-InOrder, new_core-InOrder,
}
use sobjectizer.Agent.Subscribing.{
  Subscription, AgentCall, on_states, subscribes, subscribes_deadletter, agent_after,
  handler_finder, so_create_event_subscription, of_states,
}
use sobjectizer.Agent.Subscribing.Finder.{nearest, or_else}
use sobjectizer.Agent.Subscribing.Deactivated.{new_agent, finds_nearest, deactivated_for_good}

-- The states 4 and 6 of agent 7, with the substates 5 of 4, 6 and 7 of 5.
abbrev building : List CoreCall
building =
    makes_state 7 shallow
    ∷ makes_initial_substate 4 deep
    ∷ makes_initial_substate 5 no_history
    ∷ makes_substate 5 no_history
    ∷ sets_time_limit 10 4
    ∷ []

abbrev switching : List CoreCall
switching =
    makes_state 7 shallow
    ∷ makes_initial_substate 4 deep
    ∷ makes_initial_substate 5 no_history
    ∷ makes_substate 5 no_history
    ∷ sets_time_limit 10 4
    ∷ changes_state 4
    ∷ changes_state 7
    ∷ changes_state 3
    ∷ changes_state 4
    ∷ []

-- The shallow history of 4 leads to 5, and the deep one of 5 to 7.
back_in_7 : (core_after switching (new_core 7)).current ≡ 7
unfolding core_after make_core no_states enter_from
back_in_7 = refl

active_states_in_step_example :
    let c = core_after switching (new_core 7) in
    (b : Active) × (track switching (new_core 7) at_first ≡ some b)
    × Chain c.states.at c.current b.states
    × ((x : ℕ) → b.limits x ≡ (is_in x b.states && (c.states.at x).time_limit))
active_states_in_step_example = active_states_in_step 7 switching

calls_end_example : AllEnd switching (new_core 7)
calls_end_example = calls_end 7 switching

levels_fit_example :
    let c = core_after switching (new_core 7) in
    ((c.states.at 7).nested_level < max_deep)
    × ((c.states.at 7).nested_level ≡ suc (c.states.at 5).nested_level)
    × (5 < c.states.next)
    × ((c.states.at 7).target_agent ≡ (c.states.at 5).target_agent)
unfolding core_after make_core no_states enter_from
levels_fit_example = levels_fit 7 switching 7 5 refl

returns_to_last_active_example :
    let st = (core_after building (new_core 7)).states in
    actual_state_to_enter 4 (update_history_in_parent_states 7 st) ≡ entered 7
unfolding core_after make_core no_states
returns_to_last_active_example =
    returns_to_last_active (core_after building (new_core 7)).states 7 4
      ((core_after-InOrder building (new_core 7) (new_core-InOrder 7)).valid) refl
      (shallow_above 4 5 refl refl (deep_above 5 refl (child 7 refl)))

abbrev subscription : ℕ → Subscription
subscription n = record {
  mbox = 20;
  msg_type = 1;
  message_sink = some 9;
  method = n;
  thread_safety = thread_safe;
  kind = final_handler;
}

-- A handler in state 4 and a deadletter handler, with 7 as the current state.
abbrev handling : List AgentCall
handling =
    on_states 1 (makes_state 7 no_history)
    ∷ on_states 1 (makes_initial_substate 4 no_history)
    ∷ on_states 1 (changes_state 4)
    ∷ subscribes 1 true (subscription 31) 4
    ∷ subscribes_deadletter 1 true (subscription 32)
    ∷ []

finds_nearest_example :
    let a = agent_after map_based_storage handling (new_agent map_based_storage 7 1 []) in
    handler_finder map_based_storage 20 1 a
    ≡ or_else
        (nearest 20 1 a.subscriptions (5 ∷ 4 ∷ []))
        (lookup 20 1 deadletter_state a.subscriptions)
unfolding agent_after make_core no_states enter_from
finds_nearest_example =
    finds_nearest map_based_storage map_based-StorageLaws 7 1 [] tt handling 20 1 (5 ∷ 4 ∷ [])
      (up 5 4 (4 ∷ []) refl (top 4 refl))

abbrev ending : List AgentCall
ending = subscribes 1 true (subscription 31) 3 ∷ on_states 1 deactivates ∷ []

deactivated_for_good_example :
    let a =
      agent_after map_based_storage handling
        (agent_after map_based_storage ending (new_agent map_based_storage 7 1 [])) in
    (a.core.current ≡ awaiting_deregistration_state)
    × ((m t : ℕ) → handler_finder map_based_storage m t a ≡ none)
    × ((returns : Bool) (x : Subscription) (state : ℕ)
        → (so_create_event_subscription map_based_storage a.working_thread returns x state
            a).failure
          ≡ some (of_states (exception agent_deactivated)))
unfolding agent_after make_core no_states enter_from
deactivated_for_good_example =
    deactivated_for_good map_based_storage map_based-StorageLaws 7 1 [] tt ending handling refl
