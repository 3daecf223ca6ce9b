-- ===== src/Agent/Subscribing.antt =====
-- The subscriptions of an agent: the part of `agent_t` in agent.cpp over a subscription storage.
pub mod Finder
pub mod Invariant
pub mod Deactivated
use sobjectizer.Base.{
  ℕ, zero, suc, Bool, true, false, Option, none, some, List, [], ◌∷◌, ◌==◌, if◌then◌else◌,
}
use sobjectizer.Subscription.Iface.{
  StorageOps, SubscrInfo, EventHandlerData, ThreadSafety, EventHandlerKind, final_handler, MboxCall,
  Outcome,
}
use sobjectizer.Agent.State.{
  State, awaiting_deregistration_state, deadletter_state, max_deep, agent_deactivated,
  operation_enabled_only_on_agent_working_thread, message_has_no_limit_defined,
}
use sobjectizer.Agent.State as States
use sobjectizer.Agent.Switch.{Signal}
use sobjectizer.Agent.Core.{
  Core, Failure, exception, Changed, is_agent_deactivated, do_change_agent_state,
}
use sobjectizer.Agent.Core.Calls.{CoreCall, changes_state, deactivates, call}

pub data AgentFailure : Type 0 where
  of_states : Failure → AgentFailure
  of_storage : sobjectizer.Subscription.Iface.Error → AgentFailure

-- What a subscription is made of but its state: the message sink is `none` where the type has no
-- message limit and needs one.
pub record Subscription : Type 0 where
  pub mbox : ℕ
  pub msg_type : ℕ
  pub message_sink : Option ℕ
  pub method : ℕ
  pub thread_safety : ThreadSafety
  pub kind : EventHandlerKind

pub data AgentCall : Type 0 where
  on_states : ℕ → CoreCall → AgentCall
  subscribes : ℕ → Bool → Subscription → ℕ → AgentCall
  subscribes_deadletter : ℕ → Bool → Subscription → AgentCall
  drops_subscription : ℕ → ℕ → ℕ → ℕ → AgentCall
  drops_deadletter drops_for_all_states : ℕ → ℕ → ℕ → AgentCall

module _ (ops : StorageOps) where
  pub record Agent : Type 0 where
    pub core : Core
    pub subscriptions : ops.Storage
    pub working_thread : ℕ

  -- The agent after a method, the signals and the calls on mboxes that it made, and its failure.
  pub record Done : Type 0 where
    pub agent : Agent
    pub signals : List Signal
    pub calls : List MboxCall
    pub failure : Option AgentFailure

  abbrev pub quiet : Agent → Done
  quiet a = record { agent = a; signals = []; calls = []; failure = none }

  abbrev pub refuses : States.Error → Agent → Done
  refuses e a = record {
    agent = a;
    signals = [];
    calls = [];
    failure = some (of_states (exception e));
  }

  -- `ensure_operation_is_on_working_thread`, before the rest of a method.
  abbrev pub on_working_thread : ℕ → Agent → Done → Done
  on_working_thread thread a rest =
      if thread == a.working_thread
      then rest
      else refuses operation_enabled_only_on_agent_working_thread a

  abbrev pub states_failure : Option Failure → Option AgentFailure
  states_failure none = none
  states_failure (some f) = some (of_states f)

  abbrev pub with_states : Changed → Agent → Done
  with_states r a = record {
    agent = record a { core = r.core };
    signals = r.signals;
    calls = [];
    failure = states_failure r.failure;
  }

  unfoldable pub so_change_state : ℕ → ℕ → Agent → Done
  unfolding do_change_agent_state
  so_change_state thread s a =
      on_working_thread thread a (with_states (do_change_agent_state s a.core) a)

  -- `destroy_all_subscriptions_and_filters`, after a change of the state that returns.
  abbrev pub destroy_all : Option Failure → Changed → Agent → Done
  destroy_all (some f) r a = with_states r a
  destroy_all none r a =
      let (s, calls) = ops.drop_all_subscriptions a.subscriptions in
      record {
        agent = record a { core = r.core; subscriptions = s };
        signals = r.signals;
        calls = calls;
        failure = none;
      }

  unfoldable pub so_deactivate_agent : ℕ → Agent → Done
  unfolding do_change_agent_state
  so_deactivate_agent thread a =
      let r = do_change_agent_state awaiting_deregistration_state a.core in
      on_working_thread thread a (destroy_all r.failure r a)

  abbrev pub storage_failure : Option sobjectizer.Subscription.Iface.Error → Option AgentFailure
  storage_failure none = none
  storage_failure (some e) = some (of_storage e)

  abbrev pub stored : Outcome ops.Storage → Agent → Done
  stored r a = record {
    agent = record a { subscriptions = r.storage };
    signals = [];
    calls = r.calls;
    failure = storage_failure r.error;
  }

  -- The body that the two methods for new subscriptions share. The flag says whether the mbox's
  -- `subscribe_event_handler` returns.
  unfoldable pub create_in_state : ℕ → Bool → Subscription → ℕ → EventHandlerKind → Agent → Done
  create_in_state thread returns x state kind a = on_working_thread thread a (
      if is_agent_deactivated a.core then refuses agent_deactivated a else elim x.message_sink [
        | none ↦ refuses message_has_no_limit_defined a
        | some sink ↦
            stored
              (ops.create_event_subscription returns
                (record {
                  mbox = x.mbox;
                  msg_type = x.msg_type;
                  message_sink = sink;
                  state = state;
                  handler = record {
                    method = x.method;
                    thread_safety = x.thread_safety;
                    kind = kind;
                  };
                })
                a.subscriptions)
              a
      ])

  unfoldable pub so_create_event_subscription : ℕ → Bool → Subscription → ℕ → Agent → Done
  unfolding create_in_state
  so_create_event_subscription thread returns x state a =
      create_in_state thread returns x state x.kind a

  unfoldable pub so_create_deadletter_subscription : ℕ → Bool → Subscription → Agent → Done
  unfolding create_in_state
  so_create_deadletter_subscription thread returns x a =
      create_in_state thread returns x deadletter_state final_handler a

  abbrev pub dropped : ops.Storage × List MboxCall → Agent → Done
  dropped (s, calls) a = record {
    agent = record a { subscriptions = s };
    signals = [];
    calls = calls;
    failure = none;
  }

  unfoldable pub do_drop_subscription : ℕ → ℕ → ℕ → ℕ → Agent → Done
  do_drop_subscription thread mbox msg_type state a =
      on_working_thread thread a
        (dropped (ops.drop_subscription mbox msg_type state a.subscriptions) a)

  unfoldable pub so_destroy_deadletter_subscription : ℕ → ℕ → ℕ → Agent → Done
  so_destroy_deadletter_subscription thread mbox msg_type a =
      on_working_thread thread a
        (dropped (ops.drop_subscription mbox msg_type deadletter_state a.subscriptions) a)

  unfoldable pub do_drop_subscription_for_all_states : ℕ → ℕ → ℕ → Agent → Done
  do_drop_subscription_for_all_states thread mbox msg_type a =
      on_working_thread thread a
        (dropped (ops.drop_subscription_for_all_states mbox msg_type a.subscriptions) a)

  -- The loop of `find_event_handler_for_current_state`, from the state `s` up, with its rounds.
  unfoldable pub find_from : ℕ → ℕ → ℕ → ℕ → Agent → Option EventHandlerData
  find_from zero mbox msg_type s a = none
  find_from (suc rounds) mbox msg_type s a =
      elim (ops.find_handler mbox msg_type s a.subscriptions) [
        | some h ↦ some h
        | none ↦ elim (a.core.states.at s).parent_state [
          | none ↦ none
          | some p ↦ find_from rounds mbox msg_type p a
        ]
      ]

  abbrev pub find_event_handler_for_current_state : ℕ → ℕ → Agent → Option EventHandlerData
  find_event_handler_for_current_state mbox msg_type a =
      find_from max_deep mbox msg_type a.core.current a

  abbrev pub find_deadletter_handler : ℕ → ℕ → Agent → Option EventHandlerData
  find_deadletter_handler mbox msg_type a =
      ops.find_handler mbox msg_type deadletter_state a.subscriptions

  unfoldable pub handler_finder : ℕ → ℕ → Agent → Option EventHandlerData
  unfolding find_from
  handler_finder mbox msg_type a = elim (find_event_handler_for_current_state mbox msg_type a) [
    | some h ↦ some h
    | none ↦ find_deadletter_handler mbox msg_type a
  ]

  abbrev pub is_some : Option EventHandlerData → Bool
  is_some none = false
  is_some (some h) = true

  unfoldable pub do_check_subscription_presence : ℕ → ℕ → ℕ → Agent → Bool
  do_check_subscription_presence mbox msg_type state a =
      is_some (ops.find_handler mbox msg_type state a.subscriptions)

  unfoldable pub do_check_deadletter_presence : ℕ → ℕ → Agent → Bool
  do_check_deadletter_presence mbox msg_type a =
      is_some (ops.find_handler mbox msg_type deadletter_state a.subscriptions)

  -- A call on the states, with the thread it is made on: the two methods that check it are those of
  -- the agent.
  unfoldable pub perform_states : ℕ → CoreCall → Agent → Done
  unfolding so_change_state so_deactivate_agent call
  perform_states thread (changes_state s) a =
      if s == awaiting_deregistration_state then quiet a else so_change_state thread s a
  perform_states thread deactivates a = so_deactivate_agent thread a
  perform_states thread x a = with_states (call x a.core) a

  unfoldable pub perform : AgentCall → Agent → Done
  unfolding perform_states so_create_event_subscription so_create_deadletter_subscription
      do_drop_subscription so_destroy_deadletter_subscription do_drop_subscription_for_all_states
  perform (on_states thread x) a = perform_states thread x a
  perform (subscribes thread returns x state) a =
      so_create_event_subscription thread returns x state a
  perform (subscribes_deadletter thread returns x) a =
      so_create_deadletter_subscription thread returns x a
  perform (drops_subscription thread m t k) a = do_drop_subscription thread m t k a
  perform (drops_deadletter thread m t) a = so_destroy_deadletter_subscription thread m t a
  perform (drops_for_all_states thread m t) a = do_drop_subscription_for_all_states thread m t a

  -- The agent after a script.
  unfoldable pub agent_after : List AgentCall → Agent → Agent
  unfolding perform
  agent_after [] a = a
  agent_after (x ∷ xs) a = agent_after xs (perform x a).agent
