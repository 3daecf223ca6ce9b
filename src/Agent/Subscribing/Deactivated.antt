-- ===== src/Agent/Subscribing/Deactivated.antt =====
-- Scripts of calls on an agent with a storage.
use sobjectizer.Base.{
  ℕ, ◌≡◌, ◌≢◌, refl, ap, ap₂, ◌∙◌, inl, inr, Bool, true, false, Option, none, some, List, [], ◌∷◌,
  ◌==◌, if◌then◌else◌, arith, Bool-cases,
}
use sobjectizer.Subscription.Iface.{
  StorageOps, StorageLaws, SubscrInfo, EventHandlerKind, final_handler, lookup,
}
use sobjectizer.Agent.State.{
  make_state, no_states, awaiting_deregistration_state, deadletter_state, agent_deactivated,
}
use sobjectizer.Agent.State.Path.{Chain, fill_path-Chain}
use sobjectizer.Agent.Core.{
  make_core, Failure, exception, Changed, do_change_agent_state, is_agent_deactivated,
}
use sobjectizer.Agent.Core.Calls.{
  CoreCall, makes_state, makes_substate, makes_initial_substate, clears_history, sets_time_limit,
  drops_time_limit, changes_state, deactivates, call,
}
use sobjectizer.Agent.Core.InOrder.{InOrder}
use sobjectizer.Agent.Core.Scripts.{new_core, new_core-InOrder}
use sobjectizer.Agent.Core.Changes.{deactivated_stays, shape-current}
use sobjectizer.Agent.Subscribing.{
  of_states, Agent, Done, quiet, with_states, so_change_state, destroy_all, so_deactivate_agent,
  refuses, Subscription, create_in_state, so_create_event_subscription,
  so_create_deadletter_subscription, do_drop_subscription, so_destroy_deadletter_subscription,
  handler_finder, do_drop_subscription_for_all_states, AgentCall, on_states, subscribes,
  subscribes_deadletter, drops_subscription, drops_deadletter, drops_for_all_states, perform_states,
  perform, agent_after,
}
use sobjectizer.Agent.Subscribing.Finder.{nearest, or_else, handler_finder-nearest}
use sobjectizer.Agent.Subscribing.Invariant.{IsSound, perform-IsSound, agent_after-IsSound}

module _ (ops : StorageOps) where
  abbrev pub new_agent : ℕ → ℕ → ops.Storage → Agent ops
  new_agent self thread s = record {
    core = new_core self;
    subscriptions = s;
    working_thread = thread;
  }

  -- A method that leaves a deactivated agent so.
  abbrev StaysDeactivated : Agent ops → Done ops → Type 0
  StaysDeactivated a r =
      a.core.current ≡ awaiting_deregistration_state
      → r.agent.core.current ≡ awaiting_deregistration_state

  guarded_stays :
      (b : Bool) (a : Agent ops) (r q : Done ops)
      → StaysDeactivated a r
      → StaysDeactivated a q
      → StaysDeactivated a (if b then r else q)
  guarded_stays true a r q h k = h
  guarded_stays false a r q h k = k

  shape_stays :
      (x : CoreCall) (a : Agent ops)
      → ((s : ℕ) → x ≢ changes_state s)
      → x ≢ deactivates
      → StaysDeactivated a (with_states ops (call x a.core) a)
  shape_stays x a d e now = shape-current x a.core d e ∙ now

  destroy_all_stays :
      (f : Option Failure) (r : Changed) (a : Agent ops)
      → (r.core.current ≡ awaiting_deregistration_state)
      → (destroy_all ops f r a).agent.core.current ≡ awaiting_deregistration_state
  destroy_all_stays (some f) r a h = h
  destroy_all_stays none r a h = h

  perform_states_stays :
      (thread : ℕ) (x : CoreCall) (a : Agent ops)
      → InOrder a.core
      → StaysDeactivated a (perform_states ops thread x a)
  unfolding perform_states so_change_state so_deactivate_agent
  perform_states_stays thread (makes_state g h) a o =
      shape_stays (makes_state g h) a (λ s e. absurd (cc)) (λ e. absurd (cc))
  perform_states_stays thread (makes_substate p h) a o =
      shape_stays (makes_substate p h) a (λ s e. absurd (cc)) (λ e. absurd (cc))
  perform_states_stays thread (makes_initial_substate p h) a o =
      shape_stays (makes_initial_substate p h) a (λ s e. absurd (cc)) (λ e. absurd (cc))
  perform_states_stays thread (clears_history s) a o =
      shape_stays (clears_history s) a (λ s e. absurd (cc)) (λ e. absurd (cc))
  perform_states_stays thread (sets_time_limit n s) a o =
      shape_stays (sets_time_limit n s) a (λ s e. absurd (cc)) (λ e. absurd (cc))
  perform_states_stays thread (drops_time_limit s) a o =
      shape_stays (drops_time_limit s) a (λ s e. absurd (cc)) (λ e. absurd (cc))
  perform_states_stays thread (changes_state s) a o =
      guarded_stays (s == awaiting_deregistration_state) a (quiet ops a)
        (so_change_state ops thread s a) (λ now. now)
        (guarded_stays (thread == a.working_thread) a _ _ (deactivated_stays s a.core o)
          (λ now. now))
  perform_states_stays thread deactivates a o =
      let r = do_change_agent_state awaiting_deregistration_state a.core in
      guarded_stays (thread == a.working_thread) a (destroy_all ops r.failure r a) _
        (λ now.
          destroy_all_stays r.failure r a
            (deactivated_stays awaiting_deregistration_state a.core o now))
        (λ now. now)

  -- A deactivated agent takes no subscription.
  create_refused :
      (thread : ℕ) (returns : Bool) (x : Subscription) (state : ℕ) (kind : EventHandlerKind)
      (a : Agent ops)
      → (thread == a.working_thread) ≡ true
      → a.core.current ≡ awaiting_deregistration_state
      → create_in_state ops thread returns x state kind a ≡ refuses ops agent_deactivated a
  unfolding create_in_state
  create_refused thread returns x state kind a same now =
      let deactivated : is_agent_deactivated a.core ≡ true = ground arith in
      rw same (rw deactivated refl)

  create_stays :
      (thread : ℕ) (returns : Bool) (x : Subscription) (state : ℕ) (kind : EventHandlerKind)
      (a : Agent ops)
      → StaysDeactivated a (create_in_state ops thread returns x state kind a)
  unfolding create_in_state
  create_stays thread returns x state kind a now = elim (Bool-cases (thread == a.working_thread)) [
    | inl e ↦
        ap (λ (r : Done ops). r.agent.core.current)
          (create_refused thread returns x state kind a e now)
        ∙ now
    | inr e ↦ rw e now
  ]

  perform_stays :
      (x : AgentCall) (a : Agent ops) → InOrder a.core → StaysDeactivated a (perform ops x a)
  unfolding perform so_create_event_subscription so_create_deadletter_subscription
      so_destroy_deadletter_subscription do_drop_subscription_for_all_states do_drop_subscription
  perform_stays (on_states thread x) a o = perform_states_stays thread x a o
  perform_stays (subscribes thread returns x state) a o =
      create_stays thread returns x state x.kind a
  perform_stays (subscribes_deadletter thread returns x) a o =
      create_stays thread returns x deadletter_state final_handler a
  perform_stays (drops_subscription thread m t k) a o =
      guarded_stays (thread == a.working_thread) a _ _ (λ now. now) (λ now. now)
  perform_stays (drops_deadletter thread m t) a o =
      guarded_stays (thread == a.working_thread) a _ _ (λ now. now) (λ now. now)
  perform_stays (drops_for_all_states thread m t) a o =
      guarded_stays (thread == a.working_thread) a _ _ (λ now. now) (λ now. now)

  agent_after_stays :
      (laws : StorageLaws ops) (xs : List AgentCall) (a : Agent ops)
      → IsSound ops laws a
      → a.core.current ≡ awaiting_deregistration_state
      → (agent_after ops xs a).core.current ≡ awaiting_deregistration_state
  unfolding agent_after
  agent_after_stays laws [] a v now = now
  agent_after_stays laws (x ∷ xs) a v now =
      agent_after_stays laws xs (perform ops x a).agent (perform-IsSound ops laws x a v)
        (perform_stays x a v.states now)

  nearest_silent :
      (m t : ℕ) (content : List SubscrInfo) (l : List ℕ)
      → ((k : ℕ) → lookup m t k content ≡ none)
      → nearest m t content l ≡ none
  unfolding nearest
  nearest_silent m t content [] h = refl
  nearest_silent m t content (s ∷ l) h = simp (h s, nearest_silent m t content l h, nearest)

  module _ (laws : StorageLaws ops) (self thread : ℕ) (s : ops.Storage) (v : laws.IsValid s) where
    new_agent-IsSound : IsSound ops laws (new_agent self thread s)
    unfolding make_core make_state no_states
    new_agent-IsSound = record {
      states = new_core-InOrder self;
      storage = v;
      silent = λ e. absurd (ground arith);
    }

    -- After every script of calls on a new agent, the search for a handler of a message gives that of
    -- the nearest state that has one, from the current state up through its parents, and where none
    -- has one the deadletter handler.
    pub finds_nearest :
        (script : List AgentCall) (m t : ℕ) (l : List ℕ)
        → Chain
            (agent_after ops script (new_agent self thread s)).core.states.at
            (agent_after ops script (new_agent self thread s)).core.current
            l
        → let a = agent_after ops script (new_agent self thread s) in
          handler_finder ops m t a
          ≡ or_else
              (nearest m t (ops.query_content a.subscriptions) l)
              (lookup m t deadletter_state (ops.query_content a.subscriptions))
    finds_nearest script m t l chain =
        let a = agent_after ops script (new_agent self thread s) in
        let w = agent_after-IsSound ops laws script (new_agent self thread s) new_agent-IsSound in
        handler_finder-nearest ops laws m t a l w.states.valid w.storage chain

    -- If a new agent is deactivated after a script, then after every further script it is still so, no
    -- message finds a handler, and a new subscription made on the working thread throws.
    pub deactivated_for_good :
        (first later : List AgentCall)
        → (agent_after ops first (new_agent self thread s)).core.current
          ≡ awaiting_deregistration_state
        → let a = agent_after ops later (agent_after ops first (new_agent self thread s)) in
          (a.core.current ≡ awaiting_deregistration_state)
          × ((m t : ℕ) → handler_finder ops m t a ≡ none)
          × ((returns : Bool) (x : Subscription) (state : ℕ)
              → (so_create_event_subscription ops a.working_thread returns x state a).failure
                ≡ some (of_states (exception agent_deactivated)))
    unfolding so_create_event_subscription
    deactivated_for_good first later now =
        let b = agent_after ops first (new_agent self thread s) in
        let w = agent_after-IsSound ops laws first (new_agent self thread s) new_agent-IsSound in
        let a = agent_after ops later b in
        let w' = agent_after-IsSound ops laws later b w in
        let now' = agent_after_stays laws later b w now in
        let silent = w'.silent now' in
        let chain = fill_path-Chain a.core.states a.core.current w'.states.valid in
        (
          now',
          (λ m t.
              handler_finder-nearest ops laws m t a _ w'.states.valid w'.storage chain
              ∙ ap₂ or_else (nearest_silent m t _ _ (silent m t)) (silent m t deadletter_state)),
          (λ returns x state.
              ap (λ (r : Done ops). r.failure)
                (create_refused a.working_thread returns x state x.kind a (ground arith) now')),
        )
