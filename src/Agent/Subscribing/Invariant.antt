-- ===== src/Agent/Subscribing/Invariant.antt =====
-- What holds of an agent and its storage between calls.
use sobjectizer.Base.{
  ℕ, ◌≡◌, ◌≢◌, refl, sym, ap, ◌∙◌, inl, inr, Bool, true, false, ◌||◌, Option, none, some, List, [],
  ◌∷◌, ◌==◌, if◌then◌else◌, arith, Bool-cases, Option-cases,
}
use sobjectizer.Subscription.Iface.{
  StorageOps, StorageLaws, SubscrInfo, EventHandlerKind, final_handler, MboxCall, lookup, has_pair,
  Answers,
}
use sobjectizer.Agent.State.{
  awaiting_deregistration_state, deadletter_state, message_has_no_limit_defined,
}
use sobjectizer.Agent.Core.{Core, Failure, Changed, do_change_agent_state, is_agent_deactivated}
use sobjectizer.Agent.Core.InOrder.{InOrder}
use sobjectizer.Agent.Core.Switching.{do_change_agent_state-Keeps}
use sobjectizer.Agent.Core.Calls.{
  CoreCall, makes_state, makes_substate, makes_initial_substate, clears_history, sets_time_limit,
  drops_time_limit, changes_state, deactivates, call,
}
use sobjectizer.Agent.Core.Scripts.{call-Keeps}
use sobjectizer.Agent.Core.Changes.{failed_change, awaiting_from, shape-current}
use sobjectizer.Agent.Subscribing.{
  Agent, Done, quiet, refuses, on_working_thread, with_states, so_change_state, destroy_all,
  so_deactivate_agent, stored, Subscription, create_in_state, so_create_event_subscription,
  so_create_deadletter_subscription, dropped, do_drop_subscription,
  so_destroy_deadletter_subscription, do_drop_subscription_for_all_states, AgentCall, on_states,
  subscribes, subscribes_deadletter, drops_subscription, drops_deadletter, drops_for_all_states,
  perform_states, perform, agent_after,
}

module _ (ops : StorageOps) (laws : StorageLaws ops) where
  abbrev pub Silent : ops.Storage → Type 0
  Silent s = (m t k : ℕ) → lookup m t k (ops.query_content s) ≡ none

  -- An agent that is deactivated has no subscriptions.
  pub record IsSound (a : Agent ops) : Type 0 where
    pub states : InOrder a.core
    pub storage : laws.IsValid a.subscriptions
    pub silent : a.core.current ≡ awaiting_deregistration_state → Silent a.subscriptions

  guarded-IsSound :
      (thread : ℕ) (a : Agent ops) (r : Done ops)
      → IsSound a
      → IsSound r.agent
      → IsSound (on_working_thread ops thread a r).agent
  guarded-IsSound thread a r v w = elim (Bool-cases (thread == a.working_thread)) [
    | inl e ↦ rw e w
    | inr e ↦ rw e v
  ]

  with_states-IsSound :
      (r : Changed) (a : Agent ops)
      → IsSound a
      → InOrder r.core
      → (r.core.current ≡ awaiting_deregistration_state
          → a.core.current ≡ awaiting_deregistration_state)
      → IsSound (with_states ops r a).agent
  with_states-IsSound r a v o h = record {
    states = o;
    storage = v.storage;
    silent = λ e. v.silent (h e);
  }

  shape-IsSound :
      (x : CoreCall) (a : Agent ops)
      → ((s : ℕ) → x ≢ changes_state s)
      → x ≢ deactivates
      → IsSound a
      → IsSound (with_states ops (call x a.core) a).agent
  shape-IsSound x a d e v =
      with_states-IsSound (call x a.core) a v (call-Keeps x a.core v.states).0
        (λ k. sym (shape-current x a.core d e) ∙ k)

  so_change_state-IsSound :
      (thread s : ℕ) (a : Agent ops)
      → s ≢ awaiting_deregistration_state
      → IsSound a
      → IsSound (so_change_state ops thread s a).agent
  unfolding so_change_state
  so_change_state-IsSound thread s a other v =
      guarded-IsSound thread a (with_states ops (do_change_agent_state s a.core) a) v (
        with_states-IsSound (do_change_agent_state s a.core) a v
          (do_change_agent_state-Keeps s a.core v.states).0 (awaiting_from s a.core v.states other))

  destroy_all-IsSound :
      (f : Option Failure) (a : Agent ops)
      → (do_change_agent_state awaiting_deregistration_state a.core).failure ≡ f
      → IsSound a
      → IsSound
          (destroy_all ops f (do_change_agent_state awaiting_deregistration_state a.core) a).agent
  unfolding lookup
  destroy_all-IsSound (some f) a e v =
      let same = failed_change awaiting_deregistration_state a.core f e in
      with_states-IsSound (do_change_agent_state awaiting_deregistration_state a.core) a v
        (do_change_agent_state-Keeps awaiting_deregistration_state a.core v.states).0
        (λ k. sym (ap (λ (c : Core). c.current) same) ∙ k)
  destroy_all-IsSound none a e v =
      let (valid, empty, step) = laws.drop_all_law a.subscriptions v.storage in
      record {
        states = (do_change_agent_state-Keeps awaiting_deregistration_state a.core v.states).0;
        storage = valid;
        silent = λ k m t s. ap (lookup m t s) empty;
      }

  so_deactivate_agent-IsSound :
      (thread : ℕ) (a : Agent ops) → IsSound a → IsSound (so_deactivate_agent ops thread a).agent
  unfolding so_deactivate_agent
  so_deactivate_agent-IsSound thread a v =
      let r = do_change_agent_state awaiting_deregistration_state a.core in
      guarded-IsSound thread a (destroy_all ops r.failure r a) v
        (destroy_all-IsSound r.failure a refl v)

  created-IsValid :
      (returns : Bool) (o : SubscrInfo) (s : ops.Storage)
      → laws.IsValid s
      → laws.IsValid (ops.create_event_subscription returns o s).storage
  created-IsValid returns o s v =
      elim (Option-cases (lookup o.mbox o.msg_type o.state (ops.query_content s))) [
        | inr (h, e) ↦ (laws.create_known returns o s h v e).2
        | inl e ↦ elim (Bool-cases (returns || has_pair o.mbox o.msg_type (ops.query_content s))) [
          | inl p ↦ (laws.create_new returns o s v e p).1
          | inr p ↦
              let no : returns ≡ false = ground arith in
              rw no (laws.create_refused o s v e (ground arith)).2
        ]
      ]

  create_in_state-IsSound :
      (thread : ℕ) (returns : Bool) (x : Subscription) (state : ℕ) (kind : EventHandlerKind)
      (a : Agent ops)
      → IsSound a
      → IsSound (create_in_state ops thread returns x state kind a).agent
  unfolding create_in_state
  create_in_state-IsSound thread returns x state kind a v =
      guarded-IsSound thread a _ v (elim (Bool-cases (is_agent_deactivated a.core)) [
        | inl e ↦ rw e v
        | inr e ↦ rw e (by_sink x.message_sink (λ k. ground arith))
      ])
    where
      by_sink :
          (sink : Option ℕ)
          → a.core.current ≢ awaiting_deregistration_state
          → IsSound (
              Done.agent (elim sink [
                | none ↦ refuses ops message_has_no_limit_defined a
                | some y ↦
                    stored ops
                      (ops.create_event_subscription returns
                        (record {
                          mbox = x.mbox;
                          msg_type = x.msg_type;
                          message_sink = y;
                          state = state;
                          handler = record {
                            method = x.method;
                            thread_safety = x.thread_safety;
                            kind = kind;
                          };
                        })
                        a.subscriptions)
                      a
              ]))
      by_sink none other = v
      by_sink (some y) other = record {
        states = v.states;
        storage = created-IsValid returns _ a.subscriptions v.storage;
        silent = λ k. absurd (other k);
      }

  -- A storage with fewer answers.
  dropped-IsSound :
      (a : Agent ops) (r : ops.Storage × List MboxCall) (changed : ℕ → ℕ → ℕ → Bool)
      → IsSound a
      → laws.IsValid r.0
      → Answers (ops.query_content a.subscriptions) changed none (ops.query_content r.0)
      → IsSound (dropped ops r a).agent
  dropped-IsSound a r changed v w h = record {
    states = v.states;
    storage = w;
    silent = λ e m t k. ground (arith, h m t k, v.silent e m t k);
  }

  drop_subscription-IsSound :
      (thread m t k : ℕ) (a : Agent ops)
      → IsSound a
      → IsSound (do_drop_subscription ops thread m t k a).agent
  unfolding do_drop_subscription
  drop_subscription-IsSound thread m t k a v =
      let (valid, answers, step) = laws.drop_law m t k a.subscriptions v.storage in
      guarded-IsSound thread a _ v
        (dropped-IsSound a (ops.drop_subscription m t k a.subscriptions) _ v valid answers)

  unless-IsSound :
      (b : Bool) (a : Agent ops) (r : Done ops)
      → IsSound a
      → (b ≡ false → IsSound r.agent)
      → IsSound (Done.agent (if b then quiet ops a else r))
  unless-IsSound true a r v h = v
  unless-IsSound false a r v h = h refl

  pub perform_states-IsSound :
      (thread : ℕ) (x : CoreCall) (a : Agent ops)
      → IsSound a
      → IsSound (perform_states ops thread x a).agent
  unfolding perform_states
  perform_states-IsSound thread (makes_state g h) a v =
      shape-IsSound (makes_state g h) a (λ s e. absurd (cc)) (λ e. absurd (cc)) v
  perform_states-IsSound thread (makes_substate p h) a v =
      shape-IsSound (makes_substate p h) a (λ s e. absurd (cc)) (λ e. absurd (cc)) v
  perform_states-IsSound thread (makes_initial_substate p h) a v =
      shape-IsSound (makes_initial_substate p h) a (λ s e. absurd (cc)) (λ e. absurd (cc)) v
  perform_states-IsSound thread (clears_history s) a v =
      shape-IsSound (clears_history s) a (λ s e. absurd (cc)) (λ e. absurd (cc)) v
  perform_states-IsSound thread (sets_time_limit n s) a v =
      shape-IsSound (sets_time_limit n s) a (λ s e. absurd (cc)) (λ e. absurd (cc)) v
  perform_states-IsSound thread (drops_time_limit s) a v =
      shape-IsSound (drops_time_limit s) a (λ s e. absurd (cc)) (λ e. absurd (cc)) v
  perform_states-IsSound thread (changes_state s) a v =
      unless-IsSound (s == awaiting_deregistration_state) a _ v
        (λ e. so_change_state-IsSound thread s a (λ k. ground arith) v)
  perform_states-IsSound thread deactivates a v = so_deactivate_agent-IsSound thread a v

  pub perform-IsSound :
      (x : AgentCall) (a : Agent ops) → IsSound a → IsSound (perform ops x a).agent
  unfolding perform so_create_event_subscription so_create_deadletter_subscription
      so_destroy_deadletter_subscription do_drop_subscription_for_all_states
  perform-IsSound (on_states thread x) a v = perform_states-IsSound thread x a v
  perform-IsSound (subscribes thread returns x state) a v =
      create_in_state-IsSound thread returns x state x.kind a v
  perform-IsSound (subscribes_deadletter thread returns x) a v =
      create_in_state-IsSound thread returns x deadletter_state final_handler a v
  perform-IsSound (drops_subscription thread m t k) a v = drop_subscription-IsSound thread m t k a v
  perform-IsSound (drops_deadletter thread m t) a v =
      let (valid, answers, step) = laws.drop_law m t deadletter_state a.subscriptions v.storage in
      guarded-IsSound thread a _ v (
        dropped-IsSound a (ops.drop_subscription m t deadletter_state a.subscriptions) _ v valid
          answers)
  perform-IsSound (drops_for_all_states thread m t) a v =
      let (valid, answers, step) = laws.drop_for_all_states_law m t a.subscriptions v.storage in
      guarded-IsSound thread a _ v (
        dropped-IsSound a (ops.drop_subscription_for_all_states m t a.subscriptions) _ v valid
          answers)

  pub agent_after-IsSound :
      (xs : List (AgentCall)) (a : Agent ops) → IsSound a → IsSound (agent_after ops xs a)
  unfolding agent_after
  agent_after-IsSound [] a v = v
  agent_after-IsSound (x ∷ xs) a v =
      agent_after-IsSound xs (perform ops x a).agent (perform-IsSound x a v)
