-- ===== src/Agent/Core/Switching.antt =====
-- A switch of the current state keeps the order, and ends.
use sobjectizer.Base.{
  ℕ, suc, ◌≡◌, refl, sym, subst, ◌∙◌, inl, inr, true, not, ◌&&◌, none, some, ◌==◌, arith,
  Bool-cases,
}
use sobjectizer.Agent.State.{
  Store, is_target, Entered, entered, failed, out_of_fuel, actual_state_to_enter, fill_path,
  update_history_in_parent_states, awaiting_deregistration_state, agent_deactivated,
  agent_unknown_state, another_state_switch_in_progress,
}
use sobjectizer.Agent.State.Valid.{IsValid, SameTree}
use sobjectizer.Agent.State.Path.{stack, fill_path-Chain}
use sobjectizer.Agent.State.Enter.{Ends, actual_state_to_enter-Ends}
use sobjectizer.Agent.State.Remember.{update_history-IsValid, update_history-SameTree}
use sobjectizer.Agent.Switch.{switch_signals, do_state_switch}
use sobjectizer.Agent.Switch.Replay.{Active, Matches, replay}
use sobjectizer.Agent.Switch.Proof.{switch_signals-ReplaysTo}
use sobjectizer.Agent.Core.{
  Core, Changed, returns, throws, switch_to, do_change_agent_state, in_progress,
  is_agent_deactivated,
}
use sobjectizer.Agent.Core.InOrder.{
  InOrder, own_below, Tracks, Keeps, returns-Keeps, throws-Keeps, Chain-unique, Chain-SameTree,
  Matches-limits,
}

-- A change of the marks, and of the current state to one of the agent's, keeps the order.
pub remarked-InOrder :
    (c : Core) (st : Store) (s : ℕ)
    → InOrder c
    → IsValid st
    → SameTree c.states.at st.at
    → st.next ≡ c.states.next
    → is_target c.self s c.states ≡ true
    → InOrder (record c { states = st; current = s })
remarked-InOrder c st s o v t n own = record {
  valid = v;
  same_agent = λ x p e. t.agent x ∙ o.same_agent x p (sym (t.parent x) ∙ e) ∙ sym (t.agent p);
  enough = let enough = o.enough in omega arith;
  awaiting_agent = t.agent 1 ∙ o.awaiting_agent;
  awaiting_leaf = t.count 1 ∙ o.awaiting_leaf;
  deadletter_agent = t.agent 2 ∙ o.deadletter_agent;
  own_current = rw (is_target, t.agent s) own;
}

-- The switch to another state.
abbrev switched : Core → ℕ → Changed
switched c s = record {
  core = record c { states = update_history_in_parent_states s c.states; current = s };
  signals = switch_signals c.states.at c.current s;
  told = some s;
  failure = none;
}

switched-Tracks :
    (c : Core) (s : ℕ) (a : Active)
    → InOrder c
    → Tracks c a
    → (b : Active) × (replay c.states.at (switch_signals c.states.at c.current s) a ≡ some b)
      × Tracks (switched c s).core b
switched-Tracks c s a o (l, chain, m) =
    let f = c.states.at in
    let path = stack (fill_path c.current f) (suc (f c.current).nested_level) in
    let path' = stack (fill_path s f) (suc (f s).nested_level) in
    let t = update_history-SameTree s c.states o.valid in
    let g = (update_history_in_parent_states s c.states).at in
    let here = Chain-unique f c.current l path chain (fill_path-Chain c.states c.current o.valid) in
    let (b, e, m') =
      switch_signals-ReplaysTo c.states c.current s a o.valid (subst (λ k. Matches f k a) here m) in
    (
      b,
      e,
      (
        path',
        Chain-SameTree f g s path' t (fill_path-Chain c.states s o.valid),
        Matches-limits f g path' b (λ x h. t.limit x) m',
      ),
    )

update_history-next : (s : ℕ) (st : Store) → (update_history_in_parent_states s st).next ≡ st.next
unfolding update_history_in_parent_states
update_history-next s st = refl

-- The switch to a state of the agent.
switch-Keeps :
    (c : Core) (s : ℕ)
    → InOrder c
    → is_target c.self s c.states ≡ true
    → Keeps c (switch_to (entered s) c)
unfolding switch_to do_state_switch
switch-Keeps c s o own = elim (Bool-cases (s == c.current)) [
  | inl e ↦
      let same : switch_to (entered s) c ≡ returns c = rw e refl in
      subst (λ r. Keeps c r) (sym same) (returns-Keeps c o)
  | inr e ↦
      let same : switch_to (entered s) c ≡ switched c s = rw e refl in
      subst (λ r. Keeps c r) (sym same)
        (
          remarked-InOrder c (update_history_in_parent_states s c.states) s o
              (update_history-IsValid s c.states o.valid)
              (update_history-SameTree s c.states o.valid) (update_history-next s c.states) own,
          (λ a t. switched-Tracks c s a o t),
          (λ h. absurd (cc)),
        )
]

-- The entering loop ends, so the switch does.
entering-Keeps :
    (c : Core) (s : ℕ) (x : Entered)
    → InOrder c
    → is_target c.self s c.states ≡ true
    → Ends c.states.at s x
    → Keeps c (switch_to x c)
unfolding switch_to
entering-Keeps c s (entered x) o own (place, leaf) =
    switch-Keeps c x o (own_below c s x o own place)
entering-Keeps c s (failed e) o own h = throws-Keeps c e o
entering-Keeps c s out_of_fuel o own h = absurd h

pub do_change_agent_state-Keeps :
    (s : ℕ) (c : Core) → InOrder c → Keeps c (do_change_agent_state s c)
unfolding do_change_agent_state
do_change_agent_state-Keeps s c o =
    elim (Bool-cases (is_agent_deactivated c && not (s == awaiting_deregistration_state))) [
      | inl e ↦
          let same : do_change_agent_state s c ≡ throws agent_deactivated c = rw e refl in
          subst (λ r. Keeps c r) (sym same) (throws-Keeps c agent_deactivated o)
      | inr e ↦ elim (Bool-cases (is_target c.self s c.states)) [
        | inr e' ↦
            let same : do_change_agent_state s c ≡ throws agent_unknown_state c =
              rw e (rw e' refl) in
            subst (λ r. Keeps c r) (sym same) (throws-Keeps c agent_unknown_state o)
        | inl e' ↦ elim (Bool-cases (in_progress c.status)) [
          | inl k ↦
              let same : do_change_agent_state s c ≡ throws another_state_switch_in_progress c =
                rw e (rw e' (rw k refl)) in
              subst (λ r. Keeps c r) (sym same) (throws-Keeps c another_state_switch_in_progress o)
          | inr k ↦
              let same : do_change_agent_state s c
                  ≡ switch_to (actual_state_to_enter s c.states) c =
                rw e (rw e' (rw k refl)) in
              subst (λ r. Keeps c r) (sym same)
                (entering-Keeps c s (actual_state_to_enter s c.states) o e'
                  (actual_state_to_enter-Ends c.states s o.valid))
        ]
      ]
    ]
