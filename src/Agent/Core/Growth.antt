-- ===== src/Agent/Core/Growth.antt =====
-- The constructors of states keep an agent in order.
use sobjectizer.Base.{
  ℕ, ◌+◌, ◌≤◌, ◌<◌, ◌≡◌, refl, sym, ap, subst, ◌∙◌, inl, inr, true, false, Option, none, some, List,
  leb, ◌==◌, arith, Bool-cases,
}
use sobjectizer.Agent.State.{
  History, State, Store, update, fresh_state, max_deep, make_state, add_substate, Error, is_target,
}
use sobjectizer.Agent.State.Valid.{IsValid, known_child, SameTree}
use sobjectizer.Agent.State.Build.{make_state-IsValid, add_substate-IsValid}
use sobjectizer.Agent.State.Path.{Chain, top, up}
use sobjectizer.Agent.Switch.Replay.{replay, is_in}
use sobjectizer.Agent.Core.{Core, endless}
use sobjectizer.Agent.Core.InOrder.{exception_ends, InOrder, own_known, Keeps, Matches-limits}
use sobjectizer.Agent.Core.Calls.{is_made, thrown, built}

-- The states before a call have kept their parents, agents and limits after it.
pub record Grows (f g : ℕ → State) (n : ℕ) : Type 0 where
  pub parent : (s : ℕ) → s < n → (g s).parent_state ≡ (f s).parent_state
  pub agent : (s : ℕ) → s < n → (g s).target_agent ≡ (f s).target_agent
  pub limit : (s : ℕ) → s < n → (g s).time_limit ≡ (f s).time_limit

Chain-Grows :
    (st : Store) (g : ℕ → State) (s : ℕ) (l : List ℕ)
    → IsValid st
    → Grows st.at g st.next
    → s < st.next
    → Chain st.at s l
    → Chain g s l
Chain-Grows st g s l v k h (top _ e) = top s (k.parent s h ∙ e)
Chain-Grows st g s l v k h (up _ p m e c) =
    up s p m (k.parent s h ∙ e) (Chain-Grows st g p m v k (v.known s p e) c)

Chain-known :
    (st : Store) (s x : ℕ) (l : List ℕ)
    → IsValid st
    → s < st.next
    → Chain st.at s l
    → is_in x l ≡ true
    → x < st.next
unfolding is_in
Chain-known st s x l v h (top _ e) k = ground arith
Chain-known st s x l v h (up _ p m e c) k = elim (Bool-cases (x == s)) [
  | inl q ↦ ground arith
  | inr q ↦ Chain-known st p x m v (v.known s p e) c (ground arith)
]

-- What a constructor does to the store of an agent in order.
pub record Growth (c : Core) (st : Store) : Type 0 where
  pub valid : IsValid st
  pub grows : Grows c.states.at st.at c.states.next
  pub more : c.states.next ≤ st.next
  pub leaf : (st.at 1).substate_count ≡ 0
  pub agents :
      (s p : ℕ) → (st.at s).parent_state ≡ some p → (st.at s).target_agent ≡ (st.at p).target_agent

thrown_ends : (e : Option Error) → thrown e ≡ some endless → ⊥
thrown_ends none h = absurd (cc)
thrown_ends (some e) h = exception_ends e h

pub grown-Keeps :
    (c : Core) (st : Store) (e : Option Error) → InOrder c → Growth c st → Keeps c (built c (st, e))
unfolding replay
grown-Keeps c st e o k =
    let known = own_known c c.current o o.own_current in
    let enough = o.enough in
    let more = k.more in
    (
      record {
        valid = k.valid;
        same_agent = k.agents;
        enough = omega arith;
        awaiting_agent = k.grows.agent 1 (omega arith) ∙ o.awaiting_agent;
        awaiting_leaf = k.leaf;
        deadletter_agent = k.grows.agent 2 (omega arith) ∙ o.deadletter_agent;
        own_current = rw (is_target, k.grows.agent c.current known) o.own_current;
      },
      (λ a (l, chain, m). (
        a,
        refl,
        (
          l,
          Chain-Grows c.states st.at c.current l o.valid k.grows known chain,
          Matches-limits c.states.at st.at l a
              (λ x h. k.grows.limit x (Chain-known c.states c.current x l o.valid known chain h)) m,
        ),
      )),
      thrown_ends e,
    )

-- A change of the marks alone.
pub remarked-Growth :
    (c : Core) (st : Store) (g : ℕ → State)
    → Growth c st
    → SameTree st.at g
    → IsValid (record st { at = g })
    → Growth c (record st { at = g })
remarked-Growth c st g k t v = record {
  valid = v;
  grows = record {
    parent = λ s h. t.parent s ∙ k.grows.parent s h;
    agent = λ s h. t.agent s ∙ k.grows.agent s h;
    limit = λ s h. t.limit s ∙ k.grows.limit s h;
  };
  more = k.more;
  leaf = t.count 1 ∙ k.leaf;
  agents = λ s p e. t.agent s ∙ k.agents s p (sym (t.parent s) ∙ e) ∙ sym (t.agent p);
}

pub same-Growth : (c : Core) → InOrder c → Growth c c.states
same-Growth c o = record {
  valid = o.valid;
  grows = record { parent = λ s h. refl; agent = λ s h. refl; limit = λ s h. refl };
  more = omega arith;
  leaf = o.awaiting_leaf;
  agents = o.same_agent;
}

pub made_known : (c : Core) (s : ℕ) → InOrder c → is_made s c ≡ true → s < c.states.next
made_known c s o h = elim (Bool-cases (leb c.states.next s)) [
  | inl k ↦
      let free = o.valid.free s (ground arith) in
      let no_agent = ap (λ (x : State). x.target_agent) free in absurd (ground arith)
  | inr k ↦ ground arith
]

-- A new state at the free address, over old ones that have kept their places.
fresh-Growth :
    (c : Core) (f : ℕ → State) (x : State)
    → InOrder c
    → Grows c.states.at f c.states.next
    → (f 1).substate_count ≡ 0
    → ((p : ℕ)
        → x.parent_state ≡ some p
        → (p < c.states.next) × (x.target_agent ≡ (f p).target_agent))
    → IsValid (record { at = update f c.states.next x; next = c.states.next + 1 })
    → Growth c (record { at = update f c.states.next x; next = c.states.next + 1 })
fresh-Growth c f x o k leaf under v =
    let n = c.states.next in
    let g = update f n x in
    let enough = o.enough in
    let old : (s : ℕ) → s < n → g s ≡ f s =
      λ s b. let other : (s == n) ≡ false = ground arith in rw other refl in
    let new : (s : ℕ) → s ≡ n → g s ≡ x =
      λ s b. let same : (s == n) ≡ true = ground arith in rw same refl in
    let agent : (s : ℕ) → s < n → (g s).target_agent ≡ (c.states.at s).target_agent =
      λ s b. ap (λ (y : State). y.target_agent) (old s b) ∙ k.agent s b in
    record {
      valid = v;
      grows = record {
        parent = λ s b. ap (λ (y : State). y.parent_state) (old s b) ∙ k.parent s b;
        agent = agent;
        limit = λ s b. ap (λ (y : State). y.time_limit) (old s b) ∙ k.limit s b;
      };
      more = omega arith;
      leaf = ap (λ (y : State). y.substate_count) (old 1 (omega arith)) ∙ leaf;
      agents = λ s p e. elim (Bool-cases (s == n)) [
        | inl h ↦
            let at_new = new s (ground arith) in
            let (known, same) = under p (sym (ap (λ (y : State). y.parent_state) at_new) ∙ e) in
            ap (λ (y : State). y.target_agent) at_new
            ∙ same
            ∙ sym (ap (λ (y : State). y.target_agent) (old p known))
        | inr h ↦
            let known = known_child (record { at = g; next = n + 1 }) s p v e in
            let before : s < n = ground arith in
            let e' =
              sym (k.parent s before)
              ∙ sym (ap (λ (y : State). y.parent_state) (old s before))
              ∙ e in
            agent s before ∙ o.same_agent s p e' ∙ sym (agent p (o.valid.known s p e'))
      ];
    }

pub make_state-Growth :
    (agent : ℕ) (h : History) (c : Core) → InOrder c → Growth c (make_state agent h c.states).0
unfolding make_state
make_state-Growth agent h c o =
    fresh-Growth c c.states.at (fresh_state (some agent) none 0 h) o (same-Growth c o).grows
      o.awaiting_leaf (λ p e. absurd (ground arith)) (make_state-IsValid agent h c.states o.valid)

pub add_substate-Growth :
    (p : ℕ) (h : History) (c : Core)
    → InOrder c
    → is_made p c ≡ true
    → Growth c (add_substate p h c.states).0
unfolding add_substate
add_substate-Growth p h c o made =
    let st = c.states in
    let known = made_known c p o made in
    let v = add_substate-IsValid p h st o.valid known in
    elim (Bool-cases (leb max_deep ((st.at p).nested_level + 1))) [
      | inl e ↦ rw e (same-Growth c o)
      | inr e ↦
          let bumped =
            update st.at p (record (st.at p) { substate_count = (st.at p).substate_count + 1 }) in
          let x = fresh_state (st.at p).target_agent (some p) ((st.at p).nested_level + 1) h in
          let same : (add_substate p h st).0
              ≡ record { at = update bumped st.next x; next = st.next + 1 } =
            rw e refl in
          rw same (
            fresh-Growth c bumped x o
              (record {
                parent = λ s b. ground arith;
                agent = λ s b. ground arith;
                limit = λ s b. ground arith;
              })
              (ground (arith, o.awaiting_leaf, o.awaiting_agent)) (λ q k. ground arith)
              (subst (λ z. IsValid z) same v))
    ]
