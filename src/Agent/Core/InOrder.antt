-- ===== src/Agent/Core/InOrder.antt =====
-- What holds of an agent's states between calls, and that a switch keeps it.
use sobjectizer.Base.{
  ℕ, ◌≤◌, ◌<◌, ◌≡◌, refl, ap, subst, ◌∙◌, inl, inr, true, Option, none, some, List, ◌∷◌, leb, arith,
  Bool-cases, Option-cases,
}
use sobjectizer.Agent.State.{State, is_target, Error}
use sobjectizer.Agent.State.Valid.{Below, child, further, IsValid, SameTree}
use sobjectizer.Agent.State.Path.{Chain, top, up}
use sobjectizer.Agent.State.Enter.{AtOrBelow, itself, below}
use sobjectizer.Agent.Switch.Replay.{Active, Matches, replay, is_in}
use sobjectizer.Agent.Core.{Core, Failure, exception, endless, Changed, returns, throws}

pub Chain-unique : (f : ℕ → State) (s : ℕ) (l m : List ℕ) → Chain f s l → Chain f s m → l ≡ m
Chain-unique f s l m (top _ e) (top _ e') = refl
Chain-unique f s l m (top _ e) (up _ p k e' c) = absurd (cc)
Chain-unique f s l m (up _ p k e c) (top _ e') = absurd (cc)
Chain-unique f s l m (up _ p k e c) (up _ q k' e' d) =
    let same : q ≡ p = ground arith in
    ap (λ r. s ∷ r) (Chain-unique f p k k' c (subst (λ x. Chain f x k') same d))

-- The states of one tree belong to one agent; the two special states have no others around them.
pub record InOrder (c : Core) : Type 0 where
  pub valid : IsValid c.states
  pub same_agent :
      (s p : ℕ)
      → (c.states.at s).parent_state ≡ some p
      → (c.states.at s).target_agent ≡ (c.states.at p).target_agent
  pub enough : 3 ≤ c.states.next
  pub awaiting_agent : (c.states.at 1).target_agent ≡ none
  pub awaiting_leaf : (c.states.at 1).substate_count ≡ 0
  pub deadletter_agent : (c.states.at 2).target_agent ≡ none
  pub own_current : is_target c.self c.current c.states ≡ true

-- A state of the agent is in the store.
pub own_known :
    (c : Core) (s : ℕ) → InOrder c → is_target c.self s c.states ≡ true → s < c.states.next
own_known c s o h = elim (Bool-cases (leb c.states.next s)) [
  | inl k ↦
      let free = o.valid.free s (ground arith) in
      let no_agent = ap (λ (x : State). x.target_agent) free in
      let enough = o.enough in absurd (ground arith)
  | inr k ↦ ground arith
]

-- The states below have the same agent.
pub Below-agent :
    (c : Core) {s x : ℕ}
    → InOrder c
    → Below c.states.at s x
    → (c.states.at x).target_agent ≡ (c.states.at s).target_agent
Below-agent c o (child x e) = o.same_agent x _ e
Below-agent c o (further x p e b) = o.same_agent x p e ∙ Below-agent c o b

pub not_below_awaiting : (c : Core) {x : ℕ} → InOrder c → Below c.states.at 1 x → ⊥
not_below_awaiting c o (child x e) =
    let some_there = o.valid.counted x 1 e in let leaf = o.awaiting_leaf in omega arith
not_below_awaiting c o (further x p e b) = not_below_awaiting c o b

pub own_below :
    (c : Core) (s x : ℕ)
    → InOrder c
    → is_target c.self s c.states ≡ true
    → AtOrBelow c.states.at s x
    → is_target c.self x c.states ≡ true
own_below c s x o h (itself _ e) = subst (λ y. is_target c.self y c.states ≡ true) e h
own_below c s x o h (below _ b) =
    let same = Below-agent c o b in
    elim (Option-cases (c.states.at s).target_agent) [
      | inl e ↦
          let awaiting : s ≡ 1 = ground arith in
          absurd (not_below_awaiting c o (subst (λ y. Below c.states.at y x) awaiting b))
      | inr (a, e) ↦ ground arith
    ]

-- The active states as the signals tell them are those of the current state's chain.
abbrev pub Tracks : Core → Active → Type 0
Tracks c a = (l : List ℕ) × Chain c.states.at c.current l × Matches c.states.at l a

-- What a method keeps: the order, the tracking of the active states, and that it ends.
abbrev pub Keeps : Core → Changed → Type 0
Keeps c r =
    InOrder r.core
    × ((a : Active)
        → Tracks c a
        → (b : Active) × (replay c.states.at r.signals a ≡ some b) × Tracks r.core b)
    × (r.failure ≡ some endless → ⊥)

pub returns-Keeps : (c : Core) → InOrder c → Keeps c (returns c)
unfolding replay
returns-Keeps c o = (o, (λ a t. (a, refl, t)), λ e. absurd (cc))

pub exception_ends : (e : Error) → Path (Option Failure) (some (exception e)) (some endless) → ⊥
exception_ends e h = absurd (cc)

pub throws-Keeps : (c : Core) (e : Error) → InOrder c → Keeps c (throws e c)
unfolding replay
throws-Keeps c e o = (o, (λ a t. (a, refl, t)), exception_ends e)

-- A chain and the matching limits survive a change of the marks.
pub Chain-SameTree :
    (f g : ℕ → State) (s : ℕ) (l : List ℕ) → SameTree f g → Chain f s l → Chain g s l
Chain-SameTree f g s l t (top _ e) = top s (t.parent s ∙ e)
Chain-SameTree f g s l t (up _ p m e c) = up s p m (t.parent s ∙ e) (Chain-SameTree f g p m t c)

pub Matches-limits :
    (f g : ℕ → State) (l : List ℕ) (a : Active)
    → ((x : ℕ) → is_in x l ≡ true → (g x).time_limit ≡ (f x).time_limit)
    → Matches f l a
    → Matches g l a
Matches-limits f g l a same h = record {
  same_states = h.same_states;
  same_limits = λ x. elim (Bool-cases (is_in x l)) [
    | inl k ↦ ground (arith, h.same_limits x, same x)
    | inr k ↦ ground (arith, h.same_limits x)
  ];
}
