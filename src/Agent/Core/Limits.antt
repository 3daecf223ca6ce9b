-- ===== src/Agent/Core/Limits.antt =====
-- Time limits keep an agent in order.
use sobjectizer.Base.{
  ℕ, zero, suc, ◌+◌, ◌≡◌, refl, sym, ap, subst, ◌∙◌, inl, inr, Bool, true, false, ◌&&◌, ◌||◌, none,
  some, List, [], ◌∷◌, ◌++◌, ◌==◌, if◌then◌else◌, arith, Bool-cases,
}
use sobjectizer.Agent.State.{State, invalid_time_limit_for_state, fill_path}
use sobjectizer.Agent.State.Valid.{IsValid, Below-map}
use sobjectizer.Agent.State.Path.{Chain, top, up, stack, fill_path-Chain}
use sobjectizer.Agent.Switch.Replay.{Active, Matches, replay, replay_one, put, is_in}
use sobjectizer.Agent.Core.{
  find_on_path, so_is_active_state, with_limit, throws, Core, Changed, returns, time_limit,
  drop_time_limit,
}
use sobjectizer.Agent.Core.InOrder.{Chain-unique, InOrder, Keeps, returns-Keeps, throws-Keeps}
use sobjectizer.Agent.Switch.{limit_set, limit_dropped}
use sobjectizer.Agent.Core.Calls.{is_made, is_own}
use sobjectizer.Agent.Core.Growth.{made_known}

is_in-stack :
    (path : ℕ → ℕ) (i s : ℕ)
    → is_in s (stack path (suc i)) ≡ ((s == path i) || is_in s (stack path i))
unfolding is_in stack
is_in-stack path i s = refl

find_on_path-is_in :
    (rounds : ℕ) (path : ℕ → ℕ) (i s : ℕ)
    → (is_in s (stack path i) || find_on_path rounds path i s) ≡ is_in s (stack path (i + rounds))
unfolding find_on_path
find_on_path-is_in zero path i s = let end : i + 0 ≡ i = omega arith in rw end (ground arith)
find_on_path-is_in (suc rounds) path i s =
    let end : i + suc rounds ≡ suc i + rounds = omega arith in
    let next : i + 1 ≡ suc i = omega arith in
    let rest = find_on_path-is_in rounds path (suc i) s in
    let here = is_in-stack path i s in
    rw (end, next) (elim (Bool-cases (path i == s)) [ inl e ↦ ground arith | inr e ↦ ground arith ])

-- The search on the path finds the active states.
so_is_active_state-is_in :
    (s : ℕ) (c : Core) (l : List ℕ)
    → InOrder c
    → Chain c.states.at c.current l
    → so_is_active_state s c ≡ is_in s l
unfolding so_is_active_state is_in stack
so_is_active_state-is_in s c l o chain =
    let level = (c.states.at c.current).nested_level in
    let path = fill_path c.current c.states.at in
    let same =
      Chain-unique c.states.at c.current l (stack path (suc level)) chain
        (fill_path-Chain c.states c.current o.valid) in
    let next : level + 1 ≡ suc level = omega arith in
    let end : 0 + suc level ≡ suc level = omega arith in
    let found : find_on_path (suc level) path 0 s ≡ is_in s (stack path (0 + suc level)) =
      find_on_path-is_in (suc level) path 0 s in
    ap (λ n. find_on_path n path 0 s) next
    ∙ found
    ∙ ap (λ n. is_in s (stack path n)) end
    ∙ ap (λ m. is_in s m) (sym same)

-- A change of one time limit alone.
module _ (c : Core) (s : ℕ) (b : Bool) (o : InOrder c) (own : is_own s c ≡ true) where
  abbrev limited : Core
  limited = record c { states = with_limit s b c.states }

  own_made : is_made s c ≡ true
  own_made = ground arith

  limited-IsValid : IsValid limited.states
  limited-IsValid =
      let known = made_known c s o own_made in
      record {
        free = λ x h. let other : (x == s) ≡ false = ground arith in rw other (o.valid.free x h);
        top_level = λ x e. ground (arith, o.valid.top_level x);
        level = λ x p e. ground (arith, o.valid.level x p);
        deep_enough = λ x. ground (arith, o.valid.deep_enough x);
        known = λ x p e. ground (arith, o.valid.known x p);
        counted = λ x p e. ground (arith, o.valid.counted x p);
        initial_below = λ x d e. ground (arith, o.valid.initial_below x d);
        last_below =
            λ x d e. Below-map (λ y q h. ground arith) (o.valid.last_below x d (ground arith));
      }

  pub limited-InOrder : InOrder limited
  limited-InOrder = record {
    valid = limited-IsValid;
    same_agent = λ x p e. ground (arith, o.same_agent x p);
    enough = o.enough;
    awaiting_agent = ground (arith, o.awaiting_agent);
    awaiting_leaf = ground (arith, o.awaiting_leaf);
    deadletter_agent = ground (arith, o.deadletter_agent);
    own_current = ground (arith, o.own_current);
  }

  limited-Chain : (x : ℕ) (l : List ℕ) → Chain c.states.at x l → Chain limited.states.at x l
  limited-Chain x l (top _ e) = top x (ground arith)
  limited-Chain x l (up _ p m e d) = up x p m (ground arith) (limited-Chain p m d)

  limited-Matches :
      (l : List ℕ) (a : Active)
      → Matches c.states.at l a
      → Matches limited.states.at l (record a { limits = put a.limits s (is_in s l && b) })
  limited-Matches l a m = record {
    same_states = m.same_states;
    same_limits = λ x. elim (Bool-cases (x == s)) [
      | inl e ↦ let same : x ≡ s = ground arith in ground (arith, m.same_limits x)
      | inr e ↦ ground (arith, m.same_limits x)
    ];
  }

-- The last part of `time_limit`: the limit of a state that has none is put and, in an active state, set.
abbrev put_limit : ℕ → Bool → Core → Changed
put_limit s active c = record {
  core = record c { states = with_limit s true c.states };
  signals = if active then limit_set s ∷ [] else [];
  told = none;
  failure = none;
}

abbrev ReplaysTo-in : (ℕ → State) → Changed → Active → List ℕ → Type 0
ReplaysTo-in f r a l = (b : Active) × (replay f r.signals a ≡ some b) × Matches r.core.states.at l b

put_limit-ReplaysTo :
    (f : ℕ → State) (s : ℕ) (active : Bool) (c : Core) (a : Active) (l : List ℕ)
    → InOrder c
    → is_own s c ≡ true
    → (c.states.at s).time_limit ≡ false
    → active ≡ is_in s l
    → Matches c.states.at l a
    → ReplaysTo-in f (put_limit s active c) a l
unfolding replay replay_one
put_limit-ReplaysTo f s true c a l o own unset e m =
    let here : is_in s a.states ≡ true = rw m.same_states (sym e) in
    let not_yet : a.limits s ≡ false = ground (arith, m.same_limits s) in
    let first : replay_one f (limit_set s) a ≡ some (record a { limits = put a.limits s true }) =
      simp (here, not_yet, replay_one) in
    let last : replay f (limit_set s ∷ []) a ≡ some (record a { limits = put a.limits s true }) =
      simp (first, replay) in
    (
      record a { limits = put a.limits s true },
      last,
      subst
          (λ q. Matches (with_limit s true c.states).at l (record a { limits = put a.limits s q }))
          (ground arith) (limited-Matches c s true o own l a m),
    )
put_limit-ReplaysTo f s false c a l o own unset e m =
    let not_yet : a.limits s ≡ false = ground (arith, m.same_limits s) in
    (
      a,
      refl,
      record {
        same_states = m.same_states;
        same_limits = λ x. elim (Bool-cases (x == s)) [
          | inl h ↦ let same : x ≡ s = ground arith in ground (arith, m.same_limits x)
          | inr h ↦ ground (arith, m.same_limits x)
        ];
      },
    )

unset-Matches :
    (c : Core) (s : ℕ) (l : List ℕ) (a : Active)
    → InOrder c
    → is_own s c ≡ true
    → Matches c.states.at l a
    → Matches (with_limit s false c.states).at l (record a { limits = put a.limits s false })
unset-Matches c s l a o own m =
    subst (λ q. Matches (with_limit s false c.states).at l (record a { limits = put a.limits s q }))
      (ground arith) (limited-Matches c s false o own l a m)

pub drop_time_limit-Keeps :
    (s : ℕ) (c : Core) → InOrder c → is_own s c ≡ true → Keeps c (drop_time_limit s c)
unfolding drop_time_limit replay replay_one
drop_time_limit-Keeps s c o own = elim (Bool-cases (c.states.at s).time_limit) [
  | inl e ↦
      let same : drop_time_limit s c
          ≡ record (returns (limited c s false o own)) { signals = limit_dropped s ∷ [] } =
        rw e refl in
      subst (λ r. Keeps c r) (sym same)
        (
          limited-InOrder c s false o own,
          (λ a (l, chain, m). (
            record a { limits = put a.limits s false },
            refl,
            (l, limited-Chain c s false o own c.current l chain, unset-Matches c s l a o own m),
          )),
          (λ h. absurd (cc)),
        )
  | inr e ↦
      let same : drop_time_limit s c ≡ returns c = rw e refl in
      subst (λ r. Keeps c r) (sym same) (returns-Keeps c o)
]

put_limit-Keeps :
    (s : ℕ) (c : Core)
    → InOrder c
    → is_own s c ≡ true
    → (c.states.at s).time_limit ≡ false
    → Keeps c (put_limit s (so_is_active_state s c) c)
put_limit-Keeps s c o own unset = (
  limited-InOrder c s true o own,
  (λ a (l, chain, m).
      let (b, e, m') =
        put_limit-ReplaysTo c.states.at s (so_is_active_state s c) c a l o own unset
          (so_is_active_state-is_in s c l o chain) m in
      (b, e, (l, limited-Chain c s true o own c.current l chain, m'))),
  (λ h. absurd (cc)),
)

-- The limit that a state has is dropped first.
renew_limit-Keeps :
    (s : ℕ) (c : Core)
    → (o : InOrder c) → (own : is_own s c ≡ true)
    → let r = put_limit s (so_is_active_state s c) (limited c s false o own) in
      Keeps c (record r { signals = limit_dropped s ∷ r.signals })
unfolding replay replay_one
renew_limit-Keeps s c o own =
    let c' = limited c s false o own in
    let o' = limited-InOrder c s false o own in
    let own' : is_own s c' ≡ true = ground arith in
    let unset : (c'.states.at s).time_limit ≡ false = ground arith in
    (
      limited-InOrder c' s true o' own',
      (λ a (l, chain, m).
          let chain' = limited-Chain c s false o own c.current l chain in
          let (b, e, m') =
            put_limit-ReplaysTo c.states.at s (so_is_active_state s c) c'
              (record a { limits = put a.limits s false }) l o' own' unset
              (so_is_active_state-is_in s c l o chain) (unset-Matches c s l a o own m) in
          (b, e, (l, limited-Chain c' s true o' own' c.current l chain', m'))),
      (λ h. absurd (cc)),
    )

-- `time_limit` after `drop_time_limit`.
abbrev renewed : ℕ → Bool → Changed → Changed
renewed s active dropped = record dropped {
  core = record (dropped.core) { states = with_limit s true dropped.core.states };
  signals = dropped.signals ++ (if active then limit_set s ∷ [] else []);
}

time_limit-renewed :
    (timeout s : ℕ) (c : Core)
    → (timeout == 0) ≡ false
    → time_limit timeout s c ≡ renewed s (so_is_active_state s c) (drop_time_limit s c)
unfolding time_limit
time_limit-renewed timeout s c z = rw z refl

drop_time_limit-unset :
    (s : ℕ) (c : Core) → (c.states.at s).time_limit ≡ false → drop_time_limit s c ≡ returns c
unfolding drop_time_limit
drop_time_limit-unset s c e = rw e refl

drop_time_limit-set :
    (s : ℕ) (c : Core)
    → (c.states.at s).time_limit ≡ true
    → drop_time_limit s c ≡ record {
      core = record c { states = with_limit s false c.states };
      signals = limit_dropped s ∷ [];
      told = none;
      failure = none;
    }
unfolding drop_time_limit
drop_time_limit-set s c e = rw e refl

pub time_limit-Keeps :
    (timeout s : ℕ) (c : Core) → InOrder c → is_own s c ≡ true → Keeps c (time_limit timeout s c)
unfolding time_limit
time_limit-Keeps timeout s c o own =
    let active = so_is_active_state s c in
    elim (Bool-cases (timeout == 0)) [
      | inl z ↦
          let same : time_limit timeout s c ≡ throws invalid_time_limit_for_state c = rw z refl in
          subst (λ r. Keeps c r) (sym same) (throws-Keeps c invalid_time_limit_for_state o)
      | inr z ↦ elim (Bool-cases (c.states.at s).time_limit) [
        | inl e ↦
            let same =
              time_limit-renewed timeout s c z
              ∙ ap (renewed s active) (drop_time_limit-set s c e) in
            subst (λ q. Keeps c q) (sym same) (renew_limit-Keeps s c o own)
        | inr e ↦
            let same =
              time_limit-renewed timeout s c z
              ∙ ap (renewed s active) (drop_time_limit-unset s c e) in
            subst (λ q. Keeps c q) (sym same) (put_limit-Keeps s c o own e)
      ]
    ]
