-- ===== src/Agent/Switch/Proof.antt =====
-- The signals of a switch lead from the states active before to those active after.
use sobjectizer.Base.{
  ℕ, zero, suc, ◌+◌, ◌-◌, ◌≤◌, ◌<◌, ◌≡◌, refl, sym, ap₂, subst, inl, inr, true, false, some, List,
  [], ◌∷◌, ◌++◌, leb, ◌==◌, arith, Bool-cases,
}
use sobjectizer.Agent.State.{State, Store, fill_path}
use sobjectizer.Agent.State.Valid.{IsValid}
use sobjectizer.Agent.State.Path.{Chain, top, up, stack, fill_path-Chain}
use sobjectizer.Agent.Switch.{
  call_on_enter, call_on_exit, first_diff_from, min, exits_from, enters_from, switch_signals,
}
use sobjectizer.Agent.Switch.Replay.{
  Active, head_is, is_in, Matches, ReplaysTo, ReplaysTo-append, ReplaysTo-nothing,
  call_on_enter-ReplaysTo, call_on_exit-ReplaysTo,
}

-- The levels of the states of a chain are at most that of the first.
pub Chain-level :
    (st : Store) (s x : ℕ) (l : List ℕ)
    → IsValid st
    → Chain st.at s l
    → is_in x l ≡ true
    → (st.at x).nested_level ≤ (st.at s).nested_level
unfolding is_in
Chain-level st s x l v (top _ e) h = let same : x ≡ s = ground arith in rw same (omega arith)
Chain-level st s x l v (up _ p m e c) h = elim (Bool-cases (x == s)) [
  | inl k ↦ let same : x ≡ s = ground arith in rw same (omega arith)
  | inr k ↦
      let rest = Chain-level st p x m v c (ground arith) in let above = v.level s p e in omega arith
]

-- Each state of a path has its parent before it, and does not stand twice.
abbrev Linked : (ℕ → State) → (ℕ → ℕ) → ℕ → Type 0
Linked f path j =
    (head_is (f (path j)).parent_state (stack path j) ≡ true)
    × (is_in (path j) (stack path j) ≡ false)

Chain-starts : (f : ℕ → State) (s : ℕ) (l : List ℕ) → Chain f s l → head_is (some s) l ≡ true
unfolding head_is
Chain-starts f s l (top _ e) = ground arith
Chain-starts f s l (up _ p m e c) = ground arith

Chain-head :
    (st : Store) (s : ℕ) (x : ℕ) (l : List ℕ)
    → IsValid st
    → Chain st.at s (x ∷ l)
    → (head_is (st.at x).parent_state l ≡ true) × (is_in x l ≡ false)
unfolding head_is is_in
Chain-head st s x l v (top _ e) = (ground arith, refl)
Chain-head st s x l v (up _ p m e c) = (
  rw e (Chain-starts st.at p m c),
  elim (Bool-cases (is_in s m)) [
    | inl k ↦
        let within = Chain-level st p s m v c k in let above = v.level s p e in absurd (omega arith)
    | inr k ↦ k
  ],
)

Chain-next : (f : ℕ → State) (s x y : ℕ) (l : List ℕ) → Chain f s (x ∷ y ∷ l) → Chain f y (y ∷ l)
unfolding head_is
Chain-next f s x y l (up _ p m e c) =
    let same : p ≡ y = ground (arith, Chain-starts f p (y ∷ l) c) in
    subst (λ q. Chain f q (y ∷ l)) same c

Chain-Linked :
    (st : Store) (path : ℕ → ℕ) (s n j : ℕ)
    → IsValid st
    → Chain st.at s (stack path (suc n))
    → j ≤ n
    → Linked st.at path j
unfolding stack
Chain-Linked st path s zero j v c h =
    let same : j ≡ 0 = omega arith in rw same (Chain-head st s (path 0) [] v c)
Chain-Linked st path s (suc n) j v c h = elim (Bool-cases (j == suc n)) [
  | inl e ↦
      let same : j ≡ suc n = ground arith in
      rw same (Chain-head st s (path (suc n)) (stack path (suc n)) v c)
  | inr e ↦
      Chain-Linked st path (path n) n j v
        (Chain-next st.at s (path (suc n)) (path n) (stack path n) c) (ground arith)
]

more_up :
    (old new : ℕ → ℕ) (j : ℕ)
    → old j ≡ new j
    → stack old j ≡ stack new j
    → stack old (suc j) ≡ stack new (suc j)
unfolding stack
more_up old new j h e = ap₂ (λ x (l : List ℕ). x ∷ l) h e

-- The two paths agree up to the first difference.
first_diff-agree :
    (rounds : ℕ) (old new : ℕ → ℕ) (i : ℕ)
    → stack old i ≡ stack new i
    → let r = first_diff_from rounds old new i in (stack old r ≡ stack new r) × (r ≤ i + rounds)
unfolding first_diff_from
first_diff-agree zero old new i e = (e, omega arith)
first_diff-agree (suc rounds) old new i e = elim (Bool-cases (old i == new i)) [
  | inl h ↦
      let same : old i ≡ new i = ground arith in
      let (agree, bound) = first_diff-agree rounds old new (i + 1) (more i (ground arith) same e) in
      let next : first_diff_from (suc rounds) old new i ≡ first_diff_from rounds old new (i + 1) =
        rw h refl in
      rw next (agree, omega arith)
  | inr h ↦
      let next : first_diff_from (suc rounds) old new i ≡ i = rw h refl in rw next (e, omega arith)
]
  where
    more :
        (j : ℕ)
        → (j + 1 ≡ suc j)
        → old j ≡ new j
        → stack old j ≡ stack new j
        → stack old (j + 1) ≡ stack new (j + 1)
    more j k h e = rw k (more_up old new j h e)

module _ (f : ℕ → State) (path : ℕ → ℕ) where
  exits-ReplaysTo :
      (i first : ℕ) (a : Active)
      → first ≤ suc i
      → ((j : ℕ) → j ≤ i → Linked f path j)
      → Matches f (stack path (suc i)) a
      → ReplaysTo f (exits_from f path first i) a (stack path first)
  unfolding exits_from stack
  exits-ReplaysTo zero first a b linked h = elim (Bool-cases (leb first 0)) [
    | inl e ↦
        let same : first ≡ 0 = ground arith in
        let (_, fresh) = linked 0 (omega arith) in
        rw same (call_on_exit-ReplaysTo f (path 0) a [] fresh h)
    | inr e ↦ let same : first ≡ 1 = ground arith in rw same (ReplaysTo-nothing f a (path 0 ∷ []) h)
  ]
  exits-ReplaysTo (suc i) first a b linked h = elim (Bool-cases (leb first (suc i))) [
    | inl e ↦
        let (_, fresh) = linked (suc i) (omega arith) in
        let below : first ≤ suc i = ground arith in
        let same : exits_from f path first (suc i)
            ≡ call_on_exit f (path (suc i)) ++ exits_from f path first i =
          rw e refl in
        rw same (
          ReplaysTo-append f (call_on_exit f (path (suc i))) (exits_from f path first i) a
            (stack path (suc i)) (stack path first)
            (call_on_exit-ReplaysTo f (path (suc i)) a (stack path (suc i)) fresh h)
            (λ c g. exits-ReplaysTo i first c below (λ j k. linked j (omega arith)) g))
    | inr e ↦
        let same : first ≡ suc (suc i) = ground arith in
        let none_left : exits_from f path first (suc i) ≡ [] = rw e refl in
        rw none_left (
          subst (λ n. ReplaysTo f [] a (stack path n)) (sym same)
            (ReplaysTo-nothing f a (stack path (suc (suc i))) h))
  ]

  enters-ReplaysTo :
      (rounds i : ℕ) (a : Active)
      → ((j : ℕ) → j < i + rounds → Linked f path j)
      → Matches f (stack path i) a
      → ReplaysTo f (enters_from rounds f path i) a (stack path (i + rounds))
  unfolding enters_from stack
  enters-ReplaysTo zero i a linked h =
      let same : i + 0 ≡ i = omega arith in rw same (ReplaysTo-nothing f a (stack path i) h)
  enters-ReplaysTo (suc rounds) i a linked h =
      let (parent, fresh) = linked i (omega arith) in
      let next : i + 1 ≡ suc i = omega arith in
      let end : i + suc rounds ≡ suc i + rounds = omega arith in
      let rest = λ (c : Active) (g : Matches f (stack path (suc i)) c).
        enters-ReplaysTo rounds (suc i) c (λ j k. linked j (omega arith)) g in
      rw (end, next)
        (ReplaysTo-append f (call_on_enter f (path i)) (enters_from rounds f path (suc i)) a
          (stack path (suc i)) (stack path (suc i + rounds))
          (call_on_enter-ReplaysTo f (path i) a (stack path i) parent fresh h) rest)

-- The signals of a switch, replayed from the chain of the current state, give that of the new one.
pub switch_signals-ReplaysTo :
    (st : Store) (current s : ℕ) (a : Active)
    → IsValid st
    → Matches st.at (stack (fill_path current st.at) (suc (st.at current).nested_level)) a
    → ReplaysTo st.at
        (switch_signals st.at current s)
        a
        (stack (fill_path s st.at) (suc (st.at s).nested_level))
unfolding switch_signals stack
switch_signals-ReplaysTo st current s a v h =
    let f = st.at in
    let old = fill_path current f in
    let new = fill_path s f in
    let level = (f current).nested_level in
    let level' = (f s).nested_level in
    let first = first_diff_from (min level level') old new 0 in
    let (agree, bound) = first_diff-agree (min level level') old new 0 refl in
    let below : first ≤ suc level = ground arith in
    let below' : first ≤ suc level' = ground arith in
    let end : first + (level' + 1 - first) ≡ suc level' = omega arith in
    ReplaysTo-append f (exits_from f old first level) (enters_from (level' + 1 - first) f new first)
      a (stack old first) (stack new (suc level'))
      (exits-ReplaysTo f old level first a below
        (λ j b. Chain-Linked st old current level j v (fill_path-Chain st current v) b) h)
      (λ c g.
        subst (λ n. ReplaysTo f (enters_from (level' + 1 - first) f new first) c (stack new n)) end
          (enters-ReplaysTo f new (level' + 1 - first) first c
            (λ j b. Chain-Linked st new s level' j v (fill_path-Chain st s v) (omega arith))
            (subst (λ l. Matches f l c) agree g)))
