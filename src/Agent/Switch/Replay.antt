-- ===== src/Agent/Switch/Replay.antt =====
-- The active states and the time limits that are set, as the signals of a switch tell them.
use sobjectizer.Base.{
  ℕ, ◌≡◌, Bool, true, false, not, ◌&&◌, ◌||◌, Option, none, some, List, [], ◌∷◌, ◌++◌, ◌==◌,
  if◌then◌else◌, refl, arith, Bool-cases, inl, inr, Option-cases, ◌∙◌, ap,
}
use sobjectizer.Agent.State.{State}
use sobjectizer.Agent.Switch.{
  Signal, on_exit, on_enter, limit_set, limit_dropped, call_on_enter, call_on_exit,
}

-- The active states, the innermost first, and the states whose time limit is set.
pub record Active : Type 0 where
  pub states : List ℕ
  pub limits : ℕ → Bool

unfoldable pub head_is : Option ℕ → List ℕ → Bool
head_is none [] = true
head_is none (x ∷ l) = false
head_is (some s) [] = false
head_is (some s) (x ∷ l) = x == s

unfoldable pub is_in : ℕ → List ℕ → Bool
is_in x [] = false
is_in x (y ∷ l) = (x == y) || is_in x l

abbrev pub tail : List ℕ → List ℕ
tail [] = []
tail (x ∷ l) = l

abbrev pub put : (ℕ → Bool) → ℕ → Bool → ℕ → Bool
put limits s b x = if x == s then b else limits x

-- A state is entered from its parent, and left only as the innermost one. A time limit is set for an
-- active state that has none set.
unfoldable pub replay_one : (ℕ → State) → Signal → Active → Option Active
unfolding head_is is_in
replay_one f (on_enter s) a =
    if head_is (f s).parent_state a.states then some (record a { states = s ∷ a.states }) else none
replay_one f (on_exit s) a =
    if head_is (some s) a.states then some (record a { states = tail a.states }) else none
replay_one f (limit_set s) a =
    if is_in s a.states && not (a.limits s)
    then some (record a { limits = put a.limits s true })
    else none
replay_one f (limit_dropped s) a = some (record a { limits = put a.limits s false })

unfoldable pub replay : (ℕ → State) → List Signal → Active → Option Active
unfolding replay_one
replay f [] a = some a
replay f (x ∷ xs) a = elim (replay_one f x a) [ none ↦ none | some b ↦ replay f xs b ]

-- The active states are those of the list, and the limits set are the limits of these states.
pub record Matches (f : ℕ → State) (l : List ℕ) (a : Active) : Type 0 where
  pub same_states : a.states ≡ l
  pub same_limits : (x : ℕ) → a.limits x ≡ (is_in x l && (f x).time_limit)

-- A replay that succeeds and ends at the list.
abbrev pub ReplaysTo : (ℕ → State) → List Signal → Active → List ℕ → Type 0
ReplaysTo f xs a l = (b : Active) × (replay f xs a ≡ some b) × Matches f l b

module _ (f : ℕ → State) where
  pub replay-append :
      (xs ys : List Signal) (a b : Active)
      → replay f xs a ≡ some b
      → replay f (xs ++ ys) a ≡ replay f ys b
  unfolding replay
  replay-append [] ys a b e = ground arith
  replay-append (x ∷ xs) ys a b e = elim (Option-cases (replay_one f x a)) [
    | inl h ↦ absurd (ground arith)
    | inr (c, h) ↦ let rest = replay-append xs ys c b in ground arith
  ]

  pub ReplaysTo-append :
      (xs ys : List Signal) (a : Active) (l m : List ℕ)
      → ReplaysTo f xs a l
      → ((b : Active) → Matches f l b → ReplaysTo f ys b m)
      → ReplaysTo f (xs ++ ys) a m
  ReplaysTo-append xs ys a l m (b, e, h) then_ =
      let (c, e', h') = then_ b h in (c, replay-append xs ys a b e ∙ e', h')

  pub ReplaysTo-nothing : (a : Active) (l : List ℕ) → Matches f l a → ReplaysTo f [] a l
  unfolding replay
  ReplaysTo-nothing a l h = (a, refl, h)

  pub call_on_enter-ReplaysTo :
      (s : ℕ) (a : Active) (l : List ℕ)
      → head_is (f s).parent_state l ≡ true
      → is_in s l ≡ false
      → Matches f l a
      → ReplaysTo f (call_on_enter f s) a (s ∷ l)
  unfolding replay replay_one call_on_enter is_in
  call_on_enter-ReplaysTo s a l up fresh h = elim (Bool-cases (f s).time_limit) [
    | inl e ↦
        let up' : head_is (f s).parent_state a.states ≡ true = rw h.same_states up in
        let unset : a.limits s ≡ false = ground (arith, h.same_limits s) in
        let first : replay_one f (on_enter s) a ≡ some (record a { states = s ∷ a.states }) =
          simp (up', replay_one) in
        let self : (s == s) ≡ true = ground arith in
        let second : replay_one f (limit_set s) (record a { states = s ∷ a.states })
            ≡ some (record { states = s ∷ a.states; limits = put a.limits s true }) =
          simp (self, unset, is_in, replay_one) in
        let both : call_on_enter f s ≡ on_enter s ∷ limit_set s ∷ [] = rw e refl in
        (
          record { states = s ∷ a.states; limits = put a.limits s true },
          simp (both, first, second, replay),
          record {
            same_states = ap (λ m. s ∷ m) h.same_states;
            same_limits = λ x. ground (arith, h.same_limits x);
          },
        )
    | inr e ↦
        let up' : head_is (f s).parent_state a.states ≡ true = rw h.same_states up in
        let first : replay_one f (on_enter s) a ≡ some (record a { states = s ∷ a.states }) =
          simp (up', replay_one) in
        (
          record a { states = s ∷ a.states },
          simp (e, first, call_on_enter, replay),
          record {
            same_states = ap (λ m. s ∷ m) h.same_states;
            same_limits = λ x. ground (arith, h.same_limits x);
          },
        )
  ]

  pub call_on_exit-ReplaysTo :
      (s : ℕ) (a : Active) (l : List ℕ)
      → is_in s l ≡ false
      → Matches f (s ∷ l) a
      → ReplaysTo f (call_on_exit f s) a l
  unfolding replay replay_one call_on_exit is_in head_is
  call_on_exit-ReplaysTo s a l fresh h = elim (Bool-cases (f s).time_limit) [
    | inl e ↦
        let on_top : head_is (some s) a.states ≡ true = rw h.same_states (ground arith) in
        let first : replay_one f (on_exit s) (record a { limits = put a.limits s false })
            ≡ some (record { states = tail a.states; limits = put a.limits s false }) =
          simp (on_top, replay_one) in
        let last : replay f (on_exit s ∷ []) (record a { limits = put a.limits s false })
            ≡ some (record { states = tail a.states; limits = put a.limits s false }) =
          simp (first, replay) in
        let both : call_on_exit f s ≡ limit_dropped s ∷ on_exit s ∷ [] = rw e refl in
        (
          record { states = tail a.states; limits = put a.limits s false },
          rw both last,
          record {
            same_states = ap tail h.same_states;
            same_limits = λ x. ground (arith, h.same_limits x);
          },
        )
    | inr e ↦
        let on_top : head_is (some s) a.states ≡ true = rw h.same_states (ground arith) in
        let first : replay_one f (on_exit s) a ≡ some (record a { states = tail a.states }) =
          simp (on_top, replay_one) in
        let last : replay f (on_exit s ∷ []) a ≡ some (record a { states = tail a.states }) =
          simp (first, replay) in
        let one : call_on_exit f s ≡ on_exit s ∷ [] = rw e refl in
        (
          record a { states = tail a.states },
          rw one last,
          record {
            same_states = ap tail h.same_states;
            same_limits = λ x. ground (arith, h.same_limits x);
          },
        )
  ]
