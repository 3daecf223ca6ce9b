-- ===== src/Agent/Subscribing/Finder.antt =====
-- The search for a handler, told by the chain of active states.
use sobjectizer.Base.{
  ℕ, zero, suc, ◌<◌, ◌≡◌, ◌∙◌, inl, inr, Option, none, some, List, [], ◌∷◌, arith, Option-cases,
}
use sobjectizer.Subscription.Iface.{StorageOps, StorageLaws, SubscrInfo, EventHandlerData, lookup}
use sobjectizer.Agent.State.{deadletter_state}
use sobjectizer.Agent.State.Valid.{IsValid}
use sobjectizer.Agent.State.Path.{Chain, top, up}
use sobjectizer.Agent.Subscribing.{Agent, find_from, handler_finder}

-- The handler of the first state of a list that has one.
unfoldable pub nearest : ℕ → ℕ → List SubscrInfo → List ℕ → Option EventHandlerData
unfolding lookup
nearest m t content [] = none
nearest m t content (s ∷ l) = elim (lookup m t s content) [
  | some h ↦ some h
  | none ↦ nearest m t content l
]

abbrev pub or_else : Option EventHandlerData → Option EventHandlerData → Option EventHandlerData
or_else (some h) y = some h
or_else none y = y

module _ (ops : StorageOps) (laws : StorageLaws ops) (m t : ℕ) (a : Agent ops) where
  abbrev content : List SubscrInfo
  content = ops.query_content a.subscriptions

  find_from-nearest :
      (rounds s : ℕ) (l : List ℕ)
      → IsValid a.core.states
      → laws.IsValid a.subscriptions
      → Chain a.core.states.at s l
      → (a.core.states.at s).nested_level < rounds
      → find_from ops rounds m t s a ≡ nearest m t content l
  unfolding find_from nearest
  find_from-nearest zero s l v w c h = absurd (omega arith)
  find_from-nearest (suc rounds) s l v w (top _ e) h =
      let found = laws.find_law a.subscriptions m t s w in
      elim (Option-cases (lookup m t s content)) [
        | inl k ↦ simp (e, k, found ∙ k, find_from, nearest)
        | inr (x, k) ↦ simp (e, k, found ∙ k, find_from, nearest)
      ]
  find_from-nearest (suc rounds) s l v w (up _ p r e c) h =
      let found = laws.find_law a.subscriptions m t s w in
      let level = v.level s p e in
      let rest = find_from-nearest rounds p r v w c (omega arith) in
      elim (Option-cases (lookup m t s content)) [
        | inl k ↦ simp (e, k, found ∙ k, rest, find_from, nearest)
        | inr (x, k) ↦ simp (e, k, found ∙ k, find_from, nearest)
      ]

  pub handler_finder-nearest :
      (l : List ℕ)
      → IsValid a.core.states
      → laws.IsValid a.subscriptions
      → Chain a.core.states.at a.core.current l
      → handler_finder ops m t a
        ≡ or_else (nearest m t content l) (lookup m t deadletter_state content)
  unfolding handler_finder
  handler_finder-nearest l v w c =
      let found = find_from-nearest 16 a.core.current l v w c (v.deep_enough a.core.current) in
      let dead = laws.find_law a.subscriptions m t deadletter_state w in
      elim (Option-cases (nearest m t content l)) [
        | inl k ↦ simp (found, k, dead, handler_finder)
        | inr (x, k) ↦ simp (found, k, handler_finder)
      ]
