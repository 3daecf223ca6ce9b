-- ===== src/PrioOneThread/StrictlyOrdered/Order.antt =====
-- Scripts of calls on a strictly ordered demand queue, and its specification: one line of the waiting
-- demands, in the order of their service.
use sobjectizer.Base.{
  ℕ, zero, suc, ◌<◌, ◌≤◌, ◌≡◌, refl, sym, ap, subst, inl, inr, Bool, true, false, none, some, List,
  [], ◌∷◌, ◌++◌, map, is_nil, leb, ◌==◌, if◌then◌else◌, arith, Bool-cases, List-cases,
}
use sobjectizer.PrioOneThread.Priority.{Priority, to_size_t}
use sobjectizer.PrioOneThread.StrictlyOrdered.{
  Subqueue, DemandQueue, Popped, waits, shutdown_ex, popped, update, stop, add_demand_to_queue,
  push, next_below, pop, agent_bound, agent_unbound,
}
use sobjectizer.PrioOneThread.StrictlyOrdered.Search.{next_below-bound}

pub data QueueCall (A : Type 0) : Type 0 where
  pushes : Priority → A → QueueCall A
  pops stops : QueueCall A
  binds unbinds : Priority → QueueCall A

pub data Reply (A : Type 0) : Type 0 where
  notified : Bool → Reply A
  outcome : Popped A → Reply A
  nothing : Reply A

unfoldable pub perform : {A : Type 0} → QueueCall A → DemandQueue A → DemandQueue A × Reply A
perform (pushes p d) q = let (q', n) = push p d q in (q', notified n)
perform pops q = let (q', r) = pop q in (q', outcome r)
perform stops q = let (q', n) = stop q in (q', notified n)
perform (binds p) q = (agent_bound p q, nothing)
perform (unbinds p) q = (agent_unbound p q, nothing)

unfoldable pub replies : {A : Type 0} → DemandQueue A → List (QueueCall A) → List (Reply A)
unfolding perform
replies q [] = []
replies q (c ∷ cs) = let (q', r) = perform c q in r ∷ replies q' cs

-- The specification: the demands that wait, each with its priority, in the order of their service.
pub record Waiting (A : Type 0) : Type 0 where
  pub stopped : Bool
  pub line : List (ℕ × A)

-- A new demand goes behind all of its priority and of higher ones.
unfoldable pub enter : {A : Type 0} → ℕ → A → List (ℕ × A) → List (ℕ × A)
enter p d [] = (p, d) ∷ []
enter p d ((k, x) ∷ l) =
    let rest = enter p d l in if leb p k then (k, x) ∷ rest else (p, d) ∷ (k, x) ∷ l

abbrev pub serve : {A : Type 0} → Waiting A → Waiting A × Popped A
serve w =
    if w.stopped
    then (w, shutdown_ex)
    else elim w.line [ [] ↦ (w, waits) | x ∷ l ↦ (record w { line = l }, popped x.1) ]

unfoldable pub specified : {A : Type 0} → QueueCall A → Waiting A → Waiting A × Reply A
unfolding enter
specified (pushes p d) w =
    (record w { line = enter (to_size_t p) d w.line }, notified (is_nil w.line))
specified pops w = let (w', r) = serve w in (w', outcome r)
specified stops w = (record w { stopped = true }, notified (is_nil w.line))
specified (binds p) w = (w, nothing)
specified (unbinds p) w = (w, nothing)

unfoldable pub specified_replies : {A : Type 0} → Waiting A → List (QueueCall A) → List (Reply A)
unfolding specified
specified_replies w [] = []
specified_replies w (c ∷ cs) = let (w', r) = specified c w in r ∷ specified_replies w' cs

abbrev tagged : {A : Type 0} → ℕ → List A → List (ℕ × A)
tagged n xs = map (λ x. (n, x)) xs

-- The demands of the subqueues below an index, from the highest priority down.
unfoldable pub in_order : {A : Type 0} → (ℕ → Subqueue A) → ℕ → List (ℕ × A)
in_order f zero = []
in_order f (suc n) = tagged n (f n).demands ++ in_order f n

enter-front :
    {A : Type 0} (f : ℕ → Subqueue A) (n p : ℕ) (d : A)
    → n ≤ p
    → enter p d (in_order f n) ≡ (p, d) ∷ in_order f n
unfolding enter in_order
enter-front f zero p d b = refl
enter-front f (suc n) p d b = elim (List-cases (f n).demands) [
  | inl e ↦ rw e (enter-front f n p d (omega arith))
  | inr (x, xs, e) ↦ let later : leb p n ≡ false = ground arith in rw (e, enter) (ground arith)
]

enter-tagged :
    {A : Type 0} (n p : ℕ) (d : A) (xs : List A) (l : List (ℕ × A))
    → p ≤ n
    → enter p d (tagged n xs ++ l) ≡ tagged n xs ++ enter p d l
unfolding enter
enter-tagged n p d [] l b = refl
enter-tagged n p d (x ∷ xs) l b =
    let rest = enter-tagged n p d xs l b in
    let first : leb p n ≡ true = ground arith in rw first (ap (λ y. (n, x) ∷ y) rest)

tagged-append :
    {A : Type 0} (n : ℕ) (xs : List A) (d : A) (l : List (ℕ × A))
    → tagged n (xs ++ d ∷ []) ++ l ≡ tagged n xs ++ (n, d) ∷ l
tagged-append n [] d l = refl
tagged-append n (x ∷ xs) d l = ap (λ y. (n, x) ∷ y) (tagged-append n xs d l)

-- A subqueue at or above the bound does not count.
in_order-above :
    {A : Type 0} (f : ℕ → Subqueue A) (n p : ℕ) (x : Subqueue A)
    → n ≤ p
    → in_order (update f p x) n ≡ in_order f n
unfolding in_order
in_order-above f zero p x b = refl
in_order-above f (suc n) p x b =
    let other : (n == p) ≡ false = ground arith in
    rw (other, in_order-above f n p x (omega arith)) refl

in_order-push_here :
    {A : Type 0} (f : ℕ → Subqueue A) (n : ℕ) (d : A)
    → in_order (update f n (add_demand_to_queue (f n) d)) (suc n) ≡ enter n d (in_order f (suc n))
unfolding in_order add_demand_to_queue
in_order-push_here f n d =
    let here : (n == n) ≡ true = ground arith in
    rw
      (
        here,
        in_order-above f n n (add_demand_to_queue (f n) d) (omega arith),
        tagged-append n (f n).demands d (in_order f n),
        enter-tagged n n d (f n).demands (in_order f n) (omega arith),
        enter-front f n n d (omega arith),
      )
      refl

pub in_order-push :
    {A : Type 0} (f : ℕ → Subqueue A) (n p : ℕ) (d : A)
    → p < n
    → in_order (update f p (add_demand_to_queue (f p) d)) n ≡ enter p d (in_order f n)
unfolding in_order add_demand_to_queue
in_order-push f zero p d b = absurd (omega arith)
in_order-push f (suc n) p d b = elim (Bool-cases (n == p)) [
  | inl j ↦
      let same : n ≡ p = ground arith in
      subst
        (λ i.
          in_order (update f i (add_demand_to_queue (f i) d)) (suc n)
          ≡ enter i d (in_order f (suc n)))
        same (in_order-push_here f n d)
  | inr j ↦
      rw (j, in_order-push f n p d (ground arith))
        (sym (enter-tagged n p d (f n).demands (in_order f n) (ground arith)))
]

pub in_order-none :
    {A : Type 0} (f : ℕ → Subqueue A) (n : ℕ) → next_below f n ≡ none → in_order f n ≡ []
unfolding in_order next_below
in_order-none f zero e = refl
in_order-none f (suc n) e = elim (List-cases (f n).demands) [
  | inl h ↦ rw h (in_order-none f n (ground arith))
  | inr (x, xs, h) ↦ absurd (ground arith)
]

in_order-pop_here :
    {A : Type 0} (f : ℕ → Subqueue A) (n : ℕ) (d : A) (ds : List A) (x : Subqueue A)
    → (f n).demands ≡ d ∷ ds
    → x.demands ≡ ds
    → in_order f (suc n) ≡ (n, d) ∷ in_order (update f n x) (suc n)
unfolding in_order
in_order-pop_here f n d ds x h k =
    let here : (n == n) ≡ true = ground arith in
    rw (here, h, k, in_order-above f n n x (omega arith)) refl

pub in_order-pop :
    {A : Type 0} (f : ℕ → Subqueue A) (n c : ℕ) (d : A) (ds : List A) (x : Subqueue A)
    → next_below f n ≡ some c
    → (f c).demands ≡ d ∷ ds
    → x.demands ≡ ds
    → in_order f n ≡ (c, d) ∷ in_order (update f c x) n
unfolding in_order next_below
in_order-pop f zero c d ds x e h k = absurd (ground arith)
in_order-pop f (suc n) c d ds x e h k = elim (List-cases (f n).demands) [
  | inl g ↦
      let found : next_below f n ≡ some c = ground arith in
      let below = next_below-bound f n c found in
      let other : (n == c) ≡ false = ground arith in
      rw (g, other) (in_order-pop f n c d ds x found h k)
  | inr (y, ys, g) ↦
      let same : n ≡ c = ground arith in
      subst (λ i. in_order f (suc n) ≡ (i, d) ∷ in_order (update f i x) (suc n)) same
        (in_order-pop_here f n d ds x (subst (λ i. (f i).demands ≡ d ∷ ds) (sym same) h) k)
]
