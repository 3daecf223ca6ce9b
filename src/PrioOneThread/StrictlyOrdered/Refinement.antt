-- ===== src/PrioOneThread/StrictlyOrdered/Refinement.antt =====
-- The queue of `demand_queue_t`, with its pointer to the current subqueue, against the specification.
use sobjectizer.Base.{
  ℕ, zero, suc, ◌-◌, ◌≡◌, refl, sym, ap, ap₂, subst, ◌∙◌, inl, inr, Bool, true, false, none, some,
  List, [], ◌∷◌, ◌++◌, is_nil, ◌==◌, if◌then◌else◌, arith, Bool-cases, Option-cases, List-cases,
}
use sobjectizer.PrioOneThread.Priority.{
  Priority, to_size_t, total_priorities_count, to_size_t-bound,
}
use sobjectizer.PrioOneThread.StrictlyOrdered.{
  Subqueue, DemandQueue, Popped, waits, shutdown_ex, popped, update, raised, make, stop,
  add_demand_to_queue, push, next_below, pop_from, pop, agent_bound, agent_unbound,
}
use sobjectizer.PrioOneThread.StrictlyOrdered.Search.{
  next_below-bound, next_below-filled, next_below-update, next_below-emptied,
}
use sobjectizer.PrioOneThread.StrictlyOrdered.Order.{
  QueueCall, pushes, pops, stops, binds, unbinds, notified, outcome, perform, replies, Waiting,
  enter, serve, specified, specified_replies, in_order, in_order-push, in_order-none, in_order-pop,
}

-- Changes of the counters only.
same_search :
    {A : Type 0} (f : ℕ → Subqueue A) (p n : ℕ) (x : Subqueue A)
    → x.demands ≡ (f p).demands
    → (next_below (update f p x) n ≡ next_below f n) × (in_order (update f p x) n ≡ in_order f n)
unfolding next_below in_order
same_search f p zero x e = (refl, refl)
same_search f p (suc n) x e =
    let (search, order) = same_search f p n x e in
    elim (Bool-cases (n == p)) [
      | inl j ↦
          let here : (f p).demands ≡ (f n).demands = ground arith in
          rw (j, e, here, search, order) (refl, refl)
      | inr j ↦ rw (j, search, order) (refl, refl)
    ]

-- The pointer is to the highest subqueue with demands, and the line is what the subqueues hold.
record Refines {A : Type 0} (q : DemandQueue A) (w : Waiting A) : Type 0 where
  stopping : q.shutdown ≡ w.stopped
  current : q.current_priority ≡ next_below q.priorities total_priorities_count
  line : in_order q.priorities total_priorities_count ≡ w.line

notifies :
    {A : Type 0} (f : ℕ → Subqueue A) (n : ℕ)
    → (elim (next_below f n) as (λ x. Bool) [ none ↦ true | some c ↦ false ])
      ≡ is_nil (in_order f n)
unfolding next_below in_order
notifies f zero = refl
notifies f (suc n) = elim (List-cases (f n).demands) [
  | inl e ↦ rw e (notifies f n)
  | inr (x, xs, e) ↦ rw e refl
]

StepRefines : {A : Type 0} → QueueCall A → DemandQueue A → Waiting A → Type 0
StepRefines c q w =
    ((perform c q).1 ≡ (specified c w).1) × Refines (perform c q).0 (specified c w).0

append-filled : {A : Type 0} (xs : List A) (d : A) → is_nil (xs ++ d ∷ []) ≡ false
append-filled [] d = refl
append-filled (x ∷ xs) d = refl

push_step :
    {A : Type 0} (p : Priority) (d : A) (q : DemandQueue A) (w : Waiting A)
    → Refines q w
    → StepRefines (pushes p d) q w
unfolding StepRefines perform specified push add_demand_to_queue
push_step p d q w r =
    let n = to_size_t p in
    let x = add_demand_to_queue (q.priorities n) d in
    (
      rw r.current (ap notified (notifies q.priorities total_priorities_count ∙ ap is_nil r.line)),
      record {
        stopping = r.stopping;
        current = rw r.current (
            sym (
              next_below-update q.priorities total_priorities_count n x (to_size_t-bound p)
                (append-filled (q.priorities n).demands d)));
        line =
            in_order-push q.priorities total_priorities_count n d (to_size_t-bound p)
            ∙ ap (λ l. enter n d l) r.line;
      },
    )

bind_step :
    {A : Type 0} (p : Priority) (q : DemandQueue A) (w : Waiting A)
    → Refines q w
    → StepRefines (binds p) q w
unfolding StepRefines perform specified agent_bound
bind_step p q w r =
    let (search, order) = same_search q.priorities (to_size_t p) total_priorities_count _ refl in
    (
      refl,
      record { stopping = r.stopping; current = r.current ∙ sym search; line = order ∙ r.line },
    )

unbind_step :
    {A : Type 0} (p : Priority) (q : DemandQueue A) (w : Waiting A)
    → Refines q w
    → StepRefines (unbinds p) q w
unfolding StepRefines perform specified agent_unbound
unbind_step p q w r =
    let (search, order) = same_search q.priorities (to_size_t p) total_priorities_count _ refl in
    (
      refl,
      record { stopping = r.stopping; current = r.current ∙ sym search; line = order ∙ r.line },
    )

stop_step : {A : Type 0} (q : DemandQueue A) (w : Waiting A) → Refines q w → StepRefines stops q w
unfolding StepRefines perform specified stop
stop_step q w r = (
  rw r.current (ap notified (notifies q.priorities total_priorities_count ∙ ap is_nil r.line)),
  record { stopping = refl; current = r.current; line = r.line },
)

PopRefines : {A : Type 0} → DemandQueue A × Popped A → Waiting A × Popped A → Type 0
PopRefines (q, a) (w, b) = (outcome a ≡ outcome b) × Refines q w

pop_as :
    {A : Type 0} (q : DemandQueue A) (w : Waiting A) (a : DemandQueue A × Popped A)
    (b : Waiting A × Popped A)
    → pop q ≡ a
    → serve w ≡ b
    → PopRefines a b
    → StepRefines pops q w
unfolding StepRefines perform specified PopRefines
pop_as q w a b e e' r =
    subst (λ x. PopRefines x (serve w)) (sym e) (subst (λ x. PopRefines a x) (sym e') r)

pop-some :
    {A : Type 0} (q : DemandQueue A) (c : ℕ)
    → q.shutdown ≡ false
    → q.current_priority ≡ some c
    → pop q ≡ pop_from c q
unfolding pop
pop-some q c s e = ground arith

pop_from_lem :
    {A : Type 0} (q : DemandQueue A) (c : ℕ) (d : A) (ds : List A)
    → (q.priorities c).demands ≡ d ∷ ds
    → let f = update q.priorities c (record (q.priorities c) {
      demands = ds;
      demands_count = (q.priorities c).demands_count - 1;
    }) in
      pop_from c q ≡ (
        record q {
          priorities = f;
          current_priority = if is_nil ds then next_below f c else some c;
        },
        popped d,
      )
unfolding pop_from
pop_from_lem q c d ds h = simp (h, pop_from)

-- The pointer after a pop is to the highest subqueue with demands again.
next_current :
    {A : Type 0} (f : ℕ → Subqueue A) (n c : ℕ) (ds : List A) (x : Subqueue A)
    → next_below f n ≡ some c
    → x.demands ≡ ds
    → (if is_nil ds then next_below (update f c x) c else some c) ≡ next_below (update f c x) n
next_current f n c ds x found e = elim (Bool-cases (is_nil ds)) [
  | inl h ↦ rw h (sym (next_below-emptied f n c x found (rw e h)))
  | inr h ↦
      let raise = next_below-update f n c x (next_below-bound f n c found) (rw e h) in
      let same : raised (some c) c ≡ some c = ground arith in rw (h, raise, found, same) refl
]

-- A demand of the current subqueue.
pop_current :
    {A : Type 0} (q : DemandQueue A) (w : Waiting A) (c : ℕ) (d : A) (ds : List A)
    → Refines q w
    → w.stopped ≡ false
    → next_below q.priorities total_priorities_count ≡ some c
    → (q.priorities c).demands ≡ d ∷ ds
    → StepRefines pops q w
unfolding PopRefines
pop_current q w c d ds r go found h =
    let x = record (q.priorities c) {
      demands = ds;
      demands_count = (q.priorities c).demands_count - 1;
    } in
    let f = update q.priorities c x in
    let order = in_order-pop q.priorities total_priorities_count c d ds x found h refl in
    pop_as q w
      (
        record q {
          priorities = f;
          current_priority = if is_nil ds then next_below f c else some c;
        },
        popped d,
      )
      (record w { line = in_order f total_priorities_count }, popped d)
      (pop-some q c (r.stopping ∙ go) (r.current ∙ found) ∙ pop_from_lem q c d ds h)
      (ground (arith, order, r.line))
      (
        refl,
        record {
          stopping = r.stopping;
          current = next_current q.priorities total_priorities_count c ds x found refl;
          line = refl;
        },
      )

pop_step : {A : Type 0} (q : DemandQueue A) (w : Waiting A) → Refines q w → StepRefines pops q w
unfolding PopRefines pop
pop_step q w r = elim (Bool-cases w.stopped) [
  | inl s ↦
      pop_as q w (q, shutdown_ex) (w, shutdown_ex) (ground (arith, r.stopping)) (ground arith)
        (refl, r)
  | inr s ↦ elim (Option-cases (next_below q.priorities total_priorities_count)) [
    | inl e ↦
        let empty = in_order-none q.priorities total_priorities_count e in
        pop_as q w (q, waits) (w, waits) (ground (arith, r.stopping, r.current))
          (ground (arith, r.line)) (refl, r)
    | inr (c, e) ↦ elim (List-cases (q.priorities c).demands) [
      | inl h ↦ absurd (ground (arith, next_below-filled q.priorities total_priorities_count c e))
      | inr (d, ds, h) ↦ pop_current q w c d ds r s e h
    ]
  ]
]

perform_step :
    {A : Type 0} (c : QueueCall A) (q : DemandQueue A) (w : Waiting A)
    → Refines q w
    → StepRefines c q w
perform_step (pushes p d) q w r = push_step p d q w r
perform_step pops q w r = pop_step q w r
perform_step stops q w r = stop_step q w r
perform_step (binds p) q w r = bind_step p q w r
perform_step (unbinds p) q w r = unbind_step p q w r

replies_step :
    {A : Type 0} (cs : List (QueueCall A)) (q : DemandQueue A) (w : Waiting A)
    → Refines q w
    → replies q cs ≡ specified_replies w cs
unfolding replies specified_replies StepRefines
replies_step [] q w r = refl
replies_step (c ∷ cs) q w r =
    let (reply, r') = perform_step c q w r in
    ap₂ ◌∷◌ reply (replies_step cs (perform c q).0 (specified c w).0 r')

-- To every script of calls, the new strictly ordered demand queue replies as one line of demands does
-- in which a new demand goes behind all of its priority and of higher ones: each pop that does not
-- wait or end in the shutdown takes the first of the line, no null pointer is used, and a push
-- notifies exactly if the line was empty.
pub like_one_line :
    {A : Type 0} (script : List (QueueCall A))
    → replies make script ≡ specified_replies (record { stopped = false; line = [] }) script
unfolding make next_below in_order
like_one_line script =
    replies_step script make (record { stopped = false; line = [] })
      (record { stopping = refl; current = refl; line = refl })
