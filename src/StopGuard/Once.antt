-- ===== src/StopGuard/Once.antt =====
-- Once a stop is initiated: which guards are stopped, and that no guard is taken any more.
use sobjectizer.Base.{
  ℕ, ◌+◌, ◌-◌, ◌≡◌, ◌≢◌, refl, sym, ap, subst, ◌∙◌, inl, inr, ◌⊎◌, Bool, true, false, ◌||◌, List,
  [], ◌∷◌, ◌++◌, length, length-append, append-nil, append_assoc, is_nil, ◌==◌, arith, Bool-cases,
}
use sobjectizer.StopGuard.{
  Status, not_started, start_in_progress, started, completed, wait_for_completion, do_actual_stop,
  ok, stop_already_in_progress, setup_guard, remove_guard, initiate_first, initiate_second,
  initiate_third, System, Step, sets_up, removes, initiates, calls_stop, finishes, Reply, set_up,
  acted, stopped, silent, step, run,
}

-- The guards whose `stop` is called in one step, and in all steps.
abbrev pub stops : Reply → List ℕ
stops (stopped l) = l
stops (acted a) = []
stops (set_up r) = []
stops silent = []

unfoldable pub all_stops : List Reply → List ℕ
all_stops [] = []
all_stops (x ∷ xs) = stops x ++ all_stops xs

abbrev pub takes_guard : Reply → Bool
takes_guard (set_up ok) = true
takes_guard (set_up stop_already_in_progress) = false
takes_guard (stopped l) = false
takes_guard (acted a) = false
takes_guard silent = false

unfoldable pub some_guard_taken : List Reply → Bool
some_guard_taken [] = false
some_guard_taken (x ∷ xs) = takes_guard x || some_guard_taken xs

-- The guards that are still to be stopped, after the initiation: all of them, or none.
abbrev Place : List ℕ → List ℕ → List ℕ → ℕ → Type 0
Place all left c calling =
    ((calling ≡ 1) × (c ≡ left) × (left ≡ all)) ⊎ ((calling ≡ 0) × (left ≡ []))

abbrev IsLeft : List ℕ → List ℕ → System → Type 0
IsLeft all left s =
    (s.repository.status ≢ not_started)
    × Place all left s.repository.container_for_shutdown s.calling

abbrev system : Status → List ℕ → List ℕ → ℕ → ℕ → System
system status guards c calling finishing = record {
  repository = record { status = status; guards = guards; container_for_shutdown = c };
  calling = calling;
  finishing = finishing;
}

-- A step stops some of them, and takes no guard.
abbrev Advances : List ℕ → List ℕ → System × Reply → Type 0
Advances all left r =
    (later : List ℕ) × (left ≡ stops r.1 ++ later)
    × IsLeft all later r.0
    × (takes_guard r.1 ≡ false)

module _ (all left guards c : List ℕ) (calling finishing : ℕ) where
  same-Place :
      (status : Status) (r : System × Reply)
      → status ≢ not_started
      → Place all left c calling
      → (r.0.repository.status ≢ not_started)
      → r.0.calling ≡ calling
      → r.0.repository.container_for_shutdown ≡ c
      → stops r.1 ≡ []
      → takes_guard r.1 ≡ false
      → Advances all left r
  same-Place status r n (inl (one, same, whole)) m e f g h =
      (left, ap (λ l. l ++ left) (sym g), (m, inl (e ∙ one, f ∙ same, whole)), h)
  same-Place status r n (inr (none_there, same)) m e f g h =
      (left, ap (λ l. l ++ left) (sym g), (m, inr (e ∙ none_there, same)), h)

  stop_step :
      (status : Status)
      → status ≢ not_started
      → Place all left c calling
      → Advances all left (step calls_stop (system status guards c calling finishing))
  unfolding step initiate_second
  stop_step status n (inl (one, same, every)) =
      let e : (calling == 0) ≡ false = ground arith in
      let whole : step calls_stop (system status guards c calling finishing)
          ≡ (system status guards [] (calling - 1) (finishing + 1), stopped c) =
        rw e refl in
      subst (λ r. Advances all left r) (sym whole)
        ([], sym same ∙ sym (append-nil c), (n, inr (omega arith, refl)), refl)
  stop_step status n (inr (none_there, same)) =
      let e : (calling == 0) ≡ true = ground arith in
      let whole : step calls_stop (system status guards c calling finishing)
          ≡ (system status guards c calling finishing, silent) =
        rw e refl in
      subst (λ r. Advances all left r) (sym whole) (left, refl, (n, inr (none_there, same)), refl)

  finish_step :
      (status : Status)
      → status ≢ not_started
      → Place all left c calling
      → Advances all left (step finishes (system status guards c calling finishing))
  unfolding step initiate_third
  finish_step status n p = elim (Bool-cases (finishing == 0)) [
    | inl e ↦
        let whole : step finishes (system status guards c calling finishing)
            ≡ (system status guards c calling finishing, silent) =
          rw e refl in
        subst (λ r. Advances all left r) (sym whole)
          (same-Place status (system status guards c calling finishing, silent) n p n refl refl refl
            refl)
    | inr e ↦ elim (Bool-cases (is_nil guards)) [
      | inl k ↦
          let r : System × Reply =
            (system completed guards c calling (finishing - 1), acted do_actual_stop) in
          let whole : step finishes (system status guards c calling finishing) ≡ r =
            rw e (rw k refl) in
          subst (λ q. Advances all left q) (sym whole)
            (same-Place completed r (λ q. absurd (cc)) p (λ q. absurd (cc)) refl refl refl refl)
      | inr k ↦
          let r : System × Reply =
            (system started guards c calling (finishing - 1), acted wait_for_completion) in
          let whole : step finishes (system status guards c calling finishing) ≡ r =
            rw e (rw k refl) in
          subst (λ q. Advances all left q) (sym whole)
            (same-Place started r (λ q. absurd (cc)) p (λ q. absurd (cc)) refl refl refl refl)
    ]
  ]

  any_step :
      (x : Step) (status : Status)
      → status ≢ not_started
      → Place all left c calling
      → Advances all left (step x (system status guards c calling finishing))
  unfolding step setup_guard remove_guard initiate_first
  any_step x not_started n p = absurd (n refl)
  any_step (sets_up g) start_in_progress n p =
      same-Place start_in_progress
        (step (sets_up g) (system start_in_progress guards c calling finishing)) n p n refl refl
        refl refl
  any_step (sets_up g) started n p =
      same-Place started (step (sets_up g) (system started guards c calling finishing)) n p n refl
        refl refl refl
  any_step (sets_up g) completed n p =
      same-Place completed (step (sets_up g) (system completed guards c calling finishing)) n p n
        refl refl refl refl
  any_step (removes g) start_in_progress n p =
      same-Place start_in_progress
        (step (removes g) (system start_in_progress guards c calling finishing)) n p n refl refl
        refl refl
  any_step (removes g) started n p =
      same-Place started (step (removes g) (system started guards c calling finishing)) n p n refl
        refl refl refl
  any_step (removes g) completed n p =
      same-Place completed (step (removes g) (system completed guards c calling finishing)) n p n
        refl refl refl refl
  any_step initiates start_in_progress n p =
      same-Place start_in_progress
        (step initiates (system start_in_progress guards c calling finishing)) n p n refl refl refl
        refl
  any_step initiates started n p =
      same-Place started (step initiates (system started guards c calling finishing)) n p n refl
        refl refl refl
  any_step initiates completed n p =
      same-Place completed (step initiates (system completed guards c calling finishing)) n p n refl
        refl refl refl
  any_step calls_stop status n p = stop_step status n p
  any_step finishes status n p = finish_step status n p

run-IsLeft :
    (xs : List Step) (s : System) (all left : List ℕ)
    → IsLeft all left s
    → (later : List ℕ) × (left ≡ all_stops (run xs s).1 ++ later)
      × IsLeft all later (run xs s).0
      × (some_guard_taken (run xs s).1 ≡ false)
unfolding run all_stops some_guard_taken
run-IsLeft [] s all left h = (left, refl, h, refl)
run-IsLeft (x ∷ xs) s all left (n, p) =
    let r = s.repository in
    let (later, e, h, none_taken) =
      any_step all left r.guards r.container_for_shutdown s.calling s.finishing x r.status n p in
    let (last, e', h', none_later) = run-IsLeft xs (step x s).0 all later h in
    let after = all_stops (run xs (step x s).0).1 in
    let joined : stops (step x s).1 ++ (after ++ last) ≡ (stops (step x s).1 ++ after) ++ last =
      sym (append_assoc (stops (step x s).1) after last) in
    (last, e ∙ ap (λ l. stops (step x s).1 ++ l) e' ∙ joined, h', ground arith)

-- The system after the first call of `initiate_stop` has taken its first stage.
first_stage :
    (status : Status) (guards c : List ℕ) (calling finishing : ℕ)
    → status ≡ not_started
    → calling ≡ 0
    → IsLeft guards guards (step initiates (system status guards c calling finishing)).0
unfolding step initiate_first
first_stage not_started guards c calling finishing e none_there =
    ((λ k. absurd (cc)), inl (omega arith, refl, refl))
first_stage start_in_progress guards c calling finishing e none_there = absurd (cc)
first_stage started guards c calling finishing e none_there = absurd (cc)
first_stage completed guards c calling finishing e none_there = absurd (cc)

-- What is in front of the whole is nothing.
nothing_before : (xs ys : List ℕ) → ys ≡ xs ++ ys → xs ≡ []
nothing_before [] ys e = refl
nothing_before (x ∷ xs) ys e =
    let long = length-append (x ∷ xs) ys in let same = ap (λ l. length l) e in absurd (omega arith)

-- From a repository whose stop has not been initiated: after the first initiation and any further
-- steps of all threads, no guard has been taken; the guards told to stop are none as long as the
-- initiating thread is before its second stage, and from then on they are those that were in the
-- repository at the initiation, each once and in order.
pub guards_stopped_once :
    (s : System) (later : List Step)
    → s.repository.status ≡ not_started
    → s.calling ≡ 0
    → let (last, replies) = run later (step initiates s).0 in
      (some_guard_taken replies ≡ false)
      × (((last.calling ≡ 1) × (all_stops replies ≡ []))
          ⊎ ((last.calling ≡ 0) × (all_stops replies ≡ s.repository.guards)))
guards_stopped_once s later e none_there =
    let r = s.repository in
    let (rest, split, (n, place), none_taken) =
      run-IsLeft later (step initiates s).0 r.guards r.guards (
        first_stage r.status r.guards r.container_for_shutdown s.calling s.finishing e
          none_there) in
    (
      none_taken,
      elim place [
        | inl (one, same, whole) ↦ inl (
          one,
          nothing_before (all_stops (run later (step initiates s).0).1) r.guards
              (split ∙ ap (λ l. all_stops (run later (step initiates s).0).1 ++ l) whole),
        )
        | inr (none_left, empty) ↦ inr (
          none_left,
          sym (
              split
              ∙ ap (λ l. all_stops (run later (step initiates s).0).1 ++ l) empty
              ∙ append-nil (all_stops (run later (step initiates s).0).1)),
        )
      ],
    )
