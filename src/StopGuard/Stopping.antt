-- ===== src/StopGuard/Stopping.antt =====
-- What the steps of all threads come to: when the actual stop is due, and which guards are stopped.
use sobjectizer.Base.{
  ℕ, ◌+◌, ◌-◌, ◌<◌, ◌≡◌, ◌≢◌, refl, sym, subst, inl, inr, Bool, true, false, not, ◌||◌, ◌&&◌, List,
  [], ◌∷◌, is_nil, ◌==◌, arith, Bool-cases,
}
use sobjectizer.StopGuard.{
  Status, not_started, start_in_progress, started, completed, do_nothing, wait_for_completion,
  do_actual_stop, erase, setup_guard, remove_guard, initiate_first, initiate_second, initiate_third,
  System, idle, make, Step, sets_up, removes, initiates, calls_stop, finishes, Reply, set_up, acted,
  stopped, silent, step, run,
}

-- Does some reply say that the actual stop is due?
abbrev pub says_stop : Reply → Bool
says_stop (acted do_nothing) = false
says_stop (acted wait_for_completion) = false
says_stop (acted do_actual_stop) = true
says_stop (set_up r) = false
says_stop (stopped l) = false
says_stop silent = false

unfoldable pub stop_due : List Reply → Bool
stop_due [] = false
stop_due (x ∷ xs) = says_stop x || stop_due xs

-- `told`: the actual stop was due before.
abbrev ByStatus : Status → List ℕ → ℕ → ℕ → Bool → Type 0
ByStatus not_started guards calling finishing told = (calling ≡ 0) × (finishing ≡ 0)
ByStatus start_in_progress guards calling finishing told = 0 < calling + finishing
ByStatus started guards calling finishing told = (is_nil guards && (not told)) ≡ false
ByStatus completed guards calling finishing told = told ≡ true

abbrev IsDue : System → Bool → Type 0
IsDue s told = ByStatus s.repository.status s.repository.guards s.calling s.finishing told

abbrev system : Status → List ℕ → List ℕ → ℕ → ℕ → System
system status guards c calling finishing = record {
  repository = record { status = status; guards = guards; container_for_shutdown = c };
  calling = calling;
  finishing = finishing;
}

module _ (told : Bool) where
  abbrev Follows : Step → System → Type 0
  Follows x s = IsDue (step x s).0 (told || says_stop (step x s).1)

  module _ (guards c : List ℕ) (calling finishing : ℕ) where
    removed_due :
        (g : ℕ)
        → ByStatus started guards calling finishing told
        → Follows (removes g) (system started guards c calling finishing)
    unfolding step remove_guard
    removed_due g k = elim (Bool-cases (is_nil (erase g guards))) [
      | inl e ↦ ground arith
      | inr e ↦ ground arith
    ]

    or_false : (told || false) ≡ told
    or_false = ground arith

    -- A thread goes from the second stage to the third.
    moved :
        (status : Status)
        → ByStatus status guards calling finishing told
        → calling ≢ 0
        → ByStatus status guards (calling - 1) (finishing + 1) told
    moved not_started k h = absurd (h k.0)
    moved start_in_progress k h = omega arith
    moved started k h = k
    moved completed k h = k

    called_due :
        (status : Status)
        → ByStatus status guards calling finishing told
        → Follows calls_stop (system status guards c calling finishing)
    unfolding step initiate_second
    called_due status k = elim (Bool-cases (calling == 0)) [
      | inl e ↦
          let same : step calls_stop (system status guards c calling finishing)
              ≡ (system status guards c calling finishing, silent) =
            rw e refl in
          subst (λ (r : System × Reply). IsDue r.0 (told || says_stop r.1)) (sym same)
            (rw or_false k)
      | inr e ↦
          let same : step calls_stop (system status guards c calling finishing)
              ≡ (system status guards [] (calling - 1) (finishing + 1), stopped c) =
            rw e refl in
          subst (λ (r : System × Reply). IsDue r.0 (told || says_stop r.1)) (sym same)
            (rw or_false (moved status k (ground arith)))
    ]

    finished_due :
        (status : Status)
        → ByStatus status guards calling finishing told
        → Follows finishes (system status guards c calling finishing)
    unfolding step initiate_third
    finished_due status k = elim (Bool-cases (finishing == 0)) [
      | inl e ↦
          let same : step finishes (system status guards c calling finishing)
              ≡ (system status guards c calling finishing, silent) =
            rw e refl in
          subst (λ (r : System × Reply). IsDue r.0 (told || says_stop r.1)) (sym same)
            (rw or_false k)
      | inr e ↦ elim (Bool-cases (is_nil guards)) [
        | inl n ↦
            let same : step finishes (system status guards c calling finishing)
                ≡ (system completed guards c calling (finishing - 1), acted do_actual_stop) =
              rw e (rw n refl) in
            subst (λ (r : System × Reply). IsDue r.0 (told || says_stop r.1)) (sym same)
              (ground arith)
        | inr n ↦
            let same : step finishes (system status guards c calling finishing)
                ≡ (system started guards c calling (finishing - 1), acted wait_for_completion) =
              rw e (rw n refl) in
            subst (λ (r : System × Reply). IsDue r.0 (told || says_stop r.1)) (sym same)
              (ground arith)
      ]
    ]

    by_status :
        (y : Step) (status : Status)
        → ByStatus status guards calling finishing told
        → Follows y (system status guards c calling finishing)
    unfolding step setup_guard remove_guard initiate_first
    by_status (sets_up g) not_started k = k
    by_status (sets_up g) start_in_progress k = k
    by_status (sets_up g) started k = ground arith
    by_status (sets_up g) completed k = ground arith
    by_status (removes g) not_started k = k
    by_status (removes g) start_in_progress k = k
    by_status (removes g) started k = removed_due g k
    by_status (removes g) completed k = ground arith
    by_status initiates not_started k = omega arith
    by_status initiates start_in_progress k = omega arith
    by_status initiates started k = ground arith
    by_status initiates completed k = ground arith
    by_status calls_stop status k = called_due status k
    by_status finishes status k = finished_due status k

run-IsDue :
    (xs : List Step) (s : System) (told : Bool)
    → IsDue s told
    → IsDue (run xs s).0 (told || stop_due (run xs s).1)
unfolding run stop_due
run-IsDue [] s told h = let same : (told || false) ≡ told = ground arith in rw same h
run-IsDue (x ∷ xs) s told h =
    let r = s.repository in
    let next =
      by_status told r.guards r.container_for_shutdown s.calling s.finishing x r.status h in
    let (s', reply) = step x s in
    let same : ((told || says_stop reply) || stop_due (run xs s').1)
        ≡ (told || (says_stop reply || stop_due (run xs s').1)) =
      ground arith in
    subst (λ b. IsDue (run xs s').0 b) same (run-IsDue xs s' (told || says_stop reply) next)

abbrev has_begun : Status → Bool
has_begun not_started = false
has_begun start_in_progress = true
has_begun started = true
has_begun completed = true

-- After every sequence of steps of all threads on a new repository: if a stop has been initiated, no
-- thread is inside `initiate_stop` any more and no guard is left, then some step has said that the
-- actual stop is due.
pub stop_is_not_lost :
    (script : List Step)
    → has_begun (run script idle).0.repository.status ≡ true
    → (run script idle).0.calling ≡ 0
    → (run script idle).0.finishing ≡ 0
    → (run script idle).0.repository.guards ≡ []
    → stop_due (run script idle).1 ≡ true
unfolding idle make
stop_is_not_lost script begun called finished empty =
    let (s, replies) = run script idle in
    by_end s.repository.status s.repository.guards s.calling s.finishing (stop_due replies) begun
      called finished empty (run-IsDue script idle false (refl, refl))
  where
    by_end :
        (status : Status) (guards : List ℕ) (calling finishing : ℕ) (told : Bool)
        → has_begun status ≡ true
        → calling ≡ 0
        → finishing ≡ 0
        → guards ≡ []
        → ByStatus status guards calling finishing told
        → told ≡ true
    by_end not_started guards calling finishing told b c f e h = absurd (ground arith)
    by_end start_in_progress guards calling finishing told b c f e h = absurd (omega arith)
    by_end started guards calling finishing told b c f e h =
        let none_left : is_nil guards ≡ true = rw e refl in ground arith
    by_end completed guards calling finishing told b c f e h = h
