-- ===== src/Coop/Repository/Waiting.antt =====
-- Who waits for the shutdown in `deregister_all_coop` (dev/so_5/impl/coop_repository_basis.cpp).
use sobjectizer.Base.{
  take_at, add_size, ℕ, suc, ◌+◌, ◌-◌, ◌≤◌, ◌<◌, ◌≡◌, refl, sym, subst, inl, inr, true, ◌&&◌, List,
  [], ◌∷◌, ◌==◌, arith, Bool-cases, Option-cases,
}
use sobjectizer.Coop.Repository.{
  Status, normal, pending_shutdown, shutdown, System, idle, Reply, is_pending, is_shutdown,
  idle_step, unable_to_register_coop_during_shutdown, already_in_shutdown_state, taking,
  handle_registrations_in_progress, register_first, register_own, register_last, register_fails,
  final_first, final_last, deregister_all, wake, try_switch_to_shutdown, Step, begins_registration,
  registers, fails, ends_registration, finalizes, reports, deregisters_all, wakes, switches, step,
  run,
}

-- How often a script calls `deregister_all_coop`.
unfoldable pub deregistrations : List Step → ℕ
deregistrations [] = 0
deregistrations (deregisters_all ∷ xs) = suc (deregistrations xs)
deregistrations (begins_registration n ∷ xs) = deregistrations xs
deregistrations (registers i ∷ xs) = deregistrations xs
deregistrations (fails i ∷ xs) = deregistrations xs
deregistrations (ends_registration i ∷ xs) = deregistrations xs
deregistrations (finalizes i ∷ xs) = deregistrations xs
deregistrations (reports ∷ xs) = deregistrations xs
deregistrations (wakes ∷ xs) = deregistrations xs
deregistrations (switches ∷ xs) = deregistrations xs

-- No registration is in progress once the shutdown is on; a blocked thread waits for some that is, and
-- the shutdown is pending; for a woken one there is none left; `ahead` calls of `deregister_all_coop` are still to come.
abbrev ByCount : Status → ℕ → ℕ → ℕ → ℕ → ℕ → Type 0
ByCount status registrations waiting woken past ahead =
    (is_shutdown status ≡ true → registrations ≡ 0)
    × (0 < waiting → (0 < registrations) × (is_pending status ≡ true))
    × (0 < woken → (registrations ≡ 0) × (is_pending status ≡ true))
    × (waiting + woken + past + ahead ≤ 1)

abbrev pub IsSafe : ℕ → System → Type 0
IsSafe ahead s =
    ByCount s.repository.status s.repository.registrations_in_progress s.waiting s.woken s.past
      ahead

handle-IsSafe :
    (ahead : ℕ) (s : System) → IsSafe ahead s → IsSafe ahead (handle_registrations_in_progress s)
unfolding handle_registrations_in_progress
handle-IsSafe ahead s (a, b, c, d) =
    let keep_a : is_shutdown s.repository.status ≡ true
        → s.repository.registrations_in_progress - 1 ≡ 0 =
      λ k. let none_there = a k in omega arith in
    let keep_c : 0 < s.woken
        → (s.repository.registrations_in_progress - 1 ≡ 0)
          × (is_pending s.repository.status ≡ true) =
      λ k. let (none_there, on) = c k in (omega arith, on) in
    elim (Bool-cases
      ((s.repository.registrations_in_progress - 1 == 0) && is_pending s.repository.status)) [
        | inl p ↦ elim (Bool-cases (s.waiting == 0)) [
          | inl w ↦ rw p (rw w (keep_a, (λ k. absurd (ground arith)), keep_c, d))
          | inr w ↦
              let some_there : 0 < s.waiting = ground arith in
              rw p (
                rw w (
                  keep_a,
                  (λ k. absurd (omega arith)),
                  (λ k. (ground arith, ground arith)),
                  omega arith,
                ))
        ]
        | inr p ↦ rw p (keep_a, (λ k. let (some_there, on) = b k in (ground arith, on)), keep_c, d)
      ]

-- What a step does to a system in order.
abbrev KeepsSafe : ℕ → Step → System → Type 0
KeepsSafe ahead x s = IsSafe ahead (step x s).0

begins-IsSafe :
    (ahead size : ℕ) (s : System) (status : Status)
    → s.repository.status ≡ status
    → IsSafe ahead s
    → IsSafe ahead (register_first size s).0
unfolding register_first
begins-IsSafe ahead size s normal e (a, b, c, d) = rw e (
  (λ k. absurd (ground arith)),
  (λ k. let (some_there, on) = b k in absurd (ground arith)),
  (λ k. let (none_there, on) = c k in absurd (ground arith)),
  d,
)
begins-IsSafe ahead size s pending_shutdown e h =
    let same : register_first size s ≡ (s, unable_to_register_coop_during_shutdown) =
      simp (e, register_first) in
    subst (λ (r : System × Reply). IsSafe ahead r.0) (sym same) h
begins-IsSafe ahead size s shutdown e h =
    let same : register_first size s ≡ (s, unable_to_register_coop_during_shutdown) =
      simp (e, register_first) in
    subst (λ (r : System × Reply). IsSafe ahead r.0) (sym same) h

switches-IsSafe :
    (ahead : ℕ) (s : System) (status : Status)
    → s.repository.status ≡ status
    → IsSafe ahead s
    → IsSafe ahead (try_switch_to_shutdown s).0
unfolding try_switch_to_shutdown
switches-IsSafe ahead s normal e (a, b, c, d) = rw e (
  (λ k. absurd (ground arith)),
  (λ k. let (some_there, on) = b k in (some_there, refl)),
  (λ k. let (none_there, on) = c k in (none_there, refl)),
  d,
)
switches-IsSafe ahead s pending_shutdown e h =
    let same : try_switch_to_shutdown s ≡ (s, already_in_shutdown_state) =
      simp (e, try_switch_to_shutdown) in
    subst (λ (r : System × Reply). IsSafe ahead r.0) (sym same) h
switches-IsSafe ahead s shutdown e h =
    let same : try_switch_to_shutdown s ≡ (s, already_in_shutdown_state) =
      simp (e, try_switch_to_shutdown) in
    subst (λ (r : System × Reply). IsSafe ahead r.0) (sym same) h

-- A step of the thread at an index, if there is one.
taken-IsSafe :
    (ahead : ℕ) (s : System) (l : List ℕ) (i : ℕ) (f : ℕ × List ℕ → System × Reply)
    → IsSafe ahead s
    → ((p : ℕ × List ℕ) → IsSafe ahead (f p).0)
    → IsSafe ahead (taking i l f s).0
taken-IsSafe ahead s l i f h g = elim (Option-cases (take_at i l)) [
  | inl e ↦
      let same : taking i l f s ≡ (s, idle_step) = simp (e, taking) in
      subst (λ (r : System × Reply). IsSafe ahead r.0) (sym same) h
  | inr (p, e) ↦
      let same : taking i l f s ≡ f p = simp (e, taking) in
      subst (λ (r : System × Reply). IsSafe ahead r.0) (sym same) (g p)
]

last-IsSafe :
    (ahead : ℕ) (s : System) (p : ℕ × List ℕ)
    → IsSafe ahead s
    → IsSafe ahead (register_last p.0 p.1 s).0
unfolding register_last
last-IsSafe ahead s p h =
    let r = s.repository in
    let s' : System = record s {
      repository = record r {
        total_agents = add_size r.total_agents p.0;
        total_coops = add_size r.total_coops 1;
      };
      returned = p.1;
    } in
    handle-IsSafe ahead s' h

fails-IsSafe :
    (ahead : ℕ) (s : System) (p : ℕ × List ℕ)
    → IsSafe ahead s
    → IsSafe ahead (register_fails p.1 s).0
unfolding register_fails
fails-IsSafe ahead s p h =
    let s' : System = record s { registering = p.1 } in handle-IsSafe ahead s' h

deregisters-IsSafe :
    (ahead : ℕ) (s : System) → IsSafe (suc ahead) s → IsSafe ahead (deregister_all s).0
unfolding deregister_all
deregisters-IsSafe ahead s (a, b, c, d) =
    elim (Bool-cases (s.repository.registrations_in_progress == 0)) [
      | inl e ↦
          let none_there : s.repository.registrations_in_progress ≡ 0 = ground arith in
          rw e (
            (λ k. none_there),
            (λ k. absurd (omega arith)),
            (λ k. absurd (omega arith)),
            omega arith,
          )
      | inr e ↦
          let some_there : 0 < s.repository.registrations_in_progress = ground arith in
          rw e (
            (λ k. absurd (ground arith)),
            (λ k. (some_there, refl)),
            (λ k. absurd (omega arith)),
            omega arith,
          )
    ]

wakes-IsSafe : (ahead : ℕ) (s : System) → IsSafe ahead s → KeepsSafe ahead wakes s
unfolding step wake
wakes-IsSafe ahead s (a, b, c, d) = elim (Bool-cases (s.woken == 0)) [
  | inl w ↦
      let same : step wakes s ≡ (s, idle_step) = rw w refl in
      subst (λ (r : System × Reply). IsSafe ahead r.0) (sym same) (a, b, c, d)
  | inr w ↦
      let some_woken : 0 < s.woken = ground arith in
      let (none_there, on) = c some_woken in
      let e : (s.repository.registrations_in_progress == 0) ≡ true = ground arith in
      rw w (
        rw e (
          (λ k. none_there),
          (λ k. absurd (omega arith)),
          (λ k. absurd (omega arith)),
          omega arith,
        ))
]

reports-IsSafe : (ahead : ℕ) (s : System) → IsSafe ahead s → KeepsSafe ahead reports s
unfolding step final_last
reports-IsSafe ahead s h = elim (Bool-cases (s.finalizing == 0)) [
  | inl e ↦
      let same : step reports s ≡ (s, idle_step) = rw e refl in
      subst (λ (r : System × Reply). IsSafe ahead r.0) (sym same) h
  | inr e ↦
      let same : step reports s ≡ final_last s = rw e refl in
      subst (λ (r : System × Reply). IsSafe ahead r.0) (sym same) h
]

pub run-IsSafe : (xs : List Step) (s : System) → IsSafe (deregistrations xs) s → IsSafe 0 (run xs s)
unfolding run step deregistrations final_last register_own final_first
run-IsSafe [] s h = h
run-IsSafe (begins_registration size ∷ xs) s h =
    run-IsSafe xs (step (begins_registration size) s).0
      (begins-IsSafe (deregistrations xs) size s s.repository.status refl h)
run-IsSafe (registers i ∷ xs) s h =
    run-IsSafe xs (step (registers i) s).0
      (taken-IsSafe (deregistrations xs) s s.registering i (λ p. register_own p.0 p.1 s) h (λ p. h))
run-IsSafe (fails i ∷ xs) s h = run-IsSafe xs (step (fails i) s).0 (
    taken-IsSafe (deregistrations xs) s s.registering i (λ p. register_fails p.1 s) h
      (λ p. fails-IsSafe (deregistrations xs) s p h))
run-IsSafe (ends_registration i ∷ xs) s h = run-IsSafe xs (step (ends_registration i) s).0 (
    taken-IsSafe (deregistrations xs) s s.returned i (λ p. register_last p.0 p.1 s) h
      (λ p. last-IsSafe (deregistrations xs) s p h))
run-IsSafe (finalizes i ∷ xs) s h =
    run-IsSafe xs (step (finalizes i) s).0
      (taken-IsSafe (deregistrations xs) s s.live i (λ p. final_first p.0 p.1 s) h (λ p. h))
run-IsSafe (reports ∷ xs) s h =
    run-IsSafe xs (step reports s).0 (reports-IsSafe (deregistrations xs) s h)
run-IsSafe (deregisters_all ∷ xs) s h =
    run-IsSafe xs (step deregisters_all s).0 (deregisters-IsSafe (deregistrations xs) s h)
run-IsSafe (wakes ∷ xs) s h = run-IsSafe xs (step wakes s).0 (wakes-IsSafe (deregistrations xs) s h)
run-IsSafe (switches ∷ xs) s h =
    run-IsSafe xs (step switches s).0
      (switches-IsSafe (deregistrations xs) s s.repository.status refl h)

pub idle-IsSafe : (ahead : ℕ) → ahead ≤ 1 → IsSafe ahead idle
unfolding idle
idle-IsSafe ahead h =
    ((λ k. refl), (λ k. absurd (omega arith)), (λ k. absurd (omega arith)), omega arith)
