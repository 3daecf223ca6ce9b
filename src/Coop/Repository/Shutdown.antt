-- ===== src/Coop/Repository/Shutdown.antt =====
-- The shutdown of the repository, over the steps of all threads.
use sobjectizer.Base.{
  ℕ, ◌≤◌, ◌≡◌, refl, ap, inl, inr, ◌⊎◌, true, List, [], ◌∷◌, length, ◌==◌, arith, Bool-cases,
}
use sobjectizer.Coop.Repository.{
  Status, normal, pending_shutdown, shutdown, System, idle, passed, is_shutdown,
  unable_to_register_coop_during_shutdown, register_first, wake, Step, wakes, step, run,
}
use sobjectizer.Coop.Repository.Counted.{run-IsCounted, idle-IsCounted}
use sobjectizer.Coop.Repository.Waiting.{deregistrations, run-IsSafe, idle-IsSafe}

is_nil_of_length : (l : List ℕ) → length l ≡ 0 → l ≡ []
is_nil_of_length [] e = refl
is_nil_of_length (x ∷ xs) e = absurd (omega arith)

-- After every sequence of steps of all threads on a new repository with at most one call of
-- `deregister_all_coop`: once no cooperation is being registered, neither in its own registration nor
-- past it, no thread is blocked in that call, and one that has been woken goes on to the
-- deregistrations with its next step.
pub nobody_waits_for_ever :
    (script : List Step)
    → deregistrations script ≤ 1
    → (run script idle).registering ≡ []
    → (run script idle).returned ≡ []
    → let s = run script idle in
      (s.waiting ≡ 0)
      × ((s.woken ≡ 0)
          ⊎ (((step wakes s).1 ≡ passed) × (is_shutdown (step wakes s).0.repository.status ≡ true)))
unfolding step wake
nobody_waits_for_ever script few ended counted_all =
    let s = run script idle in
    let (a, b, c, d) = run-IsSafe script idle (idle-IsSafe (deregistrations script) few) in
    let counted = (run-IsCounted script idle idle-IsCounted).registrations in
    let none_there : s.repository.registrations_in_progress ≡ 0 =
      let none_registering = ap (λ (l : List ℕ). length l) ended in
      let none_returned = ap (λ (l : List ℕ). length l) counted_all in omega arith in
    (
      elim (Bool-cases (s.waiting == 0)) [
        | inl e ↦ ground arith
        | inr e ↦ let (some_there, on) = b (ground arith) in absurd (omega arith)
      ],
      elim (Bool-cases (s.woken == 0)) [
        | inl e ↦ inl (ground arith)
        | inr e ↦
            let n : (s.repository.registrations_in_progress == 0) ≡ true = ground arith in
            inr (rw e (rw n (refl, refl)))
      ],
    )

-- After every sequence of steps of all threads on a new repository with at most one call of
-- `deregister_all_coop`: where the shutdown is on, no cooperation is being registered, neither in its own
-- registration nor past it, and every new registration throws and changes nothing.
pub shutdown_waits :
    (script : List Step) (size : ℕ)
    → deregistrations script ≤ 1
    → is_shutdown (run script idle).repository.status ≡ true
    → let s = run script idle in
      (s.registering ≡ [])
      × (s.returned ≡ [])
      × (register_first size s ≡ (s, unable_to_register_coop_during_shutdown))
unfolding register_first
shutdown_waits script size few on =
    let s = run script idle in
    let (a, b, c, d) = run-IsSafe script idle (idle-IsSafe (deregistrations script) few) in
    let counted = (run-IsCounted script idle idle-IsCounted).registrations in
    let none_there = a on in
    (
      is_nil_of_length s.registering (omega arith),
      is_nil_of_length s.returned (omega arith),
      refused s size s.repository.status refl on,
    )
  where
    refused :
        (s : System) (n : ℕ) (status : Status)
        → s.repository.status ≡ status
        → is_shutdown s.repository.status ≡ true
        → register_first n s ≡ (s, unable_to_register_coop_during_shutdown)
    refused s n normal e h = absurd (ground arith)
    refused s n pending_shutdown e h = absurd (ground arith)
    refused s n shutdown e h = simp (e, register_first)
