-- ===== src/Coop/Tests.antt =====
-- Runs of the repository of cooperations.
use sobjectizer.Base.{
  size_mod, ◌+◌, ◌%◌, ◌++◌, ◌≡◌, refl, arith, true, false, not, ◌&&◌, ◌||◌, ◌⊎◌, is_nil, length,
  List, [], ◌∷◌,
}
use sobjectizer.Coop.Repository.{
  idle, result, passed, unable_to_register_coop_during_shutdown, is_shutdown, register_first,
  final_last, Step, begins_registration, registers, fails, reports, ends_registration, finalizes,
  deregisters_all, wakes, step, run,
}
use sobjectizer.Coop.Repository.Counted.{sum}
use sobjectizer.Coop.Repository.Totals.{totals_tell}
use sobjectizer.Coop.Repository.Waiting.{deregistrations}
use sobjectizer.Coop.Repository.Shutdown.{nobody_waits_for_ever, shutdown_waits}

-- Two registrations are going on when the shutdown begins; the second of them fails. The cooperation of
-- the other is already in its final deregistration when its thread comes to count it.
abbrev waiting_script : List Step
waiting_script =
    begins_registration 2
    ∷ begins_registration 3
    ∷ deregisters_all
    ∷ begins_registration 4
    ∷ fails 0
    ∷ registers 0
    ∷ finalizes 0
    ∷ ends_registration 0
    ∷ []

abbrev whole_script : List Step
whole_script =
    begins_registration 2
    ∷ begins_registration 3
    ∷ deregisters_all
    ∷ registers 1
    ∷ ends_registration 0
    ∷ fails 0
    ∷ wakes
    ∷ finalizes 0
    ∷ []

-- The cooperation is taken off before it is counted.
abbrev early_script : List Step
early_script = begins_registration 2 ∷ registers 0 ∷ finalizes 0 ∷ []

-- In between the totals are those of -1 cooperation and of -2 agents.
early_totals :
    ((run early_script idle).repository.total_coops + 1 ≡ size_mod)
    × ((run early_script idle).repository.total_agents + 2 ≡ size_mod)
unfolding run idle
early_totals = (refl, refl)

-- The only final deregistration reports that something is alive; when the registration ends nothing is,
-- and no report is left to be made.
unreported :
    ((final_last (run early_script idle)).1 ≡ result true false)
    × ((final_last (run (early_script ++ (reports ∷ ends_registration 0 ∷ [])) idle)).1
        ≡ result false false)
    × ((run (early_script ++ (reports ∷ ends_registration 0 ∷ [])) idle).finalizing ≡ 0)
unfolding run idle final_last
unreported = (refl, refl, refl)

totals_tell_example :
    let s = run early_script idle in
    (s.repository.registrations_in_progress ≡ length s.registering + length s.returned)
    × ((s.repository.total_coops + length s.returned) % size_mod ≡ length s.live)
    × ((s.repository.total_agents + sum s.returned) % size_mod ≡ sum s.live % size_mod)
    × ((final_last s).1
        ≡ result
            (not (is_nil s.live) || not (is_nil s.registering) || not (is_nil s.returned))
            (is_shutdown s.repository.status && is_nil s.live))
unfolding run idle
totals_tell_example = totals_tell early_script (omega arith)

nobody_waits_for_ever_example :
    let s = run waiting_script idle in
    (s.waiting ≡ 0)
    × ((s.woken ≡ 0)
        ⊎ (((step wakes s).1 ≡ passed) × (is_shutdown (step wakes s).0.repository.status ≡ true)))
unfolding run idle deregistrations
nobody_waits_for_ever_example = nobody_waits_for_ever waiting_script (omega arith) refl refl

shutdown_waits_example :
    let s = run whole_script idle in
    (s.registering ≡ [])
    × (s.returned ≡ [])
    × (register_first 5 s ≡ (s, unable_to_register_coop_during_shutdown))
unfolding run idle deregistrations
shutdown_waits_example = shutdown_waits whole_script 5 (omega arith) refl
