-- ===== src/StopGuard/Tests.antt =====
-- Runs of the repository of stop guards.
use sobjectizer.Base.{ℕ, ◌≡◌, refl, true, false, ◌⊎◌, List, [], ◌∷◌}
use sobjectizer.StopGuard.{
  not_started, do_nothing, do_actual_stop, wait_for_completion, ok, stop_already_in_progress, make,
  System, idle, Step, sets_up, removes, initiates, calls_stop, finishes, set_up, acted, stopped,
  silent, step, run,
}
use sobjectizer.StopGuard.Bag.{count, balance, IsSorted, guards_as_bag}
use sobjectizer.StopGuard.Stopping.{stop_due, stop_is_not_lost}
use sobjectizer.StopGuard.Once.{all_stops, some_guard_taken, guards_stopped_once}

abbrev script : List Step
script =
    sets_up 5
    ∷ sets_up 3
    ∷ sets_up 5
    ∷ removes 5
    ∷ initiates
    ∷ sets_up 4
    ∷ calls_stop
    ∷ removes 3
    ∷ finishes
    ∷ removes 5
    ∷ []

replies_of_script :
    (run script idle).1
    ≡ set_up ok
      ∷ set_up ok
      ∷ set_up ok
      ∷ acted do_nothing
      ∷ silent
      ∷ set_up stop_already_in_progress
      ∷ stopped (3 ∷ 5 ∷ [])
      ∷ acted do_nothing
      ∷ acted wait_for_completion
      ∷ acted do_actual_stop
      ∷ []
unfolding run idle make
replies_of_script = refl

guards_as_bag_example :
    let (s, replies) = run script idle in
    IsSorted s.repository.guards
    × ((h : ℕ) → count h s.repository.guards ≡ balance h script replies 0)
guards_as_bag_example = guards_as_bag script

stop_is_not_lost_example : stop_due (run script idle).1 ≡ true
unfolding run idle make
stop_is_not_lost_example = stop_is_not_lost script refl refl refl refl

abbrev two_guards : System
two_guards = record {
  repository = record { status = not_started; guards = 3 ∷ 5 ∷ []; container_for_shutdown = [] };
  calling = 0;
  finishing = 0;
}

guards_stopped_once_example :
    let (last, replies) =
      run (removes 3 ∷ initiates ∷ calls_stop ∷ finishes ∷ []) (step initiates two_guards).0 in
    (some_guard_taken replies ≡ false)
    × (((last.calling ≡ 1) × (all_stops replies ≡ []))
        ⊎ ((last.calling ≡ 0) × (all_stops replies ≡ 3 ∷ 5 ∷ [])))
guards_stopped_once_example =
    guards_stopped_once two_guards (removes 3 ∷ initiates ∷ calls_stop ∷ finishes ∷ []) refl refl
