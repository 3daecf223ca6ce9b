-- ===== src/QueueOfQueues/Tests.antt =====
-- Runs of a thread pool (dev/so_5/disp/reuse/queue_of_queues.hpp).
use sobjectizer.Base.{◌+◌, ◌<◌, ◌≡◌, refl, arith, length, List, [], ◌∷◌}
use sobjectizer.QueueOfQueues.{start, Step, pops, goes_on, switches, schedules, shuts_down, run}
use sobjectizer.QueueOfQueues.Threads.{no_lost_wakeup, nobody_waits_after_shutdown}

-- Both threads wait, the one that waits last is woken, and it wakes nobody as long as it is not on its
-- way.
abbrev waiting_script : List Step
waiting_script = pops 0 ∷ pops 0 ∷ schedules 5 ∷ schedules 6 ∷ []

abbrev going_script : List Step
going_script = pops 0 ∷ pops 0 ∷ schedules 5 ∷ schedules 6 ∷ goes_on 0 ∷ switches 0 5 ∷ []

abbrev ending_script : List Step
ending_script = pops 0 ∷ pops 0 ∷ schedules 5 ∷ shuts_down ∷ goes_on 1 ∷ []

waiting_woken : (run waiting_script (start (1 ∷ 2 ∷ []) 1)).woken ≡ (2 ∷ [])
unfolding run start
waiting_woken = refl

going_items : (run going_script (start (1 ∷ 2 ∷ []) 1)).queue.items ≡ (5 ∷ [])
unfolding run start
going_items = refl

ending_woken : (run ending_script (start (1 ∷ 2 ∷ []) 1)).woken ≡ (1 ∷ [])
unfolding run start
ending_woken = refl

no_lost_wakeup_example :
    0
    < length (run waiting_script (start (1 ∷ 2 ∷ []) 1)).working
      + length (run waiting_script (start (1 ∷ 2 ∷ []) 1)).woken
unfolding run start
no_lost_wakeup_example =
    no_lost_wakeup (1 ∷ 2 ∷ []) 1 waiting_script (omega arith) refl (omega arith)

nobody_waits_after_shutdown_example :
    length (run ending_script (start (1 ∷ 2 ∷ []) 1)).queue.waiting_customers ≡ 0
unfolding run start
nobody_waits_after_shutdown_example =
    nobody_waits_after_shutdown (1 ∷ 2 ∷ []) 1 ending_script (omega arith) refl
