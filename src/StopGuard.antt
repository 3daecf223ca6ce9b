-- ===== src/StopGuard.antt =====
-- `stop_guard_repository_t` of dev/so_5/impl/stop_guard_repo.hpp. A guard is named by its address; the
-- lock makes each of the sections under it one step.
pub mod Bag
pub mod Stopping
pub mod Once
pub mod Tests
use sobjectizer.Base.{
  ℕ, zero, suc, ◌+◌, ◌-◌, Bool, true, false, Option, none, some, List, [], ◌∷◌, ◌++◌, is_nil, ltb,
  ◌==◌, if◌then◌else◌,
}

pub data Status : Type 0 where
  not_started start_in_progress started completed : Status

pub data Action : Type 0 where
  do_nothing wait_for_completion do_actual_stop : Action

pub data SetupResult : Type 0 where
  ok stop_already_in_progress : SetupResult

pub record Repository : Type 0 where
  pub status : Status
  pub guards : List ℕ
  pub container_for_shutdown : List ℕ

unfoldable pub make : Repository
make = record { status = not_started; guards = []; container_for_shutdown = [] }

-- The insertion at the lower bound.
unfoldable pub insert : ℕ → List ℕ → List ℕ
insert g [] = g ∷ []
insert g (x ∷ xs) = let rest = insert g xs in if ltb x g then x ∷ rest else g ∷ x ∷ xs

-- The removal at the lower bound, if the guard is there.
unfoldable pub erase : ℕ → List ℕ → List ℕ
erase g [] = []
erase g (x ∷ xs) =
    let rest = erase g xs in if ltb x g then x ∷ rest else if x == g then xs else x ∷ xs

unfoldable pub setup_guard : ℕ → Repository → Repository × SetupResult
unfolding insert
setup_guard g r = elim r.status [
  | not_started ↦ (record r { guards = insert g r.guards }, ok)
  | start_in_progress ↦ (r, stop_already_in_progress)
  | started ↦ (r, stop_already_in_progress)
  | completed ↦ (r, stop_already_in_progress)
]

unfoldable pub remove_guard : ℕ → Repository → Repository × Action
unfolding erase
remove_guard g r =
    let r' = record r { guards = erase g r.guards } in
    elim r.status [
      | not_started ↦ (r', do_nothing)
      | start_in_progress ↦ (r', do_nothing)
      | started ↦ (r', (if is_nil r'.guards then do_actual_stop else wait_for_completion))
      | completed ↦ (r', do_nothing)
    ]

-- `initiate_stop` in its three stages. The first says whether the guards are to be stopped.
unfoldable pub initiate_first : Repository → Repository × Bool
initiate_first r = elim r.status [
  | not_started ↦ (
    record { status = start_in_progress; guards = r.guards; container_for_shutdown = r.guards },
    true,
  )
  | start_in_progress ↦ (r, false)
  | started ↦ (r, false)
  | completed ↦ (r, false)
]

-- The guards whose `stop` is called.
unfoldable pub initiate_second : Repository → Repository × List ℕ
initiate_second r = (record r { container_for_shutdown = [] }, r.container_for_shutdown)

unfoldable pub initiate_third : Repository → Repository × Action
initiate_third r =
    if is_nil r.guards
    then (record r { status = completed }, do_actual_stop)
    else (record r { status = started }, wait_for_completion)

-- The repository, and how many threads are before the second and before the third stage.
pub record System : Type 0 where
  pub repository : Repository
  pub calling : ℕ
  pub finishing : ℕ

unfoldable pub idle : System
unfolding make
idle = record { repository = make; calling = 0; finishing = 0 }

pub data Step : Type 0 where
  sets_up removes : ℕ → Step
  initiates calls_stop finishes : Step

pub data Reply : Type 0 where
  set_up : SetupResult → Reply
  acted : Action → Reply
  stopped : List ℕ → Reply
  silent : Reply

-- One step of some thread; a step that no thread is at does nothing.
unfoldable pub step : Step → System → System × Reply
unfolding setup_guard remove_guard initiate_first initiate_second initiate_third
step (sets_up g) s =
    let (r, result) = setup_guard g s.repository in (record s { repository = r }, set_up result)
step (removes g) s =
    let (r, action) = remove_guard g s.repository in (record s { repository = r }, acted action)
step initiates s =
    let (r, need_call_stop) = initiate_first s.repository in
    if need_call_stop
    then (record s { repository = r; calling = s.calling + 1 }, silent)
    else (record s { repository = r; finishing = s.finishing + 1 }, silent)
step calls_stop s =
    let (r, guards) = initiate_second s.repository in
    if s.calling == 0 then (s, silent) else (
      record { repository = r; calling = s.calling - 1; finishing = s.finishing + 1 },
      stopped guards,
    )
step finishes s =
    let (r, action) = initiate_third s.repository in
    if s.finishing == 0
    then (s, silent)
    else (record s { repository = r; finishing = s.finishing - 1 }, acted action)

unfoldable pub run : List Step → System → System × List Reply
unfolding step
run [] s = (s, [])
run (x ∷ xs) s =
    let (s', reply) = step x s in let (last, replies) = run xs s' in (last, reply ∷ replies)
