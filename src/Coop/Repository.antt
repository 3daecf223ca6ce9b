-- ===== src/Coop/Repository.antt =====
-- `coop_repository_basis_t`: the registration of cooperations against the shutdown. A section under
-- the lock is one step. The totals wrap as `size_t` does; a registration in progress has a thread of
-- its own, so that their number does not come near to 2 ^ 64.
pub mod Counted
pub mod Totals
pub mod Waiting
pub mod Shutdown
use sobjectizer.Base.{
  add_size, sub_size, take_at, ℕ, zero, suc, ◌+◌, ◌-◌, Bool, true, false, not, ◌&&◌, ◌||◌, Option,
  none, some, List, [], ◌∷◌, ◌++◌, ◌==◌, if◌then◌else◌,
}

pub data Status : Type 0 where
  normal pending_shutdown shutdown : Status

pub record Repository : Type 0 where
  pub status : Status
  pub total_coops : ℕ
  pub total_agents : ℕ
  pub registrations_in_progress : ℕ

-- The repository, and what the threads are at. For each thread in `register_coop` the size of its
-- cooperation: `registering` while the cooperation's own registration goes on, `returned` from its end
-- up to the last section. `live` has the sizes of the cooperations whose own registration has ended and
-- whose final deregistration has not begun: it may begin before that last section. Then the final
-- deregistrations between their two sections, and the threads in `deregister_all_coop`, blocked on the
-- condition variable, woken, and past it.
pub record System : Type 0 where
  pub repository : Repository
  pub registering : List ℕ
  pub returned : List ℕ
  pub live : List ℕ
  pub finalizing : ℕ
  pub waiting : ℕ
  pub woken : ℕ
  pub past : ℕ

unfoldable pub idle : System
idle = record {
  repository = record {
    status = normal;
    total_coops = 0;
    total_agents = 0;
    registrations_in_progress = 0;
  };
  registering = [];
  returned = [];
  live = [];
  finalizing = 0;
  waiting = 0;
  woken = 0;
  past = 0;
}

pub data Reply : Type 0 where
  accepted unable_to_register_coop_during_shutdown : Reply
  registered counted failed finalized : Reply
  result : Bool → Bool → Reply
  switched already_in_shutdown_state : Reply
  blocked passed : Reply
  idle_step : Reply

-- The first section of `register_coop`.
unfoldable pub register_first : ℕ → System → System × Reply
register_first size s =
    let r = s.repository in
    elim r.status [
      | normal ↦ (
        record s {
          repository = record r { registrations_in_progress = r.registrations_in_progress + 1 };
          registering = size ∷ s.registering;
        },
        accepted,
      )
      | pending_shutdown ↦ (s, unable_to_register_coop_during_shutdown)
      | shutdown ↦ (s, unable_to_register_coop_during_shutdown)
    ]

abbrev pub is_pending : Status → Bool
is_pending normal = false
is_pending pending_shutdown = true
is_pending shutdown = false

-- `notify_one`: a notification that no thread waits for is lost.
abbrev pub notify_one : System → System
notify_one s =
    if s.waiting == 0 then s else record s { waiting = s.waiting - 1; woken = s.woken + 1 }

unfoldable pub handle_registrations_in_progress : System → System
handle_registrations_in_progress s =
    let left = s.repository.registrations_in_progress - 1 in
    let s' = record s { repository = record (s.repository) { registrations_in_progress = left } } in
    if (left == 0) && is_pending s.repository.status then notify_one s' else s'

-- The cooperation's own registration returns: from here on it can be deregistered.
unfoldable pub register_own : ℕ → List ℕ → System → System × Reply
register_own size others s = (
  record s { registering = others; returned = size ∷ s.returned; live = size ∷ s.live },
  registered,
)

-- The last section of `register_coop`.
unfoldable pub register_last : ℕ → List ℕ → System → System × Reply
unfolding handle_registrations_in_progress
register_last size others s =
    let r = s.repository in
    (
      handle_registrations_in_progress (record s {
        repository = record r {
          total_agents = add_size r.total_agents size;
          total_coops = add_size r.total_coops 1;
        };
        returned = others;
      }),
      counted,
    )

-- The section of its `catch`, after an exception of the cooperation's own registration.
unfoldable pub register_fails : List ℕ → System → System × Reply
unfolding handle_registrations_in_progress
register_fails others s =
    (handle_registrations_in_progress (record s { registering = others }), failed)

-- The two sections of `final_deregister_coop`.
unfoldable pub final_first : ℕ → List ℕ → System → System × Reply
final_first size others s =
    let r = s.repository in
    (
      record s {
        repository = record r {
          total_agents = sub_size r.total_agents size;
          total_coops = sub_size r.total_coops 1;
        };
        live = others;
        finalizing = s.finalizing + 1;
      },
      finalized,
    )

abbrev pub is_shutdown : Status → Bool
is_shutdown normal = false
is_shutdown pending_shutdown = false
is_shutdown shutdown = true

unfoldable pub final_last : System → System × Reply
final_last s =
    let r = s.repository in
    (
      record s { finalizing = s.finalizing - 1 },
      result (not (r.total_coops == 0) || not (r.registrations_in_progress == 0))
          (is_shutdown r.status && (r.total_coops == 0)),
    )

-- The first phase of `deregister_all_coop`, up to the wait or past it.
unfoldable pub deregister_all : System → System × Reply
deregister_all s =
    let r = s.repository in
    if r.registrations_in_progress == 0
    then (record s { repository = record r { status = shutdown }; past = s.past + 1 }, passed)
    else (
      record s { repository = record r { status = pending_shutdown }; waiting = s.waiting + 1 },
      blocked,
    )

-- A woken thread tests the predicate of the wait again.
unfoldable pub wake : System → System × Reply
wake s =
    let r = s.repository in
    if r.registrations_in_progress == 0
    then (
      record s {
        repository = record r { status = shutdown };
        woken = s.woken - 1;
        past = s.past + 1;
      },
      passed,
    )
    else (record s { woken = s.woken - 1; waiting = s.waiting + 1 }, blocked)

unfoldable pub try_switch_to_shutdown : System → System × Reply
try_switch_to_shutdown s = elim s.repository.status [
  | normal ↦
      (record s { repository = record (s.repository) { status = pending_shutdown } }, switched)
  | pending_shutdown ↦ (s, already_in_shutdown_state)
  | shutdown ↦ (s, already_in_shutdown_state)
]

pub data Step : Type 0 where
  begins_registration : ℕ → Step
  registers fails ends_registration : ℕ → Step
  finalizes : ℕ → Step
  reports deregisters_all wakes switches : Step

-- What the thread at an index does, if there is one.
abbrev pub taking : ℕ → List ℕ → (ℕ × List ℕ → System × Reply) → System → System × Reply
taking i threads f s = elim (take_at i threads) [ none ↦ (s, idle_step) | some p ↦ f p ]

-- One step of some thread; a step that no thread is at does nothing.
unfoldable pub step : Step → System → System × Reply
unfolding register_first register_own register_last register_fails take_at final_first final_last
    deregister_all wake try_switch_to_shutdown
step (begins_registration size) s = register_first size s
step (registers i) s = taking i s.registering (λ p. register_own p.0 p.1 s) s
step (fails i) s = taking i s.registering (λ p. register_fails p.1 s) s
step (ends_registration i) s = taking i s.returned (λ p. register_last p.0 p.1 s) s
step (finalizes i) s = taking i s.live (λ p. final_first p.0 p.1 s) s
step reports s = if s.finalizing == 0 then (s, idle_step) else final_last s
step deregisters_all s = deregister_all s
step wakes s = if s.woken == 0 then (s, idle_step) else wake s
step switches s = try_switch_to_shutdown s

unfoldable pub run : List Step → System → System
unfolding step
run [] s = s
run (x ∷ xs) s = run xs (step x s).0
