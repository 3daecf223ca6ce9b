-- ===== src/Coop/Repository/Totals.antt =====
-- The totals of the repository, over the steps of all threads.
use sobjectizer.Base.{
  size_mod, ◌%◌, ◌<◌, ℕ, ◌+◌, ◌≡◌, refl, inl, inr, Bool, true, false, not, ◌&&◌, ◌||◌, List, [],
  ◌∷◌, is_nil, ap₂, length, ◌==◌, arith, Bool-cases,
}
use sobjectizer.Coop.Repository.{System, idle, result, is_shutdown, final_last, Step, run}
use sobjectizer.Coop.Repository.Counted.{sum, IsCounted, run-IsCounted, idle-IsCounted}

is_nil-length : (l : List ℕ) → is_nil l ≡ (length l == 0)
is_nil-length [] = refl
is_nil-length (x ∷ xs) = ground arith

-- Where nobody is to be counted any more, the total is that of the live ones.
settled :
    (total returned live : ℕ)
    → (total + returned) % size_mod ≡ live % size_mod
    → total < size_mod
    → live < size_mod
    → returned ≡ 0
    → total ≡ live
settled total returned live e f g h = omega arith

any_live :
    (total registrations live registering returned : ℕ)
    → registrations ≡ registering + returned
    → (returned ≡ 0 → total ≡ live)
    → (not (total == 0) || not (registrations == 0))
      ≡ (not (live == 0) || not (registering == 0) || not (returned == 0))
any_live total registrations live registering returned e h = elim (Bool-cases (returned == 0)) [
  | inl none_there ↦ let same = h (ground arith) in ground arith
  | inr some_there ↦ ground arith
]

all_gone :
    (on : Bool) (total registrations live returned : ℕ)
    → (on ≡ true → returned ≡ 0)
    → (returned ≡ 0 → total ≡ live)
    → (on && (total == 0)) ≡ (on && (live == 0))
all_gone false total registrations live returned h k = refl
all_gone true total registrations live returned h k = let same = k (h refl) in ground arith

-- What the last section of a final deregistration answers, by the counts.
answer_lem :
    (s : System)
    → IsCounted s
    → length s.live < size_mod
    → (final_last s).1
      ≡ result
          (not (is_nil s.live) || not (is_nil s.registering) || not (is_nil s.returned))
          (is_shutdown s.repository.status && is_nil s.live)
unfolding final_last
answer_lem s c few =
    let r = s.repository in
    let a = c.registrations in
    let exact = settled r.total_coops (length s.returned) (length s.live) c.coops c.coops_fit few in
    rw (is_nil-length s.live, is_nil-length s.registering, is_nil-length s.returned)
      (ap₂ (λ (x y : Bool). result x y)
        (any_live r.total_coops r.registrations_in_progress (length s.live) (length s.registering)
          (length s.returned) a exact)
        (all_gone (is_shutdown r.status) r.total_coops r.registrations_in_progress (length s.live)
          (length s.returned) (λ on. let z = c.idle_shut on in omega arith) exact))

-- After every sequence of steps of all threads on a new repository: the registrations in progress are
-- the threads in their cooperation's own registration and those past it; modulo 2 ^ 64, what these
-- last are still to add brings the total of cooperations to the number of the live ones, and that of
-- agents to the number of their agents. And with less than 2 ^ 64 live cooperations, the end of a final
-- deregistration reports whether some cooperation is live or some registration in progress, and
-- whether the shutdown is on and no cooperation is live.
pub totals_tell :
    (script : List Step)
    → length (run script idle).live < size_mod
    → let s = run script idle in
      (s.repository.registrations_in_progress ≡ length s.registering + length s.returned)
      × ((s.repository.total_coops + length s.returned) % size_mod ≡ length s.live)
      × ((s.repository.total_agents + sum s.returned) % size_mod ≡ sum s.live % size_mod)
      × ((final_last s).1
          ≡ result
              (not (is_nil s.live) || not (is_nil s.registering) || not (is_nil s.returned))
              (is_shutdown s.repository.status && is_nil s.live))
totals_tell script few =
    let s = run script idle in
    let c = run-IsCounted script idle idle-IsCounted in
    let b = c.coops in (c.registrations, omega arith, c.agents, answer_lem s c few)
