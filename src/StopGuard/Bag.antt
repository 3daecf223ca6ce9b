-- ===== src/StopGuard/Bag.antt =====
-- The sorted vector of guards as a bag.
use sobjectizer.Base.{
  ℕ, ◌+◌, ◌-◌, ◌≤◌, ◌<◌, ◌≡◌, refl, ap, ◌∙◌, inl, inr, Bool, true, false, List, [], ◌∷◌, is_nil,
  ltb, ◌==◌, if◌then◌else◌, arith, Bool-cases,
}
use sobjectizer.StopGuard.{
  Status, not_started, start_in_progress, started, completed, Action, wait_for_completion,
  do_actual_stop, ok, insert, erase, Repository, make, setup_guard, remove_guard, initiate_first,
  initiate_second, initiate_third, System, idle, Step, sets_up, removes, initiates, calls_stop,
  finishes, Reply, set_up, acted, step, run,
}

unfoldable pub count : ℕ → List ℕ → ℕ
count g [] = 0
count g (x ∷ xs) = (if x == g then 1 else 0) + count g xs

abbrev AllFrom : ℕ → List ℕ → Type 0
AllFrom g [] = Unit
AllFrom g (x ∷ xs) = (g ≤ x) × AllFrom g xs

abbrev pub IsSorted : List ℕ → Type 0
IsSorted [] = Unit
IsSorted (x ∷ xs) = AllFrom x xs × IsSorted xs

AllFrom-trans : (a b : ℕ) (l : List ℕ) → a ≤ b → AllFrom b l → AllFrom a l
AllFrom-trans a b [] h k = tt
AllFrom-trans a b (x ∷ xs) h (k, ks) = (omega arith, AllFrom-trans a b xs h ks)

AllFrom-insert : (a g : ℕ) (l : List ℕ) → a ≤ g → AllFrom a l → AllFrom a (insert g l)
unfolding insert
AllFrom-insert a g [] h k = (h, tt)
AllFrom-insert a g (x ∷ xs) h (k, ks) = elim (Bool-cases (ltb x g)) [
  | inl e ↦ rw e (k, AllFrom-insert a g xs h ks)
  | inr e ↦ rw e (h, (k, ks))
]

insert-IsSorted : (g : ℕ) (l : List ℕ) → IsSorted l → IsSorted (insert g l)
unfolding insert
insert-IsSorted g [] s = (tt, tt)
insert-IsSorted g (x ∷ xs) (k, s) = elim (Bool-cases (ltb x g)) [
  | inl e ↦ rw e (AllFrom-insert x g xs (ground arith) k, insert-IsSorted g xs s)
  | inr e ↦ rw e ((ground arith, AllFrom-trans g x xs (ground arith) k), (k, s))
]

AllFrom-erase : (a g : ℕ) (l : List ℕ) → AllFrom a l → AllFrom a (erase g l)
unfolding erase
AllFrom-erase a g [] k = tt
AllFrom-erase a g (x ∷ xs) (k, ks) = elim (Bool-cases (ltb x g)) [
  | inl e ↦ rw e (k, AllFrom-erase a g xs ks)
  | inr e ↦ elim (Bool-cases (x == g)) [ inl e' ↦ rw e (rw e' ks) | inr e' ↦ rw e (rw e' (k, ks)) ]
]

erase-IsSorted : (g : ℕ) (l : List ℕ) → IsSorted l → IsSorted (erase g l)
unfolding erase
erase-IsSorted g [] s = tt
erase-IsSorted g (x ∷ xs) (k, s) = elim (Bool-cases (ltb x g)) [
  | inl e ↦ rw e (AllFrom-erase x g xs k, erase-IsSorted g xs s)
  | inr e ↦ elim (Bool-cases (x == g)) [ inl e' ↦ rw e (rw e' s) | inr e' ↦ rw e (rw e' (k, s)) ]
]

count-insert : (h g : ℕ) (l : List ℕ) → count h (insert g l) ≡ (if g == h then 1 else 0) + count h l
unfolding count insert
count-insert h g [] = refl
count-insert h g (x ∷ xs) = let rest = count-insert h g xs in ground arith

count-above : (h a : ℕ) (l : List ℕ) → h < a → AllFrom a l → count h l ≡ 0
unfolding count
count-above h a [] k f = refl
count-above h a (x ∷ xs) k (f, fs) =
    let rest = count-above h a xs k fs in
    let other : (x == h) ≡ false = ground arith in ground arith

count-erase :
    (h g : ℕ) (l : List ℕ)
    → IsSorted l
    → count h (erase g l) ≡ count h l - (if g == h then 1 else 0)
unfolding count erase
count-erase h g [] s = omega arith
count-erase h g (x ∷ xs) (k, s) =
    let rest = count-erase h g xs s in
    elim (Bool-cases (ltb x g)) [
      | inl e ↦ ground arith
      | inr e ↦ elim (Bool-cases (x == g)) [
        | inl e' ↦ ground arith
        | inr e' ↦ elim (Bool-cases (g == h)) [
          | inl q ↦ let none_there = count-above h x xs (ground arith) k in ground arith
          | inr q ↦ ground arith
        ]
      ]
    ]

-- How often a guard is there by the book: one more for each setup that is taken, one less for each
-- removal, but never below 0.
abbrev pub balance_after : ℕ → Step → Reply → ℕ → ℕ
balance_after h (sets_up g) (set_up ok) n = (if g == h then 1 else 0) + n
balance_after h (removes g) reply n = n - (if g == h then 1 else 0)
balance_after h x reply n = n

unfoldable pub balance : ℕ → List Step → List Reply → ℕ → ℕ
balance h [] replies n = n
balance h (x ∷ xs) [] n = n
balance h (x ∷ xs) (r ∷ replies) n = balance h xs replies (balance_after h x r n)

abbrev system : Status → List ℕ → List ℕ → ℕ → ℕ → System
system status guards c calling finishing = record {
  repository = record { status = status; guards = guards; container_for_shutdown = c };
  calling = calling;
  finishing = finishing;
}

abbrev KeepsBook : Step → List ℕ → System × Reply → Type 0
KeepsBook x before r =
    IsSorted r.0.repository.guards
    × ((h : ℕ) → count h r.0.repository.guards ≡ balance_after h x r.1 (count h before))

module _ (guards c : List ℕ) (calling finishing : ℕ) (s : IsSorted guards) where
  -- The steps of `initiate_stop` leave the guards.
  stop_KeepsBook :
      (b : Bool) (y z : System × Reply)
      → KeepsBook calls_stop guards y
      → KeepsBook calls_stop guards z
      → KeepsBook calls_stop guards (if b then y else z)
  stop_KeepsBook true y z p q = p
  stop_KeepsBook false y z p q = q

  step-KeepsBook :
      (x : Step) (status : Status)
      → KeepsBook x guards (step x (system status guards c calling finishing))
  unfolding step setup_guard remove_guard initiate_first initiate_second initiate_third
  step-KeepsBook (sets_up g) not_started =
      (insert-IsSorted g guards s, λ h. count-insert h g guards)
  step-KeepsBook (sets_up g) start_in_progress = (s, λ h. refl)
  step-KeepsBook (sets_up g) started = (s, λ h. refl)
  step-KeepsBook (sets_up g) completed = (s, λ h. refl)
  step-KeepsBook (removes g) not_started =
      (erase-IsSorted g guards s, λ h. count-erase h g guards s)
  step-KeepsBook (removes g) start_in_progress =
      (erase-IsSorted g guards s, λ h. count-erase h g guards s)
  step-KeepsBook (removes g) started = (erase-IsSorted g guards s, λ h. count-erase h g guards s)
  step-KeepsBook (removes g) completed = (erase-IsSorted g guards s, λ h. count-erase h g guards s)
  step-KeepsBook initiates not_started = (s, λ h. refl)
  step-KeepsBook initiates start_in_progress = (s, λ h. refl)
  step-KeepsBook initiates started = (s, λ h. refl)
  step-KeepsBook initiates completed = (s, λ h. refl)
  step-KeepsBook calls_stop status = stop_KeepsBook (calling == 0) _ _ (s, λ h. refl) (s, λ h. refl)
  step-KeepsBook finishes status =
      stop_KeepsBook (finishing == 0) _ _ (s, λ h. refl) (third (is_nil guards))
    where
      third :
          (b : Bool)
          → KeepsBook calls_stop guards (
              let result : Repository × Action =
                if b
                then (
                  record { status = completed; guards = guards; container_for_shutdown = c },
                  do_actual_stop,
                )
                else (
                  record { status = started; guards = guards; container_for_shutdown = c },
                  wait_for_completion,
                ) in
              (
                record { repository = result.0; calling = calling; finishing = finishing - 1 },
                acted result.1,
              ))
      third true = (s, λ h. refl)
      third false = (s, λ h. refl)

run-KeepsBook :
    (xs : List Step) (t : System)
    → IsSorted t.repository.guards
    → IsSorted (run xs t).0.repository.guards
      × ((h : ℕ)
          → count h (run xs t).0.repository.guards
            ≡ balance h xs (run xs t).1 (count h t.repository.guards))
unfolding run balance
run-KeepsBook [] t s = (s, λ h. refl)
run-KeepsBook (x ∷ xs) t s =
    let r = t.repository in
    let (s', book) =
      step-KeepsBook r.guards r.container_for_shutdown t.calling t.finishing s x r.status in
    let (last, book') = run-KeepsBook xs (step x t).0 s' in
    (last, λ h. book' h ∙ ap (λ n. balance h xs (run xs (step x t).0).1 n) (book h))

-- After every sequence of steps of all threads on a new repository, the guards are sorted and each is
-- there as often as the setups taken and the removals say, a removal of one that is not there
-- counting for nothing.
pub guards_as_bag :
    (script : List Step)
    → let (s, replies) = run script idle in
      IsSorted s.repository.guards
      × ((h : ℕ) → count h s.repository.guards ≡ balance h script replies 0)
unfolding idle make count
guards_as_bag script = run-KeepsBook script idle tt
