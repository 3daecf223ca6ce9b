-- ===== src/Coop/Repository/Counted.antt =====
-- The counters of `coop_repository_basis_t` (dev/so_5/impl/coop_repository_basis.cpp), step by step.
use sobjectizer.Base.{
  take_at, size_mod, add_size, added-total, subbed-total, entered-total, ◌%◌, ◌<◌, ℕ, zero, suc,
  ◌+◌, ◌-◌, ◌≡◌, refl, sym, subst, inl, inr, Bool, true, false, ◌&&◌, none, some, List, [], ◌∷◌,
  length, ◌==◌, if◌then◌else◌, arith, Bool-cases, Option-cases,
}
use sobjectizer.Coop.Repository.{
  Status, normal, pending_shutdown, shutdown, System, idle, Reply, is_pending,
  unable_to_register_coop_during_shutdown, already_in_shutdown_state, is_shutdown, taking,
  handle_registrations_in_progress, register_first, register_own, register_last, register_fails,
  final_first, final_last, deregister_all, wake, try_switch_to_shutdown, Step, begins_registration,
  registers, fails, ends_registration, finalizes, reports, deregisters_all, wakes, switches, step,
  run,
}

unfoldable pub sum : List ℕ → ℕ
sum [] = 0
sum (x ∷ xs) = x + sum xs

-- What is taken out, and what is left.
abbrev IsSplit : List ℕ → ℕ × List ℕ → Type 0
IsSplit l p = (length l ≡ suc (length p.1)) × (sum l ≡ p.0 + sum p.1)

pub take_at-IsSplit : (i : ℕ) (l : List ℕ) (p : ℕ × List ℕ) → take_at i l ≡ some p → IsSplit l p
unfolding take_at sum
take_at-IsSplit zero [] p e = absurd (cc)
take_at-IsSplit (suc i) [] p e = absurd (cc)
take_at-IsSplit zero (x ∷ xs) p e =
    let same : (x, xs) ≡ p = cc in subst (λ q. IsSplit (x ∷ xs) q) same (refl, refl)
take_at-IsSplit (suc i) (x ∷ xs) p e = elim (Option-cases (take_at i xs)) [
  | inl k ↦ let gone : take_at (suc i) (x ∷ xs) ≡ none = simp (k, take_at) in absurd (cc)
  | inr (q, k) ↦
      let (long, total) = take_at-IsSplit i xs q k in
      let there : take_at (suc i) (x ∷ xs) ≡ some (q.0, x ∷ q.1) = simp (k, take_at) in
      let same : (q.0, x ∷ q.1) ≡ p = cc in
      subst (λ r. IsSplit (x ∷ xs) r) same (omega arith, omega arith)
]

-- The totals count, modulo 2 ^ 64, the live cooperations less those that their threads are still to
-- count; and the shutdown is on only while no registration is in progress.
pub record IsCounted (s : System) : Type 0 where
  pub registrations :
      s.repository.registrations_in_progress ≡ length s.registering + length s.returned
  pub coops : (s.repository.total_coops + length s.returned) % size_mod ≡ length s.live % size_mod
  pub agents : (s.repository.total_agents + sum s.returned) % size_mod ≡ sum s.live % size_mod
  pub coops_fit : s.repository.total_coops < size_mod
  pub idle_shut :
      is_shutdown s.repository.status ≡ true → s.repository.registrations_in_progress ≡ 0

if_reply-IsCounted :
    (b : Bool) (r q : System × Reply)
    → (b ≡ true → IsCounted r.0)
    → (b ≡ false → IsCounted q.0)
    → IsCounted (if b then r else q).0
if_reply-IsCounted true r q h k = h refl
if_reply-IsCounted false r q h k = k refl

-- The end of a registration takes one off the counter, whatever it does with the threads.
handle-IsCounted :
    (s : System)
    → s.repository.registrations_in_progress ≡ suc (length s.registering + length s.returned)
    → (s.repository.total_coops + length s.returned) % size_mod ≡ length s.live % size_mod
    → (s.repository.total_agents + sum s.returned) % size_mod ≡ sum s.live % size_mod
    → s.repository.total_coops < size_mod
    → (is_shutdown s.repository.status ≡ true → s.repository.registrations_in_progress ≡ 0)
    → IsCounted (handle_registrations_in_progress s)
unfolding handle_registrations_in_progress
handle-IsCounted s e f g h k =
    let none_left : is_shutdown s.repository.status ≡ true
        → s.repository.registrations_in_progress - 1 ≡ 0 =
      λ on. let z = k on in omega arith in
    let left : s.repository.registrations_in_progress - 1
        ≡ length s.registering + length s.returned =
      omega arith in
    elim (Bool-cases
      ((s.repository.registrations_in_progress - 1 == 0) && is_pending s.repository.status)) [
        | inl p ↦ elim (Bool-cases (s.waiting == 0)) [
          | inl w ↦ rw p (
              rw w (record {
                registrations = left;
                coops = f;
                agents = g;
                coops_fit = h;
                idle_shut = none_left;
              }))
          | inr w ↦ rw p (
              rw w (record {
                registrations = left;
                coops = f;
                agents = g;
                coops_fit = h;
                idle_shut = none_left;
              }))
        ]
        | inr p ↦ rw p (record {
          registrations = left;
          coops = f;
          agents = g;
          coops_fit = h;
          idle_shut = none_left;
        })
      ]

begins-IsCounted :
    (size : ℕ) (s : System) (status : Status)
    → s.repository.status ≡ status
    → IsCounted s
    → IsCounted (register_first size s).0
unfolding register_first
begins-IsCounted size s normal e c =
    let more : s.repository.registrations_in_progress + 1
        ≡ suc (length s.registering) + length s.returned =
      let known = c.registrations in omega arith in
    rw e (record {
      registrations = more;
      coops = c.coops;
      agents = c.agents;
      coops_fit = c.coops_fit;
      idle_shut = (λ on. absurd (ground arith));
    })
begins-IsCounted size s pending_shutdown e c =
    let same : register_first size s ≡ (s, unable_to_register_coop_during_shutdown) =
      simp (e, register_first) in
    subst (λ (r : System × Reply). IsCounted r.0) (sym same) c
begins-IsCounted size s shutdown e c =
    let same : register_first size s ≡ (s, unable_to_register_coop_during_shutdown) =
      simp (e, register_first) in
    subst (λ (r : System × Reply). IsCounted r.0) (sym same) c

switches-IsCounted :
    (s : System) (status : Status)
    → s.repository.status ≡ status
    → IsCounted s
    → IsCounted (try_switch_to_shutdown s).0
unfolding try_switch_to_shutdown
switches-IsCounted s normal e c = rw e (record {
  registrations = c.registrations;
  coops = c.coops;
  agents = c.agents;
  coops_fit = c.coops_fit;
  idle_shut = (λ on. absurd (ground arith));
})
switches-IsCounted s pending_shutdown e c =
    let same : try_switch_to_shutdown s ≡ (s, already_in_shutdown_state) =
      simp (e, try_switch_to_shutdown) in
    subst (λ (r : System × Reply). IsCounted r.0) (sym same) c
switches-IsCounted s shutdown e c =
    let same : try_switch_to_shutdown s ≡ (s, already_in_shutdown_state) =
      simp (e, try_switch_to_shutdown) in
    subst (λ (r : System × Reply). IsCounted r.0) (sym same) c

returns-IsCounted :
    (s : System) (p : ℕ × List ℕ)
    → IsCounted s
    → IsSplit s.registering p
    → IsCounted (register_own p.0 p.1 s).0
unfolding register_own sum
returns-IsCounted s p c (long, total) =
    let a = c.registrations in
    let b = c.coops in
    record {
      registrations = omega arith;
      coops = omega arith;
      agents = entered-total s.repository.total_agents p.0 (sum s.returned) (sum s.live) c.agents;
      coops_fit = c.coops_fit;
      idle_shut = c.idle_shut;
    }

ends-IsCounted :
    (s : System) (p : ℕ × List ℕ)
    → IsCounted s
    → IsSplit s.returned p
    → IsCounted (register_last p.0 p.1 s).0
unfolding register_last
ends-IsCounted s p c (long, total) =
    let r = s.repository in
    let a = c.registrations in
    let b = c.coops in
    let d = c.agents in
    let s' : System = record s {
      repository = record r {
        total_agents = add_size r.total_agents p.0;
        total_coops = add_size r.total_coops 1;
      };
      returned = p.1;
    } in
    handle-IsCounted s' (omega arith)
      (added-total r.total_coops 1 (length p.1) (length s.live) (omega arith))
      (added-total r.total_agents p.0 (sum p.1) (sum s.live) (omega arith)) (omega arith)
      c.idle_shut

fails-IsCounted :
    (s : System) (p : ℕ × List ℕ)
    → IsCounted s
    → IsSplit s.registering p
    → IsCounted (register_fails p.1 s).0
unfolding register_fails
fails-IsCounted s p c (long, total) =
    let a = c.registrations in
    let s' : System = record s { registering = p.1 } in
    handle-IsCounted s' (omega arith) c.coops c.agents c.coops_fit c.idle_shut

final-IsCounted :
    (s : System) (p : ℕ × List ℕ)
    → IsCounted s
    → IsSplit s.live p
    → IsCounted (final_first p.0 p.1 s).0
unfolding final_first
final-IsCounted s p c (long, total) =
    let b = c.coops in
    let d = c.agents in
    record {
      registrations = c.registrations;
      coops =
          subbed-total s.repository.total_coops 1 (length s.returned) (length p.1) (omega arith);
      agents = subbed-total s.repository.total_agents p.0 (sum s.returned) (sum p.1) (omega arith);
      coops_fit = omega arith;
      idle_shut = c.idle_shut;
    }

-- A step of the thread at an index, if there is one.
taken-IsCounted :
    (s : System) (l : List ℕ) (i : ℕ) (f : ℕ × List ℕ → System × Reply)
    → IsCounted s
    → ((p : ℕ × List ℕ) → IsSplit l p → IsCounted (f p).0)
    → IsCounted (taking i l f s).0
taken-IsCounted s l i f c g = elim (Option-cases (take_at i l)) [
  | inl e ↦ rw (taking, e) c
  | inr (p, e) ↦ rw (taking, e) (g p (take_at-IsSplit i l p e))
]

pub step-IsCounted : (x : Step) (s : System) → IsCounted s → IsCounted (step x s).0
unfolding step final_last deregister_all wake
step-IsCounted (begins_registration size) s c = begins-IsCounted size s s.repository.status refl c
step-IsCounted (registers i) s c =
    taken-IsCounted s s.registering i (λ p. register_own p.0 p.1 s) c (λ p. returns-IsCounted s p c)
step-IsCounted (fails i) s c =
    taken-IsCounted s s.registering i (λ p. register_fails p.1 s) c (λ p. fails-IsCounted s p c)
step-IsCounted (ends_registration i) s c =
    taken-IsCounted s s.returned i (λ p. register_last p.0 p.1 s) c (λ p. ends-IsCounted s p c)
step-IsCounted (finalizes i) s c =
    taken-IsCounted s s.live i (λ p. final_first p.0 p.1 s) c (λ p. final-IsCounted s p c)
step-IsCounted reports s c =
    if_reply-IsCounted (s.finalizing == 0) _ _ (λ e. c)
      (λ e. record {
        registrations = c.registrations;
        coops = c.coops;
        agents = c.agents;
        coops_fit = c.coops_fit;
        idle_shut = c.idle_shut;
      })
step-IsCounted deregisters_all s c =
    if_reply-IsCounted (s.repository.registrations_in_progress == 0) _ _
      (λ e. record {
        registrations = c.registrations;
        coops = c.coops;
        agents = c.agents;
        coops_fit = c.coops_fit;
        idle_shut = (λ on. ground arith);
      })
      (λ e. record {
        registrations = c.registrations;
        coops = c.coops;
        agents = c.agents;
        coops_fit = c.coops_fit;
        idle_shut = (λ on. absurd (ground arith));
      })
step-IsCounted wakes s c =
    if_reply-IsCounted (s.woken == 0) _ _ (λ e. c)
      (λ w.
        if_reply-IsCounted (s.repository.registrations_in_progress == 0) _ _
          (λ e. record {
            registrations = c.registrations;
            coops = c.coops;
            agents = c.agents;
            coops_fit = c.coops_fit;
            idle_shut = (λ on. ground arith);
          })
          (λ e. record {
            registrations = c.registrations;
            coops = c.coops;
            agents = c.agents;
            coops_fit = c.coops_fit;
            idle_shut = c.idle_shut;
          }))
step-IsCounted switches s c = switches-IsCounted s s.repository.status refl c

pub run-IsCounted : (xs : List Step) (s : System) → IsCounted s → IsCounted (run xs s)
unfolding run
run-IsCounted [] s c = c
run-IsCounted (x ∷ xs) s c = run-IsCounted xs (step x s).0 (step-IsCounted x s c)

pub idle-IsCounted : IsCounted idle
unfolding idle sum
idle-IsCounted = record {
  registrations = refl;
  coops = refl;
  agents = refl;
  coops_fit = omega arith;
  idle_shut = (λ on. refl);
}
