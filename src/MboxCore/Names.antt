-- ===== src/MboxCore/Names.antt =====
-- The life of the names in the mbox core (dev/so_5/impl/mbox_core.cpp), over all steps.
use sobjectizer.Base.{
  ◌<◌, unsigned_mod, take_at, ℕ, ◌+◌, ◌≡◌, refl, sym, subst, inl, inr, none, some, List, [], ◌∷◌,
  Option-cases,
}
use sobjectizer.MboxCore.{
  Core, refer, emplace, create_anonymous, create_mbox, introduce_first, introduce_last, System,
  idle, Step, creates, introduces, factory_returns, destroys, creates_anonymous, step, run,
}
use sobjectizer.MboxCore.Entries.{
  KeptIfFew, users, ByEntry, IsKept, referred-IsKept, emplaced-IsKept, destroyed-IsKept,
}

creates-IsKept :
    (name : ℕ) (c : Core) (alive : List (ℕ × ℕ))
    → IsKept c alive
    → KeptIfFew (create_mbox name c).0 ((name, (create_mbox name c).1) ∷ alive)
unfolding create_mbox create_anonymous
creates-IsKept name c alive k = elim (Option-cases (c.named_mboxes_dictionary name)) [
  | inl e ↦
      let made : create_mbox name c
          ≡ (emplace name (c.mbox_id_counter + 1) (create_anonymous c).0, c.mbox_id_counter + 1) =
        simp (e, create_mbox, create_anonymous) in
      subst (λ (r : Core × ℕ). KeptIfFew r.0 ((name, r.1) ∷ alive)) (sym made)
        (emplaced-IsKept name (c.mbox_id_counter + 1) (create_anonymous c).0 alive k e)
  | inr (info, e) ↦
      let made : create_mbox name c ≡ (refer name info c, info.mbox) = simp (e, create_mbox) in
      subst (λ (r : Core × ℕ). KeptIfFew r.0 ((name, r.1) ∷ alive)) (sym made)
        (referred-IsKept name info c alive k e)
]

introduced-IsKept :
    (name fresh_mbox : ℕ) (c : Core) (alive : List (ℕ × ℕ))
    → IsKept c alive
    → KeptIfFew
        (introduce_last name fresh_mbox c).0
        ((name, (introduce_last name fresh_mbox c).1) ∷ alive)
unfolding introduce_last
introduced-IsKept name fresh_mbox c alive k = elim (Option-cases (c.named_mboxes_dictionary name)) [
  | inl e ↦
      let made : introduce_last name fresh_mbox c ≡ (emplace name fresh_mbox c, fresh_mbox) =
        simp (e, introduce_last) in
      subst (λ (r : Core × ℕ). KeptIfFew r.0 ((name, r.1) ∷ alive)) (sym made)
        (emplaced-IsKept name fresh_mbox c alive k e)
  | inr (info, e) ↦
      let made : introduce_last name fresh_mbox c ≡ (refer name info c, info.mbox) =
        simp (e, introduce_last) in
      subst (λ (r : Core × ℕ). KeptIfFew r.0 ((name, r.1) ∷ alive)) (sym made)
        (referred-IsKept name info c alive k e)
]

step-IsKept :
    (x : Step) (s : System) → IsKept s.core s.alive → KeptIfFew (step x s).core (step x s).alive
unfolding step create_anonymous
step-IsKept (creates name) s k = creates-IsKept name s.core s.alive k
step-IsKept (introduces name) s k = elim (Option-cases (s.core.named_mboxes_dictionary name)) [
  | inl e ↦
      let after : step (introduces name) s ≡ record s { introducing = name ∷ s.introducing } =
        simp (e, step, introduce_first) in
      subst (λ (t : System). KeptIfFew t.core t.alive) (sym after) (λ few. k)
  | inr (info, e) ↦
      let after : step (introduces name) s
          ≡ record s { core = refer name info s.core; alive = (name, info.mbox) ∷ s.alive } =
        simp (e, step, introduce_first) in
      subst (λ (t : System). KeptIfFew t.core t.alive) (sym after)
        (referred-IsKept name info s.core s.alive k e)
]
step-IsKept (factory_returns i none) s k = elim (Option-cases (take_at i s.introducing)) [
  | inl e ↦ rw (step, e) (λ few. k)
  | inr (p, e) ↦ rw (step, e) (λ few. k)
]
step-IsKept (factory_returns i (some fresh_mbox)) s k =
    elim (Option-cases (take_at i s.introducing)) [
      | inl e ↦ rw (step, e) (λ few. k)
      | inr (p, e) ↦ rw (step, e) (introduced-IsKept p.0 fresh_mbox s.core s.alive k)
    ]
step-IsKept (destroys i) s k = elim (Option-cases (take_at i s.alive)) [
  | inl e ↦ rw (step, e) (λ few. k)
  | inr (p, e) ↦ rw (step, e) (destroyed-IsKept i s.core s.alive p k e)
]
step-IsKept creates_anonymous s k = λ few. k

-- After no step of the script some name has 2 ^ 32 mboxes alive, or more.
abbrev pub FewUsers : List Step → System → Type 0
FewUsers [] s = Unit
FewUsers (x ∷ xs) s = ((n : ℕ) → users n (step x s).alive < unsigned_mod) × FewUsers xs (step x s)

run-IsKept :
    (script : List Step) (s : System)
    → FewUsers script s
    → IsKept s.core s.alive
    → IsKept (run script s).core (run script s).alive
unfolding run
run-IsKept [] s few k = k
run-IsKept (x ∷ xs) s (few, rest) k = run-IsKept xs (step x s) rest (step-IsKept x s k few)

idle-IsKept : IsKept idle.core idle.alive
unfolding idle users
idle-IsKept n = refl

-- After every sequence of steps of the threads on a new core, in which no name ever has 2 ^ 32 mboxes
-- alive, a name has an entry in the dictionary exactly while some named mbox of that name is alive: the
-- counter of the entry is their number, is not zero and is below 2 ^ 32, and all of them stand for the
-- mbox of the entry. A name without an entry has no living mbox.
pub one_mbox_behind_a_name :
    (script : List Step) (name : ℕ)
    → FewUsers script idle
    → let s = run script idle in ByEntry name s.alive (s.core.named_mboxes_dictionary name)
one_mbox_behind_a_name script name few = run-IsKept script idle few idle-IsKept name
