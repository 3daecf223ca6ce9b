-- ===== src/MboxCore/Tests.antt =====
-- Runs of the mbox core (dev/so_5/impl/mbox_core.cpp).
use sobjectizer.Base.{add_unsigned, arith, ◌≡◌, refl, none, some, List, [], ◌∷◌}
use sobjectizer.MboxCore.{
  step, idle, Step, creates, introduces, factory_returns, destroys, creates_anonymous, run,
}
use sobjectizer.MboxCore.Entries.{users-few, ByEntry}
use sobjectizer.MboxCore.Names.{FewUsers, one_mbox_behind_a_name}

-- While a factory for the name 7 works on the mbox 40, another thread creates the name.
abbrev racing_script : List Step
racing_script =
    creates_anonymous
    ∷ introduces 7
    ∷ introduces 8
    ∷ creates 7
    ∷ factory_returns 1 (some 40)
    ∷ factory_returns 0 none
    ∷ []

abbrev leaving_script : List Step
leaving_script = creates 7 ∷ creates 7 ∷ destroys 1 ∷ destroys 0 ∷ creates 7 ∷ []

racing_result : (run racing_script idle).alive ≡ ((7, 3) ∷ (7, 3) ∷ [])
unfolding run idle
racing_result = refl

leaving_result : (run leaving_script idle).alive ≡ ((7, 3) ∷ [])
unfolding run idle
leaving_result = refl

few_in_race : FewUsers racing_script idle
unfolding step idle
few_in_race = (
  (λ n. users-few n [] (omega arith)),
  (
    (λ n. users-few n [] (omega arith)),
    (
      (λ n. users-few n [] (omega arith)),
      (
        (λ n. users-few n ((7, 3) ∷ []) (omega arith)),
        (
          (λ n. users-few n ((7, 3) ∷ (7, 3) ∷ []) (omega arith)),
          ((λ n. users-few n ((7, 3) ∷ (7, 3) ∷ []) (omega arith)), tt),
        ),
      ),
    ),
  ),
)

-- A counter at its end comes to 0 with the next reference.
counter_wraps : add_unsigned 0xffff_ffff 1 ≡ 0
counter_wraps = refl

one_mbox_behind_a_name_example :
    let s = run racing_script idle in ByEntry 7 s.alive (s.core.named_mboxes_dictionary 7)
one_mbox_behind_a_name_example = one_mbox_behind_a_name racing_script 7 few_in_race
