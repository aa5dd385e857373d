-- ===== src/Tasks/Scenarios/Registry.antt =====
-- The verifier of the sample task with a goal and a physical criterion.
use kolyan.Prelude.{
  Result, err, if◌then◌else◌, subst, sym, ap, ◌∙◌, ok-injective, ◌==◌, ℕ-Eq, ℕ, ◌≡◌, refl, true,
  Option, none, some, ok, [], ◌∷◌, contains, String-Eq, ==_refl, ℕ-Eq,
}
use mathlib.Core.List.{Memᴰ}
use kolyan.Prelude.Map
use kolyan.Ledger.{FactRef, FactRef-Eq}
use kolyan.Tasks.Types.{
  AttemptBinding, ExecutionEvidence, GoalSourceError, GoalCriterion, TaskSnapshot, TaskEvent,
  CompletionCriterion, InvocationSnapshot,
}
use kolyan.Tasks.Validation.{assessment_digest, decision_validate}
use kolyan.Tasks.Admission.{admitted_invocation}
use kolyan.Tasks.Reducer.{apply}
use kolyan.Tasks.Goals.{assessment_owner}
use kolyan.Tasks.Goals.Verify.{verify_event}
use kolyan.Tasks.Goals.Registry.{
  GoalSourceLimits, add_checkers, new_registry, find_checker, get_checker,
  GoalSourceCoverage-discrete,
}
use kolyan.Tasks.Goals.Registry.Assess.{
  validate_criterion, decide_source, decide_inspected, computed_decision, compute_assessment,
  same_decision, verify_assessment,
}
use kolyan.Tasks.Goals.Registry.Complete.{
  proof_fits, check_proofs, verify_source_proofs, verify_physical, verify_invocations, verify_saved,
  verify_criteria, verify_completion, ledger_verifier,
}
use kolyan.Tasks.Goals.Registry.Recompute.{reread, computed_passes}
use kolyan.Tasks.Goals.Registry.Achieved.{
  Achieved, verify_completion-Confirmed, verify_completion-Achieved,
}
use kolyan.Tasks.Goals.Registry.Confirmed.{Confirmed}
use kolyan.Tasks.Goals.Registry.Keys.{new_registry_gets}
use kolyan.Tasks.Samples.{serde, fact_at, tidy, fact_of, root_invocation}
use kolyan.Tasks.Samples.Run.{run}
use kolyan.Tasks.Samples.Verifier.{
  mixed_pending, mixed_assessed, mixed_evidence, verifier, tidy_checker, tidy_registry,
  response_serde,
}
use kolyan.Tasks.Scenarios.{left_by}

abbrev mixed_settled : TaskSnapshot ℕ
mixed_settled =
    left_by
      (apply serde (some mixed_pending) (TaskEvent.goal_assessed mixed_assessed) (fact_at 5 4))

computes_mixed : compute_assessment verifier mixed_pending "goal" ≡ ok mixed_assessed
unfolding run compute_assessment computed_decision validate_criterion get_checker find_checker
    decide_inspected decide_source decision_validate GoalSourceCoverage-discrete
computes_mixed = refl

digests_mixed : assessment_digest response_serde mixed_assessed ≡ ok "00"
unfolding run
digests_mixed = refl

owns_mixed : assessment_owner response_serde mixed_pending mixed_assessed ≡ ok (tidy, fact_of 4)
unfolding run
owns_mixed = refl

names_mixed :
    (goal : GoalCriterion ℕ) (stopped : FactRef)
    → assessment_owner response_serde mixed_pending mixed_assessed ≡ ok (goal, stopped)
    → contains (fact_at 5 4).draft.causes stopped ≡ true
unfolding run
names_mixed goal stopped owned =
    let same : fact_of 4 ≡ stopped = ap (λ w. w.1) (ok-injective (sym owns_mixed ∙ owned)) in
    subst (λ w. contains (fact_at 5 4).draft.causes w ≡ true) same refl

-- The reader of a ledger that has another answer for every other source.
abbrev inspect_later :
    TaskSnapshot ℕ
    → AttemptBinding
    → ExecutionEvidence
    → GoalSourceLimits
    → Result GoalSourceError ExecutionEvidence
inspect_later prefix attempt source limits =
    if source.cursor == 3 then ok source else err GoalSourceError.bounds_exhausted

reads_again :
    inspect_later mixed_pending mixed_assessed.attempt mixed_assessed.source verifier.limits
    ≡ ok mixed_assessed.source
unfolding run
reads_again = refl

computed_passes_example :
    verify_event response_serde
      (some (ledger_verifier (reread verifier mixed_pending inspect_later)))
      (some mixed_pending)
      (TaskEvent.goal_assessed mixed_assessed)
      (fact_at 5 4)
    ≡ ok tt
computed_passes_example =
    computed_passes verifier mixed_pending inspect_later (λ n. ==_refl n) "goal" "00" mixed_assessed
      (fact_at 5 4) computes_mixed digests_mixed reads_again names_mixed

completes_mixed : verify_completion verifier mixed_settled mixed_evidence ≡ ok tt
unfolding run compute_assessment computed_decision validate_criterion get_checker find_checker
    decide_inspected decide_source decision_validate GoalSourceCoverage-discrete same_decision
    verify_assessment proof_fits check_proofs verify_source_proofs verify_physical
    verify_invocations verify_saved verify_criteria verify_completion
completes_mixed = refl

abbrev invocation_in : Option InvocationSnapshot → InvocationSnapshot
invocation_in (some invocation) = invocation
invocation_in none = admitted_invocation root_invocation

abbrev mixed_root : InvocationSnapshot
mixed_root = invocation_in (Map.get "root" mixed_settled.invocations)

has_root : Map.get "root" mixed_settled.invocations ≡ some mixed_root
unfolding run
has_root = refl

has_goal : Memᴰ (CompletionCriterion.goal tidy) mixed_settled.definition.criteria
unfolding run
has_goal = Memᴰ.head refl

verify_completion-Confirmed_example : Confirmed verifier mixed_settled mixed_root
verify_completion-Confirmed_example =
    verify_completion-Confirmed verifier mixed_settled mixed_evidence "root" mixed_root
      completes_mixed has_root

verify_completion-Achieved_example : Achieved verifier mixed_settled mixed_evidence tidy
verify_completion-Achieved_example =
    verify_completion-Achieved verifier mixed_settled mixed_evidence tidy completes_mixed has_goal

makes_registry : new_registry (tidy_checker ∷ []) ≡ ok tidy_registry
unfolding run new_registry add_checkers find_checker
makes_registry = refl

new_registry_gets_example : get_checker tidy_registry tidy.checker ≡ ok tidy_checker
new_registry_gets_example =
    new_registry_gets (tidy_checker ∷ []) tidy_registry tidy_checker makes_registry (Memᴰ.head refl)
