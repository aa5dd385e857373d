-- ===== src/Tasks/Coordinator/Candidate.antt =====
-- The record that a command appends is one that a replay takes.
use kolyan.Prelude.{
  ◌≡◌, refl, sym, ap, ◌∙◌, ◌⊎◌, inl, inr, String, String-Eq, String-discrete, ℕ-Eq, true, false,
  not, Option, none, some, List, [], ◌∷◌, length, last, contains, is_some_and, ◌==◌, ==_refl, ok,
  arith,
}
use kolyan.Ledger.{FactRef, FactRef-Eq, FactSubject, FactRecord}
use kolyan.Ledger.Journal.{head_of}
use kolyan.Ledger.Interface.{same_subject}
use kolyan.Ledger.Interface.Laws.{IsNumbered}
use kolyan.Ledger.Interface.Streams.{head-eq-length}
use kolyan.Tasks.Types.{TaskSnapshot, TaskEvent}
use kolyan.Tasks.Validation.{reference}
use kolyan.Tasks.Coordinator.{
  TaskCoordinator, is_elsewhere, take_event, replay_event, replay_record,
}
use kolyan.Tasks.Coordinator.Envelope.{version, event_kind, event_subject, is_known}
use kolyan.Tasks.Coordinator.Replays.{previous_of, apply-position}
use kolyan.Tasks.Coordinator.Command.{last_position, Plan}
use kolyan.Tasks.Coordinator.Plans.{Planned}

event_kind-is_known : {V : Type 0} (event : TaskEvent V) → is_known (event_kind event) ≡ true
unfolding is_known contains String-discrete
event_kind-is_known (TaskEvent.execution_budget_configured _) = refl
event_kind-is_known (TaskEvent.budgeted_attempt_started _ _) = refl
event_kind-is_known (TaskEvent.goal_assessed _) = refl
event_kind-is_known (TaskEvent.registered _) = refl
event_kind-is_known (TaskEvent.invocation_admitted _) = refl
event_kind-is_known (TaskEvent.dependency_admitted _ _) = refl
event_kind-is_known (TaskEvent.attempt_started _) = refl
event_kind-is_known (TaskEvent.attempt_observed _) = refl
event_kind-is_known (TaskEvent.attempt_resumed _ _) = refl
event_kind-is_known (TaskEvent.recovery_needed _ _) = refl
event_kind-is_known (TaskEvent.retry_authorized _ _ _) = refl
event_kind-is_known (TaskEvent.result_consumed _ _) = refl
event_kind-is_known (TaskEvent.terminal_result_consumed _ _) = refl
event_kind-is_known (TaskEvent.completed _) = refl
event_kind-is_known (TaskEvent.cancelled _) = refl
event_kind-is_known (TaskEvent.failed _) = refl

module _ {V : Type 0} where
  previous_of-last :
      (previous : Option FactRef) (facts : List (FactRecord V))
      → (previous_of previous facts ≡ previous) × (facts ≡ [])
        ⊎ ((r : FactRecord V) × (last facts ≡ some r)
            × (previous_of previous facts ≡ some (reference r)))
  previous_of-last previous [] = inl (refl, refl)
  previous_of-last previous (r ∷ []) = inr (r, refl, refl)
  previous_of-last previous (r ∷ q ∷ facts) =
      elim (previous_of-last (some (reference r)) (q ∷ facts)) [
        | inl (_, e) ↦ absurd (cc e)
        | inr found ↦ inr found
      ]

  pub last_position-length :
      (stream : String) (facts : List (FactRecord V))
      → IsNumbered stream 0 facts
      → last_position (last facts) ≡ length facts
  unfolding head_of
  last_position-length stream facts h =
      let same : last_position (last facts) ≡ head_of (some facts) = ground arith in
      same ∙ head-eq-length stream (some facts) h

pub same_subject_refl : (s : FactSubject) → same_subject s s ≡ true
unfolding same_subject
same_subject_refl s = ground (arith, ==_refl s.kind, ==_refl s.id)

pub cites_previous :
    {V : Type 0} (facts : List (FactRecord V)) (causes : List FactRef)
    → ((r : FactRecord V) → last facts ≡ some r → contains causes (reference r) ≡ true)
    → is_some_and (previous_of none facts) (λ cause. not (contains causes cause)) ≡ false
cites_previous facts causes caused = elim (previous_of-last none facts) [
  | inl (e, _) ↦ rw e
  | inr (r, l, e) ↦ rw (e, caused r l)
]

module _ {J V : Type 0} (c : TaskCoordinator J V) where
  take_event-position :
      (j : J) (task_id : String) (snapshot : Option (TaskSnapshot V)) (event : TaskEvent V)
      (fact : FactRecord V) (next : TaskSnapshot V)
      → take_event c j task_id snapshot event fact ≡ ok next
      → next.position ≡ fact.position
  unfolding take_event
  take_event-position j task_id snapshot event fact next h =
      grind (arith, apply-position c.json.serde snapshot event fact)

  -- What a replay tests of a record holds of the record of a plan.
  pub candidate_replays :
      (j k : J) (task_id fact_id : String) (event : TaskEvent V) (plan : Plan V)
      (p : Planned c j task_id fact_id event plan)
      → ((e : TaskEvent V) (v : V) → c.json.event_value e ≡ inr v → c.json.value_event v ≡ inr e)
      → is_elsewhere task_id event ≡ false
      → take_event c k task_id p.snapshot event plan.candidate ≡ ok plan.next
      → replay_record c k task_id p.snapshot (previous_of none p.facts) plan.candidate
        ≡ ok (some plan.next)
  unfolding replay_record replay_event
  candidate_replays j k task_id fact_id event plan p round_trip here taken =
      let kind : plan.candidate.draft.kind ≡ event_kind event =
        ap (λ w. w.draft.kind) p.candidate in
      let known = ap is_known kind ∙ event_kind-is_known event in
      let same_kind = ap (λ w. event_kind event == w) kind ∙ ==_refl (event_kind event) in
      let versions : plan.candidate.draft.schema_version ≡ version =
        ap (λ w. w.draft.schema_version) p.candidate in
      let critical : plan.candidate.draft.critical ≡ true =
        ap (λ w. w.draft.critical) p.candidate in
      let subjects =
        ap (λ w. same_subject (event_subject task_id event) w.draft.subject) p.candidate
        ∙ same_subject_refl (event_subject task_id event) in
      let decodes =
        ap (λ w. c.json.value_event w.draft.payload) p.candidate
        ∙ round_trip event p.payload p.encoded in
      let cited =
        ap
          (λ w.
            is_some_and (previous_of none p.facts) (λ cause. not (contains w.draft.causes cause)))
          p.candidate
        ∙ cites_previous p.facts p.causes p.caused in
      let at =
        ap (λ n. some (record plan.next { position = n }))
          (sym (take_event-position k task_id p.snapshot event plan.candidate plan.next taken)) in
      ground (arith, at)
  -- What an append at the plan's head writes is the plan's record.
