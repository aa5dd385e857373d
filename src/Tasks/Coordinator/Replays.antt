-- ===== src/Tasks/Coordinator/Replays.antt =====
-- A replay over a journal that has grown, and over one record more.
use kolyan.Prelude.{
  ℕ, ◌≡◌, ap, String, String-Eq, ℕ-Eq, true, not, Option, none, some, List, [], ◌∷◌, ◌++◌, last, ok,
  reject_if, >>=-eq-ok, >>-eq-ok, arith,
}
use kolyan.Ledger.{FactRef, FactRef-Eq, FactRecord}
use kolyan.Tasks.Types.{TaskEvent, TaskSnapshot, Serde, invalid}
use kolyan.Tasks.Validation.{reference}
use kolyan.Tasks.Goals.{refresh_goals}
use kolyan.Tasks.Goals.Verify.{verify_event}
use kolyan.Tasks.Inputs.{InvocationInputScope, decoded}
use kolyan.Tasks.Inputs.Source.{is_source_record, verify_input_event}
use kolyan.Tasks.Inputs.Stable.{verify_input_event_stable}
use kolyan.Tasks.Reducer.{refresh, apply}
use kolyan.Tasks.Reducer.Reachable.{apply_first, apply_next, transition_task-eq-ok}
use kolyan.Tasks.Coordinator.{TaskCoordinator, take_event, replay_event, replay_record, replay_from}

refresh-position :
    {V : Type 0} (s s' : TaskSnapshot V) → refresh s ≡ ok s' → s'.position ≡ s.position
unfolding refresh refresh_goals
refresh-position s s' h = ground arith

pub apply-position :
    {V : Type 0} (serde : Serde V) (prefix : Option (TaskSnapshot V)) (event : TaskEvent V)
    (fact : FactRecord V) (s : TaskSnapshot V)
    → apply serde prefix event fact ≡ ok s
    → s.position ≡ fact.position
unfolding apply
apply-position serde none (TaskEvent.registered d) fact s h =
    ap (λ w. w.position) (apply_first serde d fact s h).1
apply-position serde none event fact s h = cc
apply-position serde (some before) event fact s h =
    let (_, next, _, refreshed) =
      transition_task-eq-ok serde before event fact s (apply_next serde before event fact s h) in
    refresh-position (record next { position = fact.position }) s refreshed

-- The reference of the last record, or the one that was there before.
abbrev pub previous_of : {V : Type 0} → Option FactRef → List (FactRecord V) → Option FactRef
previous_of previous [] = previous
previous_of previous (fact ∷ facts) = previous_of (some (reference fact)) facts

module _ {J V : Type 0} (c : TaskCoordinator J V) where
  pub replay_from-append :
      (j : J) (task_id : String) (snapshot : Option (TaskSnapshot V)) (previous : Option FactRef)
      (facts : List (FactRecord V)) (fact : FactRecord V) (middle : Option (TaskSnapshot V))
      → replay_from c j task_id snapshot previous facts ≡ ok middle
      → replay_from c j task_id snapshot previous (facts ++ fact ∷ [])
        ≡ replay_record c j task_id middle (previous_of previous facts) fact
  unfolding replay_from
  replay_from-append j task_id snapshot previous [] fact middle h = ground arith
  replay_from-append j task_id snapshot previous (f ∷ facts) fact middle h =
      let (next, first, then1) = >>=-eq-ok (replay_record c j task_id snapshot previous f) _ h in
      rw first (replay_from-append j task_id next (some (reference f)) facts fact middle then1)

  module _ (j k : J) (task_id : String)
      (ones : (stream : String) (after : ℕ) (found : FactRecord V)
        → c.journal.read j stream after 1 ≡ ok (found ∷ [])
        → c.journal.read k stream after 1 ≡ ok (found ∷ []))
      (source_again : (stream : String) (found : FactRecord V) (expected : InvocationInputScope)
        → is_source_record found stream expected ≡ true
        → c.journal.read j stream 0 2 ≡ ok (found ∷ [])
        → c.journal.read k stream 0 2 ≡ ok (found ∷ [])) where
    pub take_event_stable :
        (snapshot : Option (TaskSnapshot V)) (event : TaskEvent V) (fact : FactRecord V)
        (next : TaskSnapshot V)
        → take_event c j task_id snapshot event fact ≡ ok next
        → take_event c k task_id snapshot event fact ≡ ok next
    unfolding take_event
    take_event_stable snapshot event fact next h =
        let (_, then1) =
          >>-eq-ok (verify_event c.json.serde c.goal_verifier snapshot event fact) _ h in
        let (s, applied, then2) = >>=-eq-ok (apply c.json.serde snapshot event fact) _ then1 in
        let (input, _) =
          >>-eq-ok (verify_input_event c.json c.journal j task_id event fact (some s)) _ then2 in
        let again =
          verify_input_event_stable c.json c.journal j k ones task_id source_again event fact
            (some s) input in
        ground (arith, again)

    replay_event_stable :
        (snapshot : Option (TaskSnapshot V)) (previous : Option FactRef) (fact : FactRecord V)
        (next : TaskSnapshot V)
        → replay_event c j task_id snapshot previous fact ≡ ok next
        → replay_event c k task_id snapshot previous fact ≡ ok next
    unfolding replay_event
    replay_event_stable snapshot previous fact next h =
        let (_, then1) =
          >>-eq-ok
            (reject_if (not fact.draft.critical) (invalid "task transitions must be critical")) _
            h in
        let (event, there, _) =
          >>=-eq-ok (decoded (c.json.value_event fact.draft.payload)) _ then1 in
        ground (arith, take_event_stable snapshot event fact next)

    replay_record_stable :
        (snapshot : Option (TaskSnapshot V)) (previous : Option FactRef) (fact : FactRecord V)
        (next : Option (TaskSnapshot V))
        → replay_record c j task_id snapshot previous fact ≡ ok next
        → replay_record c k task_id snapshot previous fact ≡ ok next
    unfolding replay_record
    replay_record_stable snapshot previous fact next h =
        grind (arith, replay_event_stable snapshot previous fact)

    pub replay_from_stable :
        (snapshot : Option (TaskSnapshot V)) (previous : Option FactRef)
        (facts : List (FactRecord V)) (last : Option (TaskSnapshot V))
        → replay_from c j task_id snapshot previous facts ≡ ok last
        → replay_from c k task_id snapshot previous facts ≡ ok last
    unfolding replay_from
    replay_from_stable snapshot previous [] last h = h
    replay_from_stable snapshot previous (f ∷ facts) last h =
        let (next, first, then1) = >>=-eq-ok (replay_record c j task_id snapshot previous f) _ h in
        rw (replay_record_stable snapshot previous f next first)
          (replay_from_stable next (some (reference f)) facts last then1)
