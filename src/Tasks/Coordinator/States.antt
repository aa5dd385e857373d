-- ===== src/Tasks/Coordinator/States.antt =====
-- The states that a replay and a command answer are states of the reducer.
use kolyan.Prelude.{
  ℕ, ◌≡◌, refl, sym, subst, inl, inr, String, String-Eq, ℕ-Eq, not, ◌||◌, Option, none, some, List,
  [], ◌∷◌, ok, reject_if, ◌==◌, Bool-cases, >>=-eq-ok, >>-eq-ok, >>=-ok-eq-ok, ok-injective,
  ok_or-eq-ok, arith,
}
use kolyan.Ledger.{FactRef, FactRecord}
use kolyan.Ledger.Interface.Laws.{Laws}
use kolyan.Tasks.Types.{TaskSnapshot, TaskEvent, invalid, Serde}
use kolyan.Tasks.Goals.Verify.{verify_event}
use kolyan.Tasks.Inputs.{decoded}
use kolyan.Tasks.Inputs.Source.{verify_input_event}
use kolyan.Tasks.Reducer.{apply}
use kolyan.Tasks.Reducer.Reachable.{Reachable, registers, takes, skips}
use kolyan.Tasks.Coordinator.{
  TaskCoordinator, records, take_event, replay_event, at_position, replay_record, replay_from,
  replay, snapshot_of,
}
use kolyan.Tasks.Coordinator.Envelope.{version, is_known}
use kolyan.Tasks.Coordinator.Command.{command}
use kolyan.Tasks.Coordinator.Durable.{Written, nothing, one_more, command_writes}
use kolyan.Tasks.Validation.{reference}

module _ {V : Type 0} (serde : Serde V) where
  -- No state, or one that the reducer leads to.
  pub data AllReachable : Option (TaskSnapshot V) → Type 0 where
    unregistered : AllReachable none
    reached : (s : TaskSnapshot V) → Reachable serde s → AllReachable (some s)

  first-Reachable :
      (event : TaskEvent V) (fact : FactRecord V) (s : TaskSnapshot V)
      → apply serde none event fact ≡ ok s
      → Reachable serde s
  unfolding apply
  first-Reachable (TaskEvent.registered d) fact s h = registers d fact s h
  first-Reachable event fact s h = absurd (cc h)

  apply-Reachable :
      (prefix : Option (TaskSnapshot V)) (event : TaskEvent V) (fact : FactRecord V)
      (s : TaskSnapshot V)
      → AllReachable prefix
      → apply serde prefix event fact ≡ ok s
      → Reachable serde s
  apply-Reachable _ event fact s (reached before r) h = takes event fact s r h
  apply-Reachable _ event fact s unregistered h = first-Reachable event fact s h

module _ {J V : Type 0} (c : TaskCoordinator J V) where
  take_event-Reachable :
      (j : J) (task_id : String) (snapshot : Option (TaskSnapshot V)) (event : TaskEvent V)
      (fact : FactRecord V) (s : TaskSnapshot V)
      → AllReachable c.json.serde snapshot
      → take_event c j task_id snapshot event fact ≡ ok s
      → Reachable c.json.serde s
  unfolding take_event
  take_event-Reachable j task_id snapshot event fact s r h =
      let (_, then1) =
        >>-eq-ok (verify_event c.json.serde c.goal_verifier snapshot event fact) _ h in
      let (next, applied, then2) = >>=-eq-ok (apply c.json.serde snapshot event fact) _ then1 in
      let (_, e) =
        >>-eq-ok (verify_input_event c.json c.journal j task_id event fact (some next)) (ok next)
          then2 in
      subst (Reachable c.json.serde) (ok-injective e)
        (apply-Reachable c.json.serde snapshot event fact next r applied)

  replay_event-Reachable :
      (j : J) (task_id : String) (snapshot : Option (TaskSnapshot V)) (previous : Option FactRef)
      (fact : FactRecord V) (s : TaskSnapshot V)
      → AllReachable c.json.serde snapshot
      → replay_event c j task_id snapshot previous fact ≡ ok s
      → Reachable c.json.serde s
  unfolding replay_event
  replay_event-Reachable j task_id snapshot previous fact s r h =
      let (_, then1) =
        >>-eq-ok (reject_if (not fact.draft.critical) (invalid "task transitions must be critical"))
          _ h in
      let (event, _, then2) = >>=-eq-ok (decoded (c.json.value_event fact.draft.payload)) _ then1 in
      let taken : take_event c j task_id snapshot event fact ≡ ok s = ground arith in
      take_event-Reachable j task_id snapshot event fact s r taken

  moved-AllReachable :
      (snapshot : Option (TaskSnapshot V)) (position : ℕ)
      → AllReachable c.json.serde snapshot
      → AllReachable c.json.serde (at_position snapshot position)
  moved-AllReachable _ position unregistered = unregistered
  moved-AllReachable _ position (reached s r) =
      reached (record s { position = position }) (skips position r)

  replay_record-AllReachable :
      (j : J) (task_id : String) (snapshot : Option (TaskSnapshot V)) (previous : Option FactRef)
      (fact : FactRecord V) (next : Option (TaskSnapshot V))
      → AllReachable c.json.serde snapshot
      → replay_record c j task_id snapshot previous fact ≡ ok next
      → AllReachable c.json.serde next
  unfolding replay_record
  replay_record-AllReachable j task_id snapshot previous fact next r h =
      elim (Bool-cases
        (not (is_known fact.draft.kind) || not (fact.draft.schema_version == version))) [
          | inl unknown ↦
              let (_, e) = >>-eq-ok (reject_if _ _) _ (rw unknown at h) in
              subst (AllReachable c.json.serde) (ok-injective e)
                (moved-AllReachable snapshot fact.position r)
          | inr known ↦
              let (s, replayed, e) =
                >>=-ok-eq-ok (replay_event c j task_id snapshot previous fact)
                  (λ w. at_position (some w) fact.position) (rw known at h) in
              subst (AllReachable c.json.serde) (sym e) (
                moved-AllReachable (some s) fact.position (
                  reached s (replay_event-Reachable j task_id snapshot previous fact s r replayed)))
        ]

  replay_from-AllReachable :
      (j : J) (task_id : String) (snapshot : Option (TaskSnapshot V)) (previous : Option FactRef)
      (facts : List (FactRecord V)) (next : Option (TaskSnapshot V))
      → AllReachable c.json.serde snapshot
      → replay_from c j task_id snapshot previous facts ≡ ok next
      → AllReachable c.json.serde next
  unfolding replay_from
  replay_from-AllReachable j task_id snapshot previous [] next r h =
      subst (AllReachable c.json.serde) (ok-injective h) r
  replay_from-AllReachable j task_id snapshot previous (fact ∷ facts) next r h =
      let (middle, first, then1) =
        >>=-eq-ok (replay_record c j task_id snapshot previous fact) _ h in
      replay_from-AllReachable j task_id middle (some (reference fact)) facts next
        (replay_record-AllReachable j task_id snapshot previous fact middle r first) then1

  replay-AllReachable :
      (j : J) (task_id : String) (facts : List (FactRecord V)) (next : Option (TaskSnapshot V))
      → replay c j task_id facts ≡ ok next
      → AllReachable c.json.serde next
  unfolding replay
  replay-AllReachable j task_id facts next h =
      replay_from-AllReachable j task_id none none facts next unregistered h

  some-Reachable :
      (o : Option (TaskSnapshot V)) (s : TaskSnapshot V)
      → o ≡ some s
      → AllReachable c.json.serde o
      → Reachable c.json.serde s
  some-Reachable _ s e unregistered = absurd (cc e)
  some-Reachable _ s e (reached t r) = subst (Reachable c.json.serde) (cc e) r

  -- Whatever the journal holds, the snapshot of a task is a state that the reducer leads to by
  -- events that it takes.
  pub snapshot_of-Reachable :
      (j : J) (task_id : String) (s : TaskSnapshot V)
      → snapshot_of c j task_id ≡ ok s
      → Reachable c.json.serde s
  unfolding snapshot_of
  snapshot_of-Reachable j task_id s h =
      let (facts, _, then1) = >>=-eq-ok (records c j task_id) _ h in
      let (state, replayed, there) = >>=-eq-ok (replay c j task_id facts) _ then1 in
      some-Reachable state s (ok_or-eq-ok state _ there)
        (replay-AllReachable j task_id facts state replayed)

  -- So is the state that a command answers, over a journal that keeps the laws.
  pub command-Reachable :
      {rows : J → String → List (FactRecord V)} {IsWell : J → Type 0} {cap : ℕ}
      (laws : Laws c.journal rows IsWell cap) (j k : J) (task_id fact_id : String)
      (event : TaskEvent V) (s : TaskSnapshot V)
      → IsWell j
      → command c j task_id fact_id event ≡ (ok s, k)
      → Reachable c.json.serde s
  command-Reachable laws j k task_id fact_id event s well h =
      written (command_writes c laws j k task_id fact_id event s well h)
    where
      written : Written c laws j k task_id fact_id event s → Reachable c.json.serde s
      written (nothing kept st) =
          some-Reachable (some s) s refl
            (replay-AllReachable j task_id st.facts (some s) st.replayed)
      written (one_more plan p next well' grown others) =
          subst (Reachable c.json.serde) (sym next) (
            take_event-Reachable j task_id p.snapshot event plan.candidate plan.next
              (replay-AllReachable j task_id p.facts p.snapshot p.replayed) p.taken)
