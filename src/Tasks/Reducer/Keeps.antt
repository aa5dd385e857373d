-- ===== src/Tasks/Reducer/Keeps.antt =====
-- What no event changes, and what it changes only with a check.
use kolyan.Prelude.{◌≡◌, ok, arith}
use kolyan.Ledger.{FactRecord}
use kolyan.Tasks.Types.{TaskSnapshot, TaskEvent, Serde}
use kolyan.Tasks.Dependencies.{add_dependency}
use kolyan.Tasks.Admission.{admit}
use kolyan.Tasks.Results.{consume, consume_terminal}
use kolyan.Tasks.Budget.{configure, reserve}
use kolyan.Tasks.Attempts.Start.{authorize_retry, resume, start}
use kolyan.Tasks.Attempts.Observe.{observe}
use kolyan.Tasks.Completion.{complete, cancel}
use kolyan.Tasks.Goals.{apply_assessment, refresh_goals}
use kolyan.Tasks.Reducer.{require_recovery, dispatch, refresh}

module _ {V : Type 0} (s : TaskSnapshot V) where
  pub dispatch-definition :
      (serde : Serde V) (event : TaskEvent V) (fact : FactRecord V) (s' : TaskSnapshot V)
      → dispatch serde s event fact ≡ ok s'
      → s'.definition ≡ s.definition
  unfolding dispatch configure reserve start apply_assessment admit add_dependency observe resume
      require_recovery authorize_retry consume consume_terminal complete cancel
  dispatch-definition serde event fact s' h = ground arith

  pub refresh-definition : (s' : TaskSnapshot V) → refresh s ≡ ok s' → s'.definition ≡ s.definition
  unfolding refresh refresh_goals
  refresh-definition s' h = ground arith
