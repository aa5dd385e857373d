-- ===== src/Tasks/Dependencies/Steps.antt =====
-- One call of `reaches` (tasks/reducer/topology.rs): its four ways.
use kolyan.Prelude.{
  ℕ, suc, ◌≡◌, ◌≢◌, String, String-Eq, true, false, none, some, List, contains, arith,
}
use kolyan.Prelude.Map
use kolyan.Prelude.Map.{Map}
use kolyan.Prelude.Set
use kolyan.Tasks.Types.{InvocationSnapshot}
use kolyan.Tasks.Dependencies.{Search, any_reaches, reaches}

module _ (invocations : Map InvocationSnapshot) (target : String) where
  abbrev pub visit_with : ℕ → String → List String → Search
  visit_with fuel id seen = reaches fuel invocations id target seen

  -- The four ways of one call.
  pub reaches_target :
      (fuel : ℕ) (x : String) (seen : List String)
      → x ≡ target
      → reaches (suc fuel) invocations x target seen ≡ some (true, seen)
  unfolding reaches
  reaches_target fuel x seen e = ground arith

  pub reaches_seen :
      (fuel : ℕ) (x : String) (seen : List String)
      → x ≢ target
      → contains seen x ≡ true
      → reaches (suc fuel) invocations x target seen ≡ some (false, seen)
  unfolding reaches
  reaches_seen fuel x seen ne h = ground arith

  pub reaches_unknown :
      (fuel : ℕ) (x : String) (seen : List String)
      → x ≢ target
      → contains seen x ≡ false
      → Map.get x invocations ≡ none
      → reaches (suc fuel) invocations x target seen ≡ some (false, Set.insert x seen)
  unfolding reaches
  reaches_unknown fuel x seen ne h e = ground arith

  pub reaches_known :
      (fuel : ℕ) (x : String) (seen : List String) (inv : InvocationSnapshot)
      → x ≢ target
      → contains seen x ≡ false
      → Map.get x invocations ≡ some inv
      → reaches (suc fuel) invocations x target seen
        ≡ any_reaches (visit_with fuel) inv.definition.dependencies (Set.insert x seen)
  unfolding reaches
  reaches_known fuel x seen inv ne h e = ground arith
