-- ===== src/Tasks/Safety/Loops.antt =====
-- The loops that read the maps of a valid task: up the ancestors, over the children, and over what
-- a cancellation reaches.
use kolyan.Prelude.{
  ℕ, zero, suc, ◌+◌, ◌<◌, ◌≡◌, ◌≢◌, String, String-Eq, List, [], ◌∷◌, true, false, none, some, inl,
  inr, contains, is_some, length, Option-cases, Bool, >>=_returns, ok, panic, if◌then◌else◌, arith,
}
use kolyan.Prelude.Map
use kolyan.Prelude.Map.{Map, keys, get-update}
use kolyan.Prelude.Sorted.{is_sorted, get-below, get-key}
use kolyan.Tasks.Types.{
  AttemptSnapshot, InvocationSnapshot, InvocationDefinition, InvocationRole, TaskSnapshot,
  CancellationPolicy,
}
use kolyan.Tasks.Topology.{topology, IsValid}
use kolyan.Tasks.Validation.{identity, reason, digest, agent, available_id}
use kolyan.Tasks.Dependencies.{required_results}
use kolyan.Tasks.Admission.{
  depth_step, ancestor_depth, admit_root, admit_child, admit_role, parent_allows, check_admit,
}
use kolyan.Tasks.Completion.{cancel_attempts, cancel_selected, cancel_invocations, cancel}
use kolyan.Tasks.Reducer.{child_waits, refresh}
use kolyan.Tasks.Reducer.Shape.{binding_first}
use kolyan.Tasks.Safety.Commands.{attempt_known}

cancel_attempts_returns :
    (ids : List String) (m : Map AttemptSnapshot)
    → ((a : String) → contains ids a ≡ true → is_some (Map.get a m) ≡ true)
    → cancel_attempts ids m ≢ panic
unfolding cancel_attempts contains
cancel_attempts_returns [] m known = ground arith
cancel_attempts_returns (id ∷ ids) m known = elim (Option-cases (Map.get id m)) [
  | inl h ↦ ground (arith, known id)
  | inr (attempt, h) ↦
      let next : AttemptSnapshot = record attempt { cancellation_requested = true } in
      ground (
        arith,
        cancel_attempts_returns ids (Map.update id next m)
            (λ a c. ground (arith, known a, get-update id a next m)),
      )
]

cancel_first_returns :
    (b : Bool) (ids : List String) (m : Map AttemptSnapshot)
    → ((a : String) → contains ids a ≡ true → is_some (Map.get a m) ≡ true)
    → (if b then cancel_attempts ids m else ok m) ≢ panic
cancel_first_returns true ids m known = cancel_attempts_returns ids m known
cancel_first_returns false ids m known = λ p. cc

cancel_invocations_returns :
    (policy : CancellationPolicy) (invs : Map InvocationSnapshot) (m : Map AttemptSnapshot)
    → is_sorted invs ≡ true
    → ((id a : String) (inv : InvocationSnapshot)
        → Map.get id invs ≡ some inv
        → contains inv.attempts a ≡ true
        → is_some (Map.get a m) ≡ true)
    → cancel_invocations policy invs m ≢ panic
unfolding cancel_invocations is_sorted Map.get
cancel_invocations_returns policy [] m o known = ground arith
cancel_invocations_returns policy ((id, inv) ∷ invs) m o known =
    let below : Map.get id invs ≡ none = ground (arith, get-below id invs) in
    >>=_returns (if cancel_selected policy inv then cancel_attempts inv.attempts m else ok m) _
      (cancel_first_returns (cancel_selected policy inv) inv.attempts m
        (λ a c. ground (arith, known id a inv)))
      (λ m' first. ground (
        arith,
        cancel_invocations_returns policy invs m' (ground arith) (λ j a next h c. ground (
          arith,
          known j a next,
          binding_first (cancel_selected policy inv) inv.attempts m m' first a,
        )),
      ))

module _ {V : Type 0} (s : TaskSnapshot V) (v : IsValid (topology s)) where
  ancestor_depth_returns :
      (fuel depth : ℕ) (id : String) (inv : InvocationSnapshot)
      → Map.get id s.invocations ≡ some inv
      → v.rank id < fuel
      → is_some (ancestor_depth fuel s.invocations (some inv) depth) ≡ true
  unfolding ancestor_depth
  ancestor_depth_returns zero depth id inv h below = ground arith
  ancestor_depth_returns (suc fuel) depth id inv h below =
      elim (Option-cases inv.definition.parent_invocation_id) [
        | inl none' ↦ ground arith
        | inr (p, e) ↦ elim (Option-cases (Map.get p s.invocations)) [
          | inl unknown ↦ ground (
            arith,
            v.parents_known id (record { definition = inv.definition; attempts = inv.attempts }) p,
          )
          | inr (parent, found) ↦ ground (
            arith,
            v.rank_falls id (record { definition = inv.definition; attempts = inv.attempts }) p,
            ancestor_depth_returns fuel (depth + depth_step inv) p parent,
          )
        ]
      ]

  child_waits_returns :
      (m : Map InvocationSnapshot)
      → ((id : String) → contains (keys m) id ≡ true → is_some (Map.get id s.invocations) ≡ true)
      → child_waits s m ≢ panic
  unfolding child_waits required_results contains
  child_waits_returns [] known = ground arith
  child_waits_returns ((id, inv) ∷ m) known =
      ground (arith, known id, child_waits_returns m (λ j c. ground (arith, known j)))

  admit_child_returns : (d : InvocationDefinition) → admit_child s d ≢ panic
  unfolding admit_child parent_allows
  admit_child_returns d = elim (Option-cases d.parent_invocation_id) [
    | inl h ↦ ground arith
    | inr (p, e) ↦ elim (Option-cases (Map.get p s.invocations)) [
      | inl h ↦ ground arith
      | inr (owner, h) ↦ ground (
        arith,
        v.rank_bounded p,
        ancestor_depth_returns (length s.invocations) 0 p owner,
        ancestor_depth_returns (length s.invocations) 1 p owner,
      )
    ]
  ]

  admit_role_returns :
      (role : InvocationRole) (d : InvocationDefinition) → admit_role role s d ≢ panic
  unfolding admit_role admit_root
  admit_role_returns InvocationRole.root d = ground arith
  admit_role_returns _ d = admit_child_returns d

  pub check_admit_returns : (d : InvocationDefinition) → check_admit s d ≢ panic
  unfolding check_admit available_id agent identity digest
  check_admit_returns d = ground (arith, admit_role_returns d.role d)

  pub refresh_returns : refresh s ≢ panic
  unfolding refresh
  refresh_returns =
      ground (arith, child_waits_returns s.invocations (λ id c. get-key id s.invocations c))

  pub cancel_returns : (why : String) → is_sorted s.invocations ≡ true → cancel s why ≢ panic
  unfolding cancel reason
  cancel_returns why o = ground (
    arith,
    cancel_invocations_returns s.definition.cancellation_policy s.invocations s.attempts o
        (λ id a inv h c. attempt_known s v id a inv h c),
  )
