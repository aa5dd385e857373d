-- ===== src/Tasks/Goals/Registry/Confirmed.antt =====
-- An invocation that the verifier over the ledger confirms.
use kolyan.Prelude.{
  ℕ, ℕ-Eq, ◌≡◌, sym, subst, >>=-ok-eq-ok, ok-injective, Bool-cases, String, String-Eq, Bool, ◌&&◌,
  true, false, length, Result, panic, err, not, some, and_then, last, List, [], ◌∷◌, ◌==◌, ok, inl,
  inr, reject_if, reject_if-eq-ok, ok_or, ok_or-eq-ok, >>=-eq-ok, >>-eq-ok, refl, ap, ◌∙◌, arith,
}
use mathlib.Core.List.{Memᴰ}
use mathlib.Core.List.Memᴰ
use kolyan.Prelude.Map.{Map}
use kolyan.Prelude.Map
use kolyan.Tasks.Types.{
  CompletionEvidence, CompletionEvidence-Eq, evidence_source, ExecutionEvidence-Eq, GoalVerdict-Eq,
  AttemptOutcome, AttemptObservation, AttemptSnapshot, InvocationState, InvocationState-Eq,
  InvocationSnapshot, TaskSnapshot, invalid, GoalSourceError,
}
use kolyan.Tasks.Validation.{to_vec, goal_value_digest}
use kolyan.Tasks.Goals.Registry.{GoalSourceCoverage, GoalSourceCoverage-Eq, LedgerTaskGoalVerifier}
use kolyan.Tasks.Goals.Registry.Complete.{
  proof_fits, check_proofs, completed_proofs, from_source, verify_source_proofs, verify_physical,
  verify_invocations,
}

not-false : (b : Bool) → not b ≡ false → b ≡ true
not-false true h = refl
not-false false h = cc

module _ {S R V : Type 0} (v : LedgerTaskGoalVerifier S R V) (prefix : TaskSnapshot V) where
  -- A proof that names the source and has the digest of the source's response, or that digest of the
  -- response's value and the length of its bytes.
  abbrev pub IsBacked : S → R → List ℕ → CompletionEvidence → Type 0
  IsBacked source response bytes (CompletionEvidence.execution_result _ own result_digest) =
      (own ≡ v.reader.terminal source) × (result_digest ≡ v.serde.sha256_hex bytes)
  IsBacked source response bytes (CompletionEvidence.verified_artifact _ own sha256 byte_len) =
      (own ≡ v.reader.terminal source)
      × (goal_value_digest v.serde (v.json.response_value response) v.limits.max_response_bytes
          ≡ ok sha256)
      × (byte_len ≡ length bytes)
  IsBacked source response bytes _ = ⊥

  -- An invocation that completed, and whose latest attempt's source says so.
  unfoldable pub Confirmed : InvocationSnapshot → Type 0
  Confirmed invocation =
      (attempt : AttemptSnapshot) × (observation : AttemptObservation) × (source : S)
      × (response : R) × (proofs : List CompletionEvidence) × (invocation.state
          ≡ InvocationState.completed)
      × (and_then (last invocation.attempts) (λ id. Map.get id prefix.attempts) ≡ some attempt)
      × (attempt.observation ≡ some observation)
      × (observation.outcome ≡ AttemptOutcome.completed proofs)
      × (v.reader.inspect_stopped prefix attempt.binding observation.source v.limits ≡ ok source)
      × (v.reader.coverage source ≡ GoalSourceCoverage.complete)
      × (v.reader.response source ≡ some response)
      × (bytes : List ℕ) × (to_vec (v.json.response_vec response) ≡ ok bytes)
      × ((proof : CompletionEvidence) → Memᴰ proof proofs → IsBacked source response bytes proof)

  proof_fits-IsBacked :
      (source : S) (response : R) (bytes : List ℕ) (proof : CompletionEvidence)
      → to_vec (v.json.response_vec response) ≡ ok bytes
      → (evidence_source proof == v.reader.terminal source) ≡ true
      → proof_fits v response (length bytes) proof ≡ ok true
      → IsBacked source response bytes proof
  unfolding proof_fits
  proof_fits-IsBacked source response bytes (CompletionEvidence.execution_result i own d) encoded
        same h =
      let (bytes', encoded', e) = >>=-ok-eq-ok (to_vec (v.json.response_vec response)) _ h in
      let one : bytes' ≡ bytes = ok-injective (sym encoded' ∙ encoded) in
      let digest : (d == v.serde.sha256_hex bytes') ≡ true = sym e in
      ((ground arith), (ground (arith, ap v.serde.sha256_hex one)))
  proof_fits-IsBacked source response bytes (CompletionEvidence.verified_artifact i own d len)
        encoded same h =
      let (computed, made, e) =
        >>=-ok-eq-ok
          (goal_value_digest v.serde (v.json.response_value response) v.limits.max_response_bytes) _
          h in
      let both : (d == computed && len == length bytes) ≡ true = sym e in
      ((ground arith), made ∙ ap ok (ground arith), (ground arith))
  proof_fits-IsBacked source response bytes (CompletionEvidence.goal_satisfied i own d e) encoded
        same h =
      cc

  check_proofs-IsBacked :
      (source : S) (response : R) (bytes : List ℕ) (proofs : List CompletionEvidence)
      → to_vec (v.json.response_vec response) ≡ ok bytes
      → check_proofs v source response (length bytes) proofs ≡ ok tt
      → (proof : CompletionEvidence) → Memᴰ proof proofs
      → IsBacked source response bytes proof
  unfolding check_proofs
  check_proofs-IsBacked source response bytes [] encoded h proof m = absurd (Memᴰ.not-nil m)
  check_proofs-IsBacked source response bytes (first ∷ proofs) encoded h proof m =
      let (named, then1) =
        >>-eq-ok
          (reject_if (not (evidence_source first == v.reader.terminal source))
            (invalid "physical completion source differs"))
          _ h in
      let (fine, fitting, then2) = >>=-eq-ok (proof_fits v response (length bytes) first) _ then1 in
      let (fits, then3) =
        >>-eq-ok (reject_if (not fine) (invalid "physical completion result differs")) _ then2 in
      elim (Memᴰ.cases_cons m) [
        | inl same ↦ subst (IsBacked source response bytes) (sym same) (
            proof_fits-IsBacked source response bytes first encoded
              (not-false _ (reject_if-eq-ok _ _ named))
              (fitting ∙ ap ok (not-false fine (reject_if-eq-ok _ _ fits))))
        | inr below ↦ check_proofs-IsBacked source response bytes proofs encoded then3 proof below
      ]

  completed_proofs-eq-some :
      (outcome : AttemptOutcome) (proofs : List CompletionEvidence)
      → completed_proofs outcome ≡ some proofs
      → outcome ≡ AttemptOutcome.completed proofs
  completed_proofs-eq-some (AttemptOutcome.completed ps) proofs h = ground arith
  completed_proofs-eq-some outcome proofs h = cc

  from_source-eq-ok :
      (answer : Result GoalSourceError S) (source : S)
      → from_source answer ≡ ok source
      → answer ≡ ok source
  from_source-eq-ok panic source h = cc
  from_source-eq-ok (err error) source h = cc
  from_source-eq-ok (ok s) source h = cc

  verify_physical-Confirmed :
      (invocation : InvocationSnapshot)
      → verify_physical v prefix invocation ≡ ok tt
      → Confirmed invocation
  unfolding Confirmed verify_physical verify_source_proofs
  verify_physical-Confirmed invocation h =
      let (done, then1) =
        >>-eq-ok
          (reject_if (not (invocation.state == InvocationState.completed))
            (invalid "unfinished physical invocation"))
          _ h in
      let (attempt, latest, then2) =
        >>=-eq-ok
          (ok_or (and_then (last invocation.attempts) (λ id. Map.get id prefix.attempts))
            (invalid "missing latest physical attempt"))
          _ then1 in
      let (observation, seen, then3) =
        >>=-eq-ok (ok_or attempt.observation (invalid "missing stopped observation")) _ then2 in
      let (proofs, proved, then4) =
        >>=-eq-ok
          (ok_or (completed_proofs observation.outcome)
            (invalid "physical observation is not successful"))
          _ then3 in
      let (source, inspected, then5) =
        >>=-eq-ok
          (from_source
            (v.reader.inspect_stopped prefix attempt.binding observation.source v.limits))
          _ then4 in
      let (covered, then6) =
        >>-eq-ok
          (reject_if (not (v.reader.coverage source == GoalSourceCoverage.complete))
            (invalid "cannot complete with incomplete/uncertain physical proof"))
          _ then5 in
      let (response, answered, then7) =
        >>=-eq-ok (ok_or (v.reader.response source) (invalid "missing successful actual response"))
          _ then6 in
      let (bytes, encoded, checked) = >>=-eq-ok (to_vec (v.json.response_vec response)) _ then7 in
      (
        attempt,
        observation,
        source,
        response,
        proofs,
        (let e = reject_if-eq-ok _ _ done in ground arith),
        ok_or-eq-ok _ _ latest,
        ok_or-eq-ok _ _ seen,
        completed_proofs-eq-some _ _ (ok_or-eq-ok _ _ proved),
        from_source-eq-ok _ _ inspected,
        (let e = reject_if-eq-ok _ _ covered in ground arith),
        ok_or-eq-ok _ _ answered,
        bytes,
        encoded,
        check_proofs-IsBacked source response bytes proofs encoded checked,
      )

  pub verify_invocations-Confirmed :
      (invocations : Map InvocationSnapshot) (id : String) (invocation : InvocationSnapshot)
      → verify_invocations v prefix (Map.values invocations) ≡ ok tt
      → Map.get id invocations ≡ some invocation
      → Confirmed invocation
  unfolding verify_invocations Map.get
  verify_invocations-Confirmed [] id invocation h found = cc
  verify_invocations-Confirmed ((key, first) ∷ invocations) id invocation h found =
      let (passed, then1) = >>-eq-ok (verify_physical v prefix first) _ h in
      elim (Bool-cases (key == id)) [
        | inl same ↦ subst Confirmed (ground arith) (verify_physical-Confirmed first passed)
        | inr other ↦ verify_invocations-Confirmed invocations id invocation then1 (ground arith)
      ]
