-- ===== src/Tasks/Types/Serialization.antt =====
-- What tasks/goals/types.rs takes from the crates serde_json and sha2. `V` is `serde_json::Value`.
use kolyan.Prelude.{ℕ, String, List, ◌⊎◌}
use kolyan.Tasks.Types.Goal.{GoalAssessment}

-- `to_writer` hands a text to the writer in pieces, of which only the sizes matter; `to_vec` gives
-- an error's message or the bytes; `sha256_hex` is `format!("{:x}", Sha256::digest(bytes))`.
pub record Serde (V : Type 0) : Type 0 where
  pub value_pieces : V → List ℕ
  pub value_vec : V → String ⊎ List ℕ
  pub assessment_pieces : GoalAssessment V → List ℕ
  pub assessment_vec : GoalAssessment V → String ⊎ List ℕ
  pub sha256_hex : List ℕ → String
