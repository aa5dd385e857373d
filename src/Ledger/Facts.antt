-- ===== src/Ledger/Facts.antt =====
-- The records of crates/kolyan-ledger/src/facts.rs. `V` stands for `serde_json::Value`.
use kolyan.Prelude.{ℕ, String, List, Bool, Eq, String-discrete, ℕ_discrete}

pub record FactSubject : Type 0 where
  pub kind : String
  pub id : String

pub record FactRef : Type 0 where
  pub stream_id : String
  pub position : ℕ
  pub fact_id : String

pub record FactDraft (V : Type 0) : Type 0 where
  pub fact_id : String
  pub subject : FactSubject
  pub kind : String
  pub schema_version : ℕ
  pub critical : Bool
  pub causes : List FactRef
  pub payload : V

pub record FactRecord (V : Type 0) : Type 0 where
  pub stream_id : String
  pub position : ℕ
  pub draft : FactDraft V

unfoldable pub FactRef-discrete : Discrete FactRef
FactRef-discrete = hlevel (String-discrete, ℕ_discrete)

instance abbrev pub FactRef-Eq : Eq FactRef
FactRef-Eq = record { discrete = FactRef-discrete }
