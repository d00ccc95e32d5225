-- ===== src/Host.antt =====
-- What the program takes from the crates `higher_graphen_core` and `serde_json`, as a parameter.
-- The code compares identifiers, review statuses, provenances and JSON values for equality, reads
-- the review status of a provenance, looks keys up in a JSON map and reads text out of a value.
use casegraphen.Prelude.{String, Option, ◌≢◌}

pub record Host : Type 1 where
  pub Ident : Type 0
  pub id_discrete : Discrete Ident
  pub ReviewStatus : Type 0
  pub status_discrete : Discrete ReviewStatus
  pub accepted : ReviewStatus
  pub rejected : ReviewStatus
  pub accepted-ne-rejected : accepted ≢ rejected
  pub Provenance : Type 0
  pub provenance_discrete : Discrete Provenance
  pub review_status : Provenance → ReviewStatus
  -- serde_json::Value, and serde_json::Map with text keys
  pub Value : Type 0
  pub value_discrete : Discrete Value
  pub as_str : Value → Option String
  pub Metadata : Type 0
  pub get : Metadata → String → Option Value
