-- ===== src/Model/Boundary.antt =====
-- src/native_model.rs: the evidence boundary that a cell's metadata declares, and the trust input
-- that the evaluator and the close check read from a cell.
pub mod Trusted
use casegraphen.Prelude.{
  Bool, true, false, ◌||◌, Option, none, some, String, List, [], ◌∷◌, if◌then◌else◌, str_eq,
}
use casegraphen.Host.{Host}
use casegraphen.Trust.{EvidenceTrustBoundary, EvidenceTrustInput}
use casegraphen.Model.{CaseCell}

pub data EvidenceBoundary : Type 0 where
  source_backed inferred worker_output review_promoted rejected contradicting : EvidenceBoundary

abbrev boundary_of_text : String → EvidenceBoundary
boundary_of_text s =
    if str_eq s "source_backed" || str_eq s "source_backed_evidence"
    then source_backed
    else if str_eq s "inferred" || str_eq s "ai_inference"
    then inferred
    else if str_eq s "worker_output"
    then worker_output
    else if str_eq s "review_promoted" || str_eq s "review_promotion"
    then review_promoted
    else if str_eq s "rejected"
    then rejected
    else if str_eq s "contradicting"
    then contradicting
    else inferred

unfoldable pub from_metadata_value : Option String → EvidenceBoundary
from_metadata_value none = inferred
from_metadata_value (some s) = boundary_of_text s

unfoldable pub to_trust_boundary : EvidenceBoundary → EvidenceTrustBoundary
to_trust_boundary source_backed = EvidenceTrustBoundary.source_backed
to_trust_boundary inferred = EvidenceTrustBoundary.inferred
to_trust_boundary worker_output = EvidenceTrustBoundary.worker_output
to_trust_boundary review_promoted = EvidenceTrustBoundary.review_promoted
to_trust_boundary rejected = EvidenceTrustBoundary.rejected
to_trust_boundary contradicting = EvidenceTrustBoundary.contradicting

module _ (h : Host) where
  -- `metadata.get("evidence_boundary").and_then(Value::as_str)`
  unfoldable pub declared_boundary : CaseCell h → Option String
  declared_boundary cell = elim (h.get cell.metadata "evidence_boundary") [
    | none ↦ none
    | some value ↦ h.as_str value
  ]

  -- `!ids.is_empty()`
  abbrev non_empty : List h.Ident → Bool
  non_empty [] = false
  non_empty (_ ∷ _) = true

  unfoldable pub native_evidence_trust_input :
      CaseCell h → Option h.ReviewStatus → EvidenceTrustInput h
  native_evidence_trust_input cell latest = record {
    boundary = to_trust_boundary (from_metadata_value (declared_boundary cell));
    cell_review_status = h.review_status cell.provenance;
    latest_review_status = latest;
    has_source = non_empty cell.source_ids;
  }
