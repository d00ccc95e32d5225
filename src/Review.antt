-- ===== src/Review.antt =====
-- src/native_review.rs, src/native_review/support.rs: the canonical record of a review, as it is
-- read from the metadata of a morphism.
pub mod Canonical
pub mod Gate
use casegraphen.Prelude.{ℕ, String, Bool, Option, List, Result}
use casegraphen.Host.{Host}
use casegraphen.Model.{ProjectionAudience}

pub data NativeReviewTargetKind : Type 0 where
  completion evidence execution_topology morphism plan residual_risk waiver : NativeReviewTargetKind

pub data ReviewAction : Type 0 where
  accept reject reopen waive defer supersede : ReviewAction

module _ (h : Host) where
  pub record ExecutionTopologyReviewTarget : Type 0 where
    pub topology_id : h.Ident
    pub topology_content_hash : String
    pub case_space_id : h.Ident
    pub observed_base_revision_id : h.Ident
    pub claim_cell_id : h.Ident
    pub artifact_id : h.Ident
    pub policy_manifest_content_hash : String
    pub compiler_version : String
    pub compiler_semantic_profile : String
    pub compiler_inputs_schema : String
    pub compiler_contract_versions_content_hash : String
    pub expansion_proposal_id : Option h.Ident

  pub record CanonicalReview : Type 0 where
    pub target_kind : NativeReviewTargetKind
    pub target_id : h.Ident
    pub action : ReviewAction
    pub outcome : h.ReviewStatus
    pub execution_topology : Option ExecutionTopologyReviewTarget

  pub record NativeOperationGate : Type 0 where
    pub actor_id : h.Ident
    pub operation : String
    pub operation_scope_id : h.Ident
    pub audience : ProjectionAudience
    pub capability_ids : List h.Ident
    pub source_boundary_id : h.Ident

  -- What reviews and evaluation take from the crates beside the host: the text of an identifier
  -- and the reading of one, its display and its order, the other review statuses, a JSON number, the
  -- decoders that serde derives, `trim`, severities and the provenance of generated findings.
  pub record Terms : Type 1 where
    pub id_text : h.Ident → String
    pub id_display : h.Ident → String
    pub parse_id : String → Option h.Ident
    pub is_valid_id : String → Bool
    pub new_id : String → h.Ident
    pub id_before : h.Ident → h.Ident → Bool
    pub is_blank : String → Bool
    pub unreviewed : h.ReviewStatus
    pub reviewed : h.ReviewStatus
    pub as_array : h.Value → Option (List h.Value)
    pub as_object : h.Value → Option h.Metadata
    pub gate_of : h.Value → Result String NativeOperationGate
    pub as_u64 : h.Value → Option ℕ
    pub target_kind_of : h.Value → Option NativeReviewTargetKind
    pub action_of : h.Value → Option ReviewAction
    pub status_of : h.Value → Option h.ReviewStatus
    pub binding_of : h.Value → Option ExecutionTopologyReviewTarget
    pub Severity : Type 0
    pub medium : Severity
    pub high : Severity
    pub generated_provenance : String → h.Provenance
