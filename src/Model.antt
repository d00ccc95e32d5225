-- ===== src/Model.antt =====
-- src/native_model.rs: the data of a case space.
pub mod Lifecycle
pub mod Boundary
pub mod Kinds
pub mod Names
use casegraphen.Prelude.{ℕ, String, Option, List}
use casegraphen.Host.{Host}
use Kinds.{CaseCellType, CaseRelationType, CaseMorphismType, RelationStrength}
use Lifecycle.{CaseCellLifecycle}

pub data ProjectionAudience : Type 0 where
  human_review ai_agent audit system migration : ProjectionAudience

pub data ProjectionWarning : Type 0 where
  hidden_blocker hidden_unreviewed_inference : ProjectionWarning
  hidden_close_invariant_failure information_loss : ProjectionWarning

module _ (h : Host) where
  open h use {Ident, ReviewStatus, Provenance, Metadata}

  pub record CaseCell : Type 0 where
    pub id : Ident
    pub cell_type : CaseCellType
    pub space_id : Ident
    pub title : String
    pub summary : Option String
    pub lifecycle : CaseCellLifecycle
    pub source_ids : List Ident
    pub structure_ids : List Ident
    pub provenance : Provenance
    pub metadata : Metadata

  pub record CaseRelation : Type 0 where
    pub id : Ident
    pub relation_type : CaseRelationType
    pub relation_strength : RelationStrength
    pub from_id : Ident
    pub to_id : Ident
    pub evidence_ids : List Ident
    pub source_ids : List Ident
    pub provenance : Provenance
    pub metadata : Metadata

  pub record CaseMorphism : Type 0 where
    pub morphism_id : Ident
    pub morphism_type : CaseMorphismType
    pub source_revision_id : Option Ident
    pub target_revision_id : Ident
    pub added_ids : List Ident
    pub updated_ids : List Ident
    pub retired_ids : List Ident
    pub preserved_ids : List Ident
    pub violated_invariant_ids : List Ident
    pub review_status : ReviewStatus
    pub evidence_ids : List Ident
    pub source_ids : List Ident
    pub metadata : Metadata

  pub record MorphismPayload : Type 0 where
    pub added_cells : List CaseCell
    pub added_relations : List CaseRelation
    pub updated_cells : List CaseCell
    pub updated_relations : List CaseRelation

  pub record MorphismLogEntry : Type 0 where
    pub schema : String
    pub schema_version : ℕ
    pub case_space_id : Ident
    pub sequence : ℕ
    pub entry_id : Ident
    pub morphism_id : Ident
    pub source_revision_id : Option Ident
    pub target_revision_id : Ident
    pub morphism : CaseMorphism
    pub actor_id : Ident
    pub recorded_at : String
    pub provenance : Provenance
    pub source_ids : List Ident
    pub previous_entry_hash : Option String
    pub replay_checksum : String

  pub record Revision : Type 0 where
    pub revision_id : Ident
    pub case_space_id : Ident
    pub applied_entry_ids : List Ident
    pub applied_morphism_ids : List Ident
    pub checksum : String
    pub parent_revision_id : Option Ident
    pub created_at : String
    pub source_ids : List Ident
    pub metadata : Metadata

  pub record ProjectionLoss : Type 0 where
    pub description : String
    pub represented_ids : List Ident
    pub omitted_ids : List Ident

  pub record Projection : Type 0 where
    pub projection_id : Ident
    pub audience : ProjectionAudience
    pub revision_id : Ident
    pub represented_cell_ids : List Ident
    pub represented_relation_ids : List Ident
    pub omitted_cell_ids : List Ident
    pub omitted_relation_ids : List Ident
    pub information_loss : List ProjectionLoss
    pub allowed_operations : List String
    pub source_ids : List Ident
    pub warnings : List ProjectionWarning
    pub metadata : Metadata

  pub record CaseSpace : Type 0 where
    pub schema : String
    pub schema_version : ℕ
    pub case_space_id : Ident
    pub space_id : Ident
    pub case_cells : List CaseCell
    pub case_relations : List CaseRelation
    pub morphism_log : List MorphismLogEntry
    pub projections : List Projection
    pub revision : Revision
    pub close_policy_id : Option Ident
    pub metadata : Metadata
