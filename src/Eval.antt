-- ===== src/Eval.antt =====
-- src/native_eval/types.rs: what an evaluation of a case space reports.
pub mod Latest
pub mod Coverage
pub mod Graph
pub mod Context
pub mod Building
pub mod Obstructions
pub mod Cells
pub mod Outcome
pub mod Validation
use casegraphen.Prelude.{String, Bool, List}
use casegraphen.Host.{Host}
use casegraphen.Model.Lifecycle.{CaseCellLifecycle}
use casegraphen.Review.{Terms}

pub data NativeProgress : Type 0 where
  active blocked complete : NativeProgress

pub data NativeObstructionType : Type 0 where
  unresolved_dependency external_wait missing_evidence : NativeObstructionType
  missing_proof contradiction review_required : NativeObstructionType

pub data ReadinessCheck : Type 0 where
  lifecycle dependencies waits evidence proof contradictions reviews : ReadinessCheck

module _ (h : Host) (t : Terms h) where
  pub record NativeObstruction : Type 0 where
    pub id : h.Ident
    pub obstruction_type : NativeObstructionType
    pub affected_ids : List h.Ident
    pub source_constraint_id : h.Ident
    pub witness_ids : List h.Ident
    pub explanation : String
    pub severity : t.Severity
    pub required_resolution : String
    pub blocking : Bool
    pub provenance : h.Provenance

  pub record NativeReadinessRuleResult : Type 0 where
    pub id : h.Ident
    pub rule_id : h.Ident
    pub target_cell_id : h.Ident
    pub ready : Bool
    pub obstruction_ids : List h.Ident

  pub record NativeNotReadyCell : Type 0 where
    pub cell_id : h.Ident
    pub lifecycle : CaseCellLifecycle
    pub hard_dependency_ids : List h.Ident
    pub wait_ids : List h.Ident
    pub evidence_requirement_ids : List h.Ident
    pub proof_requirement_ids : List h.Ident
    pub obstruction_ids : List h.Ident

  pub record NativeReadiness : Type 0 where
    pub evaluated_cell_ids : List h.Ident
    pub ready_cell_ids : List h.Ident
    pub not_ready_cells : List NativeNotReadyCell
    pub waiting_cell_ids : List h.Ident
    pub blocked_cell_ids : List h.Ident
    pub rule_results : List NativeReadinessRuleResult
