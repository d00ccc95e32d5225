-- ===== src/Model/Kinds.antt =====
-- src/native_model.rs: the types of cells, relations and morphisms, open to extension by
-- `Custom(String)`.
use casegraphen.Prelude.{String, Bool, true, false, str_eq, String-discrete}

pub data CaseCellType : Type 0 where
  kase scenario goal work decision event evidence proof review obstruction : CaseCellType
  completion projection revision morphism external_ref : CaseCellType
  custom : String → CaseCellType

pub data CaseRelationType : Type 0 where
  depends_on waits_for requires_evidence requires_proof : CaseRelationType
  satisfies_evidence_requirement verifies covers exercises blocks unblocks : CaseRelationType
  contradicts invalidates completes derives_from refines projects_to : CaseRelationType
  transitions_to corresponds_to accepts rejects supersedes : CaseRelationType
  custom : String → CaseRelationType

pub data CaseMorphismType : Type 0 where
  create update retire relate unrelate review evidence_attach : CaseMorphismType
  completion_accept completion_reject projection migration close : CaseMorphismType
  custom : String → CaseMorphismType

pub data RelationStrength : Type 0 where
  hard soft diagnostic : RelationStrength

unfoldable pub CaseCellType-discrete : Discrete CaseCellType
CaseCellType-discrete = hlevel String-discrete

unfoldable pub CaseRelationType-discrete : Discrete CaseRelationType
CaseRelationType-discrete = hlevel String-discrete

unfoldable pub RelationStrength-discrete : Discrete RelationStrength
RelationStrength-discrete = hlevel

-- `cell_type == CaseCellType::Custom(name.to_owned())`
unfoldable pub is_custom : String → CaseCellType → Bool
is_custom name (CaseCellType.custom extension) = str_eq extension name
is_custom name _ = false

-- `cell_type == CaseCellType::Evidence`
unfoldable pub is_evidence : CaseCellType → Bool
is_evidence CaseCellType.evidence = true
is_evidence _ = false

-- `relation_type == CaseRelationType::DerivesFrom`
unfoldable pub is_derives_from : CaseRelationType → Bool
is_derives_from CaseRelationType.derives_from = true
is_derives_from _ = false

-- `morphism_type == CaseMorphismType::EvidenceAttach`
unfoldable pub is_evidence_attach : CaseMorphismType → Bool
is_evidence_attach CaseMorphismType.evidence_attach = true
is_evidence_attach _ = false
