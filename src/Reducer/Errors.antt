-- ===== src/Reducer/Errors.antt =====
-- src/native_model.rs: `MorphismApplyError`. Its reason is a formatted text; a constructor stands
-- for each message, with the values that the message names.
use casegraphen.Prelude.{String, Option, List, Result}
use casegraphen.Host.{Host}
use casegraphen.Model.Kinds.{CaseCellType}
use casegraphen.Model.Lifecycle.{CaseCellLifecycle}

-- Each begins with the identifier of the morphism.
pub data MorphismApplyError (h : Host) : Type 0 where
  malformed_payload : h.Ident → String → MorphismApplyError h
  duplicate_in_list : h.Ident → h.Ident → String → MorphismApplyError h
  duplicate_across_lists : h.Ident → h.Ident → MorphismApplyError h
  duplicate_in_payload : h.Ident → h.Ident → String → MorphismApplyError h
  ids_do_not_match : h.Ident → String → List h.Ident → String → List h.Ident → MorphismApplyError h
  cell_exists relation_exists : h.Ident → h.Ident → MorphismApplyError h
  cell_missing relation_missing retired_missing : h.Ident → h.Ident → MorphismApplyError h
  capability_administration : h.Ident → String → h.Ident → MorphismApplyError h
  artifact_cell_not_attached : h.Ident → h.Ident → MorphismApplyError h
  artifact_relation_not_attached : h.Ident → h.Ident → h.Ident → MorphismApplyError h
  trusted_evidence : h.Ident → h.Ident → Option String → MorphismApplyError h
  relation_field_immutable : h.Ident → h.Ident → String → MorphismApplyError h
  artifact_immutable : h.Ident → String → h.Ident → MorphismApplyError h
  cell_type_immutable : h.Ident → h.Ident → CaseCellType → CaseCellType → MorphismApplyError h
  provenance_immutable structure_ids_immutable : h.Ident → h.Ident → MorphismApplyError h
  metadata_immutable : h.Ident → h.Ident → String → MorphismApplyError h
  lifecycle_transition :
      h.Ident → h.Ident → CaseCellLifecycle → CaseCellLifecycle → MorphismApplyError h
  missing_endpoint : h.Ident → h.Ident → String → h.Ident → MorphismApplyError h

-- What an operation of the reducer returns.
abbrev pub Applied : Host → Type 0 → Type 0
Applied h A = Result (MorphismApplyError h) A
