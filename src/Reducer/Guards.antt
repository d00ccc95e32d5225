-- ===== src/Reducer/Guards.antt =====
-- src/native_model.rs: the rules that each change of a morphism has to pass.
use casegraphen.Prelude.{
  String, Bool, true, false, not, ◌||◌, Option, List, [], ◌∷◌, ok, require, ◌>>◌, if◌then◌else◌,
  same,
}
use casegraphen.Host.{Host}
use casegraphen.Model.{CaseCell, CaseRelation, CaseMorphism}
use casegraphen.Model.Kinds.{
  is_custom, is_evidence, is_derives_from, is_evidence_attach, CaseCellType-discrete,
  CaseRelationType-discrete, RelationStrength-discrete,
}
use casegraphen.Model.Lifecycle.{CaseCellLifecycle, can_transition_to}
use casegraphen.Model.Boundary.{
  EvidenceBoundary, inferred, worker_output, from_metadata_value, declared_boundary,
}
use casegraphen.Reducer.Errors.{
  Applied, capability_administration, artifact_cell_not_attached, artifact_relation_not_attached,
  trusted_evidence, relation_field_immutable, artifact_immutable, cell_type_immutable,
  provenance_immutable, structure_ids_immutable, metadata_immutable, lifecycle_transition,
}

-- The boundaries that the tool mints after genesis.
unfoldable pub is_minted : EvidenceBoundary → Bool
is_minted inferred = true
is_minted worker_output = true
is_minted _ = false

-- The metadata of an evidence cell that an update leaves alone.
abbrev pub immutable_keys : List String
immutable_keys =
    "evidence_boundary" ∷ "content_hash" ∷ "trace_id" ∷ "worker_report_id" ∷ "output_incomplete"
    ∷ "output_truncated" ∷ []

unfoldable pub ids_discrete : (h : Host) → Discrete (List h.Ident)
ids_discrete h = hlevel h.id_discrete

unfoldable pub value_option_discrete : (h : Host) → Discrete (Option h.Value)
value_option_discrete h = hlevel h.value_discrete

module _ (h : Host) where
  unfoldable pub is_artifact_cell : CaseCell h → Bool
  is_artifact_cell cell = is_custom "artifact" cell.cell_type

  unfoldable pub is_capability_cell : CaseCell h → Bool
  is_capability_cell cell = is_custom "capability" cell.cell_type

  unfoldable pub require_not_capability_administration :
      CaseMorphism h → CaseCell h → String → Bool → Applied h Unit
  unfolding is_capability_cell
  require_not_capability_administration m cell operation is_genesis =
      require (not (is_capability_cell cell) || is_genesis)
        (capability_administration m.morphism_id operation cell.id)

  unfoldable pub require_artifact_cell_entered_via_attach :
      CaseMorphism h → CaseCell h → Applied h Unit
  require_artifact_cell_entered_via_attach m cell =
      require (not (is_artifact_cell cell) || is_evidence_attach m.morphism_type)
        (artifact_cell_not_attached m.morphism_id cell.id)

  unfoldable pub require_artifact_relation_entered_via_attach :
      CaseMorphism h → CaseRelation h → Bool → Applied h Unit
  require_artifact_relation_entered_via_attach m relation to_cell_is_artifact =
      require
        (not (is_derives_from relation.relation_type)
          || not to_cell_is_artifact
          || is_evidence_attach m.morphism_type)
        (artifact_relation_not_attached m.morphism_id relation.id relation.to_id)

  unfoldable pub require_untrusted_added_evidence :
      CaseMorphism h → CaseCell h → Bool → Applied h Unit
  require_untrusted_added_evidence m cell is_genesis =
      if is_genesis || not (is_evidence cell.cell_type)
      then ok tt
      else require (is_minted (from_metadata_value (declared_boundary h cell)))
          (trusted_evidence m.morphism_id cell.id (declared_boundary h cell))

  unfoldable pub require_immutable_relation_update_fields :
      CaseMorphism h → CaseRelation h → CaseRelation h → Applied h Unit
  require_immutable_relation_update_fields m existing updated = do
    require (same CaseRelationType-discrete existing.relation_type updated.relation_type)
        (relation_field_immutable m.morphism_id existing.id "relation_type")
    require (same h.id_discrete existing.from_id updated.from_id)
        (relation_field_immutable m.morphism_id existing.id "from_id")
    require (same h.id_discrete existing.to_id updated.to_id)
        (relation_field_immutable m.morphism_id existing.id "to_id")
    require (same RelationStrength-discrete existing.relation_strength updated.relation_strength)
        (relation_field_immutable m.morphism_id existing.id "relation_strength")

  unfoldable pub require_artifact_cell_unchanged :
      CaseMorphism h → CaseCell h → String → Applied h Unit
  require_artifact_cell_unchanged m cell operation =
      require (not (is_artifact_cell cell)) (artifact_immutable m.morphism_id operation cell.id)

  -- The loop over the keys.
  unfoldable pub require_immutable_metadata :
      CaseMorphism h → CaseCell h → CaseCell h → List String → Applied h Unit
  require_immutable_metadata m existing updated [] = ok tt
  require_immutable_metadata m existing updated (key ∷ keys) = do
    require
        (same (value_option_discrete h) (h.get existing.metadata key) (h.get updated.metadata key))
        (metadata_immutable m.morphism_id existing.id key)
    require_immutable_metadata m existing updated keys

  -- The fields of an evidence cell that an update leaves alone.
  unfoldable pub require_immutable_evidence :
      CaseMorphism h → CaseCell h → CaseCell h → Applied h Unit
  require_immutable_evidence m existing updated = do
    require (same h.provenance_discrete existing.provenance updated.provenance)
        (provenance_immutable m.morphism_id existing.id)
    require (same (ids_discrete h) existing.structure_ids updated.structure_ids)
        (structure_ids_immutable m.morphism_id existing.id)
    require_immutable_metadata m existing updated immutable_keys

  unfoldable pub require_immutable_cell_update_fields :
      CaseMorphism h → CaseCell h → CaseCell h → Applied h Unit
  require_immutable_cell_update_fields m existing updated = do
    require (same CaseCellType-discrete existing.cell_type updated.cell_type)
        (cell_type_immutable m.morphism_id existing.id existing.cell_type updated.cell_type)
    require_artifact_cell_unchanged m existing "update"
    (if is_evidence existing.cell_type
        then require_immutable_evidence m existing updated
        else ok tt)

  unfoldable pub require_lifecycle_transition :
      CaseMorphism h → h.Ident → CaseCellLifecycle → CaseCellLifecycle → Applied h Unit
  require_lifecycle_transition m cell_id source target =
      require (can_transition_to source target)
        (lifecycle_transition m.morphism_id cell_id source target)
