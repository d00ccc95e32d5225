-- ===== src/Examples/Reducing.antt =====
-- A morphism that adds evidence and a relation, resolves the goal and retires a relation.
use casegraphen.Prelude.{
  String, true, false, none, some, List, [], ◌∷◌, ◌++◌, ◌≡◌, ◌⊎◌, refl, Result, ok, keep,
  String-discrete,
}
use casegraphen.Trust.{evidence_is_acceptable, by_boundary}
use casegraphen.Model.{CaseCell, CaseRelation, CaseMorphism, CaseSpace, MorphismPayload}
use casegraphen.Model.Kinds.{
  CaseCellType-discrete, CaseRelationType-discrete, RelationStrength-discrete, CaseCellType,
  CaseRelationType, CaseMorphismType, is_evidence, is_evidence_attach, is_custom, is_derives_from,
}
use casegraphen.Model.Lifecycle.{
  CaseCellLifecycle, LifecycleReach, can_transition_to, is_move, CaseCellLifecycle-discrete,
}
use casegraphen.Model.Boundary.{
  native_evidence_trust_input, from_metadata_value, declared_boundary, to_trust_boundary,
}
use casegraphen.Reducer.Guards.{
  is_artifact_cell, is_capability_cell, is_minted, ids_discrete, value_option_discrete,
  require_not_capability_administration, require_artifact_cell_entered_via_attach,
  require_artifact_relation_entered_via_attach, require_untrusted_added_evidence,
  require_immutable_relation_update_fields, require_artifact_cell_unchanged,
  require_immutable_metadata, require_immutable_evidence, require_immutable_cell_update_fields,
  require_lifecycle_transition,
}
use casegraphen.Reducer.Ids.{
  materialized_ids, derive_added_ids, collect_into, collect_unique_ids,
  validate_declared_morphism_ids, validate_payload_ids, collect_payload_ids, require_matching_ids,
}
use casegraphen.Reducer.Apply.{
  apply_morphism, is_genesis_of, checked_payload, morphism_payload, add_cells, add_relations,
  update_cells, update_relations, retire_ids, require_endpoints, check_added_cell,
  check_updated_cell, check_retired_cell, is_artifact_cell_id,
}
use casegraphen.Reducer.WellFormed.{IsWellFormed, apply_morphism-IsWellFormed}
use casegraphen.Reducer.Frozen.{apply_morphism-capabilities}
use casegraphen.Reducer.Frozen.Artifacts.{apply_morphism-artifacts}
use casegraphen.Reducer.Evolution.{SameEvidence}
use casegraphen.Reducer.Evolution.Whole.{
  cell_at, cell_persists, evidence_persists, added_evidence_needs_review,
}
use casegraphen.Examples.Demo.{
  DemoStatus, accepted, demo, cell, goal, report, grant_cell, log_file, relation, morphism, start,
  DemoStatus-discrete,
}

abbrev resolved_goal : CaseCell demo
resolved_goal = record goal { lifecycle = CaseCellLifecycle.resolved }

abbrev output : CaseCell demo
output =
    cell "evidence:output" CaseCellType.evidence CaseCellLifecycle.proposed
      (("evidence_boundary", "worker_output") ∷ [])

abbrev need : CaseRelation demo
need = relation "relation:need" CaseRelationType.requires_evidence "goal:ship" "evidence:output"

abbrev decode : String → Result String (MorphismPayload demo)
decode _ = ok (record {
  added_cells = output ∷ [];
  added_relations = need ∷ [];
  updated_cells = resolved_goal ∷ [];
  updated_relations = [];
})

abbrev step : CaseMorphism demo
step =
    morphism CaseMorphismType.update ("evidence:output" ∷ "relation:need" ∷ []) ("goal:ship" ∷ [])
      ("relation:derived" ∷ [])

abbrev final : CaseSpace demo
final = record start {
  case_cells = resolved_goal ∷ report ∷ grant_cell ∷ log_file ∷ output ∷ [];
  case_relations = need ∷ [];
}

applied : apply_morphism demo decode start step ≡ ok final
unfolding apply_morphism checked_payload morphism_payload validate_declared_morphism_ids
    collect_unique_ids collect_into String-discrete validate_payload_ids collect_payload_ids
    require_matching_ids add_cells check_added_cell require_not_capability_administration is_custom
    require_untrusted_added_evidence is_genesis_of is_evidence is_minted from_metadata_value
    declared_boundary is_derives_from is_evidence_attach can_transition_to is_move add_relations
    check_retired_cell check_updated_cell is_artifact_cell_id require_endpoints retire_ids
    update_cells update_relations is_artifact_cell is_capability_cell
    require_artifact_cell_entered_via_attach require_artifact_cell_unchanged
    require_artifact_relation_entered_via_attach require_immutable_cell_update_fields
    require_immutable_evidence require_immutable_metadata require_immutable_relation_update_fields
    require_lifecycle_transition CaseCellType-discrete CaseRelationType-discrete
    RelationStrength-discrete CaseCellLifecycle-discrete ids_discrete value_option_discrete
    materialized_ids derive_added_ids DemoStatus-discrete
applied = refl

start-IsWellFormed : IsWellFormed demo start
unfolding materialized_ids String-discrete
start-IsWellFormed = record { ids_unique = refl; attached = ((refl, refl), tt) }

apply_morphism-IsWellFormed_example : IsWellFormed demo final
apply_morphism-IsWellFormed_example =
    apply_morphism-IsWellFormed demo decode start final step start-IsWellFormed applied

later : is_genesis_of demo start step ≡ false
unfolding is_genesis_of
later = refl

goal-found : cell_at demo start "goal:ship" ≡ some goal
unfolding String-discrete
goal-found = refl

cell_persists_example :
    (after : CaseCell demo) × (cell_at demo final "goal:ship" ≡ some after)
    × (goal.cell_type ≡ after.cell_type)
    × LifecycleReach goal.lifecycle after.lifecycle
cell_persists_example =
    cell_persists demo decode start final step applied "goal:ship" goal goal-found

report-found : cell_at demo start "evidence:report" ≡ some report
unfolding String-discrete
report-found = refl

report-is_evidence : is_evidence report.cell_type ≡ true
unfolding is_evidence
report-is_evidence = refl

evidence_persists_example :
    (after : CaseCell demo) × (cell_at demo final "evidence:report" ≡ some after)
    × SameEvidence demo report after
evidence_persists_example =
    evidence_persists demo decode start final step applied "evidence:report" report report-found
      report-is_evidence

output-new : cell_at demo start "evidence:output" ≡ none
unfolding String-discrete
output-new = refl

output-found : cell_at demo final "evidence:output" ≡ some output
unfolding String-discrete
output-found = refl

output-is_evidence : is_evidence output.cell_type ≡ true
unfolding is_evidence
output-is_evidence = refl

-- A review that accepts the output of a worker makes it count.
output-accepted :
    evidence_is_acceptable demo (native_evidence_trust_input demo output (some accepted)) ≡ true
unfolding evidence_is_acceptable native_evidence_trust_input to_trust_boundary from_metadata_value
    declared_boundary by_boundary String-discrete DemoStatus-discrete
output-accepted = refl

added_evidence_needs_review_example : some DemoStatus.accepted ≡ some DemoStatus.accepted
added_evidence_needs_review_example =
    added_evidence_needs_review demo decode start final step applied "evidence:output" output
      (some accepted) later output-new output-found output-is_evidence output-accepted

apply_morphism-capabilities_example :
    keep (is_capability_cell demo) final.case_cells
    ≡ keep (is_capability_cell demo) start.case_cells
apply_morphism-capabilities_example =
    apply_morphism-capabilities demo decode start final step later applied

apply_morphism-artifacts_example :
    (added : List (CaseCell demo)) × (keep (is_artifact_cell demo) final.case_cells
      ≡ keep (is_artifact_cell demo) start.case_cells ++ added)
    × ((is_evidence_attach step.morphism_type ≡ true) ⊎ (added ≡ []))
apply_morphism-artifacts_example = apply_morphism-artifacts demo decode start final step applied
