-- ===== src/Examples/Validating.antt =====
-- The evaluator's validation at concrete inputs.
use casegraphen.Prelude.{
  true, not, ◌&&◌, none, some, [], ◌∷◌, ◌≡◌, refl, ok, unique, String-discrete,
}
use casegraphen.Model.{MorphismLogEntry, CaseSpace}
use casegraphen.Model.Kinds.{CaseMorphismType}
use casegraphen.Reducer.Ids.{materialized_ids}
use casegraphen.Review.{Terms}
use casegraphen.Eval.Building.{new}
use casegraphen.Eval.Outcome.{cell_ids, frontier_cell_ids}
use casegraphen.Eval.Outcome.Spec.{is_obstructed}
use casegraphen.Eval.Outcome.Readiness.{any_kind}
use casegraphen.Eval.Outcome.Classified.{readiness, subjects}
use casegraphen.Eval.Outcome.Frontier.{is_completed}
use casegraphen.Eval.Validation.{
  boundary_fields, validate_schema, validate_source_boundary, validate_cell, insert_cells,
  insert_relations, insert_projections, insert_entries, collect_declared_ids, require_ids,
  validate_relation_references, validate_projection_references, is_lift_like,
}
use casegraphen.Eval.Validation.Log.{
  validate_log_entry_contract, validate_lift_morphism_metadata, validate_morphism_contract,
  validate_entries, validate_materialized_revision, validate_morphism_log, violations,
  validate_native_case_space,
}
use casegraphen.Eval.Validation.Unique.{validate_native_case_space-unique}
use casegraphen.Eval.Validation.Valid.{validate_native_case_space-frontier}
use casegraphen.Examples.Demo.{demo, morphism, start}
use casegraphen.Examples.Reviewing.{terms, decode, entry}

-- Every boundary is declared in full.
abbrev full_terms : Terms demo
full_terms = record terms {
  as_object = λ id. some (
      ("id", id)
      ∷ ("included_sources", id)
      ∷ ("adapters", id)
      ∷ ("accepted_fact_policy", id)
      ∷ ("inference_policy", id)
      ∷ ("information_loss", id)
      ∷ []);
}

abbrev lifted : MorphismLogEntry demo
lifted = entry (record (morphism CaseMorphismType.create [] [] []) {
  morphism_id = "morphism:lift";
  source_revision_id = none;
  target_revision_id = "revision:1";
  metadata = ("lift_semantics", "facts") ∷ ("source_boundary", "boundary:demo") ∷ [];
})

abbrev valid : CaseSpace demo
valid = record start {
  morphism_log = lifted ∷ [];
  metadata = ("source_boundary", "boundary:demo") ∷ [];
}

passes : validate_native_case_space demo full_terms valid ≡ ok tt
unfolding validate_native_case_space violations validate_schema validate_source_boundary
    boundary_fields validate_cell insert_cells insert_relations insert_projections insert_entries
    collect_declared_ids require_ids validate_relation_references validate_projection_references
    is_lift_like validate_log_entry_contract validate_lift_morphism_metadata
    validate_morphism_contract validate_entries validate_materialized_revision validate_morphism_log
    String-discrete
passes = refl

validate_native_case_space-unique_example :
    unique String-discrete (materialized_ids demo valid) ≡ true
validate_native_case_space-unique_example =
    validate_native_case_space-unique demo full_terms valid passes

validate_native_case_space-frontier_example :
    frontier_cell_ids demo full_terms
      (readiness demo full_terms decode valid)
      (new demo full_terms decode valid)
    ≡ cell_ids demo full_terms (
        subjects demo full_terms decode valid (λ c.
          not (is_obstructed demo full_terms (new demo full_terms decode valid) any_kind c)
          && not (is_completed demo full_terms decode valid c)))
validate_native_case_space-frontier_example =
    validate_native_case_space-frontier demo full_terms (λ _ _ e. e) decode valid passes
