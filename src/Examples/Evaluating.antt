-- ===== src/Examples/Evaluating.antt =====
-- Reviews and evaluation at concrete inputs.
use casegraphen.Prelude.{
  String, Bool, true, false, not, ◌&&◌, ◌||◌, none, some, inl, List, [], ◌∷◌, ◌++◌, ◌≡◌, ◌↔◌, refl,
  keep, map, any, all, contains, if◌then◌else◌, unique, String-discrete,
}
use casegraphen.Model.Kinds.{is_evidence_attach, CaseRelationType-discrete, is_evidence}
use casegraphen.Model.{MorphismLogEntry, CaseCell}
use casegraphen.Review.{NativeReviewTargetKind, ReviewAction, CanonicalReview}
use casegraphen.Review.Canonical.{
  canonical_review, outcome_status, is_review, require_ids, require_texts,
}
use casegraphen.Review.Canonical.Accepted.{IsReviewOf, canonical_review_iff}
use casegraphen.Eval.{active, blocked, complete, NativeReadiness}
use casegraphen.Eval.Latest.Reviewed.{LastAbout, Accepts, untrusted_evidence-reviewed, trust_input}
use casegraphen.Eval.Coverage.{
  log_coverage, trusted_coverage_targets, canonical_evidence_coverage, entry_coverage,
  genesis_coverage, relation_coverage,
}
use casegraphen.Eval.Coverage.Attached.{log_coverage-append, is_attachment}
use casegraphen.Eval.Context.{
  readiness_subject, evidence_requirement_satisfied, NativeEvaluationContext, is_outside_work,
  is_settled, requirement_ids, complete_cell, wait_satisfied, trusted_evidence_exists,
  proof_requirement_satisfied, contradiction_relations, by_relation_id, put_relation,
  required_review_relations, review_satisfied, is_contradiction, is_review_requirement,
  is_complete_lifecycle,
}
use casegraphen.Eval.Building.{new, satisfied_requirements, collect_cells, collect_trusted}
use casegraphen.Eval.Building.Holders.{requires, satisfied_requirement_ids_lem}
use casegraphen.Eval.Cells.{
  evaluate_cells, evaluate_cell, sorted_obstructions, sort_obstructions, insert_obstruction,
  by_check, add_dependency_obstructions, add_wait_obstructions, add_evidence_obstructions,
  add_proof_obstructions, add_contradiction_obstructions, add_review_obstructions,
}
use casegraphen.Eval.Outcome.{
  is_empty, is_external_wait, cell_ids, frontier_cell_ids, merge_obstructions, progress_axis,
  readiness_result,
}
use casegraphen.Eval.Outcome.Spec.{is_obstructed}
use casegraphen.Eval.Outcome.Readiness.{any_kind, other_kind}
use casegraphen.Eval.Outcome.Classified.{
  readiness, subjects, readiness_result-ready, readiness_result-waiting,
}
use casegraphen.Eval.Outcome.Frontier.{is_completed, frontier_cell_ids_lem, texts}
use casegraphen.Eval.Outcome.Progress.{progress_axis_lem}
use casegraphen.Examples.Demo.{accepted, demo, DemoStatus-discrete}
use casegraphen.Examples.Reviewing.{terms, decode, entry, review, genesis, claim, evaluated}
use casegraphen.Trust.Laws.{IsUntrusted}
use casegraphen.Trust.{evidence_is_acceptable, by_boundary}
use casegraphen.Model.Boundary.{
  native_evidence_trust_input, declared_boundary, from_metadata_value, to_trust_boundary,
}
use casegraphen.Eval.Latest.{
  latest_evidence_review_status, latest_evidence_review_statuses, latest_evidence_review_entries,
  collect_entries, reviewed_evidence, evidence_review_status,
}
use casegraphen.Resource.Maps.{upsert, set_insert}
use casegraphen.Eval.Obstructions.{
  push_unsatisfied, push_obstruction, obstruction, generated_id, sanitize, obstruction_type_stem,
}
use casegraphen.Eval.Graph.{
  from_case_space, index_relations, relations_from, relations_to, direct_targets, id_set, insert_id,
  is_hard, is_completion,
}
use casegraphen.Reducer.Apply.{morphism_payload}

abbrev accepted_claim : CanonicalReview demo
accepted_claim = record {
  target_kind = NativeReviewTargetKind.evidence;
  target_id = "evidence:claim";
  action = ReviewAction.accept;
  outcome = accepted;
  execution_topology = none;
}

review_reads : canonical_review demo terms review ≡ some accepted_claim
unfolding canonical_review is_review require_ids require_texts outcome_status DemoStatus-discrete
review_reads = refl

canonical_review_iff_example :
    (canonical_review demo terms review ≡ some accepted_claim)
    ↔ IsReviewOf demo terms review accepted_claim
canonical_review_iff_example = canonical_review_iff demo terms review accepted_claim

-- No review is read where the metadata are empty.
untargeted : canonical_review demo terms (record review { metadata = [] }) ≡ none
unfolding canonical_review is_review DemoStatus-discrete
untargeted = refl

abbrev context : NativeEvaluationContext demo terms
context = new demo terms decode evaluated

abbrev report_of : NativeReadiness demo terms
report_of = readiness demo terms decode evaluated

abbrev subjects_with : (CaseCell demo → Bool) → List (CaseCell demo)
subjects_with p = subjects demo terms decode evaluated p

readiness_result-ready_example :
    (report_of.ready_cell_ids
      ≡ cell_ids demo terms
          (subjects_with (λ c. not (is_obstructed demo terms context any_kind c))))
    × (report_of.blocked_cell_ids
        ≡ cell_ids demo terms (subjects_with (is_obstructed demo terms context any_kind)))
readiness_result-ready_example = readiness_result-ready demo terms decode evaluated

readiness_result-waiting_example :
    report_of.waiting_cell_ids
    ≡ cell_ids demo terms (
        subjects_with (λ c.
          is_obstructed demo terms context is_external_wait c
          && not (is_obstructed demo terms context other_kind c)))
readiness_result-waiting_example = readiness_result-waiting demo terms decode evaluated

distinct : unique String-discrete (texts demo terms evaluated.case_cells) ≡ true
unfolding String-discrete
distinct = refl

frontier_cell_ids_lem_example :
    frontier_cell_ids demo terms report_of context
    ≡ cell_ids demo terms (
        subjects_with (λ c.
          not (is_obstructed demo terms context any_kind c)
          && not (is_completed demo terms decode evaluated c)))
frontier_cell_ids_lem_example = frontier_cell_ids_lem demo terms decode evaluated distinct

progress_axis_lem_example :
    progress_axis demo terms evaluated report_of
      (merge_obstructions demo terms (evaluate_cells demo terms context))
    ≡ (if any
          (is_obstructed demo terms context any_kind)
          (keep (readiness_subject demo terms) evaluated.case_cells)
        then blocked
        else if not (is_empty evaluated.case_cells)
            && is_empty (keep (readiness_subject demo terms) evaluated.case_cells)
        then complete
        else active)
progress_axis_lem_example = progress_axis_lem demo terms decode evaluated

satisfied_requirement_ids_lem_example :
    (context.satisfied_requirement_ids
      ≡ map terms.id_display (satisfied_requirements demo terms context))
    × ((r : String)
        → contains String-discrete (satisfied_requirements demo terms context) r ≡ (
            any
              (requires demo terms evaluated r)
              (keep (readiness_subject demo terms) evaluated.case_cells)
            && all
                (λ c.
                  not (requires demo terms evaluated r c)
                  || evidence_requirement_satisfied demo terms context c.id r)
                (keep (readiness_subject demo terms) evaluated.case_cells)))
satisfied_requirement_ids_lem_example = satisfied_requirement_ids_lem demo terms decode evaluated

unattached : any (is_attachment demo terms decode) (entry review ∷ []) ≡ false
unfolding is_evidence_attach
unattached = refl

claim-IsUntrusted : IsUntrusted demo (trust_input demo terms evaluated claim).boundary
unfolding native_evidence_trust_input declared_boundary from_metadata_value to_trust_boundary
claim-IsUntrusted = inl refl

claim_counts : evidence_is_acceptable demo (trust_input demo terms evaluated claim) ≡ true
unfolding evidence_is_acceptable by_boundary native_evidence_trust_input declared_boundary
    from_metadata_value to_trust_boundary latest_evidence_review_status
    latest_evidence_review_statuses latest_evidence_review_entries collect_entries reviewed_evidence
    upsert evidence_review_status canonical_review is_review require_ids require_texts
    outcome_status DemoStatus-discrete
claim_counts = refl

log_coverage-append_example :
    log_coverage demo terms decode true (genesis ∷ [] ++ entry review ∷ [])
    ≡ log_coverage demo terms decode true (genesis ∷ [])
log_coverage-append_example =
    log_coverage-append demo terms decode genesis [] (entry review ∷ []) unattached

untrusted_evidence-reviewed_example :
    (e : MorphismLogEntry demo) × LastAbout demo terms "evidence:claim" evaluated.morphism_log e
    × Accepts demo terms "evidence:claim" e
untrusted_evidence-reviewed_example =
    untrusted_evidence-reviewed demo terms evaluated claim claim-IsUntrusted claim_counts

-- The goal's wait and evidence are covered by the accepted claim; the step waits for an unknown cell.
step_waits : report_of.waiting_cell_ids ≡ "work:step" ∷ []
unfolding readiness_result evaluate_cells evaluate_cell readiness_subject is_outside_work is_settled
    sorted_obstructions sort_obstructions insert_obstruction by_check add_dependency_obstructions
    add_wait_obstructions add_evidence_obstructions add_proof_obstructions
    add_contradiction_obstructions add_review_obstructions push_unsatisfied push_obstruction
    obstruction generated_id sanitize obstruction_type_stem new collect_cells collect_trusted
    from_case_space index_relations relations_from relations_to direct_targets id_set insert_id
    is_hard is_completion CaseRelationType-discrete requirement_ids complete_cell wait_satisfied
    trusted_evidence_exists evidence_requirement_satisfied proof_requirement_satisfied
    contradiction_relations by_relation_id put_relation required_review_relations review_satisfied
    is_contradiction is_review_requirement is_complete_lifecycle is_evidence
    trusted_coverage_targets canonical_evidence_coverage log_coverage entry_coverage upsert
    set_insert String-discrete evidence_is_acceptable by_boundary native_evidence_trust_input
    declared_boundary from_metadata_value to_trust_boundary latest_evidence_review_statuses
    latest_evidence_review_entries collect_entries reviewed_evidence evidence_review_status
    canonical_review is_review require_ids require_texts outcome_status DemoStatus-discrete
    morphism_payload genesis_coverage relation_coverage is_evidence_attach
step_waits = refl
