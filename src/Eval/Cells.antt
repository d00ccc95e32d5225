-- ===== src/Eval/Cells.antt =====
-- src/native_eval.rs: the evaluation of the cells, one by one.
pub mod Counted
use casegraphen.Prelude.{
  String, Bool, true, false, not, ◌&&◌, ◌||◌, List, [], ◌∷◌, ◌++◌, keep, map, if◌then◌else◌,
}
use casegraphen.Host.{Host}
use casegraphen.Model.{CaseCell, CaseRelation}
use casegraphen.Model.Kinds.{CaseRelationType}
use casegraphen.Model.Lifecycle.{CaseCellLifecycle}
use casegraphen.Review.{Terms}
use casegraphen.Eval.{
  ReadinessCheck, lifecycle, dependencies, waits, evidence, proof, contradictions, reviews,
  NativeObstruction, NativeReadinessRuleResult,
}
use casegraphen.Eval.Context.{
  NativeEvaluationContext, readiness_subject, requirement_ids, complete_cell, wait_satisfied,
  evidence_requirement_satisfied, proof_requirement_satisfied, review_satisfied,
  required_review_relations, contradiction_relations, text_before,
}
use casegraphen.Eval.Obstructions.{
  generated_id, ByCheck, push_obstruction, values, push_unsatisfied, default_rule_text,
  dependency_obstruction, wait_obstruction, evidence_obstruction, proof_obstruction,
  contradiction_obstruction, review_obstruction,
}

module _ (h : Host) (t : Terms h) where
  pub record CellEvaluation : Type 0 where
    pub cell_id : h.Ident
    pub lifecycle : CaseCellLifecycle
    pub hard_dependency_ids : List h.Ident
    pub wait_ids : List h.Ident
    pub evidence_requirement_ids : List h.Ident
    pub proof_requirement_ids : List h.Ident
    pub obstructions : List (NativeObstruction h t)
    pub rule_results : List (NativeReadinessRuleResult h t)

  abbrev pub push_contradictions : CaseCell h → List (CaseRelation h) → ByCheck h t → ByCheck h t
  push_contradictions cell [] by_check = by_check
  push_contradictions cell (r ∷ relations) by_check =
      push_contradictions cell relations
        (push_obstruction h t by_check contradictions (contradiction_obstruction h t cell r))

  abbrev pub targets_of : List (CaseRelation h) → List h.Ident
  targets_of [] = []
  targets_of (r ∷ relations) = r.to_id ∷ targets_of relations

  module _ (context : NativeEvaluationContext h t) (cell : CaseCell h) where
    unfoldable pub add_dependency_obstructions : List h.Ident → ByCheck h t → ByCheck h t
    add_dependency_obstructions dependency_ids =
        push_unsatisfied h t (complete_cell h t context) dependencies
          (dependency_obstruction h t cell) dependency_ids

    unfoldable pub add_wait_obstructions : List h.Ident → ByCheck h t → ByCheck h t
    add_wait_obstructions wait_ids =
        push_unsatisfied h t (wait_satisfied h t context) waits (wait_obstruction h t cell) wait_ids

    unfoldable pub add_evidence_obstructions : List h.Ident → ByCheck h t → ByCheck h t
    add_evidence_obstructions requirement_ids =
        push_unsatisfied h t (evidence_requirement_satisfied h t context cell.id) evidence
          (evidence_obstruction h t cell) requirement_ids

    unfoldable pub add_proof_obstructions : List h.Ident → ByCheck h t → ByCheck h t
    add_proof_obstructions proof_ids =
        push_unsatisfied h t (proof_requirement_satisfied h t context cell.id) proof
          (proof_obstruction h t cell) proof_ids

    unfoldable pub add_contradiction_obstructions : ByCheck h t → ByCheck h t
    add_contradiction_obstructions =
        push_contradictions cell (contradiction_relations h t context cell.id)

    unfoldable pub add_review_obstructions : ByCheck h t → ByCheck h t
    add_review_obstructions =
        push_unsatisfied h t (review_satisfied h t context) reviews (review_obstruction h t cell)
          (targets_of (required_review_relations h t context cell.id))

    unfoldable pub by_check : ByCheck h t
    by_check = add_review_obstructions (
        add_contradiction_obstructions (
          add_proof_obstructions (requirement_ids h t context cell CaseRelationType.requires_proof)
            (add_evidence_obstructions
              (requirement_ids h t context cell CaseRelationType.requires_evidence)
              (add_wait_obstructions (requirement_ids h t context cell CaseRelationType.waits_for) (
                add_dependency_obstructions
                  (requirement_ids h t context cell CaseRelationType.depends_on) [])))))

  -- A stable sort by identifier.
  unfoldable pub insert_obstruction :
      NativeObstruction h t → List (NativeObstruction h t) → List (NativeObstruction h t)
  insert_obstruction o [] = o ∷ []
  insert_obstruction o (other ∷ obstructions) =
      let rest = insert_obstruction o obstructions in
      if t.id_before other.id o.id then other ∷ rest else o ∷ other ∷ obstructions

  unfoldable pub sort_obstructions : List (NativeObstruction h t) → List (NativeObstruction h t)
  sort_obstructions [] = []
  sort_obstructions (o ∷ obstructions) = insert_obstruction o (sort_obstructions obstructions)

  unfoldable pub sorted_obstructions : ByCheck h t → List (NativeObstruction h t)
  sorted_obstructions by_check = sort_obstructions (values h t by_check)

  abbrev pub obstruction_ids : List (NativeObstruction h t) → List h.Ident
  obstruction_ids [] = []
  obstruction_ids (o ∷ obstructions) = o.id ∷ obstruction_ids obstructions

  abbrev is_empty : List h.Ident → Bool
  is_empty [] = true
  is_empty (_ ∷ _) = false

  unfoldable pub rule_result :
      CaseCell h → ReadinessCheck → List (NativeObstruction h t) → NativeReadinessRuleResult h t
  rule_result cell check records = record {
    id =
        generated_id h t "readiness_result"
          (t.id_text cell.id ∷ t.id_text (t.new_id (default_rule_text check)) ∷ []);
    rule_id = t.new_id (default_rule_text check);
    target_cell_id = cell.id;
    ready = is_empty (obstruction_ids records);
    obstruction_ids = obstruction_ids records;
  }

  abbrev rule_results : CaseCell h → ByCheck h t → List (NativeReadinessRuleResult h t)
  rule_results cell [] = []
  rule_results cell ((check, records) ∷ by_check) =
      rule_result cell check records ∷ rule_results cell by_check

  unfoldable pub rule_results_for : CaseCell h → ByCheck h t → List (NativeReadinessRuleResult h t)
  rule_results_for cell [] = rule_result cell lifecycle [] ∷ []
  rule_results_for cell (entry ∷ by_check) = rule_results cell (entry ∷ by_check)

  unfoldable pub evaluate_cell : NativeEvaluationContext h t → CaseCell h → CellEvaluation
  evaluate_cell context cell = record {
    cell_id = cell.id;
    lifecycle = cell.lifecycle;
    hard_dependency_ids = requirement_ids h t context cell CaseRelationType.depends_on;
    wait_ids = requirement_ids h t context cell CaseRelationType.waits_for;
    evidence_requirement_ids = requirement_ids h t context cell CaseRelationType.requires_evidence;
    proof_requirement_ids = requirement_ids h t context cell CaseRelationType.requires_proof;
    obstructions = sorted_obstructions (by_check context cell);
    rule_results = rule_results_for cell (by_check context cell);
  }

  unfoldable pub evaluate_cells : NativeEvaluationContext h t → List CellEvaluation
  evaluate_cells context =
      map (evaluate_cell context) (keep (readiness_subject h t) context.case_space.case_cells)
