-- ===== src/Eval/Outcome.antt =====
-- src/native_eval.rs: what the evaluation of the cells amounts to: readiness, the frontier, the
-- obstructions of the case space and its progress.
pub mod Spec
pub mod Loops
pub mod Blockers
pub mod Readiness
pub mod Classified
pub mod Frontier
pub mod Progress
use casegraphen.Prelude.{
  Bool, true, false, not, ◌&&◌, Option, none, some, List, [], ◌∷◌, ◌++◌, all, any, keep, map,
  contains, same, if◌then◌else◌,
}
use casegraphen.Host.{Host}
use casegraphen.Model.{CaseCell, CaseSpace}
use casegraphen.Resource.Maps.{get}
use casegraphen.Review.{Terms}
use casegraphen.Eval.{
  NativeProgress, active, blocked, complete, NativeObstructionType, external_wait,
  NativeObstruction, NativeReadinessRuleResult, NativeNotReadyCell, NativeReadiness,
}
use casegraphen.Eval.Context.{NativeEvaluationContext, readiness_subject, is_settled}
use casegraphen.Eval.Cells.{CellEvaluation, obstruction_ids}

abbrev pub is_external_wait : NativeObstructionType → Bool
is_external_wait external_wait = true
is_external_wait _ = false

abbrev pub is_empty {ℓ} : {A : Type ℓ} → List A → Bool
is_empty [] = true
is_empty (_ ∷ _) = false

module _ (h : Host) (t : Terms h) where
  abbrev pub is_blocking : NativeObstruction h t → Bool
  is_blocking o = o.blocking

  abbrev pub cell_ids : List (CaseCell h) → List h.Ident
  cell_ids [] = []
  cell_ids (cell ∷ cells) = cell.id ∷ cell_ids cells

  abbrev pub result_ids : List (CellEvaluation h t) → List h.Ident
  result_ids [] = []
  result_ids (result ∷ results) = result.cell_id ∷ result_ids results

  abbrev pub not_ready_ids : List (NativeNotReadyCell h t) → List h.Ident
  not_ready_ids [] = []
  not_ready_ids (cell ∷ cells) = cell.cell_id ∷ not_ready_ids cells

  abbrev pub is_ready : CellEvaluation h t → Bool
  is_ready result = all (λ o. not (is_blocking o)) result.obstructions

  abbrev pub is_not_ready : CellEvaluation h t → Bool
  is_not_ready result = any is_blocking result.obstructions

  -- A cell that also has another reason not to be ready is not waiting.
  abbrev pub is_waiting : CellEvaluation h t → Bool
  is_waiting result =
      not (is_empty (keep is_blocking result.obstructions))
      && not (is_empty result.wait_ids)
      && all (λ o. is_external_wait o.obstruction_type) (keep is_blocking result.obstructions)

  unfoldable pub not_ready_cell : CellEvaluation h t → NativeNotReadyCell h t
  not_ready_cell result = record {
    cell_id = result.cell_id;
    lifecycle = result.lifecycle;
    hard_dependency_ids = result.hard_dependency_ids;
    wait_ids = result.wait_ids;
    evidence_requirement_ids = result.evidence_requirement_ids;
    proof_requirement_ids = result.proof_requirement_ids;
    obstruction_ids = obstruction_ids h t (keep is_blocking result.obstructions);
  }

  abbrev pub not_ready_cells : List (CellEvaluation h t) → List (NativeNotReadyCell h t)
  not_ready_cells results = map not_ready_cell (keep is_not_ready results)

  abbrev pub all_rule_results : List (CellEvaluation h t) → List (NativeReadinessRuleResult h t)
  all_rule_results [] = []
  all_rule_results (result ∷ results) = result.rule_results ++ all_rule_results results

  unfoldable pub readiness_result : CaseSpace h → List (CellEvaluation h t) → NativeReadiness h t
  readiness_result space results = record {
    evaluated_cell_ids = cell_ids (keep (readiness_subject h t) space.case_cells);
    ready_cell_ids = result_ids (keep is_ready results);
    not_ready_cells = not_ready_cells results;
    waiting_cell_ids = result_ids (keep is_waiting results);
    blocked_cell_ids = not_ready_ids (not_ready_cells results);
    rule_results = all_rule_results results;
  }

  -- The cell that the identifier names is that cell and not settled.
  abbrev pub is_open_cell : h.Ident → Option (CaseCell h) → Bool
  is_open_cell id none = false
  is_open_cell id (some cell) = same h.id_discrete cell.id id && not (is_settled cell.lifecycle)

  unfoldable pub frontier_cell_ids :
      NativeReadiness h t → NativeEvaluationContext h t → List h.Ident
  frontier_cell_ids readiness context =
      keep (λ id. is_open_cell id (get (t.id_text id) context.cells))
        (keep (λ id. not (contains h.id_discrete context.index.completed_targets id))
          readiness.ready_cell_ids)

  -- `entry(id).or_insert(obstruction)`, in the order of the identifiers
  unfoldable pub merge_obstruction :
      NativeObstruction h t → List (NativeObstruction h t) → List (NativeObstruction h t)
  merge_obstruction o [] = o ∷ []
  merge_obstruction o (other ∷ obstructions) =
      let rest = merge_obstruction o obstructions in
      if same h.id_discrete other.id o.id
      then other ∷ obstructions
      else if t.id_before o.id other.id
      then o ∷ other ∷ obstructions
      else other ∷ rest

  abbrev pub merge_all :
      List (NativeObstruction h t) → List (NativeObstruction h t) → List (NativeObstruction h t)
  merge_all [] merged = merged
  merge_all (o ∷ obstructions) merged = merge_all obstructions (merge_obstruction o merged)

  abbrev pub all_obstructions : List (CellEvaluation h t) → List (NativeObstruction h t)
  all_obstructions [] = []
  all_obstructions (result ∷ results) = result.obstructions ++ all_obstructions results

  unfoldable pub merge_obstructions : List (CellEvaluation h t) → List (NativeObstruction h t)
  merge_obstructions results = merge_all (all_obstructions results) []

  unfoldable pub progress_axis :
      CaseSpace h → NativeReadiness h t → List (NativeObstruction h t) → NativeProgress
  progress_axis space readiness obstructions =
      if any is_blocking obstructions
      then blocked
      else if not (is_empty space.case_cells) && is_empty readiness.evaluated_cell_ids
      then complete
      else active
