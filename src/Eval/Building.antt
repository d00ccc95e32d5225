-- ===== src/Eval/Building.antt =====
-- src/native_eval.rs: `NativeEvaluationContext::new`, with the requirements that are satisfied for
-- every cell that holds them.
pub mod Holders
use casegraphen.Prelude.{
  String, Bool, true, false, not, ◌&&◌, ◌||◌, Option, none, some, List, [], ◌∷◌, ◌++◌, Result, all,
  keep, map, same, str_eq, if◌then◌else◌,
}
use casegraphen.Host.{Host}
use casegraphen.Trust.{evidence_is_acceptable}
use casegraphen.Model.{CaseCell, CaseRelation, CaseSpace, MorphismPayload}
use casegraphen.Model.Kinds.{CaseCellType, CaseRelationType, is_evidence}
use casegraphen.Model.Boundary.{native_evidence_trust_input}
use casegraphen.Resource.Maps.{get, upsert, set_contains, set_insert}
use casegraphen.Review.{Terms}
use casegraphen.Eval.Coverage.{trusted_coverage_targets}
use casegraphen.Eval.Graph.{NativeCaseIndex, from_case_space}
use casegraphen.Eval.Context.{
  NativeEvaluationContext, readiness_subject, requirement_ids, evidence_requirement_satisfied,
}

module _ (h : Host) (t : Terms h) where
  -- Requirements with the cells that hold them. What is made of the map is a set, whatever the order
  -- of its entries.
  unfoldable pub push_holder :
      h.Ident → h.Ident → List (h.Ident × List h.Ident) → List (h.Ident × List h.Ident)
  push_holder requirement_id holder [] = (requirement_id, holder ∷ []) ∷ []
  push_holder requirement_id holder ((other, holders) ∷ map) =
      if same h.id_discrete other requirement_id
      then (other, holders ++ holder ∷ []) ∷ map
      else (other, holders) ∷ push_holder requirement_id holder map

  abbrev pub push_holders :
      List h.Ident → h.Ident → List (h.Ident × List h.Ident) → List (h.Ident × List h.Ident)
  push_holders [] holder map = map
  push_holders (requirement_id ∷ ids) holder map =
      push_holders ids holder (push_holder requirement_id holder map)

  unfoldable pub holders_by_requirement :
      NativeEvaluationContext h t
      → List (CaseCell h)
      → List (h.Ident × List h.Ident)
      → List (h.Ident × List h.Ident)
  holders_by_requirement context [] map = map
  holders_by_requirement context (cell ∷ cells) map = holders_by_requirement context cells (
      push_holders (requirement_ids h t context cell CaseRelationType.requires_evidence) cell.id
        map)

  -- The requirements that are satisfied for every holder.
  unfoldable pub satisfied_for_all :
      NativeEvaluationContext h t → List (h.Ident × List h.Ident) → List h.Ident
  satisfied_for_all context [] = []
  satisfied_for_all context ((requirement_id, holders) ∷ map) =
      let rest = satisfied_for_all context map in
      if all (λ holder. evidence_requirement_satisfied h t context holder requirement_id) holders
      then requirement_id ∷ rest
      else rest

  unfoldable pub satisfied_requirements : NativeEvaluationContext h t → List h.Ident
  satisfied_requirements context = satisfied_for_all context (
      holders_by_requirement context (keep (readiness_subject h t) context.case_space.case_cells)
        [])

  unfoldable pub compute_satisfied_requirement_ids : NativeEvaluationContext h t → List String
  compute_satisfied_requirement_ids context = map t.id_display (satisfied_requirements context)

  -- `.map(|cell| (cell.id.as_str(), cell)).collect()`: a later cell replaces an earlier one.
  unfoldable pub collect_cells :
      List (CaseCell h) → List (String × CaseCell h) → List (String × CaseCell h)
  collect_cells [] cells = cells
  collect_cells (cell ∷ rest) cells =
      collect_cells rest (upsert (t.id_text cell.id) cell (λ _. cell) cells)

  -- The loop over the evidence cells.
  unfoldable pub collect_trusted : NativeCaseIndex h t → List (CaseCell h) → List String
  collect_trusted index [] = []
  collect_trusted index (cell ∷ cells) =
      let rest = collect_trusted index cells in
      if is_evidence cell.cell_type
        && evidence_is_acceptable h (
            native_evidence_trust_input h cell
              (get (t.id_text cell.id) index.latest_evidence_review_statuses))
      then set_insert (t.id_text cell.id) rest
      else rest

  module _ (decode : h.Value → Result String (MorphismPayload h)) where
    -- The context before the satisfied requirements are known.
    abbrev pub prepared : CaseSpace h → List String → NativeEvaluationContext h t
    prepared space trusted = record {
      case_space = space;
      index = from_case_space h t space;
      cells = collect_cells space.case_cells [];
      trusted_evidence_ids = trusted;
      trusted_coverage_targets =
          trusted_coverage_targets h t decode space (λ text. set_contains text trusted);
      satisfied_requirement_ids = [];
    }

    abbrev pub completed : NativeEvaluationContext h t → NativeEvaluationContext h t
    completed context = record context {
      satisfied_requirement_ids = compute_satisfied_requirement_ids context;
    }

    unfoldable pub new : CaseSpace h → NativeEvaluationContext h t
    new space =
        completed (prepared space (collect_trusted (from_case_space h t space) space.case_cells))
