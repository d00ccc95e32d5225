-- ===== src/Eval/Outcome/Classified.antt =====
-- src/native_eval.rs: the lists of ready, blocked and waiting cells, by the relations.
use casegraphen.Prelude.{
  String, Bool, not, ◌&&◌, List, [], ◌∷◌, ◌≡◌, refl, Result, keep, map, arith, ap, ◌∙◌,
}
use casegraphen.Host.{Host}
use casegraphen.Model.{CaseCell, CaseSpace, MorphismPayload}
use casegraphen.Review.{Terms}
use casegraphen.Eval.{NativeReadiness}
use casegraphen.Eval.Context.{NativeEvaluationContext, readiness_subject}
use casegraphen.Eval.Building.{new}
use casegraphen.Eval.Cells.{CellEvaluation, evaluate_cell, evaluate_cells}
use casegraphen.Eval.Outcome.{
  is_ready, is_not_ready, is_waiting, is_external_wait, cell_ids, result_ids, not_ready_ids,
  not_ready_cell, readiness_result,
}
use casegraphen.Eval.Outcome.Spec.{is_obstructed}
use casegraphen.Eval.Outcome.Readiness.{any_kind, other_kind, blocking-eq, ready-eq, waiting-eq}

module _ (h : Host) (t : Terms h) where
  keep-keep :
      (p q : CaseCell h → Bool) (cells : List (CaseCell h))
      → keep q (keep p cells) ≡ keep (λ c. p c && q c) cells
  keep-keep p q [] = refl
  keep-keep p q (c ∷ cells) = ground (arith, keep-keep p q cells)

  pub result_ids-eq :
      (context : NativeEvaluationContext h t) (f : CellEvaluation h t → Bool)
      (g : CaseCell h → Bool)
      → ((c : CaseCell h) → f (evaluate_cell h t context c) ≡ g c)
      → (cells : List (CaseCell h))
      → result_ids h t (keep f (map (evaluate_cell h t context) cells))
        ≡ cell_ids h t (keep g cells)
  unfolding evaluate_cell
  result_ids-eq context f g e [] = refl
  result_ids-eq context f g e (c ∷ cells) = ground (arith, e c, result_ids-eq context f g e cells)

  not_ready_ids-eq :
      (results : List (CellEvaluation h t))
      → not_ready_ids h t (map (not_ready_cell h t) results) ≡ result_ids h t results
  unfolding not_ready_cell
  not_ready_ids-eq [] = refl
  not_ready_ids-eq (r ∷ results) = ap (λ ids. r.cell_id ∷ ids) (not_ready_ids-eq results)

  module _ (decode : h.Value → Result String (MorphismPayload h)) (space : CaseSpace h) where
    -- What `evaluate_native_case` reports as readiness.
    abbrev pub readiness : NativeReadiness h t
    readiness = readiness_result h t space (evaluate_cells h t (new h t decode space))

    -- The subjects of readiness with a property, in the order of the case space.
    abbrev pub subjects : (CaseCell h → Bool) → List (CaseCell h)
    subjects p = keep (λ c. readiness_subject h t c && p c) space.case_cells

    classified :
        (f : CellEvaluation h t → Bool) (g : CaseCell h → Bool)
        → ((c : CaseCell h) → f (evaluate_cell h t (new h t decode space) c) ≡ g c)
        → result_ids h t (keep f (evaluate_cells h t (new h t decode space)))
          ≡ cell_ids h t (subjects g)
    unfolding evaluate_cells new
    classified f g e =
        result_ids-eq (new h t decode space) f g e (keep (readiness_subject h t) space.case_cells)
        ∙ ap (cell_ids h t) (keep-keep (readiness_subject h t) g space.case_cells)

    -- The ready cells are exactly the subjects of readiness that no relation of the case space
    -- obstructs, and the blocked ones exactly those that some relation obstructs, both in the order of
    -- the case space; a cell is obstructed from a hard relation that starts at it by an incomplete
    -- dependency, an unresolved wait, missing evidence or proof, or a review that is not accepted, and
    -- by a hard contradiction at either end.
    pub readiness_result-ready :
        (readiness.ready_cell_ids
          ≡ cell_ids h t
              (subjects (λ c. not (is_obstructed h t (new h t decode space) any_kind c))))
        × (readiness.blocked_cell_ids
            ≡ cell_ids h t (subjects (is_obstructed h t (new h t decode space) any_kind)))
    unfolding readiness_result new
    readiness_result-ready = (
      classified (is_ready h t) _ (ready-eq h t (new h t decode space) refl),
      not_ready_ids-eq (keep (is_not_ready h t) (evaluate_cells h t (new h t decode space)))
          ∙ classified (is_not_ready h t) _ (blocking-eq h t (new h t decode space) refl),
    )

    -- The waiting cells are exactly the subjects of readiness that some unresolved wait obstructs and
    -- that nothing else obstructs.
    pub readiness_result-waiting :
        readiness.waiting_cell_ids
        ≡ cell_ids h t (
            subjects (λ c.
              is_obstructed h t (new h t decode space) is_external_wait c
              && not (is_obstructed h t (new h t decode space) other_kind c)))
    unfolding readiness_result new
    readiness_result-waiting =
        classified (is_waiting h t) _ (waiting-eq h t (new h t decode space) refl)
