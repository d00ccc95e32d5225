-- ===== src/Eval/Outcome/Progress.antt =====
-- src/native_eval.rs: the progress of a case space, by the relations.
use casegraphen.Prelude.{
  String, Bool, true, false, not, ◌&&◌, ◌||◌, List, [], ◌∷◌, ◌≡◌, refl, Result, any, any-append,
  keep, map, arith, if◌then◌else◌,
}
use casegraphen.Host.{Host}
use casegraphen.Model.{CaseCell, CaseSpace, MorphismPayload}
use casegraphen.Review.{Terms}
use casegraphen.Eval.{active, blocked, complete, NativeObstruction}
use casegraphen.Eval.Graph.{from_case_space}
use casegraphen.Eval.Context.{NativeEvaluationContext, readiness_subject}
use casegraphen.Eval.Building.{new}
use casegraphen.Eval.Cells.{evaluate_cell, evaluate_cells}
use casegraphen.Eval.Outcome.{
  is_blocking, is_empty, cell_ids, merge_obstruction, merge_all, all_obstructions,
  merge_obstructions, progress_axis, readiness_result,
}
use casegraphen.Eval.Outcome.Spec.{is_obstructed}
use casegraphen.Eval.Outcome.Readiness.{any_kind, blocking-eq, blocking_all}
use casegraphen.Eval.Outcome.Classified.{readiness}

module _ (h : Host) (t : Terms h) where
  abbrev not_blocking : NativeObstruction h t → Bool
  not_blocking o = not (is_blocking h t o)

  -- A merge keeps what is blocking: what it drops has a blocking one in its place.
  merged-blocking :
      (o : NativeObstruction h t) (merged : List (NativeObstruction h t))
      → any not_blocking merged ≡ false
      → o.blocking ≡ true
      → (any (is_blocking h t) (merge_obstruction h t o merged) ≡ true)
        × (any not_blocking (merge_obstruction h t o merged) ≡ false)
  unfolding merge_obstruction
  merged-blocking o [] a b = ground arith
  merged-blocking o (other ∷ merged) a b = ground (arith, merged-blocking o merged)

  merge_all-blocking :
      (os merged : List (NativeObstruction h t))
      → any not_blocking os ≡ false
      → any not_blocking merged ≡ false
      → any (is_blocking h t) (merge_all h t os merged)
        ≡ (any (is_blocking h t) os || any (is_blocking h t) merged)
  merge_all-blocking [] merged a b = refl
  merge_all-blocking (o ∷ os) merged a b =
      ground
        (arith, merge_all-blocking os (merge_obstruction h t o merged), merged-blocking o merged)

  module _ (context : NativeEvaluationContext h t) where
    module _ (indexed : context.index ≡ from_case_space h t context.case_space) where
      results-blocking :
          (cells : List (CaseCell h))
          → (any (is_blocking h t) (all_obstructions h t (map (evaluate_cell h t context) cells))
              ≡ any (is_obstructed h t context any_kind) cells)
            × (any not_blocking (all_obstructions h t (map (evaluate_cell h t context) cells))
                ≡ false)
      results-blocking [] = (refl, refl)
      results-blocking (c ∷ cells) = ground (
        arith,
        results-blocking cells,
        blocking-eq h t context indexed c,
        blocking_all h t context indexed c,
        any-append (is_blocking h t) (evaluate_cell h t context c).obstructions
            (all_obstructions h t (map (evaluate_cell h t context) cells)),
        any-append not_blocking (evaluate_cell h t context c).obstructions
            (all_obstructions h t (map (evaluate_cell h t context) cells)),
      )

  empty-ids : (cells : List (CaseCell h)) → is_empty (cell_ids h t cells) ≡ is_empty cells
  empty-ids [] = refl
  empty-ids (c ∷ cells) = refl

  module _ (decode : h.Value → Result String (MorphismPayload h)) (space : CaseSpace h) where
    -- The progress of a case space is blocked exactly where some relation obstructs a subject of
    -- readiness; otherwise it is complete where there are cells and none is a subject of readiness, and
    -- else active.
    pub progress_axis_lem :
        progress_axis h t space
          (readiness h t decode space)
          (merge_obstructions h t (evaluate_cells h t (new h t decode space)))
        ≡ (if any
              (is_obstructed h t (new h t decode space) any_kind)
              (keep (readiness_subject h t) space.case_cells)
            then blocked
            else if not (is_empty space.case_cells)
                && is_empty (keep (readiness_subject h t) space.case_cells)
            then complete
            else active)
    unfolding progress_axis merge_obstructions evaluate_cells readiness_result new
    progress_axis_lem = ground (
      arith,
      empty-ids (keep (readiness_subject h t) space.case_cells),
      results-blocking (new h t decode space) refl (keep (readiness_subject h t) space.case_cells),
      merge_all-blocking
          (all_obstructions h t (
            map (evaluate_cell h t (new h t decode space))
              (keep (readiness_subject h t) space.case_cells)))
          [],
    )
