-- ===== src/Eval/Outcome/Spec.antt =====
-- What an evaluation is asked to find, told by one pass over the relations of a case space: which
-- kinds of obstruction a relation makes to the cell at its start and to the one at its end.
use casegraphen.Prelude.{Bool, not, ◌&&◌, ◌||◌, any, ◌≡◌, arith}
use casegraphen.Host.{Host}
use casegraphen.Model.{CaseCell, CaseRelation}
use casegraphen.Model.Kinds.{CaseRelationType, CaseRelationType-discrete}
use casegraphen.Review.{Terms}
use casegraphen.Eval.{
  NativeObstructionType, unresolved_dependency, external_wait, missing_evidence, missing_proof,
  contradiction, review_required,
}
use casegraphen.Eval.Graph.{is_hard, is_hard_of}
use casegraphen.Eval.Graph.Indexed.{starts_at, ends_at}
use casegraphen.Eval.Context.{
  NativeEvaluationContext, complete_cell, wait_satisfied, evidence_requirement_satisfied,
  proof_requirement_satisfied, review_satisfied, is_contradiction, is_review_requirement,
  is_hard_contradiction, is_hard_review,
}

module _ (h : Host) (t : Terms h) where
  module _ (context : NativeEvaluationContext h t) (wanted : NativeObstructionType → Bool) where
    -- A relation of this type, from a cell to a target, obstructs the cell in a wanted way.
    unfoldable pub obstructs_start : h.Ident → h.Ident → CaseRelationType → Bool
    obstructs_start cell_id target CaseRelationType.depends_on =
        not (complete_cell h t context target) && wanted unresolved_dependency
    obstructs_start cell_id target CaseRelationType.waits_for =
        not (wait_satisfied h t context target) && wanted external_wait
    obstructs_start cell_id target CaseRelationType.requires_evidence =
        not (evidence_requirement_satisfied h t context cell_id target) && wanted missing_evidence
    obstructs_start cell_id target CaseRelationType.requires_proof =
        not (proof_requirement_satisfied h t context cell_id target) && wanted missing_proof
    obstructs_start cell_id target CaseRelationType.accepts =
        not (review_satisfied h t context target) && wanted review_required
    obstructs_start cell_id target CaseRelationType.rejects =
        not (review_satisfied h t context target) && wanted review_required
    obstructs_start cell_id target type = is_contradiction type && wanted contradiction

    -- A contradiction also obstructs the cell that it points at.
    unfoldable pub obstructs : h.Ident → CaseRelation h → Bool
    obstructs cell_id r =
        is_hard r.relation_strength
        && ((starts_at h t cell_id r && obstructs_start cell_id r.to_id r.relation_type)
            || (ends_at h t cell_id r && is_contradiction r.relation_type && wanted contradiction))

    -- Some relation of the case space obstructs the cell in a wanted way.
    unfoldable pub is_obstructed : CaseCell h → Bool
    is_obstructed cell = any (obstructs cell.id) context.case_space.case_relations

    abbrev pub start_of : h.Ident → CaseRelationType → (h.Ident → Bool) → CaseRelation h → Bool
    start_of id type p r = starts_at h t id r && (is_hard_of h t type r && p r.to_id)

    -- The same by the six loops of the code.
    abbrev pub by_loops : h.Ident → CaseRelation h → Bool
    by_loops id r =
        ((((start_of id CaseRelationType.depends_on
                  (λ target. not (complete_cell h t context target) && wanted unresolved_dependency)
                  r
                || start_of id CaseRelationType.waits_for
                    (λ target. not (wait_satisfied h t context target) && wanted external_wait) r)
              || start_of id CaseRelationType.requires_evidence
                  (λ target.
                    not (evidence_requirement_satisfied h t context id target)
                    && wanted missing_evidence)
                  r)
            || start_of id CaseRelationType.requires_proof
                (λ target.
                  not (proof_requirement_satisfied h t context id target) && wanted missing_proof)
                r)
          || ((starts_at h t id r && (is_hard_contradiction h t r && wanted contradiction))
              || (ends_at h t id r && (is_hard_contradiction h t r && wanted contradiction))))
        || (starts_at h t id r
            && (is_hard_review h t r
                && (not (review_satisfied h t context r.to_id) && wanted review_required)))

    pub by_loops-eq : (id : h.Ident) (r : CaseRelation h) → by_loops id r ≡ obstructs id r
    unfolding obstructs obstructs_start is_contradiction is_review_requirement
        CaseRelationType-discrete
    by_loops-eq id r = ground arith
