-- ===== src/Eval/Outcome/Blockers.antt =====
-- src/native_eval.rs: the obstructions of an evaluated cell are those that the relations make.
use casegraphen.Prelude.{
  Bool, false, not, ◌&&◌, ◌||◌, List, [], ◌∷◌, ◌≡◌, refl, any, arith, ap, ◌∙◌, String,
}
use casegraphen.Host.{Host}
use casegraphen.Model.{CaseCell, CaseRelation}
use casegraphen.Model.Kinds.{CaseRelationType}
use casegraphen.Review.{Terms}
use casegraphen.Eval.{
  NativeObstructionType, unresolved_dependency, external_wait, missing_evidence, missing_proof,
  contradiction, review_required, dependencies, waits, evidence, proof, reviews, NativeObstruction,
  ReadinessCheck,
}
use casegraphen.Eval.Graph.{from_case_space}
use casegraphen.Eval.Graph.Indexed.{starts_at, ends_at}
use casegraphen.Eval.Context.{
  NativeEvaluationContext, requirement_ids, review_satisfied, complete_cell, wait_satisfied,
  evidence_requirement_satisfied, proof_requirement_satisfied, required_review_relations,
  contradiction_relations, is_hard_contradiction, is_hard_review,
}
use casegraphen.Eval.Obstructions.{
  values, obstruction, dependency_obstruction, wait_obstruction, evidence_obstruction,
  proof_obstruction, review_obstruction, ByCheck, push_unsatisfied, contradiction_obstruction,
}
use casegraphen.Eval.Cells.{
  add_dependency_obstructions, add_wait_obstructions, add_evidence_obstructions,
  add_proof_obstructions, add_contradiction_obstructions, add_review_obstructions, by_check,
  targets_of, evaluate_cell, push_contradictions,
}
use casegraphen.Eval.Cells.Counted.{
  any-push_unsatisfied, any-push_contradictions, any-sorted_obstructions,
}
use casegraphen.Eval.Outcome.Spec.{obstructs, is_obstructed, start_of, by_loops-eq}
use casegraphen.Eval.Outcome.Loops.{or-cong, targets-eq, contradictions-eq, reviews-eq}

any-six :
    {A : Type 0} (f1 f2 f3 f4 f5 f6 f7 g : A → Bool)
    → ((a : A) → (((((f1 a || f2 a) || f3 a) || f4 a) || (f5 a || f6 a)) || f7 a) ≡ g a)
    → (xs : List A)
    → ((((((false || any f1 xs) || any f2 xs) || any f3 xs) || any f4 xs)
          || (any f5 xs || any f6 xs))
        || any f7 xs)
      ≡ any g xs
any-six f1 f2 f3 f4 f5 f6 f7 g e [] = refl
any-six f1 f2 f3 f4 f5 f6 f7 g e (a ∷ xs) = ground (arith, any-six f1 f2 f3 f4 f5 f6 f7 g e xs, e a)

module _ (h : Host) (t : Terms h) where
  -- A test of obstructions that looks at their kind alone.
  abbrev pub TestsKind : (NativeObstruction h t → Bool) → (NativeObstructionType → Bool) → Type 0
  TestsKind p wanted =
      (type : NativeObstructionType) (cell witness : h.Ident) (constraint explanation : String)
      (severity : t.Severity) (resolution : String)
      → p (obstruction h t type cell witness constraint explanation severity resolution)
        ≡ wanted type

  module _ (context : NativeEvaluationContext h t) (wanted : NativeObstructionType → Bool) where
    module _ (p : NativeObstruction h t → Bool) (kind : TestsKind p wanted)
        (indexed : context.index ≡ from_case_space h t context.case_space) where
      abbrev unmet : (h.Ident → Bool) → NativeObstructionType → h.Ident → Bool
      unmet satisfied type id = not (satisfied id) && wanted type

      -- What one of the loops over direct targets adds.
      loop-eq :
          (satisfied : h.Ident → Bool) (check : ReadinessCheck)
          (make : h.Ident → NativeObstruction h t) (reason : NativeObstructionType)
          (type : CaseRelationType) (cell : CaseCell h) (before : ByCheck h t)
          → ((id : h.Ident) → p (make id) ≡ wanted reason)
          → any p (
              values h t (
                push_unsatisfied h t satisfied check make
                  (requirement_ids h t context cell type)
                  before))
            ≡ (any p (values h t before)
                || any
                    (start_of h t context wanted cell.id type (unmet satisfied reason))
                    context.case_space.case_relations)
      loop-eq satisfied check make reason type cell before e =
          any-push_unsatisfied h t p satisfied check make (requirement_ids h t context cell type)
            before
          ∙ ap (λ b. any p (values h t before) || b)
              ((λ i.
                  any (λ id. not (satisfied id) && e id i) (requirement_ids h t context cell type))
                ∙ targets-eq h t context wanted indexed (unmet satisfied reason) type cell)

      module _ (cell : CaseCell h) where
        abbrev after_dependencies : ByCheck h t
        after_dependencies =
            add_dependency_obstructions h t context cell
              (requirement_ids h t context cell CaseRelationType.depends_on) []

        abbrev after_waits : ByCheck h t
        after_waits =
            add_wait_obstructions h t context cell
              (requirement_ids h t context cell CaseRelationType.waits_for) after_dependencies

        abbrev after_evidence : ByCheck h t
        after_evidence =
            add_evidence_obstructions h t context cell
              (requirement_ids h t context cell CaseRelationType.requires_evidence) after_waits

        abbrev after_proof : ByCheck h t
        after_proof =
            add_proof_obstructions h t context cell
              (requirement_ids h t context cell CaseRelationType.requires_proof) after_evidence

        after_proof-eq : any p (values h t after_proof) ≡ (
            (((false
                  || any
                      (start_of h t context wanted cell.id CaseRelationType.depends_on
                        (unmet (complete_cell h t context) unresolved_dependency))
                      context.case_space.case_relations)
                || any
                    (start_of h t context wanted cell.id CaseRelationType.waits_for
                      (unmet (wait_satisfied h t context) external_wait))
                    context.case_space.case_relations)
              || any
                  (start_of h t context wanted cell.id CaseRelationType.requires_evidence
                    (unmet (evidence_requirement_satisfied h t context cell.id) missing_evidence))
                  context.case_space.case_relations)
            || any
                (start_of h t context wanted cell.id CaseRelationType.requires_proof
                  (unmet (proof_requirement_satisfied h t context cell.id) missing_proof))
                context.case_space.case_relations)
        unfolding add_dependency_obstructions add_wait_obstructions add_evidence_obstructions
            add_proof_obstructions
        after_proof-eq =
            loop-eq (proof_requirement_satisfied h t context cell.id) proof
              (proof_obstruction h t cell) missing_proof CaseRelationType.requires_proof cell
              after_evidence (λ id. kind _ _ _ _ _ _ _)
            ∙ or-cong
                (loop-eq (evidence_requirement_satisfied h t context cell.id) evidence
                    (evidence_obstruction h t cell) missing_evidence
                    CaseRelationType.requires_evidence cell after_waits (λ id. kind _ _ _ _ _ _ _)
                  ∙ or-cong
                      (loop-eq (wait_satisfied h t context) waits (wait_obstruction h t cell)
                          external_wait CaseRelationType.waits_for cell after_dependencies
                          (λ id. kind _ _ _ _ _ _ _)
                        ∙ or-cong
                            (loop-eq (complete_cell h t context) dependencies
                              (dependency_obstruction h t cell) unresolved_dependency
                              CaseRelationType.depends_on cell [] (λ id. kind _ _ _ _ _ _ _))
                            refl)
                      refl)
                refl

        contradiction-kind :
            (r : CaseRelation h) → p (contradiction_obstruction h t cell r) ≡ wanted contradiction
        contradiction-kind r = kind _ _ _ _ _ _ _

        review-kind : (id : h.Ident) → p (review_obstruction h t cell id) ≡ wanted review_required
        review-kind id = kind _ _ _ _ _ _ _

        -- Every loop adds what its relations make.
        by_check-eq :
            any p (values h t (by_check h t context cell))
            ≡ any (obstructs h t context wanted cell.id) context.case_space.case_relations
        unfolding by_check add_contradiction_obstructions add_review_obstructions
        by_check-eq =
            any-push_unsatisfied h t p (review_satisfied h t context) reviews
              (review_obstruction h t cell)
              (targets_of h t (required_review_relations h t context cell.id))
              (push_contradictions h t cell (contradiction_relations h t context cell.id)
                after_proof)
            ∙ or-cong
                (any-push_contradictions h t p cell (contradiction_relations h t context cell.id)
                    after_proof
                  ∙ or-cong after_proof-eq (
                      (λ i.
                        any (λ r. contradiction-kind r i)
                          (contradiction_relations h t context cell.id))
                      ∙ contradictions-eq h t context wanted indexed cell))
                ((λ i.
                    any (λ id. not (review_satisfied h t context id) && review-kind id i)
                      (targets_of h t (required_review_relations h t context cell.id)))
                  ∙ reviews-eq h t context wanted indexed
                      (unmet (review_satisfied h t context) review_required) cell)
            ∙ any-six
                (start_of h t context wanted cell.id CaseRelationType.depends_on
                  (unmet (complete_cell h t context) unresolved_dependency))
                (start_of h t context wanted cell.id CaseRelationType.waits_for
                  (unmet (wait_satisfied h t context) external_wait))
                (start_of h t context wanted cell.id CaseRelationType.requires_evidence
                  (unmet (evidence_requirement_satisfied h t context cell.id) missing_evidence))
                (start_of h t context wanted cell.id CaseRelationType.requires_proof
                  (unmet (proof_requirement_satisfied h t context cell.id) missing_proof))
                (λ r.
                  starts_at h t cell.id r && (is_hard_contradiction h t r && wanted contradiction))
                (λ r.
                  ends_at h t cell.id r && (is_hard_contradiction h t r && wanted contradiction))
                (λ r.
                  starts_at h t cell.id r
                  && (is_hard_review h t r
                      && (not (review_satisfied h t context r.to_id) && wanted review_required)))
                (obstructs h t context wanted cell.id) (by_loops-eq h t context wanted cell.id)
                context.case_space.case_relations

      pub evaluate_cell-obstructions :
          (cell : CaseCell h)
          → any p (evaluate_cell h t context cell).obstructions
            ≡ is_obstructed h t context wanted cell
      unfolding evaluate_cell is_obstructed
      evaluate_cell-obstructions cell =
          any-sorted_obstructions h t p (by_check h t context cell) ∙ by_check-eq cell
