-- ===== src/Eval/Outcome/Loops.antt =====
-- src/native_eval.rs: what the loops over a cell run through, as tests of the relations.
use casegraphen.Prelude.{
  Bool, false, ◌&&◌, ◌||◌, List, [], ◌++◌, ◌≡◌, any, any-append, any-keep, keep, arith, ap, ◌∙◌,
}
use casegraphen.Host.{Host}
use casegraphen.Model.{CaseCell, CaseRelation}
use casegraphen.Model.Kinds.{CaseRelationType}
use casegraphen.Review.{Terms}
use casegraphen.Eval.{NativeObstructionType, contradiction}
use casegraphen.Eval.Graph.{from_case_space, direct_targets, relations_from, relations_to}
use casegraphen.Eval.Graph.Indexed.{
  starts_at, ends_at, relations_from_lem, relations_to_lem, direct_targets_lem,
}
use casegraphen.Eval.Context.{
  NativeEvaluationContext, requirement_ids, required_review_relations, by_relation_id,
  contradiction_relations, is_hard_contradiction, is_hard_review,
}
use casegraphen.Eval.Cells.{targets_of}
use casegraphen.Eval.Cells.Counted.{some-by_relation_id, any-targets_of}
use casegraphen.Eval.Outcome.Spec.{start_of}

or_false : (b : Bool) → (b || false) ≡ b
or_false b = ground arith

pub or-cong : {a b c d : Bool} → a ≡ b → c ≡ d → (a || c) ≡ (b || d)
or-cong e f = λ i. e i || f i

module _ (h : Host) (t : Terms h) where
  module _ (context : NativeEvaluationContext h t) (wanted : NativeObstructionType → Bool) where
    module _ (indexed : context.index ≡ from_case_space h t context.case_space) where
      pub targets-eq :
          (p : h.Ident → Bool) (type : CaseRelationType) (cell : CaseCell h)
          → any p (requirement_ids h t context cell type)
            ≡ any (start_of h t context wanted cell.id type p) context.case_space.case_relations
      unfolding requirement_ids
      targets-eq p type cell =
          ap (λ index. any p (direct_targets h t index cell.id type)) indexed
          ∙ direct_targets_lem h t context.case_space p type cell.id

      collected :
          (b : Bool) (xs ys : List (CaseRelation h))
          → any (λ _. b) (by_relation_id h t (keep (is_hard_contradiction h t) (xs ++ ys)) []) ≡ (
              any (λ r. is_hard_contradiction h t r && b) xs
              || any (λ r. is_hard_contradiction h t r && b) ys)
      collected b xs ys =
          some-by_relation_id h t b (keep (is_hard_contradiction h t) (xs ++ ys)) []
          ∙ or_false _
          ∙ any-keep (λ _. b) (is_hard_contradiction h t) (xs ++ ys)
          ∙ any-append (λ r. is_hard_contradiction h t r && b) xs ys

      pub contradictions-eq :
          (cell : CaseCell h)
          → any (λ _. wanted contradiction) (contradiction_relations h t context cell.id) ≡ (
              any
                (λ r.
                  starts_at h t cell.id r && (is_hard_contradiction h t r && wanted contradiction))
                context.case_space.case_relations
              || any
                  (λ r.
                    ends_at h t cell.id r && (is_hard_contradiction h t r && wanted contradiction))
                  context.case_space.case_relations)
      unfolding contradiction_relations
      contradictions-eq cell =
          ap
            (λ index.
              any (λ _. wanted contradiction)
                (by_relation_id h t
                  (keep (is_hard_contradiction h t)
                    (relations_from h t index cell.id ++ relations_to h t index cell.id))
                  []))
            indexed
          ∙ collected (wanted contradiction)
              (relations_from h t (from_case_space h t context.case_space) cell.id)
              (relations_to h t (from_case_space h t context.case_space) cell.id)
          ∙ or-cong
              (ap (any _) (relations_from_lem h t context.case_space cell.id)
                ∙ any-keep _ (starts_at h t cell.id) context.case_space.case_relations)
              (ap (any _) (relations_to_lem h t context.case_space cell.id)
                ∙ any-keep _ (ends_at h t cell.id) context.case_space.case_relations)

      pub reviews-eq :
          (p : h.Ident → Bool) (cell : CaseCell h)
          → any p (targets_of h t (required_review_relations h t context cell.id))
            ≡ any
                (λ r. starts_at h t cell.id r && (is_hard_review h t r && p r.to_id))
                context.case_space.case_relations
      unfolding required_review_relations
      reviews-eq p cell =
          ap
            (λ index.
              any p (targets_of h t (keep (is_hard_review h t) (relations_from h t index cell.id))))
            indexed
          ∙ ap (λ relations. any p (targets_of h t (keep (is_hard_review h t) relations)))
              (relations_from_lem h t context.case_space cell.id)
          ∙ any-targets_of h t (is_hard_review h t) (starts_at h t cell.id) p
              context.case_space.case_relations
