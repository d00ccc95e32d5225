-- ===== src/Eval/Context.antt =====
-- src/native_eval.rs: `NativeEvaluationContext`, what an evaluation derives from a case space
-- before it looks at a cell, and the questions that it answers.
use Prim.Native.Nat.{Ordering}
use Prim.Native.String.{compare}
use casegraphen.Prelude.{
  String, Bool, true, false, not, ◌&&◌, ◌||◌, Option, none, some, List, [], ◌∷◌, ◌++◌, keep, same,
  if◌then◌else◌, str_eq,
}
use casegraphen.Host.{Host}
use casegraphen.Model.{CaseCell, CaseRelation, CaseSpace}
use casegraphen.Model.Kinds.{CaseCellType, CaseRelationType}
use casegraphen.Model.Lifecycle.{CaseCellLifecycle}
use casegraphen.Resource.Maps.{get, set_contains}
use casegraphen.Review.{Terms}
use casegraphen.Eval.Graph.{NativeCaseIndex, direct_targets, relations_from, relations_to, is_hard}

unfoldable pub is_outside_work : CaseCellType → Bool
is_outside_work CaseCellType.evidence = true
is_outside_work CaseCellType.review = true
is_outside_work CaseCellType.projection = true
is_outside_work CaseCellType.revision = true
is_outside_work CaseCellType.morphism = true
is_outside_work CaseCellType.external_ref = true
is_outside_work _ = false

unfoldable pub is_settled : CaseCellLifecycle → Bool
is_settled CaseCellLifecycle.resolved = true
is_settled CaseCellLifecycle.accepted = true
is_settled CaseCellLifecycle.retired = true
is_settled CaseCellLifecycle.rejected = true
is_settled CaseCellLifecycle.superseded = true
is_settled _ = false

unfoldable pub is_complete_lifecycle : CaseCellLifecycle → Bool
is_complete_lifecycle CaseCellLifecycle.resolved = true
is_complete_lifecycle CaseCellLifecycle.accepted = true
is_complete_lifecycle CaseCellLifecycle.retired = true
is_complete_lifecycle CaseCellLifecycle.superseded = true
is_complete_lifecycle _ = false

unfoldable pub is_contradiction : CaseRelationType → Bool
is_contradiction CaseRelationType.contradicts = true
is_contradiction CaseRelationType.invalidates = true
is_contradiction CaseRelationType.blocks = true
is_contradiction _ = false

unfoldable pub is_review_requirement : CaseRelationType → Bool
is_review_requirement CaseRelationType.accepts = true
is_review_requirement CaseRelationType.rejects = true
is_review_requirement _ = false

abbrev is_proof : CaseCellType → Bool
is_proof CaseCellType.proof = true
is_proof _ = false

abbrev is_review_cell : CaseCellType → Bool
is_review_cell CaseCellType.review = true
is_review_cell _ = false

abbrev is_accepted : CaseCellLifecycle → Bool
is_accepted CaseCellLifecycle.accepted = true
is_accepted _ = false

-- The order of texts, by their bytes.
abbrev pub text_before : String → String → Bool
text_before a b = elim (compare a b) [ Ordering.lt ↦ true | _ ↦ false ]

module _ (h : Host) (t : Terms h) where
  pub record NativeEvaluationContext : Type 0 where
    pub case_space : CaseSpace h
    pub index : NativeCaseIndex h t
    pub cells : List (String × CaseCell h)
    pub trusted_evidence_ids : List String
    pub trusted_coverage_targets : List String
    pub satisfied_requirement_ids : List String

  unfoldable pub readiness_subject : CaseCell h → Bool
  readiness_subject cell = not (is_outside_work cell.cell_type) && not (is_settled cell.lifecycle)

  unfoldable pub requirement_ids :
      NativeEvaluationContext → CaseCell h → CaseRelationType → List h.Ident
  requirement_ids context cell relation_type =
      direct_targets h t context.index cell.id relation_type

  -- `option.is_some_and(test)`
  abbrev pub is_some_and : Option (CaseCell h) → (CaseCell h → Bool) → Bool
  is_some_and none test = false
  is_some_and (some cell) test = test cell

  unfoldable pub complete_cell : NativeEvaluationContext → h.Ident → Bool
  complete_cell context cell_id = is_some_and (get (t.id_text cell_id) context.cells) (λ cell.
      is_complete_lifecycle cell.lifecycle
      || same h.status_discrete (h.review_status cell.provenance) h.accepted)

  unfoldable pub trusted_evidence_exists : NativeEvaluationContext → h.Ident → h.Ident → Bool
  trusted_evidence_exists context requirement_id cell_id =
      set_contains (t.id_text requirement_id) context.trusted_evidence_ids
      || set_contains (t.id_text requirement_id) context.trusted_coverage_targets
      || set_contains (t.id_text cell_id) context.trusted_coverage_targets

  unfoldable pub wait_satisfied : NativeEvaluationContext → h.Ident → Bool
  wait_satisfied context wait_id =
      complete_cell context wait_id || trusted_evidence_exists context wait_id wait_id

  unfoldable pub evidence_requirement_satisfied : NativeEvaluationContext → h.Ident → h.Ident → Bool
  evidence_requirement_satisfied context cell_id requirement_id =
      trusted_evidence_exists context requirement_id cell_id

  unfoldable pub proof_requirement_satisfied : NativeEvaluationContext → h.Ident → h.Ident → Bool
  proof_requirement_satisfied context cell_id proof_id =
      is_some_and (get (t.id_text proof_id) context.cells)
        (λ cell. is_proof cell.cell_type && complete_cell context proof_id)
      || trusted_evidence_exists context proof_id cell_id

  abbrev pub is_hard_contradiction : CaseRelation h → Bool
  is_hard_contradiction r = is_hard r.relation_strength && is_contradiction r.relation_type

  abbrev pub is_hard_review : CaseRelation h → Bool
  is_hard_review r = is_hard r.relation_strength && is_review_requirement r.relation_type

  -- `review_satisfied` asks for an accepted review cell.
  unfoldable pub review_satisfied : NativeEvaluationContext → h.Ident → Bool
  review_satisfied context review_id =
      is_some_and (get (t.id_text review_id) context.cells) (λ cell.
        is_review_cell cell.cell_type
        && (is_accepted cell.lifecycle
            || same h.status_discrete (h.review_status cell.provenance) h.accepted))

  unfoldable pub required_review_relations :
      NativeEvaluationContext → h.Ident → List (CaseRelation h)
  required_review_relations context cell_id =
      keep is_hard_review (relations_from h t context.index cell_id)

  -- A map of relations by the texts of their identifiers, in their order; a later relation replaces
  -- an earlier one.
  unfoldable pub put_relation : CaseRelation h → List (CaseRelation h) → List (CaseRelation h)
  put_relation r [] = r ∷ []
  put_relation r (other ∷ relations) =
      let rest = put_relation r relations in
      if str_eq (t.id_text other.id) (t.id_text r.id)
      then r ∷ relations
      else if text_before (t.id_text r.id) (t.id_text other.id)
      then r ∷ other ∷ relations
      else other ∷ rest

  unfoldable pub by_relation_id :
      List (CaseRelation h) → List (CaseRelation h) → List (CaseRelation h)
  by_relation_id [] found = found
  by_relation_id (r ∷ relations) found = by_relation_id relations (put_relation r found)

  unfoldable pub contradiction_relations : NativeEvaluationContext → h.Ident → List (CaseRelation h)
  contradiction_relations context cell_id =
      by_relation_id
        (keep is_hard_contradiction
          (relations_from h t context.index cell_id ++ relations_to h t context.index cell_id))
        []
