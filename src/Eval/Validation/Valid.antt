-- ===== src/Eval/Validation/Valid.antt =====
-- src/native_eval.rs: the frontier of a case space that passes the validation, which an evaluation
-- asks for first.
use casegraphen.Prelude.{
  String, true, false, not, ◌&&◌, List, [], ◌∷◌, ◌++◌, ◌≡◌, refl, Result, ok, contains, unique,
  String-discrete, same-eq, arith, contains-append,
}
use casegraphen.Host.{Host}
use casegraphen.Model.{CaseCell, CaseSpace, MorphismPayload}
use casegraphen.Reducer.Ids.{has, cell_ids, relation_ids, materialized_ids}
use casegraphen.Review.{Terms}
use casegraphen.Eval.Building.{new}
use casegraphen.Eval.Outcome
use casegraphen.Eval.Outcome.{frontier_cell_ids}
use casegraphen.Eval.Outcome.Spec.{is_obstructed}
use casegraphen.Eval.Outcome.Readiness.{any_kind}
use casegraphen.Eval.Outcome.Classified.{readiness, subjects}
use casegraphen.Eval.Outcome.Frontier.{texts, is_completed, frontier_cell_ids_lem}
use casegraphen.Eval.Validation.Log.{validate_native_case_space}
use casegraphen.Eval.Validation.Unique.{validate_native_case_space-unique}

module _ (h : Host) (t : Terms h) where
  unique-prefix :
      (xs ys : List h.Ident)
      → unique h.id_discrete (xs ++ ys) ≡ true
      → unique h.id_discrete xs ≡ true
  unique-prefix [] ys u = refl
  unique-prefix (x ∷ xs) ys u =
      ground (arith, unique-prefix xs ys, contains-append h.id_discrete xs ys x)

  -- Distinct identifiers have distinct texts.
  abbrev pub TextsTell : Type 0
  TextsTell = (a b : h.Ident) → t.id_text a ≡ t.id_text b → a ≡ b

  module _ (tell : TextsTell) where
    contains-texts :
        (cells : List (CaseCell h)) (id : h.Ident)
        → has h (cell_ids h cells) id ≡ false
        → contains String-discrete (texts h t cells) (t.id_text id) ≡ false
    contains-texts [] id n = refl
    contains-texts (c ∷ cells) id n = ground (
      arith,
      contains-texts cells id,
      same-eq String-discrete (t.id_text c.id) (t.id_text id),
      tell c.id id,
    )

    unique-texts :
        (cells : List (CaseCell h))
        → unique h.id_discrete (cell_ids h cells) ≡ true
        → unique String-discrete (texts h t cells) ≡ true
    unique-texts [] u = refl
    unique-texts (c ∷ cells) u = ground (arith, contains-texts cells c.id, unique-texts cells)

    -- Where distinct identifiers have distinct texts, the frontier of a case space that passes the
    -- validation is exactly the subjects of readiness that no relation obstructs and that no hard
    -- relation completes or supersedes, in the order of the case space.
    pub validate_native_case_space-frontier :
        (decode : h.Value → Result String (MorphismPayload h)) (space : CaseSpace h)
        → validate_native_case_space h t space ≡ ok tt
        → frontier_cell_ids h t (readiness h t decode space) (new h t decode space)
          ≡ Outcome.cell_ids h t (
              subjects h t decode space (λ c.
                not (is_obstructed h t (new h t decode space) any_kind c)
                && not (is_completed h t decode space c)))
    unfolding materialized_ids
    validate_native_case_space-frontier decode space e = frontier_cell_ids_lem h t decode space (
        unique-texts space.case_cells (
          unique-prefix (cell_ids h space.case_cells) (relation_ids h space.case_relations)
            (validate_native_case_space-unique h t space e)))
