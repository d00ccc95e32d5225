-- ===== src/Eval/Outcome/Readiness.antt =====
-- src/native_eval.rs: which cells an evaluation finds ready, blocked and waiting.
use casegraphen.Prelude.{
  Bool, true, false, not, ◌&&◌, ◌||◌, List, [], ◌∷◌, ◌≡◌, refl, any, all, keep, any-false_of, arith,
  ap, sym, ◌∙◌, any-never,
}
use casegraphen.Host.{Host}
use casegraphen.Model.{CaseCell, CaseRelation}
use casegraphen.Model.Kinds.{CaseRelationType, CaseRelationType-discrete}
use casegraphen.Review.{Terms}
use casegraphen.Eval.{NativeObstructionType}
use casegraphen.Eval.Graph.{from_case_space}
use casegraphen.Eval.Context.{NativeEvaluationContext, requirement_ids}
use casegraphen.Eval.Obstructions.{obstruction}
use casegraphen.Eval.Cells.{evaluate_cell}
use casegraphen.Eval.Outcome.{is_blocking, is_ready, is_waiting, is_external_wait, is_empty}
use casegraphen.Eval.Outcome.Spec.{obstructs, obstructs_start, is_obstructed, start_of}
use casegraphen.Eval.Outcome.Loops.{targets-eq}
use casegraphen.Eval.Outcome.Blockers.{evaluate_cell-obstructions}

abbrev pub any_kind : NativeObstructionType → Bool
any_kind _ = true

abbrev pub other_kind : NativeObstructionType → Bool
other_kind type = not (is_external_wait type)

module _ {A : Type 0} where
  all-not : (p : A → Bool) (xs : List A) → all (λ a. not (p a)) xs ≡ not (any p xs)
  all-not p [] = refl
  all-not p (x ∷ xs) = ground (arith, all-not p xs)

  some-kept : (p : A → Bool) (xs : List A) → not (is_empty (keep p xs)) ≡ any p xs
  some-kept p [] = refl
  some-kept p (x ∷ xs) = ground (arith, some-kept p xs)

  all-kept :
      (p q : A → Bool) (xs : List A) → all q (keep p xs) ≡ not (any (λ a. p a && not (q a)) xs)
  all-kept p q [] = refl
  all-kept p q (x ∷ xs) = ground (arith, all-kept p q xs)

  not_empty : (xs : List A) → not (is_empty xs) ≡ any (λ _. true) xs
  not_empty [] = refl
  not_empty (x ∷ xs) = refl

  -- Of what passes one test, something passes the other or nothing does.
  split-any :
      (p q : A → Bool) (xs : List A)
      → any p xs ≡ (any (λ a. p a && q a) xs || any (λ a. p a && not (q a)) xs)
  split-any p q [] = refl
  split-any p q (x ∷ xs) = ground (arith, split-any p q xs)

module _ (h : Host) (t : Terms h) where
  module _ (context : NativeEvaluationContext h t) where
    unwanted : (id : h.Ident) (r : CaseRelation h) → obstructs h t context (λ _. false) id r ≡ false
    unfolding obstructs obstructs_start
    unwanted id r = ground arith

    -- Only a hard relation that waits makes an external wait.
    waits-start :
        (id : h.Ident) (r : CaseRelation h)
        → obstructs h t context is_external_wait id r ≡ true
        → start_of h t context is_external_wait id CaseRelationType.waits_for (λ _. true) r ≡ true
    unfolding obstructs obstructs_start CaseRelationType-discrete
    waits-start id r e = ground arith

    module _ (indexed : context.index ≡ from_case_space h t context.case_space) where
      pub blocking-eq :
          (cell : CaseCell h)
          → any (is_blocking h t) (evaluate_cell h t context cell).obstructions
            ≡ is_obstructed h t context any_kind cell
      unfolding obstruction
      blocking-eq cell =
          evaluate_cell-obstructions h t context any_kind (is_blocking h t) (λ _ _ _ _ _ _ _. refl)
            indexed cell

      -- Every obstruction of the evaluation is blocking.
      pub blocking_all :
          (cell : CaseCell h)
          → any (λ o. not (is_blocking h t o)) (evaluate_cell h t context cell).obstructions ≡ false
      unfolding obstruction is_obstructed
      blocking_all cell =
          evaluate_cell-obstructions h t context (λ _. false) (λ o. not (is_blocking h t o))
            (λ _ _ _ _ _ _ _. refl) indexed cell
          ∙ any-false_of (λ _. false) (obstructs h t context (λ _. false) cell.id)
              context.case_space.case_relations (λ r e. sym (unwanted cell.id r) ∙ e)
              (any-never context.case_space.case_relations)

      pub ready-eq :
          (cell : CaseCell h)
          → is_ready h t (evaluate_cell h t context cell)
            ≡ not (is_obstructed h t context any_kind cell)
      ready-eq cell =
          all-not (is_blocking h t) (evaluate_cell h t context cell).obstructions
          ∙ ap not (blocking-eq cell)

      no_waits :
          (cell : CaseCell h)
          → not (is_empty (evaluate_cell h t context cell).wait_ids) ≡ false
          → is_obstructed h t context is_external_wait cell ≡ false
      unfolding evaluate_cell is_obstructed
      no_waits cell e =
          any-false_of
            (start_of h t context is_external_wait cell.id CaseRelationType.waits_for (λ _. true))
            (obstructs h t context is_external_wait cell.id) context.case_space.case_relations
            (waits-start cell.id)
            (sym (
                targets-eq h t context is_external_wait indexed (λ _. true)
                  CaseRelationType.waits_for cell)
              ∙ sym (not_empty (requirement_ids h t context cell CaseRelationType.waits_for))
              ∙ e)

      pub waiting-eq :
          (cell : CaseCell h)
          → is_waiting h t (evaluate_cell h t context cell) ≡ (
              is_obstructed h t context is_external_wait cell
              && not (is_obstructed h t context other_kind cell))
      unfolding obstruction
      waiting-eq cell = ground (
        arith,
        some-kept (is_blocking h t) (evaluate_cell h t context cell).obstructions,
        all-kept (is_blocking h t) (λ o. is_external_wait o.obstruction_type)
            (evaluate_cell h t context cell).obstructions,
        split-any (is_blocking h t) (λ o. is_external_wait o.obstruction_type)
            (evaluate_cell h t context cell).obstructions,
        evaluate_cell-obstructions h t context is_external_wait
            (λ o. is_blocking h t o && is_external_wait o.obstruction_type) (λ _ _ _ _ _ _ _. refl)
            indexed cell,
        evaluate_cell-obstructions h t context other_kind
            (λ o. is_blocking h t o && not (is_external_wait o.obstruction_type))
            (λ _ _ _ _ _ _ _. refl) indexed cell,
        no_waits cell,
      )
