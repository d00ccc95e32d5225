-- ===== src/Eval/Cells/Counted.antt =====
-- src/native_eval.rs: which obstructions the loops over a cell's requirements leave, whatever order
-- and grouping they are kept in.
use casegraphen.Prelude.{
  Bool, true, false, not, ◌&&◌, ◌||◌, List, [], ◌∷◌, ◌++◌, ◌≡◌, refl, any, any-append, any-never,
  keep, arith, ap, ◌∙◌, ◌==◌, ltb, if◌then◌else◌,
}
use casegraphen.Host.{Host}
use casegraphen.Model.{CaseCell, CaseRelation}
use casegraphen.Review.{Terms}
use casegraphen.Eval.{ReadinessCheck, contradictions, NativeObstruction}
use casegraphen.Eval.Context.{put_relation, by_relation_id}
use casegraphen.Eval.Obstructions.{
  ByCheck, push_obstruction, values, push_unsatisfied, contradiction_obstruction, rank,
}
use casegraphen.Eval.Cells.{
  insert_obstruction, sort_obstructions, sorted_obstructions, push_contradictions, targets_of,
}

module _ (h : Host) (t : Terms h) where
  module _ (p : NativeObstruction h t → Bool) where
    placed :
        (here before : Bool) (check other : ReadinessCheck) (o : NativeObstruction h t)
        (records : List (NativeObstruction h t)) (by_check rest : ByCheck h t)
        → any p (values h t rest) ≡ (any p (values h t by_check) || p o)
        → any p (
            values h t (
              if here
              then (other, records ++ o ∷ []) ∷ by_check
              else if before
              then (check, o ∷ []) ∷ (other, records) ∷ by_check
              else (other, records) ∷ rest))
          ≡ (any p (records ++ values h t by_check) || p o)
    placed here before check other o records by_check rest e = ground (
      arith,
      any-append p records (o ∷ []),
      any-append p (records ++ o ∷ []) (values h t by_check),
      any-append p records (values h t by_check),
      any-append p records (values h t rest),
    )

    any-push_obstruction :
        (by_check : ByCheck h t) (check : ReadinessCheck) (o : NativeObstruction h t)
        → any p (values h t (push_obstruction h t by_check check o))
          ≡ (any p (values h t by_check) || p o)
    unfolding push_obstruction
    any-push_obstruction [] check o = ground arith
    any-push_obstruction ((other, records) ∷ by_check) check o =
        placed (rank other == rank check) (ltb (rank check) (rank other)) check other o records
          by_check _ (any-push_obstruction by_check check o)

    pub any-push_unsatisfied :
        (satisfied : h.Ident → Bool) (check : ReadinessCheck)
        (make : h.Ident → NativeObstruction h t) (ids : List h.Ident) (by_check : ByCheck h t)
        → any p (values h t (push_unsatisfied h t satisfied check make ids by_check))
          ≡ (any p (values h t by_check) || any (λ id. not (satisfied id) && p (make id)) ids)
    unfolding push_unsatisfied
    any-push_unsatisfied satisfied check make [] by_check = ground arith
    any-push_unsatisfied satisfied check make (id ∷ ids) by_check = ground (
      arith,
      any-push_unsatisfied satisfied check make ids by_check,
      any-push_unsatisfied satisfied check make ids (push_obstruction h t by_check check (make id)),
      any-push_obstruction by_check check (make id),
    )

    pub any-push_contradictions :
        (cell : CaseCell h) (relations : List (CaseRelation h)) (by_check : ByCheck h t)
        → any p (values h t (push_contradictions h t cell relations by_check)) ≡ (
            any p (values h t by_check)
            || any (λ r. p (contradiction_obstruction h t cell r)) relations)
    any-push_contradictions cell [] by_check = ground arith
    any-push_contradictions cell (r ∷ relations) by_check = ground (
      arith,
      any-push_contradictions cell relations
          (push_obstruction h t by_check contradictions (contradiction_obstruction h t cell r)),
      any-push_obstruction by_check contradictions (contradiction_obstruction h t cell r),
    )

    any-insert_obstruction :
        (o : NativeObstruction h t) (os : List (NativeObstruction h t))
        → any p (insert_obstruction h t o os) ≡ (p o || any p os)
    unfolding insert_obstruction
    any-insert_obstruction o [] = refl
    any-insert_obstruction o (other ∷ os) = ground (arith, any-insert_obstruction o os)

    any-sort_obstructions :
        (os : List (NativeObstruction h t)) → any p (sort_obstructions h t os) ≡ any p os
    unfolding sort_obstructions
    any-sort_obstructions [] = refl
    any-sort_obstructions (o ∷ os) =
        any-insert_obstruction o (sort_obstructions h t os)
        ∙ ap (λ b. p o || b) (any-sort_obstructions os)

    pub any-sorted_obstructions :
        (by_check : ByCheck h t)
        → any p (sorted_obstructions h t by_check) ≡ any p (values h t by_check)
    unfolding sorted_obstructions
    any-sorted_obstructions by_check = any-sort_obstructions (values h t by_check)

  some-implies : (b : Bool) (found : List (CaseRelation h)) → b ≡ false → any (λ _. b) found ≡ false
  some-implies false found e = any-never found
  some-implies true found e = cc

  absorbed : (b c d : Bool) → (b ≡ false → d ≡ false) → (c || b) ≡ (b || c || d)
  absorbed b c d k = ground arith

  some-put_relation :
      (b : Bool) (r : CaseRelation h) (found : List (CaseRelation h))
      → any (λ _. b) (put_relation h t r found) ≡ b
  unfolding put_relation
  some-put_relation false r found = any-never (put_relation h t r found)
  some-put_relation true r [] = refl
  some-put_relation true r (other ∷ found) = ground (arith, some-put_relation true r found)

  -- A map is empty only where nothing was collected.
  pub some-by_relation_id :
      (b : Bool) (relations found : List (CaseRelation h))
      → any (λ _. b) (by_relation_id h t relations found)
        ≡ (any (λ _. b) relations || any (λ _. b) found)
  unfolding by_relation_id
  some-by_relation_id b [] found = refl
  some-by_relation_id b (r ∷ relations) found =
      some-by_relation_id b relations (put_relation h t r found)
      ∙ ap (λ c. any (λ _. b) relations || c) (some-put_relation b r found)
      ∙ absorbed b (any (λ _. b) relations) (any (λ _. b) found) (some-implies b found)

  pub any-targets_of :
      (q r : CaseRelation h → Bool) (p : h.Ident → Bool) (relations : List (CaseRelation h))
      → any p (targets_of h t (keep q (keep r relations)))
        ≡ any (λ relation. r relation && (q relation && p relation.to_id)) relations
  any-targets_of q r p [] = refl
  any-targets_of q r p (relation ∷ relations) = ground (arith, any-targets_of q r p relations)
