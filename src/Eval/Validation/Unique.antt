-- ===== src/Eval/Validation/Unique.antt =====
-- src/native_eval/validation.rs: what a case space that passes the validation is like.
use casegraphen.Prelude.{
  Bool, true, false, not, ◌&&◌, Option, none, some, List, [], ◌∷◌, ◌++◌, ◌≡◌, refl, ok, unique,
  same-eq, same_self, arith, sym, ◌∙◌, subst,
}
use casegraphen.Host.{Host}
use casegraphen.Model.{CaseCell, CaseRelation, Projection, MorphismLogEntry, CaseSpace}
use casegraphen.Reducer.Ids.{has, cell_ids, relation_ids, materialized_ids}
use casegraphen.Review.{Terms}
use casegraphen.Review.Gate.Authorized.{is_empty-append}
use casegraphen.Eval.Validation.{
  Collected, insert_id, insert_silently, insert_cells, insert_relations, insert_projections,
  insert_entries, collect_declared_ids, validate_cell, duplicate_id, check, Violations,
  validate_schema, validate_source_boundary,
}
use casegraphen.Eval.Validation.Log.{is_empty, violations, verdict, validate_native_case_space}

module _ (h : Host) (t : Terms h) where
  abbrev run : List h.Ident → List h.Ident → List h.Ident
  run ids [] = ids
  run ids (x ∷ xs) = run (x ∷ ids) xs

  -- No identifier of the list is among these or stands twice.
  abbrev new : List h.Ident → List h.Ident → Bool
  new ids [] = true
  new ids (x ∷ xs) = not (has h ids x) && new (x ∷ ids) xs

  new-append : (ids xs ys : List h.Ident) → new ids (xs ++ ys) ≡ (new ids xs && new (run ids xs) ys)
  new-append ids [] ys = refl
  new-append ids (x ∷ xs) ys = ground (arith, new-append (x ∷ ids) xs ys)

  new-apart :
      (ids xs : List h.Ident) (a : h.Ident)
      → new ids xs ≡ true
      → has h ids a ≡ true
      → has h xs a ≡ false
  new-apart ids [] a n i = refl
  new-apart ids (x ∷ xs) a n i = ground (arith, new-apart (x ∷ ids) xs a, same-eq h.id_discrete x a)

  new-unique : (ids xs : List h.Ident) → new ids xs ≡ true → unique h.id_discrete xs ≡ true
  new-unique ids [] n = refl
  new-unique ids (x ∷ xs) n =
      ground (arith, new-unique (x ∷ ids) xs, new-apart (x ∷ ids) xs x, same_self h.id_discrete x)

  check-empty :
      (test : Bool) (record_id : h.Ident)
      → is_empty (check h t test duplicate_id record_id "id") ≡ test
  check-empty true record_id = refl
  check-empty false record_id = refl

  cells-new :
      (space : CaseSpace h) (cells : List (CaseCell h)) (ids : List h.Ident) (vs : Violations h t)
      → is_empty (insert_cells h t space cells (ids, vs)).1 ≡ true
      → (is_empty vs ≡ true)
        × (new ids (cell_ids h cells) ≡ true)
        × ((insert_cells h t space cells (ids, vs)).0 ≡ run ids (cell_ids h cells))
  unfolding insert_cells
  cells-new space [] ids vs e = (e, refl, refl)
  cells-new space (c ∷ cells) ids vs e =
      let inserted = check h t (not (has h ids c.id)) duplicate_id c.id "id" in
      let rest =
        cells-new space cells (c.id ∷ ids) ((vs ++ inserted) ++ validate_cell h t space c) e in
      ground (
        arith,
        rest.0,
        rest.1,
        rest.2,
        is_empty-append (vs ++ inserted) (validate_cell h t space c),
        is_empty-append vs inserted,
        check-empty (not (has h ids c.id)) c.id,
      )

  relations-new :
      (relations : List (CaseRelation h)) (ids : List h.Ident) (vs : Violations h t)
      → is_empty (insert_relations h t relations (ids, vs)).1 ≡ true
      → (is_empty vs ≡ true) × (new ids (relation_ids h relations) ≡ true)
  unfolding insert_relations
  relations-new [] ids vs e = (e, refl)
  relations-new (r ∷ relations) ids vs e =
      let inserted = check h t (not (has h ids r.id)) duplicate_id r.id "id" in
      let rest = relations-new relations (r.id ∷ ids) (vs ++ inserted) e in
      ground (
        arith,
        rest.0,
        rest.1,
        is_empty-append vs inserted,
        check-empty (not (has h ids r.id)) r.id,
      )

  append-empty : (vs ws : Violations h t) → is_empty (vs ++ ws) ≡ true → is_empty vs ≡ true
  append-empty vs ws e = ground (arith, is_empty-append vs ws)

  projections-old :
      (projections : List (Projection h)) (c : Collected h t)
      → is_empty (insert_projections h t projections c).1 ≡ true
      → is_empty c.1 ≡ true
  unfolding insert_projections
  projections-old [] c e = e
  projections-old (p ∷ projections) c e =
      append-empty c.1
        (check h t (not (has h c.0 p.projection_id)) duplicate_id p.projection_id "id")
        (projections-old projections (insert_id h t p.projection_id c) e)

  silent : (o : Option h.Ident) (c : Collected h t) → (insert_silently h t o c).1 ≡ c.1
  silent none c = refl
  silent (some id) c = refl

  entries-old :
      (entries : List (MorphismLogEntry h)) (c : Collected h t)
      → is_empty (insert_entries h t entries c).1 ≡ true
      → is_empty c.1 ≡ true
  unfolding insert_entries
  entries-old [] c e = e
  entries-old (entry ∷ entries) c e =
      let inner = insert_id h t entry.entry_id c in
      let outer = insert_id h t entry.morphism_id inner in
      let below =
        entries-old entries
          (insert_silently h t entry.source_revision_id
            (insert_silently h t (some entry.target_revision_id) outer))
          e in
      let at =
        subst (λ vs. is_empty vs ≡ true)
          (silent entry.source_revision_id
            (insert_silently h t (some entry.target_revision_id) outer))
          below in
      append-empty c.1 (check h t (not (has h c.0 entry.entry_id)) duplicate_id entry.entry_id "id")
        (append-empty inner.1
          (check h t (not (has h inner.0 entry.morphism_id)) duplicate_id entry.morphism_id "id")
          at)

  third :
      (xs bs cs ds : Violations h t)
      → verdict h t (xs ++ (bs ++ (cs ++ ds))) ≡ ok tt
      → is_empty cs ≡ true
  third [] [] [] ds e = refl
  third [] [] (c ∷ cs) ds e = cc
  third [] (b ∷ bs) cs ds e = cc
  third (a ∷ xs) bs cs ds e = cc

  declared-empty :
      (space : CaseSpace h)
      → validate_native_case_space h t space ≡ ok tt
      → is_empty (collect_declared_ids h t space).1 ≡ true
  unfolding validate_native_case_space violations
  declared-empty space e =
      third (validate_schema h t space) (validate_source_boundary h t space)
        (collect_declared_ids h t space).1 _ e

  -- A case space that passes the validation has no identifier twice among its cells and relations.
  pub validate_native_case_space-unique :
      (space : CaseSpace h)
      → validate_native_case_space h t space ≡ ok tt
      → unique h.id_discrete (materialized_ids h space) ≡ true
  unfolding materialized_ids collect_declared_ids
  validate_native_case_space-unique space e =
      let cells = insert_cells h t space space.case_cells ([], []) in
      let relations = insert_relations h t space.case_relations cells in
      let projections = insert_projections h t space.projections relations in
      let revision = insert_id h t space.revision.revision_id projections in
      let quiet = entries-old space.morphism_log revision (declared-empty space e) in
      let quiet' =
        append-empty projections.1
          (check h t (not (has h projections.0 space.revision.revision_id)) duplicate_id
            space.revision.revision_id "id")
          quiet in
      let r =
        relations-new space.case_relations cells.0 cells.1
          (projections-old space.projections relations quiet') in
      let c = cells-new space space.case_cells [] [] r.0 in
      let back = sym c.2 in
      new-unique [] (cell_ids h space.case_cells ++ relation_ids h space.case_relations) (
        new-append [] (cell_ids h space.case_cells) (relation_ids h space.case_relations)
        ∙ (λ i. c.1 i && new (back i) (relation_ids h space.case_relations))
        ∙ r.1)
