-- ===== src/Reducer/Edits/Loops.antt =====
-- Each loop of the reducer, where it succeeds, makes edits.
use casegraphen.Prelude.{
  Bool, true, false, not, List, [], ◌∷◌, ◌++◌, ◌≡◌, refl, sym, ap, ◌∙◌, ok, >>=-eq-ok,
  require-eq-ok, find, modify_first, remove_first, contains-append, arith, Option-cases,
  ok-injective, subst, inl, inr,
}
use casegraphen.Host.{Host}
use casegraphen.Model.{CaseCell, CaseRelation, CaseMorphism}
use casegraphen.Reducer.Ids.{cell_ids, relation_ids, has}
use casegraphen.Reducer.Apply.{
  cell_is, relation_is, add_cells, add_relations, update_cells, update_relations, retire_ids,
}
use casegraphen.Reducer.Edits.{
  Content, content_ids, modify_cell, retire, Edits, done, then_edit, Edits-trans, add_cell,
  add_relation, update_cell, update_relation, retire_cell, retire_relation,
}

module _ (h : Host) where
  pub cell_ids-append :
      (xs ys : List (CaseCell h)) → cell_ids h (xs ++ ys) ≡ cell_ids h xs ++ cell_ids h ys
  cell_ids-append [] ys = refl
  cell_ids-append (x ∷ xs) ys = ap (λ ids. x.id ∷ ids) (cell_ids-append xs ys)

  pub relation_ids-append :
      (xs ys : List (CaseRelation h))
      → relation_ids h (xs ++ ys) ≡ relation_ids h xs ++ relation_ids h ys
  relation_ids-append [] ys = refl
  relation_ids-append (x ∷ xs) ys = ap (λ ids. x.id ∷ ids) (relation_ids-append xs ys)

  -- The set of the known identifiers is that of the content.
  abbrev pub Knows : List h.Ident → Content h → Type 0
  Knows known x = (id : h.Ident) → has h known id ≡ has h (content_ids h x) id

  Knows-add_cell :
      (known : List h.Ident) (x : Content h) (cell : CaseCell h)
      → Knows known x
      → Knows (cell.id ∷ known) (record x { cells = x.cells ++ cell ∷ [] })
  Knows-add_cell known x cell k id = rw (cell_ids-append x.cells (cell ∷ [])) (
      ground (
        arith,
        k id,
        contains-append h.id_discrete (cell_ids h x.cells ++ cell.id ∷ [])
            (relation_ids h x.relations) id,
        contains-append h.id_discrete (cell_ids h x.cells) (cell.id ∷ []) id,
        contains-append h.id_discrete (cell_ids h x.cells) (relation_ids h x.relations) id,
      ))

  Knows-add_relation :
      (known : List h.Ident) (x : Content h) (relation : CaseRelation h)
      → Knows known x
      → Knows (relation.id ∷ known) (record x { relations = x.relations ++ relation ∷ [] })
  Knows-add_relation known x relation k id = rw (relation_ids-append x.relations (relation ∷ [])) (
      ground (
        arith,
        k id,
        contains-append h.id_discrete (cell_ids h x.cells)
            (relation_ids h x.relations ++ relation.id ∷ []) id,
        contains-append h.id_discrete (relation_ids h x.relations) (relation.id ∷ []) id,
        contains-append h.id_discrete (cell_ids h x.cells) (relation_ids h x.relations) id,
      ))

  not-eq-false : (b : Bool) → not b ≡ true → b ≡ false
  not-eq-false b e = ground arith

  module _ (m : CaseMorphism h) (g : Bool) where
    pub add_cells-Edits :
        (added : List (CaseCell h)) (x : Content h) (known : List h.Ident)
        {cells : List (CaseCell h)} {known' : List h.Ident}
        → Knows known x
        → add_cells h m g added x.cells known ≡ ok (cells, known')
        → Edits h m g x (record x { cells = cells }) × Knows known' (record x { cells = cells })
    unfolding add_cells
    add_cells-Edits [] x known {cells} {known'} k e =
        let p = ok-injective e in
        (subst
          (λ (q : List (CaseCell h) × List h.Ident).
            Edits h m g x (record x { cells = q.0 }) × Knows q.1 (record x { cells = q.0 }))
          p (done, k))
    add_cells-Edits (cell ∷ added) x known k e =
        let (_, checked, e₁) = >>=-eq-ok _ _ e in
        let (_, fresh, e₂) = >>=-eq-ok _ _ e₁ in
        let y = record x { cells = x.cells ++ cell ∷ [] } in
        let (edits, k') =
          add_cells-Edits added y (cell.id ∷ known) (Knows-add_cell known x cell k) e₂ in
        (
          Edits-trans h m g
              (then_edit done (
                add_cell x cell checked
                  (sym (k cell.id) ∙ not-eq-false _ (require-eq-ok _ _ fresh))))
              edits,
          k',
        )

    pub update_cells-Edits :
        (updated : List (CaseCell h)) (x : Content h) {cells : List (CaseCell h)}
        → update_cells h m g updated x.cells ≡ ok cells
        → Edits h m g x (record x { cells = cells })
    unfolding update_cells
    update_cells-Edits [] x e =
        subst (λ c. Edits h m g x (record x { cells = c })) (ok-injective e) done
    update_cells-Edits (cell ∷ updated) x e =
        elim (Option-cases (find (cell_is h cell.id) x.cells)) [
          | inl missing ↦ absurd (cc (rw (missing, update_cells) at e))
          | inr (existing, found) ↦
              let (_, checked, rest) = >>=-eq-ok _ _ (rw (found, update_cells) at e) in
              Edits-trans h m g (then_edit done (update_cell x existing cell found checked))
                (update_cells-Edits updated (modify_cell h cell.id (λ _. cell) x) rest)
        ]

    pub add_relations-Edits :
        (added : List (CaseRelation h)) (x : Content h) (known : List h.Ident)
        {relations : List (CaseRelation h)} {known' : List h.Ident}
        → Knows known x
        → add_relations h m x.cells added x.relations known ≡ ok (relations, known')
        → Edits h m g x (record x { relations = relations })
    unfolding add_relations
    add_relations-Edits [] x known {relations} {known'} k e =
        subst
          (λ (q : List (CaseRelation h) × List h.Ident).
            Edits h m g x (record x { relations = q.0 }))
          (ok-injective e) done
    add_relations-Edits (relation ∷ added) x known k e =
        let (_, checked, e₁) = >>=-eq-ok _ _ e in
        let (_, fresh, e₂) = >>=-eq-ok _ _ e₁ in
        let is_new = sym (k relation.id) ∙ not-eq-false _ (require-eq-ok _ _ fresh) in
        Edits-trans h m g (then_edit done (add_relation x relation checked is_new)) (
          add_relations-Edits added (record x { relations = x.relations ++ relation ∷ [] })
            (relation.id ∷ known) (Knows-add_relation known x relation k) e₂)

    pub update_relations-Edits :
        (updated : List (CaseRelation h)) (x : Content h) {relations : List (CaseRelation h)}
        → update_relations h m updated x.relations ≡ ok relations
        → Edits h m g x (record x { relations = relations })
    unfolding update_relations
    update_relations-Edits [] x e =
        subst (λ r. Edits h m g x (record x { relations = r })) (ok-injective e) done
    update_relations-Edits (relation ∷ updated) x e =
        elim (Option-cases (find (relation_is h relation.id) x.relations)) [
          | inl missing ↦ absurd (cc (rw (missing, update_relations) at e))
          | inr (existing, found) ↦
              let (_, checked, rest) = >>=-eq-ok _ _ (rw (found, update_relations) at e) in
              let changed = modify_first (relation_is h relation.id) (λ _. relation) x.relations in
              Edits-trans h m g (then_edit done (update_relation x existing relation found checked))
                (update_relations-Edits updated (record x { relations = changed }) rest)
        ]

    pub retire_ids-Edits :
        (ids : List h.Ident) (x : Content h) {cells : List (CaseCell h)}
        {relations : List (CaseRelation h)}
        → retire_ids h m g ids x.cells x.relations ≡ ok (cells, relations)
        → Edits h m g x (record { cells = cells; relations = relations })
    unfolding retire_ids
    retire_ids-Edits [] x e =
        subst
          (λ (q : List (CaseCell h) × List (CaseRelation h)).
            Edits h m g x (record { cells = q.0; relations = q.1 }))
          (ok-injective e) done
    retire_ids-Edits (id ∷ ids) x e = elim (Option-cases (find (cell_is h id) x.cells)) [
      | inr (cell, found) ↦
          let (_, checked, rest) = >>=-eq-ok _ _ (rw (found, retire_ids) at e) in
          Edits-trans h m g (then_edit done (retire_cell x id cell found checked))
            (retire_ids-Edits ids (modify_cell h id (retire h) x) rest)
      | inl no_cell ↦ elim (Option-cases (find (relation_is h id) x.relations)) [
        | inl missing ↦ absurd (cc (rw (no_cell, missing, retire_ids) at e))
        | inr (relation, found) ↦
            Edits-trans h m g (then_edit done (retire_relation x id relation found)) (
              retire_ids-Edits ids
                (record x { relations = remove_first (relation_is h id) x.relations })
                (rw (no_cell, found, retire_ids) at e))
      ]
    ]
