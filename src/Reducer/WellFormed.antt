-- ===== src/Reducer/WellFormed.antt =====
-- Identifiers stay unique and relations stay attached, whatever morphism is applied.
use casegraphen.Prelude.{
  String, Bool, true, List, [], ◌∷◌, ◌++◌, Result, ok, ◌≡◌, refl, sym, subst, arith, All,
  Bool-cases, inl, inr, unique, unique-insert, unique-remove, modify_first, remove_first, same-eq,
  append_assoc, append-nil, >>=-eq-ok, require-eq-ok,
}
use casegraphen.Host.{Host}
use casegraphen.Model.{CaseCell, CaseRelation, CaseMorphism, CaseSpace, MorphismPayload}
use casegraphen.Reducer.Ids.{cell_ids, relation_ids, has, materialized_ids}
use casegraphen.Reducer.Apply.{
  cell_is, relation_is, require_endpoints, apply_morphism, is_genesis_of,
}
use casegraphen.Reducer.Edits.{
  Content, content_ids, retire, Edit, add_cell, add_relation, update_cell, update_relation,
  retire_cell, retire_relation, Edits, Edits-keep,
}
use casegraphen.Reducer.Edits.Loops.{cell_ids-append, relation_ids-append}
use casegraphen.Reducer.Edits.Whole.{apply_morphism-IsApplied}

module _ (h : Host) where
  -- Both ends of the relation are cells.
  abbrev pub IsAttached : List (CaseCell h) → CaseRelation h → Type 0
  IsAttached cells relation =
      (has h (cell_ids h cells) relation.from_id ≡ true)
      × (has h (cell_ids h cells) relation.to_id ≡ true)

  pub record IsWellFormed (space : CaseSpace h) : Type 0 where
    pub ids_unique : unique h.id_discrete (materialized_ids h space) ≡ true
    pub attached : All (IsAttached space.case_cells) space.case_relations

  -- A change of a cell that keeps its identifier keeps the list of identifiers.
  pub cell_ids-modify_first :
      (id : h.Ident) (f : CaseCell h → CaseCell h) (cells : List (CaseCell h))
      → ((c : CaseCell h) → cell_is h id c ≡ true → (f c).id ≡ c.id)
      → cell_ids h (modify_first (cell_is h id) f cells) ≡ cell_ids h cells
  cell_ids-modify_first id f [] k = refl
  cell_ids-modify_first id f (c ∷ cells) k = ground (arith, k c, cell_ids-modify_first id f cells k)

  pub relation_ids-modify_first :
      (id : h.Ident) (r : CaseRelation h) (relations : List (CaseRelation h))
      → r.id ≡ id
      → relation_ids h (modify_first (relation_is h id) (λ _. r) relations)
        ≡ relation_ids h relations
  relation_ids-modify_first id r [] k = refl
  relation_ids-modify_first id r (x ∷ relations) k =
      ground (arith, relation_ids-modify_first id r relations k)

  unique-remove_first :
      (id : h.Ident) (before : List h.Ident) (relations : List (CaseRelation h))
      → unique h.id_discrete (before ++ relation_ids h relations) ≡ true
      → unique h.id_discrete (before ++ relation_ids h (remove_first (relation_is h id) relations))
        ≡ true
  unique-remove_first id before [] u = u
  unique-remove_first id before (r ∷ relations) u = elim (Bool-cases (relation_is h id r)) [
    | inl e ↦ rw e (unique-remove h.id_discrete before (relation_ids h relations) r.id u)
    | inr e ↦ rw e (
        subst (λ ids. unique h.id_discrete ids ≡ true)
          (append_assoc before (r.id ∷ [])
            (relation_ids h (remove_first (relation_is h id) relations)))
          (unique-remove_first id (before ++ r.id ∷ []) relations
            (rw (append_assoc before (r.id ∷ []) (relation_ids h relations)) u)))
  ]

  abbrev IsUnique : Content h → Type 0
  IsUnique x = unique h.id_discrete (content_ids h x) ≡ true

  module _ (m : CaseMorphism h) (g : Bool) where
    Edit-IsUnique : (x y : Content h) → Edit h m g x y → IsUnique x → IsUnique y
    Edit-IsUnique _ _ (add_cell x cell _ fresh) u =
        rw
          (
            cell_ids-append h x.cells (cell ∷ []),
            append_assoc (cell_ids h x.cells) (cell.id ∷ []) (relation_ids h x.relations),
          )
          (unique-insert h.id_discrete (cell_ids h x.cells) (relation_ids h x.relations) cell.id u
            fresh)
    Edit-IsUnique _ _ (add_relation x relation _ fresh) u =
        let ids = content_ids h x in
        rw
          (
            relation_ids-append h x.relations (relation ∷ []),
            ← append_assoc (cell_ids h x.cells) (relation_ids h x.relations) (relation.id ∷ []),
          )
          (unique-insert h.id_discrete ids [] relation.id (rw (append-nil ids) u)
            (rw (append-nil ids) fresh))
    Edit-IsUnique _ _ (update_cell x existing cell found _) u =
        rw
          (cell_ids-modify_first cell.id (λ _. cell) x.cells
            (λ c e. sym (same-eq h.id_discrete _ _ e)))
          u
    Edit-IsUnique _ _ (update_relation x existing relation found _) u =
        rw (relation_ids-modify_first relation.id relation x.relations refl) u
    Edit-IsUnique _ _ (retire_cell x id cell found _) u =
        rw (cell_ids-modify_first id (retire h) x.cells (λ c e. refl)) u
    Edit-IsUnique _ _ (retire_relation x id relation found) u =
        unique-remove_first id (cell_ids h x.cells) x.relations u

    Edits-IsUnique : {x y : Content h} → IsUnique x → Edits h m g x y → IsUnique y
    Edits-IsUnique = Edits-keep h m g Edit-IsUnique

  require_endpoints-IsAttached :
      (m : CaseMorphism h) (cells : List (CaseCell h)) (relations : List (CaseRelation h))
      → require_endpoints h m (cell_ids h cells) relations ≡ ok tt
      → All (IsAttached cells) relations
  unfolding require_endpoints
  require_endpoints-IsAttached m cells [] e = tt
  require_endpoints-IsAttached m cells (r ∷ relations) e =
      let (_, from, e₁) = >>=-eq-ok _ _ e in
      let (_, to, e₂) = >>=-eq-ok _ _ e₁ in
      (
        (require-eq-ok _ _ from, require-eq-ok _ _ to),
        require_endpoints-IsAttached m cells relations e₂,
      )

-- A morphism that is applied to a case space whose identifiers are unique, over cells and relations
-- together, and whose relations each have a cell at both ends leaves both so.
pub apply_morphism-IsWellFormed :
    (h : Host) (decode : h.Value → Result String (MorphismPayload h)) (space final : CaseSpace h)
    (m : CaseMorphism h)
    → IsWellFormed h space
    → apply_morphism h decode space m ≡ ok final
    → IsWellFormed h final
unfolding materialized_ids
apply_morphism-IsWellFormed h decode space final m w e =
    let a = apply_morphism-IsApplied h decode space final m e in
    record {
      ids_unique = Edits-IsUnique h m (is_genesis_of h space m) w.ids_unique a.edits;
      attached = require_endpoints-IsAttached h m final.case_cells final.case_relations a.endpoints;
    }
