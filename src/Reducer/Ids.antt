-- ===== src/Reducer/Ids.antt =====
-- src/native_model.rs: the identifiers that a morphism declares and those of its payload. A
-- `BTreeSet` is the list of its elements, asked by `contains`.
use casegraphen.Prelude.{
  String, Bool, ◌&&◌, List, [], ◌∷◌, ◌++◌, ok, not, require, ◌>>=◌, ◌>>◌, all, contains,
}
use casegraphen.Host.{Host}
use casegraphen.Model.{CaseCell, CaseRelation, CaseMorphism, MorphismPayload, CaseSpace}
use casegraphen.Reducer.Errors.{
  Applied, duplicate_in_list, duplicate_across_lists, duplicate_in_payload, ids_do_not_match,
}

module _ (h : Host) where
  abbrev pub cell_ids : List (CaseCell h) → List h.Ident
  cell_ids [] = []
  cell_ids (cell ∷ cells) = cell.id ∷ cell_ids cells

  abbrev pub relation_ids : List (CaseRelation h) → List h.Ident
  relation_ids [] = []
  relation_ids (relation ∷ relations) = relation.id ∷ relation_ids relations

  -- `set.contains(id)`
  abbrev pub has : List h.Ident → h.Ident → Bool
  has = contains h.id_discrete

  unfoldable pub derive_added_ids : MorphismPayload h → List h.Ident
  derive_added_ids payload = cell_ids payload.added_cells ++ relation_ids payload.added_relations

  unfoldable pub materialized_ids : CaseSpace h → List h.Ident
  materialized_ids space = cell_ids space.case_cells ++ relation_ids space.case_relations

  module _ (m : CaseMorphism h) where
    -- The loop of `collect_unique_ids`: the set of this list, and that of all lists.
    unfoldable pub collect_into :
        String
        → List h.Ident
        → List h.Ident
        → List h.Ident
        → Applied h (List h.Ident × List h.Ident)
    collect_into list_name [] list every = ok (list, every)
    collect_into list_name (id ∷ ids) list every = do
      require (not (has list id)) (duplicate_in_list m.morphism_id id list_name)
      require (not (has every id)) (duplicate_across_lists m.morphism_id id)
      collect_into list_name ids (id ∷ list) (id ∷ every)

    unfoldable pub collect_unique_ids :
        String → List h.Ident → List h.Ident → Applied h (List h.Ident × List h.Ident)
    unfolding collect_into
    collect_unique_ids list_name ids every = collect_into list_name ids [] every

    unfoldable pub validate_declared_morphism_ids : Applied h (List h.Ident × List h.Ident)
    validate_declared_morphism_ids = do
      added ← collect_unique_ids "added_ids" m.added_ids []
      updated ← collect_unique_ids "updated_ids" m.updated_ids added.1
      retired ← collect_unique_ids "retired_ids" m.retired_ids updated.1
      ok (added.0, updated.0)

    -- The sets `target` and `all` after the identifiers of one list.
    unfoldable pub collect_payload_ids :
        String
        → List h.Ident
        → List h.Ident
        → List h.Ident
        → Applied h (List h.Ident × List h.Ident)
    collect_payload_ids list_name [] target every = ok (target, every)
    collect_payload_ids list_name (id ∷ ids) target every = do
      require (not (has every id)) (duplicate_in_payload m.morphism_id id list_name)
      collect_payload_ids list_name ids (id ∷ target) (id ∷ every)

    unfoldable pub validate_payload_ids :
        MorphismPayload h → Applied h (List h.Ident × List h.Ident)
    validate_payload_ids payload = do
      cells ← collect_payload_ids "added_cells" (cell_ids payload.added_cells) [] []
      added ←
          collect_payload_ids "added_relations" (relation_ids payload.added_relations) cells.0
            cells.1
      changed ← collect_payload_ids "updated_cells" (cell_ids payload.updated_cells) [] added.1
      updated ←
          collect_payload_ids "updated_relations" (relation_ids payload.updated_relations) changed.0
            changed.1
      ok (added.0, updated.0)

    -- `declared == payload` on sets
    abbrev pub same_ids : List h.Ident → List h.Ident → Bool
    same_ids xs ys = all (has ys) xs && all (has xs) ys

    unfoldable pub require_matching_ids :
        String → List h.Ident → String → List h.Ident → Applied h Unit
    require_matching_ids declared_name declared payload_name payload =
        require (same_ids declared payload)
          (ids_do_not_match m.morphism_id declared_name declared payload_name payload)
