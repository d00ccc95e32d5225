-- ===== src/Reducer/Apply.antt =====
-- src/native_model.rs: `apply_morphism`, one function for each of its loops. `decode` is
-- `serde_json::from_value` at the payload's type.
use casegraphen.Prelude.{
  String, Bool, true, false, not, ◌&&◌, Option, none, some, List, [], ◌∷◌, ◌++◌, Result, ok, err,
  require, ◌>>=◌, ◌>>◌, same, find, any, modify_first, remove_first,
}
use casegraphen.Host.{Host}
use casegraphen.Model.{CaseCell, CaseRelation, CaseMorphism, MorphismPayload, CaseSpace}
use casegraphen.Model.Lifecycle.{retired}
use casegraphen.Reducer.Errors.{
  Applied, malformed_payload, cell_exists, relation_exists, cell_missing, relation_missing,
  retired_missing, missing_endpoint,
}
use casegraphen.Reducer.Guards.{
  is_artifact_cell, require_not_capability_administration, require_artifact_cell_entered_via_attach,
  require_artifact_relation_entered_via_attach, require_untrusted_added_evidence,
  require_immutable_relation_update_fields, require_artifact_cell_unchanged,
  require_immutable_cell_update_fields, require_lifecycle_transition,
}
use casegraphen.Reducer.Ids.{
  cell_ids, has, materialized_ids, validate_declared_morphism_ids, validate_payload_ids,
  require_matching_ids,
}

abbrev is_empty {ℓ} : {A : Type ℓ} → List A → Bool
is_empty [] = true
is_empty (_ ∷ _) = false

abbrev is_none {ℓ} : {A : Type ℓ} → Option A → Bool
is_none none = true
is_none (some _) = false

-- `map_err` of the decoder's message
abbrev decoded :
    {h : Host} → CaseMorphism h → Result String (MorphismPayload h) → Applied h (MorphismPayload h)
decoded m (ok payload) = ok payload
decoded m (err message) = err (malformed_payload m.morphism_id message)

module _ (h : Host) where
  -- `candidate.id == id`
  abbrev pub cell_is : h.Ident → CaseCell h → Bool
  cell_is id cell = same h.id_discrete cell.id id

  abbrev pub relation_is : h.Ident → CaseRelation h → Bool
  relation_is id relation = same h.id_discrete relation.id id

  unfoldable pub is_artifact_cell_id : h.Ident → List (CaseCell h) → Bool
  is_artifact_cell_id id = any (λ cell. cell_is id cell && is_artifact_cell h cell)

  -- The checks of each loop, in their order.
  unfoldable pub check_added_cell : CaseMorphism h → Bool → CaseCell h → Applied h Unit
  check_added_cell m is_genesis cell = do
    require_not_capability_administration h m cell "add" is_genesis
    require_untrusted_added_evidence h m cell is_genesis
    require_artifact_cell_entered_via_attach h m cell

  unfoldable pub check_updated_cell :
      CaseMorphism h → Bool → CaseCell h → CaseCell h → Applied h Unit
  check_updated_cell m is_genesis existing cell = do
    require_not_capability_administration h m existing "update" is_genesis
    require_not_capability_administration h m cell "update" is_genesis
    require_immutable_cell_update_fields h m existing cell
    require_lifecycle_transition h m cell.id existing.lifecycle cell.lifecycle

  unfoldable pub check_retired_cell : CaseMorphism h → Bool → h.Ident → CaseCell h → Applied h Unit
  check_retired_cell m is_genesis id cell = do
    require_not_capability_administration h m cell "retire" is_genesis
    require_artifact_cell_unchanged h m cell "retire"
    require_lifecycle_transition h m id cell.lifecycle retired

  module _ (m : CaseMorphism h) (is_genesis : Bool) where
    unfoldable pub add_cells :
        List (CaseCell h)
        → List (CaseCell h)
        → List h.Ident
        → Applied h (List (CaseCell h) × List h.Ident)
    add_cells [] cells known_ids = ok (cells, known_ids)
    add_cells (cell ∷ added) cells known_ids = do
      check_added_cell m is_genesis cell
      require (not (has h known_ids cell.id)) (cell_exists m.morphism_id cell.id)
      add_cells added (cells ++ cell ∷ []) (cell.id ∷ known_ids)

    unfoldable pub update_cells :
        List (CaseCell h) → List (CaseCell h) → Applied h (List (CaseCell h))
    update_cells [] cells = ok cells
    update_cells (cell ∷ updated) cells = elim (find (cell_is cell.id) cells) [
      | none ↦ err (cell_missing m.morphism_id cell.id)
      | some existing ↦ do
        check_updated_cell m is_genesis existing cell
        update_cells updated (modify_first (cell_is cell.id) (λ _. cell) cells)
    ]

    unfoldable pub retire_ids :
        List h.Ident
        → List (CaseCell h)
        → List (CaseRelation h)
        → Applied h (List (CaseCell h) × List (CaseRelation h))
    retire_ids [] cells relations = ok (cells, relations)
    retire_ids (id ∷ ids) cells relations = elim (find (cell_is id) cells) [
      | some cell ↦ do
        check_retired_cell m is_genesis id cell
        retire_ids ids
            (modify_first (cell_is id) (λ (c : CaseCell h). record c { lifecycle = retired }) cells)
            relations
      | none ↦ elim (find (relation_is id) relations) [
        | some _ ↦ retire_ids ids cells (remove_first (relation_is id) relations)
        | none ↦ err (retired_missing m.morphism_id id)
      ]
    ]

  module _ (m : CaseMorphism h) where
    unfoldable pub add_relations :
        List (CaseCell h)
        → List (CaseRelation h)
        → List (CaseRelation h)
        → List h.Ident
        → Applied h (List (CaseRelation h) × List h.Ident)
    add_relations cells [] relations known_ids = ok (relations, known_ids)
    add_relations cells (relation ∷ added) relations known_ids = do
      require_artifact_relation_entered_via_attach h m relation
          (is_artifact_cell_id relation.to_id cells)
      require (not (has h known_ids relation.id)) (relation_exists m.morphism_id relation.id)
      add_relations cells added (relations ++ relation ∷ []) (relation.id ∷ known_ids)

    unfoldable pub update_relations :
        List (CaseRelation h) → List (CaseRelation h) → Applied h (List (CaseRelation h))
    update_relations [] relations = ok relations
    update_relations (relation ∷ updated) relations =
        elim (find (relation_is relation.id) relations) [
          | none ↦ err (relation_missing m.morphism_id relation.id)
          | some existing ↦ do
            require_immutable_relation_update_fields h m existing relation
            update_relations updated
                (modify_first (relation_is relation.id) (λ _. relation) relations)
        ]

    -- The loop over all relations at the end.
    unfoldable pub require_endpoints : List h.Ident → List (CaseRelation h) → Applied h Unit
    require_endpoints ids [] = ok tt
    require_endpoints ids (relation ∷ relations) = do
      require (has h ids relation.from_id)
          (missing_endpoint m.morphism_id relation.id "from_id" relation.from_id)
      require (has h ids relation.to_id)
          (missing_endpoint m.morphism_id relation.id "to_id" relation.to_id)
      require_endpoints ids relations

  -- `source_revision_id.is_none()` and an empty case space
  unfoldable pub is_genesis_of : CaseSpace h → CaseMorphism h → Bool
  is_genesis_of space m =
      is_none m.source_revision_id
      && is_empty space.case_cells
      && is_empty space.case_relations
      && is_empty space.morphism_log

  module _ (decode : h.Value → Result String (MorphismPayload h)) where
    unfoldable pub morphism_payload : CaseMorphism h → Applied h (MorphismPayload h)
    morphism_payload m = elim (h.get m.metadata "payload") [
      | none ↦ ok (record {
        added_cells = [];
        added_relations = [];
        updated_cells = [];
        updated_relations = [];
      })
      | some value ↦ decoded m (decode value)
    ]

    -- The checks before anything is changed.
    unfoldable pub checked_payload : CaseMorphism h → Applied h (MorphismPayload h)
    checked_payload m = do
      payload ← morphism_payload m
      declared ← validate_declared_morphism_ids h m
      carried ← validate_payload_ids h m payload
      require_matching_ids h m "added_ids" declared.0 "payload added_cells and added_relations"
          carried.0
      require_matching_ids h m "updated_ids" declared.1
          "payload updated_cells and updated_relations" carried.1
      ok payload

    unfoldable pub apply_morphism : CaseSpace h → CaseMorphism h → Applied h (CaseSpace h)
    apply_morphism space m = do
      payload ← checked_payload m
      let is_genesis = is_genesis_of space m
      cells ← add_cells m is_genesis payload.added_cells space.case_cells (materialized_ids h space)
      relations ← add_relations m cells.0 payload.added_relations space.case_relations cells.1
      changed ← update_cells m is_genesis payload.updated_cells cells.0
      related ← update_relations m payload.updated_relations relations.0
      final ← retire_ids m is_genesis m.retired_ids changed related
      require_endpoints m (cell_ids h final.0) final.1
      ok (record space { case_cells = final.0; case_relations = final.1 })
