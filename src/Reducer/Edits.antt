-- ===== src/Reducer/Edits.antt =====
-- The reducer as a relation: a morphism that is applied makes a sequence of edits, each of which
-- has passed the rules for it.
pub mod Loops
pub mod Whole
use casegraphen.Prelude.{
  Bool, true, false, ◌||◌, Option, none, some, List, [], ◌∷◌, ◌++◌, ◌≡◌, refl, ok, find,
  modify_first, remove_first, contains-append,
}
use casegraphen.Host.{Host}
use casegraphen.Model.{CaseCell, CaseRelation, CaseMorphism, CaseSpace}
use casegraphen.Model.Lifecycle.{retired}
use casegraphen.Reducer.Guards.{
  require_artifact_relation_entered_via_attach, require_immutable_relation_update_fields,
}
use casegraphen.Reducer.Ids.{cell_ids, relation_ids, has}
use casegraphen.Reducer.Apply.{
  cell_is, relation_is, is_artifact_cell_id, check_added_cell, check_updated_cell,
  check_retired_cell,
}

module _ (h : Host) where
  -- The part of a case space that a morphism changes.
  pub record Content : Type 0 where
    pub cells : List (CaseCell h)
    pub relations : List (CaseRelation h)

  abbrev pub content : CaseSpace h → Content
  content space = record { cells = space.case_cells; relations = space.case_relations }

  abbrev pub content_ids : Content → List h.Ident
  content_ids x = cell_ids h x.cells ++ relation_ids h x.relations

  abbrev pub modify_cell : h.Ident → (CaseCell h → CaseCell h) → Content → Content
  modify_cell id f x = record x { cells = modify_first (cell_is h id) f x.cells }

  abbrev pub retire : CaseCell h → CaseCell h
  retire cell = record cell { lifecycle = retired }

  module _ (m : CaseMorphism h) (is_genesis : Bool) where
    pub data Edit : Content → Content → Type 0 where
      add_cell :
          (x : Content) (cell : CaseCell h)
          → check_added_cell h m is_genesis cell ≡ ok tt
          → has h (content_ids x) cell.id ≡ false
          → Edit x (record x { cells = x.cells ++ cell ∷ [] })
      add_relation :
          (x : Content) (relation : CaseRelation h)
          → require_artifact_relation_entered_via_attach h m relation
              (is_artifact_cell_id h relation.to_id x.cells)
            ≡ ok tt
          → has h (content_ids x) relation.id ≡ false
          → Edit x (record x { relations = x.relations ++ relation ∷ [] })
      update_cell :
          (x : Content) (existing cell : CaseCell h)
          → find (cell_is h cell.id) x.cells ≡ some existing
          → check_updated_cell h m is_genesis existing cell ≡ ok tt
          → Edit x (modify_cell cell.id (λ _. cell) x)
      update_relation :
          (x : Content) (existing relation : CaseRelation h)
          → find (relation_is h relation.id) x.relations ≡ some existing
          → require_immutable_relation_update_fields h m existing relation ≡ ok tt
          → Edit x (record x {
            relations = modify_first (relation_is h relation.id) (λ _. relation) x.relations;
          })
      retire_cell :
          (x : Content) (id : h.Ident) (cell : CaseCell h)
          → find (cell_is h id) x.cells ≡ some cell
          → check_retired_cell h m is_genesis id cell ≡ ok tt
          → Edit x (modify_cell id retire x)
      retire_relation :
          (x : Content) (id : h.Ident) (relation : CaseRelation h)
          → find (relation_is h id) x.relations ≡ some relation
          → Edit x (record x { relations = remove_first (relation_is h id) x.relations })

    pub data Edits (x : Content) : Content → Type 0 where
      done : Edits x x
      then_edit : {y z : Content} → Edits x y → Edit y z → Edits x z

    pub Edits-trans : {x y z : Content} → Edits x y → Edits y z → Edits x z
    Edits-trans p done = p
    Edits-trans p (then_edit q e) = then_edit (Edits-trans p q) e

    -- What every edit keeps is kept by a sequence of edits.
    pub Edits-keep {κ} :
        {P : Content → Type κ}
        → ((y z : Content) → Edit y z → P y → P z)
        → {x y : Content} → P x
        → Edits x y
        → P y
    Edits-keep step p done = p
    Edits-keep step p (then_edit {y} {z} q e) = step y z e (Edits-keep step p q)
