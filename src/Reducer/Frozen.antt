-- ===== src/Reducer/Frozen.antt =====
-- The cells that morphisms leave alone: capabilities after genesis, and artifacts.
pub mod Artifacts
use casegraphen.Prelude.{
  String, Bool, true, false, not, ◌&&◌, ◌||◌, Option, some, none, List, [], ◌∷◌, ◌++◌, Result, ok,
  ◌≡◌, refl, sym, ap, ◌∙◌, subst, arith, keep, keep-append, keep-modify_first, find, append_assoc,
  append-nil, ◌⊎◌, inl, inr, ◌>>=◌, require, if◌then◌else◌,
}
use casegraphen.Host.{Host}
use casegraphen.Model.{CaseCell, CaseMorphism, CaseSpace, MorphismPayload}
use casegraphen.Model.Kinds.{CaseCellType-discrete, is_evidence_attach, is_custom}
use casegraphen.Reducer.Guards.{
  is_artifact_cell, is_capability_cell, require_not_capability_administration,
  require_artifact_cell_entered_via_attach, require_artifact_cell_unchanged,
  require_immutable_cell_update_fields,
}
use casegraphen.Reducer.Apply.{
  cell_is, check_added_cell, check_updated_cell, check_retired_cell, apply_morphism, is_genesis_of,
}
use casegraphen.Reducer.Edits.{
  Content, content, retire, Edit, add_cell, add_relation, update_cell, update_relation, retire_cell,
  retire_relation, Edits, Edits-keep,
}
use casegraphen.Reducer.Edits.Whole.{apply_morphism-IsApplied}

module _ (h : Host) (m : CaseMorphism h) where
  added_capability :
      (cell : CaseCell h)
      → check_added_cell h m false cell ≡ ok tt
      → is_capability_cell h cell ≡ false
  unfolding check_added_cell require_not_capability_administration
  added_capability cell e = ground arith

  updated_capability :
      (existing cell : CaseCell h)
      → check_updated_cell h m false existing cell ≡ ok tt
      → (is_capability_cell h existing ≡ false) × (is_capability_cell h cell ≡ false)
  unfolding check_updated_cell require_not_capability_administration
  updated_capability existing cell e = ground arith

  retired_capability :
      (id : h.Ident) (cell : CaseCell h)
      → check_retired_cell h m false id cell ≡ ok tt
      → is_capability_cell h cell ≡ false
  unfolding check_retired_cell require_not_capability_administration
  retired_capability id cell e = ground arith

  retire-is_capability_cell :
      (cell : CaseCell h) → is_capability_cell h (retire h cell) ≡ is_capability_cell h cell
  unfolding is_capability_cell
  retire-is_capability_cell cell = refl

  abbrev capabilities : Content h → List (CaseCell h)
  capabilities x = keep (is_capability_cell h) x.cells

  Edit-capabilities : (x y : Content h) → Edit h m false x y → capabilities y ≡ capabilities x
  Edit-capabilities _ _ (add_cell x cell e _) =
      rw (keep-append (is_capability_cell h) x.cells (cell ∷ []), added_capability cell e)
        (append-nil (capabilities x))
  Edit-capabilities _ _ (add_relation x relation _ _) = refl
  Edit-capabilities _ _ (update_cell x existing cell found e) =
      let (before, after) = updated_capability existing cell e in
      keep-modify_first (cell_is h cell.id) (is_capability_cell h) (λ _. cell) x.cells found before
        after
  Edit-capabilities _ _ (update_relation x existing relation _ _) = refl
  Edit-capabilities _ _ (retire_cell x id cell found e) =
      let before = retired_capability id cell e in
      keep-modify_first (cell_is h id) (is_capability_cell h) (retire h) x.cells found before
        (retire-is_capability_cell cell ∙ before)
  Edit-capabilities _ _ (retire_relation x id relation _) = refl

  Edits-capabilities : (x y : Content h) → Edits h m false x y → capabilities y ≡ capabilities x
  Edits-capabilities x y =
      Edits-keep h m false {P = λ z. capabilities z ≡ capabilities x}
        (λ y z e p. Edit-capabilities y z e ∙ p) refl

-- After genesis no morphism adds, changes, retires or reorders a capability cell.
pub apply_morphism-capabilities :
    (h : Host) (decode : h.Value → Result String (MorphismPayload h)) (space final : CaseSpace h)
    (m : CaseMorphism h)
    → is_genesis_of h space m ≡ false
    → apply_morphism h decode space m ≡ ok final
    → keep (is_capability_cell h) final.case_cells ≡ keep (is_capability_cell h) space.case_cells
apply_morphism-capabilities h decode space final m later e =
    let a = apply_morphism-IsApplied h decode space final m e in
    Edits-capabilities h m (content h space) (content h final)
      (subst (λ g. Edits h m g (content h space) (content h final)) later a.edits)
