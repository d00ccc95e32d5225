-- ===== src/Reducer/Frozen/Artifacts.antt =====
-- Artifact cells enter through an attachment of evidence and are then left alone.
use casegraphen.Prelude.{
  String, Bool, true, false, List, [], ◌∷◌, ◌++◌, Result, ok, ◌≡◌, refl, sym, ap, ◌∙◌, arith, keep,
  keep-append, keep-modify_first, append_assoc, append-nil, ◌⊎◌, inl, inr,
}
use casegraphen.Host.{Host}
use casegraphen.Model.{CaseCell, CaseMorphism, CaseSpace, MorphismPayload}
use casegraphen.Model.Kinds.{is_evidence_attach}
use casegraphen.Reducer.Guards.{
  is_artifact_cell, require_artifact_cell_entered_via_attach, require_artifact_cell_unchanged,
  require_immutable_cell_update_fields,
}
use casegraphen.Reducer.Apply.{
  cell_is, check_added_cell, check_updated_cell, check_retired_cell, apply_morphism, is_genesis_of,
}
use casegraphen.Reducer.Edits.{
  Content, content, retire, Edit, add_cell, add_relation, update_cell, update_relation, retire_cell,
  retire_relation, Edits, Edits-keep,
}
use casegraphen.Reducer.Edits.Whole.{apply_morphism-IsApplied}

module _ (h : Host) (m : CaseMorphism h) (g : Bool) where
  added_artifact :
      (cell : CaseCell h)
      → check_added_cell h m g cell ≡ ok tt
      → (is_artifact_cell h cell ≡ false) ⊎ (is_evidence_attach m.morphism_type ≡ true)
  unfolding check_added_cell require_artifact_cell_entered_via_attach
  added_artifact cell e = ground arith

  updated_type :
      (existing cell : CaseCell h)
      → check_updated_cell h m g existing cell ≡ ok tt
      → (existing.cell_type ≡ cell.cell_type) × (is_artifact_cell h existing ≡ false)
  unfolding check_updated_cell require_immutable_cell_update_fields require_artifact_cell_unchanged
  updated_type existing cell e = ground arith

  is_artifact_cell-congr :
      (a b : CaseCell h) → a.cell_type ≡ b.cell_type → is_artifact_cell h a ≡ is_artifact_cell h b
  unfolding is_artifact_cell
  is_artifact_cell-congr a b e = cc

  retired_artifact :
      (id : h.Ident) (cell : CaseCell h)
      → check_retired_cell h m g id cell ≡ ok tt
      → is_artifact_cell h cell ≡ false
  unfolding check_retired_cell require_artifact_cell_unchanged
  retired_artifact id cell e = ground arith

  abbrev artifacts : Content h → List (CaseCell h)
  artifacts x = keep (is_artifact_cell h) x.cells

  -- The artifacts grow at the end, and only by an attachment.
  abbrev pub Grows : List (CaseCell h) → List (CaseCell h) → Type 0
  Grows before after =
      (added : List (CaseCell h)) × (after ≡ before ++ added)
      × ((is_evidence_attach m.morphism_type ≡ true) ⊎ (added ≡ []))

  Grows-refl : (before after : List (CaseCell h)) → after ≡ before → Grows before after
  Grows-refl before after e = ([], e ∙ sym (append-nil before), inr refl)

  Grows-trans : (a b c : List (CaseCell h)) → Grows a b → Grows b c → Grows a c
  Grows-trans a b c (p, e, i) (q, f, j) =
      (p ++ q, f ∙ ap (λ z. z ++ q) e ∙ append_assoc a p q, either i j)
    where
      either :
          (is_evidence_attach m.morphism_type ≡ true) ⊎ (p ≡ [])
          → (is_evidence_attach m.morphism_type ≡ true) ⊎ (q ≡ [])
          → (is_evidence_attach m.morphism_type ≡ true) ⊎ (p ++ q ≡ [])
      either (inl attach) _ = inl attach
      either (inr _) (inl attach) = inl attach
      either (inr none_p) (inr none_q) = inr (ap (λ z. z ++ q) none_p ∙ none_q)

  Edit-artifacts : (x y : Content h) → Edit h m g x y → Grows (artifacts x) (artifacts y)
  Edit-artifacts _ _ (add_cell x cell e _) = (
    keep (is_artifact_cell h) (cell ∷ []),
    keep-append (is_artifact_cell h) x.cells (cell ∷ []),
    ground (arith, added_artifact cell e),
  )
  Edit-artifacts _ _ (add_relation x relation _ _) = Grows-refl _ _ refl
  Edit-artifacts _ _ (update_cell x existing cell found e) =
      let (same_type, before) = updated_type existing cell e in
      Grows-refl _ _ (
        keep-modify_first (cell_is h cell.id) (is_artifact_cell h) (λ _. cell) x.cells found before
          (sym (is_artifact_cell-congr existing cell same_type) ∙ before))
  Edit-artifacts _ _ (update_relation x existing relation _ _) = Grows-refl _ _ refl
  Edit-artifacts _ _ (retire_cell x id cell found e) =
      let before = retired_artifact id cell e in
      Grows-refl _ _ (
        keep-modify_first (cell_is h id) (is_artifact_cell h) (retire h) x.cells found before
          (is_artifact_cell-congr (retire h cell) cell refl ∙ before))
  Edit-artifacts _ _ (retire_relation x id relation _) = Grows-refl _ _ refl

  Edits-artifacts : (x y : Content h) → Edits h m g x y → Grows (artifacts x) (artifacts y)
  Edits-artifacts x y =
      Edits-keep h m g {P = λ z. Grows (artifacts x) (artifacts z)}
        (λ y z e p. Grows-trans (artifacts x) (artifacts y) (artifacts z) p (Edit-artifacts y z e))
        (Grows-refl _ _ refl)

-- The artifact cells of a case space are kept as they are, in order, by every morphism; only an
-- attachment of evidence, also at genesis, puts further ones behind them.
pub apply_morphism-artifacts :
    (h : Host) (decode : h.Value → Result String (MorphismPayload h)) (space final : CaseSpace h)
    (m : CaseMorphism h)
    → apply_morphism h decode space m ≡ ok final
    → (added : List (CaseCell h)) × (keep (is_artifact_cell h) final.case_cells
        ≡ keep (is_artifact_cell h) space.case_cells ++ added)
      × ((is_evidence_attach m.morphism_type ≡ true) ⊎ (added ≡ []))
apply_morphism-artifacts h decode space final m e =
    Edits-artifacts h m (is_genesis_of h space m) (content h space) (content h final)
      (apply_morphism-IsApplied h decode space final m e).edits
