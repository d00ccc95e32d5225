-- ===== src/Reducer/Evolution/Whole.antt =====
-- What a whole morphism does to a cell, and to what counts as evidence.
use casegraphen.Prelude.{
  String, true, false, Option, some, none, Result, ok, ◌≡◌, arith, find, inl, inr, Option-cases,
}
use casegraphen.Host.{Host}
use casegraphen.Trust.{evidence_is_acceptable}
use casegraphen.Model.{CaseCell, CaseMorphism, CaseSpace, MorphismPayload}
use casegraphen.Model.Kinds.{is_evidence}
use casegraphen.Model.Lifecycle.{LifecycleReach}
use casegraphen.Model.Boundary.{native_evidence_trust_input, to_trust_boundary}
use casegraphen.Reducer.Guards.{is_minted}
use casegraphen.Reducer.Apply.{cell_is, apply_morphism, is_genesis_of}
use casegraphen.Reducer.Edits.{content}
use casegraphen.Reducer.Edits.Whole.{apply_morphism-IsApplied}
use casegraphen.Reducer.Evolution.{
  SameEvidence, Evolves, minted, Onward, EntersUntrusted, Edits-Onwards,
}

-- `case_cells.iter().find(|cell| cell.id == id)`
abbrev pub cell_at : (h : Host) → CaseSpace h → h.Ident → Option (CaseCell h)
cell_at h space id = find (cell_is h id) space.case_cells

minted-needs_review :
    (h : Host) (cell : CaseCell h) (latest : Option h.ReviewStatus)
    → minted h cell ≡ true
    → evidence_is_acceptable h (native_evidence_trust_input h cell latest) ≡ true
    → latest ≡ some h.accepted
unfolding is_minted native_evidence_trust_input to_trust_boundary evidence_is_acceptable
minted-needs_review h cell latest e a = ground arith

module _ (h : Host) (decode : h.Value → Result String (MorphismPayload h))
    (space final : CaseSpace h) (m : CaseMorphism h)
    (applied : apply_morphism h decode space m ≡ ok final) where
  onward :
      (id : h.Ident) → Onward h (is_genesis_of h space m) (cell_at h space id) (cell_at h final id)
  onward =
      Edits-Onwards h m (is_genesis_of h space m) (content h space) (content h final)
        (apply_morphism-IsApplied h decode space final m applied).edits

  evolves :
      (id : h.Ident) (before : CaseCell h)
      → cell_at h space id ≡ some before
      → (after : CaseCell h) × (cell_at h final id ≡ some after) × Evolves h before after
  evolves id before e = elim (Option-cases (cell_at h final id)) [
    | inl gone ↦ absurd (rw (e, gone) at (onward id))
    | inr (after, found) ↦ (after, found, rw (e, found) at (onward id))
  ]

  -- A cell that a morphism finds in the case space is there afterwards under the same identifier,
  -- with the same type, in a lifecycle stage that the allowed transitions reach from the old one.
  pub cell_persists :
      (id : h.Ident) (before : CaseCell h)
      → cell_at h space id ≡ some before
      → (after : CaseCell h) × (cell_at h final id ≡ some after)
        × (before.cell_type ≡ after.cell_type)
        × LifecycleReach before.lifecycle after.lifecycle
  cell_persists id before e =
      let (after, found, v) = evolves id before e in (after, found, v.cell_type, v.lifecycle)

  -- An evidence cell keeps its provenance, the identifiers that it covers and the metadata that
  -- says what was observed and how far it is trusted, whatever morphism is applied.
  pub evidence_persists :
      (id : h.Ident) (before : CaseCell h)
      → cell_at h space id ≡ some before
      → is_evidence before.cell_type ≡ true
      → (after : CaseCell h) × (cell_at h final id ≡ some after) × SameEvidence h before after
  evidence_persists id before e is_ev =
      let (after, found, v) = evolves id before e in (after, found, v.evidence is_ev)

  -- After genesis, evidence that a morphism brings in does not count before it is reviewed: if it
  -- is acceptable with some latest review, that review accepts it.
  pub added_evidence_needs_review :
      (id : h.Ident) (cell : CaseCell h) (latest : Option h.ReviewStatus)
      → is_genesis_of h space m ≡ false
      → cell_at h space id ≡ none
      → cell_at h final id ≡ some cell
      → is_evidence cell.cell_type ≡ true
      → evidence_is_acceptable h (native_evidence_trust_input h cell latest) ≡ true
      → latest ≡ some h.accepted
  added_evidence_needs_review id cell latest later new found is_ev acceptable =
      let entered : EntersUntrusted h (is_genesis_of h space m) cell =
        rw (new, found) at (onward id) in
      minted-needs_review h cell latest (ground (arith, entered)) acceptable
