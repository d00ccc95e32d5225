-- ===== src/Reducer/Evolution.antt =====
-- What becomes of a cell: it stays, with its identifier and type, its lifecycle moves along the
-- allowed transitions, and what makes it evidence is not rewritten.
pub mod Whole
use casegraphen.Prelude.{
  String, Bool, true, false, not, ◌&&◌, ◌||◌, Option, some, none, List, [], ◌∷◌, ◌++◌, Result, ok,
  ◌≡◌, refl, sym, ap, ◌∙◌, arith, find, find-passes, modify_first, ◌⊎◌, inl, inr, require,
  require-eq-ok, >>=-eq-ok, if◌then◌else◌, subst, same, same-eq, same_self, All, Bool-cases,
  Option-cases, ok-injective,
}
use casegraphen.Host.{Host}
use casegraphen.Model.{CaseCell, CaseMorphism}
use casegraphen.Model.Kinds.{CaseCellType-discrete, is_evidence}
use casegraphen.Model.Lifecycle.{
  LifecycleReach, LifecycleReach-step, LifecycleReach-trans, retired, can_transition_to,
}
use casegraphen.Model.Boundary.{from_metadata_value, declared_boundary}
use casegraphen.Reducer.Guards.{
  is_minted, immutable_keys, require_untrusted_added_evidence, require_immutable_cell_update_fields,
  require_immutable_evidence, require_immutable_metadata, require_lifecycle_transition,
  ids_discrete, value_option_discrete,
}
use casegraphen.Reducer.Apply.{cell_is, check_added_cell, check_updated_cell, check_retired_cell}
use casegraphen.Reducer.Edits.{
  Content, retire, Edit, add_cell, add_relation, update_cell, update_relation, retire_cell,
  retire_relation, Edits, Edits-keep,
}

module _ (h : Host) where
  -- What a review of evidence speaks of: its provenance, its coverage and the immutable metadata.
  pub record SameEvidence (before after : CaseCell h) : Type 0 where
    pub provenance : before.provenance ≡ after.provenance
    pub structure_ids : before.structure_ids ≡ after.structure_ids
    pub metadata : All (λ key. h.get before.metadata key ≡ h.get after.metadata key) immutable_keys

  SameEvidence-refl : (c : CaseCell h) → SameEvidence c c
  SameEvidence-refl c = ground arith

  SameEvidence-trans : (a b c : CaseCell h) → SameEvidence a b → SameEvidence b c → SameEvidence a c
  SameEvidence-trans a b c p q = ground arith

  pub record Evolves (before after : CaseCell h) : Type 0 where
    pub id : before.id ≡ after.id
    pub cell_type : before.cell_type ≡ after.cell_type
    pub lifecycle : LifecycleReach before.lifecycle after.lifecycle
    pub evidence : is_evidence before.cell_type ≡ true → SameEvidence before after

  Evolves-refl : (c : CaseCell h) → Evolves c c
  Evolves-refl c = record {
    id = refl;
    cell_type = refl;
    lifecycle = LifecycleReach.here;
    evidence = λ _. SameEvidence-refl c;
  }

  Evolves-trans : (a b c : CaseCell h) → Evolves a b → Evolves b c → Evolves a c
  Evolves-trans a b c p q = record {
    id = p.id ∙ q.id;
    cell_type = p.cell_type ∙ q.cell_type;
    lifecycle = LifecycleReach-trans p.lifecycle q.lifecycle;
    evidence = λ e.
        SameEvidence-trans a b c (p.evidence e)
          (q.evidence (subst (λ t. is_evidence t ≡ true) p.cell_type e));
  }

  -- The boundary that the cell declares is one that the tool mints.
  abbrev pub minted : CaseCell h → Bool
  minted cell = is_minted (from_metadata_value (declared_boundary h cell))

  -- A cell that enters as evidence after genesis.
  abbrev pub EntersUntrusted : Bool → CaseCell h → Type 0
  EntersUntrusted g cell = (g ≡ true) ⊎ (is_evidence cell.cell_type ≡ false) ⊎ (minted cell ≡ true)

  -- From what an identifier finds before to what it finds after.
  abbrev pub Onward : Bool → Option (CaseCell h) → Option (CaseCell h) → Type 0
  Onward g none none = Unit
  Onward g none (some after) = EntersUntrusted g after
  Onward g (some before) none = ⊥
  Onward g (some before) (some after) = Evolves before after

  Onward-refl : (g : Bool) (o : Option (CaseCell h)) → Onward g o o
  Onward-refl g none = tt
  Onward-refl g (some c) = Evolves-refl c

  declared_boundary-congr :
      (a b : CaseCell h)
      → h.get a.metadata "evidence_boundary" ≡ h.get b.metadata "evidence_boundary"
      → declared_boundary h a ≡ declared_boundary h b
  unfolding declared_boundary
  declared_boundary-congr a b e = rw (e, declared_boundary)

  EntersUntrusted-Evolves :
      (g : Bool) (a b : CaseCell h) → EntersUntrusted g a → Evolves a b → EntersUntrusted g b
  EntersUntrusted-Evolves g a b u e = elim (Bool-cases (is_evidence a.cell_type)) [
    | inl yes_evidence ↦
        let boundary = declared_boundary-congr a b (e.evidence yes_evidence).metadata.0 in
        ground (arith, e.cell_type, boundary)
    | inr not_evidence ↦ ground (arith, e.cell_type)
  ]

  Onward-trans :
      (g : Bool) (a b c : Option (CaseCell h)) → Onward g a b → Onward g b c → Onward g a c
  Onward-trans g none none c p q = q
  Onward-trans g none (some b) none p q = tt
  Onward-trans g none (some b) (some c) p q = EntersUntrusted-Evolves g b c p q
  Onward-trans g (some a) none c p q = absurd p
  Onward-trans g (some a) (some b) none p q = q
  Onward-trans g (some a) (some b) (some c) p q = Evolves-trans a b c p q

  some_eq : (a b : CaseCell h) → some a ≡ some b → a ≡ b
  some_eq a b e = cc

  -- A change of the cell that an identifier finds, and the addition of a cell.
  Onward-modify_first :
      (g : Bool) (found id : h.Ident) (f : CaseCell h → CaseCell h) (cells : List (CaseCell h))
      (c : CaseCell h)
      → find (cell_is h found) cells ≡ some c
      → Evolves c (f c)
      → Onward g
          (find (cell_is h id) cells)
          (find (cell_is h id) (modify_first (cell_is h found) f cells))
  Onward-modify_first g found id f [] c e ev = cc
  Onward-modify_first g found id f (x ∷ cells) c e ev = elim (Bool-cases (cell_is h found x)) [
    | inl at_found ↦
        let p : x ≡ c = some_eq x c (rw at_found at e) in
        let e_x : Evolves x (f x) = subst (λ z. Evolves z (f z)) (sym p) ev in
        rw (at_found, ap (λ i. same h.id_discrete i id) (sym e_x.id))
          (elim (Bool-cases (cell_is h id x)) [
            | inl at_x ↦ rw at_x e_x
            | inr past ↦ rw past (Onward-refl g (find (cell_is h id) cells))
          ])
    | inr there ↦ rw there (elim (Bool-cases (cell_is h id x)) [
      | inl at_x ↦ rw at_x (Evolves-refl x)
      | inr past ↦ rw past (Onward-modify_first g found id f cells c (rw there at e) ev)
    ])
  ]

  Onward-append :
      (g : Bool) (id : h.Ident) (cells : List (CaseCell h)) (c : CaseCell h)
      → EntersUntrusted g c
      → Onward g (find (cell_is h id) cells) (find (cell_is h id) (cells ++ c ∷ []))
  Onward-append g id [] c u = elim (Bool-cases (cell_is h id c)) [
    | inl e ↦ rw e u
    | inr e ↦ rw e tt
  ]
  Onward-append g id (x ∷ cells) c u = elim (Bool-cases (cell_is h id x)) [
    | inl at_x ↦ rw at_x (Evolves-refl x)
    | inr past ↦ rw past (Onward-append g id cells c u)
  ]

  module _ (m : CaseMorphism h) (g : Bool) where
    updated-SameEvidence :
        (existing cell : CaseCell h)
        → require_immutable_evidence h m existing cell ≡ ok tt
        → SameEvidence existing cell
    unfolding require_immutable_evidence require_immutable_metadata
    updated-SameEvidence existing cell e = ground arith

    updated_facts :
        (existing cell : CaseCell h)
        → check_updated_cell h m g existing cell ≡ ok tt
        → (existing.cell_type ≡ cell.cell_type)
          × (can_transition_to existing.lifecycle cell.lifecycle ≡ true)
          × ((is_evidence existing.cell_type ≡ false)
              ⊎ (require_immutable_evidence h m existing cell ≡ ok tt))
    unfolding check_updated_cell require_immutable_cell_update_fields require_lifecycle_transition
    updated_facts existing cell e = ground arith

    updated-Evolves :
        (existing cell : CaseCell h)
        → existing.id ≡ cell.id
        → check_updated_cell h m g existing cell ≡ ok tt
        → Evolves existing cell
    updated-Evolves existing cell same_id e =
        let (same_type, moves, kept) = updated_facts existing cell e in
        record {
          id = same_id;
          cell_type = same_type;
          lifecycle = LifecycleReach-step moves;
          evidence = λ is_ev.
              updated-SameEvidence existing cell (elim kept [ inl not_evidence ↦ cc | inr k ↦ k ]);
        }

    retired-Evolves :
        (id : h.Ident) (cell : CaseCell h)
        → check_retired_cell h m g id cell ≡ ok tt
        → Evolves cell (retire h cell)
    unfolding check_retired_cell require_lifecycle_transition
    retired-Evolves id cell e = record {
      id = refl;
      cell_type = refl;
      lifecycle = LifecycleReach-step (ground arith);
      evidence = λ _. record {
        provenance = refl;
        structure_ids = refl;
        metadata = (SameEvidence-refl cell).metadata;
      };
    }

    added-EntersUntrusted :
        (cell : CaseCell h) → check_added_cell h m g cell ≡ ok tt → EntersUntrusted g cell
    unfolding check_added_cell require_untrusted_added_evidence
    added-EntersUntrusted cell e = ground arith

    abbrev Onwards : Content h → Content h → Type 0
    Onwards x y =
        (id : h.Ident) → Onward g (find (cell_is h id) x.cells) (find (cell_is h id) y.cells)

    Edit-Onwards : (x y : Content h) → Edit h m g x y → Onwards x y
    Edit-Onwards _ _ (add_cell x cell e _) id =
        Onward-append g id x.cells cell (added-EntersUntrusted cell e)
    Edit-Onwards _ _ (add_relation x relation _ _) id = Onward-refl g _
    Edit-Onwards _ _ (update_cell x existing cell found e) id =
        let same_id = same-eq h.id_discrete existing.id cell.id (find-passes _ x.cells found) in
        Onward-modify_first g cell.id id (λ _. cell) x.cells existing found
          (updated-Evolves existing cell same_id e)
    Edit-Onwards _ _ (update_relation x existing relation _ _) id = Onward-refl g _
    Edit-Onwards _ _ (retire_cell x found_id cell found e) id =
        Onward-modify_first g found_id id (retire h) x.cells cell found
          (retired-Evolves found_id cell e)
    Edit-Onwards _ _ (retire_relation x _ relation _) id = Onward-refl g _

    pub Edits-Onwards : (x y : Content h) → Edits h m g x y → Onwards x y
    Edits-Onwards x y =
        Edits-keep h m g {P = λ z. Onwards x z}
          (λ y z e p id.
            Onward-trans g _ (find (cell_is h id) y.cells) _ (p id) (Edit-Onwards y z e id))
          (λ id. Onward-refl g _)
