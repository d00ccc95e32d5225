-- ===== src/Review/Gate/Authorized.antt =====
-- src/native_review.rs: which gates pass.
use casegraphen.Prelude.{
  String, Bool, true, false, not, ◌&&◌, Option, none, some, List, [], ◌∷◌, ◌++◌, ◌≡◌, ◌↔◌, refl, ok,
  all, find, same, same_self, eq_iff, arith,
}
use casegraphen.Host.{Host}
use casegraphen.Model.{CaseCell, CaseSpace}
use casegraphen.Reducer.Guards.{is_capability_cell}
use casegraphen.Review.{NativeOperationGate, Terms}
use casegraphen.Review.Gate.{
  OperationGateFailure, is_gate_audience, is_in_force, is_empty, fails, cell_is_named,
  metadata_lists, declared_source_boundary_id, is_declared, capability_failures, resolved_failures,
  capabilities_failures, operation_gate_failures, check_operation_gate,
}

module _ {A : Type 0} where
  pub is_empty-append : (xs ys : List A) → is_empty (xs ++ ys) ≡ (is_empty xs && is_empty ys)
  is_empty-append [] ys = refl
  is_empty-append (x ∷ xs) ys = refl

module _ (h : Host) (t : Terms h) where
  -- The cell is a capability in force, with accepted provenance, that grants the actor the operation.
  abbrev pub is_authority : h.Ident → String → CaseCell h → Bool
  is_authority actor_id operation cell =
      is_capability_cell h cell
      && is_in_force cell.lifecycle
      && same h.status_discrete (h.review_status cell.provenance) h.accepted
      && metadata_lists h t cell "actor_ids" (t.id_text actor_id)
      && metadata_lists h t cell "operations" operation

  abbrev pub is_some_authority : h.Ident → String → Option (CaseCell h) → Bool
  is_some_authority actor_id operation none = false
  is_some_authority actor_id operation (some cell) = is_authority actor_id operation cell

  -- The identifier names a cell that is such an authority.
  abbrev pub names_authority : CaseSpace h → h.Ident → String → h.Ident → Bool
  names_authority space actor_id operation id =
      is_some_authority actor_id operation (find (cell_is_named h id) space.case_cells)

  module _ (space : CaseSpace h) (gate : NativeOperationGate h) (expected : String) where
    fails-eq : (b : Bool) (f : OperationGateFailure h) → is_empty (fails h b f) ≡ not b
    fails-eq true f = refl
    fails-eq false f = refl

    capability-eq :
        (id : h.Ident) (cell : CaseCell h)
        → is_empty (capability_failures h t space gate expected id cell)
          ≡ is_authority gate.actor_id expected cell
    unfolding capability_failures
    capability-eq id cell = ground arith

    resolved-eq :
        (id : h.Ident) (found : Option (CaseCell h))
        → is_empty (resolved_failures h t space gate expected id found)
          ≡ is_some_authority gate.actor_id expected found
    resolved-eq id none = refl
    resolved-eq id (some cell) = capability-eq id cell

    capabilities-eq :
        (ids : List h.Ident)
        → is_empty (capabilities_failures h t space gate expected ids)
          ≡ all (names_authority space gate.actor_id expected) ids
    unfolding capabilities_failures
    capabilities-eq [] = refl
    capabilities-eq (id ∷ ids) = ground (
      arith,
      is_empty-append
          (resolved_failures h t space gate expected id
            (find (cell_is_named h id) space.case_cells))
          (capabilities_failures h t space gate expected ids),
      resolved-eq id (find (cell_is_named h id) space.case_cells),
      capabilities-eq ids,
    )

    -- A gate passes for an operation exactly where it names that operation, the case space, an audit
    -- or system audience and the declared source boundary, and names at least one capability, each of
    -- which is a capability cell in force, with accepted provenance, that grants the actor the
    -- operation.
    pub check_operation_gate_iff : (check_operation_gate h t space gate expected ≡ ok tt) ↔ (
        (gate.operation ≡ expected)
        × (gate.operation_scope_id ≡ space.case_space_id)
        × (is_gate_audience gate.audience ≡ true)
        × (is_empty gate.capability_ids ≡ false)
        × (all (names_authority space gate.actor_id expected) gate.capability_ids ≡ true)
        × (is_declared h t (declared_source_boundary_id h t space) gate.source_boundary_id ≡ true))
    unfolding check_operation_gate operation_gate_failures
    check_operation_gate_iff = ground (
      arith,
      eq_iff gate.operation expected,
      same_self h.id_discrete space.case_space_id,
      capabilities-eq gate.capability_ids,
      is_empty-append (capabilities_failures h t space gate expected gate.capability_ids) (
          fails h
            (not (is_declared h t (declared_source_boundary_id h t space) gate.source_boundary_id))
            (OperationGateFailure.wrong_source_boundary gate.source_boundary_id)),
    )
