-- ===== src/Review/Gate.antt =====
-- src/native_review.rs: the operation gate. A failure stands for its message.
pub mod Authorized
use casegraphen.Prelude.{
  String, Bool, true, false, not, ◌&&◌, ◌||◌, Option, none, some, List, [], ◌∷◌, ◌++◌, Result, ok,
  err, any, find, same, str_eq, if◌then◌else◌,
}
use casegraphen.Prelude.Options.{◌>>=◌}
use casegraphen.Host.{Host}
use casegraphen.Model.{CaseCell, CaseSpace, MorphismLogEntry, ProjectionAudience}
use casegraphen.Model.Lifecycle.{CaseCellLifecycle}
use casegraphen.Reducer.Guards.{is_capability_cell}
use casegraphen.Review.{NativeOperationGate, Terms}

unfoldable pub is_gate_audience : ProjectionAudience → Bool
is_gate_audience ProjectionAudience.audit = true
is_gate_audience ProjectionAudience.system = true
is_gate_audience _ = false

unfoldable pub is_in_force : CaseCellLifecycle → Bool
is_in_force CaseCellLifecycle.active = true
is_in_force CaseCellLifecycle.accepted = true
is_in_force _ = false

abbrev pub is_empty {ℓ} : {A : Type ℓ} → List A → Bool
is_empty [] = true
is_empty (_ ∷ _) = false

module _ (h : Host) where
  pub data OperationGateFailure : Type 0 where
    wrong_operation wrong_audience no_capabilities : h.Ident → OperationGateFailure
    wrong_scope : h.Ident → h.Ident → OperationGateFailure
    unresolved nothing_resolves : h.Ident → OperationGateFailure
    not_a_capability not_in_force not_accepted : h.Ident → OperationGateFailure
    actor_not_granted : h.Ident → h.Ident → OperationGateFailure
    operation_not_granted : h.Ident → String → OperationGateFailure
    wrong_source_boundary : h.Ident → OperationGateFailure

  unfoldable pub witness_ids : OperationGateFailure → List h.Ident
  witness_ids (wrong_operation actor_id) = actor_id ∷ []
  witness_ids (wrong_audience actor_id) = actor_id ∷ []
  witness_ids (no_capabilities actor_id) = actor_id ∷ []
  witness_ids (wrong_scope scope_id case_space_id) = scope_id ∷ case_space_id ∷ []
  witness_ids (unresolved id) = id ∷ []
  witness_ids (nothing_resolves id) = id ∷ []
  witness_ids (not_a_capability id) = id ∷ []
  witness_ids (not_in_force id) = id ∷ []
  witness_ids (not_accepted id) = id ∷ []
  witness_ids (actor_not_granted id actor_id) = id ∷ actor_id ∷ []
  witness_ids (operation_not_granted id _) = id ∷ []
  witness_ids (wrong_source_boundary id) = id ∷ []

  unfoldable pub has_capability_cells : CaseSpace h → Bool
  has_capability_cells space = any (is_capability_cell h) space.case_cells

  -- `if test { failures.push(failure) }`
  abbrev pub fails : Bool → OperationGateFailure → List OperationGateFailure
  fails true failure = failure ∷ []
  fails false failure = []

  abbrev pub cell_is_named : h.Ident → CaseCell h → Bool
  cell_is_named id cell = same h.id_discrete cell.id id

  module _ (t : Terms h) where
    abbrev is_text : String → Option String → Bool
    is_text text none = false
    is_text text (some other) = str_eq other text

    abbrev lists : String → Option (List h.Value) → Bool
    lists text none = false
    lists text (some values) = any (λ value. is_text text (h.as_str value)) values

    -- A field of the metadata is an array that has the text.
    unfoldable pub metadata_lists : CaseCell h → String → String → Bool
    metadata_lists cell field text =
        lists text (do value ← h.get cell.metadata field; t.as_array value)

    unfoldable pub source_boundary_id_from_value : Option h.Value → Option h.Ident
    source_boundary_id_from_value value = do
      v ← value
      boundary ← t.as_object v
      id ← h.get boundary "id"
      text ← h.as_str id
      t.parse_id text

    abbrev first_declared : List (MorphismLogEntry h) → Option h.Ident
    first_declared [] = none
    first_declared (entry ∷ _) = do
      value ← h.get entry.morphism.metadata "source_boundary_id"
      text ← h.as_str value
      t.parse_id text

    abbrev or_else : Option h.Ident → Option h.Ident → Option h.Ident
    or_else none other = other
    or_else (some id) other = some id

    unfoldable pub declared_source_boundary_id : CaseSpace h → Option h.Ident
    declared_source_boundary_id space =
        or_else (source_boundary_id_from_value (h.get space.metadata "source_boundary"))
          (first_declared space.morphism_log)

    abbrev pub is_declared : Option h.Ident → h.Ident → Bool
    is_declared none id = false
    is_declared (some declared) id = same h.id_discrete declared id

    module _ (space : CaseSpace h) (gate : NativeOperationGate h) (expected : String) where
      -- What a capability that resolves lacks.
      unfoldable pub capability_failures : h.Ident → CaseCell h → List OperationGateFailure
      capability_failures id cell =
          fails (not (is_capability_cell h cell)) (not_a_capability id)
          ++ (fails (not (is_in_force cell.lifecycle)) (not_in_force id)
              ++ (fails (not (same h.status_discrete (h.review_status cell.provenance) h.accepted))
                    (not_accepted id)
                  ++ (fails (not (metadata_lists cell "actor_ids" (t.id_text gate.actor_id)))
                        (actor_not_granted id gate.actor_id)
                      ++ fails (not (metadata_lists cell "operations" expected))
                          (operation_not_granted id expected))))

      abbrev pub resolved_failures : h.Ident → Option (CaseCell h) → List OperationGateFailure
      resolved_failures id none =
          (if has_capability_cells space then unresolved id else nothing_resolves id) ∷ []
      resolved_failures id (some cell) = capability_failures id cell

      unfoldable pub capabilities_failures : List h.Ident → List OperationGateFailure
      capabilities_failures [] = []
      capabilities_failures (id ∷ ids) =
          resolved_failures id (find (cell_is_named id) space.case_cells)
          ++ capabilities_failures ids

      unfoldable pub operation_gate_failures : List OperationGateFailure
      operation_gate_failures =
          fails (not (str_eq gate.operation expected)) (wrong_operation gate.actor_id)
          ++ (fails (not (same h.id_discrete gate.operation_scope_id space.case_space_id))
                (wrong_scope gate.operation_scope_id space.case_space_id)
              ++ (fails (not (is_gate_audience gate.audience)) (wrong_audience gate.actor_id)
                  ++ (fails (is_empty gate.capability_ids) (no_capabilities gate.actor_id)
                      ++ (capabilities_failures gate.capability_ids
                          ++ fails
                              (not (
                                is_declared (declared_source_boundary_id space)
                                  gate.source_boundary_id))
                              (wrong_source_boundary gate.source_boundary_id)))))

      abbrev pub verdict : List OperationGateFailure → Result (List OperationGateFailure) Unit
      verdict [] = ok tt
      verdict (failure ∷ failures) = err (failure ∷ failures)

      unfoldable pub check_operation_gate : Result (List OperationGateFailure) Unit
      check_operation_gate = verdict operation_gate_failures
