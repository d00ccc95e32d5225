-- ===== src/Store/Operation.antt =====
-- src/native_store.rs: `require_valid_operation_gate`, the gate that an entry carries.
use casegraphen.Prelude.{
  String, not, Option, none, some, List, Result, err, ok, require, ◌>>◌, same,
}
use casegraphen.Host.{Host}
use casegraphen.Model.{MorphismLogEntry, CaseSpace}
use casegraphen.Review.{NativeOperationGate, Terms}
use casegraphen.Review.Gate.{OperationGateFailure, check_operation_gate}
use casegraphen.Store.{
  Stored, invalid_morphism, gate_missing, gate_blank, gate_malformed, gate_actor, gate_refused,
}

module _ (h : Host) (t : Terms h) where
  abbrev pub gate_checked :
      MorphismLogEntry h → Result (List (OperationGateFailure h)) Unit → Stored h Unit
  gate_checked entry (err failures) =
      err (invalid_morphism (gate_refused entry.morphism_id failures))
  gate_checked entry (ok _) = ok tt

  abbrev pub gate_passed :
      CaseSpace h → MorphismLogEntry h → Result String (NativeOperationGate h) → Stored h Unit
  gate_passed space entry (err error) =
      err (invalid_morphism (gate_malformed entry.morphism_id error))
  gate_passed space entry (ok gate) = do
    require (not (t.is_blank gate.operation)) (invalid_morphism (gate_blank entry.morphism_id))
    require (same h.id_discrete entry.actor_id gate.actor_id)
        (invalid_morphism (gate_actor entry.morphism_id gate.actor_id entry.actor_id))
    gate_checked entry (check_operation_gate h t space gate gate.operation)

  abbrev pub gate_found : CaseSpace h → MorphismLogEntry h → Option h.Value → Stored h Unit
  gate_found space entry none = err (invalid_morphism (gate_missing entry.morphism_id))
  gate_found space entry (some value) = gate_passed space entry (t.gate_of value)

  unfoldable pub require_valid_operation_gate : CaseSpace h → MorphismLogEntry h → Stored h Unit
  require_valid_operation_gate space entry =
      gate_found space entry (h.get entry.morphism.metadata "operation_gate")
