-- ===== src/Examples/Storing.antt =====
-- Appends to a log at concrete inputs.
use casegraphen.Prelude.{
  String, false, none, some, [], ◌∷◌, ◌≡◌, ◌↔◌, refl, ok, err, any, String-discrete, ok-injective,
  ◌∙◌, sym, ◌≢◌, eq_iff, all, true,
}
use casegraphen.Model.{MorphismLogEntry, CaseSpace, CaseCell, ProjectionAudience}
use casegraphen.Model.Kinds.{CaseMorphismType, is_custom}
use casegraphen.Store.{stale_source_revision}
use casegraphen.Store.Log.{
  validate_append, validate_log_entries, has_target, check_entries, check_entry,
  require_log_entry_contract, require_entry_morphism_match, require_previous_entry_hash,
}
use casegraphen.Store.Log.Agreement.{validate_append_iff}
use casegraphen.Store.Log.Chain.{NoCollisions, validate_log_entries-chain}
use casegraphen.Store.Append.{
  Services, append_morphism_with_authority, is_execution_trace_anchor, apply_bounded_morphism,
  require_referenced_ids, require_writable, recorded, revision_from_entry,
  validate_materialized_log, require_ids_exist, require_relations_known, require_projections_known,
  known_ids,
}
use casegraphen.Store.Append.Loadable.{IsLoadable, append-IsLoadable}
use casegraphen.Store.Append.Race.{append-race}
use casegraphen.Examples.Demo.{
  demo, morphism, start, grant_cell, goal, report, log_file, accepted, DemoStatus-discrete,
}
use casegraphen.Examples.Reviewing.{entry, empty_payload, terms, demo_gate}
use casegraphen.Reducer.Apply.{
  apply_morphism, checked_payload, morphism_payload, add_cells, add_relations, update_cells,
  update_relations, retire_ids, require_endpoints, is_genesis_of,
}
use casegraphen.Reducer.Ids.{
  materialized_ids, validate_declared_morphism_ids, collect_unique_ids, collect_into,
  validate_payload_ids, collect_payload_ids, require_matching_ids,
}
use mathlib.Core.Bool.{false≢true}
use casegraphen.Store.Operation.{require_valid_operation_gate}
use casegraphen.Review.Gate.{
  check_operation_gate, operation_gate_failures, capabilities_failures, capability_failures,
  is_in_force, is_gate_audience, metadata_lists, declared_source_boundary_id,
  source_boundary_id_from_value, is_declared, is_empty,
}
use casegraphen.Reducer.Guards.{is_capability_cell}
use casegraphen.Review.Gate.Authorized.{names_authority, check_operation_gate_iff}
use casegraphen.Store.Append.Authority.{IsAuthorized, capabilities, Appends-IsAuthorized, unchanged}

abbrev services : Services demo
services = record {
  terms = terms;
  entry_hash = λ e. ok e.entry_id;
  case_space_checksum = λ _. ok "sum";
  decode = λ _. ok empty_payload;
  no_metadata = [];
  validate_native_case_space = λ _. ok tt;
}

abbrev genesis : MorphismLogEntry demo
genesis =
    record (entry (record (morphism CaseMorphismType.create [] [] []) {
      morphism_id = "morphism:genesis";
      source_revision_id = none;
      target_revision_id = "revision:1";
    })) { replay_checksum = "0" }

-- The lead may update.
abbrev lead : CaseCell demo
lead = record grant_cell {
  provenance = accepted;
  metadata = ("actor_ids", "actor:lead") ∷ ("operations", "update") ∷ [];
}

abbrev current : CaseSpace demo
current = record start {
  case_cells = goal ∷ report ∷ lead ∷ log_file ∷ [];
  morphism_log = genesis ∷ [];
  metadata = ("source_boundary", "boundary:demo") ∷ [];
}

-- An entry on the first revision.
abbrev proposed : String → String → String → MorphismLogEntry demo
proposed id morphism_id target =
    record (entry (record (morphism CaseMorphismType.update [] [] []) {
      morphism_id = morphism_id;
      metadata = ("payload", "payload") ∷ ("operation_gate", "update") ∷ [];
      target_revision_id = target;
    })) {
      sequence = 2;
      entry_id = id;
      previous_entry_hash = some "entry:1";
      replay_checksum = "sum";
    }

abbrev winner : MorphismLogEntry demo
winner = proposed "entry:2" "morphism:winner" "revision:2"

abbrev loser : MorphismLogEntry demo
loser = proposed "entry:3" "morphism:loser" "revision:3"

genesis_loads :
    validate_log_entries demo services.entry_hash (some "case:demo") (genesis ∷ []) ≡ ok tt
unfolding validate_log_entries check_entries check_entry require_log_entry_contract
    require_entry_morphism_match require_previous_entry_hash String-discrete
genesis_loads = refl

winner_accepted : validate_append demo services.entry_hash current winner (genesis ∷ []) ≡ ok tt
unfolding validate_append require_log_entry_contract require_entry_morphism_match
    require_previous_entry_hash String-discrete
winner_accepted = refl

current-IsLoadable : IsLoadable demo services current (genesis ∷ [])
unfolding materialized_ids String-discrete
current-IsLoadable = record {
  validated = genesis_loads;
  logged = refl;
  latest = genesis;
  is_last = refl;
  at_revision = refl;
  well_formed = record { ids_unique = refl; attached = ((refl, refl), tt) };
}

abbrev next : CaseSpace demo
next = record current {
  morphism_log = genesis ∷ winner ∷ [];
  revision = record {
    revision_id = "revision:2";
    case_space_id = "case:demo";
    applied_entry_ids = "entry:2" ∷ [];
    applied_morphism_ids = "morphism:winner" ∷ [];
    checksum = "sum";
    parent_revision_id = some "revision:1";
    created_at = "t1";
    source_ids = [];
    metadata = [];
  };
}

appended :
    append_morphism_with_authority demo services current (genesis ∷ []) winner false ≡ ok next
unfolding append_morphism_with_authority is_execution_trace_anchor validate_append
    require_log_entry_contract require_entry_morphism_match require_previous_entry_hash
    apply_bounded_morphism require_referenced_ids require_writable recorded revision_from_entry
    validate_materialized_log require_ids_exist require_relations_known require_projections_known
    known_ids String-discrete apply_morphism checked_payload morphism_payload
    validate_declared_morphism_ids collect_unique_ids collect_into validate_payload_ids
    collect_payload_ids require_matching_ids add_cells add_relations update_cells update_relations
    retire_ids require_endpoints is_genesis_of materialized_ids require_valid_operation_gate
    check_operation_gate operation_gate_failures capabilities_failures capability_failures
    is_capability_cell is_custom is_in_force is_gate_audience metadata_lists
    declared_source_boundary_id source_boundary_id_from_value DemoStatus-discrete
appended = refl

abbrev alternative : CaseSpace demo
alternative = record current {
  morphism_log = genesis ∷ loser ∷ [];
  revision = record {
    revision_id = "revision:3";
    case_space_id = "case:demo";
    applied_entry_ids = "entry:3" ∷ [];
    applied_morphism_ids = "morphism:loser" ∷ [];
    checksum = "sum";
    parent_revision_id = some "revision:1";
    created_at = "t1";
    source_ids = [];
    metadata = [];
  };
}

loser_appended :
    append_morphism_with_authority demo services current (genesis ∷ []) loser false ≡ ok alternative
unfolding append_morphism_with_authority is_execution_trace_anchor validate_append
    require_log_entry_contract require_entry_morphism_match require_previous_entry_hash
    apply_bounded_morphism require_referenced_ids require_writable recorded revision_from_entry
    validate_materialized_log require_ids_exist require_relations_known require_projections_known
    known_ids String-discrete apply_morphism checked_payload morphism_payload
    validate_declared_morphism_ids collect_unique_ids collect_into validate_payload_ids
    collect_payload_ids require_matching_ids add_cells add_relations update_cells update_relations
    retire_ids require_endpoints is_genesis_of materialized_ids require_valid_operation_gate
    check_operation_gate operation_gate_failures capabilities_failures capability_failures
    is_capability_cell is_custom is_in_force is_gate_audience metadata_lists
    declared_source_boundary_id source_boundary_id_from_value DemoStatus-discrete
loser_appended = refl

append-IsLoadable_example : IsLoadable demo services next (genesis ∷ winner ∷ [])
append-IsLoadable_example =
    append-IsLoadable demo services current next (genesis ∷ []) winner false current-IsLoadable
      appended

validate_append_iff_example :
    (validate_append demo services.entry_hash current winner (genesis ∷ []) ≡ ok tt) ↔ (
      (validate_log_entries demo services.entry_hash (some "case:demo") (genesis ∷ winner ∷ [])
        ≡ ok tt)
      × (any (has_target demo services.entry_hash "revision:2") (genesis ∷ []) ≡ false))
validate_append_iff_example =
    validate_append_iff demo services.entry_hash current (genesis ∷ []) genesis winner genesis_loads
      refl refl

append-race_example :
    append_morphism_with_authority demo services next (genesis ∷ winner ∷ []) loser false
    ≡ err (stale_source_revision (some "revision:1") "revision:2")
append-race_example =
    append-race demo services current next alternative (genesis ∷ []) winner loser false false
      current-IsLoadable appended loser_appended

pair_loads :
    validate_log_entries demo services.entry_hash (some "case:demo") (genesis ∷ winner ∷ []) ≡ ok tt
unfolding validate_log_entries check_entries check_entry require_log_entry_contract
    require_entry_morphism_match require_previous_entry_hash String-discrete
pair_loads = refl

distinct : ◌≢◌ {A = String} "entry:1" "entry:2"
distinct e = false≢true ((eq_iff "entry:1" "entry:2").1 e)

-- The hash of the demonstration tells the two entries apart.
apart : NoCollisions demo services.entry_hash (genesis ∷ winner ∷ []) (genesis ∷ winner ∷ [])
apart = (
  (λ _ _ _. refl, (λ hash a b. elim (distinct (ok-injective a ∙ sym (ok-injective b))) [ ], tt)),
  (
    (λ hash a b. elim (distinct (ok-injective b ∙ sym (ok-injective a))) [ ], (λ _ _ _. refl, tt)),
    tt,
  ),
)

validate_log_entries-chain_example : genesis ∷ winner ∷ [] ≡ genesis ∷ winner ∷ []
validate_log_entries-chain_example =
    validate_log_entries-chain demo services.entry_hash (some "case:demo") (genesis ∷ winner ∷ [])
      (genesis ∷ winner ∷ []) winner apart pair_loads pair_loads refl refl

Appends-IsAuthorized_example : IsAuthorized demo terms (capabilities demo terms current) winner
Appends-IsAuthorized_example =
    Appends-IsAuthorized demo services current current next (genesis ∷ []) (genesis ∷ []) winner
      false current-IsLoadable unchanged appended

lead_gate : check_operation_gate demo terms current (demo_gate "update") "update" ≡ ok tt
unfolding check_operation_gate operation_gate_failures capabilities_failures capability_failures
    is_capability_cell is_custom is_in_force is_gate_audience metadata_lists
    declared_source_boundary_id source_boundary_id_from_value String-discrete DemoStatus-discrete
lead_gate = refl

check_operation_gate_iff_example :
    (check_operation_gate demo terms current (demo_gate "update") "update" ≡ ok tt) ↔ (
      ((demo_gate "update").operation ≡ "update")
      × ((demo_gate "update").operation_scope_id ≡ current.case_space_id)
      × (is_gate_audience ProjectionAudience.audit ≡ true)
      × (is_empty (demo_gate "update").capability_ids ≡ false)
      × (all (names_authority demo terms current "actor:lead" "update") ("capability:lead" ∷ [])
          ≡ true)
      × (is_declared demo terms (declared_source_boundary_id demo terms current) "boundary:demo"
          ≡ true))
check_operation_gate_iff_example =
    check_operation_gate_iff demo terms current (demo_gate "update") "update"
