-- ===== src/Store/Append.antt =====
-- src/native_store.rs: an append to the log of a case space, up to the writes of files.
pub mod Loadable
pub mod Race
pub mod Regated
pub mod Authority
use casegraphen.Prelude.{
  ℕ, String, Bool, true, false, not, ◌&&◌, Option, none, some, List, [], ◌∷◌, ◌++◌, Result, err, ok,
  require, ◌>>=◌, ◌>>◌, same, str_eq, if◌then◌else◌,
}
use casegraphen.Host.{Host}
use casegraphen.Model.{
  CaseRelation, CaseMorphism, MorphismLogEntry, MorphismPayload, Projection, Revision, CaseSpace,
}
use casegraphen.Model.Kinds.{CaseMorphismType}
use casegraphen.Reducer.Errors.{Applied}
use casegraphen.Reducer.Ids.{cell_ids, relation_ids, has}
use casegraphen.Reducer.Apply.{apply_morphism}
use casegraphen.Store.{
  NativeStoreError, json, replay_mismatch, invalid_morphism, not_evaluable, Stored, anchor_reserved,
  anchor_required, no_log, unknown_reference, not_applied, checksum_mismatch, revision_case_space,
  latest_case_space, latest_target, latest_checksum,
}
use casegraphen.Store.Log.{last, validate_append}
use casegraphen.Store.Operation.{require_valid_operation_gate}
use casegraphen.Review.{Terms}

-- `morphism_type == custom:execution_trace_anchor`
unfoldable pub is_execution_trace_anchor : CaseMorphismType → Bool
is_execution_trace_anchor (CaseMorphismType.custom kind) = str_eq kind "execution_trace_anchor"
is_execution_trace_anchor _ = false

-- What an append asks of others: the two SHA-256 sums over JSON texts, the decoder of payloads, an
-- empty JSON map and the evaluator's validation.
pub record Services (h : Host) : Type 1 where
  pub terms : Terms h
  pub entry_hash : MorphismLogEntry h → Result String String
  pub case_space_checksum : CaseSpace h → Result String String
  pub decode : h.Value → Result String (MorphismPayload h)
  pub no_metadata : h.Metadata
  pub validate_native_case_space : CaseSpace h → Result (List String) Unit

module _ (h : Host) where
  abbrev projection_ids : List (Projection h) → List h.Ident
  projection_ids [] = []
  projection_ids (p ∷ projections) = p.projection_id ∷ projection_ids projections

  abbrev log_ids : List (MorphismLogEntry h) → List h.Ident
  log_ids [] = []
  log_ids (entry ∷ log) = entry.entry_id ∷ entry.morphism_id ∷ log_ids log

  unfoldable pub known_ids : CaseSpace h → List h.Ident
  known_ids space =
      cell_ids h space.case_cells
      ++ (relation_ids h space.case_relations
          ++ (projection_ids space.projections
              ++ (log_ids space.morphism_log ++ space.revision.revision_id ∷ [])))

  unfoldable pub require_referenced_ids : List h.Ident → List h.Ident → Stored h Unit
  require_referenced_ids ids [] = ok tt
  require_referenced_ids ids (id ∷ references) = do
    require (has h ids id) (invalid_morphism (unknown_reference id))
    require_referenced_ids ids references

  unfoldable pub require_relations_known : List h.Ident → List (CaseRelation h) → Stored h Unit
  require_relations_known ids [] = ok tt
  require_relations_known ids (r ∷ relations) = do
    require_referenced_ids ids (r.from_id ∷ r.to_id ∷ [])
    require_referenced_ids ids r.evidence_ids
    require_relations_known ids relations

  unfoldable pub require_projections_known : List h.Ident → List (Projection h) → Stored h Unit
  require_projections_known ids [] = ok tt
  require_projections_known ids (p ∷ projections) = do
    require_referenced_ids ids p.represented_cell_ids
    require_referenced_ids ids p.represented_relation_ids
    require_referenced_ids ids p.omitted_cell_ids
    require_referenced_ids ids p.omitted_relation_ids
    require_projections_known ids projections

  unfoldable pub require_ids_exist : CaseSpace h → Stored h Unit
  require_ids_exist space = do
    require_relations_known (known_ids space) space.case_relations
    require_projections_known (known_ids space) space.projections

  abbrev pub agrees_with : CaseSpace h → Option (MorphismLogEntry h) → Stored h Unit
  agrees_with space none = err (replay_mismatch no_log)
  agrees_with space (some latest) = do
    require (same h.id_discrete space.revision.case_space_id space.case_space_id)
        (replay_mismatch (revision_case_space space.revision.case_space_id space.case_space_id))
    require (same h.id_discrete latest.case_space_id space.case_space_id)
        (replay_mismatch (latest_case_space latest.case_space_id space.case_space_id))
    require (same h.id_discrete latest.target_revision_id space.revision.revision_id)
        (replay_mismatch (latest_target latest.target_revision_id space.revision.revision_id))
    require (str_eq latest.replay_checksum space.revision.checksum)
        (replay_mismatch (latest_checksum latest.replay_checksum space.revision.checksum))

  unfoldable pub validate_materialized_log : CaseSpace h → Stored h Unit
  validate_materialized_log space = do
    agrees_with space (last space.morphism_log)
    require_ids_exist space

  module _ (services : Services h) where
    unfoldable pub revision_from_entry : h.Ident → MorphismLogEntry h → Revision h
    revision_from_entry case_space_id entry = record {
      revision_id = entry.target_revision_id;
      case_space_id = case_space_id;
      applied_entry_ids = entry.entry_id ∷ [];
      applied_morphism_ids = entry.morphism_id ∷ [];
      checksum = entry.replay_checksum;
      parent_revision_id = entry.source_revision_id;
      created_at = entry.recorded_at;
      source_ids = entry.source_ids;
      metadata = services.no_metadata;
    }

    abbrev pub applied : Applied h (CaseSpace h) → Stored h (CaseSpace h)
    applied (err error) = err (invalid_morphism (not_applied error))
    applied (ok space) = ok space

    -- Nothing is asked of an empty list of references.
    unfoldable pub apply_bounded_morphism :
        CaseSpace h → MorphismLogEntry h → Stored h (CaseSpace h)
    apply_bounded_morphism space entry = do
      next ← applied (apply_morphism h services.decode space entry.morphism)
      require_referenced_ids (known_ids next) entry.morphism.preserved_ids
      require_referenced_ids (known_ids next) entry.morphism.evidence_ids
      ok next

    abbrev pub summed : Result String String → Stored h String
    summed (err source) = err (json source)
    summed (ok checksum) = ok checksum

    abbrev pub evaluable : Result (List String) Unit → Stored h Unit
    evaluable (err violations) = err (not_evaluable violations)
    evaluable (ok _) = ok tt

    -- The entry and its revision are put on the case space.
    unfoldable pub recorded : CaseSpace h → MorphismLogEntry h → CaseSpace h
    recorded space entry = record space {
      morphism_log = space.morphism_log ++ entry ∷ [];
      revision = revision_from_entry space.case_space_id entry;
    }

    -- What is checked of the case space that is to be written.
    unfoldable pub require_writable : CaseSpace h → MorphismLogEntry h → Stored h Unit
    require_writable next entry = do
      expected ← summed (services.case_space_checksum next)
      require (str_eq entry.replay_checksum expected)
          (replay_mismatch (checksum_mismatch entry.entry_id entry.replay_checksum expected))
      validate_materialized_log next
      evaluable (services.validate_native_case_space next)

    -- `current` and `history` are what the replay of the log gave.
    unfoldable pub append_morphism_with_authority :
        CaseSpace h → List (MorphismLogEntry h) → MorphismLogEntry h → Bool → Stored h (CaseSpace h)
    append_morphism_with_authority current history entry allow_anchor = do
      require (not (is_execution_trace_anchor entry.morphism.morphism_type && not allow_anchor))
          (invalid_morphism anchor_reserved)
      require_valid_operation_gate h services.terms current entry
      validate_append h services.entry_hash current entry history
      applied ← apply_bounded_morphism current entry
      require_writable (recorded applied entry) entry
      ok (recorded applied entry)

    unfoldable pub append_morphism :
        CaseSpace h → List (MorphismLogEntry h) → MorphismLogEntry h → Stored h (CaseSpace h)
    append_morphism current history entry =
        append_morphism_with_authority current history entry false

    unfoldable pub append_execution_trace_anchor :
        CaseSpace h → List (MorphismLogEntry h) → MorphismLogEntry h → Stored h (CaseSpace h)
    append_execution_trace_anchor current history entry = do
      require (is_execution_trace_anchor entry.morphism.morphism_type)
          (invalid_morphism anchor_required)
      append_morphism_with_authority current history entry true
