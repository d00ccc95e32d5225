-- ===== src/Eval/Validation/Log.antt =====
-- src/native_eval/validation.rs: the violations of the log, and the whole validation.
use casegraphen.Prelude.{
  ℕ, suc, Bool, true, false, not, Option, none, some, List, [], ◌∷◌, ◌++◌, Result, err, ok, same,
  str_eq, ◌==◌,
}
use casegraphen.Host.{Host}
use casegraphen.Model.{MorphismLogEntry, CaseSpace}
use casegraphen.Review.{Terms}
use casegraphen.Store.Log.{same_option, last, entry_schema}
use casegraphen.Eval.Validation.{
  Violations, check, is_lift_like, is_text, text_at, empty_required_field,
  unsupported_schema_version, invalid_morphism, invalid_morphism_log,
  validate_source_boundary_value, validate_schema, validate_source_boundary, collect_declared_ids,
  require_ids, validate_relation_references, validate_projection_references,
}

abbrev pub is_empty {ℓ} : {A : Type ℓ} → List A → Bool
is_empty [] = true
is_empty (_ ∷ _) = false

module _ (h : Host) (t : Terms h) where
  unfoldable pub validate_log_entry_contract : CaseSpace h → MorphismLogEntry h → ℕ → Violations h t
  validate_log_entry_contract space entry expected_sequence =
      check h t (str_eq entry.schema entry_schema) invalid_morphism_log entry.entry_id "schema"
      ++ (check h t (entry.schema_version == 1) unsupported_schema_version entry.entry_id
            "schema_version"
          ++ (check h t (same h.id_discrete entry.case_space_id space.case_space_id)
                invalid_morphism_log entry.entry_id "case_space_id"
              ++ check h t (entry.sequence == expected_sequence) invalid_morphism_log entry.entry_id
                  "sequence"))

  unfoldable pub validate_lift_morphism_metadata : MorphismLogEntry h → Violations h t
  validate_lift_morphism_metadata entry =
      check h t (is_lift_like entry.morphism.morphism_type) invalid_morphism entry.entry_id
        "morphism.morphism_type"
      ++ (check h t (is_text h t (text_at h t entry.morphism.metadata "lift_semantics"))
            empty_required_field entry.entry_id "morphism.metadata.lift_semantics"
          ++ validate_source_boundary_value h t (h.get entry.morphism.metadata "source_boundary")
              entry.entry_id "morphism.metadata.source_boundary")

  -- The source revision, against the target of the entry before.
  abbrev pub follows : MorphismLogEntry h → Option h.Ident → Violations h t
  follows entry none =
      check h t (same_option h entry.source_revision_id none) invalid_morphism_log entry.entry_id
        "source_revision_id"
      ++ validate_lift_morphism_metadata entry
  follows entry (some previous) =
      check h t (same_option h entry.source_revision_id (some previous)) invalid_morphism_log
        entry.entry_id "source_revision_id"

  unfoldable pub validate_morphism_contract : MorphismLogEntry h → Option h.Ident → Violations h t
  validate_morphism_contract entry previous =
      check h t (same h.id_discrete entry.morphism_id entry.morphism.morphism_id) invalid_morphism
        entry.entry_id "morphism_id"
      ++ (check h t (same_option h entry.source_revision_id entry.morphism.source_revision_id)
            invalid_morphism entry.entry_id "source_revision_id"
          ++ (check h t
                (same h.id_discrete entry.target_revision_id entry.morphism.target_revision_id)
                invalid_morphism entry.entry_id "target_revision_id"
              ++ follows entry previous))

  abbrev changed_ids : MorphismLogEntry h → List h.Ident
  changed_ids entry =
      entry.morphism.added_ids
      ++ (entry.morphism.updated_ids
          ++ (entry.morphism.retired_ids
              ++ (entry.morphism.preserved_ids ++ entry.morphism.evidence_ids)))

  -- The loop over the log.
  unfoldable pub validate_entries :
      CaseSpace h → List h.Ident → ℕ → Option h.Ident → List (MorphismLogEntry h) → Violations h t
  validate_entries space ids sequence previous [] = []
  validate_entries space ids sequence previous (entry ∷ entries) =
      validate_log_entry_contract space entry sequence
      ++ (validate_morphism_contract entry previous
          ++ (require_ids h t ids entry.entry_id "morphism.ids" (changed_ids entry)
              ++ validate_entries space ids (suc sequence) (some entry.target_revision_id) entries))

  unfoldable pub validate_materialized_revision : CaseSpace h → MorphismLogEntry h → Violations h t
  validate_materialized_revision space latest =
      check h t (same h.id_discrete space.revision.revision_id latest.target_revision_id)
        invalid_morphism_log space.revision.revision_id "revision.revision_id"
      ++ (check h t (same h.id_discrete space.revision.case_space_id space.case_space_id)
            invalid_morphism_log space.revision.revision_id "revision.case_space_id"
          ++ check h t (str_eq space.revision.checksum latest.replay_checksum) invalid_morphism_log
              space.revision.revision_id "revision.checksum")

  abbrev pub validate_latest : CaseSpace h → Option (MorphismLogEntry h) → Violations h t
  validate_latest space none = []
  validate_latest space (some latest) = validate_materialized_revision space latest

  unfoldable pub validate_morphism_log : CaseSpace h → List h.Ident → Violations h t
  validate_morphism_log space ids =
      check h t (not (is_empty space.morphism_log)) invalid_morphism_log space.revision.revision_id
        "morphism_log"
      ++ (validate_entries space ids 1 none space.morphism_log
          ++ validate_latest space (last space.morphism_log))

  unfoldable pub violations : CaseSpace h → Violations h t
  violations space =
      let (ids, declared) = collect_declared_ids h t space in
      validate_schema h t space
      ++ (validate_source_boundary h t space
          ++ (declared
              ++ (validate_relation_references h t ids space.case_relations
                  ++ (validate_projection_references h t ids space.projections
                      ++ validate_morphism_log space ids))))

  abbrev pub verdict : Violations h t → Result (Violations h t) Unit
  verdict [] = ok tt
  verdict (violation ∷ violations) = err (violation ∷ violations)

  unfoldable pub validate_native_case_space : CaseSpace h → Result (Violations h t) Unit
  validate_native_case_space space = verdict (violations space)
