-- ===== src/Store/Log.antt =====
-- src/native_store.rs: the contract of the log, as the loader checks it of a whole log and the
-- writer of one more entry. `entry_hash` is SHA-256 over the JSON text of an entry.
pub mod Agreement
pub mod Chain
use casegraphen.Prelude.{
  ℕ, suc, ◌+◌, String, String-discrete, Bool, true, false, not, ◌&&◌, ◌||◌, Option, none, some,
  List, [], ◌∷◌, Result, err, ok, require, ◌>>=◌, ◌>>◌, any, contains, length, same, str_eq, ◌==◌,
  if◌then◌else◌,
}
use casegraphen.Host.{Host}
use casegraphen.Model.{CaseMorphism, MorphismLogEntry, CaseSpace, Revision}
use casegraphen.Store.{
  NativeStoreError, json, unsupported_schema, unsupported_version, replay_mismatch,
  invalid_morphism, stale_source_revision, Stored, entry_id_mismatch, source_mismatch,
  target_mismatch, genesis_with_hash, hash_missing, hash_mismatch, other_case_space, wrong_sequence,
  sequence_mismatch, first_with_source, source_revision_mismatch, target_exists, duplicate_entry,
  duplicate_morphism, no_log,
}

abbrev pub entry_schema : String
entry_schema = "highergraphen.case.morphism_log_entry.v1"

abbrev pub entry_schema_version : ℕ
entry_schema_version = 1

-- `entries.last()`
abbrev pub last {ℓ} : {A : Type ℓ} → List A → Option A
last [] = none
last (x ∷ []) = some x
last (x ∷ y ∷ xs) = last (y ∷ xs)

module _ (h : Host) where
  -- `left == right` on optional identifiers
  abbrev pub same_option : Option h.Ident → Option h.Ident → Bool
  same_option none none = true
  same_option (some a) (some b) = same h.id_discrete a b
  same_option _ _ = false

  unfoldable pub require_log_entry_contract : MorphismLogEntry h → Stored h Unit
  require_log_entry_contract entry = do
    require (str_eq entry.schema entry_schema) (unsupported_schema entry.schema entry_schema)
    require (entry.schema_version == entry_schema_version)
        (unsupported_version entry.schema_version entry_schema_version)

  unfoldable pub require_entry_morphism_match : MorphismLogEntry h → Stored h Unit
  require_entry_morphism_match entry = do
    require (same h.id_discrete entry.morphism_id entry.morphism.morphism_id)
        (invalid_morphism (entry_id_mismatch entry.morphism_id entry.morphism.morphism_id))
    require (same_option entry.source_revision_id entry.morphism.source_revision_id)
        (invalid_morphism source_mismatch)
    require (same h.id_discrete entry.target_revision_id entry.morphism.target_revision_id)
        (invalid_morphism target_mismatch)

  module _ (entry_hash : MorphismLogEntry h → Result String String) where
    abbrev is_none_text : Option String → Bool
    is_none_text none = true
    is_none_text (some _) = false

    -- `serde_json::Error` becomes an error of the store.
    abbrev pub hashed : Result String String → Stored h String
    hashed (err source) = err (json source)
    hashed (ok hash) = ok hash

    abbrev pub compared :
        MorphismLogEntry h → MorphismLogEntry h → String → Option String → Stored h Unit
    compared entry previous expected none =
        err (replay_mismatch (hash_missing entry.entry_id expected previous.entry_id))
    compared entry previous expected (some actual) =
        require (str_eq actual expected)
          (replay_mismatch (hash_mismatch entry.entry_id actual expected previous.entry_id))

    unfoldable pub require_previous_entry_hash :
        MorphismLogEntry h → Option (MorphismLogEntry h) → Stored h Unit
    require_previous_entry_hash entry none =
        require (is_none_text entry.previous_entry_hash)
          (replay_mismatch (genesis_with_hash entry.entry_id))
    require_previous_entry_hash entry (some previous) = do
      expected ← hashed (entry_hash previous)
      compared entry previous expected entry.previous_entry_hash

    abbrev pub has_target : h.Ident → MorphismLogEntry h → Bool
    has_target id entry = same h.id_discrete entry.target_revision_id id

    abbrev pub has_entry_id : h.Ident → MorphismLogEntry h → Bool
    has_entry_id id entry = same h.id_discrete entry.entry_id id

    abbrev pub has_morphism_id : h.Ident → MorphismLogEntry h → Bool
    has_morphism_id id entry = same h.id_discrete entry.morphism_id id

    -- Staleness is checked before what goes stale with it.
    unfoldable pub validate_append :
        CaseSpace h → MorphismLogEntry h → List (MorphismLogEntry h) → Stored h Unit
    validate_append current entry existing = do
      require_log_entry_contract entry
      require_entry_morphism_match entry
      require (same h.id_discrete entry.case_space_id current.case_space_id)
          (invalid_morphism (other_case_space entry.case_space_id current.case_space_id))
      require (same_option entry.source_revision_id (some current.revision.revision_id))
          (stale_source_revision entry.source_revision_id current.revision.revision_id)
      require (entry.sequence == suc (length existing))
          (invalid_morphism (wrong_sequence (suc (length existing))))
      require_previous_entry_hash entry (last existing)
      require (not (any (has_target entry.target_revision_id) existing))
          (invalid_morphism (target_exists entry.target_revision_id))
      require (not (any (has_entry_id entry.entry_id) existing))
          (invalid_morphism (duplicate_entry entry.entry_id))
      require (not (any (has_morphism_id entry.morphism_id) existing))
          (invalid_morphism (duplicate_morphism entry.morphism_id))

    -- What the loop of the loader carries.
    pub record LogState : Type 0 where
      pub index : ℕ
      pub previous : Option (MorphismLogEntry h)
      pub previous_revision_id : Option h.Ident
      pub seen_entries : List h.Ident
      pub seen_morphisms : List h.Ident

    abbrev pub initial : LogState
    initial = record {
      index = 0;
      previous = none;
      previous_revision_id = none;
      seen_entries = [];
      seen_morphisms = [];
    }

    abbrev pub belongs : Option h.Ident → MorphismLogEntry h → Stored h Unit
    belongs none entry = ok tt
    belongs (some expected) entry =
        require (same h.id_discrete entry.case_space_id expected)
          (replay_mismatch (other_case_space entry.case_space_id expected))

    abbrev pub continues : LogState → MorphismLogEntry h → Stored h Unit
    continues s entry =
        if s.index == 0
        then require (same_option entry.source_revision_id none) (replay_mismatch first_with_source)
        else require (same_option entry.source_revision_id s.previous_revision_id) (
            replay_mismatch (
              source_revision_mismatch entry.entry_id entry.source_revision_id
                s.previous_revision_id))

    -- The body of the loop.
    unfoldable pub check_entry : Option h.Ident → LogState → MorphismLogEntry h → Stored h Unit
    check_entry expected s entry = do
      require_log_entry_contract entry
      require_entry_morphism_match entry
      require_previous_entry_hash entry s.previous
      belongs expected entry
      require (entry.sequence == suc s.index)
          (replay_mismatch (sequence_mismatch entry.entry_id entry.sequence (suc s.index)))
      continues s entry
      require (not (contains h.id_discrete s.seen_entries entry.entry_id))
          (invalid_morphism (duplicate_entry entry.entry_id))
      require (not (contains h.id_discrete s.seen_morphisms entry.morphism_id))
          (invalid_morphism (duplicate_morphism entry.morphism_id))

    abbrev pub advance : LogState → MorphismLogEntry h → LogState
    advance s entry = record {
      index = suc s.index;
      previous = some entry;
      previous_revision_id = some entry.target_revision_id;
      seen_entries = entry.entry_id ∷ s.seen_entries;
      seen_morphisms = entry.morphism_id ∷ s.seen_morphisms;
    }

    unfoldable pub check_entries :
        Option h.Ident → LogState → List (MorphismLogEntry h) → Stored h Unit
    check_entries expected s [] = ok tt
    check_entries expected s (entry ∷ entries) = do
      check_entry expected s entry
      check_entries expected (advance s entry) entries

    unfoldable pub validate_log_entries : Option h.Ident → List (MorphismLogEntry h) → Stored h Unit
    validate_log_entries expected [] = err (replay_mismatch no_log)
    validate_log_entries expected (entry ∷ entries) =
        check_entries expected initial (entry ∷ entries)
