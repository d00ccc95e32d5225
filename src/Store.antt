-- ===== src/Store.antt =====
-- src/native_store/types.rs: the errors of the store. A path is left out, and a constructor stands
-- for each reason, with the values that its message names.
pub mod Log
pub mod Operation
pub mod Append
use casegraphen.Prelude.{ℕ, String, Option, List, Result}
use casegraphen.Host.{Host}
use casegraphen.Reducer.Errors.{MorphismApplyError}
use casegraphen.Review.Gate.{OperationGateFailure}

module _ (h : Host) where
  pub data Reason : Type 0 where
    anchor_reserved anchor_required no_log : Reason
    entry_id_mismatch : h.Ident → h.Ident → Reason
    source_mismatch target_mismatch : Reason
    genesis_with_hash : h.Ident → Reason
    hash_missing : h.Ident → String → h.Ident → Reason
    hash_mismatch : h.Ident → String → String → h.Ident → Reason
    other_case_space : h.Ident → h.Ident → Reason
    wrong_sequence : ℕ → Reason
    sequence_mismatch : h.Ident → ℕ → ℕ → Reason
    first_with_source : Reason
    source_revision_mismatch : h.Ident → Option h.Ident → Option h.Ident → Reason
    target_exists duplicate_entry duplicate_morphism : h.Ident → Reason
    unknown_reference : h.Ident → Reason
    gate_missing gate_blank : h.Ident → Reason
    gate_malformed : h.Ident → String → Reason
    gate_actor : h.Ident → h.Ident → h.Ident → Reason
    gate_refused : h.Ident → List (OperationGateFailure h) → Reason
    not_applied : MorphismApplyError h → Reason
    checksum_mismatch : h.Ident → String → String → Reason
    revision_case_space latest_case_space latest_target : h.Ident → h.Ident → Reason
    latest_checksum : String → String → Reason

  pub data NativeStoreError : Type 0 where
    json : String → NativeStoreError
    unsupported_schema : String → String → NativeStoreError
    unsupported_version : ℕ → ℕ → NativeStoreError
    replay_mismatch : Reason → NativeStoreError
    invalid_morphism : Reason → NativeStoreError
    not_evaluable : List String → NativeStoreError
    stale_source_revision : Option h.Ident → h.Ident → NativeStoreError

  -- What an operation of the store returns.
  abbrev pub Stored : Type 0 → Type 0
  Stored A = Result NativeStoreError A

  unfoldable pub error_code : NativeStoreError → String
  error_code (json _) = "store_io"
  error_code (unsupported_schema _ _) = "unsupported_schema"
  error_code (unsupported_version _ _) = "unsupported_schema"
  error_code (replay_mismatch _) = "store_integrity"
  error_code (invalid_morphism _) = "store_integrity"
  error_code (not_evaluable _) = "store_integrity"
  error_code (stale_source_revision _ _) = "stale_revision"
