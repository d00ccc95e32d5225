-- ===== src/Store/Log/Agreement.antt =====
-- src/native_store.rs: the writer and the loader agree on the log.
use casegraphen.Prelude.{
  ◌+◌, String, false, ◌||◌, Option, some, List, [], ◌∷◌, ◌++◌, ◌≡◌, Result, ok, any, contains,
  length, arith, ap, ◌↔◌,
}
use casegraphen.Host.{Host}
use casegraphen.Model.{MorphismLogEntry, CaseSpace}
use casegraphen.Store.Log.{
  last, validate_append, LogState, initial, advance, check_entry, check_entries,
  validate_log_entries, has_entry_id, has_morphism_id, has_target,
}
use casegraphen.Prelude.Options.{some-injective}

module _ (h : Host) (entry_hash : MorphismLogEntry h → Result String String) where
  abbrev pub run : LogState h entry_hash → List (MorphismLogEntry h) → LogState h entry_hash
  run s [] = s
  run s (entry ∷ log) = run (advance h entry_hash s entry) log

  check_entries-snoc :
      (expected : Option h.Ident) (s : LogState h entry_hash) (log : List (MorphismLogEntry h))
      (entry : MorphismLogEntry h)
      → check_entries h entry_hash expected s log ≡ ok tt
      → check_entry h entry_hash expected (run s log) entry ≡ ok tt
      → check_entries h entry_hash expected s (log ++ entry ∷ []) ≡ ok tt
  unfolding check_entries
  check_entries-snoc expected s [] entry v c = ground arith
  check_entries-snoc expected s (first ∷ log) entry v c =
      ground (arith, check_entries-snoc expected (advance h entry_hash s first) log entry)

  snoc-check_entry :
      (expected : Option h.Ident) (s : LogState h entry_hash) (log : List (MorphismLogEntry h))
      (entry : MorphismLogEntry h)
      → check_entries h entry_hash expected s (log ++ entry ∷ []) ≡ ok tt
      → check_entry h entry_hash expected (run s log) entry ≡ ok tt
  unfolding check_entries
  snoc-check_entry expected s [] entry v = ground arith
  snoc-check_entry expected s (first ∷ log) entry v =
      ground (arith, snoc-check_entry expected (advance h entry_hash s first) log entry)

  run-index :
      (s : LogState h entry_hash) (log : List (MorphismLogEntry h))
      → (run s log).index ≡ s.index + length log
  run-index s [] = omega arith
  run-index s (entry ∷ log) = omega (arith, run-index (advance h entry_hash s entry) log)

  run-seen_entries :
      (s : LogState h entry_hash) (log : List (MorphismLogEntry h)) (id : h.Ident)
      → contains h.id_discrete (run s log).seen_entries id
        ≡ (contains h.id_discrete s.seen_entries id || any (has_entry_id h entry_hash id) log)
  run-seen_entries s [] id = ground arith
  run-seen_entries s (entry ∷ log) id =
      ground (arith, run-seen_entries (advance h entry_hash s entry) log id)

  run-seen_morphisms :
      (s : LogState h entry_hash) (log : List (MorphismLogEntry h)) (id : h.Ident)
      → contains h.id_discrete (run s log).seen_morphisms id
        ≡ (contains h.id_discrete s.seen_morphisms id || any (has_morphism_id h entry_hash id) log)
  run-seen_morphisms s [] id = ground arith
  run-seen_morphisms s (entry ∷ log) id =
      ground (arith, run-seen_morphisms (advance h entry_hash s entry) log id)

  run-last :
      (s : LogState h entry_hash) (log : List (MorphismLogEntry h)) {latest : MorphismLogEntry h}
      → last log ≡ some latest
      → ((run s log).previous ≡ some latest)
        × ((run s log).previous_revision_id ≡ some latest.target_revision_id)
  run-last s [] e = cc
  run-last s (entry ∷ []) e = (e, ap (λ latest. some latest.target_revision_id) (some-injective e))
  run-last s (entry ∷ next ∷ log) e = run-last (advance h entry_hash s entry) (next ∷ log) e

  -- An entry that the writer accepts after a log that the loader accepts, for a case space at the
  -- revision that the log leads to, leaves a log that the loader accepts.
  pub validate_append-agrees :
      (current : CaseSpace h) (log : List (MorphismLogEntry h)) (latest entry : MorphismLogEntry h)
      → validate_log_entries h entry_hash (some current.case_space_id) log ≡ ok tt
      → last log ≡ some latest
      → current.revision.revision_id ≡ latest.target_revision_id
      → validate_append h entry_hash current entry log ≡ ok tt
      → validate_log_entries h entry_hash (some current.case_space_id) (log ++ entry ∷ []) ≡ ok tt
  unfolding validate_log_entries validate_append check_entry
  validate_append-agrees current [] latest entry v l r a = cc
  validate_append-agrees current (first ∷ log) latest entry v l r a =
      check_entries-snoc (some current.case_space_id) (initial h entry_hash) (first ∷ log) entry v (
        ground (
          arith,
          run-index (initial h entry_hash) (first ∷ log),
          run-seen_entries (initial h entry_hash) (first ∷ log) entry.entry_id,
          run-seen_morphisms (initial h entry_hash) (first ∷ log) entry.morphism_id,
          (run-last (initial h entry_hash) (first ∷ log) l).0,
          (run-last (initial h entry_hash) (first ∷ log) l).1,
        ))

  loader-agrees :
      (current : CaseSpace h) (log : List (MorphismLogEntry h)) (latest entry : MorphismLogEntry h)
      → last log ≡ some latest
      → current.revision.revision_id ≡ latest.target_revision_id
      → validate_log_entries h entry_hash (some current.case_space_id) (log ++ entry ∷ []) ≡ ok tt
      → any (has_target h entry_hash entry.target_revision_id) log ≡ false
      → validate_append h entry_hash current entry log ≡ ok tt
  unfolding validate_log_entries validate_append check_entry
  loader-agrees current [] latest entry l r v n = cc
  loader-agrees current (first ∷ log) latest entry l r v n = ground (
    arith,
    snoc-check_entry (some current.case_space_id) (initial h entry_hash) (first ∷ log) entry v,
    run-index (initial h entry_hash) (first ∷ log),
    run-seen_entries (initial h entry_hash) (first ∷ log) entry.entry_id,
    run-seen_morphisms (initial h entry_hash) (first ∷ log) entry.morphism_id,
    (run-last (initial h entry_hash) (first ∷ log) l).0,
    (run-last (initial h entry_hash) (first ∷ log) l).1,
  )

  pub fresh-target :
      (current : CaseSpace h) (log : List (MorphismLogEntry h)) (entry : MorphismLogEntry h)
      → validate_append h entry_hash current entry log ≡ ok tt
      → any (has_target h entry_hash entry.target_revision_id) log ≡ false
  unfolding validate_append
  fresh-target current log entry a = ground arith

  -- After a log that the loader accepts, for a case space at the revision that the log leads to, the
  -- writer accepts an entry exactly where the loader accepts the log with that entry and no entry of
  -- the log already leads to the entry's revision.
  pub validate_append_iff :
      (current : CaseSpace h) (log : List (MorphismLogEntry h)) (latest entry : MorphismLogEntry h)
      → validate_log_entries h entry_hash (some current.case_space_id) log ≡ ok tt
      → last log ≡ some latest
      → current.revision.revision_id ≡ latest.target_revision_id
      → (validate_append h entry_hash current entry log ≡ ok tt) ↔ (
          (validate_log_entries h entry_hash (some current.case_space_id) (log ++ entry ∷ [])
            ≡ ok tt)
          × (any (has_target h entry_hash entry.target_revision_id) log ≡ false))
  validate_append_iff current log latest entry v l r = (
    λ a.
        (validate_append-agrees current log latest entry v l r a, fresh-target current log entry a),
    λ b. loader-agrees current log latest entry l r b.0 b.1,
  )
