-- ===== src/Lib.antt =====
-- CaseGraphen keeps a case (goals, work, evidence, decisions and the relations between them) as a
-- case space, which changes only by morphisms. A reducer applies a morphism or refuses it; what
-- counts as evidence is decided from the boundary that a cell declares and from its reviews; and
-- workers reserve resources before they run, and bounded expansion proposes changes of a topology.
-- This library models these parts in Rust and states what they guarantee to those who build on
-- them. Paths are those of the repository.
--
-- The parts and their files:
--
-- - Prelude and its children: tests on numbers and texts, lists, sets as lists, results.
-- - Host: what the program takes from the crates higher_graphen_core and serde_json, as a record
--   of types and operations that the other modules take as a parameter. Identifiers, review
--   statuses, provenances and JSON values are compared for equality, and a JSON map answers `get`.
-- - Trust (src/evidence_trust.rs): `evidence_is_acceptable` and its input; Trust/Laws compares it
--   with the policy.
-- - Model (src/native_model.rs): the records of a case space. Model/Kinds has the types of cells,
--   relations and morphisms, Model/Names their textual form as `impl_custom_enum!` makes it,
--   Model/Lifecycle `can_transition_to`, Model/Boundary `from_metadata_value` and
--   `native_evidence_trust_input`; Model/Lifecycle/Passed is about the stages of a cell.
-- - Reducer (src/native_model.rs): `apply_morphism`. Reducer/Guards has the `require_*` functions,
--   Reducer/Ids the declared and the carried identifiers, Reducer/Apply one function for each loop
--   and the whole; Reducer/Errors has a constructor for each message of `MorphismApplyError`.
--   Reducer/Edits says that an applied morphism is a sequence of single edits, each allowed by its
--   guards; the invariants in Reducer/WellFormed, Reducer/Frozen and Reducer/Evolution are shown for
--   one edit and carried along the sequence.
-- - Resource (src/resource_protocol.rs and the claims of src/execution_topology.rs): Resource/Grants
--   has `grant_reservation` and what it validates, Resource/Occupancy the `ResourceOccupancyIndex`
--   with `insert` and `remove`, Resource/Findings the order of findings, Resource/Texts the shape of
--   identifiers. Resource/Exclusion says what a grant promises, its child Within about
--   rate limits, Resource/Ledger what any sequence of grants and assertions keeps.
-- - Expansion (src/dynamic_expansion.rs): Expansion/Policy has `validate_expansion_policy` and
--   `ExpansionController::new`, Expansion/Controller the calls of a controller, with one function
--   for each part of `process_round`; Expansion/Bounds says what any calls keep, Expansion/Spent what
--   a used-up round does. The proposal that a patch makes is a parameter, about which nothing is
--   assumed.
-- - Review (src/native_review.rs, src/native_review/support.rs): the record `Terms` of what this part
--   takes from the crates beside Host. Review/Canonical has `canonical_review`, which reads a review
--   from a morphism's metadata, and Review/Canonical/Accepted what it asks of the morphism;
--   Review/Gate has `check_operation_gate`, with a constructor for each failure, and
--   Review/Gate/Authorized the policy.
-- - Eval (src/native_eval.rs and src/native_eval/): Eval/Latest has the latest review of evidence in
--   the log, Eval/Coverage `canonical_evidence_coverage`, Eval/Graph `NativeCaseIndex`, Eval/Context
--   `NativeEvaluationContext` and its questions, Eval/Building its construction, Eval/Obstructions
--   and Eval/Cells `evaluate_cell` with the six loops over a cell's requirements, Eval/Outcome
--   `readiness_result`, `frontier_cell_ids`, `merge_obstructions` and `progress_axis`. Eval/Validation
--   and its child Log have `validate_native_case_space`, with violations that leave their message out.
--   Eval/Outcome/Spec says by one pass over the relations what obstructs a cell; the files beside it
--   compare the indexed, grouped and sorted evaluation with it.
-- - Store (src/native_store.rs): Store/Log has `validate_append` of the writer and
--   `validate_log_entries` of the loader, Store/Operation `require_valid_operation_gate`, Store/Append
--   an append up to the writes of files. Store/Log/Agreement compares writer and loader,
--   Store/Log/Chain is about the chain of hashes, Store/Append/Loadable about what an append keeps,
--   Store/Append/Race about two appenders, Store/Append/Regated about the gate of an entry once another
--   one has been appended, Store/Append/Authority about sequences of appends: there the gate, the
--   reducer and the log meet.
-- - Examples: the theorems at concrete inputs, and tests.
--
-- How the code is rendered:
--
-- - A function that changes a `&mut CaseSpace` returns the changed one, or the error; the code works
--   on a copy and assigns it at the end, so an error leaves the old one. The `&mut self` of the index
--   is passed on in the same way, and on an error its state is not returned.
-- - `BTreeSet` and `BTreeMap` are lists of elements and of entries, asked through lookups. Where the
--   code goes through one in order, it sorts what it collects.
-- - A `u64` sum is taken modulo 2 ^ 64, as in a build without overflow checks.
-- - Every loop is a recursion on its list, so there is no fuel.
-- - A saturating sum of a width is capped at its maximum; a u32 counter that is added to is taken
--   modulo 2 ^ 32. A f64 is a type with the comparisons that the code makes.
-- - `decode` is serde_json's decoding of a payload; `debug` and `decimal` are the standard library's
--   formats; `is_whitespace` is `char::is_whitespace`. Nothing is assumed of them.
--
-- - `BTreeMap<Id, _>` and `BTreeMap<&str, _>` of the evaluation are sorted by the order that the map
--   has, where the order shows in a result: identifiers by `id_before`, of which nothing is assumed,
--   texts by their bytes. `Id::new(..).expect(..)` of a generated text is the function `new_id`.
-- - An error of the store leaves its path out and has a constructor for each message. The two
--   SHA-256 sums over JSON texts are functions that may fail; where a result needs that hashes do not
--   collide, it says for which entries.
-- - An append is a function of what the replay of the log gave and of the entry. It takes the
--   evaluator's validation as an argument.
--
-- What is not modelled: files, locks, snapshots, processes, the command line and the servers; the
-- encoding of the genesis materialization; `apply_morphism_indexed` and the fold of the log that
-- uses it; the patching of topologies and `review_accepted`; the findings, candidates, review gaps, assurance and
-- close check of an evaluation; the allocator and the other parts, which use what is here.
pub mod Prelude
pub mod Host
pub mod Trust
pub mod Model
pub mod Reducer
pub mod Resource
pub mod Review
pub mod Expansion
pub mod Eval
pub mod Store
pub mod Examples
