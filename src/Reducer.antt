-- ===== src/Reducer.antt =====
-- src/native_model.rs: the reducer, which applies a morphism to a case space. The definitions are
-- in `Errors`, `Guards`, `Ids` and `Apply`; the other modules prove what they keep.
pub mod Errors
pub mod Guards
pub mod Ids
pub mod Apply
pub mod Edits
pub mod WellFormed
pub mod Frozen
pub mod Evolution
