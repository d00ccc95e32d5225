-- ===== src/Eval/Validation.antt =====
-- src/native_eval/validation.rs: `validate_native_case_space`. A violation leaves its message out.
pub mod Log
pub mod Unique
pub mod Valid
use Prim.Native.String.{◌++◌ as join}
use casegraphen.Prelude.{
  ℕ, suc, String, Bool, true, false, not, ◌&&◌, ◌||◌, Option, none, some, List, [], ◌∷◌, ◌++◌,
  Result, err, ok, same, str_eq, ◌==◌, if◌then◌else◌,
}
use casegraphen.Prelude.Options.{◌>>=◌}
use casegraphen.Host.{Host}
use casegraphen.Model.{
  CaseCell, CaseRelation, CaseMorphism, MorphismLogEntry, ProjectionLoss, Projection, CaseSpace,
}
use casegraphen.Model.Kinds.{CaseMorphismType}
use casegraphen.Reducer.Ids.{has}
use casegraphen.Review.{Terms}
use casegraphen.Store.Log.{same_option, last, entry_schema}

pub data NativeEvalViolationCode : Type 0 where
  schema_mismatch unsupported_schema_version duplicate_id : NativeEvalViolationCode
  empty_required_field space_mismatch dangling_reference : NativeEvalViolationCode
  invalid_morphism invalid_morphism_log : NativeEvalViolationCode

unfoldable pub is_lift_like : CaseMorphismType → Bool
is_lift_like CaseMorphismType.create = true
is_lift_like CaseMorphismType.migration = true
is_lift_like (CaseMorphismType.custom extension) = str_eq extension "lift"
is_lift_like _ = false

module _ (h : Host) (t : Terms h) where
  pub record NativeEvalViolation : Type 0 where
    pub code : NativeEvalViolationCode
    pub record_id : Option h.Ident
    pub field : String

  abbrev pub Violations : Type 0
  Violations = List NativeEvalViolation

  -- `if !test { push_violation(..) }`
  abbrev pub check : Bool → NativeEvalViolationCode → h.Ident → String → Violations
  check true code record_id field = []
  check false code record_id field =
      record { code = code; record_id = some record_id; field = field } ∷ []

  abbrev pub is_text : Option String → Bool
  is_text none = false
  is_text (some text) = not (t.is_blank text)

  abbrev is_id : Option String → Bool
  is_id none = false
  is_id (some text) = t.is_valid_id text

  abbrev is_array : Option (List h.Value) → Bool
  is_array none = false
  is_array (some _) = true

  abbrev is_full_array : Option (List h.Value) → Bool
  is_full_array none = false
  is_full_array (some []) = false
  is_full_array (some (_ ∷ _)) = true

  abbrev pub text_at : h.Metadata → String → Option String
  text_at m key = do value ← h.get m key; h.as_str value

  abbrev array_at : h.Metadata → String → Option (List h.Value)
  array_at m key = do value ← h.get m key; t.as_array value

  -- The fields of a boundary; `prefixed` is the field's name behind the prefix.
  unfoldable pub boundary_fields : h.Metadata → h.Ident → (String → String) → Violations
  boundary_fields m record_id prefixed =
      check (is_id (text_at m "id")) empty_required_field record_id (prefixed "id")
      ++ (check (is_full_array (array_at m "included_sources")) empty_required_field record_id
            (prefixed "included_sources")
          ++ (check (is_full_array (array_at m "adapters")) empty_required_field record_id
                (prefixed "adapters")
              ++ (check (is_text (text_at m "accepted_fact_policy")) empty_required_field record_id
                    (prefixed "accepted_fact_policy")
                  ++ (check (is_text (text_at m "inference_policy")) empty_required_field record_id
                        (prefixed "inference_policy")
                      ++ check (is_array (array_at m "information_loss")) empty_required_field
                          record_id (prefixed "information_loss")))))

  abbrev boundary_object : Option h.Metadata → h.Ident → String → Violations
  boundary_object none record_id prefix = check false empty_required_field record_id prefix
  boundary_object (some m) record_id prefix =
      boundary_fields m record_id (λ key. join prefix (join "." key))

  abbrev pub validate_source_boundary_value : Option h.Value → h.Ident → String → Violations
  validate_source_boundary_value none record_id prefix =
      check false empty_required_field record_id prefix
  validate_source_boundary_value (some value) record_id prefix =
      boundary_object (t.as_object value) record_id prefix

  unfoldable pub validate_schema : CaseSpace h → Violations
  validate_schema space =
      check (str_eq space.schema "highergraphen.case.space.v1") schema_mismatch space.case_space_id
        "schema"
      ++ check (space.schema_version == 1) unsupported_schema_version space.case_space_id
          "schema_version"

  unfoldable pub validate_source_boundary : CaseSpace h → Violations
  validate_source_boundary space =
      validate_source_boundary_value (h.get space.metadata "source_boundary") space.case_space_id
        "metadata.source_boundary"

  unfoldable pub validate_cell : CaseSpace h → CaseCell h → Violations
  validate_cell space cell =
      check (not (t.is_blank cell.title)) empty_required_field cell.id "title"
      ++ check (same h.id_discrete cell.space_id space.space_id) space_mismatch cell.id "space_id"

  -- The identifiers so far and the violations.
  abbrev pub Collected : Type 0
  Collected = List h.Ident × Violations

  abbrev pub insert_id : h.Ident → Collected → Collected
  insert_id id (ids, violations) =
      (id ∷ ids, violations ++ check (not (has h ids id)) duplicate_id id "id")

  abbrev pub insert_silently : Option h.Ident → Collected → Collected
  insert_silently none collected = collected
  insert_silently (some id) (ids, violations) = (id ∷ ids, violations)

  unfoldable pub insert_cells : CaseSpace h → List (CaseCell h) → Collected → Collected
  insert_cells space [] collected = collected
  insert_cells space (cell ∷ cells) collected =
      let (ids, violations) = insert_id cell.id collected in
      insert_cells space cells (ids, violations ++ validate_cell space cell)

  unfoldable pub insert_relations : List (CaseRelation h) → Collected → Collected
  insert_relations [] collected = collected
  insert_relations (r ∷ relations) collected = insert_relations relations (insert_id r.id collected)

  unfoldable pub insert_projections : List (Projection h) → Collected → Collected
  insert_projections [] collected = collected
  insert_projections (p ∷ projections) collected =
      insert_projections projections (insert_id p.projection_id collected)

  unfoldable pub insert_entries : List (MorphismLogEntry h) → Collected → Collected
  insert_entries [] collected = collected
  insert_entries (entry ∷ entries) collected = insert_entries entries (
      insert_silently entry.source_revision_id (
        insert_silently (some entry.target_revision_id)
          (insert_id entry.morphism_id (insert_id entry.entry_id collected))))

  unfoldable pub collect_declared_ids : CaseSpace h → Collected
  collect_declared_ids space = insert_entries space.morphism_log (
      insert_id space.revision.revision_id (
        insert_projections space.projections
          (insert_relations space.case_relations (insert_cells space space.case_cells ([], [])))))

  unfoldable pub require_ids : List h.Ident → h.Ident → String → List h.Ident → Violations
  require_ids ids record_id field [] = []
  require_ids ids record_id field (target ∷ targets) =
      check (has h ids target) dangling_reference record_id field
      ++ require_ids ids record_id field targets

  unfoldable pub validate_relation_references : List h.Ident → List (CaseRelation h) → Violations
  validate_relation_references ids [] = []
  validate_relation_references ids (r ∷ relations) =
      check (has h ids r.from_id) dangling_reference r.id "from_id"
      ++ (check (has h ids r.to_id) dangling_reference r.id "to_id"
          ++ (require_ids ids r.id "evidence_ids" r.evidence_ids
              ++ validate_relation_references ids relations))

  abbrev loss_ids : List (ProjectionLoss h) → List h.Ident
  loss_ids [] = []
  loss_ids (loss ∷ losses) = loss.represented_ids ++ (loss.omitted_ids ++ loss_ids losses)

  unfoldable pub validate_projection_references : List h.Ident → List (Projection h) → Violations
  validate_projection_references ids [] = []
  validate_projection_references ids (p ∷ projections) =
      check (has h ids p.revision_id) dangling_reference p.projection_id "projection.revision_id"
      ++ (require_ids ids p.projection_id "projection_cell_ids"
            (p.represented_cell_ids ++ p.omitted_cell_ids)
          ++ (require_ids ids p.projection_id "projection_relation_ids"
                (p.represented_relation_ids ++ p.omitted_relation_ids)
              ++ (require_ids ids p.projection_id "projection.information_loss.ids"
                    (loss_ids p.information_loss)
                  ++ validate_projection_references ids projections)))
