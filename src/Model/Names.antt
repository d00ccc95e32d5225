-- ===== src/Model/Names.antt =====
-- src/native_model.rs: the textual form of the open enumerations, as `impl_custom_enum!` makes it
-- of the list of a type's names. `is_whitespace` is the standard library's `char::is_whitespace`,
-- by which `trim` works.
pub mod Laws
pub mod Written
use Prim.Native.Char.{Char}
use Prim.Native.String
use Prim.Native.String.{◌++◌ as join}
use casegraphen.Prelude.{
  String, Bool, true, false, ◌&&◌, Option, none, some, List, [], ◌∷◌, Result, ok, err,
  if◌then◌else◌, str_eq,
}
use casegraphen.Model.Kinds.{CaseCellType, CaseRelationType, CaseMorphismType}

abbrev pub custom_prefix : String
custom_prefix = "custom:"

pub data NameError : Type 0 where
  empty_extension : String → NameError
  unsupported : String → String → NameError

-- What an invocation of the macro gives: the type's names and its `Custom`.
pub record CustomEnum (A : Type 0) : Type 0 where
  pub name : String
  pub names : List (String × A)
  pub custom : String → A
  pub serialized_value : A → String

abbrev same_char : Char → Char → Bool
same_char c d = str_eq (String.◌∷◌ c String.[]) (String.◌∷◌ d String.[])

-- `starts_with` and the rest of the text
unfoldable pub strip : String → String → Option String
strip String.[] s = some s
strip (String.◌∷◌ c p) String.[] = none
strip (String.◌∷◌ c p) (String.◌∷◌ d s) =
    let rest = strip p s in if same_char c d then rest else none

-- The arms of the `match` on the names.
abbrev pub named {ℓ} : {A : Type ℓ} → List (String × A) → String → Option A
named [] value = none
named ((name, variant) ∷ names) value =
    if str_eq name value then some variant else named names value

module _ (is_whitespace : Char → Bool) where
  -- `extension.trim().is_empty()`
  abbrev pub is_blank : String → Bool
  is_blank String.[] = true
  is_blank (String.◌∷◌ c s) = is_whitespace c && is_blank s

  abbrev pub extended : {A : Type 0} → CustomEnum A → String → Option String → Result NameError A
  extended E value none = err (unsupported E.name value)
  extended E value (some extension) =
      if is_blank extension then err (empty_extension value) else ok (E.custom extension)

  abbrev pub known_or_extended :
      {A : Type 0} → CustomEnum A → String → Option A → Result NameError A
  known_or_extended E value (some variant) = ok variant
  known_or_extended E value none = extended E value (strip custom_prefix value)

  unfoldable pub from_str : {A : Type 0} → CustomEnum A → String → Result NameError A
  unfolding strip
  from_str E value = known_or_extended E value (named E.names value)

unfoldable pub cell_type_value : CaseCellType → String
cell_type_value CaseCellType.kase = "case"
cell_type_value CaseCellType.scenario = "scenario"
cell_type_value CaseCellType.goal = "goal"
cell_type_value CaseCellType.work = "work"
cell_type_value CaseCellType.decision = "decision"
cell_type_value CaseCellType.event = "event"
cell_type_value CaseCellType.evidence = "evidence"
cell_type_value CaseCellType.proof = "proof"
cell_type_value CaseCellType.review = "review"
cell_type_value CaseCellType.obstruction = "obstruction"
cell_type_value CaseCellType.completion = "completion"
cell_type_value CaseCellType.projection = "projection"
cell_type_value CaseCellType.revision = "revision"
cell_type_value CaseCellType.morphism = "morphism"
cell_type_value CaseCellType.external_ref = "external_ref"
cell_type_value (CaseCellType.custom extension) = join custom_prefix extension

unfoldable pub CaseCellType-names : CustomEnum CaseCellType
CaseCellType-names = record {
  name = "CaseCellType";
  names =
      ("case", CaseCellType.kase)
      ∷ ("scenario", CaseCellType.scenario)
      ∷ ("goal", CaseCellType.goal)
      ∷ ("work", CaseCellType.work)
      ∷ ("decision", CaseCellType.decision)
      ∷ ("event", CaseCellType.event)
      ∷ ("evidence", CaseCellType.evidence)
      ∷ ("proof", CaseCellType.proof)
      ∷ ("review", CaseCellType.review)
      ∷ ("obstruction", CaseCellType.obstruction)
      ∷ ("completion", CaseCellType.completion)
      ∷ ("projection", CaseCellType.projection)
      ∷ ("revision", CaseCellType.revision)
      ∷ ("morphism", CaseCellType.morphism)
      ∷ ("external_ref", CaseCellType.external_ref)
      ∷ [];
  custom = CaseCellType.custom;
  serialized_value = cell_type_value;
}

unfoldable pub morphism_type_value : CaseMorphismType → String
morphism_type_value CaseMorphismType.create = "create"
morphism_type_value CaseMorphismType.update = "update"
morphism_type_value CaseMorphismType.retire = "retire"
morphism_type_value CaseMorphismType.relate = "relate"
morphism_type_value CaseMorphismType.unrelate = "unrelate"
morphism_type_value CaseMorphismType.review = "review"
morphism_type_value CaseMorphismType.evidence_attach = "evidence_attach"
morphism_type_value CaseMorphismType.completion_accept = "completion_accept"
morphism_type_value CaseMorphismType.completion_reject = "completion_reject"
morphism_type_value CaseMorphismType.projection = "projection"
morphism_type_value CaseMorphismType.migration = "migration"
morphism_type_value CaseMorphismType.close = "close"
morphism_type_value (CaseMorphismType.custom extension) = join custom_prefix extension

unfoldable pub CaseMorphismType-names : CustomEnum CaseMorphismType
CaseMorphismType-names = record {
  name = "CaseMorphismType";
  names =
      ("create", CaseMorphismType.create)
      ∷ ("update", CaseMorphismType.update)
      ∷ ("retire", CaseMorphismType.retire)
      ∷ ("relate", CaseMorphismType.relate)
      ∷ ("unrelate", CaseMorphismType.unrelate)
      ∷ ("review", CaseMorphismType.review)
      ∷ ("evidence_attach", CaseMorphismType.evidence_attach)
      ∷ ("completion_accept", CaseMorphismType.completion_accept)
      ∷ ("completion_reject", CaseMorphismType.completion_reject)
      ∷ ("projection", CaseMorphismType.projection)
      ∷ ("migration", CaseMorphismType.migration)
      ∷ ("close", CaseMorphismType.close)
      ∷ [];
  custom = CaseMorphismType.custom;
  serialized_value = morphism_type_value;
}

unfoldable pub relation_type_value : CaseRelationType → String
relation_type_value CaseRelationType.depends_on = "depends_on"
relation_type_value CaseRelationType.waits_for = "waits_for"
relation_type_value CaseRelationType.requires_evidence = "requires_evidence"
relation_type_value CaseRelationType.requires_proof = "requires_proof"
relation_type_value CaseRelationType.satisfies_evidence_requirement =
    "satisfies_evidence_requirement"
relation_type_value CaseRelationType.verifies = "verifies"
relation_type_value CaseRelationType.covers = "covers"
relation_type_value CaseRelationType.exercises = "exercises"
relation_type_value CaseRelationType.blocks = "blocks"
relation_type_value CaseRelationType.unblocks = "unblocks"
relation_type_value CaseRelationType.contradicts = "contradicts"
relation_type_value CaseRelationType.invalidates = "invalidates"
relation_type_value CaseRelationType.completes = "completes"
relation_type_value CaseRelationType.derives_from = "derives_from"
relation_type_value CaseRelationType.refines = "refines"
relation_type_value CaseRelationType.projects_to = "projects_to"
relation_type_value CaseRelationType.transitions_to = "transitions_to"
relation_type_value CaseRelationType.corresponds_to = "corresponds_to"
relation_type_value CaseRelationType.accepts = "accepts"
relation_type_value CaseRelationType.rejects = "rejects"
relation_type_value CaseRelationType.supersedes = "supersedes"
relation_type_value (CaseRelationType.custom extension) = join custom_prefix extension

unfoldable pub CaseRelationType-names : CustomEnum CaseRelationType
CaseRelationType-names = record {
  name = "CaseRelationType";
  names =
      ("depends_on", CaseRelationType.depends_on)
      ∷ ("waits_for", CaseRelationType.waits_for)
      ∷ ("requires_evidence", CaseRelationType.requires_evidence)
      ∷ ("requires_proof", CaseRelationType.requires_proof)
      ∷ ("satisfies_evidence_requirement", CaseRelationType.satisfies_evidence_requirement)
      ∷ ("verifies", CaseRelationType.verifies)
      ∷ ("covers", CaseRelationType.covers)
      ∷ ("exercises", CaseRelationType.exercises)
      ∷ ("blocks", CaseRelationType.blocks)
      ∷ ("unblocks", CaseRelationType.unblocks)
      ∷ ("contradicts", CaseRelationType.contradicts)
      ∷ ("invalidates", CaseRelationType.invalidates)
      ∷ ("completes", CaseRelationType.completes)
      ∷ ("derives_from", CaseRelationType.derives_from)
      ∷ ("refines", CaseRelationType.refines)
      ∷ ("projects_to", CaseRelationType.projects_to)
      ∷ ("transitions_to", CaseRelationType.transitions_to)
      ∷ ("corresponds_to", CaseRelationType.corresponds_to)
      ∷ ("accepts", CaseRelationType.accepts)
      ∷ ("rejects", CaseRelationType.rejects)
      ∷ ("supersedes", CaseRelationType.supersedes)
      ∷ [];
  custom = CaseRelationType.custom;
  serialized_value = relation_type_value;
}
