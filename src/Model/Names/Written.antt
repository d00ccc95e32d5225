-- ===== src/Model/Names/Written.antt =====
-- The three open enumerations are written and read faithfully.
use Prim.Native.Char.{Char}
use casegraphen.Prelude.{String, Bool, ◌⊎◌, some, inl, inr, refl, ◌≡◌, ◌↔◌, ok, String-discrete}
use casegraphen.Model.Kinds.{CaseCellType, CaseRelationType, CaseMorphismType}
use casegraphen.Model.Names.{
  strip, named, from_str, cell_type_value, relation_type_value, morphism_type_value,
  CaseCellType-names, CaseRelationType-names, CaseMorphismType-names,
}
use casegraphen.Model.Names.Laws.{IsFaithful, IsSpoken, from_str_iff}

cell_type_covers :
    (t : CaseCellType)
    → (named CaseCellType-names.names (cell_type_value t) ≡ some t)
      ⊎ ((e : String) × (t ≡ CaseCellType.custom e))
unfolding CaseCellType-names cell_type_value String-discrete
cell_type_covers CaseCellType.kase = inl refl
cell_type_covers CaseCellType.scenario = inl refl
cell_type_covers CaseCellType.goal = inl refl
cell_type_covers CaseCellType.work = inl refl
cell_type_covers CaseCellType.decision = inl refl
cell_type_covers CaseCellType.event = inl refl
cell_type_covers CaseCellType.evidence = inl refl
cell_type_covers CaseCellType.proof = inl refl
cell_type_covers CaseCellType.review = inl refl
cell_type_covers CaseCellType.obstruction = inl refl
cell_type_covers CaseCellType.completion = inl refl
cell_type_covers CaseCellType.projection = inl refl
cell_type_covers CaseCellType.revision = inl refl
cell_type_covers CaseCellType.morphism = inl refl
cell_type_covers CaseCellType.external_ref = inl refl
cell_type_covers (CaseCellType.custom e) = inr (e, refl)

pub CaseCellType-IsFaithful : IsFaithful CaseCellType-names
unfolding CaseCellType-names cell_type_value strip
CaseCellType-IsFaithful = record {
  plain = refl;
  values = refl;
  extensions = λ _. refl;
  covers = cell_type_covers;
}

relation_type_covers :
    (t : CaseRelationType)
    → (named CaseRelationType-names.names (relation_type_value t) ≡ some t)
      ⊎ ((e : String) × (t ≡ CaseRelationType.custom e))
unfolding CaseRelationType-names relation_type_value String-discrete
relation_type_covers CaseRelationType.depends_on = inl refl
relation_type_covers CaseRelationType.waits_for = inl refl
relation_type_covers CaseRelationType.requires_evidence = inl refl
relation_type_covers CaseRelationType.requires_proof = inl refl
relation_type_covers CaseRelationType.satisfies_evidence_requirement = inl refl
relation_type_covers CaseRelationType.verifies = inl refl
relation_type_covers CaseRelationType.covers = inl refl
relation_type_covers CaseRelationType.exercises = inl refl
relation_type_covers CaseRelationType.blocks = inl refl
relation_type_covers CaseRelationType.unblocks = inl refl
relation_type_covers CaseRelationType.contradicts = inl refl
relation_type_covers CaseRelationType.invalidates = inl refl
relation_type_covers CaseRelationType.completes = inl refl
relation_type_covers CaseRelationType.derives_from = inl refl
relation_type_covers CaseRelationType.refines = inl refl
relation_type_covers CaseRelationType.projects_to = inl refl
relation_type_covers CaseRelationType.transitions_to = inl refl
relation_type_covers CaseRelationType.corresponds_to = inl refl
relation_type_covers CaseRelationType.accepts = inl refl
relation_type_covers CaseRelationType.rejects = inl refl
relation_type_covers CaseRelationType.supersedes = inl refl
relation_type_covers (CaseRelationType.custom e) = inr (e, refl)

pub CaseRelationType-IsFaithful : IsFaithful CaseRelationType-names
unfolding CaseRelationType-names relation_type_value strip
CaseRelationType-IsFaithful = record {
  plain = refl;
  values = refl;
  extensions = λ _. refl;
  covers = relation_type_covers;
}

morphism_type_covers :
    (t : CaseMorphismType)
    → (named CaseMorphismType-names.names (morphism_type_value t) ≡ some t)
      ⊎ ((e : String) × (t ≡ CaseMorphismType.custom e))
unfolding CaseMorphismType-names morphism_type_value String-discrete
morphism_type_covers CaseMorphismType.create = inl refl
morphism_type_covers CaseMorphismType.update = inl refl
morphism_type_covers CaseMorphismType.retire = inl refl
morphism_type_covers CaseMorphismType.relate = inl refl
morphism_type_covers CaseMorphismType.unrelate = inl refl
morphism_type_covers CaseMorphismType.review = inl refl
morphism_type_covers CaseMorphismType.evidence_attach = inl refl
morphism_type_covers CaseMorphismType.completion_accept = inl refl
morphism_type_covers CaseMorphismType.completion_reject = inl refl
morphism_type_covers CaseMorphismType.projection = inl refl
morphism_type_covers CaseMorphismType.migration = inl refl
morphism_type_covers CaseMorphismType.close = inl refl
morphism_type_covers (CaseMorphismType.custom e) = inr (e, refl)

pub CaseMorphismType-IsFaithful : IsFaithful CaseMorphismType-names
unfolding CaseMorphismType-names morphism_type_value strip
CaseMorphismType-IsFaithful = record {
  plain = refl;
  values = refl;
  extensions = λ _. refl;
  covers = morphism_type_covers;
}

-- A text is read as a type of cells, of relations or of morphisms exactly where it is what that type
-- is written as, and the type is no extension by a blank text: so every such type is read back from
-- what it is written as, and no text is read that is not one.
pub from_str_reads_names :
    (is_whitespace : Char → Bool) (value : String) (c : CaseCellType) (r : CaseRelationType)
    (m : CaseMorphismType)
    → ((from_str is_whitespace CaseCellType-names value ≡ ok c) ↔ (
        (cell_type_value c ≡ value)
        × IsSpoken is_whitespace CaseCellType-names CaseCellType-IsFaithful c))
      × ((from_str is_whitespace CaseRelationType-names value ≡ ok r) ↔ (
          (relation_type_value r ≡ value)
          × IsSpoken is_whitespace CaseRelationType-names CaseRelationType-IsFaithful r))
      × ((from_str is_whitespace CaseMorphismType-names value ≡ ok m) ↔ (
          (morphism_type_value m ≡ value)
          × IsSpoken is_whitespace CaseMorphismType-names CaseMorphismType-IsFaithful m))
unfolding CaseCellType-names CaseRelationType-names CaseMorphismType-names
from_str_reads_names is_whitespace value c r m = (
  from_str_iff is_whitespace CaseCellType-names CaseCellType-IsFaithful value c,
  from_str_iff is_whitespace CaseRelationType-names CaseRelationType-IsFaithful value r,
  from_str_iff is_whitespace CaseMorphismType-names CaseMorphismType-IsFaithful value m,
)
