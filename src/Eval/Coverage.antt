-- ===== src/Eval/Coverage.antt =====
-- src/native_eval/sections.rs, src/native_eval.rs: which evidence covers which target, from the
-- morphisms that minted the coverage. `decode` is serde_json's decoding of a payload.
pub mod Attached
use casegraphen.Prelude.{
  String, Bool, true, false, not, ◌&&◌, ◌||◌, Option, none, some, List, [], ◌∷◌, ◌++◌, map, Result,
  ok, err, any, keep, if◌then◌else◌, str_eq,
}
use casegraphen.Host.{Host}
use casegraphen.Model.{
  CaseCell, CaseRelation, CaseMorphism, MorphismLogEntry, MorphismPayload, CaseSpace,
}
use casegraphen.Model.Kinds.{CaseRelationType, is_evidence, is_evidence_attach}
use casegraphen.Reducer.Errors.{Applied}
use casegraphen.Reducer.Apply.{morphism_payload}
use casegraphen.Review.{Terms}

unfoldable pub is_coverage_relation : CaseRelationType → Bool
is_coverage_relation CaseRelationType.satisfies_evidence_requirement = true
is_coverage_relation CaseRelationType.verifies = true
is_coverage_relation CaseRelationType.accepts = true
is_coverage_relation _ = false

module _ (h : Host) (t : Terms h) (decode : h.Value → Result String (MorphismPayload h)) where
  abbrev is_id_of : String → CaseCell h → Bool
  is_id_of text cell = str_eq (t.id_display cell.id) text

  -- The targets of one evidence cell of genesis that genesis itself materializes.
  unfoldable pub structure_coverage :
      List (CaseCell h) → CaseCell h → List h.Ident → List (String × String)
  structure_coverage cells cell [] = []
  structure_coverage cells cell (target ∷ targets) =
      let rest = structure_coverage cells cell targets in
      if any (is_id_of (t.id_text target)) cells
      then (t.id_display cell.id, t.id_display target) ∷ rest
      else rest

  unfoldable pub genesis_coverage : List (CaseCell h) → List (CaseCell h) → List (String × String)
  genesis_coverage cells [] = []
  genesis_coverage cells (cell ∷ rest) =
      let later = genesis_coverage cells rest in
      if is_evidence cell.cell_type
      then structure_coverage cells cell cell.structure_ids ++ later
      else later

  unfoldable pub relation_coverage : List (CaseRelation h) → List (String × String)
  relation_coverage [] = []
  relation_coverage (relation ∷ relations) =
      let rest = relation_coverage relations in
      if is_coverage_relation relation.relation_type
      then (t.id_display relation.from_id, t.id_display relation.to_id) ∷ rest
      else rest

  -- What one entry of the log adds.
  abbrev pub payload_coverage : Bool → Applied h (MorphismPayload h) → List (String × String)
  payload_coverage is_genesis (err _) = []
  payload_coverage is_genesis (ok payload) =
      (if is_genesis then genesis_coverage payload.added_cells payload.added_cells else [])
      ++ relation_coverage payload.added_relations

  unfoldable pub entry_coverage : Bool → MorphismLogEntry h → List (String × String)
  entry_coverage is_genesis entry =
      if not is_genesis && not (is_evidence_attach entry.morphism.morphism_type)
      then []
      else payload_coverage is_genesis (morphism_payload h decode entry.morphism)

  unfoldable pub log_coverage : Bool → List (MorphismLogEntry h) → List (String × String)
  log_coverage is_genesis [] = []
  log_coverage is_genesis (entry ∷ log) = entry_coverage is_genesis entry ++ log_coverage false log

  -- The set of pairs, by its elements.
  unfoldable pub canonical_evidence_coverage : CaseSpace h → List (String × String)
  canonical_evidence_coverage space = log_coverage true space.morphism_log

  abbrev pub targets : List (String × String) → List String
  targets [] = []
  targets ((_, target) ∷ pairs) = target ∷ targets pairs

  unfoldable pub trusted_coverage_targets : CaseSpace h → (String → Bool) → List String
  trusted_coverage_targets space is_trusted =
      targets (keep (λ pair. is_trusted pair.0) (canonical_evidence_coverage space))

  unfoldable pub recorded_coverage_targets : CaseSpace h → String → List String
  recorded_coverage_targets space evidence_id =
      targets (keep (λ pair. str_eq pair.0 evidence_id) (canonical_evidence_coverage space))
