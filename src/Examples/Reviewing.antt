-- ===== src/Examples/Reviewing.antt =====
-- A host's terms, a log with a review, and a case space to evaluate.
use Prim.Native.Nat.{Ordering}
use Prim.Native.String.{compare}
use casegraphen.Prelude.{
  String, Bool, true, false, Option, none, some, [], ◌∷◌, Result, ok, str_eq, if◌then◌else◌,
}
use casegraphen.Model.{
  CaseCell, CaseMorphism, MorphismLogEntry, MorphismPayload, CaseSpace, ProjectionAudience,
}
use casegraphen.Model.Kinds.{CaseCellType, CaseRelationType, CaseMorphismType}
use casegraphen.Model.Lifecycle.{CaseCellLifecycle}
use casegraphen.Resource.Texts.{is_empty_text}
use casegraphen.Review.{NativeReviewTargetKind, ReviewAction, Terms, NativeOperationGate}
use casegraphen.Examples.Demo.{
  unreviewed, accepted, DemoStatus, demo, cell, goal, report, relation, morphism, start,
}

abbrev demo_kind : String → Option NativeReviewTargetKind
demo_kind s = if str_eq s "evidence" then some NativeReviewTargetKind.evidence else none

abbrev demo_action : String → Option ReviewAction
demo_action s = if str_eq s "accept" then some ReviewAction.accept else none

abbrev demo_status : String → Option DemoStatus
demo_status s = if str_eq s "accepted" then some accepted else none

-- The gate that the lead passes, for an operation.
abbrev pub demo_gate : String → NativeOperationGate demo
demo_gate operation = record {
  actor_id = "actor:lead";
  operation = operation;
  operation_scope_id = "case:demo";
  audience = ProjectionAudience.audit;
  capability_ids = "capability:lead" ∷ [];
  source_boundary_id = "boundary:demo";
}

abbrev pub terms : Terms demo
terms = record {
  id_text = λ id. id;
  id_display = λ id. id;
  parse_id = λ s. some s;
  is_valid_id = λ _. true;
  new_id = λ s. s;
  id_before = λ a b. elim (compare a b) [ Ordering.lt ↦ true | _ ↦ false ];
  is_blank = is_empty_text;
  unreviewed = unreviewed;
  reviewed = unreviewed;
  as_array = λ s. some (s ∷ []);
  as_object = λ s. some (("id", s) ∷ []);
  gate_of = λ s. ok (demo_gate s);
  as_u64 = λ s. if str_eq s "1" then some 1 else none;
  target_kind_of = demo_kind;
  action_of = demo_action;
  status_of = demo_status;
  binding_of = λ _. none;
  Severity = Bool;
  medium = false;
  high = true;
  generated_provenance = λ _. unreviewed;
}

abbrev pub empty_payload : MorphismPayload demo
empty_payload = record {
  added_cells = [];
  added_relations = [];
  updated_cells = [];
  updated_relations = [];
}

abbrev pub decode : String → Result String (MorphismPayload demo)
decode _ = ok empty_payload

abbrev pub entry : CaseMorphism demo → MorphismLogEntry demo
entry m = record {
  schema = "highergraphen.case.morphism_log_entry.v1";
  schema_version = 1;
  case_space_id = "case:demo";
  sequence = 1;
  entry_id = "entry:1";
  morphism_id = m.morphism_id;
  source_revision_id = m.source_revision_id;
  target_revision_id = m.target_revision_id;
  morphism = m;
  actor_id = "actor:lead";
  recorded_at = "t1";
  provenance = unreviewed;
  source_ids = [];
  previous_entry_hash = none;
  replay_checksum = "0";
}

abbrev pub review : CaseMorphism demo
review = record (morphism CaseMorphismType.review [] [] []) {
  review_status = accepted;
  metadata =
      ("native_review_schema_version", "1")
      ∷ ("review_id", "review:1")
      ∷ ("target_id", "evidence:claim")
      ∷ ("reviewer_id", "actor:lead")
      ∷ ("reviewed_at", "t1")
      ∷ ("reason", "checked")
      ∷ ("target_kind", "evidence")
      ∷ ("action", "accept")
      ∷ ("outcome_review_status", "accepted")
      ∷ [];
}

abbrev pub genesis : MorphismLogEntry demo
genesis = entry (morphism CaseMorphismType.create [] [] [])

abbrev pub claim : CaseCell demo
claim =
    cell "evidence:claim" CaseCellType.evidence CaseCellLifecycle.active
      (("evidence_boundary", "inferred") ∷ [])

-- The goal waits for the claim, which a review has accepted; a step waits for nothing known.
abbrev pub evaluated : CaseSpace demo
evaluated = record start {
  case_cells =
      goal ∷ cell "work:step" CaseCellType.work CaseCellLifecycle.active [] ∷ report ∷ claim ∷ [];
  case_relations =
      relation "relation:waits" CaseRelationType.waits_for "goal:ship" "evidence:claim"
      ∷ relation "relation:proof" CaseRelationType.requires_evidence "goal:ship" "evidence:claim"
      ∷ relation "relation:unknown" CaseRelationType.waits_for "work:step" "event:unknown"
      ∷ [];
  morphism_log = genesis ∷ entry review ∷ [];
}
