-- ===== src/Examples/Demo.antt =====
-- A host with texts for identifiers and values, and a case space with a goal, evidence, a
-- capability and an artifact.
use casegraphen.Prelude.{
  String, Option, none, some, List, [], ◌∷◌, ◌≢◌, String-discrete, str_eq, if◌then◌else◌,
}
use casegraphen.Host.{Host}
use casegraphen.Model.{CaseCell, CaseRelation, CaseMorphism, CaseSpace}
use casegraphen.Model.Kinds.{CaseCellType, CaseRelationType, CaseMorphismType, RelationStrength}
use casegraphen.Model.Lifecycle.{CaseCellLifecycle}

pub data DemoStatus : Type 0 where
  unreviewed accepted rejected : DemoStatus

unfoldable pub DemoStatus-discrete : Discrete DemoStatus
DemoStatus-discrete = hlevel

pub accepted-ne-rejected_lem : accepted ≢ rejected
accepted-ne-rejected_lem e = cc

abbrev pub lookup_text : List (String × String) → String → Option String
lookup_text [] k = none
lookup_text ((j, v) ∷ m) k = if str_eq j k then some v else lookup_text m k

abbrev pub demo : Host
demo = record {
  Ident = String;
  id_discrete = String-discrete;
  ReviewStatus = DemoStatus;
  status_discrete = DemoStatus-discrete;
  accepted = accepted;
  rejected = rejected;
  accepted-ne-rejected = accepted-ne-rejected_lem;
  Provenance = DemoStatus;
  provenance_discrete = DemoStatus-discrete;
  review_status = λ p. p;
  Value = String;
  value_discrete = String-discrete;
  as_str = λ v. some v;
  Metadata = List (String × String);
  get = lookup_text;
}

abbrev pub cell : String → CaseCellType → CaseCellLifecycle → List (String × String) → CaseCell demo
cell id type lifecycle metadata = record {
  id = id;
  cell_type = type;
  space_id = "space:demo";
  title = id;
  summary = none;
  lifecycle = lifecycle;
  source_ids = "source:demo" ∷ [];
  structure_ids = [];
  provenance = unreviewed;
  metadata = metadata;
}

abbrev pub goal : CaseCell demo
goal = cell "goal:ship" CaseCellType.goal CaseCellLifecycle.active []

abbrev pub report : CaseCell demo
report =
    cell "evidence:report" CaseCellType.evidence CaseCellLifecycle.active
      (("evidence_boundary", "source_backed") ∷ [])

abbrev pub grant_cell : CaseCell demo
grant_cell = cell "capability:lead" (CaseCellType.custom "capability") CaseCellLifecycle.active []

abbrev pub log_file : CaseCell demo
log_file = cell "artifact:log" (CaseCellType.custom "artifact") CaseCellLifecycle.active []

abbrev pub relation : String → CaseRelationType → String → String → CaseRelation demo
relation id type from to = record {
  id = id;
  relation_type = type;
  relation_strength = RelationStrength.hard;
  from_id = from;
  to_id = to;
  evidence_ids = [];
  source_ids = [];
  provenance = unreviewed;
  metadata = [];
}

abbrev pub derived : CaseRelation demo
derived = relation "relation:derived" CaseRelationType.derives_from "evidence:report" "artifact:log"

abbrev pub morphism : CaseMorphismType → List String → List String → List String → CaseMorphism demo
morphism type added updated retired = record {
  morphism_id = "morphism:next";
  morphism_type = type;
  source_revision_id = some "revision:1";
  target_revision_id = "revision:2";
  added_ids = added;
  updated_ids = updated;
  retired_ids = retired;
  preserved_ids = [];
  violated_invariant_ids = [];
  review_status = unreviewed;
  evidence_ids = [];
  source_ids = [];
  metadata = ("payload", "payload") ∷ [];
}

abbrev pub start : CaseSpace demo
start = record {
  schema = "highergraphen.case.space.v1";
  schema_version = 1;
  case_space_id = "case:demo";
  space_id = "space:demo";
  case_cells = goal ∷ report ∷ grant_cell ∷ log_file ∷ [];
  case_relations = derived ∷ [];
  morphism_log = [];
  projections = [];
  revision = record {
    revision_id = "revision:1";
    case_space_id = "case:demo";
    applied_entry_ids = [];
    applied_morphism_ids = [];
    checksum = "0";
    parent_revision_id = none;
    created_at = "t0";
    source_ids = [];
    metadata = [];
  };
  close_policy_id = none;
  metadata = [];
}
