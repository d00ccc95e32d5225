-- ===== src/Expansion.antt =====
-- src/dynamic_expansion.rs: the data of bounded expansion, and what the controller asks of the
-- topology. `Planner` stands for f64, the standard library's `trim`, JSON values and hashes, and is
-- the interface to the patching and linting of topologies.
pub mod Policy
pub mod Controller
pub mod Bounds
pub mod Spent
use casegraphen.Prelude.{ℕ, String, Bool, Option, List, Result}

pub data DedupeScope : Type 0 where
  all_seen : DedupeScope

pub data CandidateDispositionContract : Type 0 where
  unreviewed_morphism_proposal : CandidateDispositionContract

-- `Provenance` of src/execution_topology.rs
pub record PolicyProvenance : Type 0 where
  pub source : String
  pub created_by : String

pub data CandidateDispositionRequest : Type 0 where
  accept_for_proposal reject defer : CandidateDispositionRequest

pub data CandidateDisposition : Type 0 where
  accepted_for_proposal rejected duplicate deferred : CandidateDisposition

pub data ExpansionHalt : Type 0 where
  continue dry max_iterations max_spawned_nodes max_cost max_latency needs_review : ExpansionHalt

pub record ExpansionFinding : Type 0 where
  pub code : String
  pub detail : String

pub record TopologyPatchDiff : Type 0 where
  pub added_node_ids : List String
  pub removed_node_ids : List String
  pub updated_node_ids : List String
  pub added_edge_ids : List String
  pub removed_edge_ids : List String

pub record Planner : Type 1 where
  -- f64
  pub Cost : Type 0
  pub zero_cost : Cost
  pub add_cost : Cost → Cost → Cost
  pub is_finite : Cost → Bool
  pub is_negative : Cost → Bool
  pub at_least : Cost → Cost → Bool
  -- `value.trim().is_empty()`, `{}` of a u32, and JSON
  pub is_blank : String → Bool
  pub decimal : ℕ → String
  pub Json : Type 0
  -- the digest of the serialized map that has these entries
  pub digest : List (String × String) → String
  pub Topology : Type 0
  pub Patch : Type 0
  pub content_hash : Topology → String
  pub topology_id : Topology → String
  pub case_space_id : Topology → String

module _ (k : Planner) where
  pub record ExpansionPolicy : Type 0 where
    pub schema : String
    pub schema_version : ℕ
    pub expansion_policy_id : String
    pub candidate_schema_id : String
    pub dedupe_key : List String
    pub dedupe_scope : DedupeScope
    pub dry_rounds_required : ℕ
    pub max_iterations : ℕ
    pub max_spawned_nodes : ℕ
    pub max_cost : k.Cost
    pub cost_currency : String
    pub max_latency_ms : ℕ
    pub candidate_disposition : CandidateDispositionContract
    pub provenance : PolicyProvenance

  pub record ExpansionCandidate : Type 0 where
    pub candidate_schema_id : String
    pub dedupe_values : List (String × String)
    pub requested_disposition : CandidateDispositionRequest
    pub topology_patch : k.Patch

  pub record ExpansionProposal : Type 0 where
    pub proposal_id : String
    pub base_topology_content_hash : String
    pub proposed_topology_content_hash : String
    pub review_status : String
    pub topology_patch : k.Patch
    pub topology_diff : TopologyPatchDiff
    pub morphism_proposal : k.Json

  pub record CandidateDecision : Type 0 where
    pub dedupe_fingerprint : String
    pub disposition : CandidateDisposition
    pub finding : Option ExpansionFinding
    pub proposal_id : Option String

  pub record ExpansionRoundResult : Type 0 where
    pub iteration : ℕ
    pub dry_rounds : ℕ
    pub total_cost : k.Cost
    pub total_latency_ms : ℕ
    pub spawned_nodes : ℕ
    pub halt : ExpansionHalt
    pub findings : List ExpansionFinding
    pub decisions : List CandidateDecision
    pub proposals : List ExpansionProposal

  pub record ExpansionController : Type 0 where
    pub policy : ExpansionPolicy
    pub base_topology : k.Topology
    pub base_topology_hash : String
    pub topology_id : String
    pub case_space_id : String
    pub active_attempt : Option String
    pub seen : List String
    pub iteration : ℕ
    pub dry_rounds : ℕ
    pub spawned_nodes : ℕ
    pub total_cost : k.Cost
    pub total_latency_ms : ℕ
    pub proposals : List (String × ExpansionProposal)
