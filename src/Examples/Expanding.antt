-- ===== src/Examples/Expanding.antt =====
-- A controller that takes one patch, and one whose round uses up its cost.
use casegraphen.Prelude.{
  ℕ, ◌+◌, String, true, false, some, List, [], ◌∷◌, ◌≡◌, refl, arith, Result, ok, str_eq, leb,
  String-discrete,
}
use casegraphen.Resource.Maps.{upsert, set_insert}
use casegraphen.Expansion.{
  ExpansionFinding, Planner, ExpansionPolicy, ExpansionCandidate, ExpansionProposal,
  ExpansionRoundResult, ExpansionController, DedupeScope, CandidateDispositionContract,
  CandidateDispositionRequest,
}
use casegraphen.Expansion.Policy.{new, initial, validate_expansion_policy}
use casegraphen.Expansion.Controller.{
  process_round, begin_attempt, run_round, entered, fingerprint, selected, take_candidates, verdict,
  accept, one, added_node_count,
}
use casegraphen.Expansion.Bounds.{IsBounded, Call, Calls, expansion-IsBounded}
use casegraphen.Expansion.Spent.{process_round-spent, is_exhausted}

abbrev planner : Planner
planner = record {
  Cost = ℕ;
  zero_cost = 0;
  add_cost = λ a b. a + b;
  is_finite = λ _. true;
  is_negative = λ _. false;
  at_least = λ a b. leb b a;
  is_blank = λ s. str_eq s "";
  decimal = λ _. "n";
  Json = String;
  digest = λ entries. "digest";
  Topology = String;
  Patch = List String;
  content_hash = λ t. t;
  topology_id = λ _. "topology:demo";
  case_space_id = λ _. "case:demo";
}

abbrev proposal : String → List String → Result ExpansionFinding (ExpansionProposal planner)
proposal base patch = ok (record {
  proposal_id = "proposal:1";
  base_topology_content_hash = base;
  proposed_topology_content_hash = "topology:changed";
  review_status = "unreviewed";
  topology_patch = patch;
  topology_diff = record {
    added_node_ids = patch;
    removed_node_ids = [];
    updated_node_ids = [];
    added_edge_ids = [];
    removed_edge_ids = [];
  };
  morphism_proposal = "{}";
})

abbrev policy : ExpansionPolicy planner
policy = record {
  schema = "casegraphen.experimental.expansion.policy.v0";
  schema_version = 0;
  expansion_policy_id = "policy:1";
  candidate_schema_id = "schema:bug";
  dedupe_key = "file" ∷ [];
  dedupe_scope = DedupeScope.all_seen;
  dry_rounds_required = 1;
  max_iterations = 2;
  max_spawned_nodes = 3;
  max_cost = 10;
  cost_currency = "USD";
  max_latency_ms = 100;
  candidate_disposition = CandidateDispositionContract.unreviewed_morphism_proposal;
  provenance = record { source = "team"; created_by = "lead" };
}

abbrev candidate : ExpansionCandidate planner
candidate = record {
  candidate_schema_id = "schema:bug";
  dedupe_values = ("file", "a.rs") ∷ [];
  requested_disposition = CandidateDispositionRequest.accept_for_proposal;
  topology_patch = "node:1" ∷ "node:2" ∷ [];
}

abbrev begun : ExpansionController planner
begun = record (initial planner policy "topology") { active_attempt = some "attempt:1" }

abbrev after : ℕ → ExpansionController planner × ExpansionRoundResult planner
after cost = run_round planner proposal (entered planner proposal begun cost 5) (candidate ∷ [])

made : new planner policy "topology" ≡ ok (initial planner policy "topology")
unfolding new validate_expansion_policy set_insert String-discrete
made = refl

started :
    begin_attempt planner (initial planner policy "topology") "attempt:1" "topology" ≡ ok begun
unfolding begin_attempt
started = refl

processed :
    (cost : ℕ)
    → process_round planner proposal begun "attempt:1" (candidate ∷ []) cost 5 ≡ ok (after cost)
unfolding process_round
processed cost = refl

-- The patch adds two nodes.
two_spawned : (after 1).0.spawned_nodes ≡ 2
unfolding run_round entered fingerprint selected take_candidates verdict accept one added_node_count
    upsert
two_spawned = refl

expansion-IsBounded_example : IsBounded planner policy (after 1).0
expansion-IsBounded_example =
    expansion-IsBounded planner proposal policy "topology" (initial planner policy "topology")
      (after 1).0 (omega arith) made
      (Calls.called (Calls.called Calls.untouched (Call.begin "attempt:1" "topology" started))
        (Call.round "attempt:1" (candidate ∷ []) 1 5 (after 1).1 (processed 1)))

used_up : is_exhausted planner proposal (after 10).0 ≡ true
unfolding run_round entered fingerprint selected take_candidates verdict accept one added_node_count
    upsert
used_up = refl

process_round-spent_example :
    ((after 10).1.proposals ≡ []) × ((after 10).0.spawned_nodes ≡ begun.spawned_nodes)
process_round-spent_example =
    process_round-spent planner proposal begun (after 10).0 "attempt:1" (candidate ∷ []) 10 5
      (after 10).1 (processed 10) used_up
