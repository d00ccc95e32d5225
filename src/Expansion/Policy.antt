-- ===== src/Expansion/Policy.antt =====
-- src/dynamic_expansion.rs: the validation of a policy and the controller that starts from it.
use Prim.Native.Nat.{Ordering}
use Prim.Native.String.{◌++◌ as join, compare}
use casegraphen.Prelude.{
  ℕ, String, Bool, true, false, not, ◌||◌, none, List, [], ◌∷◌, ◌++◌, Result, ok, err,
  if◌then◌else◌, ◌==◌, str_eq, any, length,
}
use casegraphen.Resource.Maps.{set_insert}
use casegraphen.Expansion.{ExpansionFinding, Planner, ExpansionPolicy, ExpansionController}

abbrev expansion_policy_schema : String
expansion_policy_schema = "casegraphen.experimental.expansion.policy.v0"

abbrev finding_if : Bool → String → String → List ExpansionFinding
finding_if true code detail = record { code = code; detail = detail } ∷ []
finding_if false code detail = []

-- `(&a.code, &a.detail).cmp(..)`
abbrev comes_after : ExpansionFinding → ExpansionFinding → Bool
comes_after a b = elim (compare a.code b.code) [
  | Ordering.gt ↦ true
  | Ordering.lt ↦ false
  | Ordering.eq ↦ elim (compare a.detail b.detail) [ Ordering.gt ↦ true | _ ↦ false ]
]

unfoldable insert_finding : ExpansionFinding → List ExpansionFinding → List ExpansionFinding
insert_finding f [] = f ∷ []
insert_finding f (g ∷ gs) =
    let rest = insert_finding f gs in if comes_after f g then g ∷ rest else f ∷ g ∷ gs

unfoldable sorted : List ExpansionFinding → List ExpansionFinding
unfolding insert_finding
sorted [] = []
sorted (f ∷ fs) = insert_finding f (sorted fs)

abbrev set_of : List String → List String
set_of [] = []
set_of (x ∷ xs) = set_insert x (set_of xs)

module _ (k : Planner) where
  unfoldable required_fields : List (String × String) → List ExpansionFinding
  required_fields [] = []
  required_fields ((name, value) ∷ fields) =
      finding_if (k.is_blank value) "empty_required_field" (join name " must not be empty")
      ++ required_fields fields

  unfoldable hard_limits : List (String × ℕ) → List ExpansionFinding
  hard_limits [] = []
  hard_limits ((code, value) ∷ limits) =
      finding_if (value == 0) code "hard limit must be greater than zero" ++ hard_limits limits

  abbrev is_none_of : List String → Bool
  is_none_of [] = true
  is_none_of (_ ∷ _) = false

  unfoldable pub validate_expansion_policy : ExpansionPolicy k → List ExpansionFinding
  unfolding sorted required_fields hard_limits set_insert
  validate_expansion_policy policy = sorted (
      finding_if
        (not (str_eq policy.schema expansion_policy_schema) || not (policy.schema_version == 0))
        "unsupported_policy_schema" "schema/version must name expansion.policy.v0"
      ++ (required_fields (
            ("expansion_policy_id", policy.expansion_policy_id)
            ∷ ("candidate_schema_id", policy.candidate_schema_id)
            ∷ ("cost_currency", policy.cost_currency)
            ∷ ("provenance.source", policy.provenance.source)
            ∷ ("provenance.created_by", policy.provenance.created_by)
            ∷ [])
          ++ (finding_if (is_none_of policy.dedupe_key || any k.is_blank policy.dedupe_key)
                "missing_dedupe_key" "dedupe_key must contain non-empty fields"
              ++ (finding_if (not (length (set_of policy.dedupe_key) == length policy.dedupe_key))
                    "duplicate_dedupe_key" "dedupe_key fields must be unique"
                  ++ (hard_limits (
                        ("missing_dry_round_limit", policy.dry_rounds_required)
                        ∷ ("missing_iteration_limit", policy.max_iterations)
                        ∷ ("missing_node_limit", policy.max_spawned_nodes)
                        ∷ [])
                      ++ (finding_if
                            (not (k.is_finite policy.max_cost)
                              || k.at_least k.zero_cost policy.max_cost)
                            "missing_cost_limit" "max_cost must be finite and greater than zero"
                          ++ finding_if (policy.max_latency_ms == 0) "missing_latency_limit"
                              "max_latency_ms must be greater than zero"))))))

  abbrev pub initial : ExpansionPolicy k → k.Topology → ExpansionController k
  initial policy topology = record {
    policy = policy;
    base_topology = topology;
    base_topology_hash = k.content_hash topology;
    topology_id = k.topology_id topology;
    case_space_id = k.case_space_id topology;
    active_attempt = none;
    seen = [];
    iteration = 0;
    dry_rounds = 0;
    spawned_nodes = 0;
    total_cost = k.zero_cost;
    total_latency_ms = 0;
    proposals = [];
  }

  abbrev pub if_valid :
      List ExpansionFinding
      → ExpansionController k
      → Result (List ExpansionFinding) (ExpansionController k)
  if_valid [] c = ok c
  if_valid (f ∷ fs) c = err (f ∷ fs)

  unfoldable pub new :
      ExpansionPolicy k → k.Topology → Result (List ExpansionFinding) (ExpansionController k)
  unfolding validate_expansion_policy
  new policy topology = if_valid (validate_expansion_policy policy) (initial policy topology)
