-- ===== src/Examples/Reserving.antt =====
-- Two readers of one resource, and a writer that has to wait for them.
use casegraphen.Prelude.{
  ℕ, String, true, false, none, some, List, [], ◌∷◌, ◌++◌, ◌≡◌, refl, ok, any, all, not, ◌||◌, keep,
  str_eq, String-discrete, ℕ_discrete,
}
use casegraphen.Resource.Maps.{set_insert, upsert}
use casegraphen.Resource.Texts.{is_canonical_id, split_once, contains_equals}
use casegraphen.Resource.Findings.{reported, sort_findings, dedup}
use casegraphen.Resource.Records.{
  ResourceMode, read, write, ResourceClaim, ResourceDeclaration, ResourceReservation,
  ReservationAssertionKind, ReservationDispositionAssertion, RateLimitCapacity,
  resource_declaration_schema, resource_reservation_schema, reservation_assertion_schema,
  rate_limit_capacity_schema, ResourceGrant-discrete,
}
use casegraphen.Resource.Occupancy.{
  from_active_reservations, insert_all, insert, insert_grants, insert_grant, add_units, add_u64,
}
use casegraphen.Resource.Occupancy.Represents.{Represents, from_active-Represents, usage}
use casegraphen.Resource.Grants.{
  grant_reservation, reservation_is_active, capacity_by_group, grant_indexed_reservation,
  grant_findings, validate_declaration_and_reservation, validate_declaration_record, grants_match,
  distinct, declaration_grants, claim_grant, validate_grants, validate_named_scopes,
  conflict_findings, conflicting_holders, capacity_findings, with_candidate, usage_findings,
  disposes, fits_kind,
}
use casegraphen.Resource.Exclusion.{conflicts, grant_reservation-exclusive}
use casegraphen.Resource.Exclusion.Within.{is_of_group, is_enough, grant_reservation-within}
use casegraphen.Resource.Ledger.{Ledger, active, apart, Step, History, ledger_apart}

abbrev debug : String → String
debug s = s

abbrev decimal : ℕ → String
decimal n = "n"

abbrev claim : ResourceMode → ResourceClaim
claim mode = record {
  resource = "repo:core";
  mode = mode;
  rate_limit_group = some "api:calls";
  workspace_strategy = none;
  network_scope = [];
  secret_scope = [];
}

abbrev declaration : String → ResourceMode → ResourceDeclaration
declaration id mode = record {
  schema = resource_declaration_schema;
  schema_version = 0;
  declaration_id = id;
  runtime_graph_id = "graph:1";
  runtime_graph_content_hash = "h";
  node_id = "node:1";
  claims = claim mode ∷ [];
}

abbrev reservation : String → String → String → ResourceMode → ResourceReservation
reservation id declared attempt mode = record {
  schema = resource_reservation_schema;
  schema_version = 0;
  reservation_id = id;
  declaration_id = declared;
  attempt_id = attempt;
  granted_at = "t0";
  grants =
      record {
        resource_id = "repo:core";
        mode = mode;
        rate_limit_group = some "api:calls";
        rate_limit_units = 1;
        workspace_strategy = none;
        network_scope = [];
        secret_scope = [];
      }
      ∷ [];
}

abbrev capacities : List RateLimitCapacity
capacities =
    record {
      schema = rate_limit_capacity_schema;
      schema_version = 0;
      group_id = "api:calls";
      capacity = 2;
    }
    ∷ []

abbrev first : ResourceReservation
first = reservation "reservation:1" "declaration:read" "attempt:1" read

abbrev second : ResourceReservation
second = reservation "reservation:2" "declaration:read" "attempt:2" read

first-granted :
    grant_reservation debug decimal (declaration "declaration:read" read) first [] [] capacities
    ≡ ok first
unfolding grant_reservation grant_indexed_reservation reported grant_findings
    validate_declaration_and_reservation validate_declaration_record grants_match distinct
    declaration_grants claim_grant ResourceGrant-discrete String-discrete ℕ_discrete validate_grants
    is_canonical_id split_once validate_named_scopes contains_equals conflict_findings
    conflicting_holders capacity_by_group capacity_findings with_candidate usage_findings
    reservation_is_active disposes fits_kind from_active_reservations insert_all insert
    insert_grants insert_grant add_units add_u64 set_insert upsert sort_findings dedup
first-granted = refl

second-granted :
    grant_reservation debug decimal
      (declaration "declaration:read" read)
      second
      (first ∷ [])
      []
      capacities
    ≡ ok second
unfolding grant_reservation grant_indexed_reservation reported grant_findings
    validate_declaration_and_reservation validate_declaration_record grants_match distinct
    declaration_grants claim_grant ResourceGrant-discrete String-discrete ℕ_discrete validate_grants
    is_canonical_id split_once validate_named_scopes contains_equals conflict_findings
    conflicting_holders capacity_by_group capacity_findings with_candidate usage_findings
    reservation_is_active disposes fits_kind from_active_reservations insert_all insert
    insert_grants insert_grant add_units add_u64 set_insert upsert sort_findings dedup
second-granted = refl

-- A writer is turned away while the readers are active.
third : ResourceReservation
third = reservation "reservation:3" "declaration:write" "attempt:3" write

grant_reservation-exclusive_example :
    (second ≡ second)
    × (any
          (λ r. str_eq r.reservation_id "reservation:2")
          (keep (λ r. reservation_is_active r []) (first ∷ []))
        ≡ false)
    × (any
          (λ r. str_eq r.attempt_id "attempt:2")
          (keep (λ r. reservation_is_active r []) (first ∷ []))
        ≡ false)
    × (any (conflicts second) (keep (λ r. reservation_is_active r []) (first ∷ [])) ≡ false)
grant_reservation-exclusive_example =
    grant_reservation-exclusive debug decimal (declaration "declaration:read" read) second second
      (first ∷ []) [] capacities second-granted

both_used :
    usage "api:calls" none (keep (λ r. reservation_is_active r []) (first ∷ []) ++ second ∷ [])
    ≡ some 2
unfolding reservation_is_active String-discrete add_u64
both_used = refl

grant_reservation-within_example :
    (any (is_of_group "api:calls") capacities ≡ true)
    × (all (λ c. not (is_of_group "api:calls" c) || is_enough 2 c) capacities ≡ true)
grant_reservation-within_example =
    grant_reservation-within debug decimal (declaration "declaration:read" read) second second
      (first ∷ []) [] capacities "api:calls" 2 second-granted both_used

from_active-Represents_example :
    Represents (from_active_reservations (first ∷ second ∷ [])) (first ∷ second ∷ [])
from_active-Represents_example = from_active-Represents (first ∷ second ∷ [])

abbrev empty : Ledger
empty = record { reservations = []; assertions = [] }

abbrev release : ReservationDispositionAssertion
release = record {
  schema = reservation_assertion_schema;
  schema_version = 0;
  assertion_id = "assertion:1";
  reservation_id = "reservation:1";
  attempt_id = "attempt:1";
  kind = ReservationAssertionKind.release;
  asserted_by = "lead";
  reason = "done";
  superseding_reservation_id = none;
}

abbrev one : Ledger
one = record { reservations = first ∷ []; assertions = [] }

abbrev two : Ledger
two = record { reservations = first ∷ second ∷ []; assertions = [] }

abbrev released : Ledger
released = record { reservations = first ∷ second ∷ []; assertions = release ∷ [] }

run : History debug decimal capacities empty released
run =
    History.followed
      (History.followed
        (History.followed History.begun
          (Step.grant empty (declaration "declaration:read" read) first first first-granted))
        (Step.grant one (declaration "declaration:read" read) second second second-granted))
      (Step.assert two release)

ledger_apart_example : apart (active released) ≡ true
ledger_apart_example = ledger_apart debug decimal capacities empty released refl run

-- The release leaves the second reader alone.
released-active : active released ≡ second ∷ []
unfolding reservation_is_active disposes fits_kind String-discrete
released-active = refl
