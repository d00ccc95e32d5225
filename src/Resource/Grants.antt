-- ===== src/Resource/Grants.antt =====
-- src/resource_protocol.rs: the grant of a reservation. `debug` and `decimal` are the standard
-- library's `{:?}` of a text and `{}` of a number, in the text of two findings.
use casegraphen.Prelude.{
  ℕ, String, Bool, true, false, not, ◌&&◌, ◌||◌, Option, none, some, List, [], ◌∷◌, ◌++◌, map,
  Result, ok, err, if◌then◌else◌, leb, ltb, ◌==◌, str_eq, any, all, keep, contains, length,
}
use Prim.Native.String.{◌++◌ as join}
use casegraphen.Resource.Maps.{set_contains, get, upsert}
use casegraphen.Resource.Records.{
  ResourceMode, read, write, exclusive, ResourceClaim, ResourceDeclaration, ResourceGrant,
  ResourceGrant-discrete, ResourceReservation, ReservationAssertionKind, release, supersede, expire,
  ReservationDispositionAssertion, RateLimitCapacity, ResourceProtocolFinding,
  resource_declaration_schema, resource_reservation_schema, reservation_assertion_schema,
  rate_limit_capacity_schema,
}
use casegraphen.Resource.Texts.{is_canonical_id, contains_equals, is_empty_text}
use casegraphen.Resource.Findings.{reported}
use casegraphen.Resource.Occupancy.{
  ResourceOccupancyIndex, ResourceModeOccupancy, add_units, from_active_reservations,
}

abbrev pub is_some : Option String → Bool
is_some none = false
is_some (some _) = true

unfoldable pub claim_grant : ResourceClaim → ResourceGrant
claim_grant claim = record {
  resource_id = claim.resource;
  mode = claim.mode;
  rate_limit_group = claim.rate_limit_group;
  rate_limit_units = if is_some claim.rate_limit_group then 1 else 0;
  workspace_strategy = claim.workspace_strategy;
  network_scope = claim.network_scope;
  secret_scope = claim.secret_scope;
}

unfoldable pub declaration_grants : ResourceDeclaration → List ResourceGrant
unfolding claim_grant
declaration_grants declaration = map claim_grant declaration.claims

-- `superseding_reservation_id` as the kind of the assertion wants it.
unfoldable pub fits_kind : ReservationAssertionKind → Option String → String → Bool
fits_kind release superseding reservation_id = not (is_some superseding)
fits_kind supersede none reservation_id = false
fits_kind supersede (some id) reservation_id =
    not (is_empty_text id) && not (str_eq id reservation_id)
fits_kind expire superseding reservation_id = not (is_some superseding)

unfoldable pub disposes : ResourceReservation → ReservationDispositionAssertion → Bool
unfolding fits_kind
disposes reservation assertion =
    str_eq assertion.schema reservation_assertion_schema
    && assertion.schema_version == 0
    && str_eq assertion.reservation_id reservation.reservation_id
    && str_eq assertion.attempt_id reservation.attempt_id
    && not (is_empty_text assertion.assertion_id)
    && not (is_empty_text assertion.asserted_by)
    && not (is_empty_text assertion.reason)
    && fits_kind assertion.kind assertion.superseding_reservation_id reservation.reservation_id

unfoldable pub reservation_is_active :
    ResourceReservation → List ReservationDispositionAssertion → Bool
reservation_is_active reservation assertions = not (any (disposes reservation) assertions)

abbrev pub finding : String → Option String → Option String → String → ResourceProtocolFinding
finding code resource_id reservation_id detail = record {
  code = code;
  resource_id = resource_id;
  reservation_id = reservation_id;
  allocation_id = none;
  detail = detail;
}

abbrev same_bool : Bool → Bool → Bool
same_bool true b = b
same_bool false b = not b

-- `if test { findings.push(f) }`
abbrev pub push_if : Bool → ResourceProtocolFinding → List ResourceProtocolFinding
push_if true f = f ∷ []
push_if false f = []

-- A `BTreeSet` of grants, collected from a list.
unfoldable pub distinct : List ResourceGrant → List ResourceGrant
distinct [] = []
distinct (g ∷ gs) =
    let rest = distinct gs in if contains ResourceGrant-discrete rest g then rest else g ∷ rest

unfoldable pub validate_declaration_record :
    ResourceDeclaration → Option String → List ResourceProtocolFinding
validate_declaration_record declaration reservation_id =
    push_if
      (not (str_eq declaration.schema resource_declaration_schema)
        || not (declaration.schema_version == 0))
      (finding "unsupported_declaration_schema" none reservation_id
        "declaration must use resource.declaration.v0")

unfoldable pub validate_named_scopes : String → List String → List ResourceProtocolFinding
validate_named_scopes field [] = []
validate_named_scopes field (scope ∷ scopes) =
    push_if (not (is_canonical_id scope) || contains_equals scope) (
      finding "invalid_named_scope" none none
        (join field " must contain named scope ids, never secret values"))
    ++ validate_named_scopes field scopes

-- The loop over the grants of the reservation.
unfoldable pub validate_grants : String → List ResourceGrant → List ResourceProtocolFinding
validate_grants reservation_id [] = []
validate_grants reservation_id (grant ∷ grants) =
    push_if (not (is_canonical_id grant.resource_id)) (
      finding "noncanonical_resource_id" (some grant.resource_id) (some reservation_id)
        "resource id must use a non-empty namespace and value separated by a colon")
    ++ (push_if (not (same_bool (is_some grant.rate_limit_group) (ltb 0 grant.rate_limit_units))) (
          finding "invalid_rate_limit_units" (some grant.resource_id) (some reservation_id)
            "rate-limit units must be positive exactly when a group is named")
        ++ (validate_named_scopes "network_scope" grant.network_scope
            ++ (validate_named_scopes "secret_scope" grant.secret_scope
                ++ validate_grants reservation_id grants)))

unfoldable pub grants_match : ResourceDeclaration → ResourceReservation → Bool
grants_match declaration reservation =
    let expected = distinct (declaration_grants declaration) in
    let granted = distinct reservation.grants in
    all (contains ResourceGrant-discrete granted) expected
    && all (contains ResourceGrant-discrete expected) granted
    && length expected == length declaration.claims
    && length granted == length reservation.grants

unfoldable pub validate_declaration_and_reservation :
    ResourceDeclaration → ResourceReservation → List ResourceProtocolFinding
validate_declaration_and_reservation declaration reservation =
    let id = some reservation.reservation_id in
    validate_declaration_record declaration id
    ++ (push_if
          (not (str_eq reservation.schema resource_reservation_schema)
            || not (reservation.schema_version == 0))
          (finding "unsupported_reservation_schema" none id
            "reservation must use resource.reservation.v0")
        ++ (push_if (not (str_eq declaration.declaration_id reservation.declaration_id)) (
              finding "declaration_join_mismatch" none id
                "reservation must join the exact declaration")
            ++ (push_if (not (grants_match declaration reservation)) (
                  finding "grant_declaration_mismatch" none id
                    "reservation grants must exactly equal the declared resource claims")
                ++ validate_grants reservation.reservation_id reservation.grants)))

abbrev conflict : String → String → ResourceProtocolFinding
conflict resource_id reservation_id =
    finding "resource_conflict" (some resource_id) (some reservation_id)
      "an active reservation holds a conflicting resource mode"

-- The holders in whose way a grant of a mode stands.
unfoldable pub conflicting_holders : ResourceMode → ResourceModeOccupancy → List String
conflicting_holders read holders = holders.writers ++ holders.exclusive
conflicting_holders write holders = holders.readers ++ (holders.writers ++ holders.exclusive)
conflicting_holders exclusive holders = holders.readers ++ (holders.writers ++ holders.exclusive)

abbrev pub grant_conflicts :
    ResourceGrant → Option ResourceModeOccupancy → List ResourceProtocolFinding
grant_conflicts grant none = []
grant_conflicts grant (some holders) =
    map (conflict grant.resource_id) (conflicting_holders grant.mode holders)

unfoldable pub conflict_findings :
    ResourceOccupancyIndex → List ResourceGrant → List ResourceProtocolFinding
conflict_findings occupancy [] = []
conflict_findings occupancy (grant ∷ grants) =
    grant_conflicts grant (get grant.resource_id occupancy.resources)
    ++ conflict_findings occupancy grants

abbrev supported : RateLimitCapacity → Bool
supported capacity =
    str_eq capacity.schema rate_limit_capacity_schema && capacity.schema_version == 0

-- The map of the supported records, where a later record of a group replaces an earlier one.
unfoldable pub capacity_by_group : List RateLimitCapacity → List (String × ℕ) → List (String × ℕ)
capacity_by_group [] by_group = by_group
capacity_by_group (capacity ∷ capacities) by_group = capacity_by_group capacities (
    if supported capacity
    then upsert capacity.group_id 0 (λ _. capacity.capacity) by_group
    else by_group)

unfoldable pub capacity_findings :
    String → List RateLimitCapacity → List String → List ResourceProtocolFinding
capacity_findings reservation_id [] seen = []
capacity_findings reservation_id (capacity ∷ capacities) seen =
    push_if (not (supported capacity)) (
      finding "unsupported_rate_limit_capacity_schema" none (some reservation_id)
        "capacity must use resource.rate_limit_capacity.v0")
    ++ (push_if (not (is_canonical_id capacity.group_id)) (
          finding "noncanonical_rate_limit_group" none (some reservation_id)
            "rate-limit group must be a canonical namespaced id")
        ++ (push_if (set_contains capacity.group_id seen) (
              finding "duplicate_rate_limit_capacity" none (some reservation_id)
                "rate-limit group has more than one capacity record")
            ++ capacity_findings reservation_id capacities (capacity.group_id ∷ seen)))

unfoldable pub with_candidate : List (String × ℕ) → List ResourceGrant → List (String × ℕ)
with_candidate used [] = used
with_candidate used (grant ∷ grants) =
    with_candidate (add_units grant.rate_limit_group grant.rate_limit_units used) grants

module _ (debug : String → String) (decimal : ℕ → String) where
  abbrev pub group_findings : String → String → ℕ → Option ℕ → List ResourceProtocolFinding
  group_findings reservation_id group units none =
      finding "missing_rate_limit_capacity" none (some reservation_id)
        (join "rate-limit group " (join (debug group) " has no explicit capacity"))
      ∷ []
  group_findings reservation_id group units (some capacity) = push_if (not (leb units capacity)) (
      finding "rate_limit_capacity_exceeded" none (some reservation_id) (
        join "rate-limit group " (
          join (debug group) (
            join " requests "
              (join (decimal units) (join " units with capacity " (decimal capacity)))))))

  -- The loop over the groups in use.
  unfoldable pub usage_findings :
      String → List (String × ℕ) → List (String × ℕ) → List ResourceProtocolFinding
  usage_findings reservation_id capacities [] = []
  usage_findings reservation_id capacities ((group, units) ∷ used) =
      group_findings reservation_id group units (get group capacities)
      ++ usage_findings reservation_id capacities used

  unfoldable pub grant_findings :
      ResourceDeclaration
      → ResourceReservation
      → ResourceOccupancyIndex
      → List RateLimitCapacity
      → List ResourceProtocolFinding
  grant_findings declaration candidate occupancy capacities =
      let id = candidate.reservation_id in
      validate_declaration_and_reservation declaration candidate
      ++ (push_if (set_contains id occupancy.reservation_ids) (
            finding "duplicate_reservation_id" none (some id)
              "an active reservation already uses this reservation id")
          ++ (push_if (set_contains candidate.attempt_id occupancy.attempt_ids) (
                finding "attempt_already_reserved" none (some id)
                  "an active reservation already joins this attempt id")
              ++ (conflict_findings occupancy candidate.grants
                  ++ (capacity_findings id capacities []
                      ++ usage_findings id (capacity_by_group capacities [])
                          (with_candidate occupancy.rate_limit_units candidate.grants)))))

  abbrev granted_if_clear :
      ResourceReservation
      → List ResourceProtocolFinding
      → Result (List ResourceProtocolFinding) ResourceReservation
  granted_if_clear candidate [] = ok candidate
  granted_if_clear candidate (f ∷ fs) = err (f ∷ fs)

  unfoldable pub grant_indexed_reservation :
      ResourceDeclaration
      → ResourceReservation
      → ResourceOccupancyIndex
      → List RateLimitCapacity
      → Result (List ResourceProtocolFinding) ResourceReservation
  grant_indexed_reservation declaration candidate occupancy capacities =
      granted_if_clear candidate
        (reported (grant_findings declaration candidate occupancy capacities))

  unfoldable pub grant_reservation :
      ResourceDeclaration
      → ResourceReservation
      → List ResourceReservation
      → List ReservationDispositionAssertion
      → List RateLimitCapacity
      → Result (List ResourceProtocolFinding) ResourceReservation
  grant_reservation declaration candidate existing assertions capacities =
      grant_indexed_reservation declaration candidate
        (from_active_reservations (keep (λ r. reservation_is_active r assertions) existing))
        capacities
