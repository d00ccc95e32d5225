-- ===== src/Resource/Exclusion/Within.antt =====
-- src/resource_protocol.rs: the rate limits of a reservation that is granted.
use casegraphen.Prelude.{
  ℕ, ◌≤◌, String, Bool, true, false, not, ◌&&◌, ◌||◌, ◌==◌, leb, Option, none, some, List, [], ◌∷◌,
  ◌++◌, ok, str_eq, eq_iff, any, all, keep, ◌≡◌, inl, inr, Bool-cases, refl, sym, ◌∙◌, ap, arith,
  subst, if◌then◌else◌,
}
use casegraphen.Resource.Maps.{set_contains, get, upsert, get-upsert}
use casegraphen.Resource.Records.{
  ResourceDeclaration, ResourceGrant, ResourceReservation, ReservationDispositionAssertion,
  RateLimitCapacity, rate_limit_capacity_schema,
}
use casegraphen.Resource.Occupancy.{add_units, from_active_reservations}
use casegraphen.Resource.Occupancy.Represents.{
  usage, grants_usage, from_active-Represents, get-add_units, usage-append,
}
use casegraphen.Resource.Grants.{
  group_findings, usage_findings, grant_reservation, reservation_is_active, with_candidate,
  capacity_by_group, capacity_findings,
}
use casegraphen.Resource.Exclusion.{append-nil_parts, grant_indexed-IsClear}

abbrev pub is_of_group : String → RateLimitCapacity → Bool
is_of_group group c = str_eq c.group_id group

-- A supported record, whose capacity the units are within.
abbrev pub is_enough : ℕ → RateLimitCapacity → Bool
is_enough units c =
    str_eq c.schema rate_limit_capacity_schema && c.schema_version == 0 && leb units c.capacity

-- What was checked of the first record, and that the others were.
capacity_findings-nil :
    (id : String) (c : RateLimitCapacity) (capacities : List RateLimitCapacity) (seen : List String)
    → capacity_findings id (c ∷ capacities) seen ≡ []
    → ((str_eq c.schema rate_limit_capacity_schema && c.schema_version == 0) ≡ true)
      × (capacity_findings id capacities (c.group_id ∷ seen) ≡ [])
unfolding capacity_findings
capacity_findings-nil id c capacities seen e = ground arith

seen-no_record :
    (id group : String) (capacities : List RateLimitCapacity) (seen : List String)
    → capacity_findings id capacities seen ≡ []
    → set_contains group seen ≡ true
    → any (is_of_group group) capacities ≡ false
unfolding capacity_findings
seen-no_record id group [] seen e s = refl
seen-no_record id group (c ∷ capacities) seen e s =
    ground (arith, seen-no_record id group capacities (c.group_id ∷ seen), eq_iff c.group_id group)

-- The map of capacities with one more record.
abbrev with_record : RateLimitCapacity → List (String × ℕ) → List (String × ℕ)
with_record c by_group =
    if str_eq c.schema rate_limit_capacity_schema && c.schema_version == 0
    then upsert c.group_id 0 (λ _. c.capacity) by_group
    else by_group

get-with_record :
    (group : String) (c : RateLimitCapacity) (by_group : List (String × ℕ))
    → get group (with_record c by_group) ≡ (
        if str_eq c.schema rate_limit_capacity_schema
          && c.schema_version == 0
          && is_of_group group c
        then some c.capacity
        else get group by_group)
get-with_record group c by_group =
    ground (arith, get-upsert c.group_id group 0 (λ (_ : ℕ). c.capacity) by_group)

no_record-get :
    (group : String) (capacities : List RateLimitCapacity) (by_group : List (String × ℕ))
    → any (is_of_group group) capacities ≡ false
    → get group (capacity_by_group capacities by_group) ≡ get group by_group
unfolding capacity_by_group
no_record-get group [] by_group n = refl
no_record-get group (c ∷ capacities) by_group n =
    let rest = no_record-get group capacities (with_record c by_group) (ground arith) in
    rest ∙ ground (arith, get-with_record group c by_group)

no_record-all :
    (group : String) (units : ℕ) (capacities : List RateLimitCapacity)
    → any (is_of_group group) capacities ≡ false
    → all (λ c. not (is_of_group group c) || is_enough units c) capacities ≡ true
no_record-all group units [] n = refl
no_record-all group units (c ∷ capacities) n = ground (arith, no_record-all group units capacities)

-- What the map of capacities answers for a group, read off the records.
found-records :
    (id group : String) (units capacity : ℕ) (capacities : List RateLimitCapacity)
    (seen : List String) (by_group : List (String × ℕ))
    → capacity_findings id capacities seen ≡ []
    → get group by_group ≡ none
    → get group (capacity_by_group capacities by_group) ≡ some capacity
    → units ≤ capacity
    → (any (is_of_group group) capacities ≡ true)
      × (all (λ c. not (is_of_group group c) || is_enough units c) capacities ≡ true)
unfolding capacity_findings capacity_by_group
found-records id group units capacity [] seen by_group e n g w = cc
found-records id group units capacity (c ∷ capacities) seen by_group e n g w =
    let (is_supported, later) = capacity_findings-nil id c capacities seen e in
    let others = with_record c by_group in
    let at = get-with_record group c by_group in
    elim (Bool-cases (is_of_group group c)) [
      | inl this_group ↦
          let last_one =
            seen-no_record id group capacities (c.group_id ∷ seen) later (ground arith) in
          ground (
            arith,
            no_record-all group units capacities last_one,
            no_record-get group capacities others last_one,
          )
      | inr other_group ↦
          let ih =
            found-records id group units capacity capacities (c.group_id ∷ seen) others later
              (ground arith) g w in
          ground arith
    ]

module _ (debug : String → String) (decimal : ℕ → String) where
  get-with_candidate :
      (group : String) (used : List (String × ℕ)) (grants : List ResourceGrant)
      → get group (with_candidate used grants) ≡ grants_usage group (get group used) grants
  unfolding with_candidate
  get-with_candidate group used [] = refl
  get-with_candidate group used (g ∷ grants) =
      get-with_candidate group (add_units g.rate_limit_group g.rate_limit_units used) grants
      ∙ ap (λ u. grants_usage group u grants) (get-add_units group used g)

  group_findings-nil :
      (id group : String) (units : ℕ) (o : Option ℕ)
      → group_findings debug decimal id group units o ≡ []
      → (capacity : ℕ) × (o ≡ some capacity) × (units ≤ capacity)
  group_findings-nil id group units none e = cc
  group_findings-nil id group units (some c) e = (c, refl, ground arith)

  usage_findings-within :
      (id : String) (capacities used : List (String × ℕ)) (group : String) (units : ℕ)
      → usage_findings debug decimal id capacities used ≡ []
      → get group used ≡ some units
      → (capacity : ℕ) × (get group capacities ≡ some capacity) × (units ≤ capacity)
  unfolding usage_findings
  usage_findings-within id capacities [] group units e u = cc
  usage_findings-within id capacities ((k, v) ∷ used) group units e u =
      let (here, later) =
        append-nil_parts (group_findings debug decimal id k v (get k capacities)) _ e in
      elim (Bool-cases (str_eq k group)) [
        | inl same_group ↦
            let (c, found, fits) = group_findings-nil id k v (get k capacities) here in
            let k_eq = (eq_iff k group).0 same_group in
            (
              c,
              subst (λ z. get z capacities ≡ some c) k_eq found,
              ground (arith, fits, rw same_group at u),
            )
        | inr other ↦ usage_findings-within id capacities used group units later (rw other at u)
      ]

  -- Where a reservation is granted, every rate-limit group that it or an active reservation takes
  -- units of has a capacity record, and every record of the group is of the supported schema and
  -- version and has a capacity that is at least the units taken by all of them together, as their u64
  -- sum.
  pub grant_reservation-within :
      (declaration : ResourceDeclaration) (candidate granted : ResourceReservation)
      (existing : List ResourceReservation) (assertions : List ReservationDispositionAssertion)
      (capacities : List RateLimitCapacity) (group : String) (units : ℕ)
      → grant_reservation debug decimal declaration candidate existing assertions capacities
        ≡ ok granted
      → usage group none (keep (λ r. reservation_is_active r assertions) existing ++ candidate ∷ [])
        ≡ some units
      → (any (is_of_group group) capacities ≡ true)
        × (all (λ c. not (is_of_group group c) || is_enough units c) capacities ≡ true)
  unfolding grant_reservation
  grant_reservation-within declaration candidate granted existing assertions capacities group units
        e u =
      let active =
        keep (λ (r : ResourceReservation). reservation_is_active r assertions) existing in
      let index = from_active_reservations active in
      let represents = from_active-Represents active in
      let (_, clear) =
        grant_indexed-IsClear debug decimal declaration candidate granted index capacities e in
      let (capacity, found, fits) =
        usage_findings-within candidate.reservation_id (capacity_by_group capacities [])
          (with_candidate index.rate_limit_units candidate.grants) group units clear.within
          (get-with_candidate group index.rate_limit_units candidate.grants
            ∙ ap (λ v. grants_usage group v candidate.grants) (represents.units group)
            ∙ sym (usage-append group none active (candidate ∷ []))
            ∙ u) in
      found-records candidate.reservation_id group units capacity capacities [] []
        clear.capacities_valid refl found fits
