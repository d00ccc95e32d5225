-- ===== src/Resource/Exclusion.antt =====
-- src/resource_protocol.rs: what stands in the way of a reservation that is granted.
pub mod Within
use casegraphen.Prelude.{
  ℕ, ◌≤◌, String, Bool, true, false, not, ◌&&◌, ◌||◌, Option, none, some, List, [], ◌∷◌, ◌++◌, map,
  ok, str_eq, eq_iff, any, any-or, any-false_of, any-never, any-and, keep, ◌≡◌, ◌⊎◌, inl, inr,
  Bool-cases, refl, sym, ◌∙◌, ap, arith, subst,
}
use casegraphen.Resource.Maps.{set_contains, get}
use casegraphen.Resource.Records.{
  ResourceMode, read, write, exclusive, ResourceDeclaration, ResourceGrant, ResourceReservation,
  ReservationDispositionAssertion, RateLimitCapacity, ResourceProtocolFinding,
}
use casegraphen.Resource.Findings.{reported-nil}
use casegraphen.Resource.Occupancy.{
  add_units, ResourceOccupancyIndex, ResourceModeOccupancy, from_active_reservations,
}
use casegraphen.Resource.Occupancy.Represents.{
  is_for, holds, held, holders_in, usage, grants_usage, Represents, from_active-Represents,
  get-add_units, usage-append,
}
use casegraphen.Resource.Grants.{
  conflicting_holders, grant_conflicts, group_findings, conflict_findings, usage_findings,
  grant_findings, grant_indexed_reservation, grant_reservation, reservation_is_active,
  with_candidate, capacity_by_group, capacity_findings, push_if,
}

abbrev pub is_read : ResourceMode → Bool
is_read read = true
is_read _ = false

-- Two grants clash on a resource that they both name unless both only read.
abbrev pub clash : ResourceGrant → ResourceGrant → Bool
clash g g' = str_eq g'.resource_id g.resource_id && not (is_read g.mode && is_read g'.mode)

abbrev pub conflicts : ResourceReservation → ResourceReservation → Bool
conflicts r r' = any (λ g. any (clash g) r'.grants) r.grants

pub append-nil_parts {ℓ} : {A : Type ℓ} (xs ys : List A) → xs ++ ys ≡ [] → (xs ≡ []) × (ys ≡ [])
append-nil_parts [] ys e = (refl, e)
append-nil_parts (x ∷ xs) ys e = cc

map-nil_of {ℓ} : {A B : Type ℓ} (f : A → B) (xs : List A) → map f xs ≡ [] → xs ≡ []
map-nil_of f [] e = refl
map-nil_of f (x ∷ xs) e = cc

module _ (debug : String → String) (decimal : ℕ → String) where
  -- What was checked, where a reservation is granted.
  pub record IsClear (candidate : ResourceReservation) (occupancy : ResourceOccupancyIndex)
      (capacities : List RateLimitCapacity) : Type 0 where
    pub new_id : set_contains candidate.reservation_id occupancy.reservation_ids ≡ false
    pub new_attempt : set_contains candidate.attempt_id occupancy.attempt_ids ≡ false
    pub no_conflict : conflict_findings occupancy candidate.grants ≡ []
    pub capacities_valid : capacity_findings candidate.reservation_id capacities [] ≡ []
    pub within :
        usage_findings debug decimal candidate.reservation_id
          (capacity_by_group capacities [])
          (with_candidate occupancy.rate_limit_units candidate.grants)
        ≡ []

  pub push_if-nil : (b : Bool) (f : ResourceProtocolFinding) → push_if b f ≡ [] → b ≡ false
  push_if-nil b f e = ground arith

  pub grant_indexed-IsClear :
      (declaration : ResourceDeclaration) (candidate granted : ResourceReservation)
      (occupancy : ResourceOccupancyIndex) (capacities : List RateLimitCapacity)
      → grant_indexed_reservation debug decimal declaration candidate occupancy capacities
        ≡ ok granted
      → (granted ≡ candidate) × IsClear candidate occupancy capacities
  unfolding grant_indexed_reservation grant_findings
  grant_indexed-IsClear declaration candidate granted occupancy capacities e =
      let same_one : granted ≡ candidate = ground arith in
      let all_clear =
        reported-nil (grant_findings debug decimal declaration candidate occupancy capacities)
          (ground arith) in
      let (_, c₁) = append-nil_parts _ _ all_clear in
      let (ids, c₂) = append-nil_parts _ _ c₁ in
      let (attempts, c₃) = append-nil_parts _ _ c₂ in
      let (clashes, c₄) = append-nil_parts _ _ c₃ in
      let (records, over) = append-nil_parts _ _ c₄ in
      (
        same_one,
        record {
          new_id = push_if-nil _ _ ids;
          new_attempt = push_if-nil _ _ attempts;
          no_conflict = clashes;
          capacities_valid = records;
          within = over;
        },
      )

-- No holder in the way, seen from the active reservations.
any_at :
    (p : ResourceReservation → Bool) (active : List ResourceReservation)
    → ((a : String) → any (λ r. str_eq r.reservation_id a && p r) active ≡ false)
    → any p active ≡ false
any_at p [] k = refl
any_at p (r ∷ active) k =
    let rest = any_at p active (λ a. ground (arith, k a)) in
    ground (arith, rest, k r.reservation_id, eq_iff r.reservation_id r.reservation_id)

module _ (index : ResourceOccupancyIndex) (active : List ResourceReservation)
    (represents : Represents index active) where
  nobody_holds :
      (resource : String) (mode : ResourceMode)
      → ((a : String) → held index resource mode a ≡ false)
      → any (holds resource mode) active ≡ false
  nobody_holds resource mode k =
      any_at (holds resource mode) active (λ a. sym (represents.holders resource mode a) ∙ k a)

  in_the_way :
      (g : ResourceGrant) (grants : List ResourceGrant)
      → any (clash g) grants ≡ true
      → ((is_read g.mode ≡ false) × (any (is_for g.resource_id read) grants ≡ true))
        ⊎ (any (is_for g.resource_id write) grants ≡ true)
        ⊎ (any (is_for g.resource_id exclusive) grants ≡ true)
  in_the_way g [] e = cc
  in_the_way g (g' ∷ grants) e = ground (arith, in_the_way g grants)

  no_holders_left :
      (g : ResourceGrant) (o : Option ResourceModeOccupancy)
      → grant_conflicts g o ≡ []
      → (holders_in write o ≡ [])
        × (holders_in exclusive o ≡ [])
        × ((is_read g.mode ≡ true) ⊎ (holders_in read o ≡ []))
  unfolding conflicting_holders
  no_holders_left g none e = (refl, refl, inr refl)
  no_holders_left g (some o) e = split g.mode (map-nil_of _ _ e)
    where
      split :
          (mode : ResourceMode)
          → conflicting_holders mode o ≡ []
          → (o.writers ≡ []) × (o.exclusive ≡ []) × ((is_read mode ≡ true) ⊎ (o.readers ≡ []))
      split read n = let (w, x) = append-nil_parts o.writers o.exclusive n in (w, x, inl refl)
      split write n =
          let (r, wx) = append-nil_parts o.readers (o.writers ++ o.exclusive) n in
          let (w, x) = append-nil_parts o.writers o.exclusive wx in (w, x, inr r)
      split exclusive n =
          let (r, wx) = append-nil_parts o.readers (o.writers ++ o.exclusive) n in
          let (w, x) = append-nil_parts o.writers o.exclusive wx in (w, x, inr r)

  no_readers :
      (b hit : Bool) {n : Type 0} → (b ≡ true) ⊎ n → (n → hit ≡ false) → (not b && hit) ≡ false
  no_readers b hit (inl e) k = rw e refl
  no_readers b hit (inr n) k = ground (arith, k n)

  no_clash :
      (g : ResourceGrant)
      → grant_conflicts g (get g.resource_id index.resources) ≡ []
      → any (λ r. any (clash g) r.grants) active ≡ false
  no_clash g e =
      let (w, x, r) = no_holders_left g (get g.resource_id index.resources) e in
      let writes = nobody_holds g.resource_id write (λ a. ap (set_contains a) w) in
      let excludes = nobody_holds g.resource_id exclusive (λ a. ap (set_contains a) x) in
      let reads = λ (c : ResourceReservation). not (is_read g.mode) && holds g.resource_id read c in
      let reading =
        any-and (not (is_read g.mode)) (holds g.resource_id read) active
        ∙ no_readers (is_read g.mode) _ r
            (λ n. nobody_holds g.resource_id read (λ a. ap (set_contains a) n)) in
      let others = λ (c : ResourceReservation). holds g.resource_id exclusive c || reads c in
      any-false_of (λ c. holds g.resource_id write c || others c) (λ c. any (clash g) c.grants)
        active (λ c hit. ground (arith, in_the_way g c.grants hit))
        (any-or (holds g.resource_id write) others active
          ∙ ground (
            arith,
            writes,
            excludes,
            reading,
            any-or (holds g.resource_id exclusive) reads active,
          ))

  pub conflict_findings-conflicts :
      (grants : List ResourceGrant)
      → conflict_findings index grants ≡ []
      → any (λ r. any (λ g. any (clash g) r.grants) grants) active ≡ false
  unfolding conflict_findings
  conflict_findings-conflicts [] e = any-never active
  conflict_findings-conflicts (g ∷ grants) e =
      let (here, later) =
        append-nil_parts (grant_conflicts g (get g.resource_id index.resources)) _ e in
      any-or (λ r. any (clash g) r.grants) (λ r. any (λ g. any (clash g) r.grants) grants) active
      ∙ ground (arith, no_clash g here, conflict_findings-conflicts grants later)

module _ (debug : String → String) (decimal : ℕ → String) where
  -- A reservation is granted only as it was asked for, under an identifier and for an attempt that
  -- no active reservation has, and where no active reservation holds a resource of it in a mode
  -- that clashes with the mode asked for.
  pub grant_reservation-exclusive :
      (declaration : ResourceDeclaration) (candidate granted : ResourceReservation)
      (existing : List ResourceReservation) (assertions : List ReservationDispositionAssertion)
      (capacities : List RateLimitCapacity)
      → grant_reservation debug decimal declaration candidate existing assertions capacities
        ≡ ok granted
      → (granted ≡ candidate)
        × (any
              (λ r. str_eq r.reservation_id candidate.reservation_id)
              (keep (λ r. reservation_is_active r assertions) existing)
            ≡ false)
        × (any
              (λ r. str_eq r.attempt_id candidate.attempt_id)
              (keep (λ r. reservation_is_active r assertions) existing)
            ≡ false)
        × (any (conflicts candidate) (keep (λ r. reservation_is_active r assertions) existing)
            ≡ false)
  unfolding grant_reservation
  grant_reservation-exclusive declaration candidate granted existing assertions capacities e =
      let active =
        keep (λ (r : ResourceReservation). reservation_is_active r assertions) existing in
      let index = from_active_reservations active in
      let represents = from_active-Represents active in
      let (unchanged, clear) =
        grant_indexed-IsClear debug decimal declaration candidate granted index capacities e in
      (
        unchanged,
        sym (represents.reservation_ids candidate.reservation_id) ∙ clear.new_id,
        sym (represents.attempt_ids candidate.attempt_id) ∙ clear.new_attempt,
        conflict_findings-conflicts index active represents candidate.grants clear.no_conflict,
      )
