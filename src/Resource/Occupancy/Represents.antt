-- ===== src/Resource/Occupancy/Represents.antt =====
-- The index holds what the active reservations hold.
use casegraphen.Prelude.{
  ℕ, String, Bool, ◌&&◌, ◌||◌, Option, none, some, List, [], ◌∷◌, ◌++◌, if◌then◌else◌, str_eq, any,
  any-append, same, ◌≡◌, refl, sym, ◌∙◌, ap, arith, subst, append-nil, append_assoc,
}
use casegraphen.Resource.Maps.{
  set_contains, set_contains-insert, set_insert, get, get-upsert, or_default,
}
use casegraphen.Resource.Records.{ResourceMode, ResourceGrant, ResourceReservation}
use casegraphen.Resource.Occupancy.{
  ResourceModeOccupancy, ResourceOccupancyIndex, no_holders, default_index, holders_of,
  change_holders, add_u64, add_units, insert_grant, insert_grants, insert, insert_all,
  from_active_reservations,
}

pub ResourceMode-discrete : Discrete ResourceMode
ResourceMode-discrete = hlevel

-- What reservations hold, read from the reservations themselves.
abbrev pub is_for : String → ResourceMode → ResourceGrant → Bool
is_for resource mode grant =
    str_eq grant.resource_id resource && same ResourceMode-discrete grant.mode mode

abbrev pub holds : String → ResourceMode → ResourceReservation → Bool
holds resource mode reservation = any (is_for resource mode) reservation.grants

abbrev pub grant_usage : String → Option ℕ → ResourceGrant → Option ℕ
grant_usage group used grant = elim grant.rate_limit_group [
  | none ↦ used
  | some k ↦
      if str_eq k group then some (add_u64 (or_default 0 used) grant.rate_limit_units) else used
]

abbrev pub grants_usage : String → Option ℕ → List ResourceGrant → Option ℕ
grants_usage group used [] = used
grants_usage group used (grant ∷ grants) = grants_usage group (grant_usage group used grant) grants

abbrev pub usage : String → Option ℕ → List ResourceReservation → Option ℕ
usage group used [] = used
usage group used (reservation ∷ active) =
    usage group (grants_usage group used reservation.grants) active

-- The same, read from the index.
abbrev pub holders_in : ResourceMode → Option ResourceModeOccupancy → List String
holders_in mode none = []
holders_in mode (some holders) = holders_of mode holders

abbrev pub held : ResourceOccupancyIndex → String → ResourceMode → String → Bool
held index resource mode id = set_contains id (holders_in mode (get resource index.resources))

pub record Represents (index : ResourceOccupancyIndex) (active : List ResourceReservation)
    : Type 0 where
  pub reservation_ids :
      (id : String)
      → set_contains id index.reservation_ids ≡ any (λ r. str_eq r.reservation_id id) active
  pub attempt_ids :
      (id : String) → set_contains id index.attempt_ids ≡ any (λ r. str_eq r.attempt_id id) active
  pub holders :
      (resource : String) (mode : ResourceMode) (id : String)
      → held index resource mode id
        ≡ any (λ r. str_eq r.reservation_id id && holds resource mode r) active
  pub units : (group : String) → get group index.rate_limit_units ≡ usage group none active

pub get-add_units :
    (group : String) (used : List (String × ℕ)) (grant : ResourceGrant)
    → get group (add_units grant.rate_limit_group grant.rate_limit_units used)
      ≡ grant_usage group (get group used) grant
unfolding add_units
get-add_units group used grant =
    elim grant.rate_limit_group
      as (λ k. get group (add_units k grant.rate_limit_units used) ≡ elim k [
        | none ↦ get group used
        | some k ↦
            if str_eq k group
            then some (add_u64 (or_default 0 (get group used)) grant.rate_limit_units)
            else get group used
      ]) [
        | none ↦ refl
        | some k ↦ get-upsert k group 0 (λ u. add_u64 u grant.rate_limit_units) used
      ]

set_contains-change :
    (m mode : ResourceMode) (id a : String) (o : ResourceModeOccupancy)
    → set_contains a (holders_of mode (change_holders m (set_insert id) o))
      ≡ (set_contains a (holders_of mode o) || (str_eq id a && same ResourceMode-discrete m mode))
unfolding ResourceMode-discrete
set_contains-change m mode id a o = ground (arith, set_contains-insert id a (holders_of mode o))

held-insert_grant :
    (id : String) (index : ResourceOccupancyIndex) (grant : ResourceGrant) (resource : String)
    (mode : ResourceMode) (a : String)
    → held (insert_grant id index grant) resource mode a
      ≡ (held index resource mode a || (str_eq id a && is_for resource mode grant))
unfolding insert_grant
held-insert_grant id index grant resource mode a = ground (
  arith,
  get-upsert grant.resource_id resource no_holders (change_holders grant.mode (set_insert id))
      index.resources,
  set_contains-change grant.mode mode id a no_holders,
  set_contains-change grant.mode mode id a (or_default no_holders (get resource index.resources)),
)

held-insert_grants :
    (id : String) (index : ResourceOccupancyIndex) (grants : List ResourceGrant) (resource : String)
    (mode : ResourceMode) (a : String)
    → held (insert_grants id index grants) resource mode a
      ≡ (held index resource mode a || (str_eq id a && any (is_for resource mode) grants))
unfolding insert_grants
held-insert_grants id index [] resource mode a = ground arith
held-insert_grants id index (grant ∷ grants) resource mode a = ground (
  arith,
  held-insert_grants id (insert_grant id index grant) grants resource mode a,
  held-insert_grant id index grant resource mode a,
)

units-insert_grants :
    (id : String) (index : ResourceOccupancyIndex) (grants : List ResourceGrant) (group : String)
    → get group (insert_grants id index grants).rate_limit_units
      ≡ grants_usage group (get group index.rate_limit_units) grants
unfolding insert_grants insert_grant
units-insert_grants id index [] group = refl
units-insert_grants id index (grant ∷ grants) group =
    units-insert_grants id (insert_grant id index grant) grants group
    ∙ ap (λ used. grants_usage group used grants) (get-add_units group index.rate_limit_units grant)

ids-insert_grants :
    (id : String) (index : ResourceOccupancyIndex) (grants : List ResourceGrant)
    → ((insert_grants id index grants).reservation_ids ≡ index.reservation_ids)
      × ((insert_grants id index grants).attempt_ids ≡ index.attempt_ids)
unfolding insert_grants insert_grant
ids-insert_grants id index [] = (refl, refl)
ids-insert_grants id index (grant ∷ grants) =
    ids-insert_grants id (insert_grant id index grant) grants

pub usage-append :
    (group : String) (used : Option ℕ) (xs ys : List ResourceReservation)
    → usage group used (xs ++ ys) ≡ usage group (usage group used xs) ys
usage-append group used [] ys = refl
usage-append group used (x ∷ xs) ys = usage-append group (grants_usage group used x.grants) xs ys

-- One more reservation in the index is one more active reservation.
pub insert-Represents :
    (index : ResourceOccupancyIndex) (active : List ResourceReservation) (r : ResourceReservation)
    → Represents index active
    → Represents (insert index r) (active ++ r ∷ [])
unfolding insert
insert-Represents index active r k =
    let start : ResourceOccupancyIndex = record index {
      reservation_ids = set_insert r.reservation_id index.reservation_ids;
      attempt_ids = set_insert r.attempt_id index.attempt_ids;
    } in
    let (ids, attempts) = ids-insert_grants r.reservation_id start r.grants in
    record {
      reservation_ids = λ id. ground (
        arith,
        ap (set_contains id) ids,
        k.reservation_ids id,
        set_contains-insert r.reservation_id id index.reservation_ids,
        any-append (λ (x : ResourceReservation). str_eq x.reservation_id id) active (r ∷ []),
      );
      attempt_ids = λ id. ground (
        arith,
        ap (set_contains id) attempts,
        k.attempt_ids id,
        set_contains-insert r.attempt_id id index.attempt_ids,
        any-append (λ (x : ResourceReservation). str_eq x.attempt_id id) active (r ∷ []),
      );
      holders = λ resource mode id. ground (
        arith,
        k.holders resource mode id,
        held-insert_grants r.reservation_id start r.grants resource mode id,
        any-append
            (λ (x : ResourceReservation). str_eq x.reservation_id id && holds resource mode x)
            active (r ∷ []),
      );
      units = λ group.
          units-insert_grants r.reservation_id start r.grants group
          ∙ ap (λ used. grants_usage group used r.grants) (k.units group)
          ∙ sym (usage-append group none active (r ∷ []));
    }

insert_all-Represents :
    (index : ResourceOccupancyIndex) (before active : List ResourceReservation)
    → Represents index before
    → Represents (insert_all index active) (before ++ active)
unfolding insert_all
insert_all-Represents index before [] k = rw (append-nil before) k
insert_all-Represents index before (r ∷ active) k =
    subst (Represents (insert_all (insert index r) active)) (append_assoc before (r ∷ []) active) (
      insert_all-Represents (insert index r) (before ++ r ∷ []) active
        (insert-Represents index before r k))

-- The index that is derived from active reservations answers every question as the reservations
-- do: which identifiers and attempts are in use, who holds a resource in a mode, and what the u64
-- sum of the units taken of a group is.
pub from_active-Represents :
    (active : List ResourceReservation) → Represents (from_active_reservations active) active
unfolding from_active_reservations
from_active-Represents active = insert_all-Represents default_index [] active (record {
  reservation_ids = λ _. refl;
  attempt_ids = λ _. refl;
  holders = λ _ _ _. refl;
  units = λ _. refl;
})
