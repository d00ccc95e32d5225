-- ===== src/Resource/Occupancy.antt =====
-- src/resource_protocol.rs: the index of what active reservations occupy. A `u64` sum keeps its
-- wrap-around.
pub mod Represents
use casegraphen.Prelude.{
  ℕ, ◌+◌, ◌-◌, ◌^◌, ◌%◌, String, Bool, true, false, not, ◌&&◌, ◌||◌, Option, none, some, List, [],
  ◌∷◌, Result, ok, err, require, ◌>>=◌, ◌>>◌, if◌then◌else◌, leb, ◌==◌,
}
use casegraphen.Resource.Maps.{set_contains, set_insert, set_remove, get, upsert, remove}
use casegraphen.Resource.Records.{
  ResourceMode, read, write, exclusive, ResourceGrant, ResourceReservation,
}

pub record ResourceModeOccupancy : Type 0 where
  pub readers : List String
  pub writers : List String
  pub exclusive : List String

pub record ResourceOccupancyIndex : Type 0 where
  pub reservation_ids : List String
  pub attempt_ids : List String
  pub resources : List (String × ResourceModeOccupancy)
  pub rate_limit_units : List (String × ℕ)

pub data ResourceOccupancyIndexError : Type 0 where
  missing_reservation_identity missing_attempt_identity : ResourceOccupancyIndexError
  missing_resource_holder missing_rate_limit_usage : String → ResourceOccupancyIndexError
  rate_limit_usage_underflow : String → ResourceOccupancyIndexError

abbrev pub no_holders : ResourceModeOccupancy
no_holders = record { readers = []; writers = []; exclusive = [] }

-- `Self::default()`
abbrev pub default_index : ResourceOccupancyIndex
default_index = record {
  reservation_ids = [];
  attempt_ids = [];
  resources = [];
  rate_limit_units = [];
}

-- The set that the `match` on the mode borrows, and its change.
abbrev pub holders_of : ResourceMode → ResourceModeOccupancy → List String
holders_of read o = o.readers
holders_of write o = o.writers
holders_of exclusive o = o.exclusive

abbrev pub change_holders :
    ResourceMode → (List String → List String) → ResourceModeOccupancy → ResourceModeOccupancy
change_holders read f o = record o { readers = f o.readers }
change_holders write f o = record o { writers = f o.writers }
change_holders exclusive f o = record o { exclusive = f o.exclusive }

abbrev pub u64_mod : ℕ
u64_mod = 2 ^ 64

-- `u64 + u64`
unfoldable pub add_u64 : ℕ → ℕ → ℕ
add_u64 a b = (a + b) % u64_mod

unfoldable pub add_units : Option String → ℕ → List (String × ℕ) → List (String × ℕ)
add_units none units usage = usage
add_units (some group) units usage = upsert group 0 (λ used. add_u64 used units) usage

-- The body of the loop of `insert`.
unfoldable pub insert_grant :
    String → ResourceOccupancyIndex → ResourceGrant → ResourceOccupancyIndex
insert_grant reservation_id index grant = record index {
  resources =
      upsert grant.resource_id no_holders (change_holders grant.mode (set_insert reservation_id))
        index.resources;
  rate_limit_units = add_units grant.rate_limit_group grant.rate_limit_units index.rate_limit_units;
}

unfoldable pub insert_grants :
    String → ResourceOccupancyIndex → List ResourceGrant → ResourceOccupancyIndex
insert_grants reservation_id index [] = index
insert_grants reservation_id index (grant ∷ grants) =
    insert_grants reservation_id (insert_grant reservation_id index grant) grants

unfoldable pub insert : ResourceOccupancyIndex → ResourceReservation → ResourceOccupancyIndex
insert index reservation =
    insert_grants reservation.reservation_id
      (record index {
        reservation_ids = set_insert reservation.reservation_id index.reservation_ids;
        attempt_ids = set_insert reservation.attempt_id index.attempt_ids;
      })
      reservation.grants

unfoldable pub insert_all :
    ResourceOccupancyIndex → List ResourceReservation → ResourceOccupancyIndex
insert_all index [] = index
insert_all index (reservation ∷ active) = insert_all (insert index reservation) active

unfoldable pub from_active_reservations : List ResourceReservation → ResourceOccupancyIndex
from_active_reservations active = insert_all default_index active

abbrev Outcome : Type 0 → Type 0
Outcome A = Result ResourceOccupancyIndexError A

-- The checks of `remove`, before anything is changed.
abbrev check_units : Option String → ℕ → List (String × ℕ) → Outcome Unit
check_units none units usage = ok tt
check_units (some group) units usage = elim (get group usage) [
  | none ↦ err (missing_rate_limit_usage group)
  | some used ↦ require (leb units used) (rate_limit_usage_underflow group)
]

unfoldable pub check_grants : String → ResourceOccupancyIndex → List ResourceGrant → Outcome Unit
check_grants reservation_id index [] = ok tt
check_grants reservation_id index (grant ∷ grants) = elim (get grant.resource_id index.resources) [
  | none ↦ err (missing_resource_holder grant.resource_id)
  | some holders ↦ do
    require (set_contains reservation_id (holders_of grant.mode holders))
        (missing_resource_holder grant.resource_id)
    check_units grant.rate_limit_group grant.rate_limit_units index.rate_limit_units
    check_grants reservation_id index grants
]

abbrev take_units : Option String → ℕ → List (String × ℕ) → Outcome (List (String × ℕ))
take_units none units usage = ok usage
take_units (some group) units usage = elim (get group usage) [
  | none ↦ err (missing_rate_limit_usage group)
  | some used ↦ do
    require (leb units used) (rate_limit_usage_underflow group)
    ok (if used - units == 0 then remove group usage else upsert group 0 (λ _. used - units) usage)
]

abbrev is_none_held : List String → Bool
is_none_held [] = true
is_none_held (_ ∷ _) = false

abbrev is_vacant : ResourceModeOccupancy → Bool
is_vacant o = is_none_held o.readers && is_none_held o.writers && is_none_held o.exclusive

-- The loop of `remove`, with the resources that no one holds any more.
unfoldable pub remove_grants :
    String
    → ResourceOccupancyIndex
    → List ResourceGrant
    → List String
    → Outcome (ResourceOccupancyIndex × List String)
remove_grants reservation_id index [] empty_resources = ok (index, empty_resources)
remove_grants reservation_id index (grant ∷ grants) empty_resources =
    elim (get grant.resource_id index.resources) [
      | none ↦ err (missing_resource_holder grant.resource_id)
      | some holders ↦ do
        let left = change_holders grant.mode (set_remove reservation_id) holders
        usage ← take_units grant.rate_limit_group grant.rate_limit_units index.rate_limit_units
        remove_grants reservation_id
            (record index {
              resources = upsert grant.resource_id no_holders (λ _. left) index.resources;
              rate_limit_units = usage;
            })
            grants (if is_vacant left then grant.resource_id ∷ empty_resources else empty_resources)
    ]

unfoldable pub remove_resources :
    List String → List (String × ResourceModeOccupancy) → List (String × ResourceModeOccupancy)
remove_resources [] resources = resources
remove_resources (resource ∷ rest) resources = remove_resources rest (remove resource resources)

unfoldable pub remove_reservation :
    ResourceOccupancyIndex → ResourceReservation → Outcome ResourceOccupancyIndex
remove_reservation index reservation = do
  require (set_contains reservation.reservation_id index.reservation_ids)
      missing_reservation_identity
  require (set_contains reservation.attempt_id index.attempt_ids) missing_attempt_identity
  check_grants reservation.reservation_id index reservation.grants
  removed ←
      remove_grants reservation.reservation_id
        (record index {
          reservation_ids = set_remove reservation.reservation_id index.reservation_ids;
          attempt_ids = set_remove reservation.attempt_id index.attempt_ids;
        })
        reservation.grants []
  ok (record removed.0 { resources = remove_resources removed.1 removed.0.resources })
