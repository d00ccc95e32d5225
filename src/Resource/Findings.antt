-- ===== src/Resource/Findings.antt =====
-- src/resource_protocol.rs: findings, their order, and the list that is reported.
use Prim.Native.Nat.{Ordering}
use Prim.Native.String.{compare}
use casegraphen.Prelude.{
  String, Bool, true, false, Option, none, some, List, [], ◌∷◌, if◌then◌else◌, same,
  String-discrete, ◌≡◌, ◌≢◌, refl, arith,
}
use casegraphen.Resource.Records.{ResourceProtocolFinding}

-- `cmp` of optional texts: `None` comes first.
abbrev compare_option : Option String → Option String → Ordering
compare_option none none = Ordering.eq
compare_option none (some _) = Ordering.lt
compare_option (some _) none = Ordering.gt
compare_option (some a) (some b) = compare a b

abbrev then_by : Ordering → Ordering → Ordering
then_by Ordering.eq o = o
then_by o _ = o

unfoldable pub finding_order : ResourceProtocolFinding → ResourceProtocolFinding → Ordering
finding_order left right = then_by (compare left.code right.code) (
    then_by (compare_option left.resource_id right.resource_id) (
      then_by (compare_option left.reservation_id right.reservation_id) (
        then_by (compare_option left.allocation_id right.allocation_id)
          (compare left.detail right.detail))))

pub ResourceProtocolFinding-discrete : Discrete ResourceProtocolFinding
ResourceProtocolFinding-discrete = hlevel String-discrete

abbrev is_gt : Ordering → Bool
is_gt Ordering.gt = true
is_gt _ = false

-- A stable sort by insertion: `sort_by(finding_order)`.
insert_sorted :
    ResourceProtocolFinding → List ResourceProtocolFinding → List ResourceProtocolFinding
insert_sorted f [] = f ∷ []
insert_sorted f (g ∷ gs) = if is_gt (finding_order f g) then g ∷ insert_sorted f gs else f ∷ g ∷ gs

unfoldable pub sort_findings : List ResourceProtocolFinding → List ResourceProtocolFinding
unfolding insert_sorted finding_order
sort_findings [] = []
sort_findings (f ∷ fs) = insert_sorted f (sort_findings fs)

-- `dedup`: of equal neighbours the first stays.
dedup_after : ResourceProtocolFinding → List ResourceProtocolFinding → List ResourceProtocolFinding
dedup_after f [] = []
dedup_after f (g ∷ gs) =
    let rest = dedup_after g gs in
    if same ResourceProtocolFinding-discrete f g then rest else g ∷ rest

unfoldable pub dedup : List ResourceProtocolFinding → List ResourceProtocolFinding
unfolding dedup_after
dedup [] = []
dedup (f ∷ fs) = f ∷ dedup_after f fs

unfoldable pub reported : List ResourceProtocolFinding → List ResourceProtocolFinding
unfolding sort_findings dedup
reported fs = dedup (sort_findings fs)

-- Nothing is reported exactly where nothing was found.
insert_sorted-ne :
    (f : ResourceProtocolFinding) (fs : List ResourceProtocolFinding) → insert_sorted f fs ≢ []
unfolding insert_sorted
insert_sorted-ne f [] e = cc
insert_sorted-ne f (g ∷ gs) e = ground arith

pub reported-nil : (fs : List ResourceProtocolFinding) → reported fs ≡ [] → fs ≡ []
unfolding reported sort_findings dedup
reported-nil [] e = refl
reported-nil (f ∷ fs) e = ground (arith, insert_sorted-ne f (sort_findings fs))
