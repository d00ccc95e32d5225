-- ===== src/Examples/Trusting.antt =====
-- Trust and lifecycle at concrete inputs.
use casegraphen.Prelude.{
  Bool, ok, err, ◌==◌, true, false, some, ◌≡◌, ◌≢◌, ◌⊎◌, ◌↔◌, refl, String-discrete,
}
use Prim.Native.Char.{Char, code}
use casegraphen.Model.Kinds.{CaseCellType, CaseRelationType, CaseMorphismType}
use casegraphen.Model.Names.{
  from_str, strip, CaseCellType-names, CaseRelationType-names, CaseMorphismType-names,
  cell_type_value, relation_type_value, morphism_type_value, empty_extension,
}
use casegraphen.Model.Names.Laws.{IsSpoken}
use casegraphen.Model.Names.Written.{
  CaseCellType-IsFaithful, CaseRelationType-IsFaithful, CaseMorphismType-IsFaithful,
  from_str_reads_names,
}
use casegraphen.Trust.{
  EvidenceTrustBoundary, EvidenceTrustInput, evidence_is_acceptable, metadata_value,
}
use casegraphen.Trust.Laws.{IsUntrusted, acceptable_iff}
use casegraphen.Model.Lifecycle.{CaseCellLifecycle, can_transition_to, LifecycleReach, reaches}
use casegraphen.Model.Lifecycle.Passed.{EnteredFrom, LifecycleReach-iff}
use casegraphen.Model.Boundary.{EvidenceBoundary, from_metadata_value, to_trust_boundary}
use casegraphen.Model.Boundary.Trusted.{boundary_round_trip}
use casegraphen.Examples.Demo.{unreviewed, accepted, rejected, demo}

abbrev promoted : EvidenceTrustInput demo
promoted = record {
  boundary = EvidenceTrustBoundary.review_promoted;
  cell_review_status = unreviewed;
  latest_review_status = some accepted;
  has_source = true;
}

acceptable_iff_example : (evidence_is_acceptable demo promoted ≡ true) ↔ (
    (true ≡ true)
    × (unreviewed ≢ rejected)
    × (some accepted ≢ some rejected)
    × ((EvidenceTrustBoundary.review_promoted ≡ EvidenceTrustBoundary.source_backed)
        ⊎ (EvidenceTrustBoundary.review_promoted ≡ EvidenceTrustBoundary.review_promoted)
          × ((unreviewed ≡ accepted) ⊎ (some accepted ≡ some accepted))
        ⊎ IsUntrusted demo EvidenceTrustBoundary.review_promoted × (some accepted ≡ some accepted)))
acceptable_iff_example = acceptable_iff demo promoted

-- An acceptance does not help evidence without a source.
sourceless : evidence_is_acceptable demo (record promoted { has_source = false }) ≡ false
unfolding evidence_is_acceptable
sourceless = refl

LifecycleReach-iff_example :
    ((can_transition_to CaseCellLifecycle.waiting CaseCellLifecycle.accepted ≡ true) ↔ (
      (CaseCellLifecycle.waiting ≡ CaseCellLifecycle.accepted)
      ⊎ EnteredFrom CaseCellLifecycle.accepted CaseCellLifecycle.waiting))
    × (LifecycleReach CaseCellLifecycle.waiting CaseCellLifecycle.accepted
        ↔ (reaches CaseCellLifecycle.waiting CaseCellLifecycle.accepted ≡ true))
LifecycleReach-iff_example = LifecycleReach-iff CaseCellLifecycle.waiting CaseCellLifecycle.accepted

boundary_round_trip_example :
    to_trust_boundary (from_metadata_value (some (metadata_value EvidenceTrustBoundary.inferred)))
    ≡ EvidenceTrustBoundary.inferred
boundary_round_trip_example = boundary_round_trip EvidenceTrustBoundary.inferred

-- Another spelling of the same boundary, and a text that is none.
other_spelling : from_metadata_value (some "ai_inference") ≡ EvidenceBoundary.inferred
unfolding from_metadata_value String-discrete
other_spelling = refl

no_spelling : from_metadata_value (some "trusted") ≡ EvidenceBoundary.inferred
unfolding from_metadata_value String-discrete
no_spelling = refl

abbrev is_space : Char → Bool
is_space c = code c == 32

from_str_reads_names_example :
    ((from_str is_space CaseCellType-names "custom:risk" ≡ ok (CaseCellType.custom "risk")) ↔ (
      (cell_type_value (CaseCellType.custom "risk") ≡ "custom:risk")
      × IsSpoken is_space CaseCellType-names CaseCellType-IsFaithful (CaseCellType.custom "risk")))
    × ((from_str is_space CaseRelationType-names "custom:risk" ≡ ok CaseRelationType.blocks) ↔ (
        (relation_type_value CaseRelationType.blocks ≡ "custom:risk")
        × IsSpoken is_space CaseRelationType-names CaseRelationType-IsFaithful
            CaseRelationType.blocks))
    × ((from_str is_space CaseMorphismType-names "custom:risk" ≡ ok CaseMorphismType.create) ↔ (
        (morphism_type_value CaseMorphismType.create ≡ "custom:risk")
        × IsSpoken is_space CaseMorphismType-names CaseMorphismType-IsFaithful
            CaseMorphismType.create))
from_str_reads_names_example =
    from_str_reads_names is_space "custom:risk" (CaseCellType.custom "risk") CaseRelationType.blocks
      CaseMorphismType.create

blank_extension : from_str is_space CaseCellType-names "custom: " ≡ err (empty_extension "custom: ")
unfolding from_str strip CaseCellType-names String-discrete
blank_extension = refl
