-- ===== src/Model/Boundary/Trusted.antt =====
-- The spelling of a boundary and its reading.
use casegraphen.Prelude.{◌≡◌, refl, some}
use casegraphen.Trust.{EvidenceTrustBoundary, metadata_value}
use casegraphen.Model.Boundary.{from_metadata_value, to_trust_boundary}

-- What a writer spells for a boundary is read back as that boundary.
pub boundary_round_trip :
    (b : EvidenceTrustBoundary)
    → to_trust_boundary (from_metadata_value (some (metadata_value b))) ≡ b
unfolding to_trust_boundary from_metadata_value metadata_value
boundary_round_trip EvidenceTrustBoundary.source_backed = refl
boundary_round_trip EvidenceTrustBoundary.inferred = refl
boundary_round_trip EvidenceTrustBoundary.worker_output = refl
boundary_round_trip EvidenceTrustBoundary.review_promoted = refl
boundary_round_trip EvidenceTrustBoundary.rejected = refl
boundary_round_trip EvidenceTrustBoundary.contradicting = refl
