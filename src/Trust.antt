-- ===== src/Trust.antt =====
-- src/evidence_trust.rs: whether a piece of evidence counts, from its boundary, its source and the
-- two review statuses that are known of it.
pub mod Laws
use casegraphen.Prelude.{
  Bool, true, false, not, ◌||◌, Option, none, some, String, if◌then◌else◌, same,
}
use casegraphen.Host.{Host}

pub data EvidenceTrustBoundary : Type 0 where
  source_backed inferred worker_output review_promoted rejected contradicting :
      EvidenceTrustBoundary

unfoldable pub metadata_value : EvidenceTrustBoundary → String
metadata_value source_backed = "source_backed"
metadata_value inferred = "inferred"
metadata_value worker_output = "worker_output"
metadata_value review_promoted = "review_promoted"
metadata_value rejected = "rejected"
metadata_value contradicting = "contradicting"

module _ (h : Host) where
  pub record EvidenceTrustInput : Type 0 where
    pub boundary : EvidenceTrustBoundary
    pub cell_review_status : h.ReviewStatus
    pub latest_review_status : Option h.ReviewStatus
    pub has_source : Bool

  -- `latest_review_status == Some(status)`
  abbrev pub is_some_status : Option h.ReviewStatus → h.ReviewStatus → Bool
  is_some_status none status = false
  is_some_status (some latest) status = same h.status_discrete latest status

  unfoldable pub by_boundary : EvidenceTrustBoundary → EvidenceTrustInput → Bool
  by_boundary source_backed i = true
  by_boundary review_promoted i =
      same h.status_discrete i.cell_review_status h.accepted
      || is_some_status i.latest_review_status h.accepted
  by_boundary inferred i = is_some_status i.latest_review_status h.accepted
  by_boundary worker_output i = is_some_status i.latest_review_status h.accepted
  by_boundary rejected i = false
  by_boundary contradicting i = false

  unfoldable pub evidence_is_acceptable : EvidenceTrustInput → Bool
  unfolding by_boundary
  evidence_is_acceptable i =
      if not i.has_source
        || same h.status_discrete i.cell_review_status h.rejected
        || is_some_status i.latest_review_status h.rejected
      then false
      else by_boundary i.boundary i
