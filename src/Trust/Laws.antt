-- ===== src/Trust/Laws.antt =====
-- When evidence is acceptable, and what a review can and cannot change about it.
use casegraphen.Prelude.{true, some, ◌≡◌, ◌≢◌, ◌⊎◌, ◌↔◌, arith}
use casegraphen.Host.{Host}
use casegraphen.Trust.{
  EvidenceTrustBoundary, source_backed, inferred, worker_output, review_promoted,
  EvidenceTrustInput, evidence_is_acceptable,
}

module _ (h : Host) where
  -- Untrusted boundaries are those that the tool itself mints after genesis.
  abbrev pub IsUntrusted : EvidenceTrustBoundary → Type 0
  IsUntrusted b = (b ≡ inferred) ⊎ (b ≡ worker_output)

  -- Evidence is acceptable exactly when it has a source, neither its own status nor the latest
  -- review rejects it, and its boundary is source-backed, or review-promoted with an acceptance
  -- on the cell or in the latest review, or inferred or worker output with an accepting latest
  -- review.
  pub acceptable_iff :
      (i : EvidenceTrustInput h)
      → (evidence_is_acceptable h i ≡ true) ↔ (
          (i.has_source ≡ true)
          × (i.cell_review_status ≢ h.rejected)
          × (i.latest_review_status ≢ some h.rejected)
          × ((i.boundary ≡ source_backed)
              ⊎ (i.boundary ≡ review_promoted)
                × ((i.cell_review_status ≡ h.accepted) ⊎ (i.latest_review_status ≡ some h.accepted))
              ⊎ IsUntrusted i.boundary × (i.latest_review_status ≡ some h.accepted)))
  unfolding evidence_is_acceptable
  acceptable_iff i = ground arith
