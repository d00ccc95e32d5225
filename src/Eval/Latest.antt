-- ===== src/Eval/Latest.antt =====
-- src/native_eval/sections.rs: the latest review of each piece of evidence, from the log.
pub mod Reviewed
use casegraphen.Prelude.{
  String, Bool, true, false, ◌&&◌, Option, none, some, List, [], ◌∷◌, if◌then◌else◌, str_eq, same,
  map,
}
use casegraphen.Prelude.Options.{◌>>=◌}
use casegraphen.Host.{Host}
use casegraphen.Model.{MorphismLogEntry, CaseSpace}
use casegraphen.Resource.Maps.{get, upsert}
use casegraphen.Review.{
  NativeReviewTargetKind, evidence, ReviewAction, accept, CanonicalReview, Terms,
}
use casegraphen.Review.Canonical.{canonical_review, text_field}

abbrev pub is_evidence_kind : NativeReviewTargetKind → Bool
is_evidence_kind evidence = true
is_evidence_kind _ = false

module _ (h : Host) (t : Terms h) where
  abbrev pub is_text : Option String → String → Bool
  is_text none text = false
  is_text (some s) text = str_eq s text

  -- The evidence that an entry speaks of.
  unfoldable pub reviewed_evidence : MorphismLogEntry h → Option String
  reviewed_evidence entry =
      if is_text (text_field h t entry.morphism "target_kind") "evidence"
      then text_field h t entry.morphism "target_id"
      else none

  abbrev pub record_entry :
      MorphismLogEntry h
      → Option String
      → List (String × MorphismLogEntry h)
      → List (String × MorphismLogEntry h)
  record_entry entry none entries = entries
  record_entry entry (some evidence_id) entries = upsert evidence_id entry (λ _. entry) entries

  -- The loop over the log: a later entry replaces an earlier one.
  unfoldable pub collect_entries :
      List (MorphismLogEntry h)
      → List (String × MorphismLogEntry h)
      → List (String × MorphismLogEntry h)
  collect_entries [] entries = entries
  collect_entries (entry ∷ log) entries =
      collect_entries log (record_entry entry (reviewed_evidence entry) entries)

  unfoldable pub latest_evidence_review_entries : CaseSpace h → List (String × MorphismLogEntry h)
  latest_evidence_review_entries space = collect_entries space.morphism_log []

  abbrev pub is_accept : ReviewAction → Bool
  is_accept accept = true
  is_accept _ = false

  -- The status that a canonical review gives the evidence that it names.
  abbrev pub status_of_review : Option (CanonicalReview h) → String → h.ReviewStatus
  status_of_review none evidence_id = h.rejected
  status_of_review (some r) evidence_id =
      if is_evidence_kind r.target_kind
        && str_eq (t.id_text r.target_id) evidence_id
        && is_accept r.action
        && same h.status_discrete r.outcome h.accepted
      then h.accepted
      else h.rejected

  unfoldable pub evidence_review_status : MorphismLogEntry h → String → h.ReviewStatus
  evidence_review_status entry evidence_id =
      status_of_review (canonical_review h t entry.morphism) evidence_id

  abbrev pub statuses : List (String × MorphismLogEntry h) → List (String × h.ReviewStatus)
  statuses [] = []
  statuses ((evidence_id, entry) ∷ entries) =
      (evidence_id, evidence_review_status entry evidence_id) ∷ statuses entries

  unfoldable pub latest_evidence_review_statuses : CaseSpace h → List (String × h.ReviewStatus)
  latest_evidence_review_statuses space = statuses (latest_evidence_review_entries space)

  unfoldable pub latest_evidence_review_status : CaseSpace h → String → Option h.ReviewStatus
  latest_evidence_review_status space evidence_id =
      get evidence_id (latest_evidence_review_statuses space)
