-- ===== src/Review/Canonical/Accepted.antt =====
-- src/native_review/support.rs: what a morphism has to be for a review to be read from it.
use casegraphen.Prelude.{
  String, Bool, true, false, not, ◌&&◌, ◌||◌, leb, ◌==◌, Option, none, some, ◌≡◌, ◌↔◌, all, length,
  arith, same_self, eq_iff, str_eq,
}
use casegraphen.Prelude.Options.{◌>>=◌}
use casegraphen.Host.{Host}
use casegraphen.Model.{CaseMorphism}
use casegraphen.Model.Kinds.{CaseMorphismType}
use casegraphen.Model.Names.{strip}
use casegraphen.Resource.Texts.{codes}
use casegraphen.Review.{
  ReviewAction, accept, reject, reopen, waive, defer, supersede, ExecutionTopologyReviewTarget,
  CanonicalReview, Terms,
}
use casegraphen.Review.Canonical.{
  is_review, outcome_status, canonical_review, is_topology, topology_binding, topology_of,
  require_ids, require_texts,
}

-- 64 characters among `0`-`9` and `a`-`f`.
abbrev pub is_digest : String → Bool
is_digest hash =
    length (codes hash) == 64
    && all (λ c. (leb 48 c && leb c 57) || (leb 97 c && leb c 102)) (codes hash)

abbrev pub topology_review_schema : String
topology_review_schema = "casegraphen.experimental.execution_topology_review.v0"

abbrev pub passes : (String → Bool) → Option String → Bool
passes test none = false
passes test (some text) = test text

passes-str_eq :
    (o : Option String) (text : String) → passes (λ s. str_eq s text) o ≡ true → o ≡ some text
passes-str_eq none text e = cc
passes-str_eq (some s) text e = ground (arith, eq_iff s text)

module _ (h : Host) (t : Terms h) (m : CaseMorphism h) where
  -- What a decoder reads from a field of the morphism's metadata.
  abbrev pub field : {A : Type 0} → String → (h.Value → Option A) → Option A
  field name decode = h.get m.metadata name >>= decode

  -- An acceptance and a waiver accept, a rejection rejects, a reopening takes the review back, and
  -- what is put off or superseded counts as looked at.
  abbrev pub IsOutcome : ReviewAction → h.ReviewStatus → Type 0
  IsOutcome accept outcome = outcome ≡ h.accepted
  IsOutcome reject outcome = outcome ≡ h.rejected
  IsOutcome reopen outcome = outcome ≡ t.unreviewed
  IsOutcome waive outcome = outcome ≡ h.accepted
  IsOutcome defer outcome = outcome ≡ t.reviewed
  IsOutcome supersede outcome = outcome ≡ t.reviewed

  IsOutcome-iff :
      (action : ReviewAction) (outcome : h.ReviewStatus)
      → (outcome ≡ outcome_status h t action) ↔ IsOutcome action outcome
  unfolding outcome_status
  IsOutcome-iff action outcome = ground arith

  -- The binding of the topology that is reviewed.
  pub record IsBinding (target_id : h.Ident) (b : ExecutionTopologyReviewTarget h) : Type 0 where
    pub schema : field "execution_topology_review_schema" h.as_str ≡ some topology_review_schema
    pub version : field "execution_topology_review_schema_version" t.as_u64 ≡ some 0
    pub binding : field "execution_topology_binding" t.binding_of ≡ some b
    pub claim : b.claim_cell_id ≡ target_id
    pub content_hash : is_digest b.topology_content_hash ≡ true
    pub artifact : passes is_digest (strip "artifact:sha256-" (t.id_text b.artifact_id)) ≡ true

  topology_binding_sound :
      (target_id : h.Ident) (b : ExecutionTopologyReviewTarget h)
      → topology_binding h t m target_id ≡ some b
      → IsBinding target_id b
  unfolding topology_binding
  topology_binding_sound target_id b e = ground (
    arith,
    passes-str_eq (field "execution_topology_review_schema" h.as_str) topology_review_schema,
  )

  topology_binding_complete :
      (target_id : h.Ident) (b : ExecutionTopologyReviewTarget h)
      → IsBinding target_id b
      → topology_binding h t m target_id ≡ some b
  unfolding topology_binding
  topology_binding_complete target_id b i = ground (
    arith,
    same_self h.id_discrete target_id,
    eq_iff topology_review_schema topology_review_schema,
  )

  -- The binding is there where the target is a topology, and only there.
  abbrev pub IsBound : Bool → h.Ident → Option (ExecutionTopologyReviewTarget h) → Type 0
  IsBound false target_id b = b ≡ none
  IsBound true target_id none = ⊥
  IsBound true target_id (some b) = IsBinding target_id b

  topology_of_iff :
      (topology : Bool) (target_id : h.Ident) (b : Option (ExecutionTopologyReviewTarget h))
      → (topology_of h t topology m target_id ≡ some b) ↔ IsBound topology target_id b
  topology_of_iff false target_id b = ground arith
  topology_of_iff true target_id none = ground arith
  topology_of_iff true target_id (some b) =
      ground (arith, topology_binding_sound target_id b, topology_binding_complete target_id b)

  -- What is asked of a morphism for this review to be read from it.
  pub record IsReviewOf (r : CanonicalReview h) : Type 0 where
    pub review : m.morphism_type ≡ CaseMorphismType.review
    pub accepted : m.review_status ≡ h.accepted
    pub version : field "native_review_schema_version" t.as_u64 ≡ some 1
    pub review_id : passes t.is_valid_id (field "review_id" h.as_str) ≡ true
    pub target_id_valid : passes t.is_valid_id (field "target_id" h.as_str) ≡ true
    pub reviewer_id : passes t.is_valid_id (field "reviewer_id" h.as_str) ≡ true
    pub reviewed_at : passes (λ text. not (t.is_blank text)) (field "reviewed_at" h.as_str) ≡ true
    pub reason : passes (λ text. not (t.is_blank text)) (field "reason" h.as_str) ≡ true
    pub target_kind : field "target_kind" t.target_kind_of ≡ some r.target_kind
    pub target_id : (field "target_id" h.as_str >>= t.parse_id) ≡ some r.target_id
    pub action : field "action" t.action_of ≡ some r.action
    pub outcome_read : field "outcome_review_status" t.status_of ≡ some r.outcome
    pub outcome : IsOutcome r.action r.outcome
    pub topology : IsBound (is_topology r.target_kind) r.target_id r.execution_topology

  module _ (r : CanonicalReview h) (e : canonical_review h t m ≡ some r) where
    is_accepted_review :
        (m.morphism_type ≡ CaseMorphismType.review)
        × (m.review_status ≡ h.accepted)
        × (field "native_review_schema_version" t.as_u64 ≡ some 1)
    unfolding canonical_review is_review
    is_accepted_review = ground arith

    names_ids :
        (passes t.is_valid_id (field "review_id" h.as_str) ≡ true)
        × (passes t.is_valid_id (field "target_id" h.as_str) ≡ true)
        × (passes t.is_valid_id (field "reviewer_id" h.as_str) ≡ true)
    unfolding canonical_review require_ids
    names_ids = ground arith

    has_texts :
        (passes (λ text. not (t.is_blank text)) (field "reviewed_at" h.as_str) ≡ true)
        × (passes (λ text. not (t.is_blank text)) (field "reason" h.as_str) ≡ true)
    unfolding canonical_review require_texts
    has_texts = ground arith

    names_target :
        (field "target_kind" t.target_kind_of ≡ some r.target_kind)
        × ((field "target_id" h.as_str >>= t.parse_id) ≡ some r.target_id)
    unfolding canonical_review
    names_target = ground arith

    names_outcome :
        (field "action" t.action_of ≡ some r.action)
        × (field "outcome_review_status" t.status_of ≡ some r.outcome)
        × (r.outcome ≡ outcome_status h t r.action)
    unfolding canonical_review
    names_outcome = ground arith

    binds_topology :
        topology_of h t (is_topology r.target_kind) m r.target_id ≡ some r.execution_topology
    unfolding canonical_review
    binds_topology = ground arith

    canonical_review_sound : IsReviewOf r
    canonical_review_sound =
        let bound =
          (topology_of_iff (is_topology r.target_kind) r.target_id r.execution_topology).0
            binds_topology in
        let (review, accepted, version) = is_accepted_review in
        let (review_id, target_id_valid, reviewer_id) = names_ids in
        let (reviewed_at, reason) = has_texts in
        let (target_kind, target_id) = names_target in
        let (action, outcome_read, outcome) = names_outcome in
        record {
          review = review;
          accepted = accepted;
          version = version;
          review_id = review_id;
          target_id_valid = target_id_valid;
          reviewer_id = reviewer_id;
          reviewed_at = reviewed_at;
          reason = reason;
          target_kind = target_kind;
          target_id = target_id;
          action = action;
          outcome_read = outcome_read;
          outcome = (IsOutcome-iff r.action r.outcome).0 outcome;
          topology = bound;
        }

  canonical_review_complete :
      (r : CanonicalReview h) → IsReviewOf r → canonical_review h t m ≡ some r
  unfolding canonical_review is_review require_ids require_texts
  canonical_review_complete r i = ground (
    arith,
    topology_of_iff (is_topology r.target_kind) r.target_id r.execution_topology,
    same_self h.status_discrete h.accepted,
    same_self h.status_discrete r.outcome,
    IsOutcome-iff r.action r.outcome,
  )

  -- A review is read from a morphism exactly where the morphism is an accepted review of the schema's
  -- version with valid identifiers of the review, target and reviewer and with a date and a reason
  -- that are not blank; its metadata name the review's target, kind of target, action and outcome;
  -- the outcome is the one of the action; and the review carries the binding of a topology just
  -- where its target is one: the one in the metadata, of the schema and version of topologies, whose
  -- claim is the target and whose content and artifact are addressed by 64 hexadecimal digits.
  pub canonical_review_iff :
      (r : CanonicalReview h) → (canonical_review h t m ≡ some r) ↔ IsReviewOf r
  canonical_review_iff r = (canonical_review_sound r, canonical_review_complete r)
