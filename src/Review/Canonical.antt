-- ===== src/Review/Canonical.antt =====
-- src/native_review/support.rs: `canonical_review`.
pub mod Accepted
use casegraphen.Prelude.{
  ℕ, String, Bool, true, false, not, ◌&&◌, Option, none, some, List, [], ◌∷◌, if◌then◌else◌, ◌==◌,
  ◌||◌, leb, str_eq, same, all, length,
}
use casegraphen.Prelude.Options.{◌>>=◌, ◌>>◌, require_some}
use casegraphen.Host.{Host}
use casegraphen.Model.{CaseMorphism}
use casegraphen.Model.Kinds.{CaseMorphismType}
use casegraphen.Model.Names.{strip}
use casegraphen.Resource.Texts.{codes}
use casegraphen.Review.{
  NativeReviewTargetKind, execution_topology, ReviewAction, accept, reject, reopen, waive, defer,
  supersede, ExecutionTopologyReviewTarget, CanonicalReview, Terms,
}

-- `morphism_type == CaseMorphismType::Review`
unfoldable pub is_review : CaseMorphismType → Bool
is_review CaseMorphismType.review = true
is_review _ = false

abbrev pub is_topology : NativeReviewTargetKind → Bool
is_topology execution_topology = true
is_topology _ = false

-- 64 digits of lower-case hexadecimal
abbrev is_hash : String → Bool
is_hash hash =
    length (codes hash) == 64
    && all (λ c. (leb b'0' c && leb c b'9') || (leb b'a' c && leb c b'f')) (codes hash)

abbrev is_some_hash : Option String → Bool
is_some_hash none = false
is_some_hash (some hash) = is_hash hash

module _ (h : Host) (t : Terms h) where
  unfoldable pub outcome_status : ReviewAction → h.ReviewStatus
  outcome_status accept = h.accepted
  outcome_status waive = h.accepted
  outcome_status reject = h.rejected
  outcome_status reopen = t.unreviewed
  outcome_status defer = t.reviewed
  outcome_status supersede = t.reviewed

  -- `metadata.get(field)?.as_str()?`
  abbrev pub text_field : CaseMorphism h → String → Option String
  text_field m field = do value ← h.get m.metadata field; h.as_str value

  abbrev number_field : CaseMorphism h → String → Option ℕ
  number_field m field = do value ← h.get m.metadata field; t.as_u64 value

  abbrev is_number : Option ℕ → ℕ → Bool
  is_number none n = false
  is_number (some k) n = k == n

  unfoldable pub require_ids : CaseMorphism h → List String → Option (Unit {0})
  require_ids m [] = some tt
  require_ids m (field ∷ fields) = do
    value ← text_field m field
    require_some (t.is_valid_id value)
    require_ids m fields

  unfoldable pub require_texts : CaseMorphism h → List String → Option (Unit {0})
  require_texts m [] = some tt
  require_texts m (field ∷ fields) = do
    value ← text_field m field
    require_some (not (t.is_blank value))
    require_texts m fields

  unfoldable pub topology_binding :
      CaseMorphism h → h.Ident → Option (ExecutionTopologyReviewTarget h)
  unfolding strip
  topology_binding m target_id = do
    schema ← text_field m "execution_topology_review_schema"
    require_some (str_eq schema "casegraphen.experimental.execution_topology_review.v0")
    version ← number_field m "execution_topology_review_schema_version"
    require_some (version == 0)
    value ← h.get m.metadata "execution_topology_binding"
    binding ← t.binding_of value
    require_some (
        same h.id_discrete binding.claim_cell_id target_id
        && is_hash binding.topology_content_hash
        && is_some_hash (strip "artifact:sha256-" (t.id_text binding.artifact_id)))
    some binding

  -- The binding is read where the target is a topology.
  abbrev topology_of :
      Bool → CaseMorphism h → h.Ident → Option (Option (ExecutionTopologyReviewTarget h))
  topology_of false m target_id = some none
  topology_of true m target_id = do binding ← topology_binding m target_id; some (some binding)

  unfoldable pub canonical_review : CaseMorphism h → Option (CanonicalReview h)
  unfolding is_review
  canonical_review m = do
    require_some (
        is_review m.morphism_type
        && same h.status_discrete m.review_status h.accepted
        && is_number (number_field m "native_review_schema_version") 1)
    require_ids m ("review_id" ∷ "target_id" ∷ "reviewer_id" ∷ [])
    require_texts m ("reviewed_at" ∷ "reason" ∷ [])
    kind_value ← h.get m.metadata "target_kind"
    target_kind ← t.target_kind_of kind_value
    target_text ← text_field m "target_id"
    target_id ← t.parse_id target_text
    action_value ← h.get m.metadata "action"
    action ← t.action_of action_value
    outcome_value ← h.get m.metadata "outcome_review_status"
    outcome ← t.status_of outcome_value
    require_some (same h.status_discrete outcome (outcome_status action))
    topology ← topology_of (is_topology target_kind) m target_id
    some (record {
      target_kind = target_kind;
      target_id = target_id;
      action = action;
      outcome = outcome;
      execution_topology = topology;
    })
