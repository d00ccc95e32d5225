-- ===== src/Eval/Latest/Reviewed.antt =====
-- src/native_eval/sections.rs: what stands in the log where evidence counts as accepted.
use casegraphen.Prelude.{
  String, Bool, true, false, Option, none, some, List, [], ◌∷◌, ◌++◌, ◌≡◌, refl, any, str_eq,
  eq_iff, arith, ap, sym, ◌∙◌, if◌then◌else◌, Option-cases, Bool-cases, inl, inr, subst,
}
use casegraphen.Host.{Host}
use casegraphen.Trust.{evidence_is_acceptable, EvidenceTrustInput}
use casegraphen.Trust.Laws.{IsUntrusted, acceptable_iff}
use casegraphen.Model.{CaseCell, CaseSpace, MorphismLogEntry}
use casegraphen.Model.Boundary.{native_evidence_trust_input}
use casegraphen.Resource.Maps.{get, get-upsert}
use casegraphen.Review.{NativeReviewTargetKind, ReviewAction, CanonicalReview, Terms}
use casegraphen.Review.Canonical.{canonical_review}
use casegraphen.Eval.Latest.{
  reviewed_evidence, collect_entries, record_entry, latest_evidence_review_entries,
  status_of_review, evidence_review_status, statuses, latest_evidence_review_statuses,
  latest_evidence_review_status,
}

module _ (h : Host) (t : Terms h) where
  abbrev is_text_of : String → Option String → Bool
  is_text_of id none = false
  is_text_of id (some text) = str_eq text id

  -- The entry speaks of a review of this evidence.
  abbrev pub is_about : String → MorphismLogEntry h → Bool
  is_about id entry = is_text_of id (reviewed_evidence h t entry)

  -- The last entry of a log that speaks of the evidence.
  abbrev last_about : String → List (MorphismLogEntry h) → Option (MorphismLogEntry h)
  last_about id [] = none
  last_about id (entry ∷ log) = elim (last_about id log) [
    | some later ↦ some later
    | none ↦ if is_about id entry then some entry else none
  ]

  abbrev or_else : {A : Type 0} → Option A → Option A → Option A
  or_else (some a) b = some a
  or_else none b = b

  recorded :
      (id : String) (entry : MorphismLogEntry h) (m : List (String × MorphismLogEntry h))
      (about : Option String)
      → get id (record_entry h t entry about m)
        ≡ (if is_text_of id about then some entry else get id m)
  recorded id entry m none = refl
  recorded id entry m (some text) = ground (arith, get-upsert text id entry (λ _. entry) m)

  get-collect_entries :
      (id : String) (log : List (MorphismLogEntry h)) (m : List (String × MorphismLogEntry h))
      → get id (collect_entries h t log m) ≡ or_else (last_about id log) (get id m)
  unfolding collect_entries
  get-collect_entries id [] m = refl
  get-collect_entries id (entry ∷ log) m = ground (
    arith,
    get-collect_entries id log (record_entry h t entry (reviewed_evidence h t entry) m),
    recorded id entry m (reviewed_evidence h t entry),
  )

  -- The log around the last entry about the evidence.
  abbrev pub LastAbout : String → List (MorphismLogEntry h) → MorphismLogEntry h → Type 0
  LastAbout id log entry =
      (before : List (MorphismLogEntry h)) × (after : List (MorphismLogEntry h)) × (log
        ≡ before ++ entry ∷ after)
      × (is_about id entry ≡ true)
      × (any (is_about id) after ≡ false)

  last_about-none :
      (id : String) (log : List (MorphismLogEntry h))
      → last_about id log ≡ none
      → any (is_about id) log ≡ false
  last_about-none id [] e = refl
  last_about-none id (entry ∷ log) e = ground (arith, last_about-none id log)

  last_about-some :
      (id : String) (log : List (MorphismLogEntry h)) {entry : MorphismLogEntry h}
      → last_about id log ≡ some entry
      → LastAbout id log entry
  last_about-some id [] e = cc
  last_about-some id (first ∷ log) {entry} e = elim (Option-cases (last_about id log)) [
    | inr (later, found) ↦
        let (before, after, split, about, none_after) = last_about-some id log found in
        let e' : later ≡ entry = ground arith in
        subst (LastAbout id (first ∷ log)) e'
          (first ∷ before, after, ap (λ l. first ∷ l) split, about, none_after)
    | inl missing ↦
        let e' : (is_about id first ≡ true) × (first ≡ entry) = ground arith in
        subst (LastAbout id (first ∷ log)) e'.1
          ([], log, refl, e'.0, last_about-none id log missing)
  ]

  get-statuses :
      (id : String) (entries : List (String × MorphismLogEntry h)) {status : h.ReviewStatus}
      → get id (statuses h t entries) ≡ some status
      → (entry : MorphismLogEntry h) × (get id entries ≡ some entry)
        × (evidence_review_status h t entry id ≡ status)
  get-statuses id [] e = cc
  get-statuses id ((other, entry) ∷ entries) {status} e = elim (Bool-cases (str_eq other id)) [
    | inl same_id ↦ (
      entry,
      ground arith,
      ap (evidence_review_status h t entry) (sym ((eq_iff other id).0 same_id)) ∙ ground arith,
    )
    | inr different ↦
        let (found, in_rest, its) = get-statuses id entries {status = status} (ground arith) in
        (found, ground arith, its)
  ]

  -- A canonical acceptance of this evidence.
  abbrev pub Accepts : String → MorphismLogEntry h → Type 0
  Accepts id entry =
      (r : CanonicalReview h) × (canonical_review h t entry.morphism ≡ some r)
      × (r.target_kind ≡ NativeReviewTargetKind.evidence)
      × (t.id_text r.target_id ≡ id)
      × (r.action ≡ ReviewAction.accept)
      × (r.outcome ≡ h.accepted)

  accepted-review :
      (id : String) (o : Option (CanonicalReview h))
      → status_of_review h t o id ≡ h.accepted
      → (r : CanonicalReview h) × (o ≡ some r)
        × (r.target_kind ≡ NativeReviewTargetKind.evidence)
        × (t.id_text r.target_id ≡ id)
        × (r.action ≡ ReviewAction.accept)
        × (r.outcome ≡ h.accepted)
  accepted-review id none e = elim (h.accepted-ne-rejected (sym e)) [ ]
  accepted-review id (some r) e =
      let (kind, target, action, outcome) : (r.target_kind ≡ NativeReviewTargetKind.evidence)
          × (t.id_text r.target_id ≡ id)
          × (r.action ≡ ReviewAction.accept)
          × (r.outcome ≡ h.accepted) =
        ground (arith, eq_iff (t.id_text r.target_id) id, h.accepted-ne-rejected) in
      (r, refl, kind, target, action, outcome)

  -- Where the log gives evidence the status of accepted, the last entry that speaks of a review of
  -- it is a canonical acceptance of it.
  pub latest_evidence_review_status-accepted :
      (space : CaseSpace h) (id : String)
      → latest_evidence_review_status h t space id ≡ some h.accepted
      → (entry : MorphismLogEntry h) × LastAbout id space.morphism_log entry × Accepts id entry
  unfolding latest_evidence_review_status latest_evidence_review_statuses
      latest_evidence_review_entries evidence_review_status
  latest_evidence_review_status-accepted space id e =
      let (entry, found, its) = get-statuses id (collect_entries h t space.morphism_log []) e in
      let last : last_about id space.morphism_log ≡ some entry =
        ground (arith, get-collect_entries id space.morphism_log []) in
      (
        entry,
        last_about-some id space.morphism_log last,
        accepted-review id (canonical_review h t entry.morphism) its,
      )

  reviewed :
      (input : EvidenceTrustInput h)
      → IsUntrusted h input.boundary
      → evidence_is_acceptable h input ≡ true
      → input.latest_review_status ≡ some h.accepted
  reviewed input untrusted acceptable = ground (arith, (acceptable_iff h input).0 acceptable)

  -- The input of the trust decision on a cell.
  abbrev pub trust_input : CaseSpace h → CaseCell h → EvidenceTrustInput h
  trust_input space cell =
      native_evidence_trust_input h cell
        (latest_evidence_review_status h t space (t.id_text cell.id))

  -- Evidence of an untrusted boundary that the evaluation takes as acceptable has a canonical
  -- acceptance as the last entry of the log that speaks of a review of it.
  pub untrusted_evidence-reviewed :
      (space : CaseSpace h) (cell : CaseCell h)
      → IsUntrusted h (trust_input space cell).boundary
      → evidence_is_acceptable h (trust_input space cell) ≡ true
      → (entry : MorphismLogEntry h) × LastAbout (t.id_text cell.id) space.morphism_log entry
        × Accepts (t.id_text cell.id) entry
  unfolding native_evidence_trust_input
  untrusted_evidence-reviewed space cell untrusted acceptable =
      latest_evidence_review_status-accepted space (t.id_text cell.id)
        (reviewed (trust_input space cell) untrusted acceptable)
