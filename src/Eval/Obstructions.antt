-- ===== src/Eval/Obstructions.antt =====
-- src/native_eval.rs, src/native_eval/util.rs: the obstructions to a cell and the checks that they
-- are kept under.
use Prim.Native.Nat.{ℕ}
use Prim.Native.Char.{code}
use Prim.Native.String.{◌++◌ as join}
use casegraphen.Prelude.{
  String, Bool, true, ◌&&◌, ◌||◌, List, [], ◌∷◌, ◌++◌, leb, ltb, ◌==◌, if◌then◌else◌,
}
use casegraphen.Host.{Host}
use casegraphen.Model.{CaseCell, CaseRelation}
use casegraphen.Review.{Terms}
use casegraphen.Eval.{
  NativeObstructionType, unresolved_dependency, external_wait, missing_evidence, missing_proof,
  contradiction, review_required, ReadinessCheck, lifecycle, dependencies, waits, evidence, proof,
  contradictions, reviews, NativeObstruction,
}

unfoldable pub obstruction_type_stem : NativeObstructionType → String
obstruction_type_stem unresolved_dependency = "unresolved-dependency"
obstruction_type_stem external_wait = "external-wait"
obstruction_type_stem missing_evidence = "missing-evidence"
obstruction_type_stem missing_proof = "missing-proof"
obstruction_type_stem contradiction = "contradiction"
obstruction_type_stem review_required = "review-required"

abbrev is_alphanumeric : ℕ → Bool
is_alphanumeric c =
    (leb b'a' c && leb c b'z') || (leb b'A' c && leb c b'Z') || (leb b'0' c && leb c b'9')

unfoldable pub sanitize : String → String
sanitize String.[] = ""
sanitize (String.◌∷◌ c s) =
    let rest = sanitize s in
    if is_alphanumeric (code c) then String.◌∷◌ c rest else String.◌∷◌ "-" rest

-- `format!` of the pieces
abbrev pub format : List String → String
format [] = ""
format (piece ∷ pieces) = join piece (format pieces)

abbrev join_parts : List String → String
join_parts [] = ""
join_parts (part ∷ []) = sanitize part
join_parts (part ∷ next ∷ parts) = format (sanitize part ∷ ":" ∷ join_parts (next ∷ parts) ∷ [])

-- The order in which `ReadinessCheck` is declared.
abbrev pub rank : ReadinessCheck → ℕ
rank lifecycle = 0
rank dependencies = 1
rank waits = 2
rank evidence = 3
rank proof = 4
rank contradictions = 5
rank reviews = 6

unfoldable pub default_rule_text : ReadinessCheck → String
default_rule_text lifecycle = "readiness:native-lifecycle-allows-work"
default_rule_text dependencies = "readiness:native-dependencies-resolved"
default_rule_text waits = "readiness:native-waits-satisfied"
default_rule_text evidence = "readiness:native-evidence-available"
default_rule_text proof = "readiness:native-proof-available"
default_rule_text contradictions = "readiness:native-no-contradictions"
default_rule_text reviews = "readiness:native-reviews-accepted"

module _ (h : Host) (t : Terms h) where
  unfoldable pub generated_id : String → List String → h.Ident
  generated_id prefix parts = t.new_id (format (prefix ∷ ":" ∷ join_parts parts ∷ []))

  unfoldable pub obstruction :
      NativeObstructionType
      → h.Ident
      → h.Ident
      → String
      → String
      → t.Severity
      → String
      → NativeObstruction h t
  obstruction type cell_id witness_id constraint_id explanation severity resolution = record {
    id =
        generated_id "obstruction"
          (obstruction_type_stem type ∷ t.id_text cell_id ∷ t.id_text witness_id ∷ []);
    obstruction_type = type;
    affected_ids = cell_id ∷ [];
    source_constraint_id = t.new_id constraint_id;
    witness_ids = witness_id ∷ [];
    explanation = explanation;
    severity = severity;
    required_resolution = resolution;
    blocking = true;
    provenance = t.generated_provenance "Native readiness obstruction";
  }

  -- A check is a key only where an obstruction was pushed under it.
  abbrev pub ByCheck : Type 0
  ByCheck = List (ReadinessCheck × List (NativeObstruction h t))

  unfoldable pub push_obstruction : ByCheck → ReadinessCheck → NativeObstruction h t → ByCheck
  push_obstruction [] check o = (check, o ∷ []) ∷ []
  push_obstruction ((other, records) ∷ by_check) check o =
      let rest = push_obstruction by_check check o in
      if rank other == rank check
      then (other, records ++ o ∷ []) ∷ by_check
      else if ltb (rank check) (rank other)
      then (check, o ∷ []) ∷ (other, records) ∷ by_check
      else (other, records) ∷ rest

  abbrev pub values : ByCheck → List (NativeObstruction h t)
  values [] = []
  values ((_, records) ∷ by_check) = records ++ values by_check

  -- A loop that pushes an obstruction for every identifier that is not satisfied.
  unfoldable pub push_unsatisfied :
      (h.Ident → Bool)
      → ReadinessCheck
      → (h.Ident → NativeObstruction h t)
      → List h.Ident
      → ByCheck
      → ByCheck
  push_unsatisfied satisfied check make [] by_check = by_check
  push_unsatisfied satisfied check make (id ∷ ids) by_check =
      push_unsatisfied satisfied check make ids
        (if satisfied id then by_check else push_obstruction by_check check (make id))

  abbrev pub dependency_obstruction : CaseCell h → h.Ident → NativeObstruction h t
  dependency_obstruction cell dependency_id =
      obstruction unresolved_dependency cell.id dependency_id "constraint:native-dependency-closure"
        (format (
          t.id_display cell.id
          ∷ " depends on unresolved cell "
          ∷ t.id_display dependency_id
          ∷ "."
          ∷ []))
        t.high "Resolve, accept, or retire the hard dependency before treating this cell as ready."

  abbrev pub wait_obstruction : CaseCell h → h.Ident → NativeObstruction h t
  wait_obstruction cell wait_id =
      obstruction external_wait cell.id wait_id "constraint:native-wait-resolution"
        (format
          (t.id_display cell.id ∷ " waits for unresolved cell " ∷ t.id_display wait_id ∷ "." ∷ []))
        t.medium
        "Record the waited-for event/review/evidence or explicitly waive the wait by accepted review."

  abbrev pub evidence_obstruction : CaseCell h → h.Ident → NativeObstruction h t
  evidence_obstruction cell requirement_id =
      obstruction missing_evidence cell.id requirement_id "constraint:native-evidence-availability"
        (format (
          t.id_display cell.id
          ∷ " requires source-backed or accepted evidence "
          ∷ t.id_display requirement_id
          ∷ ", but none is available."
          ∷ []))
        t.medium
        "Attach source-backed evidence or promote inferred evidence through accepted review."

  abbrev pub proof_obstruction : CaseCell h → h.Ident → NativeObstruction h t
  proof_obstruction cell proof_id =
      obstruction missing_proof cell.id proof_id "constraint:native-proof-availability"
        (format (
          t.id_display cell.id
          ∷ " requires accepted proof "
          ∷ t.id_display proof_id
          ∷ ", but no accepted proof is available."
          ∷ []))
        t.medium "Complete or accept the proof cell, or attach accepted proof evidence."

  abbrev pub contradiction_obstruction : CaseCell h → CaseRelation h → NativeObstruction h t
  contradiction_obstruction cell r =
      obstruction contradiction cell.id r.id "constraint:native-no-hard-contradiction"
        (format (
          t.id_display cell.id
          ∷ " participates in hard contradictory relation "
          ∷ t.id_display r.id
          ∷ "."
          ∷ []))
        t.high "Resolve or review the contradiction before treating this cell as ready."

  abbrev pub review_obstruction : CaseCell h → h.Ident → NativeObstruction h t
  review_obstruction cell review_id =
      obstruction review_required cell.id review_id "constraint:native-review-accepted"
        (format (
          t.id_display cell.id
          ∷ " requires accepted review "
          ∷ t.id_display review_id
          ∷ ", but it is not accepted."
          ∷ []))
        t.medium "Record an accepted review before treating this cell as ready."
