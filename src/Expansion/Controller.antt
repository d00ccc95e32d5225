-- ===== src/Expansion/Controller.antt =====
-- src/dynamic_expansion.rs: `ExpansionController`, one function for each part of `process_round`.
-- `proposal` is the code's function of that name, from the base topology and a patch.
use Prim.Native.String.{◌++◌ as join}
use casegraphen.Prelude.{
  ℕ, ◌+◌, ◌-◌, ◌^◌, ◌%◌, String, Bool, true, false, not, ◌&&◌, Option, none, some, List, [], ◌∷◌,
  ◌++◌, Result, ok, err, require, ◌>>=◌, ◌>>◌, if◌then◌else◌, leb, ltb, ◌==◌, str_eq, length,
}
use casegraphen.Resource.Maps.{set_contains, get, upsert}
use casegraphen.Expansion.{
  CandidateDispositionRequest, accept_for_proposal, reject, defer, CandidateDisposition,
  accepted_for_proposal, rejected, duplicate, deferred, ExpansionHalt, ExpansionFinding, Planner,
  ExpansionPolicy, ExpansionCandidate, ExpansionProposal, CandidateDecision, ExpansionRoundResult,
  ExpansionController,
}

abbrev pub u32_max : ℕ
u32_max = 2 ^ 32 - 1

abbrev pub u64_max : ℕ
u64_max = 2 ^ 64 - 1

-- `saturating_add` of a width, and the `try_from` of a length with its fallback
abbrev pub capped : ℕ → ℕ → ℕ
capped bound n = if leb n bound then n else bound

unfoldable pub one : String → String → ExpansionFinding
one code detail = record { code = code; detail = detail }

abbrev is_blank_text : String → Bool
is_blank_text s = str_eq s ""

-- The nodes that a proposal counts for.
unfoldable pub added_node_count : {k : Planner} → ExpansionProposal k → ℕ
added_node_count p = capped u32_max (length p.topology_diff.added_node_ids)

module _ (k : Planner) where
  -- `active_attempt.as_deref() == Some(attempt_id)`
  abbrev pub is_active : ExpansionController k → String → Bool
  is_active c attempt_id = elim c.active_attempt [
    | none ↦ false
    | some active ↦ str_eq active attempt_id
  ]

  abbrev is_other : Option String → String → Bool
  is_other none attempt_id = false
  is_other (some active) attempt_id = not (str_eq active attempt_id)

  abbrev attempt_text : Option String → String
  attempt_text none = ""
  attempt_text (some active) = active

  unfoldable pub begin_attempt :
      ExpansionController k → String → k.Topology → Result ExpansionFinding (ExpansionController k)
  begin_attempt c attempt_id topology = do
    require (str_eq (k.content_hash topology) c.base_topology_hash)
        (one "topology_hash_switch" "an expansion attempt cannot switch topology content hash")
    require (not (is_other c.active_attempt attempt_id)) (
        one "attempt_in_progress"
          (join "attempt " (join (attempt_text c.active_attempt) " is still active")))
    require (not (k.is_blank attempt_id)) (one "empty_attempt_id" "attempt_id must not be empty")
    ok (record c { active_attempt = some attempt_id })

  unfoldable pub finish_attempt :
      ExpansionController k → String → Result ExpansionFinding (ExpansionController k)
  finish_attempt c attempt_id = do
    require (is_active c attempt_id) (one "attempt_mismatch" "only the active attempt may finish")
    ok (record c { active_attempt = none })

  -- The loop of `fingerprint` over the policy's keys.
  unfoldable pub selected :
      List String → List (String × String) → Result ExpansionFinding (List (String × String))
  selected [] values = ok []
  selected (key ∷ keys) values = elim (get key values) [
    | none ↦ err (one "missing_dedupe_value" (join "candidate lacks dedupe field " key))
    | some value ↦ do
      require (not (is_blank_text value))
          (one "missing_dedupe_value" (join "candidate lacks dedupe field " key))
      rest ← selected keys values
      ok (upsert key value (λ old. old) rest)
  ]

  unfoldable pub fingerprint :
      ExpansionPolicy k → ExpansionCandidate k → Result ExpansionFinding String
  fingerprint policy candidate = do
    require (str_eq candidate.candidate_schema_id policy.candidate_schema_id)
        (one "candidate_schema_mismatch" "candidate schema does not match policy")
    values ← selected policy.dedupe_key candidate.dedupe_values
    ok (join "sha256:" (k.digest values))

  -- What becomes of a candidate that is new, with the nodes spawned after it.
  pub record Verdict : Type 0 where
    pub disposition : CandidateDisposition
    pub proposal : Option (ExpansionProposal k)
    pub finding : Option ExpansionFinding
    pub spawned_nodes : ℕ

  abbrev turned_down :
      ExpansionController k → CandidateDisposition → Option ExpansionFinding → Verdict
  turned_down c disposition finding = record {
    disposition = disposition;
    proposal = none;
    finding = finding;
    spawned_nodes = c.spawned_nodes;
  }

  abbrev pub is_known : String → List (String × ExpansionProposal k) → Bool
  is_known id proposals = elim (get id proposals) [ none ↦ false | some _ ↦ true ]

  unfoldable pub accept : ExpansionController k → ExpansionProposal k → Verdict
  unfolding one added_node_count
  accept c p =
      let remaining = c.policy.max_spawned_nodes - c.spawned_nodes in
      if ltb remaining (added_node_count p)
      then turned_down c deferred (
          some (
            one "max_spawned_nodes_reached" (
              join "patch adds " (
                join (k.decimal (added_node_count p))
                  (join " nodes but only " (join (k.decimal remaining) " remain"))))))
      else if is_known p.proposal_id c.proposals
      then turned_down c duplicate
          (some (one "duplicate_proposal" "canonical patch was already proposed against this base"))
      else record {
        disposition = accepted_for_proposal;
        proposal = some p;
        finding = none;
        spawned_nodes = capped u32_max (c.spawned_nodes + added_node_count p);
      }

  -- The candidates that are left, what was decided and created, and how many were new.
  pub record Round : Type 0 where
    pub controller : ExpansionController k
    pub unseen : ℕ
    pub decisions : List (CandidateDecision k)
    pub created : List (ExpansionProposal k)

  abbrev decided : Round → CandidateDecision k → Round
  decided r d = record r { decisions = r.decisions ++ d ∷ [] }

  abbrev id_of : Option (ExpansionProposal k) → Option String
  id_of none = none
  id_of (some p) = some p.proposal_id

  -- `self.proposals.insert(..)` and `created.push(..)`
  abbrev pub recorded : Round → Option (ExpansionProposal k) → Round
  recorded r none = r
  recorded r (some p) = record r {
    controller = record r.controller {
      proposals = upsert p.proposal_id p (λ _. p) r.controller.proposals;
    };
    created = r.created ++ p ∷ [];
  }

  abbrev pub settle : Round → String → Verdict → Round
  settle r fp v =
      let kept =
        recorded (record r { controller = record r.controller { spawned_nodes = v.spawned_nodes } })
          v.proposal in
      decided kept (record {
        dedupe_fingerprint = fp;
        disposition = v.disposition;
        finding = v.finding;
        proposal_id = id_of v.proposal;
      })

  module _ (proposal : k.Topology → k.Patch → Result ExpansionFinding (ExpansionProposal k)) where
    abbrev pub from_proposal :
        ExpansionController k → Result ExpansionFinding (ExpansionProposal k) → Verdict
    from_proposal c (err finding) = turned_down c rejected (some finding)
    from_proposal c (ok p) = accept c p

    abbrev pub requested :
        ExpansionController k → ExpansionCandidate k → CandidateDispositionRequest → Verdict
    requested c candidate reject = turned_down c rejected none
    requested c candidate defer = turned_down c deferred none
    requested c candidate accept_for_proposal =
        from_proposal c (proposal c.base_topology candidate.topology_patch)

    -- The `match` on the requested disposition, unless the round is exhausted.
    unfoldable pub verdict : Bool → Bool → ExpansionController k → ExpansionCandidate k → Verdict
    verdict cost_exhausted latency_exhausted c candidate =
        if cost_exhausted
        then turned_down c deferred (some (one "max_cost_reached" "round reached max_cost"))
        else if latency_exhausted
        then turned_down c deferred
            (some (one "max_latency_reached" "round reached max_latency_ms"))
        else requested c candidate candidate.requested_disposition

    -- The body of the loop over the candidates.
    abbrev pub with_fingerprint :
        Bool → Bool → Round → ExpansionCandidate k → Result ExpansionFinding String → Round
    with_fingerprint cost_exhausted latency_exhausted r candidate (err finding) =
        decided r (record {
          dedupe_fingerprint = "";
          disposition = rejected;
          finding = some finding;
          proposal_id = none;
        })
    with_fingerprint cost_exhausted latency_exhausted r candidate (ok fp) =
        if set_contains fp r.controller.seen
        then decided r (record {
          dedupe_fingerprint = fp;
          disposition = duplicate;
          finding = none;
          proposal_id = none;
        })
        else (let c = record r.controller { seen = fp ∷ r.controller.seen } in
            settle (record r { controller = c; unseen = (r.unseen + 1) % 2 ^ 32 }) fp
              (verdict cost_exhausted latency_exhausted c candidate))

    unfoldable pub take_candidates : Bool → Bool → Round → List (ExpansionCandidate k) → Round
    take_candidates cost_exhausted latency_exhausted r [] = r
    take_candidates cost_exhausted latency_exhausted r (candidate ∷ candidates) =
        take_candidates cost_exhausted latency_exhausted
          (with_fingerprint cost_exhausted latency_exhausted r candidate
            (fingerprint r.controller.policy candidate))
          candidates

    abbrev result :
        ExpansionController k
        → ExpansionHalt
        → List ExpansionFinding
        → List (CandidateDecision k)
        → List (ExpansionProposal k)
        → ExpansionRoundResult k
    result c halt findings decisions proposals = record {
      iteration = c.iteration;
      dry_rounds = c.dry_rounds;
      total_cost = c.total_cost;
      total_latency_ms = c.total_latency_ms;
      spawned_nodes = c.spawned_nodes;
      halt = halt;
      findings = findings;
      decisions = decisions;
      proposals = proposals;
    }

    abbrev is_empty : List (ExpansionProposal k) → Bool
    is_empty [] = true
    is_empty (_ ∷ _) = false

    unfoldable pub halt_of :
        Bool → Bool → ExpansionController k → List (ExpansionProposal k) → ExpansionHalt
    halt_of cost_exhausted latency_exhausted c created =
        if cost_exhausted
        then ExpansionHalt.max_cost
        else if latency_exhausted
        then ExpansionHalt.max_latency
        else if leb c.policy.max_spawned_nodes c.spawned_nodes
        then ExpansionHalt.max_spawned_nodes
        else if leb c.policy.max_iterations c.iteration
        then ExpansionHalt.max_iterations
        else if leb c.policy.dry_rounds_required c.dry_rounds
        then ExpansionHalt.dry
        else if is_empty created
        then ExpansionHalt.continue
        else ExpansionHalt.needs_review

    unfoldable pub halt_findings : ExpansionHalt → List ExpansionFinding
    halt_findings ExpansionHalt.max_cost =
        one "max_cost_reached" "max_cost prevents further expansion" ∷ []
    halt_findings ExpansionHalt.max_latency =
        one "max_latency_reached" "max_latency_ms prevents further expansion" ∷ []
    halt_findings ExpansionHalt.max_spawned_nodes =
        one "max_spawned_nodes_reached" "max_spawned_nodes prevents further expansion" ∷ []
    halt_findings ExpansionHalt.max_iterations =
        one "max_iterations_reached" "max_iterations prevents further expansion" ∷ []
    halt_findings ExpansionHalt.dry =
        one "dry_round_limit_reached" "consecutive dry rounds reached the termination limit" ∷ []
    halt_findings ExpansionHalt.continue = []
    halt_findings ExpansionHalt.needs_review = []

    -- The totals of a round that is begun.
    unfoldable pub entered : ExpansionController k → k.Cost → ℕ → ExpansionController k
    entered c cost latency = record c {
      iteration = c.iteration + 1;
      total_cost = k.add_cost c.total_cost cost;
      total_latency_ms = capped u64_max (c.total_latency_ms + latency);
    }

    unfoldable pub run_round :
        ExpansionController k
        → List (ExpansionCandidate k)
        → ExpansionController k × ExpansionRoundResult k
    run_round c candidates =
        let cost_exhausted = k.at_least c.total_cost c.policy.max_cost in
        let latency_exhausted = leb c.policy.max_latency_ms c.total_latency_ms in
        let r =
          take_candidates cost_exhausted latency_exhausted
            (record { controller = c; unseen = 0; decisions = []; created = [] }) candidates in
        let d = record r.controller {
          dry_rounds = if r.unseen == 0 then (r.controller.dry_rounds + 1) % 2 ^ 32 else 0;
        } in
        let halt = halt_of cost_exhausted latency_exhausted d r.created in
        (d, result d halt (halt_findings halt) r.decisions r.created)

    unfoldable pub process_round :
        ExpansionController k
        → String
        → List (ExpansionCandidate k)
        → k.Cost
        → ℕ
        → Result ExpansionFinding (ExpansionController k × ExpansionRoundResult k)
    process_round c attempt_id candidates cost latency = do
      require (is_active c attempt_id)
          (one "attempt_mismatch" "round must belong to the active attempt")
      (if leb c.policy.max_iterations c.iteration
          then ok (
            c,
            result c ExpansionHalt.max_iterations
                (one "max_iterations_reached" "max_iterations prevents another round" ∷ []) [] [],
          )
          else (do
            require (k.is_finite cost && not (k.is_negative cost)) (
                one "invalid_accounted_round_cost"
                  "accounted_round_cost must be finite and non-negative")
            ok (run_round (entered c cost latency) candidates)))
