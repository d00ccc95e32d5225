-- ===== src/Expansion/Spent.antt =====
-- A round whose cost or latency is used up proposes nothing.
use casegraphen.Prelude.{
  ℕ, ◌+◌, ◌%◌, ◌^◌, String, Bool, true, false, ◌||◌, Option, none, some, List, [], ◌∷◌, Result, ok,
  err, ◌≡◌, refl, ◌∙◌, arith, Bool-cases, inl, inr, leb,
}
use casegraphen.Resource.Maps.{set_contains}
use casegraphen.Expansion.{
  ExpansionFinding, Planner, ExpansionCandidate, ExpansionProposal, ExpansionRoundResult,
  ExpansionController,
}
use casegraphen.Expansion.Controller.{
  fingerprint, Verdict, verdict, Round, settle, recorded, with_fingerprint, take_candidates,
  entered, run_round, process_round,
}

module _ (k : Planner)
    (proposal : k.Topology → k.Patch → Result ExpansionFinding (ExpansionProposal k)) where
  -- The candidates leave the totals alone.
  record SameTotals (c d : ExpansionController k) : Type 0 where
    policy : c.policy ≡ d.policy
    total_cost : c.total_cost ≡ d.total_cost
    total_latency_ms : c.total_latency_ms ≡ d.total_latency_ms

  recorded-SameTotals :
      (r : Round k) (o : Option (ExpansionProposal k))
      → SameTotals r.controller (recorded k r o).controller
  recorded-SameTotals r none = record { policy = refl; total_cost = refl; total_latency_ms = refl }
  recorded-SameTotals r (some p) = record {
    policy = refl;
    total_cost = refl;
    total_latency_ms = refl;
  }

  settle-SameTotals :
      (r : Round k) (fp : String) (v : Verdict k)
      → SameTotals r.controller (settle k r fp v).controller
  settle-SameTotals r fp v =
      let s =
        recorded-SameTotals
          (record r { controller = record r.controller { spawned_nodes = v.spawned_nodes } })
          v.proposal in
      record { policy = s.policy; total_cost = s.total_cost; total_latency_ms = s.total_latency_ms }

  with_fingerprint-SameTotals :
      (a b : Bool) (r : Round k) (candidate : ExpansionCandidate k)
      (f : Result ExpansionFinding String)
      → SameTotals r.controller (with_fingerprint k proposal a b r candidate f).controller
  with_fingerprint-SameTotals a b r candidate (err finding) = record {
    policy = refl;
    total_cost = refl;
    total_latency_ms = refl;
  }
  with_fingerprint-SameTotals a b r candidate (ok fp) =
      elim (Bool-cases (set_contains fp r.controller.seen)) [
        | inl old ↦ rw old (record { policy = refl; total_cost = refl; total_latency_ms = refl })
        | inr new ↦ rw new (
            let c = record r.controller { seen = fp ∷ r.controller.seen } in
            let s =
              settle-SameTotals (record r { controller = c; unseen = (r.unseen + 1) % 2 ^ 32 }) fp
                (verdict k proposal a b c candidate) in
            record {
              policy = s.policy;
              total_cost = s.total_cost;
              total_latency_ms = s.total_latency_ms;
            })
      ]

  take_candidates-SameTotals :
      (a b : Bool) (r : Round k) (candidates : List (ExpansionCandidate k))
      → SameTotals r.controller (take_candidates k proposal a b r candidates).controller
  unfolding take_candidates
  take_candidates-SameTotals a b r [] = record {
    policy = refl;
    total_cost = refl;
    total_latency_ms = refl;
  }
  take_candidates-SameTotals a b r (candidate ∷ candidates) =
      let f = fingerprint k r.controller.policy candidate in
      let p = with_fingerprint-SameTotals a b r candidate f in
      let q =
        take_candidates-SameTotals a b (with_fingerprint k proposal a b r candidate f) candidates in
      record {
        policy = p.policy ∙ q.policy;
        total_cost = p.total_cost ∙ q.total_cost;
        total_latency_ms = p.total_latency_ms ∙ q.total_latency_ms;
      }

  -- What a spent round leaves alone.
  abbrev Same : Round k → Round k → Type 0
  Same r r' = (r'.created ≡ r.created) × (r'.controller.spawned_nodes ≡ r.controller.spawned_nodes)

  verdict-spent :
      (a b : Bool) (c : ExpansionController k) (candidate : ExpansionCandidate k)
      → (a || b) ≡ true
      → ((verdict k proposal a b c candidate).proposal ≡ none)
        × ((verdict k proposal a b c candidate).spawned_nodes ≡ c.spawned_nodes)
  unfolding verdict
  verdict-spent true b c candidate e = (refl, refl)
  verdict-spent false true c candidate e = (refl, refl)
  verdict-spent false false c candidate e = cc

  settle-spent :
      (r : Round k) (fp : String) (v : Verdict k)
      → v.proposal ≡ none
      → v.spawned_nodes ≡ r.controller.spawned_nodes
      → Same r (settle k r fp v)
  settle-spent r fp v p s = rw p (refl, s)

  with_fingerprint-spent :
      (a b : Bool) (r : Round k) (candidate : ExpansionCandidate k)
      (f : Result ExpansionFinding String)
      → (a || b) ≡ true
      → Same r (with_fingerprint k proposal a b r candidate f)
  with_fingerprint-spent a b r candidate (err finding) e = (refl, refl)
  with_fingerprint-spent a b r candidate (ok fp) e =
      elim (Bool-cases (set_contains fp r.controller.seen)) [
        | inl old ↦ rw old (refl, refl)
        | inr new ↦ rw new (
            let c = record r.controller { seen = fp ∷ r.controller.seen } in
            let (p, s) = verdict-spent a b c candidate e in
            settle-spent (record r { controller = c; unseen = (r.unseen + 1) % 2 ^ 32 }) fp
              (verdict k proposal a b c candidate) p s)
      ]

  take_candidates-spent :
      (a b : Bool) (r : Round k) (candidates : List (ExpansionCandidate k))
      → (a || b) ≡ true
      → Same r (take_candidates k proposal a b r candidates)
  unfolding take_candidates
  take_candidates-spent a b r [] e = (refl, refl)
  take_candidates-spent a b r (candidate ∷ candidates) e =
      let f = fingerprint k r.controller.policy candidate in
      let (c₁, s₁) = with_fingerprint-spent a b r candidate f e in
      let (c₂, s₂) =
        take_candidates-spent a b (with_fingerprint k proposal a b r candidate f) candidates e in
      (c₂ ∙ c₁, s₂ ∙ s₁)

  -- The totals have reached a limit of the policy.
  abbrev pub is_exhausted : ExpansionController k → Bool
  is_exhausted c =
      k.at_least c.total_cost c.policy.max_cost || leb c.policy.max_latency_ms c.total_latency_ms

  is_exhausted-congr :
      (c d : ExpansionController k) → SameTotals c d → is_exhausted c ≡ is_exhausted d
  is_exhausted-congr c d s = rw (s.policy, s.total_cost, s.total_latency_ms) refl

  run_round-spent :
      (c : ExpansionController k) (candidates : List (ExpansionCandidate k))
      → is_exhausted (run_round k proposal c candidates).0 ≡ true
      → ((run_round k proposal c candidates).1.proposals ≡ [])
        × ((run_round k proposal c candidates).0.spawned_nodes ≡ c.spawned_nodes)
  unfolding run_round
  run_round-spent c candidates e =
      let a = k.at_least c.total_cost c.policy.max_cost in
      let b = leb c.policy.max_latency_ms c.total_latency_ms in
      let r : Round k = record { controller = c; unseen = 0; decisions = []; created = [] } in
      let s = take_candidates-SameTotals a b r candidates in
      take_candidates-spent a b r candidates
        (is_exhausted-congr c (take_candidates k proposal a b r candidates).controller s ∙ e)

-- A round that succeeds and leaves the cost or the latency at the policy's limit emits no proposal
-- and spawns no node.
pub process_round-spent :
    (k : Planner) (proposal : k.Topology → k.Patch → Result ExpansionFinding (ExpansionProposal k))
    (c d : ExpansionController k) (attempt_id : String) (candidates : List (ExpansionCandidate k))
    (cost : k.Cost) (latency : ℕ) (answer : ExpansionRoundResult k)
    → process_round k proposal c attempt_id candidates cost latency ≡ ok (d, answer)
    → is_exhausted k proposal d ≡ true
    → (answer.proposals ≡ []) × (d.spawned_nodes ≡ c.spawned_nodes)
unfolding process_round entered
process_round-spent k proposal c d attempt_id candidates cost latency answer e spent =
    ground (arith, run_round-spent k proposal (entered k proposal c cost latency) candidates)
