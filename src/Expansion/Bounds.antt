-- ===== src/Expansion/Bounds.antt =====
-- The limits of a policy hold over any run of the controller, and every node that is spawned is
-- accounted for by a proposal.
use casegraphen.Prelude.{
  ℕ, ◌+◌, ◌≤◌, ◌^◌, ◌%◌, String, Bool, true, false, Option, none, some, List, [], ◌∷◌, Result, ok,
  err, ◌≡◌, inl, inr, refl, sym, ap, ◌∙◌, subst, arith, Bool-cases, ok-injective, leb,
}
use casegraphen.Resource.Maps.{set_contains, get, upsert}
use casegraphen.Expansion.{
  CandidateDispositionRequest, accept_for_proposal, reject, defer, ExpansionFinding, Planner,
  ExpansionPolicy, ExpansionCandidate, ExpansionProposal, ExpansionRoundResult, ExpansionController,
}
use casegraphen.Expansion.Policy.{new, initial, if_valid, validate_expansion_policy}
use casegraphen.Expansion.Controller.{
  u32_max, added_node_count, begin_attempt, finish_attempt, fingerprint, Verdict, accept, verdict,
  requested, from_proposal, Round, settle, recorded, with_fingerprint, take_candidates, entered,
  run_round, process_round,
}

module _ (k : Planner) where
  -- The nodes of all proposals.
  abbrev pub total : List (String × ExpansionProposal k) → ℕ
  total [] = 0
  total ((id, p) ∷ proposals) = added_node_count p + total proposals

  total-upsert :
      (p : ExpansionProposal k) (id : String) (proposals : List (String × ExpansionProposal k))
      → get id proposals ≡ none
      → total (upsert id p (λ _. p) proposals) ≡ added_node_count p + total proposals
  unfolding upsert
  total-upsert p id [] e = refl
  total-upsert p id ((j, q) ∷ proposals) e = ground (arith, total-upsert p id proposals)

  pub record IsBounded (policy : ExpansionPolicy k) (c : ExpansionController k) : Type 0 where
    pub same_policy : c.policy ≡ policy
    pub iterations : c.iteration ≤ policy.max_iterations
    pub spawned : c.spawned_nodes ≤ policy.max_spawned_nodes
    pub counted : c.spawned_nodes ≡ total c.proposals

  -- What a verdict does to the nodes that are spawned.
  abbrev IsSpent : ExpansionController k → Verdict k → Option (ExpansionProposal k) → Type 0
  IsSpent c v none = v.spawned_nodes ≡ c.spawned_nodes
  IsSpent c v (some p) =
      (get p.proposal_id c.proposals ≡ none)
      × (v.spawned_nodes ≡ added_node_count p + c.spawned_nodes)
      × (v.spawned_nodes ≤ c.policy.max_spawned_nodes)

  accept-IsSpent :
      (c : ExpansionController k) (p : ExpansionProposal k)
      → c.spawned_nodes ≤ c.policy.max_spawned_nodes
      → c.policy.max_spawned_nodes ≤ u32_max
      → IsSpent c (accept k c p) (accept k c p).proposal
  unfolding accept
  accept-IsSpent c p s w = ground arith

  recorded-IsBounded :
      (policy : ExpansionPolicy k) (r : Round k) (v : Verdict k) (o : Option (ExpansionProposal k))
      → IsBounded policy r.controller
      → IsSpent r.controller v o
      → IsBounded policy
          (recorded k
            (record r { controller = record r.controller { spawned_nodes = v.spawned_nodes } })
            o).controller
  recorded-IsBounded policy r v none b spent = record {
    same_policy = b.same_policy;
    iterations = b.iterations;
    spawned = rw spent b.spawned;
    counted = spent ∙ b.counted;
  }
  recorded-IsBounded policy r v (some p) b (new, sum, fits) = record {
    same_policy = b.same_policy;
    iterations = b.iterations;
    spawned =
        subst (λ (q : ExpansionPolicy k). v.spawned_nodes ≤ q.max_spawned_nodes) b.same_policy fits;
    counted =
        sum
        ∙ ap (λ n. added_node_count p + n) b.counted
        ∙ sym (total-upsert p p.proposal_id r.controller.proposals new);
  }

  module _ (proposal : k.Topology → k.Patch → Result ExpansionFinding (ExpansionProposal k)) where
    from_proposal-IsSpent :
        (c : ExpansionController k) (answer : Result ExpansionFinding (ExpansionProposal k))
        → c.spawned_nodes ≤ c.policy.max_spawned_nodes
        → c.policy.max_spawned_nodes ≤ u32_max
        → IsSpent c (from_proposal k proposal c answer) (from_proposal k proposal c answer).proposal
    from_proposal-IsSpent c (err finding) s w = refl
    from_proposal-IsSpent c (ok p) s w = accept-IsSpent c p s w

    requested-IsSpent :
        (c : ExpansionController k) (candidate : ExpansionCandidate k)
        (request : CandidateDispositionRequest)
        → c.spawned_nodes ≤ c.policy.max_spawned_nodes
        → c.policy.max_spawned_nodes ≤ u32_max
        → IsSpent c
            (requested k proposal c candidate request)
            (requested k proposal c candidate request).proposal
    requested-IsSpent c candidate reject s w = refl
    requested-IsSpent c candidate defer s w = refl
    requested-IsSpent c candidate accept_for_proposal s w =
        from_proposal-IsSpent c (proposal c.base_topology candidate.topology_patch) s w

    verdict-IsSpent :
        (cost_exhausted latency_exhausted : Bool) (c : ExpansionController k)
        (candidate : ExpansionCandidate k)
        → c.spawned_nodes ≤ c.policy.max_spawned_nodes
        → c.policy.max_spawned_nodes ≤ u32_max
        → IsSpent c
            (verdict k proposal cost_exhausted latency_exhausted c candidate)
            (verdict k proposal cost_exhausted latency_exhausted c candidate).proposal
    unfolding verdict
    verdict-IsSpent true b c candidate s w = refl
    verdict-IsSpent false true c candidate s w = refl
    verdict-IsSpent false false c candidate s w =
        requested-IsSpent c candidate candidate.requested_disposition s w

    see : ExpansionController k → String → ExpansionController k
    see c fp = record c { seen = fp ∷ c.seen }

    new_candidate-IsBounded :
        (policy : ExpansionPolicy k) (x y : Bool) (r : Round k) (candidate : ExpansionCandidate k)
        (fp : String) (n : ℕ)
        → policy.max_spawned_nodes ≤ u32_max
        → IsBounded policy r.controller
        → IsBounded policy
            (settle k
              (record r { controller = see r.controller fp; unseen = n })
              fp
              (verdict k proposal x y (see r.controller fp) candidate)).controller
    unfolding see
    new_candidate-IsBounded policy x y r candidate fp n w b =
        let c = see r.controller fp in
        let v = verdict k proposal x y c candidate in
        let limits = λ (q : ExpansionPolicy k).
          (r.controller.spawned_nodes ≤ q.max_spawned_nodes) × (q.max_spawned_nodes ≤ u32_max) in
        let (s, w') = subst limits (sym b.same_policy) (b.spawned, w) in
        recorded-IsBounded policy (record r { controller = c; unseen = n }) v v.proposal
          (record {
            same_policy = b.same_policy;
            iterations = b.iterations;
            spawned = b.spawned;
            counted = b.counted;
          })
          (verdict-IsSpent x y c candidate s w')

    with_fingerprint-IsBounded :
        (policy : ExpansionPolicy k) (x y : Bool) (r : Round k) (candidate : ExpansionCandidate k)
        (f : Result ExpansionFinding String)
        → policy.max_spawned_nodes ≤ u32_max
        → IsBounded policy r.controller
        → IsBounded policy (with_fingerprint k proposal x y r candidate f).controller
    unfolding see
    with_fingerprint-IsBounded policy x y r candidate (err finding) w b = b
    with_fingerprint-IsBounded policy x y r candidate (ok fp) w b =
        elim (Bool-cases (set_contains fp r.controller.seen)) [
          | inl old ↦ rw old b
          | inr new ↦
              rw new
                (new_candidate-IsBounded policy x y r candidate fp ((r.unseen + 1) % 2 ^ 32) w b)
        ]

    take_candidates-IsBounded :
        (policy : ExpansionPolicy k) (x y : Bool) (r : Round k)
        (candidates : List (ExpansionCandidate k))
        → policy.max_spawned_nodes ≤ u32_max
        → IsBounded policy r.controller
        → IsBounded policy (take_candidates k proposal x y r candidates).controller
    unfolding take_candidates
    take_candidates-IsBounded policy x y r [] w b = b
    take_candidates-IsBounded policy x y r (candidate ∷ candidates) w b =
        let f = fingerprint k r.controller.policy candidate in
        take_candidates-IsBounded policy x y (with_fingerprint k proposal x y r candidate f)
          candidates w (with_fingerprint-IsBounded policy x y r candidate f w b)

    run_round-IsBounded :
        (policy : ExpansionPolicy k) (c : ExpansionController k)
        (candidates : List (ExpansionCandidate k))
        → policy.max_spawned_nodes ≤ u32_max
        → IsBounded policy c
        → IsBounded policy (run_round k proposal c candidates).0
    unfolding run_round
    run_round-IsBounded policy c candidates w b =
        let r =
          take_candidates-IsBounded policy _ _
            (record { controller = c; unseen = 0; decisions = []; created = [] }) candidates w b in
        record {
          same_policy = r.same_policy;
          iterations = r.iterations;
          spawned = r.spawned;
          counted = r.counted;
        }

    entered-IsBounded :
        (policy : ExpansionPolicy k) (c : ExpansionController k) (cost : k.Cost) (latency : ℕ)
        → leb c.policy.max_iterations c.iteration ≡ false
        → IsBounded policy c
        → IsBounded policy (entered k proposal c cost latency)
    unfolding entered
    entered-IsBounded policy c cost latency under b =
        let below =
          subst (λ (q : ExpansionPolicy k). leb q.max_iterations c.iteration ≡ false) b.same_policy
            under in
        record {
          same_policy = b.same_policy;
          iterations = ground (arith, below);
          spawned = b.spawned;
          counted = b.counted;
        }

    process_round-IsBounded :
        (policy : ExpansionPolicy k) (c d : ExpansionController k) (attempt_id : String)
        (candidates : List (ExpansionCandidate k)) (cost : k.Cost) (latency : ℕ)
        (answer : ExpansionRoundResult k)
        → policy.max_spawned_nodes ≤ u32_max
        → IsBounded policy c
        → process_round k proposal c attempt_id candidates cost latency ≡ ok (d, answer)
        → IsBounded policy d
    unfolding process_round
    process_round-IsBounded policy c d attempt_id candidates cost latency answer w b e =
        let rounds = run_round-IsBounded policy (entered k proposal c cost latency) candidates w in
        ground (arith, entered-IsBounded policy c cost latency, rounds)

    -- One call of the controller that succeeds.
    pub data Call (c : ExpansionController k) : ExpansionController k → Type 0 where
      begin :
          {d : ExpansionController k} (attempt_id : String) (topology : k.Topology)
          → begin_attempt k c attempt_id topology ≡ ok d
          → Call c d
      finish :
          {d : ExpansionController k} (attempt_id : String)
          → finish_attempt k c attempt_id ≡ ok d
          → Call c d
      round :
          {d : ExpansionController k} (attempt_id : String)
          (candidates : List (ExpansionCandidate k)) (cost : k.Cost) (latency : ℕ)
          (answer : ExpansionRoundResult k)
          → process_round k proposal c attempt_id candidates cost latency ≡ ok (d, answer)
          → Call c d

    pub data Calls (c : ExpansionController k) : ExpansionController k → Type 0 where
      untouched : Calls c c
      called : {d e : ExpansionController k} → Calls c d → Call d e → Calls c e

    attempt-IsBounded :
        (policy : ExpansionPolicy k) (c : ExpansionController k) (attempt : Option String)
        → IsBounded policy c
        → IsBounded policy (record c { active_attempt = attempt })
    attempt-IsBounded policy c attempt b = record {
      same_policy = b.same_policy;
      iterations = b.iterations;
      spawned = b.spawned;
      counted = b.counted;
    }

    begin_attempt-IsBounded :
        (policy : ExpansionPolicy k) (c d : ExpansionController k) (attempt_id : String)
        (topology : k.Topology)
        → IsBounded policy c
        → begin_attempt k c attempt_id topology ≡ ok d
        → IsBounded policy d
    unfolding begin_attempt
    begin_attempt-IsBounded policy c d attempt_id topology b e =
        ground (arith, attempt-IsBounded policy c (some attempt_id) b)

    finish_attempt-IsBounded :
        (policy : ExpansionPolicy k) (c d : ExpansionController k) (attempt_id : String)
        → IsBounded policy c
        → finish_attempt k c attempt_id ≡ ok d
        → IsBounded policy d
    unfolding finish_attempt
    finish_attempt-IsBounded policy c d attempt_id b e =
        ground (arith, attempt-IsBounded policy c none b)

    Calls-IsBounded :
        (policy : ExpansionPolicy k) (c d : ExpansionController k)
        → policy.max_spawned_nodes ≤ u32_max
        → IsBounded policy c
        → Calls c d
        → IsBounded policy d
    Calls-IsBounded policy c _ w b untouched = b
    Calls-IsBounded policy c _ w b (called {d} {e} before (begin attempt_id topology p)) =
        begin_attempt-IsBounded policy d e attempt_id topology
          (Calls-IsBounded policy c d w b before) p
    Calls-IsBounded policy c _ w b (called {d} {e} before (finish attempt_id p)) =
        finish_attempt-IsBounded policy d e attempt_id (Calls-IsBounded policy c d w b before) p
    Calls-IsBounded policy c _ w b
          (called {d} {e} before (round attempt_id candidates cost latency answer p)) =
        process_round-IsBounded policy d e attempt_id candidates cost latency answer w
          (Calls-IsBounded policy c d w b before) p

  new-IsBounded :
      (policy : ExpansionPolicy k) (topology : k.Topology) (c : ExpansionController k)
      → new k policy topology ≡ ok c
      → IsBounded policy c
  unfolding new
  new-IsBounded policy topology c e = valid (validate_expansion_policy k policy) e
    where
      valid :
          (findings : List ExpansionFinding)
          → if_valid k findings (initial k policy topology) ≡ ok c
          → IsBounded policy c
      valid [] p = subst (IsBounded policy) (ok-injective p) (record {
        same_policy = refl;
        iterations = omega arith;
        spawned = omega arith;
        counted = refl;
      })
      valid (f ∷ fs) p = cc

-- From a new controller, any calls of it, in any order, leave its policy alone and its rounds and
-- its spawned nodes within the policy's limits, and its count of spawned nodes is the sum of what the
-- proposals that it keeps add, each as a u32. The limit on nodes is a u32.
pub expansion-IsBounded :
    (k : Planner) (proposal : k.Topology → k.Patch → Result ExpansionFinding (ExpansionProposal k))
    (policy : ExpansionPolicy k) (topology : k.Topology) (c d : ExpansionController k)
    → policy.max_spawned_nodes ≤ u32_max
    → new k policy topology ≡ ok c
    → Calls k proposal c d
    → IsBounded k policy d
expansion-IsBounded k proposal policy topology c d w e calls =
    Calls-IsBounded k proposal policy c d w (new-IsBounded k policy topology c e) calls
