-- ===== src/Eval/Building/Holders.antt =====
-- src/native_eval.rs, docs/specs/requirement-satisfaction.fsl: a requirement is satisfied where it
-- has holders and is satisfied for each of them.
use casegraphen.Prelude.{
  Bool, true, false, not, ◌&&◌, ◌||◌, List, [], ◌∷◌, ◌++◌, ◌≡◌, refl, any, all, keep, contains,
  unique, same, same-eq, arith, ap, ◌∙◌, String, Result, if◌then◌else◌, map,
}
use casegraphen.Host.{Host}
use casegraphen.Model.{CaseCell, CaseSpace, MorphismPayload}
use casegraphen.Model.Kinds.{CaseRelationType}
use casegraphen.Review.{Terms}
use casegraphen.Eval.Graph.{is_hard_of}
use casegraphen.Eval.Graph.Indexed.{starts_at, direct_targets_lem}
use casegraphen.Eval.Context.{
  NativeEvaluationContext, readiness_subject, requirement_ids, evidence_requirement_satisfied,
  trusted_evidence_exists,
}
use casegraphen.Eval.Building.{
  push_holder, push_holders, holders_by_requirement, satisfied_for_all, satisfied_requirements, new,
  compute_satisfied_requirement_ids,
}

module _ (h : Host) (t : Terms h) where
  abbrev HolderMap : Type 0
  HolderMap = List (h.Ident × List h.Ident)

  abbrev requirements : HolderMap → List h.Ident
  requirements [] = []
  requirements ((r, _) ∷ m) = r ∷ requirements m

  abbrev holders : HolderMap → h.Ident → List h.Ident
  holders [] r = []
  holders ((k, ids) ∷ m) r = if same h.id_discrete k r then ids else holders m r

  module _ (f : h.Ident → Bool) where
    all-snoc : (xs : List h.Ident) (x : h.Ident) → all f (xs ++ x ∷ []) ≡ (all f xs && f x)
    all-snoc [] x = ground arith
    all-snoc (y ∷ xs) x = ground (arith, all-snoc xs x)

    all-push_holder :
        (r x k : h.Ident) (m : HolderMap)
        → all f (holders (push_holder h t r x m) k)
          ≡ (all f (holders m k) && (not (same h.id_discrete r k) || f x))
    unfolding push_holder
    all-push_holder r x k [] = ground arith
    all-push_holder r x k ((j, ids) ∷ m) = ground (arith, all-snoc ids x, all-push_holder r x k m)

    all-push_holders :
        (rs : List h.Ident) (x k : h.Ident) (m : HolderMap)
        → all f (holders (push_holders h t rs x m) k)
          ≡ (all f (holders m k) && (not (contains h.id_discrete rs k) || f x))
    all-push_holders [] x k m = ground arith
    all-push_holders (r ∷ rs) x k m =
        ground (arith, all-push_holders rs x k (push_holder h t r x m), all-push_holder r x k m)

  contains-push_holder :
      (r x k : h.Ident) (m : HolderMap)
      → contains h.id_discrete (requirements (push_holder h t r x m)) k
        ≡ (contains h.id_discrete (requirements m) k || same h.id_discrete r k)
  unfolding push_holder
  contains-push_holder r x k [] = ground arith
  contains-push_holder r x k ((j, ids) ∷ m) = ground (arith, contains-push_holder r x k m)

  contains-push_holders :
      (rs : List h.Ident) (x k : h.Ident) (m : HolderMap)
      → contains h.id_discrete (requirements (push_holders h t rs x m)) k
        ≡ (contains h.id_discrete (requirements m) k || contains h.id_discrete rs k)
  contains-push_holders [] x k m = ground arith
  contains-push_holders (r ∷ rs) x k m =
      ground
        (arith, contains-push_holders rs x k (push_holder h t r x m), contains-push_holder r x k m)

  unique-push_holder :
      (r x : h.Ident) (m : HolderMap)
      → unique h.id_discrete (requirements m) ≡ true
      → unique h.id_discrete (requirements (push_holder h t r x m)) ≡ true
  unfolding push_holder
  unique-push_holder r x [] u = refl
  unique-push_holder r x ((j, ids) ∷ m) u =
      ground (arith, unique-push_holder r x m, contains-push_holder r x j m)

  unique-push_holders :
      (rs : List h.Ident) (x : h.Ident) (m : HolderMap)
      → unique h.id_discrete (requirements m) ≡ true
      → unique h.id_discrete (requirements (push_holders h t rs x m)) ≡ true
  unique-push_holders [] x m u = u
  unique-push_holders (r ∷ rs) x m u =
      unique-push_holders rs x (push_holder h t r x m) (unique-push_holder r x m u)

  module _ (context : NativeEvaluationContext h t) where
    -- The hard evidence requirements of a cell.
    abbrev needs : CaseCell h → h.Ident → Bool
    needs c r =
        contains h.id_discrete (requirement_ids h t context c CaseRelationType.requires_evidence) r

    unique-holders :
        (cells : List (CaseCell h)) (m : HolderMap)
        → unique h.id_discrete (requirements m) ≡ true
        → unique h.id_discrete (requirements (holders_by_requirement h t context cells m)) ≡ true
    unfolding holders_by_requirement
    unique-holders [] m u = u
    unique-holders (c ∷ cells) m u = unique-holders cells _ (
        unique-push_holders (requirement_ids h t context c CaseRelationType.requires_evidence) c.id
          m u)

    contains-holders :
        (r : h.Ident) (cells : List (CaseCell h)) (m : HolderMap)
        → contains h.id_discrete (requirements (holders_by_requirement h t context cells m)) r
          ≡ (contains h.id_discrete (requirements m) r || any (λ c. needs c r) cells)
    unfolding holders_by_requirement
    contains-holders r [] m = ground arith
    contains-holders r (c ∷ cells) m =
        let rs = requirement_ids h t context c CaseRelationType.requires_evidence in
        ground (
          arith,
          contains-holders r cells (push_holders h t rs c.id m),
          contains-push_holders rs c.id r m,
        )

    all-holders :
        (f : h.Ident → Bool) (r : h.Ident) (cells : List (CaseCell h)) (m : HolderMap)
        → all f (holders (holders_by_requirement h t context cells m) r)
          ≡ (all f (holders m r) && all (λ c. not (needs c r) || f c.id) cells)
    unfolding holders_by_requirement
    all-holders f r [] m = ground arith
    all-holders f r (c ∷ cells) m =
        let rs = requirement_ids h t context c CaseRelationType.requires_evidence in
        ground (
          arith,
          all-holders f r cells (push_holders h t rs c.id m),
          all-push_holders f rs c.id r m,
        )

    satisfied-within :
        (m : HolderMap) (r : h.Ident)
        → contains h.id_discrete (requirements m) r ≡ false
        → contains h.id_discrete (satisfied_for_all h t context m) r ≡ false
    unfolding satisfied_for_all
    satisfied-within [] r n = refl
    satisfied-within ((k, ids) ∷ m) r n = ground (arith, satisfied-within m r)

    satisfied-cong :
        (ids : List h.Ident) {k r : h.Ident}
        → k ≡ r
        → all (λ c. evidence_requirement_satisfied h t context c k) ids
          ≡ all (λ c. evidence_requirement_satisfied h t context c r) ids
    satisfied-cong ids e = ap (λ k. all (λ c. evidence_requirement_satisfied h t context c k) ids) e

    contains-satisfied :
        (m : HolderMap) (r : h.Ident)
        → unique h.id_discrete (requirements m) ≡ true
        → contains h.id_discrete (satisfied_for_all h t context m) r ≡ (
            contains h.id_discrete (requirements m) r
            && all (λ c. evidence_requirement_satisfied h t context c r) (holders m r))
    unfolding satisfied_for_all
    contains-satisfied [] r u = refl
    contains-satisfied ((k, ids) ∷ m) r u = ground (
      arith,
      satisfied-within m r,
      satisfied-within m k,
      contains-satisfied m r,
      satisfied-cong ids {k = k} {r = r},
      same-eq h.id_discrete k r,
    )

  contains-any :
      (ids : List h.Ident) (id : h.Ident)
      → contains h.id_discrete ids id ≡ any (λ other. same h.id_discrete other id) ids
  contains-any [] id = refl
  contains-any (other ∷ ids) id = ap (λ b. same h.id_discrete other id || b) (contains-any ids id)

  -- A hard relation requires this evidence for the cell.
  abbrev pub requires : CaseSpace h → h.Ident → CaseCell h → Bool
  requires space r c =
      any
        (λ relation.
          starts_at h t c.id relation
          && (is_hard_of h t CaseRelationType.requires_evidence relation
              && same h.id_discrete relation.to_id r))
        space.case_relations

  module _ (decode : h.Value → Result String (MorphismPayload h)) (space : CaseSpace h) where
    needs-eq :
        (r : h.Ident) (c : CaseCell h) → needs (new h t decode space) c r ≡ requires space r c
    unfolding new requirement_ids
    needs-eq r c =
        contains-any
          (requirement_ids h t (new h t decode space) c CaseRelationType.requires_evidence) r
        ∙ direct_targets_lem h t space (λ other. same h.id_discrete other r)
            CaseRelationType.requires_evidence c.id

    recorded-eq :
        (new h t decode space).satisfied_requirement_ids
        ≡ map t.id_display (satisfied_requirements h t (new h t decode space))
    unfolding new compute_satisfied_requirement_ids satisfied_requirements satisfied_for_all
        holders_by_requirement requirement_ids evidence_requirement_satisfied
        trusted_evidence_exists
    recorded-eq = refl

    -- The satisfied requirements of evidence that an evaluation records are the displayed identifiers
    -- of a list; a requirement is in it exactly where some subject of readiness requires it by a hard
    -- relation and, for every subject that does, trusted evidence stands for it or is recorded as
    -- covering it or that subject.
    pub satisfied_requirement_ids_lem :
        ((new h t decode space).satisfied_requirement_ids
          ≡ map t.id_display (satisfied_requirements h t (new h t decode space)))
        × ((r : h.Ident)
            → contains h.id_discrete (satisfied_requirements h t (new h t decode space)) r ≡ (
                any (requires space r) (keep (readiness_subject h t) space.case_cells)
                && all
                    (λ c.
                      not (requires space r c)
                      || evidence_requirement_satisfied h t (new h t decode space) c.id r)
                    (keep (readiness_subject h t) space.case_cells)))
    unfolding satisfied_requirements new
    satisfied_requirement_ids_lem = (
      recorded-eq,
      λ r.
          let context = new h t decode space in
          let cells = keep (readiness_subject h t) space.case_cells in
          contains-satisfied context (holders_by_requirement h t context cells []) r
            (unique-holders context cells [] refl)
          ∙ (λ i.
              contains-holders context r cells [] i
              && all-holders context (λ c. evidence_requirement_satisfied h t context c r) r cells
                  [] i)
          ∙ (λ i.
              any (λ c. needs-eq r c i) cells
              && all
                  (λ c. not (needs-eq r c i) || evidence_requirement_satisfied h t context c.id r)
                  cells),
    )
