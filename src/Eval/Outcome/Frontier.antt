-- ===== src/Eval/Outcome/Frontier.antt =====
-- src/native_eval.rs: the frontier, by the relations, where no two cells have the same text as
-- identifier.
use casegraphen.Prelude.{
  String, Bool, true, false, not, ◌&&◌, ◌||◌, some, List, [], ◌∷◌, ◌≡◌, refl, Result, any, keep,
  contains, unique, same, same_self, String-discrete, eq_iff, All, arith, ap, ◌∙◌,
}
use casegraphen.Host.{Host}
use casegraphen.Model.{CaseCell, CaseSpace, MorphismPayload}
use casegraphen.Resource.Maps.{get, upsert, get-upsert}
use casegraphen.Review.{Terms}
use casegraphen.Eval.Graph.{from_case_space, is_completing}
use casegraphen.Eval.Graph.Indexed.{completed_targets_lem}
use casegraphen.Eval.Context.{readiness_subject, is_settled}
use casegraphen.Eval.Building.{new, collect_cells}
use casegraphen.Eval.Outcome.{cell_ids, is_open_cell, frontier_cell_ids}
use casegraphen.Eval.Outcome.Spec.{is_obstructed}
use casegraphen.Eval.Outcome.Readiness.{any_kind}
use casegraphen.Eval.Outcome.Classified.{readiness, subjects, readiness_result-ready}

module _ (h : Host) (t : Terms h) where
  abbrev pub texts : List (CaseCell h) → List String
  texts [] = []
  texts (c ∷ cells) = t.id_text c.id ∷ texts cells

  abbrev IsFoundIn : List (String × CaseCell h) → CaseCell h → Type 0
  IsFoundIn m c = get (t.id_text c.id) m ≡ some c

  get-collect_cells :
      (k : String) (cells : List (CaseCell h)) (m : List (String × CaseCell h))
      → contains String-discrete (texts cells) k ≡ false
      → get k (collect_cells h t cells m) ≡ get k m
  unfolding collect_cells String-discrete
  get-collect_cells k [] m n = refl
  get-collect_cells k (c ∷ cells) m n = ground (
    arith,
    get-collect_cells k cells (upsert (t.id_text c.id) c (λ _. c) m),
    get-upsert (t.id_text c.id) k c (λ _. c) m,
    eq_iff (t.id_text c.id) k,
  )

  collect_cells-finds :
      (cells : List (CaseCell h)) (m : List (String × CaseCell h))
      → unique String-discrete (texts cells) ≡ true
      → All (IsFoundIn (collect_cells h t cells m)) cells
  unfolding collect_cells
  collect_cells-finds [] m u = tt
  collect_cells-finds (c ∷ cells) m u =
      let m' = upsert (t.id_text c.id) c (λ _. c) m in
      (
        ground (
          arith,
          get-collect_cells (t.id_text c.id) cells m',
          get-upsert (t.id_text c.id) (t.id_text c.id) c (λ _. c) m,
          eq_iff (t.id_text c.id) (t.id_text c.id),
        ),
        collect_cells-finds cells m' (ground arith),
      )

  contains-any :
      (ids : List h.Ident) (id : h.Ident)
      → contains h.id_discrete ids id ≡ any (λ other. same h.id_discrete other id) ids
  contains-any [] id = refl
  contains-any (other ∷ ids) id = ap (λ b. same h.id_discrete other id || b) (contains-any ids id)

  -- The filters of the frontier, where every cell is found under its own identifier.
  opened :
      (m : List (String × CaseCell h)) (targets : List h.Ident)
      (subject free closed : CaseCell h → Bool)
      → ((c : CaseCell h) → contains h.id_discrete targets c.id ≡ closed c)
      → ((c : CaseCell h) → subject c ≡ true → is_settled c.lifecycle ≡ false)
      → (cells : List (CaseCell h)) → All (IsFoundIn m) cells
      → keep
          (λ id. is_open_cell h t id (get (t.id_text id) m))
          (keep
            (λ id. not (contains h.id_discrete targets id))
            (cell_ids h t (keep (λ c. subject c && free c) cells)))
        ≡ cell_ids h t (keep (λ c. subject c && (free c && not (closed c))) cells)
  opened m targets subject free closed e k [] found = refl
  opened m targets subject free closed e k (c ∷ cells) found = ground (
    arith,
    e c,
    k c,
    found.0,
    same_self h.id_discrete c.id,
    opened m targets subject free closed e k cells found.1,
  )

  subject-open : (c : CaseCell h) → readiness_subject h t c ≡ true → is_settled c.lifecycle ≡ false
  unfolding readiness_subject
  subject-open c e = ground arith

  module _ (decode : h.Value → Result String (MorphismPayload h)) (space : CaseSpace h) where
    -- A hard relation completes or supersedes the cell.
    abbrev pub is_completed : CaseCell h → Bool
    is_completed c =
        any (λ r. is_completing h t r && same h.id_discrete r.to_id c.id) space.case_relations

    -- Where no two cells share the text of an identifier, the frontier is exactly the subjects of
    -- readiness that no relation obstructs and that no hard relation completes or supersedes, in the
    -- order of the case space.
    pub frontier_cell_ids_lem :
        unique String-discrete (texts space.case_cells) ≡ true
        → frontier_cell_ids h t (readiness h t decode space) (new h t decode space)
          ≡ cell_ids h t (
              subjects h t decode space (λ c.
                not (is_obstructed h t (new h t decode space) any_kind c) && not (is_completed c)))
    unfolding frontier_cell_ids new
    frontier_cell_ids_lem u =
        ap
          (λ ids.
            keep (λ id. is_open_cell h t id (get (t.id_text id) (new h t decode space).cells))
              (keep
                (λ id.
                  not (contains h.id_discrete (new h t decode space).index.completed_targets id))
                ids))
          (readiness_result-ready h t decode space).0
        ∙ opened (new h t decode space).cells (new h t decode space).index.completed_targets
            (readiness_subject h t) (λ c. not (is_obstructed h t (new h t decode space) any_kind c))
            is_completed
            (λ c.
              contains-any (from_case_space h t space).completed_targets c.id
              ∙ completed_targets_lem h t space (λ other. same h.id_discrete other c.id))
            subject-open space.case_cells (collect_cells-finds space.case_cells [] u)
