-- ===== src/Eval/Graph/Indexed.antt =====
-- src/native_eval/graph.rs: the index answers as a pass over the relations does.
use casegraphen.Prelude.{
  String, Bool, true, false, ◌&&◌, ◌||◌, List, [], ◌∷◌, ◌++◌, ◌≡◌, refl, any, keep, same-eq, arith,
  str_eq, append_assoc, append-nil, ap, sym, ◌∙◌, if◌then◌else◌,
}
use casegraphen.Host.{Host}
use casegraphen.Model.{CaseRelation, CaseSpace}
use casegraphen.Model.Kinds.{CaseRelationType}
use casegraphen.Resource.Maps.{get, or_default, get-upsert}
use casegraphen.Review.{Terms}
use casegraphen.Eval.Graph.{
  NativeCaseIndex, insert_id, id_set, push_relation, index_relations, from_case_space,
  relations_from, relations_to, direct_targets, is_hard_of, to_ids, is_completing,
}

module _ (h : Host) (t : Terms h) where
  any-insert_id :
      (p : h.Ident → Bool) (id : h.Ident) (ids : List h.Ident)
      → any p (insert_id h t id ids) ≡ (p id || any p ids)
  unfolding insert_id
  any-insert_id p id [] = refl
  any-insert_id p id (other ∷ ids) =
      ground (arith, any-insert_id p id ids, same-eq h.id_discrete other id)

  pub any-id_set : (p : h.Ident → Bool) (ids : List h.Ident) → any p (id_set h t ids) ≡ any p ids
  unfolding id_set
  any-id_set p [] = refl
  any-id_set p (id ∷ ids) =
      any-insert_id p id (id_set h t ids) ∙ ap (λ b. p id || b) (any-id_set p ids)

  abbrev pub starts_at : h.Ident → CaseRelation h → Bool
  starts_at id r = str_eq (t.id_text r.from_id) (t.id_text id)

  abbrev pub ends_at : h.Ident → CaseRelation h → Bool
  ends_at id r = str_eq (t.id_text r.to_id) (t.id_text id)

  pushed :
      (key id : String) (r : CaseRelation h) (m : List (String × List (CaseRelation h)))
      → or_default [] (get id (push_relation h t key r m))
        ≡ or_default [] (get id m) ++ (if str_eq key id then r ∷ [] else [])
  pushed key id r m = ground (
    arith,
    get-upsert key id [] (λ relations. relations ++ r ∷ []) m,
    append-nil (or_default [] (get id m)),
  )

  extended :
      (b : Bool) (r : CaseRelation h) (xs ys zs : List (CaseRelation h))
      → xs ≡ ys ++ (if b then r ∷ [] else [])
      → xs ++ zs ≡ ys ++ (if b then r ∷ zs else zs)
  extended true r xs ys zs e = ap (λ l. l ++ zs) e ∙ append_assoc ys (r ∷ []) zs
  extended false r xs ys zs e = ap (λ l. l ++ zs) (e ∙ append-nil ys)

  indexed_from :
      (relations : List (CaseRelation h)) (index : NativeCaseIndex h t) (id : h.Ident)
      → relations_from h t (index_relations h t relations index) id
        ≡ relations_from h t index id ++ keep (starts_at id) relations
  unfolding index_relations relations_from
  indexed_from [] index id = sym (append-nil _)
  indexed_from (r ∷ relations) index id =
      indexed_from relations _ id
      ∙ extended (starts_at id r) r _ _ (keep (starts_at id) relations)
          (pushed (t.id_text r.from_id) (t.id_text id) r index.relations_by_from)

  indexed_to :
      (relations : List (CaseRelation h)) (index : NativeCaseIndex h t) (id : h.Ident)
      → relations_to h t (index_relations h t relations index) id
        ≡ relations_to h t index id ++ keep (ends_at id) relations
  unfolding index_relations relations_to
  indexed_to [] index id = sym (append-nil _)
  indexed_to (r ∷ relations) index id =
      indexed_to relations _ id
      ∙ extended (ends_at id r) r _ _ (keep (ends_at id) relations)
          (pushed (t.id_text r.to_id) (t.id_text id) r index.relations_by_to)

  indexed_completed :
      (relations : List (CaseRelation h)) (index : NativeCaseIndex h t) (p : h.Ident → Bool)
      → any p (index_relations h t relations index).completed_targets
        ≡ (any p index.completed_targets || any (λ r. is_completing h t r && p r.to_id) relations)
  unfolding index_relations
  indexed_completed [] index p = ground arith
  indexed_completed (r ∷ relations) index p = ground (
    arith,
    indexed_completed relations
        (record index {
          relations_by_from = push_relation h t (t.id_text r.from_id) r index.relations_by_from;
          relations_by_to = push_relation h t (t.id_text r.to_id) r index.relations_by_to;
          completed_targets =
              if is_completing h t r
              then insert_id h t r.to_id index.completed_targets
              else index.completed_targets;
        })
        p,
    any-insert_id p r.to_id index.completed_targets,
  )

  -- What is indexed from a cell is what a pass over the relations finds, in the same order.
  pub relations_from_lem :
      (space : CaseSpace h) (id : h.Ident)
      → relations_from h t (from_case_space h t space) id ≡ keep (starts_at id) space.case_relations
  unfolding from_case_space relations_from
  relations_from_lem space id = indexed_from space.case_relations _ id

  pub relations_to_lem :
      (space : CaseSpace h) (id : h.Ident)
      → relations_to h t (from_case_space h t space) id ≡ keep (ends_at id) space.case_relations
  unfolding from_case_space relations_to
  relations_to_lem space id = indexed_to space.case_relations _ id

  pub completed_targets_lem :
      (space : CaseSpace h) (p : h.Ident → Bool)
      → any p (from_case_space h t space).completed_targets
        ≡ any (λ r. is_completing h t r && p r.to_id) space.case_relations
  unfolding from_case_space
  completed_targets_lem space p = indexed_completed space.case_relations _ p

  any-targets :
      (p : h.Ident → Bool) (type : CaseRelationType) (id : h.Ident)
      (relations : List (CaseRelation h))
      → any p (to_ids h t (keep (is_hard_of h t type) (keep (starts_at id) relations)))
        ≡ any (λ r. starts_at id r && (is_hard_of h t type r && p r.to_id)) relations
  any-targets p type id [] = refl
  any-targets p type id (r ∷ relations) = ground (arith, any-targets p type id relations)

  -- Some direct target passes a test exactly when a hard relation of that type from the cell leads
  -- to one.
  pub direct_targets_lem :
      (space : CaseSpace h) (p : h.Ident → Bool) (type : CaseRelationType) (id : h.Ident)
      → any p (direct_targets h t (from_case_space h t space) id type)
        ≡ any (λ r. starts_at id r && (is_hard_of h t type r && p r.to_id)) space.case_relations
  unfolding direct_targets
  direct_targets_lem space p type id =
      any-id_set p _
      ∙ ap (λ relations. any p (to_ids h t (keep (is_hard_of h t type) relations)))
          (relations_from_lem space id)
      ∙ any-targets p type id space.case_relations
