-- ===== src/Eval/Graph.antt =====
-- src/native_eval/graph.rs: the index of a case space's relations by their ends.
pub mod Indexed
use casegraphen.Prelude.{
  String, Bool, true, false, ◌&&◌, Option, List, [], ◌∷◌, ◌++◌, keep, map, same, if◌then◌else◌,
}
use casegraphen.Host.{Host}
use casegraphen.Model.{CaseRelation, CaseSpace}
use casegraphen.Model.Kinds.{
  CaseRelationType, CaseRelationType-discrete, RelationStrength, RelationStrength-discrete,
}
use casegraphen.Resource.Maps.{get, upsert, or_default}
use casegraphen.Review.{Terms}
use casegraphen.Eval.Latest.{latest_evidence_review_statuses}

-- `relation_strength == RelationStrength::Hard`
unfoldable pub is_hard : RelationStrength → Bool
is_hard RelationStrength.hard = true
is_hard _ = false

unfoldable pub is_completion : CaseRelationType → Bool
is_completion CaseRelationType.completes = true
is_completion CaseRelationType.supersedes = true
is_completion _ = false

module _ (h : Host) (t : Terms h) where
  pub record NativeCaseIndex : Type 0 where
    pub relations_by_from : List (String × List (CaseRelation h))
    pub relations_by_to : List (String × List (CaseRelation h))
    pub completed_targets : List h.Ident
    pub latest_evidence_review_statuses : List (String × h.ReviewStatus)

  -- A set of identifiers, in their order: `BTreeSet::insert`.
  unfoldable pub insert_id : h.Ident → List h.Ident → List h.Ident
  insert_id id [] = id ∷ []
  insert_id id (other ∷ ids) =
      let rest = insert_id id ids in
      if same h.id_discrete other id
      then other ∷ ids
      else if t.id_before id other
      then id ∷ other ∷ ids
      else other ∷ rest

  unfoldable pub id_set : List h.Ident → List h.Ident
  id_set [] = []
  id_set (id ∷ ids) = insert_id id (id_set ids)

  -- `entry(key).or_default().push(relation)`
  abbrev pub push_relation :
      String
      → CaseRelation h
      → List (String × List (CaseRelation h))
      → List (String × List (CaseRelation h))
  push_relation key relation = upsert key [] (λ relations. relations ++ relation ∷ [])

  abbrev pub is_completing : CaseRelation h → Bool
  is_completing r = is_hard r.relation_strength && is_completion r.relation_type

  -- The loop over the relations.
  unfoldable pub index_relations : List (CaseRelation h) → NativeCaseIndex → NativeCaseIndex
  index_relations [] index = index
  index_relations (r ∷ relations) index = index_relations relations (record index {
    relations_by_from = push_relation (t.id_text r.from_id) r index.relations_by_from;
    relations_by_to = push_relation (t.id_text r.to_id) r index.relations_by_to;
    completed_targets =
        if is_completing r
        then insert_id r.to_id index.completed_targets
        else index.completed_targets;
  })

  unfoldable pub from_case_space : CaseSpace h → NativeCaseIndex
  from_case_space space = index_relations space.case_relations (record {
    relations_by_from = [];
    relations_by_to = [];
    completed_targets = [];
    latest_evidence_review_statuses = latest_evidence_review_statuses h t space;
  })

  unfoldable pub relations_from : NativeCaseIndex → h.Ident → List (CaseRelation h)
  relations_from index id = or_default [] (get (t.id_text id) index.relations_by_from)

  unfoldable pub relations_to : NativeCaseIndex → h.Ident → List (CaseRelation h)
  relations_to index id = or_default [] (get (t.id_text id) index.relations_by_to)

  abbrev pub is_hard_of : CaseRelationType → CaseRelation h → Bool
  is_hard_of relation_type r =
      is_hard r.relation_strength && same CaseRelationType-discrete r.relation_type relation_type

  abbrev pub to_ids : List (CaseRelation h) → List h.Ident
  to_ids [] = []
  to_ids (r ∷ relations) = r.to_id ∷ to_ids relations

  unfoldable pub direct_targets : NativeCaseIndex → h.Ident → CaseRelationType → List h.Ident
  direct_targets index cell_id relation_type =
      id_set (to_ids (keep (is_hard_of relation_type) (relations_from index cell_id)))
