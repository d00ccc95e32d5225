-- ===== src/Store/Append/Regated.antt =====
-- src/native_store.rs, src/native_review.rs: the gate of an entry, after another entry was appended.
use casegraphen.Prelude.{
  String, Bool, true, false, ◌&&◌, Option, none, some, List, [], ◌∷◌, ◌++◌, ◌≡◌, refl, Result, ok,
  err, all, any, keep, find, unique, contains-append, same-eq, arith, ap, sym, ◌∙◌,
}
use casegraphen.Host.{Host}
use casegraphen.Model.{CaseCell, CaseMorphism, MorphismLogEntry, CaseSpace}
use casegraphen.Reducer.Guards.{is_capability_cell}
use casegraphen.Reducer.Ids.{cell_ids, relation_ids, has, materialized_ids}
use casegraphen.Reducer.Apply.{apply_morphism}
use casegraphen.Review.{NativeOperationGate, Terms}
use casegraphen.Review.Gate.{
  cell_is_named, declared_source_boundary_id, is_declared, check_operation_gate,
}
use casegraphen.Review.Gate.Authorized.{
  is_authority, is_some_authority, names_authority, check_operation_gate_iff,
}
use casegraphen.Store.Operation.{gate_passed, gate_found, require_valid_operation_gate}
use casegraphen.Store.Append.{Services, recorded, append_morphism_with_authority}
use casegraphen.Store.Append.Loadable.{
  IsLoadable, append-eq-ok, append-IsLoadable, bounded-apply, append-case_space_id,
}
use casegraphen.Store.Append.Authority.{capabilities, append-capabilities}

module _ (h : Host) (t : Terms h) where
  unnamed :
      (actor_id id : h.Ident) (operation : String) (cells : List (CaseCell h))
      → has h (cell_ids h cells) id ≡ false
      → any
          (λ cell. cell_is_named h id cell && is_authority h t actor_id operation cell)
          (keep (is_capability_cell h) cells)
        ≡ false
  unnamed actor_id id operation [] n = refl
  unnamed actor_id id operation (cell ∷ cells) n =
      ground (arith, unnamed actor_id id operation cells)

  -- Where identifiers are unique, an identifier names an authority exactly where the capabilities
  -- have one of that name.
  among_capabilities :
      (actor_id id : h.Ident) (operation : String) (cells : List (CaseCell h))
      → unique h.id_discrete (cell_ids h cells) ≡ true
      → is_some_authority h t actor_id operation (find (cell_is_named h id) cells)
        ≡ any
            (λ cell. cell_is_named h id cell && is_authority h t actor_id operation cell)
            (keep (is_capability_cell h) cells)
  among_capabilities actor_id id operation [] u = refl
  among_capabilities actor_id id operation (cell ∷ cells) u = ground (
    arith,
    among_capabilities actor_id id operation cells,
    unnamed actor_id id operation cells,
    same-eq h.id_discrete cell.id id,
  )

  unique-left :
      (xs ys : List h.Ident)
      → unique h.id_discrete (xs ++ ys) ≡ true
      → unique h.id_discrete xs ≡ true
  unique-left [] ys u = refl
  unique-left (x ∷ xs) ys u =
      ground (arith, unique-left xs ys, contains-append h.id_discrete xs ys x)

  module _ (before after : CaseSpace h)
      (before_unique : unique h.id_discrete (cell_ids h before.case_cells) ≡ true)
      (after_unique : unique h.id_discrete (cell_ids h after.case_cells) ≡ true)
      (frozen : capabilities h t after ≡ capabilities h t before) where
    names_authority-eq :
        (actor_id id : h.Ident) (operation : String)
        → names_authority h t after actor_id operation id
          ≡ names_authority h t before actor_id operation id
    names_authority-eq actor_id id operation =
        among_capabilities actor_id id operation after.case_cells after_unique
        ∙ ap
            (λ cells.
              any (λ cell. cell_is_named h id cell && is_authority h t actor_id operation cell)
                cells)
            frozen
        ∙ sym (among_capabilities actor_id id operation before.case_cells before_unique)

    all-authority :
        (actor_id : h.Ident) (operation : String) (ids : List h.Ident)
        → all (names_authority h t after actor_id operation) ids
          ≡ all (names_authority h t before actor_id operation) ids
    all-authority actor_id operation [] = refl
    all-authority actor_id operation (id ∷ ids) =
        ground
          (arith, names_authority-eq actor_id id operation, all-authority actor_id operation ids)

    module _ (same_scope : after.case_space_id ≡ before.case_space_id)
        (same_boundary : declared_source_boundary_id h t after
          ≡ declared_source_boundary_id h t before) where
      checked_again :
          (gate : NativeOperationGate h) (operation : String)
          → check_operation_gate h t before gate operation ≡ ok tt
          → check_operation_gate h t after gate operation ≡ ok tt
      checked_again gate operation e =
          let (a, scope, b, c, authorities, boundary) =
            (check_operation_gate_iff h t before gate operation).0 e in
          (check_operation_gate_iff h t after gate operation).1 (
            a,
            scope ∙ sym same_scope,
            b,
            c,
            all-authority gate.actor_id operation gate.capability_ids ∙ authorities,
            ap (λ declared. is_declared h t declared gate.source_boundary_id) same_boundary
                ∙ boundary,
          )

      passed_again :
          (entry : MorphismLogEntry h) (r : Result String (NativeOperationGate h))
          → gate_passed h t before entry r ≡ ok tt
          → gate_passed h t after entry r ≡ ok tt
      passed_again entry (err error) e = cc
      passed_again entry (ok gate) e = ground (arith, checked_again gate gate.operation)

      found_again :
          (entry : MorphismLogEntry h) (o : Option h.Value)
          → gate_found h t before entry o ≡ ok tt
          → gate_found h t after entry o ≡ ok tt
      found_again entry none e = cc
      found_again entry (some value) e = passed_again entry (t.gate_of value) e

module _ (h : Host) (services : Services h) where
  cells-unique :
      (space : CaseSpace h) (history : List (MorphismLogEntry h))
      → IsLoadable h services space history
      → unique h.id_discrete (cell_ids h space.case_cells) ≡ true
  unfolding materialized_ids
  cells-unique space history l =
      unique-left h services.terms (cell_ids h space.case_cells)
        (relation_ids h space.case_relations) l.well_formed.ids_unique

  apply_morphism-metadata :
      (space final : CaseSpace h) (m : CaseMorphism h)
      → apply_morphism h services.decode space m ≡ ok final
      → final.metadata ≡ space.metadata
  unfolding apply_morphism
  apply_morphism-metadata space final m e = ground arith

  append-boundary :
      (current next : CaseSpace h) (history : List (MorphismLogEntry h))
      (winner : MorphismLogEntry h) (allow_anchor : Bool)
      → IsLoadable h services current history
      → append_morphism_with_authority h services current history winner allow_anchor ≡ ok next
      → declared_source_boundary_id h services.terms next
        ≡ declared_source_boundary_id h services.terms current
  unfolding declared_source_boundary_id recorded
  append-boundary current next [] winner allow_anchor l e = ground (arith, l.is_last)
  append-boundary current next (first ∷ history) winner allow_anchor l e =
      let (changed, accepted, bounded, e') =
        append-eq-ok h services current (first ∷ history) winner allow_anchor e in
      let same_metadata : next.metadata ≡ current.metadata =
        sym (ap (λ (s : CaseSpace h). s.metadata) e')
        ∙ apply_morphism-metadata current changed winner.morphism
            (bounded-apply h services current winner bounded) in
      ground (
        arith,
        same_metadata,
        (append-IsLoadable h services current next (first ∷ history) winner allow_anchor l
            e).logged,
        l.logged,
      )

  -- An entry whose gate passes still passes after another entry has been appended.
  pub append-gate :
      (current next : CaseSpace h) (history : List (MorphismLogEntry h))
      (winner entry : MorphismLogEntry h) (allow_anchor : Bool)
      → IsLoadable h services current history
      → append_morphism_with_authority h services current history winner allow_anchor ≡ ok next
      → require_valid_operation_gate h services.terms current entry ≡ ok tt
      → require_valid_operation_gate h services.terms next entry ≡ ok tt
  unfolding require_valid_operation_gate
  append-gate current next history winner entry allow_anchor l e gated =
      let after = append-IsLoadable h services current next history winner allow_anchor l e in
      found_again h services.terms current next (cells-unique current history l)
        (cells-unique next (history ++ winner ∷ []) after)
        (append-capabilities h services current next history winner allow_anchor l e)
        (append-case_space_id h services current next history winner allow_anchor e)
        (append-boundary current next history winner allow_anchor l e) entry _ gated
