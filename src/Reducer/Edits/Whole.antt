-- ===== src/Reducer/Edits/Whole.antt =====
-- `apply_morphism` as a sequence of edits, after which no relation dangles.
use casegraphen.Prelude.{String, Result, ok, ◌≡◌, refl, >>=-eq-ok, ok-injective, subst}
use casegraphen.Host.{Host}
use casegraphen.Model.{CaseMorphism, CaseSpace, MorphismPayload}
use casegraphen.Reducer.Ids.{cell_ids, materialized_ids}
use casegraphen.Reducer.Apply.{
  add_cells, add_relations, update_cells, update_relations, retire_ids, require_endpoints,
  is_genesis_of, checked_payload, apply_morphism,
}
use casegraphen.Reducer.Edits.{Content, content, Edits, Edits-trans}
use casegraphen.Reducer.Edits.Loops.{
  Knows, add_cells-Edits, add_relations-Edits, update_cells-Edits, update_relations-Edits,
  retire_ids-Edits,
}

module _ (h : Host) (decode : h.Value → Result String (MorphismPayload h)) where
  -- What a successful application tells of the case space before and after it.
  pub record IsApplied (space : CaseSpace h) (m : CaseMorphism h) (final : CaseSpace h)
      : Type 0 where
    pub edits : Edits h m (is_genesis_of h space m) (content h space) (content h final)
    pub endpoints : require_endpoints h m (cell_ids h final.case_cells) final.case_relations ≡ ok tt
    pub shell :
        final
        ≡ record space { case_cells = final.case_cells; case_relations = final.case_relations }

  Knows-materialized : (space : CaseSpace h) → Knows h (materialized_ids h space) (content h space)
  unfolding materialized_ids
  Knows-materialized space id = refl

  pub apply_morphism-IsApplied :
      (space final : CaseSpace h) (m : CaseMorphism h)
      → apply_morphism h decode space m ≡ ok final
      → IsApplied space m final
  unfolding apply_morphism
  apply_morphism-IsApplied space final m e =
      let g = is_genesis_of h space m in
      let x₀ = content h space in
      let (payload, _, e₁) = >>=-eq-ok (checked_payload h decode m) _ e in
      let (added, p₁, e₂) =
        >>=-eq-ok (add_cells h m g payload.added_cells space.case_cells (materialized_ids h space))
          _ e₁ in
      let (related, p₂, e₃) =
        >>=-eq-ok (add_relations h m added.0 payload.added_relations space.case_relations added.1) _
          e₂ in
      let (changed, p₃, e₄) = >>=-eq-ok (update_cells h m g payload.updated_cells added.0) _ e₃ in
      let (rewritten, p₄, e₅) =
        >>=-eq-ok (update_relations h m payload.updated_relations related.0) _ e₄ in
      let (retired, p₅, e₆) = >>=-eq-ok (retire_ids h m g m.retired_ids changed rewritten) _ e₅ in
      let (_, p₆, e₇) = >>=-eq-ok (require_endpoints h m (cell_ids h retired.0) retired.1) _ e₆ in
      let (q₁, known) =
        add_cells-Edits h m g payload.added_cells x₀ _ (Knows-materialized space) p₁ in
      let x₁ : Content h = record x₀ { cells = added.0 } in
      let q₂ = add_relations-Edits h m g payload.added_relations x₁ added.1 known p₂ in
      let x₂ : Content h = record x₁ { relations = related.0 } in
      let q₃ = update_cells-Edits h m g payload.updated_cells x₂ p₃ in
      let x₃ : Content h = record x₂ { cells = changed } in
      let q₄ = update_relations-Edits h m g payload.updated_relations x₃ p₄ in
      let x₄ : Content h = record x₃ { relations = rewritten } in
      let q₅ = retire_ids-Edits h m g m.retired_ids x₄ p₅ in
      let steps =
        Edits-trans h m g q₁
          (Edits-trans h m g q₂ (Edits-trans h m g q₃ (Edits-trans h m g q₄ q₅))) in
      subst (IsApplied space m) (ok-injective e₇)
        (record { edits = steps; endpoints = p₆; shell = refl })
