-- ===== src/Store/Append/Race.antt =====
-- src/native_store.rs: two appenders that built their entries on the same revision.
use casegraphen.Prelude.{
  Bool, true, false, not, ◌&&◌, some, List, [], ◌∷◌, ◌++◌, ◌≡◌, ok, err, any, same, same-eq,
  same_self, arith, sym, subst, Bool-cases, inl, inr,
}
use casegraphen.Host.{Host}
use casegraphen.Model.{MorphismLogEntry, CaseSpace}
use casegraphen.Store.{NativeStoreError, stale_source_revision}
use casegraphen.Store.Log.{last, validate_append, has_target}
use casegraphen.Store.Append.{
  Services, recorded, revision_from_entry, append_morphism_with_authority,
  is_execution_trace_anchor,
}
use casegraphen.Store.Append.Loadable.{
  IsLoadable, append-eq-ok, bounded-apply, apply_morphism-frame,
}
use casegraphen.Store.Log.Agreement.{fresh-target}
use casegraphen.Store.Append.Regated.{append-gate}
use casegraphen.Store.Operation.{require_valid_operation_gate}

module _ (h : Host) (services : Services h) where
  latest-target :
      (log : List (MorphismLogEntry h)) {latest : MorphismLogEntry h}
      → last log ≡ some latest
      → any (has_target h services.entry_hash latest.target_revision_id) log ≡ true
  latest-target [] e = cc
  latest-target (entry ∷ []) {latest} e =
      ground (arith, same_self h.id_discrete latest.target_revision_id)
  latest-target (entry ∷ next ∷ log) {latest} e =
      ground (arith, latest-target (next ∷ log) {latest = latest})

  refused :
      (current moved : CaseSpace h) (history longer : List (MorphismLogEntry h))
      (entry : MorphismLogEntry h)
      → validate_append h services.entry_hash current entry history ≡ ok tt
      → moved.case_space_id ≡ current.case_space_id
      → same h.id_discrete current.revision.revision_id moved.revision.revision_id ≡ false
      → validate_append h services.entry_hash moved entry longer
        ≡ err (stale_source_revision entry.source_revision_id moved.revision.revision_id)
  unfolding validate_append
  refused current moved history longer entry a id n = ground arith

  moved_on :
      (rev target : h.Ident) (history : List (MorphismLogEntry h))
      → any (has_target h services.entry_hash rev) history ≡ true
      → any (has_target h services.entry_hash target) history ≡ false
      → same h.id_discrete rev target ≡ false
  moved_on rev target history t n = elim (Bool-cases (same h.id_discrete rev target)) [
    | inr different ↦ different
    | inl equal ↦
        let p : rev ≡ target = same-eq h.id_discrete rev target equal in
        let t' : any (has_target h services.entry_hash target) history ≡ true =
          subst (λ id. any (has_target h services.entry_hash id) history ≡ true) p t in
        ground arith
  ]

  made_stale :
      (current next : CaseSpace h) (history : List (MorphismLogEntry h))
      (winner loser : MorphismLogEntry h) (allow_anchor : Bool)
      → IsLoadable h services current history
      → append_morphism_with_authority h services current history winner allow_anchor ≡ ok next
      → validate_append h services.entry_hash current loser history ≡ ok tt
      → validate_append h services.entry_hash next loser (history ++ winner ∷ [])
        ≡ err (stale_source_revision loser.source_revision_id winner.target_revision_id)
  unfolding recorded revision_from_entry
  made_stale current next history winner loser allow_anchor l e a =
      let (changed, accepted, bounded, e') =
        append-eq-ok h services current history winner allow_anchor e in
      let (id, log) =
        apply_morphism-frame h services current changed winner.morphism
          (bounded-apply h services current winner bounded) in
      let at : any (has_target h services.entry_hash current.revision.revision_id) history ≡ true =
        subst (λ id. any (has_target h services.entry_hash id) history ≡ true) (sym l.at_revision)
          (latest-target history l.is_last) in
      let fresh = fresh-target h services.entry_hash current history winner accepted in
      subst
        (λ n.
          validate_append h services.entry_hash n loser (history ++ winner ∷ [])
          ≡ err (stale_source_revision loser.source_revision_id winner.target_revision_id))
        e'
        (refused current (recorded h services changed winner) history (history ++ winner ∷ []) loser
          a id (moved_on current.revision.revision_id winner.target_revision_id history at fresh))

  -- What an entry has been through where its append succeeds.
  append-passes :
      (current : CaseSpace h) (history : List (MorphismLogEntry h)) (entry : MorphismLogEntry h)
      (allow_anchor : Bool) {next : CaseSpace h}
      → append_morphism_with_authority h services current history entry allow_anchor ≡ ok next
      → (not (is_execution_trace_anchor entry.morphism.morphism_type && not allow_anchor) ≡ true)
        × (require_valid_operation_gate h services.terms current entry ≡ ok tt)
        × (validate_append h services.entry_hash current entry history ≡ ok tt)
  unfolding append_morphism_with_authority
  append-passes current history entry allow_anchor e = ground arith

  stopped :
      (space : CaseSpace h) (history : List (MorphismLogEntry h)) (entry : MorphismLogEntry h)
      (allow_anchor : Bool) (reason : NativeStoreError h)
      → not (is_execution_trace_anchor entry.morphism.morphism_type && not allow_anchor) ≡ true
      → require_valid_operation_gate h services.terms space entry ≡ ok tt
      → validate_append h services.entry_hash space entry history ≡ err reason
      → append_morphism_with_authority h services space history entry allow_anchor ≡ err reason
  unfolding append_morphism_with_authority
  stopped space history entry allow_anchor reason a g e = ground arith

  -- Of two entries, each of which the same loadable store would append, once one has been appended
  -- the append of the other fails, and with the report that its source revision is stale, whatever
  -- else of the entry no longer fits the case space that the first one left.
  pub append-race :
      (current next alternative : CaseSpace h) (history : List (MorphismLogEntry h))
      (winner loser : MorphismLogEntry h) (winner_anchor loser_anchor : Bool)
      → IsLoadable h services current history
      → append_morphism_with_authority h services current history winner winner_anchor ≡ ok next
      → append_morphism_with_authority h services current history loser loser_anchor
        ≡ ok alternative
      → append_morphism_with_authority h services next (history ++ winner ∷ []) loser loser_anchor
        ≡ err (stale_source_revision loser.source_revision_id winner.target_revision_id)
  append-race current next alternative history winner loser winner_anchor loser_anchor l e e' =
      let (allowed, gated, accepted) = append-passes current history loser loser_anchor e' in
      stopped next (history ++ winner ∷ []) loser loser_anchor
        (stale_source_revision loser.source_revision_id winner.target_revision_id) allowed
        (append-gate h services current next history winner loser winner_anchor l e gated)
        (made_stale current next history winner loser winner_anchor l e accepted)
