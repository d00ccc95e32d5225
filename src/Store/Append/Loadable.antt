-- ===== src/Store/Append/Loadable.antt =====
-- src/native_store.rs: whatever is appended, the store stays one that the loader accepts and the
-- reducer's invariant holds of its case space.
use casegraphen.Prelude.{
  Bool, not, ◌&&◌, some, List, [], ◌∷◌, ◌++◌, ◌≡◌, refl, Result, ok, err, ◌>>=◌, ◌>>◌, require,
  arith, ap, sym, ◌∙◌, subst,
}
use casegraphen.Host.{Host}
use casegraphen.Model.{MorphismLogEntry, CaseMorphism, CaseSpace}
use casegraphen.Reducer.Ids.{materialized_ids}
use casegraphen.Reducer.Apply.{apply_morphism}
use casegraphen.Reducer.WellFormed.{IsWellFormed, apply_morphism-IsWellFormed}
use casegraphen.Store.{invalid_morphism, anchor_reserved}
use casegraphen.Store.Log.{last, validate_append, validate_log_entries}
use casegraphen.Store.Log.Agreement.{validate_append-agrees}
use casegraphen.Store.Append.{
  Services, apply_bounded_morphism, recorded, revision_from_entry, require_writable,
  append_morphism_with_authority, is_execution_trace_anchor,
}
use casegraphen.Store.Operation.{require_valid_operation_gate}

module _ {A : Type 0} where
  pub last-snoc : (xs : List A) (x : A) → last (xs ++ x ∷ []) ≡ some x
  last-snoc [] x = refl
  last-snoc (y ∷ []) x = refl
  last-snoc (y ∷ z ∷ xs) x = last-snoc (z ∷ xs) x

chained :
    {E A : Type 0} (a b c : Result E Unit) (d : Result E A) (f : A → Result E Unit) (g : A → A)
    {n : A}
    → (a >> (b >> (c >> (d >>= (λ x. f x >> ok (g x)))))) ≡ ok n
    → (x : A) × (c ≡ ok tt) × (d ≡ ok x) × (g x ≡ n)
chained a b c (err reason) f g e = ground arith
chained a b c (ok x) f g e = (x, ground arith, refl, ground arith)

module _ (h : Host) (services : Services h) where
  -- The loader accepts the log, the case space carries it and is at the revision that it leads to,
  -- and its identifiers are unique and its relations attached.
  pub record IsLoadable (space : CaseSpace h) (history : List (MorphismLogEntry h)) : Type 0 where
    pub validated :
        validate_log_entries h services.entry_hash (some space.case_space_id) history ≡ ok tt
    pub logged : space.morphism_log ≡ history
    pub latest : MorphismLogEntry h
    pub is_last : last history ≡ some latest
    pub at_revision : space.revision.revision_id ≡ latest.target_revision_id
    pub well_formed : IsWellFormed h space

  module _ (space final : CaseSpace h) (m : CaseMorphism h) where
    pub apply_morphism-frame :
        apply_morphism h services.decode space m ≡ ok final
        → (final.case_space_id ≡ space.case_space_id) × (final.morphism_log ≡ space.morphism_log)
    unfolding apply_morphism
    apply_morphism-frame e = ground arith

  pub bounded-apply :
      (space : CaseSpace h) (entry : MorphismLogEntry h) {next : CaseSpace h}
      → apply_bounded_morphism h services space entry ≡ ok next
      → apply_morphism h services.decode space entry.morphism ≡ ok next
  unfolding apply_bounded_morphism
  bounded-apply space entry e = ground arith

  -- What an accepted append has been through.
  pub append-eq-ok :
      (current : CaseSpace h) (history : List (MorphismLogEntry h)) (entry : MorphismLogEntry h)
      (allow_anchor : Bool) {next : CaseSpace h}
      → append_morphism_with_authority h services current history entry allow_anchor ≡ ok next
      → (changed : CaseSpace h) × (validate_append h services.entry_hash current entry history
          ≡ ok tt)
        × (apply_bounded_morphism h services current entry ≡ ok changed)
        × (recorded h services changed entry ≡ next)
  unfolding append_morphism_with_authority
  append-eq-ok current history entry allow_anchor e =
      chained
        (require (not (is_execution_trace_anchor entry.morphism.morphism_type && not allow_anchor))
          (invalid_morphism anchor_reserved))
        (require_valid_operation_gate h services.terms current entry)
        (validate_append h services.entry_hash current entry history)
        (apply_bounded_morphism h services current entry)
        (λ changed. require_writable h services (recorded h services changed entry) entry)
        (λ changed. recorded h services changed entry) e

  pub append-case_space_id :
      (current next : CaseSpace h) (history : List (MorphismLogEntry h))
      (entry : MorphismLogEntry h) (allow_anchor : Bool)
      → append_morphism_with_authority h services current history entry allow_anchor ≡ ok next
      → next.case_space_id ≡ current.case_space_id
  unfolding recorded
  append-case_space_id current next history entry allow_anchor e =
      let (changed, accepted, bounded, e') = append-eq-ok current history entry allow_anchor e in
      sym (ap (λ (s : CaseSpace h). s.case_space_id) e')
      ∙ (apply_morphism-frame current changed entry.morphism
          (bounded-apply current entry bounded)).0

  recorded-IsLoadable :
      (current changed : CaseSpace h) (history : List (MorphismLogEntry h))
      (entry : MorphismLogEntry h)
      → IsLoadable current history
      → validate_append h services.entry_hash current entry history ≡ ok tt
      → apply_morphism h services.decode current entry.morphism ≡ ok changed
      → IsLoadable (recorded h services changed entry) (history ++ entry ∷ [])
  unfolding recorded revision_from_entry materialized_ids
  recorded-IsLoadable current changed history entry l accepted e =
      let w =
        apply_morphism-IsWellFormed h services.decode current changed entry.morphism l.well_formed
          e in
      let (id, log) = apply_morphism-frame current changed entry.morphism e in
      record {
        validated =
            subst
              (λ id.
                validate_log_entries h services.entry_hash (some id) (history ++ entry ∷ [])
                ≡ ok tt)
              (sym id)
              (validate_append-agrees h services.entry_hash current history l.latest entry
                l.validated l.is_last l.at_revision accepted);
        logged = ap (λ log. log ++ entry ∷ []) (log ∙ l.logged);
        latest = entry;
        is_last = last-snoc history entry;
        at_revision = refl;
        well_formed = record { ids_unique = w.ids_unique; attached = w.attached };
      }

  -- An append that succeeds, with or without the authority for trace anchors, leaves the store
  -- loadable: the loader accepts the longer log, the case space carries it and is at its last
  -- revision, identifiers are unique and relations attached.
  pub append-IsLoadable :
      (current next : CaseSpace h) (history : List (MorphismLogEntry h))
      (entry : MorphismLogEntry h) (allow_anchor : Bool)
      → IsLoadable current history
      → append_morphism_with_authority h services current history entry allow_anchor ≡ ok next
      → IsLoadable next (history ++ entry ∷ [])
  append-IsLoadable current next history entry allow_anchor l e =
      let (changed, accepted, bounded, e') = append-eq-ok current history entry allow_anchor e in
      subst (λ n. IsLoadable n (history ++ entry ∷ [])) e'
        (recorded-IsLoadable current changed history entry l accepted
          (bounded-apply current entry bounded))
