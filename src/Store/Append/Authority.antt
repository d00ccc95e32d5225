-- ===== src/Store/Append/Authority.antt =====
-- src/native_store.rs, src/native_review.rs, src/native_model.rs: on whose authority anything is
-- appended, over the whole life of a store.
use casegraphen.Prelude.{
  String, Bool, true, false, Option, none, some, List, [], ◌∷◌, ◌++◌, ◌≡◌, refl, Result, ok, err,
  all, any, keep, find, arith, ap, sym, ◌∙◌, subst,
}
use casegraphen.Host.{Host}
use casegraphen.Model.{CaseCell, MorphismLogEntry, CaseSpace}
use casegraphen.Reducer.Guards.{is_capability_cell}
use casegraphen.Reducer.Apply.{is_genesis_of}
use casegraphen.Reducer.Frozen.{apply_morphism-capabilities}
use casegraphen.Review.{NativeOperationGate, Terms}
use casegraphen.Review.Gate.{cell_is_named, is_empty, check_operation_gate}
use casegraphen.Review.Gate.Authorized.{
  is_authority, is_some_authority, names_authority, check_operation_gate_iff,
}
use casegraphen.Store.Operation.{gate_passed, gate_found, require_valid_operation_gate}
use casegraphen.Store.Append.{Services, recorded, append_morphism_with_authority}
use casegraphen.Store.Append.Loadable.{IsLoadable, append-eq-ok, append-IsLoadable, bounded-apply}

module _ (h : Host) (t : Terms h) where
  abbrev pub capabilities : CaseSpace h → List (CaseCell h)
  capabilities space = keep (is_capability_cell h) space.case_cells

  named-authority :
      (actor_id id : h.Ident) (operation : String) (cells : List (CaseCell h))
      → is_some_authority h t actor_id operation (find (cell_is_named h id) cells) ≡ true
      → any (is_authority h t actor_id operation) (keep (is_capability_cell h) cells) ≡ true
  named-authority actor_id id operation [] e = cc
  named-authority actor_id id operation (cell ∷ cells) e =
      ground (arith, named-authority actor_id id operation cells)

  some-authority :
      (space : CaseSpace h) (actor_id : h.Ident) (operation : String) (ids : List h.Ident)
      → is_empty ids ≡ false
      → all (names_authority h t space actor_id operation) ids ≡ true
      → any (is_authority h t actor_id operation) (capabilities space) ≡ true
  some-authority space actor_id operation [] n a = cc
  some-authority space actor_id operation (id ∷ ids) n a =
      named-authority actor_id id operation space.case_cells (ground arith)

  -- The entry carries a gate of its actor, and a capability among these grants the gate's operation.
  abbrev pub IsAuthorized : List (CaseCell h) → MorphismLogEntry h → Type 0
  IsAuthorized cells entry =
      (value : h.Value) × (h.get entry.morphism.metadata "operation_gate" ≡ some value)
      × (gate : NativeOperationGate h) × (t.gate_of value ≡ ok gate)
      × (gate.actor_id ≡ entry.actor_id)
      × (any (is_authority h t gate.actor_id gate.operation) cells ≡ true)

  passed :
      (space : CaseSpace h) (entry : MorphismLogEntry h) (r : Result String (NativeOperationGate h))
      → gate_passed h t space entry r ≡ ok tt
      → (gate : NativeOperationGate h) × (r ≡ ok gate)
        × (gate.actor_id ≡ entry.actor_id)
        × (any (is_authority h t gate.actor_id gate.operation) (capabilities space) ≡ true)
  passed space entry (err error) e = cc
  passed space entry (ok gate) e =
      let same_actor : gate.actor_id ≡ entry.actor_id = ground arith in
      let checked : check_operation_gate h t space gate gate.operation ≡ ok tt = ground arith in
      let (_, _, _, some_id, all_ids, _) =
        (check_operation_gate_iff h t space gate gate.operation).0 checked in
      (
        gate,
        refl,
        same_actor,
        some-authority space gate.actor_id gate.operation gate.capability_ids some_id all_ids,
      )

  found :
      (space : CaseSpace h) (entry : MorphismLogEntry h) (o : Option h.Value)
      → h.get entry.morphism.metadata "operation_gate" ≡ o
      → gate_found h t space entry o ≡ ok tt
      → IsAuthorized (capabilities space) entry
  found space entry none g e = cc
  found space entry (some value) g e =
      let (gate, read, actor, authority) = passed space entry (t.gate_of value) e in
      (value, g, gate, read, actor, authority)

  gate-IsAuthorized :
      (space : CaseSpace h) (entry : MorphismLogEntry h)
      → require_valid_operation_gate h t space entry ≡ ok tt
      → IsAuthorized (capabilities space) entry
  unfolding require_valid_operation_gate
  gate-IsAuthorized space entry e = found space entry _ refl e

module _ (h : Host) (services : Services h) where
  -- Sequences of accepted appends.
  pub data Appends (first : CaseSpace h) (log : List (MorphismLogEntry h))
      : CaseSpace h → List (MorphismLogEntry h) → Type 0 where
    unchanged : Appends first log first log
    appended :
        {current next : CaseSpace h} {history : List (MorphismLogEntry h)}
        (entry : MorphismLogEntry h) (allow_anchor : Bool)
        → Appends first log current history
        → append_morphism_with_authority h services current history entry allow_anchor ≡ ok next
        → Appends first log next (history ++ entry ∷ [])

  later :
      (space : CaseSpace h) (history : List (MorphismLogEntry h)) (entry : MorphismLogEntry h)
      → IsLoadable h services space history
      → is_genesis_of h space entry.morphism ≡ false
  unfolding is_genesis_of
  later space [] entry l = ground (arith, l.is_last)
  later space (first ∷ history) entry l = ground (arith, l.logged)

  pub append-capabilities :
      (current next : CaseSpace h) (history : List (MorphismLogEntry h))
      (entry : MorphismLogEntry h) (allow_anchor : Bool)
      → IsLoadable h services current history
      → append_morphism_with_authority h services current history entry allow_anchor ≡ ok next
      → capabilities h services.terms next ≡ capabilities h services.terms current
  unfolding recorded
  append-capabilities current next history entry allow_anchor l e =
      let (changed, accepted, bounded, e') =
        append-eq-ok h services current history entry allow_anchor e in
      sym (ap (capabilities h services.terms) e')
      ∙ apply_morphism-capabilities h services.decode current changed entry.morphism
          (later current history entry l) (bounded-apply h services current entry bounded)

  Appends-keep :
      {first : CaseSpace h} {log : List (MorphismLogEntry h)} {current : CaseSpace h}
      {history : List (MorphismLogEntry h)}
      → IsLoadable h services first log
      → Appends first log current history
      → IsLoadable h services current history
        × (capabilities h services.terms current ≡ capabilities h services.terms first)
  Appends-keep l unchanged = (l, refl)
  Appends-keep l (appended {current} {next} {history} entry allow_anchor r e) =
      let (loadable, kept) = Appends-keep l r in
      (
        append-IsLoadable h services current next history entry allow_anchor loadable e,
        append-capabilities current next history entry allow_anchor loadable e ∙ kept,
      )

  gated :
      (current next : CaseSpace h) (history : List (MorphismLogEntry h))
      (entry : MorphismLogEntry h) (allow_anchor : Bool)
      → append_morphism_with_authority h services current history entry allow_anchor ≡ ok next
      → require_valid_operation_gate h services.terms current entry ≡ ok tt
  unfolding append_morphism_with_authority
  gated current next history entry allow_anchor e = ground arith

  -- However long a store has been appended to, whatever is appended next is authorized by a capability
  -- of the case space that the store started from: it carries an operation gate of its own actor, and
  -- some capability cell of that first case space, in force and with accepted provenance, grants the
  -- actor the gate's operation.
  pub Appends-IsAuthorized :
      (first current next : CaseSpace h) (log history : List (MorphismLogEntry h))
      (entry : MorphismLogEntry h) (allow_anchor : Bool)
      → IsLoadable h services first log
      → Appends first log current history
      → append_morphism_with_authority h services current history entry allow_anchor ≡ ok next
      → IsAuthorized h services.terms (capabilities h services.terms first) entry
  Appends-IsAuthorized first current next log history entry allow_anchor l r e =
      subst (λ cells. IsAuthorized h services.terms cells entry) (Appends-keep l r).1
        (gate-IsAuthorized h services.terms current entry
          (gated current next history entry allow_anchor e))
