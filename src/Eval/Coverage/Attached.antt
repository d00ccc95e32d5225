-- ===== src/Eval/Coverage/Attached.antt =====
-- src/native_eval/sections.rs: what can change the recorded coverage of evidence.
use casegraphen.Prelude.{
  String, Bool, true, false, List, [], ◌∷◌, ◌++◌, ◌≡◌, refl, Result, any, append_assoc, append-nil,
  arith, ap, sym, ◌∙◌,
}
use casegraphen.Host.{Host}
use casegraphen.Model.{MorphismLogEntry, MorphismPayload}
use casegraphen.Model.Kinds.{is_evidence_attach}
use casegraphen.Review.{Terms}
use casegraphen.Eval.Coverage.{entry_coverage, log_coverage}

module _ (h : Host) (t : Terms h) (decode : h.Value → Result String (MorphismPayload h)) where
  abbrev pub is_attachment : MorphismLogEntry h → Bool
  is_attachment entry = is_evidence_attach entry.morphism.morphism_type

  unattached :
      (entries : List (MorphismLogEntry h))
      → any is_attachment entries ≡ false
      → log_coverage h t decode false entries ≡ []
  unfolding log_coverage entry_coverage
  unattached [] n = refl
  unattached (entry ∷ entries) n = ground (arith, unattached entries)

  later :
      (log entries : List (MorphismLogEntry h))
      → log_coverage h t decode false (log ++ entries)
        ≡ log_coverage h t decode false log ++ log_coverage h t decode false entries
  unfolding log_coverage
  later [] entries = refl
  later (entry ∷ log) entries =
      ap (λ pairs. entry_coverage h t decode false entry ++ pairs) (later log entries)
      ∙ sym (append_assoc (entry_coverage h t decode false entry) _ _)

  -- Entries appended to a log that has its genesis, none of which attaches evidence, leave the
  -- recorded coverage as it is, whatever their payloads relate or update.
  pub log_coverage-append :
      (genesis : MorphismLogEntry h) (log entries : List (MorphismLogEntry h))
      → any is_attachment entries ≡ false
      → log_coverage h t decode true ((genesis ∷ log) ++ entries)
        ≡ log_coverage h t decode true (genesis ∷ log)
  unfolding log_coverage
  log_coverage-append genesis log entries n =
      ap (λ pairs. entry_coverage h t decode true genesis ++ pairs)
        (later log entries
          ∙ ap (λ pairs. log_coverage h t decode false log ++ pairs) (unattached entries n)
          ∙ append-nil _)
