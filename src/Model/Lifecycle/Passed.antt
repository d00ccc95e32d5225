-- ===== src/Model/Lifecycle/Passed.antt =====
-- src/native_model.rs: from where a lifecycle stage is entered, and what a cell has been through.
use casegraphen.Prelude.{◌≢◌, Bool, true, ◌||◌, ◌&&◌, ◌≡◌, ◌↔◌, ◌⊎◌, arith, same}
use casegraphen.Model.Lifecycle.{
  CaseCellLifecycle, proposed, active, waiting, resolved, retired, accepted, rejected, superseded,
  CaseCellLifecycle-discrete, is_move, can_transition_to, LifecycleReach, here, next, reaches,
  reaches_sound, reaches_complete,
}

-- The stages that each stage is entered from, other than by staying in it.
unfoldable pub EnteredFrom : CaseCellLifecycle → CaseCellLifecycle → Type 0
EnteredFrom proposed s = ⊥
EnteredFrom retired s = s ≢ retired
EnteredFrom rejected s = s ≡ proposed
EnteredFrom accepted s = s ≡ resolved
EnteredFrom waiting s = s ≡ active
EnteredFrom resolved s = s ≡ active
EnteredFrom active s = (s ≡ proposed) ⊎ (s ≡ waiting) ⊎ (s ≡ resolved)
EnteredFrom superseded s = (s ≡ active) ⊎ (s ≡ accepted)

step_iff : (s t : CaseCellLifecycle) → (can_transition_to s t ≡ true) ↔ ((s ≡ t) ⊎ EnteredFrom t s)
unfolding can_transition_to is_move EnteredFrom CaseCellLifecycle-discrete
step_iff s t = ground arith

-- A cell may go from one stage to another in one step exactly where it stays, or where the second is
-- entered from the first: no stage but a proposal leads to a proposal, every other stage to
-- retirement, a proposal alone to rejection, resolved work alone to acceptance, active work alone to
-- waiting and to resolution, proposed, waiting and resolved work to activity, and active work and
-- what is accepted to supersession. And sequences of such steps lead from one stage to another
-- exactly where the closed form `reaches` answers that they do.
pub LifecycleReach-iff :
    (s t : CaseCellLifecycle)
    → ((can_transition_to s t ≡ true) ↔ ((s ≡ t) ⊎ EnteredFrom t s))
      × (LifecycleReach s t ↔ (reaches s t ≡ true))
LifecycleReach-iff s t = (step_iff s t, (reaches_sound, reaches_complete s t))

-- The sequence of transitions goes through the stage, or begins or ends in it.
unfoldable pub visits : {s t : CaseCellLifecycle} → CaseCellLifecycle → LifecycleReach s t → Bool
unfolding CaseCellLifecycle-discrete
visits {s} stage here = same CaseCellLifecycle-discrete s stage
visits stage (next {u} r m) = visits stage r || same CaseCellLifecycle-discrete u stage

-- What a sequence that begins in a proposal has gone through where it stands in a stage.
gone_through : CaseCellLifecycle → Bool → Bool → Bool
gone_through active was_active was_resolved = was_active
gone_through waiting was_active was_resolved = was_active
gone_through resolved was_active was_resolved = was_active && was_resolved
gone_through accepted was_active was_resolved = was_active && was_resolved
gone_through _ was_active was_resolved = true
