-- ===== src/Model/Lifecycle.antt =====
-- src/native_model.rs: the lifecycle of a cell and the moves between its stages.
pub mod Passed
use casegraphen.Prelude.{Bool, true, false, ◌||◌, ◌≡◌, ◌↔◌, arith, refl, same}

pub data CaseCellLifecycle : Type 0 where
  proposed active waiting resolved retired accepted rejected superseded : CaseCellLifecycle

unfoldable pub CaseCellLifecycle-discrete : Discrete CaseCellLifecycle
CaseCellLifecycle-discrete = hlevel

-- The pairs of the `matches!`.
unfoldable pub is_move : CaseCellLifecycle → CaseCellLifecycle → Bool
is_move proposed active = true
is_move proposed rejected = true
is_move proposed retired = true
is_move active waiting = true
is_move active resolved = true
is_move active retired = true
is_move active superseded = true
is_move waiting active = true
is_move waiting retired = true
is_move resolved accepted = true
is_move resolved active = true
is_move resolved retired = true
is_move accepted superseded = true
is_move accepted retired = true
is_move rejected retired = true
is_move superseded retired = true
is_move _ _ = false

unfoldable pub can_transition_to : CaseCellLifecycle → CaseCellLifecycle → Bool
unfolding is_move CaseCellLifecycle-discrete
can_transition_to source target =
    same CaseCellLifecycle-discrete source target || is_move source target

-- The stages that a sequence of allowed transitions leads to.
pub data LifecycleReach (s : CaseCellLifecycle) : CaseCellLifecycle → Type 0 where
  here : LifecycleReach s s
  next :
      {t u : CaseCellLifecycle}
      → LifecycleReach s t
      → can_transition_to t u ≡ true
      → LifecycleReach s u

pub LifecycleReach-trans :
    {s t u : CaseCellLifecycle} → LifecycleReach s t → LifecycleReach t u → LifecycleReach s u
LifecycleReach-trans r here = r
LifecycleReach-trans r (next q m) = next (LifecycleReach-trans r q) m

-- One step reaches its target.
pub LifecycleReach-step :
    {s t : CaseCellLifecycle} → can_transition_to s t ≡ true → LifecycleReach s t
LifecycleReach-step m = next here m

-- Reachability in a closed form: a proposal leads everywhere, open work everywhere but back to a
-- proposal or to rejection, and the settled stages only towards retirement.
open_reaches : CaseCellLifecycle → Bool
open_reaches proposed = false
open_reaches rejected = false
open_reaches _ = true

unfoldable pub reaches : CaseCellLifecycle → CaseCellLifecycle → Bool
unfolding open_reaches
reaches proposed t = true
reaches active t = open_reaches t
reaches waiting t = open_reaches t
reaches resolved t = open_reaches t
reaches accepted accepted = true
reaches accepted superseded = true
reaches accepted retired = true
reaches rejected rejected = true
reaches rejected retired = true
reaches superseded superseded = true
reaches superseded retired = true
reaches retired retired = true
reaches _ _ = false

reaches-next :
    (s t u : CaseCellLifecycle)
    → reaches s t ≡ true
    → can_transition_to t u ≡ true
    → reaches s u ≡ true
unfolding reaches can_transition_to
reaches-next proposed t u r m = refl
reaches-next s t u r m = ground arith

reaches_self : (s : CaseCellLifecycle) → reaches s s ≡ true
unfolding reaches
reaches_self s = ground arith

pub reaches_sound : {s t : CaseCellLifecycle} → LifecycleReach s t → reaches s t ≡ true
reaches_sound {s} here = reaches_self s
reaches_sound {s} {t = u} (next {t} r m) = reaches-next s t u (reaches_sound r) m

from_active : (t : CaseCellLifecycle) → open_reaches t ≡ true → LifecycleReach active t
unfolding open_reaches can_transition_to
from_active proposed r = cc
from_active active r = here
from_active waiting r = next here refl
from_active resolved r = next here refl
from_active retired r = next here refl
from_active accepted r = next (LifecycleReach-step {s = active} {t = resolved} refl) refl
from_active rejected r = cc
from_active superseded r = next here refl

to_active : (s : CaseCellLifecycle) → can_transition_to s active ≡ true → LifecycleReach s active
to_active s m = next here m

pub reaches_complete : (s t : CaseCellLifecycle) → reaches s t ≡ true → LifecycleReach s t
unfolding reaches can_transition_to
reaches_complete proposed proposed r = here
reaches_complete proposed rejected r = next here refl
reaches_complete proposed t r = LifecycleReach-trans (to_active proposed refl) (from_active t refl)
reaches_complete active t r = from_active t r
reaches_complete waiting t r = LifecycleReach-trans (to_active waiting refl) (from_active t r)
reaches_complete resolved t r = LifecycleReach-trans (to_active resolved refl) (from_active t r)
reaches_complete accepted accepted r = here
reaches_complete accepted superseded r = next here refl
reaches_complete accepted retired r = next here refl
reaches_complete rejected rejected r = here
reaches_complete rejected retired r = next here refl
reaches_complete superseded superseded r = here
reaches_complete superseded retired r = next here refl
reaches_complete retired retired r = here
reaches_complete _ _ r = cc
