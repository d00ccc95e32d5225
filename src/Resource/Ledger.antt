-- ===== src/Resource/Ledger.antt =====
-- A ledger of reservations and assertions: reservations are recorded as they are granted, and
-- assertions, valid or not, as they come. What is active never clashes.
use casegraphen.Prelude.{
  ℕ, String, Bool, true, false, not, ◌&&◌, ◌||◌, List, [], ◌∷◌, ◌++◌, ok, str_eq, any, any-append,
  keep, keep-append, ◌≡◌, refl, arith, append-nil, Bool-cases, inl, inr,
}
use casegraphen.Resource.Records.{
  ResourceDeclaration, ResourceReservation, ReservationDispositionAssertion, RateLimitCapacity,
}
use casegraphen.Resource.Grants.{grant_reservation, reservation_is_active, disposes}
use casegraphen.Resource.Exclusion.{conflicts, grant_reservation-exclusive}

pub record Ledger : Type 0 where
  pub reservations : List ResourceReservation
  pub assertions : List ReservationDispositionAssertion

abbrev pub active : Ledger → List ResourceReservation
active l = keep (λ r. reservation_is_active r l.assertions) l.reservations

-- No two of the reservations clash, share an identifier or share an attempt.
abbrev pub excludes : ResourceReservation → ResourceReservation → Bool
excludes r r' =
    conflicts r r'
    || (str_eq r'.reservation_id r.reservation_id || str_eq r'.attempt_id r.attempt_id)

abbrev pub apart : List ResourceReservation → Bool
apart [] = true
apart (r ∷ rs) = not (any (λ r'. excludes r' r) rs) && apart rs

module _ (debug : String → String) (decimal : ℕ → String)
    (capacities : List RateLimitCapacity) where
  pub data Step : Ledger → Ledger → Type 0 where
    grant :
        (l : Ledger) (declaration : ResourceDeclaration) (candidate granted : ResourceReservation)
        → grant_reservation debug decimal declaration candidate l.reservations l.assertions
            capacities
          ≡ ok granted
        → Step l (record l { reservations = l.reservations ++ granted ∷ [] })
    assert :
        (l : Ledger) (assertion : ReservationDispositionAssertion)
        → Step l (record l { assertions = l.assertions ++ assertion ∷ [] })

  pub data History (l : Ledger) : Ledger → Type 0 where
    begun : History l l
    followed : {k n : Ledger} → History l k → Step k n → History l n

  apart-append :
      (rs : List ResourceReservation) (c : ResourceReservation)
      → apart rs ≡ true
      → any (excludes c) rs ≡ false
      → apart (rs ++ c ∷ []) ≡ true
  apart-append [] c a e = refl
  apart-append (r ∷ rs) c a e =
      ground (
        arith,
        apart-append rs c,
        any-append (λ (x : ResourceReservation). excludes x r) rs (c ∷ []),
      )

  any-keep :
      (p q : ResourceReservation → Bool) (rs : List ResourceReservation)
      → any p rs ≡ false
      → any p (keep q rs) ≡ false
  any-keep p q [] e = refl
  any-keep p q (r ∷ rs) e = ground (arith, any-keep p q rs)

  apart-keep :
      (q : ResourceReservation → Bool) (rs : List ResourceReservation)
      → apart rs ≡ true
      → apart (keep q rs) ≡ true
  apart-keep q [] a = refl
  apart-keep q (r ∷ rs) a =
      ground (arith, apart-keep q rs, any-keep (λ (x : ResourceReservation). excludes x r) q rs)

  still_active :
      (r : ResourceReservation) (known : List ReservationDispositionAssertion)
      (a : ReservationDispositionAssertion)
      → reservation_is_active r (known ++ a ∷ [])
        ≡ (reservation_is_active r known && not (disposes r a))
  unfolding reservation_is_active
  still_active r known a = ground (arith, any-append (disposes r) known (a ∷ []))

  -- A further assertion leaves some of what was active.
  active-assert :
      (rs : List ResourceReservation) (known : List ReservationDispositionAssertion)
      (a : ReservationDispositionAssertion)
      → keep (λ r. reservation_is_active r (known ++ a ∷ [])) rs
        ≡ keep (λ r. not (disposes r a)) (keep (λ r. reservation_is_active r known) rs)
  active-assert [] known a = refl
  active-assert (r ∷ rs) known a = ground (arith, still_active r known a, active-assert rs known a)

  any-excludes :
      (c : ResourceReservation) (rs : List ResourceReservation)
      → any (conflicts c) rs ≡ false
      → any (λ r. str_eq r.reservation_id c.reservation_id) rs ≡ false
      → any (λ r. str_eq r.attempt_id c.attempt_id) rs ≡ false
      → any (excludes c) rs ≡ false
  any-excludes c [] k i a = refl
  any-excludes c (r ∷ rs) k i a = ground (arith, any-excludes c rs)

  Step-apart : (l k : Ledger) → Step l k → apart (active l) ≡ true → apart (active k) ≡ true
  Step-apart _ _ (grant l declaration candidate granted e) a =
      let (same_one, ids, attempts, clear) =
        grant_reservation-exclusive debug decimal declaration candidate granted l.reservations
          l.assertions capacities e in
      let is_active = λ (r : ResourceReservation). reservation_is_active r l.assertions in
      rw (same_one, keep-append is_active l.reservations (candidate ∷ []))
        (elim (Bool-cases (is_active candidate)) [
          | inl yes_active ↦ rw yes_active (
              apart-append (active l) candidate a
                (any-excludes candidate (active l) clear ids attempts))
          | inr disposed ↦ rw (disposed, append-nil (active l)) a
        ])
  Step-apart _ _ (assert l assertion) a =
      rw (active-assert l.reservations l.assertions assertion) (apart-keep _ (active l) a)

  -- Whatever reservations are granted and whatever assertions are recorded, in any order, no two
  -- active reservations clash on a resource, share an identifier or share an attempt, if that holds
  -- at the start.
  pub ledger_apart :
      (l k : Ledger) → apart (active l) ≡ true → History l k → apart (active k) ≡ true
  ledger_apart l _ a begun = a
  ledger_apart l _ a (followed {k} {n} r s) = Step-apart k n s (ledger_apart l k a r)
