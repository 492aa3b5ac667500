-- ===== src/Coordination/Lost.antt =====
-- Tokens never repeat, so a lease that another acquisition has replaced stays lost.
pub mod Calls
use mathlib.Core.Path.{subst}
use shape_ai.Common.{
  ℕ, ◌+◌, ◌<◌, ◌≡◌, ◌≢◌, refl, sym, ◌∙◌, ap, List, [], ◌∷◌, true, false, ◌&&◌, Option, none, some,
  arith, ltb, ◌==◌, eq_iff, eq_of_ne, All, Bool-cases, Option-cases, inl, inr, ◌⊎◌,
}
use shape_ai.Common.Str.{Str, str_key}
use shape_ai.Common.Decimal.{decimal, decimal-digits, decimal-injective, IsDecimal, split_last}
use shape_ai.Common.Map.{Map, get, insert, get-insert_self, get-insert_other, get-remove}
use shape_ai.Common.Result.{ok, err}
use shape_ai.Coordination.{
  Lease, LeaseEntry, State, no_longer_held, token_at, blocks, granted, acquire_from, acquire_lease,
  is_holder, renew_entry, renew, release_entry, release, presence_put, presence_get, get_live,
  PresenceEntry,
}
use shape_ai.Coordination.Leases.{
  Call, acquires, renews, releases, puts, gets, call, call_all, state_or, renewed_or,
  acquired-granted,
}
use shape_ai.Coordination.Lost.Calls.{Lost, Lost-granted, Lost-call_all, Lost-refused}

-- The counter never falls.
module _ (n : ℕ) where
  given_granted :
      (s : State) (now : ℕ) (canvas_id owner : Str) (ttl : ℕ) (found : Option LeaseEntry)
      → n < s.counter
      → n < (state_or s (acquire_from s now canvas_id owner ttl found)).counter
  given_granted s now canvas_id owner ttl none h = omega arith
  given_granted s now canvas_id owner ttl (some entry) h =
      elim (Bool-cases (blocks now owner entry)) [
        | inl blocked ↦ rw blocked h
        | inr free ↦ rw free (omega arith)
      ]

  given_renewed :
      (s : State) (now : ℕ) (lease : Lease) (ttl : ℕ) (found : Option LeaseEntry)
      → n < s.counter
      → n < (renewed_or s (renew_entry s now lease ttl found)).counter
  given_renewed s now lease ttl none h = h
  given_renewed s now lease ttl (some entry) h =
      elim (Bool-cases (is_holder lease entry && ltb now entry.expires_at)) [
        | inl held ↦ rw held h
        | inr refused ↦ rw refused h
      ]

  given_released :
      (s : State) (lease : Lease) (found : Option LeaseEntry)
      → n < s.counter
      → n < (release_entry s lease found).counter
  given_released s lease none h = h
  given_released s lease (some entry) h = elim (Bool-cases (is_holder lease entry)) [
    | inl held ↦ rw held h
    | inr refused ↦ rw refused h
  ]

  given_read :
      (s : State) (now : ℕ) (canvas_id : Str) (found : Option (Map Str PresenceEntry))
      → n < s.counter
      → n < (get_live s now canvas_id found).0.counter
  given_read s now canvas_id none h = h
  given_read s now canvas_id (some entries) h = h

  given_call : (s : State) (c : Call) → n < s.counter → n < (call s c).counter
  unfolding call acquire_lease renew release presence_put presence_get
  given_call s (acquires now canvas_id owner ttl) h =
      given_granted s now canvas_id owner ttl (get canvas_id s.leases) h
  given_call s (renews now lease ttl) h =
      given_renewed s now lease ttl (get lease.canvas_id s.leases) h
  given_call s (releases lease) h = given_released s lease (get lease.canvas_id s.leases) h
  given_call s (puts now canvas_id key val ttl) h = h
  given_call s (gets now canvas_id) h = given_read s now canvas_id (get canvas_id s.presence) h

  given_call_all : (s : State) (cs : List Call) → n < s.counter → n < (call_all s cs).counter
  unfolding call_all
  given_call_all s [] h = h
  given_call_all s (c ∷ cs) h = given_call_all (call s c) cs (given_call s c h)

-- A lost lease stays lost: after a lease was given out, any calls, a further acquisition of the canvas
-- by whomever, and any calls after that, to renew the old lease fails and to release it changes
-- nothing, at any time.
pub lost_stays_lost :
    (s s1 s2 : State) (canvas_id owner other : Str) (t1 t2 t3 ttl1 ttl2 ttl3 : ℕ) (old next : Lease)
    (before behind : List Call)
    → acquire_lease s t1 canvas_id owner ttl1 ≡ ok (s1, old)
    → acquire_lease (call_all s1 before) t2 canvas_id other ttl2 ≡ ok (s2, next)
    → (renew (call_all s2 behind) t3 old ttl3 ≡ err no_longer_held)
      × (release (call_all s2 behind) old ≡ call_all s2 behind)
unfolding acquire_lease
lost_stays_lost s s1 s2 canvas_id owner other t1 t2 t3 ttl1 ttl2 ttl3 old next before behind e1 e2 =
    let got1 = acquired-granted s t1 canvas_id owner ttl1 (s1, old) (get canvas_id s.leases) e1 in
    let mid = call_all s1 before in
    let got2 =
      acquired-granted mid t2 canvas_id other ttl2 (s2, next) (get canvas_id mid.leases) e2 in
    let named : old.token ≡ token_at old.owner s.counter =
      subst (λ (r : State × Lease). r.1.token ≡ token_at r.1.owner s.counter) got1 refl in
    let place : canvas_id ≡ old.canvas_id =
      subst (λ (r : State × Lease). canvas_id ≡ r.1.canvas_id) got1 refl in
    let given : s.counter < s1.counter =
      subst (λ (r : State × Lease). s.counter < r.0.counter) got1 (omega arith) in
    let lost : Lost old s.counter s2 =
      subst (λ (r : State × Lease). Lost old s.counter r.0) got2
        (Lost-granted old s.counter named mid t2 canvas_id other ttl2
          (given_call_all s.counter s1 before given) (inl place)) in
    Lost-refused old s.counter named (call_all s2 behind) t3 ttl3
      (Lost-call_all old s.counter named s2 behind lost)
