-- ===== src/Coordination/Leases.antt =====
-- A lease excludes other owners until it expires, and a lease that was lost stays lost.
use shape_ai.Common.{
  ℕ, ◌<◌, ◌≡◌, ◌≢◌, refl, sym, ◌∙◌, ap, List, [], ◌∷◌, true, false, ◌&&◌, Option, none, some, ltb,
  ◌==◌, eq_iff, eq_of_ne, All, Bool-cases, inl, inr, lt→ltb,
}
use mathlib.Core.Path.{subst}
use shape_ai.Common.Str.{Str, str_key}
use shape_ai.Common.Map.{Map, get, get-insert_self, get-insert_other, get-remove_other}
use shape_ai.Common.Result.{Result, ok, err}
use shape_ai.Coordination.{
  Lease, LeaseEntry, State, LeaseError, leased_by, blocks, granted, acquire_from, acquire_lease,
  is_holder, renew_entry, renew, release_entry, release, find_owner, presence_put, presence_get,
  get_live, PresenceEntry,
}

-- The calls of a coordinator, each with the time that its clock shows.
pub data Call : Type 0 where
  acquires : (now : ℕ) (canvas_id owner : Str) (ttl : ℕ) → Call
  renews : (now : ℕ) (lease : Lease) (ttl : ℕ) → Call
  releases : Lease → Call
  puts : (now : ℕ) (canvas_id key : Str) (val : List ℕ) (ttl : ℕ) → Call
  gets : (now : ℕ) (canvas_id : Str) → Call

abbrev pub state_or {ℓ} : {A : Type ℓ} → State → Result LeaseError (State × A) → State
state_or s (ok (s', a)) = s'
state_or s (err e) = s

abbrev pub renewed_or : State → Result LeaseError State → State
renewed_or s (ok s') = s'
renewed_or s (err e) = s

-- A call that fails changes nothing.
unfoldable pub call : State → Call → State
call s (acquires now canvas_id owner ttl) = state_or s (acquire_lease s now canvas_id owner ttl)
call s (renews now lease ttl) = renewed_or s (renew s now lease ttl)
call s (releases lease) = release s lease
call s (puts now canvas_id key val ttl) = presence_put s now canvas_id key val ttl
call s (gets now canvas_id) = (presence_get s now canvas_id).0

unfoldable pub call_all : State → List Call → State
call_all s [] = s
call_all s (c ∷ l) = call_all (call s c) l

-- Calls by others than the holder of `lease`, before it expires.
abbrev pub IsByOther : Lease → Call → Type 0
IsByOther lease (acquires now canvas_id owner ttl) =
    (owner ≢ lease.owner) × (now < lease.expires_at)
IsByOther lease (renews now other ttl) = other.token ≢ lease.token
IsByOther lease (releases other) = other.token ≢ lease.token
IsByOther lease _ = Unit

abbrev pub entry_of : Lease → LeaseEntry
entry_of lease = record { owner = lease.owner; token = lease.token; expires_at = lease.expires_at }

abbrev pub Holds : State → Lease → Type 0
Holds s lease = get lease.canvas_id s.leases ≡ some (entry_of lease)

blocks-other :
    (lease : Lease) (now : ℕ) (owner : Str)
    → owner ≢ lease.owner
    → now < lease.expires_at
    → blocks now owner (entry_of lease) ≡ true
blocks-other lease now owner o t =
    rw (lt→ltb now lease.expires_at t, eq_of_ne lease.owner owner (λ q. o (sym q))) refl

granted-Holds :
    (lease : Lease) (s : State) (now : ℕ) (canvas_id owner : Str) (ttl : ℕ)
    → canvas_id ≢ lease.canvas_id
    → Holds s lease
    → Holds (granted s now canvas_id owner ttl).0 lease
granted-Holds lease s now canvas_id owner ttl apart h =
    get-insert_other canvas_id lease.canvas_id _ s.leases apart ∙ h

acquire-Holds :
    (lease : Lease) (s : State) (now : ℕ) (canvas_id owner : Str) (ttl : ℕ)
    (found : Option LeaseEntry)
    → get canvas_id s.leases ≡ found
    → owner ≢ lease.owner
    → now < lease.expires_at
    → Holds s lease
    → Holds (state_or s (acquire_from s now canvas_id owner ttl found)) lease
acquire-Holds lease s now canvas_id owner ttl none e o t h =
    granted-Holds lease s now canvas_id owner ttl (λ same. cc (h, e, ap (λ c. get c s.leases) same))
      h
acquire-Holds lease s now canvas_id owner ttl (some entry) e o t h =
    elim (Bool-cases (blocks now owner entry)) [
      | inl blocked ↦ rw blocked h
      | inr free ↦ rw free (
          granted-Holds lease s now canvas_id owner ttl
            (λ same.
              let there : entry ≡ entry_of lease = cc (h, e, ap (λ c. get c s.leases) same) in
              cc (ap (blocks now owner) (sym there) ∙ free, blocks-other lease now owner o t))
            h)
    ]

renew-Holds :
    (lease other : Lease) (s : State) (now ttl : ℕ) (found : Option LeaseEntry)
    → get other.canvas_id s.leases ≡ found
    → other.token ≢ lease.token
    → Holds s lease
    → Holds (renewed_or s (renew_entry s now other ttl found)) lease
renew-Holds lease other s now ttl none e o h = h
renew-Holds lease other s now ttl (some entry) e o h =
    elim (Bool-cases (other.canvas_id == lease.canvas_id)) [
      | inl here ↦
          let same = (eq_iff other.canvas_id lease.canvas_id).0 here in
          let there : entry ≡ entry_of lease = cc (h, e, ap (λ c. get c s.leases) same) in
          let refused : (entry.token == other.token) ≡ false =
            rw there (eq_of_ne lease.token other.token (λ q. o (sym q))) in
          rw refused h
      | inr away ↦ elim (Bool-cases (is_holder other entry && ltb now entry.expires_at)) [
        | inl renewed ↦ rw renewed (
            get-insert_other other.canvas_id lease.canvas_id _ s.leases
              (λ same. cc (away, (eq_iff other.canvas_id lease.canvas_id).1 same))
            ∙ h)
        | inr refused ↦ rw refused h
      ]
    ]

release-Holds :
    (lease other : Lease) (s : State) (found : Option LeaseEntry)
    → get other.canvas_id s.leases ≡ found
    → other.token ≢ lease.token
    → Holds s lease
    → Holds (release_entry s other found) lease
release-Holds lease other s none e o h = h
release-Holds lease other s (some entry) e o h =
    elim (Bool-cases (other.canvas_id == lease.canvas_id)) [
      | inl here ↦
          let same = (eq_iff other.canvas_id lease.canvas_id).0 here in
          let there : entry ≡ entry_of lease = cc (h, e, ap (λ c. get c s.leases) same) in
          let refused : (entry.token == other.token) ≡ false =
            rw there (eq_of_ne lease.token other.token (λ q. o (sym q))) in
          rw refused h
      | inr away ↦ elim (Bool-cases (is_holder other entry)) [
        | inl held ↦ rw held (
            get-remove_other other.canvas_id lease.canvas_id s.leases
              (λ same. cc (away, (eq_iff other.canvas_id lease.canvas_id).1 same))
            ∙ h)
        | inr refused ↦ rw refused h
      ]
    ]

pub leases_of_get_live :
    (s : State) (now : ℕ) (canvas_id : Str) (found : Option (Map Str PresenceEntry))
    → (get_live s now canvas_id found).0.leases ≡ s.leases
leases_of_get_live s now canvas_id none = refl
leases_of_get_live s now canvas_id (some entries) = refl

call-Holds :
    (lease : Lease) (s : State) (c : Call)
    → IsByOther lease c
    → Holds s lease
    → Holds (call s c) lease
unfolding call acquire_lease renew release presence_put presence_get
call-Holds lease s (acquires now canvas_id owner ttl) (o, t) h =
    acquire-Holds lease s now canvas_id owner ttl (get canvas_id s.leases) refl o t h
call-Holds lease s (renews now other ttl) o h =
    renew-Holds lease other s now ttl (get other.canvas_id s.leases) refl o h
call-Holds lease s (releases other) o h =
    release-Holds lease other s (get other.canvas_id s.leases) refl o h
call-Holds lease s (puts now canvas_id key val ttl) o h = h
call-Holds lease s (gets now canvas_id) o h =
    ap (get lease.canvas_id) (leases_of_get_live s now canvas_id (get canvas_id s.presence)) ∙ h

call_all-Holds :
    (lease : Lease) (s : State) (l : List Call)
    → All (IsByOther lease) l
    → Holds s lease
    → Holds (call_all s l) lease
unfolding call_all
call_all-Holds lease s [] o h = h
call_all-Holds lease s (c ∷ l) o h =
    call_all-Holds lease (call s c) l o.1 (call-Holds lease s c o.0 h)

abbrev IsGranted : Str → Str → State × Lease → Type 0
IsGranted canvas_id owner (s, lease) =
    Holds s lease × (lease.canvas_id ≡ canvas_id) × (lease.owner ≡ owner)

granted-IsGranted :
    (s : State) (now : ℕ) (canvas_id owner : Str) (ttl : ℕ)
    → IsGranted canvas_id owner (granted s now canvas_id owner ttl)
granted-IsGranted s now canvas_id owner ttl = (get-insert_self canvas_id _ s.leases, refl, refl)

pub acquired-granted :
    (s : State) (now : ℕ) (canvas_id owner : Str) (ttl : ℕ) (r : State × Lease)
    (found : Option LeaseEntry)
    → acquire_from s now canvas_id owner ttl found ≡ ok r
    → granted s now canvas_id owner ttl ≡ r
acquired-granted s now canvas_id owner ttl r none e = cc e
acquired-granted s now canvas_id owner ttl r (some entry) e =
    elim (Bool-cases (blocks now owner entry)) [
      | inl blocked ↦ cc (rw blocked at e)
      | inr free ↦ cc (rw free at e)
    ]

-- Mutual exclusion: after an owner has acquired a lease, and after any calls by others that come
-- before it expires (acquisitions for other owners, renewals and releases with other tokens, and any
-- presence calls), the canvas is still owned by it until the lease expires, and an attempt of any
-- other owner to acquire it before then fails.
pub lease_excludes :
    (s s' : State) (now : ℕ) (canvas_id owner : Str) (ttl : ℕ) (lease : Lease) (l : List Call)
    (later : ℕ) (other : Str) (ttl' : ℕ)
    → acquire_lease s now canvas_id owner ttl ≡ ok (s', lease)
    → All (IsByOther lease) l
    → later < lease.expires_at
    → other ≢ owner
    → (find_owner (call_all s' l) later canvas_id ≡ some owner)
      × (acquire_lease (call_all s' l) later canvas_id other ttl'
          ≡ err (leased_by owner lease.expires_at))
unfolding acquire_lease find_owner
lease_excludes s s' now canvas_id owner ttl lease l later other ttl' e o t n =
    let got = acquired-granted s now canvas_id owner ttl (s', lease) (get canvas_id s.leases) e in
    let (held, where_it_is, whose) =
      subst (IsGranted canvas_id owner) got (granted-IsGranted s now canvas_id owner ttl) in
    let there : get canvas_id (call_all s' l).leases ≡ some (entry_of lease) =
      ap (λ c. get c (call_all s' l).leases) (sym where_it_is) ∙ call_all-Holds lease s' l o held in
    (
      rw (there, lt→ltb later lease.expires_at t, whose) refl,
      rw (there, blocks-other lease later other (λ q. n (q ∙ whose)) t, whose) refl,
    )
