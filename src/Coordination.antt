-- ===== src/Coordination.antt =====
-- crates/coordination/src/inmem.rs: leases and presence of the in-process coordinator. The clock is
-- read once in each call and is an argument; `u64` milliseconds and the counter are natural numbers.
-- The broadcast channels of tokio are not modelled.
pub mod Leases
pub mod Lost
pub mod Presence
mod Examples
use shape_ai.Common.{
  ℕ, suc, ◌+◌, List, [], ◌∷◌, ◌++◌, map, Bool, true, false, not, ◌&&◌, Option, none, some, ltb,
  if◌then◌else◌, ◌==◌,
}
use shape_ai.Common.Str.{Str, bytes, str_key}
use shape_ai.Common.Decimal.{decimal}
use shape_ai.Common.Map.{Map, get, insert, remove, retain}
use shape_ai.Common.Result.{Result, ok, err}

pub record Lease : Type 0 where
  pub canvas_id : Str
  pub owner : Str
  pub token : Str
  pub expires_at : ℕ

pub record LeaseEntry : Type 0 where
  pub owner : Str
  pub token : Str
  pub expires_at : ℕ

pub record PresenceEntry : Type 0 where
  pub val : List ℕ
  pub expires_at : ℕ

pub record State : Type 0 where
  pub leases : Map Str LeaseEntry
  pub presence : Map Str (Map Str PresenceEntry)
  pub counter : ℕ

-- `InMemoryCoordinator::new`.
abbrev pub new : State
new = record { leases = []; presence = []; counter = 0 }

pub data LeaseError : Type 0 where
  leased_by : (owner : Str) (expires_at : ℕ) → LeaseError
  no_longer_held : LeaseError

-- `next_token` at the counter `n`.
unfoldable pub token_at : Str → ℕ → Str
token_at owner n = owner ++ b'-' ∷ decimal n

-- A different owner that holds the lease now.
abbrev pub blocks : ℕ → Str → LeaseEntry → Bool
blocks now owner entry = ltb now entry.expires_at && not (entry.owner == owner)

abbrev pub granted : State → ℕ → (canvas_id owner : Str) → ℕ → State × Lease
granted s now canvas_id owner ttl =
    let token = token_at owner s.counter in
    (
      record s {
        leases =
            insert canvas_id (record { owner = owner; token = token; expires_at = now + ttl })
              s.leases;
        counter = suc s.counter;
      },
      record { canvas_id = canvas_id; owner = owner; token = token; expires_at = now + ttl },
    )

abbrev pub acquire_from :
    State → ℕ → (canvas_id owner : Str) → ℕ → Option LeaseEntry → Result LeaseError (State × Lease)
acquire_from s now canvas_id owner ttl none = ok (granted s now canvas_id owner ttl)
acquire_from s now canvas_id owner ttl (some entry) =
    if blocks now owner entry
    then err (leased_by entry.owner entry.expires_at)
    else ok (granted s now canvas_id owner ttl)

unfoldable pub acquire_lease :
    State → ℕ → (canvas_id owner : Str) → ℕ → Result LeaseError (State × Lease)
acquire_lease s now canvas_id owner ttl =
    acquire_from s now canvas_id owner ttl (get canvas_id s.leases)

abbrev pub is_holder : Lease → LeaseEntry → Bool
is_holder lease entry = entry.token == lease.token && entry.owner == lease.owner

abbrev pub renew_entry : State → ℕ → Lease → ℕ → Option LeaseEntry → Result LeaseError State
renew_entry s now lease ttl none = err no_longer_held
renew_entry s now lease ttl (some entry) =
    if is_holder lease entry && ltb now entry.expires_at
    then ok (record s {
      leases = insert lease.canvas_id (record entry { expires_at = now + ttl }) s.leases;
    })
    else err no_longer_held

unfoldable pub renew : State → ℕ → Lease → ℕ → Result LeaseError State
renew s now lease ttl = renew_entry s now lease ttl (get lease.canvas_id s.leases)

abbrev pub release_entry : State → Lease → Option LeaseEntry → State
release_entry s lease none = s
release_entry s lease (some entry) =
    if is_holder lease entry then record s { leases = remove lease.canvas_id s.leases } else s

unfoldable pub release : State → Lease → State
release s lease = release_entry s lease (get lease.canvas_id s.leases)

abbrev live_owner : ℕ → Option LeaseEntry → Option Str
live_owner now none = none
live_owner now (some entry) = if ltb now entry.expires_at then some entry.owner else none

unfoldable pub find_owner : State → ℕ → Str → Option Str
find_owner s now canvas_id = live_owner now (get canvas_id s.leases)

abbrev pub or_default : Option (Map Str PresenceEntry) → Map Str PresenceEntry
or_default none = []
or_default (some entries) = entries

unfoldable pub presence_put : State → ℕ → (canvas_id key : Str) → List ℕ → ℕ → State
presence_put s now canvas_id key val ttl = record s {
  presence =
      insert canvas_id
        (insert key (record { val = val; expires_at = now + ttl })
          (or_default (get canvas_id s.presence)))
        s.presence;
}

abbrev pub shown : Str × PresenceEntry → Str × List ℕ
shown (key, entry) = (key, entry.val)

abbrev pub get_live : State → ℕ → Str → Option (Map Str PresenceEntry) → State × List (Str × List ℕ)
get_live s now canvas_id none = (s, [])
get_live s now canvas_id (some entries) =
    let live = retain (λ (e : PresenceEntry). ltb now e.expires_at) entries in
    (record s { presence = insert canvas_id live s.presence }, map shown live)

-- The expired entries are dropped, and the others returned.
unfoldable pub presence_get : State → ℕ → Str → State × List (Str × List ℕ)
presence_get s now canvas_id = get_live s now canvas_id (get canvas_id s.presence)
