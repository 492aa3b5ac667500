-- ===== src/Client/Peers/Laws.antt =====
-- Each peer of crates/client-runtime/src/peers.rs goes by its own frames alone.
use shape_ai.Common.{
  ℕ, ◌≡◌, refl, ◌∙◌, ap, List, [], ◌∷◌, Bool, true, false, Option, none, some, if◌then◌else◌, ◌==◌,
  Bool-cases, inl, inr,
}
use shape_ai.Common.Int.{ℤ, ◌-ℤ◌, leb_ℤ}
use shape_ai.Common.Str.{Str, str_key}
use shape_ai.Common.Map.{get, keep, IsMap, get-insert, get-retain, insert-IsMap, retain-IsMap}
use shape_ai.Client.Peers.{
  PresencePayload, PeerPresence, PeerRegistry, new_registry, is_self, colored, presence_of, tracked,
  ingest, is_fresh, expire, get_peer, clear_peers,
}

pub data Event : Type 0 where
  hears : (payload : Option PresencePayload) (now_ms : ℤ) → Event
  ticks : (now_ms : ℤ) → Event
  clears : Event

unfoldable pub run_event : PeerRegistry → Event → PeerRegistry
run_event r (hears payload now_ms) = (ingest r payload now_ms).0
run_event r (ticks now_ms) = (expire r now_ms).0
run_event r clears = clear_peers r

unfoldable pub run_events : PeerRegistry → List Event → PeerRegistry
run_events r [] = r
run_events r (event ∷ events) = run_events (run_event r event) events

-- A frame and when it came.
abbrev pub Heard : Type 0
Heard = PresencePayload × ℤ

abbrev pub heard_of : Option PeerPresence → Option Heard
heard_of none = none
heard_of (some p) =
    some (record { user_id = p.user_id; cursor = p.cursor; viewport = p.viewport }, p.last_seen)

abbrev still_fresh : ℤ → Option Heard → Option Heard
still_fresh cutoff none = none
still_fresh cutoff (some (payload, at)) = if leb_ℤ cutoff at then some (payload, at) else none

-- What one user is known by after an event: its latest frame, unless it is too old.
unfoldable pub next_heard : Option Str → ℤ → Str → Option Heard → Event → Option Heard
next_heard self ttl user heard (hears none now_ms) = heard
next_heard self ttl user heard (hears (some payload) now_ms) =
    if is_self self payload.user_id
    then heard
    else if payload.user_id == user
    then some (payload, now_ms)
    else heard
next_heard self ttl user heard (ticks now_ms) = still_fresh (now_ms -ℤ ttl) heard
next_heard self ttl user heard clears = none

unfoldable pub follows : Option Str → ℤ → Str → Option Heard → List Event → Option Heard
follows self ttl user heard [] = heard
follows self ttl user heard (event ∷ events) =
    follows self ttl user (next_heard self ttl user heard event) events

heard_if :
    (b : Bool) (p : PeerPresence) (o : Option PeerPresence)
    → heard_of (if b then some p else o) ≡ (if b then heard_of (some p) else heard_of o)
heard_if true p o = refl
heard_if false p o = refl

heard_keep :
    (cutoff : ℤ) (o : Option PeerPresence)
    → heard_of (keep (is_fresh cutoff) o) ≡ still_fresh cutoff (heard_of o)
heard_keep cutoff none = refl
heard_keep cutoff (some p) = elim (Bool-cases (leb_ℤ cutoff p.last_seen)) [
  | inl fresh ↦ rw fresh refl
  | inr old ↦ rw old refl
]

-- The registry after an event has its settings, is a map, and shows of a user what follows.
record Follows (r after : PeerRegistry) (user : Str) (event : Event) : Type 0 where
  same_self : after.self_user_id ≡ r.self_user_id
  same_ttl : after.ttl_ms ≡ r.ttl_ms
  is_map : IsMap after.peers
  heard :
      heard_of (get user after.peers)
      ≡ next_heard r.self_user_id r.ttl_ms user (heard_of (get user r.peers)) event

tracked-Follows :
    (r : PeerRegistry) (user : Str) (payload : PresencePayload) (now_ms : ℤ) (slot : Str × ℕ)
    → IsMap r.peers
    → is_self r.self_user_id payload.user_id ≡ false
    → Follows r (tracked r payload now_ms slot) user (hears (some payload) now_ms)
unfolding next_heard
tracked-Follows r user payload now_ms (color, cursor) m other =
    let p = presence_of payload color now_ms in
    record {
      same_self = refl;
      same_ttl = refl;
      is_map = insert-IsMap payload.user_id p r.peers m;
      heard = rw other (
          ap heard_of (get-insert payload.user_id user p r.peers)
          ∙ heard_if (payload.user_id == user) p (get user r.peers));
    }

hears-Follows :
    (r : PeerRegistry) (user : Str) (payload : PresencePayload) (now_ms : ℤ) (own : Bool)
    → IsMap r.peers
    → is_self r.self_user_id payload.user_id ≡ own
    → (let p : PeerRegistry × Bool = if own then (r, false) else (
      tracked r payload now_ms (colored r.color_cursor (get payload.user_id r.peers)),
      true,
    ) in
        Follows r (p.0) user (hears (some payload) now_ms))
unfolding next_heard
hears-Follows r user payload now_ms true m self = record {
  same_self = refl;
  same_ttl = refl;
  is_map = m;
  heard = rw self refl;
}
hears-Follows r user payload now_ms false m other =
    tracked-Follows r user payload now_ms (colored r.color_cursor (get payload.user_id r.peers)) m
      other

run_event-Follows :
    (r : PeerRegistry) (user : Str) (event : Event)
    → IsMap r.peers
    → Follows r (run_event r event) user event
unfolding run_event ingest expire clear_peers next_heard get
run_event-Follows r user (hears none now_ms) m = record {
  same_self = refl;
  same_ttl = refl;
  is_map = m;
  heard = refl;
}
run_event-Follows r user (hears (some payload) now_ms) m =
    hears-Follows r user payload now_ms (is_self r.self_user_id payload.user_id) m refl
run_event-Follows r user (ticks now_ms) m =
    let p = is_fresh (now_ms -ℤ r.ttl_ms) in
    record {
      same_self = refl;
      same_ttl = refl;
      is_map = retain-IsMap p r.peers m;
      heard =
          ap heard_of (get-retain p user r.peers m)
          ∙ heard_keep (now_ms -ℤ r.ttl_ms) (get user r.peers);
    }
run_event-Follows r user clears m = record {
  same_self = refl;
  same_ttl = refl;
  is_map = tt;
  heard = refl;
}

follows_run :
    (r : PeerRegistry) (user : Str) (events : List Event)
    → IsMap r.peers
    → heard_of (get user (run_events r events).peers)
      ≡ follows r.self_user_id r.ttl_ms user (heard_of (get user r.peers)) events
unfolding run_events follows
follows_run r user [] m = refl
follows_run r user (event ∷ events) m =
    let f = run_event-Follows r user event m in
    follows_run (run_event r event) user events f.is_map
    ∙ ap
        (λ self.
          follows self (run_event r event).ttl_ms user
            (heard_of (get user (run_event r event).peers)) events)
        f.same_self
    ∙ ap
        (λ ttl.
          follows r.self_user_id ttl user (heard_of (get user (run_event r event).peers)) events)
        f.same_ttl
    ∙ ap (λ heard. follows r.self_user_id r.ttl_ms user heard events) f.heard

-- After any frames, ticks and clears, a new registry shows of each user its latest frame, as it came
-- and when, unless a tick found it older than the window or a clear_peers came after it; whatever others
-- sent. Malformed frames and frames of the local user count for nothing.
pub get_peer-follows :
    (self : Option Str) (ttl_ms : Option ℤ) (user : Str) (events : List Event)
    → heard_of (get_peer (run_events (new_registry self ttl_ms) events) user)
      ≡ follows self ((new_registry self ttl_ms).ttl_ms) user none events
unfolding get_peer new_registry get
get_peer-follows self ttl_ms user events = follows_run (new_registry self ttl_ms) user events tt
