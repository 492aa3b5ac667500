-- ===== src/Client/Peers/Examples.antt =====
-- Two users on a canvas, one of whom goes silent.
use shape_ai.Common.{◌≡◌, refl, List, [], ◌∷◌, none, some}
use shape_ai.Common.Int.{pos, ◌-ℤ◌}
use shape_ai.Common.Str.{bytes, str_key}
use shape_ai.Common.Map.{get, insert, retain}
use shape_ai.Client.Peers.{PresencePayload, new_registry, get_peer, ingest, expire, next_color}
use shape_ai.Client.Peers.Laws.{
  Event, hears, ticks, run_event, run_events, follows, heard_of, get_peer-follows,
}

abbrev from_ann : PresencePayload
from_ann = record { user_id = bytes "ann"; cursor = none; viewport = none }

abbrev from_bob : PresencePayload
from_bob = record { user_id = bytes "bob"; cursor = none; viewport = none }

abbrev talk : List Event
talk =
    hears (some from_ann) (pos 100)
    ∷ hears (some from_bob) (pos 9000)
    ∷ hears none (pos 9500)
    ∷ ticks (pos 12000)
    ∷ []

ann_is_gone :
    get_peer (run_events (new_registry (some (bytes "me")) none) talk) (bytes "ann") ≡ none
unfolding get_peer run_events run_event new_registry ingest expire get insert retain next_color ◌-ℤ◌
ann_is_gone = refl

get_peer-follows_example :
    heard_of (get_peer (run_events (new_registry (some (bytes "me")) none) talk) (bytes "bob"))
    ≡ follows
        (some (bytes "me"))
        ((new_registry (some (bytes "me")) none).ttl_ms)
        (bytes "bob")
        none
        talk
get_peer-follows_example = get_peer-follows (some (bytes "me")) none (bytes "bob") talk
