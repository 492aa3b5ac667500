-- ===== src/Client/Peers.antt =====
-- crates/client-runtime/src/peers.rs: who else is on the canvas. A frame arrives as serde_json read it,
-- none when it is malformed; a coordinate is not computed with.
pub mod Laws
mod Examples
use shape_ai.Common.{
  ℕ, suc, ◌%◌, List, [], ◌∷◌, Bool, true, false, not, Option, none, some, if◌then◌else◌, ◌==◌,
  get_elem?, length, nat_key,
}
use shape_ai.Common.Int.{ℤ, pos, ◌-ℤ◌, leb_ℤ}
use shape_ai.Common.Str.{Str, bytes, str_lt, str_key}
use shape_ai.Common.Map.{Map, get, insert, retain}
use shape_ai.Kernel.Model.{F64}

pub record WorldPoint : Type 0 where
  pub x : F64
  pub y : F64

pub record Bounds : Type 0 where
  pub x : F64
  pub y : F64
  pub width : F64
  pub height : F64

pub record PresencePayload : Type 0 where
  pub user_id : Str
  pub cursor : Option WorldPoint
  pub viewport : Option Bounds

pub record PeerPresence : Type 0 where
  pub user_id : Str
  pub cursor : Option WorldPoint
  pub viewport : Option Bounds
  pub color : Str
  pub last_seen : ℤ

abbrev pub default_peer_ttl_ms : ℤ
default_peer_ttl_ms = pos 10000

abbrev pub peer_colors : List Str
peer_colors =
    bytes "#6b8df2"
    ∷ bytes "#12a594"
    ∷ bytes "#d17b31"
    ∷ bytes "#b65fcf"
    ∷ bytes "#d84d66"
    ∷ bytes "#3aa655"
    ∷ bytes "#e0a92e"
    ∷ bytes "#5b6df0"
    ∷ []

pub record PeerRegistry : Type 0 where
  pub peers : Map Str PeerPresence
  pub self_user_id : Option Str
  pub ttl_ms : ℤ
  pub color_cursor : ℕ

abbrev ttl_or_default : Option ℤ → ℤ
ttl_or_default none = default_peer_ttl_ms
ttl_or_default (some ms) = ms

-- `PeerRegistry::new`.
unfoldable pub new_registry : Option Str → Option ℤ → PeerRegistry
new_registry self_user_id ttl_ms = record {
  peers = [];
  self_user_id = self_user_id;
  ttl_ms = ttl_or_default ttl_ms;
  color_cursor = 0;
}

abbrev pub is_self : Option Str → Str → Bool
is_self none user_id = false
is_self (some self) user_id = self == user_id

abbrev color_at : Option Str → Str
color_at none = []
color_at (some color) = color

-- The slot of the palette for the next new peer.
unfoldable pub next_color : ℕ → Str
next_color cursor = color_at (get_elem? peer_colors (cursor % 8))

-- The color of a peer, and the next slot.
abbrev pub colored : ℕ → Option PeerPresence → Str × ℕ
colored cursor none = (next_color cursor, suc cursor)
colored cursor (some existing) = (existing.color, cursor)

abbrev pub presence_of : PresencePayload → Str → ℤ → PeerPresence
presence_of payload color now_ms = record {
  user_id = payload.user_id;
  cursor = payload.cursor;
  viewport = payload.viewport;
  color = color;
  last_seen = now_ms;
}

abbrev pub tracked : PeerRegistry → PresencePayload → ℤ → Str × ℕ → PeerRegistry
tracked r payload now_ms (color, cursor) = record r {
  peers = insert payload.user_id (presence_of payload color now_ms) r.peers;
  color_cursor = cursor;
}

unfoldable pub ingest : PeerRegistry → Option PresencePayload → ℤ → PeerRegistry × Bool
ingest r none now_ms = (r, false)
ingest r (some payload) now_ms =
    if is_self r.self_user_id payload.user_id
    then (r, false)
    else (tracked r payload now_ms (colored r.color_cursor (get payload.user_id r.peers)), true)

abbrev pub is_fresh : ℤ → PeerPresence → Bool
is_fresh cutoff peer = leb_ℤ cutoff peer.last_seen

unfoldable pub expire : PeerRegistry → ℤ → PeerRegistry × Bool
expire r now_ms =
    let kept = retain (is_fresh (now_ms -ℤ r.ttl_ms)) r.peers in
    (record r { peers = kept }, not (length kept == length r.peers))

-- `list`: the peers by their user ids.
unfoldable pub insert_peer : PeerPresence → List PeerPresence → List PeerPresence
insert_peer p [] = p ∷ []
insert_peer p (q ∷ l) =
    let rest = insert_peer p l in if str_lt p.user_id q.user_id then p ∷ q ∷ l else q ∷ rest

unfoldable pub sorted_peers : Map Str PeerPresence → List PeerPresence → List PeerPresence
sorted_peers [] sorted = sorted
sorted_peers ((id, p) ∷ m) sorted = sorted_peers m (insert_peer p sorted)

unfoldable pub list_peers : PeerRegistry → List PeerPresence
list_peers r = sorted_peers r.peers []

unfoldable pub get_peer : PeerRegistry → Str → Option PeerPresence
get_peer r user_id = get user_id r.peers

unfoldable pub clear_peers : PeerRegistry → PeerRegistry
clear_peers r = record r { peers = []; color_cursor = 0 }
