-- ===== src/Coordination/Presence.antt =====
-- Presence is seen until it expires.
use shape_ai.Common.{
  ℕ, ◌+◌, ◌≡◌, refl, ◌∙◌, ap, List, [], ◌∷◌, map, Option, none, some, arith, ltb, if◌then◌else◌,
  ◌==◌,
}
use shape_ai.Common.Str.{Str, str_key}
use shape_ai.Common.Map.{
  Map, get, insert, retain, IsMap, keep, get-retain, get-insert, get-insert_self, insert-IsMap,
}
use shape_ai.Coordination.{
  State, PresenceEntry, or_default, presence_put, presence_get, get_live, shown,
}

abbrev pub entries_at : State → Str → Map Str PresenceEntry
entries_at s canvas_id = or_default (get canvas_id s.presence)

-- What a reader at `now` sees of an entry.
abbrev pub visible : ℕ → Option PresenceEntry → Option (List ℕ)
visible now none = none
visible now (some e) = if ltb now e.expires_at then some e.val else none

abbrev val_of : Option PresenceEntry → Option (List ℕ)
val_of none = none
val_of (some e) = some e.val

get-shown : (key : Str) (l : Map Str PresenceEntry) → get key (map shown l) ≡ val_of (get key l)
unfolding get
get-shown key [] = refl
get-shown key ((j, e) ∷ l) = ground (arith, get-shown key l)

kept_is_visible :
    (now : ℕ) (o : Option PresenceEntry)
    → val_of (keep (λ (e : PresenceEntry). ltb now e.expires_at) o) ≡ visible now o
kept_is_visible now none = refl
kept_is_visible now (some e) = ground arith

get-get_live :
    (s : State) (now : ℕ) (canvas_id key : Str) (found : Option (Map Str PresenceEntry))
    → IsMap (or_default found)
    → get key (get_live s now canvas_id found).1 ≡ visible now (get key (or_default found))
unfolding get
get-get_live s now canvas_id key none m = refl
get-get_live s now canvas_id key (some entries) m =
    get-shown key (retain (λ (e : PresenceEntry). ltb now e.expires_at) entries)
    ∙ ap val_of (get-retain (λ (e : PresenceEntry). ltb now e.expires_at) key entries m)
    ∙ kept_is_visible now (get key entries)

-- A reader gets exactly the entries that have not expired, each with its value.
pub get-presence_get :
    (s : State) (now : ℕ) (canvas_id key : Str)
    → IsMap (entries_at s canvas_id)
    → get key (presence_get s now canvas_id).1 ≡ visible now (get key (entries_at s canvas_id))
unfolding presence_get
get-presence_get s now canvas_id key m =
    get-get_live s now canvas_id key (get canvas_id s.presence) m

-- What was put is seen by a reader until it expires and by none from then on, and the other keys of
-- the canvas are seen as before.
pub get-presence_put :
    (s : State) (now later : ℕ) (canvas_id key j : Str) (val : List ℕ) (ttl : ℕ)
    → IsMap (entries_at s canvas_id)
    → get j (presence_get (presence_put s now canvas_id key val ttl) later canvas_id).1 ≡ (
        if key == j
        then (if ltb later (now + ttl) then some val else none)
        else visible later (get j (entries_at s canvas_id)))
unfolding presence_put
get-presence_put s now later canvas_id key j val ttl m =
    let e : PresenceEntry = record { val = val; expires_at = now + ttl } in
    let t = presence_put s now canvas_id key val ttl in
    let at_canvas : entries_at t canvas_id ≡ insert key e (entries_at s canvas_id) =
      ap or_default
        (get-insert_self canvas_id (insert key e (entries_at s canvas_id)) s.presence) in
    get-presence_get t later canvas_id j
      (rw at_canvas (insert-IsMap key e (entries_at s canvas_id) m))
    ∙ ap (λ x. visible later (get j x)) at_canvas
    ∙ ap (visible later) (get-insert key j e (entries_at s canvas_id))
    ∙ ground arith
