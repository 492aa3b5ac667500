-- ===== src/Coordination/Examples.antt =====
-- Leases and presence on concrete calls.
use shape_ai.Common.{◌≡◌, ◌≢◌, refl, [], ◌∷◌, none, some, arith, ◌==◌, eq_iff, true}
use shape_ai.Common.Str.{Str, bytes, str_key}
use shape_ai.Common.Map
use shape_ai.Common.Map.{get, insert, IsMap}
use shape_ai.Common.Decimal.{decimal, emit}
use shape_ai.Common.Result.{ok, err}
use shape_ai.Coordination.{
  State, Lease, new, acquire_lease, token_at, renew, release, find_owner, leased_by, no_longer_held,
  presence_put, presence_get,
}
use shape_ai.Coordination.Leases.{acquires, call_all, lease_excludes}
use shape_ai.Coordination.Lost.{lost_stays_lost}
use shape_ai.Coordination.Presence.{entries_at, visible, get-presence_get, get-presence_put}

abbrev canvas : Str
canvas = bytes "c"

abbrev ann_lease : Lease
ann_lease = record {
  canvas_id = canvas;
  owner = bytes "ann";
  token = bytes "ann-0";
  expires_at = 15;
}

abbrev held_by_ann : State
held_by_ann = record {
  leases = (canvas, record { owner = bytes "ann"; token = bytes "ann-0"; expires_at = 15 }) ∷ [];
  presence = [];
  counter = 1;
}

ann_acquires : acquire_lease new 5 canvas (bytes "ann") 10 ≡ ok (held_by_ann, ann_lease)
unfolding acquire_lease get insert token_at decimal emit
ann_acquires = refl

abbrev bob_lease : Lease
bob_lease = record {
  canvas_id = canvas;
  owner = bytes "bob";
  token = bytes "bob-1";
  expires_at = 30;
}

abbrev held_by_bob : State
held_by_bob = record {
  leases = (canvas, record { owner = bytes "bob"; token = bytes "bob-1"; expires_at = 30 }) ∷ [];
  presence = [];
  counter = 2;
}

bob_steals :
    acquire_lease (call_all held_by_ann []) 20 canvas (bytes "bob") 10 ≡ ok (held_by_bob, bob_lease)
unfolding acquire_lease get insert token_at decimal emit call_all
bob_steals = refl

not_ann : ◌≢◌ {A = Str} (bytes "bob") (bytes "ann")
not_ann e =
    let same : (bytes "bob" == bytes "ann") ≡ true = (eq_iff (bytes "bob") (bytes "ann")).1 e in
    cc same

lease_excludes_example :
    (find_owner (call_all held_by_ann (acquires 7 canvas (bytes "bob") 10 ∷ [])) 9 canvas
      ≡ some (bytes "ann"))
    × (acquire_lease
          (call_all held_by_ann (acquires 7 canvas (bytes "bob") 10 ∷ []))
          9
          canvas
          (bytes "bob")
          10
        ≡ err (leased_by (bytes "ann") 15))
lease_excludes_example =
    lease_excludes new held_by_ann 5 canvas (bytes "ann") 10 ann_lease
      (acquires 7 canvas (bytes "bob") 10 ∷ []) 9 (bytes "bob") 10 ann_acquires
      ((not_ann, omega arith), tt) (omega arith) not_ann

lost_stays_lost_example :
    (renew (call_all held_by_bob []) 25 ann_lease 10 ≡ err no_longer_held)
    × (release (call_all held_by_bob []) ann_lease ≡ call_all held_by_bob [])
lost_stays_lost_example =
    lost_stays_lost new held_by_ann held_by_bob canvas (bytes "ann") (bytes "bob") 5 20 25 10 10 10
      ann_lease bob_lease [] [] ann_acquires bob_steals

no_entries : IsMap (entries_at held_by_ann canvas)
unfolding get
no_entries = tt

-- Ann's entry expires at 5, Bob's at 2.
abbrev two_cursors : State
two_cursors = record held_by_ann {
  presence =
      (
        canvas,
        (bytes "ann", record { val = 7 ∷ []; expires_at = 5 })
            ∷ (bytes "bob", record { val = 8 ∷ []; expires_at = 2 })
            ∷ [],
      )
      ∷ [];
}

cursors-IsMap : IsMap (entries_at two_cursors canvas)
unfolding get
cursors-IsMap = (refl, (refl, tt))

get-presence_get_example :
    get (bytes "ann") (presence_get two_cursors 3 canvas).1
    ≡ visible 3 (get (bytes "ann") (entries_at two_cursors canvas))
get-presence_get_example = get-presence_get two_cursors 3 canvas (bytes "ann") cursors-IsMap

ann_is_seen : visible 3 (get (bytes "ann") (entries_at two_cursors canvas)) ≡ some (7 ∷ [])
unfolding get
ann_is_seen = refl

bob_is_gone : get (bytes "bob") (presence_get two_cursors 3 canvas).1 ≡ none
unfolding presence_get get insert Map.retain
bob_is_gone = refl

get-presence_put_example :
    get
      (bytes "ann")
      (presence_get (presence_put held_by_ann 1 canvas (bytes "ann") (7 ∷ []) 5) 3 canvas).1
    ≡ some (7 ∷ [])
get-presence_put_example =
    get-presence_put held_by_ann 1 3 canvas (bytes "ann") (bytes "ann") (7 ∷ []) 5 no_entries
