-- ===== src/Client/Engine.antt =====
-- crates/client-runtime/src/sync_engine.rs: the optimistic scene of a client, the ownership of
-- fields with an unacknowledged write, and the replay after a reconnection. serde_json and the
-- outbox are parameters. The transport is the list of the frames that were sent.
pub mod Keys
pub mod Ownership
pub mod Books
pub mod Events
pub mod History
pub mod Waiting
pub mod Remote
use shape_ai.Common.{
  ℕ, List, [], ◌∷◌, ◌++◌, Bool, true, false, Option, none, some, if◌then◌else◌, is_empty, any,
  length, find, map, ◌==◌,
}
use shape_ai.Common.Int.{ℤ, pos, ltb_ℤ, leb_ℤ, ◌+ℤ◌, ◌-ℤ◌, max_ℤ}
use shape_ai.Common.Str.{Str, bytes, str_lt, str_key}
use shape_ai.Common.Map.{Map, get, insert, remove, contains_key}
use shape_ai.Common.Result.{Result, ok, err}
use shape_ai.Kernel.Model.{ObjectId, ObjectScene}
use shape_ai.Kernel.Op
use shape_ai.Kernel.Op.{ObjectOp, Ops, nil, cons, is_empty_batch, target_ids}
use shape_ai.Kernel.Edit.{ApplyError, Applied}
use shape_ai.Kernel.Apply.{Affine, apply_object_op}
use shape_ai.Client.Wire.{OpId, WireOp, Serde, op_id_key}
use shape_ai.Client.Outbox.{OutboxError, OutboxStore}
pub use shape_ai.Client.Engine.Keys.{AuthorResult, or_zero}
unfoldable pub use shape_ai.Client.Engine.Keys.{
  owned_keys, remote_touches_owned_key, count_up, count_down,
}
use shape_ai.Client.Engine.Keys.{default_coalesce_ms}

pub record Engine (Json S : Type 0) : Type 0 where
  pub client_id : Str
  pub outbox : S
  pub sent : List (List (WireOp Json))
  pub coalesce_ms : ℤ
  pub scene : ObjectScene
  pub base_revision : ℤ
  pub pending : List (WireOp Json)
  pub timer_armed : Bool
  pub ownership : Map Str ℤ
  pub op_owned_keys : Map Str (List Str)
  pub settled_keys : List Str

abbrev head_or_empty : List ObjectId → Str
head_or_empty [] = []
head_or_empty (id ∷ ids) = id

abbrev or_default_ms : Option ℤ → ℤ
or_default_ms none = default_coalesce_ms
or_default_ms (some ms) = ms

abbrev scene_or : ObjectScene → Applied → ObjectScene
scene_or scene (ok (next, inverse)) = next
scene_or scene (err e) = scene

abbrev entries_or {ℓ} : {A : Type ℓ} → Result OutboxError (List A) → List A
entries_or (ok l) = l
entries_or (err e) = []

module _ {Json S : Type 0} where
  -- `SyncEngine::new`.
  abbrev pub new : ObjectScene → Str → S → Option ℤ → Engine Json S
  new initial_scene client_id outbox coalesce_ms = record {
    client_id = client_id;
    outbox = outbox;
    sent = [];
    coalesce_ms = or_default_ms coalesce_ms;
    scene = initial_scene;
    base_revision = initial_scene.scene_version;
    pending = [];
    timer_armed = false;
    ownership = [];
    op_owned_keys = [];
    settled_keys = [];
  }

  unfoldable pub take_settled_keys : Engine Json S → Engine Json S × List Str
  take_settled_keys e = (record e { settled_keys = [] }, e.settled_keys)

  unfoldable pub send_envelopes : Engine Json S → List (WireOp Json) → Engine Json S
  send_envelopes e entries = record e { sent = e.sent ++ entries ∷ [] }

  unfoldable pub enqueue : Engine Json S → WireOp Json → Engine Json S
  enqueue e entry = record e { pending = e.pending ++ entry ∷ []; timer_armed = true }

  unfoldable pub take_ownership : Engine Json S → OpId → List Str → Engine Json S
  take_ownership e op_id keys = record e {
    op_owned_keys = insert (op_id_key op_id) keys e.op_owned_keys;
    ownership = count_up e.ownership keys;
  }

  abbrev pub release_keys : Engine Json S → Str → Option (List Str) → Engine Json S
  release_keys e key none = e
  release_keys e key (some keys) =
      let counted = count_down e.ownership e.settled_keys keys in
      record e {
        op_owned_keys = remove key e.op_owned_keys;
        ownership = counted.0;
        settled_keys = counted.1;
      }

  unfoldable pub release_ownership : Engine Json S → OpId → Engine Json S
  release_ownership e op_id =
      release_keys e (op_id_key op_id) (get (op_id_key op_id) e.op_owned_keys)

  unfoldable pub release_all : Engine Json S → List OpId → Engine Json S
  release_all e [] = e
  release_all e (id ∷ ids) = release_all (release_ownership e id) ids

  -- `flush` and `on_flush_due`.
  unfoldable pub flush : Engine Json S → Engine Json S
  flush e =
      if is_empty e.pending
      then record e { timer_armed = false }
      else record e { timer_armed = false; pending = []; sent = e.sent ++ e.pending ∷ [] }

module _ (affine : Affine) {S : Type 0} (serde : Serde) (store : OutboxStore (serde.Json) S) where
  unfoldable pub wire_op : ObjectOp → Str → ℤ → ℤ → Str → WireOp (serde.Json)
  wire_op op client_id local_seq base_revision ts = record {
    op_id = record { client_id = client_id; local_seq = local_seq };
    object_id = head_or_empty (target_ids op);
    kind = serde.kind_tag (serde.to_value op);
    prop_delta = serde.to_value op;
    base_revision = base_revision;
    actor = client_id;
    ts = ts;
  }

  unfoldable pub outbox_len : Engine (serde.Json) S → ℕ
  outbox_len e = length (entries_or (store.all e.outbox))

  unfoldable pub outbox_entry : Engine (serde.Json) S → OpId → Option (WireOp (serde.Json))
  outbox_entry e op_id =
      find (λ x. op_id_key x.op_id == op_id_key op_id) (entries_or (store.all e.outbox))

  unfoldable pub reseed_outbox :
      Engine (serde.Json) S → List (WireOp (serde.Json)) → Engine (serde.Json) S
  reseed_outbox e entries = record e { outbox = (store.reseed e.outbox entries).0 }

  abbrev pub persisted :
      Engine (serde.Json) S
      → WireOp (serde.Json)
      → ObjectOp
      → S × Result OutboxError (Unit {0})
      → Engine (serde.Json) S × Result OutboxError AuthorResult
  persisted e entry inverse (s, err x) = (record e { outbox = s }, err x)
  persisted e entry inverse (s, ok u) = (
    enqueue (record e { outbox = s }) entry,
    ok (record { errors = []; op_id = some entry.op_id; inverse = some inverse }),
  )

  abbrev pub numbered :
      Engine (serde.Json) S
      → ObjectOp
      → Str
      → ObjectScene
      → ObjectOp
      → S × Result OutboxError ℤ
      → Engine (serde.Json) S × Result OutboxError AuthorResult
  numbered e op ts next inverse (s, err x) = (record e { outbox = s }, err x)
  numbered e op ts next inverse (s, ok local_seq) =
      let entry = wire_op op e.client_id local_seq e.base_revision ts in
      let owned =
        take_ownership (record e { outbox = s; scene = next }) entry.op_id (owned_keys op) in
      persisted owned entry inverse (store.append s entry)

  abbrev pub authored :
      Engine (serde.Json) S
      → ObjectOp
      → Str
      → Applied
      → Engine (serde.Json) S × Result OutboxError AuthorResult
  authored e op ts (err x) = (e, ok (record { errors = x ∷ []; op_id = none; inverse = none }))
  authored e op ts (ok (next, inverse)) =
      if is_empty_batch inverse
      then (e, ok (record { errors = []; op_id = none; inverse = some inverse }))
      else numbered e op ts next inverse (store.next_local_seq e.outbox)

  unfoldable pub author :
      Engine (serde.Json) S
      → ObjectOp
      → Str
      → Engine (serde.Json) S × Result OutboxError AuthorResult
  author e op ts = authored e op ts (apply_object_op affine e.scene op)

  abbrev pub remote_applied : Engine (serde.Json) S → Applied → Engine (serde.Json) S × Bool
  remote_applied e (err x) = (e, false)
  remote_applied e (ok (next, inverse)) = (record e { scene = next }, true)

  unfoldable pub apply_remote : Engine (serde.Json) S → ObjectOp → Engine (serde.Json) S × Bool
  apply_remote e op =
      if remote_touches_owned_key op e.ownership
      then (e, false)
      else remote_applied e (apply_object_op affine e.scene op)

  abbrev pub revised : Engine (serde.Json) S → Option ℤ → Engine (serde.Json) S
  revised e none = e
  revised e (some rev) = record e { base_revision = max_ℤ e.base_revision rev }

  abbrev pub dropped :
      Engine (serde.Json) S
      → List OpId
      → Option ℤ
      → S × Result OutboxError (Unit {0})
      → Engine (serde.Json) S × Result OutboxError (Unit {0})
  dropped e op_ids revision (s, err x) = (record e { outbox = s }, err x)
  dropped e op_ids revision (s, ok u) =
      (revised (release_all (record e { outbox = s }) op_ids) revision, ok tt)

  unfoldable pub on_ack :
      Engine (serde.Json) S
      → List OpId
      → Option ℤ
      → Engine (serde.Json) S × Result OutboxError (Unit {0})
  on_ack e op_ids revision = dropped e op_ids revision (store.remove e.outbox op_ids)

  unfoldable pub on_rejected :
      Engine (serde.Json) S → List OpId → Engine (serde.Json) S × Result OutboxError (Unit {0})
  on_rejected e op_ids = dropped e op_ids none (store.remove e.outbox op_ids)

  abbrev pub replay_op : Engine (serde.Json) S → OpId → Option ObjectOp → Engine (serde.Json) S
  replay_op e op_id none = e
  replay_op e op_id (some op) =
      take_ownership (record e { scene = scene_or e.scene (apply_object_op affine e.scene op) })
        op_id (owned_keys op)

  unfoldable pub replay_all :
      Engine (serde.Json) S → List (WireOp (serde.Json)) → Engine (serde.Json) S
  replay_all e [] = e
  replay_all e (entry ∷ entries) =
      replay_all (replay_op e entry.op_id (serde.from_value entry.prop_delta)) entries

  abbrev pub reset : Engine (serde.Json) S → ObjectScene → Engine (serde.Json) S
  reset e snapshot = record e {
    base_revision = snapshot.scene_version;
    scene = snapshot;
    ownership = [];
    op_owned_keys = [];
  }

  abbrev pub replayed :
      Engine (serde.Json) S
      → Result OutboxError (List (WireOp (serde.Json)))
      → Engine (serde.Json) S × Result OutboxError (Unit {0})
  replayed e (err x) = (e, err x)
  replayed e (ok entries) =
      let replay = replay_all e entries in
      (if is_empty entries then replay else send_envelopes replay entries, ok tt)

  unfoldable pub reconcile_snapshot :
      Engine (serde.Json) S → ObjectScene → Engine (serde.Json) S × Result OutboxError (Unit {0})
  reconcile_snapshot e snapshot =
      if ltb_ℤ snapshot.scene_version e.base_revision
      then (e, ok tt)
      else replayed (reset e snapshot) (store.all e.outbox)
