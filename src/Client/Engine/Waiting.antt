-- ===== src/Client/Engine/Waiting.antt =====
-- An operation without an answer in crates/client-runtime/src/sync_engine.rs waits in the outbox and is
-- sent again after a reconnection.
use mathlib.Core.Path.{subst}
use mathlib.Core.Option.{some-injective}
use mathlib.Core.Option.{some-injective}
use shape_ai.Common.{
  ◌≡◌, refl, sym, ◌∙◌, ap, List, [], ◌∷◌, ◌++◌, false, Option, none, some, any, is_empty, ◌==◌,
  if◌then◌else◌, Bool-cases, inl, inr, All,
}
use shape_ai.Common.Int.{ℤ, ltb_ℤ}
use shape_ai.Common.Str.{Str, str_key}
use shape_ai.Common.Map.{get}
use shape_ai.Common.Result.{Result, ok, err}
use shape_ai.Kernel.Model.{ObjectScene}
use shape_ai.Kernel.Op.{ObjectOp, is_empty_batch}
use shape_ai.Kernel.Edit.{Applied}
use shape_ai.Kernel.Apply.{Affine, apply_object_op}
use shape_ai.Client.Wire.{OpId, WireOp, Serde, op_id_key}
use shape_ai.Client.Outbox.{OutboxError, OutboxStore}
use shape_ai.Client.Outbox.Laws.{OutboxLaws, Among}
use shape_ai.Client.Engine.{
  Engine, AuthorResult, take_settled_keys, take_ownership, release_keys, release_ownership,
  release_all, send_envelopes, enqueue, flush, owned_keys, wire_op, persisted, numbered, authored,
  author, remote_touches_owned_key, remote_applied, apply_remote, reseed_outbox, revised, dropped,
  on_ack, on_rejected, replay_op, replay_all, reset, replayed, reconcile_snapshot,
}
use shape_ai.Client.Engine.Events.{
  Event, authors, receives, acks, rejects, reseeds, welcomes, flushes, drains, run, run_all,
}

-- The call does not answer the operation of the envelope, and rows that the outbox is reseeded with
-- include the envelope.
abbrev pub LeavesOpen : {Json : Type 0} → Event Json → WireOp Json → Type 0
LeavesOpen (acks ids revision) x = any (λ id. op_id_key id == op_id_key x.op_id) ids ≡ false
LeavesOpen (rejects ids) x = any (λ id. op_id_key id == op_id_key x.op_id) ids ≡ false
LeavesOpen (reseeds entries) x = Among x entries
LeavesOpen _ x = Unit

module _ {Json S : Type 0} where
  release_one-outbox :
      (e : Engine Json S) (key : Str) (r : Option (List Str))
      → (release_keys e key r).outbox ≡ e.outbox
  release_one-outbox e key none = refl
  release_one-outbox e key (some keys) = refl

  release_all-outbox : (ids : List OpId) (e : Engine Json S) → (release_all e ids).outbox ≡ e.outbox
  unfolding release_all release_ownership
  release_all-outbox [] e = refl
  release_all-outbox (id ∷ ids) e =
      release_all-outbox ids (release_ownership e id)
      ∙ release_one-outbox e (op_id_key id) (get (op_id_key id) e.op_owned_keys)

module _ (affine : Affine) {S : Type 0} (serde : Serde) (store : OutboxStore (serde.Json) S)
    (laws : OutboxLaws store) where
  abbrev Entry : Type 0
  Entry = WireOp (serde.Json)

  abbrev Machine : Type 0
  Machine = Engine (serde.Json) S

  abbrev Waits : Entry → Machine → Type 0
  Waits x e = laws.Stored x e.outbox

  persisted-Waits :
      (e : Machine) (entry : Entry) (inverse : ObjectOp) (p : S × Result OutboxError (Unit {0}))
      (r : AuthorResult)
      → store.append e.outbox entry ≡ p
      → (persisted affine serde store e entry inverse p).1 ≡ ok r
      → Waits entry (persisted affine serde store e entry inverse p).0
        × (r.op_id ≡ some entry.op_id)
  unfolding enqueue
  persisted-Waits e entry inverse (s, err x) r ran h = cc h
  persisted-Waits e entry inverse (s, ok u) r ran h =
      let r_is : record { errors = []; op_id = some entry.op_id; inverse = some inverse } ≡ r =
        cc h in
      (laws.stored_append e.outbox s entry ran, sym (ap (λ (a : AuthorResult). a.op_id) r_is))

  -- The envelope of the operation with some number is the one named, and waits.
  abbrev Saved : Machine → ObjectOp → Str → OpId → Machine → Type 0
  Saved e op ts id e' =
      (n : ℤ) × ((wire_op affine serde store op e.client_id n e.base_revision ts).op_id ≡ id)
      × Waits (wire_op affine serde store op e.client_id n e.base_revision ts) e'

  numbered-Saved :
      (e : Machine) (op : ObjectOp) (ts : Str) (next : ObjectScene) (inverse : ObjectOp)
      (p : S × Result OutboxError ℤ) (r : AuthorResult) (id : OpId)
      → (numbered affine serde store e op ts next inverse p).1 ≡ ok r
      → r.op_id ≡ some id
      → Saved e op ts id (numbered affine serde store e op ts next inverse p).0
  unfolding take_ownership
  numbered-Saved e op ts next inverse (s, err x) r id h own = cc h
  numbered-Saved e op ts next inverse (s, ok n) r id h own =
      let entry = wire_op affine serde store op e.client_id n e.base_revision ts in
      let owned =
        take_ownership (record e { outbox = s; scene = next }) entry.op_id (owned_keys op) in
      let (waits, named) = persisted-Waits owned entry inverse (store.append s entry) r refl h in
      (n, some-injective _ _ (sym named ∙ own), waits)

  authored-Saved :
      (e : Machine) (op : ObjectOp) (ts : Str) (applied : Applied) (r : AuthorResult) (id : OpId)
      → (authored affine serde store e op ts applied).1 ≡ ok r
      → r.op_id ≡ some id
      → Saved e op ts id (authored affine serde store e op ts applied).0
  authored-Saved e op ts (err x) r id h own =
      let r_is : record { errors = x ∷ []; op_id = none; inverse = none } ≡ r = cc h in
      cc (ap (λ (a : AuthorResult). a.op_id) r_is, own)
  authored-Saved e op ts (ok (next, inverse)) r id h own =
      elim (Bool-cases (is_empty_batch inverse)) [
        | inl nothing ↦
            let r_is : record { errors = []; op_id = none; inverse = some inverse } ≡ r =
              cc (rw nothing at h) in
            cc (ap (λ (a : AuthorResult). a.op_id) r_is, own)
        | inr change ↦ rw change (
            numbered-Saved e op ts next inverse (store.next_local_seq e.outbox) r id
              (rw change at h) own)
      ]

  author-Saved :
      (e : Machine) (op : ObjectOp) (ts : Str) (r : AuthorResult) (id : OpId)
      → (author affine serde store e op ts).1 ≡ ok r
      → r.op_id ≡ some id
      → Saved e op ts id (author affine serde store e op ts).0
  unfolding author
  author-Saved e op ts r id h own =
      authored-Saved e op ts (apply_object_op affine e.scene op) r id h own

  -- The number of the envelope is that of the id.
  author-Saves :
      (e : Machine) (op : ObjectOp) (ts : Str) (r : AuthorResult) (id : OpId)
      → (author affine serde store e op ts).1 ≡ ok r
      → r.op_id ≡ some id
      → ((wire_op affine serde store op e.client_id id.local_seq e.base_revision ts).op_id ≡ id)
        × Waits
            (wire_op affine serde store op e.client_id id.local_seq e.base_revision ts)
            (author affine serde store e op ts).0
  unfolding wire_op
  author-Saves e op ts r id h own =
      let (n, named, waits) = author-Saved e op ts r id h own in
      let n_is : n ≡ id.local_seq = ap (λ (x : OpId). x.local_seq) named in
      let envelope = λ (m : ℤ). wire_op affine serde store op e.client_id m e.base_revision ts in
      (
        subst (λ (m : ℤ). (envelope m).op_id ≡ id) n_is named,
        subst (λ (m : ℤ). Waits (envelope m) (author affine serde store e op ts).0) n_is waits,
      )

  -- What each call leaves in the outbox.
  persisted_keeps :
      (x : Entry) (e : Machine) (entry : Entry) (inverse : ObjectOp)
      (p : S × Result OutboxError (Unit {0}))
      → laws.Stored x p.0
      → Waits x (persisted affine serde store e entry inverse p).0
  unfolding enqueue
  persisted_keeps x e entry inverse (s, err y) h = h
  persisted_keeps x e entry inverse (s, ok u) h = h

  numbered_keeps :
      (x : Entry) (e : Machine) (op : ObjectOp) (ts : Str) (next : ObjectScene) (inverse : ObjectOp)
      (p : S × Result OutboxError ℤ)
      → laws.Stored x p.0
      → Waits x (numbered affine serde store e op ts next inverse p).0
  unfolding take_ownership
  numbered_keeps x e op ts next inverse (s, err y) h = h
  numbered_keeps x e op ts next inverse (s, ok n) h =
      let entry = wire_op affine serde store op e.client_id n e.base_revision ts in
      persisted_keeps x
        (take_ownership (record e { outbox = s; scene = next }) entry.op_id (owned_keys op)) entry
        inverse (store.append s entry) (laws.stored_longer s x entry h)

  authored_keeps :
      (x : Entry) (e : Machine) (op : ObjectOp) (ts : Str) (applied : Applied)
      → Waits x e
      → Waits x (authored affine serde store e op ts applied).0
  authored_keeps x e op ts (err y) h = h
  authored_keeps x e op ts (ok (next, inverse)) h = elim (Bool-cases (is_empty_batch inverse)) [
    | inl nothing ↦ rw nothing h
    | inr change ↦ rw change (
        numbered_keeps x e op ts next inverse (store.next_local_seq e.outbox)
          (laws.stored_next e.outbox x h))
  ]

  revised_keeps :
      (x : Entry) (e : Machine) (revision : Option ℤ)
      → Waits x e
      → Waits x (revised affine serde store e revision)
  revised_keeps x e none h = h
  revised_keeps x e (some rev) h = h

  dropped_keeps :
      (x : Entry) (e : Machine) (ids : List OpId) (revision : Option ℤ)
      (p : S × Result OutboxError (Unit {0}))
      → laws.Stored x p.0
      → Waits x (dropped affine serde store e ids revision p).0
  dropped_keeps x e ids revision (s, err y) h = h
  dropped_keeps x e ids revision (s, ok u) h =
      revised_keeps x (release_all (record e { outbox = s }) ids) revision
        (subst (laws.Stored x) (sym (release_all-outbox ids (record e { outbox = s }))) h)

  replay_op-same :
      (e : Machine) (id : OpId) (op : Option ObjectOp)
      → ((replay_op affine serde store e id op).outbox ≡ e.outbox)
        × ((replay_op affine serde store e id op).sent ≡ e.sent)
  unfolding take_ownership
  replay_op-same e id none = (refl, refl)
  replay_op-same e id (some op) = (refl, refl)

  replay_all-same :
      (l : List Entry) (e : Machine)
      → ((replay_all affine serde store e l).outbox ≡ e.outbox)
        × ((replay_all affine serde store e l).sent ≡ e.sent)
  unfolding replay_all
  replay_all-same [] e = (refl, refl)
  replay_all-same (y ∷ l) e =
      let op = serde.from_value y.prop_delta in
      let (a, b) = replay_op-same e y.op_id op in
      let (c, d) = replay_all-same l (replay_op affine serde store e y.op_id op) in (c ∙ a, d ∙ b)

  if_sent :
      (x : Entry) (e : Machine) (l : List Entry)
      → Waits x e
      → Waits x (if is_empty l then e else send_envelopes e l)
  unfolding send_envelopes
  if_sent x e [] h = h
  if_sent x e (y ∷ l) h = h

  replayed_keeps :
      (x : Entry) (e : Machine) (r : Result OutboxError (List Entry))
      → Waits x e
      → Waits x (replayed affine serde store e r).0
  replayed_keeps x e (err y) h = h
  replayed_keeps x e (ok l) h =
      if_sent x (replay_all affine serde store e l) l
        (subst (laws.Stored x) (sym (replay_all-same l e).0) h)

  apply_remote_keeps :
      (x : Entry) (e : Machine) (op : ObjectOp)
      → Waits x e
      → Waits x (apply_remote affine serde store e op).0
  unfolding apply_remote
  apply_remote_keeps x e op h = elim (Bool-cases (remote_touches_owned_key op e.ownership)) [
    | inl owned ↦ rw owned h
    | inr free ↦ rw free (applied_keeps (apply_object_op affine e.scene op))
  ]
    where
      applied_keeps : (r : Applied) → Waits x (remote_applied affine serde store e r).0
      applied_keeps (err y) = h
      applied_keeps (ok (next, inverse)) = h

  reconcile_snapshot_keeps :
      (x : Entry) (e : Machine) (snapshot : ObjectScene)
      → Waits x e
      → Waits x (reconcile_snapshot affine serde store e snapshot).0
  unfolding reconcile_snapshot
  reconcile_snapshot_keeps x e snapshot h =
      elim (Bool-cases (ltb_ℤ snapshot.scene_version e.base_revision)) [
        | inl stale ↦ rw stale h
        | inr fresh ↦
            rw fresh (replayed_keeps x (reset affine serde store e snapshot) (store.all e.outbox) h)
      ]

  flush_keeps : (x : Entry) (e : Machine) → Waits x e → Waits x (flush e)
  unfolding flush
  flush_keeps x e h = elim (Bool-cases (is_empty e.pending)) [
    | inl nothing ↦ rw nothing h
    | inr waiting ↦ rw waiting h
  ]

  run_keeps :
      (x : Entry) (e : Machine) (event : Event (serde.Json))
      → LeavesOpen event x
      → Waits x e
      → Waits x (run affine serde store e event)
  unfolding run author on_ack on_rejected take_settled_keys reseed_outbox
  run_keeps x e (authors op ts) open_still h =
      authored_keeps x e op ts (apply_object_op affine e.scene op) h
  run_keeps x e (receives op) open_still h = apply_remote_keeps x e op h
  run_keeps x e (acks ids revision) open_still h =
      dropped_keeps x e ids revision (store.remove e.outbox ids)
        (laws.stored_remove e.outbox x ids open_still h)
  run_keeps x e (rejects ids) open_still h =
      dropped_keeps x e ids none (store.remove e.outbox ids)
        (laws.stored_remove e.outbox x ids open_still h)
  run_keeps x e (reseeds entries) open_still h = laws.stored_reseed e.outbox x entries open_still
  run_keeps x e (welcomes snapshot) open_still h = reconcile_snapshot_keeps x e snapshot h
  run_keeps x e flushes open_still h = flush_keeps x e h
  run_keeps x e drains open_still h = h

  run_all_keeps :
      (events : List (Event (serde.Json))) (x : Entry) (e : Machine)
      → All (λ event. LeavesOpen event x) events
      → Waits x e
      → Waits x (run_all affine serde store e events)
  unfolding run_all
  run_all_keeps [] x e open_still h = h
  run_all_keeps (event ∷ events) x e open_still h =
      run_all_keeps events x (run affine serde store e event) open_still.1
        (run_keeps x e event open_still.0 h)

  -- A frame with the envelope is the last that was sent.
  abbrev pub Sends : WireOp (serde.Json) → Engine (serde.Json) S → Engine (serde.Json) S → Type 0
  Sends x e e' =
      (frame : List (WireOp (serde.Json))) × (e'.sent ≡ e.sent ++ frame ∷ []) × Among x frame

  replayed-Sends :
      (x : Entry) (e : Machine) (r : Result OutboxError (List Entry))
      → store.all e.outbox ≡ r
      → (replayed affine serde store e r).1 ≡ ok tt
      → Waits x e
      → Sends x e (replayed affine serde store e r).0
  unfolding send_envelopes
  replayed-Sends x e (err y) read h w = cc h
  replayed-Sends x e (ok []) read h w = absurd (laws.stored_all e.outbox [] x read w)
  replayed-Sends x e (ok (y ∷ l)) read h w = (
    y ∷ l,
    ap (λ t. t ++ (y ∷ l) ∷ []) (replay_all-same (y ∷ l) e).1,
    laws.stored_all e.outbox (y ∷ l) x read w,
  )

  reconcile_snapshot-Sends :
      (x : Entry) (e : Machine) (snapshot : ObjectScene)
      → ltb_ℤ snapshot.scene_version e.base_revision ≡ false
      → (reconcile_snapshot affine serde store e snapshot).1 ≡ ok tt
      → Waits x e
      → Sends x e (reconcile_snapshot affine serde store e snapshot).0
  unfolding reconcile_snapshot
  reconcile_snapshot-Sends x e snapshot fresh read w = rw fresh (
      replayed-Sends x (reset affine serde store e snapshot) (store.all e.outbox) refl
        (rw fresh at read) w)

  -- No edit is lost: when an authored operation was given an id, and whatever happens then but an
  -- acknowledgement or a rejection of this id, and a reseed of the outbox without its envelope, a welcome
  -- that is not stale, on an outbox that can be read, sends a frame with the envelope of the operation,
  -- which carries the id.
  pub author-Sends :
      (e : Engine (serde.Json) S) (op : ObjectOp) (ts : Str) (result : AuthorResult) (id : OpId)
      (events : List (Event (serde.Json))) (snapshot : ObjectScene)
      → (author affine serde store e op ts).1 ≡ ok result
      → result.op_id ≡ some id
      → All
          (λ event.
            LeavesOpen event
              (wire_op affine serde store op e.client_id id.local_seq e.base_revision ts))
          events
      → ltb_ℤ snapshot.scene_version
          (run_all affine serde store (author affine serde store e op ts).0 events).base_revision
        ≡ false
      → (reconcile_snapshot affine serde store
          (run_all affine serde store (author affine serde store e op ts).0 events)
          snapshot).1
        ≡ ok tt
      → ((wire_op affine serde store op e.client_id id.local_seq e.base_revision ts).op_id ≡ id)
        × Sends
            (wire_op affine serde store op e.client_id id.local_seq e.base_revision ts)
            (run_all affine serde store (author affine serde store e op ts).0 events)
            (reconcile_snapshot affine serde store
              (run_all affine serde store (author affine serde store e op ts).0 events)
              snapshot).0
  author-Sends e op ts result id events snapshot done own open_still fresh read =
      let (named, waits) = author-Saves e op ts result id done own in
      let x = wire_op affine serde store op e.client_id id.local_seq e.base_revision ts in
      let e' = (author affine serde store e op ts).0 in
      (
        named,
        reconcile_snapshot-Sends x (run_all affine serde store e' events) snapshot fresh read
            (run_all_keeps events x e' open_still waits),
      )
