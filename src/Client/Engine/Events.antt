-- ===== src/Client/Engine/Events.antt =====
-- Any sequence of calls of the engine of crates/client-runtime/src/sync_engine.rs.
use mathlib.Core.Path.{subst}
use shape_ai.Common.{
  ◌≡◌, refl, sym, ◌∙◌, ap, List, [], ◌∷◌, false, Option, none, some, arith, any, is_empty, ◌==◌,
  eq_iff, if◌then◌else◌, Bool-cases, inl, inr, All,
}
use shape_ai.Common.Int.{ℤ, ◌≤ℤ◌, ltb_ℤ}
use shape_ai.Common.Str.{Str, str_key}
use shape_ai.Common.Map.{Map, get, insert, get-insert}
use shape_ai.Common.Result.{Result, ok, err}
use shape_ai.Kernel.Model.{ObjectScene}
use shape_ai.Kernel.Op.{ObjectOp, is_empty_batch}
use shape_ai.Kernel.Edit.{Applied}
use shape_ai.Kernel.Apply.{Affine, apply_object_op}
use shape_ai.Client.Wire.{OpId, WireOp, Serde, op_id_key}
use shape_ai.Client.Outbox.{OutboxError, OutboxStore}
use shape_ai.Client.Outbox.Laws.{OutboxLaws, Distinct, AtMost}
use shape_ai.Client.Engine.{
  Engine, take_settled_keys, take_ownership, release_ownership, release_all, send_envelopes,
  enqueue, flush, owned_keys, wire_op, persisted, numbered, authored, author,
  remote_touches_owned_key, remote_applied, apply_remote, reseed_outbox, revised, dropped, on_ack,
  on_rejected, replay_op, replay_all, reset, replayed, reconcile_snapshot,
}
use shape_ai.Client.Engine.Books.{
  HasBooks, Books-empty, Books-later, Books-fresh, Books-take, release-HasBooks,
}

pub data Event (Json : Type 0) : Type 0 where
  authors : (op : ObjectOp) (ts : Str) → Event Json
  receives : (op : ObjectOp) → Event Json
  acks : (op_ids : List OpId) (revision : Option ℤ) → Event Json
  rejects : (op_ids : List OpId) → Event Json
  reseeds : (entries : List (WireOp Json)) → Event Json
  welcomes : (snapshot : ObjectScene) → Event Json
  flushes drains : Event Json

module _ (affine : Affine) {S : Type 0} (serde : Serde) (store : OutboxStore (serde.Json) S) where
  unfoldable pub run : Engine (serde.Json) S → Event (serde.Json) → Engine (serde.Json) S
  run e (authors op ts) = (author affine serde store e op ts).0
  run e (receives op) = (apply_remote affine serde store e op).0
  run e (acks op_ids revision) = (on_ack affine serde store e op_ids revision).0
  run e (rejects op_ids) = (on_rejected affine serde store e op_ids).0
  run e (reseeds entries) = reseed_outbox affine serde store e entries
  run e (welcomes snapshot) = (reconcile_snapshot affine serde store e snapshot).0
  run e flushes = flush e
  run e drains = (take_settled_keys e).0

  unfoldable pub run_all : Engine (serde.Json) S → List (Event (serde.Json)) → Engine (serde.Json) S
  run_all e [] = e
  run_all e (event ∷ events) = run_all (run e event) events

module _ (affine : Affine) {S : Type 0} (serde : Serde) (store : OutboxStore (serde.Json) S)
    (laws : OutboxLaws store) where
  abbrev pub IsOwned : Engine (serde.Json) S → Type 0
  IsOwned e = HasBooks e (laws.last e.outbox) × laws.IsSound e.outbox

  persisted-IsOwned :
      (e : Engine (serde.Json) S) (entry : WireOp (serde.Json)) (inverse : ObjectOp)
      (p : S × Result OutboxError (Unit {0}))
      → HasBooks e (laws.last p.0)
      → laws.IsSound p.0
      → IsOwned (persisted affine serde store e entry inverse p).0
  unfolding enqueue
  persisted-IsOwned e entry inverse (s, err x) b h = (b, h)
  persisted-IsOwned e entry inverse (s, ok u) b h = (b, h)

  numbered-IsOwned :
      (e : Engine (serde.Json) S) (op : ObjectOp) (ts : Str) (next : ObjectScene)
      (inverse : ObjectOp) (p : S × Result OutboxError ℤ)
      → IsOwned e
      → store.next_local_seq e.outbox ≡ p
      → IsOwned (numbered affine serde store e op ts next inverse p).0
  unfolding take_ownership wire_op
  numbered-IsOwned e op ts next inverse (s, err x) (b, h) run =
      let (sound, later) = laws.next_keeps e.outbox h in
      let s_is : (store.next_local_seq e.outbox).0 ≡ s = ap (λ r. r.0) run in
      (
        Books-later e.ownership e.op_owned_keys (laws.last e.outbox) (laws.last s)
            (subst (λ t. laws.last e.outbox ≤ℤ laws.last t) s_is later) b,
        subst laws.IsSound s_is sound,
      )
  numbered-IsOwned e op ts next inverse (s, ok n) (b, h) run =
      let (rises, last_is) = laws.next_rises e.outbox s n h run in
      let entry = wire_op affine serde store op e.client_id n e.base_revision ts in
      let (sound, appended) = laws.append_new e.outbox s n entry h run refl in
      let later =
        Books-later e.ownership e.op_owned_keys (laws.last e.outbox) n (omega (arith, rises)) b in
      let free = Books-fresh e.ownership e.op_owned_keys (laws.last e.outbox) entry.op_id b rises in
      let taken =
        Books-take e.ownership e.op_owned_keys n entry.op_id (owned_keys op) later free
          (omega arith) in
      let owned =
        take_ownership (record e { outbox = s; scene = next }) entry.op_id (owned_keys op) in
      persisted-IsOwned owned entry inverse (store.append s entry)
        (subst (HasBooks owned) (sym appended) taken) sound

  authored-IsOwned :
      (e : Engine (serde.Json) S) (op : ObjectOp) (ts : Str) (r : Applied)
      → IsOwned e
      → IsOwned (authored affine serde store e op ts r).0
  authored-IsOwned e op ts (err x) h = h
  authored-IsOwned e op ts (ok (next, inverse)) h = elim (Bool-cases (is_empty_batch inverse)) [
    | inl nothing ↦ rw nothing h
    | inr change ↦
        rw change (numbered-IsOwned e op ts next inverse (store.next_local_seq e.outbox) h refl)
  ]

  remote_applied-IsOwned :
      (e : Engine (serde.Json) S) (r : Applied)
      → IsOwned e
      → IsOwned (remote_applied affine serde store e r).0
  remote_applied-IsOwned e (err x) h = h
  remote_applied-IsOwned e (ok (next, inverse)) h = h

  release_all-HasBooks :
      (ids : List OpId) (e : Engine (serde.Json) S) (last : ℤ)
      → HasBooks e last
      → HasBooks (release_all e ids) last × ((release_all e ids).outbox ≡ e.outbox)
  unfolding release_all
  release_all-HasBooks [] e last b = (b, refl)
  release_all-HasBooks (id ∷ ids) e last b =
      let (one, same) = release-HasBooks e id last b in
      let (rest, same') = release_all-HasBooks ids (release_ownership e id) last one in
      (rest, same' ∙ same)

  revised-IsOwned :
      (e : Engine (serde.Json) S) (revision : Option ℤ)
      → IsOwned e
      → IsOwned (revised affine serde store e revision)
  revised-IsOwned e none h = h
  revised-IsOwned e (some rev) h = h

  dropped-IsOwned :
      (e : Engine (serde.Json) S) (ids : List OpId) (revision : Option ℤ)
      (p : S × Result OutboxError (Unit {0}))
      → HasBooks e (laws.last p.0)
      → laws.IsSound p.0
      → IsOwned (dropped affine serde store e ids revision p).0
  dropped-IsOwned e ids revision (s, err x) b h = (b, h)
  dropped-IsOwned e ids revision (s, ok u) b h =
      let (kept, same) = release_all-HasBooks ids (record e { outbox = s }) (laws.last s) b in
      revised-IsOwned (release_all (record e { outbox = s }) ids) revision (
        subst (λ t. HasBooks (release_all (record e { outbox = s }) ids) (laws.last t)) (sym same)
            kept,
        subst laws.IsSound (sym same) h,
      )

  remove-IsOwned :
      (e : Engine (serde.Json) S) (ids : List OpId) (revision : Option ℤ)
      → IsOwned e
      → IsOwned (dropped affine serde store e ids revision (store.remove e.outbox ids)).0
  remove-IsOwned e ids revision (b, h) =
      let (sound, same) = laws.remove_keeps e.outbox ids h in
      dropped-IsOwned e ids revision (store.remove e.outbox ids) (subst (HasBooks e) (sym same) b)
        sound

  abbrev Absent : Map Str (List Str) → List (WireOp (serde.Json)) → Type 0
  Absent rows l = All (λ x. get (op_id_key x.op_id) rows ≡ none) l

  Absent-insert :
      (rows : Map Str (List Str)) (key : Str) (keys : List Str) (l : List (WireOp (serde.Json)))
      → any (λ x. op_id_key x.op_id == key) l ≡ false
      → Absent rows l
      → Absent (insert key keys rows) l
  Absent-insert rows key keys [] apart h = tt
  Absent-insert rows key keys (x ∷ l) apart h = (
    ground (
      arith,
      get-insert key (op_id_key x.op_id) keys rows,
      eq_iff key (op_id_key x.op_id),
      eq_iff (op_id_key x.op_id) key,
      h.0,
    ),
    Absent-insert rows key keys l (ground arith) h.1,
  )

  replay_op-HasBooks :
      (l : List (WireOp (serde.Json))) (e : Engine (serde.Json) S) (x : WireOp (serde.Json))
      (op : Option ObjectOp) (last : ℤ)
      → any (λ y. op_id_key y.op_id == op_id_key x.op_id) l ≡ false
      → Absent e.op_owned_keys (x ∷ l)
      → x.op_id.local_seq ≤ℤ last
      → HasBooks e last
      → HasBooks (replay_op affine serde store e x.op_id op) last
        × ((replay_op affine serde store e x.op_id op).outbox ≡ e.outbox)
        × Absent (replay_op affine serde store e x.op_id op).op_owned_keys l
  unfolding take_ownership
  replay_op-HasBooks l e x none last apart absent bound b = (b, refl, absent.1)
  replay_op-HasBooks l e x (some op) last apart absent bound b = (
    Books-take e.ownership e.op_owned_keys last x.op_id (owned_keys op) b absent.0 bound,
    refl,
    Absent-insert e.op_owned_keys (op_id_key x.op_id) (owned_keys op) l apart absent.1,
  )

  replay_all-HasBooks :
      (l : List (WireOp (serde.Json))) (e : Engine (serde.Json) S) (last : ℤ)
      → Distinct l
      → AtMost last l
      → Absent e.op_owned_keys l
      → HasBooks e last
      → HasBooks (replay_all affine serde store e l) last
        × ((replay_all affine serde store e l).outbox ≡ e.outbox)
  unfolding replay_all
  replay_all-HasBooks [] e last d m absent b = (b, refl)
  replay_all-HasBooks (x ∷ l) e last d m absent b =
      let next = replay_op affine serde store e x.op_id (serde.from_value x.prop_delta) in
      let (one, same, rest) =
        replay_op-HasBooks l e x (serde.from_value x.prop_delta) last d.0 absent m.0 b in
      let (all, same') = replay_all-HasBooks l next last d.1 m.1 rest one in (all, same' ∙ same)

  Absent-nothing : (l : List (WireOp (serde.Json))) → Absent [] l
  unfolding get
  Absent-nothing [] = tt
  Absent-nothing (x ∷ l) = (refl, Absent-nothing l)

  sent_or_not :
      (e : Engine (serde.Json) S) (l : List (WireOp (serde.Json)))
      → IsOwned e
      → IsOwned (if is_empty l then e else send_envelopes e l)
  unfolding send_envelopes
  sent_or_not e [] h = h
  sent_or_not e (x ∷ l) h = h

  replayed-IsOwned :
      (e : Engine (serde.Json) S) (r : Result OutboxError (List (WireOp (serde.Json))))
      → e.ownership ≡ []
      → e.op_owned_keys ≡ []
      → laws.IsSound e.outbox
      → store.all e.outbox ≡ r
      → IsOwned (replayed affine serde store e r).0
  replayed-IsOwned e (err x) none_owned no_rows h run =
      (rw (none_owned, no_rows) (Books-empty (laws.last e.outbox)), h)
  replayed-IsOwned e (ok l) none_owned no_rows h run =
      let (d, m) = laws.all_sound e.outbox l h run in
      let empty : HasBooks e (laws.last e.outbox) =
        rw (none_owned, no_rows) (Books-empty (laws.last e.outbox)) in
      let absent : Absent e.op_owned_keys l = rw no_rows (Absent-nothing l) in
      let (b, same) = replay_all-HasBooks l e (laws.last e.outbox) d m absent empty in
      let after = replay_all affine serde store e l in
      sent_or_not after l
        (subst (λ s. HasBooks after (laws.last s)) (sym same) b, subst laws.IsSound (sym same) h)

  apply_remote-IsOwned :
      (e : Engine (serde.Json) S) (op : ObjectOp)
      → IsOwned e
      → IsOwned (apply_remote affine serde store e op).0
  unfolding apply_remote
  apply_remote-IsOwned e op h = elim (Bool-cases (remote_touches_owned_key op e.ownership)) [
    | inl owned ↦ rw owned h
    | inr free ↦ rw free (remote_applied-IsOwned e (apply_object_op affine e.scene op) h)
  ]

  reconcile_snapshot-IsOwned :
      (e : Engine (serde.Json) S) (snapshot : ObjectScene)
      → IsOwned e
      → IsOwned (reconcile_snapshot affine serde store e snapshot).0
  unfolding reconcile_snapshot
  reconcile_snapshot-IsOwned e snapshot h =
      elim (Bool-cases (ltb_ℤ snapshot.scene_version e.base_revision)) [
        | inl stale ↦ rw stale h
        | inr fresh ↦ rw fresh (
            replayed-IsOwned (reset affine serde store e snapshot) (store.all e.outbox) refl refl
              h.1 refl)
      ]

  flush-IsOwned : (e : Engine (serde.Json) S) → IsOwned e → IsOwned (flush e)
  unfolding flush
  flush-IsOwned e h = elim (Bool-cases (is_empty e.pending)) [
    | inl nothing ↦ rw nothing h
    | inr waiting ↦ rw waiting h
  ]

  -- Rows that the outbox is reseeded with have different ids, and numbering goes on behind the last
  -- number that was given out.
  abbrev pub KeepsNumbers : Engine (serde.Json) S → Event (serde.Json) → Type 0
  KeepsNumbers e (reseeds entries) =
      Distinct entries × (laws.last e.outbox ≤ℤ laws.last (store.reseed e.outbox entries).0)
  KeepsNumbers e _ = Unit

  -- So at every reseed in the sequence.
  unfoldable pub AllKeepNumbers : Engine (serde.Json) S → List (Event (serde.Json)) → Type 0
  AllKeepNumbers e [] = Unit
  AllKeepNumbers e (event ∷ events) =
      KeepsNumbers e event × AllKeepNumbers (run affine serde store e event) events

  run-IsOwned :
      (e : Engine (serde.Json) S) (event : Event (serde.Json))
      → KeepsNumbers e event
      → IsOwned e
      → IsOwned (run affine serde store e event)
  unfolding run author on_ack on_rejected take_settled_keys reseed_outbox
  run-IsOwned e (authors op ts) k h = authored-IsOwned e op ts (apply_object_op affine e.scene op) h
  run-IsOwned e (receives op) k h = apply_remote-IsOwned e op h
  run-IsOwned e (acks ids revision) k h = remove-IsOwned e ids revision h
  run-IsOwned e (rejects ids) k h = remove-IsOwned e ids none h
  run-IsOwned e (reseeds entries) (distinct, later) h = (
    Books-later e.ownership e.op_owned_keys (laws.last e.outbox)
        (laws.last (store.reseed e.outbox entries).0) later h.0,
    laws.reseed_sound e.outbox entries distinct,
  )
  run-IsOwned e (welcomes snapshot) k h = reconcile_snapshot-IsOwned e snapshot h
  run-IsOwned e flushes k h = flush-IsOwned e h
  run-IsOwned e drains k h = h

  pub run_all-IsOwned :
      (events : List (Event (serde.Json))) (e : Engine (serde.Json) S)
      → AllKeepNumbers e events
      → IsOwned e
      → IsOwned (run_all affine serde store e events)
  unfolding run_all AllKeepNumbers
  run_all-IsOwned [] e k h = h
  run_all-IsOwned (event ∷ events) e (one, rest) h =
      run_all-IsOwned events (run affine serde store e event) rest (run-IsOwned e event one h)
