-- ===== src/Server/Actor.antt =====
-- crates/server/src/canvas_actor.rs and the wire data of sync.rs: the actor that owns one canvas.
-- Commands arrive one at a time. A panic of the source is `none`; a message of an error keeps the error
-- in place of its text. A feature command arrives with the operations that it was lowered to; the read
-- of a region and the shutdown are left out.
pub mod Recover
pub mod Level
pub mod Step
pub mod Runs
pub mod Spawn
pub mod Once
mod Examples
use shape_ai.Common.{
  ℕ, ◌-◌, List, [], ◌∷◌, ◌++◌, map, Bool, true, false, Option, none, some, if◌then◌else◌, ltb,
  length,
}
use shape_ai.Common.Int.{ℤ, pos, negsuc, ◌+ℤ◌, leb_ℤ, ltb_ℤ, max_ℤ}
use shape_ai.Common.Str.{Str, bytes}
use shape_ai.Common.Decimal.{display}
use shape_ai.Common.Result.{Result, ok, err}
use shape_ai.Kernel.Model.{ObjectScene}
use shape_ai.Kernel.Op.{ObjectOp}
use shape_ai.Kernel.Apply.{Affine, Store}
use shape_ai.Storage.Record.{Record, StorageError}
use shape_ai.Storage.Adapter.{StorageAdapter}
use shape_ai.Server.Store.{
  ObjectStore, ObjectStoreError, Codec, CanvasId, loaded, new_store, apply_op,
}
use shape_ai.Server.Dedup.{OpId, OpAck, DedupTable, max_seen_ops, empty_table, seen, record_ack}

pub record OpEnvelope : Type 0 where
  pub op_id : OpId
  pub base_revision : ℤ
  pub ts : Str
  pub op : ObjectOp

pub record JournalEntry : Type 0 where
  pub seq : ℤ
  pub op_id : Option OpId
  pub base_revision : ℤ
  pub op : ObjectOp

pub data ApplyResult : Type 0 where
  applied : (seq revision : ℤ) → ApplyResult
  rejected : ObjectStoreError → ApplyResult

pub record PatchBroadcast : Type 0 where
  pub seq : ℤ
  pub op : ObjectOp
  pub scene : ObjectScene
  pub author : Option Str

pub data CanvasCommand : Type 0 where
  apply_envelope : (envelope : OpEnvelope) (actor_user_id : Str) → CanvasCommand
  apply_bare : (op : ObjectOp) (actor_user_id : Str) → CanvasCommand
  feature : (ops : List ObjectOp) (actor_user_id : Str) → CanvasCommand
  get_scene : CanvasCommand

pub data Reply : Type 0 where
  result : ApplyResult → Reply
  scene_is : ObjectScene → Reply
  lowered : Reply

pub record CanvasActor (A : Type 0) : Type 0 where
  pub canvas_id : CanvasId
  pub store : ObjectStore A
  pub seq : ℤ
  pub dedup : DedupTable

-- `u64::try_from(seq).unwrap_or(u64::MAX)`.
abbrev pub to_u64 : ℤ → ℕ
to_u64 (pos n) = n
to_u64 (negsuc n) = 18446744073709551615

unfoldable pub journal_record_id : CanvasId → ℤ → Str
journal_record_id canvas_id seq = canvas_id ++ bytes ":journal:" ++ display seq

-- The JSON of a journal entry.
pub record JournalCodec (Payload : Type 0) : Type 0 where
  pub write_entry : JournalEntry → Payload
  pub read_entry : Payload → Option JournalEntry

unfoldable pub entry_record :
    {Payload : Type 0} → JournalCodec Payload → CanvasId → JournalEntry → Record Payload
entry_record journal canvas_id entry = record {
  id = journal_record_id canvas_id entry.seq;
  kind = bytes "journal";
  version = to_u64 entry.seq;
  payload = journal.write_entry entry;
}

abbrev pub recorded : DedupTable → Option OpId → OpAck → DedupTable
recorded dedup none ack = dedup
recorded dedup (some op_id) ack = record_ack dedup op_id ack

module _ (affine : Affine) {A : Type 0} (codec : Codec) (adapter : StorageAdapter (codec.Payload) A)
    (journal : JournalCodec (codec.Payload)) where
  abbrev Stepped : Type 0
  Stepped = Option (CanvasActor A × ApplyResult × List PatchBroadcast)

  abbrev pub acked :
      CanvasActor A
      → ObjectOp
      → Option OpId
      → Str
      → Result ObjectStoreError (ObjectStore A × (ObjectScene × Store))
      → Stepped
  acked actor op op_id user (err e) = none
  acked actor op op_id user (ok (s, (scene, gate))) =
      let revision = scene.scene_version in
      some (
        record actor {
          store = s;
          dedup = recorded actor.dedup op_id (record { seq = actor.seq; revision = revision });
        },
        applied actor.seq revision,
        record { seq = actor.seq; op = op; scene = scene; author = some user } ∷ [],
      )

  abbrev pub journaled :
      CanvasActor A → ObjectOp → Option OpId → Str → A × Result StorageError (Unit {0}) → Stepped
  journaled actor op op_id user (a, err e) = none
  journaled actor op op_id user (a, ok u) =
      let s = record actor.store { adapter = a } in
      acked (record actor { store = s }) op op_id user (loaded codec adapter s actor.canvas_id)

  abbrev pub finished :
      CanvasActor A
      → ObjectOp
      → ℤ
      → Option OpId
      → Str
      → ℤ
      → ObjectStore A × Result ObjectStoreError ObjectOp
      → Stepped
  finished actor op base_revision op_id user seq (s, err e) =
      some (record actor { store = s }, rejected e, [])
  finished actor op base_revision op_id user seq (s, ok inverse) =
      let entry : JournalEntry = record {
        seq = seq;
        op_id = op_id;
        base_revision = base_revision;
        op = op;
      } in
      journaled (record actor { store = s; seq = seq }) op op_id user
        (adapter.save s.adapter (entry_record journal actor.canvas_id entry))

  unfoldable pub handle_apply : CanvasActor A → ObjectOp → ℤ → Option OpId → Str → Stepped
  handle_apply actor op base_revision op_id user =
      let seq = actor.seq +ℤ pos 1 in
      finished actor op base_revision op_id user seq
        (apply_op affine codec adapter actor.store actor.canvas_id op (to_u64 seq))

  -- A duplicate gets the acknowledgement of the original.
  abbrev pub answered_once : CanvasActor A → OpEnvelope → Str → Option OpAck → Stepped
  answered_once actor envelope user (some ack) = some (actor, applied ack.seq ack.revision, [])
  answered_once actor envelope user none =
      handle_apply actor envelope.op envelope.base_revision (some envelope.op_id) user

  unfoldable pub handle_apply_envelope : CanvasActor A → OpEnvelope → Str → Stepped
  handle_apply_envelope actor envelope user =
      answered_once actor envelope user (seen actor.dedup envelope.op_id)

  -- `revision` and what the cold load that it may do leaves.
  abbrev pub at_revision :
      CanvasActor A
      → Result ObjectStoreError (ObjectStore A × (ObjectScene × Store))
      → Option (CanvasActor A × ObjectScene)
  at_revision actor (err e) = none
  at_revision actor (ok (s, (scene, gate))) = some (record actor { store = s }, scene)

  unfoldable pub current : CanvasActor A → Option (CanvasActor A × ObjectScene)
  current actor = at_revision actor (loaded codec adapter actor.store actor.canvas_id)

  abbrev pub apply_at : ObjectOp → Str → Option (CanvasActor A × ObjectScene) → Stepped
  apply_at op user none = none
  apply_at op user (some (actor, scene)) = handle_apply actor op scene.scene_version none user

  abbrev pub also :
      List PatchBroadcast
      → Option (CanvasActor A × List PatchBroadcast)
      → Option (CanvasActor A × List PatchBroadcast)
  also sent none = none
  also sent (some (actor, later)) = some (actor, sent ++ later)

  -- Each lowered operation goes the way of a bare one, and a rejection does not stop the rest.
  abbrev pub and_then :
      (CanvasActor A → Option (CanvasActor A × List PatchBroadcast))
      → Stepped
      → Option (CanvasActor A × List PatchBroadcast)
  and_then next none = none
  and_then next (some (actor, r, sent)) = also sent (next actor)

  unfoldable pub apply_lowered :
      CanvasActor A → List ObjectOp → Str → Option (CanvasActor A × List PatchBroadcast)
  apply_lowered actor [] user = some (actor, [])
  apply_lowered actor (op ∷ ops) user =
      and_then (λ next. apply_lowered next ops user) (apply_at op user (current actor))

  abbrev pub one : Stepped → Option (CanvasActor A × Reply × List PatchBroadcast)
  one none = none
  one (some (actor, r, sent)) = some (actor, result r, sent)

  abbrev pub all_lowered :
      Option (CanvasActor A × List PatchBroadcast)
      → Option (CanvasActor A × Reply × List PatchBroadcast)
  all_lowered none = none
  all_lowered (some (actor, sent)) = some (actor, lowered, sent)

  -- `handle_feature` reads the scene before it lowers the request.
  abbrev pub lowered_at :
      List ObjectOp
      → Str
      → Option (CanvasActor A × ObjectScene)
      → Option (CanvasActor A × Reply × List PatchBroadcast)
  lowered_at ops user none = none
  lowered_at ops user (some (actor, scene)) = all_lowered (apply_lowered actor ops user)

  abbrev pub read :
      Option (CanvasActor A × ObjectScene) → Option (CanvasActor A × Reply × List PatchBroadcast)
  read none = none
  read (some (actor, scene)) = some (actor, scene_is scene, [])

  -- One round of `run`.
  unfoldable pub handle :
      CanvasActor A → CanvasCommand → Option (CanvasActor A × Reply × List PatchBroadcast)
  handle actor (apply_envelope envelope user) = one (handle_apply_envelope actor envelope user)
  handle actor (apply_bare op user) = one (apply_at op user (current actor))
  handle actor (feature ops user) = lowered_at ops user (current actor)
  handle actor get_scene = read (current actor)

  -- `run` on the commands that arrive: the actor, the replies and what was sent to the subscribers.
  abbrev pub joined :
      Reply
      → List PatchBroadcast
      → Option (CanvasActor A × List Reply × List PatchBroadcast)
      → Option (CanvasActor A × List Reply × List PatchBroadcast)
  joined reply sent none = none
  joined reply sent (some (actor, replies, later)) = some (actor, reply ∷ replies, sent ++ later)

  abbrev pub run_rest :
      (CanvasActor A → Option (CanvasActor A × List Reply × List PatchBroadcast))
      → Option (CanvasActor A × Reply × List PatchBroadcast)
      → Option (CanvasActor A × List Reply × List PatchBroadcast)
  run_rest next none = none
  run_rest next (some (actor, reply, sent)) = joined reply sent (next actor)

  unfoldable pub run :
      CanvasActor A → List CanvasCommand → Option (CanvasActor A × List Reply × List PatchBroadcast)
  run actor [] = some (actor, [], [])
  run actor (command ∷ commands) = run_rest (λ next. run next commands) (handle actor command)
