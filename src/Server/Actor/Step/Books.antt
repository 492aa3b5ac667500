-- ===== src/Server/Actor/Step/Books.antt =====
-- The books of the actor of crates/server/src/canvas_actor.rs, and what it makes of an operation.
use shape_ai.Common.{ℕ, suc, ◌≡◌, List, [], ◌∷◌, Option, none, some, arith}
use shape_ai.Common.Int.{ℤ, pos, ◌+ℤ◌}
use shape_ai.Common.Str.{Str, str_key}
use shape_ai.Common.Map.{get}
use shape_ai.Common.Result.{ok, err}
use shape_ai.Kernel.Model.{ObjectScene}
use shape_ai.Kernel.Op.{ObjectOp}
use shape_ai.Kernel.Edit.{ApplyError}
use shape_ai.Kernel.Apply.{Affine, Store, apply_object_op}
use shape_ai.Server.Dedup.{OpId, OpAck, op_key, DedupTable, max_seen_ops, record_ack}
use shape_ai.Server.Dedup.Laws.{IsTable, IsTable-record_within}
use shape_ai.Server.Store.{apply_error}
use shape_ai.Server.Actor.{ApplyResult, applied, rejected, PatchBroadcast, CanvasActor, recorded}
use shape_ai.Server.Actor.Level.{AtMost, IsEven, IsEven-record}

-- The actor is in step at `n`: the numbers of the actor, of its scene and of all it answered agree.
pub record InStep {A : Type 0} (n : ℕ) (actor : CanvasActor A) : Type 0 where
  pub scene : ObjectScene
  pub gate : Store
  pub there : get actor.canvas_id actor.store.working ≡ some (scene, gate)
  pub seq_is : actor.seq ≡ pos n
  pub version_is : scene.scene_version ≡ pos n
  pub below : AtMost n gate
  pub even : IsEven actor.dedup
  pub table : IsTable max_seen_ops actor.dedup

abbrev pub level : ℕ → OpAck
level n = record { seq = pos n; revision = pos n }

abbrev Stepped : Type 0 → Type 0
Stepped A = Option (CanvasActor A × ApplyResult × List PatchBroadcast)

module _ (affine : Affine) {A : Type 0} where
  -- The operation has the effect of the kernel alone, and the next number.
  pub record Applies {n : ℕ} {actor : CanvasActor A} (now : InStep n actor) (op : ObjectOp)
      (op_id : Option OpId) (user : Str) (r : Stepped A) : Type 0 where
    pub after : CanvasActor A
    pub inverse : ObjectOp
    pub next : InStep (suc n) after
    pub kernel : apply_object_op affine now.scene op ≡ ok (next.scene, inverse)
    pub dedup_is : after.dedup ≡ recorded actor.dedup op_id (level (suc n))
    pub same_canvas : after.canvas_id ≡ actor.canvas_id
    pub result_is :
        r
        ≡ some (
          after,
          applied (pos (suc n)) (pos (suc n)),
          record { seq = pos (suc n); op = op; scene = next.scene; author = some user } ∷ [],
        )

  -- The kernel refuses the operation, and nothing changes.
  abbrev pub Refuses :
      {n : ℕ} {actor : CanvasActor A} → InStep n actor → ObjectOp → Stepped A → Type 0
  Refuses {actor = actor} now op r =
      (e : ApplyError) × (apply_object_op affine now.scene op ≡ err e)
      × (r ≡ some (actor, rejected (apply_error e), []))

pub next_seq : (n : ℕ) → pos n +ℤ pos 1 ≡ pos (suc n)
unfolding ◌+ℤ◌
next_seq n = ground arith

pub recorded-IsEven :
    (table : DedupTable) (op_id : Option OpId) (n : ℤ)
    → IsEven table
    → IsEven (recorded table op_id (record { seq = n; revision = n }))
recorded-IsEven table none n h = h
recorded-IsEven table (some op_id) n h = IsEven-record table op_id n h

pub recorded-IsTable :
    (table : DedupTable) (op_id : Option OpId) (ack : OpAck)
    → IsTable max_seen_ops table
    → IsTable max_seen_ops (recorded table op_id ack)
unfolding record_ack
recorded-IsTable table none ack h = h
recorded-IsTable table (some op_id) ack h =
    IsTable-record_within max_seen_ops table op_id ack (omega arith) h
