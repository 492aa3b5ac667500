-- ===== src/Server/Actor/Step.antt =====
-- One operation of the actor of crates/server/src/canvas_actor.rs over a store that does not fail.
pub mod Saves
pub mod Books
use shape_ai.Common.{
  ℕ, suc, ◌<◌, ◌≡◌, refl, ◌∙◌, ap, List, [], ◌∷◌, Option, none, some, arith, Bool-cases, ◌⊎◌, inl,
  inr,
}
use shape_ai.Common.Int.{ℤ, pos, ◌+ℤ◌}
use shape_ai.Common.Str.{Str, str_key}
use shape_ai.Common.Map.{get, insert, get-insert_self}
use shape_ai.Common.Result.{Result, ok, err, Result-cases}
use shape_ai.Kernel.Model.{ObjectId, Object, ObjectScene, get_object}
use shape_ai.Kernel.Op.{ObjectOp, is_empty_batch, target_ids}
use shape_ai.Kernel.Edit.{ApplyError}
use shape_ai.Kernel.Apply.{Affine, Store, apply_object_op, apply_object_op_lww}
use shape_ai.Kernel.Apply.Rest.{rest-apply_object_op}
use shape_ai.Storage.Adapter.{StorageAdapter, Reliable}
use shape_ai.Server.Dedup.{OpId, OpAck, op_key, DedupTable, max_seen_ops, record_ack}
use shape_ai.Server.Dedup.Laws.{IsTable, IsTable-record_within}
use shape_ai.Server.Store.{
  ObjectStore, apply_error, Codec, CanvasId, loaded, apply_op, apply_loaded, written, save_targets,
  save_target, save_object, save_meta, object_record_id, object_to_record, meta_to_record, lifted,
  then_save, answered,
}
use shape_ai.Server.Actor.{
  ApplyResult, applied, rejected, PatchBroadcast, CanvasActor, JournalEntry, JournalCodec, to_u64,
  recorded, handle_apply, finished, journaled, acked, entry_record,
}
use shape_ai.Server.Actor.Level.{AtMost, IsEven, lets_through, lets_error, IsEven-record}
pub use shape_ai.Server.Actor.Step.Saves.{loaded_there}
pub use shape_ai.Server.Actor.Step.Books.{
  InStep, level, Applies, Refuses, recorded-IsEven, recorded-IsTable,
}
use shape_ai.Server.Actor.Step.Saves.{written_ok}
use shape_ai.Server.Actor.Step.Books.{next_seq}

module _ (affine : Affine) {A : Type 0} (codec : Codec) (adapter : StorageAdapter (codec.Payload) A)
    (journal : JournalCodec (codec.Payload)) where
  handle_in_step :
      (n : ℕ) (actor : CanvasActor A) (now : InStep n actor) (op : ObjectOp) (base : ℤ)
      (op_id : Option OpId) (user : Str)
      → handle_apply affine codec adapter journal actor op base op_id user
        ≡ finished affine codec adapter journal actor op base op_id user (pos (suc n)) (
            written codec adapter actor.store actor.canvas_id op
              (suc n)
              (apply_object_op_lww affine now.scene now.gate op (suc n)))
  unfolding handle_apply apply_op
  handle_in_step n actor now op base op_id user =
      let seq : actor.seq +ℤ pos 1 ≡ pos (suc n) = ap (λ z. z +ℤ pos 1) now.seq_is ∙ next_seq n in
      let there =
        loaded_there codec adapter actor.store actor.canvas_id (now.scene, now.gate) now.there in
      ap
        (λ z. finished affine codec adapter journal actor op base op_id user z (
          apply_loaded affine codec adapter actor.store actor.canvas_id op (to_u64 z)
            (loaded codec adapter actor.store actor.canvas_id)))
        seq
      ∙ ap
          (λ l.
            finished affine codec adapter journal actor op base op_id user (pos (suc n))
              (apply_loaded affine codec adapter actor.store actor.canvas_id op (suc n) l))
          there

  -- What is left after an application that succeeded.
  finished_ok :
      (steady : Reliable adapter) (actor : CanvasActor A) (op inverse : ObjectOp) (base : ℤ)
      (op_id : Option OpId) (user : Str) (n : ℕ) (scene : ObjectScene) (gate : Store) (a : A)
      → scene.scene_version ≡ pos n
      → (b : A) × (finished affine codec adapter journal actor op base op_id user (pos n) (
        record { adapter = a; working = insert actor.canvas_id (scene, gate) actor.store.working },
        ok inverse,
      )
          ≡ some (
            record {
              canvas_id = actor.canvas_id;
              store = record {
                adapter = b;
                working = insert actor.canvas_id (scene, gate) actor.store.working;
              };
              seq = pos n;
              dedup = recorded actor.dedup op_id (level n);
            },
            applied (pos n) (pos n),
            record { seq = pos n; op = op; scene = scene; author = some user } ∷ [],
          ))
  finished_ok steady actor op inverse base op_id user n scene gate a version =
      let working = insert actor.canvas_id (scene, gate) actor.store.working in
      let entry : JournalEntry = record {
        seq = pos n;
        op_id = op_id;
        base_revision = base;
        op = op;
      } in
      let (b, e) = steady.saves a (entry_record journal actor.canvas_id entry) in
      let s : ObjectStore A = record { adapter = b; working = working } in
      let now : CanvasActor A = record actor { store = s; seq = pos n } in
      let before : CanvasActor A = record actor {
        store = record { adapter = a; working = working };
        seq = pos n;
      } in
      (
        b,
        ap (journaled affine codec adapter journal before op op_id user) e
            ∙ ap (acked affine codec adapter journal now op op_id user) (
                loaded_there codec adapter s actor.canvas_id (scene, gate)
                  (get-insert_self actor.canvas_id (scene, gate) actor.store.working))
            ∙ ap
                (λ v. some (
                  record now {
                    dedup = recorded actor.dedup op_id (record { seq = pos n; revision = v });
                  },
                  applied (pos n) v,
                  record { seq = pos n; op = op; scene = scene; author = some user } ∷ [],
                ))
                version,
      )

  applies :
      (steady : Reliable adapter) (n : ℕ) (actor : CanvasActor A) (now : InStep n actor)
      (op : ObjectOp) (base : ℤ) (op_id : Option OpId) (user : Str) (scene : ObjectScene)
      (gate : Store) (inverse : ObjectOp)
      → n < 9223372036854775807
      → apply_object_op_lww affine now.scene now.gate op (suc n) ≡ ok (scene, gate, inverse)
      → Applies affine now op op_id user
          (handle_apply affine codec adapter journal actor op base op_id user)
  applies steady n actor now op base op_id user scene gate inverse small run =
      let (kernel, below) =
        lets_through affine n now.scene scene now.gate gate op inverse small now.below run in
      let version : scene.scene_version ≡ pos (suc n) =
        ap (λ (s : ObjectScene). s.scene_version)
          (rest-apply_object_op affine now.scene scene op inverse kernel)
        ∙ ap (λ z. z +ℤ pos 1) now.version_is
        ∙ next_seq n in
      let (a, put) =
        written_ok codec adapter steady actor.store actor.canvas_id op inverse (suc n) scene gate in
      let (b, finish) =
        finished_ok steady actor op inverse base op_id user (suc n) scene gate a version in
      record {
        after = record {
          canvas_id = actor.canvas_id;
          store = record {
            adapter = b;
            working = insert actor.canvas_id (scene, gate) actor.store.working;
          };
          seq = pos (suc n);
          dedup = recorded actor.dedup op_id (level (suc n));
        };
        inverse = inverse;
        next = record {
          scene = scene;
          gate = gate;
          there = get-insert_self actor.canvas_id (scene, gate) actor.store.working;
          seq_is = refl;
          version_is = version;
          below = below;
          even = recorded-IsEven actor.dedup op_id (pos (suc n)) now.even;
          table = recorded-IsTable actor.dedup op_id (level (suc n)) now.table;
        };
        kernel = kernel;
        dedup_is = refl;
        same_canvas = refl;
        result_is =
            handle_in_step n actor now op base op_id user
            ∙ ap
                (λ r.
                  finished affine codec adapter journal actor op base op_id user (pos (suc n))
                    (written codec adapter actor.store actor.canvas_id op (suc n) r))
                run
            ∙ ap (finished affine codec adapter journal actor op base op_id user (pos (suc n))) put
            ∙ finish;
      }

  -- Over a store that does not fail, an actor in step whose number is below 2^63 - 1 either applies an
  -- operation exactly as the kernel alone does, acknowledges it with the next number as sequence number
  -- and revision, sends it once and is in step again; or the kernel refuses the operation, and the actor
  -- answers that and is unchanged.
  pub handle_apply_lem :
      (steady : Reliable adapter) (n : ℕ) (actor : CanvasActor A) (now : InStep n actor)
      (op : ObjectOp) (base : ℤ) (op_id : Option OpId) (user : Str)
      → n < 9223372036854775807
      → Applies affine now op op_id user
          (handle_apply affine codec adapter journal actor op base op_id user)
        ⊎ Refuses affine now op (handle_apply affine codec adapter journal actor op base op_id user)
  handle_apply_lem steady n actor now op base op_id user small =
      let begun = handle_in_step n actor now op base op_id user in
      let put = λ (r : Result ApplyError (ObjectScene × Store × ObjectOp)).
        finished affine codec adapter journal actor op base op_id user (pos (suc n))
          (written codec adapter actor.store actor.canvas_id op (suc n) r) in
      elim (Result-cases (apply_object_op_lww affine now.scene now.gate op (suc n))) [
        | inr (e, run) ↦
            inr (
              e,
              lets_error affine n now.scene now.gate op e small now.below run,
              begun ∙ ap put run,
            )
        | inl ((scene, gate, inverse), run) ↦
            inl (applies steady n actor now op base op_id user scene gate inverse small run)
      ]
