-- ===== src/Server/Store/Durable.antt =====
-- What crates/server/src/object_store.rs leaves in the store after an operation.
pub mod Keys
pub mod Writes
use mathlib.Core.Path.{subst}
use mathlib.Core.Option.{some-injective}
use shape_ai.Common.{
  ℕ, ◌≡◌, refl, sym, ◌∙◌, ap, List, [], ◌∷◌, ◌++◌, append_assoc, Bool, true, false, Option, none,
  some, arith, find, if◌then◌else◌, ◌==◌, eq_iff, Bool-cases, inl, inr,
}
use shape_ai.Common.Int.{pos, ◌+ℤ◌}
use shape_ai.Common.Str.{Str, str_key, bytes}
use shape_ai.Common.Map.{get, insert, get-insert_self}
use shape_ai.Common.Result.{Result, ok, err, >>=-eq-ok}
use shape_ai.Kernel.Model.{ObjectId, Object, ObjectScene, get_object}
use shape_ai.Kernel.Op.{ObjectOp, is_empty_batch, target_ids}
use shape_ai.Kernel.Edit.{ApplyError, no_change, has_id}
use shape_ai.Kernel.Apply.{
  Affine, Store, apply_inner, apply_object_op, apply_object_op_lww, is_stale, sat_i64,
  touched_properties,
}
use shape_ai.Kernel.Apply.Gate.{gate_marks, stale_skips}
use shape_ai.Kernel.Apply.Local.{IsLocalOp, Local, listed_id, op_local}
use shape_ai.Storage.Record.{Record, StorageError}
use shape_ai.Storage.Adapter.{StorageAdapter, AdapterLaws}
use shape_ai.Server.Store.{
  ObjectStore, ObjectStoreError, apply_error, Codec, CanvasId, object_record_id, canvas_record_id,
  loaded, apply_op, written, answered, then_save, save_targets, save_target, save_object, save_meta,
  object_to_record, meta_to_record, lifted,
}
pub use shape_ai.Server.Store.Durable.Keys.{payload_of, encoded, object_id_of}
pub use shape_ai.Server.Store.Durable.Writes.{Agrees}
unfoldable pub use shape_ai.Server.Store.Durable.Writes.{Durable}
use shape_ai.Server.Store.Durable.Writes.{written-Agrees}

module _ (affine : Affine) where
  -- What the gate leaves of a scene for an operation that changes no other objects.
  gated-Local :
      (scene s' : ObjectScene) (gate gate' : Store) (op inverse : ObjectOp) (seq : ℕ)
      → IsLocalOp op
      → apply_object_op_lww affine scene gate op seq ≡ ok (s', gate', inverse)
      → Local (target_ids op) scene s' inverse
  unfolding apply_object_op
  gated-Local scene s' gate gate' op inverse seq local run =
      elim (Bool-cases (is_stale gate (sat_i64 seq) (touched_properties op))) [
        | inl stale ↦
            let done : ok (scene, gate, no_change) ≡ ok (s', gate', inverse) =
              sym (stale_skips affine scene gate op seq stale) ∙ run in
            let s_is : scene ≡ s' = cc done in
            record {
              elsewhere = λ j h. ap (λ t. get_object t j) (sym s_is);
              silent = λ e j. ap (λ t. get_object t j) (sym s_is);
            }
        | inr fresh ↦
            let (kernel, held) = gate_marks affine scene s' gate gate' op inverse seq fresh run in
            let (p, inner, done) = >>=-eq-ok (apply_inner affine scene op) _ kernel in
            let l = (op_local affine scene op local).only p.0 p.1 inner in
            let s_is : record p.0 { scene_version = p.0.scene_version +ℤ pos 1 } ≡ s' = cc done in
            let i_is : p.1 ≡ inverse = cc done in
            record {
              elsewhere = λ j h. ap (λ t. get_object t j) (sym s_is) ∙ l.elsewhere j h;
              silent = λ e j.
                  ap (λ t. get_object t j) (sym s_is) ∙ l.silent (ap is_empty_batch i_is ∙ e) j;
            }
      ]

module _ (affine : Affine) {A : Type 0} (codec : Codec) (adapter : StorageAdapter (codec.Payload) A)
    (laws : AdapterLaws adapter) where
  after_run :
      (s s' : ObjectStore A) (c : CanvasId) (scene : ObjectScene) (gate : Store)
      (op inverse : ObjectOp) (seq : ℕ) (r : Result ApplyError (ObjectScene × Store × ObjectOp))
      → apply_object_op_lww affine scene gate op seq ≡ r
      → IsLocalOp op
      → Durable codec adapter laws s.adapter c scene
      → written codec adapter s c op seq r ≡ (s', ok inverse)
      → Agrees codec adapter laws s' c
  after_run s s' c scene gate op inverse seq (err e) run local held h =
      let wrong : err (apply_error e) ≡ ok inverse =
        ap (λ (q : ObjectStore A × Result ObjectStoreError ObjectOp). q.1) h in
      cc wrong
  after_run s s' c scene gate op inverse seq (ok (next, gate', i)) run local held h =
      written-Agrees codec adapter laws s s' c op i inverse seq scene next gate' held
        (gated-Local affine scene next gate gate' op i seq local run) h

  -- The store follows the scene, for a store that keeps what it is given: when the working scene of a
  -- canvas is loaded and the stored objects are its objects, and an operation other than a delete, a
  -- split, a merge, a turn or a batch with one of these is applied without an error, the stored objects
  -- are those of the new scene, whatever the gate decided.
  pub apply_op-Agrees :
      (s s' : ObjectStore A) (canvas_id : CanvasId) (op inverse : ObjectOp) (seq : ℕ)
      → IsLocalOp op
      → Agrees codec adapter laws s canvas_id
      → apply_op affine codec adapter s canvas_id op seq ≡ (s', ok inverse)
      → Agrees codec adapter laws s' canvas_id
  unfolding apply_op loaded
  apply_op-Agrees s s' c op inverse seq local (scene, gate, there, held) h =
      after_run s s' c scene gate op inverse seq (apply_object_op_lww affine scene gate op seq) refl
        local held (rw there at h)
