-- ===== src/Server/Actor/Once.antt =====
-- A resent envelope at the actor of crates/server/src/canvas_actor.rs.
use mathlib.Core.Path.{subst}
use mathlib.Core.Option.{some-injective}
use shape_ai.Common.{
  ℕ, suc, ◌+◌, ◌≤◌, ◌<◌, ◌≡◌, sym, ◌∙◌, ap, List, [], ◌∷◌, none, some, arith, inl, inr,
}
use shape_ai.Common.Int.{pos}
use shape_ai.Common.Str.{Str}
use shape_ai.Common.Result.{ok}
use shape_ai.Kernel.Model.{ObjectScene}
use shape_ai.Kernel.Op.{ObjectOp}
use shape_ai.Kernel.Apply.{Affine, apply_object_op}
use shape_ai.Storage.Adapter.{StorageAdapter, Reliable}
use shape_ai.Server.Dedup.{op_key, max_seen_ops, seen}
use shape_ai.Server.Dedup.Laws.{seen-record, record_all}
use shape_ai.Server.Store.{Codec}
use shape_ai.Server.Actor.{
  applied, PatchBroadcast, CanvasActor, CanvasCommand, apply_envelope, Reply, result, OpEnvelope,
  JournalCodec, handle_apply, handle_apply_envelope, answered_once, handle, run, run_rest, one,
  joined,
}
use shape_ai.Server.Actor.Step.{InStep, Applies, handle_apply_lem, level}
use shape_ai.Server.Actor.Runs.{works, run-InStep}

module _ (affine : Affine) {A : Type 0} (codec : Codec) (adapter : StorageAdapter (codec.Payload) A)
    (journal : JournalCodec (codec.Payload)) (steady : Reliable adapter) where
  applied_first :
      (n : ℕ) (actor : CanvasActor A) (now : InStep n actor) (envelope : OpEnvelope) (user : Str)
      {p : ObjectScene × ObjectOp}
      → n < 9223372036854775807
      → seen actor.dedup envelope.op_id ≡ none
      → apply_object_op affine now.scene envelope.op ≡ ok p
      → Applies affine now envelope.op
          (some envelope.op_id)
          user
          (handle_apply_envelope affine codec adapter journal actor envelope user)
  unfolding handle_apply_envelope
  applied_first n actor now envelope user {p} small new kernel =
      let r =
        handle_apply affine codec adapter journal actor envelope.op envelope.base_revision
          (some envelope.op_id) user in
      let first : Applies affine now envelope.op (some envelope.op_id) user r =
        elim (handle_apply_lem affine codec adapter journal steady n actor now envelope.op
          envelope.base_revision (some envelope.op_id) user small) [
            | inl a ↦ a
            | inr (e, refused, h) ↦ cc (kernel, refused)
          ] in
      subst
        (λ known.
          Applies affine now envelope.op (some envelope.op_id) user
            (answered_once affine codec adapter journal actor envelope user known))
        (sym new) first

  run_next :
      (actor middle after : CanvasActor A) (command : CanvasCommand) (commands : List CanvasCommand)
      (reply : Reply) (replies : List Reply) (sent later : List PatchBroadcast)
      → handle affine codec adapter journal actor command ≡ some (middle, reply, sent)
      → run affine codec adapter journal middle commands ≡ some (after, replies, later)
      → (p : _) → run affine codec adapter journal actor (command ∷ commands) ≡ some p
      → p.0 ≡ after
  unfolding run
  run_next actor middle after command commands reply replies sent later e f p h =
      let put = λ (r : _).
        run_rest affine codec adapter journal (λ a. run affine codec adapter journal a commands)
          r in
      let ran = ap put e ∙ ap (joined affine codec adapter journal reply sent) f in
      ap (λ (t : CanvasActor A × List Reply × List PatchBroadcast). t.0)
        (some-injective _ _ (sym h ∙ ran))

  -- At most once, over a store that does not fail and while the numbers stay within 2^63 - 1: after an
  -- envelope that is new was applied by an actor in step, and any commands that bring fewer than 4096
  -- operations came between, an envelope with the same id changes nothing, sends nothing, and is
  -- answered with the acknowledgement of the first one, whatever else it carries.
  pub handle-resent :
      (n : ℕ) (actor after : CanvasActor A) (now : InStep n actor) (envelope again : OpEnvelope)
      (user user' : Str) (commands : List CanvasCommand) (replies : List Reply)
      (sent : List PatchBroadcast) (p : ObjectScene × ObjectOp)
      → suc n + works commands ≤ 9223372036854775807
      → works commands < max_seen_ops
      → seen actor.dedup envelope.op_id ≡ none
      → apply_object_op affine now.scene envelope.op ≡ ok p
      → again.op_id ≡ envelope.op_id
      → run affine codec adapter journal actor (apply_envelope envelope user ∷ commands)
        ≡ some (after, replies, sent)
      → handle affine codec adapter journal after (apply_envelope again user')
        ≡ some (after, result (applied (pos (suc n)) (pos (suc n))), [])
  unfolding handle handle_apply_envelope
  handle-resent n actor after now envelope again user user' commands replies sent p room few new
        kernel same ran =
      let first = applied_first n actor now envelope user (omega arith) new kernel in
      let (last, rs, later, f, even, rest) =
        run-InStep affine codec adapter journal steady (suc n) first.after commands first.next
          room in
      let after_is =
        run_next actor first.after last (apply_envelope envelope user) commands _ rs _ later
          (ap (one affine codec adapter journal) first.result_is) f (after, replies, sent) ran in
      let held : seen last.dedup envelope.op_id ≡ some (level (suc n)) =
        ap (λ t. seen t envelope.op_id)
          (rest.dedup_is ∙ ap (λ t. record_all max_seen_ops t rest.acks) first.dedup_is)
        ∙ seen-record actor.dedup envelope.op_id (level (suc n)) rest.acks now.table new
            (let few' = rest.few in omega arith) in
      let known : seen after.dedup again.op_id ≡ some (level (suc n)) =
        ap (seen after.dedup) same
        ∙ ap (λ (t : CanvasActor A). seen t.dedup envelope.op_id) after_is
        ∙ held in
      ap
        (λ k.
          one affine codec adapter journal
            (answered_once affine codec adapter journal after again user' k))
        known
