-- ===== src/Server/Actor/Runs.antt =====
-- Any commands to the actor of crates/server/src/canvas_actor.rs over a store that does not fail.
pub mod Chains
use mathlib.Core.Path.{subst}
use shape_ai.Common.{
  ℕ, suc, ◌+◌, ◌≤◌, ◌<◌, ◌≡◌, refl, sym, ◌∙◌, ap, List, [], ◌∷◌, ◌++◌, Option, none, some, arith,
  ◌⊎◌, inl, inr, length, length-append, All,
}
use shape_ai.Common.Int.{pos}
use shape_ai.Common.Str.{Str, str_key}
use shape_ai.Kernel.Op.{ObjectOp}
use shape_ai.Kernel.Apply.{Affine}
use shape_ai.Storage.Adapter.{StorageAdapter, Reliable}
use shape_ai.Server.Dedup.{
  OpId, OpAck, op_key, DedupTable, max_seen_ops, seen, record_ack, record_within,
}
use shape_ai.Server.Dedup.Laws.{record_all}
use shape_ai.Server.Store.{Codec}
use shape_ai.Server.Actor.{
  ApplyResult, applied, rejected, PatchBroadcast, CanvasActor, CanvasCommand, apply_envelope,
  apply_bare, feature, get_scene, Reply, result, scene_is, lowered, OpEnvelope, JournalCodec,
  handle_apply_envelope, answered_once, current, at_revision, apply_at, apply_lowered, and_then,
  also, one, all_lowered, lowered_at, read, handle, joined, run, run_rest, recorded,
}
use shape_ai.Server.Actor.Step.{InStep, Applies, Refuses, handle_apply_lem, level, loaded_there}
pub use shape_ai.Server.Actor.Runs.Chains.{IsLevel, Comes}
unfoldable pub use shape_ai.Server.Actor.Runs.Chains.{work, works}
use shape_ai.Server.Actor.Runs.Chains.{Ran, stays, chained, IsLevelResult, result-IsLevel, came}

module _ (affine : Affine) {A : Type 0} (codec : Codec) (adapter : StorageAdapter (codec.Payload) A)
    (journal : JournalCodec (codec.Payload)) (steady : Reliable adapter) where
  current_there :
      (n : ℕ) (actor : CanvasActor A) (now : InStep n actor)
      → current affine codec adapter journal actor ≡ some (actor, now.scene)
  unfolding current
  current_there n actor now =
      ap (at_revision affine codec adapter journal actor)
        (loaded_there codec adapter actor.store actor.canvas_id (now.scene, now.gate) now.there)

  bare :
      (n : ℕ) (actor : CanvasActor A) (op : ObjectOp) (user : Str)
      → InStep n actor
      → n < 9223372036854775807
      → Comes n actor 1 IsLevelResult (
          apply_at affine codec adapter journal op user
            (current affine codec adapter journal actor))
  bare n actor op user now small =
      let at =
        handle_apply_lem affine codec adapter journal steady n actor now op now.scene.scene_version
          none user small in
      subst (λ c. Comes n actor 1 IsLevelResult (apply_at affine codec adapter journal op user c))
        (sym (current_there n actor now)) (came affine n actor now op none user _ at)

  enveloped :
      (n : ℕ) (actor : CanvasActor A) (envelope : OpEnvelope) (user : Str) (known : Option OpAck)
      → seen actor.dedup envelope.op_id ≡ known
      → InStep n actor
      → n < 9223372036854775807
      → Comes n actor 1 IsLevelResult
          (answered_once affine codec adapter journal actor envelope user known)
  enveloped n actor envelope user (some ack) e now small =
      (actor, _, [], refl, now.even envelope.op_id ack e, stays n 1 actor now)
  enveloped n actor envelope user none e now small =
      came affine n actor now envelope.op (some envelope.op_id) user _ (
        handle_apply_lem affine codec adapter journal steady n actor now envelope.op
          envelope.base_revision (some envelope.op_id) user small)

  -- The lowered operations of a feature.
  lowered_all :
      (n : ℕ) (actor : CanvasActor A) (ops : List ObjectOp) (user : Str)
      → InStep n actor
      → n + length ops ≤ 9223372036854775807
      → (after : CanvasActor A) × (sent : List PatchBroadcast) × (apply_lowered affine codec adapter
            journal actor ops user
          ≡ some (after, sent))
        × Ran n actor (length ops) sent after
  unfolding apply_lowered
  lowered_all n actor [] user now room = (actor, [], refl, stays n 0 actor now)
  lowered_all n actor (op ∷ ops) user now room =
      let (middle, r, sent, first, even, ran) = bare n actor op user now (omega arith) in
      let within = ran.within in
      let (after, later, rest, ran') = lowered_all ran.last middle ops user ran.now (omega arith) in
      (
        after,
        sent ++ later,
        ap
              (and_then affine codec adapter journal
                (λ a. apply_lowered affine codec adapter journal a ops user))
              first
            ∙ ap (also affine codec adapter journal sent) rest,
        chained n 1 (length ops) (length (op ∷ ops)) actor middle after sent later ran ran'
            (omega arith),
      )

  -- One command of any kind.
  handled :
      (n : ℕ) (actor : CanvasActor A) (command : CanvasCommand)
      → InStep n actor
      → n + work command ≤ 9223372036854775807
      → Comes n actor (work command) IsLevel (handle affine codec adapter journal actor command)
  unfolding handle handle_apply_envelope work
  handled n actor (apply_envelope envelope user) now room =
      let (after, r, sent, e, even, ran) =
        enveloped n actor envelope user (seen actor.dedup envelope.op_id) refl now (omega arith) in
      (after, result r, sent, ap (one affine codec adapter journal) e, result-IsLevel r even, ran)
  handled n actor (apply_bare op user) now room =
      let (after, r, sent, e, even, ran) = bare n actor op user now (omega arith) in
      (after, result r, sent, ap (one affine codec adapter journal) e, result-IsLevel r even, ran)
  handled n actor (feature ops user) now room =
      let (after, sent, e, ran) = lowered_all n actor ops user now room in
      (
        after,
        lowered,
        sent,
        ap (lowered_at affine codec adapter journal ops user) (current_there n actor now)
            ∙ ap (all_lowered affine codec adapter journal) e,
        tt,
        ran,
      )
  handled n actor get_scene now room = (
    actor,
    scene_is now.scene,
    [],
    ap (read affine codec adapter journal) (current_there n actor now),
    tt,
    stays n 0 actor now,
  )

  -- Over a store that does not fail, and while the numbers stay within 2^63 - 1, an actor in step
  -- handles any commands without a panic. Every acknowledgement, also one that answers a duplicate, has
  -- its sequence number for its revision; the patches that are sent carry consecutive numbers, each with
  -- the scene at that version; and the actor is in step again.
  pub run-InStep :
      (n : ℕ) (actor : CanvasActor A) (commands : List CanvasCommand)
      → InStep n actor
      → n + works commands ≤ 9223372036854775807
      → Comes n actor
          (works commands)
          (All IsLevel)
          (run affine codec adapter journal actor commands)
  unfolding run works
  run-InStep n actor [] now room = (actor, [], [], refl, tt, stays n 0 actor now)
  run-InStep n actor (command ∷ commands) now room =
      let (middle, reply, sent, e, even, ran) = handled n actor command now (omega arith) in
      let within = ran.within in
      let (after, replies, later, f, evens, ran') =
        run-InStep ran.last middle commands ran.now (omega arith) in
      (
        after,
        reply ∷ replies,
        sent ++ later,
        ap
              (run_rest affine codec adapter journal
                (λ a. run affine codec adapter journal a commands))
              e
            ∙ ap (joined affine codec adapter journal reply sent) f,
        (even, evens),
        chained n (work command) (works commands) (works (command ∷ commands)) actor middle after
            sent later ran ran' (omega arith),
      )
