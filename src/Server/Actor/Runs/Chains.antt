-- ===== src/Server/Actor/Runs/Chains.antt =====
-- Stretches of commands to the actor of crates/server/src/canvas_actor.rs.
use mathlib.Core.Path.{subst}
use shape_ai.Common.{
  ℕ, suc, ◌+◌, ◌≤◌, ◌≡◌, refl, sym, ◌∙◌, ap, List, [], ◌∷◌, ◌++◌, Option, none, some, arith, ◌⊎◌,
  inl, inr, length, length-append,
}
use shape_ai.Common.Int.{pos}
use shape_ai.Common.Str.{Str, str_key}
use shape_ai.Kernel.Op.{ObjectOp}
use shape_ai.Kernel.Apply.{Affine}
use shape_ai.Server.Dedup.{OpId, OpAck, op_key, DedupTable, max_seen_ops, record_ack, record_within}
use shape_ai.Server.Dedup.Laws.{record_all}
use shape_ai.Server.Actor.{
  ApplyResult, applied, rejected, PatchBroadcast, CanvasActor, CanvasCommand, apply_envelope,
  apply_bare, feature, get_scene, Reply, result, scene_is, lowered, recorded,
}
use shape_ai.Server.Actor.Step.{InStep, Applies, Refuses, level}

-- The patches carry the numbers after `n`, up to `m`, and each its scene at that version.
abbrev pub Consecutive : ℕ → List PatchBroadcast → ℕ → Type 0
Consecutive n [] m = n ≡ m
Consecutive n (p ∷ sent) m =
    (p.seq ≡ pos (suc n)) × (p.scene.scene_version ≡ pos (suc n)) × Consecutive (suc n) sent m

abbrev pub IsLevel : Reply → Type 0
IsLevel (result (applied seq revision)) = seq ≡ revision
IsLevel (result (rejected e)) = Unit
IsLevel (scene_is scene) = Unit
IsLevel lowered = Unit

-- How many operations a command brings.
unfoldable pub work : CanvasCommand → ℕ
work (apply_envelope envelope user) = 1
work (apply_bare op user) = 1
work (feature ops user) = length ops
work get_scene = 0

unfoldable pub works : List CanvasCommand → ℕ
works [] = 0
works (command ∷ commands) = work command + works commands

-- From an actor in step at `n` to `after`, by `w` operations at most.
pub record Ran {A : Type 0} (n : ℕ) (actor : CanvasActor A) (w : ℕ) (sent : List PatchBroadcast)
    (after : CanvasActor A) : Type 0 where
  pub last : ℕ
  pub now : InStep last after
  pub consecutive : Consecutive n sent last
  pub within : last ≤ n + w
  pub acks : List (OpId × OpAck)
  pub few : length acks ≤ w
  pub dedup_is : after.dedup ≡ record_all max_seen_ops actor.dedup acks

Consecutive-append :
    (n m k : ℕ) (sent later : List PatchBroadcast)
    → Consecutive n sent m
    → Consecutive m later k
    → Consecutive n (sent ++ later) k
Consecutive-append n m k [] later h c = subst (λ i. Consecutive i later k) (sym h) c
Consecutive-append n m k (p ∷ sent) later (s, v, h) c =
    (s, v, Consecutive-append (suc n) m k sent later h c)

record_all-append :
    (cap : ℕ) (table : DedupTable) (l m : List (OpId × OpAck))
    → record_all cap table (l ++ m) ≡ record_all cap (record_all cap table l) m
unfolding record_all
record_all-append cap table [] m = refl
record_all-append cap table ((id, ack) ∷ l) m =
    record_all-append cap (record_within cap table id ack) l m

module _ {A : Type 0} where
  pub stays : (n w : ℕ) (actor : CanvasActor A) → InStep n actor → Ran n actor w [] actor
  unfolding record_all
  stays n w actor now = record {
    last = n;
    now = now;
    consecutive = refl;
    within = omega arith;
    acks = [];
    few = omega arith;
    dedup_is = refl;
  }

  pub chained :
      (n w v t : ℕ) (actor middle after : CanvasActor A) (sent later : List PatchBroadcast)
      (first : Ran n actor w sent middle)
      → Ran first.last middle v later after
      → w + v ≤ t
      → Ran n actor t (sent ++ later) after
  chained n w v t actor middle after sent later first second most = record {
    last = second.last;
    now = second.now;
    consecutive =
        Consecutive-append n first.last second.last sent later first.consecutive second.consecutive;
    within = let a = first.within in let b = second.within in omega arith;
    acks = first.acks ++ second.acks;
    few =
        let a = first.few in
        let b = second.few in let c = length-append first.acks second.acks in omega arith;
    dedup_is =
        second.dedup_is
        ∙ ap (λ t. record_all max_seen_ops t second.acks) first.dedup_is
        ∙ sym (record_all-append max_seen_ops actor.dedup first.acks second.acks);
  }

abbrev acks_of : ℕ → Option OpId → List (OpId × OpAck)
acks_of n none = []
acks_of n (some op_id) = (op_id, level n) ∷ []

recorded-all :
    (table : DedupTable) (n : ℕ) (op_id : Option OpId)
    → recorded table op_id (level n) ≡ record_all max_seen_ops table (acks_of n op_id)
unfolding record_all record_ack
recorded-all table n none = refl
recorded-all table n (some op_id) = refl

one_ack : (n : ℕ) (op_id : Option OpId) → length (acks_of n op_id) ≤ 1
one_ack n none = omega arith
one_ack n (some op_id) = omega arith

-- What a command comes to.
abbrev pub Comes :
    {A R : Type 0}
    → ℕ
    → CanvasActor A
    → ℕ
    → (R → Type 0)
    → Option (CanvasActor A × R × List PatchBroadcast)
    → Type 0
Comes {A = A} {R = R} n actor w good r =
    (after : CanvasActor A) × (reply : R) × (sent : List PatchBroadcast) × (r
      ≡ some (after, reply, sent))
    × good reply
    × Ran n actor w sent after

abbrev pub IsLevelResult : ApplyResult → Type 0
IsLevelResult (applied seq revision) = seq ≡ revision
IsLevelResult (rejected e) = Unit

pub result-IsLevel : (r : ApplyResult) → IsLevelResult r → IsLevel (result r)
result-IsLevel (applied seq revision) h = h
result-IsLevel (rejected e) h = tt

module _ (affine : Affine) {A : Type 0} where
  pub came :
      (n : ℕ) (actor : CanvasActor A) (now : InStep n actor) (op : ObjectOp) (op_id : Option OpId)
      (user : Str) (r : Option (CanvasActor A × ApplyResult × List PatchBroadcast))
      → Applies affine now op op_id user r ⊎ Refuses affine now op r
      → Comes n actor 1 IsLevelResult r
  came n actor now op op_id user r (inr (e, kernel, h)) = (actor, _, [], h, tt, stays n 1 actor now)
  came n actor now op op_id user r (inl a) = (
    a.after,
    applied (pos (suc n)) (pos (suc n)),
    _,
    a.result_is,
    refl,
    record {
      last = suc n;
      now = a.next;
      consecutive = (refl, a.next.version_is, refl);
      within = omega arith;
      acks = acks_of (suc n) op_id;
      few = one_ack (suc n) op_id;
      dedup_is = a.dedup_is ∙ recorded-all actor.dedup (suc n) op_id;
    },
  )
