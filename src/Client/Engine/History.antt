-- ===== src/Client/Engine/History.antt =====
-- The operations without an answer in crates/client-runtime/src/sync_engine.rs, told from the calls
-- alone, against the tables of the engine.
use shape_ai.Common.{ℕ, ◌+◌, ◌≡◌, List, [], ◌∷◌, Option, none, some, if◌then◌else◌}
use shape_ai.Common.Int.{ℤ, ltb_ℤ}
use shape_ai.Common.Str.{Str, str_key}
use shape_ai.Common.Map.{Map, insert, remove}
use shape_ai.Common.Result.{Result, ok, err}
use shape_ai.Kernel.Model.{ObjectScene}
use shape_ai.Kernel.Op.{ObjectOp, is_empty_batch}
use shape_ai.Kernel.Edit.{Applied}
use shape_ai.Kernel.Apply.{Affine, apply_object_op}
use shape_ai.Client.Wire.{OpId, WireOp, Serde, op_id_key}
use shape_ai.Client.Outbox.{OutboxError, OutboxStore}
use shape_ai.Client.Engine.{Engine, new, owned_keys}
use shape_ai.Client.Engine.Ownership.{count}
use shape_ai.Client.Engine.Events.{Event, authors, acks, rejects, welcomes, run}

-- Operations without an answer, by the text of their ids.
abbrev pub Unanswered : Type 0
Unanswered = Map Str ObjectOp

-- How often the operations write a field: their transform, geometry, text and style fields count.
abbrev pub writers : Unanswered → Str → ℕ
writers [] field = 0
writers ((id, op) ∷ w) field = count field (owned_keys op) + writers w field

-- An answer to each of the ids.
abbrev answered : Unanswered → List OpId → Unanswered
answered w [] = w
answered w (id ∷ ids) = answered (remove (op_id_key id) w) ids

abbrev if_removed : Unanswered → List OpId → Result OutboxError (Unit {0}) → Unanswered
if_removed w ids (err x) = w
if_removed w ids (ok u) = answered w ids

module _ {Json S : Type 0} where
  -- A number that was given to an operation of the client.
  abbrev asked : Unanswered → Engine Json S → ObjectOp → Result OutboxError ℤ → Unanswered
  asked w e op (err x) = w
  asked w e op (ok n) = insert (op_id_key (record { client_id = e.client_id; local_seq = n })) op w

module _ (affine : Affine) {S : Type 0} (serde : Serde) (store : OutboxStore (serde.Json) S) where
  -- An operation that the kernel refuses, or that changes nothing, asks for no answer.
  abbrev if_changed : Unanswered → Engine (serde.Json) S → ObjectOp → Applied → Unanswered
  if_changed w e op (err x) = w
  if_changed w e op (ok (next, inverse)) =
      if is_empty_batch inverse then w else asked w e op (store.next_local_seq e.outbox).1

  abbrev one_more : Unanswered → OpId → Option ObjectOp → Unanswered
  one_more w id none = w
  one_more w id (some op) = insert (op_id_key id) op w

  abbrev resent : Unanswered → List (WireOp (serde.Json)) → Unanswered
  resent w [] = w
  resent w (x ∷ l) = resent (one_more w x.op_id (serde.from_value x.prop_delta)) l

  abbrev from_outbox : Result OutboxError (List (WireOp (serde.Json))) → Unanswered
  from_outbox (err x) = []
  from_outbox (ok l) = resent [] l

  -- An operation waits for an answer from the time that it is authored and numbered; an
  -- acknowledgement or a rejection that the outbox carries out answers it; at a welcome that is not
  -- stale those wait that the outbox holds.
  unfoldable pub note : Unanswered → Engine (serde.Json) S → Event (serde.Json) → Unanswered
  note w e (authors op ts) = if_changed w e op (apply_object_op affine e.scene op)
  note w e (acks ids revision) = if_removed w ids (store.remove e.outbox ids).1
  note w e (rejects ids) = if_removed w ids (store.remove e.outbox ids).1
  note w e (welcomes snapshot) =
      if ltb_ℤ snapshot.scene_version e.base_revision then w else from_outbox (store.all e.outbox)
  note w e _ = w

  unfoldable pub note_all :
      Unanswered → Engine (serde.Json) S → List (Event (serde.Json)) → Unanswered
  note_all w e [] = w
  note_all w e (event ∷ events) = note_all (note w e event) (run affine serde store e event) events

-- The fields of the operations, as the engine keeps them.
keys_of : Unanswered → Map Str (List Str)
keys_of [] = []
keys_of ((id, op) ∷ w) = (id, owned_keys op) ∷ keys_of w

module _ {Json S : Type 0} where
  -- The table of the engine lists the operations without an answer and no other.
  abbrev Tells : Unanswered → Engine Json S → Type 0
  Tells w e = e.op_owned_keys ≡ keys_of w

module _ (affine : Affine) {S : Type 0} (serde : Serde) (store : OutboxStore (serde.Json) S) where
  -- The operations without an answer after these calls of a new engine.
  abbrev pub unanswered : ObjectScene → Str → S → Option ℤ → List (Event (serde.Json)) → Unanswered
  unanswered scene client_id outbox coalesce_ms events =
      note_all affine serde store [] (new scene client_id outbox coalesce_ms) events
