-- ===== src/Kernel/Undo.antt =====
-- crates/scene-core/src/object/kernel/undo.rs: the undo and redo stacks of one actor. The last
-- element of each `Vec` is the head of its list here. A panic is the error `Panic`.
pub mod Laws
mod Examples
use shape_ai.Common.{
  ◌&&◌, ℕ, List, [], ◌∷◌, Bool, true, false, Option, none, some, not, ◌||◌, is_empty, length,
  if◌then◌else◌,
}
use shape_ai.Common.Str.{Str}
use shape_ai.Common.Result.{Result, ok, err}
use shape_ai.Kernel.Op.{ObjectOp, is_empty_batch}

pub record UndoEntry : Type 0 where
  pub forward : ObjectOp
  pub inverse : ObjectOp

pub data Pending : Type 0 where
  undo_of redo_of : (forward : ObjectOp) → Pending

pub record UndoStack : Type 0 where
  pub actor_id : Str
  pub undo : List UndoEntry
  pub redo : List UndoEntry
  pub coalescing_open : Bool
  pub coalescing : Option UndoEntry
  pub pending : Option Pending

pub data Panic : Type 0 where
  no_pending_undo no_pending_redo handshake_open : Panic

abbrev pub new : Str → UndoStack
new actor_id = record {
  actor_id = actor_id;
  undo = [];
  redo = [];
  coalescing_open = false;
  coalescing = none;
  pending = none;
}

-- The first inverse stays, the latest forward replaces the one before.
abbrev pub coalesced : Option UndoEntry → ObjectOp → ObjectOp → UndoEntry
coalesced (some entry) forward inverse = record entry { forward = forward }
coalesced none forward inverse = record { forward = forward; inverse = inverse }

unfoldable pub record_op : UndoStack → ObjectOp → ObjectOp → UndoStack
record_op s forward inverse =
    if is_empty_batch inverse
    then s
    else if s.coalescing_open
    then record s { redo = []; coalescing = some (coalesced s.coalescing forward inverse) }
    else record s { redo = []; undo = record { forward = forward; inverse = inverse } ∷ s.undo }

unfoldable pub begin_coalesce : UndoStack → UndoStack
begin_coalesce s = record s { coalescing_open = true }

abbrev pub commit : Option UndoEntry → List UndoEntry → List UndoEntry
commit (some entry) l = entry ∷ l
commit none l = l

unfoldable pub end_coalesce : UndoStack → UndoStack
end_coalesce s = record s {
  coalescing_open = false;
  coalescing = none;
  undo = commit s.coalescing s.undo;
}

unfoldable pub flush_coalesce : UndoStack → UndoStack
unfolding end_coalesce
flush_coalesce s = if s.coalescing_open then end_coalesce s else s

abbrev pub is_some {ℓ} : {A : Type ℓ} → Option A → Bool
is_some none = false
is_some (some a) = true

-- `undo` after the flush: the debug assertion, then the pop.
abbrev pub take_undo : UndoStack → List UndoEntry → UndoStack × Option ObjectOp
take_undo s [] = (s, none)
take_undo s (entry ∷ rest) =
    (record s { undo = rest; pending = some (undo_of entry.forward) }, some entry.inverse)

abbrev pub take_redo : UndoStack → List UndoEntry → UndoStack × Option ObjectOp
take_redo s [] = (s, none)
take_redo s (entry ∷ rest) =
    (record s { redo = rest; pending = some (redo_of entry.forward) }, some entry.forward)

-- `debug_assert!` is an error in a build with debug assertions; one without them goes on, and the new
-- handshake takes the place of the one that is open.
unfoldable pub undo_step : (debug : Bool) → UndoStack → Result Panic (UndoStack × Option ObjectOp)
undo_step debug s =
    let f = flush_coalesce s in
    if debug && is_some f.pending then err handshake_open else ok (take_undo f f.undo)

unfoldable pub redo_step : (debug : Bool) → UndoStack → Result Panic (UndoStack × Option ObjectOp)
redo_step debug s =
    let f = flush_coalesce s in
    if debug && is_some f.pending then err handshake_open else ok (take_redo f f.redo)

abbrev pub land_undo : UndoStack → ObjectOp → Option Pending → Result Panic UndoStack
land_undo s re_inverse (some (undo_of forward)) = ok (record s {
  pending = none;
  redo = record { forward = forward; inverse = re_inverse } ∷ s.redo;
})
land_undo s re_inverse other = err no_pending_undo

unfoldable pub note_undo_applied : UndoStack → ObjectOp → Result Panic UndoStack
note_undo_applied s re_inverse = land_undo s re_inverse s.pending

abbrev pub land_redo : UndoStack → ObjectOp → Option Pending → Result Panic UndoStack
land_redo s inverse (some (redo_of forward)) =
    ok
      (record s { pending = none; undo = record { forward = forward; inverse = inverse } ∷ s.undo })
land_redo s inverse other = err no_pending_redo

unfoldable pub note_redo_applied : UndoStack → ObjectOp → Result Panic UndoStack
note_redo_applied s inverse = land_redo s inverse s.pending

unfoldable pub abort_pending : UndoStack → UndoStack
abort_pending s = record s { pending = none }

abbrev pub can_undo : UndoStack → Bool
can_undo s = not (is_empty s.undo) || is_some s.coalescing

abbrev pub can_redo : UndoStack → Bool
can_redo s = not (is_empty s.redo)

abbrev pub undo_depth : UndoStack → ℕ
undo_depth s = length s.undo

abbrev pub redo_depth : UndoStack → ℕ
redo_depth s = length s.redo
