-- ===== src/Kernel/Undo/Examples.antt =====
-- A gesture, an undo and a redo on a concrete stack.
use shape_ai.Common.{true, ◌≡◌, refl, ◌∷◌, [], none, some, false}
use shape_ai.Common.Str.{Str, bytes}
use shape_ai.Common.Result.{ok}
use shape_ai.Kernel.Op.{ObjectOp, is_empty_batch, reorder}
use shape_ai.Kernel.Undo.{
  UndoStack, UndoEntry, new, record_op, begin_coalesce, end_coalesce, undo_step, redo_step,
  note_undo_applied, note_redo_applied, can_undo, can_redo,
}
use shape_ai.Kernel.Undo.Laws.{
  record_all, gesture_commits, undo-keeps_timeline, redo-keeps_timeline, timeline, IsIdle, Reaches,
  here, step, records, call, can_undo_exact, hands_out,
}

abbrev to : Str → ObjectOp
to order = reorder (bytes "r") order

gesture_commits_example :
    end_coalesce (
      record_all
        (begin_coalesce (new (bytes "me")))
        ((to (bytes "a2"), to (bytes "a1")) ∷ (to (bytes "a3"), to (bytes "a2")) ∷ []))
    ≡ record (new (bytes "me")) {
      undo = record { forward = to (bytes "a3"); inverse = to (bytes "a1") } ∷ [];
      redo = [];
      coalescing_open = false;
      coalescing = none;
    }
unfolding is_empty_batch
gesture_commits_example =
    gesture_commits (new (bytes "me")) (to (bytes "a2")) (to (bytes "a1"))
      ((to (bytes "a3"), to (bytes "a2")) ∷ []) refl refl (refl, tt)

abbrev move : UndoEntry
move = record { forward = to (bytes "a2"); inverse = to (bytes "a1") }

-- One edit that can be undone, and one that can be redone.
abbrev edited : UndoStack
edited = record (new (bytes "me")) { undo = move ∷ []; redo = move ∷ [] }

edited-IsIdle : IsIdle edited
edited-IsIdle = record { no_window = refl; no_pending = refl }

undo-keeps_timeline_example :
    (mid t : UndoStack) × (undo_step true edited ≡ ok (mid, some move.inverse))
    × (note_undo_applied mid (to (bytes "a2")) ≡ ok t)
    × (t.undo ≡ [])
    × (t.redo ≡ record { forward = move.forward; inverse = to (bytes "a2") } ∷ edited.redo)
    × (timeline t ≡ timeline edited)
    × IsIdle t
undo-keeps_timeline_example =
    undo-keeps_timeline true edited move [] (to (bytes "a2")) edited-IsIdle refl

redo-keeps_timeline_example :
    (mid t : UndoStack) × (redo_step true edited ≡ ok (mid, some move.forward))
    × (note_redo_applied mid (to (bytes "a1")) ≡ ok t)
    × (t.undo ≡ record { forward = move.forward; inverse = to (bytes "a1") } ∷ edited.undo)
    × (t.redo ≡ [])
    × (timeline t ≡ timeline edited)
    × IsIdle t
redo-keeps_timeline_example =
    redo-keeps_timeline true edited move [] (to (bytes "a1")) edited-IsIdle refl

abbrev recorded : UndoStack
recorded = record (new (bytes "me")) { undo = move ∷ [] }

recorded-Reaches : Reaches true (new (bytes "me")) recorded
unfolding call record_op is_empty_batch
recorded-Reaches = step (records move.forward move.inverse) here refl

can_undo_exact_example :
    (can_undo recorded ≡ hands_out (undo_step true recorded))
    × (can_redo recorded ≡ hands_out (redo_step true recorded))
can_undo_exact_example = can_undo_exact true (bytes "me") recorded recorded-Reaches refl
