-- ===== src/Kernel/Undo/Laws.antt =====
-- Gestures, the handshake of undo and redo, and the invariant of the stacks.
use mathlib.Core.List.{reverse-cons}
use shape_ai.Common.{
  ◌≡◌, refl, ◌∙◌, List, [], ◌∷◌, ◌++◌, ◌⊎◌, map, reverse, append_assoc, sym, ap, inl, Bool, true,
  false, Option, none, some, arith,
}
use shape_ai.Common.Str.{Str}
use shape_ai.Common.Result.{Result, ok, err}
use shape_ai.Kernel.Op.{ObjectOp, is_empty_batch}
use shape_ai.Kernel.Undo.{
  UndoEntry, UndoStack, undo_of, redo_of, Panic, new, record_op, begin_coalesce, end_coalesce,
  flush_coalesce, is_some, undo_step, redo_step, note_undo_applied, note_redo_applied,
  abort_pending, can_undo, can_redo,
}

-- An edit of a gesture: the operation and the inverse that its application returned.
abbrev pub Edit : Type 0
Edit = ObjectOp × ObjectOp

unfoldable pub record_all : UndoStack → List Edit → UndoStack
record_all s [] = s
record_all s ((forward, inverse) ∷ edits) = record_all (record_op s forward inverse) edits

-- Edits that changed something.
abbrev pub AllEffective : List Edit → Type 0
AllEffective [] = Unit
AllEffective ((forward, inverse) ∷ edits) = (is_empty_batch inverse ≡ false) × AllEffective edits

abbrev pub last_forward : ObjectOp → List Edit → ObjectOp
last_forward forward [] = forward
last_forward forward ((f, i) ∷ edits) = last_forward f edits

-- A stack in the middle of a gesture.
abbrev in_gesture : UndoStack → ObjectOp → ObjectOp → UndoStack
in_gesture s f i = record s {
  redo = [];
  coalescing_open = true;
  coalescing = some (record { forward = f; inverse = i });
}

record_all-in_gesture :
    (s : UndoStack) (f i : ObjectOp) (edits : List Edit)
    → AllEffective edits
    → record_all (in_gesture s f i) edits ≡ in_gesture s (last_forward f edits) i
unfolding record_all record_op
record_all-in_gesture s f i [] e = refl
record_all-in_gesture s f i ((g, j) ∷ edits) e = rw e.0 (record_all-in_gesture s g i edits e.1)

gesture_begin :
    (s : UndoStack) (f i : ObjectOp)
    → s.coalescing ≡ none
    → is_empty_batch i ≡ false
    → record_op (begin_coalesce s) f i ≡ in_gesture s f i
unfolding record_op begin_coalesce
gesture_begin s f i c e = rw (e, c)

-- A gesture becomes one entry: with no earlier entry in the window, the edits between
-- `begin_coalesce` and `end_coalesce` leave the inverse of the first and the forward operation of
-- the last on top of the undo stack, nothing to redo, and all else as it was.
pub gesture_commits :
    (s : UndoStack) (f i : ObjectOp) (edits : List Edit)
    → s.coalescing ≡ none
    → is_empty_batch i ≡ false
    → AllEffective edits
    → end_coalesce (record_all (begin_coalesce s) ((f, i) ∷ edits)) ≡ record s {
      undo = record { forward = last_forward f edits; inverse = i } ∷ s.undo;
      redo = [];
      coalescing_open = false;
      coalescing = none;
    }
unfolding record_all end_coalesce
gesture_commits s f i edits c e es =
    ap end_coalesce (
      ap (λ t. record_all t edits) (gesture_begin s f i c e) ∙ record_all-in_gesture s f i edits es)

-- The history as the user sees it: what was done, oldest first, and what could be done again.
abbrev pub timeline : UndoStack → List ObjectOp
timeline s =
    reverse (map (λ (x : UndoEntry). x.forward) s.undo) ++ map (λ (x : UndoEntry). x.forward) s.redo

-- No window with an entry, and no handshake in flight.
pub record IsIdle (s : UndoStack) : Type 0 where
  pub no_window : s.coalescing ≡ none
  pub no_pending : s.pending ≡ none

-- The element that ends one list and begins the other.
reverse_shift {ℓ} : {A : Type ℓ} (x : A) (l r : List A) → reverse (x ∷ l) ++ r ≡ reverse l ++ x ∷ r
reverse_shift x l r = ap (λ t. t ++ r) (reverse-cons x l) ∙ append_assoc (reverse l) (x ∷ []) r

-- On an idle stack with an entry, in a build with or without debug assertions, `undo`, answered by the
-- host with the re-inverse `r`: the newest entry is handed out, leaves the undo stack and lands on the
-- redo stack with its forward operation and `r`; the timeline of forward operations is the same as
-- before, and the stack is idle again.
pub undo-keeps_timeline :
    (debug : Bool) (s : UndoStack) (entry : UndoEntry) (rest : List UndoEntry) (r : ObjectOp)
    → IsIdle s
    → s.undo ≡ entry ∷ rest
    → (mid t : UndoStack) × (undo_step debug s ≡ ok (mid, some entry.inverse))
      × (note_undo_applied mid r ≡ ok t)
      × (t.undo ≡ rest)
      × (t.redo ≡ record { forward = entry.forward; inverse = r } ∷ s.redo)
      × (timeline t ≡ timeline s)
      × IsIdle t
unfolding undo_step note_undo_applied flush_coalesce end_coalesce
undo-keeps_timeline debug s entry rest r h e = (
  record s {
    coalescing_open = false;
    coalescing = none;
    undo = rest;
    pending = some (undo_of entry.forward);
  },
  record s {
    coalescing_open = false;
    coalescing = none;
    undo = rest;
    pending = none;
    redo = record { forward = entry.forward; inverse = r } ∷ s.redo;
  },
  ground (arith, h.no_window, h.no_pending),
  refl,
  refl,
  refl,
  rw e (
      sym (
        reverse_shift entry.forward (map (λ (x : UndoEntry). x.forward) rest)
          (map (λ (x : UndoEntry). x.forward) s.redo))),
  record { no_window = refl; no_pending = refl },
)

-- On an idle stack with an undone entry, in a build with or without debug assertions, `redo`, answered
-- with the inverse `r`: the entry is handed out and goes back to the undo stack, with its forward
-- operation and `r`; the timeline is the same as before, and the stack is idle again.
pub redo-keeps_timeline :
    (debug : Bool) (s : UndoStack) (entry : UndoEntry) (rest : List UndoEntry) (r : ObjectOp)
    → IsIdle s
    → s.redo ≡ entry ∷ rest
    → (mid t : UndoStack) × (redo_step debug s ≡ ok (mid, some entry.forward))
      × (note_redo_applied mid r ≡ ok t)
      × (t.undo ≡ record { forward = entry.forward; inverse = r } ∷ s.undo)
      × (t.redo ≡ rest)
      × (timeline t ≡ timeline s)
      × IsIdle t
unfolding redo_step note_redo_applied flush_coalesce end_coalesce
redo-keeps_timeline debug s entry rest r h e = (
  record s {
    coalescing_open = false;
    coalescing = none;
    redo = rest;
    pending = some (redo_of entry.forward);
  },
  record s {
    coalescing_open = false;
    coalescing = none;
    redo = rest;
    pending = none;
    undo = record { forward = entry.forward; inverse = r } ∷ s.undo;
  },
  ground (arith, h.no_window, h.no_pending),
  refl,
  refl,
  refl,
  rw e (
      reverse_shift entry.forward (map (λ (x : UndoEntry). x.forward) s.undo)
        (map (λ (x : UndoEntry). x.forward) rest)),
  record { no_window = refl; no_pending = refl },
)

-- What the host may do, each call with its answer where it has one.
pub data Call : Type 0 where
  records : (forward inverse : ObjectOp) → Call
  begins ends undoes redoes aborts : Call
  undo_applied redo_applied : ObjectOp → Call

abbrev state_of : Result Panic (UndoStack × Option ObjectOp) → Result Panic UndoStack
state_of (ok (s, op)) = ok s
state_of (err p) = err p

unfoldable pub call : (debug : Bool) → UndoStack → Call → Result Panic UndoStack
call debug s (records forward inverse) = ok (record_op s forward inverse)
call debug s begins = ok (begin_coalesce s)
call debug s ends = ok (end_coalesce s)
call debug s undoes = state_of (undo_step debug s)
call debug s redoes = state_of (redo_step debug s)
call debug s aborts = ok (abort_pending s)
call debug s (undo_applied op) = note_undo_applied s op
call debug s (redo_applied op) = note_redo_applied s op

-- The states that calls without a panic lead to, in a build with or without debug assertions.
pub data Reaches (debug : Bool) (s : UndoStack) : UndoStack → Type 0 where
  here : Reaches debug s s
  step :
      {t u : UndoStack} (c : Call) → Reaches debug s t → call debug t c ≡ ok u → Reaches debug s u

-- An entry waits only in an open window.
abbrev pub IsTidy : UndoStack → Type 0
IsTidy s = (s.coalescing ≡ none) ⊎ (s.coalescing_open ≡ true)

call-IsTidy :
    (debug : Bool) (s t : UndoStack) (c : Call) → IsTidy s → call debug s c ≡ ok t → IsTidy t
unfolding call record_op begin_coalesce end_coalesce undo_step redo_step flush_coalesce
    abort_pending note_undo_applied note_redo_applied
call-IsTidy debug s t (records f i) h e = ground arith
call-IsTidy debug s t _ h e = ground arith

Reaches-IsTidy : {debug : Bool} {s t : UndoStack} → IsTidy s → Reaches debug s t → IsTidy t
Reaches-IsTidy h here = h
Reaches-IsTidy {debug} h (step {t} {u} c r e) = call-IsTidy debug t u c (Reaches-IsTidy h r) e

abbrev pub hands_out : Result Panic (UndoStack × Option ObjectOp) → Bool
hands_out (err p) = false
hands_out (ok (s, op)) = is_some op

hands_out_exact :
    (debug : Bool) (s : UndoStack)
    → IsTidy s
    → s.pending ≡ none
    → (can_undo s ≡ hands_out (undo_step debug s)) × (can_redo s ≡ hands_out (redo_step debug s))
unfolding undo_step redo_step flush_coalesce end_coalesce
hands_out_exact debug s h p = (ground arith, ground arith)

-- After any calls on a new stack that did not panic, and with no handshake in flight, `can_undo`
-- and `can_redo` say exactly whether `undo` and `redo` have an operation to hand out, in any build.
pub can_undo_exact :
    (debug : Bool) (actor : Str) (s : UndoStack)
    → Reaches debug (new actor) s
    → s.pending ≡ none
    → (can_undo s ≡ hands_out (undo_step debug s)) × (can_redo s ≡ hands_out (redo_step debug s))
can_undo_exact debug actor s r p = hands_out_exact debug s (Reaches-IsTidy (inl refl) r) p
