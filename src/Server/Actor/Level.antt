-- ===== src/Server/Actor/Level.antt =====
-- The books of the actor of crates/server/src/canvas_actor.rs: its sequence number is the version of
-- its scene, and the gate and the table are below it.
use shape_ai.Common.{
  ℕ, suc, ◌≤◌, ◌<◌, ◌≡◌, refl, sym, ◌∙◌, ap, List, [], ◌∷◌, ◌++◌, Bool, true, false, Option, none,
  some, arith, if◌then◌else◌, ◌==◌, Bool-cases, inl, inr,
}
use shape_ai.Common.Int.{ℤ, pos, ◌≤ℤ◌}
use shape_ai.Common.Str.{Str, str_key}
use shape_ai.Common.Map.{Map, get, insert, remove, get-insert, get-remove, contains_key}
use shape_ai.Common.Result.{Result, ok, err, ◌>>=◌}
use shape_ai.Lww.{LwwEntry, get_entry}
use shape_ai.Kernel.Model.{ObjectId, ObjectScene}
use shape_ai.Kernel.Op.{ObjectOp}
use shape_ai.Kernel.Edit.{ApplyError}
use shape_ai.Kernel.Apply.{
  Affine, Null, Store, touched_properties, sat_i64, held_back, is_stale, apply_object_op,
  apply_object_op_lww, mark_all,
}
use shape_ai.Kernel.Apply.Gate.{gate_marks, marker}
use shape_ai.Kernel.Apply.Writes.{names}
use shape_ai.Server.Dedup.{
  OpId, OpAck, op_key, DedupTable, max_seen_ops, seen, evict, record_within, record_ack,
}

-- No entry of the gate is above `n`.
abbrev pub AtMost : ℕ → Store → Type 0
AtMost n gate = (o p : Str) (e : LwwEntry Null) → get_entry gate o p ≡ some e → e.seq ≤ℤ pos n

-- Every acknowledgement in the table carries one number twice.
abbrev pub IsEven : DedupTable → Type 0
IsEven dedup = (id : OpId) (ack : OpAck) → seen dedup id ≡ some ack → ack.seq ≡ ack.revision

below_not_held :
    (n : ℕ) (held : Option (LwwEntry Null))
    → ((e : LwwEntry Null) → held ≡ some e → e.seq ≤ℤ pos n)
    → held_back (pos (suc n)) held ≡ false
below_not_held n none below = refl
below_not_held n (some e) below = ground (arith, below e refl)

-- An operation that is numbered past all entries is not stale.
fresh_above :
    (n : ℕ) (gate : Store) (props : List (ObjectId × Str))
    → AtMost n gate
    → is_stale gate (pos (suc n)) props ≡ false
unfolding is_stale
fresh_above n gate [] below = refl
fresh_above n gate ((id, property) ∷ props) below =
    rw (below_not_held n (get_entry gate id property) (below id property))
      (fresh_above n gate props below)

marked_below :
    (n : ℕ) (named : Bool) (held : Option (LwwEntry Null)) (e : LwwEntry Null)
    → ((e : LwwEntry Null) → held ≡ some e → e.seq ≤ℤ pos n)
    → (if named then some (marker (pos (suc n))) else held) ≡ some e
    → e.seq ≤ℤ pos (suc n)
marked_below n true held e below h = ground (arith, h)
marked_below n false held e below h = ground (arith, below e h)

sat_i64_small : (n : ℕ) → n ≤ 9223372036854775807 → sat_i64 n ≡ pos n
sat_i64_small n h = ground arith

fresh_next :
    (n : ℕ) (gate : Store) (op : ObjectOp)
    → n < 9223372036854775807
    → AtMost n gate
    → is_stale gate (sat_i64 (suc n)) (touched_properties op) ≡ false
fresh_next n gate op small below =
    ap (λ z. is_stale gate z (touched_properties op)) (sat_i64_small (suc n) (omega arith))
    ∙ fresh_above n gate (touched_properties op) below

>>=-eq-err {ℓ κ μ} :
    {E : Type ℓ} {A : Type κ} {B : Type μ} (first : Result E A) (next : A → Result E B)
    (back : A → B) {e : E}
    → ((a : A) → next a ≡ ok (back a))
    → (first >>= next) ≡ err e
    → first ≡ err e
>>=-eq-err (ok a) next back all h = cc (all a, h)
>>=-eq-err (err e) next back all h = cc h

module _ (affine : Affine) where
  -- In step with its number, the gate lets every operation through.
  pub lets_through :
      (n : ℕ) (scene s' : ObjectScene) (gate gate' : Store) (op inv : ObjectOp)
      → n < 9223372036854775807
      → AtMost n gate
      → apply_object_op_lww affine scene gate op (suc n) ≡ ok (s', gate', inv)
      → (apply_object_op affine scene op ≡ ok (s', inv)) × AtMost (suc n) gate'
  lets_through n scene s' gate gate' op inv small below run =
      let sat : sat_i64 (suc n) ≡ pos (suc n) = sat_i64_small (suc n) (omega arith) in
      let fresh = fresh_next n gate op small below in
      let (applied, held) = gate_marks affine scene s' gate gate' op inv (suc n) fresh run in
      (
        applied,
        λ o p e h.
            marked_below n (names (touched_properties op) o p) (get_entry gate o p) e (below o p) (
              ap
                (λ z.
                  if names (touched_properties op) o p then some (marker z) else get_entry gate o p)
                (sym sat)
              ∙ sym (held o p)
              ∙ h),
      )

  pub lets_error :
      (n : ℕ) (scene : ObjectScene) (gate : Store) (op : ObjectOp) (e : ApplyError)
      → n < 9223372036854775807
      → AtMost n gate
      → apply_object_op_lww affine scene gate op (suc n) ≡ err e
      → apply_object_op affine scene op ≡ err e
  unfolding apply_object_op_lww
  lets_error n scene gate op e small below run =
      let fresh = fresh_next n gate op small below in
      >>=-eq-err (apply_object_op affine scene op) _
        (λ p. (p.0, mark_all gate (sat_i64 (suc n)) (touched_properties op), p.1)) (λ p. refl)
        (rw fresh at run)

-- The table after a record is what it was, with the new acknowledgement.
evict_fewer :
    (cap : ℕ) (order : List OpId) (acks : Map OpId OpAck) (id : OpId) (ack : OpAck)
    → get id (evict cap order acks).acks ≡ some ack
    → get id acks ≡ some ack
unfolding evict
evict_fewer cap [] acks id ack h = h
evict_fewer cap (oldest ∷ order) acks id ack h =
    ground (arith, evict_fewer cap order (remove oldest acks) id ack, get-remove oldest id acks)

-- What the table holds for `id` is old, or new and level.
even_held :
    (b : Bool) (held new : Option OpAck) (n : ℤ) (ack : OpAck)
    → ((a : OpAck) → held ≡ some a → a.seq ≡ a.revision)
    → new ≡ some ack
    → new ≡ (if b then some (record { seq = n; revision = n }) else held)
    → ack.seq ≡ ack.revision
even_held true held new n ack even h e = cc (h, e)
even_held false held new n ack even h e = even ack (sym e ∙ h)

-- A level acknowledgement keeps a table level.
pub IsEven-record :
    (table : DedupTable) (op_id : OpId) (n : ℤ)
    → IsEven table
    → IsEven (record_ack table op_id (record { seq = n; revision = n }))
unfolding seen record_ack record_within
IsEven-record table op_id n even id ack h =
    let level : OpAck = record { seq = n; revision = n } in
    let acks = insert op_id level table.acks in
    elim (Bool-cases (contains_key op_id table.acks)) [
      | inl known ↦ even id ack (rw known at h)
      | inr new ↦
          even_held (op_id == id) (get id table.acks) (get id acks) n ack (even id)
            (evict_fewer max_seen_ops (table.order ++ op_id ∷ []) acks id ack (rw new at h))
            (get-insert op_id id level table.acks)
    ]
