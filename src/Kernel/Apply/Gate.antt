-- ===== src/Kernel/Apply/Gate.antt =====
-- The per-property gate: an operation applies if it is newer than every property that it writes.
use shape_ai.Common.{
  ℕ, ◌≡◌, ◌≢◌, refl, sym, ◌∙◌, ap, List, [], ◌∷◌, map, true, false, ◌&&◌, Option, none, some, arith,
  if◌then◌else◌, ◌==◌, eq_iff, eq_refl, Bool-cases, inl, inr,
}
use shape_ai.Common.Int.{ℤ, pos, ◌+ℤ◌}
use shape_ai.Common.Str.{Str, str_key}
use shape_ai.Common.Result.{ok, >>=-eq-ok}
use shape_ai.Lww
use shape_ai.Lww.{LwwEntry, PropertyStore, get_entry, lww_merge_property}
use shape_ai.Lww.Laws.{after, apply_lem}
use shape_ai.Kernel.Model.{ObjectId, ObjectScene}
use shape_ai.Kernel.Op.{ObjectOp}
use shape_ai.Kernel.Edit.{no_change}
use shape_ai.Kernel.Apply.Writes.{
  names, WritesProperty, unwritten, inner-Keeps, WritesProperty-touched,
}
use shape_ai.Kernel.Apply.{
  Affine, Null, null, Store, touched_properties, sat_i64, held_back, is_stale, mark_all,
  apply_inner, apply_object_op, apply_object_op_lww,
}

abbrev pub marker : ℤ → LwwEntry Null
marker seq = record { value = null; seq = seq }

mark_step :
    (store : Store) (seq : ℤ) (id property o p : Str)
    → get_entry (Lww.apply store id property null seq).0 o p
      ≡ after o p
          (get_entry store o p)
          (record { object_id = id; property = property; entry = marker seq })
mark_step store seq id property o p =
    (apply_lem store (record { object_id = id; property = property; entry = marker seq })).0 o p

mark_keeps :
    (props : List (ObjectId × Str)) (store : Store) (seq : ℤ) (o p : Str)
    → get_entry store o p ≡ some (marker seq)
    → get_entry (mark_all store seq props) o p ≡ some (marker seq)
unfolding mark_all
mark_keeps [] store seq o p h = h
mark_keeps ((id, property) ∷ props) store seq o p h =
    mark_keeps props (Lww.apply store id property null seq).0 seq o p
      (mark_step store seq id property o p ∙ ground (arith, h))

mark_leaves :
    (props : List (ObjectId × Str)) (store : Store) (seq : ℤ) (o p : Str)
    → names props o p ≡ false
    → get_entry (mark_all store seq props) o p ≡ get_entry store o p
unfolding mark_all
mark_leaves [] store seq o p h = refl
mark_leaves ((id, property) ∷ props) store seq o p h =
    mark_leaves props (Lww.apply store id property null seq).0 seq o p (ground arith)
    ∙ mark_step store seq id property o p
    ∙ ground (arith, h)

not_held :
    (held : Option (LwwEntry Null)) (seq : ℤ)
    → held_back seq held ≡ false
    → lww_merge_property held (marker seq) ≡ true
unfolding lww_merge_property
not_held none seq h = refl
not_held (some e) seq h = ground arith

mark_sets :
    (props : List (ObjectId × Str)) (store : Store) (seq : ℤ) (o p : Str)
    → names props o p ≡ true
    → held_back seq (get_entry store o p) ≡ false
    → get_entry (mark_all store seq props) o p ≡ some (marker seq)
unfolding mark_all
mark_sets [] store seq o p h free = cc h
mark_sets ((id, property) ∷ props) store seq o p h free =
    elim (Bool-cases (id == o && property == p)) [
      | inl here ↦ mark_keeps props (Lww.apply store id property null seq).0 seq o p (
          mark_step store seq id property o p
          ∙ ground (arith, not_held (get_entry store o p) seq free))
      | inr there ↦
          let left : after o p (get_entry store o p)
                (record { object_id = id; property = property; entry = marker seq })
              ≡ get_entry store o p =
            ground arith in
          let same = mark_step store seq id property o p ∙ left in
          mark_sets props (Lww.apply store id property null seq).0 seq o p (ground arith)
            (ap (held_back seq) same ∙ free)
    ]

not_stale :
    (props : List (ObjectId × Str)) (store : Store) (seq : ℤ) (o p : Str)
    → is_stale store seq props ≡ false
    → names props o p ≡ true
    → held_back seq (get_entry store o p) ≡ false
unfolding is_stale
not_stale [] store seq o p fresh h = cc h
not_stale ((id, property) ∷ props) store seq o p fresh h =
    ground (arith, eq_iff id o, eq_iff property p, not_stale props store seq o p)

-- What the store holds after a fresh operation: the new sequence number at each property that it
-- writes, and what it held before elsewhere.
marked :
    (props : List (ObjectId × Str)) (store : Store) (seq : ℤ)
    → is_stale store seq props ≡ false
    → (o p : Str)
    → get_entry (mark_all store seq props) o p
      ≡ (if names props o p then some (marker seq) else get_entry store o p)
marked props store seq fresh o p = elim (Bool-cases (names props o p)) [
  | inl h ↦ rw h (mark_sets props store seq o p h (not_stale props store seq o p fresh h))
  | inr h ↦ rw h (mark_leaves props store seq o p h)
]

stale_again :
    (props : List (ObjectId × Str)) (store : Store) (seq : ℤ)
    → props ≢ []
    → is_stale store seq props ≡ false
    → is_stale (mark_all store seq props) seq props ≡ true
unfolding is_stale
stale_again [] store seq some_prop fresh = absurd (some_prop refl)
stale_again ((id, property) ∷ props) store seq some_prop fresh =
    let all = (id, property) ∷ props in
    let named : names all id property ≡ true = rw (eq_refl id, eq_refl property) refl in
    let held =
      mark_sets all store seq id property named (not_stale all store seq id property fresh named) in
    rw held (ground arith)

module _ (affine : Affine) where
  applied_keeps :
      (scene s' : ObjectScene) (op inv : ObjectOp)
      → WritesProperty op
      → apply_object_op affine scene op ≡ ok (s', inv)
      → map (unwritten (touched_properties op)) s'.objects
        ≡ map (unwritten (touched_properties op)) scene.objects
  unfolding apply_object_op
  applied_keeps scene s' op inv writes e =
      let (p, ran, done) = >>=-eq-ok (apply_inner affine scene op) _ e in
      let same : record p.0 { scene_version = p.0.scene_version +ℤ pos 1 } ≡ s' = cc done in
      rw (← same) ((inner-Keeps affine op scene writes).only p.0 p.1 ran)

  -- Whatever the operation, a fresh one is applied as without the gate and sets the listed properties.
  pub gate_marks :
      (scene s' : ObjectScene) (store store' : Store) (op inv : ObjectOp) (seq : ℕ)
      → is_stale store (sat_i64 seq) (touched_properties op) ≡ false
      → apply_object_op_lww affine scene store op seq ≡ ok (s', store', inv)
      → (apply_object_op affine scene op ≡ ok (s', inv))
        × ((o p : Str)
            → get_entry store' o p ≡ (
                if names (touched_properties op) o p
                then some (marker (sat_i64 seq))
                else get_entry store o p))
  unfolding apply_object_op_lww
  gate_marks scene s' store store' op inv seq fresh e =
      let ran = rw fresh at e in
      let (p, applied, done) = >>=-eq-ok (apply_object_op affine scene op) _ ran in
      let scene_is : p.0 ≡ s' = cc done in
      let inverse_is : p.1 ≡ inv = cc done in
      let store_is : mark_all store (sat_i64 seq) (touched_properties op) ≡ store' = cc done in
      (
        applied ∙ ap (λ t. ok (t, p.1)) scene_is ∙ ap (λ t. ok (s', t)) inverse_is,
        λ o q.
            ap (λ t. get_entry t o q) (sym store_is)
            ∙ marked (touched_properties op) store (sat_i64 seq) fresh o q,
      )

  -- An operation that writes properties of one object (no insertion, deletion, split, merge,
  -- canonicalization or batch, and no empty edit of style or metadata), and that is newer than what
  -- each property listed for it holds, is applied as without the gate. Then the store holds its
  -- sequence number at exactly the listed properties, and elsewhere what it held; and the list is
  -- complete: the objects of the scene are as before in all fields that are not listed, and no object
  -- is added, removed or moved.
  pub gate_applies :
      (scene s' : ObjectScene) (store store' : Store) (op inv : ObjectOp) (seq : ℕ)
      → WritesProperty op
      → is_stale store (sat_i64 seq) (touched_properties op) ≡ false
      → apply_object_op_lww affine scene store op seq ≡ ok (s', store', inv)
      → (apply_object_op affine scene op ≡ ok (s', inv))
        × ((o p : Str)
            → get_entry store' o p ≡ (
                if names (touched_properties op) o p
                then some (marker (sat_i64 seq))
                else get_entry store o p))
        × (map (unwritten (touched_properties op)) s'.objects
            ≡ map (unwritten (touched_properties op)) scene.objects)
  gate_applies scene s' store store' op inv seq writes fresh e =
      let (alone, marks) = gate_marks scene s' store store' op inv seq fresh e in
      (alone, marks, applied_keeps scene s' op inv writes alone)

  pub stale_skips :
      (scene : ObjectScene) (store : Store) (op : ObjectOp) (seq : ℕ)
      → is_stale store (sat_i64 seq) (touched_properties op) ≡ true
      → apply_object_op_lww affine scene store op seq ≡ ok (scene, store, no_change)
  unfolding apply_object_op_lww
  stale_skips scene store op seq stale = rw stale

  store_after :
      (scene s' : ObjectScene) (store store' : Store) (op inv : ObjectOp) (seq : ℕ)
      → is_stale store (sat_i64 seq) (touched_properties op) ≡ false
      → apply_object_op_lww affine scene store op seq ≡ ok (s', store', inv)
      → mark_all store (sat_i64 seq) (touched_properties op) ≡ store'
  unfolding apply_object_op_lww
  store_after scene s' store store' op inv seq fresh e =
      let (p, applied, done) = >>=-eq-ok (apply_object_op affine scene op) _ (rw fresh at e) in
      cc done

  -- Replay is harmless: an operation that writes properties of one object (no insertion, deletion,
  -- split, merge, canonicalization or batch, and no empty edit of style or metadata: the gate holds none
  -- of these back) changes nothing when it
  -- arrives a second time with its sequence number, whether it was applied or skipped the first time.
  pub gate_replay :
      (scene s' : ObjectScene) (store store' : Store) (op inv : ObjectOp) (seq : ℕ)
      → WritesProperty op
      → apply_object_op_lww affine scene store op seq ≡ ok (s', store', inv)
      → apply_object_op_lww affine s' store' op seq ≡ ok (s', store', no_change)
  gate_replay scene s' store store' op inv seq writes e =
      let lists = WritesProperty-touched op writes in
      elim (Bool-cases (is_stale store (sat_i64 seq) (touched_properties op))) [
        | inl stale ↦
            let done : ok (scene, store, no_change) ≡ ok (s', store', inv) =
              sym (stale_skips scene store op seq stale) ∙ e in
            let store_is : store ≡ store' = cc done in
            stale_skips s' store' op seq (rw store_is at stale)
        | inr fresh ↦ stale_skips s' store' op seq (
            rw (store_after scene s' store store' op inv seq fresh e) at
              (stale_again (touched_properties op) store (sat_i64 seq) lists fresh))
      ]
