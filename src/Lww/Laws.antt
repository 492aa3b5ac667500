-- ===== src/Lww/Laws.antt =====
-- What a store holds after a write, and that the order in which writes arrive does not matter.
use shape_ai.Common.{
  ◌≡◌, ◌≢◌, refl, sym, ◌∙◌, ap, List, [], ◌∷◌, Bool, true, ◌&&◌, Option, none, some, arith,
  if◌then◌else◌, ◌==◌, eq_iff, All, Bool-cases, inl, inr,
}
use shape_ai.Common.Int.{eq_of_parts, ltb_ℤ}
use shape_ai.Common.Str.{Str, str_key}
use shape_ai.Common.Map.{Map, get, insert, get-insert}
use shape_ai.Lww.{
  LwwEntry, PropertyStore, lww_merge_property, apply, get_entry, empty_store, or_default, get_in,
}

-- A write as it arrives.
pub record Write {ℓ} (V : Type ℓ) : Type ℓ where
  pub object_id : Str
  pub property : Str
  pub entry : LwwEntry V

module _ {V : Type 0} where
  -- What one property holds after a write to any.
  abbrev pub after : (o p : Str) → Option (LwwEntry V) → Write V → Option (LwwEntry V)
  after o p held w =
      if w.object_id == o && (w.property == p && lww_merge_property held w.entry)
      then some w.entry
      else held

  abbrev pub write : PropertyStore V → Write V → PropertyStore V × Bool
  write store w = apply store w.object_id w.property w.entry.value w.entry.seq

  get-or_default :
      (p : Str) (props : Option (Map Str (LwwEntry V))) → get p (or_default props) ≡ get_in p props
  unfolding get
  get-or_default p none = refl
  get-or_default p (some props) = refl

  -- A write is seen at its own property if it wins there, and nowhere else.
  get_entry-apply :
      (store : PropertyStore V) (w : Write V) (o p : Str)
      → get_entry (write store w).0 o p ≡ after o p (get_entry store o p) w
  unfolding apply get_entry
  get_entry-apply store w o p =
      let held = get w.object_id store.objects in
      let props = or_default held in
      ground (
        arith,
        get-insert w.object_id o (insert w.property w.entry props) store.objects,
        get-insert w.object_id o props store.objects,
        get-insert w.property p w.entry props,
        eq_iff w.object_id o,
        eq_iff w.property p,
        get-or_default w.property held,
        get-or_default p held,
      )

  -- A write is seen at its own property if it wins there, and nowhere else; `apply` reports
  -- whether it won.
  pub apply_lem :
      (store : PropertyStore V) (w : Write V)
      → ((o p : Str) → get_entry (write store w).0 o p ≡ after o p (get_entry store o p) w)
        × ((write store w).1 ≡ lww_merge_property (get_entry store w.object_id w.property) w.entry)
  unfolding apply get_entry
  apply_lem store w =
      let held = get w.object_id store.objects in
      (get_entry-apply store w, ground (arith, get-or_default w.property held))

  -- The state of a store after writes that arrive in this order.
  unfoldable pub write_all : PropertyStore V → List (Write V) → PropertyStore V
  write_all store [] = store
  write_all store (w ∷ l) = write_all (write store w).0 l

  abbrev pub after_all : (o p : Str) → Option (LwwEntry V) → List (Write V) → Option (LwwEntry V)
  after_all o p held [] = held
  after_all o p held (w ∷ l) = after_all o p (after o p held w) l

  get_entry-write_all :
      (o p : Str) (l : List (Write V)) (store : PropertyStore V)
      → get_entry (write_all store l) o p ≡ after_all o p (get_entry store o p) l
  unfolding write_all
  get_entry-write_all o p [] store = refl
  get_entry-write_all o p (w ∷ l) store =
      get_entry-write_all o p l (write store w).0
      ∙ ap (λ held. after_all o p held l) (get_entry-apply store w o p)

  -- The same writes in another order.
  pub data Reorders : List (Write V) → List (Write V) → Type 0 where
    same : {l : List (Write V)} → Reorders l l
    swapped : {v w : Write V} {l : List (Write V)} → Reorders (v ∷ w ∷ l) (w ∷ v ∷ l)
    under : {w : Write V} {l m : List (Write V)} → Reorders l m → Reorders (w ∷ l) (w ∷ m)
    chain : {k l m : List (Write V)} → Reorders k l → Reorders l m → Reorders k m

  abbrev pub Differ : Write V → Write V → Type 0
  Differ v w = v.entry.seq ≢ w.entry.seq

  -- No two writes have one sequence number.
  abbrev pub AllDiffer : List (Write V) → Type 0
  AllDiffer [] = Unit
  AllDiffer (w ∷ l) = All (Differ w) l × AllDiffer l

  All-Reorders : (P : Write V → Type 0) {l m : List (Write V)} → Reorders l m → All P l → All P m
  All-Reorders P same h = h
  All-Reorders P swapped (a, (b, h)) = (b, (a, h))
  All-Reorders P (under r) (a, h) = (a, All-Reorders P r h)
  All-Reorders P (chain r s) h = All-Reorders P s (All-Reorders P r h)

  AllDiffer-Reorders : {l m : List (Write V)} → Reorders l m → AllDiffer l → AllDiffer m
  AllDiffer-Reorders same h = h
  AllDiffer-Reorders swapped ((vw, vl), (wl, h)) = ((λ e. vw (sym e), wl), (vl, h))
  AllDiffer-Reorders (under {w} r) (a, h) = (All-Reorders (Differ w) r a, AllDiffer-Reorders r h)
  AllDiffer-Reorders (chain r s) h = AllDiffer-Reorders s (AllDiffer-Reorders r h)

  after_comm :
      (o p : Str) (held : Option (LwwEntry V)) (v w : Write V)
      → Differ v w
      → after o p (after o p held v) w ≡ after o p (after o p held w) v
  unfolding lww_merge_property
  after_comm o p none v w d = ground (arith, eq_of_parts v.entry.seq w.entry.seq)
  after_comm o p (some e) v w d = ground (arith, eq_of_parts v.entry.seq w.entry.seq)

  after_all-Reorders :
      (o p : Str) {l m : List (Write V)} (held : Option (LwwEntry V))
      → Reorders l m
      → AllDiffer l
      → after_all o p held l ≡ after_all o p held m
  after_all-Reorders o p held same h = refl
  after_all-Reorders o p held (swapped {v} {w} {l}) h =
      ap (λ x. after_all o p x l) (after_comm o p held v w h.0.0)
  after_all-Reorders o p held (under {w} r) h = after_all-Reorders o p (after o p held w) r h.1
  after_all-Reorders o p held (chain r s) h =
      after_all-Reorders o p held r h ∙ after_all-Reorders o p held s (AllDiffer-Reorders r h)

  -- Replicas converge: stores that agree on every property and receive the same writes, with
  -- sequence numbers that all differ, agree on every property, in whatever orders these arrive.
  pub write_all_converges :
      (s t : PropertyStore V) (l m : List (Write V))
      → ((o p : Str) → get_entry s o p ≡ get_entry t o p)
      → Reorders l m
      → AllDiffer l
      → (o p : Str) → get_entry (write_all s l) o p ≡ get_entry (write_all t m) o p
  write_all_converges s t l m agree r d o p =
      get_entry-write_all o p l s
      ∙ after_all-Reorders o p (get_entry s o p) r d
      ∙ ap (λ held. after_all o p held m) (agree o p)
      ∙ sym (get_entry-write_all o p m t)

  -- A write is newer than another one, unless that is to another property.
  abbrev pub newer_than : Write V → Write V → Bool
  newer_than v w =
      if w.object_id == v.object_id && w.property == v.property
      then ltb_ℤ w.entry.seq v.entry.seq
      else true

  abbrev pub newest : Write V → List (Write V) → Bool
  newest v [] = true
  newest v (w ∷ l) = newer_than v w && newest v l

  merge-after :
      (held : Option (LwwEntry V)) (w v : Write V)
      → lww_merge_property (after v.object_id v.property held w) v.entry
        ≡ (lww_merge_property held v.entry && newer_than v w)
  unfolding lww_merge_property
  merge-after none w v = ground arith
  merge-after (some e) w v = ground arith

  merge-after_all :
      (l : List (Write V)) (held : Option (LwwEntry V)) (v : Write V)
      → lww_merge_property (after_all v.object_id v.property held l) v.entry
        ≡ (lww_merge_property held v.entry && newest v l)
  merge-after_all [] held v = ground arith
  merge-after_all (w ∷ l) held v =
      merge-after_all l (after v.object_id v.property held w) v
      ∙ ground (arith, merge-after held w v)

  after_merge :
      (store : PropertyStore V) (v : Write V) (o p : Str) (wins : Bool)
      → lww_merge_property (get_entry store v.object_id v.property) v.entry ≡ wins
      → after o p (get_entry store o p) v ≡ (
          if (v.object_id == o && v.property == p) && wins
          then some v.entry
          else get_entry store o p)
  after_merge store v o p wins h = elim (Bool-cases (v.object_id == o)) [
    | inr other ↦ rw other refl
    | inl same_o ↦ elim (Bool-cases (v.property == p)) [
      | inr other ↦ rw (same_o, other) refl
      | inl same_p ↦
          let here : lww_merge_property (get_entry store o p) v.entry ≡ wins =
            rw (← (eq_iff v.object_id o).0 same_o, ← (eq_iff v.property p).0 same_p) h in
          rw (same_o, same_p, here) refl
    ]
  ]

  first_wins :
      (v : Write V) (b : Bool)
      → (lww_merge_property (get_entry empty_store v.object_id v.property) v.entry && b) ≡ b
  unfolding get_entry get lww_merge_property
  first_wins v b = refl

  -- Which write wins: after any writes to an empty store, `apply` reports of a further one that it wins
  -- exactly if its sequence number is higher than that of every earlier write to the same property, in
  -- whatever order these came; at one sequence number the first wins. If it wins it is what its property
  -- holds, and no other property changes; if not, none does.
  pub write_wins :
      (l : List (Write V)) (v : Write V)
      → ((write (write_all empty_store l) v).1 ≡ newest v l)
        × ((o p : Str)
            → get_entry (write (write_all empty_store l) v).0 o p ≡ (
                if (v.object_id == o && v.property == p) && newest v l
                then some v.entry
                else get_entry (write_all empty_store l) o p))
  write_wins l v =
      let s = write_all empty_store l in
      let held = get_entry-write_all v.object_id v.property l empty_store in
      let wins : lww_merge_property (get_entry s v.object_id v.property) v.entry ≡ newest v l =
        rw held (
          merge-after_all l (get_entry empty_store v.object_id v.property) v
          ∙ first_wins v (newest v l)) in
      let (seen, won) = apply_lem s v in
      (won ∙ wins, λ o p. seen o p ∙ after_merge s v o p (newest v l) wins)
