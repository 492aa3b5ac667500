-- ===== src/Server/Dedup/Laws/Table.antt =====
-- The order and the entries of the DedupTable of crates/server/src/sync.rs.
use shape_ai.Common.{
  ℕ, suc, ◌≤◌, ◌<◌, ◌≡◌, refl, sym, ◌∙◌, List, [], ◌∷◌, ◌++◌, Bool, true, false, ◌||◌, arith,
  if◌then◌else◌, any, length, length-append, ◌==◌, eq_iff, eq_refl,
}
use shape_ai.Common.Map.{
  Map, contains_key, insert, remove, get-insert, get-remove, IsMap, insert-IsMap, remove-IsMap,
  length-insert, length-remove,
}
use shape_ai.Server.Dedup.{OpId, OpAck, DedupTable, op_key, evict, record_within}

abbrev pub listed : OpId → List OpId → Bool
listed id l = any (λ x. x == id) l

abbrev pub Distinct : List OpId → Type 0
Distinct [] = Unit
Distinct (id ∷ l) = (listed id l ≡ false) × Distinct l

-- The ids in the order of their arrival are those with an acknowledgement, each once.
pub record IsTable (cap : ℕ) (table : DedupTable) : Type 0 where
  pub bounded : length table.order ≤ cap
  pub distinct : Distinct table.order
  pub is_map : IsMap table.acks
  pub same_ids : (id : OpId) → contains_key id table.acks ≡ listed id table.order
  pub same_length : length table.acks ≡ length table.order

listed-append : (id j : OpId) (l : List OpId) → listed id (l ++ j ∷ []) ≡ (listed id l || (j == id))
listed-append id j [] = ground arith
listed-append id j (x ∷ l) = ground (arith, listed-append id j l)

Distinct-append :
    (j : OpId) (l : List OpId) → listed j l ≡ false → Distinct l → Distinct (l ++ j ∷ [])
Distinct-append j [] h d = (refl, tt)
Distinct-append j (x ∷ l) h d =
    ground (arith, listed-append x j l, eq_iff x j, eq_iff j x, Distinct-append j l)

-- With room, the new id is added; at the bound, the oldest one leaves.
evict_room :
    (cap : ℕ) (order : List OpId) (acks : Map OpId OpAck)
    → length order ≤ cap
    → evict cap order acks ≡ record { acks = acks; order = order }
unfolding evict
evict_room cap [] acks h = refl
evict_room cap (x ∷ l) acks h = ground arith

evict_full :
    (cap : ℕ) (oldest : OpId) (order : List OpId) (acks : Map OpId OpAck)
    → length order ≡ cap
    → evict cap (oldest ∷ order) acks ≡ record { acks = remove oldest acks; order = order }
unfolding evict
evict_full cap oldest order acks h = ground (arith, evict_room cap order (remove oldest acks))

module _ (cap : ℕ) (acks : Map OpId OpAck) (id : OpId) (ack : OpAck) where
  pub record_known :
      (order : List OpId)
      → contains_key id acks ≡ true
      → record_within cap (record { acks = acks; order = order }) id ack
        ≡ record { acks = acks; order = order }
  unfolding record_within
  record_known order h = rw h

  pub record_room :
      (order : List OpId)
      → contains_key id acks ≡ false
      → length order < cap
      → record_within cap (record { acks = acks; order = order }) id ack
        ≡ record { acks = insert id ack acks; order = order ++ id ∷ [] }
  unfolding record_within
  record_room order h lt = rw h (
      evict_room cap (order ++ id ∷ []) (insert id ack acks)
        (omega (arith, length-append {0} order (id ∷ []))))

  pub record_full :
      (oldest : OpId) (order : List OpId)
      → contains_key id acks ≡ false
      → suc (length order) ≡ cap
      → record_within cap (record { acks = acks; order = oldest ∷ order }) id ack
        ≡ record { acks = remove oldest (insert id ack acks); order = order ++ id ∷ [] }
  unfolding record_within
  record_full oldest order h full = rw h (
      evict_full cap oldest (order ++ id ∷ []) (insert id ack acks)
        (omega (arith, length-append {0} order (id ∷ []))))

contains-insert :
    (id j : OpId) (ack : OpAck) (acks : Map OpId OpAck)
    → contains_key j (insert id ack acks) ≡ (id == j || contains_key j acks)
contains-insert id j ack acks = ground (arith, get-insert id j ack acks)

contains-remove :
    (id j : OpId) (acks : Map OpId OpAck)
    → contains_key j (remove id acks) ≡ (if id == j then false else contains_key j acks)
contains-remove id j acks = ground (arith, get-remove id j acks)

module _ (cap : ℕ) (acks : Map OpId OpAck) (id : OpId) (ack : OpAck) where
  pub IsTable-room :
      (order : List OpId)
      → contains_key id acks ≡ false
      → length order < cap
      → IsTable cap (record { acks = acks; order = order })
      → IsTable cap (record { acks = insert id ack acks; order = order ++ id ∷ [] })
  IsTable-room order new lt t = record {
    bounded = omega (arith, length-append {0} order (id ∷ []));
    distinct = Distinct-append id order (sym (t.same_ids id) ∙ new) t.distinct;
    is_map = insert-IsMap id ack acks t.is_map;
    same_ids =
        λ j. ground (arith, contains-insert id j ack acks, listed-append j id order, t.same_ids j);
    same_length =
        ground
          (arith, length-insert id ack acks, new, t.same_length, length-append order (id ∷ []));
  }

  pub IsTable-full :
      (oldest : OpId) (order : List OpId)
      → contains_key id acks ≡ false
      → suc (length order) ≡ cap
      → IsTable cap (record { acks = acks; order = oldest ∷ order })
      → IsTable cap (record { acks = remove oldest (insert id ack acks); order = order ++ id ∷ [] })
  IsTable-full oldest order new full t =
      let apart : (oldest == id || listed id order) ≡ false = sym (t.same_ids id) ∙ new in
      record {
        bounded = omega (arith, length-append {0} order (id ∷ []));
        distinct = Distinct-append id order (ground arith) t.distinct.1;
        is_map = remove-IsMap oldest _ (insert-IsMap id ack acks t.is_map);
        same_ids = λ j. ground (
          arith,
          contains-remove oldest j (insert id ack acks),
          contains-insert id j ack acks,
          listed-append j id order,
          t.same_ids j,
          t.distinct.0,
          eq_iff oldest j,
          eq_iff id j,
          eq_iff oldest id,
          apart,
        );
        same_length = ground (
          arith,
          length-remove oldest (insert id ack acks) (insert-IsMap id ack acks t.is_map),
          contains-insert id oldest ack acks,
          t.same_ids oldest,
          eq_refl oldest,
          length-insert id ack acks,
          new,
          t.same_length,
          length-append order (id ∷ []),
        );
      }
