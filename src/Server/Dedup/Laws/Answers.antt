-- ===== src/Server/Dedup/Laws/Answers.antt =====
-- Which answers the DedupTable of crates/server/src/sync.rs still holds.
use shape_ai.Common.{
  ℕ, suc, ◌+◌, ◌≤◌, ◌<◌, ◌≡◌, refl, ◌∙◌, ap, List, [], ◌∷◌, ◌++◌, true, false, some, arith, ltb,
  length, length-append, ◌==◌, eq_iff, Bool-cases, inl, inr, tests, append_assoc,
}
use shape_ai.Common.Map.{Map, get, contains_key, insert, remove, get-insert, get-remove}
use shape_ai.Server.Dedup.{OpId, OpAck, DedupTable, op_key, record_within}
use shape_ai.Server.Dedup.Laws.Table.{
  listed, IsTable, record_known, record_room, record_full, IsTable-room, IsTable-full,
}

-- What a `record` finds: the id known, room, or a full table.
pub data Finds (cap : ℕ) (acks : Map OpId OpAck) (id : OpId) : List OpId → Type 0 where
  known : {order : List OpId} → contains_key id acks ≡ true → Finds cap acks id order
  room :
      {order : List OpId}
      → contains_key id acks ≡ false
      → length order < cap
      → Finds cap acks id order
  full :
      {oldest : OpId} {order : List OpId}
      → contains_key id acks ≡ false
      → suc (length order) ≡ cap
      → Finds cap acks id (oldest ∷ order)

Finds-new :
    (cap : ℕ) (acks : Map OpId OpAck) (id : OpId) (order : List OpId)
    → contains_key id acks ≡ false
    → 0 < cap
    → length order ≤ cap
    → Finds cap acks id order
Finds-new cap acks id [] new pos h = room new (omega arith)
Finds-new cap acks id (oldest ∷ order) new pos h =
    elim (Bool-cases (ltb (suc (length order)) cap)) [
      | inl lt ↦ room new (omega tests)
      | inr ge ↦ full new (ground arith)
    ]

pub Finds-any :
    (cap : ℕ) (acks : Map OpId OpAck) (id : OpId) (order : List OpId)
    → 0 < cap
    → length order ≤ cap
    → Finds cap acks id order
Finds-any cap acks id order pos h = elim (Bool-cases (contains_key id acks)) [
  | inl old ↦ known old
  | inr new ↦ Finds-new cap acks id order new pos h
]

pub IsTable-Finds :
    (cap : ℕ) (acks : Map OpId OpAck) (id : OpId) (ack : OpAck) (order : List OpId)
    → Finds cap acks id order
    → IsTable cap (record { acks = acks; order = order })
    → IsTable cap (record_within cap (record { acks = acks; order = order }) id ack)
IsTable-Finds cap acks id ack order (known old) t = rw (record_known cap acks id ack order old) t
IsTable-Finds cap acks id ack order (room new lt) t =
    rw (record_room cap acks id ack order new lt) (IsTable-room cap acks id ack order new lt t)
IsTable-Finds cap acks id ack _ (full {oldest} {order} new e) t =
    rw (record_full cap acks id ack oldest order new e)
      (IsTable-full cap acks id ack oldest order new e t)

-- An id with fewer than `cap - n` younger ones: it survives `n` more.
pub record Retained (cap : ℕ) (id : OpId) (ack : OpAck) (n : ℕ) (table : DedupTable) : Type 0 where
  pub older : List OpId
  pub younger : List OpId
  pub place : table.order ≡ older ++ id ∷ younger
  pub few : length younger + n < cap
  pub held : get id table.acks ≡ some ack

-- A key that is listed behind the oldest id is another one.
not_oldest :
    (oldest id : OpId) (older younger : List OpId)
    → listed oldest (older ++ id ∷ younger) ≡ false
    → (oldest == id) ≡ false
not_oldest oldest id [] younger h = ground (arith, eq_iff oldest id, eq_iff id oldest)
not_oldest oldest id (x ∷ older) younger h = not_oldest oldest id older younger (ground arith)

newcomer :
    (acks : Map OpId OpAck) (id j : OpId) (ack : OpAck)
    → get id acks ≡ some ack
    → contains_key j acks ≡ false
    → (j == id) ≡ false
newcomer acks id j ack held new = elim (Bool-cases (j == id)) [
  | inl e ↦
      let same : j ≡ id = (eq_iff j id).0 e in
      let there : contains_key id acks ≡ true = rw (held, contains_key) refl in
      cc (there, rw same at new)
  | inr ne ↦ ne
]

list_parts : {x y : OpId} {l m : List OpId} → x ∷ l ≡ y ∷ m → (x ≡ y) × (l ≡ m)
list_parts e = (cc e, cc e)

module _ (cap : ℕ) (acks : Map OpId OpAck) (id j : OpId) (ack b : OpAck) (n : ℕ) where
  Retained-full :
      (oldest : OpId) (order older younger : List OpId)
      → contains_key j acks ≡ false
      → suc (length order) ≡ cap
      → IsTable cap (record { acks = acks; order = oldest ∷ order })
      → oldest ∷ order ≡ older ++ id ∷ younger
      → length younger + suc n < cap
      → get id acks ≡ some ack
      → Retained cap id ack n
          (record { acks = remove oldest (insert j b acks); order = order ++ j ∷ [] })
  Retained-full oldest order [] younger new e t place few held =
      let same : order ≡ younger = (list_parts place).1 in absurd (omega (arith, ap length same))
  Retained-full oldest order (x ∷ older) younger new e t place few held =
      let (first, rest) = list_parts place in
      let apart : (oldest == id) ≡ false =
        not_oldest oldest id older younger (rw rest at t.distinct.0) in
      record {
        older = older;
        younger = younger ++ j ∷ [];
        place = ap (λ l. l ++ j ∷ []) rest ∙ append_assoc older (id ∷ younger) (j ∷ []);
        few = omega (arith, length-append {0} younger (j ∷ []));
        held = ground (
          arith,
          get-remove oldest id (insert j b acks),
          get-insert j id b acks,
          apart,
          newcomer acks id j ack held new,
          held,
        );
      }

  Retained-room :
      (order older younger : List OpId)
      → contains_key j acks ≡ false
      → order ≡ older ++ id ∷ younger
      → length younger + suc n < cap
      → get id acks ≡ some ack
      → Retained cap id ack n (record { acks = insert j b acks; order = order ++ j ∷ [] })
  Retained-room order older younger new place few held = record {
    older = older;
    younger = younger ++ j ∷ [];
    place = ap (λ l. l ++ j ∷ []) place ∙ append_assoc older (id ∷ younger) (j ∷ []);
    few = omega (arith, length-append {0} younger (j ∷ []));
    held = ground (arith, get-insert j id b acks, newcomer acks id j ack held new, held);
  }

  pub Retained-step :
      (order : List OpId)
      → Finds cap acks j order
      → IsTable cap (record { acks = acks; order = order })
      → Retained cap id ack (suc n) (record { acks = acks; order = order })
      → Retained cap id ack n (record_within cap (record { acks = acks; order = order }) j b)
  Retained-step order (known old) t r = rw (record_known cap acks j b order old) (record {
    older = r.older;
    younger = r.younger;
    place = r.place;
    few = omega (arith, r.few);
    held = r.held;
  })
  Retained-step order (room new lt) t r =
      rw (record_room cap acks j b order new lt)
        (Retained-room order r.older r.younger new r.place r.few r.held)
  Retained-step _ (full {oldest} {order} new e) t r =
      rw (record_full cap acks j b oldest order new e)
        (Retained-full oldest order r.older r.younger new e t r.place r.few r.held)
