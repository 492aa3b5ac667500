-- ===== src/Server/Dedup/Laws.antt =====
-- The table is consistent and bounded, and keeps an acknowledgement for as long as it promises.
pub mod Table
pub mod Answers
use shape_ai.Common.{
  ℕ, suc, ◌+◌, ◌≤◌, ◌<◌, ◌≡◌, refl, sym, ◌∙◌, ap, List, [], ◌∷◌, ◌++◌, Bool, true, false, ◌||◌,
  none, some, arith, ltb, if◌then◌else◌, any, length, length-append, ◌==◌, eq_iff, eq_refl,
  Bool-cases, inl, inr, tests, append_assoc,
}
use shape_ai.Common.Map.{
  Map, get, contains_key, insert, remove, get-insert, get-remove, IsMap, insert-IsMap, remove-IsMap,
  length-insert, length-remove, get-insert_self,
}
use shape_ai.Server.Dedup.{
  OpId, OpAck, DedupTable, op_key, max_seen_ops, empty_table, seen, evict, record_within,
  record_ack,
}
pub use shape_ai.Server.Dedup.Laws.Table.{IsTable}
use shape_ai.Server.Dedup.Laws.Table.{listed, record_room, record_full}
use shape_ai.Server.Dedup.Laws.Answers.{
  Finds, known, room, full, Finds-any, IsTable-Finds, Retained, Retained-step,
}

unfoldable pub record_all : ℕ → DedupTable → List (OpId × OpAck) → DedupTable
record_all cap table [] = table
record_all cap table ((id, ack) ∷ l) = record_all cap (record_within cap table id ack) l

pub IsTable-record_within :
    (cap : ℕ) (table : DedupTable) (id : OpId) (ack : OpAck)
    → 0 < cap
    → IsTable cap table
    → IsTable cap (record_within cap table id ack)
IsTable-record_within cap table id ack pos t =
    IsTable-Finds cap table.acks id ack table.order
      (Finds-any cap table.acks id table.order pos t.bounded) t

Retained-record_all :
    (cap : ℕ) (table : DedupTable) (id : OpId) (ack : OpAck) (later : List (OpId × OpAck))
    → 0 < cap
    → IsTable cap table
    → Retained cap id ack (length later) table
    → get id (record_all cap table later).acks ≡ some ack
unfolding record_all
Retained-record_all cap table id ack [] pos t r = r.held
Retained-record_all cap table id ack ((j, b) ∷ later) pos t r =
    Retained-record_all cap (record_within cap table j b) id ack later pos
      (IsTable-record_within cap table j b pos t)
      (Retained-step cap table.acks id j ack b (length later) table.order
        (Finds-any cap table.acks j table.order pos t.bounded) t r)

IsTable-record_all :
    (cap : ℕ) (table : DedupTable) (l : List (OpId × OpAck))
    → 0 < cap
    → IsTable cap table
    → IsTable cap (record_all cap table l)
unfolding record_all
IsTable-record_all cap table [] pos t = t
IsTable-record_all cap table ((id, ack) ∷ l) pos t =
    IsTable-record_all cap (record_within cap table id ack) l pos
      (IsTable-record_within cap table id ack pos t)

IsTable-no_acks : (cap : ℕ) → IsTable cap empty_table
unfolding get
IsTable-no_acks cap = record {
  bounded = omega arith;
  distinct = tt;
  is_map = tt;
  same_ids = λ id. refl;
  same_length = refl;
}

-- A table that any calls of `record` made of an empty one lists exactly the ids that have an
-- acknowledgement, each once, and at most 4096 of them.
pub record_all-IsTable :
    (l : List (OpId × OpAck)) → IsTable max_seen_ops (record_all max_seen_ops empty_table l)
record_all-IsTable l =
    IsTable-record_all max_seen_ops empty_table l (omega arith) (IsTable-no_acks max_seen_ops)

Retained-new :
    (cap : ℕ) (acks : Map OpId OpAck) (id : OpId) (ack : OpAck) (n : ℕ) (order : List OpId)
    → Finds cap acks id order
    → n < cap
    → get id acks ≡ none
    → IsTable cap (record { acks = acks; order = order })
    → Retained cap id ack n (record_within cap (record { acks = acks; order = order }) id ack)
Retained-new cap acks id ack n order (known old) lt new t = cc (rw (new, contains_key) at old)
Retained-new cap acks id ack n order (room free fits) lt new t =
    rw (record_room cap acks id ack order free fits) (record {
      older = order;
      younger = [];
      place = refl;
      few = omega arith;
      held = get-insert_self id ack acks;
    })
Retained-new cap acks id ack n _ (full {oldest} {order} free e) lt new t =
    let apart : (oldest == id || listed id order) ≡ false = sym (t.same_ids id) ∙ free in
    rw (record_full cap acks id ack oldest order free e) (record {
      older = order;
      younger = [];
      place = refl;
      few = omega arith;
      held =
          ground
            (arith, get-remove oldest id (insert id ack acks), get-insert_self id ack acks, apart);
    })

-- A replay gets the original answer: after an id that was not in the table was recorded with `ack`,
-- and at most 4095 calls of `record` after that, with whatever ids and acknowledgements, `seen`
-- returns `ack`.
pub seen-record :
    (table : DedupTable) (id : OpId) (ack : OpAck) (later : List (OpId × OpAck))
    → IsTable max_seen_ops table
    → seen table id ≡ none
    → length later < max_seen_ops
    → seen (record_all max_seen_ops (record_ack table id ack) later) id ≡ some ack
unfolding seen record_ack
seen-record table id ack later t new few =
    let pos : 0 < max_seen_ops = omega arith in
    let found = Finds-any max_seen_ops table.acks id table.order pos t.bounded in
    Retained-record_all max_seen_ops (record_within max_seen_ops table id ack) id ack later pos
      (IsTable-record_within max_seen_ops table id ack pos t)
      (Retained-new max_seen_ops table.acks id ack (length later) table.order found few new t)
