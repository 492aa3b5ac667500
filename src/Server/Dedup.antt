-- ===== src/Server/Dedup.antt =====
-- crates/server/src/sync.rs: the table of operations that were seen, with their acknowledgements.
pub mod Laws
mod Examples
use shape_ai.Common.{
  ℕ, suc, List, [], ◌∷◌, ◌++◌, Bool, true, false, ◌&&◌, Option, none, some, ltb, if◌then◌else◌,
  is_empty, length, Eq, ◌==◌, ◌≡◌, ◌↔◌, arith, eq_iff,
}
use shape_ai.Common.Int.{ℤ, int_key}
use shape_ai.Common.Str.{Str, str_key}
use shape_ai.Common.Map.{Map, get, contains_key, insert, remove}

pub record OpId : Type 0 where
  pub client_id : Str
  pub local_seq : ℤ

pub record OpAck : Type 0 where
  pub seq : ℤ
  pub revision : ℤ

abbrev same_op : OpId → OpId → Bool
same_op a b = a.client_id == b.client_id && a.local_seq == b.local_seq

pub same_op_iff : (a b : OpId) → (same_op a b ≡ true) ↔ (a ≡ b)
same_op_iff a b = ground (arith, eq_iff a.client_id b.client_id, eq_iff a.local_seq b.local_seq)

instance abbrev pub op_key : Eq OpId
op_key = record { equals = same_op; equals_iff = same_op_iff }

pub record DedupTable : Type 0 where
  pub acks : Map OpId OpAck
  pub order : List OpId

abbrev pub max_seen_ops : ℕ
max_seen_ops = 4096

-- `DedupTable::new`.
abbrev pub empty_table : DedupTable
empty_table = record { acks = []; order = [] }

unfoldable pub seen : DedupTable → OpId → Option OpAck
seen table op_id = get op_id table.acks

-- The oldest ids leave while there are more than `cap`.
unfoldable pub evict : ℕ → List OpId → Map OpId OpAck → DedupTable
evict cap [] acks = record { acks = acks; order = [] }
evict cap (oldest ∷ order) acks =
    let fewer = evict cap order (remove oldest acks) in
    if ltb cap (length (oldest ∷ order))
    then fewer
    else record { acks = acks; order = oldest ∷ order }

unfoldable pub record_within : ℕ → DedupTable → OpId → OpAck → DedupTable
record_within cap table op_id ack =
    let kept = evict cap (table.order ++ op_id ∷ []) (insert op_id ack table.acks) in
    if contains_key op_id table.acks then table else kept

-- `DedupTable::record`.
unfoldable pub record_ack : DedupTable → OpId → OpAck → DedupTable
record_ack = record_within max_seen_ops

unfoldable pub len : DedupTable → ℕ
len table = length table.acks
