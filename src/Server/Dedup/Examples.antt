-- ===== src/Server/Dedup/Examples.antt =====
-- A table of two operations, and a replay.
use shape_ai.Common.{◌≡◌, refl, [], ◌∷◌, none, some, arith}
use shape_ai.Common.Int.{pos}
use shape_ai.Common.Str.{bytes}
use shape_ai.Common.Map.{get, insert, remove}
use shape_ai.Server.Dedup.{
  OpId, OpAck, empty_table, seen, record_ack, record_within, evict, max_seen_ops,
}
use shape_ai.Server.Dedup.Laws.{IsTable, record_all, record_all-IsTable, seen-record}

abbrev first_op : OpId
first_op = record { client_id = bytes "c1"; local_seq = pos 7 }

abbrev second_op : OpId
second_op = record { client_id = bytes "c1"; local_seq = pos 8 }

abbrev ack_12 : OpAck
ack_12 = record { seq = pos 12; revision = pos 12 }

abbrev ack_99 : OpAck
ack_99 = record { seq = pos 99; revision = pos 99 }

replay_test :
    seen (record_ack (record_ack empty_table first_op ack_12) first_op ack_99) first_op
    ≡ some ack_12
unfolding seen record_ack record_within evict get insert
replay_test = refl

eviction_test :
    seen (record_within 1 (record_within 1 empty_table first_op ack_12) second_op ack_99) first_op
    ≡ none
unfolding seen record_within evict get insert remove
eviction_test = refl

empty-IsTable : IsTable max_seen_ops empty_table
unfolding record_all
empty-IsTable = record_all-IsTable []

record_all-IsTable_example :
    IsTable max_seen_ops (record_all max_seen_ops empty_table ((first_op, ack_12) ∷ []))
record_all-IsTable_example = record_all-IsTable ((first_op, ack_12) ∷ [])

seen-record_example :
    seen
      (record_all max_seen_ops
        (record_ack empty_table first_op ack_12)
        ((second_op, ack_99) ∷ (first_op, ack_99) ∷ []))
      first_op
    ≡ some ack_12
unfolding get seen
seen-record_example =
    seen-record empty_table first_op ack_12 ((second_op, ack_99) ∷ (first_op, ack_99) ∷ [])
      empty-IsTable refl (omega arith)
