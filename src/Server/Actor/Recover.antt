-- ===== src/Server/Actor/Recover.antt =====
-- The start of an actor of crates/server/src/canvas_actor.rs: the journal, the replay of its tail and
-- the table of seen operations that it leaves.
use shape_ai.Common.{
  ℕ, suc, zero, ◌-◌, List, [], ◌∷◌, ◌++◌, Option, none, some, nat_key, length, drop, is_empty, all,
  ◌==◌, if◌then◌else◌, leb,
}
use shape_ai.Common.Int.{ℤ, pos, negsuc, leb_ℤ, ltb_ℤ, max_ℤ}
use shape_ai.Common.Str.{Str, bytes, str_key}
use shape_ai.Common.Decimal.{is_decimal, value_onto}
use shape_ai.Common.Result.{Result, ok, err}
use shape_ai.Kernel.Model.{ObjectScene}
use shape_ai.Kernel.Apply.{Affine, Store}
use shape_ai.Storage.Record.{Record, StorageError}
use shape_ai.Storage.Adapter.{StorageAdapter}
use shape_ai.Server.Store.{
  ObjectStore, ObjectStoreError, Codec, CanvasId, loaded, new_store, apply_op, starts_with,
}
use shape_ai.Server.Dedup.{DedupTable, max_seen_ops, empty_table}
use shape_ai.Server.Actor.{JournalEntry, JournalCodec, CanvasActor, to_u64, recorded}

abbrev journal_prefix : CanvasId → Str
journal_prefix canvas_id = canvas_id ++ bytes ":journal:"

-- `parse::<i64>`: an optional sign, one digit at least, and nothing else.
abbrev numeral : Str → Option ℕ
numeral s = if is_empty s then none else if all is_decimal s then some (value_onto 0 s) else none

abbrev positive : Option ℕ → Option ℤ
positive none = none
positive (some n) = if leb n 9223372036854775807 then some (pos n) else none

abbrev negative : Option ℕ → Option ℤ
negative none = none
negative (some zero) = some (pos 0)
negative (some (suc n)) = if leb n 9223372036854775807 then some (negsuc n) else none

unfoldable pub parse_i64 : Str → Option ℤ
parse_i64 [] = none
parse_i64 (c ∷ s) =
    if c == b'-'
    then negative (numeral s)
    else if c == b'+'
    then positive (numeral s)
    else positive (numeral (c ∷ s))

abbrev pub seq_or_zero : Option ℤ → ℤ
seq_or_zero none = pos 0
seq_or_zero (some seq) = seq

unfoldable pub journal_seq_of : Str → Str → ℤ
journal_seq_of id prefix =
    if starts_with prefix id then seq_or_zero (parse_i64 (drop (length prefix) id)) else pos 0

-- The ids under the prefix, by a stable sort on their sequence numbers.
unfoldable pub insert_by_journal_seq : Str → Str → List Str → List Str
insert_by_journal_seq prefix id [] = id ∷ []
insert_by_journal_seq prefix id (x ∷ l) =
    let rest = insert_by_journal_seq prefix id l in
    if ltb_ℤ (journal_seq_of id prefix) (journal_seq_of x prefix) then id ∷ x ∷ l else x ∷ rest

unfoldable pub journal_ids : Str → List Str → List Str → List Str
journal_ids prefix [] sorted = sorted
journal_ids prefix (id ∷ ids) sorted =
    let skipped = journal_ids prefix ids sorted in
    let taken = journal_ids prefix ids (insert_by_journal_seq prefix id sorted) in
    if starts_with prefix id then taken else skipped

abbrev pub or_larger : ℤ → Option ℤ → Option ℤ
or_larger seq none = some seq
or_larger seq (some m) = some (max_ℤ seq m)

abbrev pub largest_seq : List JournalEntry → Option ℤ
largest_seq [] = none
largest_seq (e ∷ entries) = or_larger e.seq (largest_seq entries)

unfoldable pub record_entries : DedupTable → List JournalEntry → DedupTable
record_entries dedup [] = dedup
record_entries dedup (e ∷ entries) =
    record_entries (recorded dedup e.op_id (record { seq = e.seq; revision = e.seq })) entries

-- The last 4096 entries.
unfoldable pub rebuild_dedup_from_suffix : List JournalEntry → DedupTable
rebuild_dedup_from_suffix entries =
    record_entries empty_table (drop (length entries - max_seen_ops) entries)

module _ (affine : Affine) {A : Type 0} (codec : Codec) (adapter : StorageAdapter (codec.Payload) A)
    (journal : JournalCodec (codec.Payload)) where
  abbrev entry_of : Result StorageError (Record (codec.Payload)) → Option JournalEntry
  entry_of (err e) = none
  entry_of (ok r) = journal.read_entry r.payload

  abbrev in_front : Option JournalEntry → Option (List JournalEntry) → Option (List JournalEntry)
  in_front none entries = none
  in_front (some e) none = none
  in_front (some e) (some entries) = some (e ∷ entries)

  unfoldable pub read_entries : A → List Str → Option (List JournalEntry)
  read_entries a [] = some []
  read_entries a (id ∷ ids) = in_front (entry_of (adapter.load a id)) (read_entries a ids)

  abbrev entries_of : A → CanvasId → Result StorageError (List Str) → Option (List JournalEntry)
  entries_of a canvas_id (err e) = none
  entries_of a canvas_id (ok ids) = read_entries a (journal_ids (journal_prefix canvas_id) ids [])

  unfoldable pub load_journal : A → CanvasId → Option (List JournalEntry)
  load_journal a canvas_id = entries_of a canvas_id (adapter.list a)

  -- The entries past the revision that was loaded; an error of one does not stop the rest.
  unfoldable pub replay_tail : CanvasId → ℤ → ObjectStore A → List JournalEntry → ObjectStore A
  replay_tail canvas_id loaded_revision s [] = s
  replay_tail canvas_id loaded_revision s (e ∷ entries) =
      let skipped = replay_tail canvas_id loaded_revision s entries in
      let applied =
        replay_tail canvas_id loaded_revision
          (apply_op affine codec adapter s canvas_id e.op (to_u64 e.seq)).0 entries in
      if leb_ℤ e.seq loaded_revision then skipped else applied

  abbrev pub recovered :
      CanvasId → ObjectStore A → ObjectScene → Option (List JournalEntry) → Option (CanvasActor A)
  recovered canvas_id s scene none = none
  recovered canvas_id s scene (some entries) =
      let seq = seq_or_zero (largest_seq entries) in
      some (record {
        canvas_id = canvas_id;
        store = replay_tail canvas_id scene.scene_version s entries;
        seq = if ltb_ℤ seq scene.scene_version then scene.scene_version else seq;
        dedup = rebuild_dedup_from_suffix entries;
      })

  -- `recover_durable_state`, which the actor is made of.
  abbrev pub recover :
      CanvasId
      → Result ObjectStoreError (ObjectStore A × (ObjectScene × Store))
      → Option (CanvasActor A)
  recover canvas_id (err e) = none
  recover canvas_id (ok (s, (scene, gate))) =
      recovered canvas_id s scene (load_journal s.adapter canvas_id)

  unfoldable pub spawn : CanvasId → A → Option (CanvasActor A)
  spawn canvas_id a = recover canvas_id (loaded codec adapter (new_store codec adapter a) canvas_id)
