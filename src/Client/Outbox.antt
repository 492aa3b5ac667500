-- ===== src/Client/Outbox.antt =====
-- crates/client-runtime/src/outbox.rs: the log of operations without an acknowledgement, as an
-- interface, and the store in memory.
pub mod Laws
pub mod InMemory
use shape_ai.Common.{
  ℕ, List, [], ◌∷◌, ◌++◌, Bool, true, false, not, Option, none, some, if◌then◌else◌, is_empty, any,
  filter, map, ◌==◌,
}
use shape_ai.Common.Int.{ℤ, pos, ltb_ℤ, leb_ℤ, ◌+ℤ◌, max_ℤ}
use shape_ai.Common.Str.{Str, str_key}
use shape_ai.Common.Result.{Result, ok, err}
use shape_ai.Client.Wire.{OpId, WireOp, op_id_key}

pub record OutboxError : Type 0 where
  pub message : Str

-- A method that changes the store returns it, also when it fails.
pub record OutboxStore (Json S : Type 0) : Type 0 where
  pub append : S → WireOp Json → S × Result OutboxError (Unit {0})
  pub all : S → Result OutboxError (List (WireOp Json))
  pub remove : S → List OpId → S × Result OutboxError (Unit {0})
  pub clear : S → S × Result OutboxError (Unit {0})
  pub next_local_seq : S → S × Result OutboxError ℤ
  pub reseed : S → List (WireOp Json) → S × Result OutboxError (Unit {0})

module _ {Json S : Type 0} where
  -- The loop of the default `reseed`; the first error ends it.
  unfoldable pub append_all :
      (S → WireOp Json → S × Result OutboxError (Unit {0}))
      → S × Result OutboxError (Unit {0})
      → List (WireOp Json)
      → S × Result OutboxError (Unit {0})
  append_all append (s, err e) entries = (s, err e)
  append_all append (s, ok u) [] = (s, ok u)
  append_all append (s, ok u) (entry ∷ entries) = append_all append (append s entry) entries

  -- `OutboxStore::reseed` as the trait has it.
  abbrev pub default_reseed :
      (S → WireOp Json → S × Result OutboxError (Unit {0}))
      → (S → S × Result OutboxError (Unit {0}))
      → S
      → List (WireOp Json)
      → S × Result OutboxError (Unit {0})
  default_reseed append clear s entries = append_all append (clear s) entries

pub record InMemoryOutboxStore (Json : Type 0) : Type 0 where
  pub entries : List (WireOp Json)
  pub seq : ℤ

abbrev pub or_zero : Option ℤ → ℤ
or_zero none = pos 0
or_zero (some m) = m

module _ {Json : Type 0} where
  -- `InMemoryOutboxStore::new`.
  abbrev pub empty_outbox : InMemoryOutboxStore Json
  empty_outbox = record { entries = []; seq = pos 0 }

  unfoldable pub append :
      InMemoryOutboxStore Json
      → WireOp Json
      → InMemoryOutboxStore Json × Result OutboxError (Unit {0})
  append s entry = (record s { entries = s.entries ++ entry ∷ [] }, ok tt)

  -- `sort_by_key` is stable.
  unfoldable pub insert_by_seq : WireOp Json → List (WireOp Json) → List (WireOp Json)
  insert_by_seq e [] = e ∷ []
  insert_by_seq e (x ∷ l) =
      let rest = insert_by_seq e l in
      if ltb_ℤ e.op_id.local_seq x.op_id.local_seq then e ∷ x ∷ l else x ∷ rest

  unfoldable pub sort_by_seq : List (WireOp Json) → List (WireOp Json) → List (WireOp Json)
  sort_by_seq sorted [] = sorted
  sort_by_seq sorted (e ∷ l) = sort_by_seq (insert_by_seq e sorted) l

  unfoldable pub all_entries : InMemoryOutboxStore Json → Result OutboxError (List (WireOp Json))
  all_entries s = ok (sort_by_seq [] s.entries)

  abbrev pub is_dropped : List OpId → WireOp Json → Bool
  is_dropped op_ids e = any (λ id. op_id_key id == op_id_key e.op_id) op_ids

  unfoldable pub remove :
      InMemoryOutboxStore Json
      → List OpId
      → InMemoryOutboxStore Json × Result OutboxError (Unit {0})
  remove s op_ids =
      if is_empty op_ids
      then (s, ok tt)
      else (record s { entries = filter (λ e. not (is_dropped op_ids e)) s.entries }, ok tt)

  unfoldable pub clear :
      InMemoryOutboxStore Json → InMemoryOutboxStore Json × Result OutboxError (Unit {0})
  clear s = (record s { entries = [] }, ok tt)

  unfoldable pub next_local_seq :
      InMemoryOutboxStore Json → InMemoryOutboxStore Json × Result OutboxError ℤ
  next_local_seq s = let seq = s.seq +ℤ pos 1 in (record s { seq = seq }, ok seq)

  -- `max().unwrap_or(0)`.
  unfoldable pub max_seq : List (WireOp Json) → Option ℤ
  max_seq [] = none
  max_seq (e ∷ l) = elim (max_seq l) [
    | none ↦ some e.op_id.local_seq
    | some m ↦ some (max_ℤ e.op_id.local_seq m)
  ]

  unfoldable pub reseed :
      InMemoryOutboxStore Json
      → List (WireOp Json)
      → InMemoryOutboxStore Json × Result OutboxError (Unit {0})
  reseed s entries = (record { entries = entries; seq = or_zero (max_seq entries) }, ok tt)

  abbrev pub in_memory : OutboxStore Json (InMemoryOutboxStore Json)
  in_memory = record {
    append = append;
    all = all_entries;
    remove = remove;
    clear = clear;
    next_local_seq = next_local_seq;
    reseed = reseed;
  }
