-- ===== src/Storage/Adapter.antt =====
-- crates/storage-core/src/adapter.rs, spatial.rs and adapters/memory.rs: a store as an interface with
-- laws, and the store in memory.
use mathlib.Core.Path.{subst}
use shape_ai.Common.{ap, ◌≡◌, refl, List, [], ◌∷◌, Bool, Option, none, some, if◌then◌else◌, ◌==◌}
use shape_ai.Common.Str.{Str, str_lt, str_key}
use shape_ai.Common.Map.{Map, get, insert, remove, get-insert, get-remove, contains_key}
use shape_ai.Common.Result.{Result, ok, ok_or}
use shape_ai.Storage.Record.{Record, StoreSnapshot, StorageError, not_found, RegionKey}

-- The methods that the canvas server calls. One that changes the store returns it, also when it fails.
pub record StorageAdapter (Payload A : Type 0) : Type 0 where
  pub save : A → Record Payload → A × Result StorageError (Unit {0})
  pub load : A → Str → Result StorageError (Record Payload)
  pub delete : A → Str → A × Result StorageError Bool
  pub list : A → Result StorageError (List Str)
  pub save_indexed : A → Record Payload → Option RegionKey → A × Result StorageError (Unit {0})

-- `held` is what is under an id; a call that succeeds has done its work.
pub record AdapterLaws {Payload A : Type 0} (adapter : StorageAdapter Payload A) : Type 0 where
  pub held : A → Str → Option (Record Payload)
  pub held_saved :
      (a a' : A) (r : Record Payload)
      → adapter.save a r ≡ (a', ok tt)
      → (id : Str) → held a' id ≡ (if r.id == id then some r else held a id)
  pub held_indexed :
      (a a' : A) (r : Record Payload) (key : Option RegionKey)
      → adapter.save_indexed a r key ≡ (a', ok tt)
      → (id : Str) → held a' id ≡ (if r.id == id then some r else held a id)
  pub held_deleted :
      (a a' : A) (gone : Str) (found : Bool)
      → adapter.delete a gone ≡ (a', ok found)
      → (id : Str) → held a' id ≡ (if gone == id then none else held a id)

-- No call that writes fails.
pub record Reliable {Payload A : Type 0} (adapter : StorageAdapter Payload A) : Type 0 where
  pub saves : (a : A) (r : Record Payload) → (a' : A) × (adapter.save a r ≡ (a', ok tt))
  pub indexes :
      (a : A) (r : Record Payload) (key : Option RegionKey)
      → (a' : A) × (adapter.save_indexed a r key ≡ (a', ok tt))
  pub deletes :
      (a : A) (id : Str) → (a' : A) × (found : Bool) × (adapter.delete a id ≡ (a', ok found))

pub record MemoryAdapter (Payload : Type 0) : Type 0 where
  pub snapshot : StoreSnapshot Payload
  pub regions : Map Str RegionKey

-- A `BTreeMap` yields its keys in order.
unfoldable pub insert_id : Str → List Str → List Str
insert_id id [] = id ∷ []
insert_id id (x ∷ l) = let rest = insert_id id l in if str_lt id x then id ∷ x ∷ l else x ∷ rest

abbrev pub indexed : Str → Option RegionKey → Map Str RegionKey → Map Str RegionKey
indexed id none regions = remove id regions
indexed id (some key) regions = insert id key regions

module _ {Payload : Type 0} where
  -- `MemoryAdapter::new`.
  abbrev pub empty_memory : MemoryAdapter Payload
  empty_memory = record { snapshot = []; regions = [] }

  unfoldable pub save :
      MemoryAdapter Payload
      → Record Payload
      → MemoryAdapter Payload × Result StorageError (Unit {0})
  save m r = (record m { snapshot = insert r.id r m.snapshot }, ok tt)

  unfoldable pub load : MemoryAdapter Payload → Str → Result StorageError (Record Payload)
  load m id = ok_or (get id m.snapshot) (not_found id)

  unfoldable pub delete :
      MemoryAdapter Payload → Str → MemoryAdapter Payload × Result StorageError Bool
  delete m id = (
    record { snapshot = remove id m.snapshot; regions = remove id m.regions },
    ok (contains_key id m.snapshot),
  )

  unfoldable pub ids : StoreSnapshot Payload → List Str
  ids [] = []
  ids ((id, r) ∷ m) = insert_id id (ids m)

  unfoldable pub list : MemoryAdapter Payload → Result StorageError (List Str)
  list m = ok (ids m.snapshot)

  unfoldable pub save_indexed :
      MemoryAdapter Payload
      → Record Payload
      → Option RegionKey
      → MemoryAdapter Payload × Result StorageError (Unit {0})
  save_indexed m r key =
      (record { snapshot = insert r.id r m.snapshot; regions = indexed r.id key m.regions }, ok tt)

  abbrev pub memory_adapter : StorageAdapter Payload (MemoryAdapter Payload)
  memory_adapter = record {
    save = save;
    load = load;
    delete = delete;
    list = list;
    save_indexed = save_indexed;
  }

  pub memory-Reliable : Reliable (memory_adapter)
  unfolding save save_indexed delete
  memory-Reliable = record {
    saves = λ m r. (_, refl);
    indexes = λ m r key. (_, refl);
    deletes = λ m id. (_, _, refl);
  }

  unfoldable pub memory_laws : AdapterLaws (memory_adapter)
  unfolding save save_indexed delete
  memory_laws = record {
    held = λ m id. get id m.snapshot;
    held_saved = λ m m' r e id.
        subst
          (λ (t : MemoryAdapter Payload).
            get id t.snapshot ≡ (if r.id == id then some r else get id m.snapshot))
          (ap (λ p. p.0) e) (get-insert r.id id r m.snapshot);
    held_indexed = λ m m' r key e id.
        subst
          (λ (t : MemoryAdapter Payload).
            get id t.snapshot ≡ (if r.id == id then some r else get id m.snapshot))
          (ap (λ p. p.0) e) (get-insert r.id id r m.snapshot);
    held_deleted = λ m m' gone found e id.
        subst
          (λ (t : MemoryAdapter Payload).
            get id t.snapshot ≡ (if gone == id then none else get id m.snapshot))
          (ap (λ p. p.0) e) (get-remove gone id m.snapshot);
  }
