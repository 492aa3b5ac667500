-- ===== src/Server/Actor/Spawn.antt =====
-- An actor of crates/server/src/canvas_actor.rs that starts over a store whose journal has no tail.
use shape_ai.Common.{
  ℕ, ◌≡◌, refl, ◌∙◌, ap, List, [], ◌∷◌, Option, none, some, arith, inl, inr, length, All, drop, ◌-◌,
  true, if◌then◌else◌, Bool-cases,
}
use shape_ai.Common.Int.{ℤ, pos, ◌≤ℤ◌, leb_ℤ, ltb_ℤ, eq_of_parts}
use shape_ai.Common.Str.{str_key}
use shape_ai.Common.Map.{get, insert, get-insert_self}
use shape_ai.Common.Result.{ok}
use shape_ai.Lww.{empty_store, get_entry}
use shape_ai.Kernel.Model.{ObjectScene}
use shape_ai.Kernel.Apply.{Affine}
use shape_ai.Storage.Adapter.{StorageAdapter}
use shape_ai.Server.Dedup.{DedupTable, op_key, empty_table, max_seen_ops, seen}
use shape_ai.Server.Dedup.Laws.{IsTable, record_all-IsTable, record_all}
use shape_ai.Server.Store.{ObjectStore, Codec, CanvasId, load_scene, loaded, new_store}
use shape_ai.Server.Actor.{CanvasActor, JournalEntry, JournalCodec, recorded}
use shape_ai.Server.Actor.Recover.{
  largest_seq, or_larger, seq_or_zero, record_entries, rebuild_dedup_from_suffix, replay_tail,
  load_journal, spawn, recover, recovered,
}
use shape_ai.Server.Actor.Level.{IsEven, AtMost}
use shape_ai.Server.Actor.Step.{InStep, recorded-IsTable, recorded-IsEven}

abbrev pub UpTo : ℕ → List JournalEntry → Type 0
UpTo n entries = All (λ (e : JournalEntry). e.seq ≤ℤ pos n) entries

larger_below :
    (n : ℕ) (seq : ℤ) (m : Option ℤ)
    → seq ≤ℤ pos n
    → seq_or_zero m ≤ℤ pos n
    → seq_or_zero (or_larger seq m) ≤ℤ pos n
larger_below n seq none h k = h
larger_below n seq (some m) h k = ground arith

seq_below :
    (n : ℕ) (entries : List JournalEntry)
    → UpTo n entries
    → seq_or_zero (largest_seq entries) ≤ℤ pos n
seq_below n [] h = omega arith
seq_below n (e ∷ entries) h =
    larger_below n e.seq (largest_seq entries) h.0 (seq_below n entries h.1)

rebuilt :
    (table : DedupTable) (entries : List JournalEntry)
    → IsEven table
    → IsTable max_seen_ops table
    → IsEven (record_entries table entries) × IsTable max_seen_ops (record_entries table entries)
unfolding record_entries
rebuilt table [] even t = (even, t)
rebuilt table (e ∷ entries) even t =
    rebuilt (recorded table e.op_id (record { seq = e.seq; revision = e.seq })) entries
      (recorded-IsEven table e.op_id e.seq even)
      (recorded-IsTable table e.op_id (record { seq = e.seq; revision = e.seq }) t)

settled : (n : ℕ) (q v : ℤ) → v ≡ pos n → q ≤ℤ pos n → (if ltb_ℤ q v then v else q) ≡ pos n
settled n q v e h = rw e (elim (Bool-cases (ltb_ℤ q (pos n))) [
  | inl less ↦ rw less refl
  | inr same ↦ rw same (eq_of_parts q (pos n) (ground arith))
])

pub IsEven-empty : IsEven empty_table
unfolding seen get
IsEven-empty id ack h = cc h

pub IsTable-empty : IsTable max_seen_ops empty_table
unfolding record_all
IsTable-empty = record_all-IsTable []

pub below_empty : (n : ℕ) → AtMost n empty_store
unfolding get_entry get
below_empty n o p e h = cc h

module _ (affine : Affine) {A : Type 0} (codec : Codec) (adapter : StorageAdapter (codec.Payload) A)
    (journal : JournalCodec (codec.Payload)) where
  cold :
      (canvas_id : CanvasId) (a : A) (scene : ObjectScene)
      → load_scene codec adapter a canvas_id ≡ ok scene
      → loaded codec adapter (new_store codec adapter a) canvas_id
        ≡ ok (
          record { adapter = a; working = insert canvas_id (scene, empty_store) [] },
          (scene, empty_store),
        )
  unfolding loaded get
  cold canvas_id a scene read = rw read refl

  no_tail :
      (canvas_id : CanvasId) (n : ℕ) (s : ObjectStore A) (entries : List JournalEntry)
      → UpTo n entries
      → replay_tail affine codec adapter journal canvas_id (pos n) s entries ≡ s
  unfolding replay_tail
  no_tail canvas_id n s [] h = refl
  no_tail canvas_id n s (e ∷ entries) h =
      let passed : leb_ℤ e.seq (pos n) ≡ true = let h0 = h.0 in ground arith in
      rw passed (no_tail canvas_id n s entries h.1)

  -- A start over a store whose journal has no entry past the stored version finds the scene as stored and
  -- is in step at that version, whatever the journal holds.
  pub spawn-InStep :
      (canvas_id : CanvasId) (a : A) (n : ℕ) (scene : ObjectScene) (entries : List JournalEntry)
      → load_scene codec adapter a canvas_id ≡ ok scene
      → scene.scene_version ≡ pos n
      → load_journal affine codec adapter journal a canvas_id ≡ some entries
      → UpTo n entries
      → (actor : CanvasActor A) × (spawn affine codec adapter journal canvas_id a ≡ some actor)
        × (now : InStep n actor) × (now.scene ≡ scene)
  unfolding spawn rebuild_dedup_from_suffix
  spawn-InStep canvas_id a n scene entries read version written past =
      let s : ObjectStore A = record {
        adapter = a;
        working = insert canvas_id (scene, empty_store) [];
      } in
      let dedup = rebuild_dedup_from_suffix entries in
      let (even, table) =
        rebuilt empty_table (drop (length entries - max_seen_ops) entries) IsEven-empty
          IsTable-empty in
      let q = seq_or_zero (largest_seq entries) in
      let made : (store : ObjectStore A) (seq : ℤ) → CanvasActor A =
        λ store seq. record { canvas_id = canvas_id; store = store; seq = seq; dedup = dedup } in
      (
        made s (pos n),
        ap (recover affine codec adapter journal canvas_id) (cold canvas_id a scene read)
            ∙ ap (recovered affine codec adapter journal canvas_id s scene) written
            ∙ ap
                (λ t.
                  some (made t (if ltb_ℤ q scene.scene_version then scene.scene_version else q)))
                (ap (λ v. replay_tail affine codec adapter journal canvas_id v s entries) version
                  ∙ no_tail canvas_id n s entries past)
            ∙ ap (λ z. some (made s z))
                (settled n q scene.scene_version version (seq_below n entries past)),
        record {
          scene = scene;
          gate = empty_store;
          there = get-insert_self canvas_id (scene, empty_store) [];
          seq_is = refl;
          version_is = version;
          below = below_empty n;
          even = even;
          table = table;
        },
        refl,
      )
