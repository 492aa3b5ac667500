-- ===== src/Client/Engine/Books.antt =====
-- Ownership in crates/client-runtime/src/sync_engine.rs, taken and released.
use mathlib.Core.Path.{subst}
use shape_ai.Common.{
  ◌≡◌, refl, sym, ◌∙◌, ap, List, [], none, some, arith, ◌==◌, eq_iff, Bool-cases, Option-cases, inl,
  inr,
}
use shape_ai.Common.Int.{ℤ, ◌≤ℤ◌, ◌<ℤ◌}
use shape_ai.Common.Str.{Str, str_key}
use shape_ai.Common.Map.{
  Map, get, insert, remove, IsMap, insert-IsMap, remove-IsMap, get-insert, get-remove,
}
use shape_ai.Client.Wire.{OpId, op_id_key}
use shape_ai.Client.Wire.Keys.{op_id_key-injective}
use shape_ai.Client.Engine.{Engine, count_up, count_down, release_ownership}
use shape_ai.Client.Engine.Ownership.{
  owners, Counts, count_up-Counts, count_down-Counts, owners-insert, owners-remove,
}

-- The counts are those of the operations that own, and each of these has a number up to `last`.
pub record Books (owned : Map Str ℤ) (rows : Map Str (List Str)) (last : ℤ) : Type 0 where
  pub counts : Counts owned (owners rows)
  pub is_map : IsMap rows
  pub known :
      (key : Str) (keys : List Str)
      → get key rows ≡ some keys
      → (id : OpId) × (key ≡ op_id_key id) × (id.local_seq ≤ℤ last)

pub Books-empty : (last : ℤ) → Books [] [] last
unfolding get
Books-empty last = record { counts = λ k. refl; is_map = tt; known = λ key keys h. cc h }

pub Books-later :
    (owned : Map Str ℤ) (rows : Map Str (List Str)) (last last' : ℤ)
    → last ≤ℤ last'
    → Books owned rows last
    → Books owned rows last'
Books-later owned rows last last' le b = record {
  counts = b.counts;
  is_map = b.is_map;
  known = λ key keys h.
      let (id, same, bound) = b.known key keys h in (id, same, omega (arith, le, bound));
}

-- A number that was not given out before makes a new key.
pub Books-fresh :
    (owned : Map Str ℤ) (rows : Map Str (List Str)) (last : ℤ) (id : OpId)
    → Books owned rows last
    → last <ℤ id.local_seq
    → get (op_id_key id) rows ≡ none
Books-fresh owned rows last id b lt = elim (Option-cases (get (op_id_key id) rows)) [
  | inl free ↦ free
  | inr (keys, taken) ↦
      let (old, same, bound) = b.known (op_id_key id) keys taken in
      let seq_eq : id.local_seq ≡ old.local_seq =
        ap (λ (x : OpId). x.local_seq) (op_id_key-injective id old same) in
      absurd (omega (arith, subst (λ z. last <ℤ z) seq_eq lt, bound))
]

pub Books-take :
    (owned : Map Str ℤ) (rows : Map Str (List Str)) (last : ℤ) (id : OpId) (keys : List Str)
    → Books owned rows last
    → get (op_id_key id) rows ≡ none
    → id.local_seq ≤ℤ last
    → Books (count_up owned keys) (insert (op_id_key id) keys rows) last
Books-take owned rows last id keys b free bound = record {
  counts =
      count_up-Counts keys owned (owners rows) (owners (insert (op_id_key id) keys rows)) b.counts
        (λ k. owners-insert (op_id_key id) k keys rows free);
  is_map = insert-IsMap (op_id_key id) keys rows b.is_map;
  known = λ key ks h. elim (Bool-cases (op_id_key id == key)) [
    | inl here ↦ (id, sym ((eq_iff (op_id_key id) key).0 here), bound)
    | inr away ↦ b.known key ks (rw away at (sym (get-insert (op_id_key id) key keys rows) ∙ h))
  ];
}

pub Books-release :
    (owned : Map Str ℤ) (rows : Map Str (List Str)) (last : ℤ) (id : Str) (settled keys : List Str)
    → Books owned rows last
    → get id rows ≡ some keys
    → Books (count_down owned settled keys).0 (remove id rows) last
Books-release owned rows last id settled keys b held = record {
  counts =
      count_down-Counts keys owned settled (owners rows) (owners (remove id rows)) b.counts
        (λ k. owners-remove id k keys rows b.is_map held);
  is_map = remove-IsMap id rows b.is_map;
  known = λ key ks h. elim (Bool-cases (id == key)) [
    | inl here ↦ cc (rw here at (sym (get-remove id key rows) ∙ h))
    | inr away ↦ b.known key ks (rw away at (sym (get-remove id key rows) ∙ h))
  ];
}

module _ {Json S : Type 0} where
  abbrev pub HasBooks : Engine Json S → ℤ → Type 0
  HasBooks e last = Books e.ownership e.op_owned_keys last

  pub release-HasBooks :
      (e : Engine Json S) (id : OpId) (last : ℤ)
      → HasBooks e last
      → HasBooks (release_ownership e id) last × ((release_ownership e id).outbox ≡ e.outbox)
  unfolding release_ownership
  release-HasBooks e id last b = elim (Option-cases (get (op_id_key id) e.op_owned_keys)) [
    | inl unknown ↦ rw unknown (b, refl)
    | inr (keys, held) ↦ rw held (
      Books-release e.ownership e.op_owned_keys last (op_id_key id) e.settled_keys keys b held,
      refl,
    )
  ]
