-- ===== src/Client/Engine/Ownership.antt =====
-- The ownership counts of crates/client-runtime/src/sync_engine.rs against the operations that own.
use mathlib.Core.Path.{subst}
use shape_ai.Common.{
  ℕ, zero, suc, ◌+◌, ◌≡◌, refl, sym, ◌∙◌, ap, List, [], ◌∷◌, ◌++◌, Option, none, some, arith,
  if◌then◌else◌, ◌==◌, eq_iff, eq_refl, Bool-cases, inl, inr,
}
use shape_ai.Common.Int.{ℤ, pos, leb_ℤ, ◌+ℤ◌, ◌-ℤ◌}
use shape_ai.Common.Str.{Str, str_key}
use shape_ai.Common.Map.{Map, get, insert, remove, IsMap, get-insert, get-remove}
use shape_ai.Client.Engine.{or_zero, count_up, count_down}

-- How often a key is listed.
abbrev pub count : Str → List Str → ℕ
count k [] = 0
count k (j ∷ l) = (if j == k then 1 else 0) + count k l

-- How often the operations that wait own a key.
abbrev pub owners : Map Str (List Str) → Str → ℕ
owners [] k = 0
owners ((id, keys) ∷ m) k = count k keys + owners m k

abbrev pub shown : ℕ → Option ℤ
shown zero = none
shown (suc n) = some (pos (suc n))

abbrev pub Counts : Map Str ℤ → (Str → ℕ) → Type 0
Counts owned tally = (k : Str) → get k owned ≡ shown (tally k)

one_more : (n : ℕ) → some (or_zero (shown n) +ℤ pos 1) ≡ shown (n + 1)
unfolding ◌+ℤ◌
one_more zero = refl
one_more (suc n) = ground arith

insert-Counts :
    (owned : Map Str ℤ) (tally tally' : Str → ℕ) (k : Str)
    → Counts owned tally
    → ((j : Str) → tally' j ≡ tally j + (if k == j then 1 else 0))
    → Counts (insert k (or_zero (get k owned) +ℤ pos 1) owned) tally'
insert-Counts owned tally tally' k h e j = elim (Bool-cases (k == j)) [
  | inl here ↦
      let same : tally k ≡ tally j = ap tally ((eq_iff k j).0 here) in
      let more : tally k + 1 ≡ tally' j = ground (arith, e j) in
      get-insert k j (or_zero (get k owned) +ℤ pos 1) owned
      ∙ rw here (ap (λ r. some (or_zero r +ℤ pos 1)) (h k) ∙ one_more (tally k) ∙ ap shown more)
  | inr away ↦
      let same : tally j ≡ tally' j = ground (arith, e j) in
      get-insert k j (or_zero (get k owned) +ℤ pos 1) owned ∙ rw away (h j ∙ ap shown same)
]

pub count_up-Counts :
    (keys : List Str) (owned : Map Str ℤ) (tally tally' : Str → ℕ)
    → Counts owned tally
    → ((j : Str) → tally' j ≡ tally j + count j keys)
    → Counts (count_up owned keys) tally'
unfolding count_up
count_up-Counts [] owned tally tally' h e k = h k ∙ ap shown (omega (arith, e k))
count_up-Counts (k ∷ keys) owned tally tally' h e i =
    count_up-Counts keys (insert k (or_zero (get k owned) +ℤ pos 1) owned)
      (λ j. tally j + (if k == j then 1 else 0)) tally'
      (insert-Counts owned tally (λ j. tally j + (if k == j then 1 else 0)) k h (λ j. refl))
      (λ j. ground (arith, e j)) i

one_less : (n : ℕ) → or_zero (shown (suc n)) -ℤ pos 1 ≡ pos n
unfolding ◌-ℤ◌
one_less n = ground arith

-- What becomes of a key that has `left` owners.
abbrev settle : Str → ℤ → Map Str ℤ → Map Str ℤ
settle k left owned = if leb_ℤ left (pos 0) then remove k owned else insert k left owned

get-settle :
    (k j : Str) (n : ℕ) (owned : Map Str ℤ)
    → get j (settle k (pos n) owned) ≡ (if k == j then shown n else get j owned)
get-settle k j zero owned = get-remove k j owned
get-settle k j (suc n) owned = ground (arith, get-insert k j (pos (suc n)) owned)

released : Map Str ℤ → Str → Map Str ℤ
released owned k = settle k (or_zero (get k owned) -ℤ pos 1) owned

get-released :
    (owned : Map Str ℤ) (k j : Str) (n : ℕ)
    → get k owned ≡ shown (suc n)
    → get j (released owned k) ≡ (if k == j then shown n else get j owned)
unfolding released
get-released owned k j n h =
    ap (λ left. get j (settle k left owned)) (ap (λ r. or_zero r -ℤ pos 1) h ∙ one_less n)
    ∙ get-settle k j n owned

released-Counts :
    (owned : Map Str ℤ) (tally tally' : Str → ℕ) (k : Str)
    → Counts owned tally
    → ((j : Str) → tally j ≡ tally' j + (if k == j then 1 else 0))
    → Counts (released owned k) tally'
released-Counts owned tally tally' k h e j =
    let has : tally k ≡ suc (tally' k) = ground (arith, e k, eq_refl k) in
    elim (Bool-cases (k == j)) [
      | inl here ↦
          let same : tally' k ≡ tally' j = ap tally' ((eq_iff k j).0 here) in
          get-released owned k j (tally' k) (h k ∙ ap shown has) ∙ rw here (ap shown same)
      | inr away ↦
          let same : tally j ≡ tally' j = ground (arith, e j) in
          get-released owned k j (tally' k) (h k ∙ ap shown has) ∙ rw away (h j ∙ ap shown same)
    ]

count_down_step :
    (owned : Map Str ℤ) (settled keys : List Str) (k : Str)
    → (settled' : List Str) × (count_down owned settled (k ∷ keys)
        ≡ count_down (released owned k) settled' keys)
unfolding count_down released
count_down_step owned settled keys k =
    elim (Bool-cases (leb_ℤ (or_zero (get k owned) -ℤ pos 1) (pos 0))) [
      | inl last ↦ (settled ++ k ∷ [], rw last refl)
      | inr more ↦ (settled, rw more refl)
    ]

pub count_down-Counts :
    (keys : List Str) (owned : Map Str ℤ) (settled : List Str) (tally tally' : Str → ℕ)
    → Counts owned tally
    → ((j : Str) → tally j ≡ tally' j + count j keys)
    → Counts (count_down owned settled keys).0 tally'
count_down-Counts [] owned settled tally tally' h e k =
    unfold count_down in (h k ∙ ap shown (omega (arith, e k)))
count_down-Counts (k ∷ keys) owned settled tally tally' h e i =
    let (settled', same) = count_down_step owned settled keys k in
    subst (λ (r : Map Str ℤ × List Str). Counts r.0 tally') (sym same)
      (count_down-Counts keys (released owned k) settled' (λ j. tally' j + count j keys) tally'
        (released-Counts owned tally (λ j. tally' j + count j keys) k h (λ j. ground (arith, e j)))
        (λ j. refl))
      i

pub owners-insert :
    (id k : Str) (keys : List Str) (m : Map Str (List Str))
    → get id m ≡ none
    → owners (insert id keys m) k ≡ owners m k + count k keys
unfolding get insert
owners-insert id k keys [] h = omega arith
owners-insert id k keys ((j, ks) ∷ m) h = ground (arith, owners-insert id k keys m)

owners-remove_none :
    (id k : Str) (m : Map Str (List Str)) → get id m ≡ none → owners (remove id m) k ≡ owners m k
unfolding get remove
owners-remove_none id k [] h = refl
owners-remove_none id k ((j, ks) ∷ m) h = ground (arith, owners-remove_none id k m)

pub owners-remove :
    (id k : Str) (keys : List Str) (m : Map Str (List Str))
    → IsMap m
    → get id m ≡ some keys
    → owners m k ≡ owners (remove id m) k + count k keys
unfolding get remove
owners-remove id k keys [] u h = cc h
owners-remove id k keys ((j, ks) ∷ m) u h = elim (Bool-cases (j == id)) [
  | inl here ↦
      let same : j ≡ id = (eq_iff j id).0 here in
      let gone = owners-remove_none id k m (rw same at u.0) in
      let keys_are : ks ≡ keys = cc (rw here at h) in
      rw (here, gone) (omega (arith, ap (count k) keys_are))
  | inr away ↦ rw away (omega (arith, owners-remove id k keys m u.1 (rw away at h)))
]
