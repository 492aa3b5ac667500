-- ===== src/Client/Outbox/InMemory/Sorting.antt =====
-- The sort by local sequence numbers of crates/client-runtime/src/outbox.rs, and removal.
use mathlib.Core.Path.{subst}
use shape_ai.Common.{
  ◌≡◌, refl, sym, ◌∙◌, ap, List, [], ◌∷◌, ◌++◌, Bool, true, false, any, filter, ◌==◌, eq_iff, All,
  ◌⊎◌, inl, inr, arith, Bool-cases,
}
use shape_ai.Common.Int.{ℤ, ◌≤ℤ◌, ◌<ℤ◌, ltb_ℤ}
use shape_ai.Common.Str.{Str, str_key}
use shape_ai.Client.Wire.{OpId, WireOp, op_id_key}
use shape_ai.Client.Wire.Keys.{op_id_key-injective}
use shape_ai.Client.Outbox.{insert_by_seq, sort_by_seq}
use shape_ai.Client.Outbox.Laws.{Distinct, AtMost, Among}

module _ {Json : Type 0} where
  abbrev key_of : WireOp Json → Str
  key_of e = op_id_key e.op_id

  -- No entry has the key.
  abbrev Lacks : Str → List (WireOp Json) → Type 0
  Lacks key l = any (λ x. key_of x == key) l ≡ false

  pub AtMost-later : (n m : ℤ) (l : List (WireOp Json)) → n ≤ℤ m → AtMost n l → AtMost m l
  AtMost-later n m [] le h = tt
  AtMost-later n m (e ∷ l) le h = (omega (arith, h.0), AtMost-later n m l le h.1)

  -- A higher number makes a new key.
  pub Lacks-later :
      (n : ℤ) (e : WireOp Json) (l : List (WireOp Json))
      → n <ℤ e.op_id.local_seq
      → AtMost n l
      → Lacks (key_of e) l
  Lacks-later n e [] lt h = refl
  Lacks-later n e (x ∷ l) lt h = elim (Bool-cases (key_of x == key_of e)) [
    | inl same ↦
        let seq_eq : e.op_id.local_seq ≡ x.op_id.local_seq =
          ap (λ (i : OpId). i.local_seq)
            (sym (op_id_key-injective x.op_id e.op_id ((eq_iff (key_of x) (key_of e)).0 same))) in
        absurd (omega (arith, subst (λ z. n <ℤ z) seq_eq lt, h.0))
    | inr other ↦ rw other (Lacks-later n e l lt h.1)
  ]

  pub Distinct-append :
      (l : List (WireOp Json)) (e : WireOp Json)
      → Distinct l
      → Lacks (key_of e) l
      → Distinct (l ++ e ∷ [])
  Distinct-append [] e d h = (refl, tt)
  Distinct-append (x ∷ l) e d h = (lacks_append l d.0, Distinct-append l e d.1 (ground arith))
    where
      lacks_append : (l : List (WireOp Json)) → Lacks (key_of x) l → Lacks (key_of x) (l ++ e ∷ [])
      lacks_append [] k =
          ground (arith, eq_iff (key_of x) (key_of e), eq_iff (key_of e) (key_of x), h)
      lacks_append (y ∷ l) k = ground (arith, lacks_append l)

  pub AtMost-append :
      (n : ℤ) (l : List (WireOp Json)) (e : WireOp Json)
      → AtMost n l
      → e.op_id.local_seq ≤ℤ n
      → AtMost n (l ++ e ∷ [])
  AtMost-append n [] e h k = (k, tt)
  AtMost-append n (x ∷ l) e h k = (h.0, AtMost-append n l e h.1 k)

  module _ (p : WireOp Json → Bool) where
    Lacks-filter : (key : Str) (l : List (WireOp Json)) → Lacks key l → Lacks key (filter p l)
    Lacks-filter key [] h = refl
    Lacks-filter key (x ∷ l) h = ground (arith, Lacks-filter key l)

    pub Distinct-filter : (l : List (WireOp Json)) → Distinct l → Distinct (filter p l)
    Distinct-filter [] d = tt
    Distinct-filter (x ∷ l) d = elim (Bool-cases (p x)) [
      | inl yes_p ↦ rw yes_p (Lacks-filter (key_of x) l d.0, Distinct-filter l d.1)
      | inr no_p ↦ rw no_p (Distinct-filter l d.1)
    ]

    pub AtMost-filter : (n : ℤ) (l : List (WireOp Json)) → AtMost n l → AtMost n (filter p l)
    AtMost-filter n [] h = tt
    AtMost-filter n (x ∷ l) h = elim (Bool-cases (p x)) [
      | inl yes_p ↦ rw yes_p (h.0, AtMost-filter n l h.1)
      | inr no_p ↦ rw no_p (AtMost-filter n l h.1)
    ]

    pub Among-filter :
        (x : WireOp Json) (l : List (WireOp Json)) → p x ≡ true → Among x l → Among x (filter p l)
    Among-filter x [] k h = h
    Among-filter x (e ∷ l) k (inl here) = rw (ap p here ∙ k) (inl here)
    Among-filter x (e ∷ l) k (inr there) = elim (Bool-cases (p e)) [
      | inl yes_p ↦ rw yes_p (inr (Among-filter x l k there))
      | inr no_p ↦ rw no_p (Among-filter x l k there)
    ]

  pub Among-append : (x : WireOp Json) (l m : List (WireOp Json)) → Among x l → Among x (l ++ m)
  Among-append x [] m h = absurd h
  Among-append x (e ∷ l) m (inl here) = inl here
  Among-append x (e ∷ l) m (inr there) = inr (Among-append x l m there)

  pub Among-last : (x : WireOp Json) (l : List (WireOp Json)) → Among x (l ++ x ∷ [])
  Among-last x [] = inl refl
  Among-last x (e ∷ l) = inr (Among-last x l)

  before : WireOp Json → WireOp Json → Bool
  before e x = ltb_ℤ e.op_id.local_seq x.op_id.local_seq

  Lacks-insert :
      (key : Str) (e : WireOp Json) (l : List (WireOp Json))
      → Lacks key (e ∷ l)
      → Lacks key (insert_by_seq e l)
  unfolding insert_by_seq
  Lacks-insert key e [] h = h
  Lacks-insert key e (x ∷ l) h = ground (arith, Lacks-insert key e l)

  Distinct-insert :
      (e : WireOp Json) (l : List (WireOp Json)) → Distinct (e ∷ l) → Distinct (insert_by_seq e l)
  unfolding insert_by_seq
  Distinct-insert e [] d = d
  Distinct-insert e (x ∷ l) d = elim (Bool-cases (ltb_ℤ e.op_id.local_seq x.op_id.local_seq)) [
    | inl first ↦ rw first d
    | inr later ↦
        let apart : Lacks (key_of x) (e ∷ l) =
          ground (arith, eq_iff (key_of x) (key_of e), eq_iff (key_of e) (key_of x), d.0, d.1.0) in
        let own : Lacks (key_of e) l = ground (arith, d.0) in
        rw later (Lacks-insert (key_of x) e l apart, Distinct-insert e l (own, d.1.1))
  ]

  AtMost-insert :
      (n : ℤ) (e : WireOp Json) (l : List (WireOp Json))
      → AtMost n (e ∷ l)
      → AtMost n (insert_by_seq e l)
  unfolding insert_by_seq
  AtMost-insert n e [] h = h
  AtMost-insert n e (x ∷ l) h = elim (Bool-cases (ltb_ℤ e.op_id.local_seq x.op_id.local_seq)) [
    | inl first ↦ rw first h
    | inr later ↦ rw later (h.1.0, AtMost-insert n e l (h.0, h.1.1))
  ]

  Among-swap :
      (y e x : WireOp Json) (l m : List (WireOp Json))
      → (Among y (e ∷ l) → Among y m)
      → Among y (e ∷ x ∷ l)
      → Among y (x ∷ m)
  Among-swap y e x l m into (inl here) = inr (into (inl here))
  Among-swap y e x l m into (inr (inl here)) = inl here
  Among-swap y e x l m into (inr (inr there)) = inr (into (inr there))

  Among-insert :
      (y e : WireOp Json) (l : List (WireOp Json)) → Among y (e ∷ l) → Among y (insert_by_seq e l)
  unfolding insert_by_seq
  Among-insert y e [] h = h
  Among-insert y e (x ∷ l) h = elim (Bool-cases (ltb_ℤ e.op_id.local_seq x.op_id.local_seq)) [
    | inl first ↦ rw first h
    | inr later ↦ rw later (Among-swap y e x l (insert_by_seq e l) (λ k. Among-insert y e l k) h)
  ]

  -- No entry of the second list has a key of the first.
  abbrev Apart : List (WireOp Json) → List (WireOp Json) → Type 0
  Apart sorted l = All (λ x. Lacks (key_of x) sorted) l

  Apart-insert :
      (e : WireOp Json) (sorted l : List (WireOp Json))
      → Lacks (key_of e) l
      → Apart sorted l
      → Apart (insert_by_seq e sorted) l
  Apart-insert e sorted [] h k = tt
  Apart-insert e sorted (x ∷ l) h k =
      let apart : Lacks (key_of x) (e ∷ sorted) =
        ground (arith, eq_iff (key_of x) (key_of e), eq_iff (key_of e) (key_of x), h, k.0) in
      (Lacks-insert (key_of x) e sorted apart, Apart-insert e sorted l (ground arith) k.1)

  pub sort_sound :
      (n : ℤ) (sorted l : List (WireOp Json))
      → Distinct sorted
      → AtMost n sorted
      → Distinct l
      → AtMost n l
      → Apart sorted l
      → Distinct (sort_by_seq sorted l) × AtMost n (sort_by_seq sorted l)
  unfolding sort_by_seq
  sort_sound n sorted [] d m d' m' a = (d, m)
  sort_sound n sorted (e ∷ l) d m d' m' a =
      sort_sound n (insert_by_seq e sorted) l (Distinct-insert e sorted (a.0, d))
        (AtMost-insert n e sorted (m'.0, m)) d'.1 m'.1 (Apart-insert e sorted l d'.0 a.1)

  pub Among-sort :
      (y : WireOp Json) (sorted l : List (WireOp Json))
      → (Among y sorted) ⊎ (Among y l)
      → Among y (sort_by_seq sorted l)
  unfolding sort_by_seq
  Among-sort y sorted [] (inl h) = h
  Among-sort y sorted [] (inr h) = absurd h
  Among-sort y sorted (e ∷ l) (inl h) =
      Among-sort y (insert_by_seq e sorted) l (inl (Among-insert y e sorted (inr h)))
  Among-sort y sorted (e ∷ l) (inr (inl h)) =
      Among-sort y (insert_by_seq e sorted) l (inl (Among-insert y e sorted (inl h)))
  Among-sort y sorted (e ∷ l) (inr (inr h)) = Among-sort y (insert_by_seq e sorted) l (inr h)

  pub Apart-nothing : (l : List (WireOp Json)) → Apart [] l
  Apart-nothing [] = tt
  Apart-nothing (x ∷ l) = (refl, Apart-nothing l)
