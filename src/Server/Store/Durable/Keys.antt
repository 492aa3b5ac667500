-- ===== src/Server/Store/Durable/Keys.antt =====
-- The ids of the records of crates/server/src/object_store.rs, and what a record holds.
use mathlib.Core.Option.{some-injective}
use shape_ai.Common.{
  ◌≡◌, refl, sym, ◌∙◌, ap, List, [], ◌∷◌, ◌++◌, append_assoc, Bool, true, false, Option, none, some,
  arith, find, if◌then◌else◌, ◌==◌, eq_iff, Bool-cases, inl, inr,
}
use shape_ai.Common.Str.{Str, str_key, bytes}
use shape_ai.Kernel.Model.{ObjectId, Object}
use shape_ai.Kernel.Edit.{has_id}
use shape_ai.Storage.Record.{Record}
use shape_ai.Server.Store.{Codec, CanvasId, object_record_id, canvas_record_id}

abbrev pub payload_of : {P : Type 0} → Option (Record P) → Option P
payload_of none = none
payload_of (some r) = some r.payload

abbrev pub encoded : (codec : Codec) → Option Object → Option (codec.Payload)
encoded codec none = none
encoded codec (some o) = some (codec.write_object o)

same_prefix : (p x y : Str) → (p ++ x == p ++ y) ≡ (x == y)
same_prefix [] x y = refl
same_prefix (c ∷ p) x y = ground (arith, same_prefix p x y)

pub payload_if :
    {P : Type 0} (b : Bool) (x y : Option (Record P))
    → payload_of (if b then x else y) ≡ (if b then payload_of x else payload_of y)
payload_if true x y = refl
payload_if false x y = refl

pub object_id_of :
    (c : CanvasId) (i j : ObjectId) → (object_record_id c i == object_record_id c j) ≡ (i == j)
unfolding object_record_id
object_id_of c i j = same_prefix (c ++ bytes ":object:") i j

pub not_meta : (c : CanvasId) (j : ObjectId) → (canvas_record_id c == object_record_id c j) ≡ false
unfolding object_record_id canvas_record_id
not_meta c j =
    ap (λ k. c ++ bytes ":canvas" == k) (append_assoc c (bytes ":object:") j)
    ∙ same_prefix c (bytes ":canvas") (bytes ":object:" ++ j)

pub find_named :
    (l : List Object) (j : ObjectId) (o : Object) → find (has_id j) l ≡ some o → o.id ≡ j
find_named [] j o h = cc h
find_named (x ∷ l) j o h = elim (Bool-cases (x.id == j)) [
  | inl here ↦
      let is_o : x ≡ o = some-injective _ _ (rw here at h) in
      ap (λ (p : Object). p.id) (sym is_o) ∙ (eq_iff x.id j).0 here
  | inr away ↦ find_named l j o (rw away at h)
]
