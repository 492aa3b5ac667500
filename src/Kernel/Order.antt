-- ===== src/Kernel/Order.antt =====
-- crates/scene-core/src/fractional.rs: the order keys that a scene asks for.
pub mod Laws
pub mod Steps
mod Examples
use shape_ai.Common.{
  ℕ, zero, suc, Option, none, some, List, [], ◌∷◌, map, Bool, true, false, if◌then◌else◌, ◌==◌,
}
use shape_ai.Common.Str.{Str, bytes, str_lt, str_key}
use shape_ai.Common.Result.{Result, ok, err}
use shape_ai.Fractional.Digits.{
  KeyError, invalid_digit, invalid_head, empty_key, empty_integer, invalid_key, invalid_integer,
  not_less, trailing_zero, cannot_decrement, cannot_increment, panicked, out_of_fuel,
}
use shape_ai.Fractional.Generate.{generate_key_between}
use shape_ai.Kernel.Model.{ObjectId, Object, ObjectScene}
use shape_ai.Kernel.Op
use shape_ai.Kernel.Op.{ObjectOp}
use shape_ai.Kernel.Edit.{has_id}

-- `max_by`: of equal keys the later one.
unfoldable pub max_order : Str → List Object → Str
max_order top [] = top
max_order top (o ∷ l) = max_order (if str_lt o.order top then top else o.order) l

-- `min_by`: of equal keys the earlier one.
unfoldable pub min_order : Str → List Object → Str
min_order low [] = low
min_order low (o ∷ l) = min_order (if str_lt o.order low then o.order else low) l

abbrev pub unwinds : KeyError → Bool
unwinds (invalid_digit c) = false
unwinds (invalid_head c) = false
unwinds empty_key = false
unwinds empty_integer = false
unwinds (invalid_key key) = false
unwinds (invalid_integer key) = false
unwinds (not_less a b) = false
unwinds trailing_zero = false
unwinds cannot_decrement = false
unwinds cannot_increment = false
unwinds panicked = true
unwinds out_of_fuel = true

-- `unwrap_or_else`: a panic inside the generation is no `Err`.
abbrev pub or_first : Result KeyError Str → Result KeyError Str
or_first (ok key) = ok key
or_first (err e) = if unwinds e then err e else generate_key_between none none

abbrev pub key_over : List Object → Result KeyError Str
key_over [] = generate_key_between none none
key_over (o ∷ l) = or_first (generate_key_between (some (max_order o.order l)) none)

unfoldable pub next_order_key : ObjectScene → Result KeyError Str
next_order_key scene = key_over scene.objects

abbrev pub key_under : List Object → Result KeyError Str
key_under [] = generate_key_between none none
key_under (o ∷ l) = or_first (generate_key_between none (some (min_order o.order l)))

unfoldable pub back_order_key : ObjectScene → Result KeyError Str
back_order_key scene = key_under scene.objects

unfoldable pub key_between : Option Str → Option Str → Result KeyError Str
key_between a b = generate_key_between a b

pub data ReorderDirection : Type 0 where
  forward backward : ReorderDirection

-- `sort_by` is stable: an object goes behind those with an equal key.
unfoldable pub insert_sorted : Object → List Object → List Object
insert_sorted o [] = o ∷ []
insert_sorted o (x ∷ l) =
    let rest = insert_sorted o l in if str_lt o.order x.order then o ∷ x ∷ l else x ∷ rest

unfoldable pub sort_onto : List Object → List Object → List Object
sort_onto sorted [] = sorted
sort_onto sorted (o ∷ l) = sort_onto (insert_sorted o sorted) l

abbrev pub sorted_objects : ObjectScene → List Object
sorted_objects scene = sort_onto [] scene.objects

-- The object with the id, with its neighbours before and behind it.
unfoldable pub neighbours :
    ObjectId → Option Object → List Object → Option (Option Object × Object × Option Object)
neighbours id before [] = none
neighbours id before (o ∷ []) = if has_id id o then some (before, o, none) else none
neighbours id before (o ∷ x ∷ l) =
    let rest = neighbours id (some o) (x ∷ l) in
    if has_id id o then some (before, o, some x) else rest

abbrev pub toward : ReorderDirection → Option Object → Option Object → Option Object
toward forward before behind = behind
toward backward before behind = before

abbrev pub swap_ops : Object → Option Object → Option (List ObjectOp)
swap_ops self none = none
swap_ops self (some neighbor) =
    some (Op.reorder self.id neighbor.order ∷ Op.reorder neighbor.id self.order ∷ [])

abbrev pub step_from :
    ReorderDirection → Option (Option Object × Object × Option Object) → Option (List ObjectOp)
step_from direction none = none
step_from direction (some (before, self, behind)) = swap_ops self (toward direction before behind)

unfoldable pub reorder_step_ops : ObjectScene → ObjectId → ReorderDirection → Option (List ObjectOp)
reorder_step_ops scene id direction =
    step_from direction (neighbours id none (sorted_objects scene))
