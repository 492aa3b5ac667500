-- ===== src/Kernel/Order/Examples.antt =====
-- Order keys of a scene of two objects.
use shape_ai.Common.{◌≡◌, refl, none, some, [], ◌∷◌}
use shape_ai.Common.Str.{bytes}
use shape_ai.Fractional.{validate_order_key, get_integer_part, get_integer_length, check_digits}
use shape_ai.Fractional.Digits.{digit_index}
use shape_ai.Kernel.Model.{ObjectScene, empty_scene, new_object, Geometry, even_odd}
use shape_ai.Kernel.Op
use shape_ai.Kernel.Order.{
  next_order_key, reorder_step_ops, forward, neighbours, sort_onto, insert_sorted,
}
use shape_ai.Kernel.Order.Laws.{FindsAbove, AllKeys, next_order_key-FindsAbove}
use shape_ai.Kernel.Order.Steps.{InKeyOrder, SwapsKeys, reorder_step-SwapsKeys}
use shape_ai.Kernel.Order.{sorted_objects}
use mathlib.Core.List.{Permᴰ}

abbrev blank : Geometry
blank = record { path_string = []; fill_rule = even_odd; subpaths = [] }

abbrev two_objects : ObjectScene
two_objects = record empty_scene {
  objects =
      new_object (bytes "b") (bytes "a1") blank ∷ new_object (bytes "a") (bytes "a0") blank ∷ [];
}

two_objects-AllKeys : AllKeys two_objects.objects
unfolding validate_order_key get_integer_part get_integer_length check_digits digit_index
two_objects-AllKeys = (refl, (refl, tt))

next_order_key-FindsAbove_example : FindsAbove two_objects.objects (next_order_key two_objects)
next_order_key-FindsAbove_example = next_order_key-FindsAbove two_objects two_objects-AllKeys

reorder_tests :
    (reorder_step_ops two_objects (bytes "a") forward
      ≡ some (Op.reorder (bytes "a") (bytes "a1") ∷ Op.reorder (bytes "b") (bytes "a0") ∷ []))
    × (reorder_step_ops two_objects (bytes "b") forward ≡ none)
unfolding reorder_step_ops neighbours sort_onto insert_sorted
reorder_tests = (refl, refl)

reorder_step-SwapsKeys_example :
    InKeyOrder (sorted_objects two_objects)
    × Permᴰ (sorted_objects two_objects) two_objects.objects
    × SwapsKeys forward
        (bytes "a")
        (sorted_objects two_objects)
        (Op.reorder (bytes "a") (bytes "a1") ∷ Op.reorder (bytes "b") (bytes "a0") ∷ [])
reorder_step-SwapsKeys_example =
    reorder_step-SwapsKeys two_objects (bytes "a") forward
      (Op.reorder (bytes "a") (bytes "a1") ∷ Op.reorder (bytes "b") (bytes "a0") ∷ [])
      reorder_tests.0
