-- ===== src/Kernel/Selection/Examples.antt =====
-- A selection of which one object is gone.
use shape_ai.Common.{◌≡◌, refl, ◌∷◌, [], filter}
use shape_ai.Common.Str.{bytes}
use shape_ai.Kernel.Model.{
  ObjectScene, empty_scene, new_object, Geometry, even_odd, ObjectSelection, multi, object,
}
use shape_ai.Kernel.Selection.{is_live, valid_selection}
use shape_ai.Kernel.Selection.Laws.{ids_of, ids_of-valid_selection}

abbrev outline : Geometry
outline = record { path_string = []; fill_rule = even_odd; subpaths = [] }

abbrev one_object : ObjectScene
one_object = record empty_scene { objects = new_object (bytes "r") (bytes "a0") outline ∷ [] }

abbrev both : ObjectSelection
both = multi (bytes "r" ∷ bytes "gone" ∷ [])

valid_selection_test : valid_selection one_object both ≡ object (bytes "r")
unfolding valid_selection
valid_selection_test = refl

ids_of-valid_selection_example :
    ids_of (valid_selection one_object both) ≡ filter (is_live one_object) (ids_of both)
ids_of-valid_selection_example = ids_of-valid_selection one_object both
