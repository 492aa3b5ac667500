-- ===== src/Lww/Examples.antt =====
-- Two writes to one property, in both orders.
use shape_ai.Common.{◌≡◌, refl, if◌then◌else◌, ◌&&◌, ◌==◌, List, [], ◌∷◌, false, some, ℕ}
use shape_ai.Common.Int.{pos}
use shape_ai.Common.Str.{Str, bytes, str_key}
use shape_ai.Common.Map.{get, insert}
use shape_ai.Lww.{PropertyStore, empty_store, apply, get_entry, get_value, lww_merge_property}
use shape_ai.Lww.Laws.{Write, write, write_all, write_all_converges, newest, write_wins, swapped}

abbrev old_fill : Write ℕ
old_fill = record {
  object_id = bytes "r";
  property = bytes "fill";
  entry = record { value = 7; seq = pos 1 };
}

abbrev new_fill : Write ℕ
new_fill = record old_fill { entry = record { value = 8; seq = pos 2 } }

abbrev filled : PropertyStore ℕ
filled = record { objects = (bytes "r", (bytes "fill", new_fill.entry) ∷ []) ∷ [] }

late_write_loses : (write filled old_fill).1 ≡ false
unfolding apply lww_merge_property get insert
late_write_loses = refl

newest_value : get_value (write_all filled (old_fill ∷ [])) (bytes "r") (bytes "fill") ≡ some 8
unfolding get_value get_entry write_all apply lww_merge_property get insert
newest_value = refl

abbrev tied_fill : Write ℕ
tied_fill = record new_fill { entry = record { value = 9; seq = pos 2 } }

abbrev two_fills : List (Write ℕ)
two_fills = new_fill ∷ old_fill ∷ []

write_wins_example :
    ((write (write_all empty_store two_fills) tied_fill).1 ≡ newest tied_fill two_fills)
    × ((o p : Str)
        → get_entry (write (write_all empty_store two_fills) tied_fill).0 o p ≡ (
            if (tied_fill.object_id == o && tied_fill.property == p) && newest tied_fill two_fills
            then some tied_fill.entry
            else get_entry (write_all empty_store two_fills) o p))
write_wins_example = write_wins two_fills tied_fill

tied_write_loses : newest tied_fill two_fills ≡ false
tied_write_loses = refl

write_all_converges_example :
    get_entry (write_all filled (old_fill ∷ new_fill ∷ [])) (bytes "r") (bytes "fill")
    ≡ get_entry (write_all filled (new_fill ∷ old_fill ∷ [])) (bytes "r") (bytes "fill")
write_all_converges_example =
    write_all_converges filled filled (old_fill ∷ new_fill ∷ []) (new_fill ∷ old_fill ∷ [])
      (λ o p. refl) swapped (((λ e. cc e), tt), (tt, tt)) (bytes "r") (bytes "fill")
