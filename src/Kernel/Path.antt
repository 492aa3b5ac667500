-- ===== src/Kernel/Path.antt =====
-- crates/scene-core/src/object/kernel/model.rs, module path_string: the codec of path strings. An
-- `i32` wraps as in a release build, where a debug build panics.
pub mod Format
pub mod Tokens
use shape_ai.Common.{
  ℕ, zero, suc, ◌+◌, List, [], ◌∷◌, ◌++◌, Bool, true, false, ◌&&◌, ◌||◌, Option, none, some, leb,
  nat_eq, if◌then◌else◌, all, is_empty, ◌==◌, length,
}
use shape_ai.Common.Int.{ℤ, pos, negsuc, ◌+ℤ◌, ◌-ℤ◌, wrap_i32, i32_max}
use shape_ai.Common.Str.{Str, bytes, str_key}
use shape_ai.Common.Decimal.{display, is_decimal, value_onto}
use shape_ai.Common.Result.{Result, ok, err, ◌>>=◌, ok_or}
use shape_ai.Kernel.Model.{HandlePoint, PathNode, SubPath, Geometry, FillRule, corner}
pub use shape_ai.Kernel.Path.Format.{
  PathError, unexpected_end, l_before_m, c_before_m, z_before_m, out_of_rounds, bad_coordinate,
  unsupported_command,
}
use shape_ai.Kernel.Path.Format.{serialize}
use shape_ai.Kernel.Path.Tokens.{tokens}

abbrev in_range : Bool → ℕ → Option ℤ
in_range true n =
    if leb n (i32_max + 1) then (elim n [ zero ↦ some (pos 0) | suc k ↦ some (negsuc k) ]) else none
in_range false n = if leb n i32_max then some (pos n) else none

abbrev digits_value : Bool → Str → Option ℤ
digits_value negative [] = none
digits_value negative (c ∷ s) =
    if all is_decimal (c ∷ s) then in_range negative (value_onto 0 (c ∷ s)) else none

-- `str::parse::<i32>`.
unfoldable pub parse_i32 : Str → Option ℤ
parse_i32 [] = none
parse_i32 (c ∷ s) =
    if nat_eq c b'-'
    then digits_value true s
    else if nat_eq c b'+'
    then digits_value false s
    else digits_value false (c ∷ s)

-- The next token as a coordinate, and the tokens behind it.
unfoldable pub num : List Str → Result PathError (ℤ × List Str)
num [] = err unexpected_end
num (t ∷ rest) = do z ← ok_or (parse_i32 t) (bad_coordinate t); ok (z, rest)

abbrev pub close_current : List SubPath → Option SubPath → List SubPath
close_current subpaths none = subpaths
close_current subpaths (some sp) = subpaths ++ sp ∷ []

abbrev pub push_node : SubPath → PathNode → SubPath
push_node sp node = record sp { nodes = sp.nodes ++ node ∷ [] }

-- `nodes.last_mut()` gets its outgoing handle.
unfoldable pub set_out_handle : ℤ → ℤ → List PathNode → List PathNode
set_out_handle c1x c1y [] = []
set_out_handle c1x c1y (prev ∷ []) =
    record prev {
      out_handle = some (record { dx = wrap_i32 (c1x -ℤ prev.x); dy = wrap_i32 (c1y -ℤ prev.y) });
    }
    ∷ []
set_out_handle c1x c1y (n ∷ m ∷ nodes) = n ∷ set_out_handle c1x c1y (m ∷ nodes)

abbrev pub curve_to : (c1x c1y c2x c2y x y : ℤ) → SubPath → SubPath
curve_to c1x c1y c2x c2y x y sp =
    push_node (record sp { nodes = set_out_handle c1x c1y sp.nodes })
      (record {
        x = x;
        y = y;
        in_handle = some (record { dx = wrap_i32 (c2x -ℤ x); dy = wrap_i32 (c2y -ℤ y) });
        out_handle = none;
        width = none;
      })

abbrev State : Type 0
State = List Str × List SubPath × Option SubPath

-- One command: the tokens behind it, the finished subpaths and the current one.
unfoldable pub move_to : State → Result PathError State
move_to (ts, subpaths, current) = do
  (x, ts1) ← num ts
  (y, ts2) ← num ts1
  ok (
    ts2,
    close_current subpaths current,
    some (record { closed = false; nodes = corner x y ∷ [] }),
  )

unfoldable pub line_command : State → Result PathError State
line_command (ts, subpaths, current) = do
  (x, ts1) ← num ts
  (y, ts2) ← num ts1
  sp ← ok_or current l_before_m
  ok (ts2, subpaths, some (push_node sp (corner x y)))

unfoldable pub curve_command : State → Result PathError State
curve_command (ts, subpaths, current) = do
  (c1x, ts1) ← num ts
  (c1y, ts2) ← num ts1
  (c2x, ts3) ← num ts2
  (c2y, ts4) ← num ts3
  (x, ts5) ← num ts4
  (y, ts6) ← num ts5
  sp ← ok_or current c_before_m
  ok (ts6, subpaths, some (curve_to c1x c1y c2x c2y x y sp))

unfoldable pub close_command : State → Result PathError State
close_command (ts, subpaths, current) = do
  sp ← ok_or current z_before_m
  ok (ts, subpaths, some (record sp { closed = true }))

abbrev is_command : ℕ → ℕ → Str → Bool
is_command upper lower t = t == upper ∷ [] || t == lower ∷ []

unfoldable pub command : Str → State → Result PathError State
command t s =
    if is_command b'M' b'm' t
    then move_to s
    else if is_command b'L' b'l' t
    then line_command s
    else if is_command b'C' b'c' t
    then curve_command s
    else if is_command b'Z' b'z' t
    then close_command s
    else err (unsupported_command t)

-- A round for each token is enough: every command takes one at least.
unfoldable pub parse_loop : ℕ → State → Result PathError (List SubPath)
parse_loop rounds ([], subpaths, current) = ok (close_current subpaths current)
parse_loop zero (t ∷ ts, subpaths, current) = err out_of_rounds
parse_loop (suc rounds) (t ∷ ts, subpaths, current) = do
  next ← command t (ts, subpaths, current)
  parse_loop rounds next

unfoldable pub parse : Str → Result PathError (List SubPath)
parse s = parse_loop (length (tokens s)) (tokens s, [], none)

-- `Geometry::from_subpaths`.
abbrev pub from_subpaths : List SubPath → FillRule → Geometry
from_subpaths subpaths fill_rule = record {
  path_string = serialize subpaths;
  fill_rule = fill_rule;
  subpaths = subpaths;
}

-- `Geometry::parse`.
abbrev pub parse_geometry : Geometry → Result PathError Geometry
parse_geometry g = do subpaths ← parse g.path_string; ok (record g { subpaths = subpaths })

-- `Geometry::ensure_parsed`.
unfoldable pub ensure_parsed : Geometry → Result PathError Geometry
ensure_parsed g =
    let parsed = parse_geometry g in
    if is_empty g.subpaths && (if is_empty g.path_string then false else true) then parsed else ok g

-- `Geometry::reencode`.
abbrev pub reencode : Geometry → Geometry
reencode g = record g { path_string = serialize g.subpaths }
