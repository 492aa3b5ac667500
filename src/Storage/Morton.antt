-- ===== src/Storage/Morton.antt =====
-- crates/storage-core/src/morton.rs: Z-order codes, and the keys of the rows of a region index. The f64
-- coordinates are left out: a code is made of two u32 axis values.
pub mod Rows
use Prim.Native.Nat.{bit_and, bit_or}
use shape_ai.Common.{
  ℕ, zero, suc, ◌+◌, ◌*◌, ◌/◌, ◌%◌, List, [], ◌∷◌, ◌++◌, Option, none, some, if◌then◌else◌, ltb,
}
use shape_ai.Common.Str.{Str}

-- `u64` shifts: what leaves the word at the top is lost.
abbrev shl : ℕ → ℕ → ℕ
shl n factor = n * factor % 18446744073709551616

unfoldable pub spread : ℕ → ℕ
spread v =
    let n16 = bit_and (bit_or v (shl v 65536)) 0x0000FFFF0000FFFF in
    let n8 = bit_and (bit_or n16 (shl n16 256)) 0x00FF00FF00FF00FF in
    let n4 = bit_and (bit_or n8 (shl n8 16)) 0x0F0F0F0F0F0F0F0F in
    let n2 = bit_and (bit_or n4 (shl n4 4)) 0x3333333333333333 in
    bit_and (bit_or n2 (shl n2 2)) 0x5555555555555555

unfoldable pub compact : ℕ → ℕ
compact n =
    let n1 = bit_and n 0x5555555555555555 in
    let n2 = bit_and (bit_or n1 (n1 / 2)) 0x3333333333333333 in
    let n4 = bit_and (bit_or n2 (n2 / 4)) 0x0F0F0F0F0F0F0F0F in
    let n8 = bit_and (bit_or n4 (n4 / 16)) 0x00FF00FF00FF00FF in
    let n16 = bit_and (bit_or n8 (n8 / 256)) 0x0000FFFF0000FFFF in
    bit_and (bit_or n16 (n16 / 65536)) 0x00000000FFFFFFFF

unfoldable pub morton_encode : ℕ → ℕ → ℕ
morton_encode x y = bit_or (spread x) (shl (spread y) 2)

unfoldable pub morton_decode : ℕ → ℕ × ℕ
morton_decode code = (compact code, compact (code / 2))

-- `to_be_bytes` of a word of `width` bytes.
unfoldable pub to_be_bytes : (width : ℕ) → ℕ → List ℕ
to_be_bytes zero n = []
to_be_bytes (suc width) n = to_be_bytes width (n / 256) ++ n % 256 ∷ []

unfoldable pub region_scan_start : Str → ℕ → Str
region_scan_start canvas_id morton = canvas_id ++ 0 ∷ to_be_bytes 8 morton

unfoldable pub region_row_key : Str → ℕ → Str → Str
region_row_key canvas_id morton object_id = region_scan_start canvas_id morton ++ object_id

-- `checked_add`.
abbrev pub next_cell : ℕ → Option ℕ
next_cell morton = if ltb morton 18446744073709551615 then some (morton + 1) else none

abbrev pub scan_end : Str → Option ℕ → Str
scan_end canvas_id (some next) = region_scan_start canvas_id next
scan_end canvas_id none = canvas_id ++ 1 ∷ []

unfoldable pub region_scan_end_excl : Str → ℕ → Str
region_scan_end_excl canvas_id hi_morton = scan_end canvas_id (next_cell hi_morton)
