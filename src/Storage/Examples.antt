-- ===== src/Storage/Examples.antt =====
-- Some payloads, some cells, and a store in memory.
use shape_ai.Common.{◌≡◌, refl, [], ◌∷◌, ◌&&◌, leb, arith}
use shape_ai.Common.Str.{bytes}
use shape_ai.Common.Result.{ok, err}
use shape_ai.Storage.Base64.{encode, decode, sextet, bad_length}
use shape_ai.Storage.Base64.Laws.{decode-encode}
use shape_ai.Storage.Morton.{morton_encode, morton_decode, spread, compact, region_row_key}
use shape_ai.Storage.Morton.Rows.{scanned, max_cell, scanned-region_row_key}

text_test : encode (bytes "Ma") ≡ bytes "TWE="
unfolding encode sextet
text_test = refl

short_test : decode (bytes "TWE") ≡ err bad_length
unfolding decode
short_test = refl

decode-encode_example : decode (encode (0 ∷ 255 ∷ 16 ∷ 131 ∷ [])) ≡ ok (0 ∷ 255 ∷ 16 ∷ 131 ∷ [])
decode-encode_example =
    decode-encode (0 ∷ 255 ∷ 16 ∷ 131 ∷ [])
      (omega arith, (omega arith, (omega arith, (omega arith, tt))))

round_trip_test : morton_decode (morton_encode 12345 67890) ≡ (12345, 67890)
unfolding morton_decode morton_encode spread compact
round_trip_test = refl

largest_test : morton_decode (morton_encode 4294967295 4294967295) ≡ (4294967295, 4294967295)
unfolding morton_decode morton_encode spread compact
largest_test = refl

interleave_test : morton_encode 3 5 ≡ 39
unfolding morton_encode spread
interleave_test = refl

scanned-region_row_key_example :
    scanned (bytes "c") 7 max_cell (region_row_key (bytes "c") max_cell (bytes "o"))
    ≡ (leb 7 max_cell && leb max_cell max_cell)
scanned-region_row_key_example =
    scanned-region_row_key (bytes "c") (bytes "o") 7 max_cell max_cell (omega arith) (omega arith)
      (omega arith)
