-- ===== src/Storage/Base64.antt =====
-- crates/storage-core/src/record.rs: the base64 text of a payload. The bit fields of a number are
-- written as sums and quotients, and a u8 as a number below 256.
pub mod Laws
use shape_ai.Common.{
  ℕ, ◌+◌, ◌-◌, ◌*◌, ◌/◌, ◌%◌, List, [], ◌∷◌, ◌++◌, Bool, true, false, not, ◌&&◌, ◌||◌, Option, none,
  some, if◌then◌else◌, ◌==◌, nat_key, leb, ltb, length, filter, get_elem?,
}
use shape_ai.Common.Str.{Str, bytes}
use shape_ai.Common.Result.{Result, ok, err, ◌>>=◌, ◌>>◌, fail_if}

pub data Base64Error : Type 0 where
  invalid_byte : (c : ℕ) → Base64Error
  bad_length : Base64Error

abbrev pub alphabet : Str
alphabet = bytes "ABCDEFGHIJKLMNOPQRSTUVWXYZabcdefghijklmnopqrstuvwxyz0123456789+/"

abbrev pub padding : ℕ
padding = b'='

abbrev pub or_padding : Option ℕ → ℕ
or_padding none = padding
or_padding (some c) = c

-- The character of six bits.
unfoldable pub sextet : ℕ → ℕ
sextet n = or_padding (get_elem? alphabet (n % 64))

abbrev pub packed : ℕ → ℕ → ℕ → ℕ
packed b0 b1 b2 = b0 * 65536 + b1 * 256 + b2

unfoldable pub encode : List ℕ → Str
encode [] = []
encode (b0 ∷ []) =
    let n = packed b0 0 0 in sextet (n / 262144) ∷ sextet (n / 4096) ∷ padding ∷ padding ∷ []
encode (b0 ∷ b1 ∷ []) =
    let n = packed b0 b1 0 in
    sextet (n / 262144) ∷ sextet (n / 4096) ∷ sextet (n / 64) ∷ padding ∷ []
encode (b0 ∷ b1 ∷ b2 ∷ rest) =
    let n = packed b0 b1 b2 in
    sextet (n / 262144) ∷ sextet (n / 4096) ∷ sextet (n / 64) ∷ sextet n ∷ encode rest

abbrev within : ℕ → ℕ → ℕ → Bool
within low high c = leb low c && leb c high

unfoldable pub val : ℕ → Result Base64Error ℕ
val c =
    if within b'A' b'Z' c
    then ok (c - b'A')
    else if within b'a' b'z' c
    then ok (c - b'a' + 26)
    else if within b'0' b'9' c
    then ok (c - b'0' + 52)
    else if c == b'+'
    then ok 62
    else if c == b'/'
    then ok 63
    else err (invalid_byte c)

abbrev pub is_ascii_whitespace : ℕ → Bool
is_ascii_whitespace c = c == 32 || c == 9 || c == 10 || c == 12 || c == 13

abbrev pub val_or_padding : ℕ → Result Base64Error ℕ
val_or_padding c = if c == padding then ok 0 else val c

abbrev pub pads : ℕ → ℕ
pads c = if c == padding then 1 else 0

-- The bytes of a chunk with `pad` characters of padding.
abbrev pub unpacked : ℕ → ℕ → List ℕ → List ℕ
unpacked pad n rest =
    n / 65536 % 256 ∷ (if ltb pad 2 then n / 256 % 256 ∷ [] else [])
    ++ (if ltb pad 1 then n % 256 ∷ [] else [])
    ++ rest

-- The chunks of four; the length was checked.
unfoldable pub decode_chunks : Str → Result Base64Error (List ℕ)
decode_chunks (c0 ∷ c1 ∷ c2 ∷ c3 ∷ s) = do
  v0 ← val c0
  v1 ← val c1
  v2 ← val_or_padding c2
  v3 ← val_or_padding c3
  rest ← decode_chunks s
  ok (
      unpacked (pads c0 + pads c1 + pads c2 + pads c3) (v0 * 262144 + v1 * 4096 + v2 * 64 + v3)
        rest)
decode_chunks _ = ok []

unfoldable pub decode : Str → Result Base64Error (List ℕ)
decode input =
    let s = filter (λ c. not (is_ascii_whitespace c)) input in
    if length s % 4 == 0 then decode_chunks s else err bad_length
