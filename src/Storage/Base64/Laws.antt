-- ===== src/Storage/Base64/Laws.antt =====
-- What was encoded decodes to what it was.
use shape_ai.Common.{
  ℕ, zero, suc, ◌+◌, ◌*◌, ◌/◌, ◌%◌, ◌<◌, ◌≡◌, refl, ◌∙◌, ap, List, [], ◌∷◌, Bool, true, false, not,
  ◌&&◌, ◌==◌, nat_key, length, filter, get_elem?, arith, All,
}
use shape_ai.Common.Str.{Str}
use shape_ai.Common.Result.{Result, ok, err}
use shape_ai.Storage.Base64.{
  Base64Error, or_padding, alphabet, padding, sextet, packed, encode, val, is_ascii_whitespace,
  val_or_padding, pads, unpacked, decode_chunks, decode,
}

-- A character that stands for `n`.
abbrev pub StandsFor : ℕ → ℕ → Type 0
StandsFor c n = (val c ≡ ok n) × ((c == padding) ≡ false) × (is_ascii_whitespace c ≡ false)

abbrev is_value : Result Base64Error ℕ → ℕ → Bool
is_value (ok m) n = m == n
is_value (err e) n = false

abbrev stands : ℕ → ℕ → Bool
stands c n = is_value (val c) n && not (c == padding) && not (is_ascii_whitespace c)

abbrev each_from : ℕ → Str → Bool
each_from n [] = true
each_from n (c ∷ s) = stands c n && each_from (suc n) s

alphabet_stands : each_from 0 alphabet ≡ true
unfolding val
alphabet_stands = refl

is_value_ok : (r : Result Base64Error ℕ) (n : ℕ) → is_value r n ≡ true → r ≡ ok n
is_value_ok (ok m) n h = ap ok (ground arith)
is_value_ok (err e) n h = cc h

stands-StandsFor : (c n : ℕ) → stands c n ≡ true → StandsFor c n
stands-StandsFor c n h = (is_value_ok (val c) n (ground arith), ground arith, ground arith)

found :
    (s : Str) (from i n : ℕ)
    → each_from from s ≡ true
    → i < length s
    → from + i ≡ n
    → StandsFor (or_padding (get_elem? s i)) n
found [] from i n h lt e = absurd (omega arith)
found (c ∷ s) from zero n h lt e =
    stands-StandsFor c n (ap (stands c) (let e0 : n ≡ from = omega arith in e0) ∙ ground arith)
found (c ∷ s) from (suc i) n h lt e =
    found s (suc from) i n (ground arith) (omega arith) (omega arith)

pub sextet-StandsFor : (n : ℕ) → StandsFor (sextet n) (n % 64)
unfolding sextet
sextet-StandsFor n =
    let few : n % 64 < length alphabet = omega arith in
    found alphabet 0 (n % 64) (n % 64) alphabet_stands few (omega arith)

value_read : (c n : ℕ) → StandsFor c n → val_or_padding c ≡ ok n
value_read c n (v, p, w) = rw p v

no_pad : (c n : ℕ) → StandsFor c n → pads c ≡ 0
no_pad c n (v, p, w) = rw p refl

-- One chunk, padded or not.
chunk :
    (c0 c1 c2 c3 v0 v1 v2 v3 p2 p3 : ℕ) (s : Str) (rest : List ℕ)
    → StandsFor c0 v0
    → StandsFor c1 v1
    → val_or_padding c2 ≡ ok v2
    → pads c2 ≡ p2
    → val_or_padding c3 ≡ ok v3
    → pads c3 ≡ p3
    → decode_chunks s ≡ ok rest
    → decode_chunks (c0 ∷ c1 ∷ c2 ∷ c3 ∷ s)
      ≡ ok (unpacked (0 + 0 + p2 + p3) (v0 * 262144 + v1 * 4096 + v2 * 64 + v3) rest)
unfolding decode_chunks
chunk c0 c1 c2 c3 v0 v1 v2 v3 p2 p3 s rest h0 h1 r2 q2 r3 q3 e =
    rw (h0.0, h1.0, r2, r3, e, no_pad c0 v0 h0, no_pad c1 v1 h1, q2, q3) refl

abbrev pub IsByte : ℕ → Type 0
IsByte b = b < 256

joined :
    (n : ℕ)
    → n < 16777216
    → n / 262144 % 64 * 262144 + n / 4096 % 64 * 4096 + n / 64 % 64 * 64 + n % 64 ≡ n
joined n h = omega arith

unpacked_three :
    (b0 b1 b2 : ℕ) (rest : List ℕ)
    → IsByte b0
    → IsByte b1
    → IsByte b2
    → unpacked 0 (packed b0 b1 b2) rest ≡ b0 ∷ b1 ∷ b2 ∷ rest
unpacked_three b0 b1 b2 rest h0 h1 h2 =
    let n = packed b0 b1 b2 in
    let first : n / 65536 % 256 ≡ b0 = omega arith in
    let second : n / 256 % 256 ≡ b1 = omega arith in
    let third : n % 256 ≡ b2 = omega arith in
    ap (λ b. b ∷ n / 256 % 256 ∷ n % 256 ∷ rest) first
    ∙ ap (λ b. b0 ∷ b ∷ n % 256 ∷ rest) second
    ∙ ap (λ b. b0 ∷ b1 ∷ b ∷ rest) third

unpacked_two : (b0 b1 : ℕ) → IsByte b0 → IsByte b1 → unpacked 1 (packed b0 b1 0) [] ≡ b0 ∷ b1 ∷ []
unpacked_two b0 b1 h0 h1 =
    let n = packed b0 b1 0 in
    let first : n / 65536 % 256 ≡ b0 = omega arith in
    let second : n / 256 % 256 ≡ b1 = omega arith in
    ap (λ b. b ∷ n / 256 % 256 ∷ []) first ∙ ap (λ b. b0 ∷ b ∷ []) second

unpacked_one : (b0 : ℕ) → IsByte b0 → unpacked 2 (packed b0 0 0) [] ≡ b0 ∷ []
unpacked_one b0 h0 =
    let first : packed b0 0 0 / 65536 % 256 ≡ b0 = omega arith in ap (λ b. b ∷ []) first

joined_two :
    (b0 b1 : ℕ)
    → IsByte b0
    → IsByte b1
    → (let n = packed b0 b1 0 in
        n / 262144 % 64 * 262144 + n / 4096 % 64 * 4096 + n / 64 % 64 * 64 + 0)
      ≡ packed b0 b1 0
joined_two b0 b1 h0 h1 = omega arith

joined_one :
    (b0 : ℕ)
    → IsByte b0
    → (let n = packed b0 0 0 in n / 262144 % 64 * 262144 + n / 4096 % 64 * 4096 + 0 * 64 + 0)
      ≡ packed b0 0 0
joined_one b0 h0 = omega arith

no_chunks : decode_chunks [] ≡ ok []
unfolding decode_chunks
no_chunks = refl

decode_chunks-encode : (l : List ℕ) → All IsByte l → decode_chunks (encode l) ≡ ok l
unfolding encode
decode_chunks-encode [] h = no_chunks
decode_chunks-encode (b0 ∷ []) (h0, u) =
    let n = packed b0 0 0 in
    chunk _ _ padding padding _ _ 0 0 1 1 [] [] (sextet-StandsFor (n / 262144))
      (sextet-StandsFor (n / 4096)) refl refl refl refl no_chunks
    ∙ ap (λ k. ok (unpacked 2 k [])) (joined_one b0 h0)
    ∙ ap ok (unpacked_one b0 h0)
decode_chunks-encode (b0 ∷ b1 ∷ []) (h0, (h1, u)) =
    let n = packed b0 b1 0 in
    let s2 = sextet-StandsFor (n / 64) in
    chunk _ _ (sextet (n / 64)) padding _ _ (n / 64 % 64) 0 0 1 [] []
      (sextet-StandsFor (n / 262144)) (sextet-StandsFor (n / 4096)) (value_read _ _ s2)
      (no_pad _ _ s2) refl refl no_chunks
    ∙ ap (λ k. ok (unpacked 1 k [])) (joined_two b0 b1 h0 h1)
    ∙ ap ok (unpacked_two b0 b1 h0 h1)
decode_chunks-encode (b0 ∷ b1 ∷ b2 ∷ rest) (h0, (h1, (h2, hs))) =
    let n = packed b0 b1 b2 in
    let s2 = sextet-StandsFor (n / 64) in
    let s3 = sextet-StandsFor n in
    chunk _ _ (sextet (n / 64)) (sextet n) _ _ (n / 64 % 64) (n % 64) 0 0 (encode rest) rest
      (sextet-StandsFor (n / 262144)) (sextet-StandsFor (n / 4096)) (value_read _ _ s2)
      (no_pad _ _ s2) (value_read _ _ s3) (no_pad _ _ s3) (decode_chunks-encode rest hs)
    ∙ ap (λ k. ok (unpacked 0 k rest)) (joined n (omega arith))
    ∙ ap ok (unpacked_three b0 b1 b2 rest h0 h1 h2)

abbrev IsText : Str → Type 0
IsText s = All (λ c. is_ascii_whitespace c ≡ false) s

keeps_text : (s : Str) → IsText s → filter (λ c. not (is_ascii_whitespace c)) s ≡ s
keeps_text [] h = refl
keeps_text (c ∷ s) (h, t) = rw h (ap (λ r. c ∷ r) (keeps_text s t))

sextet_text : (n : ℕ) → is_ascii_whitespace (sextet n) ≡ false
sextet_text n = (sextet-StandsFor n).2

encode-IsText : (l : List ℕ) → IsText (encode l)
unfolding encode
encode-IsText [] = tt
encode-IsText (b0 ∷ []) =
    let n = packed b0 0 0 in
    (sextet_text (n / 262144), (sextet_text (n / 4096), (refl, (refl, tt))))
encode-IsText (b0 ∷ b1 ∷ []) =
    let n = packed b0 b1 0 in
    (sextet_text (n / 262144), (sextet_text (n / 4096), (sextet_text (n / 64), (refl, tt))))
encode-IsText (b0 ∷ b1 ∷ b2 ∷ rest) =
    let n = packed b0 b1 b2 in
    (
      sextet_text (n / 262144),
      (sextet_text (n / 4096), (sextet_text (n / 64), (sextet_text n, encode-IsText rest))),
    )

length-encode : (l : List ℕ) → length (encode l) % 4 ≡ 0
unfolding encode
length-encode [] = refl
length-encode (b0 ∷ []) = refl
length-encode (b0 ∷ b1 ∷ []) = refl
length-encode (b0 ∷ b1 ∷ b2 ∷ rest) = let h = length-encode rest in omega arith

-- The text of any bytes decodes to those bytes.
pub decode-encode : (l : List ℕ) → All IsByte l → decode (encode l) ≡ ok l
unfolding decode
decode-encode l h =
    rw (keeps_text (encode l) (encode-IsText l), length-encode l) (decode_chunks-encode l h)
