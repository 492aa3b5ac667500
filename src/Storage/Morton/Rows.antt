-- ===== src/Storage/Morton/Rows.antt =====
-- A scan of the region index meets the rows of the cells it asks for, and no others.
use shape_ai.Common.{
  ℕ, zero, suc, ◌+◌, ◌/◌, ◌%◌, ◌<◌, ◌≤◌, ◌≡◌, refl, sym, ◌∙◌, ap, [], ◌∷◌, ◌++◌, append_assoc,
  append-nil, Bool, true, false, not, ◌&&◌, arith, ltb, leb, Bool-cases, inl, inr,
}
use shape_ai.Common.Str.{Str, str_lt, str_lt-append, str_lt_trans, str_lt_irrefl}
use shape_ai.Storage.Morton.{to_be_bytes, region_scan_start, region_row_key, region_scan_end_excl}

-- `n` fits in `width` bytes.
abbrev Fits : ℕ → ℕ → Type 0
Fits zero n = n < 1
Fits (suc width) n = Fits width (n / 256)

-- Big-endian bytes are in the order of the numbers, whatever follows them.
bytes_rise :
    (width a b : ℕ) (s t : Str)
    → Fits width a
    → Fits width b
    → a < b
    → str_lt (to_be_bytes width a ++ s) (to_be_bytes width b ++ t) ≡ true
unfolding to_be_bytes
bytes_rise zero a b s t h k lt = absurd (omega arith)
bytes_rise (suc width) a b s t h k lt =
    let x = to_be_bytes width (a / 256) in
    let y = to_be_bytes width (b / 256) in
    rw (append_assoc x (a % 256 ∷ []) s, append_assoc y (b % 256 ∷ []) t)
      (elim (Bool-cases (ltb (a / 256) (b / 256))) [
        | inl less ↦
            bytes_rise width (a / 256) (b / 256) (a % 256 ∷ s) (b % 256 ∷ t) h k (ground arith)
        | inr same ↦
            let e : a / 256 ≡ b / 256 = ground arith in
            rw e (str_lt-append y (a % 256 ∷ s) (b % 256 ∷ t) ∙ ground arith)
      ])

-- A scan from the cell `lo` to the cell `hi`.
unfoldable pub scanned : Str → ℕ → ℕ → Str → Bool
scanned canvas_id lo hi key =
    not (str_lt key (region_scan_start canvas_id lo))
    && str_lt key (region_scan_end_excl canvas_id hi)

abbrev pub max_cell : ℕ
max_cell = 18446744073709551615

word-Fits : (n : ℕ) → n ≤ max_cell → Fits 8 n
word-Fits n h = omega arith

not_both : (a b : Str) → str_lt a b ≡ true → str_lt b a ≡ false
not_both a b h = elim (Bool-cases (str_lt b a)) [
  | inl back ↦ cc (str_lt_trans a b a h back, str_lt_irrefl a)
  | inr fine ↦ fine
]

no_tail : (o : Str) → str_lt o [] ≡ false
no_tail o = refl

after_tail : (x o : Str) → str_lt (x ++ o) x ≡ false
after_tail x o = ap (str_lt (x ++ o)) (sym (append-nil x)) ∙ str_lt-append x o [] ∙ no_tail o

-- The bytes of a cell with a tail against those of another.
cell_test :
    (a b : ℕ) (o : Str)
    → a ≤ max_cell
    → b ≤ max_cell
    → str_lt (to_be_bytes 8 a ++ o) (to_be_bytes 8 b) ≡ ltb a b
cell_test a b o h k =
    let x = to_be_bytes 8 a in
    let y = to_be_bytes 8 b in
    elim (Bool-cases (ltb a b)) [
      | inl less ↦ rw less (
          ap (str_lt (x ++ o)) (sym (append-nil y))
          ∙ bytes_rise 8 a b o [] (word-Fits a h) (word-Fits b k) (ground arith))
      | inr more ↦ rw more (elim (Bool-cases (ltb b a)) [
        | inl above ↦ not_both y (x ++ o) (
            ap (λ z. str_lt z (x ++ o)) (sym (append-nil y))
            ∙ bytes_rise 8 b a [] o (word-Fits b k) (word-Fits a h) (ground arith))
        | inr equal ↦ let e : b ≡ a = ground arith in rw e (after_tail x o)
      ])
    ]

row_test :
    (c o : Str) (a b : ℕ)
    → a ≤ max_cell
    → b ≤ max_cell
    → str_lt (region_row_key c a o) (region_scan_start c b) ≡ ltb a b
unfolding region_row_key region_scan_start
row_test c o a b h k =
    ap (λ z. str_lt z (c ++ 0 ∷ to_be_bytes 8 b)) (append_assoc c (0 ∷ to_be_bytes 8 a) o)
    ∙ str_lt-append c (0 ∷ (to_be_bytes 8 a ++ o)) (0 ∷ to_be_bytes 8 b)
    ∙ cell_test a b o h k

row_before_end : (c o : Str) (a : ℕ) → str_lt (region_row_key c a o) (c ++ 1 ∷ []) ≡ true
unfolding region_row_key region_scan_start
row_before_end c o a =
    ap (λ z. str_lt z (c ++ 1 ∷ [])) (append_assoc c (0 ∷ to_be_bytes 8 a) o)
    ∙ str_lt-append c (0 ∷ (to_be_bytes 8 a ++ o)) (1 ∷ [])

end_test :
    (c o : Str) (a hi : ℕ)
    → a ≤ max_cell
    → hi ≤ max_cell
    → str_lt (region_row_key c a o) (region_scan_end_excl c hi) ≡ leb a hi
unfolding region_scan_end_excl
end_test c o a hi h k = elim (Bool-cases (ltb hi max_cell)) [
  | inl more ↦ rw more (row_test c o a (hi + 1) h (ground arith) ∙ ground arith)
  | inr last ↦ rw last (row_before_end c o a ∙ ground arith)
]

-- A row of a canvas lies between the start key and the exclusive end key of a scan exactly when its
-- cell is one of `lo` to `hi`, whatever its object id is; also when `hi` is the last u64.
pub scanned-region_row_key :
    (canvas_id object_id : Str) (lo hi morton : ℕ)
    → lo ≤ max_cell
    → hi ≤ max_cell
    → morton ≤ max_cell
    → scanned canvas_id lo hi (region_row_key canvas_id morton object_id)
      ≡ (leb lo morton && leb morton hi)
unfolding scanned
scanned-region_row_key c o lo hi m h k w =
    rw (row_test c o m lo w h, end_test c o m hi w k) (ground arith)
