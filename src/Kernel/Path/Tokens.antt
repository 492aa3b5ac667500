-- ===== src/Kernel/Path/Tokens.antt =====
-- crates/scene-core/src/object/kernel/model.rs, module path_string: the tokens of a text.
use shape_ai.Common.{
  ℕ, zero, suc, List, [], ◌∷◌, ◌++◌, Bool, ◌&&◌, ◌||◌, leb, nat_eq, if◌then◌else◌,
}
use shape_ai.Common.Str.{Str, str_key}

abbrev between : ℕ → ℕ → ℕ → Bool
between lo hi c = leb lo c && leb c hi

-- The length of a comma or white-space character that a text begins with, in UTF-8: the white
-- space of Unicode has up to three bytes.
unfoldable pub separator_length : Str → ℕ
separator_length (c ∷ d ∷ e ∷ s) =
    if between 9 13 c || (nat_eq c b' ' || nat_eq c b',')
    then 1
    else if nat_eq c 0xc2 && (nat_eq d 0x85 || nat_eq d 0xa0)
    then 2
    else if (nat_eq c 0xe1 && (nat_eq d 0x9a && nat_eq e 0x80))
        || ((nat_eq c 0xe2
              && ((nat_eq d 0x80 && (between 0x80 0x8a e || (between 0xa8 0xa9 e || nat_eq e 0xaf)))
                  || (nat_eq d 0x81 && nat_eq e 0x9f)))
            || (nat_eq c 0xe3 && (nat_eq d 0x80 && nat_eq e 0x80)))
    then 3
    else 0
separator_length (c ∷ d ∷ []) =
    if between 9 13 c || (nat_eq c b' ' || nat_eq c b',')
    then 1
    else if nat_eq c 0xc2 && (nat_eq d 0x85 || nat_eq d 0xa0)
    then 2
    else 0
separator_length (c ∷ []) = if between 9 13 c || (nat_eq c b' ' || nat_eq c b',') then 1 else 0
separator_length [] = 0

abbrev pub push_token : Str → List Str → List Str
push_token [] tokens = tokens
push_token (c ∷ t) tokens = (c ∷ t) ∷ tokens

-- `split` and the filter of empty tokens; `skip` bytes of a separator are left, and `token` is read.
unfoldable pub tokens_from : ℕ → Str → Str → List Str
tokens_from skip token [] = push_token token []
tokens_from (suc skip) token (c ∷ s) = tokens_from skip token s
tokens_from zero token (c ∷ s) = elim (separator_length (c ∷ s)) [
  | zero ↦ tokens_from zero (token ++ c ∷ []) s
  | suc skip ↦ push_token token (tokens_from skip [] s)
]

abbrev pub tokens : Str → List Str
tokens s = tokens_from 0 [] s
