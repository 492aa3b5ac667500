-- ===== src/Fractional/Several.antt =====
-- crates/scene-core/src/fractional.rs: several keys at once.
pub mod Laws
use shape_ai.Common.{
  ℕ, zero, suc, ◌+◌, ◌-◌, ◌/◌, Option, none, some, List, [], ◌∷◌, ◌++◌, reverse, nat_eq,
  if◌then◌else◌,
}
use shape_ai.Common.Str.{Str}
use shape_ai.Common.Result.{Result, ok, err, ◌>>=◌}
use shape_ai.Fractional.Digits.{KeyError, out_of_fuel}
use shape_ai.Fractional.Generate.{generate_key_between}

-- The loop of `n` keys, each above the one before.
unfoldable pub keys_above : ℕ → Str → Result KeyError (List Str)
keys_above zero c = ok []
keys_above (suc n) c = do d ← generate_key_between (some c) none; l ← keys_above n d; ok (d ∷ l)

-- The loop of `n` keys, each below the one before.
unfoldable pub keys_below : ℕ → Str → Result KeyError (List Str)
keys_below zero c = ok []
keys_below (suc n) c = do d ← generate_key_between none (some c); l ← keys_below n d; ok (d ∷ l)

abbrev pub one_key : Option Str → Option Str → Result KeyError (List Str)
one_key a b = do c ← generate_key_between a b; ok (c ∷ [])

-- The subdivision between two keys; each half asks for fewer than `n`.
unfoldable pub subdivide : ℕ → Str → Str → ℕ → Result KeyError (List Str)
subdivide zero a b n = err out_of_fuel
subdivide (suc rounds) a b n =
    let halves = do
      c ← generate_key_between (some a) (some b)
      left ← subdivide rounds a c (n / 2)
      right ← subdivide rounds c b (n - n / 2 - 1)
      ok (left ++ c ∷ right)
    in if nat_eq n 0 then ok [] else if nat_eq n 1 then one_key (some a) (some b) else halves

abbrev pub many_keys : Option Str → Option Str → ℕ → Result KeyError (List Str)
many_keys a none n = do c ← generate_key_between a none; l ← keys_above (n - 1) c; ok (c ∷ l)
many_keys none (some b) n = do
  c ← generate_key_between none (some b)
  l ← keys_below (n - 1) c
  ok (reverse (c ∷ l))
many_keys (some a) (some b) n = subdivide (n + 1) a b n

unfoldable pub generate_n_keys_between : Option Str → Option Str → ℕ → Result KeyError (List Str)
generate_n_keys_between a b n =
    if nat_eq n 0 then ok [] else if nat_eq n 1 then one_key a b else many_keys a b n
