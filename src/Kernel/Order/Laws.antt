-- ===== src/Kernel/Order/Laws.antt =====
-- The order keys that crates/scene-core/src/fractional.rs mints for a scene.
use mathlib.Core.Path.{subst}
use shape_ai.Common.{
  ◌≡◌, refl, ap, none, some, List, [], ◌∷◌, true, false, All, Bool-cases, inl, inr,
}
use shape_ai.Common.Str.{Str, bytes, str_lt, str_lt_irrefl, str_lt_trans, str_trichotomy}
use shape_ai.Common.Result.{Result, ok}
use shape_ai.Fractional.Key.{IsKey}
use shape_ai.Fractional.{validate_order_key, get_integer_part, get_integer_length, check_digits}
use shape_ai.Fractional.Digits.{KeyError, digit_index}
use shape_ai.Fractional.Generate.{generate_key_between}
use shape_ai.Fractional.Generate.Between.{generate-IsKeyBetween, generate-IsKey}
use shape_ai.Kernel.Model.{Object, ObjectScene}
use shape_ai.Kernel.Order.{max_order, or_first, key_over, next_order_key}

abbrev pub AllKeys : List Object → Type 0
AllKeys l = All (λ (o : Object). IsKey o.order) l

-- Not below.
abbrev AtLeast : Str → Str → Type 0
AtLeast top k = str_lt top k ≡ false

lt_of_le_lt : (a b c : Str) → str_lt b a ≡ false → str_lt b c ≡ true → str_lt a c ≡ true
lt_of_le_lt a b c h k = elim (Bool-cases (str_lt a b)) [
  | inl less ↦ str_lt_trans a b c less k
  | inr not_less ↦ rw (str_trichotomy a b not_less h) k
]

lt_of_lt_le : (a b c : Str) → str_lt a b ≡ true → str_lt c b ≡ false → str_lt a c ≡ true
lt_of_lt_le a b c h k = elim (Bool-cases (str_lt b c)) [
  | inl less ↦ str_lt_trans a b c h less
  | inr not_less ↦ rw (← str_trichotomy b c not_less k) h
]

le_trans : (a b c : Str) → AtLeast b a → AtLeast c b → AtLeast c a
le_trans a b c h k = elim (Bool-cases (str_lt c a)) [
  | inl less ↦ cc (k, lt_of_lt_le c a b less h)
  | inr fine ↦ fine
]

le_of_lt : (a b : Str) → str_lt a b ≡ true → AtLeast b a
le_of_lt a b h = elim (Bool-cases (str_lt b a)) [
  | inl less ↦ cc (str_lt_trans a b a h less, str_lt_irrefl a)
  | inr fine ↦ fine
]

abbrev IsTop : Str → Str → List Object → Type 0
IsTop m top l = AtLeast m top × All (λ (o : Object). AtLeast m o.order) l

max_order-left :
    (o : Object) (top : Str) (l : List Object)
    → str_lt o.order top ≡ true
    → max_order top l ≡ max_order top (o ∷ l)
unfolding max_order
max_order-left o top l h = rw h refl

max_order-right :
    (o : Object) (top : Str) (l : List Object)
    → str_lt o.order top ≡ false
    → max_order o.order l ≡ max_order top (o ∷ l)
unfolding max_order
max_order-right o top l h = rw h refl

max_order-IsTop : (top : Str) (l : List Object) → IsTop (max_order top l) top l
unfolding max_order
max_order-IsTop top [] = (str_lt_irrefl top, tt)
max_order-IsTop top (o ∷ l) = elim (Bool-cases (str_lt o.order top)) [
  | inl less ↦
      let (own, rest) = max_order-IsTop top l in
      subst (λ m. IsTop m top (o ∷ l)) (max_order-left o top l less)
        (own, (le_trans o.order top (max_order top l) (le_of_lt o.order top less) own, rest))
  | inr more ↦
      let (own, rest) = max_order-IsTop o.order l in
      subst (λ m. IsTop m top (o ∷ l)) (max_order-right o top l more)
        (le_trans top o.order (max_order o.order l) more own, (own, rest))
]

max_order-IsKey : (top : Str) (l : List Object) → IsKey top → AllKeys l → IsKey (max_order top l)
unfolding max_order
max_order-IsKey top [] k h = k
max_order-IsKey top (o ∷ l) k h = elim (Bool-cases (str_lt o.order top)) [
  | inl less ↦ rw less (max_order-IsKey top l k h.1)
  | inr more ↦ rw more (max_order-IsKey o.order l h.0 h.1)
]

All-map {ℓ} :
    {A : Type ℓ} (P Q : A → Type 0) (l : List A) → ((a : A) → P a → Q a) → All P l → All Q l
All-map P Q [] f h = tt
All-map P Q (a ∷ l) f h = (f a h.0, All-map P Q l f h.1)

-- A valid key above that of every object.
abbrev pub IsAbove : Str → List Object → Type 0
IsAbove k l = IsKey k × All (λ (o : Object). str_lt o.order k ≡ true) l

abbrev pub FindsAbove : List Object → Result KeyError Str → Type 0
FindsAbove l r = (k : Str) × (r ≡ ok k) × IsAbove k l

key_over-IsAbove : (l : List Object) → AllKeys l → FindsAbove l (key_over l)
unfolding generate_key_between validate_order_key get_integer_part get_integer_length check_digits
    digit_index
key_over-IsAbove [] h = (bytes "a0", refl, (refl, tt))
key_over-IsAbove (o ∷ l) h =
    let top = max_order o.order l in
    let (own, rest) = max_order-IsTop o.order l in
    let (k, run, between) =
      generate-IsKeyBetween (some top) none (max_order-IsKey o.order l h.0 h.1) tt tt in
    let above : All (λ (x : Object). str_lt x.order k ≡ true) l =
      All-map (λ (x : Object). AtLeast top x.order) (λ (x : Object). str_lt x.order k ≡ true) l
        (λ x le. lt_of_le_lt x.order top k le between.above) rest in
    (
      k,
      ap or_first run,
      (generate-IsKey top none k run, (lt_of_le_lt o.order top k own between.above, above)),
    )

-- In a scene whose order keys are valid, the key for a new object on top is found without an error or
-- a panic; it is valid and above the key of every object.
pub next_order_key-FindsAbove :
    (scene : ObjectScene) → AllKeys scene.objects → FindsAbove scene.objects (next_order_key scene)
unfolding next_order_key
next_order_key-FindsAbove scene h = key_over-IsAbove scene.objects h
