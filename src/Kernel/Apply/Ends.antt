-- ===== src/Kernel/Apply/Ends.antt =====
-- What holds of the scene and the inverse that an operation ends with, by the steps of its code.
use mathlib.Core.Path.{subst}
use shape_ai.Common.{◌≡◌, Bool, true, false, if◌then◌else◌}
use shape_ai.Common.Result.{Result, ok, err, ◌>>=◌}
use shape_ai.Kernel.Model.{ObjectScene}
use shape_ai.Kernel.Op.{ObjectOp}
use shape_ai.Kernel.Edit.{ApplyError, Applied}

-- An error, or a scene with the property.
pub record Ends (P : ObjectScene → ObjectOp → Type 0) (r : Applied) : Type 0 where
  pub only : (s : ObjectScene) (inverse : ObjectOp) → r ≡ ok (s, inverse) → P s inverse

module _ {P : ObjectScene → ObjectOp → Type 0} where
  pub settles : (s : ObjectScene) (inverse : ObjectOp) → P s inverse → Ends P (ok (s, inverse))
  settles s inverse h = record {
    only = λ s' i e.
        let scene_is : s ≡ s' = cc e in
        let inverse_is : inverse ≡ i = cc e in
        subst (λ t. P t i) scene_is (subst (P s) inverse_is h);
  }

  pub fails : (e : ApplyError) → Ends P (err e)
  fails e = record { only = λ s i h. cc h }

  pub after {ℓ} :
      {A : Type ℓ} (first : Result ApplyError A) (next : A → Applied)
      → ((a : A) → Ends P (next a))
      → Ends P (first >>= next)
  after (err e) next h = fails e
  after (ok a) next h = h a

  pub either : (b : Bool) (s t : Applied) → Ends P s → Ends P t → Ends P (if b then s else t)
  either true s t h k = h
  either false s t h k = k
