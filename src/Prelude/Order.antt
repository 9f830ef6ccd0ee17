-- ===== src/Prelude/Order.antt =====
-- The order of texts by code points is total, transitive and antisymmetric.
use Prim.Native.Nat.{Ordering}
use Prim.Native.String.compare as clause
use Prim.Native.String.{String, [], ◌∷◌, compare}
use mathlib.Core.Path.{◌≡◌, refl}
use mathlib.Core.Bool.{Bool, true, false}
use native.Mathlib.Omega.{arith}
use text.Mathlib.Text.{is_le}
use text.Mathlib.TextEquality.{path_by_compare}

-- `s <= t`
unfoldable pub str_le : String → String → Bool
str_le s t = is_le (compare s t)

abbrev flip : Ordering → Ordering
flip Ordering.lt = Ordering.gt
flip Ordering.eq = Ordering.eq
flip Ordering.gt = Ordering.lt

compare-flip : (s t : String) → compare t s ≡ flip (compare s t)
compare-flip [] [] = refl
compare-flip [] (d ∷ t) = ground (arith, clause.cons-nil d t, clause.nil-cons d t)
compare-flip (c ∷ s) [] = ground (arith, clause.nil-cons c s, clause.cons-nil c s)
compare-flip (c ∷ s) (d ∷ t) =
    ground (arith, clause.cons-cons c d s t, clause.cons-cons d c t s, compare-flip s t)

pub str_le_trans : (s t u : String) → str_le s t ≡ true → str_le t u ≡ true → str_le s u ≡ true
unfolding str_le
str_le_trans [] t [] h k = refl
str_le_trans [] t (e ∷ u) h k = ground (arith, clause.nil-cons e u)
str_le_trans (c ∷ s) [] u h k = ground (arith, clause.cons-nil c s)
str_le_trans (c ∷ s) (d ∷ t) [] h k = ground (arith, clause.cons-nil d t)
str_le_trans (c ∷ s) (d ∷ t) (e ∷ u) h k = ground (
  arith,
  clause.cons-cons c d s t,
  clause.cons-cons d e t u,
  clause.cons-cons c e s u,
  str_le_trans s t u,
)

pub str_le_total : (s t : String) → str_le s t ≡ false → str_le t s ≡ true
unfolding str_le
str_le_total s t h = ground (arith, compare-flip s t)

pub str_le_antisymm : (s t : String) → str_le s t ≡ true → str_le t s ≡ true → s ≡ t
unfolding str_le
str_le_antisymm s t h k = ground (arith, compare-flip s t, path_by_compare s t)
