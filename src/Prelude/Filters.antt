-- ===== src/Prelude/Filters.antt =====
-- How `any` reads through filtered, sorted and pointwise equal lists.
use mathlib.Core.Path.{◌≡◌, refl, ◌∙◌}
use mathlib.Core.Bool.{Bool, true, false, ◌&&◌, ◌||◌}
use mathlib.Core.Logic.{◌⊎◌, inl, inr}
use mathlib.Core.List.{List, [], ◌∷◌, ◌++◌}
use Prim.Native.String.{String}
use native.Mathlib.Omega.{arith}
use computational_governance.Prelude.Lists.{In, any, keep}
use computational_governance.Prelude.Sorting.{sort_by, insert_by}

module _ {A : Type 0} where
  abbrev pub nonempty : List A → Bool
  nonempty [] = false
  nonempty (x ∷ xs) = true

  pub nonempty-keep : (p : A → Bool) (xs : List A) → nonempty (keep p xs) ≡ any p xs
  nonempty-keep p [] = refl
  nonempty-keep p (x ∷ xs) = ground (arith, nonempty-keep p xs)

  pub any-true : (xs : List A) → any (λ x. true) xs ≡ nonempty xs
  any-true [] = refl
  any-true (x ∷ xs) = refl

  pub any-keep : (p q : A → Bool) (xs : List A) → any p (keep q xs) ≡ any (λ x. q x && p x) xs
  any-keep p q [] = refl
  any-keep p q (x ∷ xs) = ground (arith, any-keep p q xs)

  pub any_cong :
      (p q : A → Bool) (xs : List A) → ((x : A) → In x xs → p x ≡ q x) → any p xs ≡ any q xs
  any_cong p q [] h = refl
  any_cong p q (x ∷ xs) h = ground (arith, h x (inl refl), any_cong p q xs (λ y m. h y (inr m)))

  pub any-sort_by :
      (p : A → Bool) (key : A → String) (xs : List A) → any p (sort_by key xs) ≡ any p xs
  unfolding sort_by
  any-sort_by p key [] = refl
  any-sort_by p key (x ∷ xs) = any-insert x (sort_by key xs) ∙ ground (arith, any-sort_by p key xs)
    where
      any-insert : (y : A) (ys : List A) → any p (insert_by key y ys) ≡ (p y || any p ys)
      any-insert y [] = refl
      any-insert y (z ∷ ys) = ground (arith, any-insert y ys)

  pub In-keep : (p : A → Bool) (a : A) (xs : List A) → In a (keep p xs) → In a xs
  In-keep p a [] m = m
  In-keep p a (x ∷ xs) m = ground (arith, In-keep p a xs)

  pub keep-holds : (p : A → Bool) (a : A) (xs : List A) → In a (keep p xs) → p a ≡ true
  keep-holds p a [] m = absurd m
  keep-holds p a (x ∷ xs) m = ground (arith, keep-holds p a xs)

  pub keep-In : (p : A → Bool) (a : A) (xs : List A) → In a xs → p a ≡ true → In a (keep p xs)
  keep-In p a [] m h = m
  keep-In p a (x ∷ xs) (inl e) h = ground arith
  keep-In p a (x ∷ xs) (inr m) h = ground (arith, keep-In p a xs m h)

  -- A member of a list with an element added at its end.
  pub In-snoc : (a b : A) (xs : List A) → In a (xs ++ b ∷ []) → (a ≡ b) ⊎ In a xs
  In-snoc a b [] m = m
  In-snoc a b (x ∷ xs) (inl e) = inr (inl e)
  In-snoc a b (x ∷ xs) (inr m) = elim (In-snoc a b xs m) [ inl e ↦ inl e | inr n ↦ inr (inr n) ]
