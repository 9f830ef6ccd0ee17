-- ===== src/Prelude/Lists.antt =====
-- Lists measured by native numbers, the tests `any` and `all`, and predicates on lists.
use Prim.Native.Nat.{ℕ, suc, ◌+◌}
use mathlib.Core.Path.{◌≡◌, refl}
use mathlib.Core.Logic.{◌⊎◌, inl, inr}
use mathlib.Core.Bool.{Bool, true, false, ◌&&◌, ◌||◌}
use mathlib.Core.List.{List, [], ◌∷◌, ◌++◌}
use native.Mathlib.Omega.{arith}
use computational_governance.Prelude.Tests.{if◌then◌else◌}

-- Membership by recursion: it computes to a sum, which the tactics take apart.
abbrev pub In : {A : Type 0} → A → List A → Type 0
In a [] = ⊥
In a (x ∷ xs) = (a ≡ x) ⊎ In a xs

abbrev pub All {κ} : {A : Type 0} → (A → Type κ) → List A → Type κ
All P [] = Unit
All P (x ∷ xs) = P x × All P xs

module _ {A : Type 0} where
  abbrev pub length : List A → ℕ
  length [] = 0
  length (x ∷ xs) = suc (length xs)

  abbrev pub any : (A → Bool) → List A → Bool
  any p [] = false
  any p (x ∷ xs) = p x || any p xs

  abbrev pub all : (A → Bool) → List A → Bool
  all p [] = true
  all p (x ∷ xs) = p x && all p xs

  -- `[x for x in xs if p(x)]`
  abbrev pub keep : (A → Bool) → List A → List A
  keep p [] = []
  keep p (x ∷ xs) = let rest = keep p xs in if p x then x ∷ rest else rest

  pub length-append : (xs ys : List A) → length (xs ++ ys) ≡ length xs + length ys
  length-append [] ys = omega arith
  length-append (x ∷ xs) ys = omega (arith, length-append xs ys)

  pub All-In {κ} :
      (P : A → Type κ) (a : A) (xs : List A)
      → ((x : A) → a ≡ x → P x → P a)
      → All P xs
      → In a xs
      → P a
  All-In P a [] move h m = absurd m
  All-In P a (x ∷ xs) move h (inl e) = move x e h.0
  All-In P a (x ∷ xs) move h (inr m) = All-In P a xs move h.1 m

  pub any-In : (p : A → Bool) (xs : List A) → any p xs ≡ true → (a : A) × In a xs × (p a ≡ true)
  any-In p [] h = absurd (cc)
  any-In p (x ∷ xs) h = go (p x) refl (any-In p xs)
    where
      go :
          (b : Bool)
          → p x ≡ b
          → (any p xs ≡ true → (a : A) × In a xs × (p a ≡ true))
          → (a : A) × In a (x ∷ xs) × (p a ≡ true)
      go true e ih = (x, inl refl, e)
      go false e ih = let (a, m, q) = ih (ground arith) in (a, inr m, q)

  pub All-map {κ ι} :
      (P : A → Type κ) (Q : A → Type ι) (xs : List A) → ((x : A) → P x → Q x) → All P xs → All Q xs
  All-map P Q [] f h = tt
  All-map P Q (x ∷ xs) f h = (f x h.0, All-map P Q xs f h.1)
