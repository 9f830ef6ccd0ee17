-- ===== src/Prelude/Text.antt =====
-- Python's `==`, `in` and `<` on texts, and decimal printing.
use Prim.Native.String
use Prim.Native.String.{String}
use mathlib.Core.Path.{◌≡◌}
use mathlib.Core.Logic.{◌≢◌, ite, dite}
use mathlib.Core.Bool.{Bool, true, false, ◌||◌, Bool-discrete}
use mathlib.Core.List.{List, [], ◌∷◌}
use native.Mathlib.Omega.{arith}
use text.Mathlib.Text
use text.Mathlib.TextEquality.{eq_iff}
use computational_governance.Prelude.Tests.{if◌then◌else◌}
use computational_governance.Prelude.Lists.{In}

-- Shut in proofs: a split on `s == t` yields the equation or its negation.
unfoldable pub str_dec : Discrete String
str_dec s t =
    dite (Bool-discrete (Text.◌==◌ s t) true) (λ same. yes ((eq_iff s t).0 same))
      (λ differ. no (λ p. differ ((eq_iff s t).1 p)))

infix 50 ◌==◌
abbrev pub ◌==◌ : String → String → Bool
s == t = ite (str_dec s t) true false

pub ==_refl : (s : String) → (s == s) ≡ true
==_refl s = ground arith

pub ==_false : (s t : String) → s ≢ t → (s == t) ≡ false
==_false s t h = ground arith

-- `a in xs`
abbrev pub contains : List String → String → Bool
contains [] a = false
contains (x ∷ xs) a = a == x || contains xs a

pub contains-In : (xs : List String) (a : String) → contains xs a ≡ true → In a xs
contains-In [] a h = absurd (cc)
contains-In (x ∷ xs) a h = ground (arith, contains-In xs a)

-- `len(set(xs)) == len(xs)`
abbrev pub distinct : List String → Bool
distinct [] = true
distinct (x ∷ xs) = if contains xs x then false else distinct xs

-- `set(xs).issubset(ys)`
abbrev pub subset : List String → List String → Bool
subset [] ys = true
subset (x ∷ xs) ys = if contains ys x then subset xs ys else false

-- The concatenation of texts.
infixr 65 ◌<>◌
abbrev pub ◌<>◌ : String → String → String
s <> t = String.◌++◌ s t

pub subset-contains :
    (xs ys : List String) (a : String)
    → subset xs ys ≡ true
    → contains xs a ≡ true
    → contains ys a ≡ true
subset-contains [] ys a h k = absurd (cc)
subset-contains (x ∷ xs) ys a h k = ground (arith, subset-contains xs ys a)

-- A set of texts as a list without repetition: `xs.add(a)` and `xs.update(ys)`.
unfoldable pub add : String → List String → List String
add a xs = if contains xs a then xs else a ∷ xs

unfoldable pub update : List String → List String → List String
unfolding add
update xs [] = xs
update xs (y ∷ ys) = update (add y xs) ys

pub contains-add :
    (a b : String) (xs : List String)
    → contains (add b xs) a ≡ (if a == b then true else contains xs a)
unfolding add
contains-add a b xs = ground arith
