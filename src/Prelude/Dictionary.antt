-- ===== src/Prelude/Dictionary.antt =====
-- Python's `dict` with text keys, in insertion order: `d[k] = v` keeps the place of a key that is
-- there and appends a new one.
use Prim.Native.Nat.{suc}
use mathlib.Core.Path.{◌≡◌, refl, ap}
use mathlib.Core.Logic.{◌⊎◌, inl, inr}
use mathlib.Core.Option.{Option, none, some}
use mathlib.Core.List.{List, [], ◌∷◌}
use Prim.Native.String.{String}
use native.Mathlib.Omega.{arith}
use computational_governance.Prelude.Tests.{if◌then◌else◌}
use computational_governance.Prelude.Text.{◌==◌}
use computational_governance.Prelude.Lists.{In, length}

abbrev pub Dict : Type 0 → Type 0
Dict V = List (String × V)

module _ {V : Type 0} where
  -- d.get(k)
  unfoldable pub lookup : String → Dict V → Option V
  lookup k [] = none
  lookup k ((j, v) ∷ d) = if k == j then some v else lookup k d

  -- d[k] = v
  unfoldable pub insert : String → V → Dict V → Dict V
  insert k v [] = (k, v) ∷ []
  insert k v ((j, w) ∷ d) = if k == j then (k, v) ∷ d else (j, w) ∷ insert k v d

  -- list(d.values())
  unfoldable pub values : Dict V → List V
  values [] = []
  values ((j, v) ∷ d) = v ∷ values d

  -- list(d)
  unfoldable pub keys : Dict V → List String
  keys [] = []
  keys ((j, v) ∷ d) = j ∷ keys d

  pub lookup-insert :
      (j k : String) (v : V) (d : Dict V)
      → lookup j (insert k v d) ≡ (if j == k then some v else lookup j d)
  unfolding insert lookup
  lookup-insert j k v [] = refl
  lookup-insert j k v ((i, w) ∷ d) = ground (arith, lookup-insert j k v d)

  pub lookup-insert_self : (k : String) (v : V) (d : Dict V) → lookup k (insert k v d) ≡ some v
  lookup-insert_self k v d = ground (arith, lookup-insert k k v d)

  -- A value that a key has is among the values.
  pub lookup-In : (k : String) (v : V) (d : Dict V) → lookup k d ≡ some v → In v (values d)
  unfolding lookup values
  lookup-In k v [] h = cc
  lookup-In k v ((j, w) ∷ d) h = ground (arith, lookup-In k v d)

  -- A key that is looked up successfully is among the keys.
  pub lookup-keys : (k : String) (v : V) (d : Dict V) → lookup k d ≡ some v → In k (keys d)
  unfolding lookup keys
  lookup-keys k v [] h = cc
  lookup-keys k v ((j, w) ∷ d) h = ground (arith, lookup-keys k v d)

  pub length-keys : (d : Dict V) → length (keys d) ≡ length d
  unfolding keys
  length-keys [] = refl
  length-keys ((j, w) ∷ d) = ap suc (length-keys d)

  -- Every entry stands under its own name, once.
  abbrev pub IsNamed : (V → String) → Dict V → Type 0
  IsNamed name [] = Unit
  IsNamed name ((j, w) ∷ d) = (name w ≡ j) × (lookup j d ≡ none) × IsNamed name d

  pub insert-IsNamed :
      (name : V → String) (v : V) (d : Dict V) → IsNamed name d → IsNamed name (insert (name v) v d)
  unfolding insert lookup
  insert-IsNamed name v [] h = (refl, refl, tt)
  insert-IsNamed name v ((j, w) ∷ d) h =
      ground (arith, insert-IsNamed name v d h.2, lookup-insert j (name v) v d)

  pub IsNamed-lookup :
      (name : V → String) (k : String) (v : V) (d : Dict V)
      → IsNamed name d
      → lookup k d ≡ some v
      → name v ≡ k
  unfolding lookup
  IsNamed-lookup name k v [] h e = cc
  IsNamed-lookup name k v ((j, w) ∷ d) h e = ground (arith, IsNamed-lookup name k v d h.2)

  pub IsNamed-values :
      (name : V → String) (v : V) (d : Dict V)
      → IsNamed name d
      → In v (values d)
      → lookup (name v) d ≡ some v
  unfolding lookup values
  IsNamed-values name v [] h m = absurd m
  IsNamed-values name v ((j, w) ∷ d) h (inl e) = ground arith
  IsNamed-values name v ((j, w) ∷ d) h (inr m) = ground (arith, IsNamed-values name v d h.2 m)

  -- What a dict holds after an assignment: the new entry, or an old one.
  pub insert-cases :
      (j k : String) (v w : V) (d : Dict V)
      → lookup j (insert k v d) ≡ some w
      → ((j ≡ k) × (w ≡ v)) ⊎ (lookup j d ≡ some w)
  insert-cases j k v w d h = ground (arith, lookup-insert j k v d)
