-- ===== src/Prelude/Fresh.antt =====
-- How many keys a search has not entered yet: the measure of the searches that keep a set.
use Prim.Native.Nat.{ℕ, suc, ◌<◌, ◌≤◌}
use Prim.Native.String.{String}
use mathlib.Core.Path.{◌≡◌}
use mathlib.Core.Bool.{false}
use mathlib.Core.Logic.{inl, inr}
use mathlib.Core.List.{List, [], ◌∷◌}
use native.Mathlib.Omega.{arith}
use computational_governance.Prelude.Tests.{if◌then◌else◌}
use computational_governance.Prelude.Lists.{In, length}
use computational_governance.Prelude.Text.{contains}

abbrev pub fresh : List String → List String → ℕ
fresh seen [] = 0
fresh seen (k ∷ ks) = let rest = fresh seen ks in if contains seen k then rest else suc rest

pub fresh-le :
    (seen : List String) (a : String) (ks : List String) → fresh (a ∷ seen) ks ≤ fresh seen ks
fresh-le seen a [] = omega arith
fresh-le seen a (k ∷ ks) = ground (arith, fresh-le seen a ks)

pub fresh-lt :
    (seen : List String) (a : String) (ks : List String)
    → In a ks
    → contains seen a ≡ false
    → fresh (a ∷ seen) ks < fresh seen ks
fresh-lt seen a [] m h = absurd m
fresh-lt seen a (k ∷ ks) (inl e) h = ground (arith, fresh-le seen a ks)
fresh-lt seen a (k ∷ ks) (inr m) h = ground (arith, fresh-lt seen a ks m h)

pub fresh-le-length : (seen ks : List String) → fresh seen ks ≤ length ks
fresh-le-length seen [] = omega arith
fresh-le-length seen (k ∷ ks) = ground (arith, fresh-le-length seen ks)
