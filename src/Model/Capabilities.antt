-- ===== src/Model/Capabilities.antt =====
-- The capability hierarchy of governance/model.py is a preorder.
use mathlib.Core.Path.{subst}
use text.Mathlib.TextBridge.{IsPrefix}
use text.Mathlib.TextEquality.{starts_with_iff}
use text.Mathlib.TextLemmas.{append_assoc}
use computational_governance.Prelude.{String, ◌≡◌, refl, sym, ◌⊎◌, inl, inr, true, arith, ◌<>◌}
use computational_governance.Model.{Capability, is_descendant_of}

-- What the test decides: the same name, or a name below it.
abbrev Below : String → String → Type 0
Below c p = (c ≡ p) ⊎ IsPrefix (p <> ".") c

is_descendant_of-Below : (c p : Capability) → is_descendant_of c p ≡ true → Below c.name p.name
unfolding is_descendant_of
is_descendant_of-Below c p h = ground (arith, starts_with_iff c.name (p.name <> "."))

Below-is_descendant_of : (c p : Capability) → Below c.name p.name → is_descendant_of c p ≡ true
unfolding is_descendant_of
Below-is_descendant_of c p h = ground (arith, starts_with_iff c.name (p.name <> "."))

Below-trans : (a b c : String) → Below a b → Below b c → Below a c
Below-trans a b c (inl e) k = subst (λ x. Below x c) (sym e) k
Below-trans a b c (inr (u, e)) (inl k) = subst (λ x. Below a x) k (inr (u, e))
Below-trans a b c (inr (u, e)) (inr (v, k)) =
    inr (v <> ("." <> u), cc (append_assoc (c <> ".") v ("." <> u), append_assoc b "." u, e, k))

-- A capability is its own descendant.
pub is_descendant_of_refl : (c : Capability) → is_descendant_of c c ≡ true
is_descendant_of_refl c = Below-is_descendant_of c c (inl refl)

-- A descendant of a descendant is a descendant.
pub is_descendant_of_trans :
    (a b c : Capability)
    → is_descendant_of a b ≡ true
    → is_descendant_of b c ≡ true
    → is_descendant_of a c ≡ true
is_descendant_of_trans a b c h k =
    Below-is_descendant_of a c (
      Below-trans a.name b.name c.name (is_descendant_of-Below a b h)
        (is_descendant_of-Below b c k))
