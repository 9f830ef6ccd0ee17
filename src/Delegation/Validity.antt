-- ===== src/Delegation/Validity.antt =====
-- governance/delegation.py: `_valid_grant` beside chains of live grants.
use mathlib.Core.Path.{subst}
use mathlib.Core.Option.{some-injective}
use computational_governance.Prelude.{
  ℕ, zero, suc, ◌<◌, String, ◌≡◌, refl, sym, ap, ◌∙◌, ◌↔◌, inl, inr, Bool, true, false, Option,
  none, some, List, [], ◌∷◌, arith, In, contains, contains-In, lookup, keys, length, fresh,
  fresh-lt, fresh-le-length, lookup-keys, length-keys, IsNamed, IsNamed-lookup,
}
use computational_governance.Model.{Capability, is_descendant_of}
use computational_governance.Model.Capabilities.{is_descendant_of_refl, is_descendant_of_trans}
use computational_governance.Delegation.{Grant, Instant, DelegationGraph}
use computational_governance.Delegation.Graph.{
  intrinsic_has, is_live, extends, valid_parent, valid_found, valid_from, valid_grant,
}

-- A chain of live grants up to one whose grantor holds its capability intrinsically.
pub data Held (self : DelegationGraph) (now : Instant) : Grant → Type 0 where
  held_root :
      {g : Grant}
      → is_live self g now ≡ true
      → g.parent_grant_id ≡ none
      → intrinsic_has self g.from_actor g.capability ≡ true
      → Held self now g
  held_under :
      {g : Grant} (p : String) (parent : Grant)
      → is_live self g now ≡ true
      → g.parent_grant_id ≡ some p
      → lookup p self.grants ≡ some parent
      → extends g parent ≡ true
      → Held self now parent
      → Held self now g

module _ (self : DelegationGraph) (now : Instant) where
  out_of_rounds : (g : Grant) (seen : List String) → valid_from zero self g now seen ≡ false
  unfolding valid_from
  out_of_rounds g seen = refl

  valid_from-inv :
      (fuel : ℕ) (g : Grant) (seen : List String)
      → valid_from (suc fuel) self g now seen ≡ true
      → (is_live self g now ≡ true)
        × (valid_parent self g g.parent_grant_id
              (λ parent. valid_from fuel self parent now (g.id ∷ seen))
            ≡ true)
  unfolding valid_from
  valid_from-inv fuel g seen h = ground arith

  valid_from-Held :
      (fuel : ℕ) (g : Grant) (seen : List String)
      → valid_from fuel self g now seen ≡ true
      → Held self now g
  unfolding valid_parent valid_found
  valid_from-Held zero g seen h = absurd (ground (arith, out_of_rounds g seen))
  valid_from-Held (suc fuel) g seen h =
      let (live, up) = valid_from-inv fuel g seen h in
      parent_cases g.parent_grant_id refl live up
        (λ parent. valid_from-Held fuel parent (g.id ∷ seen))
    where
      found_cases :
          (p : String) (o : Option Grant)
          → g.parent_grant_id ≡ some p
          → lookup p self.grants ≡ o
          → is_live self g now ≡ true
          → valid_found g o (λ parent. valid_from fuel self parent now (g.id ∷ seen)) ≡ true
          → ((parent : Grant)
              → valid_from fuel self parent now (g.id ∷ seen) ≡ true
              → Held self now parent)
          → Held self now g
      found_cases p none e q live up ih = absurd (cc)
      found_cases p (some parent) e q live up ih =
          held_under p parent live e q (ground arith) (ih parent (ground arith))

      parent_cases :
          (o : Option String)
          → g.parent_grant_id ≡ o
          → is_live self g now ≡ true
          → valid_parent self g o (λ parent. valid_from fuel self parent now (g.id ∷ seen)) ≡ true
          → ((parent : Grant)
              → valid_from fuel self parent now (g.id ∷ seen) ≡ true
              → Held self now parent)
          → Held self now g
      parent_cases none e live up ih = held_root live e up
      parent_cases (some p) e live up ih = found_cases p (lookup p self.grants) e refl live up ih

  -- The ids that a walk up the chain has seen belong to grants of smaller depth.
  abbrev SeenBelow : List String → ℕ → Type 0
  SeenBelow seen d =
      (id : String) (x : Grant) → In id seen → lookup id self.grants ≡ some x → x.depth < d

  extends-depth : (g parent : Grant) → extends g parent ≡ true → g.depth < parent.depth
  unfolding extends
  extends-depth g parent h = ground arith

  not_seen :
      (g : Grant) (seen : List String)
      → lookup g.id self.grants ≡ some g
      → SeenBelow seen g.depth
      → contains seen g.id ≡ false
  not_seen g seen l below = go (contains seen g.id) refl
    where
      go : (b : Bool) → contains seen g.id ≡ b → contains seen g.id ≡ false
      go true e = absurd (omega (arith, below g.id g (contains-In seen g.id e) l))
      go false e = e

  module _ (named : IsNamed (λ (g : Grant). g.id) self.grants) where
    valid_from_complete :
        (fuel : ℕ) (g : Grant) (seen : List String)
        → Held self now g
        → lookup g.id self.grants ≡ some g
        → SeenBelow seen g.depth
        → fresh seen (keys self.grants) < fuel
        → valid_from fuel self g now seen ≡ true
    unfolding valid_from valid_parent valid_found
    valid_from_complete zero g seen h l below m = absurd (omega arith)
    valid_from_complete (suc fuel) g seen (held_root live e i) l below m =
        ground (arith, not_seen g seen l below)
    valid_from_complete (suc fuel) g seen (held_under p parent live e q ext h) l below m =
        ground (arith, unseen, valid_from_complete fuel parent (g.id ∷ seen) h (own q) above less)
      where
        unseen : contains seen g.id ≡ false
        unseen = not_seen g seen l below

        own : lookup p self.grants ≡ some parent → lookup parent.id self.grants ≡ some parent
        own q =
            subst (λ k. lookup k self.grants ≡ some parent)
              (sym (IsNamed-lookup (λ (x : Grant). x.id) p parent self.grants named q)) q

        above : SeenBelow (g.id ∷ seen) parent.depth
        above id x (inl same) k =
            let one : x ≡ g = ground arith in
            omega (arith, extends-depth g parent ext, ap (λ (y : Grant). y.depth) one)
        above id x (inr old) k = omega (arith, below id x old k, extends-depth g parent ext)

        less : fresh (g.id ∷ seen) (keys self.grants) < fuel
        less =
            omega (
              arith,
              fresh-lt seen g.id (keys self.grants) (lookup-keys g.id g self.grants l) unseen,
            )

    -- A stored grant is valid exactly when a live chain leads up to an intrinsic holder. In
    -- particular the walk's rounds are enough, and its test for a repeated grant refuses no chain.
    pub valid_grant_iff_Held :
        (g : Grant)
        → lookup g.id self.grants ≡ some g
        → (valid_grant self g now ≡ true) ↔ Held self now g
    unfolding valid_grant
    valid_grant_iff_Held g l = (
      λ h. valid_from-Held (suc (length self.grants)) g [] h,
      λ h.
          valid_from_complete (suc (length self.grants)) g [] h l (λ id x m k. absurd m)
            (omega (arith, fresh-le-length [] (keys self.grants), length-keys self.grants)),
    )

-- The origin of a chain: an intrinsic holder of a capability that covers the grant's.
pub record Origin (self : DelegationGraph) (g : Grant) : Type 0 where
  pub holder : String
  pub capability : Capability
  pub held : intrinsic_has self holder capability ≡ true
  pub covers : is_descendant_of g.capability capability ≡ true

Held-Origin : (self : DelegationGraph) (now : Instant) {g : Grant} → Held self now g → Origin self g
unfolding extends
Held-Origin self now (held_root {g} live e i) = record {
  holder = g.from_actor;
  capability = g.capability;
  held = i;
  covers = is_descendant_of_refl g.capability;
}
Held-Origin self now (held_under {g} p parent live e q ext h) =
    let o = Held-Origin self now h in
    record {
      holder = o.holder;
      capability = o.capability;
      held = o.held;
      covers =
          is_descendant_of_trans g.capability parent.capability o.capability (ground arith)
            o.covers;
    }

-- A valid grant never amplifies authority: somebody holds intrinsically a capability that covers
-- the capability of the grant.
pub valid_grant-Origin :
    (self : DelegationGraph) (now : Instant) (g : Grant)
    → valid_grant self g now ≡ true
    → Origin self g
unfolding valid_grant
valid_grant-Origin self now g h =
    Held-Origin self now (valid_from-Held self now (suc (length self.grants)) g [] h)

-- Soundness alone needs no invariant.
pub valid_grant-Held :
    (self : DelegationGraph) (now : Instant) (g : Grant)
    → valid_grant self g now ≡ true
    → Held self now g
unfolding valid_grant
valid_grant-Held self now g h = valid_from-Held self now (suc (length self.grants)) g [] h

pub Held-live :
    (self : DelegationGraph) (now : Instant) {g : Grant}
    → Held self now g
    → is_live self g now ≡ true
Held-live self now (held_root live e i) = live
Held-live self now (held_under p parent live e q ext h) = live

-- The parent of a held grant is held.
pub Held-parent :
    (self : DelegationGraph) (now : Instant) {g : Grant} (p : String) (parent : Grant)
    → Held self now g
    → g.parent_grant_id ≡ some p
    → lookup p self.grants ≡ some parent
    → Held self now parent
Held-parent self now p parent (held_root live e i) f l = absurd (ground arith)
Held-parent self now p parent (held_under p' parent' live e q ext h) f l =
    let same : parent' ≡ parent =
      ground (arith, ap (λ k. lookup k self.grants) (some-injective p' p (sym e ∙ f))) in
    subst (Held self now) same h
