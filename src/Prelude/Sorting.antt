-- ===== src/Prelude/Sorting.antt =====
-- `sorted(xs, key=...)` and `min(xs, key=...)` for keys that are texts.
use mathlib.Core.Path.{◌≡◌, refl, sym, ap, ◌∙◌, subst}
use mathlib.Core.Bool.{Bool, true, false}
use mathlib.Core.Logic.{◌≢◌, ◌⊎◌, inl, inr}
use mathlib.Core.List.{List, [], ◌∷◌, Permᴰ}
use Prim.Native.String.{String}
use native.Mathlib.Omega.{arith}
use computational_governance.Prelude.Tests.{if◌then◌else◌}
use computational_governance.Prelude.Order.{str_le, str_le_total, str_le_trans, str_le_antisymm}
use computational_governance.Prelude.Lists.{In, All, keep}

Permᴰ_refl : {A : Type 0} (l : List A) → Permᴰ l l
Permᴰ_refl [] = Permᴰ.nil
Permᴰ_refl (x ∷ l) = Permᴰ.cons refl (Permᴰ_refl l)

All-Permᴰ {κ} : {A : Type 0} (P : A → Type κ) {xs ys : List A} → Permᴰ xs ys → All P xs → All P ys
All-Permᴰ P Permᴰ.nil h = h
All-Permᴰ P (Permᴰ.cons e p) h = (subst P e h.0, All-Permᴰ P p h.1)
All-Permᴰ P (Permᴰ.swap e e') h = (subst P e' h.1.0, (subst P e h.0, h.1.1))
All-Permᴰ P (Permᴰ.trans p q) h = All-Permᴰ P q (All-Permᴰ P p h)

module _ {A : Type 0} (key : A → String) where
  -- The place before the first element whose key is not smaller, so that sorting is stable.
  unfoldable pub insert_by : A → List A → List A
  insert_by x [] = x ∷ []
  insert_by x (y ∷ ys) = if str_le (key x) (key y) then x ∷ y ∷ ys else y ∷ insert_by x ys

  unfoldable pub sort_by : List A → List A
  unfolding insert_by
  sort_by [] = []
  sort_by (x ∷ xs) = insert_by x (sort_by xs)

  -- The first element with the smallest key, started from `best`.
  unfoldable pub min_from : A → List A → A
  min_from best [] = best
  min_from best (x ∷ xs) = min_from (if str_le (key best) (key x) then best else x) xs

  abbrev pub DistinctKeys : List A → Type 0
  DistinctKeys [] = Unit
  DistinctKeys (x ∷ xs) = All (λ y. key x ≢ key y) xs × DistinctKeys xs

  pub insert_by_comm :
      (x y : A) (l : List A)
      → key x ≢ key y
      → insert_by x (insert_by y l) ≡ insert_by y (insert_by x l)
  unfolding insert_by
  insert_by_comm x y [] ne =
      ground (arith, str_le_total (key x) (key y), str_le_antisymm (key x) (key y))
  insert_by_comm x y (z ∷ l) ne = ground (
    arith,
    str_le_total (key x) (key y),
    str_le_antisymm (key x) (key y),
    str_le_trans (key x) (key y) (key z),
    str_le_trans (key y) (key x) (key z),
    insert_by_comm x y l ne,
  )

  DistinctKeys-Permᴰ : {xs ys : List A} → Permᴰ xs ys → DistinctKeys xs → DistinctKeys ys
  DistinctKeys-Permᴰ Permᴰ.nil h = h
  DistinctKeys-Permᴰ (Permᴰ.cons {a} {l₂ = l₂} e p) h = (
    subst (λ b. All (λ y. key b ≢ key y) l₂) e (All-Permᴰ (λ y. key a ≢ key y) p h.0),
    DistinctKeys-Permᴰ p h.1,
  )
  DistinctKeys-Permᴰ (Permᴰ.swap {l = l} e e') h = (
    (
      λ q. h.0.0 (ap key e ∙ sym q ∙ sym (ap key e')),
      subst (λ b. All (λ y. key b ≢ key y) l) e' h.1.0,
    ),
    (subst (λ b. All (λ y. key b ≢ key y) l) e h.0.1, h.1.1),
  )
  DistinctKeys-Permᴰ (Permᴰ.trans p q) h = DistinctKeys-Permᴰ q (DistinctKeys-Permᴰ p h)

  -- Lists that are permutations of each other, with distinct keys, are sorted to the same list.
  pub sort_by-Permᴰ : {xs ys : List A} → Permᴰ xs ys → DistinctKeys xs → sort_by xs ≡ sort_by ys
  unfolding sort_by
  sort_by-Permᴰ Permᴰ.nil h = refl
  sort_by-Permᴰ (Permᴰ.cons e p) h = cc (e, sort_by-Permᴰ p h.1)
  sort_by-Permᴰ (Permᴰ.swap {a} {b} {l = l} e e') h =
      cc (insert_by_comm a b (sort_by l) h.0.0, e, e')
  sort_by-Permᴰ (Permᴰ.trans p q) h = sort_by-Permᴰ p h ∙ sort_by-Permᴰ q (DistinctKeys-Permᴰ p h)

  pub In-insert_by : (a x : A) (l : List A) → In a (insert_by x l) → (a ≡ x) ⊎ In a l
  unfolding insert_by
  In-insert_by a x [] m = m
  In-insert_by a x (y ∷ l) m = ground (arith, In-insert_by a x l)

  pub In-sort_by : (a : A) (l : List A) → In a (sort_by l) → In a l
  unfolding sort_by
  In-sort_by a [] m = m
  In-sort_by a (x ∷ l) m = ground (arith, In-insert_by a x (sort_by l), In-sort_by a l)

  insert_by-In : (a x : A) (l : List A) → (a ≡ x) ⊎ In a l → In a (insert_by x l)
  unfolding insert_by
  insert_by-In a x [] m = m
  insert_by-In a x (y ∷ l) m = ground (arith, insert_by-In a x l)

  pub sort_by-In : (a : A) (l : List A) → In a l → In a (sort_by l)
  unfolding sort_by
  sort_by-In a [] m = m
  sort_by-In a (x ∷ l) (inl e) = insert_by-In a x (sort_by l) (inl e)
  sort_by-In a (x ∷ l) (inr m) = insert_by-In a x (sort_by l) (inr (sort_by-In a l m))

  insert_by-Permᴰ : (x : A) (l : List A) → Permᴰ (x ∷ l) (insert_by x l)
  unfolding insert_by
  insert_by-Permᴰ x [] = Permᴰ.cons refl Permᴰ.nil
  insert_by-Permᴰ x (y ∷ l) = go (str_le (key x) (key y)) (insert_by-Permᴰ x l)
    where
      go :
          (b : Bool)
          → Permᴰ (x ∷ l) (insert_by x l)
          → Permᴰ (x ∷ y ∷ l) (if b then x ∷ y ∷ l else y ∷ insert_by x l)
      go true ih = Permᴰ_refl (x ∷ y ∷ l)
      go false ih = Permᴰ.trans (Permᴰ.swap refl refl) (Permᴰ.cons refl ih)

  pub sort_by_is_Permᴰ : (l : List A) → Permᴰ l (sort_by l)
  unfolding sort_by
  sort_by_is_Permᴰ [] = Permᴰ.nil
  sort_by_is_Permᴰ (x ∷ l) =
      Permᴰ.trans (Permᴰ.cons refl (sort_by_is_Permᴰ l)) (insert_by-Permᴰ x (sort_by l))

  pub All-sort_by {κ} : (P : A → Type κ) (l : List A) → All P l → All P (sort_by l)
  All-sort_by P l = All-Permᴰ P (sort_by_is_Permᴰ l)

  pub DistinctKeys-sort_by : (l : List A) → DistinctKeys l → DistinctKeys (sort_by l)
  DistinctKeys-sort_by l = DistinctKeys-Permᴰ (sort_by_is_Permᴰ l)

  pub min_from-In : (best : A) (l : List A) → In (min_from best l) (best ∷ l)
  unfolding min_from
  min_from-In best [] = inl refl
  min_from-In best (x ∷ l) =
      ground (arith, min_from-In (if str_le (key best) (key x) then best else x) l)

module _ {A : Type 0} where
  pub All-keep {κ} : (P : A → Type κ) (p : A → Bool) (l : List A) → All P l → All P (keep p l)
  All-keep P p [] h = h
  All-keep P p (x ∷ l) h = go (p x) (All-keep P p l h.1)
    where
      go : (b : Bool) → All P (keep p l) → All P (if b then x ∷ keep p l else keep p l)
      go true ih = (h.0, ih)
      go false ih = ih

  pub DistinctKeys-keep :
      (key : A → String) (p : A → Bool) (l : List A)
      → DistinctKeys key l
      → DistinctKeys key (keep p l)
  DistinctKeys-keep key p [] h = h
  DistinctKeys-keep key p (x ∷ l) h = go (p x) (DistinctKeys-keep key p l h.1)
    where
      go :
          (b : Bool)
          → DistinctKeys key (keep p l)
          → DistinctKeys key (if b then x ∷ keep p l else keep p l)
      go true ih = (All-keep (λ y. key x ≢ key y) p l h.0, ih)
      go false ih = ih
