-- ===== src/Lifecycle/Monad.antt =====
-- Methods of the lifecycle manager: they change it, and return or raise. What was changed before an
-- exception stays changed.
use computational_governance.Prelude.{◌≡◌, refl, Bool, true, false, arith}
use computational_governance.Errors.{Exception, Try, ok, raise}
use computational_governance.Lifecycle.{PolicyLifecycleManager}

abbrev pub M : Type 0 → Type 0
M A = PolicyLifecycleManager → PolicyLifecycleManager × Try A

abbrev pub continue_with :
    {A B : Type 0} → (A → M B) → PolicyLifecycleManager × Try A → PolicyLifecycleManager × Try B
continue_with f (s, ok a) = f a s
continue_with f (s, raise e) = (s, raise e)

infixl 5 ◌>>=◌ ◌>>◌
unfoldable pub ◌>>=◌ : {A B : Type 0} → M A → (A → M B) → M B
◌>>=◌ m f s = continue_with f (m s)

abbrev pub ◌>>◌ : {B : Type 0} → M (Unit {0}) → M B → M B
m >> k = m >>= λ _. k

abbrev pub lift : {A : Type 0} → Try A → M A
lift t s = (s, t)

abbrev pub pure : {A : Type 0} → A → M A
pure a s = (s, ok a)

abbrev pub gets : {A : Type 0} → (PolicyLifecycleManager → A) → M A
gets f s = (s, ok (f s))

abbrev pub modify : (PolicyLifecycleManager → PolicyLifecycleManager) → M (Unit {0})
modify f s = (f s, ok tt)

-- `if test: raise e`
abbrev pub fail_if : Bool → Exception → M (Unit {0})
fail_if true e s = (s, raise e)
fail_if false e s = (s, ok tt)

-- A method that returned: its first part did, and the rest did on what it left.
pub both_returned :
    {A B : Type 0} (m : M A) (f : A → M B) (s : PolicyLifecycleManager) (b : B)
    → ((m >>= f) s).1 ≡ ok b
    → (a : A) × ((m s).1 ≡ ok a) × ((f a (m s).0).1 ≡ ok b) × ((m >>= f) s ≡ f a (m s).0)
unfolding ◌>>=◌
both_returned {A} {B} m f s b h = go (m s) h
  where
    go :
        (p : PolicyLifecycleManager × Try A)
        → (continue_with f p).1 ≡ ok b
        → (a : A) × (p.1 ≡ ok a) × ((f a p.0).1 ≡ ok b) × (continue_with f p ≡ f a p.0)
    go (t, ok a) h = (a, refl, h, refl)
    go (t, raise e) h = absurd (ground arith)

-- An invariant of both parts is one of the whole.
pub both_keep :
    {A B : Type 0} (P : PolicyLifecycleManager → Type 0) (m : M A) (f : A → M B)
    → ((s : PolicyLifecycleManager) → P s → P (m s).0)
    → ((a : A) (s : PolicyLifecycleManager) → P s → P (f a s).0)
    → (s : PolicyLifecycleManager) → P s
    → P ((m >>= f) s).0
unfolding ◌>>=◌
both_keep {A} {B} P m f keep_m keep_f s h = go (m s) (keep_m s h)
  where
    go : (p : PolicyLifecycleManager × Try A) → P p.0 → P (continue_with f p).0
    go (t, ok a) h = keep_f a t h
    go (t, raise e) h = h
