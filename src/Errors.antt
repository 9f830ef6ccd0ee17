-- ===== src/Errors.antt =====
-- The exceptions that the package raises, as values: the class of each and its message.
use computational_governance.Decimal.{str, repr}
use computational_governance.Prelude.{ℕ, ◌<>◌, arith, refl, String, ◌≡◌, Bool, true, false}

pub data Exception : Type 0 where
  value_error : String → Exception
  type_error : String → Exception
  recursion_error : Exception
  inheritance_error : String → Exception
  compile_error : String → String → Exception
  delegation_error : String → Exception
  approval_error : String → Exception
  runtime_adapter_error : String → Exception
  identity_error : String → Exception
  versioning_error : String → Exception
  lifecycle_error : String → Exception
  parse_error : ℕ → String → Exception
  key_error : String → Exception
  index_error : Exception

-- `str(exc)`
abbrev pub message : Exception → String
message (value_error m) = m
message (type_error m) = m
message recursion_error = "maximum recursion depth exceeded"
message (inheritance_error m) = m
message (compile_error code m) = code <> ": " <> m
message (delegation_error m) = m
message (approval_error m) = m
message (runtime_adapter_error m) = m
message (identity_error m) = m
message (versioning_error m) = m
message (lifecycle_error m) = m
message (parse_error line_no m) = "line " <> str line_no <> ": " <> m
message (key_error k) = repr k
message index_error = "list index out of range"

-- A computation that returns or raises.
pub data Try {ℓ} (A : Type ℓ) : Type ℓ where
  ok : A → Try A
  raise : Exception → Try A

infixl 10 ◌>>=◌ ◌>>◌
abbrev pub ◌>>=◌ {ℓ κ} : {A : Type ℓ} {B : Type κ} → Try A → (A → Try B) → Try B
ok a >>= f = f a
raise e >>= f = raise e

abbrev pub and_then : {A B : Type 0} → Try A → (A → Try B) → Try B
and_then m f = m >>= f

abbrev pub ◌>>◌ {ℓ} : {B : Type ℓ} → Try (Unit {0}) → Try B → Try B
m >> k = m >>= λ _. k

-- `if test: raise e`
abbrev pub refuse_if : Bool → Exception → Try (Unit {0})
refuse_if true e = raise e
refuse_if false e = ok tt

-- A computation that returns without raising.
abbrev pub Returns : {A : Type 0} → Try A → Type 0
Returns {A} m = (a : A) × (m ≡ ok a)

pub ok-injective : {A : Type 0} (a b : A) → ok a ≡ ok b → a ≡ b
ok-injective a b h = cc

-- A sequence that returned: its first part returned a value, on which the rest returned.
pub both_return :
    {A B : Type 0} (first : Try A) (rest : A → Try B) (result : B)
    → (first >>= rest) ≡ ok result
    → (value : A) × (rest value ≡ ok result) × (first ≡ ok value)
both_return (raise problem) rest result done = absurd (ground arith)
both_return (ok value) rest result done = (value, done, refl)
