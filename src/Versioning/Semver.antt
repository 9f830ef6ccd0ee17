-- ===== src/Versioning/Semver.antt =====
-- governance/versioning.py: `_version_key`, stable semantic versions and their order.
use Prim.Native.Char.{code}
use computational_governance.Prelude.{
  ℕ, String, Bool, true, false, ◌&&◌, Option, none, some, List, [], ◌∷◌, if◌then◌else◌, ◌<>◌, ltb,
  eqb,
}
use computational_governance.Strip.{split_on}
use computational_governance.Decimal.{read, repr}
use computational_governance.Audit.Log.{is_digit, all_digits}
use computational_governance.Errors.{versioning_error, Try, ok, raise}

-- The parts between the dots.
unfoldable pub split_dots : String → List String
unfolding split_on
split_dots s = split_on 46 s

-- `0|[1-9][0-9]*`
unfoldable pub numeric_part : String → Option ℕ
unfolding all_digits
numeric_part String.[] = none
numeric_part (String.◌∷◌ c String.[]) = if is_digit c then some (read 0 (String.◌∷◌ c "")) else none
numeric_part (String.◌∷◌ c (String.◌∷◌ d s)) =
    if eqb (code c) 48
    then none
    else if all_digits (String.◌∷◌ c (String.◌∷◌ d s))
    then some (read 0 (String.◌∷◌ c (String.◌∷◌ d s)))
    else none

pub record Version : Type 0 where
  pub major : ℕ
  pub minor : ℕ
  pub patch : ℕ

abbrev of_numbers : Option ℕ → Option ℕ → Option ℕ → Option Version
of_numbers (some a) (some b) (some c) = some (record { major = a; minor = b; patch = c })
of_numbers _ _ _ = none

unfoldable pub of_parts : List String → Option Version
unfolding numeric_part
of_parts (a ∷ b ∷ c ∷ []) = of_numbers (numeric_part a) (numeric_part b) (numeric_part c)
of_parts _ = none

abbrev pub stable : String → Option Version → Try Version
stable value none =
    raise (versioning_error ("policy version must be stable semver, got " <> repr value))
stable value (some v) = ok v

-- `_version_key`
unfoldable pub version_key : String → Try Version
unfolding split_dots of_parts
version_key value = stable value (of_parts (split_dots value))

-- `<` on the triples
abbrev pub version_lt : Version → Version → Bool
version_lt a b =
    if ltb a.major b.major
    then true
    else if ltb b.major a.major
    then false
    else if ltb a.minor b.minor
    then true
    else if ltb b.minor a.minor
    then false
    else ltb a.patch b.patch

abbrev pub version_eq : Version → Version → Bool
version_eq a b = eqb a.major b.major && (eqb a.minor b.minor && eqb a.patch b.patch)
