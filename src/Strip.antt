-- ===== src/Strip.antt =====
-- Python's methods of texts, on ASCII: `strip`, `split`, `partition`, `splitlines`, and comparisons that
-- ignore the case of letters.
use Prim.Native.Char.{Char, code}
use Prim.Native.String.{[], ◌∷◌}
use computational_governance.Prelude.{
  ℕ, ◌-◌, String, Bool, false, ◌&&◌, ◌||◌, not, if◌then◌else◌, ◌==◌, leb, eqb, Option, none, some,
  List,
}

abbrev pub is_space : Char → Bool
is_space c = (leb 9 (code c) && leb (code c) 13) || (leb 28 (code c) && leb (code c) 32)

unfoldable pub strip_start : String → String
strip_start [] = []
strip_start (c ∷ s) = let rest = strip_start s in if is_space c then rest else c ∷ s

unfoldable pub strip_end : String → String
strip_end [] = []
strip_end (c ∷ s) = let rest = strip_end s in if is_space c && rest == "" then [] else c ∷ rest

unfoldable pub strip : String → String
unfolding strip_start strip_end
strip s = strip_end (strip_start s)

abbrev pub push : Char → List String → List String
push c List.[] = List.◌∷◌ (c ∷ "") List.[]
push c (List.◌∷◌ s ss) = List.◌∷◌ (c ∷ s) ss

-- `s.split(c)`, for the character with this code
unfoldable pub split_on : ℕ → String → List String
split_on n [] = List.◌∷◌ "" List.[]
split_on n (c ∷ s) =
    let rest = split_on n s in if eqb (code c) n then List.◌∷◌ "" rest else push c rest

abbrev with_first : Char → Option (String × String) → Option (String × String)
with_first c none = none
with_first c (some (key, value)) = some (c ∷ key, value)

-- `s.partition(c)` where `c` is in `s`: what stands before and after the first one.
unfoldable pub partition_on : ℕ → String → Option (String × String)
partition_on n [] = none
partition_on n (c ∷ s) =
    let rest = partition_on n s in if eqb (code c) n then some ("", s) else with_first c rest

-- The line breaks of `splitlines`.
abbrev pub is_break : Char → Bool
is_break c = (leb 10 (code c) && leb (code c) 13) || (leb 28 (code c) && leb (code c) 30)

abbrev starts_feed : String → Bool
starts_feed [] = false
starts_feed (c ∷ s) = eqb (code c) 10

-- `s.splitlines()`: a carriage return and a line feed are one break.
unfoldable pub split_lines : String → List String
split_lines [] = List.[]
split_lines (c ∷ s) =
    let rest = split_lines s in
    if not (is_break c)
    then push c rest
    else if eqb (code c) 13 && starts_feed s
    then rest
    else List.◌∷◌ "" rest

abbrev pub upper_code : Char → ℕ
upper_code c = if leb 97 (code c) && leb (code c) 122 then code c - 32 else code c

-- What follows a prefix, whatever the case of the letters.
unfoldable pub after_any_case : String → String → Option String
after_any_case [] s = some s
after_any_case (c ∷ p) [] = none
after_any_case (c ∷ p) (d ∷ s) =
    if eqb (upper_code c) (upper_code d) then after_any_case p s else none

abbrev no_rest : Option String → Bool
no_rest none = false
no_rest (some s) = s == ""

-- The texts are equal, whatever the case of the letters.
abbrev pub same_any_case : String → String → Bool
same_any_case s t = no_rest (after_any_case s t)
