-- ===== src/Decimal.antt =====
-- Decimal printing: `str(n)`, and the format `{n:04d}` of the ids that the managers hand out.
pub mod Injective
use Prim.Native.Char.{code}
use Prim.Native.String.{count, [], ◌∷◌}
use computational_governance.Prelude.{
  ℕ, ℤ, pos, negsuc, zero, suc, ◌+◌, ◌-◌, ◌*◌, ◌/◌, ◌%◌, String, ◌<>◌, ltb, if◌then◌else◌,
}

abbrev pub digit : ℕ → String
digit zero = "0"
digit (suc zero) = "1"
digit (suc (suc zero)) = "2"
digit (suc (suc (suc zero))) = "3"
digit (suc (suc (suc (suc zero)))) = "4"
digit (suc (suc (suc (suc (suc zero))))) = "5"
digit (suc (suc (suc (suc (suc (suc zero)))))) = "6"
digit (suc (suc (suc (suc (suc (suc (suc zero))))))) = "7"
digit (suc (suc (suc (suc (suc (suc (suc (suc zero)))))))) = "8"
digit _ = "9"

-- The fuel bounds the number of digits: `n + 1` is enough, since each digit divides by ten.
unfoldable pub digits : ℕ → ℕ → String
digits zero n = ""
digits (suc fuel) n =
    let rest = digits fuel (n / 10) in if ltb n 10 then digit n else rest <> digit (n % 10)

-- `str(n)`
unfoldable pub str : ℕ → String
unfolding digits
str n = digits (suc n) n

-- A text behind zeros, to a width of four.
unfoldable pub zero_fill : String → String
zero_fill s =
    if ltb (count s) 2
    then "000" <> s
    else if ltb (count s) 3
    then "00" <> s
    else if ltb (count s) 4
    then "0" <> s
    else s

-- `"{n:04d}".format(n)`
unfoldable pub pad4 : ℕ → String
unfolding zero_fill
pad4 n = zero_fill (str n)

-- `str(n)` of a signed integer
unfoldable pub str_int : ℤ → String
unfolding str
str_int (pos n) = str n
str_int (negsuc n) = "-" <> str (suc n)

-- `repr(s)` of a text without quotes, backslashes and control characters
abbrev pub repr : String → String
repr s = "'" <> s <> "'"

-- `int(s)` of a text of digits, behind a number that is already read.
abbrev pub read : ℕ → String → ℕ
read acc [] = acc
read acc (c ∷ s) = read (acc * 10 + (code c - 48)) s
