-- ===== src/Decimal/Injective.antt =====
-- Printing numbers in decimal loses nothing: the digits read back to the number.
use Prim.Native.Char.{code}
use Prim.Native.String.append
use Prim.Native.String.{[], ◌∷◌}
use text.Mathlib.TextLemmas.{append_cancel_left}
use computational_governance.Prelude.{
  ℕ, zero, suc, ◌+◌, ◌-◌, ◌*◌, ◌/◌, ◌%◌, ◌<◌, String, ◌≡◌, refl, sym, ap, ◌∙◌, arith, ltb,
  if◌then◌else◌, ◌<>◌, Bool, true, false,
}
use computational_governance.Decimal.{read, digit, digits, str, zero_fill, pad4}

read-append : (acc : ℕ) (s t : String) → read acc (s <> t) ≡ read (read acc s) t
read-append acc [] t = ap (read acc) (append.nil t)
read-append acc (c ∷ s) t =
    ap (read acc) (append.cons c s t) ∙ read-append (acc * 10 + (code c - 48)) s t

read-digit : (acc d : ℕ) → d < 10 → read acc (digit d) ≡ acc * 10 + d
read-digit acc zero h = refl
read-digit acc (suc zero) h = refl
read-digit acc (suc (suc zero)) h = refl
read-digit acc (suc (suc (suc zero))) h = refl
read-digit acc (suc (suc (suc (suc zero)))) h = refl
read-digit acc (suc (suc (suc (suc (suc zero))))) h = refl
read-digit acc (suc (suc (suc (suc (suc (suc zero)))))) h = refl
read-digit acc (suc (suc (suc (suc (suc (suc (suc zero))))))) h = refl
read-digit acc (suc (suc (suc (suc (suc (suc (suc (suc zero)))))))) h = refl
read-digit acc (suc (suc (suc (suc (suc (suc (suc (suc (suc zero))))))))) h = refl
read-digit acc (suc (suc (suc (suc (suc (suc (suc (suc (suc (suc d)))))))))) h =
    absurd (omega arith)

read-digits : (fuel n : ℕ) → n < fuel → read 0 (digits fuel n) ≡ n
unfolding digits
read-digits zero n h = absurd (omega arith)
read-digits (suc fuel) n h = go (read-digits fuel (n / 10)) (ltb n 10) refl
  where
    go :
        (n / 10 < fuel → read 0 (digits fuel (n / 10)) ≡ n / 10)
        → (b : Bool) → ltb n 10 ≡ b
        → read 0 (if b then digit n else digits fuel (n / 10) <> digit (n % 10)) ≡ n
    go ih true e = read-digit 0 n (ground arith) ∙ omega arith
    go ih false e =
        read-append 0 (digits fuel (n / 10)) (digit (n % 10))
        ∙ read-digit (read 0 (digits fuel (n / 10))) (n % 10) (omega arith)
        ∙ omega (arith, ih (ground arith))

read-zero_fill : (s : String) → read 0 (zero_fill s) ≡ read 0 s
unfolding zero_fill
read-zero_fill s = ground (arith, read-append 0 "000" s, read-append 0 "00" s, read-append 0 "0" s)

-- Reading a padded number gives it back.
pub read-pad4 : (n : ℕ) → read 0 (pad4 n) ≡ n
unfolding pad4 str
read-pad4 n = read-zero_fill (str n) ∙ read-digits (suc n) n (omega arith)

-- Different numbers have different ids: `{n:04d}` is injective.
pub pad4-injective : (m n : ℕ) → pad4 m ≡ pad4 n → m ≡ n
pad4-injective m n e = sym (read-pad4 m) ∙ ap (read 0) e ∙ read-pad4 n

-- So are ids with a common prefix.
pub prefixed-injective : (p : String) (m n : ℕ) → p <> pad4 m ≡ p <> pad4 n → m ≡ n
prefixed-injective p m n e = pad4-injective m n (append_cancel_left p (pad4 m) (pad4 n) e)
