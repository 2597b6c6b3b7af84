-- ===== src/Prelude/Decimal.antt =====
-- Decimal numbers as std::to_string writes and std::from_chars reads them. std::from_chars stops at
-- the first byte that is no digit, and fails where none stands in front or the value is out of range.
use Prim.Native.Nat.{ℕ, zero, suc, ◌+◌, ◌-◌, ◌*◌, ◌/◌, ◌%◌, ◌^◌, ◌<◌}
use mathlib.Core.Path.{◌≡◌, ◌∙◌}
use mathlib.Core.Logic.{inl, inr}
use mathlib.Core.Bool.{Bool, true, false, ◌&&◌}
use mathlib.Core.Option.{Option, none, some}
use mathlib.Core.List.{[], ◌∷◌, ◌++◌, append_assoc, append-nil}
use native.Mathlib.Omega.{arith}
use got_soup.Prelude.Tests.{ltb, leb, if◌then◌else◌, Bool-cases}
use got_soup.Prelude.Lists.{All, All-append}
use got_soup.Prelude.Text.{Bytes}
use got_soup.Prelude.Int.{ℤ, pos, negsuc, IsInt64, sub_ℕ}

abbrev pub is_digit : ℕ → Bool
is_digit c = leb b'0' c && leb c b'9'

unfoldable pub digits_value : ℕ → Bytes → ℕ
digits_value acc [] = acc
digits_value acc (c ∷ cs) = if is_digit c then digits_value (acc * 10 + (c - b'0')) cs else acc

abbrev pub starts_digit : Bytes → Bool
starts_digit [] = false
starts_digit (c ∷ _) = is_digit c

-- a value below `limit`, with no sign
unfoldable pub read_unsigned : ℕ → Bytes → Option ℕ
unfolding digits_value
read_unsigned limit b =
    if starts_digit b
    then (if ltb (digits_value 0 b) limit then some (digits_value 0 b) else none)
    else none

-- a value from -`limit` up to `limit` - 1, with an optional minus
unfoldable pub read_signed : ℕ → Bytes → Option ℤ
unfolding digits_value
read_signed limit [] = none
read_signed limit (c ∷ cs) =
    if leb c b'-' && leb b'-' c
    then (if starts_digit cs && leb (digits_value 0 cs) limit
        then some (sub_ℕ 0 (digits_value 0 cs))
        else none)
    else if is_digit c && ltb (digits_value 0 (c ∷ cs)) limit
    then some (pos (digits_value 0 (c ∷ cs)))
    else none

print_digits : ℕ → ℕ → Bytes
print_digits zero n = []
print_digits (suc f) n =
    let more = print_digits f (n / 10) ++ (b'0' + n % 10) ∷ [] in
    if ltb n 10 then (b'0' + n) ∷ [] else more

unfoldable pub print_ℕ : ℕ → Bytes
unfolding print_digits
print_ℕ n = print_digits (suc n) n

unfoldable pub print_ℤ : ℤ → Bytes
unfolding print_ℕ
print_ℤ (pos n) = print_ℕ n
print_ℤ (negsuc n) = b'-' ∷ print_ℕ (suc n)

digits_value-print_digits :
    (f n : ℕ) (rest : Bytes)
    → n < f
    → digits_value 0 (print_digits f n ++ rest) ≡ digits_value n rest
unfolding print_digits
digits_value-print_digits zero n rest h = elim h [ ]
digits_value-print_digits (suc f) n rest h = elim (Bool-cases (ltb n 10)) [
  | inl small ↦ rw small (unfold digits_value in ground arith)
  | inr large ↦ rw large (
      rw append_assoc (
        digits_value-print_digits f (n / 10) ((b'0' + n % 10) ∷ rest) (ground arith)
        ∙ unfold digits_value in ground arith))
]

print_digits-digits : (f n : ℕ) → All (λ c. is_digit c ≡ true) (print_digits f n)
unfolding print_digits
print_digits-digits zero n = tt
print_digits-digits (suc f) n = elim (Bool-cases (ltb n 10)) [
  | inl small ↦ rw small (ground arith, tt)
  | inr large ↦ rw large (
      All-append (λ (c : ℕ). is_digit c ≡ true) (print_digits f (n / 10)) ((b'0' + n % 10) ∷ [])
        (print_digits-digits f (n / 10)) (ground arith, tt))
]

starts_digit-append : (a b : Bytes) → starts_digit a ≡ true → starts_digit (a ++ b) ≡ true
starts_digit-append [] b h = cc
starts_digit-append (x ∷ a) b h = h

print_digits_starts : (f n : ℕ) → n < f → starts_digit (print_digits f n) ≡ true
unfolding print_digits
print_digits_starts zero n h = elim h [ ]
print_digits_starts (suc f) n h = elim (Bool-cases (ltb n 10)) [
  | inl small ↦ rw small (ground arith)
  | inr large ↦ rw large (
      starts_digit-append (print_digits f (n / 10)) ((b'0' + n % 10) ∷ [])
        (print_digits_starts f (n / 10) (ground arith)))
]

pub print_ℕ-digits : (n : ℕ) → All (λ c. is_digit c ≡ true) (print_ℕ n)
unfolding print_ℕ
print_ℕ-digits n = print_digits-digits (suc n) n

pub print_ℕ_starts : (n : ℕ) → starts_digit (print_ℕ n) ≡ true
unfolding print_ℕ
print_ℕ_starts n = print_digits_starts (suc n) n (omega arith)

pub digits_value-print_ℕ :
    (n : ℕ) (rest : Bytes) → digits_value 0 (print_ℕ n ++ rest) ≡ digits_value n rest
unfolding print_ℕ
digits_value-print_ℕ n rest = digits_value-print_digits (suc n) n rest (omega arith)

pub value-print_ℕ : (n : ℕ) → digits_value 0 (print_ℕ n) ≡ n
unfolding digits_value
value-print_ℕ n = rw append-nil at (digits_value-print_ℕ n [])

-- What was printed is read back, for a number below the limit.
pub read_unsigned-print_ℕ : (limit n : ℕ) → n < limit → read_unsigned limit (print_ℕ n) ≡ some n
unfolding read_unsigned
read_unsigned-print_ℕ limit n h = rw (print_ℕ_starts n, value-print_ℕ) (ground arith)

signed_of_digit :
    (limit : ℕ) (b : Bytes)
    → starts_digit b ≡ true
    → digits_value 0 b < limit
    → read_signed limit b ≡ some (pos (digits_value 0 b))
unfolding read_signed
signed_of_digit limit [] h k = cc
signed_of_digit limit (c ∷ cs) h k = ground arith

pub read_signed-print_ℤ : (a : ℤ) → IsInt64 a → read_signed (2 ^ 63) (print_ℤ a) ≡ some a
unfolding print_ℤ
read_signed-print_ℤ (pos n) h =
    signed_of_digit (2 ^ 63) (print_ℕ n) (print_ℕ_starts n) (rw value-print_ℕ h) ∙ rw value-print_ℕ
read_signed-print_ℤ (negsuc n) h =
    unfold read_signed in rw (print_ℕ_starts (suc n), value-print_ℕ) (ground arith)
