-- ===== src/Resp/Decimal.antt =====
-- Decimal numerals, as the standard library's `to_string` of usize writes them.
use undermoon.Prelude.{
  ℕ, zero, suc, ◌+◌, ◌-◌, ◌*◌, ◌/◌, ◌%◌, ◌≤◌, ◌<◌, ◌≡◌, refl, ◌∙◌, inl, inr, [], ◌∷◌, ◌++◌, length,
  length-append, ltb, arith, Bool-cases, All, All-append, if◌then◌else◌, ltb→lt,
}
use undermoon.Resp.{Bytes}

-- One digit more for each unit of fuel that is needed; `n + 1` units are enough.
pub digits : ℕ → ℕ → Bytes
digits zero n = []
digits (suc fuel) n =
    let rest = digits fuel (n / 10) in
    if ltb n 10 then (48 + n) ∷ [] else rest ++ (48 + n % 10) ∷ []

unfoldable pub to_decimal : ℕ → Bytes
unfolding digits
to_decimal n = digits (suc n) n

abbrev pub IsDigit : ℕ → Type 0
IsDigit b = (48 ≤ b) × (b ≤ 57)

-- The number that a run of digits stands for, read from the left.
unfoldable pub read_digits : ℕ → Bytes → ℕ
read_digits acc [] = acc
read_digits acc (b ∷ bs) = read_digits (acc * 10 + (b - 48)) bs

digits-IsDigit : (fuel n : ℕ) → All IsDigit (digits fuel n)
unfolding digits
digits-IsDigit zero n = tt
digits-IsDigit (suc fuel) n = elim (Bool-cases (ltb n 10)) [
  | inl one ↦ rw one ((omega arith, omega (arith, ltb→lt _ _ one)), tt)
  | inr more ↦ rw more (
      All-append IsDigit (digits fuel (n / 10)) _ (digits-IsDigit fuel (n / 10))
        ((omega arith, omega arith), tt))
]

pub to_decimal-IsDigit : (n : ℕ) → All IsDigit (to_decimal n)
unfolding to_decimal
to_decimal-IsDigit n = digits-IsDigit (suc n) n

read_digits-append :
    (acc : ℕ) (xs ys : Bytes) → read_digits acc (xs ++ ys) ≡ read_digits (read_digits acc xs) ys
unfolding read_digits
read_digits-append acc [] ys = refl
read_digits-append acc (x ∷ xs) ys = read_digits-append (acc * 10 + (x - 48)) xs ys

read_digits-digits : (fuel n : ℕ) → n < fuel → read_digits 0 (digits fuel n) ≡ n
unfolding digits read_digits
read_digits-digits zero n h = elim h [ ]
read_digits-digits (suc fuel) n h = elim (Bool-cases (ltb n 10)) [
  | inl one ↦ rw one (omega arith)
  | inr more ↦ rw more (
      read_digits-append 0 (digits fuel (n / 10)) _
      ∙ rw (read_digits-digits fuel (n / 10) (ground arith)) (omega arith))
]

-- A printed number is not empty.
pub length-to_decimal : (n : ℕ) → 0 < length (to_decimal n)
unfolding to_decimal digits
length-to_decimal n = elim (Bool-cases (ltb n 10)) [
  | inl one ↦ rw one (omega arith)
  | inr more ↦ rw more (omega (arith, length-append (digits n (n / 10)) ((48 + n % 10) ∷ [])))
]

-- For every number, the value of the digits that are printed for it is the number.
pub read_digits-to_decimal : (n : ℕ) → read_digits 0 (to_decimal n) ≡ n
unfolding to_decimal
read_digits-to_decimal n = read_digits-digits (suc n) n (omega arith)
