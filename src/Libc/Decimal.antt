-- ===== src/Libc/Decimal.antt =====
-- The conversions `%d` and `%02d` of printf, for an int that is not negative.
use rdma_tutorial.Prelude.{
  ℕ, zero, suc, ◌+◌, ◌-◌, ◌*◌, ◌/◌, ◌%◌, ◌≤◌, ◌<◌, ◌≡◌, refl, List, [], ◌∷◌, ◌++◌, ltb, length,
  if◌then◌else◌, arith, length-append, Bool-cases, inl, inr,
}

-- The digits of `n`, of which there are at most `width + 1`.
unfoldable pub decimal : ℕ → ℕ → List ℕ
decimal zero n = (48 + n) ∷ []
decimal (suc width) n =
    let front = decimal width (n / 10) in
    if ltb n 10 then (48 + n) ∷ [] else front ++ (48 + n % 10) ∷ []

-- An int has at most ten digits.
unfoldable pub percent_d : ℕ → List ℕ
percent_d n = decimal 9 n

unfoldable pub percent_02d : ℕ → List ℕ
percent_02d n = if ltb n 10 then 48 ∷ (48 + n) ∷ [] else decimal 9 n

-- The number that a text of digits stands for, read from the left.
abbrev pub number : ℕ → List ℕ → ℕ
number acc [] = acc
number acc (d ∷ ds) = number (acc * 10 + (d - 48)) ds

number-snoc : (acc d : ℕ) (ds : List ℕ) → number acc (ds ++ d ∷ []) ≡ number acc ds * 10 + (d - 48)
number-snoc acc d [] = refl
number-snoc acc d (x ∷ ds) = number-snoc (acc * 10 + (x - 48)) d ds

-- 10 to the power `width + 1`
abbrev pub ten_to : ℕ → ℕ
ten_to zero = 10
ten_to (suc width) = 10 * ten_to width

pub number-decimal : (width n : ℕ) → n < ten_to width → number 0 (decimal width n) ≡ n
unfolding decimal
number-decimal zero n h = omega arith
number-decimal (suc width) n h = elim (Bool-cases (ltb n 10)) [
  | inl small ↦ rw small (omega arith)
  | inr big ↦ rw big (
      rw (number-snoc 0 (48 + n % 10) (decimal width (n / 10)))
        (omega (arith, number-decimal width (n / 10) (omega arith))))
]

pub length-decimal-le : (width n : ℕ) → length (decimal width n) ≤ suc width
unfolding decimal
length-decimal-le zero n = omega arith
length-decimal-le (suc width) n = elim (Bool-cases (ltb n 10)) [
  | inl small ↦ rw small (omega arith)
  | inr big ↦ rw big (
      omega (
        arith,
        length-append (decimal width (n / 10)) ((48 + n % 10) ∷ []),
        length-decimal-le width (n / 10),
      ))
]

pub length-percent_02d-le : (n : ℕ) → length (percent_02d n) ≤ 10
unfolding percent_02d
length-percent_02d-le n = elim (Bool-cases (ltb n 10)) [
  | inl small ↦ rw small (omega arith)
  | inr big ↦ rw big (length-decimal-le 9 n)
]
