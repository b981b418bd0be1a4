-- ===== src/Libc/Read.antt =====
-- `atoi` on the digits that `%d` and `%02d` write.
use rdma_tutorial.Prelude.{
  ℕ, zero, suc, ◌+◌, ◌-◌, ◌*◌, ◌/◌, ◌%◌, ◌<◌, ◌≡◌, refl, ap, ◌∙◌, true, false, List, [], ◌∷◌, ◌++◌,
  ltb, length, All, arith, length-append, Bool-cases, inl, inr,
}
use rdma_tutorial.External.{pos}
use rdma_tutorial.Libc.Decimal.{decimal, percent_02d, number, ten_to, number-decimal}
use rdma_tutorial.Libc.Atoi.{is_digit, digits_value, atoi_signed, atoi}

abbrev IsDigit : ℕ → Type 0
IsDigit d = is_digit d ≡ true

IsDigit-lt : (n : ℕ) → n < 10 → IsDigit (48 + n)
IsDigit-lt n h = ground arith

All-snoc : (xs : List ℕ) (x : ℕ) → All IsDigit xs → IsDigit x → All IsDigit (xs ++ x ∷ [])
All-snoc [] x h p = (p, tt)
All-snoc (y ∷ xs) x h p = (h.0, All-snoc xs x h.1 p)

decimal-IsDigit : (width n : ℕ) → n < ten_to width → All IsDigit (decimal width n)
unfolding decimal
decimal-IsDigit zero n h = (IsDigit-lt n h, tt)
decimal-IsDigit (suc width) n h = elim (Bool-cases (ltb n 10)) [
  | inl small ↦ rw small (IsDigit-lt n (ground arith), tt)
  | inr big ↦ rw big (
      All-snoc (decimal width (n / 10)) (48 + n % 10) (decimal-IsDigit width (n / 10) (omega arith))
        (IsDigit-lt (n % 10) (omega arith)))
]

digits_value-append :
    (acc c : ℕ) (ds rest : List ℕ)
    → All IsDigit ds
    → is_digit c ≡ false
    → digits_value acc (ds ++ c ∷ rest) ≡ number acc ds
unfolding digits_value
digits_value-append acc c [] rest h stop = rw stop refl
digits_value-append acc c (d ∷ ds) rest h stop =
    rw h.0 (digits_value-append (acc * 10 + (d - 48)) c ds rest h.1 stop)

-- `atoi` reads a text that starts with a digit as a number.
atoi-digit : (d : ℕ) (ds : List ℕ) → IsDigit d → atoi (d ∷ ds) ≡ pos (digits_value 0 (d ∷ ds))
unfolding atoi atoi_signed
atoi-digit d ds h = ground arith

atoi-append :
    (c : ℕ) (ds rest : List ℕ)
    → All IsDigit ds
    → 0 < length ds
    → is_digit c ≡ false
    → atoi (ds ++ c ∷ rest) ≡ pos (number 0 ds)
atoi-append c [] rest h some_ stop = absurd (omega arith)
atoi-append c (d ∷ ds) rest h some_ stop =
    atoi-digit d (ds ++ c ∷ rest) h.0 ∙ ap pos (digits_value-append 0 c (d ∷ ds) rest h stop)

length-decimal-lt : (width n : ℕ) → 0 < length (decimal width n)
unfolding decimal
length-decimal-lt zero n = omega arith
length-decimal-lt (suc width) n = elim (Bool-cases (ltb n 10)) [
  | inl small ↦ rw small (omega arith)
  | inr big ↦ rw big (omega (arith, length-append (decimal width (n / 10)) ((48 + n % 10) ∷ [])))
]

-- `atoi` undoes `%02d`, if what follows the digits is no digit.
pub atoi-percent_02d :
    (n c : ℕ) (rest : List ℕ)
    → n < 10000000000
    → is_digit c ≡ false
    → atoi (percent_02d n ++ c ∷ rest) ≡ pos n
unfolding percent_02d
atoi-percent_02d n c rest h stop = elim (Bool-cases (ltb n 10)) [
  | inl small ↦ rw small (
      atoi-append c (48 ∷ (48 + n) ∷ []) rest (refl, (IsDigit-lt n (ground arith), tt))
        (omega arith) stop
      ∙ ap pos (omega arith))
  | inr big ↦ rw big (
      atoi-append c (decimal 9 n) rest (decimal-IsDigit 9 n (omega arith)) (length-decimal-lt 9 n)
        stop
      ∙ ap pos (number-decimal 9 n (omega arith)))
]
