-- ===== src/Libc/Time.antt =====
-- A broken-down time, and the text that strftime makes of it for the format of the logs.
use rdma_tutorial.Prelude.{
  ℕ, zero, suc, ◌+◌, ◌-◌, ◌/◌, ◌%◌, ◌≤◌, ◌<◌, ◌≡◌, refl, List, [], ◌∷◌, ◌++◌, true, false, Option,
  none, some, ltb, length, if◌then◌else◌, arith, length-append, Bool-cases, inl, inr,
}
use rdma_tutorial.Libc.Decimal.{decimal, percent_d, percent_02d, ten_to}

-- struct tm, for a time after 1900
pub record Tm : Type 0 where
  pub tm_sec : ℕ
  pub tm_min : ℕ
  pub tm_hour : ℕ
  pub tm_mday : ℕ
  pub tm_mon : ℕ
  pub tm_year : ℕ

-- "%Y-%m-%d %H:%M:%S"
unfoldable pub date_time : Tm → List ℕ
date_time tm =
    percent_d (1900 + tm.tm_year)
    ++ 45 ∷ percent_02d (1 + tm.tm_mon)
    ++ 45 ∷ percent_02d tm.tm_mday
    ++ 32 ∷ percent_02d tm.tm_hour
    ++ 58 ∷ percent_02d tm.tm_min
    ++ 58 ∷ percent_02d tm.tm_sec

-- strftime with that format writes less than `max` bytes and a NUL, or leaves the buffer undefined.
unfoldable pub strftime : ℕ → Tm → Option (List ℕ)
strftime max tm = if ltb (length (date_time tm)) max then some (date_time tm) else none

abbrev zeros : ℕ → List ℕ
zeros zero = []
zeros (suc n) = 48 ∷ zeros n

-- `%06ld`; a long has at most nineteen digits
unfoldable pub percent_06ld : ℕ → List ℕ
percent_06ld n = zeros (6 - length (decimal 18 n)) ++ decimal 18 n

-- what localtime gives: a leap second may be the 60th
pub record IsTime (tm : Tm) : Type 0 where
  pub sec : tm.tm_sec ≤ 60
  pub min : tm.tm_min < 60
  pub hour : tm.tm_hour < 24
  pub mday : tm.tm_mday ≤ 31
  pub mon : tm.tm_mon < 12
  pub year : tm.tm_year < 2147483648

length-percent_02d : (n : ℕ) → n < 100 → length (percent_02d n) ≡ 2
unfolding percent_02d decimal
length-percent_02d n h = elim (Bool-cases (ltb n 10)) [
  | inl small ↦ rw small refl
  | inr big ↦ rw big (let one : ltb (n / 10) 10 ≡ true = ground arith in rw one refl)
]

-- one digit more than the tenth of a number has
length-decimal-suc :
    (width n : ℕ)
    → (ltb n 10) ≡ false
    → length (decimal (suc width) n) ≡ suc (length (decimal width (n / 10)))
unfolding decimal
length-decimal-suc width n big =
    rw big (omega (arith, length-append (decimal width (n / 10)) ((48 + n % 10) ∷ [])))

length-decimal-one : (width n : ℕ) → ltb n 10 ≡ true → length (decimal width n) ≡ 1
unfolding decimal
length-decimal-one zero n small = refl
length-decimal-one (suc width) n small = rw small refl

length-decimal-fits : (k width n : ℕ) → k ≤ width → n < ten_to k → length (decimal width n) ≤ suc k
length-decimal-fits zero width n le h = omega (arith, length-decimal-one width n (ground arith))
length-decimal-fits (suc k) zero n le h = absurd (omega arith)
length-decimal-fits (suc k) (suc width) n le h = elim (Bool-cases (ltb n 10)) [
  | inl small ↦ omega (arith, length-decimal-one (suc width) n small)
  | inr big ↦ omega (
    arith,
    length-decimal-suc width n big,
    length-decimal-fits k width (n / 10) (omega arith) (omega arith),
  )
]

length-zeros : (n : ℕ) → length (zeros n) ≡ n
length-zeros zero = refl
length-zeros (suc n) = omega (arith, length-zeros n)

pub length-percent_06ld : (n : ℕ) → n < 1000000 → length (percent_06ld n) ≡ 6
unfolding percent_06ld
length-percent_06ld n h = omega (
  arith,
  length-append (zeros (6 - length (decimal 18 n))) (decimal 18 n),
  length-zeros (6 - length (decimal 18 n)),
  length-decimal-fits 5 18 n (omega arith) h,
)

-- a year of four digits
pub length-year : (y : ℕ) → 1000 ≤ y → y < 10000 → length (percent_d y) ≡ 4
unfolding percent_d
length-year y low high = omega (
  arith,
  length-decimal-suc 8 y (ground arith),
  length-decimal-suc 7 (y / 10) (ground arith),
  length-decimal-suc 6 (y / 10 / 10) (ground arith),
  length-decimal-one 6 (y / 10 / 10 / 10) (ground arith),
)

-- two digits, a separator and what follows
cell : (n c : ℕ) (xs : List ℕ) → n < 100 → length (percent_02d n ++ c ∷ xs) ≡ 3 + length xs
cell n c xs h = omega (arith, length-append (percent_02d n) (c ∷ xs), length-percent_02d n h)

-- The text of a time, up to the year.
pub length-date_time :
    (tm : Tm) → IsTime tm → length (date_time tm) ≡ length (percent_d (1900 + tm.tm_year)) + 15
unfolding date_time
length-date_time tm h =
    grind (arith, length-append, cell, length-percent_02d, h.sec, h.min, h.hour, h.mday, h.mon)
