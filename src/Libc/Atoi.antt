-- ===== src/Libc/Atoi.antt =====
-- `atoi`: white space, a sign, digits. Past the range of int its result is undefined in C, and here
-- it is the number itself.
use rdma_tutorial.Prelude.{
  ℕ, zero, suc, ◌+◌, ◌-◌, ◌*◌, Bool, ◌&&◌, ◌||◌, not, List, [], ◌∷◌, ltb, ◌==◌, if◌then◌else◌,
}
use rdma_tutorial.External.{ℤ, pos, negsuc}

abbrev pub is_digit : ℕ → Bool
is_digit c = not (ltb c b'0') && not (ltb b'9' c)

-- isspace in the C locale
abbrev is_space : ℕ → Bool
is_space c = (c == 32) || (not (ltb c 9) && not (ltb 13 c))

unfoldable pub digits_value : ℕ → List ℕ → ℕ
digits_value acc [] = acc
digits_value acc (c ∷ cs) =
    let rest = digits_value (acc * 10 + (c - b'0')) cs in if is_digit c then rest else acc

abbrev pub negate : ℕ → ℤ
negate zero = pos 0
negate (suc n) = negsuc n

unfoldable pub atoi_signed : List ℕ → ℤ
unfolding digits_value
atoi_signed [] = pos 0
atoi_signed (c ∷ cs) =
    if c == b'-'
    then negate (digits_value 0 cs)
    else if c == b'+'
    then pos (digits_value 0 cs)
    else pos (digits_value 0 (c ∷ cs))

unfoldable pub atoi : List ℕ → ℤ
unfolding atoi_signed
atoi [] = pos 0
atoi (c ∷ cs) = let rest = atoi cs in if is_space c then rest else atoi_signed (c ∷ cs)
