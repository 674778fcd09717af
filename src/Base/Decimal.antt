-- ===== src/Base/Decimal.antt =====
-- Python's `str(n)` for a number that is not negative, and what its digits stand for.
use Prim.Native.Char.{Char, code}
use buenpick_piki.Base.{
  ℕ, zero, suc, true, ==_iff, ◌+◌, ◌*◌, ◌/◌, ◌%◌, ◌<◌, ◌≡◌, refl, String, Bool, ◌&&◌, List, [], ◌∷◌,
  leb, ltb, ◌==◌, All, length, ◌≤◌, arith, if◌then◌else◌,
}

-- the digits of a number, the last one first; there are at most as many as the fuel
digits_in : ℕ → ℕ → List ℕ
digits_in zero n = []
digits_in (suc fuel) n =
    let rest = digits_in fuel (n / 10) in if ltb n 10 then n ∷ [] else (n % 10) ∷ rest

unfoldable pub digits : ℕ → List ℕ
unfolding digits_in
digits n = digits_in (suc n) n

abbrev pub digit_char : ℕ → Char
digit_char d =
    if d == 0
    then "0"
    else if d == 1
    then "1"
    else if d == 2
    then "2"
    else if d == 3
    then "3"
    else if d == 4
    then "4"
    else if d == 5
    then "5"
    else if d == 6
    then "6"
    else if d == 7
    then "7"
    else if d == 8
    then "8"
    else "9"

-- digits, the last one first, written before a text
unfoldable pub write_digits : List ℕ → String → String
write_digits [] s = s
write_digits (d ∷ ds) s = write_digits ds (String.◌∷◌ (digit_char d) s)

-- `str(n)`
unfoldable pub str : ℕ → String
unfolding write_digits digits
str n = write_digits (digits n) String.[]

-- an integer: `negsuc n` is -(n + 1)
pub data ℤ : Type 0 where
  pos : ℕ → ℤ
  negsuc : ℕ → ℤ

-- `str(n)` of an integer
unfoldable pub str_int : ℤ → String
unfolding str
str_int (pos n) = str n
str_int (negsuc n) = String.◌∷◌ "-" (str (n + 1))

-- the number that digits stand for, the last one first
unfoldable pub value : List ℕ → ℕ
value [] = 0
value (d ∷ ds) = d + 10 * value ds

value-digits_in : (fuel n : ℕ) → n < fuel → value (digits_in fuel n) ≡ n
unfolding value digits_in
value-digits_in zero n h = absurd (omega arith)
value-digits_in (suc fuel) n h = ground (arith, value-digits_in fuel (n / 10))

pub value-digits : (n : ℕ) → value (digits n) ≡ n
unfolding digits
value-digits n = value-digits_in (suc n) n (omega arith)

digits_in_small : (fuel n : ℕ) → All (λ d. d < 10) (digits_in fuel n)
unfolding digits_in
digits_in_small zero n = tt
digits_in_small (suc fuel) n = ground (arith, digits_in_small fuel (n / 10))

pub digits_small : (n : ℕ) → All (λ d. d < 10) (digits n)
unfolding digits
digits_small n = digits_in_small (suc n) n

digits_in_some : (fuel n : ℕ) → 1 ≤ length (digits_in (suc fuel) n)
unfolding digits_in
digits_in_some fuel n = ground arith

pub digits_some : (n : ℕ) → 1 ≤ length (digits n)
unfolding digits
digits_some n = digits_in_some n n

abbrev pub is_digit : Char → Bool
is_digit c = leb 48 (code c) && leb (code c) 57

-- every digit, by evaluation
all_digits : ℕ → (ℕ → Bool) → Bool
all_digits zero p = true
all_digits (suc n) p = p n && all_digits n p

all_digits_sound : (n : ℕ) (p : ℕ → Bool) (d : ℕ) → all_digits n p ≡ true → d < n → p d ≡ true
unfolding all_digits
all_digits_sound zero p d h lt = absurd (omega arith)
all_digits_sound (suc n) p d h lt = ground (arith, all_digits_sound n p d)

digit_table : all_digits 10 (λ d. code (digit_char d) == 48 + d) ≡ true
unfolding all_digits
digit_table = refl

pub digit_code : (d : ℕ) → d < 10 → code (digit_char d) ≡ 48 + d
digit_code d h =
    (==_iff (code (digit_char d)) (48 + d)).0
      (all_digits_sound 10 (λ d. code (digit_char d) == 48 + d) d digit_table h)

str_12 : str 1205 ≡ "1205"
unfolding str
str_12 = refl
