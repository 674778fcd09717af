-- ===== src/BuenPick/Money.antt =====
-- `format_ars_cents` of src/piki/integrations/buenpick/models.py: an amount with the separators of
-- Argentina. `Decimal` divides with 28 digits of precision and rounds to even beyond them.
pub mod Read
use buenpick_piki.Base.{
  ℕ, zero, suc, ◌+◌, ◌*◌, ◌/◌, ◌%◌, ◌^◌, ◌<◌, ◌≡◌, refl, ap, ◌∙◌, String, Bool, true, false, List,
  [], ◌∷◌, ltb, ◌==◌, All, arith, if◌then◌else◌,
}
use buenpick_piki.Base.Decimal.{digits, digits_small, digit_char, value, value-digits}

abbrev precision : ℕ
precision = 10 ^ 28

-- the least power of ten of which an amount has fewer than 10^28
unit_of : ℕ → ℕ → ℕ → ℕ
unit_of zero n u = u
unit_of (suc fuel) n u =
    let more = unit_of fuel n (u * 10) in if ltb (n / u) precision then u else more

rounds_up : ℕ → ℕ → Bool
rounds_up n u = if 2 * (n % u) == u then n / u % 2 == 1 else ltb u (2 * (n % u))

-- `Decimal(cents) / Decimal(100)`, in cents
rounded : ℕ → ℕ
unfolding rounds_up
rounded n = let u = unit_of (suc n) n 1 in if rounds_up n u then (n / u + 1) * u else n / u * u

-- digits, the last one first, before a text, with a point after every three of them
write_groups : ℕ → List ℕ → String → String
write_groups k [] s = s
write_groups k (d ∷ ds) s =
    write_groups (if k == 3 then 1 else k + 1) ds
      (String.◌∷◌ (digit_char d) (if k == 3 then String.◌∷◌ "." s else s))

-- `f"{amount:,.2f}"` with the points and the comma exchanged
write_amount : ℕ → String
unfolding write_groups
write_amount n = write_groups 0 (digits (n / 100)) (
    String.◌∷◌ ","
      (String.◌∷◌ (digit_char (n / 10 % 10)) (String.◌∷◌ (digit_char (n % 10)) String.[])))

-- `format_ars_cents(cents)`, where no amount is negative
unfoldable pub format_ars_cents : ℕ → String
unfolding write_amount rounded unit_of digits
format_ars_cents cents = String.◌∷◌ "$" (write_amount (rounded cents))

unit_is_one : (n : ℕ) → n < 10 ^ 28 → unit_of (suc n) n 1 ≡ 1
unfolding unit_of
unit_is_one n h = ground arith

rounded_exact : (n : ℕ) → n < 10 ^ 28 → rounded n ≡ n
unfolding rounded
rounded_exact n h = rw (unit_is_one n h) (ground arith)

million : format_ars_cents 123456789 ≡ "$1.234.567,89"
unfolding format_ars_cents
million = refl

nothing : format_ars_cents 5 ≡ "$0,05"
unfolding format_ars_cents
nothing = refl

huge : format_ars_cents (10 ^ 28 + 15) ≡ "$100.000.000.000.000.000.000.000.000,20"
unfolding format_ars_cents
huge = refl
