-- ===== src/BuenPick/Money/Read.antt =====
-- The reading of an amount with the separators of Argentina, and what it makes of the amounts that
-- src/piki/integrations/buenpick/models.py formats.
use Prim.Native.Char.{code}
use mathlib.Core.Path.{subst}
use buenpick_piki.Base.{
  ℕ, ◌+◌, ◌-◌, ◌*◌, ◌/◌, ◌%◌, ◌^◌, ◌≤◌, ◌<◌, ◌≡◌, refl, ap, ◌∙◌, String, Bool, true, false, not,
  Option, none, some, List, [], ◌∷◌, ltb, leb, ◌==◌, ◌&&◌, All, length, arith, if◌then◌else◌,
}
use buenpick_piki.Base.Decimal.{
  digits, digits_small, digits_some, digit_char, digit_code, value, value-digits, is_digit,
}
use buenpick_piki.BuenPick.Money.{
  write_groups, write_amount, rounded, rounded_exact, format_ars_cents,
}

-- two digits and the end, after a number
read_cents : ℕ → String → Option ℕ
read_cents n (String.◌∷◌ a (String.◌∷◌ b String.[])) =
    if is_digit a && is_digit b then some (n * 100 + (code a - 48) * 10 + (code b - 48)) else none
read_cents n _ = none

-- whether a group may end after k digits: the first one has from one to three, a later one has three
abbrev complete : Bool → ℕ → Bool
complete true k = leb 1 k
complete false k = k == 3

-- the digits before the comma, in groups with a point between them: whether the group is the first
-- one, its digits so far, and the number so far
read_whole : Bool → ℕ → ℕ → String → Option ℕ
unfolding read_cents
read_whole first k n String.[] = none
read_whole first k n (String.◌∷◌ c s) =
    let digit = read_whole first (k + 1) (n * 10 + (code c - 48)) s in
    let group = read_whole false 0 n s in
    if is_digit c
    then (if ltb k 3 then digit else none)
    else if not (complete first k)
    then none
    else if code c == 46
    then group
    else if code c == 44
    then read_cents n s
    else none

-- an amount in cents: a dollar sign, the groups, a comma and two digits
pub read_ars_cents : String → Option ℕ
unfolding read_whole
read_ars_cents (String.◌∷◌ c s) = if code c == 36 then read_whole true 0 0 s else none
read_ars_cents String.[] = none

-- whether j digits of a group go with k more
abbrev Group : Bool → ℕ → ℕ → Type 0
Group true j k = (1 ≤ j + k) × (j + k ≤ 3)
Group false j k = j + k ≡ 3

-- a text that begins with k digits of a group is read on to what a function gives
abbrev Reads : ℕ → String → (ℕ → Option ℕ) → Type 0
Reads k s f = (first : Bool) (j n : ℕ) → Group first j k → read_whole first j n s ≡ f n

digit_test : (d : ℕ) → d < 10 → is_digit (digit_char d) ≡ true
digit_test d h = rw (digit_code d h) (ground arith)

reads_digit :
    (first : Bool) (j n d : ℕ) (s : String)
    → d < 10
    → j < 3
    → read_whole first j n (String.◌∷◌ (digit_char d) s) ≡ read_whole first (j + 1) (n * 10 + d) s
unfolding read_whole
reads_digit first j n d s h small =
    let is_small : ltb j 3 ≡ true = ground arith in
    rw (digit_test d h, is_small)
      (ap (λ v. read_whole first (j + 1) v s) (rw (digit_code d h) (omega arith)))

reads_point :
    (first : Bool) (j n : ℕ) (s : String)
    → complete first j ≡ true
    → read_whole first j n (String.◌∷◌ "." s) ≡ read_whole false 0 n s
unfolding read_whole
reads_point first j n s done = rw done refl

-- a digit goes before a group that has room, and before a point where it has not
Reads-digit :
    (k d : ℕ) (s : String) (f : ℕ → Option ℕ)
    → d < 10
    → k < 3
    → Reads k s f
    → Reads (k + 1) (String.◌∷◌ (digit_char d) s) (λ n. f (n * 10 + d))
Reads-digit k d s f h room reads true j n (some_digit, fit) =
    reads_digit true j n d s h (omega arith)
    ∙ reads true (j + 1) (n * 10 + d) (omega arith, omega arith)
Reads-digit k d s f h room reads false j n full =
    reads_digit false j n d s h (omega arith) ∙ reads false (j + 1) (n * 10 + d) (omega arith)

Reads-point :
    (d : ℕ) (s : String) (f : ℕ → Option ℕ)
    → d < 10
    → Reads 3 s f
    → Reads 1 (String.◌∷◌ (digit_char d) (String.◌∷◌ "." s)) (λ n. f (n * 10 + d))
Reads-point d s f h reads true j n (some_digit, fit) =
    reads_digit true j n d (String.◌∷◌ "." s) h (omega arith)
    ∙ reads_point true (j + 1) (n * 10 + d) s (ground arith)
    ∙ reads false 0 (n * 10 + d) refl
Reads-point d s f h reads false j n full =
    reads_digit false j n d (String.◌∷◌ "." s) h (omega arith)
    ∙ reads_point false (j + 1) (n * 10 + d) s (ground arith)
    ∙ reads false 0 (n * 10 + d) refl

-- the text that one more digit makes
abbrev pointed : Bool → String → String
pointed b s = if b then String.◌∷◌ "." s else s

Reads-write :
    (k d : ℕ) (s : String) (f : ℕ → Option ℕ) (b : Bool)
    → k ≤ 3
    → (k == 3) ≡ b
    → d < 10
    → Reads k s f
    → Reads (if b then 1 else k + 1) (String.◌∷◌ (digit_char d) (pointed b s)) (λ n. f (n * 10 + d))
Reads-write k d s f true within is h reads =
    let three : k ≡ 3 = ground arith in Reads-point d s f h (subst (λ i. Reads i s f) three reads)
Reads-write k d s f false within is h reads = Reads-digit k d s f h (ground arith) reads

read-groups :
    (k : ℕ) (ds : List ℕ) (s : String) (f : ℕ → Option ℕ)
    → k ≤ 3
    → 1 ≤ k + length ds
    → All (λ d. d < 10) ds
    → Reads k s f
    → read_whole true 0 0 (write_groups k ds s) ≡ f (value ds)
unfolding write_groups value
read-groups k [] s f within some_digit h reads = reads true 0 0 (omega arith, omega arith)
read-groups k (d ∷ ds) s f within some_digit h reads =
    read-groups (if k == 3 then 1 else k + 1) ds (String.◌∷◌ (digit_char d) (pointed (k == 3) s))
      (λ n. f (n * 10 + d)) (ground arith) (ground arith) h.1
      (Reads-write k d s f (k == 3) within refl h.0 reads)
    ∙ ap f (omega arith)

cents-Reads :
    (a b : ℕ)
    → a < 10
    → b < 10
    → Reads 0
        (String.◌∷◌ "," (String.◌∷◌ (digit_char a) (String.◌∷◌ (digit_char b) String.[])))
        (λ n. some (n * 100 + a * 10 + b))
unfolding read_whole read_cents
cents-Reads a b ha hb true j n (some_digit, fit) =
    let done : leb 1 j ≡ true = ground arith in
    rw (done, digit_test a ha, digit_test b hb)
      (ap some (rw (digit_code a ha, digit_code b hb) (omega arith)))
cents-Reads a b ha hb false j n full =
    let done : (j == 3) ≡ true = ground arith in
    rw (done, digit_test a ha, digit_test b hb)
      (ap some (rw (digit_code a ha, digit_code b hb) (omega arith)))

read-amount : (n : ℕ) → read_whole true 0 0 (write_amount n) ≡ some n
unfolding write_amount
read-amount n =
    let last = String.◌∷◌ (digit_char (n % 10)) String.[] in
    read-groups 0 (digits (n / 100)) (String.◌∷◌ "," (String.◌∷◌ (digit_char (n / 10 % 10)) last))
      (λ w. some (w * 100 + n / 10 % 10 * 10 + n % 10)) (omega arith)
      (omega (arith, digits_some (n / 100))) (digits_small (n / 100))
      (cents-Reads (n / 10 % 10) (n % 10) (omega arith) (omega arith))
    ∙ ap some (rw (value-digits (n / 100)) (omega arith))

-- Where fewer than 10^28 cents are formatted, the text is read as exactly that amount: a dollar
-- sign, digits in groups of three with a point between them, the first of from one to three, a
-- comma, and the two digits of the cents.
pub read-format_ars_cents :
    (cents : ℕ) → cents < 10 ^ 28 → read_ars_cents (format_ars_cents cents) ≡ some cents
unfolding format_ars_cents read_ars_cents
read-format_ars_cents cents h = read-amount (rounded cents) ∙ ap some (rounded_exact cents h)

million : read_ars_cents "$1.234.567,89" ≡ some 123456789
unfolding read_ars_cents
million = refl

swapped : read_ars_cents "$1,234.56" ≡ none
unfolding read_ars_cents
swapped = refl

ungrouped : read_ars_cents "$123456789" ≡ none
unfolding read_ars_cents
ungrouped = refl
