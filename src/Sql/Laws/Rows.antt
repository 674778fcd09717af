-- ===== src/Sql/Laws/Rows.antt =====
-- What SELECT, UPDATE and INSERT do to the first row that passes a test, and to how many rows
-- pass it.
use buenpick_piki.Base.{
  ℕ, ◌+◌, ◌≤◌, ◌≡◌, refl, Bool, true, false, Option, none, some, List, [], ◌∷◌, ◌++◌, arith, any,
  count, map, ◌==◌, if◌then◌else◌,
}
use buenpick_piki.Sql.{select, update}

pub eq_self : (n : ℕ) → (n == n) ≡ true
eq_self n = ground arith

module _ {ℓ} {R : Type ℓ} where
  -- the first row that passes a test
  unfoldable pub find : (R → Bool) → List R → Option R
  find p [] = none
  find p (r ∷ rows) = let rest = find p rows in if p r then some r else rest

  -- UPDATE on one row
  abbrev pub touched : (R → Bool) → (R → R) → R → R
  touched q f r = if q r then f r else r

  abbrev pub map_row : (R → R) → Option R → Option R
  map_row f none = none
  map_row f (some r) = some (f r)

  pub count-append : (p : R → Bool) (xs ys : List R) → count p (xs ++ ys) ≡ count p xs + count p ys
  unfolding count
  count-append p [] ys = omega arith
  count-append p (x ∷ xs) ys = ground (arith, count-append p xs ys)

  pub any-append :
      (p : R → Bool) (xs : List R) (y : R) → any p (xs ++ y ∷ []) ≡ (if any p xs then true else p y)
  unfolding any
  any-append p [] y = ground arith
  any-append p (x ∷ xs) y = ground (arith, any-append p xs y)

  pub count-eq-zero : (p : R → Bool) (xs : List R) → any p xs ≡ false → count p xs ≡ 0
  unfolding any count
  count-eq-zero p [] h = refl
  count-eq-zero p (x ∷ xs) h = ground (arith, count-eq-zero p xs)

  pub any_of_count : (p : R → Bool) (xs : List R) → 1 ≤ count p xs → any p xs ≡ true
  unfolding any count
  any_of_count p [] h = absurd (omega arith)
  any_of_count p (x ∷ xs) h = ground (arith, any_of_count p xs)

  pub count_of_any : (p : R → Bool) (xs : List R) → any p xs ≡ true → 1 ≤ count p xs
  unfolding any count
  count_of_any p [] h = absurd (cc)
  count_of_any p (x ∷ xs) h = ground (arith, count_of_any p xs)

  -- an update that leaves a test alone
  pub count-update :
      (p q : R → Bool) (f : R → R) (rows : List R)
      → ((r : R) → p (f r) ≡ p r)
      → count p (update q f rows) ≡ count p rows
  unfolding count update
  count-update p q f [] h = refl
  count-update p q f (r ∷ rows) h = ground (arith, h r, count-update p q f rows h)

  pub any-update :
      (p q : R → Bool) (f : R → R) (rows : List R)
      → ((r : R) → p (f r) ≡ p r)
      → any p (update q f rows) ≡ any p rows
  unfolding any update
  any-update p q f [] h = refl
  any-update p q f (r ∷ rows) h = ground (arith, h r, any-update p q f rows h)

  pub find-update :
      (p q : R → Bool) (f : R → R) (rows : List R)
      → ((r : R) → p (f r) ≡ p r)
      → find p (update q f rows) ≡ map_row (touched q f) (find p rows)
  unfolding find update
  find-update p q f [] h = refl
  find-update p q f (r ∷ rows) h = ground (arith, h r, find-update p q f rows h)

  pub find-append :
      (p : R → Bool) (xs : List R) (y : R)
      → find p (xs ++ y ∷ []) ≡ (if any p xs then find p xs else if p y then some y else none)
  unfolding find any
  find-append p [] y = ground arith
  find-append p (x ∷ xs) y = ground (arith, find-append p xs y)

  pub find-none : (p : R → Bool) (xs : List R) → any p xs ≡ false → find p xs ≡ none
  unfolding find any
  find-none p [] h = refl
  find-none p (x ∷ xs) h = ground (arith, find-none p xs)

  pub find-passes : (p : R → Bool) (xs : List R) (r : R) → find p xs ≡ some r → p r ≡ true
  unfolding find
  find-passes p [] r h = absurd (cc)
  find-passes p (x ∷ xs) r h = ground (arith, find-passes p xs r)

  -- a query with one row returns the first match
  pub find_of_select :
      (p : R → Bool) (xs : List R) {r : R} {rest : List R}
      → select p xs ≡ r ∷ rest
      → find p xs ≡ some r
  unfolding find select
  find_of_select p [] h = absurd (cc)
  find_of_select p (x ∷ xs) {r} {rest} h = ground (arith, find_of_select p xs {r = r} {rest = rest})

  select-nil : (p : R → Bool) (xs : List R) → count p xs ≡ 0 → select p xs ≡ []
  unfolding select count
  select-nil p [] h = refl
  select-nil p (x ∷ xs) h = ground (arith, select-nil p xs)

  find-eq-none : (p : R → Bool) (xs : List R) → count p xs ≡ 0 → find p xs ≡ none
  unfolding find count
  find-eq-none p [] h = refl
  find-eq-none p (x ∷ xs) h = ground (arith, find-eq-none p xs)

  pub select_of_count :
      (p : R → Bool) (xs : List R)
      → count p xs ≤ 1
      → select p xs ≡ elim (find p xs) [ none ↦ [] | some r ↦ r ∷ [] ]
  unfolding find select count
  select_of_count p [] h = refl
  select_of_count p (x ∷ xs) h =
      ground (arith, select_of_count p xs, select-nil p xs, find-eq-none p xs)

  -- a row found by one test counts for the other test that it passes
  pub count_of_find :
      (p q : R → Bool) (xs : List R) {r : R} → find p xs ≡ some r → q r ≡ true → 1 ≤ count q xs
  unfolding find count
  count_of_find p q [] h k = absurd (cc)
  count_of_find p q (x ∷ xs) {r} h k = ground (arith, count_of_find p q xs {r = r})

  -- where one test allows one row only, a row that passes both is the first to pass either
  pub find_same :
      (p q : R → Bool) (xs : List R) {r : R}
      → find p xs ≡ some r
      → q r ≡ true
      → count q xs ≤ 1
      → find q xs ≡ some r
  unfolding find count
  find_same p q [] h k c = absurd (cc)
  find_same p q (x ∷ xs) {r} h k c =
      ground (arith, find_same p q xs {r = r}, count_of_find p q xs {r = r})

  pub select-update :
      (p q : R → Bool) (f : R → R) (rows : List R)
      → ((r : R) → p (f r) ≡ p r)
      → select p (update q f rows) ≡ map (touched q f) (select p rows)
  unfolding select update
  select-update p q f [] h = refl
  select-update p q f (r ∷ rows) h = ground (arith, h r, select-update p q f rows h)
