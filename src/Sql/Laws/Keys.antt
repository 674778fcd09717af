-- ===== src/Sql/Laws/Keys.antt =====
-- Keys that are unique in a table, and predicates on all of its rows, through the SQL statements.
use buenpick_piki.Base.{
  ℕ, ◌≤◌, ◌≡◌, refl, Bool, true, false, Bool-cases, inl, inr, some, List, [], ◌∷◌, ◌++◌, arith, any,
  count, String, str_eq, eq_iff, ◌==◌, ==_iff, All, All-map, sym,
}
use mathlib.Core.Path.{subst}
use buenpick_piki.Sql.{select, update}
use buenpick_piki.Sql.Laws.Rows.{
  eq_self, find, count-append, count-eq-zero, find-passes, count_of_find,
}

module _ {ℓ} {R : Type ℓ} where
  -- an insertion that no row conflicts with keeps a key unique, for numbers and for texts
  pub unique-insert_number :
      (key : R → ℕ) (rows : List R) (r : R) (j : ℕ)
      → any (λ x. key x == key r) rows ≡ false
      → count (λ x. key x == j) rows ≤ 1
      → count (λ x. key x == j) (rows ++ r ∷ []) ≤ 1
  unfolding count
  unique-insert_number key rows r j h k = elim (Bool-cases (key r == j)) [
    | inl e ↦
        let same : key r ≡ j = (==_iff (key r) j).0 e in
        let none_there : count (λ x. key x == j) rows ≡ 0 =
          subst (λ n. count (λ x. key x == n) rows ≡ 0) same (count-eq-zero _ rows h) in
        rw count-append (rw (none_there, e) (omega arith))
    | inr e ↦ rw count-append (rw e (omega arith))
  ]

  pub unique-insert_text :
      (key : R → String) (rows : List R) (r : R) (j : String)
      → any (λ x. str_eq (key x) (key r)) rows ≡ false
      → count (λ x. str_eq (key x) j) rows ≤ 1
      → count (λ x. str_eq (key x) j) (rows ++ r ∷ []) ≤ 1
  unfolding count
  unique-insert_text key rows r j h k = elim (Bool-cases (str_eq (key r) j)) [
    | inl e ↦
        let same : key r ≡ j = (eq_iff (key r) j).0 e in
        let none_there : count (λ x. str_eq (key x) j) rows ≡ 0 =
          subst (λ n. count (λ x. str_eq (key x) n) rows ≡ 0) same (count-eq-zero _ rows h) in
        rw count-append (rw (none_there, e) (omega arith))
    | inr e ↦ rw count-append (rw e (omega arith))
  ]

  pub update-none :
      (q : R → Bool) (f : R → R) (rows : List R) → count q rows ≡ 0 → update q f rows ≡ rows
  unfolding update count
  update-none q f [] h = refl
  update-none q f (r ∷ rows) h = ground (arith, update-none q f rows)

  -- an update that one row passes changes that row only
  pub All-update_one {κ} :
      (P : R → Type κ) (q : R → Bool) (f : R → R) (rows : List R) (b : R)
      → find q rows ≡ some b
      → count q rows ≤ 1
      → (P b → P (f b))
      → All P rows
      → All P (update q f rows)
  unfolding update count find
  All-update_one P q f [] b h u k v = tt
  All-update_one P q f (r ∷ rows) b h u k v = elim (Bool-cases (q r)) [
    | inl e ↦
        let same : r ≡ b = ground arith in
        let rest : update q f rows ≡ rows = update-none q f rows (ground arith) in
        rw (e, rest) (subst (λ x. P (f x)) (sym same) (k (subst P same v.0)), v.1)
    | inr e ↦ rw e (v.0, All-update_one P q f rows b (ground arith) (ground arith) k v.1)
  ]

  pub All-update {κ} :
      (P : R → Type κ) (q : R → Bool) (f : R → R) (rows : List R)
      → ((r : R) → q r ≡ true → P r → P (f r))
      → All P rows
      → All P (update q f rows)
  unfolding update
  All-update P q f [] h v = tt
  All-update P q f (r ∷ rows) h v = elim (Bool-cases (q r)) [
    | inl e ↦ rw e (h r e v.0, All-update P q f rows h v.1)
    | inr e ↦ rw e (v.0, All-update P q f rows h v.1)
  ]

  pub find_of_any : (p : R → Bool) (xs : List R) → any p xs ≡ true → (r : R) × (find p xs ≡ some r)
  unfolding find any
  find_of_any p [] h = absurd (cc)
  find_of_any p (x ∷ xs) h = elim (Bool-cases (p x)) [
    | inl e ↦ (x, rw e)
    | inr e ↦ rw e (find_of_any p xs (ground arith))
  ]

  -- a row found by one test counts for the other test that it passes
  pub any_of_find :
      (p q : R → Bool) (rows : List R) (r : R)
      → find p rows ≡ some r
      → q r ≡ true
      → any q rows ≡ true
  unfolding find any
  any_of_find p q [] r h k = absurd (cc)
  any_of_find p q (x ∷ rows) r h k = ground (arith, any_of_find p q rows r)

  pub All-select {κ} :
      (P : R → Type κ) (p : R → Bool) (xs : List R) → All P xs → All P (select p xs)
  unfolding select
  All-select P p [] h = tt
  All-select P p (x ∷ xs) h = elim (Bool-cases (p x)) [
    | inl e ↦ rw e (h.0, All-select P p xs h.1)
    | inr e ↦ rw e (All-select P p xs h.1)
  ]

  -- an element of a selection passes its test
  pub select-All : (p : R → Bool) (xs : List R) → All (λ x. p x ≡ true) (select p xs)
  unfolding select
  select-All p [] = tt
  select-All p (x ∷ xs) = elim (Bool-cases (p x)) [
    | inl e ↦ rw e (e, select-All p xs)
    | inr e ↦ rw e (select-All p xs)
  ]

  find-cons :
      (key : R → ℕ) (x : R) (xs : List R) (r : R)
      → count (λ s. key s == key r) (x ∷ xs) ≤ 1
      → find (λ s. key s == key r) xs ≡ some r
      → find (λ s. key s == key r) (x ∷ xs) ≡ some r
  unfolding find count
  find-cons key x xs r u h = ground (
    arith,
    count_of_find (λ s. key s == key r) (λ s. key s == key r) xs h
        (find-passes (λ s. key s == key r) xs r h),
  )

  -- where a key is unique, each row is the one that its key finds
  pub All-find :
      (key : R → ℕ) (xs : List R)
      → ((i : ℕ) → count (λ s. key s == i) xs ≤ 1)
      → All (λ r. find (λ s. key s == key r) xs ≡ some r) xs
  unfolding find count
  All-find key [] u = tt
  All-find key (x ∷ xs) u = (
    rw (eq_self (key x)),
    All-map xs (λ r h. find-cons key x xs r (u (key r)) h)
        (All-find key xs (λ i. ground (arith, u i))),
  )
