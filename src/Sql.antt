-- ===== src/Sql.antt =====
-- The meaning of the SQL statements that src/piki/db and src/piki/delivery build with SQLAlchemy:
-- a table is its list of rows, in the order in which they were inserted.
pub mod Laws
pub mod Bind
use buenpick_piki.Base.{Bool, Option, none, some, List, [], ◌∷◌, ◌++◌, if◌then◌else◌}
use buenpick_piki.Base.Failure.{
  Result, ok, err, integrity_error, no_result_found, multiple_results_found,
}

-- what follows a fallible step
infixl 5 ◌>>=◌
abbrev pub ◌>>=◌ {ℓ κ} : {A : Type ℓ} {B : Type κ} → Result A → (A → Result B) → Result B
ok a >>= f = f a
err e >>= f = err e

module _ {ℓ} {R : Type ℓ} where
  -- SELECT … WHERE p
  unfoldable pub select : (R → Bool) → List R → List R
  select p [] = []
  select p (r ∷ rows) = let rest = select p rows in if p r then r ∷ rest else rest

  -- UPDATE … SET f WHERE p
  unfoldable pub update : (R → Bool) → (R → R) → List R → List R
  update p f [] = []
  update p f (r ∷ rows) = (if p r then f r else r) ∷ update p f rows

  -- INSERT … ON CONFLICT DO NOTHING RETURNING: `conflict` says that a row breaks the named
  -- constraint, `violation` that the insertion breaks one that is not named.
  unfoldable pub insert_or_nothing : Bool → Bool → R → List R → Result (Option R × List R)
  insert_or_nothing conflict violation r rows =
      if conflict
      then ok (none, rows)
      else if violation
      then err integrity_error
      else ok (some r, rows ++ r ∷ [])

  -- INSERT
  unfoldable pub insert : Bool → R → List R → Result (List R)
  insert violation r rows = if violation then err integrity_error else ok (rows ++ r ∷ [])

  -- `.one_or_none()` and `.one()` on the rows of a query
  unfoldable pub one_or_none : List R → Result (Option R)
  one_or_none [] = ok none
  one_or_none (r ∷ []) = ok (some r)
  one_or_none (_ ∷ _ ∷ _) = err multiple_results_found

  unfoldable pub one : List R → Result R
  one [] = err no_result_found
  one (r ∷ []) = ok r
  one (_ ∷ _ ∷ _) = err multiple_results_found
