-- ===== src/Conversations/History.antt =====
-- The history that `recent_messages` of src/piki/db/conversations.py returns.
use buenpick_piki.Base.{
  ℕ, zero, suc, ◌≡◌, ◌≤◌, refl, true, false, List, [], ◌∷◌, ◌++◌, ◌==◌, ltb, map, take, length, All,
  All-map, if◌then◌else◌, arith, inl, inr, Bool-cases, ◌⊎◌, sym,
}
use mathlib.Core.Path.{subst, ap}
use mathlib.Core.List.{Perm}
use mathlib.Core.List.Perm
use buenpick_piki.Base.Failure.{ok}
use buenpick_piki.Sql.{select}
use buenpick_piki.Db.Models.{Db, MessageRecord}
use buenpick_piki.Conversations.Store.{
  stored_message, is_newer, insert_newest, newest_first, in_conversation, reversed, recent_messages,
}

-- no later element is newer
abbrev pub Sorted : List MessageRecord → Type 0
Sorted [] = Unit
Sorted (m ∷ rows) = All (λ n. is_newer n m ≡ false) rows × Sorted rows

newer_trans :
    (a b c x y z : ℕ)
    → (if b == a then ltb x y else ltb a b) ≡ false
    → (if c == b then ltb y z else ltb b c) ≡ false
    → (if c == a then ltb x z else ltb a c) ≡ false
newer_trans a b c x y z h k = ground arith

is_newer_trans :
    (m n o : MessageRecord) → is_newer n m ≡ false → is_newer o n ≡ false → is_newer o m ≡ false
is_newer_trans m n o h k = newer_trans m.created_at n.created_at o.created_at m.id n.id o.id h k

is_newer_asym : (m n : MessageRecord) → is_newer n m ≡ true → is_newer m n ≡ false
is_newer_asym m n h = ground arith

insert-All :
    (P : MessageRecord → Type 0) (m : MessageRecord) (rows : List MessageRecord)
    → P m
    → All P rows
    → All P (insert_newest m rows)
unfolding insert_newest
insert-All P m [] h v = (h, tt)
insert-All P m (n ∷ rows) h v = elim (Bool-cases (is_newer n m)) [
  | inl e ↦ rw e (v.0, insert-All P m rows h v.1)
  | inr e ↦ rw e (h, v)
]

insert-Sorted :
    (m : MessageRecord) (rows : List MessageRecord) → Sorted rows → Sorted (insert_newest m rows)
unfolding insert_newest
insert-Sorted m [] s = (tt, tt)
insert-Sorted m (n ∷ rows) s = elim (Bool-cases (is_newer n m)) [
  | inl e ↦ rw e (
    insert-All (λ o. is_newer o n ≡ false) m rows (is_newer_asym m n e) s.0,
    insert-Sorted m rows s.1,
  )
  | inr e ↦ rw e ((e, All-map rows (λ o h. is_newer_trans m n o e h) s.0), s)
]

newest_first-Sorted : (rows : List MessageRecord) → Sorted (newest_first rows)
unfolding newest_first
newest_first-Sorted [] = tt
newest_first-Sorted (m ∷ rows) = insert-Sorted m (newest_first rows) (newest_first-Sorted rows)

insert-Perm :
    (m : MessageRecord) (rows : List MessageRecord) → Perm (m ∷ rows) (insert_newest m rows)
unfolding insert_newest
insert-Perm m [] = Perm.rfl
insert-Perm m (n ∷ rows) = elim (Bool-cases (is_newer n m)) [
  | inl e ↦ rw e (Perm.trans (Perm.swap n m rows) (Perm.cons n (insert-Perm m rows)))
  | inr e ↦ rw e Perm.rfl
]

newest_first-Perm : (rows : List MessageRecord) → Perm rows (newest_first rows)
unfolding newest_first
newest_first-Perm [] = Perm.nil
newest_first-Perm (m ∷ rows) =
    Perm.trans (Perm.cons m (newest_first-Perm rows)) (insert-Perm m (newest_first rows))

-- what `LIMIT n` leaves out
drop : {A : Type 0} → ℕ → List A → List A
drop zero xs = xs
drop (suc n) [] = []
drop (suc n) (x ∷ xs) = drop n xs

take-drop : {A : Type 0} (n : ℕ) (xs : List A) → take n xs ++ drop n xs ≡ xs
unfolding drop
take-drop zero xs = refl
take-drop (suc n) [] = refl
take-drop (suc n) (x ∷ xs) = ap (λ r. x ∷ r) (take-drop n xs)

length-take :
    {A : Type 0} (n : ℕ) (xs : List A)
    → (length (take n xs) ≡ n) ⊎ ((length (take n xs) ≤ n) × (drop n xs ≡ []))
unfolding drop
length-take zero xs = inl refl
length-take (suc n) [] = inr (omega arith, refl)
length-take (suc n) (x ∷ xs) = elim (length-take n xs) [
  | inl e ↦ inl (ap suc e)
  | inr (h, e) ↦ inr (omega (arith, h), e)
]

module _ (conversation limit : ℕ) (db : Db) where
  abbrev History : List MessageRecord → List MessageRecord → Type 0
  History kept left_out =
      (recent_messages conversation limit db ≡ ok (map stored_message (reversed kept)))
      × Perm (select (in_conversation conversation) db.messages) (kept ++ left_out)
      × Sorted (kept ++ left_out)
      × ((length kept ≡ limit) ⊎ ((length kept ≤ limit) × (left_out ≡ [])))

  -- With a limit from 1 to 100, `recent_messages` returns, oldest first, the newest messages of
  -- the conversation: the kept and the left out ones are together a permutation of its rows,
  -- sorted from the newest, and as many are kept as the limit, or all of them.
  pub recent_messages_lem :
      1 ≤ limit
      → limit ≤ 100
      → (kept : List MessageRecord) × (left_out : List MessageRecord) × History kept left_out
  unfolding recent_messages
  recent_messages_lem lo hi =
      let rows = newest_first (select (in_conversation conversation) db.messages) in
      let whole = take-drop limit rows in
      (
        take limit rows,
        drop limit rows,
        (
          ground arith,
          subst (λ r. Perm (select (in_conversation conversation) db.messages) r) (sym whole)
              (newest_first-Perm (select (in_conversation conversation) db.messages)),
          subst Sorted (sym whole)
              (newest_first-Sorted (select (in_conversation conversation) db.messages)),
          length-take limit rows,
        ),
      )
