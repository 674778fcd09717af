-- ===== src/Handoffs/Requests.antt =====
-- What a request for a human leaves, in src/piki/db/handoffs.py.
use buenpick_piki.Base.{
  ℕ, ◌≡◌, ◌≤◌, refl, Bool, true, false, not, ◌||◌, ◌+◌, some, List, [], ◌∷◌, ◌++◌, ◌==◌, any, count,
  All, ==_iff, str_eq, eq_refl, if◌then◌else◌, arith, inl, inr, Bool-cases, Option-cases,
}
use mathlib.Core.Path.{subst}
use buenpick_piki.Base.Failure.{ok}
use buenpick_piki.Sql.{select, update, insert_or_nothing}
use buenpick_piki.Sql.Laws.{select-All, any-append, count-append, count-eq-zero, eq_self}
use buenpick_piki.Db.Models.{Db, ConversationRecord, HandoffRecord, needs_human, has_conversation}
use buenpick_piki.Handoffs.Store.{
  HandoffRequest, PersistedHandoff, is_older, open_in, key_in, answers, requested_row, conflicts,
  oldest, earlier, conversation_is, wants_human, persisted, request,
}

-- whether an earlier request stands for this one
abbrev pub is_answered : HandoffRequest → List HandoffRecord → Bool
is_answered r rows =
    any (key_in r.conversation_id r.idempotency_key) rows || any (open_in r.conversation_id) rows

select-answers :
    (r : HandoffRequest) (rows : List HandoffRecord)
    → is_answered r rows ≡ false
    → select (answers r) rows ≡ []
unfolding any select
select-answers r [] h = refl
select-answers r (x ∷ rows) h = ground (arith, select-answers r rows)

some_answers :
    (r : HandoffRequest) (rows : List HandoffRecord)
    → is_answered r rows ≡ true
    → select (answers r) rows ≡ []
    → ⊥
unfolding any select
some_answers r [] h e = absurd (cc)
some_answers r (x ∷ rows) h e = ground (arith, some_answers r rows)

oldest_of :
    (r : HandoffRequest) (rows : List HandoffRecord)
    → is_answered r rows ≡ true
    → (h : HandoffRecord) × (oldest (select (answers r) rows) ≡ some h)
unfolding oldest
oldest_of r rows h = from (select (answers r) rows) refl
  where
    from :
        (found : List HandoffRecord)
        → select (answers r) rows ≡ found
        → (h : HandoffRecord) × (oldest found ≡ some h)
    from [] e = absurd (some_answers r rows h e)
    from (x ∷ found) e = (_, refl)

select-append_one :
    (r : HandoffRequest) (rows : List HandoffRecord) (row : HandoffRecord)
    → select (answers r) rows ≡ []
    → answers r row ≡ true
    → select (answers r) (rows ++ row ∷ []) ≡ row ∷ []
unfolding select
select-append_one r [] row h a = rw a refl
select-append_one r (x ∷ rows) row h a = elim (Bool-cases (answers r x)) [
  | inl e ↦ absurd (ground arith)
  | inr e ↦ rw e (select-append_one r rows row (ground arith) a)
]

module _ (r : HandoffRequest) where
  abbrev pub marked : ℕ → List HandoffRecord → Db → Db
  marked now rows db = record db {
    handoffs = rows;
    conversations = update (conversation_is r.conversation_id) (wants_human now) db.conversations;
  }

  -- a request that an earlier one stands for
  old_request :
      (handoff now : ℕ) (db : Db) (h : HandoffRecord)
      → is_answered r db.handoffs ≡ true
      → oldest (select (answers r) db.handoffs) ≡ some h
      → request handoff now r db ≡ ok (persisted h false, marked now db.handoffs db)
  unfolding request insert_or_nothing earlier
  old_request handoff now db h a o = rw (conflict, o) refl
    where
      conflict : conflicts (requested_row handoff now r) db.handoffs ≡ true
      conflict = ground arith

  new_request :
      (handoff now : ℕ) (db : Db)
      → any (λ h. h.id == handoff) db.handoffs ≡ false
      → has_conversation r.conversation_id db ≡ true
      → is_answered r db.handoffs ≡ false
      → request handoff now r db
        ≡ ok (
          persisted (requested_row handoff now r) true,
          marked now (db.handoffs ++ requested_row handoff now r ∷ []) db,
        )
  unfolding request insert_or_nothing earlier
  new_request handoff now db fresh conv a = rw (conflict, conv) refl
    where
      conflict : conflicts (requested_row handoff now r) db.handoffs ≡ false
      conflict = ground arith

abbrev pub OneOpen : List HandoffRecord → Type 0
OneOpen rows = (c : ℕ) → count (open_in c) rows ≤ 1

-- what the first request leaves, and that the same request finds it again
abbrev pub Settled : HandoffRequest → PersistedHandoff → Db → Type 0
Settled r p db' =
    (p.conversation_id ≡ r.conversation_id)
    × (is_answered r db'.handoffs ≡ true)
    × OneOpen db'.handoffs
    × All (λ c. conversation_is r.conversation_id c ≡ true → c.status ≡ needs_human)
        db'.conversations
    × ((handoff now : ℕ)
        → request handoff now r db'
          ≡ ok (record p { created = false }, marked r now db'.handoffs db'))

oldest-All :
    (P : HandoffRecord → Type 0) (rows : List HandoffRecord) {h : HandoffRecord}
    → oldest rows ≡ some h
    → All P rows
    → P h
unfolding oldest
oldest-All P [] h v = absurd (cc)
oldest-All P (x ∷ xs) {h} e v = elim (Option-cases (oldest xs)) [
  | inl n ↦ subst P (ground arith) v.0
  | inr (g, k) ↦ elim (Bool-cases (is_older g x)) [
    | inl b ↦ subst P (ground arith) (oldest-All P xs k v.1)
    | inr b ↦ subst P (ground arith) v.0
  ]
]

marked_humans :
    (i now : ℕ) (rows : List ConversationRecord)
    → All
        (λ c. conversation_is i c ≡ true → c.status ≡ needs_human)
        (update (conversation_is i) (wants_human now) rows)
unfolding update
marked_humans i now [] = tt
marked_humans i now (c ∷ rows) = elim (Bool-cases (conversation_is i c)) [
  | inl e ↦ rw e (λ h. refl, marked_humans i now rows)
  | inr e ↦ rw e (λ h. absurd (cc), marked_humans i now rows)
]

open-append :
    (r : HandoffRequest) (rows : List HandoffRecord) (row : HandoffRecord)
    → row.conversation_id ≡ r.conversation_id
    → any (open_in r.conversation_id) rows ≡ false
    → OneOpen rows
    → OneOpen (rows ++ row ∷ [])
unfolding count
open-append r rows row h n one c = elim (Bool-cases (r.conversation_id == c)) [
  | inl e ↦
      let same : r.conversation_id ≡ c = (==_iff r.conversation_id c).0 e in
      let none_there : count (open_in c) rows ≡ 0 =
        subst (λ i. count (open_in i) rows ≡ 0) same (count-eq-zero _ rows n) in
      rw (count-append, none_there) (at_most_one (open_in c row))
  | inr e ↦ rw (count-append, h, e) (omega (arith, one c))
]
  where
    at_most_one : (b : Bool) → 0 + (if b then 1 else 0) ≤ 1
    at_most_one true = omega arith
    at_most_one false = omega arith

last_true : (a b s : Bool) → ((if a then true else s) || (if b then true else true)) ≡ true
last_true a b s = ground arith

module _ (r : HandoffRequest) (handoff now : ℕ) (db : Db) where
  abbrev Outcome : PersistedHandoff × Db → Type 0
  Outcome o =
      (request handoff now r db ≡ ok o)
      × (o.0.created ≡ not (is_answered r db.handoffs))
      × Settled r o.0 o.1

  answered_before :
      OneOpen db.handoffs
      → is_answered r db.handoffs ≡ true
      → (o : PersistedHandoff × Db) × Outcome o
  answered_before one a =
      let (h, o) = oldest_of r db.handoffs a in
      let passes : answers r h ≡ true =
        oldest-All (λ g. answers r g ≡ true) _ o (select-All (answers r) db.handoffs) in
      (
        (persisted h false, marked r now db.handoffs db),
        (
          old_request r handoff now db h a o,
          rw a refl,
          (
            (==_iff h.conversation_id r.conversation_id).0 (ground arith),
            a,
            one,
            marked_humans r.conversation_id now db.conversations,
            λ handoff' now'. old_request r handoff' now' (marked r now db.handoffs db) h a o,
          ),
        ),
      )

  abbrev row : HandoffRecord
  row = requested_row handoff now r

  answered_now :
      any (λ h. h.id == handoff) db.handoffs ≡ false
      → has_conversation r.conversation_id db ≡ true
      → OneOpen db.handoffs
      → is_answered r db.handoffs ≡ false
      → (o : PersistedHandoff × Db) × Outcome o
  unfolding oldest
  answered_now fresh conv one a =
      let itself : answers r row ≡ true =
        rw (eq_self r.conversation_id, eq_refl r.idempotency_key) refl in
      let none_open : any (open_in r.conversation_id) db.handoffs ≡ false = ground arith in
      let answered : is_answered r (db.handoffs ++ row ∷ []) ≡ true = rw any-append (
        rw any-append (
          rw (eq_self r.conversation_id) (
            last_true (any (key_in r.conversation_id r.idempotency_key) db.handoffs)
              (any (open_in r.conversation_id) db.handoffs)
              (str_eq r.idempotency_key r.idempotency_key)))) in
      (
        (persisted row true, marked r now (db.handoffs ++ row ∷ []) db),
        (
          new_request r handoff now db fresh conv a,
          rw a refl,
          (
            refl,
            answered,
            open-append r db.handoffs row refl none_open one,
            marked_humans r.conversation_id now db.conversations,
            λ handoff' now'.
                old_request r handoff' now' (marked r now (db.handoffs ++ row ∷ []) db) row answered
                  (rw (select-append_one r db.handoffs row (select-answers r db.handoffs a) itself)
                    refl),
          ),
        ),
      )

  -- With a fresh identifier, an existing conversation and at most one open request in each, a
  -- request for a human succeeds: it is created exactly when no request of the conversation is
  -- open or has its key, at most one stays open, the conversation needs a human, and any
  -- repetition returns the same request and creates none.
  pub request_settles :
      any (λ h. h.id == handoff) db.handoffs ≡ false
      → has_conversation r.conversation_id db ≡ true
      → OneOpen db.handoffs
      → (o : PersistedHandoff × Db) × Outcome o
  request_settles fresh conv one = elim (Bool-cases (is_answered r db.handoffs)) [
    | inl e ↦ answered_before one e
    | inr e ↦ answered_now fresh conv one e
  ]
