-- ===== src/Processing/Claims.antt =====
-- `claim_next` of src/piki/db/processing.py: which message it takes, and what it leaves.
use buenpick_piki.Base.{
  ℕ, ◌≡◌, ◌≢◌, refl, Bool, true, false, ◌-◌, ◌*◌, Option, none, some, List, [], ◌∷◌, any, All,
  All-map, arith, inl, inr, Bool-cases, Option-cases, ◌⊎◌, ◌↔◌,
}
use mathlib.Core.Path.{subst}
use buenpick_piki.Base.Failure.{Result, ok, err}
use buenpick_piki.Sql.{select, update}
use buenpick_piki.Sql.Laws.{find, select-All, find_of_any}
use buenpick_piki.Db.Models.{Db, MessageRecord, ConversationRecord}
use buenpick_piki.Processing.Store.{
  ClaimedInbound, give, conversation_is, claim_next, is_claimable, earliest, is_earlier,
  comes_before, message_is, claimed_row, second,
}

pub earliest-All :
    (P : MessageRecord → Type 0) (xs : List MessageRecord) {m : MessageRecord}
    → earliest xs ≡ some m
    → All P xs
    → P m
unfolding earliest
earliest-All P [] h v = absurd (cc)
earliest-All P (x ∷ xs) {m} h v = elim (Option-cases (earliest xs)) [
  | inl e ↦ subst P (ground arith) v.0
  | inr (n, e) ↦ elim (Bool-cases (is_earlier n x)) [
    | inl b ↦ subst P (ground arith) (earliest-All P xs e v.1)
    | inr b ↦ subst P (ground arith) v.0
  ]
]

-- the row that is chosen is among the rows, and none of them comes before it
before_trans :
    (a : Option ℕ) (x : ℕ) (b : Option ℕ) (y : ℕ) (c : Option ℕ) (z : ℕ)
    → comes_before a x b y ≡ false
    → comes_before b y c z ≡ false
    → comes_before a x c z ≡ false
unfolding comes_before
before_trans a x b y c z h k = ground arith

before_asym :
    (a : Option ℕ) (x : ℕ) (b : Option ℕ) (y : ℕ)
    → comes_before a x b y ≡ true
    → comes_before b y a x ≡ false
unfolding comes_before
before_asym a x b y h = ground arith

before_irrefl : (a : Option ℕ) (x : ℕ) → comes_before a x a x ≡ false
unfolding comes_before
before_irrefl a x = ground arith

earliest-none : (xs : List MessageRecord) → earliest xs ≡ none → xs ≡ []
unfolding earliest
earliest-none [] h = refl
earliest-none (x ∷ xs) h = absurd (cc)

-- no row comes before the row that is chosen
earliest_least :
    (xs : List MessageRecord) (m : MessageRecord)
    → earliest xs ≡ some m
    → All (λ n. is_earlier n m ≡ false) xs
unfolding earliest
earliest_least [] m h = tt
earliest_least (x ∷ xs) m h = elim (Option-cases (earliest xs)) [
  | inl e ↦ rw (earliest-none xs e) (
      subst (λ z. (is_earlier x z ≡ false) × Unit {0}) {x = x} {y = m} (ground arith)
        (before_irrefl x.processing_available_at x.created_at, tt))
  | inr (n, e) ↦ elim (Bool-cases (is_earlier n x)) [
    | inl b ↦
        subst (λ z. All (λ y. is_earlier y z ≡ false) (x ∷ xs)) {x = n} {y = m} (ground arith)
          (
            before_asym n.processing_available_at n.created_at x.processing_available_at
                x.created_at b,
            earliest_least xs n e,
          )
    | inr b ↦
        subst (λ z. All (λ y. is_earlier y z ≡ false) (x ∷ xs)) {x = x} {y = m} (ground arith)
          (
            before_irrefl x.processing_available_at x.created_at,
            All-map xs
                (λ y l.
                  before_trans y.processing_available_at y.created_at n.processing_available_at
                    n.created_at x.processing_available_at x.created_at l b)
                (earliest_least xs n e),
          )
  ]
]

-- the rows that a claim chooses from
abbrev pub claimable : (ℕ → Bool) → ℕ → ℕ → Db → List MessageRecord
claimable locked now claim_timeout_seconds db =
    select (is_claimable locked now (now - claim_timeout_seconds * second) db) db.messages

module _ (locked : ℕ → Bool) (now claim_timeout_seconds : ℕ) (db : Db) where
  abbrev outcome : Result (Option ClaimedInbound) × Db
  outcome = claim_next locked now claim_timeout_seconds db

  abbrev rows : List MessageRecord
  rows = claimable locked now claim_timeout_seconds db

  -- what the joined rows and `give` decide
  abbrev decided : MessageRecord → Result ClaimedInbound → Result (Option ClaimedInbound) × Db
  decided m (ok job) = (
    ok (some job),
    record db { messages = update (message_is m.id) (claimed_row now) db.messages },
  )
  decided m (err e) = (err e, db)

  outcome_of :
      (m : MessageRecord) (c : ConversationRecord) (g : Result ClaimedInbound)
      → earliest rows ≡ some m
      → find (conversation_is m.conversation_id) db.conversations ≡ some c
      → give m c m.external_message_id ≡ g
      → outcome ≡ decided m g
  unfolding claim_next
  outcome_of m c (ok job) h k l = ground arith
  outcome_of m c (err e) h k l = ground arith

  no_rows : earliest rows ≡ none → outcome ≡ (ok none, db)
  unfolding claim_next
  no_rows h = ground arith

  chosen :
      (m : MessageRecord)
      → earliest rows ≡ some m
      → (is_claimable locked now (now - claim_timeout_seconds * second) db m ≡ true)
        × (any (conversation_is m.conversation_id) db.conversations ≡ true)
  unfolding is_claimable
  chosen m h =
      let passes : is_claimable locked now (now - claim_timeout_seconds * second) db m ≡ true =
        earliest-All _ rows h (select-All _ db.messages) in
      (passes, ground arith)

  -- A job comes from the row `m` and the conversation `c`, and the claim marks that row only.
  abbrev pub TakenFrom : ClaimedInbound → MessageRecord → ConversationRecord → Type 0
  TakenFrom job m c =
      (earliest rows ≡ some m)
      × (is_claimable locked now (now - claim_timeout_seconds * second) db m ≡ true)
      × All (λ n. is_earlier n m ≡ false) rows
      × (find (conversation_is m.conversation_id) db.conversations ≡ some c)
      × (give m c m.external_message_id ≡ ok job)
      × (outcome.1
          ≡ record db { messages = update (message_is m.id) (claimed_row now) db.messages })

  taken :
      (job : ClaimedInbound) (m : MessageRecord) (c : ConversationRecord)
      (g : Result ClaimedInbound)
      → earliest rows ≡ some m
      → find (conversation_is m.conversation_id) db.conversations ≡ some c
      → give m c m.external_message_id ≡ g
      → outcome.0 ≡ ok (some job)
      → TakenFrom job m c
  taken job m c (err e) h k l o = absurd (ground (arith, outcome_of m c (err e) h k l))
  taken job m c (ok job') h k l o = (
    h,
    (chosen m h).0,
    earliest_least rows m h,
    k,
    ground (arith, outcome_of m c (ok job') h k l),
    ground (arith, outcome_of m c (ok job') h k l),
  )

  takes :
      (job : ClaimedInbound) (o : Option MessageRecord)
      → earliest rows ≡ o
      → outcome.0 ≡ ok (some job)
      → (m : MessageRecord) × (c : ConversationRecord) × TakenFrom job m c
  takes job none h o = absurd (ground (arith, no_rows h))
  takes job (some m) h o =
      let (c, k) =
        find_of_any (conversation_is m.conversation_id) db.conversations (chosen m h).1 in
      (m, c, taken job m c _ h k refl o)

  -- A job that `claim_next` hands out comes from a row that may be claimed and that no claimable
  -- row precedes in the queue's order; its message is rebuilt from the row and its conversation,
  -- and the claim marks the row with that identifier and changes nothing else.
  pub claim_next_takes :
      (job : ClaimedInbound)
      → outcome.0 ≡ ok (some job)
      → (m : MessageRecord) × (c : ConversationRecord) × TakenFrom job m c
  claim_next_takes job h = takes job (earliest rows) refl h

  answers : (o : Option MessageRecord) → earliest rows ≡ o → rows ≢ [] → outcome.0 ≢ ok none
  answers none h n = absurd (n (earliest-none rows h))
  answers (some m) h n =
      let (c, k) =
        find_of_any (conversation_is m.conversation_id) db.conversations (chosen m h).1 in
      given m c _ h k refl
    where
      given :
          (m : MessageRecord) (c : ConversationRecord) (g : Result ClaimedInbound)
          → earliest rows ≡ some m
          → find (conversation_is m.conversation_id) db.conversations ≡ some c
          → give m c m.external_message_id ≡ g
          → outcome.0 ≢ ok none
      given m c (ok job) h k l = ground (arith, outcome_of m c (ok job) h k l)
      given m c (err e) h k l = ground (arith, outcome_of m c (err e) h k l)

  only_empty : (xs : List MessageRecord) → rows ≡ xs → outcome.0 ≡ ok none → xs ≡ []
  only_empty [] h o = refl
  only_empty (m ∷ xs) h o = absurd (answers _ refl (λ e. cc) o)

  -- The queue is reported empty exactly when no row may be claimed.
  pub claim_next_empty : (outcome.0 ≡ ok none) ↔ (rows ≡ [])
  unfolding earliest
  claim_next_empty = (only_empty rows refl, λ e. ground (arith, no_rows, e))

  effect_given :
      (m : MessageRecord) (c : ConversationRecord) (g : Result ClaimedInbound)
      → earliest rows ≡ some m
      → find (conversation_is m.conversation_id) db.conversations ≡ some c
      → give m c m.external_message_id ≡ g
      → (outcome.1 ≡ db) ⊎ ((job : ClaimedInbound) × (outcome.0 ≡ ok (some job)))
  effect_given m c (ok job) h k l = inr (job, ground (arith, outcome_of m c (ok job) h k l))
  effect_given m c (err e) h k l = inl (ground (arith, outcome_of m c (err e) h k l))

  effect_row :
      (o : Option MessageRecord)
      → earliest rows ≡ o
      → (outcome.1 ≡ db) ⊎ ((job : ClaimedInbound) × (outcome.0 ≡ ok (some job)))
  effect_row none h = inl (ground (arith, no_rows h))
  effect_row (some m) h =
      let (c, k) =
        find_of_any (conversation_is m.conversation_id) db.conversations (chosen m h).1 in
      effect_given m c _ h k refl

  -- a claim that hands out nothing changes nothing
  pub claim_effect : (outcome.1 ≡ db) ⊎ ((job : ClaimedInbound) × (outcome.0 ≡ ok (some job)))
  claim_effect = effect_row (earliest rows) refl
