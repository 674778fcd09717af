-- ===== src/Processing/Queue.antt =====
-- What src/piki/db/processing.py promises of a message that waits: the queue does not lose it.
use buenpick_piki.Base.{
  ℕ, String, ◌≡◌, ◌≢◌, ◌≤◌, refl, Bool, true, false, ◌+◌, ◌-◌, ◌*◌, none, some, List, [], ◌∷◌, any,
  arith, inl, inr, Bool-cases, sym,
}
use mathlib.Core.Path.{subst}
use buenpick_piki.Base.Failure.{ok}
use buenpick_piki.Sql.{select, update}
use buenpick_piki.Sql.Laws.{find, any_of_find, find-update, find-passes}
use buenpick_piki.Db.Models.{Db, MessageRecord, Direction, pending, processing}
use buenpick_piki.Processing.Store.{
  claim_next, fail, transitioned, active_claim, is_claimable, message_is, conversation_is, second,
}
use buenpick_piki.Processing.Claims.{claim_next_empty}

select-cons {ℓ} :
    {R : Type ℓ} (p q : R → Bool) (rows : List R) (r : R)
    → find p rows ≡ some r
    → q r ≡ true
    → select q rows ≢ []
unfolding find select
select-cons p q [] r h k = absurd (cc)
select-cons p q (x ∷ rows) r h k = elim (Bool-cases (q x)) [
  | inl e ↦ rw e (λ n. absurd (cc))
  | inr e ↦ rw e (select-cons p q rows r (ground arith) k)
]

module _ (locked : ℕ → Bool) (i now claim_timeout_seconds : ℕ) (db : Db) (m : MessageRecord) where
  -- a row that may be claimed keeps the queue from being reported empty
  waiting_is_served :
      find (message_is i) db.messages ≡ some m
      → is_claimable locked now (now - claim_timeout_seconds * second) db m ≡ true
      → (claim_next locked now claim_timeout_seconds db).0 ≢ ok none
  waiting_is_served here passes empty =
      select-cons (message_is i) (is_claimable locked now (now - claim_timeout_seconds * second) db)
        db.messages m here passes ((claim_next_empty locked now claim_timeout_seconds db).0 empty)

  stale_passes :
      (claimed_at : ℕ)
      → m.direction ≡ Direction.inbound
      → m.processing_status ≡ some processing
      → m.processing_claimed_at ≡ some claimed_at
      → claimed_at + claim_timeout_seconds * second ≤ now
      → any (conversation_is m.conversation_id) db.conversations ≡ true
      → locked m.id ≡ false
      → is_claimable locked now (now - claim_timeout_seconds * second) db m ≡ true
  unfolding is_claimable
  stale_passes claimed_at d s c t a l = ground arith

  -- An unlocked inbound message of an existing conversation whose claim has timed out keeps
  -- `claim_next` from reporting an empty queue.
  lost_claim_is_served :
      (claimed_at : ℕ)
      → find (message_is i) db.messages ≡ some m
      → m.direction ≡ Direction.inbound
      → m.processing_status ≡ some processing
      → m.processing_claimed_at ≡ some claimed_at
      → claimed_at + claim_timeout_seconds * second ≤ now
      → any (conversation_is m.conversation_id) db.conversations ≡ true
      → locked m.id ≡ false
      → (claim_next locked now claim_timeout_seconds db).0 ≢ ok none
  lost_claim_is_served claimed_at here d s c t a l =
      waiting_is_served here (stale_passes claimed_at d s c t a l)

fail_effect :
    (now i : ℕ) (code : String) (db : Db)
    → any (active_claim i) db.messages ≡ true
    → fail now i code true db ≡ (
      ok tt,
      record db {
        messages =
            update
              (active_claim i)
              (transitioned pending (some code) (some (now + second)))
              db.messages;
      },
    )
unfolding fail
fail_effect now i code db h = ground arith

module _ (locked : ℕ → Bool) (i now later claim_timeout_seconds : ℕ) (code : String) (db : Db)
    (m : MessageRecord) where
  abbrev retried : MessageRecord → MessageRecord
  retried = transitioned pending (some code) (some (now + second))

  abbrev after_fail : Db
  after_fail = (fail now i code true db).1

  retried_passes :
      (rows : List MessageRecord)
      → m.direction ≡ Direction.inbound
      → any (conversation_is m.conversation_id) db.conversations ≡ true
      → now + second ≤ later
      → locked m.id ≡ false
      → is_claimable locked later
          (later - claim_timeout_seconds * second)
          record db { messages = rows }
          (retried m)
        ≡ true
  unfolding is_claimable
  retried_passes rows d a t l = ground arith

  -- After a claimed inbound message of an existing conversation fails with a retry, a claim at
  -- least one second later does not report an empty queue, if the message is not locked.
  pub retried_is_served :
      find (message_is i) db.messages ≡ some m
      → m.direction ≡ Direction.inbound
      → m.processing_status ≡ some processing
      → any (conversation_is m.conversation_id) db.conversations ≡ true
      → now + second ≤ later
      → locked m.id ≡ false
      → (claim_next locked later claim_timeout_seconds after_fail).0 ≢ ok none
  retried_is_served here d s a t l =
      let passes : active_claim i m ≡ true =
        ground (arith, find-passes (message_is i) db.messages m here) in
      let left =
        fail_effect now i code db
          (any_of_find (message_is i) (active_claim i) db.messages m here passes) in
      subst (λ o. (claim_next locked later claim_timeout_seconds o.1).0 ≢ ok none) (sym left)
        (waiting_is_served locked i later claim_timeout_seconds _ (retried m)
          (rw
            (
              find-update (message_is i) (active_claim i) retried db.messages (λ r. refl),
              here,
              passes,
            )
            refl)
          (retried_passes (update (active_claim i) retried db.messages) d a t l))
