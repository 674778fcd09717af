-- ===== src/Processing/Leases.antt =====
-- A claim of src/piki/db/processing.py as a lease: until it runs out, no other claim takes the
-- message.
use buenpick_piki.Base.{
  ℕ, String, ◌≡◌, ◌≢◌, ◌≤◌, ◌<◌, refl, Bool, true, false, ◌+◌, ◌-◌, ◌*◌, Option, some, List, ◌==◌,
  count, arith, sym,
}
use mathlib.Core.Path.{subst}
use buenpick_piki.Base.Failure.{Result, ok}
use buenpick_piki.Sql.{update}
use buenpick_piki.Sql.Laws.{
  find, find-update, find-passes, map_row, touched, All-find, All-select, count-update,
}
use buenpick_piki.Domain.Messages.{validate_text_message}
use buenpick_piki.Db.Models.{Db, MessageRecord, ConversationRecord}
use buenpick_piki.Processing.Store.{
  ClaimedInbound, claim_next, give, is_claimable, message_is, claimed_row, second,
}
use buenpick_piki.Processing.Claims.{claim_next_takes, earliest-All}

abbrev pub OneId : Db → Type 0
OneId db = (i : ℕ) → count (message_is i) db.messages ≤ 1

give_ok :
    (m : MessageRecord) (c : ConversationRecord) (e : Option String) (job : ClaimedInbound)
    → give m c e ≡ ok job
    → (job.message_record_id ≡ m.id) × (job.attempts ≡ m.processing_attempts + 1)
unfolding give validate_text_message
give_ok m c e job h = ground arith

claims :
    (i now : ℕ) (m : MessageRecord)
    → (m.id == i) ≡ true
    → map_row (touched (message_is i) (claimed_row now)) (some m) ≡ some (claimed_row now m)
claims i now m h = rw h refl

found_again :
    (i now : ℕ) (m : MessageRecord) (rows : List MessageRecord)
    → find (message_is i) rows ≡ some m
    → find (message_is i) (update (message_is i) (claimed_row now) rows) ≡ some (claimed_row now m)
found_again i now m rows h =
    rw (find-update (message_is i) (message_is i) (claimed_row now) rows (λ r. refl), h)
      (claims i now m (find-passes (message_is i) rows m h))

module _ (locked : ℕ → Bool) (now claim_timeout_seconds : ℕ) (db : Db) (one_id : OneId db) where
  abbrev outcome : Result (Option ClaimedInbound) × Db
  outcome = claim_next locked now claim_timeout_seconds db

  -- the row that a claim rewrites
  pub claimed_row_is :
      (job : ClaimedInbound)
      → outcome.0 ≡ ok (some job)
      → (m : MessageRecord) × (outcome.1
          ≡ record db { messages = update (message_is m.id) (claimed_row now) db.messages })
        × (find (message_is m.id) db.messages ≡ some m)
        × (is_claimable locked now (now - claim_timeout_seconds * second) db m ≡ true)
        × (job.message_record_id ≡ m.id)
        × (job.attempts ≡ m.processing_attempts + 1)
  claimed_row_is job h =
      let (m, c, rest) = claim_next_takes locked now claim_timeout_seconds db job h in
      let (e, passes, least, conv, given, left) = rest in
      let (same, tries) = give_ok m c m.external_message_id job given in
      (
        m,
        left,
        earliest-All (λ n. find (message_is n.id) db.messages ≡ some n) _ e
            (All-select _ _ db.messages (All-find (λ n. n.id) db.messages one_id)),
        passes,
        same,
        tries,
      )

  -- The row that a job names was claimable, and the claim rewrites it as a claimed one.
  pub claimed_is_row :
      (job : ClaimedInbound)
      → outcome.0 ≡ ok (some job)
      → (m : MessageRecord) × (find (message_is job.message_record_id) db.messages ≡ some m)
        × (is_claimable locked now (now - claim_timeout_seconds * second) db m ≡ true)
        × (job.attempts ≡ m.processing_attempts + 1)
        × (find (message_is job.message_record_id) outcome.1.messages ≡ some (claimed_row now m))
  claimed_is_row job h =
      let (m, left, here, passes, same, tries) = claimed_row_is job h in
      (
        m,
        subst (λ k. find (message_is k) db.messages ≡ some m) (sym same) here,
        passes,
        tries,
        rw (same, left) (found_again m.id now m db.messages here),
      )

  pub claim_next-OneId : (job : ClaimedInbound) → outcome.0 ≡ ok (some job) → OneId outcome.1
  claim_next-OneId job h i =
      let (m, left, _, _, _, _) = claimed_row_is job h in
      rw left (
        subst (λ n. n ≤ 1)
          (sym (
            count-update (message_is i) (message_is m.id) (claimed_row now) db.messages
              (λ r. refl)))
          (one_id i))

pub same_row : {x : Option MessageRecord} {m n : MessageRecord} → x ≡ some n → x ≡ some m → n ≡ m
same_row h k = ground arith

pub absurd_of : {b : Bool} → b ≡ true → b ≡ false → ⊥
absurd_of h k = absurd (cc)

not_stale :
    (locked : ℕ → Bool) (now taken timeout : ℕ) (db : Db) (m : MessageRecord)
    → 0 < taken
    → now < taken + timeout
    → is_claimable locked now (now - timeout) db (claimed_row taken m) ≡ false
unfolding is_claimable
not_stale locked now taken timeout db m h k = ground arith

module _ (locked locked_later : ℕ → Bool) (now later claim_timeout_seconds : ℕ) (db : Db)
    (one_id : OneId db) where
  abbrev first : Result (Option ClaimedInbound) × Db
  first = claim_next locked now claim_timeout_seconds db

  abbrev again : Result (Option ClaimedInbound) × Db
  again = claim_next locked_later later claim_timeout_seconds first.1

  -- Where message identifiers are unique and the first claim is at a positive time, two successive
  -- claims of the queue, whatever rows are locked, hand out different messages if the second one
  -- comes before the first claim's timeout has passed.
  pub claim_twice_apart :
      (job job' : ClaimedInbound)
      → 0 < now
      → later < now + claim_timeout_seconds * second
      → first.0 ≡ ok (some job)
      → again.0 ≡ ok (some job')
      → job'.message_record_id ≢ job.message_record_id
  claim_twice_apart job job' pos in_time h k same =
      let (m, found, passes, tries, now_is) =
        claimed_is_row locked now claim_timeout_seconds db one_id job h in
      let (n, found', passes', tries', now_is') =
        claimed_is_row locked_later later claim_timeout_seconds first.1
          (claim_next-OneId locked now claim_timeout_seconds db one_id job h) job' k in
      let is_row : n ≡ claimed_row now m =
        same_row (subst (λ i. find (message_is i) first.1.messages ≡ some n) same found') now_is in
      absurd_of
        (subst
          (λ r.
            is_claimable locked_later later (later - claim_timeout_seconds * second) first.1 r
            ≡ true)
          is_row passes')
        (not_stale locked_later later now (claim_timeout_seconds * second) first.1 m pos in_time)
