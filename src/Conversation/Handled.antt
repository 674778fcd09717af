-- ===== src/Conversation/Handled.antt =====
-- A claim of src/piki/conversation/worker.py is always settled: the message is completed, waits again or
-- has failed for good.
use buenpick_piki.Base.{
  ℕ, String, ◌≡◌, ◌⊎◌, inl, inr, refl, Bool, true, false, none, some, ltb, ap, sym, ◌∙◌,
  if◌then◌else◌,
}
use mathlib.Core.Path.{subst}
use buenpick_piki.Base.Failure.{Failure, Result, ok, err}
use buenpick_piki.Sql.Laws.{find}
use buenpick_piki.Domain.Delivery.{DeliveryRequest, DeliveryResult, validate_content}
use buenpick_piki.Db.Models.{Db, MessageRecord, completed}
use buenpick_piki.Processing.Store.{
  ClaimedInbound, message_is, claim_next, claimed_row, is_processing, transitioned, complete, fail,
}
use buenpick_piki.Processing.Leases.{OneId, claimed_is_row}
use buenpick_piki.Delivery.Service as Delivery
use buenpick_piki.Delivery.Service.{send}
use buenpick_piki.Coordination.Redis.{Redis}
use buenpick_piki.Conversation.Service.{Composer, ConversationReply}
use buenpick_piki.Conversation.Stable.{KeepsMessages}
use buenpick_piki.Conversation.Locked.{World, respond_persisted}
use buenpick_piki.Conversation.Sent.{send_messages}
use buenpick_piki.Conversation.Kept.{Stands}
use buenpick_piki.Conversation.Responded.{respond-Stands}
use buenpick_piki.Conversation.Settled.{failed_row, transitions, fails, claims_then}
use buenpick_piki.Conversation.Worker.{
  WorkerSettings, WorkerReadings, WorkerWorld, settle, is_accepted, delivery_code, answer, handle,
  handled_code, process_once, deliver, after_send, after_settle, after_fail, after_reply,
  with_reply, with_delivery, reply_request,
}

module _ (r : Redis) (sha256 normalize : String → String) (error_code : Failure → String)
    (s : WorkerSettings) (c : Composer) (adapter : DeliveryRequest → Result DeliveryResult)
    (locked : ℕ → Bool) (t : WorkerReadings) (keeps : KeepsMessages c) (job : ClaimedInbound)
    (m : MessageRecord) (is_claimed : is_processing m.processing_status ≡ true) where
  abbrev i : ℕ
  i = job.message_record_id

  -- a row after its claim: the message is completed, or failed for good, or failed and to be retried
  -- if its attempts are under the maximum
  abbrev pub Ended : MessageRecord → Type 0
  Ended row =
      (row ≡ transitioned completed none none m)
      ⊎ ((code : String) × ((row ≡ failed_row t.failed_at code false m)
            ⊎ (row ≡ failed_row t.failed_at code (ltb job.attempts s.max_attempts) m)))

  abbrev pub Ends : Db → Type 0
  Ends db = (row : MessageRecord) × (find (message_is i) db.messages ≡ some row) × Ended row

  -- a body that raised left the claim, and one that did not ended it
  abbrev Answered : Result (Unit {0}) × WorkerWorld r → Type 0
  Answered (err e, w) = Stands i m w.db
  Answered (ok _, w) = Ends w.db

  settled-Answered :
      (w : WorkerWorld r) (p : Result (Unit {0}) × Db)
      → p.0 ≡ ok tt
      → Ends p.1
      → Answered (after_settle r sha256 normalize error_code s c adapter locked w p)
  settled-Answered w (ok _, db) h ends = ends
  settled-Answered w (err e, db) h ends = absurd (cc)

  settle-Ends :
      (b : Bool) (code : String) (db : Db)
      → Stands i m db
      → let p = if b then complete i db else fail t.failed_at i code false db in
        (p.0 ≡ ok tt) × Ends p.1
  unfolding complete
  settle-Ends true code db h =
      let (done, row) = transitions i db m h is_claimed completed none none in
      (done, (transitioned completed none none m, row, inl refl))
  settle-Ends false code db h =
      let (done, row) = fails i db m h is_claimed t.failed_at code false in
      (done, (failed_row t.failed_at code false m, row, inr (code, inl refl)))

  sent-Answered :
      (w : WorkerWorld r) (o : Result DeliveryResult × Delivery.World)
      → Stands i m o.1.db
      → Answered (after_send r sha256 normalize error_code s c adapter locked t job w o)
  unfolding settle
  sent-Answered w (err e, d) h = h
  sent-Answered w (ok result, d) h =
      let (done, ends) =
        settle-Ends (is_accepted result.status) (delivery_code result.error_code) d.db h in
      settled-Answered (with_delivery r sha256 normalize error_code s c adapter locked w d)
        (settle t.failed_at job result d.db) done ends

  delivered-Answered :
      (w : WorkerWorld r) (x : Result DeliveryRequest)
      → Stands i m w.db
      → Answered (deliver r sha256 normalize error_code s c adapter locked t job w x)
  delivered-Answered w (err e) h = h
  delivered-Answered w (ok request) h =
      let v : Delivery.World = record {
        db = w.db;
        adapter_calls = w.adapter_calls;
        emitted = w.emitted;
      } in
      sent-Answered w (send adapter t.delivery job.conversation_record_id request v) (
        ap (λ rows. find (message_is i) rows)
          (send_messages adapter t.delivery request job.conversation_record_id v)
        ∙ h)

  replied-Answered :
      (w : WorkerWorld r) (o : Result ConversationReply × World r)
      → Stands i m o.1.db
      → Answered (after_reply r sha256 normalize error_code s c adapter locked t job w o)
  replied-Answered w (err e, v) h = h
  replied-Answered w (ok reply, v) h =
      delivered-Answered (with_reply r sha256 normalize error_code s c adapter locked w v)
        (validate_content (reply_request t.window_at job reply)) h

  answer-Answered :
      (w : WorkerWorld r)
      → Stands i m w.db
      → Answered (answer r sha256 normalize error_code s c adapter locked t job w)
  unfolding answer
  answer-Answered w h =
      let v : World r = record { db = w.db; redis = w.redis; emitted = w.emitted } in
      replied-Answered w
        (respond_persisted r sha256 normalize s.lock_ttl_seconds c t.reply t.lock job.message
          job.channel_account_id job.conversation_record_id v)
        (respond-Stands r sha256 normalize s.lock_ttl_seconds i m c keeps t.reply t.lock job.message
          job.conversation_record_id job.channel_account_id v h)

  -- what `process_once` leaves of the claim
  abbrev pub Served : Result Bool × WorkerWorld r → Type 0
  Served o = (o.0 ≡ ok true) × Ends o.1.db

  failed-Served :
      (w : WorkerWorld r) (p : Result (Unit {0}) × Db)
      → p.0 ≡ ok tt
      → Ends p.1
      → Served (after_fail r sha256 normalize error_code s c adapter locked w p)
  failed-Served w (ok _, db) h ends = (refl, ends)
  failed-Served w (err e, db) h ends = absurd (cc)

  pub handle-Served :
      (o : Result (Unit {0}) × WorkerWorld r)
      → Answered o
      → Served (handle r sha256 normalize error_code s c adapter locked t job o)
  unfolding handle
  handle-Served (ok _, w) h = (refl, h)
  handle-Served (err e, w) h =
      let code = handled_code r sha256 normalize error_code s c adapter locked e in
      let retry = ltb job.attempts s.max_attempts in
      let (done, row) = fails i w.db m h is_claimed t.failed_at code retry in
      failed-Served w (fail t.failed_at i code retry w.db) done
        (failed_row t.failed_at code retry m, row, inr (code, inr refl))

  pub answered-Served :
      (w : WorkerWorld r)
      → Stands i m w.db
      → Served (
          handle r sha256 normalize error_code s c adapter locked t job
            (answer r sha256 normalize error_code s c adapter locked t job w))
  answered-Served w h =
      handle-Served (answer r sha256 normalize error_code s c adapter locked t job w)
        (answer-Answered w h)

module _ (r : Redis) (sha256 normalize : String → String) (error_code : Failure → String)
    (s : WorkerSettings) (c : Composer) (adapter : DeliveryRequest → Result DeliveryResult)
    (locked : ℕ → Bool) (t : WorkerReadings) where
  -- With unique message identifiers and a composer that leaves the messages as they are, where the
  -- queue hands out a job: whatever the lock, the composer, the storage and the adapter do,
  -- `process_once` returns true, and the row of the job, once claimed, is completed, or has failed
  -- for good with a code, or has failed with a code and waits again for a claim if its attempts
  -- are under the maximum.
  pub claimed_job_is_settled :
      (w : WorkerWorld r) (job : ClaimedInbound)
      → KeepsMessages c
      → OneId w.db
      → (claim_next locked t.claimed_at s.claim_timeout_seconds w.db).0 ≡ ok (some job)
      → let o = process_once r sha256 normalize error_code s c adapter locked t w in
        (m : MessageRecord) × (find (message_is job.message_record_id) w.db.messages ≡ some m)
        × (o.0 ≡ ok true)
        × (row : MessageRecord) × (find (message_is job.message_record_id) o.1.db.messages
            ≡ some row)
        × ((row ≡ transitioned completed none none (claimed_row t.claimed_at m))
            ⊎ ((code : String) × ((row
                    ≡ failed_row t.failed_at code false (claimed_row t.claimed_at m))
                  ⊎ (row
                      ≡ failed_row t.failed_at code
                          (ltb job.attempts s.max_attempts)
                          (claimed_row t.claimed_at m)))))
  unfolding process_once
  claimed_job_is_settled w job keeps one_id given =
      let claimed = claim_next locked t.claimed_at s.claim_timeout_seconds w.db in
      let (m, here, _, _, row) =
        claimed_is_row locked t.claimed_at s.claim_timeout_seconds w.db one_id job given in
      let v : WorkerWorld r = record w { db = claimed.1 } in
      let (done, ends) =
        subst
          (Served r sha256 normalize error_code s c adapter locked t keeps job
            (claimed_row t.claimed_at m) refl)
          (sym (claims_then r sha256 normalize error_code s c adapter locked t job w claimed given))
          (answered-Served r sha256 normalize error_code s c adapter locked t keeps job
            (claimed_row t.claimed_at m) refl v row) in
      let (after, there, ended) = ends in (m, here, done, after, there, ended)
