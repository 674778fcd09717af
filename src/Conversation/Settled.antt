-- ===== src/Conversation/Settled.antt =====
-- The claim of a message that src/piki/conversation/worker.py could not answer.
use buenpick_piki.Base.{
  ℕ, String, fits, ◌≡◌, refl, Bool, true, false, ◌+◌, ltb, Option, none, some, arith, sym, ◌∙◌,
}
use mathlib.Core.Path.{ap, subst}
use buenpick_piki.Base.Failure.{Failure, Result, ok, err, conversation_busy}
use buenpick_piki.Sql.Laws.{find, any_of_find, find-update, find-passes}
use buenpick_piki.Domain.Delivery.{DeliveryRequest, DeliveryResult}
use buenpick_piki.Db.Models.{Db, MessageRecord, ProcessingStatus, pending}
use buenpick_piki.Processing.Store.{
  ClaimedInbound, claim_next, fail, transition, transitioned, active_claim, message_is, claimed_row,
  is_processing, second,
}
use buenpick_piki.Processing.Leases.{OneId, claimed_is_row}
use buenpick_piki.Coordination.Redis.{Redis, up}
use buenpick_piki.Coordination.Keys.{lock_key}
use buenpick_piki.Conversation.Service.{ConversationReply, Composer, scope_of, trace_of}
use buenpick_piki.Conversation.Locked.{World, respond_persisted}
use buenpick_piki.Conversation.Released.{busy_does_nothing}
use buenpick_piki.Conversation.Worker.{
  WorkerSettings, WorkerReadings, WorkerWorld, answer, handle, handled_code, process_once,
  after_fail, after_reply, after_claim, with_reply,
}

-- a claimed row after `fail`
abbrev pub failed_row : ℕ → String → Bool → MessageRecord → MessageRecord
failed_row now code true m = transitioned pending (some code) (some (now + second)) m
failed_row now code false m = transitioned ProcessingStatus.failed (some code) none m

module _ (i : ℕ) (db : Db) (m : MessageRecord) (here : find (message_is i) db.messages ≡ some m)
    (claimed : is_processing m.processing_status ≡ true) where
  active : active_claim i m ≡ true
  active = ground (arith, find-passes (message_is i) db.messages m here)

  pub transitions :
      (status : ProcessingStatus) (code : Option String) (at : Option ℕ)
      → ((transition i status code at db).0 ≡ ok tt)
        × (find (message_is i) (transition i status code at db).1.messages
            ≡ some (transitioned status code at m))
  unfolding transition
  transitions status code at =
      rw (any_of_find (message_is i) (active_claim i) db.messages m here active) (
        refl,
        rw
            (
              find-update (message_is i) (active_claim i) (transitioned status code at) db.messages
                  (λ r. refl),
              here,
              active,
            )
            refl,
      )

  pub fails :
      (now : ℕ) (code : String) (retry : Bool)
      → ((fail now i code retry db).0 ≡ ok tt)
        × (find (message_is i) (fail now i code retry db).1.messages
            ≡ some (failed_row now code retry m))
  unfolding fail
  fails now code true = transitions pending (some code) (some (now + second))
  fails now code false = transitions ProcessingStatus.failed (some code) none

module _ (r : Redis) (sha256 normalize : String → String) (error_code : Failure → String)
    (s : WorkerSettings) (c : Composer) (adapter : DeliveryRequest → Result DeliveryResult)
    (locked : ℕ → Bool) (t : WorkerReadings) where
  abbrev reply_to : ClaimedInbound → WorkerWorld r → Result ConversationReply × World r
  reply_to job w =
      respond_persisted r sha256 normalize s.lock_ttl_seconds c t.reply t.lock job.message
        job.channel_account_id job.conversation_record_id
        (record { db = w.db; redis = w.redis; emitted = w.emitted })

  abbrev handled : ClaimedInbound → Result (Unit {0}) × WorkerWorld r → Result Bool × WorkerWorld r
  handled = handle r sha256 normalize error_code s c adapter locked t

  abbrev outcome : WorkerWorld r → Result Bool × WorkerWorld r
  outcome = process_once r sha256 normalize error_code s c adapter locked t

  -- the claim ends as that of a job which failed with a code; nothing is sent
  abbrev pub Settled :
      ClaimedInbound → String → WorkerWorld r → MessageRecord → Result Bool × WorkerWorld r → Type 0
  Settled job code w m o =
      (o.0 ≡ ok true)
      × (find (message_is job.message_record_id) o.1.db.messages
          ≡ some (failed_row t.failed_at code (ltb job.attempts s.max_attempts) m))
      × (o.1.adapter_calls ≡ w.adapter_calls)
      × (o.1.redis ≡ w.redis)

  fails_then :
      (w : WorkerWorld r) (p : Result (Unit {0}) × Db)
      → p.0 ≡ ok tt
      → after_fail r sha256 normalize error_code s c adapter locked w p
        ≡ (ok true, record w { db = p.1 })
  fails_then w (ok tt, db) h = refl
  fails_then w (err e, db) h = absurd (cc)

  -- a body that raises, with the row still claimed
  pub raised :
      (job : ClaimedInbound) (e : Failure) (w : WorkerWorld r) (m : MessageRecord)
      → find (message_is job.message_record_id) w.db.messages ≡ some m
      → is_processing m.processing_status ≡ true
      → Settled job
          (handled_code r sha256 normalize error_code s c adapter locked e)
          w
          m
          (handled job (err e, w))
  unfolding handle
  raised job e w m here claimed =
      let code = handled_code r sha256 normalize error_code s c adapter locked e in
      let (done, row) =
        fails job.message_record_id w.db m here claimed t.failed_at code
          (ltb job.attempts s.max_attempts) in
      let failed =
        fail t.failed_at job.message_record_id code (ltb job.attempts s.max_attempts) w.db in
      subst (Settled job code w m) (sym (fails_then w failed done)) (refl, row, refl, refl)

  reply_raises :
      (job : ClaimedInbound) (w : WorkerWorld r) (e : Failure)
      (o : Result ConversationReply × World r)
      → o.0 ≡ err e
      → after_reply r sha256 normalize error_code s c adapter locked t job w o
        ≡ (err e, with_reply r sha256 normalize error_code s c adapter locked w o.1)
  reply_raises job w e (err e', v) h = ground arith
  reply_raises job w e (ok reply, v) h = absurd (cc)

  pub claims_then :
      (job : ClaimedInbound) (w : WorkerWorld r) (o : Result (Option ClaimedInbound) × Db)
      → o.0 ≡ ok (some job)
      → after_claim r sha256 normalize error_code s c adapter locked t w o
        ≡ handled job
            (answer r sha256 normalize error_code s c adapter locked t job (record w { db = o.1 }))
  claims_then job w (err e, db) h = absurd (cc)
  claims_then job w (ok none, db) h = absurd (cc)
  claims_then job w (ok (some job'), db) h = ground arith

  -- On a Redis with the stated laws and a working connection, with unique message identifiers,
  -- where the queue hands out a job whose trace fits in a lifecycle record and another owner holds
  -- the lock of its conversation: `process_once` returns true, sends nothing, leaves Redis as it
  -- was, and the row of the job, once claimed, waits again for a claim a second after the failure
  -- if its attempts are under the maximum, and has failed for good otherwise, with the code
  -- conversation_busy.
  pub busy-Settled :
      (w : WorkerWorld r) (job : ClaimedInbound) (other : String)
      → OneId w.db
      → (claim_next locked t.claimed_at s.claim_timeout_seconds w.db).0 ≡ ok (some job)
      → fits 1 128 (trace_of job.message) ≡ true
      → t.lock.acquire_link ≡ up
      → r.get w.redis t.lock.acquired_at
          (lock_key sha256 (scope_of job.message job.channel_account_id))
        ≡ some other
      → (m : MessageRecord) × (find (message_is job.message_record_id) w.db.messages ≡ some m)
        × Settled job "conversation_busy" w (claimed_row t.claimed_at m) (outcome w)
  unfolding process_once answer
  busy-Settled w job other one_id given traced reached held =
      let claimed = claim_next locked t.claimed_at s.claim_timeout_seconds w.db in
      let (m, here, _, _, row) =
        claimed_is_row locked t.claimed_at s.claim_timeout_seconds w.db one_id job given in
      let v : WorkerWorld r = record w { db = claimed.1 } in
      let (busy, same_db, same_redis) =
        (busy_does_nothing r sha256 normalize s.lock_ttl_seconds c t.reply t.lock job.message
          job.channel_account_id job.conversation_record_id
          (record { db = v.db; redis = v.redis; emitted = v.emitted }) traced reached other
          held).0 in
      let e = conversation_busy "conversation is already being processed" in
      let o = reply_to job v in
      let left = with_reply r sha256 normalize error_code s c adapter locked v o.1 in
      let (done, after, calls, redis) =
        raised job e left (claimed_row t.claimed_at m)
          (ap (λ d. find (message_is job.message_record_id) d.messages) same_db ∙ row) refl in
      (
        m,
        here,
        subst (Settled job "conversation_busy" w (claimed_row t.claimed_at m))
            (sym (claims_then job w claimed given ∙ ap (handled job) (reply_raises job v e o busy)))
            (done, after, calls, redis ∙ same_redis),
      )
