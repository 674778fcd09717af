-- ===== src/Conversation/Locked.antt =====
-- `respond` and `respond_persisted` of src/piki/conversation/service.py: a body under the lock of the
-- conversation, which is released however the body ends.
use buenpick_piki.Base.{ℕ, String, Bool, true, false, Option, none, some, List, [], ◌∷◌, ◌++◌}
use buenpick_piki.Base.Failure.{Result, ok, err, conversation_busy}
use buenpick_piki.Domain.Messages.{InboundMessage}
use buenpick_piki.Observability.{
  LifecycleRecord, EventOutcome, message_received, intent_resolved, lifecycle_record, emit,
}
use buenpick_piki.Db.Models.{Db}
use buenpick_piki.Coordination.Redis.{Redis, Link}
use buenpick_piki.Coordination.Keys.{ConversationScope}
use buenpick_piki.Coordination.Locks.{LockLease, acquired, LockReleaseStatus, acquire, release}
use buenpick_piki.Conversation.Service.{
  ConversationReply, Composer, Readings, Outcome, trace_of, scope_of, persisted_body,
  respond_locked,
}

-- the calls of the lock: what the connection does, the fresh token and the times
pub record LockCalls : Type 0 where
  pub acquire_link : Link
  pub release_link : Link
  pub token : String
  pub acquired_at : ℕ
  pub released_at : ℕ

module _ (r : Redis) where
  pub record World : Type 0 where
    pub db : Db
    pub redis : r.State
    pub emitted : List LifecycleRecord

module _ (r : Redis) (sha256 normalize : String → String) (ttl_seconds : ℕ) where
  -- `lease.status is ACQUIRED and lease.owner_token is not None`
  abbrev pub held_token : LockLease → Option String
  held_token lease = elim lease.status [ acquired ↦ lease.owner_token | _ ↦ none ]

  -- the event of `respond` where the release could not be made; its trace is that of the first record
  abbrev pub release_events : Bool → ℕ → InboundMessage → LockReleaseStatus → List LifecycleRecord
  release_events true now m LockReleaseStatus.unavailable =
      lifecycle_record now intent_resolved (trace_of m) "conversation_lock" EventOutcome.failed none
        (some "lock_release_unavailable") none none
      ∷ []
  release_events _ now m _ = []

  abbrev pub after_release :
      Bool
      → LockCalls
      → InboundMessage
      → World r
      → Outcome
      → LockReleaseStatus × r.State
      → Result ConversationReply × World r
  after_release reports k m w (reply, db, events) (status, s) = (
    reply,
    record {
      db = db;
      redis = s;
      emitted = w.emitted ++ events ++ release_events reports k.released_at m status;
    },
  )

  abbrev pub with_lease :
      Bool
      → LockCalls
      → ConversationScope
      → InboundMessage
      → (Db → Outcome)
      → World r
      → Option String × r.State
      → Result ConversationReply × World r
  with_lease reports k scope m body w (none, s) =
      (err (conversation_busy "conversation is already being processed"), record w { redis = s })
  with_lease reports k scope m body w (some token, s) =
      after_release reports k m w (body w.db)
        (release r sha256 k.release_link k.released_at scope token s)

  abbrev pub leased : LockCalls → ConversationScope → r.State → Option String × r.State
  leased k scope s =
      let done = acquire r sha256 ttl_seconds k.acquire_link k.acquired_at k.token scope s in
      (held_token done.0, done.1)

  unfoldable pub under_lock :
      Bool
      → LockCalls
      → ConversationScope
      → InboundMessage
      → (Db → Outcome)
      → World r
      → Result ConversationReply × World r
  under_lock reports k scope m body w = with_lease reports k scope m body w (leased k scope w.redis)

  abbrev pub received : ℕ → InboundMessage → String → Result LifecycleRecord
  received now m component =
      emit now message_received (trace_of m) component EventOutcome.succeeded none none none none

  -- the lock and the body, after the first record of the message
  abbrev pub after_received :
      (World r → Result ConversationReply × World r)
      → World r
      → Result LifecycleRecord
      → Result ConversationReply × World r
  after_received next w (err e) = (err e, w)
  after_received next w (ok e) = next (record w { emitted = w.emitted ++ e ∷ [] })

  -- `respond(message, channel_account_id=…)`
  unfoldable pub respond :
      Composer
      → Readings
      → LockCalls
      → InboundMessage
      → String
      → World r
      → Result ConversationReply × World r
  unfolding under_lock respond_locked emit
  respond c t k m account w =
      after_received
        (under_lock true k (scope_of m account) m (respond_locked normalize c t account m)) w
        (received t.now m "conversation")

  -- `respond_persisted(message, channel_account_id=…, conversation_record_id=…)`
  unfoldable pub respond_persisted :
      Composer
      → Readings
      → LockCalls
      → InboundMessage
      → String
      → ℕ
      → World r
      → Result ConversationReply × World r
  unfolding under_lock persisted_body emit
  respond_persisted c t k m account conversation w =
      after_received
        (under_lock false k (scope_of m account) m (persisted_body normalize c t conversation m)) w
        (received t.now m "conversation_worker")
