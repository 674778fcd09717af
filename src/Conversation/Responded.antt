-- ===== src/Conversation/Responded.antt =====
-- The row of a message while `respond_persisted` of src/piki/conversation/service.py answers it under the
-- lock of the conversation.
use buenpick_piki.Observability.{LifecycleRecord}
use buenpick_piki.Base.Failure.{Result, ok, err}
use buenpick_piki.Base.{ℕ, String, false, Option, none, some, [], ◌∷◌, ◌++◌}
use buenpick_piki.Domain.Messages.{InboundMessage}
use buenpick_piki.Db.Models.{MessageRecord}
use buenpick_piki.Coordination.Redis.{Redis}
use buenpick_piki.Coordination.Keys.{ConversationScope}
use buenpick_piki.Coordination.Locks.{LockReleaseStatus, release}
use buenpick_piki.Conversation.Service.{Composer, ConversationReply, Outcome, scope_of}
use buenpick_piki.Conversation.Service as Service
use buenpick_piki.Conversation.Stable.{KeepsMessages}
use buenpick_piki.Conversation.Locked.{
  under_lock, after_received, World, LockCalls, with_lease, after_release, leased,
  respond_persisted, received,
}
use buenpick_piki.Conversation.Kept.{Stands, body-Stands}

module _ (r : Redis) (sha256 normalize : String → String) (ttl_seconds i : ℕ) (m : MessageRecord)
    (c : Composer) (keeps : KeepsMessages c) (t : Service.Readings) (k : LockCalls)
    (message : InboundMessage) (conversation : ℕ) where
  released-Stands :
      (w : World r) (o : Outcome) (done : LockReleaseStatus × r.State)
      → Stands i m o.1
      → Stands i m (after_release r sha256 normalize ttl_seconds false k message w o done).1.db
  released-Stands w (reply, db, events) (status, s) h = h

  leased-Stands :
      (scope : ConversationScope) (w : World r) (o : Option String × r.State)
      → Stands i m w.db
      → Stands i m
          (with_lease r sha256 normalize ttl_seconds false k scope message
            (Service.persisted_body normalize c t conversation message)
            w
            o).1.db
  leased-Stands scope w (none, s) h = h
  leased-Stands scope w (some token, s) h =
      released-Stands w (Service.persisted_body normalize c t conversation message w.db)
        (release r sha256 k.release_link k.released_at scope token s)
        (body-Stands normalize i m c keeps t conversation message w.db h)

  received-Stands :
      (account : String) (w : World r) (x : Result LifecycleRecord)
      → Stands i m w.db
      → Stands i m
          (after_received r sha256 normalize ttl_seconds
            (under_lock r sha256 normalize ttl_seconds false k
              (scope_of message account)
              message
              (Service.persisted_body normalize c t conversation message))
            w
            x).1.db
  unfolding under_lock
  received-Stands account w (err e) h = h
  received-Stands account w (ok e) h =
      leased-Stands (scope_of message account) (record w { emitted = w.emitted ++ e ∷ [] })
        (leased r sha256 normalize ttl_seconds k (scope_of message account) w.redis) h

  pub respond-Stands :
      (account : String) (w : World r)
      → Stands i m w.db
      → Stands i m
          (respond_persisted r sha256 normalize ttl_seconds c t k message account conversation
            w).1.db
  unfolding respond_persisted
  respond-Stands account w h =
      received-Stands account w
        (received r sha256 normalize ttl_seconds t.now message "conversation_worker") h
