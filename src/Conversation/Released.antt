-- ===== src/Conversation/Released.antt =====
-- The lock around a reply, src/piki/conversation/service.py: it is free again afterwards, and where it
-- is not acquired nothing is done.
use buenpick_piki.Base.{
  fits, sym, ℕ, String, ◌≡◌, refl, Bool, true, false, none, some, [], ◌∷◌, ◌++◌, arith, ap,
}
use mathlib.Core.Path.{subst}
use buenpick_piki.Observability.{
  LifecycleRecord, EventOutcome, message_received, lifecycle_record, emit-fits,
}
use buenpick_piki.Base.Failure.{Result, ok, err, conversation_busy}
use buenpick_piki.Domain.Messages.{InboundMessage}
use buenpick_piki.Db.Models.{Db}
use buenpick_piki.Coordination.Redis.{Redis, up}
use buenpick_piki.Coordination.Keys.{ConversationScope, lock_key}
use buenpick_piki.Coordination.Locks.{acquire}
use buenpick_piki.Conversation.Service.{
  ConversationReply, Composer, Readings, Outcome, scope_of, trace_of, persisted_body,
  respond_locked,
}
use buenpick_piki.Conversation.Locked.{
  LockCalls, World, under_lock, leased, received, respond, respond_persisted,
}

module _ (r : Redis) (sha256 normalize : String → String) (ttl_seconds : ℕ) (reports : Bool)
    (k : LockCalls) (scope : ConversationScope) (m : InboundMessage) (body : Db → Outcome)
    (w : World r) where
  abbrev key : String
  key = lock_key sha256 scope

  abbrev done : Result ConversationReply × World r
  done = under_lock r sha256 normalize ttl_seconds reports k scope m body w

  -- what the acquisition leaves
  abbrev kept : r.State
  kept = (r.set_nx w.redis k.acquired_at key k.token ttl_seconds).1

  leased_busy :
      (other : String)
      → r.get w.redis k.acquired_at key ≡ some other
      → k.acquire_link ≡ up
      → leased r sha256 normalize ttl_seconds k scope w.redis ≡ (none, w.redis)
  unfolding acquire
  leased_busy other h l =
      ground (arith, r.set_nx-kept w.redis k.acquired_at key k.token ttl_seconds other h)

  refused :
      (other : String)
      → r.get w.redis k.acquired_at key ≡ some other
      → k.acquire_link ≡ up
      → done ≡ (err (conversation_busy "conversation is already being processed"), w)
  unfolding under_lock
  refused other h l = rw (leased_busy other h l) refl

module _ (r : Redis) (sha256 normalize : String → String) (ttl_seconds : ℕ) (c : Composer)
    (t : Readings) (k : LockCalls) (m : InboundMessage) (account : String) (conversation : ℕ)
    (w : World r) (traced : fits 1 128 (trace_of m) ≡ true) (reached : k.acquire_link ≡ up) where
  abbrev conversation_key : String
  conversation_key = lock_key sha256 (scope_of m account)

  abbrev persisted : Result ConversationReply × World r
  persisted = respond_persisted r sha256 normalize ttl_seconds c t k m account conversation w

  abbrev direct : Result ConversationReply × World r
  direct = respond r sha256 normalize ttl_seconds c t k m account w

  abbrev first_record : String → LifecycleRecord
  first_record component =
      lifecycle_record t.now message_received (trace_of m) component EventOutcome.succeeded none
        none none none

  received_ok :
      (component : String)
      → fits 1 100 component ≡ true
      → received r sha256 normalize ttl_seconds t.now m component ≡ ok (first_record component)
  received_ok component named =
      emit-fits t.now message_received (trace_of m) component EventOutcome.succeeded none none none
        none traced named refl

  abbrev after_first : String → World r
  after_first component = record w { emitted = w.emitted ++ first_record component ∷ [] }

  persisted_locks :
      persisted
      ≡ under_lock r sha256 normalize ttl_seconds false k
          (scope_of m account)
          m
          (persisted_body normalize c t conversation m)
          (after_first "conversation_worker")
  unfolding respond_persisted fits
  persisted_locks = rw (received_ok "conversation_worker" refl) refl

  direct_locks :
      direct
      ≡ under_lock r sha256 normalize ttl_seconds true k
          (scope_of m account)
          m
          (respond_locked normalize c t account m)
          (after_first "conversation")
  unfolding respond fits
  direct_locks = rw (received_ok "conversation" refl) refl

  abbrev pub Untouched : Result ConversationReply × World r → Type 0
  Untouched o =
      (o.0 ≡ err (conversation_busy "conversation is already being processed"))
      × (o.1.db ≡ w.db)
      × (o.1.redis ≡ w.redis)

  -- On a Redis with the stated laws and a working connection, where the lock of the conversation
  -- is held and the message's trace fits: `respond_persisted` and `respond` raise that the conversation is busy, and leave the
  -- database and Redis as they were.
  pub busy_does_nothing :
      (other : String)
      → r.get w.redis k.acquired_at conversation_key ≡ some other
      → Untouched persisted × Untouched direct
  busy_does_nothing other h =
      let a =
        refused r sha256 normalize ttl_seconds false k (scope_of m account) m
          (persisted_body normalize c t conversation m) (after_first "conversation_worker") other h
          reached in
      let b =
        refused r sha256 normalize ttl_seconds true k (scope_of m account) m
          (respond_locked normalize c t account m) (after_first "conversation") other h reached in
      (
        subst Untouched (sym persisted_locks)
            (ap (λ o. o.0) a, ap (λ o. o.1.db) a, ap (λ o. o.1.redis) a),
        subst Untouched (sym direct_locks)
            (ap (λ o. o.0) b, ap (λ o. o.1.db) b, ap (λ o. o.1.redis) b),
      )

  abbrev pub Freed : ℕ → Outcome → Result ConversationReply × World r → Type 0
  Freed now body o =
      (r.get o.1.redis now conversation_key ≡ none) × (o.0 ≡ body.0) × (o.1.db ≡ body.1)
