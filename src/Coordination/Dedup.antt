-- ===== src/Coordination/Dedup.antt =====
-- `RedisMessageDeduplicator` of src/piki/state/coordination.py.
use buenpick_piki.Base.{
  ℕ, String, ◌≡◌, ◌≤◌, ◌<◌, refl, Bool, true, false, not, ◌||◌, ◌+◌, none, some, ltb, truthy,
  if◌then◌else◌, arith, ◌∙◌,
}
use buenpick_piki.Base.Failure.{Result, ok, err, value_error}
use buenpick_piki.Base.Text.{strip}
use buenpick_piki.Coordination.Redis.{Redis, Link, up, Reply, answer, redis_error, call}
use buenpick_piki.Coordination.Keys.{message_key}

pub data DedupStatus : Type 0 where
  claimed duplicate unavailable : DedupStatus

-- `RedisMessageDeduplicator(redis, ttl_seconds=…)`
unfoldable pub new_deduplicator : ℕ → Result ℕ
new_deduplicator ttl_seconds =
    if ltb ttl_seconds 1 then err (value_error "dedup TTL must be positive") else ok ttl_seconds

abbrev pub dedup_status : Reply Bool → DedupStatus
dedup_status redis_error = unavailable
dedup_status (answer true) = claimed
dedup_status (answer false) = duplicate

module _ (r : Redis) (sha256 : String → String) (ttl_seconds : ℕ) where
  unfoldable pub claim : Link → ℕ → String → String → r.State → Result DedupStatus × r.State
  claim link now channel_account_id message_id s =
      if not (truthy (strip channel_account_id)) || not (truthy (strip message_id))
      then (err (value_error "dedup identity parts cannot be blank"), s)
      else let done =
          call link
            (r.set_nx s now (message_key sha256 channel_account_id message_id) "1" ttl_seconds) s in
        (ok (dedup_status done.0), done.1)

  module _ (account message : String)
      (named : (not (truthy (strip account)) || not (truthy (strip message))) ≡ false) where
    abbrev key : String
    key = message_key sha256 account message

    claim_known :
        (t : ℕ) (value : String) (s : r.State)
        → r.get s t key ≡ some value
        → claim up t account message s ≡ (ok duplicate, s)
    unfolding claim
    claim_known t value s h = rw (named, r.set_nx-kept s t key "1" ttl_seconds value h) refl

    claim_new :
        (t : ℕ) (s : r.State)
        → r.get s t key ≡ none
        → claim up t account message s ≡ (ok claimed, (r.set_nx s t key "1" ttl_seconds).1)
    unfolding claim
    claim_new t s h = rw (named, r.set_nx-free s t key "1" ttl_seconds h) refl

    -- On a Redis with the stated laws and a working connection: a message with an identity that is
    -- not blank, unknown before, is claimed once, is a duplicate while the claim's time to live
    -- lasts, and is claimed anew after it.
    pub claimed_once :
        (t t' t'' : ℕ) (s : r.State)
        → r.get s t key ≡ none
        → t ≤ t'
        → t' < t + ttl_seconds
        → t + ttl_seconds ≤ t''
        → ((claim up t account message s).0 ≡ ok claimed)
          × ((claim up t' account message (claim up t account message s).1).0 ≡ ok duplicate)
          × ((claim up t'' account message
                (claim up t' account message (claim up t account message s).1).1).0
              ≡ ok claimed)
    claimed_once t t' t'' s free l h h' =
        let first = claim_new t s free in
        let kept : r.get (r.set_nx s t key "1" ttl_seconds).1 t' key ≡ some "1" =
          r.set_nx-get s t key "1" ttl_seconds t' free l ∙ ground arith in
        let gone : r.get (r.set_nx s t key "1" ttl_seconds).1 t'' key ≡ none =
          r.set_nx-get s t key "1" ttl_seconds t'' free (omega (arith, h, l, h')) ∙ ground arith in
        let second = claim_known t' "1" (r.set_nx s t key "1" ttl_seconds).1 kept in
        let third = claim_new t'' (r.set_nx s t key "1" ttl_seconds).1 gone in
        (rw first refl, rw first (rw second refl), rw first (rw second (rw third refl)))
