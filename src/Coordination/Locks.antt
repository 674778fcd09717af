-- ===== src/Coordination/Locks.antt =====
-- `RedisConversationLock` of src/piki/state/coordination.py. The fresh token, the time and what the
-- connection does are arguments.
use buenpick_piki.Base.{
  ℕ, String, Bool, true, false, Option, none, some, ◌==◌, ltb, column_is, if◌then◌else◌,
}
use buenpick_piki.Base.Failure.{Result, ok, err, value_error}
use buenpick_piki.Coordination.Redis.{Redis, Link, Reply, answer, redis_error, call}
use buenpick_piki.Coordination.Keys.{ConversationScope, lock_key}

pub data LockStatus : Type 0 where
  acquired busy unavailable : LockStatus

pub record LockLease : Type 0 where
  pub status : LockStatus
  pub owner_token : Option String

pub data LockReleaseStatus : Type 0 where
  released not_owner unavailable : LockReleaseStatus

-- `RedisConversationLock(redis, ttl_seconds=…)`
unfoldable pub new_lock : ℕ → Result ℕ
new_lock ttl_seconds =
    if ltb ttl_seconds 1 then err (value_error "lock TTL must be positive") else ok ttl_seconds

abbrev pub lease : String → Reply Bool → LockLease
lease token redis_error = record { status = LockStatus.unavailable; owner_token = none }
lease token (answer false) = record { status = busy; owner_token = none }
lease token (answer true) = record { status = acquired; owner_token = some token }

abbrev release_status : Reply ℕ → LockReleaseStatus
release_status redis_error = LockReleaseStatus.unavailable
release_status (answer n) = if n == 1 then released else not_owner

module _ (r : Redis) (sha256 : String → String) where
  -- RELEASE_LOCK_SCRIPT, which Redis runs as one command
  unfoldable pub release_lock_script : r.State → ℕ → String → String → ℕ × r.State
  release_lock_script s now key token =
      if column_is (r.get s now key) token then r.del s now key else (0, s)

  unfoldable pub acquire : ℕ → Link → ℕ → String → ConversationScope → r.State → LockLease × r.State
  acquire ttl_seconds link now token scope s =
      let done = call link (r.set_nx s now (lock_key sha256 scope) token ttl_seconds) s in
      (lease token done.0, done.1)

  unfoldable pub release :
      Link → ℕ → ConversationScope → String → r.State → LockReleaseStatus × r.State
  unfolding release_lock_script
  release link now scope token s =
      let done = call link (release_lock_script s now (lock_key sha256 scope) token) s in
      (release_status done.0, done.1)
