-- ===== src/Tests/Worker.antt =====
-- The worker of src/piki/conversation/worker.py on a conversation that another process answers.
use buenpick_piki.Base.{fits, String, ◌≡◌, ◌⊎◌, refl, true, false, none, some, [], ltb, eq_refl}
use buenpick_piki.Base.Failure.{Failure, Result, ok, err, other}
use buenpick_piki.Sql.Laws.{find}
use buenpick_piki.Domain.Delivery.{DeliveryRequest, DeliveryResult}
use buenpick_piki.Db.Models.{MessageRecord, completed}
use buenpick_piki.Processing.Store.{claimed_row, message_is, transitioned}
use buenpick_piki.Coordination.Keys.{lock_key}
use buenpick_piki.Conversation.Service.{scope_of, trace_of}
use buenpick_piki.Conversation.Worker.{WorkerSettings, WorkerReadings, WorkerWorld, process_once}
use buenpick_piki.Conversation.Settled.{Settled, failed_row, busy-Settled}
use buenpick_piki.Conversation.Handled.{claimed_job_is_settled}
use buenpick_piki.Tests.Samples.{two_messages}
use buenpick_piki.Tests.Locks.{memory, sha, empty, put, alive}
use buenpick_piki.Tests.Queues.{unlocked, job, gives, two-OneId}
use buenpick_piki.Tests.Replies.{composer, composer-KeepsMessages, reads, calls}

abbrev pub settings : WorkerSettings
settings = record { claim_timeout_seconds = 60; max_attempts = 3; lock_ttl_seconds = 30 }

abbrev pub worker_reads : WorkerReadings
worker_reads = record {
  claimed_at = 100;
  reply = reads;
  lock = calls;
  window_at = 110;
  delivery = record { attempt_id = 20; event_id = 21; started_at = 110; now = 115 };
  failed_at = 130;
}

abbrev pub code : Failure → String
code e = "error"

abbrev pub offline : DeliveryRequest → Result DeliveryResult
offline request = err (other "ConnectError")

abbrev busy : WorkerWorld memory
busy = record {
  db = two_messages;
  redis = put empty (lock_key sha (scope_of job.message "account")) (some ("theirs", 130));
  adapter_calls = [];
  emitted = [];
}

is_held : alive 100 (busy.redis (lock_key sha (scope_of job.message "account"))) ≡ some "theirs"
is_held = rw (eq_refl (lock_key sha (scope_of job.message "account"))) refl

traced : fits 1 128 (trace_of job.message) ≡ true
unfolding fits
traced = refl

busy-Settled_example :
    (m : MessageRecord) × (find (message_is 3) two_messages.messages ≡ some m)
    × Settled memory sha sha code settings composer offline unlocked worker_reads job
        "conversation_busy" busy
        (claimed_row 100 m)
        (process_once memory sha sha code settings composer offline unlocked worker_reads busy)
busy-Settled_example =
    busy-Settled memory sha sha code settings composer offline unlocked worker_reads busy job
      "theirs" two-OneId gives traced refl is_held

abbrev pub idle : WorkerWorld memory
idle = record busy { redis = empty }

claimed_job_is_settled_example :
    let o = process_once memory sha sha code settings composer offline unlocked worker_reads idle in
    (m : MessageRecord) × (find (message_is 3) two_messages.messages ≡ some m)
    × (o.0 ≡ ok true)
    × (row : MessageRecord) × (find (message_is 3) o.1.db.messages ≡ some row)
    × ((row ≡ transitioned completed none none (claimed_row 100 m))
        ⊎ ((code : String) × ((row ≡ failed_row 130 code false (claimed_row 100 m))
              ⊎ (row ≡ failed_row 130 code (ltb job.attempts 3) (claimed_row 100 m)))))
claimed_job_is_settled_example =
    claimed_job_is_settled memory sha sha code settings composer offline unlocked worker_reads idle
      job composer-KeepsMessages two-OneId gives
