-- ===== src/Tests/Queues.antt =====
-- The queue of src/piki/db/processing.py at work.
use buenpick_piki.Base.{
  ℕ, ◌≡◌, ◌≢◌, refl, false, Bool, Option, none, some, [], ◌∷◌, any, count, arith, fits,
}
use buenpick_piki.Base.Failure.{Result, ok}
use buenpick_piki.Base.Text.{strip}
use buenpick_piki.Sql.{select, update}
use buenpick_piki.Sql.Laws.{find}
use buenpick_piki.Domain.Messages.{validate_text_message}
use buenpick_piki.Db.Models.{Db, MessageRecord, ConversationRecord, completed}
use buenpick_piki.Processing.Store.{
  ClaimedInbound, give, transitioned, claim_next, complete, rebuilt, message_is, claimed_row,
}
use buenpick_piki.Processing.Claims.{TakenFrom, claim_next_takes}
use buenpick_piki.Processing.Leases.{OneId, claim_twice_apart}
use buenpick_piki.Processing.Finished.{stop, completed_never_again}
use buenpick_piki.Tests.Samples.{two_messages, message, later_message, conversation}

abbrev pub unlocked : ℕ → Bool
unlocked i = false

abbrev first : Result (Option ClaimedInbound) × Db
first = claim_next unlocked 100 60 two_messages

abbrev pub job : ClaimedInbound
job = record {
  message_record_id = 3;
  conversation_record_id = 1;
  channel_account_id = "account";
  message = rebuilt "wamid.in" message conversation;
  attempts = 1;
}

abbrev job' : ClaimedInbound
job' = record job {
  message_record_id = 4;
  message = rebuilt "wamid.next" later_message conversation;
}

pub gives : first.0 ≡ ok (some job)
unfolding claim_next any select find validate_text_message fits strip give
gives = refl

claim_next_takes_example :
    (m : MessageRecord) × (c : ConversationRecord) × TakenFrom unlocked 100 60 two_messages job m c
claim_next_takes_example = claim_next_takes unlocked 100 60 two_messages job gives

pub two-OneId : OneId two_messages
unfolding count
two-OneId i = ground arith

gives_next : (claim_next unlocked 101 60 first.1).0 ≡ ok (some job')
unfolding claim_next any select find validate_text_message fits strip give update
gives_next = refl

claim_twice_apart_example : job'.message_record_id ≢ job.message_record_id
claim_twice_apart_example =
    claim_twice_apart unlocked unlocked 100 101 60 two_messages two-OneId job job' (omega arith)
      (omega arith) gives gives_next

abbrev finished_message : MessageRecord
finished_message = transitioned completed none none (claimed_row 100 message)

abbrev finished : Db
finished = record two_messages { messages = later_message ∷ finished_message ∷ [] }

finished-OneId : OneId finished
unfolding count
finished-OneId i = ground arith

finished_here : find (message_is 3) finished.messages ≡ some finished_message
unfolding find
finished_here = refl

abbrev after_claim : Db
after_claim = (claim_next unlocked 200 60 finished).1

claimed-OneId : OneId first.1
unfolding claim_next any select find validate_text_message fits strip give update count
claimed-OneId i = ground arith

completes_ok : (complete 3 first.1).0 ≡ ok tt
unfolding complete claim_next any select find validate_text_message fits strip give update
completes_ok = refl

gives_after : (claim_next unlocked 200 60 (complete 3 first.1).1).0 ≡ ok (some job')
unfolding complete claim_next any select find validate_text_message fits strip give update
gives_after = refl

completed_never_again_example : job'.message_record_id ≢ 3
completed_never_again_example =
    completed_never_again unlocked 3 200 60 first.1 (complete 3 first.1).1 job' claimed-OneId
      completes_ok (stop (complete 3 first.1).1) gives_after
