-- ===== src/Tests/Processes.antt =====
-- A run of src/piki/worker/main.py that answers one message, waits, and is stopped.
use buenpick_piki.Base.{refl, true, false, none, [], ◌∷◌, ◌++◌, List}
use buenpick_piki.Base.Failure.{ok}
use buenpick_piki.Process.Loop.{ProcessSettings, Turn, Processor, ProcessState, run_worker}
use buenpick_piki.Process.Stops.{Ends, run_worker-Ends}
use buenpick_piki.Conversation.Worker.{WorkerWorld, process_once}
use buenpick_piki.Tests.Locks.{memory, sha}
use buenpick_piki.Tests.Queues.{unlocked}
use buenpick_piki.Tests.Replies.{composer}
use buenpick_piki.Tests.Worker.{settings, worker_reads, code, offline, idle}

abbrev process_settings : ProcessSettings
process_settings = record { is_enabled = true; poll_time = 1000000; heartbeat_time = 5000000 }

abbrev worker : Processor (WorkerWorld memory)
worker = record {
  process_once = process_once memory sha sha code settings composer offline unlocked worker_reads;
  close = λ w. (ok tt, w);
}

abbrev turn : Turn
turn = record { is_set = false; now = 100; touch = ok tt }

abbrev turns : List Turn
turns = turn ∷ turn ∷ turn ∷ []

abbrev stop : Turn
stop = record turn { is_set = true }

abbrev begun : ProcessState (WorkerWorld memory)
begun = record { work = idle; heartbeat = none; waits = [] }

run_worker-Ends_example :
    Ends process_settings worker turns begun
      (run_worker process_settings (ok worker) (turns ++ stop ∷ []) begun)
run_worker-Ends_example =
    run_worker-Ends process_settings worker (λ w. refl) turns [] stop begun refl
      ((refl, refl), ((refl, refl), ((refl, refl), tt))) refl
