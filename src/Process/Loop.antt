-- ===== src/Process/Loop.antt =====
-- `run_worker` and `heartbeat_is_fresh` of src/piki/worker/main.py. The worker that runs is an argument,
-- with the state that it works on. A run is given by what each turn of the loop finds: a wait ends
-- by its time or by the stop event, which the test of the next turn sees. The removal of the
-- heartbeat's file does not fail. Times are in microseconds.
use buenpick_piki.Base.{
  ℕ, Bool, true, false, Option, none, some, List, [], ◌∷◌, ◌++◌, ◌*◌, ◌-◌, leb,
}
use buenpick_piki.Base.Failure.{Result, ok, err}

pub record ProcessSettings : Type 0 where
  pub is_enabled : Bool
  pub poll_time : ℕ
  pub heartbeat_time : ℕ

-- a turn of the loop: whether the stop event is set, the time, and what `heartbeat.touch` gives
pub record Turn : Type 0 where
  pub is_set : Bool
  pub now : ℕ
  pub touch : Result (Unit {0})

module _ (W : Type 0) where
  -- `process_once` and `close` of a worker
  pub record Processor : Type 0 where
    pub process_once : W → Result Bool × W
    pub close : W → Result (Unit {0}) × W

  -- what the worker works on, the time of the heartbeat's file, and the waits so far
  pub record ProcessState : Type 0 where
    pub work : W
    pub heartbeat : Option ℕ
    pub waits : List ℕ

  -- how the loop ended, where it did, and what it left
  abbrev pub Run : Type 0
  Run = Option (Result (Unit {0})) × ProcessState

module _ {W : Type 0} (s : ProcessSettings) where
  abbrev pub waits_for : ℕ → ProcessState W → ProcessState W
  waits_for time p = record p { waits = p.waits ++ time ∷ [] }

  abbrev pub after_process : (ProcessState W → Run W) → ProcessState W → Result Bool × W → Run W
  after_process next p (ok true, w) = next (record p { work = w })
  after_process next p (ok false, w) = next (waits_for s.poll_time (record p { work = w }))
  after_process next p (err e, w) = (some (err e), record p { work = w })

  abbrev pub processed : Option (Processor W) → (ProcessState W → Run W) → ProcessState W → Run W
  processed none next p = next (waits_for s.heartbeat_time p)
  processed (some a) next p = after_process next p (a.process_once p.work)

  abbrev pub after_touch :
      Option (Processor W)
      → (ProcessState W → Run W)
      → ℕ
      → ProcessState W
      → Result (Unit {0})
      → Run W
  after_touch a next now p (ok _) = processed a next (record p { heartbeat = some now })
  after_touch a next now p (err e) = (some (err e), p)

  abbrev pub turned :
      Option (Processor W) → (ProcessState W → Run W) → Turn → Bool → ProcessState W → Run W
  turned a next t true p = (some (ok tt), p)
  turned a next t false p = after_touch a next t.now p t.touch

  -- the loop, over the turns that there are
  unfoldable pub loop : Option (Processor W) → List Turn → ProcessState W → Run W
  loop a [] p = (none, p)
  loop a (t ∷ ts) p = turned a (loop a ts) t t.is_set p

  abbrev pub closed : Result (Unit {0}) → ProcessState W → Result (Unit {0}) × W → Run W
  closed result p (ok _, w) = (some result, record p { work = w; heartbeat = none })
  closed result p (err e, w) = (some (err e), record p { work = w })

  -- the `finally`, which a loop that still runs does not reach
  abbrev pub finish : Option (Processor W) → Run W → Run W
  finish a (none, p) = (none, p)
  finish none (some result, p) = (some result, record p { heartbeat = none })
  finish (some a) (some result, p) = closed result p (a.close p.work)

  abbrev pub started : Bool → Result (Processor W) → List Turn → ProcessState W → Run W
  started false created ts p = finish none (loop none ts p)
  started true (ok a) ts p = finish (some a) (loop (some a) ts p)
  started true (err e) ts p = (some (err e), p)

  -- `run_worker(settings)`, where `created` is what `create_processing_worker` gives
  unfoldable pub run_worker : Result (Processor W) → List Turn → ProcessState W → Run W
  unfolding loop
  run_worker created ts p = started s.is_enabled created ts p

-- `heartbeat_is_fresh(settings)`, by the time of the heartbeat's file
unfoldable pub heartbeat_is_fresh : ProcessSettings → ℕ → Option ℕ → Bool
heartbeat_is_fresh s now none = false
heartbeat_is_fresh s now (some touched) = leb (now - touched) (s.heartbeat_time * 3)
