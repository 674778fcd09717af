-- ===== src/Process/Stops.antt =====
-- The loop of src/piki/worker/main.py ends at the first turn that finds the stop event set.
use buenpick_piki.Base.{
  ℕ, zero, suc, ◌≡◌, refl, Bool, true, false, none, some, List, [], ◌∷◌, ◌++◌, arith, ap, sym, ◌∙◌,
  length, ◌⊎◌, inl, inr, ◌<◌,
}
use mathlib.Core.List.{append-nil, append_assoc}
use mathlib.Core.Path.{subst}
use buenpick_piki.Base.Failure.{Failure, Result, ok, err}
use buenpick_piki.Process.Loop.{
  ProcessSettings, Turn, Processor, ProcessState, Run, loop, finish, closed, run_worker,
  after_process,
}

-- a turn that finds the stop event unset and touches the file
abbrev pub Goes : Turn → Type 0
Goes t = (t.is_set ≡ false) × (t.touch ≡ ok tt)

abbrev pub AllGo : List Turn → Type 0
AllGo [] = Unit {0}
AllGo (t ∷ ts) = Goes t × AllGo ts

module _ {W : Type 0} (s : ProcessSettings) (a : Processor W) where
  -- the worker's state after a number of calls of `process_once`
  abbrev pub calls : ℕ → W → W
  calls zero w = w
  calls (suc n) w = calls n (a.process_once w).1

  abbrev pub idle_wait : Result Bool → List ℕ
  idle_wait (ok false) = s.poll_time ∷ []
  idle_wait _ = []

  -- the waits after those calls that found nothing
  abbrev pub idle_waits : ℕ → W → List ℕ
  idle_waits zero w = []
  idle_waits (suc n) w = idle_wait (a.process_once w).0 ++ idle_waits n (a.process_once w).1

  abbrev LoopEnds : List Turn → ProcessState W → Run W → Type 0
  LoopEnds ts p o =
      ((o.0 ≡ some (ok tt))
        × (o.1.work ≡ calls (length ts) p.work)
        × (o.1.waits ≡ p.waits ++ idle_waits (length ts) p.work))
      ⊎ ((k : ℕ) × (e : Failure) × (k < length ts)
          × ((a.process_once (calls k p.work)).0 ≡ err e)
          × (o.0 ≡ some (err e))
          × (o.1.work ≡ calls (suc k) p.work))

  later-LoopEnds :
      (t : Turn) (ts : List Turn) (p q : ProcessState W) (o : Run W) (b : Bool)
      → a.process_once p.work ≡ (ok b, q.work)
      → q.waits ≡ p.waits ++ idle_wait (ok b)
      → LoopEnds ts q o
      → LoopEnds (t ∷ ts) p o
  later-LoopEnds t ts p q o b h waits (inl (ended, work, all)) = inl (
    ended,
    rw (calls, h) work,
    rw h (
        all
        ∙ ap (λ l. l ++ idle_waits (length ts) q.work) waits
        ∙ append_assoc p.waits (idle_wait (ok b)) (idle_waits (length ts) q.work)),
  )
  later-LoopEnds t ts p q o b h waits (inr (k, e, lt, raised, ended, work)) =
      inr (suc k, e, omega (arith, lt), rw (calls, h) raised, ended, rw (calls, h) work)

  processed-LoopEnds :
      (t : Turn) (ts : List Turn) (p : ProcessState W) (next : ProcessState W → Run W)
      (o : Result Bool × W)
      → a.process_once p.work ≡ o
      → ((q : ProcessState W) → LoopEnds ts q (next q))
      → LoopEnds (t ∷ ts) p (after_process s next (record p { heartbeat = some t.now }) o)
  processed-LoopEnds t ts p next (ok true, w) h ends =
      let q : ProcessState W = record p { heartbeat = some t.now; work = w } in
      later-LoopEnds t ts p q (next q) true h (sym (append-nil p.waits)) (ends q)
  processed-LoopEnds t ts p next (ok false, w) h ends =
      let q : ProcessState W = record {
        work = w;
        heartbeat = some t.now;
        waits = p.waits ++ s.poll_time ∷ [];
      } in
      later-LoopEnds t ts p q (next q) false h refl (ends q)
  processed-LoopEnds t ts p next (err e, w) h ends =
      inr (0, e, omega arith, rw h refl, refl, rw (calls, h) refl)

  loop-LoopEnds :
      (ts rest : List Turn) (stop : Turn) (p : ProcessState W)
      → AllGo ts
      → stop.is_set ≡ true
      → LoopEnds ts p (loop s (some a) (ts ++ stop ∷ rest) p)
  unfolding loop
  loop-LoopEnds [] rest stop p go set = rw set (inl (refl, refl, sym (append-nil p.waits)))
  loop-LoopEnds (t ∷ ts) rest stop p ((unset, touches), go) set =
      rw (unset, touches)
        (processed-LoopEnds t ts p (loop s (some a) (ts ++ stop ∷ rest)) (a.process_once p.work)
          refl (λ q. loop-LoopEnds ts rest stop q go set))

  -- how a run of `run_worker` ends that goes through these turns and then finds the stop event
  abbrev pub Ends : List Turn → ProcessState W → Run W → Type 0
  Ends ts p o =
      (o.1.heartbeat ≡ none)
      × (((o.0 ≡ some (ok tt))
            × (o.1.work ≡ (a.close (calls (length ts) p.work)).1)
            × (o.1.waits ≡ p.waits ++ idle_waits (length ts) p.work))
          ⊎ ((k : ℕ) × (e : Failure) × (k < length ts)
              × ((a.process_once (calls k p.work)).0 ≡ err e)
              × (o.0 ≡ some (err e))
              × (o.1.work ≡ (a.close (calls (suc k) p.work)).1)))

  closed_lem :
      (r : Result (Unit {0})) (p : ProcessState W) (o : Result (Unit {0}) × W)
      → o.0 ≡ ok tt
      → closed s r p o ≡ (some r, record p { work = o.1; heartbeat = none })
  closed_lem r p (ok _, w) h = refl
  closed_lem r p (err e, w) h = absurd (cc)

  module _ (closes : (w : W) → (a.close w).0 ≡ ok tt) where
    finish-Ends :
        (ts : List Turn) (p : ProcessState W) (o : Run W)
        → LoopEnds ts p o
        → Ends ts p (finish s (some a) o)
    finish-Ends ts p (none, q) (inl (ended, work, all)) = absurd (cc)
    finish-Ends ts p (none, q) (inr (k, e, lt, raised, ended, work)) = absurd (cc)
    finish-Ends ts p (some r, q) (inl (ended, work, all)) =
        subst (Ends ts p) (sym (closed_lem r q (a.close q.work) (closes q.work)))
          (refl, inl (ended, ap (λ w. (a.close w).1) work, all))
    finish-Ends ts p (some r, q) (inr (k, e, lt, raised, ended, work)) =
        subst (Ends ts p) (sym (closed_lem r q (a.close q.work) (closes q.work)))
          (refl, inr (k, e, lt, raised, ended, ap (λ w. (a.close w).1) work))

    -- Where the worker is enabled and closing it never raises: a run of `run_worker` whose turns
    -- touch the heartbeat until one finds the stop event set ends and removes the heartbeat. It
    -- calls `process_once` once a turn, waits exactly after the calls that found nothing, closes
    -- the worker and returns; or a call raised, which ends the run with its error, after the
    -- worker is closed.
    pub run_worker-Ends :
        (ts rest : List Turn) (stop : Turn) (p : ProcessState W)
        → s.is_enabled ≡ true
        → AllGo ts
        → stop.is_set ≡ true
        → Ends ts p (run_worker s (ok a) (ts ++ stop ∷ rest) p)
    unfolding run_worker
    run_worker-Ends ts rest stop p enabled go set = rw enabled (
        finish-Ends ts p (loop s (some a) (ts ++ stop ∷ rest) p)
          (loop-LoopEnds ts rest stop p go set))
