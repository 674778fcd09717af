-- ===== src/Delivery/Callbacks.antt =====
-- What `apply_callback` of src/piki/delivery/service.py does to the stored attempts.
use buenpick_piki.Base.{
  ℕ, ◌≤◌, ◌≡◌, refl, true, Option, none, some, List, [], ◌∷◌, arith, count, Option-cases, inl, inr,
}
use buenpick_piki.Sql.{select, update}
use buenpick_piki.Sql.Laws.{
  find, find-update, find_of_select, find_same, find-passes, map_row, touched,
}
use buenpick_piki.Db.Models.{Db, DeliveryAttemptRecord}
use buenpick_piki.Meta.Status.{MetaStatusUpdate}
use buenpick_piki.Delivery.Types.{attempt_state}
use buenpick_piki.Delivery.Store.{apply_callback, attempt_is, provider_is, can_transition, moved}
use buenpick_piki.Delivery.Lifecycle.{progress, can_transition_iff}

abbrev progress? : Option DeliveryAttemptRecord → ℕ
progress? none = 0
progress? (some a) = progress a.status

-- the progress of the attempt with an identifier
abbrev pub progress_of : ℕ → List DeliveryAttemptRecord → ℕ
progress_of i rows = progress? (find (attempt_is i) rows)

module _ (event_id observed_at now : ℕ) (callback : MetaStatusUpdate) (db : Db) where
  moved-progress :
      (i : ℕ) (a : DeliveryAttemptRecord)
      → find (provider_is callback.provider_message_id) db.attempts ≡ some a
      → can_transition a.status (attempt_state callback.status) ≡ true
      → count (attempt_is i) db.attempts ≤ 1
      → progress_of i db.attempts
        ≤ progress_of i (update (attempt_is a.id) (moved now callback) db.attempts)
  moved-progress i a h t u = elim (Option-cases (find (attempt_is i) db.attempts)) [
    | inl absent ↦ ground (arith, stays)
    | inr (x, e) ↦ ground (
      arith,
      stays,
      find-passes (attempt_is i) db.attempts x e,
      find_same (provider_is callback.provider_message_id) (attempt_is i) db.attempts {r = a} h,
      (can_transition_iff a.status (attempt_state callback.status)).0 t,
    )
  ]
    where
      stays :
          find (attempt_is i) (update (attempt_is a.id) (moved now callback) db.attempts)
          ≡ map_row
              (touched (attempt_is a.id) (moved now callback))
              (find (attempt_is i) db.attempts)
      stays =
          find-update (attempt_is i) (attempt_is a.id) (moved now callback) db.attempts (λ r. refl)

  callback-progress :
      (i : ℕ) (found : List DeliveryAttemptRecord)
      → select (provider_is callback.provider_message_id) db.attempts ≡ found
      → count (attempt_is i) db.attempts ≤ 1
      → progress_of i db.attempts
        ≤ progress_of i (apply_callback event_id observed_at now callback db).1.attempts
  unfolding apply_callback
  callback-progress i [] h u = ground arith
  callback-progress i (a ∷ []) h u =
      ground (arith, moved-progress i a (find_of_select _ db.attempts h))
  callback-progress i (a ∷ b ∷ rest) h u = ground arith

  -- Where at most one attempt has an identifier, a callback never moves that attempt back.
  pub apply_callback-progress :
      (i : ℕ)
      → count (attempt_is i) db.attempts ≤ 1
      → progress_of i db.attempts
        ≤ progress_of i (apply_callback event_id observed_at now callback db).1.attempts
  apply_callback-progress i u = callback-progress i _ refl u
