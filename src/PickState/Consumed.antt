-- ===== src/PickState/Consumed.antt =====
-- A pending action of src/piki/state/pending_actions.py is consumed at most once, and expires.
use buenpick_piki.Base.{ℕ, String, ◌≡◌, ◌≤◌, ◌<◌, ◌+◌, refl, true, none, some, arith, ◌∙◌}
use buenpick_piki.Coordination.Redis.{up, until}
use buenpick_piki.Coordination.Keys.{ConversationScope}
use buenpick_piki.PickState.Values.{KeyValueStore, JsonModel}
use buenpick_piki.PickState.Actions.{
  PendingAction, absent, present, action_key, set_action, consume, parse,
}

module _ (r : KeyValueStore) (json : JsonModel PendingAction) (sha256 : String → String)
    (ttl_seconds : ℕ) (scope : ConversationScope) (action : PendingAction) (t : ℕ)
    (s : r.State) where
  abbrev key : String
  key = action_key r json sha256 scope

  abbrev after_set : r.State
  after_set = (set_action r json sha256 ttl_seconds up t scope action s).1

  abbrev after_consume : ℕ → r.State
  after_consume t' = (consume r json sha256 up t' scope after_set).1

  consumes :
      (t' : ℕ) (s' : r.State)
      → json.validate (json.dump action) ≡ some action
      → r.get s' t' key ≡ some (json.dump action)
      → consume r json sha256 up t' scope s' ≡ (present action, (r.delete s' t' key).1)
  unfolding consume parse
  consumes t' s' valid h = rw (h, valid) refl

  finds_none :
      (t' : ℕ) (s' : r.State)
      → r.get s' t' key ≡ none
      → (consume r json sha256 up t' scope s').0 ≡ absent
  unfolding consume parse
  finds_none t' s' h = rw h refl

  is_set :
      (t' : ℕ) → t ≤ t' → r.get after_set t' key ≡ until (t + ttl_seconds) (json.dump action) t'
  unfolding set_action
  is_set t' l = r.set-get s t key (json.dump action) ttl_seconds t' l

  set_succeeds :
      (set_action r json sha256 ttl_seconds up t scope action s).0
      ≡ record { success = true; state_available = true }
  unfolding set_action
  set_succeeds = rw (r.set-done s t key (json.dump action) ttl_seconds) refl

  -- On a store with the stated laws and a working connection, a pending action that its JSON gives
  -- back is stored, is found by a `consume` before its time to live ends, and is missing for a
  -- later one.
  pub consumed_once :
      json.validate (json.dump action) ≡ some action
      → (t' t'' : ℕ) → t ≤ t'
      → t' < t + ttl_seconds
      → t' ≤ t''
      → ((set_action r json sha256 ttl_seconds up t scope action s).0
          ≡ record { success = true; state_available = true })
        × ((consume r json sha256 up t' scope after_set).0 ≡ present action)
        × ((consume r json sha256 up t'' scope (after_consume t')).0 ≡ absent)
  unfolding consume parse
  consumed_once valid t' t'' l h l' =
      let here : r.get after_set t' key ≡ some (json.dump action) = is_set t' l ∙ ground arith in
      let first = consumes t' after_set valid here in
      (
        set_succeeds,
        rw first refl,
        rw first
            (finds_none t'' (r.delete after_set t' key).1 (r.delete-get after_set t' key t'' l')),
      )

  -- On a store with the stated laws and a working connection, a pending action is missing for a
  -- `consume` once its time to live has ended.
  pub expires_unconsumed :
      (t' : ℕ) → t + ttl_seconds ≤ t' → (consume r json sha256 up t' scope after_set).0 ≡ absent
  expires_unconsumed t' h = finds_none t' after_set (is_set t' (omega (arith, h)) ∙ ground arith)
