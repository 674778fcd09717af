-- ===== src/PickState/Remembered.antt =====
-- What `ActivePickService` of src/piki/state/active_pick.py remembers and forgets.
use buenpick_piki.Base.{
  ℕ, String, ◌≡◌, ◌≤◌, ◌<◌, ◌+◌, refl, Bool, true, false, Option, none, some, truthy, arith, ◌∙◌,
  ap, sym, inl, inr, Bool-cases, if◌then◌else◌,
}
use mathlib.Core.Path.{subst}
use buenpick_piki.Base.Failure.{Result, ok}
use buenpick_piki.Base.Text.{strip}
use buenpick_piki.Domain.Tools.{not_found}
use buenpick_piki.BuenPick.Models.{AvailablePick, Answer, returns, raises, ClientError}
use buenpick_piki.Coordination.Redis.{up}
use buenpick_piki.Coordination.Keys.{ConversationScope}
use buenpick_piki.PickState.Values.{KeyValueStore, JsonModel}
use buenpick_piki.PickState.Active.{
  ActivePickReference, ActivePickResolution, ActivePickResolutionStatus, ActivePickSource, Readings,
  explicit_reference, stale, resolution, confirms, validate_reference, validate_resolution,
  new_reference, pick_key, set_pick, clear_pick, get_pick, remember, resolve, answered,
  StateReadStatus, found, from_store,
}

module _ (r : KeyValueStore) (json : JsonModel ActivePickReference) (sha256 : String → String)
    (ttl_seconds : ℕ) (scope : ConversationScope) where
  abbrev key : String
  key = pick_key r json sha256 ttl_seconds scope

  abbrev run :
      (String → Answer AvailablePick)
      → Readings
      → Option String
      → r.State
      → Result ActivePickResolution × r.State
  run client t explicit s = resolve r json sha256 ttl_seconds client t scope explicit s

  -- a reference that the store holds is the one that is resolved
  resolves_held :
      (client : String → Answer AvailablePick) (t : Readings) (s : r.State) (payload : String)
      (reference : ActivePickReference)
      → t.get_link ≡ up
      → r.get s t.now key ≡ some payload
      → json.validate payload ≡ some reference
      → run client t none s
        ≡ answered r json sha256 ttl_seconds t scope true reference.source
            (client reference.pick_id)
            s
  unfolding resolve get_pick
  resolves_held client t s payload reference link h v = ground arith

  resolves_none :
      (client : String → Answer AvailablePick) (t : Readings) (s : r.State)
      → t.get_link ≡ up
      → r.get s t.now key ≡ none
      → run client t none s ≡ (ok (resolution ActivePickResolutionStatus.missing none), s)
  unfolding resolve get_pick
  resolves_none client t s link h = ground arith

  resolves_explicit :
      (client : String → Answer AvailablePick) (t : Readings) (s : r.State) (explicit : String)
      (pick : AvailablePick)
      → t.set_link ≡ up
      → truthy (strip explicit) ≡ true
      → client (strip explicit) ≡ returns pick
      → validate_reference
          (new_reference r json sha256 ttl_seconds t.selected_at pick explicit_reference)
        ≡ ok (new_reference r json sha256 ttl_seconds t.selected_at pick explicit_reference)
      → run client t (some explicit) s ≡ (
        ok (confirms pick explicit_reference true),
        (r.set s t.now key
            (json.dump
              (new_reference r json sha256 ttl_seconds t.selected_at pick explicit_reference))
            ttl_seconds).1,
      )
  unfolding resolve remember set_pick
  resolves_explicit client t s explicit pick link named h v =
      rw
        (
          named,
          h,
          v,
          link,
          r.set-done s t.now key
              (json.dump
                (new_reference r json sha256 ttl_seconds t.selected_at pick explicit_reference))
              ttl_seconds,
        )
        refl

  module _ (client : String → Answer AvailablePick) (t t' : Readings) (s : r.State)
      (after : t.now ≤ t'.now) (reads : t'.get_link ≡ up) where
    -- On a store with the stated laws and a working connection: a pick that is named and that the
    -- client returns is confirmed and remembered, if its reference is valid and its JSON gives it
    -- back, and before its time to live ends a resolution without a name confirms what the client
    -- returns for that pick, as an explicit reference.
    pub explicit_then_active :
        (explicit : String) (pick pick' : AvailablePick)
        → t.set_link ≡ up
        → t'.now < t.now + ttl_seconds
        → truthy (strip explicit) ≡ true
        → client (strip explicit) ≡ returns pick
        → client pick.id ≡ returns pick'
        → validate_reference
            (new_reference r json sha256 ttl_seconds t.selected_at pick explicit_reference)
          ≡ ok (new_reference r json sha256 ttl_seconds t.selected_at pick explicit_reference)
        → json.validate (
            json.dump
              (new_reference r json sha256 ttl_seconds t.selected_at pick explicit_reference))
          ≡ some (new_reference r json sha256 ttl_seconds t.selected_at pick explicit_reference)
        → ((run client t (some explicit) s).0 ≡ ok (confirms pick explicit_reference true))
          × ((run client t' none (run client t (some explicit) s).1).0
              ≡ ok (confirms pick' explicit_reference true))
    explicit_then_active explicit pick pick' link early named h h' v trip =
        let reference =
          new_reference r json sha256 ttl_seconds t.selected_at pick explicit_reference in
        let first = resolves_explicit client t s explicit pick link named h v in
        let kept = (r.set s t.now key (json.dump reference) ttl_seconds).1 in
        let here : r.get kept t'.now key ≡ some (json.dump reference) =
          r.set-get s t.now key (json.dump reference) ttl_seconds t'.now after ∙ ground arith in
        let second = resolves_held client t' kept (json.dump reference) reference reads here trip in
        (
          ap (λ p. p.0) first,
          subst (λ p. (run client t' none p.1).0 ≡ ok (confirms pick' explicit_reference true))
              (sym first) (ap (λ p. p.0) second ∙ rw h' refl),
        )

    -- On a store with the stated laws and a working connection: where the client does not find the
    -- remembered pick, it is resolved as stale and forgotten, and a later resolution without a
    -- name finds it missing.
    pub stale_is_forgotten :
        (payload : String) (reference : ActivePickReference) (e : ClientError)
        → t.get_link ≡ up
        → t.clear_link ≡ up
        → r.get s t.now key ≡ some payload
        → json.validate payload ≡ some reference
        → client reference.pick_id ≡ raises e
        → e.code ≡ not_found
        → ((run client t none s).0 ≡ ok (resolution stale (some not_found)))
          × ((run client t' none (run client t none s).1).0
              ≡ ok (resolution ActivePickResolutionStatus.missing none))
    unfolding clear_pick
    stale_is_forgotten payload reference e link link' h v gone code =
        let first : run client t none s
            ≡ (ok (resolution stale (some not_found)), (r.delete s t.now key).1) =
          resolves_held client t s payload reference link h v ∙ ground arith in
        let second =
          resolves_none client t' (r.delete s t.now key).1 reads
            (r.delete-get s t.now key t'.now after) in
        (
          ap (λ p. p.0) first,
          subst
              (λ p.
                (run client t' none p.1).0
                ≡ ok (resolution ActivePickResolutionStatus.missing none))
              (sym first) (ap (λ p. p.0) second),
        )

  answered_shape :
      (t : Readings) (remembered : Bool) (source : ActivePickSource) (reply : Answer AvailablePick)
      (s : r.State) (a : ActivePickResolution)
      → (answered r json sha256 ttl_seconds t scope remembered source reply s).0 ≡ ok a
      → validate_resolution a ≡ ok a
  unfolding validate_resolution remember
  answered_shape t remembered source (raises e) s a h = ground arith
  answered_shape t true source (returns pick) s a h = ground arith
  answered_shape t false source (returns pick) s a h = ground arith

  missing_shape :
      (a : ActivePickResolution)
      → ok (resolution ActivePickResolutionStatus.missing none) ≡ ok a
      → validate_resolution a ≡ ok a
  unfolding validate_resolution
  missing_shape a h = ground arith

  store_shape :
      (client : String → Answer AvailablePick) (t : Readings) (status : StateReadStatus)
      (reference : Option ActivePickReference) (s : r.State) (a : ActivePickResolution)
      → (from_store r json sha256 ttl_seconds client t scope
          (record { status = status; reference = reference }, s)).0
        ≡ ok a
      → validate_resolution a ≡ ok a
  unfolding validate_resolution
  store_shape client t StateReadStatus.unavailable reference s a h = ground arith
  store_shape client t StateReadStatus.missing reference s a h = ground arith
  store_shape client t found none s a h = absurd (cc)
  store_shape client t found (some reference) s a h =
      answered_shape t true reference.source (client reference.pick_id) s a h

  -- A resolution that `resolve` returns passes its own validator, whatever the store, the
  -- connection and the client answer.
  pub resolve_shape :
      (client : String → Answer AvailablePick) (t : Readings) (explicit : Option String)
      (s : r.State) (a : ActivePickResolution)
      → (run client t explicit s).0 ≡ ok a
      → validate_resolution a ≡ ok a
  unfolding resolve
  resolve_shape client t none s a h =
      let held = get_pick r json sha256 ttl_seconds t.get_link t.clear_link t.now scope s in
      store_shape client t held.0.status held.0.reference held.1 a h
  resolve_shape client t (some explicit) s a h = elim (Bool-cases (truthy (strip explicit))) [
    | inl e ↦ answered_shape t false explicit_reference (client (strip explicit)) s a (
        subst
          (λ b.
            (if b
              then answered r json sha256 ttl_seconds t scope false explicit_reference
                  (client (strip explicit)) s
              else (ok (resolution ActivePickResolutionStatus.missing none), s)).0
            ≡ ok a)
          e h)
    | inr e ↦ missing_shape a (
        subst
          (λ b.
            (if b
              then answered r json sha256 ttl_seconds t scope false explicit_reference
                  (client (strip explicit)) s
              else (ok (resolution ActivePickResolutionStatus.missing none), s)).0
            ≡ ok a)
          e h)
  ]
