-- ===== src/UseCases/Prepared.antt =====
-- What `prepare` of src/piki/use_cases/pick_image.py answers, over the tool of
-- src/piki/tools/buenpick.py.
use buenpick_piki.Base.{
  ◌≡◌, ◌⊎◌, inl, inr, refl, String, true, false, Option, none, some, List, [], arith, ap, sym, ◌∙◌,
  truthy?, truthy, Bool-cases,
}
use mathlib.Core.Path.{subst}
use buenpick_piki.Base.Failure.{Result, ok, err}
use buenpick_piki.Domain.Tools.{
  ToolResult, ToolErrorCode, validate_result_shape, validate_evidence, EvidenceItem,
}
use buenpick_piki.Observability.{LifecycleRecord}
use buenpick_piki.BuenPick.Models.{AvailablePick, ClientError, Answer, returns, raises}
use buenpick_piki.BuenPick.Tools.{
  announced, no_image, with_image as with_image_of, ToolReadings, PickImageEvidence, image_of,
  get_pick_image, succeeded_result, failed_result, after_operation, collect, run,
}
use buenpick_piki.BuenPick.Evidence.{message_or}
use buenpick_piki.PickState.Active.{
  ActivePickResolution, ActivePickResolutionStatus, confirmed, missing, stale, state_unavailable,
  upstream_unavailable as not_reached,
}
use buenpick_piki.UseCases.PickImage.{
  PickImagePreparation, validate_shape, failure, told, failure_of, resolution_failure, with_image,
  from_content, from_tool, with_pick, by_status, after_resolve, prepare,
}

same_result : (x r : ToolResult PickImageEvidence) → validate_result_shape x ≡ ok r → x ≡ r
unfolding validate_result_shape
same_result x r h = ground arith

same_item : (x y : EvidenceItem) → validate_evidence x ≡ ok y → x ≡ y
unfolding validate_evidence
same_item x y h = ground arith

same_preparation : (x p : PickImagePreparation) → validate_shape x ≡ ok p → x ≡ p
unfolding validate_shape
same_preparation x p h = ground arith

not_blank : (o : Option String) (s : String) → truthy s ≡ true → truthy (message_or o s) ≡ true
not_blank none s h = h
not_blank (some w) s h = elim (Bool-cases (truthy w)) [ inl e ↦ rw e e | inr e ↦ rw e h ]

-- a preparation without an image, which says why
abbrev pub Unprepared : PickImagePreparation → Type 0
Unprepared p = (p.success ≡ false) × (p.media_url ≡ none) × (truthy? p.user_safe_message ≡ true)

module _ (t : ToolReadings) (trace_id : String)
    (client : String → Result (Answer AvailablePick)) where
  abbrev pub tool : String → Result (ToolResult PickImageEvidence) × List LifecycleRecord
  tool pick_id = get_pick_image t trace_id (client pick_id)

  -- the image of what the client answers for a pick
  abbrev pub Shows : String → PickImagePreparation → Type 0
  Shows pick_id p =
      (pick : AvailablePick) × (url : String) × (client pick_id ≡ ok (returns pick))
      × (image_of pick pick.images ≡ some url)
      × (p.success ≡ true)
      × (p.media_url ≡ some url)
      × (p.active_pick_id ≡ some pick.id)

  told_failure :
      (name : String) (code : ToolErrorCode) (message : String) (p : PickImagePreparation)
      → truthy message ≡ true
      → validate_shape (failure name code message trace_id) ≡ ok p
      → (validate_shape p ≡ ok p) × (p.trace_id ≡ trace_id) × Unprepared p
  told_failure name code message p some_text h =
      let same = same_preparation (failure name code message trace_id) p h in
      subst (λ q. (validate_shape q ≡ ok q) × (q.trace_id ≡ trace_id) × Unprepared q) same
        (h ∙ ap ok (sym same), refl, (refl, refl, some_text))

  resolution_told :
      (status : ActivePickResolutionStatus) (code : Option ToolErrorCode) (p : PickImagePreparation)
      → told trace_id (failure_of status code) ≡ ok p
      → (validate_shape p ≡ ok p) × (p.trace_id ≡ trace_id) × Unprepared p
  resolution_told confirmed code p h = absurd (cc)
  resolution_told missing code p h = told_failure _ _ _ p refl h
  resolution_told stale code p h = told_failure _ _ _ p refl h
  resolution_told state_unavailable code p h = told_failure _ _ _ p refl h
  resolution_told not_reached code p h = told_failure _ _ _ p refl h

  image_prepared :
      (image : PickImageEvidence) (p : PickImagePreparation)
      → with_image image trace_id ≡ ok p
      → (validate_shape p ≡ ok p)
        × (p.trace_id ≡ trace_id)
        × (p.success ≡ true)
        × (p.media_url ≡ some image.image_url)
        × (p.active_pick_id ≡ some image.pick_id)
  unfolding with_image validate_evidence validate_shape
  image_prepared image p h = ground arith

  abbrev Done : String → PickImagePreparation → Type 0
  Done pick_id p =
      (validate_shape p ≡ ok p) × (p.trace_id ≡ trace_id) × (Unprepared p ⊎ Shows pick_id p)

  told_Done :
      (pick_id : String) (p : PickImagePreparation)
      → (validate_shape p ≡ ok p) × (p.trace_id ≡ trace_id) × Unprepared p
      → Done pick_id p
  told_Done pick_id p (valid, trace, why) = (valid, trace, inl why)

  abbrev finished : Result (ToolResult PickImageEvidence) → Result PickImagePreparation
  finished r = (from_tool trace_id (r, [])).0

  abbrev content_of : ToolResult PickImageEvidence → Result PickImagePreparation
  content_of r = from_content r r.content trace_id

  checked :
      (x : ToolResult PickImageEvidence) (p : PickImagePreparation)
      → finished (validate_result_shape x) ≡ ok p
      → content_of x ≡ ok p
  unfolding validate_result_shape
  checked x p h = ground arith

  failed_Done :
      (pick_id : String) (e : ClientError) (p : PickImagePreparation)
      → finished (validate_result_shape (failed_result t trace_id e)) ≡ ok p
      → Done pick_id p
  failed_Done pick_id e p h = told_Done pick_id p (
      told_failure "get_pick_image" e.code _ p
        (not_blank (some e.user_safe_message) "No pude confirmar una imagen para ese pick." refl)
        (checked (failed_result t trace_id e) p h))

  image_Done :
      (pick_id : String) (pick : AvailablePick) (image : Option String) (p : PickImagePreparation)
      → client pick_id ≡ ok (returns pick)
      → image_of pick pick.images ≡ image
      → finished (after_operation t trace_id "get_pick_image" (ok (with_image_of pick image))).0
        ≡ ok p
      → Done pick_id p
  unfolding after_operation
  image_Done pick_id pick none p answers shown h = failed_Done pick_id no_image p h
  image_Done pick_id pick (some url) p answers shown h =
      let image : PickImageEvidence = record {
        pick_id = pick.id;
        title = pick.title;
        image_url = url;
      } in
      let (valid, trace, success, media, active) =
        image_prepared image p (checked (succeeded_result t trace_id image) p h) in
      (valid, trace, inr (pick, url, answers, shown, success, media, active))

  answer_Done :
      (pick_id : String) (answer : Result (Answer AvailablePick)) (p : PickImagePreparation)
      → client pick_id ≡ answer
      → finished (after_operation t trace_id "get_pick_image" (collect answer)).0 ≡ ok p
      → Done pick_id p
  unfolding after_operation
  answer_Done pick_id (err e) p answers h = absurd (cc)
  answer_Done pick_id (ok (raises e)) p answers h = failed_Done pick_id e p h
  answer_Done pick_id (ok (returns pick)) p answers h =
      image_Done pick_id pick (image_of pick pick.images) p answers refl h

  same_events :
      (r : Result (ToolResult PickImageEvidence)) (events : List LifecycleRecord)
      → finished r ≡ (from_tool trace_id (r, events)).0
  same_events (ok r) events = refl
  same_events (err e) events = refl

  announced-Done :
      (pick_id : String) (p : PickImagePreparation) (x : Result LifecycleRecord)
      → (from_tool trace_id (announced t trace_id "get_pick_image" (collect (client pick_id)) x)).0
        ≡ ok p
      → Done pick_id p
  announced-Done pick_id p (err e) h = absurd (cc)
  announced-Done pick_id p (ok e) h =
      answer_Done pick_id (client pick_id) p refl (same_events _ _ ∙ h)

  tool_Done :
      (pick_id : String) (p : PickImagePreparation)
      → (from_tool trace_id (tool pick_id)).0 ≡ ok p
      → Done pick_id p
  unfolding get_pick_image run
  tool_Done pick_id p h = announced-Done pick_id p _ h

  -- the preparation for a resolution: of a confirmed pick, or none
  abbrev pub Prepares : ActivePickResolution → PickImagePreparation → Type 0
  Prepares a p =
      (validate_shape p ≡ ok p)
      × (p.trace_id ≡ trace_id)
      × (Unprepared p
          ⊎ ((pick : AvailablePick) × (a.status ≡ confirmed)
              × (a.pick ≡ some pick)
              × Shows pick.id p))

  unresolved :
      (a : ActivePickResolution) (p : PickImagePreparation)
      → resolution_failure a trace_id ≡ ok p
      → Prepares a p
  unfolding resolution_failure
  unresolved a p h =
      let (valid, trace, why) = resolution_told a.status a.error_code p h in (valid, trace, inl why)

  shown :
      (a : ActivePickResolution) (pick : AvailablePick) (p : PickImagePreparation)
      → a.status ≡ confirmed
      → a.pick ≡ some pick
      → Done pick.id p
      → Prepares a p
  shown a pick p s k (valid, trace, inl why) = (valid, trace, inl why)
  shown a pick p s k (valid, trace, inr image) = (valid, trace, inr (pick, s, k, image))

  pick_Prepares :
      (a : ActivePickResolution) (o : Option AvailablePick) (p : PickImagePreparation)
      → a.status ≡ confirmed
      → a.pick ≡ o
      → (with_pick tool trace_id o).0 ≡ ok p
      → Prepares a p
  pick_Prepares a none p s k h = absurd (cc)
  pick_Prepares a (some pick) p s k h = shown a pick p s k (tool_Done pick.id p h)

  status_Prepares :
      (a : ActivePickResolution) (status : ActivePickResolutionStatus) (p : PickImagePreparation)
      → a.status ≡ status
      → (by_status tool trace_id status a).0 ≡ ok p
      → Prepares a p
  status_Prepares a confirmed p s h = pick_Prepares a a.pick p s refl h
  status_Prepares a missing p s h = unresolved a p h
  status_Prepares a stale p s h = unresolved a p h
  status_Prepares a state_unavailable p s h = unresolved a p h
  status_Prepares a not_reached p s h = unresolved a p h

  -- A preparation that `prepare` returns for a resolution, over the tool, is valid and has the
  -- trace; and either it has no image and says why, or the resolution is a confirmed pick and the
  -- image is the one of what the client answers for that pick.
  pub prepare-Prepares :
      {S : Type 0} (resolve : S → Result ActivePickResolution × S) (s s' : S)
      (a : ActivePickResolution) (p : PickImagePreparation)
      → resolve s ≡ (ok a, s')
      → (prepare tool trace_id resolve s).0 ≡ ok p
      → Prepares a p
  unfolding prepare
  prepare-Prepares resolve s s' a p resolves h =
      status_Prepares a a.status p refl
        (subst (λ d. (after_resolve tool trace_id d).0 ≡ ok p) resolves h)
