-- ===== src/Meta/Contract.antt =====
-- What `send` of src/piki/integrations/meta/delivery.py promises to the delivery service.
use buenpick_piki.Base.{
  ◌≡◌, ◌⊎◌, inl, inr, refl, String, Bool, true, false, not, ◌&&◌, Option, none, some, List, [], ◌∷◌,
  ap, sym, ◌∙◌, arith, if◌then◌else◌,
}
use mathlib.Core.Path.{subst}
use buenpick_piki.Base.Failure.{Result, ok}
use buenpick_piki.Domain.Delivery.{
  DeliveryKind, DeliveryRequest, DeliveryResult, failed, is_template, validate_delivery_truth,
  CustomerServiceWindow, open_window, closed_window, unknown_window,
}
use buenpick_piki.BuenPick.Models.{Json}
use buenpick_piki.Meta.Bodies.{
  Built, body, refused, is_open, window_failure, build_body, built_kind, local_failure,
}
use buenpick_piki.Meta.Adapter.{
  Posted, timed_out, request_error, response, posted_result, rejected_result, read_response,
  success_result, send_built, send,
}

abbrev result_of : DeliveryResult → Built → DeliveryResult
result_of d (body _) = d
result_of d (refused r) = r

same_result : (x r : DeliveryResult) → validate_delivery_truth x ≡ ok r → x ≡ r
unfolding validate_delivery_truth
same_result x r h = ground arith

module _ (json : String → Option Json) (show : Json → String) (post : Json → Posted)
    (request : DeliveryRequest) where
  -- nothing was posted and the delivery failed, or the request's body was, once, and it was a
  -- template or the window was open
  abbrev pub Contract : DeliveryResult → List Json → Type 0
  Contract r posts =
      (validate_delivery_truth r ≡ ok r)
      × (r.trace_id ≡ request.trace_id)
      × (((posts ≡ []) × (r.status ≡ failed))
          ⊎ ((b : Json) × (posts ≡ b ∷ [])
              × (build_body request ≡ body b)
              × ((is_template request.kind ≡ true)
                  ⊎ (is_open request.customer_service_window ≡ true))))

  success_trace :
      (o : Option (String × String))
      → (success_result json show request o).trace_id ≡ request.trace_id
  success_trace none = refl
  success_trace (some (product, id)) = refl

  choose_trace :
      (b : Bool) (x y : DeliveryResult)
      → x.trace_id ≡ request.trace_id
      → y.trace_id ≡ request.trace_id
      → (if b then x else y).trace_id ≡ request.trace_id
  choose_trace true x y h k = h
  choose_trace false x y h k = k

  posted_trace : (p : Posted) → (posted_result json show request p).trace_id ≡ request.trace_id
  unfolding posted_result rejected_result
  posted_trace timed_out = refl
  posted_trace request_error = refl
  posted_trace (response status content) =
      choose_trace _ _ _ refl (success_trace (read_response json show content))

  if_refused :
      (b : Bool) (x : DeliveryResult) (y : Json) (result : DeliveryResult)
      → (if b then refused x else body y) ≡ refused result
      → x ≡ result
  if_refused true x y result h = ap (result_of x) h
  if_refused false x y result h = absurd (cc)

  kind_refuses :
      (kind : DeliveryKind) (result : DeliveryResult)
      → built_kind kind request ≡ refused result
      → (result.trace_id ≡ request.trace_id) × (result.status ≡ failed)
  kind_refuses DeliveryKind.text result h = absurd (cc)
  kind_refuses DeliveryKind.image result h =
      subst (λ x. (x.trace_id ≡ request.trace_id) × (x.status ≡ failed))
        (if_refused _ (local_failure request "META_IMAGE_CAPTION_TOO_LONG") _ result h) (refl, refl)
  kind_refuses DeliveryKind.interactive result h = absurd (cc)
  kind_refuses DeliveryKind.template result h = absurd (cc)

  refusals :
      (result : DeliveryResult)
      → build_body request ≡ refused result
      → (result.trace_id ≡ request.trace_id) × (result.status ≡ failed)
  unfolding build_body
  refusals result h = kind_refuses request.kind result h

  window_fails :
      (w : CustomerServiceWindow)
      → request.customer_service_window ≡ w
      → ((window_failure request).trace_id ≡ request.trace_id)
        × ((window_failure request).status ≡ failed)
  unfolding window_failure
  window_fails open_window h = rw h (refl, refl)
  window_fails closed_window h = rw h (refl, refl)
  window_fails unknown_window h = rw h (refl, refl)

  built-Contract :
      (built : Built) (r : DeliveryResult)
      → build_body request ≡ built
      → (is_template request.kind ≡ true) ⊎ (is_open request.customer_service_window ≡ true)
      → (send_built json show post request built).0 ≡ ok r
      → Contract r (send_built json show post request built).1
  built-Contract (refused result) r b w h =
      let same = same_result result r h in
      let (trace, status) = refusals result b in
      subst (λ x. Contract x []) same (h ∙ ap ok (sym same), trace, inl (refl, status))
  built-Contract (body content) r b w h =
      let same = same_result _ r h in
      subst (λ x. Contract x (content ∷ [])) same
        (h ∙ ap ok (sym same), posted_trace (post content), inr (content, refl, b, w))

  abbrev gated : Bool → Bool → Result DeliveryResult × List Json
  gated t o =
      if not t && not o
      then (validate_delivery_truth (window_failure request), [])
      else send_built json show post request (build_body request)

  gate-Contract :
      (t o : Bool) (r : DeliveryResult)
      → is_template request.kind ≡ t
      → is_open request.customer_service_window ≡ o
      → (gated t o).0 ≡ ok r
      → Contract r (gated t o).1
  gate-Contract true o r t_is o_is h = built-Contract (build_body request) r refl (inl t_is) h
  gate-Contract false true r t_is o_is h = built-Contract (build_body request) r refl (inr o_is) h
  gate-Contract false false r t_is o_is h =
      let same = same_result (window_failure request) r h in
      let (trace, status) = window_fails request.customer_service_window refl in
      subst (λ x. Contract x []) same (h ∙ ap ok (sym same), trace, inl (refl, status))

  -- A result that the adapter's `send` returns is valid and has the request's trace; and either
  -- nothing was posted and the delivery failed, or exactly the request's body was posted, once,
  -- and the request is a template or the customer service window is open.
  pub send-Contract :
      (r : DeliveryResult)
      → (send json show post request).0 ≡ ok r
      → Contract r (send json show post request).1
  unfolding send
  send-Contract r h =
      gate-Contract (is_template request.kind) (is_open request.customer_service_window) r refl refl
        h
