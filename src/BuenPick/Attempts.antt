-- ===== src/BuenPick/Attempts.antt =====
-- The retries of src/piki/integrations/buenpick/client.py: what `_request` does over its attempts, and
-- which requests for an order are sent.
use Prim.Native.String.{◌++◌ as append}
use buenpick_piki.Base.{
  ℕ, zero, suc, ◌+◌, ◌-◌, ◌≡◌, ◌≤◌, ◌<◌, ◌⊎◌, inl, inr, refl, String, true, false, ◌&&◌, Option,
  none, some, List, [], ◌∷◌, ltb, truthy, truthy?, arith, Bool-cases, ==_iff, ◌==◌,
}
use mathlib.Core.Path.{subst}
use buenpick_piki.Base.Failure.{Result, ok}
use buenpick_piki.Base.Text.{strip}
use buenpick_piki.Base.Url.{quote}
use buenpick_piki.Domain.Tools.{bad_request}
use buenpick_piki.BuenPick.Models.{CustomerOrder, Answer, raises}
use buenpick_piki.BuenPick.Client.{
  Fetched, Action, get, sleep, retriable, answer_of, backoff, attempts, request, given, stripped,
  order_params, get_customer_order,
}

-- a GET for each of a number of failed attempts, each with its sleep, and one more
abbrev pub plan : String → List (String × String) → ℕ → ℕ → List Action
plan path params attempt zero = get path params ∷ []
plan path params attempt (suc k) =
    get path params ∷ sleep (backoff attempt) ∷ plan path params (attempt + 1) k

module _ {A : Type 0} (validate : String → Option A) (fetch : ℕ → Fetched) (max_attempts : ℕ)
    (path : String) (params : List (String × String)) where
  -- after `k` attempts that are tried again, the next one ends the loop
  abbrev pub Settles : ℕ → ℕ → Result (Answer A) × List Action → Type 0
  Settles attempt k done =
      ((i : ℕ) → attempt ≤ i → i < attempt + k → retriable (fetch i) ≡ true)
      × ((retriable (fetch (attempt + k)) ≡ false) ⊎ (attempt + k ≡ max_attempts))
      × (done ≡ (ok (answer_of validate (fetch (attempt + k))), plan path params attempt k))

  stops :
      (left attempt : ℕ)
      → retriable (fetch attempt) && ltb attempt max_attempts ≡ false
      → (retriable (fetch attempt) ≡ false) ⊎ (attempt ≡ max_attempts)
      → Settles attempt 0 (attempts validate fetch max_attempts path params (suc left) attempt)
  unfolding attempts
  stops left attempt ends why =
      let zero_more : attempt + 0 ≡ attempt = omega arith in
      (λ i h k. absurd (omega arith), rw zero_more why, rw (zero_more, ends) refl)

  goes_on :
      (left attempt k : ℕ)
      → retriable (fetch attempt) ≡ true
      → ltb attempt max_attempts ≡ true
      → Settles
          (attempt + 1)
          k
          (attempts validate fetch max_attempts path params left (attempt + 1))
      → Settles attempt
          (suc k)
          (attempts validate fetch max_attempts path params (suc left) attempt)
  unfolding attempts
  goes_on left attempt k again more (before, why, done) =
      let same : attempt + suc k ≡ attempt + 1 + k = omega arith in
      (
        λ i h j. elim (Bool-cases (i == attempt)) [
          | inl is ↦ rw ((==_iff i attempt).0 is) again
          | inr other ↦ before i (ground arith) (omega arith)
        ],
        rw same why,
        rw (again, more, same, done) refl,
      )

  tries-Settles :
      (left attempt : ℕ)
      → attempt + left ≡ max_attempts
      → (k : ℕ) × (k ≤ left)
        × Settles attempt k (attempts validate fetch max_attempts path params (suc left) attempt)
  tries-Settles zero attempt e =
      (0, omega arith, stops 0 attempt (ground arith) (inr (omega arith)))
  tries-Settles (suc left) attempt e = elim (Bool-cases (retriable (fetch attempt))) [
    | inl again ↦
        let (k, within, rest) = tries-Settles left (attempt + 1) (omega arith) in
        (suc k, omega arith, goes_on (suc left) attempt k again (ground arith) rest)
    | inr ends ↦ (0, omega arith, stops (suc left) attempt (rw ends refl) (inl ends))
  ]

  -- With at least one attempt, `_request` always ends: there is a number of failed attempts, below
  -- the maximum, each of them one that is tried again, after which the next one is not or is the
  -- last; the answer is that one's, and the client sent a GET for each, with a sleep of its
  -- backoff after each failed one.
  pub request-Settles :
      1 ≤ max_attempts
      → (k : ℕ) × (k < max_attempts) × Settles 1 k (request validate fetch max_attempts path params)
  unfolding request
  request-Settles h =
      let (k, within, rest) = tries-Settles (max_attempts - 1) 1 (omega arith) in
      let same : suc (max_attempts - 1) ≡ max_attempts = omega arith in
      (
        k,
        omega arith,
        subst (λ n. Settles 1 k (attempts validate fetch max_attempts path params n 1)) same rest,
      )

given_truthy : (o : Option String) → given o ≡ true → truthy? o ≡ true
given_truthy none h = absurd (cc)
given_truthy (some s) h = ground arith

absent : (o : Option String) → truthy? o ≡ false → given o ≡ false
absent none h = refl
absent (some s) h = ground arith

no_text : (s : String) → truthy s ≡ false → s ≡ String.[]
no_text String.[] h = refl
no_text (String.◌∷◌ c s) h = absurd (cc)

blank : (o : Option String) → truthy? o ≡ true → given o ≡ false → stripped o ≡ String.[]
blank none h k = absurd (cc)
blank (some s) h k = no_text (strip s) (ground arith)

module _ (validate : String → Option CustomerOrder) (fetch : ℕ → Fetched) (max_attempts : ℕ)
    (order_id : String) (phone reference : Option String) where
  abbrev order : Result (Answer CustomerOrder) × List Action
  order = get_customer_order fetch max_attempts validate order_id phone reference

  abbrev asked : List (String × String) → Result (Answer CustomerOrder) × List Action
  asked = request validate fetch max_attempts (append "orders/" (quote order_id))

  -- `get_customer_order` sends nothing and raises where both or none of the phone and the
  -- reference have words; where only the phone has, it asks with the phone; where only the
  -- reference has, it asks with the reference if the phone is absent or empty, but with an empty
  -- phone if the phone is blank.
  pub order_proofs :
      (given phone ≡ given reference
        → (order.1 ≡ [])
          × (order.0
              ≡ ok (
                  raises (record {
                    code = bad_request;
                    user_safe_message = "La orden requiere una unica prueba de pertenencia.";
                    status_code = none;
                  }))))
      × (given phone ≡ true
          → given reference ≡ false
          → order ≡ asked (("customer_phone", stripped phone) ∷ []))
      × (truthy? phone ≡ false
          → given reference ≡ true
          → order ≡ asked (("customer_reference", stripped reference) ∷ []))
      × (truthy? phone ≡ true
          → given phone ≡ false
          → given reference ≡ true
          → order ≡ asked (("customer_phone", String.[]) ∷ []))
  unfolding get_customer_order order_params
  order_proofs = (
    λ h. elim (Bool-cases (given reference)) [
      | inl e ↦ rw (h, e) (refl, refl)
      | inr e ↦ rw (h, e) (refl, refl)
    ],
    λ h k. rw (given_truthy phone h, h, k) refl,
    λ h k. rw (h, absent phone h, k) refl,
    λ h k l. rw (h, k, l, blank phone h k) refl,
  )
