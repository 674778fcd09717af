-- ===== src/Composition/Grounded.antt =====
-- What a reply of src/piki/composition/engine.py can be: the fallback, or a text that the checks of
-- src/piki/composition/grounding.py found safe.
use buenpick_piki.Base.{
  ◌≡◌, ◌⊎◌, inl, inr, refl, String, Bool, true, false, not, ◌&&◌, Option, none, some, List, [], ◌∷◌,
  any, truthy, All, arith, Bool-cases,
}
use mathlib.Core.Path.{subst}
use buenpick_piki.Base.Failure.{Result, ok, err}
use buenpick_piki.Base.Text.{strip, contains, join}
use buenpick_piki.Base.Regex.{Regex, find_all, search_in}
use buenpick_piki.Domain.Tools.{
  ContextPacket, ResponseMode, deterministic, jinja, jinja_llm, non_commercial_llm,
}
use buenpick_piki.Observability.{LifecycleRecord}
use buenpick_piki.Composition.Patterns.{
  Unicode, high_risk_patterns, content_claim, evidence_free_availability,
}
use buenpick_piki.Composition.Grounding.{
  GroundingFailure, add_if, grounded, from_api, leaks, normalized, evidence_corpus, token_of,
  unsupported, unsupported_in, leaks_reference, failures_of, validate, factual_fallback,
}
use buenpick_piki.Composition.Engine.{
  ConversationTurn, CompositionRequest, Composed, composed, adapter_error, EngineReadings,
  ResponseOutcome, validate_outcome, compose, fallback, check_text, respond, after_compose,
  fallback_outcome, said, settled, by_text, by_mode,
}

All-any {ℓ} :
    {A : Type ℓ} (p : A → Bool) (xs : List A) → any p xs ≡ false → All (λ x. p x ≡ false) xs
unfolding any
All-any p [] h = tt
All-any p (x ∷ xs) h = (ground arith, All-any p xs (ground arith))

All-imp {ℓ κ ι} :
    {A : Type ℓ} {P : A → Type κ} {Q : A → Type ι} (xs : List A)
    → ((x : A) → P x → Q x)
    → All P xs
    → All Q xs
All-imp [] f h = tt
All-imp (x ∷ xs) f h = (f x h.0, All-imp xs f h.1)

none_added :
    (b : Bool) (f : GroundingFailure) (rest : List GroundingFailure)
    → add_if b f rest ≡ []
    → (b ≡ false) × (rest ≡ [])
none_added true f rest h = absurd (cc)
none_added false f rest h = (refl, h)

not_both : (a b : Bool) → a && b ≡ false → (a ≡ false) ⊎ (b ≡ false)
not_both true b h = inr h
not_both false b h = inl refl

un_not : (b : Bool) → not b ≡ false → b ≡ true
un_not true h = refl
un_not false h = absurd (cc)

either_unless : (a b : Bool) → not a && b ≡ false → (a ≡ true) ⊎ (b ≡ false)
either_unless true b h = inl refl
either_unless false b h = inr h

module _ (u : Unicode) (p : ContextPacket) where
  -- a match that the evidence supports
  abbrev pub Supported : String → Type 0
  Supported matched =
      (truthy (token_of u matched) ≡ false)
      ⊎ (contains (evidence_corpus u p) (token_of u matched) ≡ true)

  -- what no safe text does
  abbrev pub Safe : String → Type 0
  Safe s =
      (truthy s ≡ true)
      × (leaks u (u.upper s) ≡ false)
      × All (λ r. All Supported (find_all r s)) (high_risk_patterns u)
      × ((any from_api p.confirmed_data ≡ true)
          ⊎ (search_in (evidence_free_availability u) none s ≡ false))
      × ((contains (normalized u (join "\n" p.unavailable_data)) "contenido" ≡ false)
          ⊎ (search_in (content_claim u) none s ≡ false))
      × All (λ e. leaks_reference u (evidence_corpus u p) s e ≡ false) p.confirmed_data

  unsupported-Supported :
      (matched : String) → unsupported u (evidence_corpus u p) matched ≡ false → Supported matched
  unfolding unsupported
  unsupported-Supported matched h = elim (Bool-cases (truthy (token_of u matched))) [
    | inl e ↦ inr (ground arith)
    | inr e ↦ inl e
  ]

  matches-Supported :
      (s : String) (r : Regex)
      → unsupported_in u (evidence_corpus u p) s r ≡ false
      → All Supported (find_all r s)
  unfolding unsupported_in
  matches-Supported s r h =
      All-imp (find_all r s) unsupported-Supported (All-any _ (find_all r s) h)

  no_failures-Safe : (s : String) → failures_of u s p ≡ [] → Safe s
  unfolding failures_of
  no_failures-Safe s h =
      let (not_blank, h1) = none_added _ _ _ h in
      let (grounded_offer, h2) = none_added _ _ _ h1 in
      let (no_leak, h3) = none_added _ _ _ h2 in
      let (no_reference, h4) = none_added _ _ _ h3 in
      let (no_claim, h5) = none_added _ _ _ h4 in
      let (no_risk, _) = none_added _ _ _ h5 in
      (
        un_not (truthy s) not_blank,
        no_leak,
        All-imp (high_risk_patterns u) (matches-Supported s)
            (All-any _ (high_risk_patterns u) no_risk),
        either_unless (any from_api p.confirmed_data) _ grounded_offer,
        not_both _ _ no_claim,
        All-any _ p.confirmed_data no_reference,
      )

  -- a reply is the fallback and says so, or a safe text
  abbrev pub Answers : ResponseOutcome → Type 0
  Answers o =
      (((o.used_fallback ≡ true) × (o.text ≡ factual_fallback u p))
        ⊎ ((o.used_fallback ≡ false) × Safe o.text))
      × (o.mode ≡ p.response_mode)
      × (o.trace_id ≡ p.trace_id)

same_outcome : (o o' : ResponseOutcome) → validate_outcome o ≡ ok o' → o ≡ o'
unfolding validate_outcome
same_outcome o o' h = ground arith

module _ (u : Unicode) (system_prompt : String) (render : ContextPacket → String)
    (adapter : CompositionRequest → Result Composed) (t : EngineReadings) (p : ContextPacket) where
  fallback-Answers :
      (fs : List GroundingFailure) (o : ResponseOutcome)
      → fallback u system_prompt render adapter t p fs ≡ ok o
      → Answers u p o
  unfolding fallback
  fallback-Answers fs o h =
      subst (Answers u p)
        (same_outcome (fallback_outcome u system_prompt render adapter t p fs) o h)
        (inl (refl, refl), refl, refl)

  settled-Answers :
      (provider : Option String) (text : String) (fs : List GroundingFailure) (o : ResponseOutcome)
      → failures_of u (strip text) p ≡ fs
      → settled u system_prompt render adapter t p provider
          (grounded u (strip text) fs)
          (grounded u (strip text) fs).text
        ≡ ok o
      → Answers u p o
  settled-Answers provider text [] o e h =
      subst (Answers u p)
        (same_outcome (said u system_prompt render adapter t p provider (strip text)) o h)
        (inr (refl, no_failures-Safe u p (strip text) e), refl, refl)
  settled-Answers provider text (f ∷ fs) o e h = fallback-Answers (f ∷ fs) o h

  check_text-Answers :
      (provider : Option String) (text : String) (o : ResponseOutcome)
      → (check_text u system_prompt render adapter t p provider text).0 ≡ ok o
      → Answers u p o
  unfolding check_text validate
  check_text-Answers provider text o h =
      settled-Answers provider text (failures_of u (strip text) p) o refl h

  llm-Answers :
      (done : Result Composed × List LifecycleRecord) (o : ResponseOutcome)
      → (after_compose u system_prompt render adapter t p done).0 ≡ ok o
      → Answers u p o
  llm-Answers (err e, events) o h = absurd (cc)
  llm-Answers (ok (adapter_error code), events) o h = fallback-Answers [] o h
  llm-Answers (ok (composed c), events) o h =
      check_text-Answers (some c.provider_response_id) c.text o h

  text-Answers :
      (text : Option String) (o : ResponseOutcome)
      → (by_text u system_prompt render adapter t p text).0 ≡ ok o
      → Answers u p o
  text-Answers none o h = absurd (cc)
  text-Answers (some text) o h = check_text-Answers none text o h

  mode-Answers :
      (mode : ResponseMode) (conversation : List ConversationTurn) (text : Option String)
      (o : ResponseOutcome)
      → (by_mode u system_prompt render adapter t mode p conversation text).0 ≡ ok o
      → Answers u p o
  mode-Answers jinja conversation text o h = fallback-Answers [] o h
  mode-Answers deterministic conversation text o h = text-Answers text o h
  mode-Answers jinja_llm conversation text o h =
      llm-Answers (compose u system_prompt render adapter t p conversation) o h
  mode-Answers non_commercial_llm conversation text o h =
      llm-Answers (compose u system_prompt render adapter t p conversation) o h

  -- Whatever the model, the evidence and the conversation, an outcome of `respond` has the
  -- packet's mode and trace, and either says that it is the fallback and is it, or its text passes
  -- every grounding check: it is not blank, it names no internal pattern and no reference that the
  -- evidence lacks, each match of a high risk pattern is blank or occurs in the evidence, it
  -- claims no availability without evidence of the API and no content that is unconfirmed.
  pub respond_grounded :
      (conversation : List ConversationTurn) (text : Option String) (o : ResponseOutcome)
      → (respond u system_prompt render adapter t p conversation text).0 ≡ ok o
      → Answers u p o
  unfolding respond
  respond_grounded conversation text o h = mode-Answers p.response_mode conversation text o h
