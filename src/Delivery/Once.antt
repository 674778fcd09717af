-- ===== src/Delivery/Once.antt =====
-- At most one call of the adapter for each idempotency key, however the workers of
-- Delivery/System.antt interleave.
use buenpick_piki.Base.{
  ℕ, String, ◌≤◌, ◌≡◌, ◌≢◌, refl, Bool, true, false, Option, none, some, [], ◌∷◌, ◌++◌, ◌⊎◌, inl,
  inr, arith, any, count, str_eq, eq_iff, eq_refl, Bool-cases,
}
use buenpick_piki.Base.Failure.{Result, ok, err}
use buenpick_piki.Sql.Laws.{any-append, any-update, count-append, count-eq-zero}
use buenpick_piki.Domain.Delivery.{DeliveryRequest, DeliveryResult}
use buenpick_piki.Db.Models.{Db}
use buenpick_piki.Meta.Status.{MetaStatusUpdate}
use buenpick_piki.Delivery.Store.{
  claim, finalize, apply_callback, key_is, new_attempt, pending_attempt, finalized, attempt_is,
  moved,
}
use buenpick_piki.Delivery.Invariant.{claim_effect, finalize_effect, callback_effect}
use buenpick_piki.Delivery.System.{
  Phase, idle, claimed, System, Step, claims, calls_adapter, finalizes, dies, calls_back, Reach,
  here, next, after_claim, after_call, at,
}

-- the calls for a key
abbrev pub call_for : String → DeliveryRequest → Bool
call_for k r = str_eq r.idempotency_key k

-- the key that a worker is about to hand to the adapter
abbrev held : Phase → Option String
held (claimed _ r) = some r.idempotency_key
held _ = none

record Inv (s : System) : Type 0 where
  once : (k : String) → count (call_for k) s.calls ≤ 1
  called_known :
      (k : String) → any (call_for k) s.calls ≡ true → any (key_is k) s.db.attempts ≡ true
  held_known :
      (i : ℕ) (k : String) → held (s.phase i) ≡ some k → any (key_is k) s.db.attempts ≡ true
  held_uncalled :
      (i : ℕ) (k : String) → held (s.phase i) ≡ some k → any (call_for k) s.calls ≡ false
  held_apart :
      (i j : ℕ) (k : String) → held (s.phase i) ≡ some k → held (s.phase j) ≡ some k → i ≡ j

-- a claim that is created had no attempt for its key before, and has one after
claim_created :
    (a c n : ℕ) (r : DeliveryRequest) (db : Db) (k : String)
    → held (after_claim r (claim a c n r db).0) ≡ some k
    → (k ≡ r.idempotency_key)
      × (any (key_is r.idempotency_key) db.attempts ≡ false)
      × (any (key_is r.idempotency_key) (claim a c n r db).1.attempts ≡ true)
unfolding claim
claim_created a c n r db k h = ground (
  arith,
  eq_refl r.idempotency_key,
  any-append (key_is r.idempotency_key) db.attempts (new_attempt a c n r),
)

-- An attempt for a key stays.
abbrev Keeps : Db → Db → Type 0
Keeps db db' = (k : String) → any (key_is k) db.attempts ≡ true → any (key_is k) db'.attempts ≡ true

claim-Keeps : (a c n : ℕ) (r : DeliveryRequest) (db : Db) → Keeps db (claim a c n r db).1
claim-Keeps a c n r db k h = elim (claim_effect a c n r db) [
  | inl e ↦ rw e h
  | inr (_, _, e) ↦ rw e (rw any-append (rw h))
]

finalize-Keeps : (e n i : ℕ) (r : DeliveryResult) (db : Db) → Keeps db (finalize e n i r db).1
finalize-Keeps e n i r db k h = elim (finalize_effect e n i r db) [
  | inl same ↦ rw same h
  | inr changed ↦
      rw changed
        (rw (any-update (key_is k) (pending_attempt i) (finalized n r) db.attempts (λ a. refl)) h)
]

callback-Keeps :
    (e o n : ℕ) (c : MetaStatusUpdate) (db : Db) → Keeps db (apply_callback e o n c db).1
callback-Keeps e o n c db k h = elim (callback_effect e o n c db _ refl) [
  | inl same ↦ rw same h
  | inr (b, _, _, changed) ↦
      rw changed
        (rw (any-update (key_is k) (attempt_is b.id) (moved n c) db.attempts (λ a. refl)) h)
]

Inv-tables : (s : System) (db : Db) → Keeps s.db db → Inv s → Inv (record s { db = db })
Inv-tables s db keep v = record {
  once = v.once;
  called_known = λ k h. keep k (v.called_known k h);
  held_known = λ j k h. keep k (v.held_known j k h);
  held_uncalled = v.held_uncalled;
  held_apart = v.held_apart;
}

-- a worker that comes to hold nothing, over tables that keep their keys
Inv-quiet :
    (s : System) (db : Db) (i : ℕ) (p : Phase)
    → held p ≡ none
    → Keeps s.db db
    → Inv s
    → Inv (record s { db = db; phase = at s.phase i p })
Inv-quiet s db i p none_held keep v = record {
  once = v.once;
  called_known = λ k h. keep k (v.called_known k h);
  held_known = λ j k h. keep k (v.held_known j k (was j k h));
  held_uncalled = λ j k h. v.held_uncalled j k (was j k h);
  held_apart = λ j l k h m. v.held_apart j l k (was j k h) (was l k m);
}
  where
    was : (j : ℕ) (k : String) → held (at s.phase i p j) ≡ some k → held (s.phase j) ≡ some k
    was j k h = ground arith

none_after : (a : ℕ) (answer : Result DeliveryResult) → held (after_call a answer) ≡ none
none_after a (ok r) = refl
none_after a (err e) = refl

-- what a worker holds is new, or was held before
held-at :
    (f : ℕ → Phase) (i j : ℕ) (p : Phase) (k : String)
    → held (at f i p j) ≡ some k
    → ((i ≡ j) × (held p ≡ some k)) ⊎ ((i ≢ j) × (held (f j) ≡ some k))
held-at f i j p k h = ground arith

module _ (s : System) (i a c n : ℕ) (r : DeliveryRequest) (v : Inv s) where
  db' : Db
  db' = (claim a c n r s.db).1

  abbrev stands : Phase
  stands = after_claim r (claim a c n r s.db).0

  fresh : (k : String) → held stands ≡ some k → any (key_is k) s.db.attempts ≡ false
  fresh k h = let (e, f, g) = claim_created a c n r s.db k h in rw e f

  Inv-claims : Inv (record s { db = (claim a c n r s.db).1; phase = at s.phase i stands })
  Inv-claims = record {
    once = v.once;
    called_known = λ k h. claim-Keeps a c n r s.db k (v.called_known k h);
    held_known = λ j k h. elim (held-at s.phase i j stands k h) [
      | inl (_, q) ↦ let (e, f, g) = claim_created a c n r s.db k q in rw e g
      | inr (_, q) ↦ claim-Keeps a c n r s.db k (v.held_known j k q)
    ];
    held_uncalled = λ j k h. elim (held-at s.phase i j stands k h) [
      | inl (_, q) ↦ ground (arith, v.called_known k, fresh k q)
      | inr (_, q) ↦ v.held_uncalled j k q
    ];
    held_apart = λ j l k h m. elim (held-at s.phase i j stands k h) [
      | inl (e, q) ↦ elim (held-at s.phase i l stands k m) [
        | inl (e', _) ↦ omega arith
        | inr (_, q') ↦ absurd (ground (arith, v.held_known l k q', fresh k q))
      ]
      | inr (_, q) ↦ elim (held-at s.phase i l stands k m) [
        | inl (_, q') ↦ absurd (ground (arith, v.held_known j k q, fresh k q'))
        | inr (_, q') ↦ v.held_apart j l k q q'
      ]
    ];
  }

module _ (s : System) (i a : ℕ) (r : DeliveryRequest) (p : Phase)
    (at_call : s.phase i ≡ claimed a r) (none_held : held p ≡ none) (v : Inv s) where
  holds : held (s.phase i) ≡ some r.idempotency_key
  holds = rw at_call

  holds_key : (k : String) → call_for k r ≡ true → held (s.phase i) ≡ some k
  holds_key k h = rw (← (eq_iff r.idempotency_key k).0 h) holds

  others :
      (j : ℕ) (k : String)
      → held (at s.phase i p j) ≡ some k
      → (i ≢ j) × (held (s.phase j) ≡ some k)
  others j k h = ground (arith, held-at s.phase i j p k h)

  Inv-calls : Inv (record s { calls = s.calls ++ r ∷ []; phase = at s.phase i p })
  unfolding count
  Inv-calls = record {
    once = λ k. rw count-append (elim (Bool-cases (call_for k r)) [
      | inl e ↦
          rw (e, count-eq-zero (call_for k) s.calls (v.held_uncalled i k (holds_key k e)))
            (omega arith)
      | inr e ↦ rw e (omega (arith, v.once k))
    ]);
    called_known = λ k h. elim (Bool-cases (call_for k r)) [
      | inl e ↦ v.held_known i k (holds_key k e)
      | inr e ↦ v.called_known k (ground (arith, any-append (call_for k) s.calls r))
    ];
    held_known = λ j k h. v.held_known j k (others j k h).1;
    held_uncalled = λ j k h. ground (
      arith,
      any-append (call_for k) s.calls r,
      v.held_uncalled j k (others j k h).1,
      λ (e : call_for k r ≡ true).
          (others j k h).0 (v.held_apart i j k (holds_key k e) (others j k h).1),
    );
    held_apart = λ j l k h m. v.held_apart j l k (others j k h).1 (others l k m).1;
  }

Keeps-refl : (db : Db) → Keeps db db
Keeps-refl db k h = h

Step-Inv : {s t : System} → Step s t → Inv s → Inv t
Step-Inv {s} (claims i a c n r q e) v = rw e (Inv-claims s i a c n r v)
Step-Inv {s} (calls_adapter i a r answer q e) v =
    rw e (Inv-calls s i a r _ q (none_after a answer) v)
Step-Inv {s} (finalizes i a e n r q eq) v =
    rw eq (Inv-quiet s _ i idle refl (finalize-Keeps e n a r s.db) v)
Step-Inv {s} (dies i e) v = rw e (Inv-quiet s s.db i idle refl (Keeps-refl s.db) v)
Step-Inv {s} (calls_back e o n c eq) v = rw eq (Inv-tables s _ (callback-Keeps e o n c s.db) v)

Reach-Inv : {s t : System} → Reach s t → Inv s → Inv t
Reach-Inv here v = v
Reach-Inv (next r st) v = Step-Inv st (Reach-Inv r v)

-- No worker is in `send`, and no request has gone to the adapter. The tables are any.
pub record IsStart (s : System) : Type 0 where
  pub no_calls : s.calls ≡ []
  pub all_idle : (i : ℕ) → s.phase i ≡ idle

IsStart-Inv : (s : System) → IsStart s → Inv s
unfolding any count
IsStart-Inv s v = record {
  once = λ k. rw v.no_calls (omega arith);
  called_known = λ k h. absurd (ground (arith, v.no_calls));
  held_known = λ i k h. absurd (ground (arith, v.all_idle i));
  held_uncalled = λ i k h. rw v.no_calls refl;
  held_apart = λ i j k h m. absurd (ground (arith, v.all_idle i));
}

-- From any tables, however workers claim, call the adapter, finalize, die and start again, and
-- whatever callbacks arrive between, each idempotency key reaches the adapter at most once, and
-- when it has, an attempt with that key is stored.
pub adapter_called_once :
    {s t : System}
    → IsStart s
    → Reach s t
    → (k : String)
    → (count (call_for k) t.calls ≤ 1)
      × (any (call_for k) t.calls ≡ true → any (key_is k) t.db.attempts ≡ true)
adapter_called_once {s} start r k =
    let v = Reach-Inv r (IsStart-Inv s start) in (v.once k, v.called_known k)
