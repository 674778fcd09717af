-- ===== src/Ingress/Redelivery.antt =====
-- A webhook that Meta delivers again, in src/piki/integrations/meta/ingress.py.
use Prim.Native.String.{◌++◌ as append}
use buenpick_piki.Base.{
  ℕ, suc, ◌+◌, ◌≡◌, refl, true, false, List, [], ◌∷◌, All, All-map, length, truthy?, arith, inl,
  inr, Bool-cases, ◌∙◌, sym, ◌≢◌,
}
use mathlib.Core.Path.{subst}
use buenpick_piki.Base.Failure.{Result, ok, err}
use buenpick_piki.Sql.{◌>>=◌, select}
use buenpick_piki.Domain.Messages.{InboundMessage}
use buenpick_piki.Db.Models.{Db}
use buenpick_piki.Db.Models.{DeliveryAttemptRecord}
use buenpick_piki.Meta.Status.{MetaStatusUpdate}
use buenpick_piki.Observability.{LifecycleRecord}
use buenpick_piki.Delivery.Types.{CallbackApplyStatus}
use buenpick_piki.Delivery.Store.{apply_callback, provider_is}
use buenpick_piki.Ingress.Service.{
  CallbackReadings, Counted, counted_status, is_missing, after_status, apply_statuses,
  MessageReadings, Recorded, counted, phone_number, text_of, record_one, record_messages,
}
use buenpick_piki.Ingress.Known.{
  Known, Grows, Known-Grows, Known-again, touched_db, recorded-Known, again-Grows,
}

-- every message says which number it came to, and is known
abbrev pub AllKnown : List InboundMessage → Db → Type 0
AllKnown ms db =
    All (λ m. (truthy? (phone_number m) ≡ true) × Known (text_of (phone_number m)) m db) ms

Grows-trans : {a b c : Db} → Grows a b → Grows b c → Grows a c
Grows-trans g h = record {
  messages_kept = λ e k. h.messages_kept e (g.messages_kept e k);
  conversations_kept = λ ch a e k. h.conversations_kept ch a e (g.conversations_kept ch a e k);
}

pub AllKnown-Grows :
    (ms : List InboundMessage) {db db' : Db} → Grows db db' → AllKnown ms db → AllKnown ms db'
AllKnown-Grows ms g v = All-map ms (λ m k. (k.0, Known-Grows (text_of (phone_number m)) m g k.1)) v

Grows-refl : (db : Db) → Grows db db
Grows-refl db = record { messages_kept = λ e h. h; conversations_kept = λ ch a e h. h }

ok_inj : {A : Type 0} {a b : A} → ok a ≡ ok b → a ≡ b
ok_inj h = cc

bind_ok :
    {A B : Type 0} {b : B} (x : Result A) (k : A → Result B)
    → (x >>= k) ≡ ok b
    → (a : A) × (x ≡ ok a) × (k a ≡ ok b)
bind_ok (ok a) k h = (a, refl, h)
bind_ok (err e) k h = absurd (cc)

module _ (f : ℕ → MessageReadings) where
  -- one turn of the loop
  turn :
      (m : InboundMessage) (ms : List InboundMessage) (n : ℕ) (r : Recorded) (db : Db)
      → truthy? (phone_number m) ≡ true
      → record_messages f n (m ∷ ms) r db ≡ (
          record_one (f n) (text_of (phone_number m)) m db >>= (λ p.
            record_messages f
              (suc n)
              ms
              (counted r (text_of (phone_number m)) m.message_id p.0.status)
              p.1))
  unfolding record_messages
  turn m ms n r db e = rw e refl

  no_phone :
      (m : InboundMessage) (ms : List InboundMessage) (n : ℕ) (r : Recorded) (db : Db)
      (o : Recorded × Db)
      → truthy? (phone_number m) ≡ false
      → record_messages f n (m ∷ ms) r db ≢ ok o
  unfolding record_messages
  no_phone m ms n r db o e h = ground arith

  -- what a loop that ends without raising leaves
  pub recorded_all :
      (ms : List InboundMessage) (n : ℕ) (r : Recorded) (db : Db) (o : Recorded × Db)
      → record_messages f n ms r db ≡ ok o
      → AllKnown ms o.1 × Grows db o.1
  unfolding record_messages
  recorded_all [] n r db o h = (tt, subst (λ p. Grows db p.1) (ok_inj h) (Grows-refl db))
  recorded_all (m ∷ ms) n r db o h = elim (Bool-cases (truthy? (phone_number m))) [
    | inr e ↦ absurd (no_phone m ms n r db o e h)
    | inl e ↦
        let (p, is, rest) =
          bind_ok (record_one (f n) (text_of (phone_number m)) m db) _
            (sym (turn m ms n r db e) ∙ h) in
        let (known, grows) =
          recorded-Known (f n).conversation (f n).message (f n).now (f n).clock
            (text_of (phone_number m)) m (append "meta:" m.message_id) true db p is in
        let (all, more) = recorded_all ms (suc n) _ p.1 o rest in
        (((e, Known-Grows (text_of (phone_number m)) m more known), all), Grows-trans grows more)
  ]

  -- messages that are all known are duplicates
  pub known_all :
      (ms : List InboundMessage) (n : ℕ) (r : Recorded) (db : Db)
      → AllKnown ms db
      → (o : Recorded × Db) × (record_messages f n ms r db ≡ ok o)
        × (o.0.accepted ≡ r.accepted)
        × (o.0.duplicates ≡ r.duplicates + length ms)
        × (o.1.messages ≡ db.messages)
  unfolding record_messages
  known_all [] n r db v = ((r, db), refl, refl, omega arith, refl)
  known_all (m ∷ ms) n r db v =
      let phone = text_of (phone_number m) in
      let (p, dup, is) =
        Known-again (f n).conversation (f n).message (f n).now (f n).clock phone m
          (append "meta:" m.message_id) true db v.0.1 in
      let grown =
        again-Grows (f n).conversation (f n).message (f n).now (f n).clock phone m
          (append "meta:" m.message_id) true db in
      let (o, done, accepted, dups, same) =
        known_all ms (suc n) (counted r phone m.message_id p.status)
          (touched_db (f n).conversation (f n).message (f n).now (f n).clock phone m
            (append "meta:" m.message_id) true db)
          (AllKnown-Grows ms grown v.1) in
      (
        o,
        turn m ms n r db v.0.0 ∙ rw is done,
        accepted ∙ rw dup refl,
        dups ∙ rw dup (omega arith),
        same,
      )

callback_rows :
    (g : CallbackReadings) (s : MetaStatusUpdate) (db : Db) (found : List DeliveryAttemptRecord)
    → select (provider_is s.provider_message_id) db.attempts ≡ found
    → ((apply_callback g.event_id g.observed_at g.now s db).1.messages ≡ db.messages)
      × ((apply_callback g.event_id g.observed_at g.now s db).1.conversations ≡ db.conversations)
unfolding apply_callback
callback_rows g s db [] h = ground arith
callback_rows g s db (a ∷ []) h = ground arith
callback_rows g s db (a ∷ b ∷ rest) h = ground arith

-- callbacks leave messages and conversations alone
pub statuses_rows :
    (g : ℕ → CallbackReadings) (n : ℕ) (ss : List MetaStatusUpdate) (c : Counted) (db : Db)
    → ((apply_statuses g n ss c db).1.messages ≡ db.messages)
      × ((apply_statuses g n ss c db).1.conversations ≡ db.conversations)
unfolding apply_statuses
statuses_rows g n [] c db = (refl, refl)
statuses_rows g n (s ∷ ss) c db =
    let (same, same') = callback_rows (g n) s db _ refl in
    after (apply_callback (g n).event_id (g n).observed_at (g n).now s db) same same'
      (λ status db'. statuses_rows g (suc n) ss (counted_status c status) db')
  where
    after :
        (done : Result CallbackApplyStatus × Db × List LifecycleRecord)
        → done.1.messages ≡ db.messages
        → done.1.conversations ≡ db.conversations
        → ((status : CallbackApplyStatus) (db' : Db)
            → ((apply_statuses g (suc n) ss (counted_status c status) db').1.messages
                ≡ db'.messages)
              × ((apply_statuses g (suc n) ss (counted_status c status) db').1.conversations
                  ≡ db'.conversations))
        → ((after_status done.0 done.1 done.2
              (λ status. apply_statuses g (suc n) ss (counted_status c status) done.1)).1.messages
            ≡ db.messages)
          × ((after_status done.0 done.1 done.2 (λ status.
                apply_statuses g (suc n) ss (counted_status c status) done.1)).1.conversations
              ≡ db.conversations)
    after (err e, db', events) h k ih = (h, k)
    after (ok status, db', events) h k ih = elim (Bool-cases (is_missing status)) [
      | inl e ↦ rw e (h, k)
      | inr e ↦ rw e ((ih status db').0 ∙ h, (ih status db').1 ∙ k)
    ]
