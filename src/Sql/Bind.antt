-- ===== src/Sql/Bind.antt =====
-- What a chain of results says when it succeeds.
use buenpick_piki.Base.{◌≡◌, refl, Bool, true, false, if◌then◌else◌}
use buenpick_piki.Base.Failure.{Failure, Result, ok, err}
use buenpick_piki.Sql.{◌>>=◌}

pub bind_ok {ℓ κ} :
    {A : Type ℓ} {B : Type κ} (m : Result A) (f : A → Result B) (b : B)
    → (m >>= f) ≡ ok b
    → (a : A) × (m ≡ ok a) × (f a ≡ ok b)
bind_ok (ok a) f b h = (a, refl, h)
bind_ok (err e) f b h = absurd (cc)

pub ok_inj {ℓ} : {A : Type ℓ} {a b : A} → ◌≡◌ {A = Result A} (ok a) (ok b) → a ≡ b
ok_inj h = cc

-- a test that passes or raises
pub unless_ok {ℓ} :
    {A : Type ℓ} (b : Bool) (e : Failure) (r : Result A) (a : A)
    → (if b then err e else r) ≡ ok a
    → (b ≡ false) × (r ≡ ok a)
unless_ok true e r a h = absurd (cc)
unless_ok false e r a h = (refl, h)

pub when_ok {ℓ} :
    {A : Type ℓ} (b : Bool) (e : Failure) (r : Result A) (a : A)
    → (if b then r else err e) ≡ ok a
    → (b ≡ true) × (r ≡ ok a)
when_ok true e r a h = (refl, h)
when_ok false e r a h = absurd (cc)
