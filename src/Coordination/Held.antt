-- ===== src/Coordination/Held.antt =====
-- The lock of src/piki/state/coordination.py excludes: while it is held, whatever other workers do,
-- nobody else acquires it.
use buenpick_piki.Base.{
  ℕ, String, ◌≡◌, ◌≢◌, ◌≤◌, ◌<◌, refl, Bool, true, false, ◌+◌, none, some, str_eq, eq_iff, eq_refl,
  column_is, if◌then◌else◌, arith, inl, inr, Bool-cases, Option-cases, sym, ap, ◌∙◌,
}
use mathlib.Core.Path.{subst}
use buenpick_piki.Coordination.Redis.{
  Redis, Link, up, request_lost, answer_lost, answer, call, until,
}
use buenpick_piki.Coordination.Keys.{ConversationScope, lock_key}
use buenpick_piki.Coordination.Locks.{
  acquired, released, lease, acquire, release, release_lock_script,
}

differs : {a b : String} → str_eq a b ≡ false → a ≢ b
differs {a} {b} h e = ground (arith, eq_iff a b)

pub not_str_eq : (a b : String) → a ≢ b → str_eq a b ≡ false
not_str_eq a b n = elim (Bool-cases (str_eq a b)) [
  | inl e ↦ absurd (n ((eq_iff a b).0 e))
  | inr e ↦ e
]

module _ (r : Redis) (sha256 : String → String) (ttl_seconds : ℕ) (token : String) where
  -- What workers other than the owner do, each call no earlier than the one before it: they
  -- acquire any lock, with tokens of their own, and release with those tokens.
  pub data Others : ℕ → r.State → ℕ → r.State → Type 0 where
    nothing : (t t' : ℕ) (s : r.State) → t ≤ t' → Others t s t' s
    acquires :
        {t t' : ℕ} {s s' : r.State} (at : ℕ) (link : Link) (other : String)
        (scope : ConversationScope)
        → t ≤ at
        → Others at (acquire r sha256 ttl_seconds link at other scope s).1 t' s'
        → Others t s t' s'
    releases :
        {t t' : ℕ} {s s' : r.State} (at : ℕ) (link : Link) (other : String)
        (scope : ConversationScope)
        → t ≤ at
        → other ≢ token
        → Others at (release r sha256 link at scope other s).1 t' s'
        → Others t s t' s'

  pub Others-le : {t t' : ℕ} {s s' : r.State} → Others t s t' s' → t ≤ t'
  Others-le (nothing t t' s h) = h
  Others-le (acquires at link other scope h rest) = omega (arith, h, Others-le rest)
  Others-le (releases at link other scope h n rest) = omega (arith, h, Others-le rest)

  module _ (key : String) (end : ℕ) where
    -- from a time on, the key holds the token until its end
    abbrev pub Holds : ℕ → r.State → Type 0
    Holds now s = (t : ℕ) → now ≤ t → r.get s t key ≡ until end token t

    held_now : (now : ℕ) (s : r.State) → now < end → Holds now s → r.get s now key ≡ some token
    held_now now s h holds = ground (arith, holds now)

    set_keeps :
        (now : ℕ) (k other : String) (s : r.State)
        → now < end
        → Holds now s
        → Holds now (r.set_nx s now k other ttl_seconds).1
    set_keeps now k other s h holds t l = elim (Bool-cases (str_eq key k)) [
      | inl e ↦
          let same : key ≡ k = (eq_iff key k).0 e in
          let kept : r.set_nx s now k other ttl_seconds ≡ (false, s) =
            r.set_nx-kept s now k other ttl_seconds token
              (subst (λ j. r.get s now j ≡ some token) same (held_now now s h holds)) in
          rw kept (holds t l)
      | inr e ↦ r.set_nx-other s now k other ttl_seconds t key (differs e) ∙ holds t l
    ]

    script_keeps :
        (now : ℕ) (k other : String) (s : r.State)
        → now < end
        → other ≢ token
        → Holds now s
        → Holds now (release_lock_script r sha256 s now k other).1
    unfolding release_lock_script
    script_keeps now k other s h n holds t l = elim (Bool-cases (str_eq key k)) [
      | inl e ↦
          let same : key ≡ k = (eq_iff key k).0 e in
          let here : r.get s now k ≡ some token =
            subst (λ j. r.get s now j ≡ some token) same (held_now now s h holds) in
          rw (here, not_str_eq token other (λ m. n (sym m))) (holds t l)
      | inr e ↦ by_token (column_is (r.get s now k) other) (differs e) (holds t l)
    ]
      where
        by_token :
            (b : Bool)
            → key ≢ k
            → r.get s t key ≡ until end token t
            → r.get (if b then r.del s now k else (0, s)).1 t key ≡ until end token t
        by_token true d g = r.del-other s now k t key d ∙ g
        by_token false d g = g

    later : (now now' : ℕ) (s : r.State) → now ≤ now' → Holds now s → Holds now' s
    later now now' s l holds t k = holds t (omega (arith, l, k))

    call_keeps :
        {A : Type 0} (link : Link) (now : ℕ) (done : A × r.State) (s : r.State)
        → Holds now done.1
        → Holds now s
        → Holds now (call link done s).1
    call_keeps up now done s h k = h
    call_keeps request_lost now done s h k = k
    call_keeps answer_lost now done s h k = h

    others_keep :
        {t t' : ℕ} {s s' : r.State} → Others t s t' s' → t' < end → Holds t s → Holds t' s'
    unfolding acquire release
    others_keep (nothing t t' s l) h holds = later t t' s l holds
    others_keep {t = t} {s = s} (acquires at link other scope l rest) h holds =
        let now = later t at s l holds in
        let early : at < end = omega (arith, h, Others-le rest) in
        others_keep rest h (
          call_keeps link at (r.set_nx s at (lock_key sha256 scope) other ttl_seconds) s
            (set_keeps at (lock_key sha256 scope) other s early now) now)
    others_keep {t = t} {s = s} (releases at link other scope l n rest) h holds =
        let now = later t at s l holds in
        let early : at < end = omega (arith, h, Others-le rest) in
        others_keep rest h (
          call_keeps link at (release_lock_script r sha256 s at (lock_key sha256 scope) other) s
            (script_keeps at (lock_key sha256 scope) other s early n now) now)

module _ (r : Redis) (sha256 : String → String) (ttl_seconds : ℕ) (scope : ConversationScope) where
  abbrev key : String
  key = lock_key sha256 scope

  stored_holds :
      (now : ℕ) (token : String) (s : r.State)
      → r.get s now key ≡ none
      → Holds r sha256 ttl_seconds token key
          (now + ttl_seconds)
          now
          (r.set_nx s now key token ttl_seconds).1
  stored_holds now token s free t l = r.set_nx-get s now key token ttl_seconds t free l

  not_acquired :
      (link : Link) (now : ℕ) (token other : String) (s : r.State)
      → r.get s now key ≡ some other
      → (acquire r sha256 ttl_seconds link now token scope s).0.status ≢ acquired
  unfolding acquire
  not_acquired up now token other s h e =
      refused (r.set_nx s now key token ttl_seconds)
        (ap (λ p. p.0) (r.set_nx-kept s now key token ttl_seconds other h)) e
    where
      refused :
          (done : Bool × r.State) → done.0 ≡ false → (lease token (answer done.0)).status ≢ acquired
      refused done f e = ground arith
  not_acquired request_lost now token other s h e = cc
  not_acquired answer_lost now token other s h e = cc

  acquire_holds :
      (link : Link) (now : ℕ) (token : String) (s : r.State)
      → (acquire r sha256 ttl_seconds link now token scope s).0.status ≡ acquired
      → Holds r sha256 ttl_seconds token key
          (now + ttl_seconds)
          now
          (acquire r sha256 ttl_seconds link now token scope s).1
  unfolding acquire
  acquire_holds up now token s h = elim (Option-cases (r.get s now key)) [
    | inl e ↦ stored_holds now token s e
    | inr (other, e) ↦ absurd (not_acquired up now token other s e h)
  ]
  acquire_holds request_lost now token s h = absurd (cc)
  acquire_holds answer_lost now token s h = absurd (cc)

  module _ (link : Link) (now : ℕ) (token : String) (s : r.State) (t : ℕ) (s' : r.State)
      (mine : (acquire r sha256 ttl_seconds link now token scope s).0.status ≡ acquired)
      (others : Others r sha256 ttl_seconds token now
        (acquire r sha256 ttl_seconds link now token scope s).1
        t
        s')
      (at : ℕ) (after : t ≤ at) (in_time : at < now + ttl_seconds) where
    still_mine : r.get s' at key ≡ some token
    still_mine = held_now r sha256 ttl_seconds token key (now + ttl_seconds) at s' in_time (
        later r sha256 ttl_seconds token key (now + ttl_seconds) t at s' after (
          others_keep r sha256 ttl_seconds token key (now + ttl_seconds) others
            (omega (arith, after, in_time)) (acquire_holds link now token s mine)))

    -- On a Redis with the stated laws: once the lock of a conversation is acquired, and while its
    -- time to live lasts, no later call acquires that lock, whatever others acquire and release
    -- meanwhile with tokens of their own and whatever the connection loses.
    pub acquired_excludes :
        (link' : Link) (other : String)
        → (acquire r sha256 ttl_seconds link' at other scope s').0.status ≢ acquired
    acquired_excludes link' other = not_acquired link' at other token s' still_mine

    release_runs : (release r sha256 up at scope token s' ≡ (released, (r.del s' at key).1))
    unfolding release release_lock_script
    release_runs = rw (still_mine, eq_refl token, r.del-there s' at key token still_mine) refl

    free_again :
        (at' : ℕ) (other : String)
        → at ≤ at'
        → (acquire r sha256 ttl_seconds up at' other scope (r.del s' at key).1).0.status ≡ acquired
    unfolding acquire
    free_again at' other l =
        rw (r.set_nx-free (r.del s' at key).1 at' key other ttl_seconds (r.del-get s' at key at' l))
          refl

    -- On a Redis with the stated laws: while its time to live lasts, and whatever others do
    -- meanwhile, the owner's release over a working connection releases the lock, and a later
    -- acquisition over a working connection gets it.
    owner_releases :
        ((release r sha256 up at scope token s').0 ≡ released)
        × ((at' : ℕ) (other : String)
            → at ≤ at'
            → (acquire r sha256 ttl_seconds up at' other scope
                (release r sha256 up at scope token s').1).0.status
              ≡ acquired)
    owner_releases = (rw release_runs refl, λ at' other l. rw release_runs (free_again at' other l))
