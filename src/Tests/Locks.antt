-- ===== src/Tests/Locks.antt =====
-- A Redis as a function from keys to values with their ends, and the lock and the deduplicator of
-- src/piki/state/coordination.py on it.
use buenpick_piki.Base.{
  ℕ, String, ◌≡◌, ◌≢◌, ◌+◌, refl, true, false, Bool, Option, none, some, str_eq, eq_refl, ap,
  if◌then◌else◌, arith, is_some, not, ◌||◌, truthy,
}
use buenpick_piki.Base.Text.{strip}
use buenpick_piki.Base.Failure.{Result, ok}
use buenpick_piki.Domain.Messages.{whatsapp}
use buenpick_piki.Coordination.Redis.{Redis, up, until}
use buenpick_piki.Coordination.Keys.{ConversationScope}
use buenpick_piki.Coordination.Locks.{acquired, acquire}
use buenpick_piki.Coordination.Held.{not_str_eq, Others, nothing, acquires, acquired_excludes}
use buenpick_piki.Coordination.Dedup.{DedupStatus, claim, claimed, duplicate, claimed_once}

abbrev pub Cells : Type 0
Cells = String → Option (String × ℕ)

abbrev pub alive : ℕ → Option (String × ℕ) → Option String
alive now none = none
alive now (some (value, end)) = until end value now

abbrev pub put : Cells → String → Option (String × ℕ) → Cells
put s k c j = if str_eq j k then c else s j

abbrev pub set_if_free : Option String → Cells → String → String × ℕ → Bool × Cells
set_if_free none s k c = (true, put s k (some c))
set_if_free (some _) s k c = (false, s)

pub put-other :
    (s : Cells) (k : String) (c : Option (String × ℕ)) (k' : String) → k' ≢ k → put s k c k' ≡ s k'
put-other s k c k' n = rw (not_str_eq k' k n) refl

pub set-other :
    (o : Option String) (s : Cells) (k : String) (c : String × ℕ) (t : ℕ) (k' : String)
    → k' ≢ k
    → alive t ((set_if_free o s k c).1 k') ≡ alive t (s k')
set-other none s k c t k' n = ap (alive t) (put-other s k (some c) k' n)
set-other (some _) s k c t k' n = refl

abbrev pub memory : Redis
memory = record {
  State = Cells;
  get = λ s t k. alive t (s k);
  set_nx = λ s t k v ex. set_if_free (alive t (s k)) s k (v, t + ex);
  del = λ s t k. (if is_some (alive t (s k)) then 1 else 0, put s k none);
  set_nx-free = λ s t k v ex h. rw h refl;
  set_nx-kept = λ s t k v ex w h. rw h refl;
  set_nx-get = λ s t k v ex t' h l. rw h (rw (eq_refl k) refl);
  set_nx-other = λ s t k v ex t' k' n. set-other (alive t (s k)) s k (v, t + ex) t' k' n;
  del-there = λ s t k v h. rw h refl;
  del-get = λ s t k t' l. rw (eq_refl k) refl;
  del-other = λ s t k t' k' n. ap (alive t') (put-other s k none k' n);
}

abbrev pub sha : String → String
sha text = text

abbrev pub scope : ConversationScope
scope = record { channel = whatsapp; channel_account_id = "account"; conversation_id = "549110000" }

abbrev pub empty : Cells
empty k = none

abbrev held : Cells
held = (acquire memory sha 30 up 100 "mine" scope empty).1

mine : (acquire memory sha 30 up 100 "mine" scope empty).0.status ≡ acquired
unfolding acquire
mine = refl

-- another worker tries, and is refused
abbrev tried : Cells
tried = (acquire memory sha 30 up 110 "theirs" scope held).1

others : Others memory sha 30 "mine" 100 held 111 tried
others = acquires 110 up "theirs" scope (omega arith) (nothing 110 111 tried (omega arith))

acquired_excludes_example : (acquire memory sha 30 up 129 "again" scope tried).0.status ≢ acquired
acquired_excludes_example =
    acquired_excludes memory sha 30 scope up 100 "mine" empty 111 tried mine others 129
      (omega arith) (omega arith) up "again"

named : (not (truthy (strip "account")) || not (truthy (strip "wamid.in"))) ≡ false
unfolding strip
named = refl

abbrev once : Result DedupStatus × Cells
once = claim memory sha 60 up 100 "account" "wamid.in" empty

abbrev twice : Result DedupStatus × Cells
twice = claim memory sha 60 up 150 "account" "wamid.in" once.1

claimed_once_example :
    (once.0 ≡ ok claimed)
    × (twice.0 ≡ ok duplicate)
    × ((claim memory sha 60 up 160 "account" "wamid.in" twice.1).0 ≡ ok claimed)
claimed_once_example =
    claimed_once memory sha 60 "account" "wamid.in" named 100 150 160 empty refl (omega arith)
      (omega arith) (omega arith)
