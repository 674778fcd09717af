-- ===== src/Coordination/Redis.antt =====
-- The `CoordinationRedis` protocol of src/piki/state/coordination.py, and the commands of Redis that
-- its script calls. Redis itself is a parameter: what the code relies on are the laws of `Redis`.
use buenpick_piki.Base.{
  ℕ, String, ◌≡◌, ◌≢◌, ◌≤◌, Bool, true, false, ◌+◌, Option, none, some, ltb, if◌then◌else◌,
}

-- What becomes of a call: it is executed and answered, the request is lost, or it is executed
-- and the answer is lost. The last two raise `RedisError`.
pub data Link : Type 0 where
  up request_lost answer_lost : Link

pub data Reply (A : Type 0) : Type 0 where
  answer : A → Reply A
  redis_error : Reply A

-- a value that expires at a time
abbrev pub until : ℕ → String → ℕ → Option String
until end value now = if ltb now end then some value else none

-- A Redis server: its state, what a key holds at a time, and its commands, each run at a time.
pub record Redis : Type 1 where
  pub State : Type 0
  pub get : State → ℕ → String → Option String
  pub set_nx : State → ℕ → String → String → ℕ → Bool × State
  pub del : State → ℕ → String → ℕ × State
  -- SET NX EX stores the value for its time, if the key holds none
  pub set_nx-free :
      (s : State) (t : ℕ) (k v : String) (ex : ℕ) → get s t k ≡ none → (set_nx s t k v ex).0 ≡ true
  pub set_nx-kept :
      (s : State) (t : ℕ) (k v : String) (ex : ℕ) (w : String)
      → get s t k ≡ some w
      → set_nx s t k v ex ≡ (false, s)
  pub set_nx-get :
      (s : State) (t : ℕ) (k v : String) (ex t' : ℕ)
      → get s t k ≡ none
      → t ≤ t'
      → get (set_nx s t k v ex).1 t' k ≡ until (t + ex) v t'
  pub set_nx-other :
      (s : State) (t : ℕ) (k v : String) (ex t' : ℕ) (k' : String)
      → k' ≢ k
      → get (set_nx s t k v ex).1 t' k' ≡ get s t' k'
  -- DEL says how many keys it removed
  pub del-there : (s : State) (t : ℕ) (k v : String) → get s t k ≡ some v → (del s t k).0 ≡ 1
  pub del-get : (s : State) (t : ℕ) (k : String) (t' : ℕ) → t ≤ t' → get (del s t k).1 t' k ≡ none
  pub del-other :
      (s : State) (t : ℕ) (k : String) (t' : ℕ) (k' : String)
      → k' ≢ k
      → get (del s t k).1 t' k' ≡ get s t' k'

-- a call through the link
abbrev pub call : {A S : Type 0} → Link → A × S → S → Reply A × S
call up r s = (answer r.0, r.1)
call request_lost r s = (redis_error, s)
call answer_lost r s = (redis_error, r.1)
