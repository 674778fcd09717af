-- ===== src/PickState/Values.antt =====
-- What src/piki/state/active_pick.py and src/piki/state/pending_actions.py use of Redis and of
-- pydantic's JSON: both are parameters.
use buenpick_piki.Base.{ℕ, String, ◌≡◌, ◌≤◌, ◌+◌, Bool, true, Option, none}
use buenpick_piki.Coordination.Redis.{until}

-- A Redis server: what a key holds at a time, and its commands, each run at a time.
pub record KeyValueStore : Type 1 where
  pub State : Type 0
  pub get : State → ℕ → String → Option String
  pub set : State → ℕ → String → String → ℕ → Bool × State
  pub delete : State → ℕ → String → ℕ × State
  -- SET EX answers that it has stored the value, for its time
  pub set-done : (s : State) (t : ℕ) (k v : String) (ex : ℕ) → (set s t k v ex).0 ≡ true
  pub set-get :
      (s : State) (t : ℕ) (k v : String) (ex t' : ℕ)
      → t ≤ t'
      → get (set s t k v ex).1 t' k ≡ until (t + ex) v t'
  -- DEL removes the key
  pub delete-get :
      (s : State) (t : ℕ) (k : String) (t' : ℕ) → t ≤ t' → get (delete s t k).1 t' k ≡ none

-- `model_dump_json` and `model_validate_json` of a type: a text that is not valid gives none,
-- where the code catches ValueError
pub record JsonModel (A : Type 0) : Type 0 where
  pub dump : A → String
  pub validate : String → Option A
