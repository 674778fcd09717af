-- ===== src/Db/Session.antt =====
-- `Database.session` of src/piki/db/session.py: commit when the block ends, roll back and raise
-- again when it raises.
use buenpick_piki.Base.Failure.{Result, ok, err}
use buenpick_piki.Db.Models.{Db}

-- a block of statements inside one session
abbrev pub Block : Type 0 → Type 0
Block A = Db → Result (A × Db)

abbrev commit_or_rollback : {A : Type 0} → Db → Result (A × Db) → Result A × Db
commit_or_rollback db (ok (a, db')) = (ok a, db')
commit_or_rollback db (err e) = (err e, db)

unfoldable pub session : {A : Type 0} → Block A → Db → Result A × Db
session body db = commit_or_rollback db (body db)
