-- ===== src/Processing/Finished.antt =====
-- What src/piki/db/processing.py does to a message over time: a message that is completed or that
-- failed for good is left alone by every later operation.
use buenpick_piki.Base.{
  ℕ, String, ◌≡◌, ◌≢◌, refl, Bool, true, false, ◌+◌, ◌-◌, ◌*◌, Option, none, some, ◌==◌, any, arith,
  ==_iff, ◌∙◌, inl, inr, Bool-cases, ◌⊎◌, sym,
}
use mathlib.Core.Path.{subst}
use buenpick_piki.Base.Failure.{ok}
use buenpick_piki.Sql.{update}
use buenpick_piki.Sql.Laws.{
  find, find_of_any, find_same, find-update, find-passes, map_row, touched, count-update,
}
use buenpick_piki.Db.Models.{Db, MessageRecord, ProcessingStatus, pending, completed, failed}
use buenpick_piki.Processing.Store.{
  ClaimedInbound, claim_next, complete, fail, transition, transitioned, active_claim, is_claimable,
  message_is, claimed_row, second,
}
use buenpick_piki.Processing.Claims.{claim_effect}
use buenpick_piki.Processing.Leases.{
  OneId, claimed_is_row, claim_next-OneId, claimed_row_is, same_row, absurd_of,
}

-- an operation of the store, whatever its caller
pub data Step : Db → Db → Type 0 where
  claims :
      (locked : ℕ → Bool) (now claim_timeout_seconds : ℕ) (db : Db)
      → Step db (claim_next locked now claim_timeout_seconds db).1
  completes : (i : ℕ) (db : Db) → Step db (complete i db).1
  fails :
      (now i : ℕ) (error_code : String) (retry : Bool) (db : Db)
      → Step db (fail now i error_code retry db).1

pub data Steps : Db → Db → Type 0 where
  stop : (db : Db) → Steps db db
  next : {db mid db' : Db} → Step db mid → Steps mid db' → Steps db db'

-- a message that no worker will touch again
abbrev pub is_finished : Option ProcessingStatus → Bool
is_finished (some ProcessingStatus.completed) = true
is_finished (some ProcessingStatus.failed) = true
is_finished _ = false

transition_effect :
    (i : ℕ) (status : ProcessingStatus) (code : Option String) (at : Option ℕ) (db : Db)
    → ((transition i status code at db).1 ≡ db)
      ⊎ ((transition i status code at db).1 ≡ record db {
        messages = update (active_claim i) (transitioned status code at) db.messages;
      })
unfolding transition
transition_effect i status code at db = elim (Bool-cases (any (active_claim i) db.messages)) [
  | inl e ↦ inr (rw e refl)
  | inr e ↦ inl (rw e refl)
]

left_alone :
    (q : MessageRecord → Bool) (f : MessageRecord → MessageRecord) (m : MessageRecord)
    → q m ≡ false
    → map_row (touched q f) (some m) ≡ some m
left_alone q f m h = rw h refl

not_active :
    (j : ℕ) (m : MessageRecord) → is_finished m.processing_status ≡ true → active_claim j m ≡ false
not_active j m h = ground arith

not_claimable :
    (locked : ℕ → Bool) (now stale_before : ℕ) (db : Db) (m : MessageRecord)
    → is_finished m.processing_status ≡ true
    → is_claimable locked now stale_before db m ≡ false
unfolding is_claimable
not_claimable locked now stale_before db m h = ground arith

-- what the rows are after an operation: as before, claimed, or moved out of a claim
module _ (i : ℕ) (m : MessageRecord) (done : is_finished m.processing_status ≡ true) where
  abbrev Kept : Db → Type 0
  Kept db = OneId db × (find (message_is i) db.messages ≡ some m)

  transition_keeps :
      (j : ℕ) (status : ProcessingStatus) (code : Option String) (at : Option ℕ) (db : Db)
      → Kept db
      → Kept (transition j status code at db).1
  transition_keeps j status code at db (one_id, here) =
      elim (transition_effect j status code at db) [
        | inl e ↦ rw e (one_id, here)
        | inr e ↦ rw e (
          λ k.
              rw
                (count-update (message_is k) (active_claim j) (transitioned status code at)
                  db.messages (λ r. refl))
                (one_id k),
          rw
              (
                find-update (message_is i) (active_claim j) (transitioned status code at)
                    db.messages (λ r. refl),
                here,
              )
              (left_alone (active_claim j) (transitioned status code at) m (not_active j m done)),
        )
      ]

  other_row :
      (locked : ℕ → Bool) (now stale_before : ℕ) (db : Db) (n : MessageRecord)
      → find (message_is i) db.messages ≡ some m
      → find (message_is n.id) db.messages ≡ some n
      → is_claimable locked now stale_before db n ≡ true
      → message_is n.id m ≡ false
  other_row locked now stale_before db n here found passes = elim (Bool-cases (m.id == n.id)) [
    | inr e ↦ e
    | inl e ↦
        let i_is : m.id ≡ i = (==_iff m.id i).0 (find-passes (message_is i) db.messages m here) in
        let same : m ≡ n =
          same_row
            (subst (λ k. find (message_is k) db.messages ≡ some m)
              (sym i_is ∙ (==_iff m.id n.id).0 e) here)
            found in
        absurd (
          absurd_of
            (subst (λ r. is_claimable locked now stale_before db r ≡ true) (sym same) passes)
            (not_claimable locked now stale_before db m done))
  ]

  claim_keeps :
      (locked : ℕ → Bool) (now timeout : ℕ) (db : Db)
      → Kept db
      → Kept (claim_next locked now timeout db).1
  claim_keeps locked now timeout db (one_id, here) = elim (claim_effect locked now timeout db) [
    | inl e ↦ rw e (one_id, here)
    | inr (job, given) ↦
        let (n, left, found, passes, _, _) =
          claimed_row_is locked now timeout db one_id job given in
        (
          claim_next-OneId locked now timeout db one_id job given,
          rw
              (
                left,
                find-update (message_is i) (message_is n.id) (claimed_row now) db.messages
                    (λ r. refl),
                here,
              )
              (left_alone (message_is n.id) (claimed_row now) m
                (other_row locked now _ db n here found passes)),
        )
  ]

  Step-Kept : {db db' : Db} → Step db db' → Kept db → Kept db'
  unfolding complete fail
  Step-Kept (claims locked now timeout db) k = claim_keeps locked now timeout db k
  Step-Kept (completes j db) k = transition_keeps j completed none none db k
  Step-Kept (fails now j code true db) k =
      transition_keeps j pending (some code) (some (now + second)) db k
  Step-Kept (fails now j code false db) k = transition_keeps j failed (some code) none db k

  pub Steps-Kept : {db db' : Db} → Steps db db' → Kept db → Kept db'
  Steps-Kept (stop db) k = k
  Steps-Kept (next s rest) k = Steps-Kept rest (Step-Kept s k)

-- Where message identifiers are unique, the row of a message that is completed or has failed for
-- good stays as it is under any claims, completions and failures.
pub finished_is_final :
    (i : ℕ) (m : MessageRecord) {db db' : Db}
    → OneId db
    → find (message_is i) db.messages ≡ some m
    → is_finished m.processing_status ≡ true
    → Steps db db'
    → find (message_is i) db'.messages ≡ some m
finished_is_final i m one_id here done steps = (Steps-Kept i m done steps (one_id, here)).1

-- the row of a claim that is completed
complete_effect :
    (i : ℕ) (db : Db)
    → (complete i db).0 ≡ ok tt
    → (any (active_claim i) db.messages ≡ true)
      × ((complete i db).1 ≡ record db {
        messages = update (active_claim i) (transitioned completed none none) db.messages;
      })
unfolding complete
complete_effect i db h = elim (Bool-cases (any (active_claim i) db.messages)) [
  | inl e ↦ (e, ground arith)
  | inr e ↦ absurd (ground arith)
]

active_is : (i : ℕ) (m : MessageRecord) → active_claim i m ≡ true → message_is i m ≡ true
active_is i m h = ground arith

completed_row :
    (i : ℕ) (db : Db)
    → OneId db
    → (complete i db).0 ≡ ok tt
    → OneId (complete i db).1
      × (m : MessageRecord) × (find (message_is i) (complete i db).1.messages
          ≡ some (transitioned completed none none m))
completed_row i db one_id h =
    let (there, left) = complete_effect i db h in
    let (m, active) = find_of_any (active_claim i) db.messages there in
    let passes = find-passes (active_claim i) db.messages m active in
    let here : find (message_is i) db.messages ≡ some m =
      find_same (active_claim i) (message_is i) db.messages active (active_is i m passes)
        (one_id i) in
    rw left (
      (λ k.
          rw
            (count-update (message_is k) (active_claim i) (transitioned completed none none)
              db.messages (λ r. refl))
            (one_id k)),
      m,
      rw
          (
            find-update (message_is i) (active_claim i) (transitioned completed none none)
                db.messages (λ r. refl),
            here,
            passes,
          )
          refl,
    )

-- Where message identifiers are unique, a message whose completion succeeded is not handed out by
-- a claim after any further claims, completions and failures.
pub completed_never_again :
    (locked : ℕ → Bool) (i now timeout : ℕ) (db db' : Db) (job : ClaimedInbound)
    → OneId db
    → (complete i db).0 ≡ ok tt
    → Steps (complete i db).1 db'
    → (claim_next locked now timeout db').0 ≡ ok (some job)
    → job.message_record_id ≢ i
completed_never_again locked i now timeout db db' job one_id h steps k same =
    let (one_id', m, here) = completed_row i db one_id h in
    let kept = Steps-Kept i (transitioned completed none none m) refl steps (one_id', here) in
    let (n, found, passes, _, _) = claimed_is_row locked now timeout db' kept.0 job k in
    let is_row : n ≡ transitioned completed none none m =
      same_row (subst (λ j. find (message_is j) db'.messages ≡ some n) same found) kept.1 in
    absurd_of
      (subst (λ r. is_claimable locked now (now - timeout * second) db' r ≡ true) is_row passes)
      (not_claimable locked now (now - timeout * second) db' (transitioned completed none none m)
        refl)
