-- ===== src/Txn/Exclusion.antt =====
-- What the lock manager promises its clients, in every state that a history of calls reaches.
use duck_duck_dbms.Common.{
  ℕ, ◌≡◌, ◌≢◌, ◌∙◌, true, false, none, List, [], arith, ◌==◌, if◌then◌else◌, inl, inr, Bool-cases,
}
use duck_duck_dbms.Txn.Queue.{LockMode, shared, exclusive, holds, waits}
use duck_duck_dbms.Txn.Compatible.{holds-Compatible}
use duck_duck_dbms.Txn.Locks.{
  Rid, TransactionState, shrinking, committed, System, UndoRecord, Call, commits, locks, contains,
  remove_all, set_state, unlock_all, commit, can_call, step,
}
use duck_duck_dbms.Txn.Sets.{holds-remove_all, waits-remove_all}
use duck_duck_dbms.Txn.Invariant.{Inv}
use duck_duck_dbms.Txn.Reachable.{after, run-Inv, set_state-Inv, can_call-idle}

module _ {Db : Type 0} (s : System Db) (v : Inv s) (t : ℕ) where
  -- The requests of `t` are gone, and those of the others are what they were.
  pub unlock_all-requests :
      s.pending t ≡ none
      → (u : ℕ) (r : Rid) (m : LockMode)
      → (holds u m ((unlock_all t s).lock_table r)
          ≡ (if u == t then false else holds u m (s.lock_table r)))
        × (waits u m ((unlock_all t s).lock_table r)
            ≡ (if u == t then false else waits u m (s.lock_table r)))
  unfolding unlock_all
  unlock_all-requests idle u r m = (
    ground (
      arith,
      holds-remove_all u t m r (s.txs t).shared_locks
          (remove_all t (s.txs t).exclusive_locks s.lock_table),
      holds-remove_all u t m r (s.txs t).exclusive_locks s.lock_table,
      v.held u r m,
    ),
    ground (
      arith,
      waits-remove_all u t m r (s.txs t).shared_locks
          (remove_all t (s.txs t).exclusive_locks s.lock_table),
      waits-remove_all u t m r (s.txs t).exclusive_locks s.lock_table,
      v.waiting u r m,
    ),
  )

module _ {Db : Type 0} (undo_record : UndoRecord → Db → Db) (db : Db) (cs : List (Call Db)) where
  abbrev now : System Db
  now = after undo_record db cs

  -- After any history of calls and wakings, while one transaction has a row in its set of
  -- exclusive locks, no other transaction has the row in its shared or its exclusive set.
  pub exclusive_excludes :
      (t u : ℕ) (r : Rid) (m : LockMode)
      → t ≢ u
      → contains r (now.txs t).exclusive_locks ≡ true
      → contains r (locks m (now.txs u)) ≡ false
  exclusive_excludes t u r m ne h = elim (Bool-cases (contains r (locks m (now.txs u)))) [
    | inr e ↦ e
    | inl e ↦ cc (both e)
  ]
    where
      v : Inv now
      v = run-Inv undo_record db cs

      both : contains r (locks m (now.txs u)) ≡ true → exclusive ≡ shared
      both e =
          (holds-Compatible t u exclusive m (now.lock_table r) (v.compatible r) ne
            (v.held t r exclusive ∙ h) (v.held u r m ∙ e)).0

  abbrev pub Released : ℕ → TransactionState → System Db → ℕ → Rid → LockMode → Type 0
  Released t st s u r m =
      (holds u m (s.lock_table r) ≡ (if u == t then false else holds u m (now.lock_table r)))
      × (waits u m (s.lock_table r) ≡ (if u == t then false else waits u m (now.lock_table r)))
      × ((s.txs t).shared_locks ≡ [])
      × ((s.txs t).exclusive_locks ≡ [])
      × ((s.txs t).state ≡ st)
      × (s.active_txs t ≡ false)

  -- After any history, the commit of a transaction that has begun and does not wait leaves no
  -- request of it in any queue, leaves the requests of every other transaction as they were,
  -- empties both lock sets, sets the state COMMITTED and forgets the transaction.
  pub commit_releases :
      (t u : ℕ) (r : Rid) (m : LockMode)
      → can_call t now ≡ true
      → Released t committed (step undo_record now (commits t)) u r m
  unfolding step commit
  commit_releases t u r m h =
      let idle = (can_call-idle undo_record t now h).1 in
      let s = set_state t shrinking now in
      let rest =
        unlock_all-requests s (set_state-Inv now (run-Inv undo_record db cs) t shrinking) t idle u r
          m in
      rw h (rest.0, rest.1, ground arith, ground arith, ground arith, ground arith)
