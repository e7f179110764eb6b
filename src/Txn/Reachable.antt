-- ===== src/Txn/Reachable.antt =====
-- Every call of the lock manager and of the transaction manager keeps the invariant, so it holds
-- after any sequence of calls and wakings.
use duck_duck_dbms.Common.{
  ℕ, ◌<◌, ◌≡◌, refl, Bool, true, none, some, List, [], ◌∷◌, arith, inl, inr, Bool-cases,
  Option-cases,
}
use duck_duck_dbms.Txn.Queue.{LockMode, holds, waits}
use duck_duck_dbms.Txn.Locks.{
  Rid, TransactionState, shrinking, committed, aborted, Pending, System, UndoRecord, Call, begins,
  locks_shared, locks_exclusive, wakes, commits, aborts, logs, writes, locks, contains, remove_all,
  set_state, unlock_all, begin, end, commit, push_undo, abort, wake, can_call, init, step, run,
}
use duck_duck_dbms.Txn.Sets.{holds-remove_all, waits-remove_all, Compatible-remove_all}
use duck_duck_dbms.Txn.Invariant.{Inv, awaits, wait_for-Inv}
use duck_duck_dbms.Txn.Acquire.{lock_shared-Inv, lock_exclusive-Inv}

-- A state that differs in no field that the invariant reads but the lock sets' owners keep them.
module _ {Db : Type 0} (s : System Db) (v : Inv s) (t : ℕ) where
  pub set_state-Inv : (st : TransactionState) → Inv (set_state t st s)
  unfolding set_state
  set_state-Inv st = record {
    compatible = v.compatible;
    held = λ u x k. ground (arith, v.held u x k);
    waiting = v.waiting;
    fresh = λ u le. ground (arith, v.fresh u);
  }

  push_undo-Inv : (u : UndoRecord) → Inv (push_undo t u s)
  unfolding push_undo
  push_undo-Inv u = record {
    compatible = v.compatible;
    held = λ w x k. ground (arith, v.held w x k);
    waiting = v.waiting;
    fresh = λ w le. ground (arith, v.fresh w);
  }

  pub db-Inv : (db : Db) → Inv (record s { db = db })
  db-Inv db = record {
    compatible = v.compatible;
    held = v.held;
    waiting = v.waiting;
    fresh = v.fresh;
  }

  active-Inv : (active : ℕ → Bool) → Inv (record s { active_txs = active })
  active-Inv active = record {
    compatible = v.compatible;
    held = v.held;
    waiting = v.waiting;
    fresh = v.fresh;
  }

  unlocked_held :
      (u : ℕ) (x : Rid) (k : LockMode)
      → holds u k ((unlock_all t s).lock_table x) ≡ contains x (locks k ((unlock_all t s).txs u))
  unfolding unlock_all contains
  unlocked_held u x k = ground (
    arith,
    holds-remove_all u t k x (s.txs t).shared_locks
        (remove_all t (s.txs t).exclusive_locks s.lock_table),
    holds-remove_all u t k x (s.txs t).exclusive_locks s.lock_table,
    v.held u x k,
  )

  unlocked_waiting :
      s.pending t ≡ none
      → (u : ℕ) (x : Rid) (k : LockMode)
      → waits u k ((unlock_all t s).lock_table x) ≡ awaits x k ((unlock_all t s).pending u)
  unfolding unlock_all
  unlocked_waiting idle u x k = ground (
    arith,
    waits-remove_all u t k x (s.txs t).shared_locks
        (remove_all t (s.txs t).exclusive_locks s.lock_table),
    waits-remove_all u t k x (s.txs t).exclusive_locks s.lock_table,
    v.waiting u x k,
  )

  unlock_all-Inv : s.pending t ≡ none → Inv (unlock_all t s)
  unfolding unlock_all
  unlock_all-Inv idle = record {
    compatible =
        Compatible-remove_all t (s.txs t).shared_locks _
          (Compatible-remove_all t (s.txs t).exclusive_locks _ v.compatible);
    held = unlocked_held;
    waiting = unlocked_waiting idle;
    fresh = λ u le. ground (arith, v.fresh u);
  }

module _ {Db : Type 0} (t : ℕ) where
  end-Inv : (st : TransactionState) (s : System Db) → Inv s → s.pending t ≡ none → Inv (end t st s)
  unfolding end
  end-Inv st s v idle = active-Inv _ (set_state-Inv _ (unlock_all-Inv s v t idle) t st) t _

  commit-Inv : (s : System Db) → Inv s → s.pending t ≡ none → Inv (commit t s)
  unfolding commit
  commit-Inv s v idle = end-Inv committed _ (set_state-Inv s v t shrinking) idle

  abort-Inv :
      (undo_record : UndoRecord → Db → Db) (s : System Db)
      → Inv s
      → s.pending t ≡ none
      → Inv (abort undo_record t s)
  unfolding abort
  abort-Inv undo_record s v idle =
      end-Inv aborted _ (db-Inv _ (set_state-Inv s v t shrinking) t _) idle

  wake-Inv : (timed_out : Bool) (s : System Db) → Inv s → Inv (wake t timed_out s)
  unfolding wake
  wake-Inv timed_out s v = elim (Option-cases (s.pending t)) [
    | inl e ↦ rw (e, wake) v
    | inr (p, e) ↦ rw (e, wake) (wait_for-Inv s v t p.mode p.rid (begun e) timed_out e)
  ]
    where
      begun : {p : Pending} → s.pending t ≡ some p → t < s.next_tx_id
      begun e = ground (arith, v.fresh t)

begin-Inv : {Db : Type 0} (s : System Db) → Inv s → Inv (begin s)
unfolding begin contains
begin-Inv s v = record {
  compatible = v.compatible;
  held = λ u x k. ground (arith, v.held u x k, v.fresh u);
  waiting = v.waiting;
  fresh = λ u le. ground (arith, v.fresh u);
}

init-Inv : {Db : Type 0} (db : Db) → Inv (init db)
unfolding init contains holds waits
init-Inv db = record {
  compatible = λ r. tt;
  held = λ u x k. ground arith;
  waiting = λ u x k. ground arith;
  fresh = λ u le. (refl, refl, refl);
}

module _ {Db : Type 0} (undo_record : UndoRecord → Db → Db) where
  pub can_call-idle :
      (t : ℕ) (s : System Db) → can_call t s ≡ true → (t < s.next_tx_id) × (s.pending t ≡ none)
  can_call-idle t s h = (ground arith, ground arith)

  -- One call of any transaction, or one waking, keeps the invariant.
  pub step-Inv : (s : System Db) (c : Call Db) → Inv s → Inv (step undo_record s c)
  unfolding step
  step-Inv s begins v = begin-Inv s v
  step-Inv s (locks_shared t r) v = elim (Bool-cases (can_call t s)) [
    | inl e ↦ let (b, i) = can_call-idle t s e in rw e (lock_shared-Inv s v t b i r)
    | inr e ↦ rw e v
  ]
  step-Inv s (locks_exclusive t r) v = elim (Bool-cases (can_call t s)) [
    | inl e ↦ let (b, i) = can_call-idle t s e in rw e (lock_exclusive-Inv s v t b i r)
    | inr e ↦ rw e v
  ]
  step-Inv s (wakes t timed_out) v = wake-Inv t timed_out s v
  step-Inv s (commits t) v = elim (Bool-cases (can_call t s)) [
    | inl e ↦ rw e (commit-Inv t s v (can_call-idle t s e).1)
    | inr e ↦ rw e v
  ]
  step-Inv s (aborts t) v = elim (Bool-cases (can_call t s)) [
    | inl e ↦ rw e (abort-Inv t undo_record s v (can_call-idle t s e).1)
    | inr e ↦ rw e v
  ]
  step-Inv s (logs t u) v = elim (Bool-cases (can_call t s)) [
    | inl e ↦ rw e (push_undo-Inv s v t u)
    | inr e ↦ rw e v
  ]
  step-Inv s (writes db) v = db-Inv s v 0 db

  run_from-Inv : (s : System Db) (cs : List (Call Db)) → Inv s → Inv (run undo_record s cs)
  unfolding run
  run_from-Inv s [] v = v
  run_from-Inv s (c ∷ cs) v = run_from-Inv (step undo_record s c) cs (step-Inv s c v)

  -- The state after a history of calls, from the start.
  abbrev pub after : Db → List (Call Db) → System Db
  after db cs = run undo_record (init db) cs

  -- After any history the granted requests of each row are compatible, the lock sets of the
  -- transactions are the granted requests, and the waiting calls are the waiting requests.
  pub run-Inv : (db : Db) (cs : List (Call Db)) → Inv (after db cs)
  run-Inv db cs = run_from-Inv (init db) cs (init-Inv db)
