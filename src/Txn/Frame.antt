-- ===== src/Txn/Frame.antt =====
-- A call of one transaction leaves what the others have alone.
use duck_duck_dbms.Common.{
  ℕ, ◌≤◌, ◌<◌, ◌≡◌, refl, Bool, true, false, arith, ◌==◌, if◌then◌else◌, inl, inr, Option-cases,
}
use duck_duck_dbms.Txn.Queue.{LockMode, shared, exclusive}
use duck_duck_dbms.Txn.Locks.{
  Rid, System, UndoRecord, Call, begins, locks_shared, locks_exclusive, wakes, commits, aborts,
  logs, writes, wait_for, enqueue_request, lock_shared, lock_exclusive, drop_shared, commit, abort,
  can_call, step, wake, begin, push_undo,
}

-- The call is one of transaction `t`, or wakes its thread.
unfoldable pub is_of : {Db : Type 0} → ℕ → Call Db → Bool
is_of t begins = false
is_of t (locks_shared u r) = u == t
is_of t (locks_exclusive u r) = u == t
is_of t (wakes u timed_out) = u == t
is_of t (commits u) = u == t
is_of t (aborts u) = u == t
is_of t (logs u x) = u == t
is_of t (writes db) = false

-- What a transaction has of its own is the same in two states.
pub record SameTx {Db : Type 0} (t : ℕ) (s s' : System Db) : Type 0 where
  pub tx : s'.txs t ≡ s.txs t
  pub pending : s'.pending t ≡ s.pending t
  pub begun : s.next_tx_id ≤ s'.next_tx_id

module _ {Db : Type 0} (t u : ℕ) (ne : (u == t) ≡ false) where
  wait_for-SameTx :
      (m : LockMode) (x : Rid) (b : Bool) (s : System Db) → SameTx t s (wait_for u m x b s).0
  unfolding wait_for
  wait_for-SameTx m x b s = record {
    tx = ground arith;
    pending = ground arith;
    begun = ground arith;
  }

  request-SameTx :
      (m : LockMode) (x : Rid) (s : System Db)
      → SameTx t s (wait_for u m x false (enqueue_request u m x s)).0
  unfolding enqueue_request
  request-SameTx m x s =
      let w = wait_for-SameTx m x false (enqueue_request u m x s) in
      record {
        tx = ground (arith, w.tx);
        pending = ground (arith, w.pending);
        begun = ground (arith, w.begun);
      }

  drop_shared-SameTx : (x : Rid) (s : System Db) → SameTx t s (drop_shared u x s)
  unfolding drop_shared
  drop_shared-SameTx x s = record {
    tx = ground arith;
    pending = ground arith;
    begun = ground arith;
  }

  lock_shared-SameTx : (x : Rid) (s : System Db) → SameTx t s (lock_shared u x s).0
  unfolding lock_shared
  lock_shared-SameTx x s =
      let w = request-SameTx shared x s in
      record {
        tx = ground (arith, w.tx);
        pending = ground (arith, w.pending);
        begun = ground (arith, w.begun);
      }

  lock_exclusive-SameTx : (x : Rid) (s : System Db) → SameTx t s (lock_exclusive u x s).0
  unfolding lock_exclusive
  lock_exclusive-SameTx x s =
      let d = drop_shared-SameTx x s in
      let w = request-SameTx exclusive x (drop_shared u x s) in
      record {
        tx = ground (arith, w.tx, d.tx);
        pending = ground (arith, w.pending, d.pending);
        begun = ground (arith, w.begun, d.begun);
      }

  commit-SameTx : (s : System Db) → SameTx t s (commit u s)
  unfolding commit
  commit-SameTx s = record { tx = ground arith; pending = ground arith; begun = ground arith }

  abort-SameTx :
      (undo_record : UndoRecord → Db → Db) (s : System Db) → SameTx t s (abort undo_record u s)
  unfolding abort
  abort-SameTx undo_record s = record {
    tx = ground arith;
    pending = ground arith;
    begun = ground arith;
  }

  wake-SameTx : (b : Bool) (s : System Db) → SameTx t s (wake u b s)
  unfolding wake
  wake-SameTx b s = elim (Option-cases (s.pending u)) [
    | inl e ↦ rw (e, wake) (record { tx = refl; pending = refl; begun = omega arith })
    | inr (p, e) ↦ rw (e, wake) (wait_for-SameTx p.mode p.rid b s)
  ]

module _ {Db : Type 0} (undo_record : UndoRecord → Db → Db) where
  unchanged : (t : ℕ) (s : System Db) → SameTx t s s
  unchanged t s = record { tx = refl; pending = refl; begun = omega arith }

  guarded : (t : ℕ) (b : Bool) (s s' : System Db) → SameTx t s s' → SameTx t s (if b then s' else s)
  guarded t true s s' h = h
  guarded t false s s' h = unchanged t s

  -- The calls of the other transactions leave the state, the locks, the undo log and the waiting
  -- of a transaction that has begun as they were.
  pub step-SameTx :
      (t : ℕ) (s : System Db) (c : Call Db)
      → t < s.next_tx_id
      → is_of t c ≡ false
      → SameTx t s (step undo_record s c)
  unfolding step is_of begin push_undo
  step-SameTx t s begins b h = record { tx = ground arith; pending = refl; begun = omega arith }
  step-SameTx t s (locks_shared u r) b h = guarded t _ s _ (lock_shared-SameTx t u h r s)
  step-SameTx t s (locks_exclusive u r) b h = guarded t _ s _ (lock_exclusive-SameTx t u h r s)
  step-SameTx t s (wakes u timed_out) b h = wake-SameTx t u h timed_out s
  step-SameTx t s (commits u) b h = guarded t _ s _ (commit-SameTx t u h s)
  step-SameTx t s (aborts u) b h = guarded t _ s _ (abort-SameTx t u h undo_record s)
  step-SameTx t s (logs u x) b h =
      guarded t (can_call u s) s (push_undo u x s)
        (record { tx = ground arith; pending = refl; begun = omega arith })
  step-SameTx t s (writes db) b h = record { tx = refl; pending = refl; begun = omega arith }
