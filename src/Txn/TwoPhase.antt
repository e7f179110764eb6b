-- ===== src/Txn/TwoPhase.antt =====
-- When locks are granted, and that a transaction takes none once it has left GROWING.
use duck_duck_dbms.Common.{
  ℕ, ◌<◌, ◌≡◌, sym, ◌∙◌, refl, Bool, true, false, none, List, [], ◌∷◌, arith, ◌==◌, inl, inr,
  Bool-cases, lt→ltb, ==_iff,
}
use mathlib.Core.Path.{subst}
use duck_duck_dbms.Txn.Queue.{LockMode}
use duck_duck_dbms.Txn.Locks.{
  Rid, is_growing, System, UndoRecord, Call, begins, locks_shared, locks_exclusive, wakes, commits,
  aborts, logs, writes, locks, contains, lock_shared, lock_exclusive, commit, abort, step, run,
  wake, push_undo,
}
use duck_duck_dbms.Txn.Frame.{is_of, SameTx, step-SameTx}

-- A transaction that has begun, has left GROWING and does not wait.
pub record HasEnded {Db : Type 0} (t : ℕ) (s : System Db) : Type 0 where
  pub begun : t < s.next_tx_id
  pub idle : s.pending t ≡ none
  pub past : is_growing (s.txs t).state ≡ false

-- `t` has ended in the second state, and has no lock there that it did not have in the first.
pub record Shrinks {Db : Type 0} (t : ℕ) (s s' : System Db) : Type 0 where
  pub ended : HasEnded t s'
  pub fewer :
      (r : Rid) (m : LockMode)
      → contains r (locks m (s'.txs t)) ≡ true
      → contains r (locks m (s.txs t)) ≡ true

module _ {Db : Type 0} (undo_record : UndoRecord → Db → Db) (t : ℕ) where
  others-Shrink : (s s' : System Db) → HasEnded t s → SameTx t s s' → Shrinks t s s'
  others-Shrink s s' e f = record {
    ended = record {
      begun = omega (arith, e.begun, f.begun);
      idle = f.pending ∙ e.idle;
      past = rw f.tx e.past;
    };
    fewer = λ r m h. rw f.tx at h;
  }

  at_self :
      {s : System Db} (c : ℕ → Call Db) (u : ℕ)
      → (u == t) ≡ true
      → Shrinks t s (step undo_record s (c t))
      → Shrinks t s (step undo_record s (c u))
  at_self {s} c u h x =
      subst (λ w. Shrinks t s (step undo_record s (c w))) (sym ((==_iff u t).0 h)) x

  -- After the commit or the abort of `t`.
  ended_now :
      (s s' : System Db)
      → HasEnded t s
      → s'.next_tx_id ≡ s.next_tx_id
      → s'.pending t ≡ none
      → is_growing (s'.txs t).state ≡ false
      → (s'.txs t).shared_locks ≡ []
      → (s'.txs t).exclusive_locks ≡ []
      → Shrinks t s s'
  unfolding contains
  ended_now s s' e n i g a b = record {
    ended = record { begun = omega (arith, e.begun, n); idle = i; past = g };
    fewer = λ r m h. ground arith;
  }

  module _ (s : System Db) (e : HasEnded t s) where
    unmoved : Shrinks t s s
    unmoved = record { ended = e; fewer = λ r m h. h }

    lock_shared-Shrinks : (r : Rid) → Shrinks t s (step undo_record s (locks_shared t r))
    unfolding step lock_shared
    lock_shared-Shrinks r = rw (e.idle, lt→ltb _ _ e.begun, e.past) unmoved

    lock_exclusive-Shrinks : (r : Rid) → Shrinks t s (step undo_record s (locks_exclusive t r))
    unfolding step lock_exclusive
    lock_exclusive-Shrinks r = rw (e.idle, lt→ltb _ _ e.begun, e.past) unmoved

    wake-Shrinks : (b : Bool) → Shrinks t s (step undo_record s (wakes t b))
    unfolding step wake
    wake-Shrinks b = rw (e.idle, wake) unmoved

    commit-Shrinks : Shrinks t s (step undo_record s (commits t))
    unfolding step commit
    commit-Shrinks =
        rw (e.idle, lt→ltb _ _ e.begun)
          (ended_now s _ e refl e.idle (ground arith) (ground arith) (ground arith))

    abort-Shrinks : Shrinks t s (step undo_record s (aborts t))
    unfolding step abort
    abort-Shrinks =
        rw (e.idle, lt→ltb _ _ e.begun)
          (ended_now s _ e refl e.idle (ground arith) (ground arith) (ground arith))

    push_undo-Shrinks : (x : UndoRecord) → Shrinks t s (step undo_record s (logs t x))
    unfolding step push_undo
    push_undo-Shrinks x =
        rw (e.idle, lt→ltb _ _ e.begun)
          (record {
            ended = record { begun = e.begun; idle = e.idle; past = ground (arith, e.past) };
            fewer = λ r m h. ground arith;
          })

  own-Shrink :
      (s : System Db) (c : Call Db)
      → HasEnded t s
      → is_of t c ≡ true
      → Shrinks t s (step undo_record s c)
  unfolding is_of
  own-Shrink s begins e h = cc
  own-Shrink s (locks_shared u r) e h =
      at_self (λ w. locks_shared w r) u h (lock_shared-Shrinks s e r)
  own-Shrink s (locks_exclusive u r) e h =
      at_self (λ w. locks_exclusive w r) u h (lock_exclusive-Shrinks s e r)
  own-Shrink s (wakes u b) e h = at_self (λ w. wakes w b) u h (wake-Shrinks s e b)
  own-Shrink s (commits u) e h = at_self commits u h (commit-Shrinks s e)
  own-Shrink s (aborts u) e h = at_self aborts u h (abort-Shrinks s e)
  own-Shrink s (logs u x) e h = at_self (λ w. logs w x) u h (push_undo-Shrinks s e x)
  own-Shrink s (writes db) e h = cc

  step-Shrinks : (s : System Db) (c : Call Db) → HasEnded t s → Shrinks t s (step undo_record s c)
  step-Shrinks s c e = elim (Bool-cases (is_of t c)) [
    | inl h ↦ own-Shrink s c e h
    | inr h ↦ others-Shrink s _ e (step-SameTx undo_record t s c e.begun h)
  ]

  -- The two phases: once a transaction has left GROWING (and does not wait), no sequence of calls,
  -- its own among them, gives it a lock, on any row and in any mode, that it does not have, nor
  -- makes it grow again.
  pub run-Shrinks :
      (s : System Db) (cs : List (Call Db)) → HasEnded t s → Shrinks t s (run undo_record s cs)
  unfolding run
  run-Shrinks s [] e = record { ended = e; fewer = λ r m h. h }
  run-Shrinks s (c ∷ cs) e =
      let first = step-Shrinks s c e in
      let rest = run-Shrinks (step undo_record s c) cs first.ended in
      record { ended = rest.ended; fewer = λ r m h. first.fewer r m (rest.fewer r m h) }
