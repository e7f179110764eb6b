-- ===== src/Txn/Acquire.antt =====
-- The calls that take locks keep the invariant.
use duck_duck_dbms.Common.{ℕ, ◌<◌, ◌≡◌, false, ◌||◌, none, arith, inl, inr, Bool-cases}
use duck_duck_dbms.Txn.Queue.{LockMode, erase_tx, shared, exclusive, holds}
use duck_duck_dbms.Txn.Effects.{holds-erase_tx, waits-erase_tx}
use duck_duck_dbms.Txn.Compatible.{Compatible-erase_tx}
use duck_duck_dbms.Txn.Locks.{
  Rid, is_growing, System, locks, contains, erase, put, put_queue, wait_for, enqueue_request,
  drop_shared, lock_shared, lock_exclusive,
}
use duck_duck_dbms.Txn.Sets.{rid_eq_iff, contains-erase, Compatible-put_queue}
use duck_duck_dbms.Txn.Invariant.{Inv, wait_for-Inv, enqueue_request-Inv}

-- A request that is put at the end of its queue and then waits.
queued :
    {Db : Type 0} (t : ℕ) (r : Rid) (m : LockMode) (s : System Db)
    → Inv s
    → t < s.next_tx_id
    → s.pending t ≡ none
    → Inv (wait_for t m r false (enqueue_request t m r s)).0
unfolding enqueue_request
queued t r m s v begun idle =
    wait_for-Inv (enqueue_request t m r s) (enqueue_request-Inv s v t m r begun idle) t m r begun
      false (ground arith)

module _ {Db : Type 0} (s : System Db) (v : Inv s) where
  next_tx_id-drop_shared : (t : ℕ) (r : Rid) → (drop_shared t r s).next_tx_id ≡ s.next_tx_id
  unfolding drop_shared
  next_tx_id-drop_shared t r = ground arith

  pending-drop_shared : (t : ℕ) (r : Rid) → (drop_shared t r s).pending ≡ s.pending
  unfolding drop_shared
  pending-drop_shared t r = ground arith

  module _ (t : ℕ) (begun : t < s.next_tx_id) (idle : s.pending t ≡ none) (r : Rid) where
    dropped_held :
        contains r (s.txs t).exclusive_locks ≡ false
        → (u : ℕ) (x : Rid) (k : LockMode)
        → holds u k (put_queue s.lock_table r (erase_tx t (s.lock_table r)) x)
          ≡ contains x (
              locks k (
                put s.txs t (record (s.txs t) { shared_locks = erase r (s.txs t).shared_locks }) u))
    dropped_held none_exclusive u x k = ground (
      arith,
      rid_eq_iff r x,
      v.held u x k,
      holds-erase_tx u t k k (s.lock_table r),
      contains-erase x r (s.txs t).shared_locks,
    )

    drop_shared-Inv : contains r (s.txs t).exclusive_locks ≡ false → Inv (drop_shared t r s)
    unfolding drop_shared
    drop_shared-Inv none_exclusive = elim (Bool-cases (contains r (s.txs t).shared_locks)) [
      | inl e ↦ rw e (record {
        compatible = λ x.
            Compatible-put_queue s.lock_table r _ x (v.compatible x)
              (Compatible-erase_tx t _ (v.compatible r));
        held = dropped_held none_exclusive;
        waiting = λ u x k.
            ground
              (arith, rid_eq_iff r x, v.waiting u x k, waits-erase_tx u t k k (s.lock_table r));
        fresh = λ u le. ground (arith, v.fresh u);
      })
      | inr e ↦ rw e v
    ]

    pub lock_shared-Inv : Inv (lock_shared t r s).0
    unfolding lock_shared
    lock_shared-Inv = elim (Bool-cases (is_growing (s.txs t).state)) [
      | inr e ↦ rw e v
      | inl e ↦
          elim (Bool-cases
            (contains r (s.txs t).shared_locks || contains r (s.txs t).exclusive_locks)) [
              | inl f ↦ rw (e, f) v
              | inr f ↦ rw (e, f) (queued t r shared s v begun idle)
            ]
    ]

    pub lock_exclusive-Inv : Inv (lock_exclusive t r s).0
    unfolding lock_exclusive
    lock_exclusive-Inv = elim (Bool-cases (is_growing (s.txs t).state)) [
      | inr e ↦ rw e v
      | inl e ↦ elim (Bool-cases (contains r (s.txs t).exclusive_locks)) [
        | inl f ↦ rw (e, f) v
        | inr f ↦
            rw (e, f)
              (queued t r exclusive (drop_shared t r s) (drop_shared-Inv f)
                (rw (next_tx_id-drop_shared t r) begun) (rw (pending-drop_shared t r) idle))
      ]
    ]
