-- ===== src/Txn/Invariant.antt =====
-- The lock table and the lock sets of the transactions agree, after every call.
use duck_duck_dbms.Common.{
  ℕ, ◌≤◌, ◌<◌, ◌≡◌, Bool, true, false, ◌&&◌, Option, none, some, [], arith, if◌then◌else◌, inl, inr,
  Bool-cases,
}
use duck_duck_dbms.Txn.Queue.{
  LockMode, mode_eq, can_grant, grant_node, erase_node, enqueue, holds, waits, Compatible,
}
use duck_duck_dbms.Txn.Effects.{
  holds-enqueue, waits-enqueue, holds-erase_node, waits-erase_node, holds-grant_node,
  waits-grant_node,
}
use duck_duck_dbms.Txn.Compatible.{Compatible-erase_node, Compatible-enqueue, Compatible-grant_node}
use duck_duck_dbms.Txn.Locks.{
  Rid, rid_eq, Pending, System, locks, contains, put, put_queue, add_lock, wait_for,
  enqueue_request, take_lock, give_up, aborted, Outcome, returned, blocked,
}
use duck_duck_dbms.Txn.Sets.{rid_eq_iff, contains-insert, Compatible-put_queue}

abbrev pub awaits : Rid → LockMode → Option Pending → Bool
awaits r m none = false
awaits r m (some p) = rid_eq p.rid r && mode_eq p.mode m

pub record Inv {Db : Type 0} (s : System Db) : Type 0 where
  pub compatible : (r : Rid) → Compatible (s.lock_table r)
  pub held :
      (t : ℕ) (r : Rid) (m : LockMode) → holds t m (s.lock_table r) ≡ contains r (locks m (s.txs t))
  pub waiting :
      (t : ℕ) (r : Rid) (m : LockMode) → waits t m (s.lock_table r) ≡ awaits r m (s.pending t)
  pub fresh :
      (t : ℕ)
      → s.next_tx_id ≤ t
      → (s.pending t ≡ none) × ((s.txs t).shared_locks ≡ []) × ((s.txs t).exclusive_locks ≡ [])

module _ {Db : Type 0} (s : System Db) (v : Inv s) (t : ℕ) (m : LockMode) (r : Rid)
    (begun : t < s.next_tx_id) where
  grant_held :
      s.pending t ≡ some (record { rid = r; mode = m })
      → (u : ℕ) (x : Rid) (k : LockMode)
      → holds u k (put_queue s.lock_table r (grant_node t m (s.lock_table r)) x)
        ≡ contains x (locks k (put s.txs t (add_lock m r (s.txs t)) u))
  grant_held w u x k = ground (
    arith,
    rid_eq_iff r x,
    v.held u x k,
    v.waiting t r m,
    holds-grant_node u t k m (s.lock_table r),
    contains-insert x r (s.txs t).shared_locks,
    contains-insert x r (s.txs t).exclusive_locks,
  )

  give_up_held :
      (u : ℕ) (x : Rid) (k : LockMode)
      → holds u k (put_queue s.lock_table r (erase_node t m (s.lock_table r)) x)
        ≡ contains x (locks k (put s.txs t (record (s.txs t) { state = aborted }) u))
  give_up_held u x k =
      ground (arith, rid_eq_iff r x, v.held u x k, holds-erase_node u t k m (s.lock_table r))

  grant_waiting :
      s.pending t ≡ some (record { rid = r; mode = m })
      → (u : ℕ) (x : Rid) (k : LockMode)
      → waits u k (put_queue s.lock_table r (grant_node t m (s.lock_table r)) x)
        ≡ awaits x k (put s.pending t none u)
  grant_waiting w u x k =
      ground (arith, rid_eq_iff r x, v.waiting u x k, waits-grant_node u t k m (s.lock_table r))

  give_up_waiting :
      s.pending t ≡ some (record { rid = r; mode = m })
      → (u : ℕ) (x : Rid) (k : LockMode)
      → waits u k (put_queue s.lock_table r (erase_node t m (s.lock_table r)) x)
        ≡ awaits x k (put s.pending t none u)
  give_up_waiting w u x k =
      ground (arith, rid_eq_iff r x, v.waiting u x k, waits-erase_node u t k m (s.lock_table r))

  enqueue_waiting :
      s.pending t ≡ none
      → (u : ℕ) (x : Rid) (k : LockMode)
      → waits u k (put_queue s.lock_table r (enqueue t m (s.lock_table r)) x)
        ≡ awaits x k (put s.pending t (some (record { rid = r; mode = m })) u)
  enqueue_waiting w u x k =
      ground (arith, rid_eq_iff r x, v.waiting u x k, waits-enqueue u t k m (s.lock_table r))

  take_lock-Inv :
      s.pending t ≡ some (record { rid = r; mode = m })
      → can_grant (s.lock_table r) t m ≡ true
      → Inv (take_lock t m r s)
  unfolding take_lock
  take_lock-Inv w e = record {
    compatible = λ x.
        Compatible-put_queue s.lock_table r _ x (v.compatible x)
          (Compatible-grant_node t m _ e (v.compatible r));
    held = grant_held w;
    waiting = grant_waiting w;
    fresh = λ u le. ground (arith, v.fresh u);
  }

  give_up-Inv : s.pending t ≡ some (record { rid = r; mode = m }) → Inv (give_up t m r s)
  unfolding give_up
  give_up-Inv w = record {
    compatible = λ x.
        Compatible-put_queue s.lock_table r _ x (v.compatible x)
          (Compatible-erase_node t m _ (v.compatible r));
    held = give_up_held;
    waiting = give_up_waiting w;
    fresh = λ u le. ground (arith, v.fresh u);
  }

  -- A call that waits keeps the invariant, whether it gets its lock, gives up or goes on waiting.
  pub wait_for-Inv :
      (timed_out : Bool)
      → s.pending t ≡ some (record { rid = r; mode = m })
      → Inv (wait_for t m r timed_out s).0
  unfolding wait_for
  wait_for-Inv timed_out w = elim (Bool-cases (can_grant (s.lock_table r) t m)) [
    | inl e ↦ rw e (take_lock-Inv w e)
    | inr e ↦ rw e (refuse timed_out)
  ]
    where
      refuse :
          (b : Bool)
          → Inv (
              let p : System Db × Outcome =
                if b then (give_up t m r s, returned false) else (s, blocked) in
              p.0)
      refuse true = give_up-Inv w
      refuse false = v

  pub enqueue_request-Inv : s.pending t ≡ none → Inv (enqueue_request t m r s)
  unfolding enqueue_request
  enqueue_request-Inv w = record {
    compatible = λ x.
        Compatible-put_queue s.lock_table r _ x (v.compatible x)
          (Compatible-enqueue t m _ (v.compatible r));
    held = λ u x k.
        ground (arith, rid_eq_iff r x, v.held u x k, holds-enqueue u t k m (s.lock_table r));
    waiting = enqueue_waiting w;
    fresh = λ u le. ground (arith, v.fresh u);
  }
