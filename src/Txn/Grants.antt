-- ===== src/Txn/Grants.antt =====
-- Exactly when a request for a lock is granted, and what an upgrade does meanwhile.
use duck_duck_dbms.Common.{
  ℕ, ◌≡◌, ◌≢◌, ◌↔◌, sym, ◌∙◌, refl, Bool, true, false, List, [], ◌∷◌, arith, if◌then◌else◌, All,
  inl, inr, ◌⊎◌, Bool-cases,
}
use duck_duck_dbms.Txn.Queue.{
  LockRequest, LockMode, enqueue, erase_tx, shared, exclusive, holds, can_grant,
}
use duck_duck_dbms.Txn.Effects.{holds-erase_tx, holds-enqueue}
use duck_duck_dbms.Txn.Compatible.{Free, can_grant-Free, holds-Compatible}
use duck_duck_dbms.Txn.Locks.{
  Rid, is_growing, System, UndoRecord, Call, locks, contains, Outcome, returned, blocked, wait_for,
  enqueue_request, lock_shared, lock_exclusive, drop_shared,
}
use duck_duck_dbms.Txn.Sets.{rid_eq_iff, contains-erase}
use duck_duck_dbms.Txn.Invariant.{Inv}
use duck_duck_dbms.Txn.Reachable.{after, run-Inv}

-- No other transaction holds a lock that conflicts with mode `m`.
abbrev pub Unopposed : ℕ → LockMode → (ℕ → LockMode → Bool) → Type 0
Unopposed t m lock =
    (u : ℕ) → t ≢ u → (lock u exclusive ≡ false) × ((m ≡ shared) ⊎ (lock u shared ≡ false))

module _ (t : ℕ) (m : LockMode) where
  Free-Unopposed : (q : List LockRequest) → All (Free t m) q → Unopposed t m (λ u k. holds u k q)
  unfolding holds
  Free-Unopposed [] f u ne = (refl, inr refl)
  Free-Unopposed (x ∷ q) f u ne = ground (arith, Free-Unopposed q f.1 u ne)

  Unopposed-can_grant :
      (q : List LockRequest) → Unopposed t m (λ u k. holds u k q) → can_grant q t m ≡ true
  unfolding holds can_grant
  Unopposed-can_grant [] h = refl
  Unopposed-can_grant (x ∷ q) h =
      let rest = Unopposed-can_grant q (λ u ne. ground (arith, h u ne)) in
      ground (arith, h x.tx_id, rest)

  -- `can_grant` holds of a queue exactly when no other transaction has a granted request in it that
  -- conflicts with the mode.
  pub can_grant_iff :
      (q : List LockRequest) → (can_grant q t m ≡ true) ↔ Unopposed t m (λ u k. holds u k q)
  can_grant_iff q = (λ h. Free-Unopposed q (can_grant-Free t m q h), Unopposed-can_grant q)

  can_grant-erase_tx : (q : List LockRequest) → can_grant (erase_tx t q) t m ≡ can_grant q t m
  unfolding can_grant erase_tx
  can_grant-erase_tx [] = refl
  can_grant-erase_tx (x ∷ q) = ground (arith, can_grant-erase_tx q)

  pub can_grant-enqueue : (q : List LockRequest) → can_grant (enqueue t m q) t m ≡ can_grant q t m
  unfolding can_grant enqueue
  can_grant-enqueue [] = ground arith
  can_grant-enqueue (x ∷ q) = ground (arith, can_grant-enqueue q)

module _ {Db : Type 0} (t : ℕ) (m : LockMode) (r : Rid) where
  -- The outcome of a request that is put at the end of its queue.
  request_outcome :
      (s : System Db)
      → (wait_for t m r false (enqueue_request t m r s)).1
        ≡ (if can_grant (s.lock_table r) t m then returned true else blocked)
  unfolding wait_for enqueue_request
  request_outcome s = ground (arith, can_grant-enqueue t m (s.lock_table r), rid_eq_iff r r)

  can_grant-drop_shared :
      (s : System Db)
      → can_grant ((drop_shared t r s).lock_table r) t m ≡ can_grant (s.lock_table r) t m
  unfolding drop_shared
  can_grant-drop_shared s = ground (arith, rid_eq_iff r r, can_grant-erase_tx t m (s.lock_table r))

  module _ (s : System Db) (v : Inv s) where
    -- What the lock sets say is what the queue says.
    opposed_iff :
        (can_grant (s.lock_table r) t m ≡ true)
        ↔ Unopposed t m (λ u k. contains r (locks k (s.txs u)))
    opposed_iff = (
      λ h u ne.
          let x = (can_grant_iff t m (s.lock_table r)).0 h u ne in
          ground (arith, v.held u r exclusive, v.held u r shared),
      λ h.
          (can_grant_iff t m (s.lock_table r)).1
            (λ u ne. ground (arith, h u ne, v.held u r exclusive, v.held u r shared)),
    )

    -- Nobody opposes a transaction that has the lock already.
    not_both :
        (u : ℕ) (j k : LockMode)
        → t ≢ u
        → contains r (locks j (s.txs t)) ≡ true
        → (j ≡ exclusive) ⊎ (k ≡ exclusive)
        → contains r (locks k (s.txs u)) ≡ false
    not_both u j k ne h x = elim (Bool-cases (contains r (locks k (s.txs u)))) [
      | inr e ↦ e
      | inl e ↦
          let p =
            holds-Compatible t u j k (s.lock_table r) (v.compatible r) ne (v.held t r j ∙ h)
              (v.held u r k ∙ e) in
          ground (arith, p.0, p.1)
    ]

    own_lock :
        (j : LockMode)
        → contains r (locks j (s.txs t)) ≡ true
        → (j ≡ exclusive) ⊎ (m ≡ shared)
        → Unopposed t m (λ u k. contains r (locks k (s.txs u)))
    own_lock exclusive h x u ne = (
      not_both u exclusive exclusive ne h (inl refl),
      inr (not_both u exclusive shared ne h (inl refl)),
    )
    own_lock shared h x u ne = (not_both u shared exclusive ne h (inr refl), inl (ground arith))

    granted_outcome :
        (o : Outcome)
        → o ≡ (if can_grant (s.lock_table r) t m then returned true else blocked)
        → ((o ≡ returned true) ↔ Unopposed t m (λ u k. contains r (locks k (s.txs u))))
          × ((o ≡ returned true) ⊎ (o ≡ blocked))
    granted_outcome o e = elim (Bool-cases (can_grant (s.lock_table r) t m)) [
      | inl c ↦ ((λ _. opposed_iff.0 c, λ _. rw c at e), inl (rw c at e))
      | inr c ↦ ((λ h. cc (h, e), λ h. cc (c, opposed_iff.1 h)), inr (rw c at e))
    ]

module _ {Db : Type 0} (undo_record : UndoRecord → Db → Db) (db : Db) (cs : List (Call Db)) (t : ℕ)
    (r : Rid) where
  abbrev now : System Db
  now = after undo_record db cs

  -- After any history, `lock_shared` of a GROWING transaction returns true at once exactly when no
  -- other transaction has the row in its exclusive set, and waits otherwise.
  pub lock_shared_outcome :
      is_growing (now.txs t).state ≡ true
      → let o = (lock_shared t r now).1 in
        ((o ≡ returned true) ↔ Unopposed t shared (λ u k. contains r (locks k (now.txs u))))
        × ((o ≡ returned true) ⊎ (o ≡ blocked))
  unfolding lock_shared
  lock_shared_outcome g = elim (Bool-cases (contains r (now.txs t).shared_locks)) [
    | inl e ↦ rw (g, e) ((λ _. own_lock t shared r now v shared e (inr refl), λ _. refl), inl refl)
    | inr e ↦ elim (Bool-cases (contains r (now.txs t).exclusive_locks)) [
      | inl f ↦
          rw (g, e, f)
            ((λ _. own_lock t shared r now v exclusive f (inl refl), λ _. refl), inl refl)
      | inr f ↦ rw (g, e, f) (granted_outcome t shared r now v _ (request_outcome t shared r now))
    ]
  ]
    where
      v : Inv now
      v = run-Inv undo_record db cs

  -- After any history, `lock_exclusive` of a GROWING transaction returns true at once exactly when
  -- no other transaction has the row in its shared or its exclusive set, and waits otherwise.
  pub lock_exclusive_outcome :
      is_growing (now.txs t).state ≡ true
      → let o = (lock_exclusive t r now).1 in
        ((o ≡ returned true) ↔ Unopposed t exclusive (λ u k. contains r (locks k (now.txs u))))
        × ((o ≡ returned true) ⊎ (o ≡ blocked))
  unfolding lock_exclusive
  lock_exclusive_outcome g = elim (Bool-cases (contains r (now.txs t).exclusive_locks)) [
    | inl f ↦
        rw (g, f) ((λ _. own_lock t exclusive r now v exclusive f (inl refl), λ _. refl), inl refl)
    | inr f ↦
        rw (g, f)
          (granted_outcome t exclusive r now v _ (
            rw (
              request_outcome t exclusive r (drop_shared t r now),
              can_grant-drop_shared t exclusive r now,
            )))
  ]
    where
      v : Inv now
      v = run-Inv undo_record db cs

  -- After any history, when a GROWING transaction upgrades a lock that another one shares, it has
  -- to wait, and while it waits it has no lock on the row, neither shared nor exclusive.
  pub upgrade_drops_shared :
      (u : ℕ)
      → t ≢ u
      → is_growing (now.txs t).state ≡ true
      → contains r (now.txs t).shared_locks ≡ true
      → contains r (now.txs u).shared_locks ≡ true
      → let (s, o) = lock_exclusive t r now in
        (o ≡ blocked)
        × (contains r (s.txs t).shared_locks ≡ false)
        × (contains r (s.txs t).exclusive_locks ≡ false)
        × (holds t shared (s.lock_table r) ≡ false)
  unfolding lock_exclusive wait_for enqueue_request drop_shared
  upgrade_drops_shared u ne g h k =
      rw (g, no_exclusive, h)
        (
          ground (arith, rid_eq_iff r r, refused),
          ground (arith, rid_eq_iff r r, refused, contains-erase r r (now.txs t).shared_locks),
          ground (arith, rid_eq_iff r r, refused, no_exclusive),
          ground (
            arith,
            rid_eq_iff r r,
            refused,
            holds-erase_tx t t shared shared (now.lock_table r),
            holds-enqueue t t shared exclusive (erase_tx t (now.lock_table r)),
          ),
        )
    where
      v : Inv now
      v = run-Inv undo_record db cs

      no_exclusive : contains r (now.txs t).exclusive_locks ≡ false
      no_exclusive = not_both u shared r now v t shared exclusive (λ e. ne (sym e)) k (inr refl)

      not_granted : can_grant (now.lock_table r) t exclusive ≡ true → ⊥
      not_granted e = let p = (opposed_iff t exclusive r now v).0 e u ne in ground (arith, p.1)

      refused : can_grant (enqueue t exclusive (erase_tx t (now.lock_table r))) t exclusive ≡ false
      refused = ground (
        arith,
        can_grant-enqueue t exclusive (erase_tx t (now.lock_table r)),
        can_grant-erase_tx t exclusive (now.lock_table r),
        not_granted,
      )
