-- ===== src/Txn/Examples.antt =====
-- The theorems on the lock manager and on the transaction manager at concrete histories of calls.
use duck_duck_dbms.Common.{
  ℕ, ◌≡◌, ◌≢◌, ◌+◌, ◌-◌, refl, arith, true, false, List, [], ◌∷◌, ◌⊎◌, ◌↔◌, ◌<◌,
}
use duck_duck_dbms.Txn.Queue.{shared, exclusive, LockRequest, holds, can_grant, enqueue, grant_node}
use duck_duck_dbms.Txn.Locks.{
  Rid, UndoRecord, delete_undo, restore_undo, drop_table_undo, Call, begins, locks_shared,
  locks_exclusive, wakes, commits, locks, contains, is_growing, System, lock_shared, lock_exclusive,
  drop_shared, enqueue_request, begin, commit, wait_for, step, run, init, insert, returned, blocked,
}
use duck_duck_dbms.Txn.Invariant.{Inv}
use duck_duck_dbms.Txn.Reachable.{after, run-Inv}
use duck_duck_dbms.Txn.Exclusion.{exclusive_excludes}
use duck_duck_dbms.Txn.Frame.{is_of}
use duck_duck_dbms.Txn.TwoPhase.{HasEnded, Shrinks, run-Shrinks}
use duck_duck_dbms.Txn.Grants.{
  Unopposed, lock_shared_outcome, lock_exclusive_outcome, upgrade_drops_shared,
}

-- Tables that are one number: a row is inserted or deleted.
abbrev undo_number : UndoRecord → ℕ → ℕ
undo_number (delete_undo t r) n = n - 1
undo_number (restore_undo t r bytes) n = n + 1
undo_number (drop_table_undo name) n = n

abbrev row : Rid
row = record { page_id = 1; slot_num = 2 }

-- Transaction 0 has the row exclusively, and transaction 1 waits for it.
abbrev contended : List (Call ℕ)
contended = begins ∷ begins ∷ locks_exclusive 0 row ∷ locks_exclusive 1 row ∷ []

-- Both transactions share the row.
abbrev sharing : List (Call ℕ)
sharing = begins ∷ begins ∷ locks_shared 0 row ∷ locks_shared 1 row ∷ []

run-Inv_example : Inv (after undo_number 7 contended)
run-Inv_example = run-Inv undo_number 7 contended

abbrev contended_now : System ℕ
contended_now = after undo_number 7 contended

abbrev sharing_now : System ℕ
sharing_now = after undo_number 7 sharing

two_transactions : ◌≢◌ {A = ℕ} 0 1
two_transactions h = omega (arith, h)

has_row : contains row (contended_now.txs 0).exclusive_locks ≡ true
unfolding run step begin commit lock_shared lock_exclusive drop_shared enqueue_request wait_for
    can_grant enqueue grant_node contains insert init
has_row = refl

grows : is_growing (sharing_now.txs 0).state ≡ true
unfolding run step begin commit lock_shared lock_exclusive drop_shared enqueue_request wait_for
    can_grant enqueue grant_node contains insert init
grows = refl

shares : contains row (sharing_now.txs 0).shared_locks ≡ true
unfolding run step begin commit lock_shared lock_exclusive drop_shared enqueue_request wait_for
    can_grant enqueue grant_node contains insert init
shares = refl

shares_too : contains row (sharing_now.txs 1).shared_locks ≡ true
unfolding run step begin commit lock_shared lock_exclusive drop_shared enqueue_request wait_for
    can_grant enqueue grant_node contains insert init
shares_too = refl

exclusive_excludes_example : contains row (locks shared (contended_now.txs 1)) ≡ false
exclusive_excludes_example =
    exclusive_excludes undo_number 7 contended 0 1 row shared two_transactions has_row

lock_shared_outcome_example :
    let o = (lock_shared 0 row sharing_now).1 in
    ((o ≡ returned true) ↔ Unopposed 0 shared (λ u k. contains row (locks k (sharing_now.txs u))))
    × ((o ≡ returned true) ⊎ (o ≡ blocked))
lock_shared_outcome_example = lock_shared_outcome undo_number 7 sharing 0 row grows

lock_exclusive_outcome_example :
    let o = (lock_exclusive 0 row sharing_now).1 in
    ((o ≡ returned true)
      ↔ Unopposed 0 exclusive (λ u k. contains row (locks k (sharing_now.txs u))))
    × ((o ≡ returned true) ⊎ (o ≡ blocked))
lock_exclusive_outcome_example = lock_exclusive_outcome undo_number 7 sharing 0 row grows

upgrade_drops_shared_example :
    let (s, o) = lock_exclusive 0 row sharing_now in
    (o ≡ blocked)
    × (contains row (s.txs 0).shared_locks ≡ false)
    × (contains row (s.txs 0).exclusive_locks ≡ false)
    × (holds 0 shared (s.lock_table row) ≡ false)
upgrade_drops_shared_example =
    upgrade_drops_shared undo_number 7 sharing 0 row 1 two_transactions grows shares shares_too

abbrev queue : List LockRequest
queue = record { tx_id = 0; lock_mode = shared; granted = true } ∷ []

begun_earlier : 1 < contended_now.next_tx_id
unfolding run step begin commit lock_shared lock_exclusive drop_shared enqueue_request wait_for
    can_grant enqueue grant_node contains insert init
begun_earlier = omega arith

of_another : is_of {Db = ℕ} 1 (commits 0) ≡ false
unfolding is_of
of_another = refl

-- Transaction 0 commits, and then asks for another row.
abbrev ended_now : System ℕ
ended_now = after undo_number 7 (begins ∷ locks_shared 0 row ∷ commits 0 ∷ [])

has_ended : HasEnded 0 ended_now
unfolding run step begin commit lock_shared lock_exclusive drop_shared enqueue_request wait_for
    can_grant enqueue grant_node contains insert init
has_ended = record { begun = omega arith; idle = refl; past = refl }

run-Shrinks_example :
    Shrinks 0 ended_now (run undo_number ended_now (locks_exclusive 0 row ∷ wakes 0 true ∷ []))
run-Shrinks_example =
    run-Shrinks undo_number 0 ended_now (locks_exclusive 0 row ∷ wakes 0 true ∷ []) has_ended
