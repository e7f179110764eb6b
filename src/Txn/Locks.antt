-- ===== src/Txn/Locks.antt =====
-- The lock manager and the transaction manager (src/transaction/lock_manager.cpp, manager.cpp,
-- transaction.cpp, transaction.hpp, undo.hpp) over one shared state. Every call runs under the
-- manager's latch up to a wait on the condition variable, so a run is a sequence of atomic steps:
-- the calls, and the wakings of calls that wait. A transaction is driven by one thread, hence it
-- has at most one waiting request, which `pending` names; a thread that waits makes no call.
use duck_duck_dbms.Common.{
  ℕ, ◌+◌, Bool, true, false, not, ◌&&◌, ◌||◌, Option, none, some, List, [], ◌∷◌, ltb, ◌==◌,
  if◌then◌else◌, keep,
}
use duck_duck_dbms.Txn.Queue.{
  LockMode, shared, exclusive, LockRequest, can_grant, grant_node, erase_node, erase_tx, enqueue,
}

pub record Rid : Type 0 where
  pub page_id : ℕ
  pub slot_num : ℕ

abbrev pub rid_eq : Rid → Rid → Bool
rid_eq a b = a.page_id == b.page_id && a.slot_num == b.slot_num

pub data TransactionState : Type 0 where
  growing shrinking committed aborted : TransactionState

abbrev pub is_growing : TransactionState → Bool
is_growing growing = true
is_growing _ = false

-- The three classes that derive from `UndoRecord`. A table is named by its number.
pub data UndoRecord : Type 0 where
  delete_undo : ℕ → Rid → UndoRecord
  restore_undo : ℕ → Rid → List ℕ → UndoRecord
  drop_table_undo : List ℕ → UndoRecord

-- The elements of an `unordered_set` or `unordered_map`, whose order the program never uses.
unfoldable pub contains : Rid → List Rid → Bool
contains r [] = false
contains r (x ∷ xs) = rid_eq x r || contains r xs

unfoldable pub insert : Rid → List Rid → List Rid
insert r xs = if contains r xs then xs else r ∷ xs

unfoldable pub erase : Rid → List Rid → List Rid
erase r = keep (λ x. not (rid_eq x r))

pub record Transaction : Type 0 where
  pub state : TransactionState
  pub shared_locks : List Rid
  pub exclusive_locks : List Rid
  -- The newest record first.
  pub undo_log : List UndoRecord

abbrev pub locks : LockMode → Transaction → List Rid
locks shared tx = tx.shared_locks
locks exclusive tx = tx.exclusive_locks

pub record Pending : Type 0 where
  pub rid : Rid
  pub mode : LockMode

-- `Db` is what the undo records act on. The counter of transactions has 64 bits, and no bound here.
pub record System (Db : Type 0) : Type 0 where
  pub lock_table : Rid → List LockRequest
  pub txs : ℕ → Transaction
  pub pending : ℕ → Option Pending
  pub active_txs : ℕ → Bool
  pub next_tx_id : ℕ
  pub db : Db

-- What a call does: it returns, or its thread waits.
pub data Outcome : Type 0 where
  returned : Bool → Outcome
  blocked : Outcome

abbrev pub new_transaction : Transaction
new_transaction = record { state = growing; shared_locks = []; exclusive_locks = []; undo_log = [] }

abbrev pub put {ℓ} : {A : Type ℓ} → (ℕ → A) → ℕ → A → ℕ → A
put f t x u = if t == u then x else f u

abbrev pub put_queue : (Rid → List LockRequest) → Rid → List LockRequest → Rid → List LockRequest
put_queue f r q r' = if rid_eq r r' then q else f r'

abbrev pub add_lock : LockMode → Rid → Transaction → Transaction
add_lock shared r tx = record tx { shared_locks = insert r tx.shared_locks }
add_lock exclusive r tx = record tx { exclusive_locks = insert r tx.exclusive_locks }

-- `remove_and_notify` for each lock of a set.
unfoldable pub remove_all : ℕ → List Rid → (Rid → List LockRequest) → Rid → List LockRequest
remove_all t [] f = f
remove_all t (r ∷ rs) f = remove_all t rs (put_queue f r (erase_tx t (f r)))

module _ {Db : Type 0} where
  -- The request is granted: it is marked, and the lock joins the set of the transaction.
  unfoldable pub take_lock : ℕ → LockMode → Rid → System Db → System Db
  take_lock t m r s = record s {
    lock_table = put_queue s.lock_table r (grant_node t m (s.lock_table r));
    txs = put s.txs t (add_lock m r (s.txs t));
    pending = put s.pending t none;
  }

  -- The second is over: the request is erased and the transaction is marked as aborted.
  unfoldable pub give_up : ℕ → LockMode → Rid → System Db → System Db
  give_up t m r s = record s {
    lock_table = put_queue s.lock_table r (erase_node t m (s.lock_table r));
    txs = put s.txs t (record (s.txs t) { state = aborted });
    pending = put s.pending t none;
  }

  -- `cv.wait_for` and what follows it: the predicate is tested, then the call returns, gives up,
  -- or goes on waiting.
  unfoldable pub wait_for : ℕ → LockMode → Rid → Bool → System Db → System Db × Outcome
  unfolding take_lock give_up
  wait_for t m r timed_out s =
      if can_grant (s.lock_table r) t m
      then (take_lock t m r s, returned true)
      else if timed_out
      then (give_up t m r s, returned false)
      else (s, blocked)

  unfoldable pub enqueue_request : ℕ → LockMode → Rid → System Db → System Db
  enqueue_request t m r s = record s {
    lock_table = put_queue s.lock_table r (enqueue t m (s.lock_table r));
    pending = put s.pending t (some (record { rid = r; mode = m }));
  }

  unfoldable pub lock_shared : ℕ → Rid → System Db → System Db × Outcome
  lock_shared t r s =
      if not (is_growing (s.txs t).state)
      then (s, returned false)
      else if contains r (s.txs t).shared_locks || contains r (s.txs t).exclusive_locks
      then (s, returned true)
      else wait_for t shared r false (enqueue_request t shared r s)

  -- `if (tx->shared_locks_.contains(rid))`: the shared request and the shared lock are dropped.
  unfoldable pub drop_shared : ℕ → Rid → System Db → System Db
  drop_shared t r s =
      if contains r (s.txs t).shared_locks
      then record s {
        lock_table = put_queue s.lock_table r (erase_tx t (s.lock_table r));
        txs = put s.txs t (record (s.txs t) { shared_locks = erase r (s.txs t).shared_locks });
      }
      else s

  unfoldable pub lock_exclusive : ℕ → Rid → System Db → System Db × Outcome
  lock_exclusive t r s =
      if not (is_growing (s.txs t).state)
      then (s, returned false)
      else if contains r (s.txs t).exclusive_locks
      then (s, returned true)
      else wait_for t exclusive r false (enqueue_request t exclusive r (drop_shared t r s))

  unfoldable pub set_state : ℕ → TransactionState → System Db → System Db
  set_state t st s = record s { txs = put s.txs t (record (s.txs t) { state = st }) }

  unfoldable pub unlock_all : ℕ → System Db → System Db
  unlock_all t s = record s {
    lock_table =
        remove_all t (s.txs t).shared_locks (remove_all t (s.txs t).exclusive_locks s.lock_table);
    txs = put s.txs t (record (s.txs t) { shared_locks = []; exclusive_locks = [] });
  }

  unfoldable pub begin : System Db → System Db
  begin s = record s {
    txs = put s.txs s.next_tx_id new_transaction;
    active_txs = put s.active_txs s.next_tx_id true;
    next_tx_id = s.next_tx_id + 1;
  }

  unfoldable pub end : ℕ → TransactionState → System Db → System Db
  unfolding set_state unlock_all
  end t st s =
      let s' = set_state t st (unlock_all t s) in
      record s' { active_txs = put s'.active_txs t false }

  unfoldable pub commit : ℕ → System Db → System Db
  unfolding end
  commit t s = end t committed (set_state t shrinking s)

  unfoldable pub push_undo : ℕ → UndoRecord → System Db → System Db
  push_undo t u s = record s {
    txs = put s.txs t (record (s.txs t) { undo_log = u ∷ (s.txs t).undo_log });
  }

-- What each undo record does to the tables (src/transaction/undo.cpp) is not modelled; the locks do not
-- depend on it.
module _ {Db : Type 0} (undo_record : UndoRecord → Db → Db) where
  -- Newest first, which is what the reverse iterators give.
  unfoldable pub undo : List UndoRecord → Db → Db
  undo [] db = db
  undo (u ∷ us) db = undo us (undo_record u db)

  unfoldable pub abort : ℕ → System Db → System Db
  unfolding end
  abort t s =
      let s' = set_state t shrinking s in
      end t aborted (record s' { db = undo (s'.txs t).undo_log s'.db })

pub data Call (Db : Type 0) : Type 0 where
  begins : Call Db
  locks_shared : ℕ → Rid → Call Db
  locks_exclusive : ℕ → Rid → Call Db
  -- A thread that waits wakes, with its second over or not.
  wakes : ℕ → Bool → Call Db
  commits : ℕ → Call Db
  aborts : ℕ → Call Db
  -- The table layer logs an undo record, and changes the tables.
  logs : ℕ → UndoRecord → Call Db
  writes : Db → Call Db

module _ {Db : Type 0} where
  -- A transaction that has begun and whose thread is not waiting.
  abbrev pub can_call : ℕ → System Db → Bool
  can_call t s = ltb t s.next_tx_id && elim (s.pending t) [ none ↦ true | some _ ↦ false ]

  unfoldable pub wake : ℕ → Bool → System Db → System Db
  wake t timed_out s = elim (s.pending t) [
    | none ↦ s
    | some p ↦ (wait_for t p.mode p.rid timed_out s).0
  ]

  unfoldable pub init : Db → System Db
  init db = record {
    lock_table = λ _. [];
    txs = λ _. new_transaction;
    pending = λ _. none;
    active_txs = λ _. false;
    next_tx_id = 0;
    db = db;
  }

module _ {Db : Type 0} (undo_record : UndoRecord → Db → Db) where
  -- A call of a transaction that cannot call does not happen.
  unfoldable pub step : System Db → Call Db → System Db
  step s begins = begin s
  step s (locks_shared t r) = if can_call t s then (lock_shared t r s).0 else s
  step s (locks_exclusive t r) = if can_call t s then (lock_exclusive t r s).0 else s
  step s (wakes t timed_out) = wake t timed_out s
  step s (commits t) = if can_call t s then commit t s else s
  step s (aborts t) = if can_call t s then abort undo_record t s else s
  step s (logs t u) = if can_call t s then push_undo t u s else s
  step s (writes db) = record s { db = db }

  unfoldable pub run : System Db → List (Call Db) → System Db
  run s [] = s
  run s (c ∷ cs) = run (step s c) cs
