-- ===== src/Txn/Queue.antt =====
-- One lock request queue of src/transaction/lock_manager.cpp: the requests for one RID, oldest
-- first, granted and waiting ones together.
use duck_duck_dbms.Common.{
  ℕ, ◌≡◌, ◌≢◌, Bool, true, false, not, ◌&&◌, ◌||◌, List, [], ◌∷◌, ◌++◌, ◌==◌, if◌then◌else◌, keep,
  All,
}

pub data LockMode : Type 0 where
  shared exclusive : LockMode

abbrev pub mode_eq : LockMode → LockMode → Bool
mode_eq shared shared = true
mode_eq exclusive exclusive = true
mode_eq _ _ = false

pub record LockRequest : Type 0 where
  pub tx_id : ℕ
  pub lock_mode : LockMode
  pub granted : Bool

-- A request that conflicts with the granted request `it` of another transaction.
abbrev pub blocks : ℕ → LockMode → LockRequest → Bool
blocks t m it =
    if not it.granted || it.tx_id == t
    then false
    else if mode_eq m exclusive
    then true
    else mode_eq it.lock_mode exclusive

unfoldable pub can_grant : List LockRequest → ℕ → LockMode → Bool
can_grant [] t m = true
can_grant (it ∷ q) t m = if blocks t m it then false else can_grant q t m

-- The node that a waiting call of transaction `t` holds an iterator to.
abbrev pub is_node : ℕ → LockMode → LockRequest → Bool
is_node t m r = r.tx_id == t && (mode_eq r.lock_mode m && not r.granted)

-- `it->granted = true`
unfoldable pub grant_node : ℕ → LockMode → List LockRequest → List LockRequest
grant_node t m [] = []
grant_node t m (r ∷ q) =
    (if is_node t m r then record r { granted = true } else r) ∷ grant_node t m q

-- `queue.requests.erase(it)`
unfoldable pub erase_node : ℕ → LockMode → List LockRequest → List LockRequest
erase_node t m = keep (λ r. not (is_node t m r))

-- `std::erase_if(queue.requests, req.tx_id == tx_id)`
unfoldable pub erase_tx : ℕ → List LockRequest → List LockRequest
erase_tx t = keep (λ r. not (r.tx_id == t))

-- `queue.requests.insert(queue.requests.end(), request)`
unfoldable pub enqueue : ℕ → LockMode → List LockRequest → List LockRequest
enqueue t m q = q ++ record { tx_id = t; lock_mode = m; granted = false } ∷ []

-- What the queue says of one transaction: a granted request, or one that waits.
unfoldable pub holds : ℕ → LockMode → List LockRequest → Bool
holds t m [] = false
holds t m (r ∷ q) = (r.tx_id == t && (mode_eq r.lock_mode m && r.granted)) || holds t m q

unfoldable pub waits : ℕ → LockMode → List LockRequest → Bool
waits t m [] = false
waits t m (r ∷ q) = is_node t m r || waits t m q

-- Two requests that may be granted at the same time.
abbrev pub Agree : LockRequest → LockRequest → Type 0
Agree a b =
    a.granted ≡ true
    → b.granted ≡ true
    → a.tx_id ≢ b.tx_id
    → (a.lock_mode ≡ shared) × (b.lock_mode ≡ shared)

abbrev pub Compatible : List LockRequest → Type 0
Compatible [] = Unit
Compatible (r ∷ q) = All (Agree r) q × Compatible q
