-- ===== src/Txn/Effects.antt =====
-- What each operation on a request queue does to the requests of one transaction, and that it
-- keeps the granted requests compatible.
use duck_duck_dbms.Common.{
  ℕ, ◌≡◌, refl, sym, ◌∙◌, inl, inr, Bool, true, false, not, ◌&&◌, ◌||◌, List, [], ◌∷◌, arith, ◌==◌,
  if◌then◌else◌, Bool-cases,
}
use duck_duck_dbms.Txn.Queue.{
  LockMode, mode_eq, LockRequest, is_node, grant_node, erase_node, erase_tx, enqueue, holds, waits,
}

module _ (t u : ℕ) (m k : LockMode) where
  pub holds-erase_tx :
      (q : List LockRequest) → holds t m (erase_tx u q) ≡ (if t == u then false else holds t m q)
  unfolding holds erase_tx
  holds-erase_tx [] = ground arith
  holds-erase_tx (r ∷ q) = ground (arith, holds-erase_tx q)

  pub waits-erase_tx :
      (q : List LockRequest) → waits t m (erase_tx u q) ≡ (if t == u then false else waits t m q)
  unfolding waits erase_tx
  waits-erase_tx [] = ground arith
  waits-erase_tx (r ∷ q) = ground (arith, waits-erase_tx q)

  pub holds-enqueue : (q : List LockRequest) → holds t m (enqueue u k q) ≡ holds t m q
  unfolding holds enqueue
  holds-enqueue [] = ground arith
  holds-enqueue (r ∷ q) = ground (arith, holds-enqueue q)

  pub waits-enqueue :
      (q : List LockRequest) → waits t m (enqueue u k q) ≡ (waits t m q || (t == u && mode_eq m k))
  unfolding waits enqueue
  waits-enqueue [] = ground arith
  waits-enqueue (r ∷ q) = ground (arith, waits-enqueue q)

  pub holds-erase_node : (q : List LockRequest) → holds t m (erase_node u k q) ≡ holds t m q
  unfolding holds erase_node
  holds-erase_node [] = refl
  holds-erase_node (r ∷ q) = ground (arith, holds-erase_node q)

  erased_node :
      (r : LockRequest) (w : Bool)
      → is_node u k r ≡ true
      → ((is_node t m r || w) && not (t == u && mode_eq m k)) ≡ (w && not (t == u && mode_eq m k))
  erased_node r w e = ground arith

  kept_node :
      (r : LockRequest) (w : Bool)
      → is_node u k r ≡ false
      → (is_node t m r || (w && not (t == u && mode_eq m k)))
        ≡ ((is_node t m r || w) && not (t == u && mode_eq m k))
  kept_node r w e = ground arith

  pub waits-erase_node :
      (q : List LockRequest)
      → waits t m (erase_node u k q) ≡ (waits t m q && not (t == u && mode_eq m k))
  unfolding waits erase_node
  waits-erase_node [] = refl
  waits-erase_node (r ∷ q) = elim (Bool-cases (is_node u k r)) [
    | inl e ↦ rw e (waits-erase_node q ∙ sym (erased_node r _ e))
    | inr e ↦ rw e (rw (waits-erase_node q) (kept_node r _ e))
  ]

  pub holds-grant_node :
      (q : List LockRequest)
      → holds t m (grant_node u k q) ≡ (holds t m q || (waits u k q && (t == u && mode_eq m k)))
  unfolding holds waits grant_node
  holds-grant_node [] = refl
  holds-grant_node (r ∷ q) = ground (arith, holds-grant_node q)

  pub waits-grant_node :
      (q : List LockRequest)
      → waits t m (grant_node u k q) ≡ (waits t m q && not (t == u && mode_eq m k))
  unfolding waits grant_node
  waits-grant_node [] = refl
  waits-grant_node (r ∷ q) = ground (arith, waits-grant_node q)
