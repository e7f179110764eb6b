-- ===== src/Txn/Sets.antt =====
-- The sets of locks, and equality of RIDs.
use duck_duck_dbms.Common.{
  ℕ, ◌≡◌, ◌↔◌, true, false, not, ◌&&◌, ◌||◌, List, [], ◌∷◌, arith, ◌==◌, Bool-cases, inl, inr,
  if◌then◌else◌,
}
use duck_duck_dbms.Txn.Queue.{LockRequest, erase_tx, LockMode, shared, holds, waits, Compatible}
use duck_duck_dbms.Txn.Effects.{holds-erase_tx, waits-erase_tx}
use duck_duck_dbms.Txn.Compatible.{Compatible-erase_tx}
use duck_duck_dbms.Txn.Locks.{Rid, rid_eq, contains, insert, erase, put_queue, remove_all}

pub rid_eq_iff : (a b : Rid) → (rid_eq a b ≡ true) ↔ (a ≡ b)
rid_eq_iff a b = ground arith

pub contains-insert :
    (a b : Rid) (xs : List Rid) → contains a (insert b xs) ≡ (rid_eq b a || contains a xs)
unfolding contains insert
contains-insert a b xs = ground (arith, rid_eq_iff b a)

pub contains-erase :
    (a b : Rid) (xs : List Rid) → contains a (erase b xs) ≡ (not (rid_eq b a) && contains a xs)
unfolding contains erase
contains-erase a b [] = ground arith
contains-erase a b (x ∷ xs) =
    ground (arith, contains-erase a b xs, rid_eq_iff b a, rid_eq_iff x a, rid_eq_iff x b)

module _ (u t : ℕ) (m : LockMode) (r : Rid) where
  pub holds-remove_all :
      (rs : List Rid) (f : Rid → List LockRequest)
      → holds u m (remove_all t rs f r)
        ≡ (if u == t && contains r rs then false else holds u m (f r))
  unfolding remove_all contains
  holds-remove_all [] f = ground arith
  holds-remove_all (x ∷ rs) f = ground (
    arith,
    holds-remove_all rs (put_queue f x (erase_tx t (f x))),
    holds-erase_tx u t m shared (f x),
    rid_eq_iff x r,
  )

  pub waits-remove_all :
      (rs : List Rid) (f : Rid → List LockRequest)
      → waits u m (remove_all t rs f r)
        ≡ (if u == t && contains r rs then false else waits u m (f r))
  unfolding remove_all contains
  waits-remove_all [] f = ground arith
  waits-remove_all (x ∷ rs) f = ground (
    arith,
    waits-remove_all rs (put_queue f x (erase_tx t (f x))),
    waits-erase_tx u t m shared (f x),
    rid_eq_iff x r,
  )

pub Compatible-put_queue :
    (f : Rid → List LockRequest) (x : Rid) (q : List LockRequest) (r : Rid)
    → Compatible (f r)
    → Compatible q
    → Compatible (put_queue f x q r)
Compatible-put_queue f x q r c d = elim (Bool-cases (rid_eq x r)) [
  | inl e ↦ rw e d
  | inr e ↦ rw e c
]

pub Compatible-remove_all :
    (t : ℕ) (rs : List Rid) (f : Rid → List LockRequest)
    → ((r : Rid) → Compatible (f r))
    → (r : Rid) → Compatible (remove_all t rs f r)
unfolding remove_all
Compatible-remove_all t [] f c r = c r
Compatible-remove_all t (x ∷ rs) f c r =
    Compatible-remove_all t rs (put_queue f x (erase_tx t (f x)))
      (λ y. Compatible-put_queue f x _ y (c y) (Compatible-erase_tx t (f x) (c x))) r
