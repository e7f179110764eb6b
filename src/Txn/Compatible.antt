-- ===== src/Txn/Compatible.antt =====
-- The operations on a request queue keep its granted requests compatible.
use duck_duck_dbms.Common.{
  ℕ, ◌≡◌, ◌≢◌, sym, Bool, true, false, ◌&&◌, List, [], ◌∷◌, arith, ◌==◌, if◌then◌else◌, keep, All,
  Bool-cases, inl, inr,
}
use duck_duck_dbms.Txn.Queue.{
  LockMode, shared, mode_eq, LockRequest, blocks, can_grant, is_node, grant_node, erase_node,
  erase_tx, enqueue, holds, Agree, Compatible,
}

All-keep :
    (P : LockRequest → Type 0) (p : LockRequest → Bool) (q : List LockRequest)
    → All P q
    → All P (keep p q)
All-keep P p [] a = tt
All-keep P p (r ∷ q) a = ground (arith, All-keep P p q a.1)

Compatible-keep :
    (p : LockRequest → Bool) (q : List LockRequest) → Compatible q → Compatible (keep p q)
Compatible-keep p [] c = tt
Compatible-keep p (r ∷ q) c = elim (Bool-cases (p r)) [
  | inl e ↦ rw e (All-keep (Agree r) p q c.0, Compatible-keep p q c.1)
  | inr e ↦ rw e (Compatible-keep p q c.1)
]

pub Compatible-erase_tx : (t : ℕ) (q : List LockRequest) → Compatible q → Compatible (erase_tx t q)
unfolding erase_tx
Compatible-erase_tx t q = Compatible-keep _ q

pub Compatible-erase_node :
    (t : ℕ) (m : LockMode) (q : List LockRequest) → Compatible q → Compatible (erase_node t m q)
unfolding erase_node
Compatible-erase_node t m q = Compatible-keep _ q

All-enqueue :
    (t : ℕ) (m : LockMode) (r : LockRequest) (q : List LockRequest)
    → All (Agree r) q
    → All (Agree r) (enqueue t m q)
unfolding enqueue
All-enqueue t m r [] a = (λ _ h. cc, tt)
All-enqueue t m r (x ∷ q) a = (a.0, All-enqueue t m r q a.1)

pub Compatible-enqueue :
    (t : ℕ) (m : LockMode) (q : List LockRequest) → Compatible q → Compatible (enqueue t m q)
unfolding enqueue
Compatible-enqueue t m [] c = (tt, tt)
Compatible-enqueue t m (x ∷ q) c = (All-enqueue t m x q c.0, Compatible-enqueue t m q c.1)

abbrev pub Free : ℕ → LockMode → LockRequest → Type 0
Free t m r = blocks t m r ≡ false

pub can_grant-Free :
    (t : ℕ) (m : LockMode) (q : List LockRequest) → can_grant q t m ≡ true → All (Free t m) q
unfolding can_grant
can_grant-Free t m [] h = tt
can_grant-Free t m (r ∷ q) h = elim (Bool-cases (blocks t m r)) [
  | inl e ↦ absurd (cc (stop r q e h))
  | inr e ↦ (e, can_grant-Free t m q (go r q e h))
]
  where
    stop :
        (r : LockRequest) (q : List LockRequest)
        → blocks t m r ≡ true
        → can_grant (r ∷ q) t m ≡ true
        → false ≡ true
    stop r q e h = rw e at h

    go :
        (r : LockRequest) (q : List LockRequest)
        → blocks t m r ≡ false
        → can_grant (r ∷ q) t m ≡ true
        → can_grant q t m ≡ true
    go r q e h = rw e at h

abbrev mark : ℕ → LockMode → LockRequest → LockRequest
mark t m r = if is_node t m r then record r { granted = true } else r

Agree-mark :
    (t : ℕ) (m : LockMode) (a b : LockRequest)
    → Agree a b
    → Free t m a
    → Free t m b
    → Agree (mark t m a) (mark t m b)
Agree-mark t m a b agree fa fb ga gb ne = ground (arith, agree)

All-mark :
    (t : ℕ) (m : LockMode) (a : LockRequest) (q : List LockRequest)
    → All (Agree a) q
    → Free t m a
    → All (Free t m) q
    → All (Agree (mark t m a)) (grant_node t m q)
unfolding grant_node
All-mark t m a [] agree fa fq = tt
All-mark t m a (b ∷ q) agree fa fq =
    (Agree-mark t m a b agree.0 fa fq.0, All-mark t m a q agree.1 fa fq.1)

Compatible-mark :
    (t : ℕ) (m : LockMode) (q : List LockRequest)
    → Compatible q
    → All (Free t m) q
    → Compatible (grant_node t m q)
unfolding grant_node
Compatible-mark t m [] c f = tt
Compatible-mark t m (a ∷ q) c f = (All-mark t m a q c.0 f.0 f.1, Compatible-mark t m q c.1 f.1)

-- Granting a request that passed `can_grant`.
pub Compatible-grant_node :
    (t : ℕ) (m : LockMode) (q : List LockRequest)
    → can_grant q t m ≡ true
    → Compatible q
    → Compatible (grant_node t m q)
Compatible-grant_node t m q h c = Compatible-mark t m q c (can_grant-Free t m q h)

abbrev pub is_held : ℕ → LockMode → LockRequest → Bool
is_held t m r = r.tx_id == t && (mode_eq r.lock_mode m && r.granted)

Agree-is_held :
    (t u : ℕ) (m k : LockMode) (a b : LockRequest)
    → Agree a b
    → t ≢ u
    → is_held t m a ≡ true
    → is_held u k b ≡ true
    → (m ≡ shared) × (k ≡ shared)
Agree-is_held t u m k a b agree ne h h' = ground (arith, agree)

All-holds :
    (t u : ℕ) (m k : LockMode) (a : LockRequest) (q : List LockRequest)
    → All (Agree a) q
    → t ≢ u
    → is_held t m a ≡ true
    → holds u k q ≡ true
    → (m ≡ shared) × (k ≡ shared)
unfolding holds
All-holds t u m k a [] agree ne h h' = cc
All-holds t u m k a (b ∷ q) agree ne h h' = elim (Bool-cases (is_held u k b)) [
  | inl e ↦ Agree-is_held t u m k a b agree.0 ne h e
  | inr e ↦ All-holds t u m k a q agree.1 ne h (rw e at h')
]

is_held_unique :
    (t u : ℕ) (m k : LockMode) (a : LockRequest)
    → t ≢ u
    → is_held t m a ≡ true
    → is_held u k a ≡ false
is_held_unique t u m k a ne h = ground arith

-- Two transactions hold locks on the same row only if both locks are shared.
pub holds-Compatible :
    (t u : ℕ) (m k : LockMode) (q : List LockRequest)
    → Compatible q
    → t ≢ u
    → holds t m q ≡ true
    → holds u k q ≡ true
    → (m ≡ shared) × (k ≡ shared)
unfolding holds
holds-Compatible t u m k [] c ne h h' = cc
holds-Compatible t u m k (a ∷ q) c ne h h' = elim (Bool-cases (is_held t m a)) [
  | inl e ↦ All-holds t u m k a q c.0 ne e (rw (is_held_unique t u m k a ne e) at h')
  | inr e ↦ elim (Bool-cases (is_held u k a)) [
    | inl f ↦ let p = All-holds u t k m a q c.0 (λ e. ne (sym e)) f (rw e at h) in (p.1, p.0)
    | inr f ↦ holds-Compatible t u m k q c.1 ne (rw e at h) (rw f at h')
  ]
]
