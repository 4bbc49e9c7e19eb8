-- ===== src/Lock/Exclusion.antt =====
-- Mutual exclusion, over any sequence of calls by any number of replicas.
use agentic_tenancy.Base.{
  inl, inr, ℕ, String, ◌≡◌, ◌≢◌, refl, Bool, true, false, List, [], ◌∷◌, Result, ok, err, All, ◌==◌,
  string_eq, arith, eq_iff,
}
use agentic_tenancy.Lock.{Locker, redis_locker, acquire_wake_lock}
use agentic_tenancy.Lock.Laws.{IsLocker, IsRedis}
use agentic_tenancy.Lock.Keeps.{redis_locker-IsLocker, key_held}
use agentic_tenancy.Services.{Redis}

-- A call of one replica.
pub data LockCall : Type 0 where
  acquire : String → ℕ → LockCall
  release : String → LockCall

abbrev pub releases : String → LockCall → Bool
releases id (acquire _ _) = false
releases id (release j) = j == id

module _ {W : Type 0} (l : Locker W) where
  -- The world after the calls, made in this order.
  pub after : List LockCall → W → W
  after [] w = w
  after (acquire id ttl ∷ rest) w = after rest (l.acquire_wake_lock id ttl w).1
  after (release id ∷ rest) w = after rest (l.release_wake_lock id w).1

  module _ (held : W → String → Bool) (h : IsLocker l held) where
    -- No acquisition takes a lock away.
    held-acquire :
        (id j : String) (ttl : ℕ) (w : W)
        → held w id ≡ true
        → (o : Result Bool) → (l.acquire_wake_lock j ttl w).0 ≡ o
        → held (l.acquire_wake_lock j ttl w).1 id ≡ true
    held-acquire id j ttl w e (ok true) p = ground (arith, (h.acquired j ttl w p).1 id)
    held-acquire id j ttl w e (ok false) p = ground (arith, (h.refused j ttl w p).1 id)
    held-acquire id j ttl w e (err x) p = elim (h.acquire_failed j ttl w x p) [
      | inl same ↦ ground (arith, same id)
      | inr (free, marks) ↦ ground (arith, marks id)
    ]

    -- Only a release of the tenant's own lock takes it away.
    held-release :
        (id j : String) (w : W)
        → held w id ≡ true
        → (j == id) ≡ false
        → (o : Result (Unit {0})) → (l.release_wake_lock j w).0 ≡ o
        → held (l.release_wake_lock j w).1 id ≡ true
    held-release id j w e ne (ok tt) p = ground (arith, h.released j w p id)
    held-release id j w e ne (err x) p = elim (h.release_failed j w x p) [
      | inl same ↦ ground (arith, same id)
      | inr marks ↦ ground (arith, marks id)
    ]

    held-after :
        (id : String) (calls : List LockCall) (w : W)
        → All (λ c. releases id c ≡ false) calls
        → held w id ≡ true
        → held (after calls w) id ≡ true
    unfolding after
    held-after id [] w _ e = e
    held-after id (acquire j ttl ∷ rest) w a e =
        held-after id rest (l.acquire_wake_lock j ttl w).1 a.1 (held-acquire id j ttl w e _ refl)
    held-after id (release j ∷ rest) w a e =
        held-after id rest (l.release_wake_lock j w).1 a.1 (held-release id j w e a.0 _ refl)

    acquire_excludes :
        (id : String) (ttl ttl' : ℕ) (calls : List LockCall) (w : W)
        → (l.acquire_wake_lock id ttl w).0 ≡ ok true
        → All (λ c. releases id c ≡ false) calls
        → (l.acquire_wake_lock id ttl' (after calls (l.acquire_wake_lock id ttl w).1)).0 ≢ ok true
    acquire_excludes id ttl ttl' calls w e a again =
        let w1 = (l.acquire_wake_lock id ttl w).1 in
        let still =
          held-after id calls w1 a (ground (arith, (h.acquired id ttl w e).1 id, eq_iff id id)) in
        cc (still, (h.acquired id ttl' (after calls w1) again).0)

-- Once a replica has a tenant's wake lock in Redis, no acquisition of it succeeds, whatever calls of
-- the locker are made in between by whomever, as long as none of them releases that tenant's lock
-- and no key expires: Redis behaves as documented, and a call that fails may have been carried out.
pub redis_locker_excludes :
    {W : Type 0} (rdb : Redis W) (exists : W → String → Bool)
    → IsRedis rdb exists
    → (id : String) (ttl ttl' : ℕ) (calls : List LockCall) (w : W)
    → (acquire_wake_lock rdb id ttl w).0 ≡ ok true
    → All (λ c. releases id c ≡ false) calls
    → (acquire_wake_lock rdb id ttl'
        (after (redis_locker rdb) calls (acquire_wake_lock rdb id ttl w).1)).0
      ≢ ok true
redis_locker_excludes rdb exists h =
    acquire_excludes (redis_locker rdb) (key_held exists) (redis_locker-IsLocker rdb exists h)
