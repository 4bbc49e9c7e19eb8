-- ===== src/Lock/Laws.antt =====
-- What a locker promises, and what `RedisLocker` takes for granted of Redis.
use agentic_tenancy.Base.{
  ℕ, String, ◌≡◌, ◌⊎◌, Bool, true, false, Error, ok, err, ◌==◌, string_eq, if◌then◌else◌,
}
use agentic_tenancy.Lock.{Locker}
use agentic_tenancy.Services.{Redis}

abbrev pub Marks : (String → Bool) → String → Bool → (String → Bool) → Type 0
Marks old id b new = (j : String) → new j ≡ (if id == j then b else old j)

abbrev pub Same : (String → Bool) → (String → Bool) → Type 0
Same old new = (j : String) → new j ≡ old j

-- A call that returns an error has taken effect, or it has not.
pub record IsLocker {W : Type 0} (l : Locker W) (held : W → String → Bool) : Type 0 where
  pub acquired :
      (id : String) (ttl : ℕ) (w : W)
      → (l.acquire_wake_lock id ttl w).0 ≡ ok true
      → (held w id ≡ false) × Marks (held w) id true (held (l.acquire_wake_lock id ttl w).1)
  pub refused :
      (id : String) (ttl : ℕ) (w : W)
      → (l.acquire_wake_lock id ttl w).0 ≡ ok false
      → (held w id ≡ true) × Same (held w) (held (l.acquire_wake_lock id ttl w).1)
  pub acquire_failed :
      (id : String) (ttl : ℕ) (w : W) (e : Error)
      → (l.acquire_wake_lock id ttl w).0 ≡ err e
      → Same (held w) (held (l.acquire_wake_lock id ttl w).1)
        ⊎ ((held w id ≡ false) × Marks (held w) id true (held (l.acquire_wake_lock id ttl w).1))
  pub released :
      (id : String) (w : W)
      → (l.release_wake_lock id w).0 ≡ ok tt
      → Marks (held w) id false (held (l.release_wake_lock id w).1)
  pub release_failed :
      (id : String) (w : W) (e : Error)
      → (l.release_wake_lock id w).0 ≡ err e
      → Same (held w) (held (l.release_wake_lock id w).1)
        ⊎ Marks (held w) id false (held (l.release_wake_lock id w).1)

-- The documented behaviour of `SETNX` and `DEL`, on the keys that exist while the commands run. A
-- call that returns an error has been carried out by the server, or it has not.
-- A key whose time to live ends is one that some other action removed.
pub record IsRedis {W : Type 0} (rdb : Redis W) (exists : W → String → Bool) : Type 0 where
  pub set_nx_true :
      (k v : String) (ttl : ℕ) (w : W)
      → (rdb.set_nx k v ttl w).0 ≡ ok true
      → (exists w k ≡ false) × Marks (exists w) k true (exists (rdb.set_nx k v ttl w).1)
  pub set_nx_false :
      (k v : String) (ttl : ℕ) (w : W)
      → (rdb.set_nx k v ttl w).0 ≡ ok false
      → (exists w k ≡ true) × Same (exists w) (exists (rdb.set_nx k v ttl w).1)
  pub set_nx_failed :
      (k v : String) (ttl : ℕ) (w : W) (e : Error)
      → (rdb.set_nx k v ttl w).0 ≡ err e
      → Same (exists w) (exists (rdb.set_nx k v ttl w).1)
        ⊎ ((exists w k ≡ false) × Marks (exists w) k true (exists (rdb.set_nx k v ttl w).1))
  pub del_done :
      (k : String) (w : W)
      → (rdb.del k w).0 ≡ ok tt
      → Marks (exists w) k false (exists (rdb.del k w).1)
  pub del_failed :
      (k : String) (w : W) (e : Error)
      → (rdb.del k w).0 ≡ err e
      → Same (exists w) (exists (rdb.del k w).1) ⊎ Marks (exists w) k false (exists (rdb.del k w).1)
