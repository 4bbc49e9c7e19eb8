-- ===== src/Lock.antt =====
-- internal/lock/lock.go: the wake lock, over Redis and over a map.
pub mod Laws
pub mod Keeps
pub mod Exclusion
use agentic_tenancy.Base.{
  ℕ, String, ◌<>◌, Bool, true, false, Option, none, some, Result, ok, err, wrap, Action, ◌>>=◌,
  pure, on_ok,
}
use agentic_tenancy.Base.Dict
use agentic_tenancy.Base.Dict.{Dict}
use agentic_tenancy.Services.{Redis, Slot}

abbrev pub key_prefix : String
key_prefix = "tenant:waking:"

-- The `Locker` interface. A `ttl` is in nanoseconds.
pub record Locker (W : Type 0) : Type 0 where
  pub acquire_wake_lock : String → ℕ → Action W (Result Bool)
  pub release_wake_lock : String → Action W (Result (Unit {0}))

-- `RedisLocker`
module _ {W : Type 0} (rdb : Redis W) where
  unfoldable pub acquire_wake_lock : String → ℕ → Action W (Result Bool)
  acquire_wake_lock id ttl =
      rdb.set_nx (key_prefix <> id) "1" ttl >>= on_ok (wrap "redis SetNX") (λ done. pure (ok done))

  unfoldable pub release_wake_lock : String → Action W (Result (Unit {0}))
  release_wake_lock id = rdb.del (key_prefix <> id)

  abbrev pub redis_locker : Locker W
  redis_locker = record {
    acquire_wake_lock = acquire_wake_lock;
    release_wake_lock = release_wake_lock;
  }

-- `m.locks[id]`: `false` where the key is missing.
abbrev pub is_locked : Option Bool → Bool
is_locked none = false
is_locked (some b) = b

-- `MockLocker`. The channel that serves it as a mutex is taken and given back within each call.
module _ {W : Type 0} (locks : Slot W (Dict Bool)) where
  open locks use {view, put}

  unfoldable pub mock_acquire : String → ℕ → Action W (Result Bool)
  mock_acquire id ttl w = elim (is_locked (Dict.lookup id (view w))) [
    | true ↦ (ok false, w)
    | false ↦ (ok true, put (Dict.insert id true (view w)) w)
  ]

  unfoldable pub mock_release : String → Action W (Result (Unit {0}))
  mock_release id w = (ok tt, put (Dict.erase id (view w)) w)

  abbrev pub mock_locker : Locker W
  mock_locker = record { acquire_wake_lock = mock_acquire; release_wake_lock = mock_release }
