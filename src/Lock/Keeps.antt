-- ===== src/Lock/Keeps.antt =====
-- Both lockers keep what the interface promises.
use agentic_tenancy.Base.{String, ◌<>◌, Bool, true, arith, prefixed_eq, Result-cases, inl, inr}
use agentic_tenancy.Base.Dict
use agentic_tenancy.Base.Dict.{Dict, lookup-insert, lookup-erase}
use agentic_tenancy.Lock.{
  key_prefix, redis_locker, mock_locker, mock_acquire, mock_release, is_locked, acquire_wake_lock,
  release_wake_lock,
}
use agentic_tenancy.Lock.Laws.{IsLocker, IsRedis}
use agentic_tenancy.Services.{Redis, Slot}

-- A tenant's lock is held while its key exists.
abbrev pub key_held : {W : Type 0} → (W → String → Bool) → W → String → Bool
key_held exists w id = exists w (key_prefix <> id)

-- `RedisLocker` is a locker, where Redis behaves as documented.
pub redis_locker-IsLocker :
    {W : Type 0} (rdb : Redis W) (exists : W → String → Bool)
    → IsRedis rdb exists
    → IsLocker (redis_locker rdb) (key_held exists)
unfolding acquire_wake_lock release_wake_lock
redis_locker-IsLocker rdb exists h = record {
  acquired = λ id ttl w e.
      let k = key_prefix <> id in
      let (free, marks) = h.set_nx_true k "1" ttl w (ground arith) in
      (free, λ j. ground (arith, marks (key_prefix <> j), prefixed_eq key_prefix id j));
  refused = λ id ttl w e.
      let (busy, same) = h.set_nx_false (key_prefix <> id) "1" ttl w (ground arith) in
      (busy, λ j. ground (arith, same (key_prefix <> j)));
  acquire_failed = λ id ttl w e f. elim (Result-cases (rdb.set_nx (key_prefix <> id) "1" ttl w).0) [
    | inl (b, p) ↦ absurd (ground arith)
    | inr (x, p) ↦ elim (h.set_nx_failed (key_prefix <> id) "1" ttl w x p) [
      | inl same ↦ inl (λ j. ground (arith, same (key_prefix <> j)))
      | inr (free, marks) ↦
          inr (free, λ j. ground (arith, marks (key_prefix <> j), prefixed_eq key_prefix id j))
    ]
  ];
  released = λ id w e j.
      ground
        (arith, h.del_done (key_prefix <> id) w e (key_prefix <> j), prefixed_eq key_prefix id j);
  release_failed = λ id w e f. elim (h.del_failed (key_prefix <> id) w e f) [
    | inl same ↦ inl (λ j. same (key_prefix <> j))
    | inr marks ↦ inr (λ j. ground (arith, marks (key_prefix <> j), prefixed_eq key_prefix id j))
  ];
}

-- `MockLocker` is a locker.
pub mock_locker-IsLocker :
    {W : Type 0} (locks : Slot W (Dict Bool))
    → IsLocker (mock_locker locks) (λ w id. is_locked (Dict.lookup id (locks.view w)))
unfolding mock_acquire mock_release
mock_locker-IsLocker locks = record {
  acquired = λ id ttl w e. (
    ground arith,
    λ j. ground (
      arith,
      locks.view-put (Dict.insert id true (locks.view w)) w,
      lookup-insert id j true (locks.view w),
    ),
  );
  refused = λ id ttl w e. (ground arith, λ j. ground arith);
  acquire_failed = λ id ttl w e f. inl (λ j. ground arith);
  released = λ id w e j.
      ground
        (arith, locks.view-put (Dict.erase id (locks.view w)) w, lookup-erase id j (locks.view w));
  release_failed = λ id w e f. inl (λ j. cc);
}
