-- ===== src/Examples/Stores.antt =====
-- The lockers and the registry in the small world.
use agentic_tenancy.Registry.Mock.Invariant.{
  RegistryCall, create, touch, delete, perform_all, perform_all-WellKeyed,
}
use agentic_tenancy.Base.{◌≡◌, ◌≢◌, refl, true, List, [], ◌∷◌, ok}
use agentic_tenancy.Base.Dict
use agentic_tenancy.Registry.Laws.{IsRegistry}
use agentic_tenancy.Registry.Mock.{mock_client}
use agentic_tenancy.Registry.Mock.WellKeyed.{WellKeyed}
use agentic_tenancy.Registry.Mock.Refines.{mock_client-IsRegistry, IsGood, look}
use agentic_tenancy.Lock.{acquire_wake_lock, redis_locker}
use agentic_tenancy.Lock.Exclusion.{LockCall, acquire, release, after, redis_locker_excludes}
use agentic_tenancy.Examples.World.{alice, steady, clock, tenants, exists, rdb, rdb-IsRedis, start}

mock_client-IsRegistry_example :
    IsRegistry (mock_client clock tenants) (IsGood clock tenants steady) (look clock tenants steady)
mock_client-IsRegistry_example = mock_client-IsRegistry clock tenants steady

abbrev calls : List LockCall
calls = acquire "bob" 5 ∷ acquire "alice" 5 ∷ release "bob" ∷ []

first : (acquire_wake_lock rdb "alice" 5 start).0 ≡ ok true
unfolding acquire_wake_lock Dict.lookup
first = refl

redis_locker_excludes_example :
    (acquire_wake_lock rdb "alice" 7
      (after (redis_locker rdb) calls (acquire_wake_lock rdb "alice" 5 start).1)).0
    ≢ ok true
redis_locker_excludes_example =
    redis_locker_excludes rdb exists rdb-IsRedis "alice" 5 7 calls start first
      (refl, (refl, (refl, tt)))

abbrev registry_calls : List RegistryCall
registry_calls = create (record alice { tenant_id = "carol" }) ∷ touch "bob" ∷ delete "alice" ∷ []

start-WellKeyed : WellKeyed (tenants.view start)
unfolding Dict.lookup
start-WellKeyed = (refl, refl, (refl, refl, tt))

perform_all-WellKeyed_example :
    WellKeyed (tenants.view (perform_all (mock_client clock tenants) registry_calls start))
perform_all-WellKeyed_example =
    perform_all-WellKeyed clock tenants steady registry_calls start start-WellKeyed
