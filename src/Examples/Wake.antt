-- ===== src/Examples/Wake.antt =====
-- A wake in the small world: bob is idle, and a pod is started for him.
use agentic_tenancy.Base.{
  ℕ, ◌≤◌, String, ◌≡◌, ◌≢◌, ◌⊎◌, refl, Bool, true, none, some, [], ◌∷◌, Error, msg, out_of_fuel, ok,
  err, arith,
}
use agentic_tenancy.Services.{Frames}
use agentic_tenancy.Registry.{TenantRecord, running}
use agentic_tenancy.Lock.Laws.{IsLocker, Same}
use agentic_tenancy.Lock.Keeps.{mock_locker-IsLocker}
use agentic_tenancy.Api.{pod_ip_json, Handler}
use agentic_tenancy.Base.Dict
use agentic_tenancy.Registry.Mock
use agentic_tenancy.Lock.{mock_acquire, mock_release, is_locked}
use agentic_tenancy.Kube.Pods.{create_tenant_pod, wait_pod_ready}
use agentic_tenancy.Kube.Volumes.{create_pvc}
use agentic_tenancy.Kube.WarmPool.{get_warm_pod, claim_first}
use agentic_tenancy.Api.Wake.{
  wake, wake_or_get, wake_with, wake_slowly, provision, ensure_record, claim_node, start_pod,
  poll_until_running, poll_loop,
}
use agentic_tenancy.Api.Wake.Answer.{wake_lem}
use agentic_tenancy.Api.Wake.Frames.{ClockFrames, RegistryFrames}
use agentic_tenancy.Api.Wake.Poll.{ClockAdvances, poll_until_running_ends, poll_until_running_sound}
use agentic_tenancy.Api.Wake.Outcome.{RegisteredAt, wake_or_get-RegisteredAt}
use agentic_tenancy.Api.Wake.Locking.{wake_or_get-Same}
use agentic_tenancy.Api.Wake.Failure.{AtMostAdded, wake_or_get_failed}
use agentic_tenancy.Examples.World.{
  registry-IsRegistry, look_in, IsFine, World, Core, clock, locks, look, held, registry, locker,
  start,
}
use agentic_tenancy.Examples.Cluster.{k8s, find_pod, api-KubeFrames, api-PollIsSound}

abbrev pub handler : Handler World
handler = record {
  reg = registry;
  k8s = some k8s;
  lock = locker;
  rdb = none;
  tg = none;
  cfg = record {
    namespace = "tenants";
    s3_bucket = "bucket";
    wake_lock_ttl = 240000000000;
    pod_ready_wait = 210000000000;
  };
  clock = clock;
}

pub locker-IsLocker : IsLocker locker held
locker-IsLocker = mock_locker-IsLocker locks

pub still : {V : Type 0} (view : Core → V) → ClockFrames clock (λ (w : World). view w.core)
still view = record { tells = record { at = λ w. refl }; pauses = λ d. record { at = λ w. refl } }

pub releases : (id : String) → Frames look (handler.lock.release_wake_lock id)
unfolding mock_release
releases id = record { at = λ w. refl }

pub acquires : (id : String) (ttl : ℕ) → Frames look (handler.lock.acquire_wake_lock id ttl)
unfolding mock_acquire
acquires id ttl = record { at = λ w. ground arith }

woken_ip : (wake_or_get handler "bob" start).0 ≡ ok "10.0.0.9"
unfolding wake_or_get wake_with wake_slowly provision ensure_record claim_node start_pod create_pvc
    get_warm_pod claim_first create_tenant_pod wait_pod_ready Mock.get_tenant Mock.update_status
    mock_acquire mock_release Dict.lookup Dict.insert Dict.erase find_pod
woken_ip = refl

wake_or_get-RegisteredAt_example :
    RegisteredAt look "bob" "10.0.0.9" (wake_or_get handler "bob" start).1
wake_or_get-RegisteredAt_example =
    wake_or_get-RegisteredAt handler IsFine look registry-IsRegistry releases k8s api-PollIsSound
      refl "bob" start "10.0.0.9" woken_ip

abbrev pub held_in : Core → String → Bool
held_in c id = is_locked (Dict.lookup id c.locks)

released : (id : String) (w : World) → (handler.lock.release_wake_lock id w).0 ≡ ok tt
unfolding mock_release
released id w = refl

pub registry_frames : RegistryFrames registry held
unfolding Mock.get_tenant Mock.create_tenant Mock.update_status
registry_frames = record {
  gets = λ id. record { at = λ w. refl };
  creates = λ r. record { at = λ w. ground arith };
  sets_status = λ id s n ip. record { at = λ w. ground arith };
}

quiet :
    (id : String) (ttl : ℕ) (w : World) (e : Error)
    → (handler.lock.acquire_wake_lock id ttl w).0 ≡ err e
    → Same (held w) (held (handler.lock.acquire_wake_lock id ttl w).1)
unfolding mock_acquire
quiet id ttl w e f j = ground arith

wake_or_get-Same_example : Same (held start) (held (wake_or_get handler "bob" start).1)
wake_or_get-Same_example =
    wake_or_get-Same handler held locker-IsLocker released quiet (still held_in) registry_frames k8s
      (api-KubeFrames held_in) refl "bob" start

-- The lock of bob is taken, and nobody starts his pod: the wake times out.
abbrev locked : World
locked = record start { core = record start.core { locks = ("bob", true) ∷ [] } }

abbrev hasty : Handler World
hasty = record handler { cfg = record handler.cfg { wake_lock_ttl = 3000000000 } }

abbrev timed_out : Error
timed_out = msg "timeout waiting for tenant bob to become running"

times_out : (wake_or_get hasty "bob" locked).0 ≡ err timed_out
unfolding wake_or_get wake_with wake_slowly poll_until_running poll_loop Mock.get_tenant
    mock_acquire Dict.lookup
times_out = refl

wake_or_get_failed_example : AtMostAdded look "bob" locked (wake_or_get hasty "bob" locked).1
wake_or_get_failed_example =
    wake_or_get_failed hasty IsFine look registry-IsRegistry (still look_in) acquires releases k8s
      (api-KubeFrames look_in) refl "bob" locked timed_out times_out

advances : ClockAdvances clock (λ w. w.now)
advances = record {
  reads = λ w. (refl, omega arith);
  pauses = λ d w h. omega arith;
  cut_short = λ d w h. cc;
}

read_takes_no_time : (id : String) (w : World) → w.now ≤ (handler.reg.get_tenant id w).1.now
unfolding Mock.get_tenant
read_takes_no_time id w = omega arith

poll_until_running_ends_example : (poll_until_running handler "bob" start).0 ≢ err out_of_fuel
poll_until_running_ends_example =
    poll_until_running_ends handler (λ w. w.now) advances read_takes_no_time "bob" start

abbrev alice_ip : String
alice_ip = "10.0.0.7"

alice_runs : (poll_until_running handler "alice" start).0 ≡ ok alice_ip
unfolding poll_until_running poll_loop Mock.get_tenant Dict.lookup
alice_runs = refl

poll_until_running_sound_example :
    (w1 : World) × (r : TenantRecord) × (handler.reg.get_tenant "alice" w1
      ≡ (ok (some r), (poll_until_running handler "alice" start).1))
    × (r.status ≡ running)
    × (r.pod_ip ≡ alice_ip)
    × (alice_ip ≢ "")
poll_until_running_sound_example =
    poll_until_running_sound handler "alice" start alice_ip alice_runs

-- Carol has no record: the wake makes one.
carol_woken : (wake_or_get handler "carol" start).0 ≡ ok "10.0.0.9"
unfolding wake_or_get wake_with wake_slowly provision ensure_record claim_node start_pod create_pvc
    get_warm_pod claim_first create_tenant_pod wait_pod_ready Mock.get_tenant Mock.update_status
    Mock.create_tenant mock_acquire mock_release Dict.lookup Dict.insert Dict.erase find_pod
carol_woken = refl

wake_lem_example :
    let (response, w') = wake handler "bob" start in
    ((ip : String) × (response.status ≡ 200)
      × (response.body ≡ pod_ip_json ip)
      × RegisteredAt look "bob" ip w')
    ⊎ ((response.status ≡ 503) × AtMostAdded look "bob" start w')
wake_lem_example =
    wake_lem handler IsFine look registry-IsRegistry (still look_in) acquires releases k8s
      (api-KubeFrames look_in) api-PollIsSound refl "bob" start
