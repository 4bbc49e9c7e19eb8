-- ===== src/Examples/Passes.antt =====
-- A pass of the idle check and one of the reconciler in the small world: alice has been silent for
-- longer than her timeout, and has no pod.
use agentic_tenancy.Base.Dict
use agentic_tenancy.Base.Dict.{Dict}
use agentic_tenancy.Registry.Mock
use agentic_tenancy.Registry.Mock.{select, is_stale}
use agentic_tenancy.Base.{
  List, All, Bool-cases, inr, subst, ok, err, true, false, [], ◌∷◌, inl, arith, ℕ, ◌+◌, ◌*◌, ◌<◌,
  ◌≡◌, ◌⊎◌, refl, some,
}
use agentic_tenancy.Services.{Clock}
use agentic_tenancy.Registry.{idle, TenantRecord, running}
use agentic_tenancy.Registry.Laws.{with_status}
use agentic_tenancy.Kube.Objects.{KubeClient, pod_name}
use agentic_tenancy.Kube.Pods.{second, pod_exists, delete_pod}
use agentic_tenancy.Ticker.{done}
use agentic_tenancy.Lifecycle.{
  is_expired, since, timeout_of, Controller, default_idle, check_idle_tenants, Leases, new,
}
use agentic_tenancy.Lifecycle.Progress.{check_idle_tenants_stops}
use agentic_tenancy.Reconciler.Progress.{reconcile_resets}
use agentic_tenancy.Examples.World.{
  alice, registry-IsRegistry, look_in, IsFine, World, clock, look, registry, rdb, start,
}
use agentic_tenancy.Examples.Cluster.{api_with, api_with-KubeFrames, not_found, k8s, api-KubeFrames}
use agentic_tenancy.Lifecycle.Idle.{StoppedIn, check_idle_tenants_lem}
use agentic_tenancy.Reconciler.{Reconciler, reconcile}
use agentic_tenancy.Reconciler.Drift.{ResetIn, reconcile_lem}

-- An election that is won, and lost after the first pass.
abbrev pub leads : Leases World
leads = record { run_or_die = λ config on_started. on_started (done ∷ []) }

abbrev controller : Controller World
controller = new clock registry k8s leads "tenants" "orchestrator-0"

abbrev reconciler : Reconciler World
reconciler = record { reg = registry; k8s = k8s; rdb = rdb; namespace = "tenants"; clock = clock }

start-IsGood : IsFine start
unfolding Dict.lookup
start-IsGood = (refl, refl, (refl, refl, tt))

select-fresh :
    (now age : ℕ) (d : Dict TenantRecord)
    → All (λ t. t.last_active_at + age < now) (select (is_stale now age) d)
unfolding select
select-fresh now age [] = tt
select-fresh now age ((k, r) ∷ d) = elim (Bool-cases (is_stale now age r)) [
  | inl e ↦ rw e (ground (arith, e), select-fresh now age d)
  | inr e ↦ rw e (select-fresh now age d)
]

-- The mock lists by the clock's reading at its start.
lists_by_clock :
    (age : ℕ) (w : World) (l : List TenantRecord)
    → (registry.list_idle_tenants age w).0 ≡ ok l
    → All (λ t. t.last_active_at + age < (clock.now w).0) l
unfolding Mock.list_idle_tenants
lists_by_clock age w l e =
    subst (All (λ t. t.last_active_at + age < (clock.now w).0)) (cc)
      (select-fresh (clock.now w).0 age w.core.tenants)

check_idle_tenants_lem_example :
    (look (check_idle_tenants controller start).1 "alice" ≡ look start "alice")
    ⊎ ((t : TenantRecord) × (l : List TenantRecord) × (look start "alice" ≡ some t)
        × (t.status ≡ running)
        × (t.last_active_at + 300 * second < (clock.now start).0)
        × ((registry.list_idle_tenants default_idle start).0 ≡ ok l)
        × StoppedIn controller l
            (registry.list_idle_tenants default_idle start).1
            t
            (look (check_idle_tenants controller start).1 "alice"))
check_idle_tenants_lem_example =
    check_idle_tenants_lem controller IsFine look registry-IsRegistry (record { at = λ w. refl })
      (api-KubeFrames look_in) lists_by_clock start start-IsGood "alice"

reconcile_lem_example :
    (look (reconcile reconciler start).1 "alice" ≡ look start "alice")
    ⊎ ((t : TenantRecord) × (l : List TenantRecord) × (look start "alice" ≡ some t)
        × (t.status ≡ running)
        × ((registry.list_by_status running start).0 ≡ ok l)
        × ResetIn reconciler l
            (registry.list_by_status running start).1
            t
            (look (reconcile reconciler start).1 "alice"))
reconcile_lem_example =
    reconcile_lem reconciler IsFine look registry-IsRegistry (record { at = λ w. refl })
      (λ k. record { at = λ w. refl }) (api-KubeFrames look_in) start start-IsGood "alice"

-- The clock stands, and no pod is ever found.
abbrev stopped_clock : Clock World
stopped_clock = record clock { now = λ w. (1000000000000, w) }

abbrev no_pods : KubeClient World
no_pods = record k8s { cs = api_with (λ name pods. err not_found) }

abbrev bare_controller : Controller World
bare_controller = record controller { k8s = no_pods; clock = stopped_clock }

abbrev bare_reconciler : Reconciler World
bare_reconciler = record reconciler { k8s = no_pods }

alice_is_late : (w : World) → is_expired (stopped_clock.now w).0 alice ≡ true
unfolding is_expired since timeout_of
alice_is_late w = refl

pods_go : (w : World) → (delete_pod no_pods alice.pod_name alice.namespace 30 w).0 ≡ ok tt
unfolding delete_pod
pods_go w = refl

updates :
    (w : World)
    → look w alice.tenant_id ≡ some alice
    → (registry.update_status alice.tenant_id idle "" "" w).0 ≡ ok tt
unfolding Mock.update_status
updates w held = ground arith

pod_is_missing : (w : World) → (pod_exists no_pods (pod_name "alice") "tenants" w).0 ≡ ok false
unfolding pod_exists
pod_is_missing w = refl

idle_ones : (registry.list_idle_tenants default_idle start).0 ≡ ok (alice ∷ [])
unfolding Mock.list_idle_tenants Mock.select
idle_ones = refl

running_ones : (registry.list_by_status running start).0 ≡ ok (alice ∷ [])
unfolding Mock.list_by_status Mock.select
running_ones = refl

check_idle_tenants_stops_example :
    (at : ℕ) × (look (check_idle_tenants bare_controller start).1 "alice"
      ≡ some (with_status alice idle "" "" at))
check_idle_tenants_stops_example =
    check_idle_tenants_stops bare_controller IsFine look registry-IsRegistry
      (record { at = λ w. refl }) (api_with-KubeFrames (λ name pods. err not_found) look_in) alice
      alice_is_late pods_go updates start (alice ∷ []) start-IsGood idle_ones (inl refl)

reconcile_resets_example :
    (at : ℕ) × (look (reconcile bare_reconciler start).1 "alice"
      ≡ some (with_status alice idle "" "" at))
reconcile_resets_example =
    reconcile_resets bare_reconciler IsFine look registry-IsRegistry (record { at = λ w. refl })
      (λ k. record { at = λ w. refl }) (api_with-KubeFrames (λ name pods. err not_found) look_in)
      alice (λ w. refl) pod_is_missing updates start (alice ∷ []) start-IsGood running_ones
      (inl refl)
