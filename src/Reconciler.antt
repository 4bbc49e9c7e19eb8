-- ===== src/Reconciler.antt =====
-- internal/reconciler/reconciler.go: tenants that are registered as running while their pod is gone
-- are reset.
pub mod Drift
pub mod Progress
use agentic_tenancy.Base.{
  ℕ, String, ◌<>◌, Bool, true, false, List, [], ◌∷◌, Result, ok, err, Action, pure, ◌>>=◌, ◌>>◌,
}
use agentic_tenancy.Registry.{TenantRecord, RegistryClient, running, idle}
use agentic_tenancy.Kube.Objects.{KubeClient}
use agentic_tenancy.Kube.Pods.{pod_exists}
use agentic_tenancy.Services.{Clock, Redis}
use agentic_tenancy.Ticker.{Signal, run_loop}

-- `Reconciler`; the interval is the ticker's.
pub record Reconciler (W : Type 0) : Type 0 where
  pub reg : RegistryClient W
  pub k8s : KubeClient W
  pub rdb : Redis W
  pub namespace : String
  pub clock : Clock W

-- `fmt.Sprintf("zeroclaw-%s", t.TenantID)` and `fmt.Sprintf("router:endpoint:%s", t.TenantID)`
abbrev pub expected_pod : TenantRecord → String
expected_pod t = "zeroclaw-" <> t.tenant_id

abbrev pub cache_key : TenantRecord → String
cache_key t = "router:endpoint:" <> t.tenant_id

module _ {W : Type 0} (r : Reconciler W) where
  -- The pod is missing. A failure to clear the cache is only logged.
  unfoldable pub reset_tenant : TenantRecord → Action W (Unit {0})
  reset_tenant t = r.reg.update_status t.tenant_id idle "" "" >>= λ updated. elim updated [
    | err _ ↦ pure tt
    | ok tt ↦ (r.rdb.del (cache_key t) >> pure tt)
  ]

  -- One round of the loop, after the check of the context.
  unfoldable pub reconcile_tenant : TenantRecord → Action W (Unit {0})
  unfolding reset_tenant
  reconcile_tenant t = pod_exists r.k8s (expected_pod t) r.namespace >>= λ found. elim found [
    | err _ ↦ pure tt
    | ok true ↦ pure tt
    | ok false ↦ reset_tenant t
  ]

  unfoldable pub reconcile_all : List TenantRecord → Action W (Unit {0})
  reconcile_all [] = pure tt
  reconcile_all (t ∷ rest) = r.clock.is_cancelled >>= λ cancelled. elim cancelled [
    | true ↦ pure tt
    | false ↦ (reconcile_tenant t >> reconcile_all rest)
  ]

  unfoldable pub reconcile : Action W (Unit {0})
  reconcile = r.reg.list_by_status running >>= λ listed. elim listed [
    | err _ ↦ pure tt
    | ok tenants ↦ reconcile_all tenants
  ]

  unfoldable pub run : List Signal → Action W (Unit {0})
  unfolding run_loop
  run = run_loop reconcile
