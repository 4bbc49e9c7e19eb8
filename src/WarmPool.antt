-- ===== src/WarmPool.antt =====
-- internal/warmpool/warmpool.go: the manager that keeps the warm-pool deployment at its size.
use agentic_tenancy.Base.{ℕ, ◌*◌, ◌%◌, ◌^◌, String, List, Action, pure, ◌>>◌}
use agentic_tenancy.Kube.Objects.{KubeClient}
use agentic_tenancy.Kube.Pods.{second}
use agentic_tenancy.Kube.WarmPool.{ensure_warm_pool_deployment}
use agentic_tenancy.Ticker.{Signal, run_loop}

-- `target` is an int32, as its bit pattern; `interval` is in nanoseconds.
pub record Manager (W : Type 0) : Type 0 where
  pub k8s : KubeClient W
  pub namespace : String
  pub target : ℕ
  pub interval : ℕ

-- `New`: the conversion `int32(target)` keeps the low 32 bits.
unfoldable pub new : {W : Type 0} → KubeClient W → String → ℕ → Manager W
new k8s namespace target = record {
  k8s = k8s;
  namespace = namespace;
  target = target % 2 ^ 32;
  interval = 30 * second;
}

-- A failure is only logged.
unfoldable pub reconcile : {W : Type 0} → Manager W → Action W (Unit {0})
reconcile m = ensure_warm_pool_deployment m.k8s m.namespace m.target >> pure tt

unfoldable pub run : {W : Type 0} → Manager W → List Signal → Action W (Unit {0})
unfolding run_loop
run m = run_loop (reconcile m)
